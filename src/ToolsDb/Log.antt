-- ===== src/ToolsDb/Log.antt =====
-- tools/db.py: the table `log`.
use polymarket_tools.Prelude.{ℕ, suc, String, Option, [], ◌∷◌, ◌++◌}
use polymarket_tools.ToolsDb.Types.{Db, stamp}

-- _log and append_log
unfoldable pub append_log : {F : Type 0} → Db F → ℕ → String → Option ℕ → Option ℕ → Db F
append_log db now message job_id watch_id = record db {
  log =
      db.log
      ++ (record {
        id = db.next_log;
        at = stamp now;
        job_id = job_id;
        watch_id = watch_id;
        message = message;
      }
          ∷ []);
  next_log = suc db.next_log;
}
