-- ===== src/FarmDb/Commands.antt =====
-- farm/farm_db.py: the commands that the console sends and the farmer consumes.
pub mod Final
use polymarket_tools.Prelude.{
  ℕ, suc, ◌+◌, String, Bool, true, false, not, ◌&&◌, Option, none, some, List, [], ◌∷◌, ◌++◌,
  is_some, count_if, keep_if, update, ◌==◌,
}
use polymarket_tools.ToolsDb.Types.{stamp}
use polymarket_tools.FarmDb.Types.{CommandRow, FarmDb}

abbrev pub is_pending : CommandRow → Bool
is_pending row = not (is_some row.consumed_at)

abbrev pub consumed : String → ℕ → CommandRow → CommandRow
consumed result now row = record row { consumed_at = some (stamp now); result = some result }

abbrev pub pending_with_id : ℕ → CommandRow → Bool
pending_with_id id row = row.id == id && is_pending row

abbrev expired : String
expired = "expired: sent before this farmer started"

module _ {F : Type 0} where
  -- send_command: the id, of a payload that is JSON text
  unfoldable pub send_command : FarmDb F → String → ℕ → Option String → ℕ × FarmDb F
  send_command db kind now payload = (
    db.next_command,
    record db {
      commands =
          db.commands
          ++ (record {
            id = db.next_command;
            at = stamp now;
            kind = kind;
            payload = payload;
            consumed_at = none;
            result = none;
          }
              ∷ []);
      next_command = suc db.next_command;
    },
  )

  -- pending_commands
  unfoldable pub pending_commands : FarmDb F → List CommandRow
  pending_commands db = keep_if is_pending db.commands

  unfoldable pub consume_command : FarmDb F → ℕ → String → ℕ → FarmDb F
  consume_command db id result now = record db {
    commands = update (pending_with_id id) (consumed result now) db.commands;
  }

  -- expire_commands: how many it expired
  unfoldable pub expire_commands : FarmDb F → ℕ → ℕ × FarmDb F
  expire_commands db now = (
    count_if is_pending db.commands,
    record db { commands = update is_pending (consumed expired now) db.commands },
  )
