-- ===== src/Restore/Preview.antt =====
-- tools/restore.py: _planned and preview, with the rows of tools/db.py that they read and write.
use polymarket_tools.Prelude.{
  ℕ, Bool, ◌&&◌, Option, none, some, List, [], ◌∷◌, ◌++◌, map, keep_if, any, if◌then◌else◌, ◌&◌,
  ◌==◌,
}
use polymarket_tools.Floats.{Floats}
use polymarket_tools.Python.{
  Json, Builtins, Texts, Result, ok, err, value_error, other_error, ◌>>=◌,
}
use polymarket_tools.Polymarket.Orders.{open_orders}
use polymarket_tools.ToolsDb.Types.{Db, Job, SnapshotOrder, RestoreLine}
use polymarket_tools.Restore.{PlanLine, plan}

module _ {F : Type 0} where
  unfoldable pub read_snapshot_orders : Db F → ℕ → List (SnapshotOrder F)
  read_snapshot_orders db id = keep_if (λ o. o.snapshot_id == id) db.snapshot_orders

  abbrev same_order : RestoreLine F → RestoreLine F → Bool
  same_order a b = (a.job_id == b.job_id) && (a.order.id == b.order.id)

  insert_lines : List (RestoreLine F) → List (RestoreLine F) → Option (List (RestoreLine F))
  insert_lines rows [] = some rows
  insert_lines rows (line ∷ rest) =
      let inserted = insert_lines (rows ++ (line ∷ [])) rest in
      if any (same_order line) rows then none else inserted

  -- add_restore_lines: none where a line is the second for an order in a job, and then nothing is
  -- written
  unfoldable pub add_restore_lines : Db F → List (RestoreLine F) → Option (Db F)
  unfolding insert_lines
  add_restore_lines db lines = elim (insert_lines db.restore_lines lines) [
    | none ↦ none
    | some rows ↦ some (record db { restore_lines = rows })
  ]

module _ {F : Type 0} ⦃fl : Floats F⦄ ⦃py : Builtins F⦄ ⦃tx : Texts⦄ where
  -- _planned, of what the client lists
  unfoldable pub planned : Db F → Job → Json F → ℕ → Result (List (PlanLine F))
  unfolding read_snapshot_orders plan
  planned db job listed now =
      if any (λ id. id == job.params.snapshot_id) db.snapshot_ids
      then open_orders listed >>= (λ live. ok (
          plan (read_snapshot_orders db job.params.snapshot_id) live job.params.managed_markets now
            job.params.retired_markets))
      else err (value_error ("no snapshot " & tx.int_str job.params.snapshot_id))

  preview_line : Job → PlanLine F → RestoreLine F
  preview_line job line = record {
    job_id = job.id;
    order = line.order;
    action = line.action;
    size = line.size;
    order_id = none;
    detail = line.reason;
  }

  -- preview: what it stores, or what it raises, and then nothing is stored
  unfoldable pub preview : Db F → Job → Json F → ℕ → Result (List (RestoreLine F) × Db F)
  unfolding planned preview_line add_restore_lines
  preview db job listed now = planned db job listed now >>= λ lines.
      let stored = map (preview_line job) lines in
      elim (add_restore_lines db stored) [
        | none ↦ err (other_error "IntegrityError")
        | some db' ↦ ok (stored, db')
      ]
