-- ===== src/FarmDb/Markets/Logged.antt =====
-- farm/farm_db.py: the log of decisions explains every market's status.
pub mod Writes
pub mod Steps
use mathlib.Core.Path.{subst}
use polymarket_tools.Prelude.{
  ℕ, String, Bool, true, false, not, ◌&&◌, ◌||◌, ◌≡◌, refl, sym, ◌∙◌, ◌⊎◌, inl, inr, Option, none,
  some, List, [], ◌∷◌, ◌++◌, map, any, keep_if, update, str_eq, contains, if◌then◌else◌, All,
  All-imp, All-append, All-update, Bool-cases, arith, eq_iff, eq_refl,
}
use polymarket_tools.FarmDb.Types.{
  Status, candidate, approved, rejected, retired, DecisionKind, as_approved, as_rejected,
  as_unrejected, RejectReason, is_candidate, is_approved, is_rejected, MarketRow, ScanRow, Decision,
  FarmDb,
}
use polymarket_tools.FarmDb.Markets.{
  has_id, scanned, new_market, upsert, upsert_each, flagged, store_scan, entry, log_decision,
  write_markets, approve_market, set_approval, reject_market, rejected_with_id, unreject_market,
  retire_market, approved_with_id, mark_retired, save_baseline, set_paused, set_naked_paused,
  set_sole_bid, set_rewards_active, set_candidates_rewards_active, runs, cancel_all,
}

-- What a market's last decision allows its status to be. A retirement is no decision of the log.
abbrev pub explains : Status → Option DecisionKind → Bool
explains candidate none = true
explains candidate (some as_unrejected) = true
explains approved (some as_approved) = true
explains rejected (some as_rejected) = true
explains retired _ = true
explains _ _ = false

abbrev pub later : Option DecisionKind → Option DecisionKind → Option DecisionKind
later (some kind) before = some kind
later none before = before

module _ {F : Type 0} where
  -- The last decision on a market.
  abbrev pub last_of : String → List (Decision F) → Option DecisionKind
  last_of id [] = none
  last_of id (d ∷ ds) =
      later (last_of id ds) (if str_eq d.condition_id id then some d.kind else none)

  last_of-append :
      (id : String) (ds es : List (Decision F))
      → last_of id (ds ++ es) ≡ later (last_of id es) (last_of id ds)
  last_of-append id [] es = ground arith
  last_of-append id (d ∷ ds) es = ground (arith, last_of-append id ds es)

  -- What logging a decision adds.
  last_of-log :
      (id c : String) (kind : DecisionKind) (now : ℕ) (admitted : Status → Bool)
      (reason : Option RejectReason) (note : Option String) (p_true : Option (Option F))
      (rows : List (MarketRow F))
      → last_of id (
          map
            (entry kind now reason note p_true)
            (keep_if (λ row. has_id c row && admitted row.status) rows))
        ≡ (if str_eq c id && any (λ row. has_id c row && admitted row.status) rows
            then some kind
            else none)
  last_of-log id c kind now admitted reason remark p_true [] = ground arith
  last_of-log id c kind now admitted reason remark p_true (row ∷ rows) = ground (
    arith,
    eq_iff row.condition_id c,
    eq_iff row.condition_id id,
    eq_iff c id,
    last_of-log id c kind now admitted reason remark p_true rows,
  )

  abbrev pub Explained : List (Decision F) → List (MarketRow F) → Type 0
  Explained ds = All (λ row. explains row.status (last_of row.condition_id ds) ≡ true)

  any-witness :
      (c : String) (admitted : Status → Bool) (ds : List (Decision F)) (rows : List (MarketRow F))
      → Explained ds rows
      → any (λ row. has_id c row && admitted row.status) rows ≡ true
      → (s : Status) × (admitted s ≡ true) × (explains s (last_of c ds) ≡ true)
  any-witness c admitted ds [] h e = absurd (cc e)
  any-witness c admitted ds (row ∷ rows) h e =
      elim (Bool-cases (has_id c row && admitted row.status)) [
        | inl hit ↦ (
          row.status,
          ground arith,
          subst (λ id. explains row.status (last_of id ds) ≡ true)
              ((eq_iff row.condition_id c).0 (ground arith)) h.0,
        )
        | inr miss ↦ any-witness c admitted ds rows h.1 (ground arith)
      ]

  any-All :
      (q : MarketRow F → Bool) (rows : List (MarketRow F))
      → All (λ row. q row ≡ true → any q rows ≡ true) rows
  any-All q [] = tt
  any-All q (row ∷ rows) = (
    (λ e. ground arith),
    All-imp (λ r. q r ≡ true → any q rows ≡ true) (λ r. q r ≡ true → any q (row ∷ rows) ≡ true)
        (λ r h e. ground (arith, h e)) rows (any-All q rows),
  )

module _ {F : Type 0} (db : FarmDb F) where
  -- Every market's status is what its last decision allows, and no decision is on a market that is
  -- not there.
  pub record IsLogged : Type 0 where
    pub explained : Explained db.decisions db.markets
    pub known : All (λ d. any (has_id d.condition_id) db.markets ≡ true) db.decisions
