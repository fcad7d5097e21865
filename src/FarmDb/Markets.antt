-- ===== src/FarmDb/Markets.antt =====
-- farm/farm_db.py: the statements on `markets` and `decisions`.
pub mod Logged
pub mod Kept
use polymarket_tools.Prelude.{
  ℕ, suc, ◌+◌, String, Bool, true, false, not, ◌&&◌, ◌||◌, Option, none, some, List, [], ◌∷◌, ◌++◌,
  map, any, count_if, keep_if, update, str_eq, contains, if◌then◌else◌, ◌&◌,
}
use polymarket_tools.ToolsDb.Types.{stamp}
use polymarket_tools.FarmDb.Types.{
  Status, candidate, approved, rejected, retired, DecisionKind, as_approved, as_rejected,
  as_unrejected, RejectReason, is_candidate, is_approved, is_rejected, MarketRow, ScanRow, Decision,
  FarmDb,
}

-- COALESCE(a, b)
abbrev pub coalesce {ℓ} : {A : Type ℓ} → Option A → Option A → Option A
coalesce none b = b
coalesce (some a) b = some a

module _ {F : Type 0} where
  abbrev pub has_id : String → MarketRow F → Bool
  has_id id row = str_eq row.condition_id id

  scanned : ScanRow F → ℕ → MarketRow F → MarketRow F
  scanned scan at row = record row {
    slug = scan.slug;
    question = scan.question;
    end_date = scan.end_date;
    rewards_active = true;
    rank_score = scan.rank_score;
    metrics = scan.metrics;
    last_scanned = at;
  }

  abbrev pub new_market : ScanRow F → ℕ → MarketRow F
  new_market scan at = record {
    condition_id = scan.condition_id;
    slug = scan.slug;
    question = scan.question;
    status = candidate;
    p_true = none;
    naked_budget_usd = none;
    note = none;
    end_date = scan.end_date;
    rewards_active = true;
    rank_score = scan.rank_score;
    metrics = scan.metrics;
    first_seen = at;
    last_scanned = at;
    baseline_fav = none;
    baseline_long = none;
    paused = false;
    naked_paused = false;
    capital_usd = none;
    sole_bid = false;
  }

  -- INSERT … ON CONFLICT (condition_id) DO UPDATE
  upsert : ScanRow F → ℕ → List (MarketRow F) → List (MarketRow F)
  unfolding scanned
  upsert scan at rows =
      if any (has_id scan.condition_id) rows
      then update (has_id scan.condition_id) (scanned scan at) rows
      else rows ++ (new_market scan at ∷ [])

  pub upsert_each : List (ScanRow F) → ℕ → List (MarketRow F) → List (MarketRow F)
  unfolding upsert
  upsert_each [] at rows = rows
  upsert_each (scan ∷ rest) at rows = upsert_each rest at (upsert scan at rows)

  abbrev pub flagged : List String → MarketRow F → MarketRow F
  flagged reward_ids row = record row { rewards_active = contains row.condition_id reward_ids }

  -- store_scan, on `markets`. An empty id names no market.
  unfoldable pub store_scan : FarmDb F → List (ScanRow F) → List String → ℕ → FarmDb F
  unfolding upsert_each
  store_scan db scans reward_ids now = record db {
    markets =
        update (λ row. true) (flagged (keep_if (λ id. not (str_eq id "")) reward_ids))
          (upsert_each scans (stamp now) db.markets);
  }

  -- _log_decision: the p_true given, or none for the market's own
  abbrev entry :
      DecisionKind
      → ℕ
      → Option RejectReason
      → Option String
      → Option (Option F)
      → MarketRow F
      → Decision F
  entry kind now reason note p_true row = record {
    condition_id = row.condition_id;
    at = stamp now;
    kind = kind;
    reason = reason;
    note = note;
    p_true = elim p_true [ none ↦ row.p_true | some given ↦ given ];
    metrics = row.metrics;
  }

  pub log_decision :
      FarmDb F
      → String
      → DecisionKind
      → ℕ
      → (Status → Bool)
      → Option RejectReason
      → Option String
      → Option (Option F)
      → FarmDb F
  log_decision db id kind now admitted reason note p_true = record db {
    decisions =
        db.decisions
        ++ map (entry kind now reason note p_true)
            (keep_if (λ row. has_id id row && admitted row.status) db.markets);
  }

  abbrev write_markets : (MarketRow F → Bool) → (MarketRow F → MarketRow F) → FarmDb F → FarmDb F
  write_markets p f db = record db { markets = update p f db.markets }

  unfoldable pub approve_market : FarmDb F → String → Option F → F → Option F → ℕ → FarmDb F
  unfolding log_decision
  approve_market db id p_true budget capital_usd now =
      write_markets (has_id id)
        (λ row. record row {
          status = approved;
          p_true = p_true;
          naked_budget_usd = some budget;
          capital_usd = coalesce capital_usd row.capital_usd;
        })
        (log_decision db id as_approved now (λ s. not (is_approved s)) none none (some p_true))

  unfoldable pub set_approval : FarmDb F → String → Option F → F → Option F → Bool → ℕ → FarmDb F
  unfolding log_decision
  set_approval db id p_true budget capital_usd paused now =
      write_markets (has_id id)
        (λ row. record row {
          status = approved;
          p_true = p_true;
          naked_budget_usd = some budget;
          capital_usd = capital_usd;
          paused = row.paused || paused;
        })
        (log_decision db id as_approved now (λ s. not (is_approved s)) none none (some p_true))

  unfoldable pub reject_market :
      FarmDb F → String → Option String → Option RejectReason → ℕ → FarmDb F
  unfolding log_decision
  reject_market db id note reason now =
      write_markets (has_id id)
        (λ row. record row { status = rejected; note = coalesce note row.note })
        (log_decision db id as_rejected now (λ s. true) reason note none)

  abbrev rejected_with_id : String → MarketRow F → Bool
  rejected_with_id id row = has_id id row && is_rejected row.status

  -- unreject_market: whether one row was rejected
  unfoldable pub unreject_market : FarmDb F → String → ℕ → Bool × FarmDb F
  unfolding log_decision
  unreject_market db id now = (
    any (rejected_with_id id) db.markets,
    write_markets (rejected_with_id id) (λ row. record row { status = candidate })
        (log_decision db id as_unrejected now is_rejected none none none),
  )

  unfoldable pub retire_market : FarmDb F → String → Option String → FarmDb F
  retire_market db id note =
      write_markets (has_id id)
        (λ row. record row { status = retired; note = coalesce note row.note }) db

  abbrev approved_with_id : String → MarketRow F → Bool
  approved_with_id id row = has_id id row && is_approved row.status

  unfoldable pub mark_retired : FarmDb F → String → String → FarmDb F
  mark_retired db id reason =
      write_markets (approved_with_id id)
        (λ row. record row { status = retired; note = some ("farmer: " & reason) }) db

  unfoldable pub save_baseline : FarmDb F → String → F → F → FarmDb F
  save_baseline db id fav long =
      write_markets (has_id id)
        (λ row. record row { baseline_fav = some fav; baseline_long = some long }) db

  unfoldable pub set_paused : FarmDb F → String → Bool → FarmDb F
  set_paused db id paused = write_markets (has_id id) (λ row. record row { paused = paused }) db

  unfoldable pub set_naked_paused : FarmDb F → String → Bool → FarmDb F
  set_naked_paused db id paused =
      write_markets (has_id id) (λ row. record row { naked_paused = paused }) db

  unfoldable pub set_sole_bid : FarmDb F → String → Bool → FarmDb F
  set_sole_bid db id on = write_markets (has_id id) (λ row. record row { sole_bid = on }) db

  -- The write of set_capital, once the capital was checked
  unfoldable pub write_capital : FarmDb F → String → Option F → FarmDb F
  write_capital db id capital_usd =
      write_markets (has_id id) (λ row. record row { capital_usd = capital_usd }) db

  unfoldable pub set_rewards_active : FarmDb F → String → Bool → FarmDb F
  set_rewards_active db id active =
      write_markets (has_id id) (λ row. record row { rewards_active = active }) db

  -- set_candidates_rewards_active
  unfoldable pub set_candidates_rewards_active : FarmDb F → List String → FarmDb F
  set_candidates_rewards_active db paying =
      write_markets (λ row. is_candidate row.status) (flagged paying) db

  abbrev pub runs : MarketRow F → Bool
  runs row = is_approved row.status && not row.paused

  -- cancel_all: how many it paused
  unfoldable pub cancel_all : FarmDb F → ℕ × FarmDb F
  cancel_all db =
      (count_if runs db.markets, write_markets runs (λ row. record row { paused = true }) db)

  -- load_approved
  unfoldable pub load_approved : FarmDb F → List (MarketRow F)
  load_approved db = keep_if (λ row. is_approved row.status) db.markets
