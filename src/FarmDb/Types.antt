-- ===== src/FarmDb/Types.antt =====
-- farm/farm_db.py: the rows of the tables `markets`, `decisions`, `settings` and `commands`.
use polymarket_tools.Prelude.{ℕ, String, Bool, true, false, Option, List}

pub data Status : Type 0 where
  candidate approved rejected retired : Status

pub data DecisionKind : Type 0 where
  as_approved as_rejected as_unrejected : DecisionKind

pub data RejectReason : Type 0 where
  unfamiliar_topic economics resolution_risk horizon not_interested other : RejectReason

abbrev pub is_candidate : Status → Bool
is_candidate candidate = true
is_candidate _ = false

abbrev pub is_approved : Status → Bool
is_approved approved = true
is_approved _ = false

abbrev pub is_rejected : Status → Bool
is_rejected rejected = true
is_rejected _ = false

pub record MarketRow (F : Type 0) : Type 0 where
  pub condition_id : String
  pub slug : String
  pub question : String
  pub status : Status
  pub p_true : Option F
  pub naked_budget_usd : Option F
  pub note : Option String
  pub end_date : String
  pub rewards_active : Bool
  pub rank_score : F
  pub metrics : String
  pub first_seen : ℕ
  pub last_scanned : ℕ
  pub baseline_fav : Option F
  pub baseline_long : Option F
  pub paused : Bool
  pub naked_paused : Bool
  pub capital_usd : Option F
  pub sole_bid : Bool

pub record ScanRow (F : Type 0) : Type 0 where
  pub condition_id : String
  pub slug : String
  pub question : String
  pub end_date : String
  pub rank_score : F
  pub metrics : String

pub record Decision (F : Type 0) : Type 0 where
  pub condition_id : String
  pub at : ℕ
  pub kind : DecisionKind
  pub reason : Option RejectReason
  pub note : Option String
  pub p_true : Option F
  pub metrics : String

-- The value is JSON text.
pub record SettingRow : Type 0 where
  pub key : String
  pub value : String
  pub updated_at : ℕ

pub record CommandRow : Type 0 where
  pub id : ℕ
  pub at : ℕ
  pub kind : String
  pub payload : Option String
  pub consumed_at : Option ℕ
  pub result : Option String

pub record FarmDb (F : Type 0) : Type 0 where
  pub markets : List (MarketRow F)
  pub decisions : List (Decision F)
  pub settings : List SettingRow
  pub commands : List CommandRow
  pub next_command : ℕ
