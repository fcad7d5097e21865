-- ===== src/Farmer/Lifecycle.antt =====
-- farm/reward_farmer.py: a market's lifecycle, advanced every cycle by step_state. Times are in
-- microseconds since the epoch.
pub mod Gates
use polymarket_tools.Prelude.{
  ℕ, ◌+◌, String, Bool, true, false, not, ◌&&◌, ◌||◌, Option, none, some, List, [], ◌∷◌, ltb, leb,
  str_eq, is_some, keep_if, map, if◌then◌else◌,
}
use polymarket_tools.Floats.{Floats, ◌<?◌, ◌≤?◌, ◌⊕◌, ◌⊖◌, ◌⊗◌, decimal, elapsed, micros}

pub data Phase : Type 0 where
  quoting cooldown below_range sole_bid_phase paused_phase unrewarded retired : Phase

pub record State : Type 0 where
  pub phase : Phase
  pub until : Option ℕ
  pub reason : String

pub record Observation (F : Type 0) : Type 0 where
  pub mid : Option F
  pub ask : Option F
  pub recent_asks : List (ℕ × F)
  pub rewards_active : Bool
  pub accepting_orders : Bool
  pub closed : Bool
  pub approved : Bool
  pub expires_at : ℕ
  pub paused : Bool
  pub naked_paused : Bool
  pub naked_cooldown_until : Option ℕ
  pub resolution : Option String
  pub sole_bid : Bool

pub record FarmConfig (F : Type 0) : Type 0 where
  pub capital : F
  pub max_lead : F
  pub ask_offset : F
  pub min_capture : F
  pub ev_margin : F
  pub min_fav : F
  pub min_low_score : F
  pub keep_ratio : F
  pub drop_threshold : F
  pub drop_window_s : F
  pub cooldown_s : F
  pub naked_cooldown_s : F
  pub expiry_buffer_days : F
  pub hurdle_rate : F

abbrev pub is_quoting : Phase → Bool
is_quoting quoting = true
is_quoting _ = false

-- datetime.max, the last microsecond of the year 9999
abbrev pub last_time : ℕ
last_time = 253402300799999999

abbrev pub is_cooldown : Phase → Bool
is_cooldown cooldown = true
is_cooldown _ = false

abbrev pub is_below_range : Phase → Bool
is_below_range below_range = true
is_below_range _ = false

abbrev pub is_sole_bid : Phase → Bool
is_sole_bid sole_bid_phase = true
is_sole_bid _ = false

abbrev pub is_retired : Phase → Bool
is_retired retired = true
is_retired _ = false

-- phase in (PAUSED, UNREWARDED)
abbrev pub is_suspended : Phase → Bool
is_suspended paused_phase = true
is_suspended unrewarded = true
is_suspended _ = false

abbrev pub plain : Phase → State
plain phase = record { phase = phase; until = none; reason = "" }

abbrev because : Phase → String → State
because phase reason = record { phase = phase; until = none; reason = reason }

abbrev pub resolution_is : Option String → String → Bool
resolution_is none s = false
resolution_is (some r) s = str_eq r s

-- A state that cools down until this time: a time past the last of datetime raises.
cooled : ℕ → Option State
cooled until =
    if ltb last_time until
    then none
    else some (record { phase = cooldown; until = some until; reason = "ask drop" })

module _ {F : Type 0} ⦃fl : Floats F⦄ where
  -- RESUME_MARGIN
  abbrev pub resume_margin : F
  resume_margin = decimal 5 3

  -- RETIRE_CHECKS, in order: the reason of the first that applies
  unfoldable pub retire_reason : Observation F → ℕ → Option String
  retire_reason obs now =
      if obs.closed
      then some "market closed"
      else if not obs.accepting_orders
      then some "not accepting orders"
      else if not obs.approved
      then some "no longer approved"
      else if leb obs.expires_at now
      then some "expiry buffer reached"
      else if resolution_is obs.resolution "event closed"
      then some "event closed"
      else if resolution_is obs.resolution "resolution proposed"
      then some "resolution proposed"
      else none

  -- max(first, *rest)
  abbrev pub max_from : F → List F → F
  max_from best [] = best
  max_from best (x ∷ xs) = max_from (if best <? x then x else best) xs

  -- The asks of the window.
  abbrev pub window_of : List (ℕ × F) → ℕ → F → List F
  window_of recent now window_s =
      map (λ (e : ℕ × F). e.1) (keep_if (λ (e : ℕ × F). elapsed now e.0 ≤? window_s) recent)

  fell : List F → F → F → Bool
  fell [] ask threshold = false
  fell (a ∷ window) ask threshold = threshold ⊖ decimal 1 9 ≤? max_from a window ⊖ ask

  unfoldable pub ask_dropped : List (ℕ × F) → Option F → ℕ → FarmConfig F → Bool
  unfolding fell
  ask_dropped recent none now cfg = false
  ask_dropped recent (some ask) now cfg =
      fell (window_of recent now cfg.drop_window_s) ask cfg.drop_threshold

  -- The last three tests, once the market has a midpoint.
  by_midpoint : State → F → FarmConfig F → State
  by_midpoint state mid cfg =
      if mid <? cfg.min_fav
      then plain below_range
      else if is_below_range state.phase && (mid <? cfg.min_fav ⊕ resume_margin)
      then state
      else plain quoting

  -- none is the TypeError of comparing with None
  by_midpoint? : State → Option F → FarmConfig F → Option State
  unfolding by_midpoint
  by_midpoint? state none cfg = none
  by_midpoint? state (some mid) cfg = some (by_midpoint state mid cfg)

  after_cooldown : State → Observation F → FarmConfig F → Option State
  unfolding by_midpoint?
  after_cooldown state obs cfg =
      if obs.sole_bid then some (plain sole_bid_phase) else by_midpoint? state obs.mid cfg

  cooling : State → Option ℕ → Observation F → ℕ → FarmConfig F → Option State
  unfolding after_cooldown
  cooling state none obs now cfg = none
  cooling state (some until) obs now cfg =
      if ltb now until then some state else after_cooldown state obs cfg

  -- From the book on, for a market that is neither suspended nor retired.
  unfoldable pub by_book : State → Observation F → ℕ → FarmConfig F → Option State
  unfolding cooling ask_dropped cooled
  by_book state obs now cfg =
      if not (is_some obs.mid) && not obs.sole_bid
      then some (if is_sole_bid state.phase then plain quoting else state)
      else if ask_dropped obs.recent_asks obs.ask now cfg
      then cooled (now + micros cfg.cooldown_s)
      else if is_cooldown state.phase
      then cooling state state.until obs now cfg
      else after_cooldown state obs cfg

  -- Of a market that a check retires, or none.
  unfoldable pub by_terms : State → Observation F → ℕ → FarmConfig F → Option String → Option State
  by_terms state obs now cfg (some reason) = some (because retired reason)
  by_terms state obs now cfg none =
      if not obs.rewards_active
      then some (because unrewarded "pool under $1/day")
      else if obs.paused
      then some (because paused_phase "paused by operator")
      else by_book (if is_suspended state.phase then plain quoting else state) obs now cfg

  -- step_state: none where it raises
  unfoldable pub step_state : State → Observation F → ℕ → FarmConfig F → Option State
  step_state state obs now cfg =
      if is_retired state.phase
      then some state
      else by_terms state obs now cfg (retire_reason obs now)

  unfoldable pub naked_allowed : Observation F → ℕ → Bool
  naked_allowed obs now =
      not obs.naked_paused
      && elim obs.naked_cooldown_until [ none ↦ true | some until ↦ leb until now ]
