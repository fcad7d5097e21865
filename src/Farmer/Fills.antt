-- ===== src/Farmer/Fills.antt =====
-- farm/reward_farmer.py: what a change of position means, the shares that stay out of the farm, and
-- the wait after a rejected order.
pub mod Backoffs
pub mod Baselines
use polymarket_tools.Prelude.{
  ℕ, suc, ◌+◌, ◌-◌, ◌*◌, String, Bool, true, false, not, ◌&&◌, ◌||◌, Option, none, some, List, [],
  ◌∷◌, ◌++◌, map, keep_if, leb, ltb, if◌then◌else◌, read_at,
}
use polymarket_tools.Screener.Scores.{round_size_down}
use polymarket_tools.Floats.{Floats, ◌<?◌, ◌≤?◌, ◌⊕◌, ◌⊖◌, ◌⊗◌, ◌⊘◌, decimal}
use polymarket_tools.Polymarket.Orders.{Side, buy, sell}

pub data Role : Type 0 where
  favorite longshot : Role

pub data Slot : Type 0 where
  fav_bid long_ask fav_ask long_bid : Slot

abbrev pub role : Slot → Role
role fav_bid = favorite
role fav_ask = favorite
role long_ask = longshot
role long_bid = longshot

abbrev pub slot_side : Slot → Side
slot_side fav_bid = buy
slot_side long_bid = buy
slot_side fav_ask = sell
slot_side long_ask = sell

abbrev pub same_slot : Slot → Slot → Bool
same_slot fav_bid fav_bid = true
same_slot long_ask long_ask = true
same_slot fav_ask fav_ask = true
same_slot long_bid long_bid = true
same_slot _ _ = false

pub record Position (F : Type 0) : Type 0 where
  pub fav_shares : F
  pub fav_avg : F
  pub long_shares : F
  pub long_avg : F

pub record Intent (F : Type 0) : Type 0 where
  pub slot : Slot
  pub token_id : String
  pub side : Side
  pub price : F
  pub size : F
  pub score : F

-- Cancel and Place
pub data Action (F : Type 0) : Type 0 where
  cancel : List String → Action F
  place : Intent F → Action F

pub record Baseline (F : Type 0) : Type 0 where
  pub fav : F
  pub long : F

-- The seconds of a delay are whole.
pub record Backoff : Type 0 where
  pub until : ℕ
  pub delay_s : ℕ
  pub attempts : ℕ

-- BACKOFF_START_S and BACKOFF_MAX_S
abbrev pub backoff_start_s : ℕ
backoff_start_s = 30

abbrev pub backoff_max_s : ℕ
backoff_max_s = 900

-- timedelta(seconds=s), in microseconds
abbrev pub seconds : ℕ → ℕ
seconds s = s * 1000000

abbrev pub min : ℕ → ℕ → ℕ
min a b = if ltb b a then b else a

unfoldable pub next_backoff : Option Backoff → ℕ → Backoff
next_backoff none now = record {
  until = now + seconds backoff_start_s;
  delay_s = backoff_start_s;
  attempts = 1;
}
next_backoff (some previous) now =
    let delay = min (previous.delay_s * 2) backoff_max_s in
    record { until = now + seconds delay; delay_s = delay; attempts = previous.attempts + 1 }

-- A dict by slot.
abbrev pub Backoffs : Type 0
Backoffs = List (Slot × Backoff)

abbrev pub waits : Option Backoff → ℕ → Bool
waits none now = false
waits (some backoff) now = ltb now backoff.until

abbrev pub waiting : {F : Type 0} → Backoffs → ℕ → Action F → Bool
waiting backoffs now (cancel ids) = false
waiting backoffs now (place intent) = waits (read_at (same_slot intent.slot) backoffs) now

unfoldable pub without_backed_off : {F : Type 0} → List (Action F) → Backoffs → ℕ → List (Action F)
without_backed_off actions backoffs now = keep_if (λ x. not (waiting backoffs now x)) actions

-- POSITIONS_S
abbrev pub positions_s : ℕ
positions_s = 60

module _ {F : Type 0} ⦃fl : Floats F⦄ where
  abbrev pub zero_f : F
  zero_f = decimal 0 0

  fill_event : Slot → Slot → F → List (Slot × F)
  fill_event bought sold delta =
      if zero_f <? delta
      then (bought, delta) ∷ []
      else if delta <? zero_f
      then (sold, zero_f ⊖ delta) ∷ []
      else []

  unfoldable pub fill_events : Position F → Position F → List (Slot × F)
  unfolding fill_event
  fill_events previous current =
      fill_event fav_bid fav_ask (fl.round_to (current.fav_shares ⊖ previous.fav_shares) 2)
      ++ fill_event long_bid long_ask (fl.round_to (current.long_shares ⊖ previous.long_shares) 2)

  -- min(a, b) of floats
  abbrev pub least : F → F → F
  least a b = if b <? a then b else a

  unfoldable pub ratchet_baseline : Option (Baseline F) → Position F → Baseline F
  ratchet_baseline none held = record { fav = held.fav_shares; long = held.long_shares }
  ratchet_baseline (some baseline) held = record {
    fav = least baseline.fav held.fav_shares;
    long = least baseline.long held.long_shares;
  }

  -- max(0.0, x)
  abbrev pub not_negative : F → F
  not_negative x = if zero_f <? x then x else zero_f

  unfoldable pub farm_position : Position F → Baseline F → Position F
  farm_position held baseline = record held {
    fav_shares = round_size_down (not_negative (held.fav_shares ⊖ baseline.fav));
    long_shares = round_size_down (not_negative (held.long_shares ⊖ baseline.long));
  }

  -- ORDER_MIN_SHARES
  abbrev pub order_min_shares : F
  order_min_shares = decimal 5 0

  mid_is_back : Option F → F → Bool
  mid_is_back none fill_mid = false
  mid_is_back (some mid) fill_mid = fill_mid ⊖ decimal 1 9 ≤? mid

  unfoldable pub held_fill_mid : Option F → Option F → Position F → Option F
  unfolding mid_is_back
  held_fill_mid none book_mid position = none
  held_fill_mid (some fill_mid) book_mid position =
      if position.fav_shares <? order_min_shares
      then none
      else if mid_is_back book_mid fill_mid
      then none
      else some fill_mid

  -- pre_fill_mid: the last sample in time that has a midpoint
  abbrev pub mid_before : ℕ → List (ℕ × Option F) → Option F → Option F
  mid_before cutoff [] found = found
  mid_before cutoff ((at, none) ∷ rest) found = mid_before cutoff rest found
  mid_before cutoff ((at, some mid) ∷ rest) found =
      mid_before cutoff rest (if leb at cutoff then some mid else found)

  unfoldable pub pre_fill_mid : List (ℕ × Option F) → ℕ → Option F
  pre_fill_mid samples seen_at = mid_before (seen_at - seconds positions_s) samples none
