-- ===== src/Farmer/Pricing.antt =====
-- farm/reward_farmer.py: a farmed market, its orders, and the prices that bound them.
use polymarket_tools.Prelude.{
  not, ◌&&◌, ℕ, String, Bool, true, false, Option, none, some, List, if◌then◌else◌,
}
use polymarket_tools.Floats.{Floats, ◌<?◌, ◌≤?◌, ◌⊕◌, ◌⊖◌, ◌⊗◌, ◌⊘◌, absolute, decimal, max}
use polymarket_tools.Floats.Maths.{Maths}
use polymarket_tools.Python.{Result, ok, err, value_error, other_error}
use polymarket_tools.Polymarket.Orders.{Side, buy, sell}
use polymarket_tools.Screener.Scores.{Levels, score, adjusted_mid, tick_decimals, floor_to_tick}
use polymarket_tools.Screener.Zones.{Zones, free_zone_open, sized_without_budget}
use polymarket_tools.Screener.Values.{QuoteValue}
use polymarket_tools.Farmer.Fills.{
  Role, favorite, longshot, Slot, long_bid, role, slot_side, Position, Intent,
}
use polymarket_tools.Farmer.Lifecycle.{FarmConfig}

pub record FarmMarket (F : Type 0) : Type 0 where
  pub condition_id : String
  pub slug : String
  pub question : String
  pub end_date : ℕ
  pub neg_risk : Bool
  pub tick : F
  pub fav_token_id : String
  pub fav_outcome : String
  pub rate_per_day : F
  pub v : F
  pub min_size : F
  pub long_token_id : String
  pub p_true : Option F
  pub naked_budget_usd : F
  pub expires_at : ℕ
  pub capital : F
  pub zones : Zones F
  pub paused : Bool
  pub naked_paused : Bool
  pub sole_bid : Bool
  pub book_mid : Option F

pub record LiveOrder (F : Type 0) : Type 0 where
  pub id : String
  pub slot : Slot
  pub token_id : String
  pub side : Side
  pub price : F
  pub size_remaining : F

-- `resting` holds the value of the plan around each favorite bid that rests, by the order's id.
pub record FavChoice (F : Type 0) : Type 0 where
  pub best : Option (QuoteValue F)
  pub resting : List (String × QuoteValue F)
  pub baseline_per_day : F
  pub reason : String

pub record Target (F : Type 0) : Type 0 where
  pub mid : Option F
  pub intents : List (Intent F)
  pub fav : FavChoice F
  pub sole_kept : Option (List String)

abbrev pub is_fav : Role → Bool
is_fav favorite = true
is_fav longshot = false

abbrev pub is_buy : Side → Bool
is_buy buy = true
is_buy sell = false

module _ {F : Type 0} where
  -- FarmMarket.worth and FarmMarket.token
  abbrev pub worth : FarmMarket F → Option F
  worth fm = elim fm.p_true [ none ↦ fm.book_mid | some p ↦ some p ]

  abbrev pub token : FarmMarket F → Role → String
  token fm favorite = fm.fav_token_id
  token fm longshot = fm.long_token_id

module _ {F : Type 0} ⦃fl : Floats F⦄ ⦃ma : Maths F⦄ where
  -- abs(x - round(x)) < 1e-6; round raises where x is no number, or is infinite.
  is_whole : F → Result Bool
  is_whole x =
      if not (x ≤? x)
      then err (value_error "cannot convert float NaN to integer")
      else if ma.infinity ≤? absolute x
      then err (other_error "OverflowError")
      else ok (absolute (x ⊖ fl.round_to x 0) <? decimal 1 6)

  -- A tick that is zero cannot be divided by.
  unfoldable pub on_tick : F → F → Result Bool
  unfolding is_whole
  on_tick price tick =
      if (tick ≤? decimal 0 0) && (decimal 0 0 ≤? tick)
      then err (other_error "ZeroDivisionError")
      else is_whole (price ⊘ tick)

module _ {F : Type 0} ⦃fl : Floats F⦄ where
  unfoldable pub order_score : Slot → F → F → F → F
  unfolding score
  order_score slot price mid v =
      let token_mid = if is_fav (role slot) then mid else decimal 1 0 ⊖ mid in
      score v (if is_buy (slot_side slot) then token_mid ⊖ price else price ⊖ token_mid)

  unfoldable pub sized_score : Slot → F → F → F → FarmMarket F → F
  unfolding order_score
  sized_score slot price size mid fm =
      if fm.min_size ≤? size then order_score slot price mid fm.v else decimal 0 0

  -- with_book_mid
  unfoldable pub with_book_mid : FarmMarket F → Levels F → FarmMarket F
  with_book_mid fm book = record fm { book_mid = adjusted_mid book.bids book.asks fm.min_size }

  unfoldable pub capital_room : FarmMarket F → Position F → F
  capital_room fm position =
      max (decimal 0 0) (fm.capital ⊖ (position.fav_shares ⊗ position.fav_avg))

  unfoldable pub naked_room : FarmMarket F → Position F → F
  naked_room fm position =
      max (decimal 0 0) (fm.naked_budget_usd ⊖ (position.long_shares ⊗ position.long_avg))

  unfoldable pub long_zones : FarmMarket F → Position F → Zones F
  unfolding free_zone_open
  long_zones fm position =
      if free_zone_open position.long_shares fm.min_size
      then fm.zones
      else record fm.zones { steady_mid = none }

module _ {F : Type 0} ⦃fl : Floats F⦄ ⦃ma : Maths F⦄ where
  unfoldable pub ceil_to_tick : F → F → F
  ceil_to_tick price tick =
      fl.round_to (ma.ceil (fl.round_to (price ⊘ tick) 6) ⊗ tick) (tick_decimals tick)

  abbrev cap_of : FarmMarket F → FarmConfig F → Option F → Option F
  cap_of fm cfg (some p_true) = some (floor_to_tick (p_true ⊖ cfg.ev_margin) fm.tick)
  cap_of fm cfg none = elim fm.book_mid [
    | none ↦ none
    | some book_mid ↦ some (floor_to_tick book_mid fm.tick)
  ]

  unfoldable pub ev_cap : FarmMarket F → FarmConfig F → Option F
  unfolding floor_to_tick
  ev_cap fm cfg = cap_of fm cfg fm.p_true

  unfoldable pub exit_floor : Position F → FarmMarket F → FarmConfig F → F
  unfolding ceil_to_tick
  exit_floor position fm cfg = ceil_to_tick (position.fav_avg ⊕ cfg.min_capture) fm.tick

  unfoldable pub long_exit_floor : Position F → FarmMarket F → FarmConfig F → F
  unfolding ceil_to_tick
  long_exit_floor position fm cfg = ceil_to_tick (position.long_avg ⊕ cfg.min_capture) fm.tick

  unfoldable pub free_of_budget : F → F → FarmMarket F → Position F → Bool
  unfolding sized_without_budget order_score long_zones
  free_of_budget price mid fm position =
      sized_without_budget price (order_score long_bid price mid fm.v) fm.v (long_zones fm position)

  unfoldable pub mirror : F → F → F
  mirror price tick = fl.round_to (decimal 1 0 ⊖ price) (tick_decimals tick)
