-- ===== src/Farmer/Keep.antt =====
-- farm/reward_farmer.py: whether a resting order is close enough to its target to stay.
pub mod Bounds
use polymarket_tools.Prelude.{
  ℕ, String, Bool, true, false, not, ◌&&◌, ◌||◌, Option, none, some, is_some, List, [], ◌∷◌, ◌++◌,
  map, keep_if, lookup, contains, str_eq, if◌then◌else◌,
}
use polymarket_tools.Floats.{Floats, ◌<?◌, ◌≤?◌, ◌⊕◌, ◌⊖◌, ◌⊗◌, ◌⊘◌, absolute, decimal, max}
use polymarket_tools.Floats.Maths.{Maths}
use polymarket_tools.Python.{Result, ok, err, Error, attribute_error, other_error, ◌>>=◌}
use polymarket_tools.Polymarket.Orders.{Side, buy, sell}
use polymarket_tools.Screener.Scores.{tick_decimals}
use polymarket_tools.Screener.Zones.{over_max_return}
use polymarket_tools.Screener.Values.{QuoteValue, net_per_day}
use polymarket_tools.Farmer.Fills.{
  Slot, fav_bid, long_ask, fav_ask, long_bid, same_slot, Position, Intent, Action, cancel, place,
}
use polymarket_tools.Farmer.Lifecycle.{FarmConfig}
use polymarket_tools.Farmer.Pricing.{
  FarmMarket, LiveOrder, FavChoice, Target, is_buy, on_tick, order_score, capital_room, naked_room,
  ev_cap, exit_floor, long_exit_floor, free_of_budget,
}

-- The first reason whose test holds.
abbrev pub first_reason : List (Bool × String) → Option String
first_reason [] = none
first_reason ((holds, reason) ∷ checks) =
    let rest = first_reason checks in if holds then some reason else rest

abbrev pub same_side : Side → Side → Bool
same_side buy buy = true
same_side sell sell = true
same_side _ _ = false

-- order_score against a midpoint that is None raises
abbrev pub with_mid {ℓ} : {F : Type 0} {A : Type ℓ} → Option F → (F → A) → Result A
with_mid none f = err (other_error "TypeError")
with_mid (some mid) f = ok (f mid)

module _ {F : Type 0} ⦃fl : Floats F⦄ where
  -- NET_KEEP_SLACK_USD, SIZE_STEP and LONG_COVER_MAX
  abbrev net_keep_slack_usd : F
  net_keep_slack_usd = decimal 2 2

  abbrev size_step : F
  size_step = decimal 1 2

  abbrev long_cover_max : F
  long_cover_max = decimal 20 1

  -- KEEP_SIZE_RANGE
  abbrev pub keep_low : F
  keep_low = decimal 8 1

  abbrev pub keep_high : F
  keep_high = decimal 125 2

  -- LONG_PRICE_SLACK_TICKS + 1 and ASK_PRICE_SLACK_TICKS
  abbrev long_slack : F
  long_slack = decimal 3 0

  abbrev ask_slack : F
  ask_slack = decimal 2 0

  -- 1e-9
  abbrev pub noise : F
  noise = decimal 1 9

  abbrev wrong_token : LiveOrder F → Intent F → Bool
  wrong_token order intent =
      not (str_eq order.token_id intent.token_id && same_side order.side intent.side)

  -- The slot's own test of a favorite bid, with the size that it is held against.
  abbrev pub fav_failure :
      Option (QuoteValue F) → Option (QuoteValue F) → F → FarmConfig F → Result (Option String × F)
  fav_failure none best baseline cfg = ok (some "outside the bid candidates", decimal 0 0)
  fav_failure (some value) none baseline cfg = err attribute_error
  fav_failure (some value) (some best) baseline cfg =
      let slack =
        max ((decimal 1 0 ⊖ cfg.keep_ratio) ⊗ absolute (net_per_day best)) net_keep_slack_usd in
      ok (
        if (net_per_day value <? (net_per_day best ⊖ slack)) || (net_per_day value ≤? baseline)
            then some "net below keep ratio"
            else none,
        value.size,
      )

  abbrev fav_ask_failure : LiveOrder F → Intent F → FarmMarket F → FarmConfig F → F → Option String
  fav_ask_failure order intent fm cfg mid =
      if order_score fav_ask order.price mid fm.v
        <? ((cfg.keep_ratio ⊗ order_score intent.slot intent.price mid fm.v) ⊖ decimal 1 12)
      then some "score below keep ratio"
      else none

  abbrev pub long_ask_failure : LiveOrder F → Intent F → Option String
  long_ask_failure order intent =
      if (intent.price ⊕ noise) <? order.price then some "above the target price" else none

  abbrev out_of_range : F → LiveOrder F → Bool
  out_of_range size order = not (
      (((keep_low ⊗ size) ⊖ noise) ≤? order.size_remaining)
      && (order.size_remaining ≤? ((keep_high ⊗ size) ⊕ noise)))

  abbrev pub over_cap : Option F → F → Bool
  over_cap none price = true
  over_cap (some cap) price = (cap ⊕ noise) <? price

module _ {F : Type 0} ⦃fl : Floats F⦄ ⦃ma : Maths F⦄ where
  abbrev long_bid_failure :
      LiveOrder F → Intent F → FarmMarket F → Position F → FarmConfig F → F → Option String
  long_bid_failure order intent fm position cfg mid =
      let need = intent.score ⊗ intent.size in
      let per_share = order_score long_bid order.price mid fm.v in
      let covers = per_share ⊗ order.size_remaining in
      let under = fl.round_to (order.price ⊖ (long_slack ⊗ fm.tick)) (tick_decimals fm.tick) in
      first_reason (
        (
          ((intent.price ⊕ noise) <? order.price)
              && (((fm.tick ⊖ noise) ≤? under)
                  && (cfg.min_low_score ≤? order_score long_bid under mid fm.v)),
          "above the target price",
        )
        ∷ (
          (covers ⊕ (per_share ⊗ size_step)) <? ((cfg.keep_ratio ⊗ need) ⊖ noise),
          "short of the cover needed",
        )
        ∷ (
          ((fm.tick ⊕ noise) <? order.price)
              && ((((long_cover_max ⊗ need) ⊕ noise) <? covers)
                  && not (free_of_budget order.price mid fm position)),
          "over twice the cover needed",
        )
        ∷ [])

  -- The tests of the order's slot, with the size that the order is held against.
  slot_failure :
      LiveOrder F
      → Intent F
      → Target F
      → FarmMarket F
      → Position F
      → FarmConfig F
      → Slot
      → Result (Option String × F)
  unfolding order_score free_of_budget over_max_return
  slot_failure order intent target fm position cfg fav_bid =
      fav_failure (lookup order.id target.fav.resting) target.fav.best target.fav.baseline_per_day
        cfg
  slot_failure order intent target fm position cfg long_bid =
      if over_max_return order.price fm.zones.years_left
      then ok (some "over the return limit", intent.size)
      else with_mid target.mid
          (λ mid. (long_bid_failure order intent fm position cfg mid, intent.size))
  slot_failure order intent target fm position cfg fav_ask =
      if order.price <? ((intent.price ⊖ (ask_slack ⊗ fm.tick)) ⊖ noise)
      then ok (some "below the target price", intent.size)
      else with_mid target.mid (λ mid. (fav_ask_failure order intent fm cfg mid, intent.size))
  slot_failure order intent target fm position cfg long_ask =
      ok (long_ask_failure order intent, intent.size)

  -- The bounds that come after, on an order of a slot.
  bound_failure :
      LiveOrder F
      → Target F
      → FarmMarket F
      → Position F
      → FarmConfig F
      → F
      → Slot
      → Result (Option String)
  unfolding ev_cap capital_room exit_floor long_exit_floor naked_room free_of_budget
  bound_failure order target fm position cfg size fav_bid = ok (
      first_reason (
        (out_of_range size order, "size out of range")
        ∷ (over_cap (ev_cap fm cfg) order.price, "above the EV cap")
        ∷ (
          ((keep_high ⊗ capital_room fm position) ⊕ noise) <? (order.price ⊗ order.size_remaining),
          "over the capital",
        )
        ∷ []))
  bound_failure order target fm position cfg size fav_ask = ok (
      first_reason (
        (out_of_range size order, "size out of range")
        ∷ (order.price <? (exit_floor position fm cfg ⊖ noise), "below the exit floor")
        ∷ []))
  bound_failure order target fm position cfg size long_ask = ok (
      first_reason (
        (out_of_range size order, "size out of range")
        ∷ (order.price <? (long_exit_floor position fm cfg ⊖ noise), "below the exit floor")
        ∷ []))
  bound_failure order target fm position cfg size long_bid =
      if (naked_room fm position ⊕ noise) <? (order.price ⊗ order.size_remaining)
      then with_mid target.mid (λ mid.
        if free_of_budget order.price mid fm position then none else some "over the naked budget")
      else ok none

  -- The bounds, unless the slot's own tests gave a reason.
  abbrev pub then_bound : Option String × F → (F → Result (Option String)) → Result (Option String)
  then_bound (some reason, size) bound = ok (some reason)
  then_bound (none, size) bound = bound size

  judged :
      LiveOrder F
      → Intent F
      → Target F
      → FarmMarket F
      → Position F
      → FarmConfig F
      → Result (Option String)
  unfolding slot_failure bound_failure
  judged order intent target fm position cfg =
      slot_failure order intent target fm position cfg order.slot
      >>= (λ r. then_bound r (λ size. bound_failure order target fm position cfg size order.slot))

  -- A plan of a sole bid names the bids that stay.
  abbrev pub sole_failure : Option (List String) → LiveOrder F → Option (Option String)
  sole_failure none order = none
  sole_failure (some kept) order =
      if is_buy order.side
      then some (if contains order.id kept then none else some "off the sole-bid plan")
      else none

  unfoldable pub keep_failure :
      LiveOrder F
      → Intent F
      → Target F
      → FarmMarket F
      → Position F
      → FarmConfig F
      → Result (Option String)
  unfolding judged on_tick
  keep_failure order intent target fm position cfg =
      if wrong_token order intent
      then ok (some "wrong token or side")
      else on_tick order.price fm.tick >>= (λ on.
        if not on
        then ok (some "off the tick grid")
        else elim (sole_failure target.sole_kept order) [
          | some failure ↦ ok failure
          | none ↦ judged order intent target fm position cfg
        ])
