-- ===== src/Farmer/Keep/Bounds.antt =====
-- farm/reward_farmer.py: what every order that stays keeps to.
use polymarket_tools.Prelude.{
  String, true, false, ◌≡◌, refl, ◌⊎◌, inl, inr, Option, none, some, List, contains, if◌then◌else◌,
  Bool-cases, Option-cases, arith,
}
use polymarket_tools.Floats.{Floats, ◌<?◌, ◌⊕◌, ◌⊖◌, ◌⊗◌}
use polymarket_tools.Floats.Maths.{Maths}
use polymarket_tools.Python.{Result, ok, Result-cases}
use polymarket_tools.Screener.Zones.{over_max_return}
use polymarket_tools.Farmer.Fills.{Slot, fav_bid, long_ask, fav_ask, long_bid, Position, Intent}
use polymarket_tools.Farmer.Lifecycle.{FarmConfig}
use polymarket_tools.Farmer.Pricing.{
  FarmMarket, LiveOrder, Target, is_buy, on_tick, capital_room, naked_room, ev_cap, exit_floor,
  long_exit_floor, free_of_budget,
}
use polymarket_tools.Farmer.Keep.{
  noise, keep_high, over_cap, then_bound, slot_failure, bound_failure, judged, sole_failure,
  keep_failure, wrong_token,
}
use polymarket_tools.Farmer.Reconcile.Settling.{bind-eq-ok}

module _ {F : Type 0} ⦃fl : Floats F⦄ ⦃ma : Maths F⦄ where
  -- Within the terms of its slot: a favorite bid no dearer than the market's worth allows, for at
  -- most 1.25 times the capital left; an ask no cheaper than its exit floor; a longshot bid that
  -- offers no more than MAX_RETURN and costs at most the naked budget left, or is free of it.
  abbrev pub IsBounded :
      LiveOrder F → Target F → FarmMarket F → Position F → FarmConfig F → Slot → Type 0
  IsBounded order target fm position cfg fav_bid =
      (over_cap (ev_cap fm cfg) order.price ≡ false)
      × ((((keep_high ⊗ capital_room fm position) ⊕ noise) <? (order.price ⊗ order.size_remaining))
          ≡ false)
  IsBounded order target fm position cfg fav_ask =
      (order.price <? (exit_floor position fm cfg ⊖ noise)) ≡ false
  IsBounded order target fm position cfg long_ask =
      (order.price <? (long_exit_floor position fm cfg ⊖ noise)) ≡ false
  IsBounded order target fm position cfg long_bid =
      (over_max_return order.price fm.zones.years_left ≡ false)
      × ((((naked_room fm position ⊕ noise) <? (order.price ⊗ order.size_remaining)) ≡ false)
          ⊎ ((mid : F) × (target.mid ≡ some mid)
              × (free_of_budget order.price mid fm position ≡ true)))

  -- A longshot bid offers no more than MAX_RETURN.
  abbrev ReturnAllowed : LiveOrder F → FarmMarket F → Slot → Type 0
  ReturnAllowed order fm long_bid = over_max_return order.price fm.zones.years_left ≡ false
  ReturnAllowed order fm _ = Unit

  slot_failure-ReturnAllowed :
      (order : LiveOrder F) (intent : Intent F) (target : Target F) (fm : FarmMarket F)
      (position : Position F) (cfg : FarmConfig F) (size : F) (s : Slot)
      → slot_failure order intent target fm position cfg s ≡ ok (none, size)
      → ReturnAllowed order fm s
  unfolding slot_failure
  slot_failure-ReturnAllowed order intent target fm position cfg size fav_bid e = tt
  slot_failure-ReturnAllowed order intent target fm position cfg size fav_ask e = tt
  slot_failure-ReturnAllowed order intent target fm position cfg size long_ask e = tt
  slot_failure-ReturnAllowed order intent target fm position cfg size long_bid e = ground arith

  free_or_over :
      (order : LiveOrder F) (fm : FarmMarket F) (position : Position F) (mid : F)
      → ◌≡◌ {A = Result (Option String)}
          (ok (
            if free_of_budget order.price mid fm position
            then none
            else some "over the naked budget"))
          (ok none)
      → free_of_budget order.price mid fm position ≡ true
  free_or_over order fm position mid e = ground arith

  bound_failure-IsBounded :
      (order : LiveOrder F) (target : Target F) (fm : FarmMarket F) (position : Position F)
      (cfg : FarmConfig F) (size : F) (s : Slot)
      → ReturnAllowed order fm s
      → bound_failure order target fm position cfg size s ≡ ok none
      → IsBounded order target fm position cfg s
  unfolding bound_failure
  bound_failure-IsBounded order target fm position cfg size fav_bid allowed e =
      (ground arith, ground arith)
  bound_failure-IsBounded order target fm position cfg size fav_ask allowed e = ground arith
  bound_failure-IsBounded order target fm position cfg size long_ask allowed e = ground arith
  bound_failure-IsBounded order target fm position cfg size long_bid allowed e =
      elim (Bool-cases ((naked_room fm position ⊕ noise) <? (order.price ⊗ order.size_remaining))) [
        | inr within ↦ (allowed, inl within)
        | inl over ↦ elim (Option-cases target.mid) [
          | inl no_mid ↦ absurd (cc (rw (over, no_mid) at e))
          | inr (mid, at_mid) ↦ (
            allowed,
            inr (mid, at_mid, free_or_over order fm position mid (rw (over, at_mid) at e)),
          )
        ]
      ]

  judged-IsBounded :
      (order : LiveOrder F) (intent : Intent F) (target : Target F) (fm : FarmMarket F)
      (position : Position F) (cfg : FarmConfig F)
      → judged order intent target fm position cfg ≡ ok none
      → IsBounded order target fm position cfg order.slot
  unfolding judged
  judged-IsBounded order intent target fm position cfg e =
      let (r, first, after) =
        bind-eq-ok (slot_failure order intent target fm position cfg order.slot)
          (λ r. then_bound r (λ size. bound_failure order target fm position cfg size order.slot))
          none e in
      by_reason r first after
    where
      by_reason :
          (r : Option String × F)
          → slot_failure order intent target fm position cfg order.slot ≡ ok r
          → then_bound r (λ size. bound_failure order target fm position cfg size order.slot)
            ≡ ok none
          → IsBounded order target fm position cfg order.slot
      by_reason (some reason, size) first e = absurd (cc e)
      by_reason (none, size) first e =
          bound_failure-IsBounded order target fm position cfg size order.slot
            (slot_failure-ReturnAllowed order intent target fm position cfg size order.slot first) e

  by_plan :
      (order : LiveOrder F) (intent : Intent F) (target : Target F) (fm : FarmMarket F)
      (position : Position F) (cfg : FarmConfig F) (o : Option (List String))
      → target.sole_kept ≡ o
      → (elim (sole_failure o order) [
        | some failure ↦ ok failure
        | none ↦ judged order intent target fm position cfg
      ])
        ≡ ok none
      → ((ids : List String) × (target.sole_kept ≡ some ids)
          × (is_buy order.side ≡ true)
          × (contains order.id ids ≡ true))
        ⊎ IsBounded order target fm position cfg order.slot
  by_plan order intent target fm position cfg none is e =
      inr (judged-IsBounded order intent target fm position cfg e)
  by_plan order intent target fm position cfg (some ids) is e =
      elim (Bool-cases (is_buy order.side)) [
        | inl bid ↦ elim (Bool-cases (contains order.id ids)) [
          | inl named ↦ inl (ids, is, bid, named)
          | inr other ↦ absurd (cc (rw (bid, other) at e))
        ]
        | inr ask ↦ inr (judged-IsBounded order intent target fm position cfg (rw ask at e))
      ]

  -- An order that keep_failure does not fail is on the tick grid, and is a bid that the sole-bid
  -- plan was made around or is within the terms of its slot.
  pub keep_failure-IsBounded :
      (order : LiveOrder F) (intent : Intent F) (target : Target F) (fm : FarmMarket F)
      (position : Position F) (cfg : FarmConfig F)
      → keep_failure order intent target fm position cfg ≡ ok none
      → (on_tick order.price fm.tick ≡ ok true)
        × (((ids : List String) × (target.sole_kept ≡ some ids)
              × (is_buy order.side ≡ true)
              × (contains order.id ids ≡ true))
            ⊎ IsBounded order target fm position cfg order.slot)
  unfolding keep_failure
  keep_failure-IsBounded order intent target fm position cfg e =
      elim (Bool-cases (wrong_token order intent)) [
        | inl wrong ↦ absurd (cc (rw wrong at e))
        | inr right ↦ elim (Result-cases (on_tick order.price fm.tick)) [
          | inl (true, on) ↦ (
            on,
            by_plan order intent target fm position cfg target.sole_kept refl (rw (right, on) at e),
          )
          | inl (false, off) ↦ absurd (cc (rw (right, off) at e))
          | inr (error, raises) ↦ absurd (cc (rw (right, raises) at e))
        ]
      ]
