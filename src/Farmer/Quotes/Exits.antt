-- ===== src/Farmer/Quotes/Exits.antt =====
-- farm/reward_farmer.py: what every order of a plan keeps to.
use mathlib.Core.Path.{subst}
use mathlib.Core.Option.{some-injective, map as map_option}
use polymarket_tools.Prelude.{
  ℕ, Bool, true, false, ◌≡◌, refl, ◌⊎◌, inl, inr, Option, none, some, List, [], ◌++◌, if◌then◌else◌,
  All, Bool-cases, arith,
}
use polymarket_tools.Floats.{Floats, ◌<?◌, ◌≤?◌, ◌⊕◌, ◌⊖◌, ◌⊗◌, decimal}
use polymarket_tools.Floats.Maths.{Maths}
use polymarket_tools.Floats.Order.{OrderLaws}
use polymarket_tools.Python.{Result, ok, err, Error}
use polymarket_tools.Screener.Scores.{Levels, adjusted_mid, adjust_levels}
use polymarket_tools.Screener.Zones.{over_max_return}
use polymarket_tools.Screener.Longshot.{LongshotBid}
use polymarket_tools.Screener.Longshot.Bounds.{longshot_bid-IsSized}
use polymarket_tools.Farmer.Fills.{Slot, fav_bid, long_ask, fav_ask, long_bid, Position, Intent}
use polymarket_tools.Farmer.Lifecycle.{FarmConfig}
use polymarket_tools.Farmer.Pricing.{
  FarmMarket, Target, exit_floor, long_exit_floor, naked_room, long_zones,
}
use polymarket_tools.Farmer.Quotes.{
  with_result, exit_intent, balancing, long_intent, fav_intent, also, in_order, bid_level,
  mirrored_level, ask_level, bid_score, bid_size, bid_covers, trimmed, covered_by, planned,
  starting_bid, rests_exit, around, quotes_at,
}
use polymarket_tools.Farmer.Exits.{
  top_price, plan_long_ask_price, highest_ask, crosses, plan_fav_ask_price,
}
use polymarket_tools.Farmer.Exits.Floors.{
  OptAll, plan_long_ask_price-floor, plan_fav_ask_price-floor,
}

with_result-inv :
    {A B : Type 0} (o : Option A) (f : A → Option B) (b : B)
    → with_result o f ≡ some b
    → (a : A) × (o ≡ some a) × (f a ≡ some b)
with_result-inv none f b e = absurd (cc e)
with_result-inv (some a) f b e = (a, refl, e)

map_ok-inv : {A : Type 0} (o : Option A) (a : A) → map_option ok o ≡ some (ok a) → o ≡ some a
map_ok-inv none a e = absurd (cc e)
map_ok-inv (some b) a e = cc

of_mid :
    {F A : Type 0} (o : Option F) (r : F → Option (Result A)) (raised : Error) (a : A)
    → (elim o [ none ↦ some (err raised) | some mid ↦ r mid ]) ≡ some (ok a)
    → (mid : F) × (r mid ≡ some (ok a))
of_mid none r raised a e = absurd (cc e)
of_mid (some mid) r raised a e = (mid, e)

-- A fact that follows from either branch's result follows from the result.
of_branch :
    {A : Type 0} (P : Type 0) (test : Bool) (x y : Option A) (a : A)
    → (x ≡ some a → P)
    → (y ≡ some a → P)
    → (if test then x else y) ≡ some a
    → P
of_branch P true x y a hx hy e = hx e
of_branch P false x y a hx hy e = hy e

module _ {F : Type 0} ⦃fl : Floats F⦄ ⦃ma : Maths F⦄ where
  -- What a plan's order of a slot keeps to: a favorite bid is at the price asked for; a longshot
  -- bid rests only where the naked leg is allowed and offers no more than MAX_RETURN; a longshot
  -- ask is no cheaper than its exit floor; a favorite ask does not cross the best bid, and is no
  -- cheaper than its exit floor but for the highest price there is.
  abbrev pub IsSound :
      FarmMarket F → Levels F → Position F → FarmConfig F → Bool → Option F → Slot → F → Type 0
  IsSound fm levels position cfg naked_allowed fav_price fav_bid price = fav_price ≡ some price
  IsSound fm levels position cfg naked_allowed fav_price long_bid price =
      (naked_allowed ≡ true) × (over_max_return price fm.zones.years_left ≡ false)
  IsSound fm levels position cfg naked_allowed fav_price long_ask price =
      (long_exit_floor position fm cfg ≤? price) ≡ true
  IsSound fm levels position cfg naked_allowed fav_price fav_ask price =
      (((exit_floor position fm cfg ≤? price) ≡ true) ⊎ (price ≡ highest_ask fm))
      × (crosses (top_price levels.bids) price ≡ false)

  same_years :
      (fm : FarmMarket F) (position : Position F)
      → (long_zones fm position).years_left ≡ fm.zones.years_left
  unfolding long_zones
  same_years fm position = ground arith

  module _ (fm : FarmMarket F) (levels : Levels F) (position : Position F) (cfg : FarmConfig F)
      (naked_allowed : Bool) (fav_price : Option F) where
    abbrev Sound : Intent F → Type 0
    Sound i = IsSound fm levels position cfg naked_allowed fav_price i.slot i.price

    also-All :
        (o : Option (Intent F)) (intents : List (Intent F))
        → OptAll Sound o
        → All Sound intents
        → All Sound (also o intents)
    also-All none intents ho h = h
    also-All (some i) intents ho h = (ho, h)

    in_order-All :
        (fav long_exit fav_exit low : Option (Intent F))
        → OptAll Sound fav
        → OptAll Sound long_exit
        → OptAll Sound fav_exit
        → OptAll Sound low
        → All Sound (in_order fav long_exit fav_exit low)
    in_order-All fav long_exit fav_exit low hf hl ha hb =
        also-All fav _ hf (also-All long_exit _ hl (also-All fav_exit _ ha (also-All low [] hb tt)))

    exit_intent-Sound :
        (slot : Slot) (price : Option F) (shares mid : F)
        → OptAll (IsSound fm levels position cfg naked_allowed fav_price slot) price
        → OptAll Sound (exit_intent fm slot price shares mid)
    exit_intent-Sound slot none shares mid h = tt
    exit_intent-Sound slot (some p) shares mid h = h

    rests_exit-All :
        (P : F → Type 0) (shares : F) (price : Option F)
        → OptAll P price
        → OptAll P (rests_exit shares price)
    rests_exit-All P shares price h = elim (Bool-cases (decimal 5 0 ≤? shares)) [
      | inl enough ↦ rw enough h
      | inr few ↦ rw few tt
    ]

    fav_intent-Sound :
        (fav_size : Option F) (size fav_score : F)
        → OptAll Sound (fav_intent fm (starting_bid fm position fav_price fav_size) size fav_score)
    fav_intent-Sound fav_size size fav_score = by_price fav_price fav_size refl
      where
        by_price :
            (o : Option F) (fav_size : Option F)
            → fav_price ≡ o
            → OptAll Sound (fav_intent fm (starting_bid fm position o fav_size) size fav_score)
        by_price none fav_size e = tt
        by_price (some p) none e = elim (Bool-cases (decimal 0 0 <? size)) [
          | inl rests ↦ rw rests e
          | inr empty ↦ rw empty tt
        ]
        by_price (some p) (some n) e = elim (Bool-cases (decimal 0 0 <? size)) [
          | inl rests ↦ rw rests e
          | inr empty ↦ rw empty tt
        ]

    long_intent-Sound :
        (fuel : ℕ) (mid covered q_one : F) (low : Option (LongshotBid F))
        → balancing fuel fm levels position cfg naked_allowed mid covered q_one ≡ some low
        → OptAll Sound (long_intent fm low)
    long_intent-Sound fuel mid covered q_one none e = tt
    long_intent-Sound fuel mid covered q_one (some low) e = elim (Bool-cases naked_allowed) [
      | inl allowed ↦
          let ((ladder, (scores, returns)), sized) =
            longshot_bid-IsSized fuel levels mid fm.v fm.tick fm.min_size (q_one ⊖ covered)
              (naked_room fm position) cfg.min_low_score (long_zones fm position) low
              (rw allowed at e) in
          (
            allowed,
            subst (λ y. over_max_return low.price y ≡ false) (same_years fm position) returns,
          )
      | inr denied ↦ absurd (cc (rw denied at e))
    ]

    planned-Sound :
        (fuel : ℕ) (fav_size long_price ask_price : Option F) (mid : F) (target : Target F)
        → OptAll (IsSound fm levels position cfg naked_allowed fav_price long_ask) long_price
        → OptAll (IsSound fm levels position cfg naked_allowed fav_price fav_ask) ask_price
        → planned fuel fm levels position cfg naked_allowed
            (starting_bid fm position fav_price fav_size)
            long_price
            ask_price
            mid
          ≡ some target
        → All Sound target.intents
    unfolding planned
    planned-Sound fuel fav_size long_price ask_price mid target hl ha e =
        let long_exit = exit_intent-Sound long_ask long_price position.long_shares mid hl in
        let fav_exit = exit_intent-Sound fav_ask ask_price position.fav_shares mid ha in
        let bid = starting_bid fm position fav_price fav_size in
        let score = bid_score bid mid fm.v in
        let start = if decimal 0 0 <? score then bid_size bid else decimal 0 0 in
        let covered = covered_by (exit_intent fm fav_ask ask_price position.fav_shares mid) in
        let exits = covered_by (exit_intent fm long_ask long_price position.long_shares mid) in
        let (low, balanced, e') =
          with_result-inv
            (balancing fuel fm levels position cfg naked_allowed mid covered
              (exits ⊕ (score ⊗ start)))
            _ target e in
        of_branch (All Sound target.intents)
          (trimmed score start exits (covered ⊕ bid_covers low) <? fm.min_size) _ _ target
          (λ dropped.
            let (alone, balanced', e'') =
              with_result-inv
                (balancing fuel fm levels position cfg naked_allowed mid covered exits) _ target
                dropped in
            subst (λ t. All Sound t.intents) (some-injective _ target e'')
              (in_order-All none _ _ (long_intent fm alone) tt long_exit fav_exit
                (long_intent-Sound fuel mid covered exits alone balanced')))
          (λ stays.
            subst (λ t. All Sound t.intents) (some-injective _ target stays)
              (in_order-All _ _ _ (long_intent fm low) (fav_intent-Sound fav_size _ _) long_exit
                fav_exit
                (long_intent-Sound fuel mid covered (exits ⊕ (score ⊗ start)) low balanced)))
          e'

  around-Sound :
      OrderLaws fl
      → (fuel : ℕ) (fm : FarmMarket F) (levels : Levels F) (position : Position F)
        (cfg : FarmConfig F) (naked_allowed : Bool)
        (fav_price fav_size fill_mid book_mid : Option F) (target : Target F)
      → around fuel fm levels position cfg naked_allowed fav_price fav_size fill_mid book_mid
        ≡ some (ok target)
      → All
          (λ i. IsSound fm levels position cfg naked_allowed fav_price i.slot i.price)
          target.intents
  unfolding around
  around-Sound laws fuel fm levels position cfg naked_allowed fav_price fav_size fill_mid none
        target e =
      let nothing : target.intents ≡ [] = cc in rw nothing tt
  around-Sound laws fuel fm levels position cfg naked_allowed fav_price fav_size fill_mid
        (some book_mid) target e =
      let bid = starting_bid fm position fav_price fav_size in
      let long_price =
        rests_exit position.long_shares (plan_long_ask_price fm levels fav_price position cfg) in
      let ask_price =
        rests_exit position.fav_shares
          (plan_fav_ask_price fm levels book_mid position cfg fill_mid) in
      let quoted =
        adjust_levels levels
          (bid_level bid ++ mirrored_level long_price position.long_shares fm.tick)
          (ask_level ask_price position.fav_shares) in
      let (mid, e') =
        of_mid (adjusted_mid quoted.bids quoted.asks fm.min_size)
          (λ m.
            map_option ok
              (planned fuel fm levels position cfg naked_allowed bid long_price ask_price m))
          _ target e in
      planned-Sound fm levels position cfg naked_allowed fav_price fuel fav_size long_price
        ask_price mid target
        (rests_exit-All fm levels position cfg naked_allowed fav_price _ position.long_shares
          (plan_long_ask_price fm levels fav_price position cfg)
          (plan_long_ask_price-floor laws fm levels fav_price position cfg))
        (rests_exit-All fm levels position cfg naked_allowed fav_price _ position.fav_shares
          (plan_fav_ask_price fm levels book_mid position cfg fill_mid)
          (plan_fav_ask_price-floor laws fm levels book_mid position cfg fill_mid))
        (map_ok-inv (planned fuel fm levels position cfg naked_allowed bid long_price ask_price mid)
          target e')

  -- Where floats are in a total order, every order of the plan of quotes_at is sound: a favorite bid
  -- is at the price asked for; a longshot bid rests only where the naked leg is allowed, and offers
  -- no more than MAX_RETURN; a longshot ask is no cheaper than its exit floor; and a favorite ask
  -- does not cross the best bid, and is no cheaper than its exit floor unless it is at the highest
  -- price there is.
  pub quotes_at-IsSound :
      OrderLaws fl
      → (fuel : ℕ) (fm : FarmMarket F) (levels : Levels F) (position : Position F)
        (cfg : FarmConfig F) (naked_allowed : Bool) (fav_price fav_size fill_mid : Option F)
        (target : Target F)
      → quotes_at fuel fm levels position cfg naked_allowed fav_price fav_size fill_mid
        ≡ some (ok target)
      → All
          (λ i. IsSound fm levels position cfg naked_allowed fav_price i.slot i.price)
          target.intents
  unfolding quotes_at
  quotes_at-IsSound laws fuel fm levels position cfg naked_allowed fav_price fav_size fill_mid
        target e =
      around-Sound laws fuel fm levels position cfg naked_allowed fav_price fav_size fill_mid
        (adjusted_mid levels.bids levels.asks fm.min_size) target e
