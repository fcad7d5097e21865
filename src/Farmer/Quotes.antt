-- ===== src/Farmer/Quotes.antt =====
-- farm/reward_farmer.py: the orders that a market would rest around one favorite bid.
pub mod Exits
use mathlib.Core.Option.{map as map_option}
use polymarket_tools.Prelude.{
  ℕ, String, Bool, true, false, not, ◌&&◌, ◌||◌, Option, none, some, is_some, List, [], ◌∷◌, ◌++◌,
  any, if◌then◌else◌,
}
use polymarket_tools.Floats.{Floats, ◌<?◌, ◌≤?◌, ◌⊕◌, ◌⊖◌, ◌⊗◌, ◌⊘◌, absolute, decimal, max, min}
use polymarket_tools.Floats.Maths.{Maths}
use polymarket_tools.Python.{Result, ok, err, other_error, ◌>>=◌}
use polymarket_tools.Screener.Scores.{
  Levels, adjusted_mid, adjust_levels, tick_decimals, round_size_down,
}
use polymarket_tools.Screener.Longshot.{LongshotBid, longshot_bid}
use polymarket_tools.Screener.Candidates.{fav_ceiling}
use polymarket_tools.Farmer.Fills.{
  Slot, fav_bid, long_ask, fav_ask, long_bid, role, slot_side, Position, Intent, order_min_shares,
}
use polymarket_tools.Farmer.Lifecycle.{FarmConfig}
use polymarket_tools.Farmer.Pricing.{
  FarmMarket, Target, FavChoice, token, order_score, sized_score, capital_room, naked_room,
  long_zones, ceil_to_tick, exit_floor, long_exit_floor, mirror,
}
use polymarket_tools.Farmer.Exits.{plan_long_ask_price, plan_fav_ask_price}

-- A call that may run out of fuel (the outer none) and whose result the caller goes on with.
abbrev pub with_result {ℓ κ} : {A : Type ℓ} {B : Type κ} → Option A → (A → Option B) → Option B
with_result none f = none
with_result (some a) f = f a

module _ {F : Type 0} ⦃fl : Floats F⦄ where
  -- FavChoice(), and a Target that keeps it
  abbrev pub no_choice : FavChoice F
  no_choice = record { best = none; resting = []; baseline_per_day = decimal 0 0; reason = "" }

  abbrev pub plain_target : Option F → List (Intent F) → Target F
  plain_target mid intents = record {
    mid = mid;
    intents = intents;
    fav = no_choice;
    sole_kept = none;
  }

module _ {F : Type 0} ⦃fl : Floats F⦄ ⦃ma : Maths F⦄ where
  -- add of quotes_at
  abbrev pub intent_at : FarmMarket F → Slot → F → F → F → Intent F
  intent_at fm slot price size slot_score = record {
    slot = slot;
    token_id = token fm (role slot);
    side = slot_side slot;
    price = price;
    size = round_size_down size;
    score = slot_score;
  }

  -- An exit of the shares held, where it has a price.
  abbrev exit_intent : FarmMarket F → Slot → Option F → F → F → Option (Intent F)
  exit_intent fm slot none shares mid = none
  exit_intent fm slot (some price) shares mid =
      some (intent_at fm slot price shares (sized_score slot price shares mid fm))

  -- q of quotes_at
  abbrev covered_by : Option (Intent F) → F
  covered_by none = decimal 0 0
  covered_by (some intent) = intent.score ⊗ intent.size

  abbrev bid_covers : Option (LongshotBid F) → F
  bid_covers none = decimal 0 0
  bid_covers (some low) = low.score ⊗ low.size

  abbrev bid_level : Option (F × F) → List (F × F)
  bid_level none = []
  bid_level (some (price, size)) = if decimal 0 0 <? size then (price, size) ∷ [] else []

  abbrev mirrored_level : Option F → F → F → List (F × F)
  mirrored_level none shares tick = []
  mirrored_level (some price) shares tick = (mirror price tick, shares) ∷ []

  abbrev ask_level : Option F → F → List (F × F)
  ask_level none shares = []
  ask_level (some price) shares = (price, shares) ∷ []

  abbrev bid_score : Option (F × F) → F → F → F
  bid_score none mid v = decimal 0 0
  bid_score (some (price, size)) mid v = order_score fav_bid price mid v

  abbrev bid_size : Option (F × F) → F
  bid_size none = decimal 0 0
  bid_size (some (price, size)) = size

  -- long_bid of quotes_at, for what the bids and exits of Q_one score
  abbrev balancing :
      (fuel : ℕ)
      → FarmMarket F
      → Levels F
      → Position F
      → FarmConfig F
      → Bool
      → F
      → F
      → F
      → Option (Option (LongshotBid F))
  balancing fuel fm levels position cfg naked_allowed mid covered q_one =
      if naked_allowed
      then longshot_bid fuel levels mid fm.v fm.tick fm.min_size (q_one ⊖ covered)
          (naked_room fm position) cfg.min_low_score (long_zones fm position)
      else some none

  abbrev long_intent : FarmMarket F → Option (LongshotBid F) → Option (Intent F)
  long_intent fm none = none
  long_intent fm (some low) = some (intent_at fm long_bid low.price low.size low.score)

  abbrev fav_intent : FarmMarket F → Option (F × F) → F → F → Option (Intent F)
  fav_intent fm none size fav_score = none
  fav_intent fm (some (price, _)) size fav_score =
      if decimal 0 0 <? size then some (intent_at fm fav_bid price size fav_score) else none

  abbrev pub also : Option (Intent F) → List (Intent F) → List (Intent F)
  also none intents = intents
  also (some intent) intents = intent ∷ intents

  -- The intents in the order of the slots.
  abbrev pub in_order :
      Option (Intent F)
      → Option (Intent F)
      → Option (Intent F)
      → Option (Intent F)
      → List (Intent F)
  in_order fav long_exit fav_exit low = also fav (also long_exit (also fav_exit (also low [])))

  -- What the favorite bid is trimmed to.
  abbrev trimmed : F → F → F → F → F
  trimmed fav_score fav_size q_one_exits q_two =
      if (decimal 0 0 <? fav_score) && (q_two <? q_one_exits ⊕ (fav_score ⊗ fav_size))
      then round_size_down (max (decimal 0 0) (q_two ⊖ q_one_exits) ⊘ fav_score)
      else fav_size

  -- The orders once the midpoint that they make is known.
  planned :
      (fuel : ℕ)
      → FarmMarket F
      → Levels F
      → Position F
      → FarmConfig F
      → Bool
      → Option (F × F)
      → Option F
      → Option F
      → F
      → Option (Target F)
  unfolding longshot_bid naked_room long_zones order_score sized_score
  planned fuel fm levels position cfg naked_allowed bid long_price fav_price mid =
      let long_exit = exit_intent fm long_ask long_price position.long_shares mid in
      let fav_exit = exit_intent fm fav_ask fav_price position.fav_shares mid in
      let fav_score = bid_score bid mid fm.v in
      let start_size = if decimal 0 0 <? fav_score then bid_size bid else decimal 0 0 in
      let q_one_exits = covered_by long_exit in
      let covered = covered_by fav_exit in
      with_result
        (balancing fuel fm levels position cfg naked_allowed mid covered
          (q_one_exits ⊕ (fav_score ⊗ start_size)))
        (λ low.
          let size = trimmed fav_score start_size q_one_exits (covered ⊕ bid_covers low) in
          if size <? fm.min_size
          then with_result
              (balancing fuel fm levels position cfg naked_allowed mid covered q_one_exits)
              (λ alone.
                some (
                  plain_target (some mid)
                    (in_order none long_exit fav_exit (long_intent fm alone))))
          else some (
              plain_target (some mid) (
                in_order (fav_intent fm bid size fav_score) long_exit fav_exit
                  (long_intent fm low))))

  abbrev starting_bid : FarmMarket F → Position F → Option F → Option F → Option (F × F)
  starting_bid fm position none fav_size = none
  starting_bid fm position (some price) none =
      some (price, round_size_down (capital_room fm position ⊘ price))
  starting_bid fm position (some price) (some size) = some (price, size)

  abbrev rests_exit : F → Option F → Option F
  rests_exit shares price = if order_min_shares ≤? shares then price else none

  -- With the book's own midpoint.
  around :
      (fuel : ℕ)
      → FarmMarket F
      → Levels F
      → Position F
      → FarmConfig F
      → Bool
      → Option F
      → Option F
      → Option F
      → Option F
      → Option (Result (Target F))
  unfolding planned adjust_levels capital_room plan_long_ask_price plan_fav_ask_price mirror
  around fuel fm levels position cfg naked_allowed fav_price fav_size fill_mid none =
      some (ok (plain_target none []))
  around fuel fm levels position cfg naked_allowed fav_price fav_size fill_mid (some book_mid) =
      let bid = starting_bid fm position fav_price fav_size in
      let long_price =
        rests_exit position.long_shares (plan_long_ask_price fm levels fav_price position cfg) in
      let ask_price =
        rests_exit position.fav_shares
          (plan_fav_ask_price fm levels book_mid position cfg fill_mid) in
      let quoted =
        adjust_levels levels
          (bid_level bid ++ mirrored_level long_price position.long_shares fm.tick)
          (ask_level ask_price position.fav_shares) in
      elim (adjusted_mid quoted.bids quoted.asks fm.min_size) [
        | none ↦ some (err (other_error "TypeError"))
        | some mid ↦
            map_option ok
              (planned fuel fm levels position cfg naked_allowed bid long_price ask_price mid)
      ]

  -- With a bid of fav_size at fav_price, or of all of capital_room without a size. The outer none
  -- is that the fuel ran out.
  unfoldable pub quotes_at :
      (fuel : ℕ)
      → FarmMarket F
      → Levels F
      → Position F
      → FarmConfig F
      → Bool
      → Option F
      → Option F
      → Option F
      → Option (Result (Target F))
  unfolding around
  quotes_at fuel fm levels position cfg naked_allowed fav_price fav_size fill_mid =
      around fuel fm levels position cfg naked_allowed fav_price fav_size fill_mid
        (adjusted_mid levels.bids levels.asks fm.min_size)
