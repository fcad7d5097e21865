-- ===== src/Examples/Quotes.antt =====
-- The theorems on the farm's longshot bids and on reconcile at concrete inputs.
use polymarket_tools.Prelude.{
  String, true, false, none, some, is_some, List, [], ◌∷◌, ◌≡◌, refl, ◌⊎◌, inl, inr, ◌≤◌, arith,
  eq_iff, contains, Bool-cases, str_eq, Option, All,
}
use mathlib.Core.Path.{subst}
use polymarket_tools.Floats.Nano.{ℤ, pos, nano, nano-OrderLaws}
use polymarket_tools.Python.{Result, ok}
use polymarket_tools.Farmer.Lifecycle.{FarmConfig}
use polymarket_tools.Farmer.Exits.{plan_fav_ask_price}
use polymarket_tools.Farmer.Quotes.{quotes_at}
use polymarket_tools.Farmer.Quotes.Exits.{IsSound, quotes_at-IsSound}
use polymarket_tools.Floats.NanoMaths.{nano_maths}
use polymarket_tools.Polymarket.Orders.{buy, sell}
use polymarket_tools.Screener.Scores.{Levels}
use polymarket_tools.Screener.Zones.{Zones}
use polymarket_tools.Screener.Longshot.{longshot_bid}
use polymarket_tools.Screener.Longshot.Bounds.{OnLadder, IsAllowed, IsSized, longshot_bid-IsSized}
use polymarket_tools.Screener.Longshot.Climb.{longshot_bid-enough}
use polymarket_tools.Farmer.Fills.{
  fav_bid, long_ask, fav_ask, Position, Intent, Action, cancel, place,
}
use polymarket_tools.Farmer.Pricing.{FarmMarket, LiveOrder, Target, on_tick, exit_floor}
use polymarket_tools.Farmer.Keep.{keep_failure}
use polymarket_tools.Farmer.Reconcile.{reconcile}
use polymarket_tools.Farmer.Reconcile.Settling.{count_id}
use polymarket_tools.Farmer.Reconcile.Refine.{HoldsTarget, reconcile-HoldsTarget}
use polymarket_tools.Farmer.Keep.Bounds.{IsBounded, keep_failure-IsBounded}
use polymarket_tools.Examples.Markets.{cfg}

abbrev book : Levels ℤ
book = record {
  bids = (pos 950000000, pos 1000000000000) ∷ [];
  asks = (pos 960000000, pos 1000000000000) ∷ [];
}

abbrev zones : Zones ℤ
zones = record { years_left = pos 500000000; steady_mid = some (pos 955000000) }

abbrev market : FarmMarket ℤ
market = record {
  condition_id = "m";
  slug = "slug";
  question = "question";
  end_date = 9000000;
  neg_risk = false;
  tick = pos 10000000;
  fav_token_id = "fav";
  fav_outcome = "No";
  rate_per_day = pos 10000000000;
  v = pos 65000000;
  min_size = pos 50000000000;
  long_token_id = "long";
  p_true = none;
  naked_budget_usd = pos 10000000000;
  expires_at = 9000000;
  capital = pos 100000000000;
  zones = zones;
  paused = false;
  naked_paused = false;
  sole_bid = false;
  book_mid = some (pos 955000000);
}

abbrev position : Position ℤ
position = record {
  fav_shares = pos 60000000000;
  fav_avg = pos 940000000;
  long_shares = pos 70000000000;
  long_avg = pos 20000000;
}

abbrev exit : LiveOrder ℤ
exit = record {
  id = "a";
  slot = long_ask;
  token_id = "long";
  side = sell;
  price = pos 50000000;
  size_remaining = pos 70000000000;
}

abbrev stray : LiveOrder ℤ
stray = record {
  id = "b";
  slot = fav_bid;
  token_id = "fav";
  side = buy;
  price = pos 950000000;
  size_remaining = pos 60000000000;
}

abbrev long_exit : Intent ℤ
long_exit = record {
  slot = long_ask;
  token_id = "long";
  side = sell;
  price = pos 50000000;
  size = pos 70000000000;
  score = pos 800000000;
}

abbrev fav_exit : Intent ℤ
fav_exit = record {
  slot = fav_ask;
  token_id = "fav";
  side = sell;
  price = pos 970000000;
  size = pos 60000000000;
  score = pos 500000000;
}

abbrev target : Target ℤ
target = record {
  mid = some (pos 955000000);
  intents = long_exit ∷ fav_exit ∷ [];
  fav = record {
    best = none;
    resting = [];
    baseline_per_day = pos 0;
    reason = "no fill history yet";
  };
  sole_kept = none;
}

abbrev live : List (LiveOrder ℤ)
live = exit ∷ stray ∷ []

live_unique : (k : String) → count_id k live ≤ 1
live_unique k = elim (Bool-cases (str_eq "a" k)) [
  | inl hit ↦ subst (λ j. count_id j live ≤ 1) ((eq_iff "a" k).0 hit) (omega arith)
  | inr miss ↦ rw miss (ground arith)
]

abbrev actions : List (Action ℤ)
actions = cancel ("b" ∷ []) ∷ place fav_exit ∷ []

reconcile-HoldsTarget_example :
    HoldsTarget (λ o i. keep_failure o i target market position cfg) (some long_exit) (exit ∷ []) []
unfolding reconcile
reconcile-HoldsTarget_example =
    reconcile-HoldsTarget target live market position cfg actions long_ask live_unique refl

keep_failure-IsBounded_example :
    (on_tick (pos 50000000) (pos 10000000) ≡ ok true)
    × (((ids : List String) × (none ≡ some ids) × (false ≡ true) × (contains "a" ids ≡ true))
        ⊎ IsBounded exit target market position cfg long_ask)
unfolding keep_failure
keep_failure-IsBounded_example =
    keep_failure-IsBounded exit long_exit target market position cfg refl

longshot_bid-IsSized_example :
    (OnLadder
        (pos 10000000)
        (pos 45000000)
        (pos 45000000)
        (pos 65000000)
        (pos 10000000, pos 213017750)
      × IsAllowed zones (pos 10000000, pos 213017750))
    × IsSized
        (pos 65000000)
        (pos 50000000000)
        (pos 20000000000)
        (pos 10000000000)
        zones
        (record { price = pos 10000000; size = pos 93890000000; score = pos 213017750 })
unfolding longshot_bid
longshot_bid-IsSized_example =
    longshot_bid-IsSized 6 book (pos 955000000) (pos 65000000) (pos 10000000) (pos 50000000000)
      (pos 20000000000) (pos 10000000000) (pos 100000000) zones
      (record { price = pos 10000000; size = pos 93890000000; score = pos 213017750 }) refl

longshot_bid-enough_example :
    (longshot_bid 9 book
        (pos 955000000)
        (pos 65000000)
        (pos 10000000)
        (pos 50000000000)
        (pos 20000000000)
        (pos 10000000000)
        (pos 100000000)
        zones
      ≡ longshot_bid 5 book
          (pos 955000000)
          (pos 65000000)
          (pos 10000000)
          (pos 50000000000)
          (pos 20000000000)
          (pos 10000000000)
          (pos 100000000)
          zones)
    × (is_some (
          longshot_bid 5 book
            (pos 955000000)
            (pos 65000000)
            (pos 10000000)
            (pos 50000000000)
            (pos 20000000000)
            (pos 10000000000)
            (pos 100000000)
            zones)
        ≡ true)
longshot_bid-enough_example =
    longshot_bid-enough 4 8 book (pos 955000000) (pos 65000000) (pos 10000000) (pos 50000000000)
      (pos 20000000000) (pos 10000000000) (pos 100000000) zones (omega arith) refl

abbrev plan_of : Option (Result (Target ℤ)) → Target ℤ
plan_of (some (ok plan)) = plan
plan_of _ = target

abbrev plan : Target ℤ
plan = plan_of (quotes_at 6 market book position cfg true (some (pos 950000000)) none none)

quotes_at-IsSound_example :
    All
      (λ i. IsSound market book position cfg true (some (pos 950000000)) i.slot i.price)
      plan.intents
unfolding quotes_at
quotes_at-IsSound_example =
    quotes_at-IsSound nano-OrderLaws 6 market book position cfg true (some (pos 950000000)) none
      none plan refl

-- Shares bought at 99c on a tick of 1c.
abbrev dear : Position ℤ
dear = record position { fav_avg = pos 990000000; fav_shares = pos 60000000000 }

abbrev dear_cfg : FarmConfig ℤ
dear_cfg = record cfg { min_capture = pos 1000000; ask_offset = pos 10000000 }

abbrev dear_exit : LiveOrder ℤ
dear_exit = record {
  id = "c";
  slot = fav_ask;
  token_id = "fav";
  side = sell;
  price = pos 990000000;
  size_remaining = pos 60000000000;
}

abbrev dear_intent : Intent ℤ
dear_intent = record fav_exit { price = pos 990000000 }

-- The ask planned for them stays under their exit floor, so the next cycle replaces it by itself.
dear_ask_under_floor :
    (plan_fav_ask_price market book (pos 955000000) dear dear_cfg none ≡ some (pos 990000000))
    × (exit_floor dear market dear_cfg ≡ pos 1000000000)
    × (keep_failure dear_exit dear_intent target market dear dear_cfg
        ≡ ok (some "below the exit floor"))
unfolding plan_fav_ask_price exit_floor keep_failure
dear_ask_under_floor = (refl, refl, refl)
