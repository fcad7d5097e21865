-- ===== src/Examples/Scans.antt =====
-- The theorem on the screener's plan of a market at a concrete book.
use polymarket_tools.Prelude.{List, length, some, true, false, none, [], ◌∷◌, ◌≡◌, refl}
use polymarket_tools.Floats.{◌≤?◌, decimal}
use polymarket_tools.Floats.Nano.{ℤ, pos, nano}
use polymarket_tools.Floats.NanoMaths.{nano_maths}
use polymarket_tools.Screener.Scores.{Levels}
use polymarket_tools.Screener.Candidates.{fav_bid_candidates}
use polymarket_tools.Screener.Values.{Outlook, net_per_day}
use polymarket_tools.Screener.Plans.{
  floor_mode, Plan, planned, MarketTerms, ScreenTerms, Valued, plan_quotes,
}
use polymarket_tools.Screener.Plans.Pays.{IsPlanOf, NoneBeats, plan_quotes-IsBest}

abbrev book : Levels ℤ
book = record {
  bids = (pos 950000000, pos 1000000000000) ∷ [];
  asks = (pos 960000000, pos 1000000000000) ∷ [];
}

abbrev terms : MarketTerms ℤ
terms = record { tick = pos 10000000; v = pos 65000000; min_size = pos 50000000000 }

abbrev config : ScreenTerms ℤ
config = record {
  capital = pos 100000000000;
  max_lead = pos 5000000;
  min_low_score = pos 100000000;
  naked_budget = pos 10000000000;
}

abbrev outlook : Outlook ℤ
outlook = record {
  rate_per_day = pos 10000000000;
  years_left = pos 500000000;
  fills = record { rates = pos 100000000 ∷ []; from_history = true; exit_per_day = pos 0 };
  hurdle_rate = pos 400000000;
}

abbrev none_planned : Valued ℤ
none_planned = (
  record {
    mid = pos 0;
    fav_bid_price = pos 0;
    fav_bid_size = pos 0;
    fav_bid_score = pos 0;
    low_price = pos 0;
    low_size = pos 0;
    low_score = pos 0;
    mode = floor_mode;
  },
  record {
    price = none;
    size = pos 0;
    capital_usd = pos 0;
    reward_per_day = pos 0;
    fills_per_day = pos 0;
    loss_per_share = pos 0;
  },
)

abbrev result_of : Plan (Valued ℤ) → Valued ℤ
result_of (planned best) = best
result_of _ = none_planned

abbrev best : Valued ℤ
best = result_of (plan_quotes 12 terms book config outlook (pos 955000000))

plan_quotes-IsBest_example :
    ((net_per_day best.1 ≤? decimal 0 0) ≡ false)
    × ((prices : List ℤ) × (fav_bid_candidates 12 book terms.v terms.tick terms.min_size
            config.max_lead none
          ≡ some prices)
        × IsPlanOf 12 terms book config outlook (pos 955000000) prices best
        × NoneBeats 12 terms book config outlook (pos 955000000) (length prices) prices best)
unfolding plan_quotes
plan_quotes-IsBest_example =
    plan_quotes-IsBest 12 terms book config outlook (pos 955000000) best refl
