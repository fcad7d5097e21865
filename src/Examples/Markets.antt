-- ===== src/Examples/Markets.antt =====
-- The theorems on farm/reward_farmer.py at concrete inputs.
use polymarket_tools.Prelude.{ℕ, Option, List, arith, ◌+◌, ◌≤◌}
use polymarket_tools.Floats.{elapsed, ◌<?◌, micros}
use polymarket_tools.Floats.Nano.{ℤ, pos, nano}
use polymarket_tools.Farmer.MidWatch.{MidWatch, watch_mid, steady_mid, free_dwell_s}
use polymarket_tools.Farmer.MidWatch.Lowest.{watched}
use polymarket_tools.Farmer.MidWatch.Cycles.{Grows, Above, steady_mid-AtLeast}
use polymarket_tools.Prelude.{[], ◌∷◌, All}
use polymarket_tools.Floats.Nano.{nano-OrderLaws}
use polymarket_tools.Farmer.Fills.{Position, next_backoff}
use polymarket_tools.Farmer.Fills.Backoffs.{rejected, rejected-eq-delay}
use polymarket_tools.Farmer.Fills.Baselines.{IsCovered, after_holdings, after_holdings-IsCovered}
use polymarket_tools.Prelude.{◌≡◌, refl, true, false, ◌||◌, none, some, [], is_some}
use polymarket_tools.Floats.Nano.{ℤ, pos, nano}
use polymarket_tools.Farmer.Lifecycle.{
  State, Observation, FarmConfig, cooldown, quoting, plain, is_retired, retire_reason, step_state,
  by_terms, by_book, last_time,
}
use polymarket_tools.Farmer.Lifecycle.Gates.{
  IsOpen, BookAllows, IsWellFormed, Yields, resumed, step_state-total, step_state-retired,
  step_state-rests_bids,
}

abbrev pub cfg : FarmConfig ℤ
cfg = record {
  capital = pos 100000000000;
  max_lead = pos 10000000;
  ask_offset = pos 10000000;
  min_capture = pos 1000000;
  ev_margin = pos 1000000;
  min_fav = pos 900000000;
  min_low_score = pos 1000000;
  keep_ratio = pos 700000000;
  drop_threshold = pos 20000000;
  drop_window_s = pos 60000000000;
  cooldown_s = pos 300000000000;
  naked_cooldown_s = pos 300000000000;
  expiry_buffer_days = pos 7000000000;
  hurdle_rate = pos 100000000;
}

abbrev obs : Observation ℤ
obs = record {
  mid = some (pos 950000000);
  ask = some (pos 960000000);
  recent_asks = [];
  rewards_active = true;
  accepting_orders = true;
  closed = false;
  approved = true;
  expires_at = 9000000;
  paused = false;
  naked_paused = false;
  naked_cooldown_until = none;
  resolution = none;
  sole_bid = false;
}

abbrev cooling_market : State
cooling_market = record { phase = cooldown; until = some 2000000; reason = "ask drop" }

in_range : 1000000 + micros cfg.cooldown_s ≤ last_time
in_range = omega arith

step_state-total_example : Yields IsWellFormed (step_state cooling_market obs 1000000 cfg)
step_state-total_example = step_state-total cfg obs 1000000 cooling_market in_range (λ h. refl)

step_state-retired_example :
    is_retired quoting ≡ (is_retired cooldown || is_some (retire_reason obs 3000000))
unfolding step_state by_terms by_book retire_reason
step_state-retired_example = step_state-retired cfg obs 3000000 cooling_market (plain quoting) refl

step_state-rests_bids_example :
    IsOpen obs 3000000 × BookAllows cfg obs 3000000 (resumed cooling_market) (plain quoting)
unfolding step_state by_terms by_book retire_reason
step_state-rests_bids_example =
    step_state-rests_bids cfg obs 3000000 cooling_market (plain quoting) refl refl

rejected-eq-delay_example :
    rejected (5000000 ∷ 3000000 ∷ [])
    ≡ some (record { until = 65000000; delay_s = 60; attempts = 2 })
unfolding next_backoff
rejected-eq-delay_example = rejected-eq-delay 5000000 (3000000 ∷ [])

abbrev holding : ℤ → Position ℤ
holding shares = record {
  fav_shares = shares;
  fav_avg = pos 900000000;
  long_shares = pos 0;
  long_avg = pos 0;
}

after_holdings-IsCovered_example :
    All
      (IsCovered (after_holdings (holding (pos 9)) (holding (pos 4) ∷ holding (pos 7) ∷ [])))
      (holding (pos 9) ∷ holding (pos 4) ∷ holding (pos 7) ∷ [])
after_holdings-IsCovered_example =
    after_holdings-IsCovered nano-OrderLaws (holding (pos 9))
      (holding (pos 4) ∷ holding (pos 7) ∷ [])

nano-Grows : Grows nano
nano-Grows s t u le = ground arith

-- A market watched for eleven minutes, the newest cycle first.
abbrev cycles : List (ℕ × Option ℤ)
cycles =
    (660000000, some (pos 940000000))
    ∷ (300000000, some (pos 950000000))
    ∷ (0, some (pos 900000000))
    ∷ []

abbrev watch : MidWatch ℤ
watch = record { since = 0; mids = (300000000, pos 950000000) ∷ (660000000, pos 940000000) ∷ [] }

steady_mid-AtLeast_example :
    ((elapsed 660000000 0 <? free_dwell_s {F = ℤ}) ≡ false)
    × All (Above (pos 940000000) 660000000 0) cycles
unfolding watched watch_mid steady_mid
steady_mid-AtLeast_example =
    steady_mid-AtLeast nano-OrderLaws nano-Grows (pos 940000000) 660000000 cycles watch
      (omega arith, (omega arith, (omega arith, tt))) refl refl
