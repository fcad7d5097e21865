-- ===== src/Examples/Farm.antt =====
-- The theorems on farm/farm_db.py at concrete inputs.
use polymarket_tools.Prelude.{
  not, keep_if, arith, String, ℕ, true, false, Option, none, some, [], ◌∷◌, ◌≡◌, refl, All, ◌==◌,
}
use polymarket_tools.Floats.Nano.{ℤ, pos, nano}
use polymarket_tools.Python.{number}
use polymarket_tools.Examples.World.{texts, builtins}
use polymarket_tools.FarmDb.Types.{ScanRow, approved, MarketRow, CommandRow, FarmDb}
use polymarket_tools.FarmDb.Markets.{store_scan, mark_retired, approve_market}
use polymarket_tools.FarmDb.Markets.Logged.{IsLogged}
use polymarket_tools.FarmDb.Markets.Logged.Steps.{
  AutoStep, scans, marks_retired, here, auto, human, approves, FarmReach-IsLogged,
}
use polymarket_tools.FarmDb.Markets.Kept.{KeptAt, AutoStep-KeptAt}
use polymarket_tools.FarmDb.Settings.{JsonText, put_setting, load_settings, bound_of}
use polymarket_tools.FarmDb.Settings.Loaded.{IsWithin, load_settings-IsWithin}
use polymarket_tools.FarmDb.Settings.Put.{value_at, load_settings-put_setting}
use polymarket_tools.FarmDb.Commands.{
  send_command, consume_command, expire_commands, pending_commands,
}
use polymarket_tools.FarmDb.Commands.Final.{CommandStep, CommandReach, pending_commands-consumed}

-- A json that knows one number.
instance abbrev json : JsonText ℤ
json = record {
  loads = λ s. some (number (pos 900000000));
  dumps = λ v. "0.9";
  is_finite = λ x. true;
}

abbrev empty : FarmDb ℤ
empty = record { markets = []; decisions = []; settings = []; commands = []; next_command = 1 }

abbrev scan : ScanRow ℤ
scan = record {
  condition_id = "m";
  slug = "slug";
  question = "question";
  end_date = "2027-01-01";
  rank_score = pos 1;
  metrics = "metrics";
}

abbrev scanned_db : FarmDb ℤ
scanned_db = store_scan empty (scan ∷ []) ("m" ∷ []) 5000000

abbrev approved_db : FarmDb ℤ
approved_db = approve_market scanned_db "m" none (pos 1000000000) none 6000000

abbrev retired_db : FarmDb ℤ
retired_db = mark_retired approved_db "m" "closed"

FarmReach-IsLogged_example : IsLogged retired_db
FarmReach-IsLogged_example =
    FarmReach-IsLogged {db = empty} (record { explained = tt; known = tt })
      (auto
        (human (auto here (scans (scan ∷ []) ("m" ∷ []) 5000000))
          (approves "m" none (pos 1000000000) none 6000000))
        (marks_retired "m" "closed"))

abbrev approved_row : MarketRow ℤ
approved_row = record {
  condition_id = "m";
  slug = "slug";
  question = "question";
  status = approved;
  p_true = none;
  naked_budget_usd = some (pos 1000000000);
  note = none;
  end_date = "2027-01-01";
  rewards_active = true;
  rank_score = pos 1;
  metrics = "metrics";
  first_seen = 5000000;
  last_scanned = 5000000;
  baseline_fav = none;
  baseline_long = none;
  paused = false;
  naked_paused = false;
  capital_usd = none;
  sole_bid = false;
}

abbrev retires_it : AutoStep approved_db retired_db
retires_it = marks_retired "m" "closed"

AutoStep-KeptAt_example : KeptAt retires_it 0 approved_row
unfolding store_scan approve_market
AutoStep-KeptAt_example = AutoStep-KeptAt approved_db 0 approved_row retires_it refl

load_settings-IsWithin_example :
    All
      (λ (e : String × ℤ). IsWithin e.0 e.1)
      (load_settings (record empty {
        settings =
            record { key = "min_fav"; value = "0.9"; updated_at = 0 }
            ∷ record { key = "unknown"; value = "0.9"; updated_at = 0 }
            ∷ [];
      }))
load_settings-IsWithin_example = load_settings-IsWithin (record empty {
  settings =
      record { key = "min_fav"; value = "0.9"; updated_at = 0 }
      ∷ record { key = "unknown"; value = "0.9"; updated_at = 0 }
      ∷ [];
})

abbrev min_fav_db : FarmDb ℤ
min_fav_db = record empty {
  settings = record { key = "min_fav"; value = "0.9"; updated_at = 2000000 } ∷ [];
}

abbrev min_fav_set : FarmDb ℤ
min_fav_set = record min_fav_db {
  settings = record { key = "min_fav"; value = "0.9"; updated_at = 7000000 } ∷ [];
}

load_settings-put_setting_example :
    value_at "min_fav" (load_settings min_fav_set) ≡ some (pos 900000000)
unfolding put_setting load_settings bound_of
load_settings-put_setting_example =
    load_settings-put_setting min_fav_db min_fav_set "min_fav" (pos 900000000) 7000000 "min_fav"
      refl refl refl

abbrev command : Option ℕ → Option String → CommandRow
command consumed_at result = record {
  id = 1;
  at = 5000000;
  kind = "stop";
  payload = none;
  consumed_at = consumed_at;
  result = result;
}

abbrev waiting : FarmDb ℤ
waiting = record empty { commands = command none none ∷ []; next_command = 2 }

abbrev stopped_once : FarmDb ℤ
stopped_once = consume_command waiting 1 "done" 9000000

abbrev sent_again : FarmDb ℤ
sent_again = (send_command stopped_once "stop" 9000000 none).1

pending_commands-consumed_example :
    (pending_commands stopped_once ≡ keep_if (λ row. not (row.id == 1)) (pending_commands waiting))
    × All (λ row. (row.id == 1) ≡ false) (pending_commands sent_again)
    × (pending_commands (expire_commands sent_again 9000000).1 ≡ [])
pending_commands-consumed_example =
    pending_commands-consumed 1 waiting sent_again "done" 9000000 (omega arith)
      (CommandReach.next CommandReach.here (CommandStep.sends "stop" 9000000 none))
