-- ===== src/Examples/World.antt =====
-- Concrete builtins, a market and a database for the examples.
use polymarket_tools.Prelude.{String, true, false, Option, none, some, List, [], ◌∷◌}
use polymarket_tools.Floats.Nano.{ℤ, pos, nano}
use polymarket_tools.Python.{Json, text, number, boolean, object, field, end, Texts, Builtins, ok}
use polymarket_tools.Polymarket.Orders.{buy, LimitOrder, OpenOrder, Call, returned}
use polymarket_tools.ToolsDb.Types.{Db, Guard, NewWatch, SnapshotOrder}
use polymarket_tools.Sniper.{Presigned, Quote, Source, Venue}

instance abbrev pub texts : Texts
texts = record {
  int_str = λ n. "number";
  repr = λ s. s;
  prefix = λ s n. s;
  lower = λ s. s;
  upper = λ s. s;
}

abbrev str_of : Json ℤ → String
str_of (text s) = s
str_of _ = "value"

abbrev float_of : Json ℤ → Option ℤ
float_of (number x) = some x
float_of _ = none

instance abbrev pub builtins : Builtins ℤ
builtins = record {
  str = str_of;
  repr = str_of;
  type_name = λ v. "dict";
  float = float_of;
  from_timestamp = λ x. ok 0;
}

-- 0.99, 0.001 and so on, in billionths.
abbrev pub cents_99 : ℤ
cents_99 = pos 990000000

abbrev pub shares_10 : ℤ
shares_10 = pos 10000000000

abbrev pub zero_shares : ℤ
zero_shares = pos 0

abbrev pub limit_order : LimitOrder ℤ
limit_order = record {
  token_id = "token";
  side = buy;
  price = cents_99;
  size = shares_10;
  expires_after_s = 0;
}

abbrev pub open_order : String → OpenOrder ℤ
open_order id = record {
  order_id = id;
  token_id = "token";
  market = "market";
  outcome = "Yes";
  side = buy;
  price = cents_99;
  size = shares_10;
  size_matched = zero_shares;
  expiration = none;
}

-- Two orders with one key.
abbrev pub stored_orders : List (SnapshotOrder ℤ)
stored_orders =
    record {
      id = 1;
      snapshot_id = 1;
      market_name = none;
      order = open_order "a";
      farmer = some false;
    }
    ∷ record {
      id = 2;
      snapshot_id = 1;
      market_name = none;
      order = open_order "b";
      farmer = some false;
    }
    ∷ []

abbrev pub guard : Guard ℤ
guard = record { price = cents_99; tolerance = pos 5000000; max_age_s = pos 5000000000 }

abbrev pub new_watch : NewWatch ℤ
new_watch = record {
  order = limit_order;
  market = "market";
  label = "label";
  target_tick = "0.001";
  guard = some guard;
  dry_run = false;
}

abbrev pub empty_db : Db ℤ
empty_db = record {
  worker_status = none;
  jobs = [];
  next_job = 1;
  watches = [];
  next_watch = 1;
  log = [];
  next_log = 1;
  restore_lines = [];
  snapshot_orders = [];
  snapshot_ids = [];
}

abbrev pub accepting_call : Call ℤ
accepting_call =
    returned (object (field "success" (boolean true) (field "orderID" (text "new") end)))

abbrev pub quote : Quote ℤ
quote = record {
  bid = some cents_99;
  ask = none;
  tick = some "0.01";
  source = Source.feed;
  at = pos 1000000000;
}

abbrev pub presigned : Presigned ℤ
presigned = record {
  order = record { order = limit_order; tick = "0.001" };
  tick = "0.001";
  at = pos 1000000000;
}

abbrev pub venue : Venue ℤ
venue = record { sign_error = none; call = accepting_call }
