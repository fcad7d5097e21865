-- ===== src/Lib.antt =====
-- polymarket-tools: trading tools for Polymarket. This library models its core, part by part.
--
-- The program's parts and how they interact
--   The exchange is reached by a client of an SDK. polymarket/ reads its answers. tools/ keeps a
--   SQLite database that the console and one worker write at the same time: jobs (take a snapshot of
--   the open orders, preview a restore of one, carry it out) and watches (post an order once a
--   market's tick reaches a target). The worker runs the jobs on one thread and the sniper, which
--   fires the watches, on others. farm/reward_farmer.py rests orders on markets that pay rewards; each
--   market has a state that every cycle steps. farm/farm_db.py is the farm's own database: the screener
--   stores the markets it found, a human at the console approves or rejects them, and the farmer reads
--   the approved ones, its settings and the console's commands.
--
-- Which file models what
--   Prelude, Prelude/*: names of the standard library, Boolean tests, lists, dictionaries, and tables
--     as lists of rows with an UPDATE ... WHERE as `update`.
--   Floats, Floats/*: Python's float and the module math as interfaces, with a fixed-point instance
--     that runs them.
--   Python: the values that json.loads gives, exceptions, and the builtins on them.
--   Polymarket/Orders: polymarket/orders.py, function by function (post, read_response, terminal,
--     open_orders, parse_order), with Orders/Posting and Orders/Listing on what they mean.
--   ToolsDb/Types: the row types and schema of tools/db.py. ToolsDb/Workers, ToolsDb/Jobs,
--     ToolsDb/Log and ToolsDb/Watches: its statements on the tables of those names. Their folders hold
--     the invariants and the step relations WorkerStep, JobStep and WatchStep.
--   Restore: plan of tools/restore.py. Restore/Place: place and _send, with sign and refresh of
--     polymarket/ticks.py. Restore/Preview: _planned and preview.
--   Sniper: the decisions of tools/sniper.py (judge, newest, fresh, retryable, settle) and its posters.
--   Sniper/Lanes: the Sniper of tools/sniper.py: its state and hot lanes (on_update, poll_once,
--     _observe, _trigger, _answer). Lanes/Slow: work_once (_retry, _prepare, _presign). Lanes/Events:
--     _drain. Lanes/Words: describe. Lanes/Control: _reconcile, _publish, tick, open (open_up) and
--     close (close_down). Lanes/Once and the modules Once: how often a watch is attempted, over the
--     step relation LaneStep of Lanes/Once/Reach. Lanes/Signing and the modules Signing: what is
--     presigned, over the same relation.
--   FarmDb/Types: the rows of farm/farm_db.py. FarmDb/Markets: its writes of markets and of the log of
--     decisions, with Markets/Logged and Markets/Kept on what they leave. FarmDb/Settings: SETTINGS,
--     parse_setting, put_settings and load_settings (its values). FarmDb/Commands: the commands, with
--     the step relation CommandStep in Commands/Final.
--   Screener/Scores, Zones, Longshot, Candidates, Values and Plans: the pure functions of
--     farm/reward_screener.py of those subjects, with share_value, sales_per_day, years_until and
--     FillCurve.per_day of farm/fill_cost.py in Values.
--   Farmer/Lifecycle: step_state of farm/reward_farmer.py with the checks it makes.
--   Farmer/Fills: fill_events, ratchet_baseline, farm_position, next_backoff and their neighbours.
--   Farmer/Pricing: FarmMarket, LiveOrder, Target and what bounds a price (ev_cap, exit_floor,
--     capital_room, naked_room, free_of_budget). Farmer/Exits: plan_long_ask_price and
--     plan_fav_ask_price. Farmer/Quotes: quotes_at, with Quotes/Exits on what every order of a plan
--     keeps to. Farmer/Keep: keep_failure. Farmer/Reconcile: reconcile, with Reconcile/Settling and
--     Loop on its loop over the slots, and Refine on what it promises.
--   Farmer/MidWatch: watch_mid, steady_mid, seeded_watch and support_held.
--   Examples/*: one run of each theorem on concrete data.
--
-- How the code corresponds
--   A connection to the database is the record Db, a table a list of rows in the order of their ids,
--   and a function that writes it takes a Db and returns the next. A partial unique index or a CHECK
--   that an INSERT breaks gives the result that the code's `except` gives. Each transaction of
--   tools/db.py is one step; JobReach and WatchReach are any sequence of them, whoever makes them.
--   The sniper's lanes share Watch objects: a heap holds them, an address names one, and `claims` lists
--   those whose lock is held. A handler of a lane is one step, since the only thing it hands to another
--   lane while it runs, the event of a claim, may as well be read after it. `made` records the attempts.
--   What a client call gave or raised, the clock and the stop events are arguments, so that a theorem
--   holds for all of them. An exception is a value, of Result, Option or a type of the model's own.
--
-- Bounds and fuel
--   The two loops over prices of the tick grid (longshot_bid's and fav_bid_candidates') run on fuel,
--   since that a price moves on by a tick is a fact of floats; an outer none, or `unfinished`, is that
--   the fuel ran out. Longshot/Climb and Candidates/Descend say which fuel is enough. Every other
--   function is by structural recursion. Times are microseconds since the epoch, on natural numbers;
--   a stored time is cut to the second, as stamp does.
--
-- What is not modelled, and why
--   Floating-point arithmetic, the printing of floats and the reading of numbers and of JSON are
--   parameters: no theorem uses more of them than the laws it names (OrderLaws, EqLaws, Grows), which
--   the floats without NaN keep. Where Python raises on a float division by zero, on a round or floor
--   of NaN or an infinity, and on an integer past the floats, the model has a float instead, but for
--   on_tick, which raises, as step_state does on a cooldown that ends past the last datetime.
--   parse_setting lets no NaN or infinity through, so a number of seconds is taken to be finite. The
--   SDK, HTTP, SQLite's locks and the threads are outside. The console, the analyses, the screener's
--   scans and the deployment are not modelled.
pub mod Prelude
pub mod Floats
pub mod Python
pub mod Polymarket
pub mod ToolsDb
pub mod Restore
pub mod Sniper
pub mod FarmDb
pub mod Farmer
pub mod Examples
pub mod Screener
