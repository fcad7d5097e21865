-- ===== src/Examples/Lanes.antt =====
-- The theorem on the lanes of tools/sniper.py at a watch whose tick is reached.
use polymarket_tools.Sniper.Lanes.{poll_once}
use polymarket_tools.Sniper.Lanes.Stop.{IsIdle}
use polymarket_tools.Sniper.Lanes.Slow.Stop.{lanes-IsIdle}
use polymarket_tools.Prelude.{
  refl, ◌+◌, ◌≤◌, none, some, true, false, [], ◌∷◌, count_if, ◌==◌, length, ◌≡◌,
}
use polymarket_tools.Floats.Nano.{ℤ, pos, nano}
use polymarket_tools.Polymarket.Orders.{post}
use polymarket_tools.Sniper.Lanes.Signing.Reach.{LaneReach-posts_own_order}
use polymarket_tools.Sniper.{Signed, answered, live, feed, judge, attempt, retryable, newest, fresh}
use polymarket_tools.Sniper.Lanes.{
  Watch, Sniper, Moment, Top, Fire, on_top, observe, trigger, answer,
}
use polymarket_tools.Sniper.Lanes.Slow.{Pass, retry_due, work_once}
use polymarket_tools.Sniper.Lanes.Slow.Ends.{outcomes, retry_due-ends}
use polymarket_tools.Sniper.Lanes.Events.{Station}
use polymarket_tools.Sniper.Lanes.Once.{is_final}
use polymarket_tools.Sniper.Lanes.Once.Reach.{here, next, updates, works, LaneReach-fires_once}
use polymarket_tools.Python.{gave}
use polymarket_tools.Examples.World.{
  accepting_call, builtins, texts, limit_order, presigned, venue, quote, guard, empty_db,
}

abbrev watch : Watch ℤ
watch = record {
  id = 1;
  order = limit_order;
  target = pos 1000000;
  target_text = "0.001";
  guard = some guard;
  poster = live;
  abort = false;
  not_before = pos 0;
  base_quote = some quote;
  feed_quote = none;
  poll_quote = none;
  presigned = some presigned;
  presign_error = none;
}

abbrev new_sniper : Sniper ℤ
new_sniper = record {
  keyed = true;
  stop = false;
  heap = watch ∷ [];
  claims = [];
  adopted = (1, 0) ∷ [];
  armed = ("token", 0) ∷ [];
  inbox = [];
  adoptions = [];
  retries = [];
  fires = [];
  feed_tokens = "token" ∷ [];
  reconciled = none;
  published = none;
  made = [];
}

abbrev before : Station ℤ
before = record { sniper = new_sniper; db = empty_db }

abbrev top : Top ℤ
top = record { tick = some (pos 1000000); bid = none; ask = none }

abbrev moment : Moment ℤ
moment = record {
  now = pos 2000000000;
  sent = pos 2000000000;
  answered = pos 2100000000;
  venue = venue;
}

abbrev pass : Pass ℤ
pass = record {
  now = pos 3000000000;
  retry_at = λ n. record { answered_at = pos 3000000000; venue = venue };
  adoption = record { book = gave top; prewarmed = none; sign_error = none };
  sign_errors = λ n. none;
}

abbrev fired : Station ℤ
fired = record before { sniper = on_top "token" top feed moment before.sniper }

abbrev worked : Station ℤ
worked = record fired { sniper = work_once pass fired.sniper }

LaneReach-fires_once_example :
    count_if (is_final 0) worked.sniper.made
      + count_if (λ (fire : Fire ℤ). fire.shot.watch == 0) worked.sniper.fires
      + count_if (λ (fire : Fire ℤ). fire.shot.watch == 0) worked.sniper.retries
    ≤ 1
LaneReach-fires_once_example =
    LaneReach-fires_once 0 before worked
      (record { no_retries = refl; no_fires = refl; none_made = refl })
      (next (next here (updates "token" top moment)) (works pass))

-- That run attempts the watch once.
made_once : length worked.sniper.made ≡ 1
unfolding on_top observe trigger answer judge attempt retryable work_once newest
    polymarket_tools.ToolsDb.Watches.admits fresh polymarket_tools.Polymarket.Orders.tick_text
    polymarket_tools.Polymarket.Orders.post
made_once = refl

abbrev stopped_sniper : Sniper ℤ
stopped_sniper = record new_sniper { stop = true }

lanes-IsIdle_example :
    IsIdle stopped_sniper (on_top "token" top feed moment stopped_sniper)
    × IsIdle stopped_sniper
        (poll_once (λ tokens. gave (("token", (top, moment)) ∷ [])) stopped_sniper)
    × IsIdle stopped_sniper (work_once pass stopped_sniper)
lanes-IsIdle_example =
    lanes-IsIdle stopped_sniper "token" top moment (λ tokens. gave (("token", (top, moment)) ∷ []))
      pass refl

abbrev refused_fire : Fire ℤ
refused_fire = record {
  shot = record {
    watch = 0;
    trigger = record { at = pos 2000000000; source = feed; tick = "0.001"; quote = none };
    send_ms = pos 0;
    attempts = 3;
    deadline = pos 12000000000;
  };
  last = "busy";
  next_at = pos 11900000000;
}

abbrev late_pass : Pass ℤ
late_pass = record pass { now = pos 13000000000 }

abbrev waiting : Sniper ℤ
waiting = record new_sniper { fires = refused_fire ∷ [] }

retry_due-ends_example :
    ((retry_due late_pass waiting).fires ≡ [])
    × ((retry_due late_pass waiting).retries ≡ [])
    × (outcomes (retry_due late_pass waiting) ≡ 1 + 0)
retry_due-ends_example = retry_due-ends late_pass waiting ((refl, refl, (watch, refl)), tt)

abbrev unsigned_watch : Watch ℤ
unsigned_watch = record watch { presigned = none }

abbrev starting : Station ℤ
starting = record before { sniper = record new_sniper { heap = unsigned_watch ∷ [] } }

abbrev own_order : Signed ℤ
own_order = record { order = limit_order; tick = "0.001" }

abbrev ready_watch : Watch ℤ
ready_watch = record watch {
  presigned = some (record { order = own_order; tick = "0.001"; at = pos 3000000000 });
}

abbrev ready : Station ℤ
ready = record starting { sniper = work_once pass starting.sniper }

LaneReach-posts_own_order_example :
    (live ≡ live)
    × (own_order ≡ own_order)
    × ((attempt live limit_order "0.001"
          (fresh ready_watch.presigned "0.001" (pos 4000000000))
          venue).0
        ≡ answered (post accepting_call))
unfolding work_once attempt fresh
LaneReach-posts_own_order_example =
    LaneReach-posts_own_order starting ready 0 ready_watch "0.001" (pos 4000000000) venue own_order
      (refl, tt) (next here (works pass)) refl refl
