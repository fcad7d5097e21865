-- ===== src/Restore/Place.antt =====
-- tools/restore.py: `place`, which carries a plan out, and polymarket/ticks.py, which it signs by.
-- What the exchange's client did and whether the worker was stopping, at each order, are arguments.
pub mod Streak
use polymarket_tools.Prelude.{
  ℕ, suc, ◌+◌, String, Bool, true, false, Option, none, some, List, [], ◌∷◌, ◌++◌, ltb, ◌==◌,
  lookup, insert, Dict, length, any, if◌then◌else◌, ◌&◌, ◌||◌,
}
use polymarket_tools.Floats.{Floats}
use polymarket_tools.Python.{
  Json, Raised, Called, gave, failed, Builtins, Texts, Result, ok, err, value_error, Error, ◌>>=◌,
}
use polymarket_tools.Polymarket.Orders.{
  Answer, posted, rejected, unanswered, Call, post, on_grid, tick_text, open_orders,
}
use polymarket_tools.ToolsDb.Types.{
  Db, Job, RestoreAction, RestoreLine, SnapshotOrder, would_place, placed, error,
}
use polymarket_tools.Restore.{is_would_place, PlanLine, plan}

-- MAX_UNANSWERED_IN_A_ROW
abbrev pub max_unanswered : ℕ
max_unanswered = 3

-- RESTORE_MAX_WAIT, five minutes in microseconds
abbrev pub restore_max_wait : ℕ
restore_max_wait = 300000000

-- What happens outside at one order: whether stop is set when its turn comes; the tick that a
-- refresh reads, asked only for a market not read before; whether create_order signs; and what the
-- post is answered.
pub record Turn (F : Type 0) : Type 0 where
  pub stopping : Bool
  pub refreshed : Called F F
  pub signed : Called F (Unit {0})
  pub call : Call F

-- What _send returns: the answer of a post, or Unsent with its detail.
pub data Sent : Type 0 where
  answered : Answer → Sent
  unsent : String → Sent

-- The loop's variables, and the answers that its posts have got, the newest first.
pub record Progress (F : Type 0) : Type 0 where
  pub lines : List (RestoreLine F)
  pub tick_of : Dict F
  pub unanswered_in_a_row : ℕ
  pub answers : List Answer

-- How a restore ended: it went through the plan, or it raised Stopped.
pub data Ended (F : Type 0) : Type 0 where
  finished : Progress F → Ended F
  stopped : Progress F → Ended F

abbrev pub progress : {F : Type 0} → Ended F → Progress F
progress (finished p) = p
progress (stopped p) = p

module _ {F : Type 0} ⦃fl : Floats F⦄ ⦃py : Builtins F⦄ ⦃tx : Texts⦄ where
  raised_text : Raised F → String
  raised_text e = e.class_name & ": " & e.message

  -- polymarket/ticks.py sign: OffGrid before the client is asked
  sign : F → F → Called F (Unit {0}) → Called F (Unit {0})
  sign price tick signed =
      if on_grid price tick
      then signed
      else failed (record {
        class_name = "OffGrid";
        message =
            "price "
            & fl.general price
            & " is not a multiple of the market's tick "
            & tick_text tick;
        status_code = none;
        error_msg = Json.null;
      })

  posted_signed : Called F (Unit {0}) → Call F → Sent
  unfolding raised_text
  posted_signed (gave _) call = answered (post call)
  posted_signed (failed e) call = unsent (raised_text e)

  -- The tick of the order's market: remembered, or refreshed now.
  tick_now : Dict F → String → Called F F → Called F F
  tick_now tick_of market refreshed = elim (lookup market tick_of) [
    | none ↦ refreshed
    | some tick ↦ gave tick
  ]

  send_at : PlanLine F → Turn F → Dict F → Called F F → Sent × Dict F
  unfolding sign posted_signed raised_text
  send_at line turn tick_of (failed e) = (unsent (raised_text e), tick_of)
  send_at line turn tick_of (gave tick) = (
    posted_signed (sign line.order.order.price tick turn.signed) turn.call,
    insert line.order.order.market tick tick_of,
  )

  -- _send
  send : PlanLine F → Turn F → Dict F → Sent × Dict F
  unfolding send_at tick_now
  send line turn tick_of =
      send_at line turn tick_of (tick_now tick_of line.order.order.market turn.refreshed)

  stored_line : ℕ → PlanLine F → RestoreAction → Option String → String → RestoreLine F
  stored_line job_id line action order_id detail = record {
    job_id = job_id;
    order = line.order;
    action = action;
    size = line.size;
    order_id = order_id;
    detail = detail;
  }

  -- The four branches on the answer.
  after : ℕ → PlanLine F → Progress F → Sent × Dict F → Progress F
  unfolding stored_line
  after job_id line p (answered (posted id), ticks) = record {
    lines = p.lines ++ (stored_line job_id line placed (some id) line.reason ∷ []);
    tick_of = ticks;
    unanswered_in_a_row = 0;
    answers = posted id ∷ p.answers;
  }
  after job_id line p (answered (rejected reason), ticks) = record {
    lines = p.lines ++ (stored_line job_id line RestoreAction.rejected none reason ∷ []);
    tick_of = ticks;
    unanswered_in_a_row = 0;
    answers = rejected reason ∷ p.answers;
  }
  after job_id line p (answered (unanswered detail), ticks) = record {
    lines =
        p.lines
        ++ (stored_line job_id line error none
              ("no answer (" & detail & "): the order may rest: check your open orders")
            ∷ []);
    tick_of = ticks;
    unanswered_in_a_row = p.unanswered_in_a_row + 1;
    answers = unanswered detail ∷ p.answers;
  }
  after job_id line p (unsent detail, ticks) = record {
    lines = p.lines ++ (stored_line job_id line error none ("not sent: " & detail) ∷ []);
    tick_of = ticks;
    unanswered_in_a_row = p.unanswered_in_a_row;
    answers = p.answers;
  }

  -- One order of the plan.
  handle : ℕ → PlanLine F → Turn F → Progress F → Progress F
  unfolding send after stored_line
  handle job_id line turn p =
      if is_would_place line.action
      then after job_id line p (send line turn p.tick_of)
      else record p {
        lines = p.lines ++ (stored_line job_id line line.action none line.reason ∷ []);
      }

  -- The loop: `turns` gives what happens outside at each order, by how many came before it.
  place_lines : ℕ → (ℕ → Turn F) → ℕ → List (PlanLine F) → Progress F → Ended F
  unfolding handle
  place_lines job_id turns n [] p = finished p
  place_lines job_id turns n (line ∷ rest) p =
      let next = place_lines job_id turns (suc n) rest (handle job_id line (turns n) p) in
      if (turns n).stopping || (p.unanswered_in_a_row == max_unanswered) then stopped p else next

  abbrev pub started : Progress F
  started = record { lines = []; tick_of = []; unanswered_in_a_row = 0; answers = [] }

  unfoldable pub place : ℕ → ℕ → ℕ → (ℕ → Turn F) → List (PlanLine F) → Ended F
  unfolding place_lines
  place job_id created_at now turns planned =
      if ltb (created_at + restore_max_wait) now
      then stopped started
      else place_lines job_id turns 0 planned started
