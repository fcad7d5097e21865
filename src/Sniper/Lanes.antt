-- ===== src/Sniper/Lanes.antt =====
-- tools/sniper.py: the state of a Sniper and its hot lanes, from the tick that is seen to the POST.
-- A Watch is an object that the lanes share: it stands in a heap and is passed around by address.
-- A handler is one step; what it reads outside (clocks, books, signing, posts) is an argument.
pub mod Slow
pub mod Words
pub mod Events
pub mod Control
pub mod Once
pub mod Signing
pub mod Stop
use polymarket_tools.Prelude.{
  ℕ, zero, suc, ◌+◌, ◌-◌, ◌≤◌, ◌≡◌, refl, ◌⊎◌, inl, inr, arith, String, Bool, true, false, not,
  ◌&&◌, ◌||◌, Option, none, some, is_some, List, [], ◌∷◌, ◌++◌, map, any, count_if, keep_if, All,
  get_elem?, leb, ltb, ◌==◌, str_eq, contains, read_at, drop_at, put_at, modify, if◌then◌else◌, ◌&◌,
  Bool-cases, Option-cases, length, count_if-append,
}
use polymarket_tools.Floats.{
  Floats, ◌<?◌, ◌≤?◌, ◌⊕◌, ◌⊖◌, ◌⊗◌, decimal, elapsed, micros, general, fixed1,
}
use polymarket_tools.Python.{Json, Raised, Called, gave, failed, Builtins, Texts, Result, ok, err}
use polymarket_tools.Polymarket.Orders.{
  Side, buy, sell, Answer, posted, rejected, unanswered, Call, post, terminal, LimitOrder,
  tick_text,
}
use polymarket_tools.ToolsDb.Types.{
  Db, Guard, Reason, Settlement, WatchRow, WatchState, Sample, is_open, is_armed,
}
use polymarket_tools.Sniper.{
  Quote, Trigger, Source, feed, poll, baseline, Signed, Presigned, Attempt, answered,
  rehearsed_with, unsigned, attempted, Outcome, missed_at, guard_refused, cut, was_disarmed,
  was_interrupted, CutBy, by_disarm, by_stop, Poster, live, dry, Venue, attempt, fresh, judge,
  newest, reached, retryable, settle, cents, side_name, reference, last_tick,
}

pub record Watch (F : Type 0) : Type 0 where
  pub id : ℕ
  pub order : LimitOrder F
  pub target : F
  pub target_text : String
  pub guard : Option (Guard F)
  pub poster : Poster
  pub abort : Bool
  pub not_before : F
  pub base_quote : Option (Quote F)
  pub feed_quote : Option (Quote F)
  pub poll_quote : Option (Quote F)
  pub presigned : Option (Presigned F)
  pub presign_error : Option String

-- A Fire before its first answer.
pub record Shot (F : Type 0) : Type 0 where
  pub watch : ℕ
  pub trigger : Trigger F
  pub send_ms : F
  pub attempts : ℕ
  pub deadline : F

-- A Fire that waits for its retry. `last` is the reason of its last refusal.
pub record Fire (F : Type 0) : Type 0 where
  pub shot : Shot F
  pub last : String
  pub next_at : F

pub data Event (F : Type 0) : Type 0 where
  prepared : ℕ → Event F
  claimed_by : ℕ → Trigger F → Event F
  resolved : ℕ → Outcome → Option (Trigger F) → ℕ → Option F → Option F → Event F
  note : Option ℕ → String → Event F

-- The Sniper. `claims` lists the watches whose lock is held, `feed_tokens` is what the feed was
-- last given, and `made` lists the attempts that were made, the newest first.
pub record Sniper (F : Type 0) : Type 0 where
  pub keyed : Bool
  pub stop : Bool
  pub heap : List (Watch F)
  pub claims : List ℕ
  pub adopted : List (ℕ × ℕ)
  pub armed : List (String × ℕ)
  pub inbox : List (Event F)
  pub adoptions : List ℕ
  pub retries : List (Fire F)
  pub fires : List (Fire F)
  pub feed_tokens : List String
  pub reconciled : Option F
  pub published : Option F
  pub made : List (ℕ × Attempt)

abbrev pub is_text : String → String → Bool
is_text k j = str_eq j k

abbrev pub is_id : ℕ → ℕ → Bool
is_id k j = j == k

-- The monotonic readings of one attempt, and what happens outside.
pub record Moment (F : Type 0) : Type 0 where
  pub now : F
  pub sent : F
  pub answered : F
  pub venue : Venue F

-- What a feed's Update or a polled book says of a token.
pub record Top (F : Type 0) : Type 0 where
  pub tick : Option F
  pub bid : Option F
  pub ask : Option F

module _ {F : Type 0} where
  abbrev pub is_claimed : ℕ → Sniper F → Bool
  is_claimed a s = any (λ b. b == a) s.claims

  -- The lock is taken by the first who asks, and never released.
  abbrev pub take_claim : ℕ → Sniper F → Sniper F
  take_claim a s = record s { claims = a ∷ s.claims }

  abbrev pub push : Event F → Sniper F → Sniper F
  push event s = record s { inbox = s.inbox ++ (event ∷ []) }

  abbrev pub write : ℕ → (Watch F → Watch F) → Sniper F → Sniper F
  write a f s = record s { heap = modify a f s.heap }

  abbrev pub set_quote : Source → Quote F → Watch F → Watch F
  set_quote feed quote watch = record watch { feed_quote = some quote }
  set_quote _ quote watch = record watch { poll_quote = some quote }

-- attempt.reason, of an attempt that retryable lets through
abbrev reason_of : Attempt → String
reason_of (answered (rejected reason)) = reason
reason_of _ = ""

module _ {F : Type 0} ⦃fl : Floats F⦄ ⦃py : Builtins F⦄ ⦃tx : Texts⦄ where
  -- RETRY_WINDOW_S and RETRY_DELAY_S
  abbrev retry_window_s : F
  retry_window_s = decimal 10 0

  abbrev retry_delay_s : F
  retry_delay_s = decimal 25 2

  -- _answer: the Fire that goes on, if one does. `id` is the watch's.
  unfoldable pub answer : Shot F → ℕ → Attempt → F → F → Sniper F → Option (Fire F) × Sniper F
  answer shot id result post_ms now s =
      let n = suc shot.attempts in
      let made_it = record s { made = (shot.watch, result) ∷ s.made } in
      if retryable result
      then (
        some (record {
          shot = record shot { attempts = n };
          last = reason_of result;
          next_at = now ⊕ retry_delay_s;
        }),
        push
            (note (some id)
              ("attempt " & tx.int_str n & " refused: " & reason_of result & "; retrying"))
            made_it,
      )
      else (
        none,
        push
            (resolved id (attempted result) (some shot.trigger) n (some shot.send_ms)
              (some post_ms))
            made_it,
      )

  abbrev pub milliseconds : F → F → F
  milliseconds later earlier = (later ⊖ earlier) ⊗ decimal 1000 0

  -- The first attempt of a watch that was claimed, past the guard.
  fire_first : ℕ → Watch F → Trigger F → Moment F → Sniper F → Option (Fire F) × Sniper F
  unfolding answer
  fire_first a watch trigger at s =
      answer
        (record {
          watch = a;
          trigger = trigger;
          send_ms = milliseconds at.sent at.now;
          attempts = 0;
          deadline = trigger.at ⊕ retry_window_s;
        })
        watch.id
        (attempt watch.poster watch.order trigger.tick (fresh watch.presigned trigger.tick at.now)
          at.venue).0
        (milliseconds at.answered at.sent) at.answered (push (claimed_by watch.id trigger) s)

  -- A fire that goes on is left to the slow lane.
  abbrev pub hand_over : Option (Fire F) × Sniper F → Sniper F
  hand_over (none, s) = s
  hand_over (some fire, s) = record s { retries = s.retries ++ (fire ∷ []) }

  fire_judged : ℕ → Watch F → Trigger F → Moment F → Option Outcome → Sniper F → Sniper F
  unfolding fire_first
  fire_judged a watch trigger at (some refused) s =
      push (resolved watch.id refused (some trigger) 0 none none) s
  fire_judged a watch trigger at none s = hand_over (fire_first a watch trigger at s)

  -- What a tick that was seen now triggers, and the newest quote.
  abbrev triggered : Watch F → F → Source → F → Trigger F
  triggered watch tick source now = record {
    at = now;
    source = source;
    tick = tick_text tick;
    quote = newest watch.base_quote watch.feed_quote watch.poll_quote;
  }

  -- _trigger
  unfoldable pub trigger : ℕ → Watch F → F → Source → Moment F → Sniper F → Sniper F
  unfolding fire_judged
  trigger a watch tick source at s =
      let seen = triggered watch tick source at.now in
      if s.stop || is_claimed a s
      then s
      else fire_judged a watch seen at (judge watch.guard watch.order.side seen.quote at.now)
          (take_claim a s)

  -- An update that triggers nothing is a quote, if it has a price.
  keep_quote : ℕ → Top F → Option String → Source → F → Sniper F → Sniper F
  keep_quote a top tick source now s =
      if is_some top.bid || is_some top.ask
      then write a
          (set_quote source
            (record { bid = top.bid; ask = top.ask; tick = tick; source = source; at = now }))
          s
      else s

  observe_tick : ℕ → Watch F → Top F → Option F → Source → Moment F → Sniper F → Sniper F
  unfolding trigger keep_quote
  observe_tick a watch top none source at s = keep_quote a top none source at.now s
  observe_tick a watch top (some tick) source at s =
      if reached tick watch.target
      then trigger a watch tick source at s
      else keep_quote a top (some (tick_text tick)) source at.now s

  -- _observe. Every address stands for an object of the heap.
  unfoldable pub observe : ℕ → Top F → Source → Moment F → Sniper F → Sniper F
  unfolding observe_tick
  observe a top source at s = elim (get_elem? s.heap a) [
    | none ↦ s
    | some watch ↦ observe_tick a watch top top.tick source at s
  ]

  -- on_update of the feed's Update of a token, and what poll_once does with each book
  unfoldable pub on_top : String → Top F → Source → Moment F → Sniper F → Sniper F
  unfolding observe
  on_top token_id top source at s = elim (read_at (is_text token_id) s.armed) [
    | none ↦ s
    | some a ↦ observe a top source at s
  ]

  observe_books : List (String × (Top F × Moment F)) → Sniper F → Sniper F
  unfolding on_top
  observe_books [] s = s
  observe_books ((token_id, (top, at)) ∷ rest) s =
      observe_books rest (on_top token_id top poll at s)

  polled : Called F (List (String × (Top F × Moment F))) → Sniper F → Sniper F
  unfolding observe_books
  polled (failed e) s = push (note none ("poll failed: " & e.message)) s
  polled (gave found) s = observe_books found s

  -- poll_once, of what the request for the armed tokens gives
  unfoldable pub poll_once :
      (List String → Called F (List (String × (Top F × Moment F)))) → Sniper F → Sniper F
  unfolding polled
  poll_once fetch_books s = elim s.armed [
    | [] ↦ s
    | _ ∷ _ ↦ polled (fetch_books (map (λ (e : String × ℕ). e.0) s.armed)) s
  ]
