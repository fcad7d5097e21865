-- ===== src/Sniper/Lanes/Slow.antt =====
-- tools/sniper.py: the slow lane, which retries, adopts and presigns.
pub mod Once
pub mod Signing
pub mod Stop
pub mod Ends
use polymarket_tools.Prelude.{
  ℕ, zero, suc, ◌+◌, ◌-◌, ◌≤◌, ◌≡◌, refl, ◌⊎◌, inl, inr, arith, String, Bool, true, false, not,
  ◌&&◌, ◌||◌, Option, none, some, is_some, List, [], ◌∷◌, ◌++◌, map, any, count_if, keep_if, All,
  get_elem?, leb, ltb, ◌==◌, str_eq, contains, read_at, drop_at, put_at, modify, if◌then◌else◌, ◌&◌,
  Bool-cases, Option-cases, length, count_if-append,
}
use polymarket_tools.Floats.{
  Floats, ◌<?◌, ◌≤?◌, ◌⊕◌, ◌⊖◌, ◌⊗◌, decimal, elapsed, micros, general, fixed1,
}
use polymarket_tools.Python.{Json, Raised, Called, gave, failed, Builtins, Texts, Result, ok, err}
use polymarket_tools.Polymarket.Orders.{
  Side, buy, sell, Answer, posted, rejected, unanswered, Call, post, terminal, LimitOrder,
  tick_text,
}
use polymarket_tools.ToolsDb.Types.{
  Db, Guard, Reason, Settlement, WatchRow, WatchState, Sample, is_open, is_armed,
}
use polymarket_tools.Sniper.{
  Quote, Trigger, Source, feed, poll, baseline, Signed, Presigned, Attempt, answered,
  rehearsed_with, unsigned, attempted, Outcome, missed_at, guard_refused, cut, was_disarmed,
  was_interrupted, CutBy, by_disarm, by_stop, Poster, live, dry, Venue, attempt, fresh, judge,
  newest, reached, retryable, settle, cents, side_name, reference, last_tick,
}
use polymarket_tools.Sniper.Lanes.{
  Watch, Shot, Fire, Event, prepared, claimed_by, resolved, note, Sniper, Moment, Top, is_claimed,
  take_claim, push, write, milliseconds, answer, is_text, is_id,
}

-- What happens outside at one retry: when its answer comes, and the answer.
pub record Retry (F : Type 0) : Type 0 where
  pub answered_at : F
  pub venue : Venue F

-- What happens outside at one adoption: the book, the token's prewarming and the first signing.
pub record Adoption (F : Type 0) : Type 0 where
  pub book : Called F (Top F)
  pub prewarmed : Option (Raised F)
  pub sign_error : Option (Raised F)

-- What happens outside at one pass of the slow lane: the reading it starts with, each retry by its
-- place, the adoption, and for each watch what signing raises.
pub record Pass (F : Type 0) : Type 0 where
  pub now : F
  pub retry_at : ℕ → Retry F
  pub adoption : Adoption F
  pub sign_errors : ℕ → Option (Raised F)

abbrev is_known : String → Option String → Bool
is_known message none = false
is_known message (some old) = str_eq old message

module _ {F : Type 0} ⦃fl : Floats F⦄ ⦃py : Builtins F⦄ ⦃tx : Texts⦄ where
  -- JOIN_RETRY_S and PRESIGN_S
  abbrev join_retry_s : F
  join_retry_s = decimal 2 0

  abbrev presign_s : F
  presign_s = decimal 5 1

  -- A fire that ends with no further attempt.
  abbrev end_fire : Fire F → ℕ → Outcome → Sniper F → Sniper F
  end_fire fire id outcome s =
      push
        (resolved id outcome (some fire.shot.trigger) fire.shot.attempts (some fire.shot.send_ms)
          none)
        s

  -- _retry: the Fire that goes on, if it does
  unfoldable pub retry : Fire F → Watch F → F → Retry F → Sniper F → Option (Fire F) × Sniper F
  unfolding answer
  retry fire watch now out s =
      if watch.abort || s.stop
      then (
        none,
        end_fire fire watch.id (cut (if watch.abort then by_disarm else by_stop) fire.last) s,
      )
      else if fire.shot.deadline ≤? now
      then (none, end_fire fire watch.id (attempted (answered (rejected fire.last))) s)
      else answer fire.shot watch.id
          (attempt watch.poster watch.order fire.shot.trigger.tick none out.venue).0
          (milliseconds out.answered_at now) out.answered_at s

  -- One fire of the loop, in its turn.
  retry_one : Fire F → F → Retry F → Sniper F → Option (Fire F) × Sniper F
  unfolding retry
  retry_one fire now out s =
      if fire.next_at ≤? now
      then elim (get_elem? s.heap fire.shot.watch) [
        | none ↦ (some fire, s)
        | some watch ↦ retry fire watch now out s
      ]
      else (some fire, s)

  abbrev keep_fire : Option (Fire F) → List (Fire F) → List (Fire F)
  keep_fire none fires = fires
  keep_fire (some fire) fires = fire ∷ fires

  -- The loop over the fires: those that go on.
  retry_each : (ℕ → Retry F) → F → ℕ → List (Fire F) → Sniper F → List (Fire F) × Sniper F
  unfolding retry_one
  retry_each outs now n [] s = ([], s)
  retry_each outs now n (fire ∷ rest) s =
      let (kept, s') = retry_one fire now (outs n) s in
      let (others, s'') = retry_each outs now (suc n) rest s' in (keep_fire kept others, s'')

  abbrev presigned_now : Watch F → F → Presigned F
  presigned_now watch now = record {
    order = record { order = watch.order; tick = watch.target_text };
    tick = watch.target_text;
    at = now;
  }

  abbrev set_presigned : ℕ → Option (Presigned F) → Sniper F → Sniper F
  set_presigned a given = write a (λ w. record w { presign_error = none; presigned = given })

  -- A refusal to sign is noted once.
  not_presigned : ℕ → Watch F → String → Sniper F → Sniper F
  not_presigned a watch message s =
      if is_known message watch.presign_error
      then s
      else push (note (some watch.id) ("presign failed, signing at fire time: " & message))
          (write a (λ w. record w { presign_error = some message }) s)

  -- Of what the poster's signer does: one that has none signs nothing.
  presigned_by : ℕ → Watch F → F → Poster → Option (Raised F) → Sniper F → Sniper F
  unfolding not_presigned
  presigned_by a watch now (dry false) sign_error s = set_presigned a none s
  presigned_by a watch now poster none s = set_presigned a (some (presigned_now watch now)) s
  presigned_by a watch now poster (some e) s =
      not_presigned a watch (e.class_name & ": " & e.message) s

  -- _presign
  unfoldable pub presign : ℕ → Watch F → F → Option (Raised F) → Sniper F → Sniper F
  unfolding presigned_by
  presign a watch now sign_error s = presigned_by a watch now watch.poster sign_error s

  -- _later
  later : ℕ → Watch F → F → String → Sniper F → Sniper F
  later a watch now message s =
      let s' = push (note (some watch.id) (message & "; trying again in 2 s")) s in
      record (write a (λ w. record w { not_before = now ⊕ join_retry_s }) s') {
        adoptions = s'.adoptions ++ (a ∷ []);
      }

  abbrev base_of : Top F → F → Quote F
  base_of top now = record {
    bid = top.bid;
    ask = top.ask;
    tick = elim top.tick [ none ↦ none | some tick ↦ some (tick_text tick) ];
    source = baseline;
    at = now;
  }

  -- A watch whose book has not reached the target.
  joined : ℕ → Watch F → F → Top F → Adoption F → Sniper F → Sniper F
  unfolding later presign
  joined a watch now top out s =
      let s' = write a (λ w. record w { base_quote = some (base_of top now) }) s in
      elim out.prewarmed [
        | none ↦ push (prepared a) (presign a watch now out.sign_error s')
        | some e ↦ later a watch now ("prewarm failed: " & e.message) s'
      ]

  prepare_with : ℕ → Watch F → F → Top F → Option F → Adoption F → Sniper F → Sniper F
  unfolding joined
  prepare_with a watch now top none out s = joined a watch now top out s
  prepare_with a watch now top (some tick) out s =
      if reached tick watch.target
      then push (resolved watch.id (missed_at (tick_text tick)) none 0 none none) (take_claim a s)
      else joined a watch now top out s

  prepare_book : ℕ → Watch F → F → Called F (Top F) → Adoption F → Sniper F → Sniper F
  unfolding later prepare_with
  prepare_book a watch now (failed e) out s = later a watch now ("book read failed: " & e.message) s
  prepare_book a watch now (gave top) out s = prepare_with a watch now top top.tick out s

  -- _prepare. No lane claims the watch between its two tests of the lock.
  unfoldable pub prepare : ℕ → Watch F → F → Adoption F → Sniper F → Sniper F
  unfolding prepare_book
  prepare a watch now out s = if is_claimed a s then s else prepare_book a watch now out.book out s

  adopt_with : ℕ → Option (Watch F) → F → Adoption F → Sniper F → Sniper F
  unfolding prepare
  adopt_with a none now out s = s
  adopt_with a (some watch) now out s =
      if now <? watch.not_before
      then record s { adoptions = s.adoptions ++ (a ∷ []) }
      else prepare a watch now out s

  -- One adoption, while no fire waits for its retry.
  adopt_next : List (Fire F) → List ℕ → F → Adoption F → Sniper F → Sniper F
  unfolding adopt_with
  adopt_next [] (a ∷ rest) now out s =
      adopt_with a (get_elem? s.heap a) now out (record s { adoptions = rest })
  adopt_next _ _ now out s = s

  abbrev is_aged : Option (Presigned F) → F → Bool
  is_aged none now = true
  is_aged (some p) now = presign_s ≤? now ⊖ p.at

  presign_aged : ℕ → Option (Watch F) → F → Option (Raised F) → Sniper F → Sniper F
  unfolding presign
  presign_aged a none now sign_error s = s
  presign_aged a (some watch) now sign_error s =
      if not (is_claimed a s) && is_aged watch.presigned now
      then presign a watch now sign_error s
      else s

  presign_each : List (String × ℕ) → F → (ℕ → Option (Raised F)) → Sniper F → Sniper F
  unfolding presign_aged
  presign_each [] now sign_errors s = s
  presign_each ((_, a) ∷ rest) now sign_errors s =
      presign_each rest now sign_errors (presign_aged a (get_elem? s.heap a) now (sign_errors a) s)

  -- The retries of a pass.
  unfoldable pub retry_due : Pass F → Sniper F → Sniper F
  unfolding retry_each
  retry_due out s =
      let (fires, s') =
        retry_each out.retry_at out.now 0 (s.fires ++ s.retries)
          (record s { fires = []; retries = [] }) in
      record s' { fires = fires }

  -- What a pass does after the retries.
  unfoldable pub adopt_and_presign : Pass F → Sniper F → Sniper F
  unfolding adopt_next presign_each
  adopt_and_presign out s =
      let s' = adopt_next s.fires s.adoptions out.now out.adoption s in
      presign_each s'.armed out.now out.sign_errors s'

  -- A sniper that is stopping only retries.
  go_on : Pass F → Sniper F → Sniper F
  unfolding adopt_and_presign
  go_on out s = if s.stop then s else adopt_and_presign out s

  -- work_once
  unfoldable pub work_once : Pass F → Sniper F → Sniper F
  unfolding retry_due go_on
  work_once out s = go_on out (retry_due out s)
