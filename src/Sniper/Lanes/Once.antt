-- ===== src/Sniper/Lanes/Once.antt =====
-- tools/sniper.py: how often a watch is attempted, in the hot lanes.
pub mod Reach
use polymarket_tools.Prelude.{
  ℕ, zero, suc, ◌+◌, ◌-◌, ◌≤◌, ◌≡◌, refl, ◌⊎◌, inl, inr, arith, String, Bool, true, false, not,
  ◌&&◌, ◌||◌, Option, none, some, is_some, List, [], ◌∷◌, ◌++◌, map, any, count_if, keep_if, All,
  get_elem?, leb, ltb, ◌==◌, str_eq, contains, read_at, drop_at, put_at, modify, if◌then◌else◌, ◌&◌,
  Bool-cases, Option-cases, length, count_if-append,
}
use polymarket_tools.Floats.{
  Floats, ◌<?◌, ◌≤?◌, ◌⊕◌, ◌⊖◌, ◌⊗◌, decimal, elapsed, micros, general, fixed1,
}
use polymarket_tools.Python.{Json, Raised, Called, gave, failed, Builtins, Texts, Result, ok, err}
use polymarket_tools.Polymarket.Orders.{
  Side, buy, sell, Answer, posted, rejected, unanswered, Call, post, terminal, LimitOrder,
  tick_text,
}
use polymarket_tools.ToolsDb.Types.{
  Db, Guard, Reason, Settlement, WatchRow, WatchState, Sample, is_open, is_armed,
}
use polymarket_tools.Sniper.{
  Quote, Trigger, Source, feed, poll, baseline, Signed, Presigned, Attempt, answered,
  rehearsed_with, unsigned, attempted, Outcome, missed_at, guard_refused, cut, was_disarmed,
  was_interrupted, CutBy, by_disarm, by_stop, Poster, live, dry, Venue, attempt, fresh, judge,
  newest, reached, retryable, settle, cents, side_name, reference, last_tick,
}
use polymarket_tools.Sniper.Lanes.{
  Watch, Shot, Fire, Event, Sniper, Moment, Top, is_claimed, take_claim, push, write, milliseconds,
  claimed_by, answer, fire_first, fire_judged, hand_over, trigger, triggered, keep_quote,
  observe_tick, observe, on_top, observe_books, polled, poll_once, set_quote, is_text,
}

-- An attempt of a watch that was no refusal to try again.
abbrev pub is_final : ⦃tx : Texts⦄ → ℕ → ℕ × Attempt → Bool
is_final a (b, result) = b == a && not (retryable result)

module _ {F : Type 0} ⦃tx : Texts⦄ (a : ℕ) where
  -- A fire of this watch.
  abbrev pub is_at : Fire F → Bool
  is_at fire = fire.shot.watch == a

  -- What the watch has used: its fires that may go on, and its attempts that ended it.
  abbrev pub spent : Sniper F → ℕ
  spent s = count_if is_at s.retries + count_if is_at s.fires + count_if (is_final a) s.made

  -- What it may use: one, from the time its lock is held.
  abbrev pub budget : Sniper F → ℕ
  budget s = if is_claimed a s then 1 else 0

  -- What a step uses more, it was given more.
  abbrev pub Keeps : Sniper F → Sniper F → Type 0
  Keeps s s' = spent s' + budget s ≤ spent s + budget s'

  abbrev pub goes_on : Option (Fire F) → ℕ
  goes_on none = 0
  goes_on (some fire) = count_if is_at (fire ∷ [])

  pub Keeps-if :
      (b : Bool) (s then_s else_s : Sniper F)
      → Keeps s then_s
      → Keeps s else_s
      → Keeps s (if b then then_s else else_s)
  Keeps-if true s then_s else_s h k = h
  Keeps-if false s then_s else_s h k = k

module _ {F : Type 0} ⦃fl : Floats F⦄ ⦃py : Builtins F⦄ ⦃tx : Texts⦄ (a : ℕ) where
  -- An attempt is one more: a fire that goes on, or an attempt that ended its watch.
  pub spent-answer :
      (shot : Shot F) (id : ℕ) (result : Attempt) (post_ms now : F) (s : Sniper F)
      → (goes_on a (answer shot id result post_ms now s).0
            + spent a (answer shot id result post_ms now s).1
          ≡ (if shot.watch == a then 1 else 0) + spent a s)
        × (budget a (answer shot id result post_ms now s).1 ≡ budget a s)
  unfolding answer
  spent-answer shot id result post_ms now s = elim (Bool-cases (retryable result)) [
    | inl again ↦ rw again (ground arith, refl)
    | inr over ↦ rw over (ground arith, refl)
  ]

  -- A fire that is handed over stands in `retries`, so nothing more is spent.
  handed :
      (o : Option (Fire F)) (s : Sniper F)
      → (spent a (hand_over (o, s)) ≡ goes_on a o + spent a s)
        × (budget a (hand_over (o, s)) ≡ budget a s)
  handed none s = (omega arith, refl)
  handed (some fire) s = (omega (arith, count_if-append (is_at a) s.retries (fire ∷ [])), refl)

  fire_first-spends :
      (b : ℕ) (watch : Watch F) (seen : Trigger F) (at : Moment F) (s : Sniper F)
      → (spent a (hand_over (fire_first b watch seen at s)) ≡ (if b == a then 1 else 0) + spent a s)
        × (budget a (hand_over (fire_first b watch seen at s)) ≡ budget a s)
  unfolding fire_first
  fire_first-spends b watch seen at s =
      let result =
        (attempt watch.poster watch.order seen.tick (fresh watch.presigned seen.tick at.now)
          at.venue).0 in
      let shot : Shot F = record {
        watch = b;
        trigger = seen;
        send_ms = milliseconds at.sent at.now;
        attempts = 0;
        deadline = seen.at ⊕ decimal 10 0;
      } in
      let posted =
        answer shot watch.id result (milliseconds at.answered at.sent) at.answered
          (push (claimed_by watch.id seen) s) in
      let (used, given) =
        spent-answer shot watch.id result (milliseconds at.answered at.sent) at.answered
          (push (claimed_by watch.id seen) s) in
      let (used', given') = handed posted.0 posted.1 in
      (omega (arith, used, used'), omega (arith, given, given'))

  fire_judged-Keeps :
      (b : ℕ) (watch : Watch F) (seen : Trigger F) (at : Moment F) (o : Option Outcome)
      (s : Sniper F)
      → is_claimed b s ≡ false
      → Keeps a s (fire_judged b watch seen at o (take_claim b s))
  unfolding fire_judged fire_first
  fire_judged-Keeps b watch seen at (some refused) s free = ground arith
  fire_judged-Keeps b watch seen at none s free =
      ground (arith, fire_first-spends b watch seen at (take_claim b s))

  trigger-Keeps :
      (b : ℕ) (watch : Watch F) (tick : F) (source : Source) (at : Moment F) (s : Sniper F)
      → Keeps a s (trigger b watch tick source at s)
  unfolding trigger fire_judged fire_first
  trigger-Keeps b watch tick source at s = elim (Bool-cases (s.stop || is_claimed b s)) [
    | inl shut ↦ rw shut (omega arith)
    | inr free ↦ rw free (
        fire_judged-Keeps b watch (triggered watch tick source at.now) at
          (judge watch.guard watch.order.side (triggered watch tick source at.now).quote at.now) s
          (ground arith))
  ]

  keep_quote-Keeps :
      (b : ℕ) (top : Top F) (tick : Option String) (source : Source) (now : F) (s : Sniper F)
      → Keeps a s (keep_quote b top tick source now s)
  unfolding keep_quote
  keep_quote-Keeps b top tick source now s =
      elim (Bool-cases (is_some top.bid || is_some top.ask)) [
        | inl priced ↦ rw priced (omega arith)
        | inr bare ↦ rw bare (omega arith)
      ]

  observe_tick-Keeps :
      (b : ℕ) (watch : Watch F) (top : Top F) (tick : Option F) (source : Source) (at : Moment F)
      (s : Sniper F)
      → Keeps a s (observe_tick b watch top tick source at s)
  unfolding observe_tick
  observe_tick-Keeps b watch top none source at s = keep_quote-Keeps b top none source at.now s
  observe_tick-Keeps b watch top (some tick) source at s =
      elim (Bool-cases (reached tick watch.target)) [
        | inl hit ↦ rw hit (trigger-Keeps b watch tick source at s)
        | inr off ↦ rw off (keep_quote-Keeps b top (some (tick_text tick)) source at.now s)
      ]

  observe-Keeps :
      (b : ℕ) (top : Top F) (source : Source) (at : Moment F) (s : Sniper F)
      → Keeps a s (observe b top source at s)
  unfolding observe
  observe-Keeps b top source at s = elim (Option-cases (get_elem? s.heap b)) [
    | inl absent ↦ rw (absent, observe) (omega arith)
    | inr (watch, here) ↦ rw (here, observe) (observe_tick-Keeps b watch top top.tick source at s)
  ]

  pub on_top-Keeps :
      (token_id : String) (top : Top F) (source : Source) (at : Moment F) (s : Sniper F)
      → Keeps a s (on_top token_id top source at s)
  unfolding on_top
  on_top-Keeps token_id top source at s = elim (Option-cases (read_at (is_text token_id) s.armed)) [
    | inl absent ↦ rw (absent, on_top) (omega arith)
    | inr (b, here) ↦ rw (here, on_top) (observe-Keeps b top source at s)
  ]

  observe_books-Keeps :
      (found : List (String × (Top F × Moment F))) (s : Sniper F)
      → Keeps a s (observe_books found s)
  unfolding observe_books
  observe_books-Keeps [] s = omega arith
  observe_books-Keeps ((token_id, (top, at)) ∷ rest) s = omega (
    arith,
    on_top-Keeps token_id top poll at s,
    observe_books-Keeps rest (on_top token_id top poll at s),
  )

  polled-Keeps :
      (outcome : Called F (List (String × (Top F × Moment F)))) (s : Sniper F)
      → Keeps a s (polled outcome s)
  unfolding polled
  polled-Keeps (failed e) s = omega arith
  polled-Keeps (gave found) s = observe_books-Keeps found s

  pub poll_once-Keeps :
      (fetch : List String → Called F (List (String × (Top F × Moment F)))) (s : Sniper F)
      → Keeps a s (poll_once fetch s)
  unfolding poll_once
  poll_once-Keeps fetch s = go s.armed
    where
      go :
          (armed : List (String × ℕ))
          → Keeps a s (elim armed [
            | [] ↦ s
            | _ ∷ _ ↦ polled (fetch (map (λ (e : String × ℕ). e.0) s.armed)) s
          ])
      go [] = omega arith
      go (_ ∷ _) = polled-Keeps (fetch (map (λ (e : String × ℕ). e.0) s.armed)) s
