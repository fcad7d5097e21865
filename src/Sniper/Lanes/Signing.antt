-- ===== src/Sniper/Lanes/Signing.antt =====
-- tools/sniper.py: what was presigned is the own order of its watch, in the hot lanes.
pub mod Reach
use polymarket_tools.Prelude.{
  ◌∙◌, ℕ, zero, suc, ◌+◌, ◌-◌, ◌≤◌, ◌≡◌, refl, ◌⊎◌, inl, inr, arith, String, Bool, true, false, not,
  ◌&&◌, ◌||◌, Option, none, some, is_some, List, [], ◌∷◌, ◌++◌, map, any, count_if, keep_if, All,
  get_elem?, leb, ltb, ◌==◌, str_eq, contains, read_at, drop_at, put_at, modify, if◌then◌else◌, ◌&◌,
  Bool-cases, Option-cases, length, count_if-append,
}
use polymarket_tools.Floats.{
  Floats, ◌<?◌, ◌≤?◌, ◌⊕◌, ◌⊖◌, ◌⊗◌, decimal, elapsed, micros, general, fixed1,
}
use polymarket_tools.Python.{Json, Raised, Called, gave, failed, Builtins, Texts, Result, ok, err}
use polymarket_tools.Polymarket.Orders.{
  Side, buy, sell, Answer, posted, rejected, unanswered, Call, post, terminal, LimitOrder,
  tick_text,
}
use polymarket_tools.ToolsDb.Types.{
  Db, Guard, Reason, Settlement, WatchRow, WatchState, Sample, is_open, is_armed,
}
use polymarket_tools.Sniper.Settling.{SignedFor}
use polymarket_tools.Sniper.{
  Quote, Trigger, Source, feed, poll, baseline, Signed, Presigned, Attempt, answered,
  rehearsed_with, unsigned, attempted, Outcome, missed_at, guard_refused, cut, was_disarmed,
  was_interrupted, CutBy, by_disarm, by_stop, Poster, live, dry, Venue, attempt, fresh, judge,
  newest, reached, retryable, settle, cents, side_name, reference, last_tick,
}
use polymarket_tools.Sniper.Lanes.{
  Watch, Shot, Fire, Event, Sniper, Moment, Top, is_claimed, take_claim, push, write, milliseconds,
  claimed_by, answer, fire_first, fire_judged, hand_over, trigger, triggered, keep_quote,
  observe_tick, observe, on_top, observe_books, polled, poll_once, set_quote, is_text,
}

module _ {F : Type 0} where
  -- Every presigned order that a watch holds is the watch's own, signed at the tick that it is kept
  -- for.
  abbrev pub IsSigned : Sniper F → Type 0
  IsSigned s = All (λ w. SignedFor w.order w.presigned) s.heap

  abbrev pub StaysSigned : Sniper F → Sniper F → Type 0
  StaysSigned s s' = IsSigned s → IsSigned s'

  pub StaysSigned-if :
      (b : Bool) (s then_s else_s : Sniper F)
      → StaysSigned s then_s
      → StaysSigned s else_s
      → StaysSigned s (if b then then_s else else_s)
  StaysSigned-if true s then_s else_s h k = h
  StaysSigned-if false s then_s else_s h k = k

  pub All-modify :
      {P : Watch F → Type 0} (b : ℕ) (f : Watch F → Watch F) (heap : List (Watch F))
      → ((w : Watch F) → get_elem? heap b ≡ some w → P w → P (f w))
      → All P heap
      → All P (modify b f heap)
  All-modify b f [] h v = tt
  All-modify zero f (w ∷ heap) h (here, rest) = (h w refl here, rest)
  All-modify (suc b) f (w ∷ heap) h (here, rest) = (here, All-modify b f heap (λ x e. h x e) rest)

  -- A write that changes neither a watch's order nor what was presigned.
  pub write-IsSigned :
      (b : ℕ) (f : Watch F → Watch F) (s : Sniper F)
      → ((w : Watch F) → SignedFor w.order w.presigned → SignedFor (f w).order (f w).presigned)
      → StaysSigned s (write b f s)
  write-IsSigned b f s h v = All-modify b f s.heap (λ w e. h w) v

module _ {F : Type 0} ⦃fl : Floats F⦄ ⦃py : Builtins F⦄ ⦃tx : Texts⦄ where
  pub heap-answer :
      (shot : Shot F) (id : ℕ) (result : Attempt) (post_ms now : F) (s : Sniper F)
      → (answer shot id result post_ms now s).1.heap ≡ s.heap
  unfolding answer
  heap-answer shot id result post_ms now s = elim (Bool-cases (retryable result)) [
    | inl again ↦ rw again refl
    | inr over ↦ rw over refl
  ]

  heap-hand_over : (o : Option (Fire F)) (s : Sniper F) → (hand_over (o, s)).heap ≡ s.heap
  heap-hand_over none s = refl
  heap-hand_over (some fire) s = refl

  heap-fire_judged :
      (b : ℕ) (watch : Watch F) (seen : Trigger F) (at : Moment F) (o : Option Outcome)
      (s : Sniper F)
      → (fire_judged b watch seen at o s).heap ≡ s.heap
  unfolding fire_judged fire_first
  heap-fire_judged b watch seen at (some refused) s = refl
  heap-fire_judged b watch seen at none s =
      heap-hand_over (fire_first b watch seen at s).0 (fire_first b watch seen at s).1
      ∙ heap-answer _ watch.id _ _ at.answered (push (claimed_by watch.id seen) s)

  trigger-IsSigned :
      (b : ℕ) (watch : Watch F) (tick : F) (source : Source) (at : Moment F) (s : Sniper F)
      → StaysSigned s (trigger b watch tick source at s)
  unfolding trigger
  trigger-IsSigned b watch tick source at s = elim (Bool-cases (s.stop || is_claimed b s)) [
    | inl shut ↦ rw shut (λ v. v)
    | inr free ↦ rw free (λ v.
        rw
          (heap-fire_judged b watch (triggered watch tick source at.now) at
            (judge watch.guard watch.order.side (triggered watch tick source at.now).quote at.now)
            (take_claim b s))
          v)
  ]

  set_quote-SignedFor :
      (source : Source) (quote : Quote F) (w : Watch F)
      → SignedFor w.order w.presigned
      → SignedFor (set_quote source quote w).order (set_quote source quote w).presigned
  set_quote-SignedFor feed quote w h = h
  set_quote-SignedFor poll quote w h = h
  set_quote-SignedFor baseline quote w h = h

  keep_quote-IsSigned :
      (b : ℕ) (top : Top F) (tick : Option String) (source : Source) (now : F) (s : Sniper F)
      → StaysSigned s (keep_quote b top tick source now s)
  unfolding keep_quote
  keep_quote-IsSigned b top tick source now s =
      elim (Bool-cases (is_some top.bid || is_some top.ask)) [
        | inl priced ↦
            rw priced (write-IsSigned b (set_quote source _) s (set_quote-SignedFor source _))
        | inr bare ↦ rw bare (λ v. v)
      ]

  observe_tick-IsSigned :
      (b : ℕ) (watch : Watch F) (top : Top F) (tick : Option F) (source : Source) (at : Moment F)
      (s : Sniper F)
      → StaysSigned s (observe_tick b watch top tick source at s)
  unfolding observe_tick
  observe_tick-IsSigned b watch top none source at s =
      keep_quote-IsSigned b top none source at.now s
  observe_tick-IsSigned b watch top (some tick) source at s =
      elim (Bool-cases (reached tick watch.target)) [
        | inl hit ↦ rw hit (trigger-IsSigned b watch tick source at s)
        | inr off ↦ rw off (keep_quote-IsSigned b top (some (tick_text tick)) source at.now s)
      ]

  observe-IsSigned :
      (b : ℕ) (top : Top F) (source : Source) (at : Moment F) (s : Sniper F)
      → StaysSigned s (observe b top source at s)
  unfolding observe
  observe-IsSigned b top source at s = elim (Option-cases (get_elem? s.heap b)) [
    | inl absent ↦ rw (absent, observe) (λ v. v)
    | inr (watch, here) ↦
        rw (here, observe) (observe_tick-IsSigned b watch top top.tick source at s)
  ]

  pub on_top-IsSigned :
      (token_id : String) (top : Top F) (source : Source) (at : Moment F) (s : Sniper F)
      → StaysSigned s (on_top token_id top source at s)
  unfolding on_top
  on_top-IsSigned token_id top source at s =
      elim (Option-cases (read_at (is_text token_id) s.armed)) [
        | inl absent ↦ rw (absent, on_top) (λ v. v)
        | inr (b, here) ↦ rw (here, on_top) (observe-IsSigned b top source at s)
      ]

  observe_books-IsSigned :
      (found : List (String × (Top F × Moment F))) (s : Sniper F)
      → StaysSigned s (observe_books found s)
  unfolding observe_books
  observe_books-IsSigned [] s = λ v. v
  observe_books-IsSigned ((token_id, (top, at)) ∷ rest) s = λ v.
      observe_books-IsSigned rest (on_top token_id top poll at s)
        (on_top-IsSigned token_id top poll at s v)

  polled-IsSigned :
      (outcome : Called F (List (String × (Top F × Moment F)))) (s : Sniper F)
      → StaysSigned s (polled outcome s)
  unfolding polled
  polled-IsSigned (failed e) s = λ v. v
  polled-IsSigned (gave found) s = observe_books-IsSigned found s

  pub poll_once-IsSigned :
      (fetch : List String → Called F (List (String × (Top F × Moment F)))) (s : Sniper F)
      → StaysSigned s (poll_once fetch s)
  unfolding poll_once
  poll_once-IsSigned fetch s = go s.armed
    where
      go :
          (armed : List (String × ℕ))
          → StaysSigned s (elim armed [
            | [] ↦ s
            | _ ∷ _ ↦ polled (fetch (map (λ (e : String × ℕ). e.0) s.armed)) s
          ])
      go [] = λ v. v
      go (_ ∷ _) = polled-IsSigned (fetch (map (λ (e : String × ℕ). e.0) s.armed)) s
