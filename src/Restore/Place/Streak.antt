-- ===== src/Restore/Place/Streak.antt =====
-- tools/restore.py: how far a restore goes, and how often it posts into silence.
use polymarket_tools.Prelude.{
  Dict, ℕ, suc, ◌+◌, ◌≤◌, ◌<◌, false, ◌≡◌, refl, ap, sym, ◌∙◌, arith, inl, inr, List, [], ◌∷◌, ◌++◌,
  All, All-append, Bool-cases, is_some, map, map-append, append_assoc, append-nil, ltb, ◌==◌, ◌||◌,
}
use mathlib.Core.Path.{subst}
use polymarket_tools.Floats.{Floats}
use polymarket_tools.Python.{Builtins, Texts}
use polymarket_tools.Polymarket.Orders.{Answer, posted, rejected, unanswered}
use polymarket_tools.ToolsDb.Types.{RestoreLine, SnapshotOrder}
use polymarket_tools.Restore.{PlanLine, is_would_place, is_placed}
use polymarket_tools.Restore.Place.{
  Turn, Sent, answered, unsent, Progress, Ended, finished, stopped, progress, send, after, handle,
  place_lines, place, started, max_unanswered, restore_max_wait,
}

-- How many of the newest answers in a row are none.
abbrev pub streak : List Answer → ℕ
streak [] = 0
streak (unanswered _ ∷ answers) = suc (streak answers)
streak (_ ∷ answers) = 0

-- At no moment were more than `most` posts in a row left unanswered.
abbrev pub NeverMoreThan : ℕ → List Answer → Type 0
NeverMoreThan most [] = Unit
NeverMoreThan most (a ∷ answers) = (streak (a ∷ answers) ≤ most) × NeverMoreThan most answers

module _ {F : Type 0} ⦃fl : Floats F⦄ ⦃py : Builtins F⦄ ⦃tx : Texts⦄ where
  -- The CHECK of the table: an order id stands on a placed line and on no other.
  abbrev pub IsStorable : RestoreLine F → Type 0
  IsStorable line = is_some line.order_id ≡ is_placed line.action

  record IsSound (p : Progress F) : Type 0 where
    counted : p.unanswered_in_a_row ≡ streak p.answers
    bounded : NeverMoreThan max_unanswered p.answers
    storable : All IsStorable p.lines

  after-IsSound :
      (job_id : ℕ) (line : PlanLine F) (p : Progress F) (sent : Sent × Dict F)
      → streak p.answers < max_unanswered
      → IsSound p
      → IsSound (after job_id line p sent)
  unfolding after
  after-IsSound job_id line p (answered (posted id), ticks) room v = record {
    counted = refl;
    bounded = (omega arith, v.bounded);
    storable = All-append _ p.lines _ v.storable (refl, tt);
  }
  after-IsSound job_id line p (answered (rejected reason), ticks) room v = record {
    counted = refl;
    bounded = (omega arith, v.bounded);
    storable = All-append _ p.lines _ v.storable (refl, tt);
  }
  after-IsSound job_id line p (answered (unanswered detail), ticks) room v = record {
    counted = omega (arith, v.counted);
    bounded = (omega arith, v.bounded);
    storable = All-append _ p.lines _ v.storable (refl, tt);
  }
  after-IsSound job_id line p (unsent detail, ticks) room v = record {
    counted = v.counted;
    bounded = v.bounded;
    storable = All-append _ p.lines _ v.storable (refl, tt);
  }

  handle-IsSound :
      (job_id : ℕ) (line : PlanLine F) (turn : Turn F) (p : Progress F)
      → is_placed line.action ≡ false
      → streak p.answers < max_unanswered
      → IsSound p
      → IsSound (handle job_id line turn p)
  unfolding handle
  handle-IsSound job_id line turn p kept room v = elim (Bool-cases (is_would_place line.action)) [
    | inl placing ↦ rw placing (after-IsSound job_id line p (send line turn p.tick_of) room v)
    | inr skipping ↦ rw skipping (record {
      counted = v.counted;
      bounded = v.bounded;
      storable = All-append _ p.lines _ v.storable (rw kept, tt);
    })
  ]

  room-left :
      (p : Progress F)
      → IsSound p
      → (p.unanswered_in_a_row == max_unanswered) ≡ false
      → streak p.answers < max_unanswered
  room-left p v more = go p.answers v.bounded (rw v.counted at more)
    where
      go :
          (answers : List Answer)
          → NeverMoreThan max_unanswered answers
          → (streak answers == max_unanswered) ≡ false
          → streak answers < max_unanswered
      go [] bound more = omega arith
      go (a ∷ answers) bound more = ground (arith, bound.0)

  place_lines-IsSound :
      (job_id : ℕ) (turns : ℕ → Turn F) (n : ℕ) (planned : List (PlanLine F)) (p : Progress F)
      → All (λ line. is_placed line.action ≡ false) planned
      → IsSound p
      → IsSound (progress (place_lines job_id turns n planned p))
  unfolding place_lines
  place_lines-IsSound job_id turns n [] p kept v = v
  place_lines-IsSound job_id turns n (line ∷ rest) p kept v =
      elim (Bool-cases ((turns n).stopping || (p.unanswered_in_a_row == max_unanswered))) [
        | inl stop ↦ rw stop v
        | inr go_on ↦ rw go_on (
            place_lines-IsSound job_id turns (suc n) rest (handle job_id line (turns n) p) kept.1
              (handle-IsSound job_id line (turns n) p kept.0 (room-left p v (ground arith)) v))
      ]

  started-IsSound : IsSound started
  started-IsSound = record { counted = refl; bounded = tt; storable = tt }

  -- The orders that a list of lines is about.
  abbrev pub orders_of : List (RestoreLine F) → List (SnapshotOrder F)
  orders_of = map (λ line. line.order)

  abbrev pub planned_orders : List (PlanLine F) → List (SnapshotOrder F)
  planned_orders = map (λ line. line.order)

  orders_of-handle :
      (job_id : ℕ) (line : PlanLine F) (turn : Turn F) (p : Progress F)
      → orders_of (handle job_id line turn p).lines ≡ orders_of p.lines ++ (line.order ∷ [])
  unfolding handle
  orders_of-handle job_id line turn p = elim (Bool-cases (is_would_place line.action)) [
    | inl placing ↦ rw placing (of_sent (send line turn p.tick_of))
    | inr skipping ↦ rw skipping (rw map-append)
  ]
    where
      of_sent :
          (sent : Sent × Dict F)
          → orders_of (after job_id line p sent).lines ≡ orders_of p.lines ++ (line.order ∷ [])
      of_sent (answered (posted id), ticks) = rw map-append
      of_sent (answered (rejected reason), ticks) = rw map-append
      of_sent (answered (unanswered detail), ticks) = rw map-append
      of_sent (unsent detail, ticks) = rw map-append

  -- How far the loop came: all the way, or up to an order of the plan.
  abbrev pub Covers : Ended F → List (SnapshotOrder F) → Type 0
  Covers (finished p) orders = orders_of p.lines ≡ orders
  Covers (stopped p) orders = (rest : List (SnapshotOrder F)) × (orders_of p.lines ++ rest ≡ orders)

  place_lines-Covers :
      (job_id : ℕ) (turns : ℕ → Turn F) (n : ℕ) (planned : List (PlanLine F)) (p : Progress F)
      → Covers (place_lines job_id turns n planned p) (orders_of p.lines ++ planned_orders planned)
  unfolding place_lines
  place_lines-Covers job_id turns n [] p = sym (append-nil _)
  place_lines-Covers job_id turns n (line ∷ rest) p =
      elim (Bool-cases ((turns n).stopping || (p.unanswered_in_a_row == max_unanswered))) [
        | inl stop ↦ rw stop (planned_orders (line ∷ rest), refl)
        | inr go_on ↦ rw go_on (
            subst (Covers (place_lines job_id turns (suc n) rest (handle job_id line (turns n) p)))
              (ap (λ xs. xs ++ planned_orders rest) (orders_of-handle job_id line (turns n) p)
                ∙ append_assoc (orders_of p.lines) (line.order ∷ []) (planned_orders rest))
              (place_lines-Covers job_id turns (suc n) rest (handle job_id line (turns n) p)))
      ]

  module _ (job_id created_at now : ℕ) (turns : ℕ → Turn F) (planned : List (PlanLine F)) where
    -- A restore never has more than MAX_UNANSWERED_IN_A_ROW posts in a row that got no answer; it
    -- stores an order id on a placed line and on no other; and its lines are those of the plan's
    -- orders in their order, all of them when it finished and the first ones when it was stopped.
    pub place-IsSound :
        All (λ line. is_placed line.action ≡ false) planned
        → NeverMoreThan max_unanswered
            (progress (place job_id created_at now turns planned)).answers
          × All IsStorable (progress (place job_id created_at now turns planned)).lines
          × Covers (place job_id created_at now turns planned) (planned_orders planned)
    unfolding place
    place-IsSound kept = elim (Bool-cases (ltb (created_at + restore_max_wait) now)) [
      | inl late ↦ rw late (tt, tt, (planned_orders planned, refl))
      | inr in_time ↦ rw in_time (
          let v = place_lines-IsSound job_id turns 0 planned started kept started-IsSound in
          (v.bounded, v.storable, place_lines-Covers job_id turns 0 planned started))
    ]
