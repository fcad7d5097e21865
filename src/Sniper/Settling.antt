-- ===== src/Sniper/Settling.antt =====
-- tools/sniper.py: how a watch ends, what an attempt sends, and what may be sent again.
use mathlib.Core.Option.{some-injective}
use polymarket_tools.Prelude.{
  ap, All, refl, ℕ, String, Bool, true, false, ◌≡◌, ◌↔◌, ◌⊎◌, inl, inr, arith, Option, none, some,
  is_some, eq_iff, All, has_text, ap,
}
use polymarket_tools.Floats.{Floats}
use polymarket_tools.Python.{Texts, Builtins}
use polymarket_tools.Prelude.{has_text}
use polymarket_tools.Polymarket.Orders.{
  terminal, terminal_refusals, posted, rejected, unanswered, post, LimitOrder, terminal,
  terminal_refusals,
}
use polymarket_tools.ToolsDb.Types.{Settlement, Reason, may_rest, is_fired, is_open}
use polymarket_tools.Sniper.{
  Attempt, answered, rehearsed_with, unsigned, Outcome, missed_at, guard_refused, attempted, cut,
  by_disarm, by_stop, was_disarmed, was_interrupted, retryable, settle, Poster, live, dry, Venue,
  Signed, Presigned, fresh, attempt,
}

-- An order may rest on the book after this outcome: the exchange accepted it, the post got no
-- answer, or the worker died while it was leaving.
abbrev pub MayRest : Outcome → Type 0
MayRest (attempted (answered (posted _))) = Unit
MayRest (attempted (answered (unanswered _))) = Unit
MayRest was_interrupted = Unit
MayRest _ = ⊥

-- The row says so: it is fired, or its reason is one of the two marked `may_rest`.
abbrev pub reason_may_rest : Option Reason → Bool
reason_may_rest none = false
reason_may_rest (some reason) = may_rest reason

abbrev pub SaysMayRest : Settlement → Type 0
SaysMayRest by = (is_fired by.state ≡ true) ⊎ (reason_may_rest by.reason ≡ true)

-- What the guard gives as its reason.
abbrev pub IsGuardReason : Outcome → Type 0
IsGuardReason (guard_refused reason _) = may_rest reason ≡ false
IsGuardReason _ = Unit

-- Where a refusal of the guard does not give a reason that is marked may_rest, a closed row says that
-- an order may rest exactly when one may; every outcome closes the row; and the row has an order id
-- exactly when it is fired, as the table's CHECK asks.
pub settle-MayRest :
    (outcome : Outcome) (attempts : Option ℕ)
    → IsGuardReason outcome
    → (SaysMayRest (settle outcome attempts) ↔ MayRest outcome)
      × (is_open (settle outcome attempts).state ≡ false)
      × (is_some (settle outcome attempts).order_id ≡ is_fired (settle outcome attempts).state)
unfolding settle
settle-MayRest (missed_at t) attempts h = (ground arith, ground arith, ground arith)
settle-MayRest (guard_refused r d) attempts h = (ground arith, ground arith, ground arith)
settle-MayRest (attempted (answered (posted i))) attempts h =
    (ground arith, ground arith, ground arith)
settle-MayRest (attempted (answered (rejected r))) attempts h =
    (ground arith, ground arith, ground arith)
settle-MayRest (attempted (answered (unanswered d))) attempts h =
    (ground arith, ground arith, ground arith)
settle-MayRest (attempted (rehearsed_with b)) attempts h =
    (ground arith, ground arith, ground arith)
settle-MayRest (attempted (unsigned e)) attempts h = (ground arith, ground arith, ground arith)
settle-MayRest (cut by_disarm r) attempts h = (ground arith, ground arith, ground arith)
settle-MayRest (cut by_stop r) attempts h = (ground arith, ground arith, ground arith)
settle-MayRest was_disarmed attempts h = (ground arith, ground arith, ground arith)
settle-MayRest was_interrupted attempts h = (ground arith, ground arith, ground arith)

abbrev refusal : Attempt → Option String
refusal (answered (rejected reason)) = some reason
refusal _ = none

-- An attempt is sent again exactly when the exchange refused it, for a reason that holds none of the
-- terminal refusals in any case; and no order rests of an attempt that is sent again.
pub retryable-eq-true :
    ⦃tx : Texts⦄ (a : Attempt)
    → (retryable a ≡ true) ↔ (
        (reason : String) × (a ≡ answered (rejected reason))
        × All (λ refusal. has_text (tx.lower refusal) (tx.lower reason) ≡ false) terminal_refusals
        × (¬ MayRest (attempted a)))
unfolding retryable terminal
retryable-eq-true (answered (posted i)) =
    (λ h. absurd (cc h), λ (_, e, _, _). absurd (cc (ap refusal e)))
retryable-eq-true (answered (rejected r)) = (
  λ h. (r, refl, ground arith, λ m. m),
  λ (reason, e, none_there, _).
      rw (some-injective r reason (ap refusal e)) (ground (arith, none_there)),
)
retryable-eq-true (answered (unanswered d)) =
    (λ h. absurd (cc h), λ (_, e, _, _). absurd (cc (ap refusal e)))
retryable-eq-true (rehearsed_with b) =
    (λ h. absurd (cc h), λ (_, e, _, _). absurd (cc (ap refusal e)))
retryable-eq-true (unsigned e) = (λ h. absurd (cc h), λ (_, e, _, _). absurd (cc (ap refusal e)))

module _ {F : Type 0} where
  -- A presigned order was signed for this order, at its tick.
  abbrev pub SignedFor : LimitOrder F → Option (Presigned F) → Type 0
  SignedFor order none = Unit
  SignedFor order (some p) = p.order ≡ record { order = order; tick = p.tick }

module _ {F : Type 0} ⦃fl : Floats F⦄ ⦃py : Builtins F⦄ ⦃tx : Texts⦄ where
  fresh-tick :
      (order : LimitOrder F) (p : Option (Presigned F)) (tick : String) (now : F)
      (signed : Signed F)
      → SignedFor order p
      → fresh p tick now ≡ some signed
      → signed ≡ record { order = order; tick = tick }
  unfolding fresh
  fresh-tick order none tick now signed h e = absurd (cc e)
  fresh-tick order (some p) tick now signed h e = ground (arith, eq_iff p.tick tick)

  attempt-posts :
      (poster : Poster) (order : LimitOrder F) (tick : String) (ready : Option (Signed F))
      (at : Venue F) (signed : Signed F)
      → (attempt poster order tick ready at).1 ≡ some signed
      → (poster ≡ live)
        × ((ready ≡ some signed) ⊎ (signed ≡ record { order = order; tick = tick }))
        × ((attempt poster order tick ready at).0 ≡ answered (post at.call))
  unfolding attempt
  attempt-posts live order tick none at signed e = ground arith
  attempt-posts live order tick (some ready) at signed e = ground arith
  attempt-posts (dry false) order tick ready at signed e = ground arith
  attempt-posts (dry true) order tick none at signed e = ground arith
  attempt-posts (dry true) order tick (some ready) at signed e = ground arith

  -- With no presigned order, or one signed for this order at its tick, an attempt that sends an order
  -- was made by a live watch; it sends this order signed at the tick that was seen; and its result is
  -- what the exchange answered.
  pub attempt-posts_own_order :
      (poster : Poster) (order : LimitOrder F) (tick : String) (p : Option (Presigned F)) (now : F)
      (at : Venue F) (signed : Signed F)
      → SignedFor order p
      → (attempt poster order tick (fresh p tick now) at).1 ≡ some signed
      → (poster ≡ live)
        × (signed ≡ record { order = order; tick = tick })
        × ((attempt poster order tick (fresh p tick now) at).0 ≡ answered (post at.call))
  attempt-posts_own_order poster order tick p now at signed h e =
      let (is_live, from, result) =
        attempt-posts poster order tick (fresh p tick now) at signed e in
      (is_live, own from, result)
    where
      own :
          (fresh p tick now ≡ some signed) ⊎ (signed ≡ record { order = order; tick = tick })
          → signed ≡ record { order = order; tick = tick }
      own (inl ready) = fresh-tick order p tick now signed h ready
      own (inr now_signed) = now_signed
