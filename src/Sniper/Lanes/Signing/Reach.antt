-- ===== src/Sniper/Lanes/Signing/Reach.antt =====
-- tools/sniper.py: however the lanes interleave, a watch sends its own order.
use mathlib.Core.Path.{subst}
use mathlib.Core.Option.{some-injective}
use polymarket_tools.Prelude.{
  ℕ, zero, suc, ◌≡◌, String, Option, none, some, List, [], ◌∷◌, All, get_elem?,
}
use polymarket_tools.Floats.{Floats}
use polymarket_tools.Python.{Builtins, Texts}
use polymarket_tools.Polymarket.Orders.{post}
use polymarket_tools.Sniper.{feed, live, Signed, Venue, attempt, fresh, answered}
use polymarket_tools.Sniper.Settling.{SignedFor, attempt-posts_own_order}
use polymarket_tools.Sniper.Lanes.{Watch, Sniper}
use polymarket_tools.Sniper.Lanes.Events.{Station}
use polymarket_tools.Sniper.Lanes.Control.{tick, close_down}
use polymarket_tools.Sniper.Lanes.Once.Reach.{
  set_stop, LaneStep, updates, polls, works, ticks, stops, closes, writes, LaneReach, here, next,
}
use polymarket_tools.Sniper.Lanes.Signing.{StaysSigned, on_top-IsSigned, poll_once-IsSigned}
use polymarket_tools.Sniper.Lanes.Slow.Signing.{work_once-IsSigned}
use polymarket_tools.Sniper.Lanes.Events.Signing.{StaysIf}
use polymarket_tools.Sniper.Lanes.Control.Signing.{tick-IsSigned, close_down-IsSigned}

All-get_elem? :
    {A : Type 0} (P : A → Type 0) (xs : List A) (n : ℕ) (x : A)
    → get_elem? xs n ≡ some x
    → All P xs
    → P x
All-get_elem? P [] n x e v = absurd (cc e)
All-get_elem? P (y ∷ ys) zero x e v = subst P (some-injective y x e) v.0
All-get_elem? P (y ∷ ys) (suc n) x e v = All-get_elem? P ys n x e v.1

module _ {F : Type 0} ⦃fl : Floats F⦄ ⦃py : Builtins F⦄ ⦃tx : Texts⦄ where
  nothing_signed :
      (heap : List (Watch F))
      → All (λ w. w.presigned ≡ none) heap
      → All (λ w. SignedFor w.order w.presigned) heap
  nothing_signed [] new = tt
  nothing_signed (w ∷ heap) (new, others) = (rw new tt, nothing_signed heap others)

  of_result :
      (s : Sniper F) (o : Option (Station F)) (t' : Station F)
      → StaysIf s o
      → o ≡ some t'
      → StaysSigned s t'.sniper
  of_result s none t' h e = absurd (cc e)
  of_result s (some t) t' h e = subst (λ u. StaysSigned s u.sniper) (some-injective t t' e) h

  LaneStep-IsSigned : (t t' : Station F) → LaneStep t t' → StaysSigned t.sniper t'.sniper
  LaneStep-IsSigned t _ (updates token_id top at) = on_top-IsSigned token_id top feed at t.sniper
  LaneStep-IsSigned t _ (polls fetch) = poll_once-IsSigned fetch t.sniper
  LaneStep-IsSigned t _ (works out) = work_once-IsSigned out t.sniper
  LaneStep-IsSigned t t' (ticks at c _ e) =
      of_result t.sniper (tick at c t) t' (tick-IsSigned at c t) e
  LaneStep-IsSigned t _ stops = λ v. v
  LaneStep-IsSigned t t' (closes out at _ e) =
      let stopping = record t { sniper = set_stop t.sniper } in
      of_result t.sniper (close_down out at stopping) t' (close_down-IsSigned out at stopping) e
  LaneStep-IsSigned t _ (writes db) = λ v. v

  LaneReach-IsSigned : (t t' : Station F) → LaneReach t t' → StaysSigned t.sniper t'.sniper
  LaneReach-IsSigned t _ here = λ v. v
  LaneReach-IsSigned t _ (next {t'} {t''} r step) =
      λ v. LaneStep-IsSigned t' t'' step (LaneReach-IsSigned t t' r v)

  -- However the lanes and the console interleave from a sniper on that has presigned nothing, an
  -- attempt of a watch with what it has presigned, if that is fresh, sends an order only if the watch is
  -- live; what it sends is the watch's own order, signed at the tick that was seen; and its result is what
  -- the exchange answered.
  pub LaneReach-posts_own_order :
      (t t' : Station F) (a : ℕ) (watch : Watch F) (seen : String) (now : F) (at : Venue F)
      (signed : Signed F)
      → All (λ w. w.presigned ≡ none) t.sniper.heap
      → LaneReach t t'
      → get_elem? t'.sniper.heap a ≡ some watch
      → (attempt watch.poster watch.order seen (fresh watch.presigned seen now) at).1 ≡ some signed
      → (watch.poster ≡ live)
        × (signed ≡ record { order = watch.order; tick = seen })
        × ((attempt watch.poster watch.order seen (fresh watch.presigned seen now) at).0
            ≡ answered (post at.call))
  LaneReach-posts_own_order t t' a watch seen now at signed new r there sends =
      attempt-posts_own_order watch.poster watch.order seen watch.presigned now at signed
        (All-get_elem? (λ w. SignedFor w.order w.presigned) t'.sniper.heap a watch there
          (LaneReach-IsSigned t t' r (nothing_signed t.sniper.heap new)))
        sends
