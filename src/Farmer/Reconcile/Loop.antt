-- ===== src/Farmer/Reconcile/Loop.antt =====
-- farm/reward_farmer.py: what reconcile's loop cancels and places for each slot.
use mathlib.Core.Path.{subst}
use polymarket_tools.Prelude.{
  ℕ, ◌+◌, ◌≤◌, String, false, ◌≡◌, refl, ◌∙◌, ap, inl, inr, Option, List, [], ◌∷◌, ◌++◌, append-nil,
  count_if, count_if-append, keep_if, str_eq, if◌then◌else◌, All, Bool-cases, arith,
}
use polymarket_tools.Python.{Result, ok}
use polymarket_tools.Farmer.Fills.{Slot, fav_bid, long_ask, fav_ask, long_bid, same_slot, Intent}
use polymarket_tools.Farmer.Pricing.{LiveOrder}
use polymarket_tools.Farmer.Reconcile.{target_of, Settled, slots, in_slot, settle_slot, settle}
use polymarket_tools.Farmer.Reconcile.Settling.{
  keep_if-append, bind-eq-ok, count_id, has_order_id, for_slot, IsSettled, IsSettled-count,
  IsSettled-placed, settle_slot-IsSettled, target_of-slot, keep_if-for_slot, same_slot-eq,
}

one_slot :
    (t : Slot) (n : ℕ)
    → (if same_slot t fav_bid then n else 0)
        + ((if same_slot t long_ask then n else 0)
            + ((if same_slot t fav_ask then n else 0) + (if same_slot t long_bid then n else 0)))
      ≡ n
one_slot fav_bid n = omega arith
one_slot long_ask n = omega arith
one_slot fav_ask n = omega arith
one_slot long_bid n = omega arith

module _ {F : Type 0} where
  -- How many orders of an id rest in the slots.
  pub total : String → List (LiveOrder F) → List Slot → ℕ
  total k live [] = 0
  total k live (s ∷ ss) = count_id k (in_slot s live) + total k live ss

  in_slot-count :
      (k : String) (s : Slot) (o : LiveOrder F) (live : List (LiveOrder F))
      → count_id k (in_slot s (o ∷ live))
        ≡ (if same_slot o.slot s then (if str_eq o.id k then 1 else 0) else 0)
          + count_id k (in_slot s live)
  in_slot-count k s o live = ground arith

  pub total-slots : (k : String) (live : List (LiveOrder F)) → total k live slots ≡ count_id k live
  unfolding total
  total-slots k [] = refl
  total-slots k (o ∷ live) = omega (
    arith,
    in_slot-count k fav_bid o live,
    in_slot-count k long_ask o live,
    in_slot-count k fav_ask o live,
    in_slot-count k long_bid o live,
    one_slot o.slot (if str_eq o.id k then 1 else 0),
    total-slots k live,
  )

  -- What the loop did of one slot among those it went over.
  abbrev pub OfSlot :
      (LiveOrder F → Intent F → Result (Option String))
      → List (Intent F)
      → List (LiveOrder F)
      → List Slot
      → List (LiveOrder F)
      → List (Intent F)
      → Slot
      → Type 0
  OfSlot failure intents live ss cancelled placed s =
      (st : Settled F) × IsSettled failure (target_of s intents) (in_slot s live) st
      × (keep_if (for_slot s) placed ≡ st.placed)
      × ((k : String) → count_id k st.cancelled ≤ count_id k cancelled)
      × ((k : String)
          → count_id k cancelled + count_id k (in_slot s live)
            ≤ total k live ss + count_id k st.cancelled)

  module _ (failure : LiveOrder F → Intent F → Result (Option String)) (intents : List (Intent F))
      (live : List (LiveOrder F)) where
    settle-count :
        (ss : List Slot) (r : List (LiveOrder F) × List (Intent F))
        → settle failure intents live ss ≡ ok r
        → (k : String) → count_id k r.0 ≤ total k live ss
    unfolding settle total
    settle-count [] r e k = let none_cancelled : r.0 ≡ [] = cc in rw none_cancelled (omega arith)
    settle-count (s ∷ ss) r e k =
        let (st, settled, e') =
          bind-eq-ok (settle_slot failure (target_of s intents) (in_slot s live)) _ r e in
        let (r', others, same) = bind-eq-ok (settle failure intents live ss) _ r e' in
        let both : r.0 ≡ st.cancelled ++ r'.0 = cc in
        rw both (
          omega (
            arith,
            count_if-append (has_order_id k) st.cancelled r'.0,
            IsSettled-count failure (target_of s intents) (in_slot s live) st
                (settle_slot-IsSettled failure (target_of s intents) (in_slot s live) st settled) k,
            settle-count ss r' others k,
          ))

    own_placed :
        (t : Slot) (st : Settled F)
        → settle_slot failure (target_of t intents) (in_slot t live) ≡ ok st
        → All (λ i. i.slot ≡ t) st.placed
    own_placed t st settled =
        IsSettled-placed failure t (target_of t intents) (in_slot t live) st
          (target_of-slot t intents)
          (settle_slot-IsSettled failure (target_of t intents) (in_slot t live) st settled)

    none_placed :
        (s : Slot) (ss : List Slot) (r : List (LiveOrder F) × List (Intent F))
        → settle failure intents live ss ≡ ok r
        → count_if (λ t. same_slot t s) ss ≡ 0
        → keep_if (for_slot s) r.1 ≡ []
    unfolding settle
    none_placed s [] r e absent = let nothing : r.1 ≡ [] = cc in rw nothing refl
    none_placed s (t ∷ ss) r e absent =
        let (st, settled, e') =
          bind-eq-ok (settle_slot failure (target_of t intents) (in_slot t live)) _ r e in
        let (r', others, same) = bind-eq-ok (settle failure intents live ss) _ r e' in
        let both : r.1 ≡ st.placed ++ r'.1 = cc in
        let other : same_slot t s ≡ false = ground arith in
        let here = keep_if-for_slot t s st.placed (own_placed t st settled) in
        rw both (
          keep_if-append (for_slot s) st.placed r'.1
          ∙ (rw (here, other) (none_placed s ss r' others (ground arith))))

    pub settle-OfSlot :
        (s : Slot) (ss : List Slot) (r : List (LiveOrder F) × List (Intent F))
        → settle failure intents live ss ≡ ok r
        → count_if (λ t. same_slot t s) ss ≡ 1
        → OfSlot failure intents live ss r.0 r.1 s
    unfolding settle total
    settle-OfSlot s [] r e once = absurd (omega (arith, once))
    settle-OfSlot s (t ∷ ss) r e once =
        let (st, settled, e') =
          bind-eq-ok (settle_slot failure (target_of t intents) (in_slot t live)) _ r e in
        let (r', others, same) = bind-eq-ok (settle failure intents live ss) _ r e' in
        let cancels : r.0 ≡ st.cancelled ++ r'.0 = cc in
        let places : r.1 ≡ st.placed ++ r'.1 = cc in
        let is_settled =
          settle_slot-IsSettled failure (target_of t intents) (in_slot t live) st settled in
        let here = keep_if-for_slot t s st.placed (own_placed t st settled) in
        elim (Bool-cases (same_slot t s)) [
          | inl hit ↦
              let is_s : t ≡ s = same_slot-eq t s hit in
              let all_here : keep_if (for_slot s) st.placed ≡ st.placed = rw hit at here in
              let none_after : keep_if (for_slot s) r'.1 ≡ [] =
                none_placed s ss r' others (ground arith) in
              (
                st,
                subst (λ u. IsSettled failure (target_of u intents) (in_slot u live) st) is_s
                    is_settled,
                rw (places, keep_if-append (for_slot s) st.placed r'.1, none_after)
                    (append-nil (keep_if (for_slot s) st.placed) ∙ all_here),
                (λ k.
                    rw cancels (omega (arith, count_if-append (has_order_id k) st.cancelled r'.0))),
                (λ k. rw cancels (
                    omega (
                      arith,
                      count_if-append (has_order_id k) st.cancelled r'.0,
                      settle-count ss r' others k,
                      ap (λ u. count_id k (in_slot u live)) is_s,
                    ))),
              )
          | inr miss ↦
              let (st', h, kept, covers, counts) = settle-OfSlot s ss r' others (ground arith) in
              let none_here : keep_if (for_slot s) st.placed ≡ [] = rw miss at here in
              (
                st',
                h,
                rw (places, keep_if-append (for_slot s) st.placed r'.1, none_here) kept,
                (λ k.
                    rw cancels (
                      omega (arith, covers k, count_if-append (has_order_id k) st.cancelled r'.0))),
                (λ k. rw cancels (
                    omega (
                      arith,
                      counts k,
                      count_if-append (has_order_id k) st.cancelled r'.0,
                      IsSettled-count failure (target_of t intents) (in_slot t live) st is_settled
                          k,
                    ))),
              )
        ]
