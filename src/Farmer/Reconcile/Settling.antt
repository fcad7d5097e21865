-- ===== src/Farmer/Reconcile/Settling.antt =====
-- farm/reward_farmer.py: what reconcile's loop over the slots gives.
use mathlib.Core.Path.{subst}
use mathlib.Core.Option.{some-injective}
use polymarket_tools.Prelude.{
  ℕ, ◌+◌, ◌≤◌, String, Bool, true, false, ◌≡◌, refl, ◌∙◌, ap, ◌⊎◌, inl, inr, Option, none, some,
  List, [], ◌∷◌, ◌++◌, count_if, count_if-append, keep_if, str_eq, if◌then◌else◌, All, Bool-cases,
  Option-cases, arith,
}
use polymarket_tools.Python.{Result, ok, err, Result-cases, ◌>>=◌}
use polymarket_tools.Farmer.Fills.{Slot, fav_bid, long_ask, fav_ask, long_bid, same_slot, Intent}
use polymarket_tools.Farmer.Pricing.{LiveOrder}
use polymarket_tools.Farmer.Reconcile.{target_of, Settled, also_cancels, settle_orders, settle_slot}

pub same_slot-eq : (s t : Slot) → same_slot s t ≡ true → s ≡ t
same_slot-eq fav_bid fav_bid e = refl
same_slot-eq long_ask long_ask e = refl
same_slot-eq fav_ask fav_ask e = refl
same_slot-eq long_bid long_bid e = refl
same_slot-eq fav_bid long_ask e = absurd (cc e)
same_slot-eq fav_bid fav_ask e = absurd (cc e)
same_slot-eq fav_bid long_bid e = absurd (cc e)
same_slot-eq long_ask fav_bid e = absurd (cc e)
same_slot-eq long_ask fav_ask e = absurd (cc e)
same_slot-eq long_ask long_bid e = absurd (cc e)
same_slot-eq fav_ask fav_bid e = absurd (cc e)
same_slot-eq fav_ask long_ask e = absurd (cc e)
same_slot-eq fav_ask long_bid e = absurd (cc e)
same_slot-eq long_bid fav_bid e = absurd (cc e)
same_slot-eq long_bid long_ask e = absurd (cc e)
same_slot-eq long_bid fav_ask e = absurd (cc e)

pub keep_if-append :
    {A : Type 0} (p : A → Bool) (xs ys : List A)
    → keep_if p (xs ++ ys) ≡ keep_if p xs ++ keep_if p ys
keep_if-append p [] ys = refl
keep_if-append p (x ∷ xs) ys = elim (Bool-cases (p x)) [
  | inl hit ↦ rw hit (ap (λ zs. x ∷ zs) (keep_if-append p xs ys))
  | inr miss ↦ rw miss (keep_if-append p xs ys)
]

pub bind-eq-ok :
    {A B : Type 0} (m : Result A) (f : A → Result B) (b : B)
    → (m >>= f) ≡ ok b
    → (a : A) × (m ≡ ok a) × (f a ≡ ok b)
bind-eq-ok (ok a) f b e = (a, refl, e)
bind-eq-ok (err x) f b e = absurd (cc e)

module _ {F : Type 0} where
  abbrev pub has_order_id : String → LiveOrder F → Bool
  has_order_id k o = str_eq o.id k

  abbrev pub for_slot : Slot → Intent F → Bool
  for_slot slot i = same_slot i.slot slot

  -- One order is kept, and the others are cancelled.
  abbrev pub KeepsOne :
      (LiveOrder F → Result (Option String)) → List (LiveOrder F) → Settled F → Type 0
  KeepsOne failure orders st =
      (o : LiveOrder F) × (pre : List (LiveOrder F)) × (post : List (LiveOrder F)) × (orders
        ≡ pre ++ (o ∷ post))
      × (st.cancelled ≡ pre ++ post)
      × (failure o ≡ ok none)
      × (st.placed ≡ [])

  also_cancels-KeepsOne :
      (failure : LiveOrder F → Result (Option String)) (intent : Intent F) (o : LiveOrder F)
      (orders : List (LiveOrder F)) (st' st : Settled F)
      → ◌≡◌ {A = Result (Settled F)} (ok (also_cancels o st')) (ok st)
      → KeepsOne failure orders st' ⊎ ((st'.cancelled ≡ orders) × (st'.placed ≡ (intent ∷ [])))
      → KeepsOne failure (o ∷ orders) st
        ⊎ ((st.cancelled ≡ (o ∷ orders)) × (st.placed ≡ (intent ∷ [])))
  also_cancels-KeepsOne failure intent o orders st' st e
        (inl (x, pre, post, split, cancelled, stays, placed)) =
      inl (x, o ∷ pre, post, ap (λ os. o ∷ os) split, cc, stays, cc)
  also_cancels-KeepsOne failure intent o orders st' st e (inr (cancelled, placed)) = inr (cc, cc)

  settle_orders-KeepsOne :
      (failure : LiveOrder F → Result (Option String)) (intent : Intent F)
      (orders : List (LiveOrder F)) (st : Settled F)
      → settle_orders failure intent orders ≡ ok st
      → KeepsOne failure orders st ⊎ ((st.cancelled ≡ orders) × (st.placed ≡ (intent ∷ [])))
  unfolding settle_orders
  settle_orders-KeepsOne failure intent [] st e = inr (cc, cc)
  settle_orders-KeepsOne failure intent (o ∷ orders) st e = elim (Result-cases (failure o)) [
    | inr (bad, raised) ↦ absurd (cc (rw raised at e))
    | inl (reason, judged) ↦ elim (Option-cases reason) [
      | inl stays ↦
          let kept = rw (judged, stays) at e in
          inl (o, [], orders, refl, cc, judged ∙ ap ok stays, cc)
      | inr (r, goes) ↦
          let (st', rest, same) =
            bind-eq-ok (settle_orders failure intent orders)
              (λ settled. ok (also_cancels o settled)) st (rw (judged, goes) at e) in
          also_cancels-KeepsOne failure intent o orders st' st same
            (settle_orders-KeepsOne failure intent orders st' rest)
    ]
  ]

  -- A slot is settled: without a target all its orders are cancelled, and with one either an order
  -- that does not fail stays, or all are cancelled and the target is placed.
  abbrev pub IsSettled :
      (LiveOrder F → Intent F → Result (Option String))
      → Option (Intent F)
      → List (LiveOrder F)
      → Settled F
      → Type 0
  IsSettled failure none orders st = (st.cancelled ≡ orders) × (st.placed ≡ [])
  IsSettled failure (some intent) orders st =
      KeepsOne (λ o. failure o intent) orders st
      ⊎ ((st.cancelled ≡ orders) × (st.placed ≡ (intent ∷ [])))

  pub settle_slot-IsSettled :
      (failure : LiveOrder F → Intent F → Result (Option String)) (o : Option (Intent F))
      (orders : List (LiveOrder F)) (st : Settled F)
      → settle_slot failure o orders ≡ ok st
      → IsSettled failure o orders st
  settle_slot-IsSettled failure none orders st e = (cc, cc)
  settle_slot-IsSettled failure (some intent) orders st e =
      settle_orders-KeepsOne (λ o. failure o intent) intent orders st e

  -- The target of a slot is of that slot.
  pub target_of-slot :
      (s : Slot) (intents : List (Intent F)) (i : Intent F)
      → target_of s intents ≡ some i
      → same_slot i.slot s ≡ true
  target_of-slot s [] i e = absurd (cc e)
  target_of-slot s (x ∷ intents) i e = elim (Option-cases (target_of s intents)) [
    | inr (later, found) ↦ target_of-slot s intents i (found ∙ (rw found at e))
    | inl nothing ↦ elim (Bool-cases (same_slot x.slot s)) [
      | inl same ↦
          subst (λ y. same_slot y.slot s ≡ true) (some-injective x i (rw (nothing, same) at e)) same
      | inr other ↦ absurd (cc (rw (nothing, other) at e))
    ]
  ]

  pub IsSettled-placed :
      (failure : LiveOrder F → Intent F → Result (Option String)) (s : Slot) (o : Option (Intent F))
      (orders : List (LiveOrder F)) (st : Settled F)
      → ((i : Intent F) → o ≡ some i → same_slot i.slot s ≡ true)
      → IsSettled failure o orders st
      → All (λ i. i.slot ≡ s) st.placed
  IsSettled-placed failure s none orders st own (cancelled, placed) = rw placed tt
  IsSettled-placed failure s (some i) orders st own
        (inl (x, pre, post, split, cancelled, stays, placed)) =
      rw placed tt
  IsSettled-placed failure s (some i) orders st own (inr (cancelled, placed)) =
      rw placed (same_slot-eq i.slot s (own i refl), tt)

  pub keep_if-for_slot :
      (s t : Slot) (placed : List (Intent F))
      → All (λ i. i.slot ≡ s) placed
      → keep_if (for_slot t) placed ≡ (if same_slot s t then placed else [])
  keep_if-for_slot s t [] h = ground arith
  keep_if-for_slot s t (i ∷ placed) (own, h) = elim (Bool-cases (same_slot s t)) [
    | inl same ↦
        let hit : same_slot i.slot t ≡ true = ap (λ x. same_slot x t) own ∙ same in
        let rest : keep_if (for_slot t) placed ≡ placed =
          rw same at (keep_if-for_slot s t placed h) in
        rw (hit, same) (ap (λ is. i ∷ is) rest)
    | inr other ↦
        let miss : same_slot i.slot t ≡ false = ap (λ x. same_slot x t) own ∙ other in
        rw (miss, other) (rw other at (keep_if-for_slot s t placed h))
  ]

  abbrev pub count_id : String → List (LiveOrder F) → ℕ
  count_id k = count_if (has_order_id k)

  pub KeepsOne-count :
      (failure : LiveOrder F → Result (Option String)) (orders : List (LiveOrder F))
      (st : Settled F) (kept : KeepsOne failure orders st) (k : String)
      → count_id k st.cancelled + (if str_eq kept.0.id k then 1 else 0) ≡ count_id k orders
  KeepsOne-count failure orders st (o, pre, post, split, cancelled, stays, placed) k =
      rw (cancelled, split)
        (omega (
          arith,
          count_if-append (has_order_id k) pre post,
          count_if-append (has_order_id k) pre (o ∷ post),
        ))

  pub IsSettled-count :
      (failure : LiveOrder F → Intent F → Result (Option String)) (o : Option (Intent F))
      (orders : List (LiveOrder F)) (st : Settled F)
      → IsSettled failure o orders st
      → (k : String) → count_id k st.cancelled ≤ count_id k orders
  IsSettled-count failure none orders st (cancelled, placed) k = rw cancelled (omega arith)
  IsSettled-count failure (some i) orders st (inr (cancelled, placed)) k =
      rw cancelled (omega arith)
  IsSettled-count failure (some i) orders st (inl kept) k =
      omega (arith, KeepsOne-count (λ o. failure o i) orders st kept k)
