-- ===== src/Farmer/Reconcile/Refine.antt =====
-- farm/reward_farmer.py: reconcile implements one order for each targeted slot.
use polymarket_tools.Prelude.{
  ℕ, ◌+◌, ◌≤◌, String, Bool, true, false, not, ◌≡◌, refl, sym, ◌∙◌, ap, ◌⊎◌, inl, inr, Option, none,
  some, List, [], ◌∷◌, map, count_if, count_if-append, keep_if, contains, str_eq, arith, eq_refl,
}
use polymarket_tools.Floats.{Floats}
use polymarket_tools.Floats.Maths.{Maths}
use polymarket_tools.Python.{Result, ok}
use polymarket_tools.Farmer.Fills.{
  Slot, fav_bid, long_ask, fav_ask, long_bid, same_slot, Position, Intent, Action, cancel, place,
}
use polymarket_tools.Farmer.Lifecycle.{FarmConfig}
use polymarket_tools.Farmer.Pricing.{FarmMarket, LiveOrder, Target}
use polymarket_tools.Farmer.Reconcile.{
  target_of, Settled, slots, in_slot, settle, actions_of, reconcile,
}
use polymarket_tools.Farmer.Keep.{keep_failure}
use polymarket_tools.Farmer.Reconcile.Settling.{
  keep_if-append, bind-eq-ok, count_id, has_order_id, for_slot, KeepsOne, KeepsOne-count, IsSettled,
}
use polymarket_tools.Farmer.Reconcile.Loop.{total, total-slots, settle-OfSlot}

module _ {F : Type 0} where
  -- The orders that rest once the cancels are done.
  abbrev pub survivors : List (Action F) → List (LiveOrder F) → List (LiveOrder F)
  survivors [] live = live
  survivors (cancel ids ∷ actions) live =
      survivors actions (keep_if (λ o. not (contains o.id ids)) live)
  survivors (place i ∷ actions) live = survivors actions live

  -- The orders that the actions place.
  abbrev pub placements : List (Action F) → List (Intent F)
  placements [] = []
  placements (cancel ids ∷ actions) = placements actions
  placements (place i ∷ actions) = i ∷ placements actions

  -- What a slot should hold: nothing without a target, and else one order, which is one that the
  -- test does not fail, or the target itself.
  abbrev pub HoldsTarget :
      (LiveOrder F → Intent F → Result (Option String))
      → Option (Intent F)
      → List (LiveOrder F)
      → List (Intent F)
      → Type 0
  HoldsTarget failure none rests placed = (rests ≡ []) × (placed ≡ [])
  HoldsTarget failure (some i) rests placed =
      ((o : LiveOrder F) × (rests ≡ (o ∷ [])) × (failure o i ≡ ok none) × (placed ≡ []))
      ⊎ ((rests ≡ []) × (placed ≡ (i ∷ [])))

  survivors_of_places :
      (placed : List (Intent F)) (live : List (LiveOrder F))
      → survivors (map place placed) live ≡ live
  survivors_of_places [] live = refl
  survivors_of_places (i ∷ placed) live = survivors_of_places placed live

  placements_of_places : (placed : List (Intent F)) → placements (map place placed) ≡ placed
  placements_of_places [] = refl
  placements_of_places (i ∷ placed) = ap (λ is. i ∷ is) (placements_of_places placed)

  abbrev stays : List (LiveOrder F) → LiveOrder F → Bool
  stays cancelled o = not (contains o.id (map (λ c. c.id) cancelled))

  keep_all : (xs : List (LiveOrder F)) → keep_if (λ o. true) xs ≡ xs
  keep_all [] = refl
  keep_all (x ∷ xs) = ap (λ ys. x ∷ ys) (keep_all xs)

  survivors-actions_of :
      (r : List (LiveOrder F) × List (Intent F)) (live : List (LiveOrder F))
      → (survivors (actions_of r) live ≡ keep_if (stays r.0) live)
        × (placements (actions_of r) ≡ r.1)
  survivors-actions_of ([], placed) live =
      (survivors_of_places placed live ∙ sym (keep_all live), placements_of_places placed)
  survivors-actions_of (c ∷ cancelled, placed) live =
      (survivors_of_places placed _, placements_of_places placed)

  contains_none :
      (k : String) (cancelled : List (LiveOrder F))
      → count_id k cancelled ≡ 0
      → contains k (map (λ c. c.id) cancelled) ≡ false
  contains_none k [] h = refl
  contains_none k (c ∷ cancelled) h = ground (arith, contains_none k cancelled)

  contains_some :
      (k : String) (cancelled : List (LiveOrder F))
      → 1 ≤ count_id k cancelled
      → contains k (map (λ c. c.id) cancelled) ≡ true
  contains_some k [] h = absurd (omega (arith, h))
  contains_some k (c ∷ cancelled) h = ground (arith, contains_some k cancelled)

  in_slot-keep_if :
      (p : LiveOrder F → Bool) (s : Slot) (live : List (LiveOrder F))
      → in_slot s (keep_if p live) ≡ keep_if p (in_slot s live)
  in_slot-keep_if p s [] = refl
  in_slot-keep_if p s (o ∷ live) = ground (arith, in_slot-keep_if p s live)

  -- Orders that are all cancelled do not stay.
  none_stay :
      (cancelled xs : List (LiveOrder F))
      → ((k : String) → count_id k xs ≤ count_id k cancelled)
      → keep_if (stays cancelled) xs ≡ []
  none_stay cancelled [] covers = refl
  none_stay cancelled (x ∷ xs) covers =
      let hit : str_eq x.id x.id ≡ true = eq_refl x.id in
      let gone : stays cancelled x ≡ false =
        ap not (contains_some x.id cancelled (ground (arith, covers x.id))) in
      rw gone (none_stay cancelled xs (λ k. omega (arith, covers k)))

  one_stays :
      (failure : LiveOrder F → Result (Option String)) (cancelled orders : List (LiveOrder F))
      (st : Settled F) (kept : KeepsOne failure orders st)
      → ((k : String) → count_id k st.cancelled ≤ count_id k cancelled)
      → count_id kept.0.id cancelled ≡ 0
      → keep_if (stays cancelled) orders ≡ (kept.0 ∷ [])
  one_stays failure cancelled orders st (o, pre, post, split, both, ok_o, placed) covers absent =
      let here : stays cancelled o ≡ true = ap not (contains_none o.id cancelled absent) in
      let counts = λ (k : String). count_if-append (has_order_id k) pre post in
      let before : keep_if (stays cancelled) pre ≡ [] =
        none_stay cancelled pre (λ k. omega (arith, counts k, rw both at (covers k))) in
      let after : keep_if (stays cancelled) post ≡ [] =
        none_stay cancelled post (λ k. omega (arith, counts k, rw both at (covers k))) in
      rw (split, keep_if-append (stays cancelled) pre (o ∷ post), before, here, after) refl

  IsSettled-HoldsTarget :
      (failure : LiveOrder F → Intent F → Result (Option String)) (o : Option (Intent F))
      (cancelled orders : List (LiveOrder F)) (st : Settled F) (whole : String → ℕ)
      → IsSettled failure o orders st
      → ((k : String) → count_id k st.cancelled ≤ count_id k cancelled)
      → ((k : String)
          → count_id k cancelled + count_id k orders ≤ whole k + count_id k st.cancelled)
      → ((k : String) → whole k ≤ 1)
      → HoldsTarget failure o (keep_if (stays cancelled) orders) st.placed
  IsSettled-HoldsTarget failure none cancelled orders st whole (all, placed) covers counts unique =
      (none_stay cancelled orders (λ k. rw all at (covers k)), placed)
  IsSettled-HoldsTarget failure (some i) cancelled orders st whole (inr (all, placed)) covers counts
        unique =
      inr (none_stay cancelled orders (λ k. rw all at (covers k)), placed)
  IsSettled-HoldsTarget failure (some i) cancelled orders st whole (inl kept) covers counts unique =
      let self : str_eq kept.0.id kept.0.id ≡ true = eq_refl kept.0.id in
      let one = KeepsOne-count (λ o. failure o i) orders st kept kept.0.id in
      inl (
        kept.0,
        one_stays (λ o. failure o i) cancelled orders st kept covers
            (ground (arith, one, counts kept.0.id, unique kept.0.id)),
        kept.5,
        kept.6,
      )

once : (s : Slot) → count_if (λ t. same_slot t s) slots ≡ 1
once fav_bid = refl
once long_ask = refl
once fav_ask = refl
once long_bid = refl

module _ {F : Type 0} ⦃fl : Floats F⦄ ⦃ma : Maths F⦄ where
  -- What reconcile promises: where the ids of the resting orders are distinct, once its actions are
  -- done a slot without a target holds no order, and a slot with one holds exactly one, which is
  -- either a resting order that keep_failure does not fail or the target, newly placed.
  pub reconcile-HoldsTarget :
      (target : Target F) (live : List (LiveOrder F)) (fm : FarmMarket F) (position : Position F)
      (cfg : FarmConfig F) (actions : List (Action F)) (s : Slot)
      → ((k : String) → count_id k live ≤ 1)
      → reconcile target live fm position cfg ≡ ok actions
      → HoldsTarget
          (λ o i. keep_failure o i target fm position cfg)
          (target_of s target.intents)
          (in_slot s (survivors actions live))
          (keep_if (for_slot s) (placements actions))
  unfolding reconcile
  reconcile-HoldsTarget target live fm position cfg actions s unique e =
      let failure = λ (o : LiveOrder F) (i : Intent F). keep_failure o i target fm position cfg in
      let (r, settled, same) = bind-eq-ok (settle failure target.intents live slots) _ actions e in
      let are : actions ≡ actions_of r = cc in
      let (st, h, placed, covers, counts) =
        settle-OfSlot failure target.intents live s slots r settled (once s) in
      let (rest, places) = survivors-actions_of r live in
      rw (are, rest, places, placed, in_slot-keep_if (stays r.0) s live)
        (IsSettled-HoldsTarget failure (target_of s target.intents) r.0 (in_slot s live) st
          (λ k. total k live slots) h covers counts (λ k. rw (total-slots k live) (unique k)))
