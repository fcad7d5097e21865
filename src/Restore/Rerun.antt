-- ===== src/Restore/Rerun.antt =====
-- tools/restore.py: a restore is safe to run again.
use polymarket_tools.Prelude.{
  ℕ, String, ◌+◌, ◌≤◌, true, false, ◌≡◌, refl, ap, ◌∙◌, arith, List, [], ◌∷◌, ◌++◌, count_if,
  count_if-append, if◌then◌else◌, map, map-append, is_some, All, contains,
}
use polymarket_tools.Floats.{Floats}
use polymarket_tools.Polymarket.Orders.{OpenOrder}
use polymarket_tools.ToolsDb.Types.{SnapshotOrder}
use polymarket_tools.Restore.{
  is_would_place, Key, key, same_key, Context, context, copies_of, snapshot_ids, skip, PlanLine,
  plan_lines, plan,
}
use polymarket_tools.Restore.Keys.{EqLaws, same_key_refl}
use polymarket_tools.Restore.Copies.{places, wants, places-plan_lines}

contains-append_left :
    (k : String) (xs ys : List String) → contains k xs ≡ true → contains k (xs ++ ys) ≡ true
contains-append_left k [] ys h = absurd (cc h)
contains-append_left k (x ∷ xs) ys h = ground (arith, contains-append_left k xs ys)

module _ {F : Type 0} ⦃fl : Floats F⦄ where
  -- The orders that a plan places.
  abbrev pub placed_orders : List (PlanLine F) → List (OpenOrder F)
  placed_orders [] = []
  placed_orders (line ∷ lines) =
      let rest = placed_orders lines in
      if is_would_place line.action then line.order.order ∷ rest else rest

  count_if-placed_orders :
      (k : Key F) (lines : List (PlanLine F))
      → count_if (same_key k) (map key (placed_orders lines)) ≡ count_if (places k) lines
  count_if-placed_orders k [] = refl
  count_if-placed_orders k (line ∷ lines) = ground (arith, count_if-placed_orders k lines)

  copies_of-append :
      (stored : List (SnapshotOrder F)) (live new : List (OpenOrder F))
      → All (λ o. contains o.order_id (snapshot_ids stored) ≡ false) new
      → copies_of stored (live ++ new) ≡ copies_of stored live ++ map key new
  unfolding copies_of
  copies_of-append stored [] [] fresh = refl
  copies_of-append stored [] (o ∷ new) fresh =
      ground (arith, fresh.0, copies_of-append stored [] new fresh.1)
  copies_of-append stored (o ∷ live) new fresh =
      ground (arith, copies_of-append stored live new fresh)

  -- Later, and with more orders open, no order is wanted that was not wanted before.
  module _ (live new : List (OpenOrder F)) (managed retired : List String) (now later : ℕ)
      (order_of_times : now ≤ later) where
    resting-append :
        (k : String)
        → contains k (map (λ o. o.order_id) live) ≡ true
        → contains k (map (λ (o : OpenOrder F). o.order_id) (live ++ new)) ≡ true
    resting-append k h = rw map-append (contains-append_left k (map (λ o. o.order_id) live) _ h)

    skip-later :
        (stored : SnapshotOrder F)
        → is_some (skip (context live managed now retired) stored) ≡ true
        → is_some (skip (context (live ++ new) managed later retired) stored) ≡ true
    unfolding skip context
    skip-later stored h = ground (arith, resting-append stored.order.order_id)

  none_placed :
      EqLaws fl
      → (lines : List (PlanLine F)) → ((k : Key F) → count_if (places k) lines ≡ 0)
      → All (λ line. is_would_place line.action ≡ false) lines
  none_placed laws [] zero_of = tt
  none_placed laws (line ∷ lines) zero_of = (
    ground (arith, zero_of (key line.order.order), same_key_refl laws (key line.order.order)),
    none_placed laws lines (λ k. omega (arith, zero_of k)),
  )

module _ {F : Type 0} ⦃fl : Floats F⦄ (laws : EqLaws fl) where
  wants-later :
      (first later : Context) (k : Key F) (stored : List (SnapshotOrder F))
      → ((o : SnapshotOrder F) → is_some (skip first o) ≡ true → is_some (skip later o) ≡ true)
      → count_if (wants later k) stored ≤ count_if (wants first k) stored
  wants-later first later k [] imp = omega arith
  wants-later first later k (o ∷ stored) imp =
      ground (arith, imp o, wants-later first later k stored imp)

  module _ (stored : List (SnapshotOrder F)) (live new : List (OpenOrder F))
      (managed retired : List String) (now later : ℕ) where
    -- Once every order that a restore would place rests, under ids that the snapshot does not hold
    -- and with the keys they were placed for, the same restore, run then or later, places none.
    pub plan_again-places_none :
        now ≤ later
        → All (λ o. contains o.order_id (snapshot_ids stored) ≡ false) new
        → map key new ≡ map key (placed_orders (plan stored live managed now retired))
        → All
            (λ line. is_would_place line.action ≡ false)
            (plan stored (live ++ new) managed later retired)
    unfolding plan
    plan_again-places_none order_of_times fresh keys =
        none_placed laws (plan_lines again (copies_of stored (live ++ new)) stored) λ k. omega (
          arith,
          places-plan_lines laws again k (copies_of stored (live ++ new)) stored,
          places-plan_lines laws first k (copies_of stored live) stored,
          counts k,
          wants-later first again k stored
              (skip-later live new managed retired now later order_of_times),
        )
      where
        first : Context
        first = context live managed now retired

        again : Context
        again = context (live ++ new) managed later retired

        counts :
            (k : Key F)
            → count_if (same_key k) (copies_of stored (live ++ new))
              ≡ count_if (same_key k) (copies_of stored live)
                + count_if (places k) (plan_lines first (copies_of stored live) stored)
        counts k =
            ap (count_if (same_key k)) (copies_of-append stored live new fresh)
            ∙ count_if-append (same_key k) (copies_of stored live) (map key new)
            ∙ ap (λ n. count_if (same_key k) (copies_of stored live) + n)
                (ap (count_if (same_key k)) keys
                  ∙ count_if-placed_orders k (plan_lines first (copies_of stored live) stored))
