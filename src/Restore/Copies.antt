-- ===== src/Restore/Copies.antt =====
-- tools/restore.py: each open copy of an order covers one order of the snapshot.
use polymarket_tools.Prelude.{
  ℕ, String, ◌+◌, ◌-◌, Bool, true, false, ◌&&◌, ◌≡◌, refl, arith, inl, inr, none, some, List, [],
  ◌∷◌, any, count_if, Bool-cases, Option-cases, map, is_some, not, All, contains,
}
use polymarket_tools.Floats.{◌≤?◌, decimal, Floats}
use polymarket_tools.ToolsDb.Types.{SnapshotOrder, RestoreAction, would_place}
use polymarket_tools.Restore.{
  is_would_place, Key, key, same_key, Context, skip, PlanLine, plan_lines, remove_one, OpenOrder,
  planned_line, why_placed, plan, context, copies_of, remaining, is_farmers, is_unrecorded,
  expires_by, expiry_margin, is_placed,
}
use polymarket_tools.Restore.Keys.{EqLaws, count_if-remove_one, count_if-no_copy}

module _ {F : Type 0} ⦃fl : Floats F⦄ where
  -- The lines that place an order of this key.
  abbrev pub places : Key F → PlanLine F → Bool
  places k line = is_would_place line.action && same_key k (key line.order.order)

  -- The snapshot's orders of this key that nothing but a copy could skip.
  abbrev pub wants : Context → Key F → SnapshotOrder F → Bool
  wants at k stored = not (is_some (skip at stored)) && same_key k (key stored.order)

  -- No branch that skips an order places it.
  pub skip-skips :
      (at : Context) (stored : SnapshotOrder F) (action : RestoreAction) (reason : String)
      → skip at stored ≡ some (action, reason)
      → is_would_place action ≡ false
  unfolding skip
  skip-skips at stored action reason e = ground arith

module _ {F : Type 0} ⦃fl : Floats F⦄ (laws : EqLaws fl) (at : Context) where
  pub places-plan_lines :
      (k : Key F) (copies : List (Key F)) (stored : List (SnapshotOrder F))
      → count_if (places k) (plan_lines at copies stored)
        ≡ count_if (wants at k) stored - count_if (same_key k) copies
  unfolding plan_lines
  places-plan_lines k copies [] = omega arith
  places-plan_lines k copies (o ∷ stored) = elim (Option-cases (skip at o)) [
    | inl wanted ↦ elim (Bool-cases (any (same_key (key o.order)) copies)) [
      | inl copied ↦ ground (
        arith,
        count_if-remove_one laws k (key o.order) copies copied,
        places-plan_lines k (remove_one (key o.order) copies) stored,
      )
      | inr alone ↦ ground (
        arith,
        count_if-no_copy laws k (key o.order) copies alone,
        places-plan_lines k copies stored,
      )
    ]
    | inr ((action, reason), skipped) ↦
        ground (arith, skip-skips at o action reason skipped, places-plan_lines k copies stored)
  ]

module _ {F : Type 0} ⦃fl : Floats F⦄ where
  -- What holds of an order that a plan places.
  pub record IsPlaceable (at : Context) (line : PlanLine F) : Type 0 where
    pub something_left : (line.size ≤? decimal 0 0) ≡ false
    pub whole : line.size ≡ remaining line.order.order
    pub not_managed : contains line.order.order.market at.managed_markets ≡ false
    pub not_farmers : is_farmers line.order.farmer ≡ false
    pub not_retired :
        (is_unrecorded line.order.farmer && contains line.order.order.market at.retired_markets)
        ≡ false
    pub not_expiring : expires_by (at.now + expiry_margin) line.order.order.expiration ≡ false
    pub not_resting : contains line.order.order.order_id at.resting ≡ false

  -- What `plan` says of one line: it is about its order, and it places only what is placeable.
  abbrev pub IsSafeLine : Context → PlanLine F → Type 0
  IsSafeLine at line = is_would_place line.action ≡ true → IsPlaceable at line

  IsSafeLine-wanted :
      (at : Context) (stored : SnapshotOrder F) (reason : String)
      → skip at stored ≡ none
      → IsPlaceable at (planned_line stored would_place reason)
  unfolding skip planned_line
  IsSafeLine-wanted at stored reason wanted = ground arith

  not_placed :
      (at : Context) (line : PlanLine F) → is_would_place line.action ≡ false → IsSafeLine at line
  not_placed at line e = λ h. absurd (ground arith)

  plan_lines-IsSafe :
      (at : Context) (copies : List (Key F)) (stored : List (SnapshotOrder F))
      → All (IsSafeLine at) (plan_lines at copies stored)
  unfolding plan_lines
  plan_lines-IsSafe at copies [] = tt
  plan_lines-IsSafe at copies (o ∷ stored) = elim (Option-cases (skip at o)) [
    | inl wanted ↦ elim (Bool-cases (any (same_key (key o.order)) copies)) [
      | inl copied ↦
          rw (wanted, copied, plan_lines)
            ((λ e. absurd (cc e)), plan_lines-IsSafe at (remove_one (key o.order) copies) stored)
      | inr alone ↦
          rw (wanted, alone, plan_lines)
            (
              (λ e. IsSafeLine-wanted at o (why_placed o.order) wanted),
              plan_lines-IsSafe at copies stored,
            )
    ]
    | inr ((action, reason), skipped) ↦
        rw (skipped, plan_lines)
          (
            not_placed at (planned_line o action reason) (skip-skips at o action reason skipped),
            plan_lines-IsSafe at copies stored,
          )
  ]

  -- A plan has one line for each order of the snapshot, in their order.
  pub order-plan :
      (at : Context) (copies : List (Key F)) (stored : List (SnapshotOrder F))
      → map (λ (line : PlanLine F). line.order) (plan_lines at copies stored) ≡ stored
  unfolding plan_lines
  order-plan at copies [] = refl
  order-plan at copies (o ∷ stored) = elim (Option-cases (skip at o)) [
    | inl wanted ↦ elim (Bool-cases (any (same_key (key o.order)) copies)) [
      | inl copied ↦ ground (arith, order-plan at (remove_one (key o.order) copies) stored)
      | inr alone ↦ ground (arith, order-plan at copies stored)
    ]
    | inr ((action, reason), skipped) ↦ ground (arith, order-plan at copies stored)
  ]

  skip-none_placed :
      (at : Context) (stored : SnapshotOrder F) (action : RestoreAction) (reason : String)
      → skip at stored ≡ some (action, reason)
      → is_placed action ≡ false
  unfolding skip
  skip-none_placed at stored action reason e = ground arith

  plan_lines-none_placed :
      (at : Context) (copies : List (Key F)) (stored : List (SnapshotOrder F))
      → All (λ line. is_placed line.action ≡ false) (plan_lines at copies stored)
  unfolding plan_lines
  plan_lines-none_placed at copies [] = tt
  plan_lines-none_placed at copies (o ∷ stored) = elim (Option-cases (skip at o)) [
    | inl wanted ↦ elim (Bool-cases (any (same_key (key o.order)) copies)) [
      | inl copied ↦
          rw (wanted, copied, plan_lines)
            (refl, plan_lines-none_placed at (remove_one (key o.order) copies) stored)
      | inr alone ↦ rw (wanted, alone, plan_lines) (refl, plan_lines-none_placed at copies stored)
    ]
    | inr ((action, reason), skipped) ↦
        rw (skipped, plan_lines)
          (skip-none_placed at o action reason skipped, plan_lines-none_placed at copies stored)
  ]

  module _ (stored : List (SnapshotOrder F)) (live : List (OpenOrder F))
      (managed retired : List String) (now : ℕ) where
    -- A restore places an order only if some of it was left to fill and it places exactly that, the
    -- farmer neither manages its market nor managed it when the snapshot was taken, its market is
    -- not a retired one when the snapshot has no record, it expires later than EXPIRY_MARGIN from
    -- now, and it does not rest; and the plan has one line for each order, in the snapshot's order.
    pub plan-IsSafe :
        All (IsSafeLine (context live managed now retired)) (plan stored live managed now retired)
        × (map (λ (line : PlanLine F). line.order) (plan stored live managed now retired) ≡ stored)
    unfolding plan
    plan-IsSafe = (
      plan_lines-IsSafe (context live managed now retired) (copies_of stored live) stored,
      order-plan (context live managed now retired) (copies_of stored live) stored,
    )

    -- Of each key a plan places what the snapshot wants placed less the open copies: a copy covers
    -- one order, so that two identical orders with one copy are a skip and a place.
    pub places-plan :
        EqLaws fl
        → (k : Key F)
        → count_if (places k) (plan stored live managed now retired)
          ≡ count_if (wants (context live managed now retired) k) stored
            - count_if (same_key k) (copies_of stored live)
    unfolding plan
    places-plan laws k =
        places-plan_lines laws (context live managed now retired) k (copies_of stored live) stored

    -- No line of a plan is a placed one yet.
    pub plan-none_placed :
        All (λ line. is_placed line.action ≡ false) (plan stored live managed now retired)
    unfolding plan
    plan-none_placed =
        plan_lines-none_placed (context live managed now retired) (copies_of stored live) stored
