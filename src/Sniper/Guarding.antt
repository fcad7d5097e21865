-- ===== src/Sniper/Guarding.antt =====
-- tools/sniper.py: when the guard lets an order go, and on which quote.
use polymarket_tools.Prelude.{
  sym, refl, ◌∙◌, Bool-cases, Option-cases, true, false, ◌≡◌, ◌↔◌, ◌⊎◌, inl, inr, arith, Option,
  none, some, Option-cases,
}
use mathlib.Core.Path.{subst}
use mathlib.Core.Option.{some-injective}
use polymarket_tools.Floats.{Floats, ◌<?◌, ◌≤?◌, ◌⊖◌}
use polymarket_tools.Floats.Order.{OrderLaws}
use polymarket_tools.Polymarket.Orders.{Side}
use polymarket_tools.ToolsDb.Types.{Guard}
use polymarket_tools.ToolsDb.Watches.{admits}
use polymarket_tools.Sniper.{Quote, reference, judge, newer, newest}

module _ {F : Type 0} ⦃fl : Floats F⦄ where
  -- A guarded order may go: a quote was seen, it is no older than the guard allows, it has a price
  -- on the order's side, and the guard admits that price.
  abbrev pub Passes : Guard F → Side → Option (Quote F) → F → Type 0
  Passes guard side none now = ⊥
  Passes guard side (some quote) now =
      ((guard.max_age_s <? now ⊖ quote.at) ≡ false)
      × ((price : F) × (reference side quote ≡ some price) × (admits guard price ≡ true))

  judge_guard :
      (guard : Guard F) (side : Side) (quote : Option (Quote F)) (now : F)
      → (judge (some guard) side quote now ≡ none) ↔ Passes guard side quote now
  unfolding judge
  judge_guard guard side none now = ((λ e. absurd (cc e)), (λ h. absurd h))
  judge_guard guard side (some quote) now = elim (Option-cases (reference side quote)) [
    | inl missing ↦ (ground arith, λ h. absurd (ground (arith, h.1.1)))
    | inr (price, seen) ↦ ((λ e. (ground arith, (price, seen, ground arith))), (λ h. ground arith))
  ]

  -- An order goes exactly when its watch has no guard, or when the newest quote was seen, is no
  -- older than the guard allows, and has a price on the order's side that the guard admits.
  pub judge-eq-none :
      (guard : Option (Guard F)) (side : Side) (quote : Option (Quote F)) (now : F)
      → (judge guard side quote now ≡ none)
        ↔ ((guard ≡ none) ⊎ ((g : Guard F) × (guard ≡ some g) × Passes g side quote now))
  judge-eq-none none side quote now = ((λ _. inl refl), (λ _. unfold judge in refl))
  judge-eq-none (some g) side quote now =
      ((λ e. inr (g, refl, (judge_guard g side quote now).0 e)), of_guard)
    where
      of_guard :
          (some g ≡ none) ⊎ ((g' : Guard F) × (some g ≡ some g') × Passes g' side quote now)
          → judge (some g) side quote now ≡ none
      of_guard (inl e) = absurd (cc e)
      of_guard (inr (g', e, h)) =
          (judge_guard g side quote now).1
            (subst (λ x. Passes x side quote now) (sym (some-injective g g' e)) h)

  -- No quote seen is newer than `at`.
  abbrev pub NoNewer : F → Option (Quote F) → Type 0
  NoNewer at none = Unit
  NoNewer at (some q) = (q.at ≤? at) ≡ true

  module _ (laws : OrderLaws fl) where
    newer-is_newest :
        (a b : Option (Quote F)) (q : Quote F)
        → newer a b ≡ some q
        → ((a ≡ some q) ⊎ (b ≡ some q)) × NoNewer q.at a × NoNewer q.at b
    newer-is_newest none none q e = absurd (cc e)
    newer-is_newest none (some b) q e = (inr e, tt, ground (arith, laws.le_refl q.at))
    newer-is_newest (some a) none q e = (inl e, ground (arith, laws.le_refl q.at), tt)
    newer-is_newest (some a) (some b) q e = elim (Bool-cases (a.at <? b.at)) [
      | inl newer_b ↦ (
        inr (ground arith),
        ground (arith, laws.le_of_lt a.at b.at),
        ground (arith, laws.le_refl q.at),
      )
      | inr newer_a ↦ (
        inl (ground arith),
        ground (arith, laws.le_refl q.at),
        ground (arith, laws.le_of_not_lt a.at b.at),
      )
    ]

    NoNewer-trans :
        (at at' : F) (q : Option (Quote F)) → (at ≤? at') ≡ true → NoNewer at q → NoNewer at' q
    NoNewer-trans at at' none le h = tt
    NoNewer-trans at at' (some q) le h = laws.le_trans q.at at at' h le

    newer-eq-none : (a b : Option (Quote F)) → newer a b ≡ none → (a ≡ none) × (b ≡ none)
    newer-eq-none none none e = (refl, refl)
    newer-eq-none none (some b) e = absurd (cc e)
    newer-eq-none (some a) none e = absurd (cc e)
    newer-eq-none (some a) (some b) e = absurd (ground arith)

    -- The quote that the guard judges is one of the three that the lanes hold, and none of the
    -- three is newer.
    pub newest-is_newest :
        (a b c : Option (Quote F)) (q : Quote F)
        → newest a b c ≡ some q
        → ((a ≡ some q) ⊎ ((b ≡ some q) ⊎ (c ≡ some q)))
          × NoNewer q.at a
          × NoNewer q.at b
          × NoNewer q.at c
    unfolding newest
    newest-is_newest a b c q e = elim (Option-cases (newer a b)) [
      | inl empty ↦
          let (no_a, no_b) = newer-eq-none a b empty in
          (inr (inr (rw empty at e)), rw no_a tt, rw no_b tt, (newer-is_newest (newer a b) c q e).2)
      | inr (m, found) ↦
          let (picked, le_a, le_b) = newer-is_newest a b m found in
          let (picked', le_m, le_c) = newer-is_newest (newer a b) c q e in
          let m_le : (m.at ≤? q.at) ≡ true = subst (NoNewer q.at) found le_m in
          (
            which a b c m q picked (rw found at picked'),
            NoNewer-trans m.at q.at a m_le le_a,
            NoNewer-trans m.at q.at b m_le le_b,
            le_c,
          )
    ]
      where
        which :
            (a b c : Option (Quote F)) (m q : Quote F)
            → (a ≡ some m) ⊎ (b ≡ some m)
            → (some m ≡ some q) ⊎ (c ≡ some q)
            → (a ≡ some q) ⊎ ((b ≡ some q) ⊎ (c ≡ some q))
        which a b c m q (inl ea) (inl em) = inl (ea ∙ em)
        which a b c m q (inr eb) (inl em) = inr (inl (eb ∙ em))
        which a b c m q p (inr ec) = inr (inr ec)
