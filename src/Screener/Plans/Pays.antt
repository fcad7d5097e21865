-- ===== src/Screener/Plans/Pays.antt =====
-- farm/reward_screener.py: a market's plan pays, is the plan of one of the candidate prices, and no
-- candidate's plan beats it by more than the tolerance of the loop.
use mathlib.Core.Path.{subst, sym}
use mathlib.Core.Option.{some-injective}
use polymarket_tools.Prelude.{
  ap, ◌∙◌, Option-cases, ℕ, zero, suc, ◌+◌, String, true, false, ◌≡◌, refl, ◌⊎◌, inl, inr, Option,
  none, some, List, [], ◌∷◌, Bool-cases, All, length, get_elem?, arith,
}
use polymarket_tools.Floats.{Floats, ◌≤?◌, ◌⊖◌, decimal}
use polymarket_tools.Floats.Maths.{Maths}
use polymarket_tools.Screener.Scores.{Levels}
use polymarket_tools.Screener.Candidates.{fav_bid_candidates}
use polymarket_tools.Screener.Values.{Outlook, net_per_day}
use polymarket_tools.Screener.Plans.{
  QuotePlan, Plan, planned, skipped, raised, unfinished, MarketTerms, ScreenTerms, plan_at, valued,
  Valued, better, decided, best_plan, plan_quotes,
}

plan_or : {A : Type 0} → A → Plan A → A
plan_or other (planned a) = a
plan_or other _ = other

planned_injective : {A : Type 0} (a b : A) → ◌≡◌ {A = Plan A} (planned a) (planned b) → a ≡ b
unfolding plan_or
planned_injective a b e = ap (plan_or a) e

module _ {F : Type 0} ⦃fl : Floats F⦄ ⦃ma : Maths F⦄ where
  -- The second amount is no more than 1e-12 under the first: it is the same, or the loop's test finds
  -- it no further under, or finds it more than 1e-12 over.
  abbrev pub AtLeastNearly : F → F → Type 0
  AtLeastNearly x y =
      (x ≡ y) ⊎ ((((x ⊖ decimal 1 12) ≤? y) ≡ true) ⊎ (((y ⊖ decimal 1 12) ≤? x) ≡ false))

  -- An amount that this many steps reach, each of which falls by no more than 1e-12.
  abbrev pub Drifts : ℕ → F → F → Type 0
  Drifts zero x z = x ≡ z
  Drifts (suc n) x z = (y : F) × Drifts n x y × AtLeastNearly y z

  Drifts-suc : (n : ℕ) (x z : F) → Drifts n x z → Drifts (suc n) x z
  Drifts-suc n x z h = (z, h, inl refl)

  Drifts-refl : (n : ℕ) (x : F) → Drifts n x x
  Drifts-refl zero x = refl
  Drifts-refl (suc n) x = (x, Drifts-refl n x, inl refl)

  subst-Drifts : (m n : ℕ) (x z : F) → m ≡ n → Drifts m x z → Drifts n x z
  subst-Drifts m n x z e h = subst (λ k. Drifts k x z) e h

  better-AtLeastNearly :
      (best new : Valued F)
      → AtLeastNearly (net_per_day best.1) (net_per_day (better (some best) new).1)
  better-AtLeastNearly best new =
      elim (Bool-cases ((net_per_day best.1 ⊖ decimal 1 12) ≤? net_per_day new.1)) [
        | inl more ↦ rw more (inr (inl more))
        | inr less ↦ rw less (inl refl)
      ]

  new-AtLeastNearly :
      (o : Option (Valued F)) (new : Valued F)
      → AtLeastNearly (net_per_day new.1) (net_per_day (better o new).1)
  new-AtLeastNearly none new = inl refl
  new-AtLeastNearly (some best) new =
      elim (Bool-cases ((net_per_day best.1 ⊖ decimal 1 12) ≤? net_per_day new.1)) [
        | inl more ↦ rw more (inl refl)
        | inr less ↦ rw less (inr (inr less))
      ]

  -- What stood before is reached by so many steps.
  abbrev DriftsFrom : ℕ → F → Option (Valued F) → Type 0
  DriftsFrom n x none = ⊥
  DriftsFrom n x (some best) = Drifts n x (net_per_day best.1)

  DriftsFrom-better :
      (n : ℕ) (x : F) (o : Option (Valued F)) (new : Valued F)
      → DriftsFrom n x o
      → DriftsFrom (suc n) x (some (better o new))
  DriftsFrom-better n x none new h = absurd h
  DriftsFrom-better n x (some best) new h = (net_per_day best.1, h, better-AtLeastNearly best new)

  better-cases :
      (o : Option (Valued F)) (new : Valued F) → (better o new ≡ new) ⊎ (o ≡ some (better o new))
  better-cases none new = inl refl
  better-cases (some best) new =
      elim (Bool-cases ((net_per_day best.1 ⊖ decimal 1 12) ≤? net_per_day new.1)) [
        | inl more ↦ rw more (inl refl)
        | inr less ↦ rw less (inr refl)
      ]

module _ {F : Type 0} ⦃fl : Floats F⦄ ⦃ma : Maths F⦄ where
  module _ (fuel : ℕ) (market : MarketTerms F) (levels : Levels F) (config : ScreenTerms F)
      (outlook : Outlook F) (p_true : F) where
    abbrev plan_of : F → Plan (QuotePlan F)
    plan_of price = plan_at fuel market levels config price outlook.years_left

    -- The plan of a price, with what it is worth there.
    abbrev pub IsPlanAt : F → Valued F → Type 0
    IsPlanAt price best =
        (plan_at fuel market levels config price outlook.years_left ≡ planned best.0)
        × (best.1 ≡ valued market levels outlook p_true price best.0)

    -- The plan of one of these prices.
    abbrev pub IsPlanOf : List F → Valued F → Type 0
    IsPlanOf prices best =
        (n : ℕ) × ((price : F) × (get_elem? prices n ≡ some price) × IsPlanAt price best)

    -- A price that has no plan, or one that nets no more than the best but for a drift of n steps.
    abbrev pub Allows : ℕ → Valued F → F → Plan (QuotePlan F) → Type 0
    Allows n best price (planned plan) =
        Drifts n (net_per_day (valued market levels outlook p_true price plan)) (net_per_day best.1)
    Allows n best price _ = Unit

    abbrev pub NoneBeats : ℕ → List F → Valued F → Type 0
    NoneBeats n prices best =
        All
          (λ price.
            Allows n best price (plan_at fuel market levels config price outlook.years_left))
          prices

    -- What a plan is that comes of the loop from these prices and this best so far.
    abbrev Chosen : Valued F → List F → Option (Valued F) → Type 0
    Chosen best prices o =
        ((net_per_day best.1 ≤? decimal 0 0) ≡ false)
        × ((IsPlanOf prices best ⊎ (o ≡ some best))
            × (NoneBeats (length prices) prices best
                × ((n : ℕ) (x : F)
                    → DriftsFrom n x o
                    → Drifts (length prices + n) x (net_per_day best.1))))

    NoneBeats-suc :
        (n : ℕ) (prices : List F) (best : Valued F)
        → NoneBeats n prices best
        → NoneBeats (suc n) prices best
    NoneBeats-suc n [] best h = tt
    NoneBeats-suc n (price ∷ prices) best (h, rest) =
        (one (plan_of price) h, NoneBeats-suc n prices best rest)
      where
        one : (r : Plan (QuotePlan F)) → Allows n best price r → Allows (suc n) best price r
        one (planned plan) a = Drifts-suc n _ _ a
        one (skipped why) a = tt
        one (raised e) a = tt
        one unfinished a = tt

    Chosen-planned :
        (price : F) (prices : List F) (o : Option (Valued F)) (best : Valued F) (plan : QuotePlan F)
        → plan_of price ≡ planned plan
        → Chosen best prices
            (some (better o (plan, valued market levels outlook p_true price plan)))
        → Chosen best (price ∷ prices) o
    Chosen-planned price prices o best plan is (pays, (from, (none_beats, drifts))) =
        let new : Valued F = (plan, valued market levels outlook p_true price plan) in
        (
          pays,
          (
            of_from from,
            (
              (
                rw is (
                    subst-Drifts (length prices + 1) (suc (length prices)) _ _ (omega arith)
                      (drifts 1 _ (_, refl, new-AtLeastNearly o new))),
                NoneBeats-suc (length prices) prices best none_beats,
              ),
              λ n x h.
                  subst-Drifts (length prices + suc n) (suc (length prices) + n) x
                    (net_per_day best.1) (omega arith)
                    (drifts (suc n) x (DriftsFrom-better n x o new h)),
            ),
          ),
        )
      where
        of_from :
            (IsPlanOf prices best
              ⊎ (some (better o (plan, valued market levels outlook p_true price plan))
                  ≡ some best))
            → IsPlanOf (price ∷ prices) best ⊎ (o ≡ some best)
        of_from (inl (n, (at, there, planned_at))) = inl (suc n, (at, there, planned_at))
        of_from (inr same) =
            let new : Valued F = (plan, valued market levels outlook p_true price plan) in
            let kept : better o new ≡ best = some-injective (better o new) best same in
            elim (better-cases o new) [
              | inl newer ↦
                  inl
                    (0, (price, refl, subst (λ v. IsPlanAt price v) (sym newer ∙ kept) (is, refl)))
              | inr older ↦ inr (older ∙ same)
            ]

    Chosen-skipped :
        (price : F) (prices : List F) (o : Option (Valued F)) (best : Valued F) (why : String)
        → plan_of price ≡ skipped why
        → Chosen best prices o
        → Chosen best (price ∷ prices) o
    Chosen-skipped price prices o best why is (pays, (from, (none_beats, drifts))) = (
      pays,
      (
        of_from from,
        (
          (rw is tt, NoneBeats-suc (length prices) prices best none_beats),
          λ n x h.
              subst-Drifts (suc (length prices + n)) (suc (length prices) + n) x
                (net_per_day best.1) (omega arith)
                (Drifts-suc (length prices + n) x (net_per_day best.1) (drifts n x h)),
        ),
      ),
    )
      where
        of_from :
            (IsPlanOf prices best ⊎ (o ≡ some best))
            → IsPlanOf (price ∷ prices) best ⊎ (o ≡ some best)
        of_from (inl (n, (at, there, planned_at))) = inl (suc n, (at, there, planned_at))
        of_from (inr same) = inr same

    decided-Chosen :
        (o : Option (Valued F)) (reason : String) (best : Valued F)
        → decided o reason ≡ planned best
        → Chosen best [] o
    decided-Chosen none reason best e = absurd (cc e)
    decided-Chosen (some b) reason best e = elim (Bool-cases (net_per_day b.1 ≤? decimal 0 0)) [
      | inl loses ↦ absurd (cc (rw loses at e))
      | inr pays ↦
          let same : b ≡ best = planned_injective b best (rw pays at e) in
          subst (λ x. Chosen x [] (some b)) same
            (
              pays,
              (inr refl, (tt, λ n y h. subst-Drifts n (0 + n) y (net_per_day b.1) (omega arith) h)),
            )
    ]

    of_plan :
        (price : F) (prices : List F) (o : Option (Valued F)) (reason : String) (best : Valued F)
        (r : Plan (QuotePlan F))
        → plan_at fuel market levels config price outlook.years_left ≡ r
        → ((o' : Option (Valued F)) (reason' : String)
            → best_plan fuel market levels config outlook p_true prices o' reason' ≡ planned best
            → Chosen best prices o')
        → (elim r [
          | planned plan ↦
              best_plan fuel market levels config outlook p_true prices
                (some (better o (plan, valued market levels outlook p_true price plan)))
                reason
          | skipped why ↦ best_plan fuel market levels config outlook p_true prices o why
          | raised e ↦ raised e
          | unfinished ↦ unfinished
        ])
          ≡ planned best
        → Chosen best (price ∷ prices) o
    of_plan price prices o reason best (planned plan) is further e =
        Chosen-planned price prices o best plan is (
          further (some (better o (plan, valued market levels outlook p_true price plan))) reason e)
    of_plan price prices o reason best (skipped why) is further e =
        Chosen-skipped price prices o best why is (further o why e)
    of_plan price prices o reason best (raised bad) is further e = absurd (cc e)
    of_plan price prices o reason best unfinished is further e = absurd (cc e)

    best_plan-Chosen :
        (prices : List F) (o : Option (Valued F)) (reason : String) (best : Valued F)
        → best_plan fuel market levels config outlook p_true prices o reason ≡ planned best
        → Chosen best prices o
    unfolding best_plan
    best_plan-Chosen [] o reason best e = decided-Chosen o reason best e
    best_plan-Chosen (price ∷ prices) o reason best e =
        of_plan price prices o reason best
          (plan_at fuel market levels config price outlook.years_left) refl
          (λ o' reason' e'. best_plan-Chosen prices o' reason' best e') e

    -- A plan that plan_quotes gives nets more than nothing a day; it is what plan_at gives at one of
    -- the prices of fav_bid_candidates, valued at that price; and no plan of those prices beats it:
    -- from what each nets a day, one step for each price at most leads to what the plan nets, and no
    -- step falls by more than the loop's tolerance of 1e-12.
    pub plan_quotes-IsBest :
        (best : Valued F)
        → plan_quotes fuel market levels config outlook p_true ≡ planned best
        → ((net_per_day best.1 ≤? decimal 0 0) ≡ false)
          × ((prices : List F) × (fav_bid_candidates fuel levels market.v market.tick
                  market.min_size config.max_lead none
                ≡ some prices)
              × IsPlanOf prices best
              × NoneBeats (length prices) prices best)
    unfolding plan_quotes
    plan_quotes-IsBest best e =
        elim (Option-cases (
          fav_bid_candidates fuel levels market.v market.tick market.min_size config.max_lead
            none)) [
              | inl stuck ↦ absurd (cc (rw stuck at e))
              | inr (prices, found) ↦
                  of_chosen prices found
                    (best_plan-Chosen prices none "favorite bid outside band" best (rw found at e))
            ]
      where
        of_chosen :
            (prices : List F)
            → fav_bid_candidates fuel levels market.v market.tick market.min_size config.max_lead
                none
              ≡ some prices
            → Chosen best prices none
            → ((net_per_day best.1 ≤? decimal 0 0) ≡ false)
              × ((prices : List F) × (fav_bid_candidates fuel levels market.v market.tick
                      market.min_size config.max_lead none
                    ≡ some prices)
                  × IsPlanOf prices best
                  × NoneBeats (length prices) prices best)
        of_chosen prices found (pays, (inl from, (none_beats, _))) =
            (pays, (prices, found, from, none_beats))
        of_chosen prices found (pays, (inr never, (none_beats, _))) = absurd (cc never)
