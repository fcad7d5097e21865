-- ===== src/Farmer/Fills/Baselines.antt =====
-- farm/reward_farmer.py: the baseline is the least that was ever held.
use polymarket_tools.Prelude.{
  ◌≡◌, true, none, some, List, [], ◌∷◌, All, All-imp, Bool-cases, inl, inr,
}
use polymarket_tools.Floats.{Floats, ◌≤?◌, ◌<?◌}
use polymarket_tools.Floats.Order.{OrderLaws}
use polymarket_tools.Farmer.Fills.{Position, Baseline, ratchet_baseline, least}

module _ {F : Type 0} ⦃fl : Floats F⦄ where
  -- The baseline after these holdings were seen, the newest first.
  unfoldable pub after_holdings : Position F → List (Position F) → Baseline F
  after_holdings held [] = ratchet_baseline none held
  after_holdings held (before ∷ earlier) =
      ratchet_baseline (some (after_holdings before earlier)) held

  -- No more than was held.
  abbrev pub IsCovered : Baseline F → Position F → Type 0
  IsCovered b held = ((b.fav ≤? held.fav_shares) ≡ true) × ((b.long ≤? held.long_shares) ≡ true)

  module _ (laws : OrderLaws fl) where
    pub least-le : (a b : F) → ((least a b ≤? a) ≡ true) × ((least a b ≤? b) ≡ true)
    least-le a b = elim (Bool-cases (b <? a)) [
      | inl less ↦ rw less (laws.le_of_lt b a less, laws.le_refl b)
      | inr not_less ↦ rw not_less (laws.le_refl a, laws.le_of_not_lt b a not_less)
    ]

    ratchet_baseline-IsCovered :
        (b : Baseline F) (held : Position F)
        → IsCovered (ratchet_baseline (some b) held) held
          × ((p : Position F) → IsCovered b p → IsCovered (ratchet_baseline (some b) held) p)
    unfolding ratchet_baseline
    ratchet_baseline-IsCovered b held =
        let (fav_old, fav_new) = least-le b.fav held.fav_shares in
        let (long_old, long_new) = least-le b.long held.long_shares in
        (
          (fav_new, long_new),
          λ p (fav, long). (
            laws.le_trans (least b.fav held.fav_shares) b.fav p.fav_shares fav_old fav,
            laws.le_trans (least b.long held.long_shares) b.long p.long_shares long_old long,
          ),
        )

    -- Where floats are in a total order, the shares that the farmer leaves alone are at every time no more than any holding seen since
    -- it took the market: it reserves none that were sold by hand.
    pub after_holdings-IsCovered :
        (held : Position F) (earlier : List (Position F))
        → All (IsCovered (after_holdings held earlier)) (held ∷ earlier)
    unfolding after_holdings ratchet_baseline
    after_holdings-IsCovered held [] =
        ((laws.le_refl held.fav_shares, laws.le_refl held.long_shares), tt)
    after_holdings-IsCovered held (before ∷ earlier) =
        let b = after_holdings before earlier in
        let (covered, keeps) = ratchet_baseline-IsCovered b held in
        (
          covered,
          All-imp (IsCovered b) (IsCovered (ratchet_baseline (some b) held)) keeps
              (before ∷ earlier) (after_holdings-IsCovered before earlier),
        )
