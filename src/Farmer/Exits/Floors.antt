-- ===== src/Farmer/Exits/Floors.antt =====
-- farm/reward_farmer.py: the exits stay over what the shares cost.
use polymarket_tools.Prelude.{
  true, false, ◌≡◌, refl, ◌⊎◌, inl, inr, Option, none, some, if◌then◌else◌, Bool-cases,
}
use polymarket_tools.Floats.{Floats, ◌<?◌, ◌≤?◌, max, min}
use polymarket_tools.Floats.Maths.{Maths}
use polymarket_tools.Floats.Order.{OrderLaws}
use polymarket_tools.Screener.Scores.{Levels}
use polymarket_tools.Screener.Candidates.{fav_ceiling}
use polymarket_tools.Farmer.Fills.{Position}
use polymarket_tools.Farmer.Lifecycle.{FarmConfig}
use polymarket_tools.Farmer.Pricing.{FarmMarket, exit_floor, long_exit_floor, mirror}
use polymarket_tools.Farmer.Exits.{
  top_price, mirrored_ask, plan_long_ask_price, uncapped_ask, highest_ask, crosses,
  plan_fav_ask_price,
}

abbrev pub OptAll : {A : Type 0} → (A → Type 0) → Option A → Type 0
OptAll P none = Unit
OptAll P (some x) = P x

module _ {F : Type 0} ⦃fl : Floats F⦄ ⦃ma : Maths F⦄ where
  module _ (laws : OrderLaws fl) where
    le_max_right : (a b : F) → (b ≤? max a b) ≡ true
    le_max_right a b = elim (Bool-cases (a <? b)) [
      | inl less ↦ rw less (laws.le_refl b)
      | inr not_less ↦ rw not_less (laws.le_of_not_lt a b not_less)
    ]

    le_max_left : (a b c : F) → (c ≤? a) ≡ true → (c ≤? max a b) ≡ true
    le_max_left a b c h = elim (Bool-cases (a <? b)) [
      | inl less ↦ rw less (laws.le_trans c a b h (laws.le_of_lt a b less))
      | inr not_less ↦ rw not_less h
    ]

    mirrored_ask-floor :
        (o : Option F) (fm : FarmMarket F) (position : Position F) (cfg : FarmConfig F)
        → OptAll
            (λ p. (long_exit_floor position fm cfg ≤? p) ≡ true)
            (mirrored_ask o fm position cfg)
    mirrored_ask-floor none fm position cfg = tt
    mirrored_ask-floor (some fav_price) fm position cfg =
        le_max_right (mirror fav_price fm.tick) (long_exit_floor position fm cfg)

    pub plan_long_ask_price-floor :
        (fm : FarmMarket F) (levels : Levels F) (fav_price : Option F) (position : Position F)
        (cfg : FarmConfig F)
        → OptAll
            (λ p. (long_exit_floor position fm cfg ≤? p) ≡ true)
            (plan_long_ask_price fm levels fav_price position cfg)
    unfolding plan_long_ask_price
    plan_long_ask_price-floor fm levels none position cfg =
        mirrored_ask-floor (fav_ceiling levels fm.tick fm.min_size cfg.max_lead) fm position cfg
    plan_long_ask_price-floor fm levels (some p) position cfg =
        mirrored_ask-floor (some p) fm position cfg

    uncapped_ask-floor :
        (fm : FarmMarket F) (book_mid : F) (position : Position F) (cfg : FarmConfig F)
        (fill_mid best_bid : Option F)
        → (exit_floor position fm cfg ≤? uncapped_ask fm book_mid position cfg fill_mid best_bid)
          ≡ true
    uncapped_ask-floor fm book_mid position cfg fill_mid none = le_max_right _ _
    uncapped_ask-floor fm book_mid position cfg fill_mid (some bid) =
        le_max_left _ _ (exit_floor position fm cfg) (le_max_right _ _)

    le_min_or : (a b c : F) → (c ≤? a) ≡ true → ((c ≤? min a b) ≡ true) ⊎ (min a b ≡ b)
    le_min_or a b c h = elim (Bool-cases (b <? a)) [
      | inl less ↦ inr (rw less refl)
      | inr not_less ↦ inl (rw not_less h)
    ]

    unless_crossing :
        (P : F → Type 0) (best_bid : Option F) (price : F)
        → P price
        → OptAll
            (λ p. P p × (crosses best_bid p ≡ false))
            (if crosses best_bid price then none else some price)
    unless_crossing P best_bid price h = elim (Bool-cases (crosses best_bid price)) [
      | inl hit ↦ rw hit tt
      | inr clear ↦ rw clear (h, clear)
    ]

    pub plan_fav_ask_price-floor :
        (fm : FarmMarket F) (levels : Levels F) (book_mid : F) (position : Position F)
        (cfg : FarmConfig F) (fill_mid : Option F)
        → OptAll
            (λ p.
              (((exit_floor position fm cfg ≤? p) ≡ true) ⊎ (p ≡ highest_ask fm))
              × (crosses (top_price levels.bids) p ≡ false))
            (plan_fav_ask_price fm levels book_mid position cfg fill_mid)
    unfolding plan_fav_ask_price
    plan_fav_ask_price-floor fm levels book_mid position cfg fill_mid =
        let best_bid = top_price levels.bids in
        let price = uncapped_ask fm book_mid position cfg fill_mid best_bid in
        unless_crossing (λ p. ((exit_floor position fm cfg ≤? p) ≡ true) ⊎ (p ≡ highest_ask fm))
          best_bid (min price (highest_ask fm))
          (le_min_or price (highest_ask fm) (exit_floor position fm cfg)
            (uncapped_ask-floor fm book_mid position cfg fill_mid best_bid))
