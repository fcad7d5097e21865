-- ===== src/Screener/Zones.antt =====
-- farm/reward_screener.py: where a longshot bid may rest, by the return it offers.
use polymarket_tools.Prelude.{Bool, false, ◌&&◌, Option, none, some, if◌then◌else◌}
use polymarket_tools.Floats.{Floats, ◌<?◌, ◌≤?◌, ◌⊕◌, ◌⊖◌, ◌⊗◌, ◌⊘◌, decimal, min}
use polymarket_tools.Floats.Maths.{Maths}
use polymarket_tools.Screener.Scores.{score}

pub record Zones (F : Type 0) : Type 0 where
  pub years_left : F
  pub steady_mid : Option F

module _ {F : Type 0} ⦃fl : Floats F⦄ where
  -- FREE_RETURN, MAX_RETURN and FREE_MAX_COST
  abbrev pub free_return : F
  free_return = decimal 5 2

  abbrev pub max_return : F
  max_return = decimal 20 2

  abbrev pub free_max_cost : F
  free_max_cost = decimal 50 2

  unfoldable pub free_zone_open : F → F → Bool
  free_zone_open long_shares min_size = long_shares <? min_size

module _ {F : Type 0} ⦃fl : Floats F⦄ ⦃ma : Maths F⦄ where
  unfoldable pub fill_return : F → F → F
  fill_return price years_left =
      let growth = ma.negate (ma.log1p (ma.negate price)) ⊘ years_left in
      if years_left ≤? decimal 0 0
      then ma.infinity
      else if growth <? decimal 700 0
      then ma.expm1 growth
      else ma.infinity

  unfoldable pub price_offering : F → F → F
  price_offering annual_return years_left =
      decimal 1 0 ⊖ ma.power (decimal 1 0 ⊕ annual_return) (ma.negate years_left)

  unfoldable pub over_max_return : F → F → Bool
  unfolding price_offering
  over_max_return price years_left = price_offering max_return years_left <? price

  unfoldable pub under_free_return : F → F → Bool
  unfolding price_offering
  under_free_return price years_left = price <? price_offering free_return years_left

  -- The test at the midpoint that held.
  steady_enough : F → F → F → Option F → Bool
  unfolding score
  steady_enough price share_score v none = false
  steady_enough price share_score v (some steady_mid) =
      ((price ⊘ free_max_cost) ⊖ decimal 1 9)
      ≤? min share_score (score v ((decimal 1 0 ⊖ steady_mid) ⊖ price))

  unfoldable pub sized_without_budget : F → F → F → Zones F → Bool
  unfolding under_free_return steady_enough
  sized_without_budget price share_score v zones =
      under_free_return price zones.years_left && steady_enough price share_score v zones.steady_mid

  unfoldable pub budget_cost : F → F → F → F → Zones F → F
  unfolding sized_without_budget
  budget_cost price size share_score v zones =
      if sized_without_budget price share_score v zones then decimal 0 0 else price ⊗ size
