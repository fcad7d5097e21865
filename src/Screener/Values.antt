-- ===== src/Screener/Values.antt =====
-- farm/reward_screener.py and farm/fill_cost.py: what a configuration of quotes earns a day, net
-- of what its fills cost.
use polymarket_tools.Prelude.{ℕ, Bool, Option, none, some, List, [], ◌∷◌, if◌then◌else◌}
use polymarket_tools.Floats.{Floats, ◌<?◌, ◌≤?◌, ◌⊕◌, ◌⊖◌, ◌⊗◌, ◌⊘◌, decimal, elapsed, max, min}
use polymarket_tools.Floats.Maths.{Maths}
use polymarket_tools.Screener.Scores.{Levels, score, q_min}

-- Events a day that sweep past a bid at each of DISTANCES: one rate for each of them.
pub record FillCurve (F : Type 0) : Type 0 where
  pub rates : List F
  pub from_history : Bool
  pub exit_per_day : F

pub record Outlook (F : Type 0) : Type 0 where
  pub rate_per_day : F
  pub years_left : F
  pub fills : FillCurve F
  pub hurdle_rate : F

pub record QuoteValue (F : Type 0) : Type 0 where
  pub price : Option F
  pub size : F
  pub capital_usd : F
  pub reward_per_day : F
  pub fills_per_day : F
  pub loss_per_share : F

module _ {F : Type 0} ⦃fl : Floats F⦄ where
  -- DISTANCES
  abbrev distances : List F
  distances =
      decimal 0 0
      ∷ decimal 25 4
      ∷ decimal 5 3
      ∷ decimal 75 4
      ∷ decimal 1 2
      ∷ decimal 15 3
      ∷ decimal 2 2
      ∷ decimal 3 2
      ∷ decimal 4 2
      ∷ decimal 5 2
      ∷ decimal 75 3
      ∷ decimal 10 2
      ∷ []

  abbrev zip : List F → List F → List (F × F)
  zip (x ∷ xs) (y ∷ ys) = (x, y) ∷ zip xs ys
  zip _ _ = []

  abbrev between : F × F → F × F → F → F
  between (lo, rate) (hi, next) distance = rate ⊕ (((distance ⊖ lo) ⊘ (hi ⊖ lo)) ⊗ (next ⊖ rate))

  -- The rate at a distance that is at least the first point's.
  abbrev past : F × F → List (F × F) → F → F
  past point [] distance = point.1
  past point (next ∷ points) distance =
      let rest = past next points distance in
      if distance <? next.0 then between point next distance else rest

  abbrev rate_at : List (F × F) → F → F
  rate_at [] distance = decimal 0 0
  rate_at (point ∷ points) distance =
      if distance <? point.0 then point.1 else past point points distance

  -- FillCurve.per_day
  unfoldable pub per_day : FillCurve F → F → F
  per_day curve distance = rate_at (zip distances curve.rates) distance

  -- DAY_S, YEAR_DAYS and SOLD_DAYS
  abbrev day_s : F
  day_s = decimal 86400 0

  abbrev year_days : F
  year_days = decimal 36525 2

  abbrev sold_days : F
  sold_days = decimal 30 0

  unfoldable pub years_until : ℕ → ℕ → F
  years_until end_date now = max (decimal 0 0) ((elapsed end_date now ⊘ day_s) ⊘ year_days)

  -- QuoteValue.fill_cost_per_day and net_per_day
  abbrev pub fill_cost_per_day : QuoteValue F → F
  fill_cost_per_day value = value.fills_per_day ⊗ max value.loss_per_share (decimal 0 0)

  abbrev pub net_per_day : QuoteValue F → F
  net_per_day value = value.reward_per_day ⊖ fill_cost_per_day value

  -- What the levels of at least min_size score, each at its distance, added up from acc.
  abbrev scored : F → F → (F → F) → F → List (F × F) → F
  scored v min_size distance acc [] = acc
  scored v min_size distance acc ((p, s) ∷ side) =
      scored v min_size distance (if min_size ≤? s then acc ⊕ (score v (distance p) ⊗ s) else acc)
        side

  unfoldable pub competing_score : Levels F → F → F → F → F
  unfolding score q_min
  competing_score levels mid v min_size =
      q_min (scored v min_size (λ p. mid ⊖ p) (decimal 0 0) levels.bids)
        (scored v min_size (λ p. p ⊖ mid) (decimal 0 0) levels.asks) mid

  abbrev shares_over : F → F → List (F × F) → F
  shares_over price acc [] = acc
  shares_over price acc ((p, s) ∷ bids) =
      shares_over price (if (price ⊕ decimal 1 9) <? p then acc ⊕ s else acc) bids

  unfoldable pub shares_ahead : Levels F → F → F
  shares_ahead levels price = shares_over price (decimal 0 0) levels.bids

module _ {F : Type 0} ⦃fl : Floats F⦄ ⦃ma : Maths F⦄ where
  unfoldable pub share_value : F → F → F → F → F → F
  share_value p_true sale_price per_day years hurdle_rate =
      let lam = per_day ⊗ year_days in
      let k = lam ⊕ ma.log1p hurdle_rate in
      let sold =
        if fl.eq k (decimal 0 0)
        then decimal 0 0
        else (lam ⊘ k) ⊗ ma.negate (ma.expm1 (ma.negate k ⊗ years)) in
      (sale_price ⊗ sold) ⊕ (p_true ⊗ ma.exp (ma.negate k ⊗ years))

  -- SOLD and MIN_SOLD
  abbrev sold_fraction : F → F
  sold_fraction shares =
      if shares ≤? decimal 100 0
      then decimal 674 3
      else max (decimal 5 2) (
          decimal 674 3
          ⊕ (((decimal 419 3 ⊖ decimal 674 3) ⊗ ma.log (shares ⊘ decimal 100 0))
              ⊘ ma.log (decimal 1000 0 ⊘ decimal 100 0)))

  unfoldable pub sales_per_day : F → F
  sales_per_day shares = ma.negate (ma.log1p (ma.negate (sold_fraction shares))) ⊘ sold_days

  abbrev credited : F → Option F → F
  credited p_true none = p_true
  credited p_true (some sale_price) = min sale_price p_true

  -- DEPTH_FREE_SHARES
  abbrev depth_free_shares : F
  depth_free_shares = decimal 20000 0

  -- value_quote: the bid's price and size, the shares held, and the ask a fill would rest
  abbrev loses : F → Outlook F → F → Option F → F × F → F
  loses p_true outlook held sale_price (price, size) =
      price
      ⊖ share_value p_true (credited p_true sale_price) (sales_per_day (held ⊕ size))
          outlook.years_left outlook.hurdle_rate

  abbrev value_of_bid :
      Levels F → F → Option (F × F) → F → F → F → Outlook F → F → Option F → QuoteValue F
  value_of_bid levels mid none reward capital_usd p_true outlook held sale_price = record {
    price = none;
    size = decimal 0 0;
    capital_usd = capital_usd;
    reward_per_day = reward;
    fills_per_day = decimal 0 0;
    loss_per_share = decimal 0 0;
  }
  value_of_bid levels mid (some (price, size)) reward capital_usd p_true outlook held sale_price =
      record {
        price = some price;
        size = size;
        capital_usd = capital_usd;
        reward_per_day = reward;
        fills_per_day =
            if depth_free_shares <? shares_ahead levels price
            then decimal 0 0
            else size ⊗ per_day outlook.fills (mid ⊖ price);
        loss_per_share = loses p_true outlook held sale_price (price, size);
      }

  unfoldable pub value_quote :
      Levels F → F → F → F → F → Option (F × F) → F → F → Outlook F → F → Option F → QuoteValue F
  unfolding competing_score per_day shares_ahead share_value sales_per_day
  value_quote levels mid v min_size my_q bid capital_usd p_true outlook held sale_price =
      let comp_q = competing_score levels mid v min_size in
      let reward =
        if decimal 0 0 <? my_q
        then (outlook.rate_per_day ⊗ my_q) ⊘ (my_q ⊕ comp_q)
        else decimal 0 0 in
      value_of_bid levels mid bid reward capital_usd p_true outlook held sale_price
