-- ===== src/Floats/Maths.antt =====
-- What the farm's code uses of Python's module math, and of powers of floats.
use polymarket_tools.Prelude.{ℕ}

pub record Maths (F : Type 0) : Type 0 where
  -- math.ceil(x), as a float, and max(0, round(x))
  pub ceil : F → F
  pub nearest : F → ℕ
  -- -x and a ** b
  pub negate : F → F
  pub power : F → F → F
  pub log : F → F
  pub log10 : F → F
  pub log1p : F → F
  pub exp : F → F
  pub expm1 : F → F
  -- math.inf
  pub infinity : F
