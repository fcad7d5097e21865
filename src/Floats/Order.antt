-- ===== src/Floats/Order.antt =====
-- What the theorems rely on of float comparison: for numbers other than NaN it is a total order.
use polymarket_tools.Prelude.{true, false, ◌≡◌}
use polymarket_tools.Floats.{Floats}

pub record OrderLaws {F : Type 0} (fl : Floats F) : Type 0 where
  pub le_refl : (a : F) → fl.le a a ≡ true
  pub le_trans : (a b c : F) → fl.le a b ≡ true → fl.le b c ≡ true → fl.le a c ≡ true
  pub le_of_lt : (a b : F) → fl.lt a b ≡ true → fl.le a b ≡ true
  pub le_of_not_lt : (a b : F) → fl.lt a b ≡ false → fl.le b a ≡ true
  pub not_lt_of_le : (a b : F) → fl.le a b ≡ true → fl.lt b a ≡ false
