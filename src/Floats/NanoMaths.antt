-- ===== src/Floats/NanoMaths.antt =====
-- The module math on the examples' billionths. Powers and logarithms are rough: a power is its
-- base to the first order, and the rest are 0.
use Prim.Native.Nat.{◌/◌}
use polymarket_tools.Prelude.{ℕ, ◌+◌, ◌*◌, ◌-◌, ◌==◌, if◌then◌else◌}
use polymarket_tools.Floats.Maths.{Maths}
use polymarket_tools.Floats.Nano.{ℤ, pos, negsuc, nano}

abbrev billion : ℕ
billion = 1000000000

abbrev nano_ceil : ℤ → ℤ
nano_ceil (pos n) = pos ((n + (billion - 1)) / billion * billion)
nano_ceil (negsuc n) = nano.floor (negsuc n)

abbrev nano_nearest : ℤ → ℕ
nano_nearest (pos n) = (n + billion / 2) / billion
nano_nearest (negsuc n) = 0

-- The number of decimals of a power of ten under 1.
abbrev decimals_of : ℤ → ℕ
decimals_of (pos n) =
    if n == 100000000
    then 1
    else if n == 10000000
    then 2
    else if n == 1000000
    then 3
    else if n == 100000
    then 4
    else 0
decimals_of (negsuc n) = 0

instance abbrev pub nano_maths : Maths ℤ
nano_maths = record {
  ceil = nano_ceil;
  nearest = nano_nearest;
  negate = λ x. nano.sub (pos 0) x;
  power = λ a b. nano.add (pos 1000000000) (nano.mul (nano.sub a (pos 1000000000)) b);
  log = λ x. pos 0;
  log10 = λ x. nano.sub (pos 0) (nano.decimal (decimals_of x) 0);
  log1p = λ x. x;
  exp = λ x. pos 1000000000;
  expm1 = λ x. x;
  infinity = pos 1000000000000000000;
}
