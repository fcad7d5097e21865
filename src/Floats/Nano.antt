-- ===== src/Floats/Nano.antt =====
-- A concrete carrier for the examples: integers that count billionths. Addition, subtraction and
-- comparison are exact; a product or a quotient is cut to a billionth toward zero.
use Prim.Native.Nat.{◌/◌, ◌^◌}
use polymarket_tools.Prelude.{ℕ, suc, ◌+◌, ◌-◌, ◌*◌, Bool, ◌&&◌, arith, ltb, leb, if◌then◌else◌}
use polymarket_tools.Floats.{Floats}
use polymarket_tools.Floats.Order.{OrderLaws}

-- `negsuc n` is -(n + 1) billionths.
pub data ℤ : Type 0 where
  pos : ℕ → ℤ
  negsuc : ℕ → ℤ

abbrev pub pos_part : ℤ → ℕ
pos_part (pos n) = n
pos_part (negsuc n) = 0

abbrev pub neg_part : ℤ → ℕ
neg_part (pos n) = 0
neg_part (negsuc n) = suc n

abbrev sub_ℕ : ℕ → ℕ → ℤ
sub_ℕ a b = if leb b a then pos (a - b) else negsuc (b - a - 1)

abbrev magnitude : ℤ → ℕ
magnitude z = pos_part z + neg_part z

-- The sign of a · b with the magnitude n.
abbrev signed : ℤ → ℤ → ℕ → ℤ
signed (pos _) (pos _) n = pos n
signed (negsuc _) (negsuc _) n = pos n
signed (pos _) (negsuc _) n = sub_ℕ 0 n
signed (negsuc _) (pos _) n = sub_ℕ 0 n

abbrev billion : ℕ
billion = 1000000000

abbrev cut : ℤ → ℕ → ℤ
cut z unit = signed z (pos 1) (magnitude z / unit * unit)

abbrev pub nano_lt : ℤ → ℤ → Bool
nano_lt a b = ltb (pos_part a + neg_part b) (pos_part b + neg_part a)

abbrev pub nano_le : ℤ → ℤ → Bool
nano_le a b = leb (pos_part a + neg_part b) (pos_part b + neg_part a)

instance abbrev pub nano : Floats ℤ
nano = record {
  lt = nano_lt;
  le = nano_le;
  eq = λ a b. nano_le a b && nano_le b a;
  add = λ a b. sub_ℕ (pos_part a + pos_part b) (neg_part a + neg_part b);
  sub = λ a b. sub_ℕ (pos_part a + neg_part b) (neg_part a + pos_part b);
  mul = λ a b. signed a b (magnitude a * magnitude b / billion);
  div = λ a b. signed a b (magnitude a * billion / magnitude b);
  absolute = λ a. pos (magnitude a);
  decimal = λ m e. pos (m * 10 ^ (9 - e));
  round_to = λ a n. cut a (10 ^ (9 - n));
  floor = λ a. cut a billion;
  elapsed = λ a b. sub_ℕ (a * 1000) (b * 1000);
  micros = λ a. pos_part a / 1000;
  general = λ a. "number";
  fixed1 = λ a. "number";
}

pub nano-OrderLaws : OrderLaws nano
nano-OrderLaws = record {
  le_refl = λ a. ground arith;
  le_trans = λ a b c h k. ground arith;
  le_of_lt = λ a b h. ground arith;
  le_of_not_lt = λ a b h. ground arith;
  not_lt_of_le = λ a b h. ground arith;
}
