-- ===== src/Floats.antt =====
-- Python's floats, and the standard library's operations on them, as the code uses them. The
-- carrier and the operations are parameters of every definition that computes with prices, sizes
-- or seconds; `Order` states what some of the theorems rely on.
pub mod Order
pub mod Nano
pub mod Maths
pub mod NanoMaths
use polymarket_tools.Prelude.{ℕ, Bool, String, if◌then◌else◌}

pub record Floats (F : Type 0) : Type 0 where
  -- a < b, a <= b and a == b
  pub lt : F → F → Bool
  pub le : F → F → Bool
  pub eq : F → F → Bool
  pub add : F → F → F
  pub sub : F → F → F
  pub mul : F → F → F
  pub div : F → F → F
  pub absolute : F → F
  -- the literal m · 10^-e: decimal 985 3 is 0.985
  pub decimal : ℕ → ℕ → F
  -- round(x, n) and round(x)
  pub round_to : F → ℕ → F
  -- math.floor(x), as a float
  pub floor : F → F
  -- (a - b).total_seconds() of two datetimes, each in microseconds since the epoch
  pub elapsed : ℕ → ℕ → F
  -- timedelta(seconds=x) of an x that is not negative, in microseconds
  pub micros : F → ℕ
  -- f"{x:g}" and f"{x:.1f}"
  pub general : F → String
  pub fixed1 : F → String

-- The operations, of the one `Floats` in scope.
module _ {F : Type 0} ⦃fl : Floats F⦄ where
  infix 50 ◌<?◌ ◌≤?◌
  abbrev pub ◌<?◌ : F → F → Bool
  a <? b = fl.lt a b

  abbrev pub ◌≤?◌ : F → F → Bool
  a ≤? b = fl.le a b

  infixl 65 ◌⊕◌ ◌⊖◌
  infixl 70 ◌⊗◌ ◌⊘◌
  abbrev pub ◌⊕◌ : F → F → F
  a ⊕ b = fl.add a b

  abbrev pub ◌⊖◌ : F → F → F
  a ⊖ b = fl.sub a b

  abbrev pub ◌⊗◌ : F → F → F
  a ⊗ b = fl.mul a b

  abbrev pub ◌⊘◌ : F → F → F
  a ⊘ b = fl.div a b

  abbrev pub absolute : F → F
  absolute = fl.absolute

  abbrev pub decimal : ℕ → ℕ → F
  decimal = fl.decimal

  abbrev pub elapsed : ℕ → ℕ → F
  elapsed = fl.elapsed

  abbrev pub micros : F → ℕ
  micros = fl.micros

  abbrev pub general : F → String
  general = fl.general

  abbrev pub fixed1 : F → String
  fixed1 = fl.fixed1

  -- max(a, b) and min(a, b), which give a where the two compare as equal
  abbrev pub max : F → F → F
  max a b = if a <? b then b else a

  abbrev pub min : F → F → F
  min a b = if b <? a then b else a
