-- ===== src/Restore/Keys.antt =====
-- tools/restore.py: the keys of `plan`'s Counter, and its decrement.
use polymarket_tools.Prelude.{
  ◌+◌, Bool, true, false, ◌≡◌, refl, arith, inl, inr, List, [], ◌∷◌, any, count_if, Bool-cases,
  if◌then◌else◌, eq_iff,
}
use polymarket_tools.Floats.{Floats}
use polymarket_tools.Floats.Nano.{nano}
use polymarket_tools.Polymarket.Orders.{same_side, Side}
use polymarket_tools.Restore.{Key, same_key, remove_one}

-- == on floats, for numbers other than NaN.
pub record EqLaws {F : Type 0} (fl : Floats F) : Type 0 where
  pub eq_refl : (a : F) → fl.eq a a ≡ true
  pub eq_swap : (a b : F) → fl.eq a b ≡ true → fl.eq b a ≡ true
  pub eq_trans : (a b c : F) → fl.eq a b ≡ true → fl.eq b c ≡ true → fl.eq a c ≡ true

pub nano-EqLaws : EqLaws nano
nano-EqLaws = record {
  eq_refl = λ a. ground arith;
  eq_swap = λ a b h. ground arith;
  eq_trans = λ a b c h k. ground arith;
}

Bool-eq : (a b : Bool) → (a ≡ true → b ≡ true) → (b ≡ true → a ≡ true) → a ≡ b
Bool-eq true b f g = ground (arith, f refl)
Bool-eq false true f g = g refl
Bool-eq false false f g = refl

module _ {F : Type 0} ⦃fl : Floats F⦄ (laws : EqLaws fl) where
  pub same_key_refl : (k : Key F) → same_key k k ≡ true
  unfolding same_key
  same_key_refl k = ground (
    arith,
    eq_iff k.token_id k.token_id,
    laws.eq_refl k.price,
    laws.eq_refl k.remaining,
    same_side-refl k.side,
  )
    where
      same_side-refl : (s : Side) → same_side s s ≡ true
      same_side-refl Side.buy = refl
      same_side-refl Side.sell = refl

  same_key_trans : (a b c : Key F) → same_key a b ≡ true → same_key b c ≡ true → same_key a c ≡ true
  unfolding same_key
  same_key_trans a b c ab bc = ground (
    arith,
    eq_iff a.token_id b.token_id,
    eq_iff b.token_id c.token_id,
    eq_iff a.token_id c.token_id,
    laws.eq_trans a.price b.price c.price,
    laws.eq_trans a.remaining b.remaining c.remaining,
  )

  same_key-swap : (a b : Key F) → same_key a b ≡ true → same_key b a ≡ true
  unfolding same_key
  same_key-swap a b ab = ground (
    arith,
    eq_iff a.token_id b.token_id,
    eq_iff b.token_id a.token_id,
    laws.eq_swap a.price b.price,
    laws.eq_swap a.remaining b.remaining,
  )

  -- Two keys that are one are the same to every other key.
  pub same_key-cong : (k a b : Key F) → same_key a b ≡ true → same_key k a ≡ same_key k b
  same_key-cong k a b ab =
      Bool-eq (same_key k a) (same_key k b) (λ ka. same_key_trans k a b ka ab)
        (λ kb. same_key_trans k b a kb (same_key-swap a b ab))

  -- A decrement takes one of its key from the count, and nothing from another key's.
  pub count_if-remove_one :
      (k j : Key F) (copies : List (Key F))
      → any (same_key j) copies ≡ true
      → count_if (same_key k) (remove_one j copies) + (if same_key k j then 1 else 0)
        ≡ count_if (same_key k) copies
  unfolding remove_one
  count_if-remove_one k j [] some_copy = absurd (cc some_copy)
  count_if-remove_one k j (c ∷ copies) some_copy = elim (Bool-cases (same_key j c)) [
    | inl e ↦ rw e (rw (same_key-cong k j c e) (omega arith))
    | inr e ↦ rw e (omega (arith, count_if-remove_one k j copies (ground arith)))
  ]

  pub count_if-no_copy :
      (k j : Key F) (copies : List (Key F))
      → any (same_key j) copies ≡ false
      → same_key k j ≡ true
      → count_if (same_key k) copies ≡ 0
  count_if-no_copy k j [] no_copy e = refl
  count_if-no_copy k j (c ∷ copies) no_copy e =
      ground (arith, same_key_trans j k c (same_key-swap k j e), count_if-no_copy k j copies)
