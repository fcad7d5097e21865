-- ===== src/Prelude/Tables.antt =====
-- SQL tables as lists of rows in the order of their ids: SELECT, UPDATE, and their laws.
use polymarket_tools.Prelude.Tests.{Bool-cases, if◌then◌else◌}
use polymarket_tools.Prelude.Lists.{any, find_if, keep_if, All, count_if, length}
use Prim.Native.Nat.{ℕ, zero, suc, ◌≤◌}
use mathlib.Core.Path.{◌≡◌, refl, subst}
use mathlib.Core.Bool.{Bool, true, false, not, ◌&&◌, ◌||◌}
use mathlib.Core.Option.{Option, none, some, some-injective}
use mathlib.Core.Logic.{inl, inr}
use mathlib.Core.List.{List, [], ◌∷◌, ◌++◌}
use native.Mathlib.Omega.{arith}

module _ {ℓ} {A : Type ℓ} where
  abbrev pub get_elem? : List A → ℕ → Option A
  get_elem? [] i = none
  get_elem? (x ∷ xs) zero = some x
  get_elem? (x ∷ xs) (suc i) = get_elem? xs i

  abbrev pub every : (A → Bool) → List A → Bool
  every p [] = true
  every p (x ∷ xs) = p x && every p xs

  -- UPDATE … SET f WHERE p
  abbrev pub update : (A → Bool) → (A → A) → List A → List A
  update p f [] = []
  update p f (r ∷ rs) = (if p r then f r else r) ∷ update p f rs

  -- UPDATE on a table with CHECK constraints, which are asked of each row that changes: none where
  -- one fails, and then nothing is written.
  abbrev pub checked_update : (A → Bool) → (A → Bool) → (A → A) → List A → Option (List A)
  checked_update ok p f rs =
      if every (λ r. not (p r) || ok (f r)) rs then some (update p f rs) else none

  -- A row that the WHERE clause leaves out stays where it is.
  pub get_elem?-update :
      (p : A → Bool) (f : A → A) (rs : List A) (n : ℕ) (r : A)
      → get_elem? rs n ≡ some r
      → p r ≡ false
      → get_elem? (update p f rs) n ≡ some r
  get_elem?-update p f [] n r h e = h
  get_elem?-update p f (x ∷ rs) zero r h e = ground arith
  get_elem?-update p f (x ∷ rs) (suc n) r h e = get_elem?-update p f rs n r h e

  pub get_elem?-append :
      (rs ss : List A) (n : ℕ) (r : A) → get_elem? rs n ≡ some r → get_elem? (rs ++ ss) n ≡ some r
  get_elem?-append [] ss n r h = cc
  get_elem?-append (x ∷ rs) ss zero r h = h
  get_elem?-append (x ∷ rs) ss (suc n) r h = get_elem?-append rs ss n r h

  pub length-update : (p : A → Bool) (f : A → A) (rs : List A) → length (update p f rs) ≡ length rs
  length-update p f [] = refl
  length-update p f (r ∷ rs) = omega (arith, length-update p f rs)

  pub find_if-eq-some : (q : A → Bool) (rs : List A) (r : A) → find_if q rs ≡ some r → q r ≡ true
  find_if-eq-some q [] r h = cc
  find_if-eq-some q (x ∷ rs) r h = ground (arith, find_if-eq-some q rs r)

  pub count_if-of_not_any :
      (p q : A → Bool) (rs : List A)
      → any p rs ≡ false
      → ((r : A) → p r ≡ false → q r ≡ false)
      → count_if q rs ≡ 0
  count_if-of_not_any p q [] h imp = refl
  count_if-of_not_any p q (r ∷ rs) h imp = ground (arith, imp r, count_if-of_not_any p q rs)

  -- An update adds no row to a count whose rows it only takes from.
  pub count_if-update :
      (q p : A → Bool) (f : A → A) (rs : List A)
      → All (λ r. p r ≡ true → q (f r) ≡ true → q r ≡ true) rs
      → count_if q (update p f rs) ≤ count_if q rs
  count_if-update q p f [] keep = omega arith
  count_if-update q p f (r ∷ rs) keep = ground (arith, keep.0, count_if-update q p f rs keep.1)

pub All-imp {ℓ κ μ} :
    {A : Type ℓ} (P : A → Type κ) (Q : A → Type μ)
    → ((r : A) → P r → Q r)
    → (rs : List A) → All P rs
    → All Q rs
All-imp P Q imp [] h = tt
All-imp P Q imp (r ∷ rs) h = (imp r h.0, All-imp P Q imp rs h.1)

module _ {ℓ κ} {A : Type ℓ} (P : A → Type κ) where
  pub All-of : ((r : A) → P r) → (rs : List A) → All P rs
  All-of h [] = tt
  All-of h (r ∷ rs) = (h r, All-of h rs)

  pub All-get_elem? : (rs : List A) (n : ℕ) (r : A) → All P rs → get_elem? rs n ≡ some r → P r
  All-get_elem? [] n r h e = absurd (cc e)
  All-get_elem? (x ∷ rs) zero r h e = subst P (some-injective x r e) h.0
  All-get_elem? (x ∷ rs) (suc n) r h e = All-get_elem? rs n r h.1 e

  pub All-keep_if : (q : A → Bool) (rs : List A) → All P rs → All P (keep_if q rs)
  All-keep_if q [] h = tt
  All-keep_if q (r ∷ rs) h = elim (Bool-cases (q r)) [
    | inl e ↦ rw e (h.0, All-keep_if q rs h.1)
    | inr e ↦ rw e (All-keep_if q rs h.1)
  ]

  pub All-append : (rs ss : List A) → All P rs → All P ss → All P (rs ++ ss)
  All-append [] ss h k = k
  All-append (r ∷ rs) ss h k = (h.0, All-append rs ss h.1 k)

  All-step : (b : Bool) (r s : A) → P r → (b ≡ true → P s) → P (if b then s else r)
  All-step true r s h k = k refl
  All-step false r s h k = h

  pub All-update :
      (p : A → Bool) (f : A → A) (rs : List A)
      → All (λ r. p r ≡ true → P r → P (f r)) rs
      → All P rs
      → All P (update p f rs)
  All-update p f [] keep h = tt
  All-update p f (r ∷ rs) keep h =
      (All-step (p r) r (f r) h.0 (λ e. keep.0 e h.0), All-update p f rs keep.1 h.1)

pub All-every {ℓ} :
    {A : Type ℓ} (q : A → Bool) (rs : List A) → every q rs ≡ true → All (λ r. q r ≡ true) rs
All-every q [] h = tt
All-every q (r ∷ rs) h = (ground arith, All-every q rs (ground arith))
