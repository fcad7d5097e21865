-- ===== src/Prelude/Keys.antt =====
-- Tables with a primary key: no two rows have the same one.
use Prim.Native.Nat.{ℕ, suc, ◌<◌}
use mathlib.Core.Path.{◌≡◌, refl, ap, ◌∙◌}
use mathlib.Core.Logic.{inl, inr}
use mathlib.Core.Bool.{Bool, true, false}
use mathlib.Core.Option.{some}
use mathlib.Core.List.{List, [], ◌∷◌, ◌++◌}
use native.Mathlib.Omega.{arith}
use polymarket_tools.Prelude.Tests.{◌==◌, Bool-cases}
use polymarket_tools.Prelude.Lists.{All, keep_if, find_if}
use polymarket_tools.Prelude.Tables.{update, All-keep_if}

module _ {ℓ} {A : Type ℓ} (key : A → ℕ) where
  -- No row has this key.
  abbrev pub Fresh : ℕ → List A → Type 0
  Fresh k rs = All (λ r. (key r == k) ≡ false) rs

  abbrev pub Distinct : List A → Type 0
  Distinct [] = Unit
  Distinct (r ∷ rs) = Fresh (key r) rs × Distinct rs

  abbrev pub Below : ℕ → List A → Type 0
  Below n rs = All (λ r. key r < n) rs

  Fresh-append :
      (k : ℕ) (rs : List A) (r : A) → Fresh k rs → (key r == k) ≡ false → Fresh k (rs ++ r ∷ [])
  Fresh-append k [] r h e = (e, tt)
  Fresh-append k (x ∷ rs) r h e = (h.0, Fresh-append k rs r h.1 e)

  pub Distinct-append :
      (rs : List A) (r : A) → Distinct rs → Below (key r) rs → Distinct (rs ++ r ∷ [])
  Distinct-append [] r d b = (tt, tt)
  Distinct-append (x ∷ rs) r d b =
      (Fresh-append (key x) rs r d.0 (ground arith), Distinct-append rs r d.1 b.1)

  pub Below-suc : (n : ℕ) (rs : List A) → Below n rs → Below (suc n) rs
  Below-suc n [] b = tt
  Below-suc n (r ∷ rs) b = (omega arith, Below-suc n rs b.1)

  -- An update that names a key which no row has changes nothing.
  pub update-Fresh :
      (p : A → Bool) (f : A → A) (k : ℕ) (rs : List A)
      → ((r : A) → p r ≡ true → (key r == k) ≡ true)
      → Fresh k rs
      → update p f rs ≡ rs
  update-Fresh p f k [] imp h = refl
  update-Fresh p f k (r ∷ rs) imp h = ground (arith, imp r, update-Fresh p f k rs imp h.1)

  -- A row that was found by a test is the only one with its key.
  pub find_if-Distinct :
      (q : A → Bool) (rs : List A) (r : A)
      → Distinct rs
      → find_if q rs ≡ some r
      → All (λ x. (key x == key r) ≡ true → q x ≡ true) rs
  find_if-Distinct q [] r d h = tt
  find_if-Distinct q (x ∷ rs) r d h = elim (Bool-cases (q x)) [
    | inl e ↦ ((λ _. e), vacuous rs d.0 (ground arith))
    | inr e ↦
        ((λ k. absurd (clash rs d.0 (ground arith) k)), find_if-Distinct q rs r d.1 (ground arith))
  ]
    where
      vacuous :
          (ss : List A)
          → Fresh (key x) ss
          → x ≡ r
          → All (λ y. (key y == key r) ≡ true → q y ≡ true) ss
      vacuous [] f e = tt
      vacuous (y ∷ ss) f e = ((λ k. ground arith), vacuous ss f.1 e)

      clash : (ss : List A) → Fresh (key x) ss → find_if q ss ≡ some r → (key x == key r) ≡ true → ⊥
      clash [] f h k = absurd (cc h)
      clash (y ∷ ss) f h k = elim (Bool-cases (q y)) [
        | inl e ↦ ground arith
        | inr e ↦ clash ss f.1 (ground arith) k
      ]

  module _ (f : A → A) (same_key : (r : A) → key (f r) ≡ key r) where
    pub Fresh-update : (p : A → Bool) (k : ℕ) (rs : List A) → Fresh k rs → Fresh k (update p f rs)
    Fresh-update p k [] h = tt
    Fresh-update p k (r ∷ rs) h = (ground (arith, same_key r), Fresh-update p k rs h.1)

    pub Distinct-update : (p : A → Bool) (rs : List A) → Distinct rs → Distinct (update p f rs)
    Distinct-update p [] d = tt
    Distinct-update p (r ∷ rs) d = elim (Bool-cases (p r)) [
      | inl e ↦ rw (e, same_key r) (Fresh-update p (key r) rs d.0, Distinct-update p rs d.1)
      | inr e ↦ rw e (Fresh-update p (key r) rs d.0, Distinct-update p rs d.1)
    ]

    pub Below-update : (p : A → Bool) (n : ℕ) (rs : List A) → Below n rs → Below n (update p f rs)
    Below-update p n [] b = tt
    Below-update p n (r ∷ rs) b = (ground (arith, same_key r), Below-update p n rs b.1)

    -- UPDATE … WHERE key = ?, once for each row of a list.
    abbrev pub update_each : List A → List A → List A
    update_each [] rs = rs
    update_each (x ∷ xs) rs = update_each xs (update (λ r. key r == key x) f rs)

    update_each-cons :
        (xs : List A) (r : A) (rs : List A)
        → Fresh (key r) xs
        → update_each xs (r ∷ rs) ≡ r ∷ update_each xs rs
    update_each-cons [] r rs h = refl
    update_each-cons (x ∷ xs) r rs h =
        rw (other h.0) (update_each-cons xs r (update (λ y. key y == key x) f rs) h.1)
      where
        other : (key x == key r) ≡ false → (key r == key x) ≡ false
        other e = ground arith

    -- The loop over the rows that pass a test is the one UPDATE of them all.
    pub update_each-keep_if :
        (q : A → Bool) (rs : List A) → Distinct rs → update_each (keep_if q rs) rs ≡ update q f rs
    update_each-keep_if q [] d = refl
    update_each-keep_if q (r ∷ rs) d = elim (Bool-cases (q r)) [
      | inl e ↦ rw e (
          ap (update_each (keep_if q rs)) first
          ∙ update_each-cons (keep_if q rs) (f r) rs
              (rw (same_key r) (All-keep_if (λ y. (key y == key r) ≡ false) q rs d.0))
          ∙ ap (λ xs. f r ∷ xs) (update_each-keep_if q rs d.1))
      | inr e ↦ rw e (
          update_each-cons (keep_if q rs) r rs
            (All-keep_if (λ y. (key y == key r) ≡ false) q rs d.0)
          ∙ ap (λ xs. r ∷ xs) (update_each-keep_if q rs d.1))
    ]
      where
        first : update (λ y. key y == key r) f (r ∷ rs) ≡ f r ∷ rs
        first = ground (arith, update-Fresh (λ y. key y == key r) f (key r) rs (λ y e. e) d.0)
