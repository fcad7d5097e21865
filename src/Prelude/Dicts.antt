-- ===== src/Prelude/Dicts.antt =====
-- Python dicts whose order matters, as lists of pairs in the order of insertion. The key is given
-- by its test.
use polymarket_tools.Prelude.Tests.{if◌then◌else◌}
use polymarket_tools.Prelude.Lists.{any, keep_if}
use Prim.Native.Nat.{ℕ, zero, suc}
use mathlib.Core.Bool.{Bool, not}
use mathlib.Core.Option.{Option, none, some}
use mathlib.Core.List.{List, [], ◌∷◌, ◌++◌, map}

module _ {ℓ κ} {K : Type ℓ} {V : Type κ} where
  abbrev pub read_at : (K → Bool) → List (K × V) → Option V
  read_at is_k [] = none
  read_at is_k ((k, v) ∷ d) = if is_k k then some v else read_at is_k d

  -- del d[k], or nothing where there is none
  abbrev pub drop_at : (K → Bool) → List (K × V) → List (K × V)
  drop_at is_k d = keep_if (λ (e : K × V). not (is_k e.0)) d

  -- d[k] = v: an old key keeps its place
  abbrev pub put_at : (K → Bool) → K → V → List (K × V) → List (K × V)
  put_at is_k k v d =
      if any (λ (e : K × V). is_k e.0) d
      then map (λ (e : K × V). if is_k e.0 then (k, v) else e) d
      else d ++ ((k, v) ∷ [])

-- Writes one element of a list in place.
abbrev pub modify {ℓ} : {A : Type ℓ} → ℕ → (A → A) → List A → List A
modify i f [] = []
modify zero f (x ∷ xs) = f x ∷ xs
modify (suc i) f (x ∷ xs) = x ∷ modify i f xs
