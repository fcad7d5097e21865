-- ===== src/Farmer/Fills/Backoffs.antt =====
-- farm/reward_farmer.py: how long a slot waits after rejections in a row.
use mathlib.Core.Option.{some-injective}
use native.Mathlib.Nat.{pow-suc}
use Prim.Native.Nat.{◌^◌}
use polymarket_tools.Prelude.{
  ℕ, suc, ◌+◌, ◌*◌, ◌≡◌, refl, arith, Option, none, some, List, [], ◌∷◌, length,
}
use polymarket_tools.Farmer.Fills.{
  Backoff, next_backoff, min, seconds, backoff_max_s, backoff_start_s,
}

-- The backoff after rejections at these times, the newest first.
abbrev pub rejected : List ℕ → Option Backoff
rejected [] = none
rejected (now ∷ earlier) = some (next_backoff (rejected earlier) now)

-- 30 seconds, doubled on each further rejection up to 900.
abbrev pub delay : ℕ → ℕ
delay n = min (backoff_start_s * 2 ^ n) backoff_max_s

add_one : (n : ℕ) → n + 1 ≡ suc n
add_one n = omega arith

delay-suc : (n : ℕ) → min (delay n * 2) backoff_max_s ≡ delay (suc n)
delay-suc n = ground (arith, pow-suc 2 n)

-- After rejections in a row a slot waits 30 seconds doubled on each further one, 900 at most, from
-- the last, and their number is counted.
pub rejected-eq-delay :
    (now : ℕ) (earlier : List ℕ)
    → rejected (now ∷ earlier)
      ≡ some (record {
        until = now + seconds (delay (length earlier));
        delay_s = delay (length earlier);
        attempts = suc (length earlier);
      })
unfolding next_backoff
rejected-eq-delay now [] = refl
rejected-eq-delay now (before ∷ earlier) =
    rw
      (
        some-injective _ _ (rejected-eq-delay before earlier),
        delay-suc (length earlier),
        add_one (suc (length earlier)),
      )
      refl
