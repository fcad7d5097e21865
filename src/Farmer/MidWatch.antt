-- ===== src/Farmer/MidWatch.antt =====
-- farm/reward_farmer.py: the midpoint over the dwell, which decides what the naked budget holds.
pub mod Lowest
pub mod Cycles
use polymarket_tools.Prelude.{
  ℕ, Bool, true, false, Option, none, some, is_some, List, [], ◌∷◌, ◌++◌, map, keep_if,
  if◌then◌else◌,
}
use polymarket_tools.Floats.{Floats, ◌<?◌, ◌≤?◌, decimal, elapsed}
use polymarket_tools.Farmer.Fills.{least}
use polymarket_tools.Farmer.Lifecycle.{Phase, is_sole_bid}

pub record MidWatch (F : Type 0) : Type 0 where
  pub since : ℕ
  pub mids : List (ℕ × F)

module _ {F : Type 0} ⦃fl : Floats F⦄ where
  -- FREE_DWELL_S, FREE_SEED_GAP_S and SOLE_BID_EXIT_S
  abbrev pub free_dwell_s : F
  free_dwell_s = decimal 600 0

  abbrev pub free_seed_gap_s : F
  free_seed_gap_s = decimal 180 0

  abbrev pub sole_bid_exit_s : F
  sole_bid_exit_s = decimal 300 0

-- More than FREE_SEED_GAP_S since the last sample.
abbrev gap_after : (F : Type 0) ⦃fl : Floats F⦄ → Option ℕ → ℕ → Bool
gap_after F none at = false
gap_after F (some last) at = free_seed_gap_s {F = F} <? elapsed at last

-- support_held, on seconds that are floats of this type
unfoldable pub support_held : (F : Type 0) ⦃fl : Floats F⦄ → Option ℕ → Phase → ℕ → Bool
support_held F none phase now = false
support_held F (some since) phase now =
    if is_sole_bid phase then sole_bid_exit_s {F = F} ≤? elapsed now since else true

module _ {F : Type 0} ⦃fl : Floats F⦄ where
  -- The samples that are no older than the dwell.
  abbrev pub in_dwell : ℕ → List (ℕ × F) → List (ℕ × F)
  in_dwell now = keep_if (λ (e : ℕ × F). elapsed now e.0 ≤? free_dwell_s {F = F})

  unfoldable pub watch_mid : Option (MidWatch F) → Option F → ℕ → Option (MidWatch F)
  watch_mid watch none at = none
  watch_mid none (some book_mid) at = some (record { since = at; mids = (at, book_mid) ∷ [] })
  watch_mid (some watch) (some book_mid) at =
      some (record watch { mids = in_dwell at watch.mids ++ ((at, book_mid) ∷ []) })

  -- min(best, *mids)
  abbrev pub min_from : F → List (ℕ × F) → F
  min_from best [] = best
  min_from best ((t, mid) ∷ rest) = min_from (least best mid) rest

  abbrev pub lowest : List (ℕ × F) → Option F
  lowest [] = none
  lowest ((t, mid) ∷ rest) = some (min_from mid rest)

  unfoldable pub steady_mid : Option (MidWatch F) → ℕ → Option F
  steady_mid none now = none
  steady_mid (some watch) now =
      if elapsed now watch.since <? free_dwell_s {F = F}
      then none
      else lowest (in_dwell now watch.mids)

  seed : List (ℕ × Option F) → Option (MidWatch F) → Option ℕ → ℕ → Option (MidWatch F)
  unfolding watch_mid
  seed [] watch none now = none
  seed [] watch (some last) now = if gap_after F (some last) now then none else watch
  seed ((at, book_mid) ∷ rest) watch last now =
      seed rest (watch_mid (if gap_after F last at then none else watch) book_mid at) (some at) now

  unfoldable pub seeded_watch : List (ℕ × Option F) → ℕ → Option (MidWatch F)
  unfolding seed
  seeded_watch samples now = seed samples none none now
