-- ===== src/Screener/Longshot/Bounds.antt =====
-- farm/reward_screener.py: what every longshot bid keeps.
use mathlib.Core.Path.{subst}
use mathlib.Core.Option.{some-injective}
use polymarket_tools.Prelude.{
  ℕ, zero, suc, true, false, ◌||◌, ◌≡◌, refl, ◌⊎◌, inl, inr, Option, none, some, List, [], ◌∷◌, map,
  keep_if, All, Bool-cases, arith, Option-cases,
}
use polymarket_tools.Floats.{Floats, ◌<?◌, ◌≤?◌, ◌⊕◌, ◌⊖◌, ◌⊗◌, ◌⊘◌, decimal}
use polymarket_tools.Floats.Maths.{Maths}
use polymarket_tools.Screener.Scores.{Levels, score, round_size_down}
use polymarket_tools.Screener.Zones.{Zones, over_max_return, sized_without_budget}
use polymarket_tools.Screener.Longshot.{
  LongshotBid, with_first, low_limit, tick_price, ladder, allowed, covering, fits, first_fitting,
  whole_room, scores_over, best_of, whole_room_bid, or_else, longshot_bid, last_score, reaches,
}

module _ {F : Type 0} ⦃fl : Floats F⦄ ⦃ma : Maths F⦄ where
  -- A price of the tick grid under the limit, with its score.
  abbrev pub OnLadder : F → F → F → F → F × F → Type 0
  OnLadder tick limit low_mid v (p, s) =
      (n : ℕ) × (p ≡ tick_price tick n)
      × ((p <? (limit ⊖ decimal 1 9)) ≡ true)
      × (s ≡ score v (low_mid ⊖ p))

  -- The size covers the need, and costs at most the room or is free of it; or it is all that the
  -- room buys, no less than the reward minimum.
  abbrev pub IsSized : F → F → F → F → Zones F → LongshotBid F → Type 0
  IsSized v min_size need room zones bid =
      ((bid.size ≡ covering min_size need bid.score)
        × ((sized_without_budget bid.price bid.score v zones
              || ((bid.size ⊗ bid.price) ≤? (room ⊕ decimal 1 9)))
            ≡ true))
      ⊎ ((bid.size ≡ round_size_down (room ⊘ bid.price)) × ((min_size ≤? bid.size) ≡ true))

  abbrev pub IsAllowed : Zones F → F × F → Type 0
  IsAllowed zones (p, s) =
      ((decimal 0 0 <? s) ≡ true) × (over_max_return p zones.years_left ≡ false)

  with_first-All :
      (P : F × F → Type 0) (x : F × F) (o : Option (List (F × F))) (ys : List (F × F))
      → P x
      → ((xs : List (F × F)) → o ≡ some xs → All P xs)
      → with_first x o ≡ some ys
      → All P ys
  with_first-All P x none ys px h e = absurd (cc e)
  with_first-All P x (some xs) ys px h e =
      subst (All P) (some-injective (x ∷ xs) ys e) (px, h xs refl)

  ladder-OnLadder :
      (fuel : ℕ) (tick limit low_mid v min_score : F) (n : ℕ) (scored : List (F × F))
      → ladder fuel tick limit low_mid v min_score n ≡ some scored
      → All (OnLadder tick limit low_mid v) scored
  unfolding ladder
  ladder-OnLadder zero tick limit low_mid v min_score n scored e = absurd (cc e)
  ladder-OnLadder (suc fuel) tick limit low_mid v min_score n scored e =
      elim (Bool-cases (tick_price tick n <? (limit ⊖ decimal 1 9))) [
        | inl under ↦ elim (Bool-cases (min_score ≤? score v (low_mid ⊖ tick_price tick n))) [
          | inl last ↦
              subst (All (OnLadder tick limit low_mid v))
                (some-injective _ scored (rw (under, last) at e)) ((n, refl, under, refl), tt)
          | inr not_yet ↦
              with_first-All (OnLadder tick limit low_mid v)
                (tick_price tick n, score v (low_mid ⊖ tick_price tick n))
                (ladder fuel tick limit low_mid v min_score (suc n)) scored (n, refl, under, refl)
                (λ xs f. ladder-OnLadder fuel tick limit low_mid v min_score (suc n) xs f)
                (rw (under, not_yet) at e)
        ]
        | inr over ↦
            subst (All (OnLadder tick limit low_mid v)) (some-injective [] scored (rw over at e)) tt
      ]

  keep_if-All :
      (P : F × F → Type 0) (zones : Zones F) (xs : List (F × F))
      → All P xs
      → All (λ x. P x × IsAllowed zones x) (keep_if (allowed zones) xs)
  keep_if-All P zones [] h = tt
  keep_if-All P zones (x ∷ xs) (px, h) = elim (Bool-cases (allowed zones x)) [
    | inl ok ↦ rw ok ((px, (ground arith, ground arith)), keep_if-All P zones xs h)
    | inr miss ↦ rw miss (keep_if-All P zones xs h)
  ]

  first_fitting-All :
      (P : F × F → Type 0) (v min_size need room : F) (zones : Zones F) (xs : List (F × F))
      (bid : LongshotBid F)
      → All P xs
      → first_fitting v min_size need room zones xs ≡ some bid
      → P (bid.price, bid.score) × IsSized v min_size need room zones bid
  first_fitting-All P v min_size need room zones [] bid h e = absurd (cc e)
  first_fitting-All P v min_size need room zones (x ∷ xs) bid (px, h) e =
      elim (Bool-cases (fits v min_size need room zones x)) [
        | inl ok ↦
            let bid' : LongshotBid F = record {
              price = x.0;
              size = covering min_size need x.1;
              score = x.1;
            } in
            let same : bid' ≡ bid = some-injective bid' bid (rw (first_fitting, ok) at e) in
            subst (λ b. P (b.price, b.score) × IsSized v min_size need room zones b) same
              (px, inl (refl, ok))
        | inr miss ↦
            first_fitting-All P v min_size need room zones xs bid h (rw (first_fitting, miss) at e)
      ]

  best_of-All :
      (P : F × F → Type 0) (room : F) (x : F × F) (xs : List (F × F))
      → P x
      → All P xs
      → (y : F × F) × P y
        × (best_of (whole_room room x) (map (whole_room room) xs) ≡ whole_room room y)
  best_of-All P room x [] px h = (x, px, refl)
  best_of-All P room x (y ∷ xs) px (py, h) =
      elim (Bool-cases (scores_over (whole_room room y) (whole_room room x))) [
        | inl better ↦ rw (best_of, better) (best_of-All P room y xs py h)
        | inr worse ↦ rw (best_of, worse) (best_of-All P room x xs px h)
      ]

  whole_room_bid-All :
      (P : F × F → Type 0) (v min_size need room : F) (zones : Zones F) (xs : List (F × F))
      (bid : LongshotBid F)
      → All P xs
      → whole_room_bid min_size room xs ≡ some bid
      → P (bid.price, bid.score) × IsSized v min_size need room zones bid
  whole_room_bid-All P v min_size need room zones [] bid h e = absurd (cc e)
  whole_room_bid-All P v min_size need room zones (x ∷ xs) bid (px, h) e =
      let (y, py, best) = best_of-All P room x xs px h in
      elim (Bool-cases (min_size ≤? round_size_down (room ⊘ y.0))) [
        | inl enough ↦
            let same : whole_room room y ≡ bid =
              some-injective (whole_room room y) bid (rw (best, enough) at e) in
            subst (λ b. P (b.price, b.score) × IsSized v min_size need room zones b) same
              (py, inr (refl, enough))
        | inr short ↦ absurd (cc (rw (best, short) at e))
      ]

  or_else-All :
      (P : F × F → Type 0) (v min_size need room : F) (zones : Zones F) (xs : List (F × F))
      (bid : LongshotBid F)
      → All P xs
      → or_else (first_fitting v min_size need room zones xs) (whole_room_bid min_size room xs)
        ≡ some bid
      → P (bid.price, bid.score) × IsSized v min_size need room zones bid
  or_else-All P v min_size need room zones xs bid h e =
      elim (Option-cases (first_fitting v min_size need room zones xs)) [
        | inr (b, first) ↦
            first_fitting-All P v min_size need room zones xs bid h (rw first (rw first at e))
        | inl nothing ↦ whole_room_bid-All P v min_size need room zones xs bid h (rw nothing at e)
      ]

  -- Every longshot bid is at a price of the tick grid under both the midpoint and the price that
  -- would cross, scores there what it says, which is more than nothing, offers the favorite buyer
  -- no more than MAX_RETURN, and is sized by the need within the room or free of it, or by the
  -- room to at least the reward minimum.
  pub longshot_bid-IsSized :
      (fuel : ℕ) (levels : Levels F) (mid v tick min_size need room min_score : F) (zones : Zones F)
      (bid : LongshotBid F)
      → longshot_bid fuel levels mid v tick min_size need room min_score zones ≡ some (some bid)
      → (OnLadder tick
            (low_limit levels.bids (decimal 1 0 ⊖ mid))
            (decimal 1 0 ⊖ mid)
            v
            (bid.price, bid.score)
          × IsAllowed zones (bid.price, bid.score))
        × IsSized v min_size need room zones bid
  unfolding longshot_bid
  longshot_bid-IsSized fuel levels mid v tick min_size need room min_score zones bid e =
      let low_mid = decimal 1 0 ⊖ mid in
      let limit = low_limit levels.bids low_mid in
      elim (Bool-cases (need ≤? decimal 0 0)) [
        | inl nothing ↦ absurd (cc (rw nothing at e))
        | inr needed ↦ elim (Option-cases (ladder fuel tick limit low_mid v min_score 1)) [
          | inr (scored, climbed) ↦ elim (Bool-cases (reaches min_score (last_score scored))) [
            | inl enough ↦
                or_else-All (λ x. OnLadder tick limit low_mid v x × IsAllowed zones x) v min_size
                  need room zones (keep_if (allowed zones) scored) bid
                  (keep_if-All (OnLadder tick limit low_mid v) zones scored
                    (ladder-OnLadder fuel tick limit low_mid v min_score 1 scored climbed))
                  (some-injective _ (some bid) (rw (needed, climbed, enough) at e))
            | inr short ↦ absurd (cc (rw (needed, climbed, short) at e))
          ]
          | inl stuck ↦ absurd (cc (rw (needed, stuck) at e))
        ]
      ]
