-- ===== src/Sniper/Lanes/Slow/Once.antt =====
-- tools/sniper.py: how often the slow lane attempts a watch.
use polymarket_tools.Prelude.{
  ℕ, suc, ◌+◌, ◌≤◌, ◌≡◌, refl, inl, inr, arith, String, true, false, not, ◌&&◌, ◌||◌, Option, none,
  some, List, [], ◌∷◌, ◌++◌, count_if, get_elem?, ◌&◌, Bool-cases, Option-cases, count_if-append,
}
use polymarket_tools.Floats.{Floats, ◌<?◌, ◌≤?◌}
use polymarket_tools.Python.{Raised, Called, gave, failed, Builtins, Texts}
use polymarket_tools.Sniper.{Poster, live, dry, attempt, reached}
use polymarket_tools.Sniper.Lanes.{Watch, Fire, Sniper, Top, is_claimed, write, milliseconds}
use polymarket_tools.Sniper.Lanes.Slow.{
  Retry, Adoption, Pass, retry, retry_one, keep_fire, retry_each, is_known, not_presigned,
  presigned_by, presign, base_of, later, joined, prepare_with, prepare_book, prepare, adopt_with,
  adopt_next, is_aged, presign_aged, presign_each, retry_due, adopt_and_presign, go_on, work_once,
}
use polymarket_tools.Sniper.Lanes.Once.{
  is_at, spent, budget, Keeps, goes_on, spent-answer, Keeps-if,
}

module _ {F : Type 0} ⦃fl : Floats F⦄ ⦃py : Builtins F⦄ ⦃tx : Texts⦄ (a : ℕ) where
  -- A retry uses at most the fire that it is of.
  retry-spends :
      (fire : Fire F) (watch : Watch F) (now : F) (out : Retry F) (s : Sniper F)
      → (goes_on a (retry fire watch now out s).0 + spent a (retry fire watch now out s).1
          ≤ count_if (is_at a) (fire ∷ []) + spent a s)
        × (budget a (retry fire watch now out s).1 ≡ budget a s)
  unfolding retry
  retry-spends fire watch now out s = elim (Bool-cases (watch.abort || s.stop)) [
    | inl ends ↦ rw ends (omega arith, refl)
    | inr lives ↦ elim (Bool-cases (fire.shot.deadline ≤? now)) [
      | inl late ↦ rw (lives, late) (omega arith, refl)
      | inr early ↦
          let (used, given) =
            spent-answer a fire.shot watch.id
              (attempt watch.poster watch.order fire.shot.trigger.tick none out.venue).0
              (milliseconds out.answered_at now) out.answered_at s in
          rw (lives, early) (omega (arith, used), given)
    ]
  ]

  retry_one-spends :
      (fire : Fire F) (now : F) (out : Retry F) (s : Sniper F)
      → (goes_on a (retry_one fire now out s).0 + spent a (retry_one fire now out s).1
          ≤ count_if (is_at a) (fire ∷ []) + spent a s)
        × (budget a (retry_one fire now out s).1 ≡ budget a s)
  unfolding retry_one
  retry_one-spends fire now out s = elim (Bool-cases (fire.next_at ≤? now)) [
    | inr early ↦ rw early (omega arith, refl)
    | inl due ↦ elim (Option-cases (get_elem? s.heap fire.shot.watch)) [
      | inl absent ↦ rw (retry_one, due, absent) (omega arith, refl)
      | inr (watch, here) ↦ rw (retry_one, due, here) (retry-spends fire watch now out s)
    ]
  ]

  count_if-keep_fire :
      (o : Option (Fire F)) (fires : List (Fire F))
      → count_if (is_at a) (keep_fire o fires) ≡ goes_on a o + count_if (is_at a) fires
  count_if-keep_fire none fires = omega arith
  count_if-keep_fire (some fire) fires = omega arith

  retry_each-spends :
      (outs : ℕ → Retry F) (now : F) (n : ℕ) (fires : List (Fire F)) (s : Sniper F)
      → (count_if (is_at a) (retry_each outs now n fires s).0
            + spent a (retry_each outs now n fires s).1
          ≤ count_if (is_at a) fires + spent a s)
        × (budget a (retry_each outs now n fires s).1 ≡ budget a s)
  unfolding retry_each
  retry_each-spends outs now n [] s = (omega arith, refl)
  retry_each-spends outs now n (fire ∷ rest) s =
      let one = retry_one fire now (outs n) s in
      let others = retry_each outs now (suc n) rest one.1 in
      let (used, given) = retry_one-spends fire now (outs n) s in
      let (used', given') = retry_each-spends outs now (suc n) rest one.1 in
      (omega (arith, used, used', count_if-keep_fire one.0 others.0), omega (arith, given, given'))

  retry_due-Keeps : (out : Pass F) (s : Sniper F) → Keeps a s (retry_due out s)
  unfolding retry_due
  retry_due-Keeps out s =
      let before = record s { fires = []; retries = [] } in
      let (used, given) = retry_each-spends out.retry_at out.now 0 (s.fires ++ s.retries) before in
      omega (arith, used, given, count_if-append (is_at a) s.fires s.retries)

  not_presigned-Keeps :
      (b : ℕ) (watch : Watch F) (message : String) (s : Sniper F)
      → Keeps a s (not_presigned b watch message s)
  unfolding not_presigned
  not_presigned-Keeps b watch message s = elim (Bool-cases (is_known message watch.presign_error)) [
    | inl old ↦ rw old (omega arith)
    | inr new ↦ rw new (omega arith)
  ]

  presigned_by-Keeps :
      (b : ℕ) (watch : Watch F) (now : F) (poster : Poster) (sign_error : Option (Raised F))
      (s : Sniper F)
      → Keeps a s (presigned_by b watch now poster sign_error s)
  unfolding presigned_by
  presigned_by-Keeps b watch now (dry false) sign_error s = omega arith
  presigned_by-Keeps b watch now (dry true) none s = omega arith
  presigned_by-Keeps b watch now live none s = omega arith
  presigned_by-Keeps b watch now (dry true) (some e) s =
      not_presigned-Keeps b watch (e.class_name & ": " & e.message) s
  presigned_by-Keeps b watch now live (some e) s =
      not_presigned-Keeps b watch (e.class_name & ": " & e.message) s

  presign-Keeps :
      (b : ℕ) (watch : Watch F) (now : F) (sign_error : Option (Raised F)) (s : Sniper F)
      → Keeps a s (presign b watch now sign_error s)
  unfolding presign
  presign-Keeps b watch now sign_error s = presigned_by-Keeps b watch now watch.poster sign_error s

  later-Keeps :
      (b : ℕ) (watch : Watch F) (now : F) (message : String) (s : Sniper F)
      → Keeps a s (later b watch now message s)
  unfolding later
  later-Keeps b watch now message s = omega arith

  joined-Keeps :
      (b : ℕ) (watch : Watch F) (now : F) (top : Top F) (out : Adoption F) (s : Sniper F)
      → Keeps a s (joined b watch now top out s)
  unfolding joined
  joined-Keeps b watch now top out s =
      let s' = write b (λ w. record w { base_quote = some (base_of top now) }) s in
      elim (Option-cases out.prewarmed) [
        | inl warm ↦ rw (warm, joined) (omega (arith, presign-Keeps b watch now out.sign_error s'))
        | inr (e, cold) ↦
            rw (cold, joined) (later-Keeps b watch now ("prewarm failed: " & e.message) s')
      ]

  prepare_with-Keeps :
      (b : ℕ) (watch : Watch F) (now : F) (top : Top F) (tick : Option F) (out : Adoption F)
      (s : Sniper F)
      → Keeps a s (prepare_with b watch now top tick out s)
  unfolding prepare_with
  prepare_with-Keeps b watch now top none out s = joined-Keeps b watch now top out s
  prepare_with-Keeps b watch now top (some tick) out s =
      elim (Bool-cases (reached tick watch.target)) [
        | inl hit ↦ rw hit (ground arith)
        | inr off ↦ rw off (joined-Keeps b watch now top out s)
      ]

  prepare_book-Keeps :
      (b : ℕ) (watch : Watch F) (now : F) (book : Called F (Top F)) (out : Adoption F)
      (s : Sniper F)
      → Keeps a s (prepare_book b watch now book out s)
  unfolding prepare_book
  prepare_book-Keeps b watch now (failed e) out s =
      later-Keeps b watch now ("book read failed: " & e.message) s
  prepare_book-Keeps b watch now (gave top) out s =
      prepare_with-Keeps b watch now top top.tick out s

  prepare-Keeps :
      (b : ℕ) (watch : Watch F) (now : F) (out : Adoption F) (s : Sniper F)
      → Keeps a s (prepare b watch now out s)
  unfolding prepare
  prepare-Keeps b watch now out s = elim (Bool-cases (is_claimed b s)) [
    | inl shut ↦ rw shut (omega arith)
    | inr free ↦ rw free (prepare_book-Keeps b watch now out.book out s)
  ]

  adopt_with-Keeps :
      (b : ℕ) (w : Option (Watch F)) (now : F) (out : Adoption F) (s : Sniper F)
      → Keeps a s (adopt_with b w now out s)
  unfolding adopt_with
  adopt_with-Keeps b none now out s = omega arith
  adopt_with-Keeps b (some watch) now out s = elim (Bool-cases (now <? watch.not_before)) [
    | inl early ↦ rw early (omega arith)
    | inr due ↦ rw due (prepare-Keeps b watch now out s)
  ]

  adopt_next-Keeps :
      (fires : List (Fire F)) (adoptions : List ℕ) (now : F) (out : Adoption F) (s : Sniper F)
      → Keeps a s (adopt_next fires adoptions now out s)
  unfolding adopt_next
  adopt_next-Keeps [] (b ∷ rest) now out s =
      adopt_with-Keeps b (get_elem? s.heap b) now out (record s { adoptions = rest })
  adopt_next-Keeps [] [] now out s = omega arith
  adopt_next-Keeps (fire ∷ fires) adoptions now out s = omega arith

  presign_aged-Keeps :
      (b : ℕ) (w : Option (Watch F)) (now : F) (sign_error : Option (Raised F)) (s : Sniper F)
      → Keeps a s (presign_aged b w now sign_error s)
  unfolding presign_aged
  presign_aged-Keeps b none now sign_error s = omega arith
  presign_aged-Keeps b (some watch) now sign_error s =
      elim (Bool-cases (not (is_claimed b s) && is_aged watch.presigned now)) [
        | inl due ↦ rw due (presign-Keeps b watch now sign_error s)
        | inr not_due ↦ rw not_due (omega arith)
      ]

  presign_each-Keeps :
      (armed : List (String × ℕ)) (now : F) (sign_errors : ℕ → Option (Raised F)) (s : Sniper F)
      → Keeps a s (presign_each armed now sign_errors s)
  unfolding presign_each
  presign_each-Keeps [] now sign_errors s = omega arith
  presign_each-Keeps ((t, b) ∷ rest) now sign_errors s =
      let s' = presign_aged b (get_elem? s.heap b) now (sign_errors b) s in
      omega (
        arith,
        presign_aged-Keeps b (get_elem? s.heap b) now (sign_errors b) s,
        presign_each-Keeps rest now sign_errors s',
      )

  adopt_and_presign-Keeps : (out : Pass F) (s : Sniper F) → Keeps a s (adopt_and_presign out s)
  unfolding adopt_and_presign
  adopt_and_presign-Keeps out s =
      let s' = adopt_next s.fires s.adoptions out.now out.adoption s in
      omega (
        arith,
        adopt_next-Keeps s.fires s.adoptions out.now out.adoption s,
        presign_each-Keeps s'.armed out.now out.sign_errors s',
      )

  go_on-Keeps : (out : Pass F) (s : Sniper F) → Keeps a s (go_on out s)
  unfolding go_on
  go_on-Keeps out s =
      Keeps-if a s.stop s s (adopt_and_presign out s) (omega arith) (adopt_and_presign-Keeps out s)

  pub work_once-Keeps : (out : Pass F) (s : Sniper F) → Keeps a s (work_once out s)
  unfolding work_once
  work_once-Keeps out s = omega (arith, retry_due-Keeps out s, go_on-Keeps out (retry_due out s))
