-- ===== src/Sniper/Lanes/Slow/Signing.antt =====
-- tools/sniper.py: what was presigned is the own order of its watch, in the slow lane.
use polymarket_tools.Prelude.{
  zero, modify, ◌∙◌, refl, ℕ, suc, ◌≡◌, refl, inl, inr, String, true, false, not, ◌&&◌, ◌||◌,
  Option, none, some, List, [], ◌∷◌, ◌++◌, get_elem?, ◌&◌, Bool-cases, Option-cases,
}
use polymarket_tools.Floats.{◌⊕◌, decimal, Floats, ◌<?◌, ◌≤?◌}
use polymarket_tools.Python.{Raised, Called, gave, failed, Builtins, Texts}
use polymarket_tools.Sniper.{Poster, live, dry, reached}
use polymarket_tools.Sniper.Lanes.{Watch, Fire, Sniper, Top, is_claimed, write}
use polymarket_tools.Sniper.Lanes.Slow.{
  set_presigned, presigned_now, Retry, Adoption, Pass, retry, retry_one, retry_each, is_known,
  not_presigned, presigned_by, presign, base_of, later, joined, prepare_with, prepare_book, prepare,
  adopt_with, adopt_next, is_aged, presign_aged, presign_each, retry_due, adopt_and_presign, go_on,
  work_once, set_presigned, presigned_now,
}
use polymarket_tools.Sniper.Lanes.Signing.{
  StaysSigned, StaysSigned-if, All-modify, write-IsSigned, heap-answer,
}

module _ {F : Type 0} ⦃fl : Floats F⦄ ⦃py : Builtins F⦄ ⦃tx : Texts⦄ where
  heap-retry :
      (fire : Fire F) (watch : Watch F) (now : F) (out : Retry F) (s : Sniper F)
      → (retry fire watch now out s).1.heap ≡ s.heap
  unfolding retry
  heap-retry fire watch now out s = elim (Bool-cases (watch.abort || s.stop)) [
    | inl ends ↦ rw ends refl
    | inr lives ↦ elim (Bool-cases (fire.shot.deadline ≤? now)) [
      | inl late ↦ rw (lives, late) refl
      | inr early ↦ rw (lives, early) (heap-answer fire.shot watch.id _ _ out.answered_at s)
    ]
  ]

  heap-retry_one :
      (fire : Fire F) (now : F) (out : Retry F) (s : Sniper F)
      → (retry_one fire now out s).1.heap ≡ s.heap
  unfolding retry_one
  heap-retry_one fire now out s = elim (Bool-cases (fire.next_at ≤? now)) [
    | inr early ↦ rw early refl
    | inl due ↦ elim (Option-cases (get_elem? s.heap fire.shot.watch)) [
      | inl absent ↦ rw (retry_one, due, absent) refl
      | inr (watch, here) ↦ rw (retry_one, due, here) (heap-retry fire watch now out s)
    ]
  ]

  heap-retry_each :
      (outs : ℕ → Retry F) (now : F) (n : ℕ) (fires : List (Fire F)) (s : Sniper F)
      → (retry_each outs now n fires s).1.heap ≡ s.heap
  unfolding retry_each
  heap-retry_each outs now n [] s = refl
  heap-retry_each outs now n (fire ∷ rest) s =
      heap-retry_each outs now (suc n) rest (retry_one fire now (outs n) s).1
      ∙ heap-retry_one fire now (outs n) s

  retry_due-IsSigned : (out : Pass F) (s : Sniper F) → StaysSigned s (retry_due out s)
  unfolding retry_due
  retry_due-IsSigned out s = λ v.
      rw
        (heap-retry_each out.retry_at out.now 0 (s.fires ++ s.retries)
          (record s { fires = []; retries = [] }))
        v

  -- The watch at this address has this watch's order.
  abbrev IsOrderOf : Watch F → Option (Watch F) → Type 0
  IsOrderOf watch none = ⊥
  IsOrderOf watch (some w) = w.order ≡ watch.order

  abbrev StandsAt : ℕ → Watch F → Sniper F → Type 0
  StandsAt b watch s = IsOrderOf watch (get_elem? s.heap b)

  IsOrderOf-modify :
      (b : ℕ) (watch : Watch F) (f : Watch F → Watch F) (heap : List (Watch F))
      → ((w : Watch F) → (f w).order ≡ w.order)
      → IsOrderOf watch (get_elem? heap b)
      → IsOrderOf watch (get_elem? (modify b f heap) b)
  IsOrderOf-modify b watch f [] same own = absurd own
  IsOrderOf-modify zero watch f (w ∷ heap) same own = same w ∙ own
  IsOrderOf-modify (suc b) watch f (w ∷ heap) same own = IsOrderOf-modify b watch f heap same own

  stands :
      (b : ℕ) (watch : Watch F) (s : Sniper F)
      → get_elem? s.heap b ≡ some watch
      → StandsAt b watch s
  stands b watch s e = rw e refl

  presigned-IsSigned :
      (b : ℕ) (watch : Watch F) (now : F) (s : Sniper F)
      → StandsAt b watch s
      → StaysSigned s (set_presigned b (some (presigned_now watch now)) s)
  presigned-IsSigned b watch now s own =
      All-modify b _ s.heap (λ w e v. rw (own_order w e own) refl)
    where
      own_order :
          (w : Watch F) → get_elem? s.heap b ≡ some w → StandsAt b watch s → w.order ≡ watch.order
      own_order w e at = rw e at at

  not_presigned-IsSigned :
      (b : ℕ) (watch : Watch F) (message : String) (s : Sniper F)
      → StaysSigned s (not_presigned b watch message s)
  unfolding not_presigned
  not_presigned-IsSigned b watch message s =
      elim (Bool-cases (is_known message watch.presign_error)) [
        | inl old ↦ rw old (λ v. v)
        | inr new ↦
            rw new (write-IsSigned b (λ w. record w { presign_error = some message }) s (λ w h. h))
      ]

  presigned_by-IsSigned :
      (b : ℕ) (watch : Watch F) (now : F) (poster : Poster) (sign_error : Option (Raised F))
      (s : Sniper F)
      → StandsAt b watch s
      → StaysSigned s (presigned_by b watch now poster sign_error s)
  unfolding presigned_by
  presigned_by-IsSigned b watch now (dry false) sign_error s own =
      write-IsSigned b (λ w. record w { presign_error = none; presigned = none }) s (λ w h. tt)
  presigned_by-IsSigned b watch now (dry true) none s own = presigned-IsSigned b watch now s own
  presigned_by-IsSigned b watch now live none s own = presigned-IsSigned b watch now s own
  presigned_by-IsSigned b watch now (dry true) (some e) s own =
      not_presigned-IsSigned b watch (e.class_name & ": " & e.message) s
  presigned_by-IsSigned b watch now live (some e) s own =
      not_presigned-IsSigned b watch (e.class_name & ": " & e.message) s

  presign-IsSigned :
      (b : ℕ) (watch : Watch F) (now : F) (sign_error : Option (Raised F)) (s : Sniper F)
      → StandsAt b watch s
      → StaysSigned s (presign b watch now sign_error s)
  unfolding presign
  presign-IsSigned b watch now sign_error s own =
      presigned_by-IsSigned b watch now watch.poster sign_error s own

  later-IsSigned :
      (b : ℕ) (watch : Watch F) (now : F) (message : String) (s : Sniper F)
      → StaysSigned s (later b watch now message s)
  unfolding later
  later-IsSigned b watch now message s =
      write-IsSigned b (λ w. record w { not_before = now ⊕ decimal 2 0 }) s (λ w h. h)

  joined-IsSigned :
      (b : ℕ) (watch : Watch F) (now : F) (top : Top F) (out : Adoption F) (s : Sniper F)
      → StandsAt b watch s
      → StaysSigned s (joined b watch now top out s)
  unfolding joined
  joined-IsSigned b watch now top out s own =
      let s' = write b (λ w. record w { base_quote = some (base_of top now) }) s in
      elim (Option-cases out.prewarmed) [
        | inl warm ↦
            rw (warm, joined)
              (λ v.
                presign-IsSigned b watch now out.sign_error s'
                  (IsOrderOf-modify b watch _ s.heap (λ w. refl) own) (based v))
        | inr (e, cold) ↦
            rw (cold, joined)
              (λ v. later-IsSigned b watch now ("prewarm failed: " & e.message) s' (based v))
      ]
    where
      based : StaysSigned s (write b (λ w. record w { base_quote = some (base_of top now) }) s)
      based = write-IsSigned b (λ w. record w { base_quote = some (base_of top now) }) s (λ w h. h)

  prepare_with-IsSigned :
      (b : ℕ) (watch : Watch F) (now : F) (top : Top F) (tick : Option F) (out : Adoption F)
      (s : Sniper F)
      → StandsAt b watch s
      → StaysSigned s (prepare_with b watch now top tick out s)
  unfolding prepare_with
  prepare_with-IsSigned b watch now top none out s own = joined-IsSigned b watch now top out s own
  prepare_with-IsSigned b watch now top (some tick) out s own =
      elim (Bool-cases (reached tick watch.target)) [
        | inl hit ↦ rw hit (λ v. v)
        | inr off ↦ rw off (joined-IsSigned b watch now top out s own)
      ]

  prepare_book-IsSigned :
      (b : ℕ) (watch : Watch F) (now : F) (book : Called F (Top F)) (out : Adoption F)
      (s : Sniper F)
      → StandsAt b watch s
      → StaysSigned s (prepare_book b watch now book out s)
  unfolding prepare_book
  prepare_book-IsSigned b watch now (failed e) out s own =
      later-IsSigned b watch now ("book read failed: " & e.message) s
  prepare_book-IsSigned b watch now (gave top) out s own =
      prepare_with-IsSigned b watch now top top.tick out s own

  prepare-IsSigned :
      (b : ℕ) (watch : Watch F) (now : F) (out : Adoption F) (s : Sniper F)
      → StandsAt b watch s
      → StaysSigned s (prepare b watch now out s)
  unfolding prepare
  prepare-IsSigned b watch now out s own = elim (Bool-cases (is_claimed b s)) [
    | inl shut ↦ rw shut (λ v. v)
    | inr free ↦ rw free (prepare_book-IsSigned b watch now out.book out s own)
  ]

  adopt_with-IsSigned :
      (b : ℕ) (w : Option (Watch F)) (now : F) (out : Adoption F) (s : Sniper F)
      → get_elem? s.heap b ≡ w
      → StaysSigned s (adopt_with b w now out s)
  unfolding adopt_with
  adopt_with-IsSigned b none now out s at = λ v. v
  adopt_with-IsSigned b (some watch) now out s at = elim (Bool-cases (now <? watch.not_before)) [
    | inl early ↦ rw early (λ v. v)
    | inr due ↦ rw due (prepare-IsSigned b watch now out s (stands b watch s at))
  ]

  adopt_next-IsSigned :
      (fires : List (Fire F)) (adoptions : List ℕ) (now : F) (out : Adoption F) (s : Sniper F)
      → StaysSigned s (adopt_next fires adoptions now out s)
  unfolding adopt_next
  adopt_next-IsSigned [] (b ∷ rest) now out s =
      adopt_with-IsSigned b (get_elem? s.heap b) now out (record s { adoptions = rest }) refl
  adopt_next-IsSigned [] [] now out s = λ v. v
  adopt_next-IsSigned (fire ∷ fires) adoptions now out s = λ v. v

  presign_aged-IsSigned :
      (b : ℕ) (w : Option (Watch F)) (now : F) (sign_error : Option (Raised F)) (s : Sniper F)
      → get_elem? s.heap b ≡ w
      → StaysSigned s (presign_aged b w now sign_error s)
  unfolding presign_aged
  presign_aged-IsSigned b none now sign_error s at = λ v. v
  presign_aged-IsSigned b (some watch) now sign_error s at =
      elim (Bool-cases (not (is_claimed b s) && is_aged watch.presigned now)) [
        | inl due ↦ rw due (presign-IsSigned b watch now sign_error s (stands b watch s at))
        | inr not_due ↦ rw not_due (λ v. v)
      ]

  presign_each-IsSigned :
      (armed : List (String × ℕ)) (now : F) (sign_errors : ℕ → Option (Raised F)) (s : Sniper F)
      → StaysSigned s (presign_each armed now sign_errors s)
  unfolding presign_each
  presign_each-IsSigned [] now sign_errors s = λ v. v
  presign_each-IsSigned ((t, b) ∷ rest) now sign_errors s =
      let s' = presign_aged b (get_elem? s.heap b) now (sign_errors b) s in
      λ v.
        presign_each-IsSigned rest now sign_errors s'
          (presign_aged-IsSigned b (get_elem? s.heap b) now (sign_errors b) s refl v)

  adopt_and_presign-IsSigned :
      (out : Pass F) (s : Sniper F) → StaysSigned s (adopt_and_presign out s)
  unfolding adopt_and_presign
  adopt_and_presign-IsSigned out s =
      let s' = adopt_next s.fires s.adoptions out.now out.adoption s in
      λ v.
        presign_each-IsSigned s'.armed out.now out.sign_errors s'
          (adopt_next-IsSigned s.fires s.adoptions out.now out.adoption s v)

  go_on-IsSigned : (out : Pass F) (s : Sniper F) → StaysSigned s (go_on out s)
  unfolding go_on
  go_on-IsSigned out s =
      StaysSigned-if s.stop s s (adopt_and_presign out s) (λ v. v)
        (adopt_and_presign-IsSigned out s)

  pub work_once-IsSigned : (out : Pass F) (s : Sniper F) → StaysSigned s (work_once out s)
  unfolding work_once
  work_once-IsSigned out s = λ v. go_on-IsSigned out (retry_due out s) (retry_due-IsSigned out s v)
