-- ===== src/Sniper/Lanes/Stop.antt =====
-- tools/sniper.py: what the hot lanes do once stop is set.
use polymarket_tools.Prelude.{
  ℕ, ◌≡◌, refl, ◌∙◌, inl, inr, arith, String, true, ◌||◌, Option, none, some, is_some, List, [],
  ◌∷◌, map, get_elem?, read_at, Bool-cases, Option-cases,
}
use polymarket_tools.Floats.{Floats}
use polymarket_tools.Python.{Called, gave, failed, Builtins, Texts}
use polymarket_tools.Polymarket.Orders.{tick_text}
use polymarket_tools.Sniper.{Source, poll, reached}
use polymarket_tools.Sniper.Lanes.{
  Watch, Sniper, Moment, Top, trigger, keep_quote, observe_tick, observe, on_top, observe_books,
  polled, poll_once, is_text,
}

module _ {F : Type 0} where
  -- Nothing is attempted, and the sniper is still stopping.
  abbrev pub IsIdle : Sniper F → Sniper F → Type 0
  IsIdle s s' = (s'.stop ≡ true) × (s'.made ≡ s.made)

module _ {F : Type 0} ⦃fl : Floats F⦄ ⦃py : Builtins F⦄ ⦃tx : Texts⦄ where
  keep_quote-IsIdle :
      (b : ℕ) (top : Top F) (tick : Option String) (source : Source) (now : F) (s : Sniper F)
      → s.stop ≡ true
      → IsIdle s (keep_quote b top tick source now s)
  unfolding keep_quote
  keep_quote-IsIdle b top tick source now s stop =
      elim (Bool-cases (is_some top.bid || is_some top.ask)) [
        | inl priced ↦ rw priced (stop, refl)
        | inr bare ↦ rw bare (stop, refl)
      ]

  trigger-IsIdle :
      (b : ℕ) (watch : Watch F) (tick : F) (source : Source) (at : Moment F) (s : Sniper F)
      → s.stop ≡ true
      → IsIdle s (trigger b watch tick source at s)
  unfolding trigger
  trigger-IsIdle b watch tick source at s stop = (ground arith, ground arith)

  observe_tick-IsIdle :
      (b : ℕ) (watch : Watch F) (top : Top F) (tick : Option F) (source : Source) (at : Moment F)
      (s : Sniper F)
      → s.stop ≡ true
      → IsIdle s (observe_tick b watch top tick source at s)
  unfolding observe_tick
  observe_tick-IsIdle b watch top none source at s stop =
      keep_quote-IsIdle b top none source at.now s stop
  observe_tick-IsIdle b watch top (some tick) source at s stop =
      elim (Bool-cases (reached tick watch.target)) [
        | inl hit ↦ rw hit (trigger-IsIdle b watch tick source at s stop)
        | inr off ↦ rw off (keep_quote-IsIdle b top (some (tick_text tick)) source at.now s stop)
      ]

  observe-IsIdle :
      (b : ℕ) (top : Top F) (source : Source) (at : Moment F) (s : Sniper F)
      → s.stop ≡ true
      → IsIdle s (observe b top source at s)
  unfolding observe
  observe-IsIdle b top source at s stop = elim (Option-cases (get_elem? s.heap b)) [
    | inl absent ↦ rw (absent, observe) (stop, refl)
    | inr (watch, here) ↦
        rw (here, observe) (observe_tick-IsIdle b watch top top.tick source at s stop)
  ]

  pub on_top-IsIdle :
      (token_id : String) (top : Top F) (source : Source) (at : Moment F) (s : Sniper F)
      → s.stop ≡ true
      → IsIdle s (on_top token_id top source at s)
  unfolding on_top
  on_top-IsIdle token_id top source at s stop =
      elim (Option-cases (read_at (is_text token_id) s.armed)) [
        | inl absent ↦ rw (absent, on_top) (stop, refl)
        | inr (b, here) ↦ rw (here, on_top) (observe-IsIdle b top source at s stop)
      ]

  observe_books-IsIdle :
      (found : List (String × (Top F × Moment F))) (s : Sniper F)
      → s.stop ≡ true
      → IsIdle s (observe_books found s)
  unfolding observe_books
  observe_books-IsIdle [] s stop = (stop, refl)
  observe_books-IsIdle ((token_id, (top, at)) ∷ rest) s stop =
      let s' = on_top token_id top poll at s in
      let one = on_top-IsIdle token_id top poll at s stop in
      let more = observe_books-IsIdle rest s' one.0 in (more.0, more.1 ∙ one.1)

  polled-IsIdle :
      (outcome : Called F (List (String × (Top F × Moment F)))) (s : Sniper F)
      → s.stop ≡ true
      → IsIdle s (polled outcome s)
  unfolding polled
  polled-IsIdle (failed e) s stop = (stop, refl)
  polled-IsIdle (gave found) s stop = observe_books-IsIdle found s stop

  pub poll_once-IsIdle :
      (fetch : List String → Called F (List (String × (Top F × Moment F)))) (s : Sniper F)
      → s.stop ≡ true
      → IsIdle s (poll_once fetch s)
  unfolding poll_once
  poll_once-IsIdle fetch s stop = go s.armed
    where
      go :
          (armed : List (String × ℕ))
          → IsIdle s (elim armed [
            | [] ↦ s
            | _ ∷ _ ↦ polled (fetch (map (λ (e : String × ℕ). e.0) s.armed)) s
          ])
      go [] = (stop, refl)
      go (_ ∷ _) = polled-IsIdle (fetch (map (λ (e : String × ℕ). e.0) s.armed)) s stop
