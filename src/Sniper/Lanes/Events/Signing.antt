-- ===== src/Sniper/Lanes/Events/Signing.antt =====
-- tools/sniper.py: the control lane's events presign nothing.
use polymarket_tools.Prelude.{
  ℕ, suc, ◌≡◌, refl, inl, inr, String, true, false, not, ◌&&◌, Option, none, some, List, [], ◌∷◌,
  get_elem?, ◌==◌, read_at, Bool-cases, Option-cases,
}
use polymarket_tools.Floats.{Floats}
use polymarket_tools.Python.{Builtins, Texts}
use polymarket_tools.Sniper.{settle}
use polymarket_tools.Sniper.Lanes.{
  Watch, Event, prepared, claimed_by, resolved, note, Sniper, is_claimed, is_id,
}
use polymarket_tools.Sniper.Lanes.Events.{
  Station, Clocks, log_line, note_each, forget, route, keys, on_event, id_of, on_address, on_id,
  handle, handle_each, drain, then_do,
}
use polymarket_tools.ToolsDb.Watches.{close_watch}
use polymarket_tools.Sniper.Lanes.Signing.{StaysSigned}

module _ {F : Type 0} ⦃tx : Texts⦄ where
  abbrev pub StaysIf : Sniper F → Option (Station F) → Type 0
  StaysIf s none = Unit
  StaysIf s (some t) = StaysSigned s t.sniper

  pub StaysIf-then_do :
      (s : Sniper F) (o : Option (Station F)) (f : Station F → Option (Station F))
      → StaysIf s o
      → ((t : Station F) → StaysIf t.sniper (f t))
      → StaysIf s (then_do o f)
  StaysIf-then_do s none f h k = tt
  StaysIf-then_do s (some t) f h k = extend (f t) (k t)
    where
      extend : (o : Option (Station F)) → StaysIf t.sniper o → StaysIf s o
      extend none j = tt
      extend (some t') j = λ v. j (h v)

  pub StaysIf-after :
      (s s' : Sniper F) (o : Option (Station F)) → StaysSigned s s' → StaysIf s' o → StaysIf s o
  StaysIf-after s s' none h k = tt
  StaysIf-after s s' (some t) h k = λ v. k (h v)

module _ {F : Type 0} ⦃fl : Floats F⦄ ⦃py : Builtins F⦄ ⦃tx : Texts⦄ where
  sniper-note_each :
      (now : ℕ) (message : String) (armed : List (String × ℕ)) (t : Station F)
      → (note_each now message armed t).sniper ≡ t.sniper
  unfolding note_each
  sniper-note_each now message [] t = refl
  sniper-note_each now message ((token_id, b) ∷ rest) t =
      elim (Option-cases (get_elem? t.sniper.heap b)) [
        | inl absent ↦ rw (note_each, absent) (sniper-note_each now message rest t)
        | inr (watch, here) ↦
            rw (note_each, here)
              (sniper-note_each now message rest (log_line now (some watch.id) message t))
      ]

  on_event-IsSigned :
      (event : Event F) (c : Clocks F) (b : ℕ) (watch : Watch F) (t : Station F)
      → StaysIf t.sniper (on_event event c b watch t)
  unfolding on_event forget
  on_event-IsSigned (note id message) c b watch t = λ v. v
  on_event-IsSigned (prepared d) c b watch t =
      elim (Bool-cases (d == b && not (is_claimed b t.sniper))) [
        | inl same ↦ rw same (λ v. v)
        | inr other ↦ rw other (λ v. v)
      ]
  on_event-IsSigned (claimed_by id trigger) c b watch t = λ v. v
  on_event-IsSigned (resolved id outcome trigger n send_ms post_ms) c b watch t =
      elim (Option-cases (close_watch t.db id (settle outcome (some n)) c.wall send_ms post_ms)) [
        | inl fails ↦ rw (on_event, fails) tt
        | inr ((true, db), done) ↦ rw (on_event, done) (λ v. v)
        | inr ((false, db), done) ↦ rw (on_event, done) (λ v. v)
      ]

  on_address-IsSigned :
      (event : Event F) (c : Clocks F) (b : Option ℕ) (t : Station F)
      → StaysIf t.sniper (on_address event c b t)
  unfolding on_address
  on_address-IsSigned event c none t = λ v. v
  on_address-IsSigned event c (some b) t = elim (Option-cases (get_elem? t.sniper.heap b)) [
    | inl absent ↦ rw (on_address, absent) (λ v. v)
    | inr (watch, here) ↦ rw (on_address, here) (on_event-IsSigned event c b watch t)
  ]

  on_id-IsSigned :
      (event : Event F) (c : Clocks F) (id : Option ℕ) (t : Station F)
      → StaysIf t.sniper (on_id event c id t)
  unfolding on_id
  on_id-IsSigned event c none t = λ v. v
  on_id-IsSigned event c (some id) t =
      on_address-IsSigned event c (read_at (is_id id) t.sniper.adopted) t

  handle-IsSigned :
      (event : Event F) (c : Clocks F) (t : Station F) → StaysIf t.sniper (handle event c t)
  unfolding handle
  handle-IsSigned (note none message) c t =
      rw (sniper-note_each c.wall message t.sniper.armed t) (λ v. v)
  handle-IsSigned (note (some id) message) c t = elim (Bool-cases (id == 0)) [
    | inl zeroth ↦ rw (zeroth, sniper-note_each c.wall message t.sniper.armed t) (λ v. v)
    | inr real ↦ rw real (λ v. v)
  ]
  handle-IsSigned (prepared d) c t = on_id-IsSigned (prepared d) c (id_of t.sniper (prepared d)) t
  handle-IsSigned (claimed_by id trigger) c t =
      on_id-IsSigned (claimed_by id trigger) c (id_of t.sniper (claimed_by id trigger)) t
  handle-IsSigned (resolved id outcome trigger n send_ms post_ms) c t =
      on_id-IsSigned (resolved id outcome trigger n send_ms post_ms) c
        (id_of t.sniper (resolved id outcome trigger n send_ms post_ms)) t

  handle_each-IsSigned :
      (at : ℕ → Clocks F) (n : ℕ) (events : List (Event F)) (t : Station F)
      → StaysIf t.sniper (handle_each at n events t)
  unfolding handle_each
  handle_each-IsSigned at n [] t = λ v. v
  handle_each-IsSigned at n (event ∷ rest) t =
      StaysIf-then_do t.sniper (handle event (at n) t) (handle_each at (suc n) rest)
        (handle-IsSigned event (at n) t) (λ t'. handle_each-IsSigned at (suc n) rest t')

  pub drain-IsSigned : (at : ℕ → Clocks F) (t : Station F) → StaysIf t.sniper (drain at t)
  unfolding drain route
  drain-IsSigned at t =
      let taken = record t { sniper = record t.sniper { inbox = [] } } in
      StaysIf-then_do t.sniper (handle_each at 0 t.sniper.inbox taken)
        (λ t'. some (record t' { sniper = route (keys t.sniper.armed) t'.sniper }))
        (handle_each-IsSigned at 0 t.sniper.inbox taken) (λ t'. λ v. v)
