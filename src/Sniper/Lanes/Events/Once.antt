-- ===== src/Sniper/Lanes/Events/Once.antt =====
-- tools/sniper.py: the control lane attempts nothing.
use polymarket_tools.Prelude.{
  ℕ, suc, ◌≡◌, refl, inl, inr, arith, String, true, false, not, ◌&&◌, Option, none, some, List, [],
  ◌∷◌, get_elem?, ◌==◌, read_at, Bool-cases, Option-cases,
}
use polymarket_tools.Floats.{Floats}
use polymarket_tools.Python.{Builtins, Texts}
use polymarket_tools.Sniper.{settle}
use polymarket_tools.Sniper.Lanes.{
  Watch, Event, prepared, claimed_by, resolved, note, Sniper, is_claimed, is_id,
}
use polymarket_tools.Sniper.Lanes.Events.{
  Station, Clocks, log_line, note_each, forget, route, keys, on_event, id_of, on_address, on_id,
  handle, handle_each, drain, then_do,
}
use polymarket_tools.ToolsDb.Watches.{close_watch}
use polymarket_tools.Sniper.Lanes.Once.{Keeps}

module _ {F : Type 0} ⦃tx : Texts⦄ (a : ℕ) where
  -- If the step does not raise, what it uses more it was given more.
  abbrev pub KeepsIf : Sniper F → Option (Station F) → Type 0
  KeepsIf s none = Unit
  KeepsIf s (some t) = Keeps a s t.sniper

  pub KeepsIf-then_do :
      (s : Sniper F) (o : Option (Station F)) (f : Station F → Option (Station F))
      → KeepsIf s o
      → ((t : Station F) → KeepsIf t.sniper (f t))
      → KeepsIf s (then_do o f)
  KeepsIf-then_do s none f h k = tt
  KeepsIf-then_do s (some t) f h k = extend (f t) (k t)
    where
      extend : (o : Option (Station F)) → KeepsIf t.sniper o → KeepsIf s o
      extend none j = tt
      extend (some t') j = omega arith

  pub KeepsIf-after :
      (s s' : Sniper F) (o : Option (Station F)) → Keeps a s s' → KeepsIf s' o → KeepsIf s o
  KeepsIf-after s s' none h k = tt
  KeepsIf-after s s' (some t) h k = omega arith

module _ {F : Type 0} ⦃fl : Floats F⦄ ⦃py : Builtins F⦄ ⦃tx : Texts⦄ (a : ℕ) where
  sniper-note_each :
      (now : ℕ) (message : String) (armed : List (String × ℕ)) (t : Station F)
      → (note_each now message armed t).sniper ≡ t.sniper
  unfolding note_each
  sniper-note_each now message [] t = refl
  sniper-note_each now message ((token_id, b) ∷ rest) t =
      elim (Option-cases (get_elem? t.sniper.heap b)) [
        | inl absent ↦ rw (note_each, absent) (sniper-note_each now message rest t)
        | inr (watch, here) ↦
            rw (note_each, here)
              (sniper-note_each now message rest (log_line now (some watch.id) message t))
      ]

  on_event-Keeps :
      (event : Event F) (c : Clocks F) (b : ℕ) (watch : Watch F) (t : Station F)
      → KeepsIf a t.sniper (on_event event c b watch t)
  unfolding on_event forget
  on_event-Keeps (note id message) c b watch t = omega arith
  on_event-Keeps (prepared d) c b watch t =
      elim (Bool-cases (d == b && not (is_claimed b t.sniper))) [
        | inl same ↦ rw same (omega arith)
        | inr other ↦ rw other (omega arith)
      ]
  on_event-Keeps (claimed_by id trigger) c b watch t = omega arith
  on_event-Keeps (resolved id outcome trigger n send_ms post_ms) c b watch t =
      elim (Option-cases (close_watch t.db id (settle outcome (some n)) c.wall send_ms post_ms)) [
        | inl fails ↦ rw (on_event, fails) tt
        | inr ((true, db), done) ↦ rw (on_event, done) (omega arith)
        | inr ((false, db), done) ↦ rw (on_event, done) (omega arith)
      ]

  on_address-Keeps :
      (event : Event F) (c : Clocks F) (b : Option ℕ) (t : Station F)
      → KeepsIf a t.sniper (on_address event c b t)
  unfolding on_address
  on_address-Keeps event c none t = omega arith
  on_address-Keeps event c (some b) t = elim (Option-cases (get_elem? t.sniper.heap b)) [
    | inl absent ↦ rw (on_address, absent) (omega arith)
    | inr (watch, here) ↦ rw (on_address, here) (on_event-Keeps event c b watch t)
  ]

  on_id-Keeps :
      (event : Event F) (c : Clocks F) (id : Option ℕ) (t : Station F)
      → KeepsIf a t.sniper (on_id event c id t)
  unfolding on_id
  on_id-Keeps event c none t = omega arith
  on_id-Keeps event c (some id) t = on_address-Keeps event c (read_at (is_id id) t.sniper.adopted) t

  handle-Keeps :
      (event : Event F) (c : Clocks F) (t : Station F) → KeepsIf a t.sniper (handle event c t)
  unfolding handle
  handle-Keeps (note none message) c t =
      rw (sniper-note_each c.wall message t.sniper.armed t) (omega arith)
  handle-Keeps (note (some id) message) c t = elim (Bool-cases (id == 0)) [
    | inl zeroth ↦ rw (zeroth, sniper-note_each c.wall message t.sniper.armed t) (omega arith)
    | inr real ↦ rw real (omega arith)
  ]
  handle-Keeps (prepared d) c t = on_id-Keeps (prepared d) c (id_of t.sniper (prepared d)) t
  handle-Keeps (claimed_by id trigger) c t =
      on_id-Keeps (claimed_by id trigger) c (id_of t.sniper (claimed_by id trigger)) t
  handle-Keeps (resolved id outcome trigger n send_ms post_ms) c t =
      on_id-Keeps (resolved id outcome trigger n send_ms post_ms) c
        (id_of t.sniper (resolved id outcome trigger n send_ms post_ms)) t

  handle_each-Keeps :
      (at : ℕ → Clocks F) (n : ℕ) (events : List (Event F)) (t : Station F)
      → KeepsIf a t.sniper (handle_each at n events t)
  unfolding handle_each
  handle_each-Keeps at n [] t = omega arith
  handle_each-Keeps at n (event ∷ rest) t =
      KeepsIf-then_do a t.sniper (handle event (at n) t) (handle_each at (suc n) rest)
        (handle-Keeps event (at n) t) (λ t'. handle_each-Keeps at (suc n) rest t')

  pub drain-Keeps : (at : ℕ → Clocks F) (t : Station F) → KeepsIf a t.sniper (drain at t)
  unfolding drain route
  drain-Keeps at t =
      let taken = record t { sniper = record t.sniper { inbox = [] } } in
      KeepsIf-then_do a t.sniper (handle_each at 0 t.sniper.inbox taken)
        (λ t'. some (record t' { sniper = route (keys t.sniper.armed) t'.sniper }))
        (handle_each-Keeps at 0 t.sniper.inbox taken) (λ t'. omega arith)
