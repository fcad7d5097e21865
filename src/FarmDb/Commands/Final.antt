-- ===== src/FarmDb/Commands/Final.antt =====
-- farm/farm_db.py: a command is obeyed at most once.
use polymarket_tools.Prelude.{
  ◌++◌, ap, not, ◌<◌, ℕ, String, false, ◌≡◌, refl, Option, some, List, [], ◌∷◌, All, keep_if,
  update, get_elem?, get_elem?-update, get_elem?-append, ◌==◌, Bool-cases, inl, inr, arith, ◌<◌,
  not, Bool, ap,
}
use polymarket_tools.FarmDb.Types.{CommandRow, FarmDb}
use polymarket_tools.FarmDb.Commands.{
  is_pending, consumed, pending_with_id, send_command, pending_commands, consume_command,
  expire_commands, Bool, not,
}

-- One statement of a console or of a farmer on `commands`.
pub data CommandStep {F : Type 0} (db : FarmDb F) : FarmDb F → Type 0 where
  sends :
      (kind : String) (now : ℕ) (payload : Option String)
      → CommandStep db (send_command db kind now payload).1
  consumes :
      (id : ℕ) (result : String) (now : ℕ) → CommandStep db (consume_command db id result now)
  expires : (now : ℕ) → CommandStep db (expire_commands db now).1

module _ {F : Type 0} (db : FarmDb F) where
  -- A command that was consumed keeps the time and the result that it got first.
  pub CommandStep-final :
      {d : FarmDb F} (n : ℕ) (row : CommandRow)
      → is_pending row ≡ false
      → CommandStep db d
      → get_elem? db.commands n ≡ some row
      → get_elem? d.commands n ≡ some row
  unfolding send_command consume_command expire_commands
  CommandStep-final n row done (sends kind now payload) at = get_elem?-append db.commands _ n row at
  CommandStep-final n row done (consumes id result now) at =
      get_elem?-update (pending_with_id id) (consumed result now) db.commands n row at
        (ground arith)
  CommandStep-final n row done (expires now) at =
      get_elem?-update is_pending (consumed _ now) db.commands n row at done

none_pending :
    (f : CommandRow → CommandRow) (rows : List CommandRow)
    → ((row : CommandRow) → is_pending (f row) ≡ false)
    → keep_if is_pending (update is_pending f rows) ≡ []
none_pending f [] done = refl
none_pending f (row ∷ rows) done = ground (arith, done row, none_pending f rows done)

-- No command with this id waits.
abbrev NoneWaits : ℕ → List CommandRow → Type 0
NoneWaits id rows = All (λ row. (row.id == id) ≡ false) (keep_if is_pending rows)

NoneWaits-update :
    (id : ℕ) (p : CommandRow → Bool) (f : CommandRow → CommandRow) (rows : List CommandRow)
    → ((row : CommandRow) → is_pending (f row) ≡ false)
    → NoneWaits id rows
    → NoneWaits id (update p f rows)
NoneWaits-update id p f [] done h = tt
NoneWaits-update id p f (row ∷ rows) done h =
    let rest = NoneWaits-update id p f rows done in
    elim (Bool-cases (is_pending row)) [
      | inl waits ↦
          let here : ((row.id == id) ≡ false) × NoneWaits id rows = rw waits at h in
          elim (Bool-cases (p row)) [
            | inl hit ↦ rw (hit, done row) (rest here.1)
            | inr miss ↦ rw (miss, waits) (here.0, rest here.1)
          ]
      | inr over ↦
          let there : NoneWaits id rows = rw over at h in
          elim (Bool-cases (p row)) [
            | inl hit ↦ rw (hit, done row) (rest there)
            | inr miss ↦ rw (miss, over) (rest there)
          ]
    ]

NoneWaits-append :
    (id : ℕ) (rows : List CommandRow) (row : CommandRow)
    → (row.id == id) ≡ false
    → NoneWaits id rows
    → NoneWaits id (rows ++ (row ∷ []))
NoneWaits-append id [] row other h = ground arith
NoneWaits-append id (r ∷ rows) row other h = elim (Bool-cases (is_pending r)) [
  | inl waits ↦
      let here : ((r.id == id) ≡ false) × NoneWaits id rows = rw waits at h in
      rw waits (here.0, NoneWaits-append id rows row other here.1)
  | inr over ↦ rw over (NoneWaits-append id rows row other (rw over at h))
]

-- Consuming a command takes that one off the commands that wait, and no other.
consumed_one :
    (id : ℕ) (f : CommandRow → CommandRow) (rows : List CommandRow)
    → ((row : CommandRow) → is_pending (f row) ≡ false)
    → keep_if is_pending (update (pending_with_id id) f rows)
      ≡ keep_if (λ row. not (row.id == id)) (keep_if is_pending rows)
consumed_one id f [] done = refl
consumed_one id f (row ∷ rows) done = elim (Bool-cases (is_pending row)) [
  | inl waits ↦ elim (Bool-cases (row.id == id)) [
    | inl same ↦ rw (waits, same, done row) (consumed_one id f rows done)
    | inr other ↦ rw (waits, other, waits) (ap (λ rest. row ∷ rest) (consumed_one id f rows done))
  ]
  | inr over ↦ elim (Bool-cases (row.id == id)) [
    | inl same ↦ rw (over, same, over) (consumed_one id f rows done)
    | inr other ↦ rw (over, other, over) (consumed_one id f rows done)
  ]
]

not_kept :
    (id : ℕ) (rows : List CommandRow)
    → All (λ row. (row.id == id) ≡ false) (keep_if (λ row. not (row.id == id)) rows)
not_kept id [] = tt
not_kept id (row ∷ rows) = elim (Bool-cases (row.id == id)) [
  | inl same ↦ rw same (not_kept id rows)
  | inr other ↦ rw other (other, not_kept id rows)
]

-- Any sequence of statements, whoever makes them.
pub data CommandReach {F : Type 0} (db : FarmDb F) : FarmDb F → Type 0 where
  here : CommandReach db db
  next : {d d' : FarmDb F} → CommandReach db d → CommandStep d d' → CommandReach db d'

module _ {F : Type 0} (id : ℕ) where
  -- A command with this id was sent, and does not wait.
  abbrev IsOver : FarmDb F → Type 0
  IsOver db = NoneWaits id db.commands × (id < db.next_command)

  CommandStep-IsOver : {d d' : FarmDb F} → CommandStep d d' → IsOver d → IsOver d'
  unfolding send_command consume_command expire_commands
  CommandStep-IsOver {d} (sends kind now payload) (over, sent) =
      (NoneWaits-append id d.commands _ (ground arith) over, omega arith)
  CommandStep-IsOver {d} (consumes other result now) (over, sent) = (
    NoneWaits-update id (pending_with_id other) (consumed result now) d.commands (λ row. refl) over,
    sent,
  )
  CommandStep-IsOver {d} (expires now) (over, sent) =
      (NoneWaits-update id is_pending (consumed _ now) d.commands (λ row. refl) over, sent)

  CommandReach-IsOver : {d d' : FarmDb F} → IsOver d → CommandReach d d' → IsOver d'
  CommandReach-IsOver over here = over
  CommandReach-IsOver over (next r step) = CommandStep-IsOver step (CommandReach-IsOver over r)

  -- Consuming a command takes that one, and no other, off the list of those that wait; one whose id
  -- send_command has given is on no list that is read from then on, whatever is sent, consumed and
  -- expired in between; and a farmer that starts has nothing left to obey once it expired the
  -- commands.
  pub pending_commands-consumed :
      (db d : FarmDb F) (result : String) (now : ℕ)
      → id < db.next_command
      → CommandReach (consume_command db id result now) d
      → (pending_commands (consume_command db id result now)
          ≡ keep_if (λ row. not (row.id == id)) (pending_commands db))
        × All (λ row. (row.id == id) ≡ false) (pending_commands d)
        × (pending_commands (expire_commands d now).1 ≡ [])
  unfolding pending_commands expire_commands consume_command
  pending_commands-consumed db d result now sent r =
      let one = consumed_one id (consumed result now) db.commands (λ row. refl) in
      let over : NoneWaits id (update (pending_with_id id) (consumed result now) db.commands) =
        rw one (not_kept id (keep_if is_pending db.commands)) in
      (
        one,
        (CommandReach-IsOver (over, sent) r).0,
        none_pending (consumed _ now) d.commands (λ row. refl),
      )
