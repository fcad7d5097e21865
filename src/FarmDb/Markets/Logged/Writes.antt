-- ===== src/FarmDb/Markets/Logged/Writes.antt =====
-- farm/farm_db.py: each write keeps the log of decisions in step with the statuses.
use mathlib.Core.Path.{subst}
use polymarket_tools.Prelude.{
  ℕ, String, Bool, true, false, not, ◌&&◌, ◌≡◌, refl, sym, ◌∙◌, inl, inr, Option, none, some, List,
  [], ◌∷◌, ◌++◌, map, any, keep_if, update, str_eq, if◌then◌else◌, All, All-imp, All-append,
  Bool-cases, arith, eq_iff,
}
use polymarket_tools.FarmDb.Types.{
  Status, candidate, approved, rejected, retired, DecisionKind, as_approved, as_rejected,
  as_unrejected, RejectReason, is_approved, is_rejected, MarketRow, ScanRow, Decision, FarmDb,
}
use polymarket_tools.FarmDb.Markets.{
  has_id, scanned, new_market, upsert, upsert_each, entry, log_decision, write_markets,
}
use polymarket_tools.FarmDb.Markets.Logged.{
  explains, later, last_of, last_of-append, last_of-log, Explained, any-witness, any-All, IsLogged,
}

-- How an UPDATE moves the status of the market that a decision is logged of, and why the decision
-- explains it: `logged` says whether a row was logged.
abbrev pub Moves : DecisionKind → (Status → Bool) → (Status → Status) → Type 0
Moves kind admitted to =
    (s : Status) (l : Option DecisionKind) (logged : Bool)
    → explains s l ≡ true
    → (admitted s ≡ true → logged ≡ true)
    → (logged ≡ true → (t : Status) × (admitted t ≡ true) × (explains t l ≡ true))
    → explains (to s) (if logged then some kind else l) ≡ true

pub approve-Moves : Moves as_approved (λ s. not (is_approved s)) (λ s. approved)
approve-Moves approved l true h k w = refl
approve-Moves approved l false h k w = h
approve-Moves candidate l true h k w = refl
approve-Moves candidate l false h k w = absurd (cc (k refl))
approve-Moves rejected l true h k w = refl
approve-Moves rejected l false h k w = absurd (cc (k refl))
approve-Moves retired l true h k w = refl
approve-Moves retired l false h k w = absurd (cc (k refl))

pub reject-Moves : Moves as_rejected (λ s. true) (λ s. rejected)
reject-Moves s l true h k w = refl
reject-Moves s l false h k w = absurd (cc (k refl))

abbrev pub unrejected : Status → Status
unrejected s = if is_rejected s then candidate else s

pub unreject-Moves : Moves as_unrejected is_rejected unrejected
unreject-Moves candidate l true h k w = refl
unreject-Moves candidate l false h k w = h
unreject-Moves approved l true h k w = let (t, is_so, because) = w refl in absurd (ground arith)
unreject-Moves approved l false h k w = h
unreject-Moves rejected l true h k w = refl
unreject-Moves rejected l false h k w = absurd (cc (k refl))
unreject-Moves retired l true h k w = refl
unreject-Moves retired l false h k w = h

at_log :
    (logged : Bool) (l : Option DecisionKind) (kind : DecisionKind) (s : Status)
    → explains s (if logged then some kind else l) ≡ true
    → explains s (later (if logged then some kind else none) l) ≡ true
at_log true l kind s h = h
at_log false l kind s h = h

module _ {F : Type 0} where
  -- An UPDATE of one row.
  abbrev pub written :
      (MarketRow F → Bool) → (MarketRow F → MarketRow F) → MarketRow F → MarketRow F
  written p f row = if p row then f row else row

  All-written :
      (P : MarketRow F → Type 0) (p : MarketRow F → Bool) (f : MarketRow F → MarketRow F)
      (rows : List (MarketRow F))
      → All (λ row. P (written p f row)) rows
      → All P (update p f rows)
  All-written P p f [] h = tt
  All-written P p f (row ∷ rows) h = (h.0, All-written P p f rows h.1)

  All-both :
      (P Q : MarketRow F → Type 0) (rows : List (MarketRow F))
      → All P rows
      → All Q rows
      → All (λ row. P row × Q row) rows
  All-both P Q [] h k = tt
  All-both P Q (row ∷ rows) h k = ((h.0, k.0), All-both P Q rows h.1 k.1)

  any-own :
      (rows : List (MarketRow F)) → All (λ row. any (has_id row.condition_id) rows ≡ true) rows
  any-own [] = tt
  any-own (row ∷ rows) = (
    ground (arith, eq_iff row.condition_id row.condition_id),
    All-imp (λ r. any (has_id r.condition_id) rows ≡ true)
        (λ r. any (has_id r.condition_id) (row ∷ rows) ≡ true) (λ r h. ground arith) rows
        (any-own rows),
  )

  All-entries :
      (entry_of : MarketRow F → Decision F) (q : MarketRow F → Bool) (P : String → Type 0)
      (keeps : (row : MarketRow F) → (entry_of row).condition_id ≡ row.condition_id)
      (rows : List (MarketRow F))
      → All (λ row. P row.condition_id) rows
      → All (λ d. P d.condition_id) (map entry_of (keep_if q rows))
  All-entries entry_of q P keeps [] h = tt
  All-entries entry_of q P keeps (row ∷ rows) h = elim (Bool-cases (q row)) [
    | inl hit ↦ rw hit (subst P (sym (keeps row)) h.0, All-entries entry_of q P keeps rows h.1)
    | inr miss ↦ rw miss (All-entries entry_of q P keeps rows h.1)
  ]

  module _ (p : MarketRow F → Bool) (f : MarketRow F → MarketRow F)
      (keeps_id : (row : MarketRow F) → (f row).condition_id ≡ row.condition_id) where
    id-written : (row : MarketRow F) → (written p f row).condition_id ≡ row.condition_id
    id-written row = elim (Bool-cases (p row)) [
      | inl hit ↦ rw hit (keeps_id row)
      | inr miss ↦ rw miss refl
    ]

    any-written :
        (id : String) (rows : List (MarketRow F))
        → any (has_id id) (update p f rows) ≡ any (has_id id) rows
    any-written id [] = refl
    any-written id (row ∷ rows) = rw (id-written row, any-written id rows) refl

    Known-written :
        (ds : List (Decision F)) (rows : List (MarketRow F))
        → All (λ d. any (has_id d.condition_id) rows ≡ true) ds
        → All (λ d. any (has_id d.condition_id) (update p f rows) ≡ true) ds
    Known-written ds rows =
        All-imp (λ d. any (has_id d.condition_id) rows ≡ true)
          (λ d. any (has_id d.condition_id) (update p f rows) ≡ true)
          (λ d h. any-written d.condition_id rows ∙ h) ds

    -- A write with no decision, to a status that any decision explains or the one that was there.
    pub write-IsLogged :
        (db : FarmDb F)
        → ((row : MarketRow F) (l : Option DecisionKind)
            → p row ≡ true
            → explains row.status l ≡ true
            → explains (f row).status l ≡ true)
        → IsLogged db
        → IsLogged (write_markets p f db)
    write-IsLogged db keeps v = record {
      explained =
          All-written (λ row. explains row.status (last_of row.condition_id db.decisions) ≡ true) p
            f db.markets
            (All-imp (λ row. explains row.status (last_of row.condition_id db.decisions) ≡ true)
              (λ row.
                explains (written p f row).status
                  (last_of (written p f row).condition_id db.decisions)
                ≡ true)
              (λ row h. rw (id-written row) (elim (Bool-cases (p row)) [
                | inl hit ↦ rw hit (keeps row (last_of row.condition_id db.decisions) hit h)
                | inr miss ↦ rw miss h
              ]))
              db.markets v.explained);
      known = Known-written db.decisions db.markets v.known;
    }

    module _ (c : String) (kind : DecisionKind) (now : ℕ) (admitted : Status → Bool)
        (reason : Option RejectReason) (note : Option String) (p_true : Option (Option F))
        (to : Status → Status) (moves : Moves kind admitted to)
        (hits : (row : MarketRow F)
          → has_id c row ≡ true
          → (written p f row).status ≡ to row.status)
        (misses : (row : MarketRow F) → has_id c row ≡ false → p row ≡ false) (db : FarmDb F) where
      abbrev is_logged : Bool
      is_logged = any (λ row. has_id c row && admitted row.status) db.markets

      abbrev log : List (Decision F)
      log =
          map (entry kind now reason note p_true)
            (keep_if (λ row. has_id c row && admitted row.status) db.markets)

      log-row :
          (row : MarketRow F)
          → Explained db.decisions db.markets
          → explains row.status (last_of row.condition_id db.decisions) ≡ true
          → ((has_id c row && admitted row.status) ≡ true → is_logged ≡ true)
          → explains
              (written p f row).status
              (last_of (written p f row).condition_id (db.decisions ++ log))
            ≡ true
      log-row row all h member =
          let l = last_of row.condition_id db.decisions in
          rw
            (
              id-written row,
              last_of-append row.condition_id db.decisions log,
              last_of-log row.condition_id c kind now admitted reason note p_true db.markets,
            )
            (elim (Bool-cases (has_id c row)) [
              | inl hit ↦
                  let same : row.condition_id ≡ c = (eq_iff row.condition_id c).0 hit in
                  let here : str_eq c row.condition_id ≡ true =
                    (eq_iff c row.condition_id).1 (sym same) in
                  let moved =
                    moves row.status l is_logged h (λ e. member (ground arith))
                      (λ e.
                        subst
                          (λ id.
                            (s : Status) × (admitted s ≡ true)
                            × (explains s (last_of id db.decisions) ≡ true))
                          (sym same) (any-witness c admitted db.decisions db.markets all e)) in
                  rw (hits row hit, here) (at_log is_logged l kind (to row.status) moved)
              | inr miss ↦
                  let other : str_eq c row.condition_id ≡ false =
                    ground (arith, eq_iff c row.condition_id, eq_iff row.condition_id c) in
                  rw (misses row miss, other) h
            ])

      log-Known : All (λ d. any (has_id d.condition_id) db.markets ≡ true) log
      log-Known =
          All-entries (entry kind now reason note p_true)
            (λ row. has_id c row && admitted row.status) (λ id. any (has_id id) db.markets ≡ true)
            (λ row. refl) db.markets (any-own db.markets)

      pub log_decision-IsLogged :
          IsLogged db
          → IsLogged (write_markets p f (log_decision db c kind now admitted reason note p_true))
      unfolding log_decision
      log_decision-IsLogged v = record {
        explained =
            All-written
              (λ row. explains row.status (last_of row.condition_id (db.decisions ++ log)) ≡ true) p
              f db.markets
              (All-imp _ _ (λ row h. log-row row v.explained h.0 h.1) db.markets
                (All-both
                  (λ row. explains row.status (last_of row.condition_id db.decisions) ≡ true)
                  (λ row. (has_id c row && admitted row.status) ≡ true → is_logged ≡ true)
                  db.markets v.explained
                  (any-All (λ row. has_id c row && admitted row.status) db.markets)));
        known =
            Known-written (db.decisions ++ log) db.markets
              (All-append _ db.decisions log v.known log-Known);
      }

  last_of-none :
      (id : String) (rows : List (MarketRow F)) (ds : List (Decision F))
      → any (has_id id) rows ≡ false
      → All (λ d. any (has_id d.condition_id) rows ≡ true) ds
      → last_of id ds ≡ none
  last_of-none id rows [] absent known = refl
  last_of-none id rows (d ∷ ds) absent known = elim (Bool-cases (str_eq d.condition_id id)) [
    | inl same ↦
        let e : d.condition_id ≡ id = (eq_iff d.condition_id id).0 same in
        absurd (cc (absent, subst (λ j. any (has_id j) rows ≡ true) e known.0))
    | inr other ↦ rw (other, last_of-none id rows ds absent known.1) refl
  ]

  any-append_left :
      (q : MarketRow F → Bool) (rows more : List (MarketRow F))
      → any q rows ≡ true
      → any q (rows ++ more) ≡ true
  any-append_left q [] more h = absurd (cc h)
  any-append_left q (row ∷ rows) more h = ground (arith, any-append_left q rows more)

  upsert-IsLogged :
      (scan : ScanRow F) (at : ℕ) (db : FarmDb F)
      → IsLogged db
      → IsLogged (record db { markets = upsert scan at db.markets })
  unfolding upsert scanned
  upsert-IsLogged scan at db v = elim (Bool-cases (any (has_id scan.condition_id) db.markets)) [
    | inl old ↦ rw old (
        write-IsLogged (has_id scan.condition_id) (scanned scan at) (λ row. refl) db
          (λ row l hit h. h) v)
    | inr new ↦ rw new (record {
      explained =
          All-append (λ row. explains row.status (last_of row.condition_id db.decisions) ≡ true)
            db.markets (new_market scan at ∷ []) v.explained
            (rw (last_of-none scan.condition_id db.markets db.decisions new v.known) refl, tt);
      known =
          All-imp (λ d. any (has_id d.condition_id) db.markets ≡ true)
            (λ d. any (has_id d.condition_id) (db.markets ++ (new_market scan at ∷ [])) ≡ true)
            (λ d h. any-append_left (has_id d.condition_id) db.markets (new_market scan at ∷ []) h)
            db.decisions v.known;
    })
  ]

  pub upsert_each-IsLogged :
      (scans : List (ScanRow F)) (at : ℕ) (db : FarmDb F)
      → IsLogged db
      → IsLogged (record db { markets = upsert_each scans at db.markets })
  unfolding upsert_each
  upsert_each-IsLogged [] at db v = v
  upsert_each-IsLogged (scan ∷ rest) at db v =
      upsert_each-IsLogged rest at (record db { markets = upsert scan at db.markets })
        (upsert-IsLogged scan at db v)
