-- ===== src/ToolsDb/Watches/Rows.antt =====
-- tools/db.py: the invariant of the table `watches`, and the rows that a statement may write.
use polymarket_tools.Prelude.{
  ◌+◌, [], ◌∷◌, All-append, count_if-append, count_if-of_not_any, str_eq, eq_iff, if◌then◌else◌, ℕ,
  ◌≤◌, String, Bool, true, false, not, ◌||◌, ◌≡◌, refl, arith, Option, some, List, All, All-of,
  All-imp, All-update, update, count_if, count_if-update, get_elem?, get_elem?-update, every,
  Distinct, Below, Distinct-update, Below-update, All-every, ◌∷◌, Option-cases, inl, Bool-cases,
  any, inr, count_if-append, All-append, Distinct-append, Below-suc, keep_if, none,
}
use mathlib.Core.Path.{subst}
use mathlib.Core.Option.{some-injective}
use polymarket_tools.ToolsDb.Types.{Db, WatchRow, Settlement, Sample, is_open, NewWatch, is_firing}
use polymarket_tools.ToolsDb.Watches.{
  checks, open_on, to_disarm, armed_with_id, open_with_id, Freeze, frozen, disarming, settled,
  sampled, close, close_watch, publish_rows, arm_watch, request_disarm, mark_firing, close_each,
  close_firing, append_log,
}

module _ {F : Type 0} where
  abbrev pub row_id : WatchRow F → ℕ
  row_id row = row.id

  pub record IsValid (rows : List (WatchRow F)) (next : ℕ) : Type 0 where
    -- the unique index on the token of an open watch
    pub one_open : (token : String) → count_if (open_on token) rows ≤ 1
    -- the CHECKs
    pub checked : All (λ row. checks row ≡ true) rows
    pub distinct : Distinct row_id rows
    pub below : Below row_id next rows

  abbrev pub DbIsValid : Db F → Type 0
  DbIsValid db = IsValid db.watches db.next_watch

  -- What a statement writes to the rows it selects: the same watch on the same token, open only
  -- if it was, and within the CHECKs if it was.
  pub record Writes (p : WatchRow F → Bool) (f : WatchRow F → WatchRow F) : Type 0 where
    same_id : (row : WatchRow F) → (f row).id ≡ row.id
    same_token : (row : WatchRow F) → (f row).order.token_id ≡ row.order.token_id
    of_open : (row : WatchRow F) → p row ≡ true → is_open row.state ≡ true

  update-IsValid :
      (p : WatchRow F → Bool) (f : WatchRow F → WatchRow F) (rows : List (WatchRow F)) (next : ℕ)
      → Writes p f
      → All (λ row. p row ≡ true → checks row ≡ true → checks (f row) ≡ true) rows
      → IsValid rows next
      → IsValid (update p f rows) next
  update-IsValid p f rows next w keeps v = record {
    one_open = λ token. omega (
      arith,
      v.one_open token,
      count_if-update (open_on token) p f rows
          (All-of _ (λ row pr q. ground (arith, w.of_open row pr, w.same_token row)) rows),
    );
    checked = All-update (λ row. checks row ≡ true) p f rows keeps v.checked;
    distinct = Distinct-update row_id f w.same_id p rows v.distinct;
    below = Below-update row_id f w.same_id p next rows v.below;
  }

  -- A closed row is in no statement's WHERE clause.
  pub update-final :
      (p : WatchRow F → Bool) (f : WatchRow F → WatchRow F) (rows : List (WatchRow F)) (n : ℕ)
      (row : WatchRow F)
      → Writes p f
      → is_open row.state ≡ false
      → get_elem? rows n ≡ some row
      → get_elem? (update p f rows) n ≡ some row
  update-final p f rows n row w ended at =
      get_elem?-update p f rows n row at (ground (arith, w.of_open row))

  pub disarming-Writes : (id now : ℕ) → Writes (to_disarm id) (disarming now)
  disarming-Writes id now = record {
    same_id = λ r. refl;
    same_token = λ r. refl;
    of_open = λ r h. ground arith;
  }

  pub frozen-Writes : (id : ℕ) (at : Freeze F) → Writes (armed_with_id id) (frozen at)
  frozen-Writes id at = record {
    same_id = λ r. refl;
    same_token = λ r. refl;
    of_open = λ r h. ground arith;
  }

  settled-Writes :
      (id : ℕ) (by : Settlement) (now : ℕ) (send_ms post_ms : Option F)
      → Writes (open_with_id id) (settled by now send_ms post_ms)
  settled-Writes id by now send_ms post_ms = record {
    same_id = λ r. refl;
    same_token = λ r. refl;
    of_open = λ r h. ground arith;
  }

  sampled-Writes : (id : ℕ) (sample : Sample F) → Writes (armed_with_id id) (sampled sample)
  sampled-Writes id sample = record {
    same_id = λ r. refl;
    same_token = λ r. refl;
    of_open = λ r h. ground arith;
  }

  close-eq-some :
      (rows : List (WatchRow F)) (id : ℕ) (by : Settlement) (now : ℕ) (send_ms post_ms : Option F)
      {closed : Bool} {rows' : List (WatchRow F)}
      → close rows id by now send_ms post_ms ≡ some (closed, rows')
      → (rows' ≡ update (open_with_id id) (settled by now send_ms post_ms) rows)
        × (every
              (λ row. not (open_with_id id row) || checks (settled by now send_ms post_ms row))
              rows
            ≡ true)
  unfolding close
  close-eq-some rows id by now send_ms post_ms e = ground arith

  pub close-IsValid :
      (rows : List (WatchRow F)) (next id : ℕ) (by : Settlement) (now : ℕ)
      (send_ms post_ms : Option F) {closed : Bool} {rows' : List (WatchRow F)}
      → close rows id by now send_ms post_ms ≡ some (closed, rows')
      → IsValid rows next
      → IsValid rows' next
  close-IsValid rows next id by now send_ms post_ms e v =
      let (at, passed) = close-eq-some rows id by now send_ms post_ms e in
      rw at (
        update-IsValid (open_with_id id) (settled by now send_ms post_ms) rows next
          (settled-Writes id by now send_ms post_ms)
          (All-imp _ _ (λ row h p _. ground arith) rows (All-every _ rows passed)) v)

  pub close-final :
      (rows : List (WatchRow F)) (id : ℕ) (by : Settlement) (now : ℕ) (send_ms post_ms : Option F)
      {closed : Bool} {rows' : List (WatchRow F)} (n : ℕ) (row : WatchRow F)
      → close rows id by now send_ms post_ms ≡ some (closed, rows')
      → is_open row.state ≡ false
      → get_elem? rows n ≡ some row
      → get_elem? rows' n ≡ some row
  close-final rows id by now send_ms post_ms n row e ended at =
      rw (close-eq-some rows id by now send_ms post_ms e).0 (
        update-final (open_with_id id) (settled by now send_ms post_ms) rows n row
          (settled-Writes id by now send_ms post_ms) ended at)

  pub close_watch-eq-some :
      (db db' : Db F) (id : ℕ) (by : Settlement) (now : ℕ) (send_ms post_ms : Option F)
      {closed : Bool}
      → close_watch db id by now send_ms post_ms ≡ some (closed, db')
      → (close db.watches id by now send_ms post_ms ≡ some (closed, db'.watches))
        × (db'.next_watch ≡ db.next_watch)
  unfolding close_watch
  close_watch-eq-some db db' id by now send_ms post_ms e = (ground arith, ground arith)

  pub publish-IsValid :
      (samples : List (Sample F)) (rows : List (WatchRow F)) (next : ℕ)
      → IsValid rows next
      → IsValid (publish_rows samples rows) next
  unfolding publish_rows
  publish-IsValid [] rows next v = v
  publish-IsValid (sample ∷ rest) rows next v = publish-IsValid rest _ next (
      update-IsValid (armed_with_id sample.watch_id) (sampled sample) rows next
        (sampled-Writes sample.watch_id sample)
        (All-of _ (λ row p c. unfold checks in ground arith) rows) v)

  pub request_disarm-IsValid :
      (db : Db F) (id now : ℕ) → DbIsValid db → DbIsValid (request_disarm db id now).1
  unfolding request_disarm
  request_disarm-IsValid db id now v =
      update-IsValid (to_disarm id) (disarming now) db.watches db.next_watch
        (disarming-Writes id now) (All-of _ (λ row p c. unfold checks in ground arith) db.watches) v

  pub mark_firing-IsValid :
      (db : Db F) (id : ℕ) (at : Freeze F) → DbIsValid db → DbIsValid (mark_firing db id at)
  unfolding mark_firing
  mark_firing-IsValid db id at v =
      update-IsValid (armed_with_id id) (frozen at) db.watches db.next_watch (frozen-Writes id at)
        (All-of _ (λ row p c. unfold checks in ground arith) db.watches) v

  one_open-arm :
      (rows : List (WatchRow F)) (next : ℕ) (armed_token token : String)
      → any (open_on armed_token) rows ≡ false
      → IsValid rows next
      → count_if (open_on token) rows + (if str_eq armed_token token then 1 else 0) ≤ 1
  one_open-arm rows next armed_token token free v = elim (Bool-cases (str_eq armed_token token)) [
    | inl e ↦ rw e (
        omega (
          arith,
          count_if-of_not_any (open_on armed_token) (open_on token) rows free
              (λ row c. ground (arith, eq_iff armed_token token)),
        ))
    | inr e ↦ rw e (omega (arith, v.one_open token))
  ]

  pub arm_watch-IsValid :
      (db : Db F) (new : NewWatch F) (now : ℕ) → DbIsValid db → DbIsValid (arm_watch db new now).1
  unfolding arm_watch
  arm_watch-IsValid db new now v = elim (Bool-cases (any (open_on new.order.token_id) db.watches)) [
    | inl taken ↦ rw taken v
    | inr free ↦ rw free (record {
      one_open = λ token.
          rw count_if-append
            (omega (arith, one_open-arm db.watches db.next_watch new.order.token_id token free v));
      checked = All-append _ db.watches _ v.checked (unfold checks in ground arith, tt);
      distinct = Distinct-append row_id db.watches _ v.distinct v.below;
      below =
          All-append _ db.watches _ (Below-suc row_id db.next_watch db.watches v.below)
            (omega arith, tt);
    })
  ]

  pub close_each-IsValid :
      (left : List (WatchRow F)) (db db' : Db F) (by : Settlement) (line : String) (now : ℕ)
      → close_each left db by line now ≡ some db'
      → DbIsValid db
      → DbIsValid db'
  unfolding close_each
  close_each-IsValid [] db db' by line now e v = subst DbIsValid (some-injective db db' e) v
  close_each-IsValid (row ∷ rest) db db' by line now e v =
      elim (Option-cases (close db.watches row.id by now none none)) [
        | inl refused ↦ absurd (ground arith)
        | inr ((closed, rows), found) ↦
            close_each-IsValid rest
              (append_log (record db { watches = rows }) now line none (some row.id)) db' by line
              now (ground arith)
              (close-IsValid db.watches db.next_watch row.id by now none none found v)
      ]

  pub close_each-final :
      (left : List (WatchRow F)) (db db' : Db F) (by : Settlement) (line : String) (now n : ℕ)
      (closed_row : WatchRow F)
      → close_each left db by line now ≡ some db'
      → is_open closed_row.state ≡ false
      → get_elem? db.watches n ≡ some closed_row
      → get_elem? db'.watches n ≡ some closed_row
  unfolding close_each
  close_each-final [] db db' by line now n closed_row e ended at =
      subst (λ d. get_elem? d.watches n ≡ some closed_row) (some-injective db db' e) at
  close_each-final (row ∷ rest) db db' by line now n closed_row e ended at =
      elim (Option-cases (close db.watches row.id by now none none)) [
        | inl refused ↦ absurd (ground arith)
        | inr ((closed, rows), found) ↦
            close_each-final rest
              (append_log (record db { watches = rows }) now line none (some row.id)) db' by line
              now n closed_row (ground arith) ended
              (close-final db.watches row.id by now none none n closed_row found ended at)
      ]

  pub publish-final :
      (samples : List (Sample F)) (rows : List (WatchRow F)) (n : ℕ) (row : WatchRow F)
      → is_open row.state ≡ false
      → get_elem? rows n ≡ some row
      → get_elem? (publish_rows samples rows) n ≡ some row
  unfolding publish_rows
  publish-final [] rows n row ended at = at
  publish-final (sample ∷ rest) rows n row ended at = publish-final rest _ n row ended (
      update-final (armed_with_id sample.watch_id) (sampled sample) rows n row
        (sampled-Writes sample.watch_id sample) ended at)

  pub close_firing-eq-some :
      (db db' : Db F) (by : Settlement) (line : String) (now : ℕ) {ids : List ℕ}
      → close_firing db by line now ≡ some (ids, db')
      → close_each (keep_if (λ row. is_firing row.state) db.watches) db by line now ≡ some db'
  unfolding close_firing
  close_firing-eq-some db db' by line now e = ground arith
