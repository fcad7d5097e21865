-- ===== src/FarmDb/Settings/Put.antt =====
-- farm/farm_db.py: what the farmer reads after a setting was put.
use polymarket_tools.Prelude.{
  ℕ, String, true, false, ◌≡◌, refl, ◌∙◌, inl, inr, Option, some, List, [], ◌∷◌, ◌++◌, any, update,
  sym, str_eq, read_at, if◌then◌else◌, Bool-cases, arith, eq_iff, eq_refl,
}
use mathlib.Core.Path.{subst}
use polymarket_tools.ToolsDb.Types.{stamp}
use polymarket_tools.Floats.{Floats}
use polymarket_tools.Python.{number, Builtins, Texts, ok, err, Result-cases, Error}
use polymarket_tools.FarmDb.Types.{SettingRow, FarmDb}
use polymarket_tools.FarmDb.Settings.{
  JsonText, parse_setting, has_key, put_json, put_each, check_each, put_settings, put_setting,
  is_others, add_value, add_row, values_of, load_settings,
}
use polymarket_tools.FarmDb.Settings.Loaded.{parse_setting-IsWithin}

-- json.loads reads the number that json.dumps wrote as that number.
abbrev pub ReadsBack : {F : Type 0} → JsonText F → F → Type 0
ReadsBack js x = js.loads (js.dumps (number x)) ≡ some (number x)

module _ {F : Type 0} ⦃fl : Floats F⦄ ⦃py : Builtins F⦄ ⦃tx : Texts⦄ ⦃js : JsonText F⦄ where
  abbrev pub value_at : String → List (String × F) → Option F
  value_at k = read_at (λ j. str_eq j k)

  add_row_other :
      (k : String) (row : SettingRow) (values : List (String × F))
      → str_eq row.key k ≡ false
      → value_at k (add_row row values) ≡ value_at k values
  unfolding add_row add_value
  add_row_other k row values other = elim (Bool-cases (is_others row.key)) [
    | inl others ↦ rw others refl
    | inr ours ↦ elim (Result-cases (parse_setting {F = F} row.key row.value)) [
      | inl (x, e) ↦ rw (add_row, ours, e, other) refl
      | inr (bad, e) ↦ rw (add_row, ours, e) refl
    ]
  ]

  add_row_same :
      (k : String) (row : SettingRow) (values values' : List (String × F))
      → value_at k values ≡ value_at k values'
      → value_at k (add_row row values) ≡ value_at k (add_row row values')
  unfolding add_row add_value
  add_row_same k row values values' h = elim (Bool-cases (is_others row.key)) [
    | inl others ↦ rw others h
    | inr ours ↦ elim (Result-cases (parse_setting {F = F} row.key row.value)) [
      | inl (x, e) ↦ rw (add_row, ours, e, h) refl
      | inr (bad, e) ↦ rw (add_row, ours, e) h
    ]
  ]

  module _ (key : String) (x : F) (now : ℕ) (ours : is_others key ≡ false)
      (parses : parse_setting key (js.dumps (number x)) ≡ ok x) where
    abbrev write : SettingRow → SettingRow
    write row = record row { value = js.dumps (number x); updated_at = stamp now }

    add_row_hit :
        (row : SettingRow) (values : List (String × F))
        → has_key key row ≡ true
        → value_at key (add_row (write row) values) ≡ some x
    unfolding add_row add_value
    add_row_hit row values hit =
        let same : row.key ≡ key = (eq_iff row.key key).0 hit in
        rw (same, add_row, ours, parses, eq_refl) refl

    other_key :
        (k : String) (row : SettingRow)
        → str_eq key k ≡ false
        → has_key key row ≡ true
        → str_eq row.key k ≡ false
    other_key k row differ hit = ground (arith, eq_iff row.key key, eq_iff row.key k, eq_iff key k)

    value_at-update_ne :
        (k : String) (rows : List SettingRow)
        → str_eq key k ≡ false
        → value_at k (values_of (update (has_key key) write rows)) ≡ value_at k (values_of rows)
    unfolding values_of
    value_at-update_ne k [] differ = refl
    value_at-update_ne k (row ∷ rest) differ = elim (Bool-cases (has_key key row)) [
      | inl hit ↦ rw hit (
          add_row_other k (write row) (values_of (update (has_key key) write rest))
            (other_key k row differ hit)
          ∙ value_at-update_ne k rest differ
          ∙ sym (add_row_other k row (values_of rest) (other_key k row differ hit)))
      | inr miss ↦ rw miss (
          add_row_same k row (values_of (update (has_key key) write rest)) (values_of rest)
            (value_at-update_ne k rest differ))
    ]

    value_at-update_self :
        (rows : List SettingRow)
        → any (has_key key) rows ≡ true
        → value_at key (values_of (update (has_key key) write rows)) ≡ some x
    unfolding values_of
    value_at-update_self [] there = absurd (cc there)
    value_at-update_self (row ∷ rest) there = elim (Bool-cases (has_key key row)) [
      | inl hit ↦ rw hit (add_row_hit row (values_of (update (has_key key) write rest)) hit)
      | inr miss ↦ rw miss (
          add_row_other key row (values_of (update (has_key key) write rest)) miss
          ∙ value_at-update_self rest (ground arith))
    ]

  module _ (key : String) (x : F) (now : ℕ) (ours : is_others key ≡ false)
      (parses : parse_setting key (js.dumps (number x)) ≡ ok x) where
    abbrev new : SettingRow
    new = record { key = key; value = js.dumps (number x); updated_at = stamp now }

    value_at-append_ne :
        (k : String) (rows : List SettingRow)
        → str_eq key k ≡ false
        → value_at k (values_of {F = F} (rows ++ (new ∷ []))) ≡ value_at k (values_of {F = F} rows)
    unfolding values_of
    value_at-append_ne k [] differ = add_row_other k new [] differ
    value_at-append_ne k (row ∷ rest) differ =
        add_row_same k row (values_of {F = F} (rest ++ (new ∷ []))) (values_of {F = F} rest)
          (value_at-append_ne k rest differ)

    value_at-append_self :
        (rows : List SettingRow)
        → any (has_key key) rows ≡ false
        → value_at key (values_of {F = F} (rows ++ (new ∷ []))) ≡ some x
    unfolding values_of add_row add_value
    value_at-append_self [] fresh = rw (ours, parses, eq_refl) refl
    value_at-append_self (row ∷ rest) fresh =
        add_row_other key row (values_of {F = F} (rest ++ (new ∷ []))) (ground arith)
        ∙ value_at-append_self rest (ground arith)

    value_at-put_json :
        (k : String) (rows : List SettingRow)
        → value_at k (values_of {F = F} (put_json {F = F} key (number x) now rows))
          ≡ (if str_eq key k then some x else value_at k (values_of {F = F} rows))
    unfolding put_json
    value_at-put_json k rows = elim (Bool-cases (any (has_key key) rows)) [
      | inl old ↦ elim (Bool-cases (str_eq key k)) [
        | inl same ↦
            let is_key : key ≡ k = (eq_iff key k).0 same in
            rw (old, same)
              (subst
                (λ j.
                  value_at j
                    (values_of {F = F} (update (has_key key) (write key x now ours parses) rows))
                  ≡ some x)
                is_key (value_at-update_self key x now ours parses rows old))
        | inr differ ↦ rw (old, differ) (value_at-update_ne key x now ours parses k rows differ)
      ]
      | inr fresh ↦ elim (Bool-cases (str_eq key k)) [
        | inl same ↦
            let is_key : key ≡ k = (eq_iff key k).0 same in
            rw (fresh, same)
              (subst (λ j. value_at j (values_of {F = F} (rows ++ (new ∷ []))) ≡ some x) is_key
                (value_at-append_self rows fresh))
        | inr differ ↦ rw (fresh, differ) (value_at-append_ne k rows differ)
      ]
    ]

  -- What parse_setting gives for the text that json.dumps wrote is the number written.
  parse_setting-dumps :
      (key : String) (x y : F)
      → ReadsBack js x
      → parse_setting key (js.dumps (number x)) ≡ ok y
      → y ≡ x
  parse_setting-dumps key x y back e =
      let (read, _) = parse_setting-IsWithin key (js.dumps (number x)) y e in
      let written = back in cc

  put_taken :
      (db db' : FarmDb F) (key : String) (x y : F) (now : ℕ)
      → parse_setting key (js.dumps (number x)) ≡ ok y
      → put_setting db key (number x) now ≡ ok db'
      → db'.settings ≡ put_json {F = F} key (number x) now db.settings
  unfolding put_setting put_settings check_each put_each
  put_taken db db' key x y now parses e =
      let done : put_setting db key (number x) now
          ≡ ok (record db { settings = put_json {F = F} key (number x) now db.settings }) =
        rw parses refl in
      cc

  put_refused :
      (db db' : FarmDb F) (key : String) (x : F) (now : ℕ) (bad : Error)
      → parse_setting {F = F} key (js.dumps (number x)) ≡ err bad
      → put_setting db key (number x) now ≡ ok db'
      → ⊥
  unfolding put_setting put_settings check_each put_each
  put_refused db db' key x now bad fails e =
      let raised : put_setting db key (number x) now ≡ err bad = rw fails refl in
      absurd (cc (sym raised ∙ e))

  -- A number that put_setting took for a key that is the farmer's, and that json.loads reads back
  -- from what json.dumps wrote of it, is what load_settings gives of that key from then on, and
  -- what it gives of any other key is as before.
  pub load_settings-put_setting :
      (db db' : FarmDb F) (key : String) (x : F) (now : ℕ) (k : String)
      → ReadsBack js x
      → is_others key ≡ false
      → put_setting db key (number x) now ≡ ok db'
      → value_at k (load_settings db')
        ≡ (if str_eq key k then some x else value_at k (load_settings db))
  unfolding load_settings put_setting put_settings check_each put_each
  load_settings-put_setting db db' key x now k back ours e =
      elim (Result-cases (parse_setting {F = F} key (js.dumps (number x)))) [
        | inl (y, parses) ↦
            let reads = parse_setting-dumps key x y back parses in
            let taken = subst (λ z. parse_setting key (js.dumps (number x)) ≡ ok z) reads parses in
            let done = put_taken db db' key x x now taken e in
            rw done (value_at-put_json key x now ours taken k db.settings)
        | inr (bad, fails) ↦ absurd (put_refused db db' key x now bad fails e)
      ]
