-- ===== src/FarmDb/Settings.antt =====
-- farm/farm_db.py: the settings that the console overrides and the farmer reads.
pub mod Loaded
pub mod Put
use polymarket_tools.Prelude.{
  ℕ, String, Bool, true, false, not, ◌&&◌, ◌||◌, Option, none, some, List, [], ◌∷◌, ◌++◌, map, any,
  keep_if, update, str_eq, read_at, if◌then◌else◌, ◌&◌,
}
use polymarket_tools.Floats.{Floats, ◌<?◌, ◌≤?◌, decimal}
use polymarket_tools.Python.{Json, number, Builtins, Texts, Result, ok, err, value_error, ◌>>=◌}
use polymarket_tools.FarmDb.Markets.{write_capital}
use polymarket_tools.ToolsDb.Types.{stamp}
use polymarket_tools.FarmDb.Types.{SettingRow, FarmDb}

-- The module json and math.isfinite.
pub record JsonText (F : Type 0) : Type 0 where
  -- json.loads, none where it raises, and json.dumps
  pub loads : String → Option (Json F)
  pub dumps : Json F → String
  pub is_finite : F → Bool

-- `high` is none for math.inf.
pub record Bound (F : Type 0) : Type 0 where
  pub low : F
  pub high : Option F
  pub low_open : Bool

module _ {F : Type 0} ⦃fl : Floats F⦄ where
  abbrev pub at_most : Option F → F → Bool
  at_most none x = true
  at_most (some high) x = x ≤? high

  -- Bound.admits of a number that is finite
  abbrev pub admits : Bound F → F → Bool
  admits bound x =
      (if bound.low_open then bound.low <? x else bound.low ≤? x) && at_most bound.high x

  abbrev from_zero : Option F → Bool → Bound F
  from_zero high low_open = record { low = decimal 0 0; high = high; low_open = low_open }

  -- SETTINGS
  abbrev pub settings : List (String × Bound F)
  settings =
      ("capital", from_zero none true)
      ∷ ("max_lead", from_zero (some (decimal 5 1)) false)
      ∷ ("ask_offset", from_zero (some (decimal 5 1)) false)
      ∷ ("min_capture", from_zero (some (decimal 5 1)) false)
      ∷ ("ev_margin", from_zero (some (decimal 5 1)) false)
      ∷ ("min_fav", from_zero (some (decimal 1 0)) true)
      ∷ ("min_low_score", from_zero (some (decimal 1 0)) true)
      ∷ ("keep_ratio", from_zero (some (decimal 1 0)) false)
      ∷ ("drop_threshold", from_zero (some (decimal 1 0)) true)
      ∷ ("drop_window_s", from_zero none true)
      ∷ ("cooldown_s", from_zero none false)
      ∷ ("naked_cooldown_s", from_zero none false)
      ∷ ("expiry_buffer_days", from_zero none false)
      ∷ ("hurdle_rate", from_zero (some (decimal 10 0)) false)
      ∷ []

  -- SETTINGS.get(key)
  unfoldable pub bound_of : String → Option (Bound F)
  bound_of key = read_at (λ j. str_eq j key) settings

abbrev pub has_key : String → SettingRow → Bool
has_key key row = str_eq row.key key

-- key LIKE 'scan.%' OR key LIKE 'triage.%', which ignore case
abbrev pub is_others : ⦃tx : Texts⦄ → String → Bool
is_others ⦃tx⦄ key =
    str_eq (tx.prefix (tx.lower key) 5) "scan." || str_eq (tx.prefix (tx.lower key) 7) "triage."

module _ {F : Type 0} ⦃fl : Floats F⦄ ⦃py : Builtins F⦄ ⦃tx : Texts⦄ ⦃js : JsonText F⦄ where
  in_bound : String → Bound F → F → Result F
  in_bound key bound x =
      if not (js.is_finite x) || not (admits bound x)
      then err (value_error (key & ": " & py.repr (number x) & " is out of range"))
      else ok x

  as_number : String → String → Bound F → Option (Json F) → Result F
  unfolding in_bound
  as_number key text bound none = err (value_error (key & ": " & tx.repr text & " is not JSON"))
  as_number key text bound (some (number x)) = in_bound key bound x
  as_number key text bound (some _) =
      err (value_error (key & ": " & tx.repr text & " is not a number"))

  with_bound : String → String → Option (Bound F) → Result F
  unfolding as_number
  with_bound key text none = err (value_error ("unknown setting " & tx.repr key))
  with_bound key text (some bound) = as_number key text bound (js.loads text)

  unfoldable pub parse_setting : String → String → Result F
  unfolding with_bound
  parse_setting key text = with_bound key text (bound_of key)

  -- _put_json
  put_json : String → Json F → ℕ → List SettingRow → List SettingRow
  put_json key value now rows =
      if any (has_key key) rows
      then update (has_key key)
          (λ row. record row { value = js.dumps value; updated_at = stamp now }) rows
      else rows ++ (record { key = key; value = js.dumps value; updated_at = stamp now } ∷ [])

  put_each : List (String × Json F) → ℕ → List SettingRow → List SettingRow
  unfolding put_json
  put_each [] now rows = rows
  put_each ((key, value) ∷ rest) now rows = put_each rest now (put_json key value now rows)

  -- The checks that come before the transaction.
  check_each : List (String × Json F) → Result (Unit {0})
  unfolding parse_setting
  check_each [] = ok tt
  check_each ((key, value) ∷ rest) =
      let others = check_each rest in parse_setting key (js.dumps value) >>= (λ _. others)

  unfoldable pub put_settings : FarmDb F → List (String × Json F) → ℕ → Result (FarmDb F)
  unfolding check_each put_each
  put_settings db values now =
      check_each values >>= (λ _. ok (record db { settings = put_each values now db.settings }))

  unfoldable pub put_setting : FarmDb F → String → Json F → ℕ → Result (FarmDb F)
  unfolding put_settings
  put_setting db key value now = put_settings db ((key, value) ∷ []) now

  unfoldable pub delete_setting : FarmDb F → String → FarmDb F
  delete_setting db key = record db {
    settings = keep_if (λ row. not (has_key key row)) db.settings;
  }

  add_value : String → Result F → List (String × F) → List (String × F)
  add_value key (ok x) values = (key, x) ∷ values
  add_value key (err e) values = values

  -- What a row adds, unless it is the console's or the screener's.
  add_row : SettingRow → List (String × F) → List (String × F)
  unfolding add_value
  add_row row values =
      if is_others row.key
      then values
      else add_value row.key (parse_setting row.key row.value) values

  -- The values of load_settings, in the order of the rows.
  values_of : List SettingRow → List (String × F)
  unfolding add_row
  values_of [] = []
  values_of (row ∷ rest) = add_row row (values_of rest)

  unfoldable pub load_settings : FarmDb F → List (String × F)
  unfolding values_of
  load_settings db = values_of db.settings

  -- set_capital's check: none is the farmer's capital
  check_capital : Option F → Result (Option F)
  unfolding parse_setting
  check_capital none = ok none
  check_capital (some x) = parse_setting "capital" (js.dumps (number x)) >>= (λ y. ok (some y))

  unfoldable pub set_capital : FarmDb F → String → Option F → Result (FarmDb F)
  unfolding check_capital write_capital
  set_capital db id capital_usd =
      check_capital capital_usd >>= (λ checked. ok (write_capital db id checked))
