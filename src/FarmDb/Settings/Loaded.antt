-- ===== src/FarmDb/Settings/Loaded.antt =====
-- farm/farm_db.py: what the farmer reads of the settings.
use polymarket_tools.Prelude.{
  String, true, ◌≡◌, refl, inl, inr, Option, none, some, List, [], ◌∷◌, All, Bool-cases, arith,
}
use mathlib.Core.Path.{subst}
use polymarket_tools.Floats.{Floats}
use polymarket_tools.Python.{
  Json, number, null, boolean, array, object, Builtins, Texts, ok, Result-cases,
}
use polymarket_tools.FarmDb.Types.{SettingRow, FarmDb}
use polymarket_tools.FarmDb.Settings.{
  JsonText, Bound, admits, bound_of, in_bound, as_number, with_bound, parse_setting, is_others,
  add_value, add_row, values_of, load_settings,
}

module _ {F : Type 0} ⦃fl : Floats F⦄ ⦃py : Builtins F⦄ ⦃tx : Texts⦄ ⦃js : JsonText F⦄ where
  -- The setting is one of SETTINGS, and the number is finite and within its bound.
  abbrev pub IsWithin : String → F → Type 0
  IsWithin key x =
      (bound : Bound F) × (bound_of key ≡ some bound)
      × (js.is_finite x ≡ true)
      × (admits bound x ≡ true)

  in_bound-eq-ok :
      (key : String) (bound : Bound F) (x y : F)
      → in_bound key bound x ≡ ok y
      → (x ≡ y) × (js.is_finite x ≡ true) × (admits bound x ≡ true)
  unfolding in_bound
  in_bound-eq-ok key bound x y e = (ground arith, ground arith, ground arith)

  as_number-eq-ok :
      (key text : String) (bound : Bound F) (j : Option (Json F)) (x : F)
      → as_number key text bound j ≡ ok x
      → (j ≡ some (number x)) × (js.is_finite x ≡ true) × (admits bound x ≡ true)
  unfolding as_number
  as_number-eq-ok key text bound none x e = absurd (cc e)
  as_number-eq-ok key text bound (some (number y)) x e =
      let (same, finite, fits) = in_bound-eq-ok key bound y x e in
      (
        cc,
        subst (λ z. js.is_finite z ≡ true) same finite,
        subst (λ z. admits bound z ≡ true) same fits,
      )
  as_number-eq-ok key text bound (some null) x e = absurd (cc e)
  as_number-eq-ok key text bound (some (boolean b)) x e = absurd (cc e)
  as_number-eq-ok key text bound (some (Json.text t)) x e = absurd (cc e)
  as_number-eq-ok key text bound (some (array xs)) x e = absurd (cc e)
  as_number-eq-ok key text bound (some (object fs)) x e = absurd (cc e)

  with_bound-eq-ok :
      (key text : String) (o : Option (Bound F)) (x : F)
      → with_bound key text o ≡ ok x
      → (js.loads text ≡ some (number x))
        × ((bound : Bound F) × (o ≡ some bound) × (js.is_finite x ≡ true) × (admits bound x ≡ true))
  unfolding with_bound
  with_bound-eq-ok key text none x e = absurd (cc e)
  with_bound-eq-ok key text (some bound) x e =
      let (read, finite, fits) = as_number-eq-ok key text bound (js.loads text) x e in
      (read, (bound, refl, finite, fits))

  -- What parse_setting gives is the number in the text, within the setting's bound.
  pub parse_setting-IsWithin :
      (key text : String) (x : F)
      → parse_setting key text ≡ ok x
      → (js.loads text ≡ some (number x)) × IsWithin key x
  unfolding parse_setting
  parse_setting-IsWithin key text x e = with_bound-eq-ok key text (bound_of key) x e

  add_row-All :
      (row : SettingRow) (values : List (String × F))
      → All (λ (e : String × F). IsWithin e.0 e.1) values
      → All (λ (e : String × F). IsWithin e.0 e.1) (add_row row values)
  unfolding add_row add_value
  add_row-All row values h = elim (Bool-cases (is_others row.key)) [
    | inl others ↦ rw others h
    | inr ours ↦ elim (Result-cases (parse_setting {F = F} row.key row.value)) [
      | inl (x, e) ↦ rw (add_row, ours, e) ((parse_setting-IsWithin row.key row.value x e).1, h)
      | inr (bad, e) ↦ rw (add_row, ours, e) h
    ]
  ]

values_of-All :
    (F : Type 0) ⦃fl : Floats F⦄ ⦃py : Builtins F⦄ ⦃tx : Texts⦄ ⦃js : JsonText F⦄
    (rows : List SettingRow)
    → All (λ (e : String × F). IsWithin e.0 e.1) (values_of {F = F} rows)
unfolding values_of
values_of-All F [] = tt
values_of-All F (row ∷ rest) = add_row-All row (values_of {F = F} rest) (values_of-All F rest)

module _ {F : Type 0} ⦃fl : Floats F⦄ ⦃py : Builtins F⦄ ⦃tx : Texts⦄ ⦃js : JsonText F⦄ where
  -- Whatever stands in the table, each value that the farmer takes is of a setting of SETTINGS,
  -- finite, and within that setting's bound.
  pub load_settings-IsWithin :
      (db : FarmDb F) → All (λ (e : String × F). IsWithin e.0 e.1) (load_settings db)
  unfolding load_settings
  load_settings-IsWithin db = values_of-All F db.settings
