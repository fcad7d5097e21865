-- ===== src/Python.antt =====
-- What the program uses of Python itself: decoded JSON values, the builtins on texts and values,
-- the exception that a client raises, and results of functions that may raise.
use polymarket_tools.Prelude.{
  ℕ, String, Bool, true, false, not, Option, ◌≡◌, refl, ◌⊎◌, inl, inr, str_eq, if◌then◌else◌,
}
use polymarket_tools.Floats.{Floats}

-- A decoded JSON value. The keys of an object are distinct, as in a Python dict.
mutual
  pub data Json (F : Type 0) : Type 0 where
    null : Json F
    boolean : Bool → Json F
    number : F → Json F
    text : String → Json F
    array : Items F → Json F
    object : Fields F → Json F

  pub data Items (F : Type 0) : Type 0 where
    nil : Items F
    cons : Json F → Items F → Items F

  pub data Fields (F : Type 0) : Type 0 where
    end : Fields F
    field : String → Json F → Fields F → Fields F

pub data Error : Type 0 where
  value_error : String → Error
  attribute_error : Error
  -- any other exception, by its class
  other_error : String → Error

pub data Result {ℓ} (A : Type ℓ) : Type ℓ where
  ok : A → Result A
  err : Error → Result A

-- The builtins on texts that the code calls and that are not written in it.
pub record Texts : Type 0 where
  -- str of an int, repr(text), text[:n], text.lower(), text.upper()
  pub int_str : ℕ → String
  pub repr : String → String
  pub prefix : String → ℕ → String
  pub lower : String → String
  pub upper : String → String

-- The builtins on decoded values.
pub record Builtins (F : Type 0) : Type 0 where
  -- str(value), repr(value), type(value).__name__
  pub str : Json F → String
  pub repr : Json F → String
  pub type_name : Json F → String
  -- float(value), none where it raises TypeError or ValueError
  pub float : Json F → Option F
  -- datetime.fromtimestamp(seconds, utc), in microseconds since the epoch
  pub from_timestamp : F → Result ℕ

-- What a call raised: the exception's class and text, its status_code when it has an int there,
-- and its error_msg, null when it has none.
pub record Raised (F : Type 0) : Type 0 where
  pub class_name : String
  pub message : String
  pub status_code : Option ℕ
  pub error_msg : Json F

-- A call that gives a value or raises.
pub data Called (F A : Type 0) : Type 0 where
  gave : A → Called F A
  failed : Raised F → Called F A

infixl 5 ◌>>=◌
abbrev pub ◌>>=◌ {ℓ κ} : {A : Type ℓ} {B : Type κ} → Result A → (A → Result B) → Result B
ok a >>= f = f a
err e >>= f = err e

pub Result-cases {ℓ} :
    {A : Type ℓ} (r : Result A) → ((a : A) × (r ≡ ok a)) ⊎ ((e : Error) × (r ≡ err e))
Result-cases (ok a) = inl (a, refl)
Result-cases (err e) = inr (e, refl)

module _ {F : Type 0} where
  -- entry.get(key), null when the key is missing
  abbrev pub get : Fields F → String → Json F
  get end k = null
  get (field j v rest) k = if str_eq j k then v else get rest k

  -- bool(value)
  abbrev pub truthy : ⦃fl : Floats F⦄ → Json F → Bool
  truthy null = false
  truthy (boolean b) = b
  truthy ⦃fl⦄ (number x) = not (fl.eq x (fl.decimal 0 0))
  truthy (text s) = not (str_eq s "")
  truthy (array nil) = false
  truthy (array (cons _ _)) = true
  truthy (object end) = false
  truthy (object (field _ _ _)) = true

  -- a or b
  abbrev pub or_else : ⦃fl : Floats F⦄ → Json F → Json F → Json F
  or_else a b = if truthy a then a else b
