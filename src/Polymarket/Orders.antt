-- ===== src/Polymarket/Orders.antt =====
-- polymarket/orders.py and polymarket/parse.py: limit orders, what a post became, and the
-- account's open orders. The exchange's client is outside the repository: what one of its calls
-- returned or raised is an argument.
pub mod Posting
pub mod Listing
use polymarket_tools.Prelude.{
  ℕ, String, Bool, true, false, not, ◌&&◌, ◌||◌, Option, none, some, List, [], ◌∷◌, ltb, leb, ◌==◌,
  str_eq, any, ◌&◌, has_text, if◌then◌else◌,
}
use polymarket_tools.Floats.{Floats, ◌<?◌, ◌⊖◌, ◌⊗◌, ◌⊘◌, absolute, decimal, general}
use polymarket_tools.Python.{
  Json, null, boolean, number, text, array, object, Items, nil, cons, Fields, Texts, Builtins,
  Raised, Result, ok, err, value_error, attribute_error, ◌>>=◌, get, truthy, or_else,
}

pub data Side : Type 0 where
  buy sell : Side

pub data OrderType : Type 0 where
  gtc gtd : OrderType

abbrev pub same_side : Side → Side → Bool
same_side buy buy = true
same_side sell sell = true
same_side _ _ = false

-- polymarket/region.py
abbrev pub geoblock_marker : String
geoblock_marker = "restricted in your region"

abbrev pub terminal_refusals : List String
terminal_refusals =
    geoblock_marker ∷ "http 451" ∷ "not enough balance" ∷ "allowance" ∷ "crosses book" ∷ []

pub data Answer : Type 0 where
  posted : String → Answer
  rejected : String → Answer
  unanswered : String → Answer

pub record LimitOrder (F : Type 0) : Type 0 where
  pub token_id : String
  pub side : Side
  pub price : F
  pub size : F
  pub expires_after_s : ℕ

pub order_type : {F : Type 0} → LimitOrder F → OrderType
order_type o = if o.expires_after_s == 0 then gtc else gtd

pub record OpenOrder (F : Type 0) : Type 0 where
  pub order_id : String
  pub token_id : String
  pub market : String
  pub outcome : String
  pub side : Side
  pub price : F
  pub size : F
  pub size_matched : F
  -- microseconds since the epoch
  pub expiration : Option ℕ

module _ {F : Type 0} ⦃fl : Floats F⦄ where
  -- text(tick)
  unfoldable pub tick_text : F → String
  tick_text tick = general tick

  unfoldable pub on_grid : F → F → Bool
  on_grid price tick =
      let steps = price ⊘ tick in absolute (steps ⊖ fl.round_to steps 0) <? decimal 1 6

  -- max(0.0, x) is x where x is greater.
  unfoldable pub remaining : OpenOrder F → F
  remaining o =
      let left =
        fl.floor (fl.round_to ((o.size ⊖ o.size_matched) ⊗ decimal 100 0) 4) ⊘ decimal 100 0 in
      if decimal 0 0 <? left then left else decimal 0 0

-- What client.post_order did.
pub data Call (F : Type 0) : Type 0 where
  returned : Json F → Call F
  raised : Raised F → Call F

-- 400 <= status < 500, of a status that is an int
abbrev pub is_refusal_status : Option ℕ → Bool
is_refusal_status none = false
is_refusal_status (some status) = leb 400 status && ltb status 500

module _ ⦃tx : Texts⦄ where
  abbrev status_text : Option ℕ → String
  status_text none = ""
  status_text (some status) = tx.int_str status

  unfoldable pub terminal : String → Bool
  terminal reason = any (λ refusal. has_text (tx.lower refusal) (tx.lower reason)) terminal_refusals

  side_field : String → String → Result Side
  side_field order_id sent =
      if str_eq (tx.upper sent) "BUY"
      then ok buy
      else if str_eq (tx.upper sent) "SELL"
      then ok sell
      else err (value_error ("order " & order_id & ": side is " & tx.repr sent))

module _ {F : Type 0} ⦃fl : Floats F⦄ ⦃py : Builtins F⦄ ⦃tx : Texts⦄ where
  -- _message(body)
  refusal_message : Json F → String
  refusal_message (object body) =
      py.str (or_else (or_else (get body "errorMsg") (get body "error")) (object body))
  refusal_message body = py.str body

  read_object : Fields F → Answer
  unfolding refusal_message
  read_object answer =
      if truthy (get answer "errorMsg") || not (truthy (get answer "success"))
      then rejected (refusal_message (object answer))
      else if not (truthy (get answer "orderID"))
      then unanswered "the CLOB reported success with no order id"
      else posted (py.str (get answer "orderID"))

  unfoldable pub read_response : Json F → Answer
  unfolding read_object
  read_response (object answer) = read_object answer
  read_response answer = unanswered ("the CLOB answered " & tx.repr (tx.prefix (py.str answer) 200))

  unfoldable pub post : Call F → Answer
  unfolding read_response
  post (returned answer) = read_response answer
  post (raised e) =
      if is_refusal_status e.status_code
      then rejected ("HTTP " & status_text e.status_code & ": " & refusal_message e.error_msg)
      else unanswered (e.class_name & ": " & e.message)

  -- polymarket/parse.py
  as_float : Json F → Option F
  as_float = py.float

  -- f"order {entry.get('id') or '?'}: "
  naming : Fields F → String
  naming entry = "order " & py.str (or_else (get entry "id") (text "?")) & ": "

  -- _text(entry, key)
  text_field : Fields F → String → Result String
  text_field entry key =
      if truthy (get entry key)
      then ok (py.str (get entry key))
      else err (value_error (naming entry & "no " & key))

  or_not_number : Fields F → String → Option F → Result F
  or_not_number entry key none =
      err (value_error (naming entry & key & " is " & py.repr (get entry key)))
  or_not_number entry key (some x) = ok x

  -- _number(entry, key)
  number_field : Fields F → String → Result F
  unfolding or_not_number as_float
  number_field entry key = or_not_number entry key (as_float (get entry key))

  at_seconds : F → Result (Option ℕ)
  at_seconds seconds =
      if fl.eq seconds (decimal 0 0)
      then ok none
      else (do at ← py.from_timestamp seconds; ok (some at))

  -- _expiration(entry): 0 is an order with no expiration
  expiration_field : Fields F → Result (Option ℕ)
  unfolding number_field at_seconds
  expiration_field entry =
      if not (truthy (get entry "expiration"))
      then ok none
      else do seconds ← number_field entry "expiration"; at_seconds seconds

  unfoldable pub parse_order : Json F → Result (OpenOrder F)
  unfolding text_field number_field expiration_field side_field naming
  parse_order (object entry) = do
    order_id ← text_field entry "id"
    sent_side ← text_field entry "side"
    side ← side_field order_id sent_side
    token_id ← text_field entry "asset_id"
    market ← text_field entry "market"
    price ← number_field entry "price"
    size ← number_field entry "original_size"
    size_matched ← number_field entry "size_matched"
    expiration ← expiration_field entry
    ok (record {
      order_id = order_id;
      token_id = token_id;
      market = market;
      outcome = py.str (or_else (get entry "outcome") (text ""));
      side = side;
      price = price;
      size = size;
      size_matched = size_matched;
      expiration = expiration;
    })
  parse_order entry = err attribute_error

  pub parse_orders : Items F → Result (List (OpenOrder F))
  parse_orders nil = ok []
  parse_orders (cons entry rest) = do
    first ← parse_order entry
    others ← parse_orders rest
    ok (first ∷ others)

  -- open_orders(client), of the listing that client.get_open_orders returned
  pub open_orders : Json F → Result (List (OpenOrder F))
  unfolding parse_orders
  open_orders (array entries) = parse_orders entries
  open_orders listed =
      err (value_error ("the CLOB listed open orders as " & py.type_name listed & ", not a list"))
