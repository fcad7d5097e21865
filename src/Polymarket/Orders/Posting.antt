-- ===== src/Polymarket/Orders/Posting.antt =====
-- polymarket/orders.py: when a post counts as placed and when as refused.
use polymarket_tools.Prelude.{String, true, false, ◌≡◌, ◌↔◌, arith, ◌⊎◌}
use polymarket_tools.Floats.{Floats}
use polymarket_tools.Python.{Json, object, Texts, Builtins, get, truthy}
use polymarket_tools.Polymarket.Orders.{
  Answer, posted, rejected, Call, returned, raised, is_refusal_status, post,
}

module _ {F : Type 0} ⦃fl : Floats F⦄ ⦃py : Builtins F⦄ where
  -- The answer is an object with success true, no errorMsg, and this order id.
  abbrev pub Accepts : Call F → String → Type 0
  Accepts (returned (object answer)) id =
      (truthy (get answer "errorMsg") ≡ false)
      × (truthy (get answer "success") ≡ true)
      × (truthy (get answer "orderID") ≡ true)
      × (py.str (get answer "orderID") ≡ id)
  Accepts _ id = ⊥

  -- The answer is an object that says no, or the client raised with a 4xx status.
  abbrev pub Refuses : Call F → Type 0
  Refuses (returned (object answer)) =
      (truthy (get answer "errorMsg") ≡ true) ⊎ (truthy (get answer "success") ≡ false)
  Refuses (returned _) = ⊥
  Refuses (raised e) = is_refusal_status e.status_code ≡ true

abbrev pub IsRejected : Answer → Type 0
IsRejected (rejected _) = Unit
IsRejected _ = ⊥

module _ {F : Type 0} ⦃fl : Floats F⦄ ⦃py : Builtins F⦄ ⦃tx : Texts⦄ where
  -- A post counts as placed with an id exactly when the exchange's answer is an object with
  -- success true, no errorMsg and that order id.
  pub post-eq-posted : (c : Call F) (id : String) → (post c ≡ posted id) ↔ Accepts c id
  unfolding post
  post-eq-posted (returned (object answer)) id = ground arith
  post-eq-posted (returned Json.null) id = ground arith
  post-eq-posted (returned _) id = ground arith
  post-eq-posted (raised e) id = ground arith

  -- A post counts as refused exactly when an object answered with errorMsg or without success, or
  -- when the client raised with a status from 400 to 499.
  pub post-IsRejected : (c : Call F) → IsRejected (post c) ↔ Refuses c
  unfolding post
  post-IsRejected (returned (object answer)) = ground arith
  post-IsRejected (returned Json.null) = ground arith
  post-IsRejected (returned _) = ground arith
  post-IsRejected (raised e) = ground arith
