-- ===== src/Restore.antt =====
-- tools/restore.py: what a restore would do with each order of a snapshot. `Place` carries it out.
pub mod Keys
pub mod Copies
pub mod Rerun
pub mod Place
pub mod Preview
use polymarket_tools.Prelude.{
  ℕ, ◌+◌, String, Bool, true, false, not, ◌&&◌, Option, none, some, List, [], ◌∷◌, map, any,
  keep_if, leb, str_eq, contains, if◌then◌else◌, ◌&◌,
}
use polymarket_tools.Floats.{Floats, ◌<?◌, ◌≤?◌, decimal, general}
use polymarket_tools.Python.{Json, Builtins, Texts, Result, ok, err, value_error, ◌>>=◌}
use polymarket_tools.Polymarket.Orders.{OpenOrder, Side, same_side, remaining, open_orders}
use polymarket_tools.ToolsDb.Types.{
  Db, Job, SnapshotOrder, RestoreAction, would_place, placed, skip_live, skip_expired, skip_farmer,
  skip_filled,
}

-- EXPIRY_MARGIN, in microseconds: the CLOB's 60 seconds and one minute more.
abbrev pub expiry_margin : ℕ
expiry_margin = 120000000

pub record PlanLine (F : Type 0) : Type 0 where
  pub order : SnapshotOrder F
  pub action : RestoreAction
  pub size : F
  pub reason : String

-- _key(order)
pub record Key (F : Type 0) : Type 0 where
  pub token_id : String
  pub side : Side
  pub price : F
  pub remaining : F

-- What `plan` is given besides the snapshot: the ids that still rest, the markets that the farmer
-- manages or has retired, and the time.
pub record Context : Type 0 where
  pub resting : List String
  pub managed_markets : List String
  pub retired_markets : List String
  pub now : ℕ

abbrev pub expires_by : ℕ → Option ℕ → Bool
expires_by limit none = false
expires_by limit (some at) = leb at limit

abbrev pub is_farmers : Option Bool → Bool
is_farmers none = false
is_farmers (some farmer) = farmer

abbrev pub is_unrecorded : Option Bool → Bool
is_unrecorded none = true
is_unrecorded (some _) = false

abbrev pub is_would_place : RestoreAction → Bool
is_would_place would_place = true
is_would_place _ = false

abbrev pub is_placed : RestoreAction → Bool
is_placed placed = true
is_placed _ = false

module _ {F : Type 0} ⦃fl : Floats F⦄ where
  abbrev pub key : OpenOrder F → Key F
  key order = record {
    token_id = order.token_id;
    side = order.side;
    price = fl.round_to order.price 6;
    remaining = remaining order;
  }

  -- Two keys are one key of a dict.
  pub same_key : Key F → Key F → Bool
  same_key a b =
      str_eq a.token_id b.token_id
      && same_side a.side b.side
      && fl.eq a.price b.price
      && fl.eq a.remaining b.remaining

  -- The branches of `plan` that skip an order whatever copies are left.
  unfoldable pub skip : Context → SnapshotOrder F → Option (RestoreAction × String)
  skip at stored =
      let order = stored.order in
      if remaining order ≤? decimal 0 0
      then some (skip_filled, "nothing of it was left to fill")
      else if contains order.market at.managed_markets
      then some (skip_farmer, "the farmer manages this market")
      else if is_farmers stored.farmer
      then some (skip_farmer, "the farmer managed this market when the snapshot was taken")
      else if is_unrecorded stored.farmer && contains order.market at.retired_markets
      then some (
        skip_farmer,
        "the farmer has retired this market, and the snapshot does not record whose order this was",
      )
      else if expires_by at.now order.expiration
      then some (skip_expired, "expired")
      else if expires_by (at.now + expiry_margin) order.expiration
      then some (skip_expired, "expires too soon for the CLOB to take")
      else if contains order.order_id at.resting
      then some (skip_live, "still open")
      else none

  -- copies[key] -= 1, of a Counter that lists each key as often as it counts it
  pub remove_one : Key F → List (Key F) → List (Key F)
  remove_one k [] = []
  remove_one k (c ∷ copies) =
      let rest = remove_one k copies in if same_key k c then copies else c ∷ rest

  why_placed : OpenOrder F → String
  why_placed order =
      if decimal 0 0 <? order.size_matched
      then general order.size_matched & " of " & general order.size & " had filled"
      else "not open"

  planned_line : SnapshotOrder F → RestoreAction → String → PlanLine F
  planned_line stored action reason = record {
    order = stored;
    action = action;
    size = remaining stored.order;
    reason = reason;
  }

  pub plan_lines : Context → List (Key F) → List (SnapshotOrder F) → List (PlanLine F)
  unfolding skip planned_line why_placed remove_one same_key
  plan_lines at copies [] = []
  plan_lines at copies (stored ∷ rest) =
      let copied = any (same_key (key stored.order)) copies in
      let copies' = if copied then remove_one (key stored.order) copies else copies in
      elim (skip at stored) [
        | some (action, reason) ↦ planned_line stored action reason ∷ plan_lines at copies rest
        | none ↦
            (if copied
              then planned_line stored skip_live "an open order matches it"
              else planned_line stored would_place (why_placed stored.order))
            ∷ plan_lines at copies' rest
      ]

  pub snapshot_ids : List (SnapshotOrder F) → List String
  snapshot_ids = map (λ stored. stored.order.order_id)

  -- The keys of the open orders that are not in the snapshot.
  pub copies_of : List (SnapshotOrder F) → List (OpenOrder F) → List (Key F)
  unfolding snapshot_ids
  copies_of stored live =
      map key (keep_if (λ o. not (contains o.order_id (snapshot_ids stored))) live)

  pub context : List (OpenOrder F) → List String → ℕ → List String → Context
  context live managed now retired = record {
    resting = map (λ o. o.order_id) live;
    managed_markets = managed;
    retired_markets = retired;
    now = now;
  }

  unfoldable pub plan :
      List (SnapshotOrder F)
      → List (OpenOrder F)
      → List String
      → ℕ
      → List String
      → List (PlanLine F)
  unfolding plan_lines copies_of context
  plan stored live managed now retired =
      plan_lines (context live managed now retired) (copies_of stored live) stored
