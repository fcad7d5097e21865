-- ===== src/Sniper.antt =====
-- tools/sniper.py: the data of the sniper and its pure decisions.
pub mod Guarding
pub mod Settling
pub mod Lanes
use polymarket_tools.Prelude.{
  ℕ, String, Bool, true, false, not, ◌&&◌, ◌||◌, Option, none, some, List, [], ◌∷◌, str_eq,
  if◌then◌else◌, ◌&◌,
}
use polymarket_tools.Floats.{Floats, ◌<?◌, ◌≤?◌, ◌⊖◌, ◌⊗◌, decimal, general, fixed1}
use polymarket_tools.Python.{Raised, Texts, Builtins}
use polymarket_tools.Polymarket.Orders.{
  Side, buy, sell, Answer, posted, rejected, unanswered, Call, post, terminal, LimitOrder,
  same_side,
}
use polymarket_tools.ToolsDb.Types.{
  Guard, Reason, at_target, guard_no_quote, guard_stale, guard_price, venue, sign, stopped,
  interrupted, Settlement, WatchState, fired, rehearsed, missed, failed, disarmed,
}
use polymarket_tools.ToolsDb.Watches.{admits}

pub data Source : Type 0 where
  feed poll baseline : Source

pub record Quote (F : Type 0) : Type 0 where
  pub bid : Option F
  pub ask : Option F
  pub tick : Option String
  pub source : Source
  pub at : F

pub record Trigger (F : Type 0) : Type 0 where
  pub at : F
  pub source : Source
  pub tick : String
  pub quote : Option (Quote F)

-- What signing gives: the client's bytes for this order at this tick.
pub record Signed (F : Type 0) : Type 0 where
  pub order : LimitOrder F
  pub tick : String

pub record Presigned (F : Type 0) : Type 0 where
  pub order : Signed F
  pub tick : String
  pub at : F

pub data Attempt : Type 0 where
  answered : Answer → Attempt
  rehearsed_with : Bool → Attempt
  unsigned : String → Attempt

pub data CutBy : Type 0 where
  by_disarm by_stop : CutBy

pub data Outcome : Type 0 where
  missed_at : String → Outcome
  guard_refused : Reason → String → Outcome
  attempted : Attempt → Outcome
  cut : CutBy → String → Outcome
  was_disarmed : Outcome
  was_interrupted : Outcome

abbrev side_name : Side → String
side_name buy = "bid"
side_name sell = "ask"

module _ {F : Type 0} ⦃fl : Floats F⦄ where
  -- cents(price)
  abbrev pub cents : F → String
  cents price = fixed1 (price ⊗ decimal 100 0) & "c"

  abbrev pub reached : F → F → Bool
  reached tick target = tick ≤? target

  -- max(seen, key=at) keeps the first of the newest.
  abbrev newer : Option (Quote F) → Option (Quote F) → Option (Quote F)
  newer none b = b
  newer (some a) none = some a
  newer (some a) (some b) = if a.at <? b.at then some b else some a

  unfoldable pub newest : Option (Quote F) → Option (Quote F) → Option (Quote F) → Option (Quote F)
  newest a b c = newer (newer a b) c

  abbrev pub ticked : Option (Quote F) → Option (Quote F)
  ticked none = none
  ticked (some q) = elim q.tick [ none ↦ none | some _ ↦ some q ]

  abbrev tick_of : Option (Quote F) → Option String
  tick_of none = none
  tick_of (some q) = q.tick

  unfoldable pub last_tick : Option (Quote F) → Option (Quote F) → Option (Quote F) → Option String
  unfolding newest
  last_tick a b c = tick_of (newest (ticked a) (ticked b) (ticked c))

  -- PRESIGN_MAX_AGE_S
  abbrev pub presign_max_age_s : F
  presign_max_age_s = decimal 2 0

  unfoldable pub fresh : Option (Presigned F) → String → F → Option (Signed F)
  fresh none tick now = none
  fresh (some presigned) tick now =
      if not (str_eq presigned.tick tick) || (presign_max_age_s <? now ⊖ presigned.at)
      then none
      else some presigned.order

  abbrev pub reference : Side → Quote F → Option F
  reference buy quote = quote.bid
  reference sell quote = quote.ask

  judge_price : Guard F → Side → Option F → Option Outcome
  judge_price guard side none =
      some
        (guard_refused guard_no_quote ("no " & side_name side & " was seen before the tick change"))
  judge_price guard side (some price) =
      if not (admits guard price)
      then some (
          guard_refused guard_price (
            "the "
            & side_name side
            & " was "
            & cents price
            & ", not "
            & cents guard.price
            & " within "
            & cents guard.tolerance))
      else none

  judge_quote : Guard F → Side → Option (Quote F) → F → Option Outcome
  unfolding judge_price
  judge_quote guard side none now =
      some (guard_refused guard_no_quote "no quote was seen before the tick change")
  judge_quote guard side (some quote) now =
      if guard.max_age_s <? now ⊖ quote.at
      then some (
          guard_refused guard_stale (
            "the last quote was "
            & fixed1 (now ⊖ quote.at)
            & "s old, older than the guard's "
            & general guard.max_age_s
            & "s"))
      else judge_price guard side (reference side quote)

  -- judge: none lets the order go
  unfoldable pub judge : Option (Guard F) → Side → Option (Quote F) → F → Option Outcome
  unfolding judge_quote
  judge none side quote now = none
  judge (some guard) side quote now = judge_quote guard side quote now

module _ ⦃tx : Texts⦄ where
  unfoldable pub retryable : Attempt → Bool
  retryable (answered (rejected reason)) = not (terminal reason)
  retryable _ = false

abbrev settlement : WatchState → Option Reason → String → Option ℕ → Settlement
settlement state reason detail attempts = record {
  state = state;
  reason = reason;
  detail = detail;
  order_id = none;
  attempts = attempts;
}

unfoldable pub settle : Outcome → Option ℕ → Settlement
settle (missed_at tick) attempts = settlement missed (some at_target) tick attempts
settle (guard_refused reason detail) attempts =
    settlement WatchState.rejected (some reason) detail attempts
settle (attempted (answered (posted id))) attempts = record {
  state = fired;
  reason = none;
  detail = "";
  order_id = some id;
  attempts = attempts;
}
settle (attempted (rehearsed_with signed)) attempts =
    settlement rehearsed none
      (if signed then "signed, not sent" else "not signed (no key), not sent") attempts
settle (attempted (answered (rejected reason))) attempts =
    settlement failed (some venue) reason attempts
settle (attempted (answered (unanswered detail))) attempts =
    settlement failed (some Reason.unanswered) detail attempts
settle (attempted (unsigned error)) attempts = settlement failed (some sign) error attempts
settle (cut by_disarm last_reason) attempts = settlement disarmed none last_reason attempts
settle (cut by_stop last_reason) attempts = settlement failed (some stopped) last_reason attempts
settle was_disarmed attempts = settlement disarmed none "" attempts
settle was_interrupted attempts = settlement failed (some interrupted) "" attempts

-- LivePoster and DryPoster, which may hold a signer.
pub data Poster : Type 0 where
  live : Poster
  dry : Bool → Poster

-- What happens outside at one attempt: the exception if signing raises, and what the post is
-- answered.
pub record Venue (F : Type 0) : Type 0 where
  pub sign_error : Option (Raised F)
  pub call : Call F

module _ {F : Type 0} ⦃fl : Floats F⦄ ⦃py : Builtins F⦄ ⦃tx : Texts⦄ where
  abbrev error_text : Raised F → String
  error_text e = e.class_name & ": " & e.message

  -- What an attempt came to, and the order that it posted, if it posted one.
  post_signed : Signed F → Venue F → Attempt × Option (Signed F)
  post_signed signed at = (answered (post at.call), some signed)

  sign_and_post : LimitOrder F → String → Venue F → Attempt × Option (Signed F)
  unfolding post_signed
  sign_and_post order tick at = elim at.sign_error [
    | none ↦ post_signed (record { order = order; tick = tick }) at
    | some e ↦ (unsigned (error_text e), none)
  ]

  sign_only : Option (Raised F) → Attempt × Option (Signed F)
  sign_only none = (rehearsed_with true, none)
  sign_only (some e) = (unsigned (error_text e), none)

  -- poster.attempt(order, tick, presigned)
  unfoldable pub attempt :
      Poster → LimitOrder F → String → Option (Signed F) → Venue F → Attempt × Option (Signed F)
  unfolding sign_and_post sign_only
  attempt live order tick none at = sign_and_post order tick at
  attempt live order tick (some signed) at = post_signed signed at
  attempt (dry false) order tick presigned at = (rehearsed_with false, none)
  attempt (dry true) order tick none at = sign_only at.sign_error
  attempt (dry true) order tick (some signed) at = (rehearsed_with true, none)
