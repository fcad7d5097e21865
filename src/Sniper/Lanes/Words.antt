-- ===== src/Sniper/Lanes/Words.antt =====
use polymarket_tools.Prelude.{ℕ, String, Option, none, some, is_some, str_eq, if◌then◌else◌, ◌&◌}
use polymarket_tools.Floats.{Floats, ◌⊖◌, fixed1}
use polymarket_tools.Python.{Texts}
use polymarket_tools.Polymarket.Orders.{posted, rejected, unanswered, terminal}
use polymarket_tools.ToolsDb.Types.{Guard}
use polymarket_tools.Sniper.{
  Quote, Trigger, Source, feed, poll, baseline, answered, rehearsed_with, unsigned, attempted,
  Outcome, missed_at, guard_refused, cut, by_disarm, by_stop, cents, side_name, reference,
}
use polymarket_tools.Sniper.Lanes.{Watch, Event, prepared, claimed_by, resolved, note}

-- source.value
abbrev pub source_value : Source → String
source_value feed = "feed"
source_value poll = "poll"
source_value baseline = "baseline"

abbrev text_or_none : Option String → String
text_or_none none = "None"
text_or_none (some t) = t

module _ {F : Type 0} ⦃fl : Floats F⦄ where
  -- cents of a price that may be missing
  abbrev cents? : Option F → String
  cents? none = "--"
  cents? (some price) = cents price

  -- That the guard passed. A guard that passes has a quote.
  passed : Watch F → Trigger F → Option (Guard F) → Option (Quote F) → String
  passed watch trigger none quote = "no guard"
  passed watch trigger (some guard) none = ""
  passed watch trigger (some guard) (some quote) =
      side_name watch.order.side
      & " "
      & cents? (reference watch.order.side quote)
      & " from the "
      & source_value quote.source
      & " "
      & fixed1 (trigger.at ⊖ quote.at)
      & " s before"

  -- Where the tick was seen. Only a watch that was missed or disarmed has no trigger.
  seen_by : Option (Trigger F) → String
  seen_by none = ""
  seen_by (some trigger) =
      "tick " & trigger.tick & " seen by the " & source_value trigger.source & "; "

  adopted_line : Watch F → Option (Quote F) → String
  adopted_line watch none = ""
  adopted_line watch (some base) =
      "adopted at tick "
      & text_or_none base.tick
      & " (bid "
      & cents? base.bid
      & ", ask "
      & cents? base.ask
      & "), "
      & (if is_some watch.presigned
          then "presigned for " & watch.target_text
          else "not presigned ("
            & elim watch.presign_error [
              | none ↦ "no key"
              | some e ↦ if str_eq e "" then "no key" else e
            ]
            & ")")

module _ {F : Type 0} ⦃fl : Floats F⦄ ⦃tx : Texts⦄ where
  outcome_line : Outcome → Option (Trigger F) → ℕ → String
  unfolding seen_by
  outcome_line (missed_at tick) trigger n =
      "missed: the book already showed tick " & tick & " at adoption"
  outcome_line (guard_refused reason detail) trigger n =
      seen_by trigger & "rejected by the guard: " & detail & "; nothing sent"
  outcome_line (attempted (answered (posted id))) trigger n =
      "fired: order " & id & " accepted on attempt " & tx.int_str n
  outcome_line (attempted (rehearsed_with signed)) trigger n =
      "rehearsed: a dry run reached the post on attempt "
      & tx.int_str n
      & ", "
      & (if signed then "signed" else "not signed")
  outcome_line (attempted (answered (rejected reason))) trigger n =
      "attempt "
      & tx.int_str n
      & " refused: "
      & reason
      & "; giving up, "
      & (if terminal reason then "no retry can change it" else "the retry window closed")
  outcome_line (attempted (answered (unanswered detail))) trigger n =
      "attempt " & tx.int_str n & " got no answer (" & detail & "); not retried: the order may rest"
  outcome_line (attempted (unsigned error)) trigger n = "could not sign the order: " & error
  outcome_line (cut by_disarm last_reason) trigger n =
      "disarmed inside the retry window after "
      & tx.int_str n
      & " refusals (last: "
      & last_reason
      & ")"
  outcome_line (cut by_stop last_reason) trigger n =
      "the worker stopped inside the retry window after "
      & tx.int_str n
      & " refusals (last: "
      & last_reason
      & ")"
  outcome_line _ trigger n = ""

  -- describe. No event has the outcomes Disarmed and Interrupted.
  unfoldable pub describe : Event F → Watch F → String
  unfolding adopted_line passed outcome_line seen_by
  describe (note id message) watch = message
  describe (prepared a) watch = adopted_line watch watch.base_quote
  describe (claimed_by id trigger) watch =
      seen_by (some trigger)
      & "guard passed: "
      & passed watch trigger watch.guard trigger.quote
      & "; posting"
  describe (resolved id outcome trigger n send_ms post_ms) watch = outcome_line outcome trigger n
