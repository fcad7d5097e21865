-- ===== src/Examples/Snipers.antt =====
-- The theorems on tools/sniper.py and polymarket/orders.py at concrete inputs.
use polymarket_tools.Prelude.{
  String, true, All, has_text, ◌≡◌, ◌↔◌, ◌⊎◌, refl, false, none, some, [], is_some,
}
use polymarket_tools.Floats.Nano.{ℤ, pos, nano, nano-OrderLaws}
use polymarket_tools.Python.{ok, array, null, nil, cons}
use polymarket_tools.Polymarket.Orders.{buy, terminal_refusals, post, posted, rejected, open_orders}
use polymarket_tools.Polymarket.Orders.Posting.{
  Accepts, Refuses, IsRejected, post-eq-posted, post-IsRejected,
}
use polymarket_tools.Polymarket.Orders.Listing.{Lists, open_orders-eq-ok}
use polymarket_tools.ToolsDb.Types.{is_open, is_fired, Guard}
use polymarket_tools.Sniper.{newest, judge, settle, retryable, attempted, answered}
use polymarket_tools.Sniper.Guarding.{Passes, NoNewer, judge-eq-none, newest-is_newest}
use polymarket_tools.Sniper.Settling.{MayRest, SaysMayRest, settle-MayRest, retryable-eq-true}
use polymarket_tools.Examples.World.{builtins, texts, quote, guard, accepting_call}

settle-MayRest_example :
    (SaysMayRest (settle (attempted (answered (posted "new"))) (some 1))
      ↔ MayRest (attempted (answered (posted "new"))))
    × (is_open (settle (attempted (answered (posted "new"))) (some 1)).state ≡ false)
    × (is_some (settle (attempted (answered (posted "new"))) (some 1)).order_id
        ≡ is_fired (settle (attempted (answered (posted "new"))) (some 1)).state)
settle-MayRest_example = settle-MayRest (attempted (answered (posted "new"))) (some 1) tt

retryable-eq-true_example : (retryable (answered (rejected "price is not on the grid")) ≡ true) ↔ (
    (reason : String) × (answered (rejected "price is not on the grid")
      ≡ answered (rejected reason))
    × All (λ refusal. has_text (texts.lower refusal) (texts.lower reason) ≡ false) terminal_refusals
    × (¬ MayRest (attempted (answered (rejected "price is not on the grid")))))
retryable-eq-true_example = retryable-eq-true (answered (rejected "price is not on the grid"))

judge-eq-none_example : (judge (some guard) buy (some quote) (pos 3000000000) ≡ none) ↔ (
    (some guard ≡ none)
    ⊎ ((g : Guard ℤ) × (some guard ≡ some g) × Passes g buy (some quote) (pos 3000000000)))
judge-eq-none_example = judge-eq-none (some guard) buy (some quote) (pos 3000000000)

newest-is_newest_example :
    ((none ≡ some quote) ⊎ ((some quote ≡ some quote) ⊎ (none ≡ some quote)))
    × NoNewer quote.at none
    × NoNewer quote.at (some quote)
    × NoNewer quote.at none
unfolding newest
newest-is_newest_example = newest-is_newest nano-OrderLaws none (some quote) none quote refl

post-eq-posted_example : (post accepting_call ≡ posted "new") ↔ Accepts accepting_call "new"
post-eq-posted_example = post-eq-posted accepting_call "new"

post-IsRejected_example : IsRejected (post accepting_call) ↔ Refuses accepting_call
post-IsRejected_example = post-IsRejected accepting_call

open_orders-eq-ok_example :
    (open_orders {F = ℤ} (array (cons null nil)) ≡ ok []) ↔ Lists {F = ℤ} (array (cons null nil)) []
open_orders-eq-ok_example = open_orders-eq-ok (array (cons null nil)) []
