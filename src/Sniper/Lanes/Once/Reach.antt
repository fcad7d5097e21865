-- ===== src/Sniper/Lanes/Once/Reach.antt =====
-- tools/sniper.py: the lanes and the console interleaved, and how often a watch is attempted.
use mathlib.Core.Path.{subst}
use mathlib.Core.Option.{some-injective}
use polymarket_tools.Prelude.{
  ℕ, ◌+◌, ◌≤◌, ◌≡◌, refl, arith, String, true, Option, none, some, List, [], count_if, ◌==◌,
}
use polymarket_tools.Floats.{Floats}
use polymarket_tools.Python.{Called, Builtins, Texts}
use polymarket_tools.ToolsDb.Types.{Db}
use polymarket_tools.Sniper.{feed}
use polymarket_tools.Sniper.Lanes.{Sniper, Moment, Top, on_top, poll_once, Fire}
use polymarket_tools.Sniper.Lanes.Slow.{Pass, work_once}
use polymarket_tools.Sniper.Lanes.Events.{Station, Clocks}
use polymarket_tools.Sniper.Lanes.Control.{tick, close_down}
use polymarket_tools.Sniper.Lanes.Once.{is_final, spent, Keeps, on_top-Keeps, poll_once-Keeps}
use polymarket_tools.Sniper.Lanes.Slow.Once.{work_once-Keeps}
use polymarket_tools.Sniper.Lanes.Events.Once.{KeepsIf}
use polymarket_tools.Sniper.Lanes.Control.Once.{tick-Keeps, close_down-Keeps}

module _ {F : Type 0} where
  abbrev pub set_stop : Sniper F → Sniper F
  set_stop s = record s { stop = true }

  -- A sniper that has just started: nothing was attempted.
  pub record IsNew (s : Sniper F) : Type 0 where
    pub no_retries : s.retries ≡ []
    pub no_fires : s.fires ≡ []
    pub none_made : s.made ≡ []

module _ {F : Type 0} ⦃fl : Floats F⦄ ⦃py : Builtins F⦄ ⦃tx : Texts⦄ where
  -- One handler of one lane, or a write by the console.
  pub data LaneStep (t : Station F) : Station F → Type 0 where
    updates :
        (token_id : String) (top : Top F) (at : Moment F)
        → LaneStep t (record t { sniper = on_top token_id top feed at t.sniper })
    polls :
        (fetch : List String → Called F (List (String × (Top F × Moment F))))
        → LaneStep t (record t { sniper = poll_once fetch t.sniper })
    works : (out : Pass F) → LaneStep t (record t { sniper = work_once out t.sniper })
    ticks :
        (at : ℕ → Clocks F) (c : Clocks F) (t' : Station F) → tick at c t ≡ some t' → LaneStep t t'
    stops : LaneStep t (record t { sniper = set_stop t.sniper })
    closes :
        (out : Pass F) (at : ℕ → Clocks F) (t' : Station F)
        → close_down out at (record t { sniper = set_stop t.sniper }) ≡ some t'
        → LaneStep t t'
    writes : (db : Db F) → LaneStep t (record t { db = db })

  pub data LaneReach (t : Station F) : Station F → Type 0 where
    here : LaneReach t t
    next : {t' t'' : Station F} → LaneReach t t' → LaneStep t' t'' → LaneReach t t''

  module _ (a : ℕ) where
    of_result :
        (s : Sniper F) (o : Option (Station F)) (t' : Station F)
        → KeepsIf a s o
        → o ≡ some t'
        → Keeps a s t'.sniper
    of_result s none t' h e = absurd (cc e)
    of_result s (some t) t' h e = subst (λ u. Keeps a s u.sniper) (some-injective t t' e) h

    LaneStep-Keeps : (t t' : Station F) → LaneStep t t' → Keeps a t.sniper t'.sniper
    LaneStep-Keeps t _ (updates token_id top at) = on_top-Keeps a token_id top feed at t.sniper
    LaneStep-Keeps t _ (polls fetch) = poll_once-Keeps a fetch t.sniper
    LaneStep-Keeps t _ (works out) = work_once-Keeps a out t.sniper
    LaneStep-Keeps t t' (ticks at c _ e) =
        of_result t.sniper (tick at c t) t' (tick-Keeps a at c t) e
    LaneStep-Keeps t _ stops = omega arith
    LaneStep-Keeps t t' (closes out at _ e) =
        let stopping = record t { sniper = set_stop t.sniper } in
        of_result t.sniper (close_down out at stopping) t' (close_down-Keeps a out at stopping) e
    LaneStep-Keeps t _ (writes db) = omega arith

    LaneReach-Keeps : (t t' : Station F) → LaneReach t t' → Keeps a t.sniper t'.sniper
    LaneReach-Keeps t _ here = omega arith
    LaneReach-Keeps t _ (next {t'} {t''} r step) =
        omega (arith, LaneReach-Keeps t t' r, LaneStep-Keeps t' t'' step)

    spent-new : (s : Sniper F) → IsNew s → spent a s ≡ 0
    spent-new s new = rw (new.no_retries, new.no_fires, new.none_made) refl

    -- However the lanes and the console interleave from a new sniper on, a watch makes at most one
    -- attempt that is not a refusal to try again, and none while a fire of it may still go on.
    pub LaneReach-fires_once :
        (t t' : Station F)
        → IsNew t.sniper
        → LaneReach t t'
        → count_if (is_final a) t'.sniper.made
            + count_if (λ (fire : Fire F). fire.shot.watch == a) t'.sniper.fires
            + count_if (λ (fire : Fire F). fire.shot.watch == a) t'.sniper.retries
          ≤ 1
    LaneReach-fires_once t t' new r = ground (arith, spent-new t.sniper new, LaneReach-Keeps t t' r)
