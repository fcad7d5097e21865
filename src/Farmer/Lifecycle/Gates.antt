-- ===== src/Farmer/Lifecycle/Gates.antt =====
-- farm/reward_farmer.py: what step_state lets a market do.
use polymarket_tools.Prelude.{
  ◌+◌, String, if◌then◌else◌, ℕ, ◌≡◌, ◌⊎◌, inl, inr, arith, Bool, true, false, not, ◌&&◌, ◌||◌,
  Option, none, some, is_some, leb, Bool-cases, Option-cases, ◌≤◌, String,
}
use polymarket_tools.Floats.{micros, Floats, ◌<?◌, ◌⊕◌}
use polymarket_tools.Farmer.Lifecycle.{
  last_time, plain, Phase, State, Observation, FarmConfig, is_quoting, is_cooldown, is_below_range,
  is_sole_bid, is_retired, is_suspended, retire_reason, step_state, by_terms, by_book, ask_dropped,
  resume_margin, resolution_is, String,
}

-- A market cools down until a time.
abbrev pub IsWellFormed : State → Type 0
IsWellFormed s = is_cooldown s.phase ≡ true → is_some s.until ≡ true

-- A result that is there, and has the property.
abbrev pub Yields : (State → Type 0) → Option State → Type 0
Yields P none = ⊥
Yields P (some s) = P s

abbrev pub rests_bids : Phase → Bool
rests_bids phase = is_quoting phase || is_sole_bid phase

-- The state that the checks on the book start from: a market that was paused or unrewarded
-- starts over.
abbrev pub resumed : State → State
resumed s = if is_suspended s.phase then plain Phase.quoting else s

module _ {F : Type 0} (obs : Observation F) (now : ℕ) where
  -- Nothing outside the book keeps the market from quoting.
  pub record IsOpen : Type 0 where
    pub trading : (obs.closed ≡ false) × (obs.accepting_orders ≡ true)
    pub approved : obs.approved ≡ true
    pub in_time : leb obs.expires_at now ≡ false
    pub unresolved :
        (resolution_is obs.resolution "event closed" ≡ false)
        × (resolution_is obs.resolution "resolution proposed" ≡ false)
    pub rewarded : obs.rewards_active ≡ true
    pub not_paused : obs.paused ≡ false

module _ {F : Type 0} ⦃fl : Floats F⦄ (obs : Observation F) (now : ℕ) where
  retire_reason-eq-none :
      retire_reason obs now ≡ none → obs.rewards_active ≡ true → obs.paused ≡ false → IsOpen obs now
  unfolding retire_reason
  retire_reason-eq-none e r p = ground arith

module _ {F : Type 0} ⦃fl : Floats F⦄ (cfg : FarmConfig F) (obs : Observation F) (now : ℕ) where
  -- What the book asks before bids rest: no ask drop now, a cooldown that is over, and either
  -- orders for a sole bid or a midpoint in range, which after BELOW_RANGE is RESUME_MARGIN above
  -- it. A market whose book has no midpoint goes on as it was.
  abbrev pub BookAllows : State → State → Type 0
  BookAllows s s' =
      ((is_some obs.mid ≡ false) × (rests_bids s.phase ≡ true))
      ⊎ ((ask_dropped obs.recent_asks obs.ask now cfg ≡ false)
          × (is_cooldown s.phase ≡ false ⊎ Ended s.until)
          × (((obs.sole_bid ≡ true) × (is_sole_bid s'.phase ≡ true)) ⊎ InRange s obs.mid))
    where
      Ended : Option ℕ → Type 0
      Ended none = ⊥
      Ended (some until) = until ≤ now

      InRange : State → Option F → Type 0
      InRange s none = ⊥
      InRange s (some mid) =
          ((mid <? cfg.min_fav) ≡ false)
          × ((is_below_range s.phase && (mid <? cfg.min_fav ⊕ resume_margin)) ≡ false)

  by_book-Yields :
      (s : State)
      → now + micros cfg.cooldown_s ≤ last_time
      → IsWellFormed s
      → Yields IsWellFormed (by_book s obs now cfg)
  unfolding by_book
  by_book-Yields s in_range v = ground arith

  by_terms-Yields :
      (s : State) (reason : Option String)
      → now + micros cfg.cooldown_s ≤ last_time
      → IsWellFormed s
      → Yields IsWellFormed (by_terms s obs now cfg reason)
  unfolding by_terms
  by_terms-Yields s (some reason) in_range v = λ h. absurd (cc h)
  by_terms-Yields s none in_range v = ground (
    arith,
    by_book-Yields s in_range v,
    by_book-Yields (plain Phase.quoting) in_range (λ h. absurd (cc h)),
  )

  -- From a state that has an end of its cooldown if it cools down, step_state raises on no
  -- observation as long as now and cooldown_s are not past the last datetime, and the state that it
  -- gives again has an end of its cooldown if it cools down.
  pub step_state-total :
      (s : State)
      → now + micros cfg.cooldown_s ≤ last_time
      → IsWellFormed s
      → Yields IsWellFormed (step_state s obs now cfg)
  unfolding step_state
  step_state-total s in_range v = elim (Bool-cases (is_retired s.phase)) [
    | inl is_over ↦ rw is_over v
    | inr goes_on ↦ rw goes_on (by_terms-Yields s (retire_reason obs now) in_range v)
  ]

  by_book-retired :
      (s s' : State)
      → by_book s obs now cfg ≡ some s'
      → is_retired s.phase ≡ false
      → is_retired s'.phase ≡ false
  unfolding by_book
  by_book-retired s s' e h = ground arith

  by_terms-retired :
      (s s' : State) (reason : Option String)
      → is_retired s.phase ≡ false
      → by_terms s obs now cfg reason ≡ some s'
      → is_retired s'.phase ≡ is_some reason
  unfolding by_terms
  by_terms-retired s s' (some reason) h e = ground arith
  by_terms-retired s s' none h e =
      ground (arith, by_book-retired s s', by_book-retired (plain Phase.quoting) s')

  -- RETIRED is where a market goes exactly when it was retired or a check retires it, and it is
  -- never left.
  pub step_state-retired :
      (s s' : State)
      → step_state s obs now cfg ≡ some s'
      → is_retired s'.phase ≡ (is_retired s.phase || is_some (retire_reason obs now))
  unfolding step_state
  step_state-retired s s' e = elim (Bool-cases (is_retired s.phase)) [
    | inl is_over ↦ ground arith
    | inr goes_on ↦
        rw goes_on (by_terms-retired s s' (retire_reason obs now) goes_on (rw goes_on at e))
  ]

  by_book-allows :
      (s s' : State)
      → by_book s obs now cfg ≡ some s'
      → rests_bids s'.phase ≡ true
      → BookAllows s s'
  unfolding by_book
  by_book-allows s s' e h = elim (Bool-cases (not (is_some obs.mid) && not obs.sole_bid)) [
    | inl no_book ↦ inl (ground arith, ground arith)
    | inr book ↦ inr (ground arith, ground arith, ground arith)
  ]

  -- Bids rest, in QUOTING or SOLE_BID, only on a market that trades, is approved, has time left and
  -- no resolution ahead, pays rewards and is not paused, and whose book allows it.
  pub step_state-rests_bids :
      (s s' : State)
      → step_state s obs now cfg ≡ some s'
      → rests_bids s'.phase ≡ true
      → IsOpen obs now × BookAllows (resumed s) s'
  unfolding step_state by_terms
  step_state-rests_bids s s' e h = elim (Option-cases (retire_reason obs now)) [
    | inl clear ↦ (
      retire_reason-eq-none obs now clear (ground arith) (ground arith),
      by_book-allows (resumed s) s' (ground arith) h,
    )
    | inr (reason, applies) ↦ absurd (ground arith)
  ]
