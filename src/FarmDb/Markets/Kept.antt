-- ===== src/FarmDb/Markets/Kept.antt =====
-- farm/farm_db.py: what the screener and the farmer leave to the human.
use polymarket_tools.Prelude.{
  eq_iff, ap, ℕ, zero, suc, String, Bool, true, not, ◌≡◌, refl, ◌∙◌, ◌⊎◌, inl, inr, Option, some,
  List, [], ◌∷◌, any, update, keep_if, str_eq, ◌&◌, get_elem?, get_elem?-append, if◌then◌else◌,
  Bool-cases, arith,
}
use polymarket_tools.ToolsDb.Types.{stamp}
use polymarket_tools.FarmDb.Types.{
  Status, approved, retired, is_approved, MarketRow, ScanRow, FarmDb,
}
use polymarket_tools.FarmDb.Markets.{
  has_id, scanned, new_market, upsert, upsert_each, flagged, store_scan, approved_with_id,
  mark_retired, save_baseline,
}
use polymarket_tools.FarmDb.Markets.Logged.Steps.{AutoStep, scans, marks_retired, saves_baseline}

-- The columns that a human decides.
pub record Terms (F : Type 0) : Type 0 where
  pub status : Status
  pub p_true : Option F
  pub naked_budget_usd : Option F
  pub note : Option String
  pub paused : Bool
  pub naked_paused : Bool
  pub capital_usd : Option F
  pub sole_bid : Bool

module _ {F : Type 0} where
  abbrev pub terms : MarketRow F → Terms F
  terms row = record {
    status = row.status;
    p_true = row.p_true;
    naked_budget_usd = row.naked_budget_usd;
    note = row.note;
    paused = row.paused;
    naked_paused = row.naked_paused;
    capital_usd = row.capital_usd;
    sole_bid = row.sole_bid;
  }

  -- The one change of terms that a step may make: mark_retired retires the approved market of its
  -- id, with its reason in a note.
  abbrev pub RetiredBy : {db d : FarmDb F} → AutoStep db d → MarketRow F → MarketRow F → Type 0
  RetiredBy (marks_retired id reason) row row' =
      (row.condition_id ≡ id)
      × (row.status ≡ approved)
      × (terms row' ≡ record (terms row) { status = retired; note = some ("farmer: " & reason) })
  RetiredBy _ row row' = ⊥

  -- The step is not one that retires this market.
  abbrev pub Spares : {db d : FarmDb F} → AutoStep db d → MarketRow F → Type 0
  Spares (marks_retired id reason) row = ¬ ((row.condition_id ≡ id) × (row.status ≡ approved))
  Spares _ row = Unit

  -- The same market, which keeps its terms if the step spares it, and is retired by it if not.
  abbrev pub KeepsTerms : {db d : FarmDb F} → AutoStep db d → MarketRow F → MarketRow F → Type 0
  KeepsTerms step row row' =
      (row'.condition_id ≡ row.condition_id)
      × ((Spares step row × (terms row' ≡ terms row)) ⊎ RetiredBy step row row')

  abbrev pub KeptAt : {db d : FarmDb F} → AutoStep db d → ℕ → MarketRow F → Type 0
  KeptAt {db} {d} step n row =
      (row' : MarketRow F) × (get_elem? d.markets n ≡ some row') × KeepsTerms step row row'

  get_elem?-written :
      (p : MarketRow F → Bool) (f : MarketRow F → MarketRow F) (rows : List (MarketRow F)) (n : ℕ)
      (row : MarketRow F)
      → get_elem? rows n ≡ some row
      → get_elem? (update p f rows) n ≡ some (if p row then f row else row)
  get_elem?-written p f [] n row h = absurd (cc h)
  get_elem?-written p f (x ∷ rows) zero row h = ground arith
  get_elem?-written p f (x ∷ rows) (suc n) row h = get_elem?-written p f rows n row h

  -- An upsert keeps the terms of every market that is there.
  upsert-terms :
      (scan : ScanRow F) (at : ℕ) (rows : List (MarketRow F)) (n : ℕ) (row : MarketRow F)
      → get_elem? rows n ≡ some row
      → (row' : MarketRow F) × (get_elem? (upsert scan at rows) n ≡ some row')
        × (row'.condition_id ≡ row.condition_id)
        × (terms row' ≡ terms row)
  unfolding upsert scanned
  upsert-terms scan at rows n row h = elim (Bool-cases (any (has_id scan.condition_id) rows)) [
    | inl old ↦ elim (Bool-cases (has_id scan.condition_id row)) [
      | inl same ↦ (
        scanned scan at row,
        rw old (
            rw same at
              (get_elem?-written (has_id scan.condition_id) (scanned scan at) rows n row h)),
        refl,
        refl,
      )
      | inr other ↦ (
        row,
        rw old (
            rw other at
              (get_elem?-written (has_id scan.condition_id) (scanned scan at) rows n row h)),
        refl,
        refl,
      )
    ]
    | inr new ↦ (row, rw new (get_elem?-append rows (new_market scan at ∷ []) n row h), refl, refl)
  ]

  upsert_each-terms :
      (scans : List (ScanRow F)) (at : ℕ) (rows : List (MarketRow F)) (n : ℕ) (row : MarketRow F)
      → get_elem? rows n ≡ some row
      → (row' : MarketRow F) × (get_elem? (upsert_each scans at rows) n ≡ some row')
        × (row'.condition_id ≡ row.condition_id)
        × (terms row' ≡ terms row)
  unfolding upsert_each
  upsert_each-terms [] at rows n row h = (row, h, refl, refl)
  upsert_each-terms (scan ∷ rest) at rows n row h =
      let (row', h', id, kept) = upsert-terms scan at rows n row h in
      let (row'', h'', id', kept') = upsert_each-terms rest at (upsert scan at rows) n row' h' in
      (row'', h'', id' ∙ id, kept' ∙ kept)

  -- Neither a scan nor save_baseline changes what a human decided of a market, nor loses one; nor
  -- does mark_retired, but for the market of its id if that is approved, which it retires with a
  -- note that holds its reason, every other decided column kept.
  pub AutoStep-KeptAt :
      (db : FarmDb F) {d : FarmDb F} (n : ℕ) (row : MarketRow F) (step : AutoStep db d)
      → get_elem? db.markets n ≡ some row
      → KeptAt step n row
  unfolding store_scan mark_retired save_baseline
  AutoStep-KeptAt db n row (scans rows ids now) h =
      let (row', there, id, kept) = upsert_each-terms rows (stamp now) db.markets n row h in
      let paying = keep_if (λ id. not (str_eq id "")) ids in
      (
        flagged paying row',
        get_elem?-written (λ row. true) (flagged paying) (upsert_each rows (stamp now) db.markets) n
            row' there,
        (id, inl (tt, kept)),
      )
  AutoStep-KeptAt db n row (marks_retired id reason) h =
      let to_retired : MarketRow F → MarketRow F =
        λ row. record row { status = retired; note = some ("farmer: " & reason) } in
      elim (Bool-cases (approved_with_id id row)) [
        | inl hit ↦ (
          record row { status = retired; note = some ("farmer: " & reason) },
          rw hit at (get_elem?-written (approved_with_id id) to_retired db.markets n row h),
          (
            refl,
            inr (
              ground (arith, eq_iff row.condition_id id),
              of_status row.status (ground arith),
              refl,
            ),
          ),
        )
        | inr miss ↦ (
          row,
          rw miss at (get_elem?-written (approved_with_id id) to_retired db.markets n row h),
          (
            refl,
            inl (
              λ (same, was). ground (arith, eq_iff row.condition_id id, ap is_approved was),
              refl,
            ),
          ),
        )
      ]
    where
      of_status : (s : Status) → is_approved s ≡ true → s ≡ approved
      of_status approved e = refl
      of_status _ e = absurd (cc e)
  AutoStep-KeptAt db n row (saves_baseline id fav long) h =
      let based : MarketRow F → MarketRow F =
        λ row. record row { baseline_fav = some fav; baseline_long = some long } in
      elim (Bool-cases (has_id id row)) [
        | inl hit ↦ (
          record row { baseline_fav = some fav; baseline_long = some long },
          rw hit at (get_elem?-written (has_id id) based db.markets n row h),
          (refl, inl (tt, refl)),
        )
        | inr miss ↦ (
          row,
          rw miss at (get_elem?-written (has_id id) based db.markets n row h),
          (refl, inl (tt, refl)),
        )
      ]
