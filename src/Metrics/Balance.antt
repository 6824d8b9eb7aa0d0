-- ===== src/Metrics/Balance.antt =====
-- What every row of `metrics_rollup` keeps through the jobs of src/services/metrics.py.
use proxysm.Base.{
  ℕ, ◌+◌, ◌-◌, ◌%◌, ◌≡◌, refl, ap, subst, sym, ◌∙◌, Bool, true, false, not, ◌&&◌, ◌||◌, Option,
  none, some, List, [], ◌∷◌, ◌++◌, map, arith, ltb, leb, All, Bool-cases, inl, inr,
}
use proxysm.Bandwidth.{AccKey}
use proxysm.Metrics.{
  LogRow, Granularity, five_minutes, hour, day, Slot, slot_eq, Aggregates, Figures, Table,
  where_rows, count_where, sum_of, distinct, within, rows_in, is_success, is_failure, proxy_of,
  pool_of, project_of, upsert, upsert_each, minutes_5, one_hour, one_day, trunc, figures_of,
  rows_for, group_by, raw_stats, rollup_5min, merged, merged_for, period_groups, coarsen,
  rollup_1hour, rollup_1day, if_works, first_minutes, first_hour, rollup_metrics, cleanup_old_data,
}
use proxysm.Metrics.Lookup.{hits, slot_eq-eq, slot_eq_sym}

abbrev pub width_of : Granularity → ℕ
width_of five_minutes = minutes_5
width_of hour = one_hour
width_of day = one_day

module _ {N : Type 0} where
  -- The requests of a row are the successful and the failed ones, and its period starts on a boundary
  -- of its granularity.
  abbrev pub IsRow : Slot × Figures N → Type 0
  IsRow (slot, f) =
      (f.total_requests ≡ f.successful_requests + f.failed_requests)
      × (slot.period % width_of slot.granularity ≡ 0)

  -- No two rows have one slot.
  abbrev pub IsUnique : Table N → Type 0
  IsUnique [] = Unit
  IsUnique ((slot, f) ∷ table) = (hits slot table ≡ false) × IsUnique table

  abbrev pub IsValid : Table N → Type 0
  IsValid table = IsUnique table × All IsRow table

  hits-upsert :
      (slot new : Slot) (f : Figures N) (table : Table N)
      → hits slot (upsert new f table) ≡ (slot_eq new slot || hits slot table)
  unfolding upsert
  hits-upsert slot new f [] = refl
  hits-upsert slot new f ((old, g) ∷ table) = elim (Bool-cases (slot_eq old new)) [
    | inl same ↦ rw (same) (
        absorbed (slot_eq old slot) (slot_eq new slot) (hits slot table)
          (ap (λ x. slot_eq x slot) (slot_eq-eq old new same)))
    | inr differs ↦
        rw (differs, hits-upsert slot new f table)
          (swapped (slot_eq old slot) (slot_eq new slot) (hits slot table))
  ]
    where
      absorbed : (a b c : Bool) → a ≡ b → (a || c) ≡ (b || (a || c))
      absorbed a b c e = ground arith

      swapped : (a b c : Bool) → (a || (b || c)) ≡ (b || (a || c))
      swapped a b c = ground arith

  upsert_free :
      (old new : Slot) (f : Figures N) (table : Table N)
      → slot_eq old new ≡ false
      → hits old table ≡ false
      → hits old (upsert new f table) ≡ false
  upsert_free old new f table differs free =
      hits-upsert old new f table ∙ rw (slot_eq_sym new old, differs) free

  upsert-IsUnique :
      (new : Slot) (f : Figures N) (table : Table N)
      → IsUnique table
      → IsUnique (upsert new f table)
  unfolding upsert
  upsert-IsUnique new f [] h = (refl, tt)
  upsert-IsUnique new f ((old, g) ∷ table) (free, h) = elim (Bool-cases (slot_eq old new)) [
    | inl same ↦ rw (same) (free, h)
    | inr differs ↦
        rw (differs) (upsert_free old new f table differs free, upsert-IsUnique new f table h)
  ]

  upsert-All :
      (P : Slot × Figures N → Type 0) (new : Slot) (f : Figures N) (table : Table N)
      → P (new, f)
      → All P table
      → All P (upsert new f table)
  unfolding upsert
  upsert-All P new f [] here h = (here, tt)
  upsert-All P new f ((old, g) ∷ table) here (first, h) = elim (Bool-cases (slot_eq old new)) [
    | inl same ↦ rw (same) (subst (λ x. P (x, f)) (sym (slot_eq-eq old new same)) here, h)
    | inr differs ↦ rw (differs) (first, upsert-All P new f table here h)
  ]

  upsert_each-IsValid :
      (rows table : Table N) → All IsRow rows → IsValid table → IsValid (upsert_each rows table)
  unfolding upsert_each
  upsert_each-IsValid [] table h valid = valid
  upsert_each-IsValid ((new, f) ∷ rows) table (here, h) (unique, all) =
      upsert_each-IsValid rows (upsert new f table) h
        (upsert-IsUnique new f table unique, upsert-All IsRow new f table here all)

  where_rows-All :
      (P : Slot × Figures N → Type 0) (p : Slot × Figures N → Bool) (table : Table N)
      → All P table
      → All P (where_rows p table)
  unfolding where_rows
  where_rows-All P p [] h = h
  where_rows-All P p (row ∷ table) (here, h) = elim (Bool-cases (p row)) [
    | inl e ↦ rw (e, where_rows) (here, where_rows-All P p table h)
    | inr e ↦ rw (e, where_rows) (where_rows-All P p table h)
  ]

  hits-where_rows :
      (p : Slot × Figures N → Bool) (slot : Slot) (table : Table N)
      → hits slot table ≡ false
      → hits slot (where_rows p table) ≡ false
  unfolding where_rows
  hits-where_rows p slot [] h = refl
  hits-where_rows p slot ((old, f) ∷ table) h =
      let rest = hits-where_rows p slot table (or_right (slot_eq old slot) (hits slot table) h) in
      elim (Bool-cases (p (old, f))) [
        | inl e ↦ rw (e, where_rows, or_left (slot_eq old slot) (hits slot table) h) rest
        | inr e ↦ rw (e, where_rows) rest
      ]
    where
      or_left : (a b : Bool) → (a || b) ≡ false → a ≡ false
      or_left a b e = ground arith

      or_right : (a b : Bool) → (a || b) ≡ false → b ≡ false
      or_right a b e = ground arith

  where_rows-IsUnique :
      (p : Slot × Figures N → Bool) (table : Table N)
      → IsUnique table
      → IsUnique (where_rows p table)
  unfolding where_rows
  where_rows-IsUnique p [] h = tt
  where_rows-IsUnique p ((slot, f) ∷ table) (free, h) = elim (Bool-cases (p (slot, f))) [
    | inl e ↦ rw (e, where_rows) (hits-where_rows p slot table free, where_rows-IsUnique p table h)
    | inr e ↦ rw (e, where_rows) (where_rows-IsUnique p table h)
  ]

  where_rows-IsValid :
      (p : Slot × Figures N → Bool) (table : Table N) → IsValid table → IsValid (where_rows p table)
  where_rows-IsValid p table (unique, all) =
      (where_rows-IsUnique p table unique, where_rows-All IsRow p table all)

-- A request has failed if it was not successful.
is_failure-not : (r : LogRow) → is_failure r ≡ not (is_success r)
is_failure-not r = by_status r.status_code
  where
    by_status :
        (o : Option ℕ)
        → (elim o as (λ _. Bool) [ none ↦ true | some c ↦ leb 400 c ])
          ≡ not (elim o as (λ _. Bool) [ none ↦ false | some c ↦ ltb c 400 ])
    by_status none = refl
    by_status (some c) = ground arith

count_where_split :
    (rows : List LogRow)
    → count_where (λ r. true) rows ≡ count_where is_success rows + count_where is_failure rows
unfolding count_where
count_where_split [] = refl
count_where_split (r ∷ rows) =
    let rest = count_where_split rows in
    elim (Bool-cases (is_success r)) [
      | inl e ↦
          let f : is_failure r ≡ false = is_failure-not r ∙ ap not e in
          rw (e, f) (omega (arith, rest))
      | inr e ↦
          let f : is_failure r ≡ true = is_failure-not r ∙ ap not e in
          rw (e, f) (omega (arith, rest))
    ]

sum_of_split :
    {N : Type 0} (rows : Table N)
    → All IsRow rows
    → sum_of (λ (slot, f). f.total_requests) rows
      ≡ sum_of (λ (slot, f). f.successful_requests) rows
        + sum_of (λ (slot, f). f.failed_requests) rows
unfolding sum_of
sum_of_split [] h = refl
sum_of_split ((slot, f) ∷ rows) ((here, aligned), h) = omega (arith, sum_of_split rows h)

module _ (agg : Aggregates) where
  open agg use {Number}

  rows_for-IsRow :
      (entity : LogRow → AccKey) (lo : ℕ) (logs : List LogRow) (keys : List AccKey)
      → lo % minutes_5 ≡ 0
      → All IsRow (rows_for agg entity lo logs keys)
  unfolding rows_for figures_of
  rows_for-IsRow entity lo logs [] h = tt
  rows_for-IsRow entity lo logs (k ∷ keys) h =
      ((count_where_split _, h), rows_for-IsRow entity lo logs keys h)

  All-append :
      (rows more : Table Number) → All IsRow rows → All IsRow more → All IsRow (rows ++ more)
  All-append [] more h k = k
  All-append (row ∷ rows) more (here, h) k = (here, All-append rows more h k)

  group_by-IsRow :
      (entity : LogRow → AccKey) (lo : ℕ) (logs : List LogRow)
      → lo % minutes_5 ≡ 0
      → All IsRow (group_by agg entity lo logs)
  unfolding group_by
  group_by-IsRow entity lo logs h =
      rows_for-IsRow entity lo logs
        (distinct (map entity (where_rows (λ r. within lo (lo + minutes_5) r.created_at) logs))) h

  rollup_5min-IsValid :
      (now : ℕ) (logs : List LogRow) (table : Table Number)
      → IsValid table
      → IsValid (rollup_5min agg now logs table)
  unfolding rollup_5min raw_stats
  rollup_5min-IsValid now logs table h =
      let lo = trunc minutes_5 now - minutes_5 in
      let aligned : lo % minutes_5 ≡ 0 = omega arith in
      upsert_each-IsValid (raw_stats agg lo logs) table
        (All-append (group_by agg proxy_of lo logs)
          (group_by agg pool_of lo logs ++ group_by agg project_of lo logs)
          (group_by-IsRow proxy_of lo logs aligned)
          (All-append (group_by agg pool_of lo logs) (group_by agg project_of lo logs)
            (group_by-IsRow pool_of lo logs aligned) (group_by-IsRow project_of lo logs aligned)))
        h

  merged_for-IsRow :
      (source target : Granularity) (width lo : ℕ) (table : Table Number) (keys : List AccKey)
      → lo % width_of target ≡ 0
      → All IsRow table
      → All IsRow (merged_for agg source target width lo table keys)
  unfolding merged_for merged
  merged_for-IsRow source target width lo table [] h all = tt
  merged_for-IsRow source target width lo table (k ∷ keys) h all = (
    (sum_of_split _ (where_rows-All IsRow _ table all), h),
    merged_for-IsRow source target width lo table keys h all,
  )

  period_groups-IsRow :
      (source target : Granularity) (width lo : ℕ) (table : Table Number)
      → lo % width_of target ≡ 0
      → All IsRow table
      → All IsRow (period_groups agg source target width lo table)
  unfolding period_groups
  period_groups-IsRow source target width lo table h all =
      merged_for-IsRow source target width lo table
        (distinct
          (map (λ (slot, f). slot.key) (where_rows (rows_in agg source lo (lo + width)) table)))
        h all

  coarsen-IsValid :
      (source target : Granularity) (width now : ℕ) (table : Table Number)
      → trunc width now % width_of target ≡ 0
      → (trunc width now - width) % width_of target ≡ 0
      → IsValid table
      → IsValid (coarsen agg source target width now table)
  unfolding coarsen
  coarsen-IsValid source target width now table current previous valid =
      let before = period_groups agg source target width (trunc width now - width) table in
      let latest = period_groups agg source target width (trunc width now) table in
      upsert_each-IsValid (before ++ latest) table
        (All-append before latest
          (period_groups-IsRow source target width (trunc width now - width) table previous valid.1)
          (period_groups-IsRow source target width (trunc width now) table current valid.1))
        valid

  if_works-IsValid :
      (works : Bool) (step : Table Number → Table Number) (table : Table Number)
      → (IsValid table → IsValid (step table))
      → IsValid table
      → IsValid (if_works agg works step table)
  if_works-IsValid true step table keep h = keep h
  if_works-IsValid false step table keep h = h

  -- Whatever the clocks say and wherever the call fails, it keeps the table valid: no two rows for
  -- one entity, period and granularity, the requests of each row are its successful and its failed
  -- ones, and each period starts on a boundary of its granularity.
  pub rollup_metrics-IsValid :
      (works now t1 t2 t3 : ℕ) (logs : List LogRow) (table : Table Number)
      → IsValid table
      → IsValid (rollup_metrics agg works now t1 t2 t3 logs table)
  unfolding rollup_metrics rollup_1hour rollup_1day
  rollup_metrics-IsValid works now t1 t2 t3 logs table h =
      if_works-IsValid (ltb 2 works && (first_hour agg now && first_minutes agg now))
        (rollup_1day agg t3) _ (coarsen-IsValid hour day one_day t3 _ (omega arith) (omega arith))
        (if_works-IsValid (ltb 1 works && first_minutes agg now) (rollup_1hour agg t2) _
          (coarsen-IsValid five_minutes hour one_hour t2 _ (omega arith) (omega arith))
          (if_works-IsValid (ltb 0 works) (rollup_5min agg t1 logs) table
            (rollup_5min-IsValid t1 logs table) h))

-- The cleanup keeps the table valid.
pub cleanup_old_data-IsValid :
    {N : Type 0} (now log_days five_minutes_days hour_days : ℕ) (logs : List LogRow)
    (table : Table N)
    → IsValid table
    → IsValid (cleanup_old_data now log_days five_minutes_days hour_days logs table).1
unfolding cleanup_old_data
cleanup_old_data-IsValid now log_days five_minutes_days hour_days logs table h =
    where_rows-IsValid _ _ (where_rows-IsValid _ table h)
