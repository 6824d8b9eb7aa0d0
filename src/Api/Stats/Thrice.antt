-- ===== src/Api/Stats/Thrice.antt =====
-- What the time series of src/api/stats.py makes of the rows that src/services/metrics.py writes.
use proxysm.Base.{
  ℕ, suc, ◌+◌, ◌*◌, ◌≤◌, ◌≡◌, refl, ap, ◌∙◌, Bool, true, ◌&&◌, ◌||◌, Option, none, some, List, [],
  ◌∷◌, ◌++◌, map, arith, leb, length, ◌==◌, if◌then◌else◌, All, Bool-cases, inl, inr, ==_refl,
}
use proxysm.Text.{codes}
use proxysm.Bandwidth.{AccKey, acc_key_eq}
use proxysm.Bandwidth.Totals.{acc_key_eq-eq}
use proxysm.Groups.{
  has_by, distinct_by, rows_with, groups_for, group_rows, grouped, grouped-group_rows,
}
use proxysm.Metrics.{
  LogRow, five_minutes, Slot, Aggregates, Figures, Table, where_rows, count_where, sum_of, has_key,
  distinct, within, proxy_of, pool_of, project_of, minutes_5, figures_of, rows_for, group_by,
  raw_stats,
}
use proxysm.Metrics.Lookup.{acc_key_eq_refl}
use proxysm.Metrics.FiveMinutes.{in_window}
use proxysm.Api.Stats.{Numbers, cutoff, order_asc, insert_asc}
use proxysm.Api.Stats.Rollups.{sum_total}
use proxysm.Api.Stats.Entities.{
  TimeseriesPoint, granularity_of, point_of, point_each, is_selected, get_timeseries,
}

has_key-has_by : (k : AccKey) (l : List AccKey) → has_key k l ≡ has_by acc_key_eq k l
has_key-has_by k [] = refl
has_key-has_by k (j ∷ l) = ap (λ b. acc_key_eq j k || b) (has_key-has_by k l)

distinct-distinct_by : (l : List AccKey) → distinct l ≡ distinct_by acc_key_eq l
unfolding distinct distinct_by
distinct-distinct_by [] = refl
distinct-distinct_by (k ∷ l) = rw (has_key-has_by k (distinct l), distinct-distinct_by l) refl

-- The requests of an entity in a window are its group.
count-rows_with :
    (entity : LogRow → AccKey) (k : AccKey) (lo hi : ℕ) (logs : List LogRow)
    → count_where
        (λ r. true)
        (where_rows (λ r. within lo hi r.created_at && acc_key_eq (entity r) k) logs)
      ≡ length (rows_with acc_key_eq entity k (where_rows (λ r. within lo hi r.created_at) logs))
unfolding where_rows count_where rows_with
count-rows_with entity k lo hi [] = refl
count-rows_with entity k lo hi (r ∷ logs) =
    let rest = count-rows_with entity k lo hi logs in
    elim (Bool-cases (within lo hi r.created_at)) [
      | inr e ↦ rw (e) rest
      | inl e ↦ elim (Bool-cases (acc_key_eq (entity r) k)) [
        | inl f ↦ rw (e, f) (ap suc rest)
        | inr f ↦ rw (e, f) rest
      ]
    ]

one_key : (lo : ℕ) (l : List ℕ) → All (λ n. n ≡ lo) l → distinct_by ◌==◌ (lo ∷ l) ≡ lo ∷ []
unfolding distinct_by
one_key lo [] h = refl
one_key lo (n ∷ l) (here, h) =
    let rest : distinct_by ◌==◌ (n ∷ l) ≡ lo ∷ [] =
      ap (λ m. distinct_by ◌==◌ (m ∷ l)) here ∙ one_key lo l h in
    ap (λ keys. if has_by ◌==◌ lo keys then keys else lo ∷ keys) rest ∙ rw (==_refl lo) refl

module _ {N : Type 0} where
  sum_total-append :
      (rows more : Table N) → sum_total (rows ++ more) ≡ sum_total rows + sum_total more
  unfolding sum_of
  sum_total-append [] more = omega arith
  sum_total-append ((slot, f) ∷ rows) more = omega (arith, sum_total-append rows more)

  -- A row of the window from `lo` on.
  abbrev At : ℕ → Slot × Figures N → Type 0
  At lo (slot, f) = (slot.period ≡ lo) × (slot.granularity ≡ five_minutes)

  where_rows-whole :
      (p : Slot × Figures N → Bool) (lo : ℕ) (rows : Table N)
      → ((row : Slot × Figures N) → At lo row → p row ≡ true)
      → All (At lo) rows
      → where_rows p rows ≡ rows
  unfolding where_rows
  where_rows-whole p lo [] keep h = refl
  where_rows-whole p lo (row ∷ rows) keep (here, h) =
      rw (keep row here) (ap (λ l. row ∷ l) (where_rows-whole p lo rows keep h))

  one_group :
      (lo : ℕ) (rows : Table N)
      → All (At lo) rows
      → rows_with ◌==◌ (λ (slot, f). slot.period) lo rows ≡ rows
  unfolding rows_with
  one_group lo [] h = refl
  one_group lo ((slot, f) ∷ rows) ((here, g), h) =
      let same : (slot.period == lo) ≡ true = ap (λ n. n == lo) here ∙ ==_refl lo in
      rw (same) (ap (λ l. (slot, f) ∷ l) (one_group lo rows h))

  All-period :
      (lo : ℕ) (rows : Table N)
      → All (At lo) rows
      → All (λ n. n ≡ lo) (map (λ (slot, f). slot.period) rows)
  All-period lo [] h = tt
  All-period lo ((slot, f) ∷ rows) ((here, g), h) = (here, All-period lo rows h)

  is_selected-At :
      (start lo : ℕ)
      → start ≤ lo
      → (row : Slot × Figures N) → At lo row
      → is_selected none none five_minutes start row ≡ true
  is_selected-At start lo h (slot, f) (here, g) =
      rw (g, here) (let late : leb start lo ≡ true = ground arith in rw late refl)

  -- Rows of one window are one group.
  group_rows-one :
      (lo : ℕ) (row : Slot × Figures N) (rows : Table N)
      → All (At lo) (row ∷ rows)
      → group_rows ◌==◌ (λ (slot, f). slot.period) (row ∷ rows) ≡ (lo, row ∷ rows) ∷ []
  unfolding group_rows groups_for
  group_rows-one lo (slot, f) rows ((here, g), h) =
      let keys = map (λ (s, f). s.period) rows in
      ap (λ l. groups_for ◌==◌ (λ (s, f). s.period) l ((slot, f) ∷ rows))
        (ap (λ n. distinct_by ◌==◌ (n ∷ keys)) here ∙ one_key lo keys (All-period lo rows h))
      ∙ ap (λ l. (lo, l) ∷ []) (one_group lo ((slot, f) ∷ rows) ((here, g), h))

  All-At-append :
      (lo : ℕ) (rows more : Table N)
      → All (At lo) rows
      → All (At lo) more
      → All (At lo) (rows ++ more)
  All-At-append lo [] more h k = k
  All-At-append lo (row ∷ rows) more (here, h) k = (here, All-At-append lo rows more h k)

module _ (agg : Aggregates) where
  open agg use {Number}

  total-rows_for :
      (entity : LogRow → AccKey) (lo : ℕ) (logs : List LogRow) (keys : List AccKey)
      → sum_total (rows_for agg entity lo logs keys)
        ≡ grouped (groups_for acc_key_eq entity keys (where_rows (in_window lo) logs))
  unfolding rows_for figures_of groups_for sum_of
  total-rows_for entity lo logs [] = refl
  total-rows_for entity lo logs (k ∷ keys) =
      omega (
        arith,
        count-rows_with entity k lo (lo + minutes_5) logs,
        total-rows_for entity lo logs keys,
      )

  -- The rows of the entities of one type add up to the requests of the window.
  total-group_by :
      (entity : LogRow → AccKey) (lo : ℕ) (logs : List LogRow)
      → sum_total (group_by agg entity lo logs) ≡ length (where_rows (in_window lo) logs)
  unfolding group_by group_rows
  total-group_by entity lo logs =
      let rows = where_rows (in_window lo) logs in
      total-rows_for entity lo logs (distinct (map entity rows))
      ∙ ap (λ keys. grouped (groups_for acc_key_eq entity keys rows))
          (distinct-distinct_by (map entity rows))
      ∙ grouped-group_rows acc_key_eq acc_key_eq-eq acc_key_eq_refl entity rows

  total-raw_stats :
      (lo : ℕ) (logs : List LogRow)
      → sum_total (raw_stats agg lo logs) ≡ 3 * length (where_rows (in_window lo) logs)
  unfolding raw_stats
  total-raw_stats lo logs =
      let proxies = group_by agg proxy_of lo logs in
      let pools = group_by agg pool_of lo logs in
      let projects = group_by agg project_of lo logs in
      omega (
        arith,
        sum_total-append proxies (pools ++ projects),
        sum_total-append pools projects,
        total-group_by proxy_of lo logs,
        total-group_by pool_of lo logs,
        total-group_by project_of lo logs,
      )

  rows_for-At :
      (entity : LogRow → AccKey) (lo : ℕ) (logs : List LogRow) (keys : List AccKey)
      → All (At lo) (rows_for agg entity lo logs keys)
  unfolding rows_for
  rows_for-At entity lo logs [] = tt
  rows_for-At entity lo logs (k ∷ keys) = ((refl, refl), rows_for-At entity lo logs keys)

  raw_stats-At : (lo : ℕ) (logs : List LogRow) → All (At lo) (raw_stats agg lo logs)
  unfolding raw_stats group_by
  raw_stats-At lo logs =
      let keys =
        λ (entity : LogRow → AccKey). distinct (map entity (where_rows (in_window lo) logs)) in
      All-At-append lo (rows_for agg proxy_of lo logs (keys proxy_of))
        (rows_for agg pool_of lo logs (keys pool_of)
          ++ rows_for agg project_of lo logs (keys project_of))
        (rows_for-At proxy_of lo logs (keys proxy_of))
        (All-At-append lo (rows_for agg pool_of lo logs (keys pool_of))
          (rows_for agg project_of lo logs (keys project_of))
          (rows_for-At pool_of lo logs (keys pool_of))
          (rows_for-At project_of lo logs (keys project_of)))

  -- Without a type of entity the time series counts each request three times, once for its proxy,
  -- its pool and its project: over the rows that one rollup writes, for a window that the series
  -- takes in, its only point has three times the requests of the window. There is a request in the
  -- window.
  pub get_timeseries-thrice :
      (num : Numbers Number) (now hours lo : ℕ) (logs : List LogRow)
      → cutoff now hours ≤ lo
      → 1 ≤ length (where_rows (in_window lo) logs)
      → (p : TimeseriesPoint Number) × (get_timeseries num now none none
            (codes "5min")
            hours
            (raw_stats agg lo logs)
          ≡ some (p ∷ []))
        × (p.total_requests ≡ 3 * length (where_rows (in_window lo) logs))
  unfolding get_timeseries granularity_of order_asc insert_asc point_each point_of sum_of
  get_timeseries-thrice num now hours lo logs recent some_request =
      go (raw_stats agg lo logs) (raw_stats-At lo logs) (total-raw_stats lo logs)
    where
      answer : List (ℕ × Table Number) → Option (List (TimeseriesPoint Number))
      answer groups =
          some
            (order_asc (λ (row : TimeseriesPoint Number). row.period_start) (point_each num groups))

      go :
          (rows : Table Number)
          → All (At lo) rows
          → sum_total rows ≡ 3 * length (where_rows (in_window lo) logs)
          → (p : TimeseriesPoint Number) × (get_timeseries num now none none
                (codes "5min")
                hours
                rows
              ≡ some (p ∷ []))
            × (p.total_requests ≡ 3 * length (where_rows (in_window lo) logs))
      go [] h total = absurd (omega arith)
      go (row ∷ rows) h total = (
        point_of num lo (row ∷ rows),
        ap (λ l. answer (group_rows ◌==◌ (λ (s, f). s.period) l))
              (where_rows-whole (is_selected none none five_minutes (cutoff now hours)) lo
                (row ∷ rows) (is_selected-At (cutoff now hours) lo recent) h)
            ∙ ap answer (group_rows-one lo row rows h),
        total,
      )
