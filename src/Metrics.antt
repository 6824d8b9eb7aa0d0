-- ===== src/Metrics.antt =====
-- The rollup of requests of src/services/metrics.py: rows of `request_log` are added up for windows
-- of five minutes, these for hours and these for days, in the table `metrics_rollup`
-- (src/models/metrics.py). A time is a number of milliseconds.
pub mod Lookup
pub mod FiveMinutes
pub mod Coarser
pub mod Balance
pub mod Hours
pub mod Tally
pub mod Cleanup
mod Tests
use proxysm.Base.{
  ℕ, suc, ◌+◌, ◌-◌, ◌*◌, ◌/◌, ◌%◌, Bool, true, false, not, ◌&&◌, ◌||◌, Option, none, some, List, [],
  ◌∷◌, ◌++◌, map, ltb, leb, length, ◌==◌, if◌then◌else◌,
}
use proxysm.Base.Int.{ℤ, pos, ◌+ℤ◌}
use proxysm.Text.{Text, codes, text_eq}
use proxysm.Bandwidth.{AccKey, acc_key_eq, Bytes, no_bytes}

-- The columns of `request_log` that the queries read. Those of the status, the response time, the
-- domain and the error may be NULL.
pub record LogRow : Type 0 where
  pub proxy_id : Text
  pub pool_id : Text
  pub project_id : Text
  pub status_code : Option ℕ
  pub response_time_ms : Option ℕ
  pub bytes_sent : ℕ
  pub bytes_received : ℕ
  pub target_domain : Option Text
  pub error_type : Option Text
  pub created_at : ℕ

-- '5min', '1hour' and '1day'
pub data Granularity : Type 0 where
  five_minutes hour day : Granularity

abbrev pub granularity_eq : Granularity → Granularity → Bool
granularity_eq five_minutes five_minutes = true
granularity_eq hour hour = true
granularity_eq day day = true
granularity_eq _ _ = false

-- The columns of `uq_metrics_rollup_entity_period`, the type and the id of the entity as a pair.
pub record Slot : Type 0 where
  pub key : AccKey
  pub period : ℕ
  pub granularity : Granularity

unfoldable pub slot_eq : Slot → Slot → Bool
slot_eq a b =
    acc_key_eq a.key b.key && (a.period == b.period && granularity_eq a.granularity b.granularity)

-- The aggregates of the database on response times, NULL counted out: `COALESCE(AVG(…), 0)`,
-- `COALESCE(PERCENTILE_CONT(0.95) …, 0)`, the average weighted by requests, and `MAX`.
pub record Aggregates : Type 1 where
  pub Number : Type 0
  pub average : List (Option ℕ) → Number
  pub percentile_95 : List (Option ℕ) → Number
  pub weighted : List (Number × ℕ) → Number
  pub greatest : List Number → Number

-- What a row holds beside its slot.
pub record Figures (N : Type 0) : Type 0 where
  pub total_requests : ℕ
  pub successful_requests : ℕ
  pub failed_requests : ℕ
  pub bytes : Bytes
  pub avg_response_time_ms : N
  pub p95_response_time_ms : N

abbrev pub Table : Type 0 → Type 0
Table N = List (Slot × Figures N)

module _ {A : Type 0} where
  -- WHERE
  unfoldable pub where_rows : (A → Bool) → List A → List A
  where_rows p [] = []
  where_rows p (x ∷ l) = let rest = where_rows p l in if p x then x ∷ rest else rest

  -- COUNT(*) FILTER (WHERE …)
  unfoldable pub count_where : (A → Bool) → List A → ℕ
  count_where p [] = 0
  count_where p (x ∷ l) = let rest = count_where p l in if p x then suc rest else rest

  -- SUM
  unfoldable pub sum_of : (A → ℕ) → List A → ℕ
  sum_of f [] = 0
  sum_of f (x ∷ l) = f x + sum_of f l

  unfoldable pub sum_bytes : (A → ℤ) → List A → ℤ
  sum_bytes f [] = pos 0
  sum_bytes f (x ∷ l) = f x +ℤ sum_bytes f l

abbrev pub has_key : AccKey → List AccKey → Bool
has_key k [] = false
has_key k (j ∷ l) = acc_key_eq j k || has_key k l

-- The groups of GROUP BY: each key once.
unfoldable pub distinct : List AccKey → List AccKey
distinct [] = []
distinct (k ∷ l) = let rest = distinct l in if has_key k rest then rest else k ∷ rest

-- status_code IS NOT NULL AND status_code < 400
abbrev pub is_success : LogRow → Bool
is_success r = elim r.status_code [ none ↦ false | some c ↦ ltb c 400 ]

-- status_code IS NULL OR status_code >= 400
abbrev pub is_failure : LogRow → Bool
is_failure r = elim r.status_code [ none ↦ true | some c ↦ leb 400 c ]

-- lo <= x AND x < hi
abbrev pub within : ℕ → ℕ → ℕ → Bool
within lo hi x = leb lo x && ltb x hi

-- The entity of a request, of each of the three types.
abbrev pub proxy_of : LogRow → AccKey
proxy_of r = (codes "proxy", r.proxy_id)

abbrev pub pool_of : LogRow → AccKey
pool_of r = (codes "pool", r.pool_id)

abbrev pub project_of : LogRow → AccKey
project_of r = (codes "project", r.project_id)

module _ {N : Type 0} where
  -- The INSERT … ON CONFLICT DO UPDATE of one row.
  unfoldable pub upsert : Slot → Figures N → Table N → Table N
  unfolding slot_eq
  upsert slot f [] = (slot, f) ∷ []
  upsert slot f ((old, g) ∷ table) =
      let rest = upsert slot f table in
      if slot_eq old slot then (old, f) ∷ table else (old, g) ∷ rest

  -- The statement for each row of a SELECT.
  unfoldable pub upsert_each : Table N → Table N → Table N
  unfolding upsert
  upsert_each [] table = table
  upsert_each ((slot, f) ∷ rows) table = upsert_each rows (upsert slot f table)

abbrev pub minutes_5 : ℕ
minutes_5 = 300000

abbrev pub one_hour : ℕ
one_hour = 3600000

abbrev pub one_day : ℕ
one_day = 86400000

-- `date_trunc`, and the start of a window of five minutes
abbrev pub trunc : ℕ → ℕ → ℕ
trunc width now = now - now % width

module _ (agg : Aggregates) where
  open agg use {Number, average, percentile_95, weighted, greatest}

  -- The columns of `raw_stats` for the requests of a group.
  unfoldable pub figures_of : List LogRow → Figures Number
  unfolding count_where sum_of
  figures_of rows = record {
    total_requests = count_where (λ r. true) rows;
    successful_requests = count_where is_success rows;
    failed_requests = count_where is_failure rows;
    bytes = record {
      sent = pos (sum_of (λ r. r.bytes_sent) rows);
      recv = pos (sum_of (λ r. r.bytes_received) rows);
    };
    avg_response_time_ms = average (map (λ r. r.response_time_ms) rows);
    p95_response_time_ms = percentile_95 (map (λ r. r.response_time_ms) rows);
  }

  -- The requests of an entity in a window of time.
  abbrev pub requests_of : (LogRow → AccKey) → AccKey → ℕ → ℕ → List LogRow → List LogRow
  requests_of entity k lo hi =
      where_rows (λ r. within lo hi r.created_at && acc_key_eq (entity r) k)

  -- A row for each of these keys.
  unfoldable pub rows_for : (LogRow → AccKey) → ℕ → List LogRow → List AccKey → Table Number
  unfolding figures_of
  rows_for entity lo logs [] = []
  rows_for entity lo logs (k ∷ keys) =
      (
        record { key = k; period = lo; granularity = five_minutes },
        figures_of (requests_of entity k lo (lo + minutes_5) logs),
      )
      ∷ rows_for entity lo logs keys

  -- One SELECT of `raw_stats`: the window from `lo` on, grouped by the entity.
  unfoldable pub group_by : (LogRow → AccKey) → ℕ → List LogRow → Table Number
  unfolding distinct where_rows rows_for
  group_by entity lo logs =
      rows_for entity lo logs
        (distinct (map entity (where_rows (λ r. within lo (lo + minutes_5) r.created_at) logs)))

  unfoldable pub raw_stats : ℕ → List LogRow → Table Number
  unfolding group_by
  raw_stats lo logs =
      group_by proxy_of lo logs ++ (group_by pool_of lo logs ++ group_by project_of lo logs)

  -- `_rollup_5min` at the time `now`: the window before the current one.
  unfoldable pub rollup_5min : ℕ → List LogRow → Table Number → Table Number
  unfolding raw_stats upsert_each
  rollup_5min now logs table = upsert_each (raw_stats (trunc minutes_5 now - minutes_5) logs) table

  -- The rows of one granularity whose window starts in a longer one.
  abbrev pub rows_in : Granularity → ℕ → ℕ → Slot × Figures Number → Bool
  rows_in source lo hi (slot, f) =
      granularity_eq slot.granularity source && within lo hi slot.period

  abbrev pub rows_of : Granularity → AccKey → ℕ → ℕ → Table Number → Table Number
  rows_of source k lo hi =
      where_rows (λ (slot, f). rows_in source lo hi (slot, f) && acc_key_eq slot.key k)

  -- The columns of the coarser row for the rows of a group.
  unfoldable pub merged : Table Number → Figures Number
  unfolding sum_of sum_bytes
  merged rows = record {
    total_requests = sum_of (λ (slot, f). f.total_requests) rows;
    successful_requests = sum_of (λ (slot, f). f.successful_requests) rows;
    failed_requests = sum_of (λ (slot, f). f.failed_requests) rows;
    bytes = record {
      sent = sum_bytes (λ (slot, f). f.bytes.sent) rows;
      recv = sum_bytes (λ (slot, f). f.bytes.recv) rows;
    };
    avg_response_time_ms =
        weighted (map (λ (slot, f). (f.avg_response_time_ms, f.total_requests)) rows);
    p95_response_time_ms = greatest (map (λ (slot, f). f.p95_response_time_ms) rows);
  }

  unfoldable pub merged_for :
      Granularity → Granularity → ℕ → ℕ → Table Number → List AccKey → Table Number
  unfolding merged
  merged_for source target width lo table [] = []
  merged_for source target width lo table (k ∷ keys) =
      (
        record { key = k; period = lo; granularity = target },
        merged (rows_of source k lo (lo + width) table),
      )
      ∷ merged_for source target width lo table keys

  -- The groups of one of the two longer periods.
  unfoldable pub period_groups : Granularity → Granularity → ℕ → ℕ → Table Number → Table Number
  unfolding distinct where_rows merged_for
  period_groups source target width lo table =
      merged_for source target width lo table
        (distinct (map (λ (slot, f). slot.key) (where_rows (rows_in source lo (lo + width)) table)))

  -- The period before the current one, and the current one.
  unfoldable pub coarsen : Granularity → Granularity → ℕ → ℕ → Table Number → Table Number
  unfolding period_groups upsert_each
  coarsen source target width now table =
      upsert_each
        (period_groups source target width (trunc width now - width) table
          ++ period_groups source target width (trunc width now) table)
        table

  -- `_rollup_1hour` and `_rollup_1day`
  unfoldable pub rollup_1hour : ℕ → Table Number → Table Number
  unfolding coarsen
  rollup_1hour = coarsen five_minutes hour one_hour

  unfoldable pub rollup_1day : ℕ → Table Number → Table Number
  unfolding coarsen
  rollup_1day = coarsen hour day one_day

  -- now.minute < 5, and now.hour == 0
  abbrev pub first_minutes : ℕ → Bool
  first_minutes now = ltb (now % one_hour) minutes_5

  abbrev pub first_hour : ℕ → Bool
  first_hour now = ltb (now % one_day) one_hour

  abbrev pub if_works : Bool → (Table Number → Table Number) → Table Number → Table Number
  if_works works step table = if works then step table else table

  -- `rollup_metrics`: `now` is its clock, the others are those of the statements, in their order. A
  -- step that fails ends the call; `works` says how many steps succeed.
  unfoldable pub rollup_metrics : ℕ → ℕ → ℕ → ℕ → ℕ → List LogRow → Table Number → Table Number
  unfolding rollup_5min rollup_1hour rollup_1day
  rollup_metrics works now t1 t2 t3 logs table =
      let first = if_works (ltb 0 works) (rollup_5min t1 logs) table in
      let second = if_works (ltb 1 works && first_minutes now) (rollup_1hour t2) first in
      if_works (ltb 2 works && (first_hour now && first_minutes now)) (rollup_1day t3) second

-- `cleanup_old_data`: the days are the three settings; nothing is deleted if a statement fails.
unfoldable pub cleanup_old_data :
    {N : Type 0} → ℕ → ℕ → ℕ → ℕ → List LogRow → Table N → List LogRow × Table N
unfolding where_rows
cleanup_old_data now log_days five_minutes_days hour_days logs table = (
  where_rows (λ r. not (ltb r.created_at (now - log_days * one_day))) logs,
  where_rows
      (λ (slot, f).
        not (granularity_eq slot.granularity hour && ltb slot.period (now - hour_days * one_day)))
      (where_rows
        (λ (slot, f). not (
          granularity_eq slot.granularity five_minutes
          && ltb slot.period (now - five_minutes_days * one_day)))
        table),
)
