-- ===== src/Api/Stats/Rollups.antt =====
-- The statistics of src/api/stats.py that are read from `metrics_rollup`, and those of the tables.
use proxysm.Base.{
  ℕ, ◌+◌, Bool, ◌&&◌, Option, none, some, List, [], ◌∷◌, map, ltb, leb, length, if◌then◌else◌,
}
use proxysm.Base.Int.{ℤ}
use proxysm.Text.{Text, codes, text_eq, option_eq}
use proxysm.Models.{Status, healthy, degraded, dead, unknown, other, Proxy, Pool, Project}
use proxysm.Groups.{group_rows}
use proxysm.Metrics.{
  LogRow, Granularity, five_minutes, granularity_eq, Slot, Figures, Table, where_rows, sum_of,
  sum_bytes,
}
use proxysm.Api.Stats.{Numbers, rounded, cutoff, values_of}

pub record OverviewStats (N : Type 0) : Type 0 where
  pub total_proxies : ℕ
  pub healthy_proxies : ℕ
  pub degraded_proxies : ℕ
  pub dead_proxies : ℕ
  pub unknown_proxies : ℕ
  pub total_pools : ℕ
  pub total_projects : ℕ
  pub total_requests_24h : ℕ
  pub successful_requests_24h : ℕ
  pub failed_requests_24h : ℕ
  pub bytes_sent_24h : ℤ
  pub bytes_received_24h : ℤ
  pub avg_response_time_ms : Option N
  pub median_response_time_ms : Option N

pub record EntityStats (N : Type 0) : Type 0 where
  pub total_requests : ℕ
  pub successful_requests : ℕ
  pub failed_requests : ℕ
  pub error_rate : N
  pub avg_response_time_ms : Option N
  pub median_response_time_ms : Option N
  pub p95_response_time_ms : Option N
  pub bytes_sent : ℤ
  pub bytes_received : ℤ

-- The word in the column.
abbrev pub status_word : Option Status → Option Text
status_word none = none
status_word (some unknown) = some (codes "unknown")
status_word (some healthy) = some (codes "healthy")
status_word (some degraded) = some (codes "degraded")
status_word (some dead) = some (codes "dead")
status_word (some (other s)) = some (codes s)

abbrev pub word_of : Proxy → Option Text
word_of p = status_word p.last_health_status

-- The loop over the groups: the dict, and the total.
unfoldable pub count_each : List (Option Text × List Proxy) → List (Option Text × ℕ) × ℕ
count_each [] = ([], 0)
count_each ((word, rows) ∷ groups) =
    let (dict, n) = count_each groups in ((word, length rows) ∷ dict, length rows + n)

-- `status_map.get(word, 0)`
unfoldable pub get_count : Option Text → List (Option Text × ℕ) → ℕ
get_count word [] = 0
get_count word ((w, n) ∷ dict) =
    let rest = get_count word dict in if option_eq w word then n else rest

unfoldable pub status_map : List Proxy → List (Option Text × ℕ) × ℕ
unfolding count_each group_rows
status_map proxies = count_each (group_rows option_eq word_of proxies)

module _ {N : Type 0} where
  -- The rows of one type of entity and one granularity that start at `start` or later.
  abbrev pub recent : Text → Granularity → ℕ → Slot × Figures N → Bool
  recent entity_type granularity start (slot, f) =
      text_eq slot.key.0 entity_type
      && (granularity_eq slot.granularity granularity && leb start slot.period)

  abbrev pub figures : Table N → List (Figures N)
  figures [] = []
  figures ((slot, f) ∷ table) = f ∷ figures table

  -- The sums that the queries take.
  abbrev pub sum_total : Table N → ℕ
  sum_total table = sum_of (λ (f : Figures N). f.total_requests) (figures table)

  abbrev pub sum_successful : Table N → ℕ
  sum_successful table = sum_of (λ (f : Figures N). f.successful_requests) (figures table)

  abbrev pub sum_failed : Table N → ℕ
  sum_failed table = sum_of (λ (f : Figures N). f.failed_requests) (figures table)

  abbrev pub sum_sent : Table N → ℤ
  sum_sent table = sum_bytes (λ (f : Figures N). f.bytes.sent) (figures table)

  abbrev pub sum_received : Table N → ℤ
  sum_received table = sum_bytes (λ (f : Figures N). f.bytes.recv) (figures table)

  abbrev pub averages : Table N → List N
  averages table = map (λ (f : Figures N). f.avg_response_time_ms) (figures table)

  abbrev pub percentiles : Table N → List N
  percentiles table = map (λ (f : Figures N). f.p95_response_time_ms) (figures table)

module _ {N : Type 0} (num : Numbers N) where
  unfoldable pub get_overview_stats :
      ℕ → List Proxy → List Pool → List Project → Table N → List LogRow → OverviewStats N
  unfolding status_map get_count where_rows sum_of sum_bytes
  get_overview_stats now proxies pools projects table logs =
      let (dict, total) = status_map proxies in
      let rows = where_rows (recent (codes "proxy") five_minutes (cutoff now 24)) table in
      record {
        total_proxies = total;
        healthy_proxies = get_count (some (codes "healthy")) dict;
        degraded_proxies = get_count (some (codes "degraded")) dict;
        dead_proxies = get_count (some (codes "dead")) dict;
        unknown_proxies = get_count (some (codes "unknown")) dict;
        total_pools = length pools;
        total_projects = length projects;
        total_requests_24h = sum_total rows;
        successful_requests_24h = sum_successful rows;
        failed_requests_24h = sum_failed rows;
        bytes_sent_24h = sum_sent rows;
        bytes_received_24h = sum_received rows;
        avg_response_time_ms = rounded num.round_2 (num.mean (averages rows));
        median_response_time_ms = rounded num.round_2 (
            num.median (
              values_of (λ (r : LogRow). r.response_time_ms)
                (where_rows (λ r. leb (cutoff now 24) r.created_at) logs)));
      }

  -- `_entity_stats`; `theirs` says which requests the median is of.
  unfoldable pub entity_stats :
      Text → Text → (LogRow → Bool) → Table N → List LogRow → EntityStats N
  unfolding where_rows sum_of sum_bytes
  entity_stats entity_type entity_id theirs table logs =
      let rows =
        where_rows
          (λ (slot, f).
            text_eq slot.key.0 entity_type
            && (text_eq slot.key.1 entity_id && granularity_eq slot.granularity five_minutes))
          table in
      record {
        total_requests = sum_total rows;
        successful_requests = sum_successful rows;
        failed_requests = sum_failed rows;
        error_rate = num.round_2 (
            if ltb 0 (sum_total rows)
            then num.percent (sum_failed rows) (sum_total rows)
            else num.zero);
        avg_response_time_ms = rounded num.round_2 (num.mean (averages rows));
        median_response_time_ms =
            rounded num.round_2 (
              num.median (values_of (λ (r : LogRow). r.response_time_ms) (where_rows theirs logs)));
        p95_response_time_ms = rounded num.round_2 (num.maximum (percentiles rows));
        bytes_sent = sum_sent rows;
        bytes_received = sum_received rows;
      }
