-- ===== src/Api/Stats/Entities.antt =====
-- The statistics of src/api/stats.py by entity, period and provider.
use proxysm.Base.{
  ℕ, Bool, true, false, not, ◌&&◌, ◌||◌, Option, none, some, List, [], ◌∷◌, leb, length, ◌==◌,
  if◌then◌else◌,
}
use proxysm.Base.Int.{ℤ}
use proxysm.Text.{Text, codes, text_eq, option_eq, is_empty}
use proxysm.Models.{Proxy, Pool, PoolProxy, Project, ProjectPool}
use proxysm.Groups.{group_rows}
use proxysm.Metrics.{
  LogRow, Granularity, five_minutes, hour, day, granularity_eq, Slot, Figures, Table, where_rows,
  count_where, sum_of, sum_bytes,
}
use proxysm.Api.{Reply, ok, not_found}
use proxysm.Api.Pools.{get_pool_row, get_proxy_row}
use proxysm.Api.Projects.{get_project_row}
use proxysm.Api.Stats.{
  Numbers, rounded, rounded_nonzero, success_rate, cutoff, is_null, values_of, order_desc,
  order_asc,
}
use proxysm.Api.Stats.Requests.{in_project}
use proxysm.Api.Stats.Rollups.{
  EntityStats, word_of, recent, sum_total, sum_successful, sum_failed, sum_sent, sum_received,
  averages, entity_stats,
}

pub record PoolMetrics (N : Type 0) : Type 0 where
  pub pool_id : ℕ
  pub pool_name : Text
  pub total_requests : ℕ
  pub error_rate : N
  pub avg_latency_ms : Option N
  pub median_latency_ms : Option N

pub record BandwidthPoint : Type 0 where
  pub period : ℕ
  pub bytes_sent : ℤ
  pub bytes_received : ℤ

pub record TimeseriesPoint (N : Type 0) : Type 0 where
  pub period_start : ℕ
  pub total_requests : ℕ
  pub successful_requests : ℕ
  pub failed_requests : ℕ
  pub avg_response_time_ms : Option N

pub record ProviderHealth : Type 0 where
  pub provider : Text
  pub total : ℕ
  pub healthy_count : ℕ
  pub degraded_count : ℕ
  pub dead_count : ℕ
  pub unknown_count : ℕ
  pub active : ℕ

-- JOIN pools on the text of the id
unfoldable pub pool_of_text : (ℕ → Text) → Text → List Pool → Option Pool
pool_of_text uuid id [] = none
pool_of_text uuid id (p ∷ l) =
    let rest = pool_of_text uuid id l in if text_eq (uuid p.id) id then some p else rest

-- A link of the pool to the proxy of the request.
unfoldable pub through_pool : (ℕ → Text) → ℕ → List PoolProxy → LogRow → Bool
through_pool uuid pool [] r = false
through_pool uuid pool (link ∷ links) r =
    let rest = through_pool uuid pool links r in
    (link.pool_id == pool && text_eq (uuid link.proxy_id) r.proxy_id) || rest

-- proxy_id IN (the proxies of the pool UNION the proxy), for one id
unfoldable pub of_pool_or_proxy : (ℕ → Text) → ℕ → List PoolProxy → List Proxy → LogRow → Bool
unfolding through_pool get_proxy_row
of_pool_or_proxy uuid id links proxies r =
    through_pool uuid id links r
    || (not (is_null (get_proxy_row id proxies)) && text_eq (uuid id) r.proxy_id)

module _ {N : Type 0} (num : Numbers N) (uuid : ℕ → Text) where
  unfoldable pub get_proxy_stats :
      ℕ → List Proxy → List PoolProxy → Table N → List LogRow → Reply (EntityStats N)
  unfolding get_proxy_row entity_stats of_pool_or_proxy
  get_proxy_stats id proxies links table logs = elim (get_proxy_row id proxies) [
    | none ↦ not_found
    | some p ↦ ok (
        entity_stats num (codes "proxy") (uuid id) (of_pool_or_proxy uuid id links proxies) table
          logs)
  ]

  unfoldable pub get_pool_stats :
      ℕ → List Pool → List Proxy → List PoolProxy → Table N → List LogRow → Reply (EntityStats N)
  unfolding get_pool_row entity_stats of_pool_or_proxy
  get_pool_stats id pools proxies links table logs = elim (get_pool_row id pools) [
    | none ↦ not_found
    | some p ↦ ok (
        entity_stats num (codes "pool") (uuid id) (of_pool_or_proxy uuid id links proxies) table
          logs)
  ]

  unfoldable pub get_project_stats :
      ℕ → List Project → Table N → List LogRow → Reply (EntityStats N)
  unfolding get_project_row entity_stats
  get_project_stats id projects table logs = elim (get_project_row id projects) [
    | none ↦ not_found
    | some p ↦ ok (
        entity_stats num (codes "project") (uuid id) (λ r. text_eq r.project_id (uuid id)) table
          logs)
  ]

  unfoldable pub pool_metrics_of : ℕ → Pool → Table N → List PoolProxy → List LogRow → PoolMetrics N
  unfolding where_rows through_pool sum_of
  pool_metrics_of start pool rows links logs = record {
    pool_id = pool.id;
    pool_name = pool.name;
    total_requests = sum_total rows;
    error_rate = success_rate num (sum_failed rows) (sum_total rows);
    avg_latency_ms = rounded_nonzero num num.round_1 (num.mean (averages rows));
    median_latency_ms = rounded_nonzero num num.round_1 (
        num.median (
          values_of (λ (r : LogRow). r.response_time_ms)
            (where_rows (λ r. leb start r.created_at && through_pool uuid pool.id links r) logs)));
  }

  unfoldable pub pool_metrics_each :
      ℕ
      → Option ℕ
      → List Pool
      → List ProjectPool
      → List PoolProxy
      → List LogRow
      → List (Text × Table N)
      → List (PoolMetrics N)
  unfolding pool_of_text in_project pool_metrics_of
  pool_metrics_each start project pools project_pools links logs [] = []
  pool_metrics_each start project pools project_pools links logs ((id, rows) ∷ groups) =
      let rest = pool_metrics_each start project pools project_pools links logs groups in
      elim (pool_of_text uuid id pools) [
        | none ↦ rest
        | some pool ↦
            if in_project project project_pools pool.id
            then pool_metrics_of start pool rows links logs ∷ rest
            else rest
      ]

  unfoldable pub get_pool_metrics :
      ℕ
      → Option ℕ
      → ℕ
      → List Pool
      → List ProjectPool
      → List PoolProxy
      → Table N
      → List LogRow
      → List (PoolMetrics N)
  unfolding order_desc pool_metrics_each group_rows where_rows
  get_pool_metrics now project hours pools project_pools links table logs =
      let start = cutoff now hours in
      order_desc (λ (row : PoolMetrics N). row.total_requests)
        (pool_metrics_each start project pools project_pools links logs (
          group_rows text_eq (λ (slot, f). slot.key.1)
            (where_rows (recent (codes "pool") five_minutes start) table)))

module _ {N : Type 0} where
  abbrev pub of_entity : Option Text → Slot × Figures N → Bool
  of_entity none row = true
  of_entity (some id) row = text_eq row.0.key.1 id

  unfoldable pub bandwidth_each : List (ℕ × Table N) → List BandwidthPoint
  unfolding sum_bytes
  bandwidth_each [] = []
  bandwidth_each ((period, rows) ∷ groups) =
      record { period = period; bytes_sent = sum_sent rows; bytes_received = sum_received rows }
      ∷ bandwidth_each groups

  unfoldable pub get_bandwidth_trend : ℕ → Option Text → ℕ → Table N → List BandwidthPoint
  unfolding order_asc bandwidth_each group_rows where_rows
  get_bandwidth_trend now project hours table =
      order_asc (λ (row : BandwidthPoint). row.period)
        (bandwidth_each (
          group_rows ◌==◌ (λ (slot, f). slot.period)
            (where_rows
              (λ row. recent (codes "project") hour (cutoff now hours) row && of_entity project row)
              table)))

  -- `if entity_type`: an empty text is no filter.
  abbrev pub of_type : Option Text → Slot × Figures N → Bool
  of_type none row = true
  of_type (some t) row = is_empty t || text_eq row.0.key.0 t

  abbrev pub is_selected : Option Text → Option Text → Granularity → ℕ → Slot × Figures N → Bool
  is_selected entity_type entity_id g start row =
      granularity_eq row.0.granularity g
      && (leb start row.0.period && (of_type entity_type row && of_entity entity_id row))

-- The three texts that `get_timeseries` admits.
unfoldable pub granularity_of : Text → Option Granularity
granularity_of t =
    if text_eq t (codes "5min")
    then some five_minutes
    else if text_eq t (codes "1hour")
    then some hour
    else if text_eq t (codes "1day")
    then some day
    else none

module _ {N : Type 0} (num : Numbers N) where
  unfoldable pub point_of : ℕ → Table N → TimeseriesPoint N
  unfolding sum_of
  point_of period rows = record {
    period_start = period;
    total_requests = sum_total rows;
    successful_requests = sum_successful rows;
    failed_requests = sum_failed rows;
    avg_response_time_ms = rounded num.round_2 (num.mean (averages rows));
  }

  unfoldable pub point_each : List (ℕ × Table N) → List (TimeseriesPoint N)
  unfolding point_of
  point_each [] = []
  point_each ((period, rows) ∷ groups) = point_of period rows ∷ point_each groups

  -- none is the 400.
  unfoldable pub get_timeseries :
      ℕ → Option Text → Option Text → Text → ℕ → Table N → Option (List (TimeseriesPoint N))
  unfolding granularity_of order_asc point_each group_rows where_rows
  get_timeseries now entity_type entity_id granularity hours table =
      elim (granularity_of granularity) [
        | none ↦ none
        | some g ↦ some (
            order_asc (λ (row : TimeseriesPoint N). row.period_start)
              (point_each (
                group_rows ◌==◌ (λ (slot, f). slot.period)
                  (where_rows (is_selected entity_type entity_id g (cutoff now hours)) table))))
      ]

abbrev pub has_word : Text → Proxy → Bool
has_word w p = option_eq (word_of p) (some w)

unfoldable pub provider_of : Option Text → List Proxy → ProviderHealth
unfolding count_where
provider_of provider rows = record {
  provider = (elim provider [
    | none ↦ codes "Unknown"
    | some p ↦ (if is_empty p then codes "Unknown" else p)
  ]);
  total = length rows;
  healthy_count = count_where (has_word (codes "healthy")) rows;
  degraded_count = count_where (has_word (codes "degraded")) rows;
  dead_count = count_where (has_word (codes "dead")) rows;
  unknown_count = count_where (has_word (codes "unknown")) rows;
  active = count_where (λ p. p.is_active) rows;
}

unfoldable pub provider_each : List (Option Text × List Proxy) → List ProviderHealth
unfolding provider_of
provider_each [] = []
provider_each ((provider, rows) ∷ groups) = provider_of provider rows ∷ provider_each groups

unfoldable pub get_provider_health : List Proxy → List ProviderHealth
unfolding order_desc provider_each group_rows
get_provider_health proxies =
    order_desc (λ (row : ProviderHealth). row.total)
      (provider_each (group_rows option_eq (λ p. p.provider) proxies))
