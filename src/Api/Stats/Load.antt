-- ===== src/Api/Stats/Load.antt =====
-- The statistics of src/api/stats.py on the load of the proxies and on time, from `request_log`.
use proxysm.Base.{
  ℕ, ◌-◌, ◌*◌, Bool, not, ◌&&◌, ◌||◌, Option, none, some, List, [], ◌∷◌, ◌++◌, ltb, leb, length,
  ◌==◌, if◌then◌else◌,
}
use proxysm.Text.{Text, text_eq}
use proxysm.Models.{Status, Proxy}
use proxysm.HttpProxy.{print_int}
use proxysm.Groups.{group_rows}
use proxysm.Metrics.{LogRow, where_rows, count_where, minutes_5, one_hour, trunc}
use proxysm.Api.Stats.{
  Numbers, rounded_nonzero, success_rate, cutoff, in_scope, is_null, values_of, order_desc,
  order_asc, limit_to,
}
use proxysm.Api.Stats.Requests.{succeeded, is_failed}

pub record ProxyShare (N : Type 0) : Type 0 where
  pub proxy_id : Text
  pub proxy_addr : Text
  pub request_count : ℕ
  pub success_rate : N

pub record ProxyRank (N : Type 0) : Type 0 where
  pub proxy_id : Text
  pub proxy_addr : Text
  pub status : Option Status
  pub total_requests : ℕ
  pub successful : ℕ
  pub success_rate : N
  pub failed : ℕ
  pub median_latency_ms : Option N

pub record LatencyPoint (N : Type 0) : Type 0 where
  pub period : ℕ
  pub p50 : Option N
  pub p95 : Option N
  pub sample_count : ℕ

pub record Throughput (N : Type 0) : Type 0 where
  pub requests_5min : ℕ
  pub requests_per_minute : N
  pub success_rate : N

module _ (uuid : ℕ → Text) where
  -- JOIN proxies
  unfoldable pub proxy_with : Text → List Proxy → Option Proxy
  proxy_with id [] = none
  proxy_with id (p ∷ l) =
      let rest = proxy_with id l in if text_eq (uuid p.id) id then some p else rest

-- f"{host}:{port}"
abbrev pub address_of : Proxy → Text
address_of p = p.host ++ b':' ∷ print_int p.port

module _ {N : Type 0} where
  -- The share of the successful requests of the first is above that of the second.
  abbrev pub is_better : ProxyRank N → ProxyRank N → Bool
  is_better x y = ltb (y.successful * x.total_requests) (x.successful * y.total_requests)

  unfoldable pub insert_worst : ProxyRank N → List (ProxyRank N) → List (ProxyRank N)
  insert_worst x [] = x ∷ []
  insert_worst x (y ∷ l) =
      let rest = insert_worst x l in if is_better x y then y ∷ rest else x ∷ y ∷ l

  -- ORDER BY the share
  unfoldable pub worst_first : List (ProxyRank N) → List (ProxyRank N)
  unfolding insert_worst
  worst_first [] = []
  worst_first (x ∷ l) = insert_worst x (worst_first l)

module _ {N : Type 0} (num : Numbers N) (uuid : ℕ → Text) where
  unfoldable pub share_of : Text → Proxy → List LogRow → ProxyShare N
  unfolding count_where
  share_of id proxy rows = record {
    proxy_id = id;
    proxy_addr = address_of proxy;
    request_count = length rows;
    success_rate = success_rate num (count_where succeeded rows) (length rows);
  }

  unfoldable pub share_each : List Proxy → List (Text × List LogRow) → List (ProxyShare N)
  unfolding share_of proxy_with
  share_each proxies [] = []
  share_each proxies ((id, rows) ∷ groups) =
      let rest = share_each proxies groups in
      elim (proxy_with uuid id proxies) [ none ↦ rest | some p ↦ share_of id p rows ∷ rest ]

  unfoldable pub get_proxy_distribution :
      ℕ → Option Text → ℕ → List LogRow → List Proxy → List (ProxyShare N)
  unfolding order_desc share_each group_rows where_rows
  get_proxy_distribution now project hours logs proxies =
      order_desc (λ (row : ProxyShare N). row.request_count)
        (share_each proxies (
          group_rows text_eq (λ r. r.proxy_id)
            (where_rows (in_scope (cutoff now hours) project) logs)))

  unfoldable pub rank_of : Text → Proxy → List LogRow → ProxyRank N
  unfolding count_where
  rank_of id proxy rows = record {
    proxy_id = id;
    proxy_addr = address_of proxy;
    status = proxy.last_health_status;
    total_requests = length rows;
    successful = count_where succeeded rows;
    success_rate = success_rate num (count_where succeeded rows) (length rows);
    failed = count_where (λ r. is_failed r || not (is_null r.error_type)) rows;
    median_latency_ms =
        rounded_nonzero num num.round_1
          (num.median (values_of (λ (r : LogRow). r.response_time_ms) rows));
  }

  -- HAVING COUNT(*) >= 3
  unfoldable pub rank_each : List Proxy → List (Text × List LogRow) → List (ProxyRank N)
  unfolding rank_of proxy_with
  rank_each proxies [] = []
  rank_each proxies ((id, rows) ∷ groups) =
      let rest = rank_each proxies groups in
      elim (proxy_with uuid id proxies) [
        | none ↦ rest
        | some p ↦ if leb 3 (length rows) then rank_of id p rows ∷ rest else rest
      ]

  unfoldable pub get_proxy_ranking : ℕ → ℕ → ℕ → List LogRow → List Proxy → List (ProxyRank N)
  unfolding limit_to worst_first rank_each group_rows where_rows
  get_proxy_ranking now hours limit logs proxies = limit_to limit (
      worst_first (
        rank_each proxies (
          group_rows text_eq (λ r. r.proxy_id)
            (where_rows (in_scope (cutoff now hours) none) logs))))

module _ {N : Type 0} (num : Numbers N) where
  unfoldable pub latency_each : List (ℕ × List LogRow) → List (LatencyPoint N)
  latency_each [] = []
  latency_each ((period, rows) ∷ groups) =
      let times = values_of (λ (r : LogRow). r.response_time_ms) rows in
      record {
        period = period;
        p50 = rounded_nonzero num num.round_1 (num.median times);
        p95 = rounded_nonzero num num.round_1 (num.percentile_95 times);
        sample_count = length rows;
      }
      ∷ latency_each groups

  unfoldable pub get_latency_trend : ℕ → ℕ → List LogRow → List (LatencyPoint N)
  unfolding order_asc latency_each group_rows where_rows
  get_latency_trend now hours logs =
      order_asc (λ (row : LatencyPoint N). row.period)
        (latency_each (
          group_rows ◌==◌ (λ r. trunc one_hour r.created_at)
            (where_rows
              (λ r. in_scope (cutoff now hours) none r && not (is_null r.response_time_ms)) logs)))

  unfoldable pub get_throughput : ℕ → Option Text → List LogRow → Throughput N
  unfolding where_rows count_where
  get_throughput now project logs =
      let rows = where_rows (in_scope (now - minutes_5) project) logs in
      record {
        requests_5min = length rows;
        requests_per_minute = num.round_1 (num.ratio (length rows) 5);
        success_rate = success_rate num (count_where succeeded rows) (length rows);
      }
