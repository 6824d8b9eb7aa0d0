-- ===== src/Api/Stats/Requests.antt =====
-- The statistics of src/api/stats.py that are read from `request_log`.
use proxysm.Base.{
  ℕ, Bool, true, false, not, ◌&&◌, ◌||◌, Option, none, some, List, [], ◌∷◌, ◌++◌, leb, length, ◌==◌,
  if◌then◌else◌,
}
use proxysm.Text.{Text, codes, text_eq, option_eq}
use proxysm.Models.{Pool, PoolProxy, Project, ProjectPool}
use proxysm.Groups.{group_rows}
use proxysm.Metrics.{LogRow, where_rows, count_where}
use proxysm.Api.Stats.{
  Numbers, rounded_nonzero, success_rate, cutoff, in_scope, from_to, from_on, is_null, values_of,
  order_desc, limit_to,
}

-- StatusCodeBreakdown
pub record StatusCodes : Type 0 where
  pub project_id : Text
  pub project_name : Text
  pub status_2xx : ℕ
  pub status_3xx : ℕ
  pub status_4xx : ℕ
  pub status_5xx : ℕ
  pub total : ℕ

-- An entry of "buckets" is its count.
pub record Histogram : Type 0 where
  pub pool_id : ℕ
  pub pool_name : Text
  pub below_100 : ℕ
  pub from_100 : ℕ
  pub from_300 : ℕ
  pub from_500 : ℕ
  pub from_1000 : ℕ
  pub from_3000 : ℕ
  pub total : ℕ

pub record ErrorBreakdown : Type 0 where
  pub proxy_errors : ℕ
  pub timeouts : ℕ
  pub client_4xx : ℕ
  pub server_5xx : ℕ
  pub other_errors : ℕ
  pub successful : ℕ
  pub total : ℕ

pub record Domain (N : Type 0) : Type 0 where
  pub domain : Text
  pub total_requests : ℕ
  pub success_rate : N
  pub failed : ℕ
  pub median_latency_ms : Option N
  pub avg_response_bytes : Option N

-- JOIN on the id, as a text
module _ (uuid : ℕ → Text) where
  unfoldable pub project_with : Text → List Project → Option Project
  project_with id [] = none
  project_with id (p ∷ l) =
      let rest = project_with id l in if text_eq (uuid p.id) id then some p else rest

unfoldable pub pool_with : ℕ → List Pool → Option Pool
pool_with id [] = none
pool_with id (p ∷ l) = let rest = pool_with id l in if p.id == id then some p else rest

-- The statuses that the queries count.
abbrev pub status_in : ℕ → ℕ → LogRow → Bool
status_in lo hi r = from_to lo hi r.status_code

abbrev pub status_500 : LogRow → Bool
status_500 r = from_on 500 r.status_code || is_null r.status_code

abbrev pub succeeded : LogRow → Bool
succeeded r = from_to 200 400 r.status_code

abbrev pub is_failed : LogRow → Bool
is_failed r = from_on 400 r.status_code || is_null r.status_code

unfoldable pub status_codes_of : Text → Project → List LogRow → StatusCodes
unfolding count_where
status_codes_of id project rows = record {
  project_id = id;
  project_name = project.name;
  status_2xx = count_where (status_in 200 300) rows;
  status_3xx = count_where (status_in 300 400) rows;
  status_4xx = count_where (status_in 400 500) rows;
  status_5xx = count_where status_500 rows;
  total = length rows;
}

module _ (uuid : ℕ → Text) where
  -- The rows for the groups whose project is there.
  unfoldable pub status_codes_each : List Project → List (Text × List LogRow) → List StatusCodes
  unfolding status_codes_of project_with
  status_codes_each projects [] = []
  status_codes_each projects ((id, rows) ∷ groups) =
      let rest = status_codes_each projects groups in
      elim (project_with uuid id projects) [
        | none ↦ rest
        | some project ↦ status_codes_of id project rows ∷ rest
      ]

  unfoldable pub get_status_codes :
      ℕ → Option Text → ℕ → List LogRow → List Project → List StatusCodes
  unfolding order_desc status_codes_each group_rows where_rows
  get_status_codes now project hours logs projects =
      order_desc (λ (row : StatusCodes). row.total)
        (status_codes_each projects (
          group_rows text_eq (λ r. r.project_id)
            (where_rows (in_scope (cutoff now hours) project) logs)))

-- A request of a proxy of a pool.
abbrev pub Pooled : Type 0
Pooled = ℕ × LogRow

abbrev pub latency_in : ℕ → ℕ → Pooled → Bool
latency_in lo hi (pool, r) = from_to lo hi r.response_time_ms

unfoldable pub histogram_of : Pool → List Pooled → Histogram
unfolding count_where
histogram_of pool rows = record {
  pool_id = pool.id;
  pool_name = pool.name;
  below_100 = count_where (latency_in 0 100) rows;
  from_100 = count_where (latency_in 100 300) rows;
  from_300 = count_where (latency_in 300 500) rows;
  from_500 = count_where (latency_in 500 1000) rows;
  from_1000 = count_where (latency_in 1000 3000) rows;
  from_3000 = count_where (λ (pool, r). from_on 3000 r.response_time_ms) rows;
  total = length rows;
}

-- The pool is one of the project, if one is given; a link is there once.
unfoldable pub in_project : Option ℕ → List ProjectPool → ℕ → Bool
in_project none links pool = true
in_project (some project) [] pool = false
in_project (some project) (link ∷ links) pool =
    let rest = in_project (some project) links pool in
    (link.pool_id == pool && link.project_id == project) || rest

unfoldable pub histogram_each : List Pool → List (ℕ × List Pooled) → List Histogram
unfolding histogram_of pool_with
histogram_each pools [] = []
histogram_each pools ((id, rows) ∷ groups) =
    let rest = histogram_each pools groups in
    elim (pool_with id pools) [ none ↦ rest | some pool ↦ histogram_of pool rows ∷ rest ]

abbrev pub timed : ℕ → LogRow → Bool
timed start r = leb start r.created_at && not (is_null r.response_time_ms)

module _ (uuid : ℕ → Text) where
  -- JOIN pool_proxies pp ON pp.proxy_id = rl.proxy_id, of one request
  unfoldable pub pools_of_request : LogRow → List PoolProxy → List Pooled
  pools_of_request r [] = []
  pools_of_request r (link ∷ links) =
      let rest = pools_of_request r links in
      if text_eq (uuid link.proxy_id) r.proxy_id then (link.pool_id, r) ∷ rest else rest

  unfoldable pub join_pools : List LogRow → List PoolProxy → List Pooled
  unfolding pools_of_request
  join_pools [] links = []
  join_pools (r ∷ rows) links = pools_of_request r links ++ join_pools rows links

  unfoldable pub get_pool_latency_histogram :
      ℕ
      → Option ℕ
      → ℕ
      → List LogRow
      → List PoolProxy
      → List ProjectPool
      → List Pool
      → List Histogram
  unfolding order_desc histogram_each group_rows where_rows join_pools in_project
  get_pool_latency_histogram now project hours logs links project_pools pools =
      order_desc (λ (row : Histogram). row.total)
        (histogram_each pools (
          group_rows ◌==◌ (λ (pool, r). pool)
            (where_rows (λ (pool, r). in_project project project_pools pool)
              (join_pools (where_rows (timed (cutoff now hours)) logs) links))))

unfoldable pub get_error_breakdown : ℕ → Option Text → ℕ → List LogRow → ErrorBreakdown
unfolding count_where where_rows
get_error_breakdown now project hours logs =
    let rows = where_rows (in_scope (cutoff now hours) project) logs in
    record {
      proxy_errors = count_where (λ r. option_eq r.error_type (some (codes "proxy_error"))) rows;
      timeouts = count_where (λ r. option_eq r.error_type (some (codes "timeout"))) rows;
      client_4xx = count_where (λ r. is_null r.error_type && status_in 400 500 r) rows;
      server_5xx = count_where (λ r. is_null r.error_type && from_on 500 r.status_code) rows;
      other_errors =
          count_where
            (λ r.
              not (is_null r.error_type)
              && not (
                  option_eq r.error_type (some (codes "proxy_error"))
                  || option_eq r.error_type (some (codes "timeout"))))
            rows;
      successful = count_where (λ r. succeeded r && is_null r.error_type) rows;
      total = length rows;
    }

module _ {N : Type 0} (num : Numbers N) where
  -- An entry of `get_top_domains`.
  unfoldable pub domain_of : Text → List LogRow → Domain N
  unfolding count_where
  domain_of domain rows = record {
    domain = domain;
    total_requests = length rows;
    success_rate = success_rate num (count_where succeeded rows) (length rows);
    failed = count_where is_failed rows;
    median_latency_ms =
        rounded_nonzero num num.round_1
          (num.median (values_of (λ (r : LogRow). r.response_time_ms) rows));
    avg_response_bytes =
        rounded_nonzero num num.round_0
          (num.mean_positive (values_of (λ (r : LogRow). some r.bytes_received) rows));
  }

  -- The rows with a domain.
  unfoldable pub with_domain : List LogRow → List (Text × LogRow)
  with_domain [] = []
  with_domain (r ∷ rows) =
      let rest = with_domain rows in elim r.target_domain [ none ↦ rest | some d ↦ (d, r) ∷ rest ]

  abbrev pub rows_only : List (Text × LogRow) → List LogRow
  rows_only [] = []
  rows_only ((d, r) ∷ l) = r ∷ rows_only l

  unfoldable pub domain_each : List (Text × List (Text × LogRow)) → List (Domain N)
  unfolding domain_of
  domain_each [] = []
  domain_each ((d, rows) ∷ groups) = domain_of d (rows_only rows) ∷ domain_each groups

  unfoldable pub get_top_domains : ℕ → Option Text → ℕ → ℕ → List LogRow → List (Domain N)
  unfolding limit_to order_desc domain_each group_rows with_domain where_rows
  get_top_domains now project hours limit logs = limit_to limit (
      order_desc (λ (row : Domain N). row.total_requests)
        (domain_each (
          group_rows text_eq (λ (d, r). d)
            (with_domain (where_rows (in_scope (cutoff now hours) project) logs)))))
