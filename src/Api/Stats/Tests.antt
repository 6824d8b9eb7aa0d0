-- ===== src/Api/Stats/Tests.antt =====
-- Examples for the statistics.
use proxysm.Base.{
  ℕ, ◌+◌, ◌*◌, ◌≤◌, ◌≡◌, ◌⊎◌, refl, ap, true, false, ◌++◌, none, some, List, [], ◌∷◌, map, arith,
  ◌==◌, length,
}
use proxysm.Base.Int.{pos}
use proxysm.Text.{Text, codes}
use proxysm.Models.{healthy, Proxy, Pool, Project}
use proxysm.Metrics.{LogRow, Aggregates, where_rows, count_where, figures_of, raw_stats}
use proxysm.Metrics.FiveMinutes.{in_window}
use proxysm.Rotation.Engine.{Upstream}
use proxysm.HttpProxy.Letters.{codec}
use proxysm.HttpProxy.Connect.{bad_gateway_reply}
use proxysm.HttpProxy.Forward.{HttpClient, Owner, Fetch, Response, cut_off, exchange}
use proxysm.Api.Stats.{Numbers}
use proxysm.Api.Stats.Requests.{status_codes_of}
use proxysm.Api.Stats.Rollups.{get_overview_stats}
use proxysm.Api.Stats.Entities.{TimeseriesPoint, has_word, get_timeseries}
use proxysm.Api.Stats.Miscounted.{stored, has_error, is_good, is_bad, exchange-miscounted}
use proxysm.Api.Stats.Overview.{get_overview_stats-counts}
use proxysm.Api.Stats.Thrice.{get_timeseries-thrice}

abbrev counting : Aggregates
counting = record {
  Number = ℕ;
  average = λ l. length l;
  percentile_95 = λ l. length l;
  weighted = λ l. length l;
  greatest = λ l. length l;
}

abbrev whole : Numbers ℕ
whole = record {
  is_zero = λ n. n == 0;
  zero = 0;
  round_0 = λ n. n;
  round_1 = λ n. n;
  round_2 = λ n. n;
  percent = λ a b. a * 100;
  ratio = λ a b. a;
  median = λ l. none;
  percentile_95 = λ l. none;
  mean_positive = λ l. none;
  mean = λ l. none;
  maximum = λ l. none;
}

abbrev uuid : ℕ → Text
uuid id = id ∷ []

abbrev asked : ℕ → ℕ → LogRow
asked at status = record {
  proxy_id = 3 ∷ [];
  pool_id = 7 ∷ [];
  project_id = 1 ∷ [];
  status_code = some status;
  response_time_ms = some 120;
  bytes_sent = 5;
  bytes_received = 7;
  target_domain = none;
  error_type = none;
  created_at = at;
}

abbrev two_requests : List LogRow
two_requests = asked 100000010 200 ∷ asked 100000020 404 ∷ []

abbrev shop : Project
shop = record {
  id = 1;
  name = codes "Shop";
  slug = codes "shop";
  api_key_hash = [];
  api_key_plain = none;
}

abbrev main_pool : Pool
main_pool = record { id = 7; name = codes "main"; rotation_strategy = codes "random" }

abbrev one_proxy : Proxy
one_proxy = record {
  id = 3;
  source_id = 1;
  provider = none;
  host = codes "10.0.0.3";
  port = pos 8080;
  protocol = codes "http";
  username = none;
  password_encrypted = none;
  is_active = true;
  last_health_check = none;
  last_health_status = some healthy;
  avg_latency = none;
}

-- The body of each response breaks off.
abbrev breaking : HttpClient
breaking = record {
  from_url = λ url. true;
  fetch =
      λ asked. some (record { status = 200; reason = codes "OK"; headers = []; ending = cut_off });
  hostname = λ url. [];
}

breaking_status :
    (asked : Fetch) (resp : Response) → breaking.fetch asked ≡ some resp → 200 ≤ resp.status
breaking_status asked resp e =
    let same : 200 ≡ resp.status = ap (λ o. elim o [ none ↦ 200 | some r ↦ r.status ]) e in
    omega arith

abbrev owner : Owner
owner = record { project_id = 1 ∷ []; pool_id = 7 ∷ []; proxy_id = 3 ∷ [] }

abbrev upstream : Upstream
upstream = record {
  id = 3;
  host = codes "10.0.0.3";
  port = pos 8080;
  protocol = codes "http";
  username = none;
  password = none;
}

exchange-miscounted_example :
    let (reply, logs) =
      exchange codec breaking owner 12 900 upstream (codes "GET") (codes "http://a/") [] [] in
    let f = figures_of counting (map stored logs) in
    let row = status_codes_of (1 ∷ []) shop (map stored logs) in
    let exceptions = count_where has_error (map stored logs) in
    (exceptions ≡ 1)
    × ((true ≡ false) ⊎ ((sent : Text) × (reply ≡ sent ++ bad_gateway_reply)))
    × (f.successful_requests ≡ count_where is_good (map stored logs) + exceptions)
    × (f.failed_requests ≡ count_where is_bad (map stored logs))
    × (row.status_2xx + row.status_3xx + row.status_4xx + row.status_5xx + exceptions ≡ row.total)
exchange-miscounted_example =
    exchange-miscounted counting codec breaking owner 12 900 upstream (codes "GET")
      (codes "http://a/") [] [] (1 ∷ []) shop refl breaking_status

get_overview_stats-counts_example :
    let o = get_overview_stats whole 100000100 (one_proxy ∷ []) [] [] [] two_requests in
    (o.total_proxies ≡ 1)
    × (o.healthy_proxies ≡ count_where (has_word (codes "healthy")) (one_proxy ∷ []))
    × (o.degraded_proxies ≡ count_where (has_word (codes "degraded")) (one_proxy ∷ []))
    × (o.dead_proxies ≡ count_where (has_word (codes "dead")) (one_proxy ∷ []))
    × (o.unknown_proxies ≡ count_where (has_word (codes "unknown")) (one_proxy ∷ []))
get_overview_stats-counts_example =
    get_overview_stats-counts whole 100000100 (one_proxy ∷ []) [] [] [] two_requests

some_request : 1 ≤ length (where_rows (in_window 99900000) two_requests)
unfolding where_rows
some_request = omega arith

get_timeseries-thrice_example :
    (p : TimeseriesPoint ℕ) × (get_timeseries whole 100300000 none none
        (codes "5min")
        24
        (raw_stats counting 99900000 two_requests)
      ≡ some (p ∷ []))
    × (p.total_requests ≡ 3 * length (where_rows (in_window 99900000) two_requests))
get_timeseries-thrice_example =
    get_timeseries-thrice counting whole 100300000 24 99900000 two_requests (omega arith)
      some_request
