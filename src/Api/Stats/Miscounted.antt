-- ===== src/Api/Stats/Miscounted.antt =====
-- What becomes of a request that ends in an exception: the row that src/proxy/http_proxy.py logs for
-- it, in the rollup of src/services/metrics.py and in the status codes of src/api/stats.py.
use proxysm.Base.{
  ℕ, ◌+◌, ◌≤◌, ◌≡◌, ◌⊎◌, refl, Bool, true, false, not, ◌&&◌, Option, none, some, List, [], ◌∷◌,
  ◌++◌, map, arith, if◌then◌else◌, All, Option-cases, inl, inr,
}
use proxysm.Text.{Text, codes, option_eq, is_empty}
use proxysm.Models.{Project}
use proxysm.RequestLogger.{RequestLog}
use proxysm.Rotation.Engine.{Upstream}
use proxysm.HttpProxy.{Codec}
use proxysm.HttpProxy.Connect.{bad_gateway_reply}
use proxysm.HttpProxy.Forward.{
  Fetch, HttpClient, Owner, proxy_url, Dict, Response, Ending, cut_off, undelivered, delivered,
  response_head, response_bytes, log_row, respond, exchange,
}
use proxysm.Metrics.{LogRow, Aggregates, count_where, is_success, is_failure, figures_of}
use proxysm.Api.Stats.Requests.{status_codes_of}
use proxysm.Api.Stats.Buckets.{one_if, count_cons, count_nil}
use proxysm.Api.Stats.Classes.{below_200, status_codes_of-adds}

-- The row that is inserted for a request that is logged.
abbrev pub stored : RequestLog → LogRow
stored r = record {
  proxy_id = r.proxy_id;
  pool_id = r.pool_id;
  project_id = r.project_id;
  status_code = some r.status_code;
  response_time_ms = some r.response_time_ms;
  bytes_sent = r.bytes_sent;
  bytes_received = r.bytes_received;
  target_domain = some r.target_domain;
  error_type = r.error_type;
  created_at = r.created_at;
}

-- The row is one of the `except`.
abbrev pub has_error : LogRow → Bool
has_error r = option_eq r.error_type (some (codes "proxy_error"))

-- An exception: before there is a response, or somewhere behind its first line.
abbrev pub breaks : Option Response → Bool
breaks none = true
breaks (some resp) = elim resp.ending [
  | cut_off ↦ true
  | undelivered resp_body ↦ true
  | delivered resp_body ends ↦ not ends
]

-- The requests that upstream answered, with a status below 400 or not.
abbrev pub is_good : LogRow → Bool
is_good r = not (has_error r) && is_success r

abbrev pub is_bad : LogRow → Bool
is_bad r = not (has_error r) && is_failure r

-- How the three filters see a row.
record IsSeen (r : LogRow) : Type 0 where
  low : one_if (below_200 r) ≡ one_if (has_error r)
  good : one_if (is_success r) ≡ one_if (is_good r) + one_if (has_error r)
  bad : one_if (is_failure r) ≡ one_if (is_bad r)

module _ (c : Codec) (net : HttpClient) (owner : Owner) (elapsed now : ℕ) where
  answered-IsSeen :
      (status sent received : ℕ) (domain : Text)
      → 200 ≤ status
      → IsSeen (stored (log_row owner status elapsed sent received domain none now))
  answered-IsSeen status sent received domain h = record {
    low = ground arith;
    good = ground arith;
    bad = refl;
  }

  broken-IsSeen :
      (domain : Text)
      → IsSeen (stored (log_row owner 0 elapsed 0 0 domain (some (codes "proxy_error")) now))
  broken-IsSeen domain = record { low = refl; good = refl; bad = refl }

count-low :
    (rows : List LogRow) → All IsSeen rows → count_where below_200 rows ≡ count_where has_error rows
count-low [] h = omega (arith, count_nil below_200, count_nil has_error)
count-low (r ∷ rows) (here, h) =
    omega
      (arith, count_cons below_200 r rows, count_cons has_error r rows, here.low, count-low rows h)

count-good :
    (rows : List LogRow)
    → All IsSeen rows
    → count_where is_success rows ≡ count_where is_good rows + count_where has_error rows
count-good [] h = omega (arith, count_nil is_success, count_nil is_good, count_nil has_error)
count-good (r ∷ rows) (here, h) = omega (
  arith,
  count_cons is_success r rows,
  count_cons is_good r rows,
  count_cons has_error r rows,
  here.good,
  count-good rows h,
)

count-bad :
    (rows : List LogRow) → All IsSeen rows → count_where is_failure rows ≡ count_where is_bad rows
count-bad [] h = omega (arith, count_nil is_failure, count_nil is_bad)
count-bad (r ∷ rows) (here, h) =
    omega
      (arith, count_cons is_failure r rows, count_cons is_bad r rows, here.bad, count-bad rows h)

-- What is logged and written for what the HTTP client gives.
record IsLost (o : Option Response) (reply : Text) (rows : List LogRow) : Type 0 where
  seen : All IsSeen rows
  lost : count_where has_error rows ≡ (if breaks o then 1 else 0)
  told : (breaks o ≡ false) ⊎ ((sent : Text) × (reply ≡ sent ++ bad_gateway_reply))

module _ (c : Codec) (net : HttpClient) (owner : Owner) (elapsed now : ℕ)
    (owned : is_empty owner.project_id ≡ false) where
  respond-IsLost :
      (url body : Text) (status : ℕ) (reason : Text) (headers : Dict) (ending : Ending)
      → 200 ≤ status
      → let resp : Response = record {
        status = status;
        reason = reason;
        headers = headers;
        ending = ending;
      } in
        let (reply, logs) = respond c net owner elapsed now url body resp ending in
        IsLost (some resp) reply (map stored logs)
  unfolding respond count_where
  respond-IsLost url body status reason headers cut_off h = rw owned (record {
    seen = (broken-IsSeen c net owner elapsed now (net.hostname url), tt);
    lost = refl;
    told = inr (response_head c _, refl);
  })
  respond-IsLost url body status reason headers (undelivered resp_body) h = rw owned (record {
    seen = (broken-IsSeen c net owner elapsed now (net.hostname url), tt);
    lost = refl;
    told = inr (response_bytes c _ resp_body, refl);
  })
  respond-IsLost url body status reason headers (delivered resp_body true) h = rw owned (record {
    seen = (answered-IsSeen c net owner elapsed now status _ _ (net.hostname url) h, tt);
    lost = refl;
    told = inl refl;
  })
  respond-IsLost url body status reason headers (delivered resp_body false) h = rw owned (record {
    seen = (
      answered-IsSeen c net owner elapsed now status _ _ (net.hostname url) h,
      (broken-IsSeen c net owner elapsed now (net.hostname url), tt),
    );
    lost = refl;
    told = inr (response_bytes c _ resp_body, refl);
  })

  exchange-IsLost :
      (up : Upstream) (method url : Text) (headers : Dict) (body : Text)
      → ((asked : Fetch) (resp : Response) → net.fetch asked ≡ some resp → 200 ≤ resp.status)
      → let asked : Fetch = record {
        proxy_url = proxy_url up;
        method = method;
        url = url;
        headers = headers;
        body = body;
      } in
        let (reply, logs) = exchange c net owner elapsed now up method url headers body in
        IsLost (net.fetch asked) reply (map stored logs)
  unfolding exchange count_where
  exchange-IsLost up method url headers body final =
      let asked : Fetch = record {
        proxy_url = proxy_url up;
        method = method;
        url = url;
        headers = headers;
        body = body;
      } in
      elim (Option-cases (net.fetch asked)) [
        | inl e ↦
            rw (e, exchange)
              (rw owned (record {
                seen = (broken-IsSeen c net owner elapsed now (net.hostname url), tt);
                lost = refl;
                told = inr ([], refl);
              }))
        | inr (resp, e) ↦
            rw (e, exchange)
              (respond-IsLost url body resp.status resp.reason resp.headers resp.ending
                (final asked resp e))
      ]

-- Whatever comes of a request to the upstream, an exception in it is counted as a success: among the
-- rows that are logged there is one of the `except` exactly if there was an exception, and then the
-- client is sent the 502 behind what it was sent before; the rollup counts that row as successful and
-- never as failed, and the status codes count it in the total and in no class. All else that is logged
-- is counted by its status. The request has a project, and a response has a status of 200 at least.
pub exchange-miscounted :
    (agg : Aggregates) (c : Codec) (net : HttpClient) (owner : Owner) (elapsed now : ℕ)
    (up : Upstream) (method url : Text) (headers : Dict) (body id : Text) (project : Project)
    → is_empty owner.project_id ≡ false
    → ((asked : Fetch) (resp : Response) → net.fetch asked ≡ some resp → 200 ≤ resp.status)
    → let asked : Fetch = record {
      proxy_url = proxy_url up;
      method = method;
      url = url;
      headers = headers;
      body = body;
    } in
      let (reply, logs) = exchange c net owner elapsed now up method url headers body in
      let f = figures_of agg (map stored logs) in
      let row = status_codes_of id project (map stored logs) in
      let exceptions = count_where has_error (map stored logs) in
      (exceptions ≡ (if breaks (net.fetch asked) then 1 else 0))
      × ((breaks (net.fetch asked) ≡ false) ⊎ ((sent : Text) × (reply ≡ sent ++ bad_gateway_reply)))
      × (f.successful_requests ≡ count_where is_good (map stored logs) + exceptions)
      × (f.failed_requests ≡ count_where is_bad (map stored logs))
      × (row.status_2xx + row.status_3xx + row.status_4xx + row.status_5xx + exceptions ≡ row.total)
unfolding figures_of
exchange-miscounted agg c net owner elapsed now up method url headers body id project owned final =
    let logs = (exchange c net owner elapsed now up method url headers body).1 in
    let all = exchange-IsLost c net owner elapsed now owned up method url headers body final in
    (
      all.lost,
      all.told,
      count-good (map stored logs) all.seen,
      count-bad (map stored logs) all.seen,
      omega (
        arith,
        status_codes_of-adds id project (map stored logs),
        count-low (map stored logs) all.seen,
      ),
    )
