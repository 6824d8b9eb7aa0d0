-- ===== src/Health/Cycle.antt =====
-- One round of the health checker (`check_all_proxies` of src/health/checker.py): the proxies that
-- are due are checked, and each result is written to Redis, to the proxy's row and to the log.
-- A round reads the clock once, `t`; `random.uniform` is the argument `jitter`, in milliseconds.
use proxysm.Base.{
  ℕ, ◌+◌, ◌*◌, ◌/◌, ◌%◌, Bool, true, Option, none, some, List, [], ◌∷◌, ltb, leb, if◌then◌else◌,
  or_else,
}
use proxysm.Text.{Text, is_empty}
use proxysm.Models.{Status, unknown, healthy, degraded, dead, other, Proxy, Settings}
use proxysm.Redis.{
  health, external_ip, info, dead_backoff, next_check, status, number, integer, word, Fields, Datum,
  str, Redis,
}
use proxysm.Health.{Probe, Checked, current_backoff, check_single_proxy}

-- A row of `health_check_log`.
pub record HealthLog : Type 0 where
  pub proxy_id : ℕ
  pub status : Status
  pub latency_ms : Option ℕ
  pub external_ip : Option Text
  pub checked_at : ℕ

-- Python's `round` of n / 10: a half goes to the even neighbour.
unfoldable pub round_tenths : ℕ → ℕ
round_tenths n =
    let q = n / 10 in let r = n % 10 in if ltb r 5 then q else if ltb 5 r then q + 1 else q + q % 2

-- `next_check is None or float(next_check) <= now_ts`
unfoldable pub is_due : Datum → ℕ → Bool
is_due (str (number n)) t = leb n t
is_due _ t = true

-- The mapping of the HSET in `check_all_proxies`, of `_sync_pool_redis` and of `check_proxy`.
unfoldable pub info_fields : Proxy → Fields
info_fields p =
    ("host", word p.host)
    ∷ ("port", integer p.port)
    ∷ ("protocol", word p.protocol)
    ∷ ("username", word (or_else p.username []))
    ∷ ("password", word (or_else p.password_encrypted []))
    ∷ []

-- The interval to the next check, in milliseconds; `backoff` is what stands under `dead_backoff`.
unfoldable pub interval : ℕ → Status → ℕ → Datum → ℕ
unfolding current_backoff
interval base healthy jitter backoff = base * 1000 + jitter
interval base degraded jitter backoff = 15000 + jitter
interval base dead jitter backoff = current_backoff backoff * 1000
interval base unknown jitter backoff = base * 1000
interval base (other _) jitter backoff = base * 1000

-- `update_values`, applied to the row
unfoldable pub update_row : Status → ℕ → ℕ → Proxy → Proxy
update_row healthy latency t p = record p {
  last_health_check = some t;
  last_health_status = some healthy;
  avg_latency = if ltb 0 latency then some latency else p.avg_latency;
}
update_row new latency t p = record p { last_health_check = some t; last_health_status = some new }

unfoldable pub health_log : Proxy → Status → ℕ → Option Text → ℕ → HealthLog
unfolding round_tenths
health_log p new latency ip t = record {
  proxy_id = p.id;
  status = new;
  latency_ms = if ltb 0 latency then some (round_tenths latency) else none;
  external_ip = ip;
  checked_at = t;
}

module _ (R : Redis) (cfg : Settings) where
  open R use {Store, read, set, hset}

  unfoldable pub schedule_next_check : ℕ → Status → ℕ → ℕ → Store → Store
  unfolding interval
  schedule_next_check id new jitter t s =
      let wait = interval cfg.health_check_interval new jitter (read s t (dead_backoff id)) in
      set (next_check id) (number (t + wait)) (some (wait / 1000 + 60)) t s

  -- `if external_ip:`
  unfoldable pub store_ip : ℕ → Option Text → ℕ → Store → Store
  store_ip id none t s = s
  store_ip id (some ip) t s =
      if is_empty ip then s else set (external_ip id) (word ip) (some 3600) t s

  -- The body of the loop over the results, for one proxy; an exception counts as "unknown".
  unfoldable pub record_result : Proxy → Option Checked → ℕ → ℕ → Store → Proxy × HealthLog × Store
  unfolding info_fields store_ip schedule_next_check update_row health_log
  record_result p result jitter t s =
      let (new, latency, ip) = or_else result (unknown, 0, none) in
      let s1 = set (health p.id) (status new) (some 120) t s in
      let s2 = hset (info p.id) (info_fields p) t s1 in
      let s3 = store_ip p.id ip t s2 in
      let s4 = schedule_next_check p.id new jitter t s3 in
      (update_row new latency t p, health_log p new latency ip t, s4)

  -- The proxies to check: active, and due.
  unfoldable pub proxies_to_check : List Proxy → ℕ → Store → List Proxy
  unfolding is_due
  proxies_to_check [] t s = []
  proxies_to_check (p ∷ ps) t s =
      let rest = proxies_to_check ps t s in
      if p.is_active
      then (if is_due (read s t (next_check p.id)) t then p ∷ rest else rest)
      else rest

  module _ (probe : Proxy → Probe) (jitter : Proxy → ℕ) where
    -- `asyncio.gather` over the checks, which touch no common key, in the order of the list
    unfoldable pub check_each : List Proxy → ℕ → Store → List (Proxy × Option Checked) × Store
    unfolding check_single_proxy
    check_each [] t s = ([], s)
    check_each (p ∷ ps) t s =
        let (r, s') = check_single_proxy R cfg p (probe p) t s in
        let (rs, s'') = check_each ps t s' in ((p, r) ∷ rs, s'')

    unfoldable pub record_each :
        List (Proxy × Option Checked) → ℕ → Store → List Proxy × List HealthLog × Store
    unfolding record_result
    record_each [] t s = ([], [], s)
    record_each ((p, r) ∷ rs) t s =
        let (p', log, s') = record_result p r (jitter p) t s in
        let (ps, logs, s'') = record_each rs t s' in (p' ∷ ps, log ∷ logs, s'')

    -- The rows that were written, the log entries, and Redis.
    unfoldable pub check_all_proxies : List Proxy → ℕ → Store → List Proxy × List HealthLog × Store
    unfolding proxies_to_check check_each record_each
    check_all_proxies rows t s =
        let (results, s') = check_each (proxies_to_check rows t s) t s in record_each results t s'

  -- One proxy through a round in which it is due.
  unfoldable pub visit : Proxy → Probe → ℕ → ℕ → Store → Proxy × Store
  unfolding check_single_proxy record_result
  visit p pr jitter t s =
      let (r, s') = check_single_proxy R cfg p pr t s in
      let (p', log, s'') = record_result p r jitter t s' in (p', s'')
