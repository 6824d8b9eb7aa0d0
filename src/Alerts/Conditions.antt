-- ===== src/Alerts/Conditions.antt =====
-- The four conditions of an alert rule (src/services/alerts.py).
use proxysm.Base.{
  ℕ, suc, ◌+◌, ◌-◌, ◌*◌, Bool, true, false, ◌&&◌, Option, none, some, List, [], ◌∷◌, ltb, leb,
  length, ◌==◌, if◌then◌else◌,
}
use proxysm.Base.Int.{ℤ, pos, negsuc, ◌+ℤ◌, leb_ℤ}
use proxysm.Text.{codes, text_eq}
use proxysm.Models.{dead, Proxy, Pool, PoolProxy}
use proxysm.Bandwidth.{Rollup}
use proxysm.RequestLogger.{RequestLog}
use proxysm.Api.Pools.{get_pool_row, healthy_count}

-- A value of a JSON object that is read as a number: not there, of another kind, or the number.
pub data Given : Type 0 where
  missing : Given
  malformed : Given
  given : ℤ → Given

-- `pool_id`: not there or empty, no UUID, or the UUID.
pub data PoolRef : Type 0 where
  no_pool : PoolRef
  bad_pool : PoolRef
  pool : ℕ → PoolRef

-- `condition_config`
pub record Config : Type 0 where
  pub threshold : Given
  pub window_seconds : Given
  pub pool_id : PoolRef
  pub min_healthy : Given
  pub limit_bytes : Given

-- `int(cfg.get(key, default))`
abbrev pub number_or : Given → ℤ → Option ℤ
number_or missing d = some d
number_or malformed d = none
number_or (given n) d = some n

-- The dicts that the checks return.
pub data Context : Type 0 where
  -- threshold, window, failed requests, requests
  error_rate : ℤ → ℤ → ℕ → ℕ → Context
  -- pool, minimum, healthy proxies
  pool_health : ℕ → ℤ → ℕ → Context
  -- limit, bytes
  bandwidth : ℤ → ℤ → Context
  -- proxies
  all_dead : ℕ → Context

pub data Checked : Type 0 where
  raised : Checked
  quiet : Checked
  fires : Context → Checked

-- The tables that are read; of `metrics_rollup` the rows of granularity "5min".
pub record Db : Type 0 where
  pub request_log : List RequestLog
  pub pools : List Pool
  pub links : List PoolProxy
  pub proxies : List Proxy
  pub rollups : List Rollup

-- `created_at >= now - timedelta(seconds=window)`
abbrev pub in_window : ℤ → ℕ → ℕ → Bool
in_window (pos w) now created_at = leb now (created_at + w * 1000)
in_window (negsuc w) now created_at = leb (now + suc w * 1000) created_at

abbrev pub is_success : RequestLog → Bool
is_success r = leb 200 r.status_code && ltb r.status_code 400

-- How many rows satisfy a test.
unfoldable pub count : {A : Type 0} → (A → Bool) → List A → ℕ
count p [] = 0
count p (x ∷ l) = let rest = count p l in if p x then rest + 1 else rest

-- `(total - ok) / total > threshold`
abbrev pub exceeds : ℕ → ℕ → ℤ → Bool
exceeds failed total (pos threshold) = ltb (threshold * total) (failed * 1000000)
exceeds failed total (negsuc threshold) = true

abbrev pub rate_of : ℤ → ℤ → ℕ → ℕ → Checked
rate_of threshold window total ok =
    if total == 0
    then quiet
    else if exceeds (total - ok) total threshold
    then fires (error_rate threshold window (total - ok) total)
    else quiet

unfoldable pub check_error_rate : Db → Config → ℕ → Checked
unfolding count
check_error_rate db cfg now = elim (number_or cfg.threshold (pos 0)) [
  | none ↦ raised
  | some threshold ↦ elim (number_or cfg.window_seconds (pos 300)) [
    | none ↦ raised
    | some window ↦
        rate_of threshold window (count (λ r. in_window window now r.created_at) db.request_log)
          (count (λ r. in_window window now r.created_at && is_success r) db.request_log)
  ]
]

unfoldable pub check_pool_health : Db → Config → Checked
unfolding get_pool_row healthy_count
check_pool_health db cfg = elim cfg.pool_id [
  | no_pool ↦ quiet
  | bad_pool ↦ raised
  | pool id ↦ elim (number_or cfg.min_healthy (pos 1)) [
    | none ↦ raised
    | some min ↦ elim (get_pool_row id db.pools) [
      | none ↦ quiet
      | some row ↦
          let healthy = healthy_count row.id db.proxies db.links in
          if leb_ℤ min (pos healthy) then quiet else fires (pool_health row.id min healthy)
    ]
  ]
]

-- The two sums over the last day, added.
unfoldable pub bytes_since : ℕ → List Rollup → ℤ
bytes_since now [] = pos 0
bytes_since now (r ∷ rows) =
    let rest = bytes_since now rows in
    if text_eq r.key.0 (codes "proxy") && leb now (r.period + 86400000)
    then r.bytes.sent +ℤ r.bytes.recv +ℤ rest
    else rest

abbrev pub over_limit : ℤ → ℤ → Checked
over_limit limit actual =
    if leb_ℤ limit (pos 0)
    then quiet
    else if leb_ℤ actual limit
    then quiet
    else fires (bandwidth limit actual)

unfoldable pub check_bandwidth : Db → Config → ℕ → Checked
unfolding bytes_since
check_bandwidth db cfg now = elim (number_or cfg.limit_bytes (pos 0)) [
  | none ↦ raised
  | some limit ↦ over_limit limit (bytes_since now db.rollups)
]

abbrev pub is_dead_row : Proxy → Bool
is_dead_row p = elim p.last_health_status [ some dead ↦ true | _ ↦ false ]

unfoldable pub check_all_dead : Db → Checked
unfolding count
check_all_dead db =
    let total = length db.proxies in
    if ltb 0 total && count is_dead_row db.proxies == total then fires (all_dead total) else quiet
