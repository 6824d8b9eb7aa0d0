-- ===== src/Health.antt =====
-- The health checker (src/health/checker.py): one check of one proxy, and the state it keeps in
-- Redis. What the request through the proxy does is the value of `Probe`.
pub mod Cycle
pub mod Frame
pub mod Runs
pub mod Schedule
mod Tests
use proxysm.Base.{
  ℕ, ◌+◌, ◌*◌, min, ◌≡◌, String, Bool, true, false, ◌&&◌, Option, none, some, ltb, leb,
  if◌then◌else◌, or_else,
}
use proxysm.Text.{Text}
use proxysm.Models.{Status, unknown, healthy, degraded, dead, other, Proxy, Settings}
use proxysm.Redis.{Key, failures, successes, dead_backoff, Value, number, Datum, str, Redis}

-- The request succeeds, with its time in tenths of a millisecond and the external IP; it fails;
-- or Redis cannot be reached, and the exception leaves `check_single_proxy`.
pub data Probe : Type 0 where
  success : ℕ → Option Text → Probe
  failure : Probe
  crash : Probe

-- (new_status, latency, external_ip)
abbrev pub Checked : Type 0
Checked = Status × ℕ × Option Text

-- `proxy.avg_latency_ms and proxy.avg_latency_ms > 0` and `latency > proxy.avg_latency_ms * 3`
unfoldable pub latency_spike : Proxy → ℕ → Bool
latency_spike p latency = elim p.avg_latency [
  | none ↦ false
  | some avg ↦ ltb 0 avg && ltb (avg * 3) latency
]

-- `int(backoff) if backoff else 120`
unfoldable pub current_backoff : Datum → ℕ
current_backoff (str (number n)) = n
current_backoff _ = 120

module _ (R : Redis) (cfg : Settings) where
  open R use {Store, read, set, del, incr}

  -- The new status of a successful check, by the previous one; `count` is the success counter.
  unfoldable pub after_success : Status → Proxy → ℕ → ℕ → ℕ → Store → Status × Store
  unfolding latency_spike
  after_success unknown p latency count t s = (healthy, s)
  after_success dead p latency count t s =
      (degraded, set (successes p.id) (number 1) none t (del (successes p.id) s))
  after_success degraded p latency count t s =
      if leb cfg.health_recoveries_to_healthy count
      then (healthy, del (successes p.id) s)
      else (degraded, s)
  after_success _ p latency count t s =
      if latency_spike p latency then (degraded, del (successes p.id) s) else (healthy, s)

  -- The new status of a failed check; `count` is the failure counter.
  unfoldable pub after_failure : Status → Proxy → ℕ → ℕ → Store → Status × Store
  unfolding current_backoff
  after_failure unknown p count t s = (degraded, s)
  after_failure healthy p count t s =
      (if leb cfg.health_failures_to_degraded count then degraded else healthy, s)
  after_failure degraded p count t s =
      (if leb cfg.health_failures_to_dead count then dead else degraded, s)
  after_failure dead p count t s =
      let backoff = current_backoff (read s t (dead_backoff p.id)) in
      (dead, set (dead_backoff p.id) (number (min (backoff * 2) 600)) (some 3600) t s)
  after_failure (other _) p count t s = (degraded, s)

  unfoldable pub success_path : Proxy → ℕ → Option Text → ℕ → Store → Checked × Store
  unfolding after_success
  success_path p latency ip t s =
      let (count, s1) = incr (successes p.id) t (del (failures p.id) s) in
      let s2 = del (dead_backoff p.id) s1 in
      let (new, s3) = after_success (or_else p.last_health_status unknown) p latency count t s2 in
      ((new, latency, ip), s3)

  unfoldable pub failure_path : Proxy → ℕ → Store → Checked × Store
  unfolding after_failure
  failure_path p t s =
      let (count, s1) = incr (failures p.id) t (del (successes p.id) s) in
      let (new, s2) = after_failure (or_else p.last_health_status unknown) p count t s1 in
      ((new, 0, none), s2)

  -- `none` is an exception.
  unfoldable pub check_single_proxy : Proxy → Probe → ℕ → Store → Option Checked × Store
  unfolding success_path failure_path
  check_single_proxy p (success latency ip) t s =
      let (r, s') = success_path p latency ip t s in (some r, s')
  check_single_proxy p failure t s = let (r, s') = failure_path p t s in (some r, s')
  check_single_proxy p crash t s = (none, s)
