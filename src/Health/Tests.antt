-- ===== src/Health/Tests.antt =====
-- Examples for the properties of the health checker.
use proxysm.Base.{ℕ, ◌+◌, ◌≤◌, ◌≡◌, refl, true, false, none, some, List, [], ◌∷◌, arith, leb}
use proxysm.Base.Int.{pos}
use proxysm.Text.{codes}
use proxysm.Models.{healthy, dead, Proxy, settings}
use proxysm.Redis.{failures, dead_backoff, next_check, health, is_dead}
use proxysm.Redis.Memory.{memory, no_keys, read-no_keys, read_cell}
use proxysm.Health.{current_backoff, failure}
use proxysm.Health.Cycle.{is_due, record_result, visit}
use proxysm.Health.Runs.{status_after, failing_visits, failures_to_dead}
use proxysm.Health.Schedule.{wait, due_exactly, dead_gap}

-- A proxy that was healthy when it was last checked.
abbrev healthy_proxy : Proxy
healthy_proxy = record {
  id = 3;
  source_id = 1;
  provider = none;
  host = codes "10.0.0.3";
  port = pos 8080;
  protocol = codes "http";
  username = none;
  password_encrypted = none;
  is_active = true;
  last_health_check = some 1000;
  last_health_status = some healthy;
  avg_latency = some 2500;
}

abbrev dead_proxy : Proxy
dead_proxy = record healthy_proxy { last_health_status = some dead }

-- Three rounds, each with its jitter and its time.
abbrev three_rounds : List (ℕ × ℕ)
three_rounds = (400, 100000) ∷ (0, 170000) ∷ (2000, 240000) ∷ []

failures_to_dead_example :
    (failing_visits memory settings three_rounds (healthy_proxy, no_keys)).0.last_health_status
    ≡ some (status_after settings 3)
failures_to_dead_example =
    failures_to_dead memory settings three_rounds healthy_proxy no_keys (omega arith) (omega arith)
      refl (λ u. read-no_keys u (failures 3))

due_exactly_example :
    is_due
      (read_cell
        (record_result memory settings healthy_proxy (some (dead, 0, none)) 0 1000 no_keys).2
        5000
        (next_check 3))
      5000
    ≡ leb (1000 + wait memory settings dead 0 (read_cell no_keys 1000 (dead_backoff 3))) 5000
due_exactly_example =
    due_exactly memory settings healthy_proxy (some (dead, 0, none)) 0 1000 no_keys 5000

long_wait : 120 ≤ current_backoff (read_cell no_keys 1000 (dead_backoff 3))
unfolding current_backoff read_cell
long_wait = omega arith

dead_gap_example :
    (is_dead
        (read_cell (visit memory settings dead_proxy failure 0 1000 no_keys).1 130000 (health 3))
      ≡ false)
    × (is_due
          (read_cell
            (visit memory settings dead_proxy failure 0 1000 no_keys).1
            130000
            (next_check 3))
          130000
        ≡ false)
dead_gap_example =
    dead_gap memory settings dead_proxy refl 0 1000 no_keys 130000 long_wait (omega arith)
      (omega arith)
