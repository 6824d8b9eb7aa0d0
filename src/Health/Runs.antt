-- ===== src/Health/Runs.antt =====
-- Runs of consecutive results (src/health/checker.py): how many failures take a healthy proxy to
-- "dead", and how many successes bring it back.
use proxysm.Base.{
  ℕ, zero, suc, ◌+◌, ◌<◌, ◌≡◌, refl, ap, subst, ◌∙◌, some, List, [], ◌∷◌, arith, ltb, if◌then◌else◌,
  ==_refl, length, or_else,
}
use proxysm.Models.{Status, unknown, healthy, degraded, dead, other, Proxy, Settings}
use proxysm.Redis.{failures, successes, dead_backoff, number, Datum, str, missing, Redis}
use proxysm.Health.{failure, check_single_proxy, after_failure}
use proxysm.Health.Cycle.{visit, update_row}
use proxysm.Health.Frame.{record_result-frame, read-set_ne, read-del_ne}

-- What a counter that was never reset holds after `n` increments.
abbrev pub at_count : ℕ → Datum
at_count zero = missing
at_count (suc n) = str (number (suc n))

-- The status of a proxy after `n` failures in a row.
abbrev pub status_after : Settings → ℕ → Status
status_after cfg n =
    if ltb n cfg.health_failures_to_degraded
    then healthy
    else if ltb n cfg.health_failures_to_dead
    then degraded
    else dead

-- What the write to the row leaves of the proxy.
pub last_health_status-update_row :
    (new : Status) (latency t : ℕ) (p : Proxy)
    → (update_row new latency t p).last_health_status ≡ some new
unfolding update_row
last_health_status-update_row healthy latency t p = refl
last_health_status-update_row new latency t p = refl

pub id-update_row :
    (new : Status) (latency t : ℕ) (p : Proxy) → (update_row new latency t p).id ≡ p.id
unfolding update_row
id-update_row healthy latency t p = refl
id-update_row new latency t p = refl

module _ (R : Redis) (cfg : Settings) where
  open R use {Store, read, del, incr, read-set, read-del, incr_reply, read-incr}

  abbrev pub Fails : Store → ℕ → ℕ → Type 0
  Fails s id n = (u : ℕ) → read s u (failures id) ≡ at_count n

  incr-Fails :
      (id n t : ℕ) (s : Store)
      → Fails s id n
      → ((incr (failures id) t s).0 ≡ suc n) × Fails (incr (failures id) t s).1 id (suc n)
  incr-Fails id zero t s h = (
    rw (incr_reply (failures id) t s) (ground (arith, h t)),
    λ u. rw (read-incr (failures id) t s u (failures id), ==_refl id) (ground (arith, h t, h u)),
  )
  incr-Fails id (suc n) t s h = (
    rw (incr_reply (failures id) t s) (ground (arith, h t)),
    λ u. rw (read-incr (failures id) t s u (failures id), ==_refl id) (ground (arith, h t, h u)),
  )

  -- A proxy that has failed `n` times in a row since it was healthy.
  abbrev pub Failed : ℕ → Proxy × Store → Type 0
  Failed n (p, s) = (p.last_health_status ≡ some (status_after cfg n)) × Fails s p.id n

  after_failure-Fails :
      (st : Status) (p : Proxy) (c t n : ℕ) (s : Store)
      → Fails s p.id n
      → Fails (after_failure R cfg st p c t s).1 p.id n
  unfolding after_failure
  after_failure-Fails dead p c t n s h =
      λ u. read-set_ne R cfg (dead_backoff p.id) (failures p.id) _ _ t u s refl ∙ h u
  after_failure-Fails unknown p c t n s h = h
  after_failure-Fails healthy p c t n s h = h
  after_failure-Fails degraded p c t n s h = h
  after_failure-Fails (other w) p c t n s h = h

  after_failure-status_after :
      (p : Proxy) (t n : ℕ) (s : Store)
      → cfg.health_failures_to_degraded < cfg.health_failures_to_dead
      → (after_failure R cfg (status_after cfg n) p (suc n) t s).0 ≡ status_after cfg (suc n)
  unfolding after_failure
  after_failure-status_after p t n s h = ground arith

  -- One more failed round.
  visit-Failed :
      (n : ℕ) (p : Proxy) (jitter t : ℕ) (s : Store)
      → cfg.health_failures_to_degraded < cfg.health_failures_to_dead
      → Failed n (p, s)
      → Failed (suc n) (visit R cfg p failure jitter t s)
  unfolding visit
  visit-Failed n p jitter t s order (st, fails) =
      let s1 = del (successes p.id) s in
      let fails1 : Fails s1 p.id n =
        λ u. read-del_ne R cfg (successes p.id) (failures p.id) u s refl ∙ fails u in
      let (count, fails2) = incr-Fails p.id n t s1 fails1 in
      let s2 = (incr (failures p.id) t s1).1 in
      let status_eq : (after_failure R cfg (status_after cfg n) p (suc n) t s2).0
          ≡ status_after cfg (suc n) =
        after_failure-status_after p t n s2 order in
      (
        rw last_health_status-update_row (
            ap some (
              ap
                (λ o.
                  (after_failure R cfg (or_else o unknown) p (incr (failures p.id) t s1).0 t s2).0)
                st
              ∙ ap (λ c. (after_failure R cfg (status_after cfg n) p c t s2).0) count
              ∙ status_eq)),
        λ u. rw id-update_row (
            record_result-frame R cfg p (check_single_proxy R cfg p failure t s).0 jitter t
              (check_single_proxy R cfg p failure t s).1 u (failures p.id) refl refl refl refl
            ∙ after_failure-Fails (or_else p.last_health_status unknown) p
                (incr (failures p.id) t s1).0 t (suc n) s2 fails2 u),
      )

  -- Rounds that all fail, each with its jitter and its time.
  abbrev pub failing_visits : List (ℕ × ℕ) → Proxy × Store → Proxy × Store
  failing_visits [] st = st
  failing_visits ((jitter, t) ∷ rest) (p, s) =
      failing_visits rest (visit R cfg p failure jitter t s)

  failing_visits-Failed :
      (rounds : List (ℕ × ℕ)) (n m : ℕ) (st : Proxy × Store)
      → cfg.health_failures_to_degraded < cfg.health_failures_to_dead
      → n + length rounds ≡ m
      → Failed n st
      → Failed m (failing_visits rounds st)
  failing_visits-Failed [] n m st order e h =
      let e' : n ≡ m = omega arith in subst (λ k. Failed k st) e' h
  failing_visits-Failed ((jitter, t) ∷ rest) n m (p, s) order e h =
      failing_visits-Failed rest (suc n) m _ order (omega arith)
        (visit-Failed n p jitter t s order h)

  -- A healthy proxy without recorded failures stays healthy below `health_failures_to_degraded`
  -- failures in a row, is degraded from there, and is dead from `health_failures_to_dead` on, if
  -- both are positive and the first is below the second: the failures before the degradation count.
  pub failures_to_dead :
      (rounds : List (ℕ × ℕ)) (p : Proxy) (s : Store)
      → 0 < cfg.health_failures_to_degraded
      → cfg.health_failures_to_degraded < cfg.health_failures_to_dead
      → p.last_health_status ≡ some healthy
      → ((u : ℕ) → read s u (failures p.id) ≡ missing)
      → (failing_visits rounds (p, s)).0.last_health_status
        ≡ some (status_after cfg (length rounds))
  failures_to_dead rounds p s positive order st fresh =
      (failing_visits-Failed rounds 0 (length rounds) (p, s) order (omega arith)
        (ground arith, fresh)).0
