-- ===== src/Health/Schedule.antt =====
-- When a proxy is checked again, and what the rotation sees of it until then
-- (`_schedule_next_check` and `check_all_proxies` of src/health/checker.py).
use proxysm.Base.{
  ℕ, ◌+◌, ◌*◌, ◌/◌, ◌≤◌, ◌<◌, min, ◌≡◌, refl, ap, ◌∙◌, false, Option, none, some, arith, ltb, leb,
  if◌then◌else◌, or_else, ==_refl,
}
use proxysm.Models.{Status, unknown, dead, Proxy, Settings}
use proxysm.Redis.{
  failures, successes, dead_backoff, next_check, health, info, number, status, Datum, str, missing,
  Redis, is_dead,
}
use proxysm.Health.{Checked, failure, after_failure, check_single_proxy, current_backoff}
use proxysm.Health.Cycle.{
  is_due, interval, schedule_next_check, info_fields, store_ip, record_result, visit,
}
use proxysm.Health.Frame.{read-set_ne, read-del_ne, read-incr_ne, read-store_ip, read-hset_ne}

-- The status that a result stands for.
abbrev pub status_of : Option Checked → Status
status_of result = (or_else result (unknown, 0, none)).0

expiry_covers : (w : ℕ) → w ≤ (w / 1000 + 60) * 1000
expiry_covers w = omega arith

module _ (R : Redis) (cfg : Settings) where
  open R use {Store, read, set, del, incr, hset, read-set, read-del}

  -- The wait for a status, with `backoff` under `dead_backoff`.
  abbrev pub wait : Status → ℕ → Datum → ℕ
  wait new jitter backoff = interval cfg.health_check_interval new jitter backoff

  -- What stands under `next_check` after a wait of `w` milliseconds was scheduled.
  abbrev scheduled : ℕ → ℕ → ℕ → Datum
  scheduled t w u = if ltb u (t + (w / 1000 + 60) * 1000) then str (number (t + w)) else missing

  read-schedule_next_check :
      (id : ℕ) (new : Status) (jitter t : ℕ) (s : Store) (u : ℕ)
      → read (schedule_next_check R cfg id new jitter t s) u (next_check id)
        ≡ scheduled t (wait new jitter (read s t (dead_backoff id))) u
  unfolding schedule_next_check
  read-schedule_next_check id new jitter t s u =
      let w = wait new jitter (read s t (dead_backoff id)) in
      rw (
        read-set (next_check id) (number (t + w)) (some (w / 1000 + 60)) t s u (next_check id),
        ==_refl id,
      )

  read-record_result :
      (p : Proxy) (result : Option Checked) (jitter t : ℕ) (s : Store) (u : ℕ)
      → read (record_result R cfg p result jitter t s).2 u (next_check p.id)
        ≡ scheduled t (wait (status_of result) jitter (read s t (dead_backoff p.id))) u
  unfolding record_result
  read-record_result p result jitter t s u =
      let (new, latency, ip) = or_else result (unknown, 0, none) in
      let s1 = set (health p.id) (status new) (some 120) t s in
      let s2 = hset (info p.id) (info_fields p) t s1 in
      let s3 = store_ip R cfg p.id ip t s2 in
      let same : read s3 t (dead_backoff p.id) ≡ read s t (dead_backoff p.id) =
        read-store_ip R cfg p.id ip t t s2 (dead_backoff p.id) refl
        ∙ read-hset_ne R cfg (info p.id) (dead_backoff p.id) (info_fields p) t t s1 refl
        ∙ read-set_ne R cfg (health p.id) (dead_backoff p.id) (status new) (some 120) t t s refl in
      read-schedule_next_check p.id new jitter t s3 u
      ∙ ap (λ d. scheduled t (wait new jitter d) u) same

  -- Whatever the result of a check, the proxy is due again exactly from the scheduled time on: the
  -- key of the schedule does not expire before it.
  pub due_exactly :
      (p : Proxy) (result : Option Checked) (jitter t : ℕ) (s : Store) (u : ℕ)
      → is_due (read (record_result R cfg p result jitter t s).2 u (next_check p.id)) u
        ≡ leb (t + wait (status_of result) jitter (read s t (dead_backoff p.id))) u
  unfolding is_due
  due_exactly p result jitter t s u =
      let w = wait (status_of result) jitter (read s t (dead_backoff p.id)) in
      rw read-record_result (ground (arith, expiry_covers w))

  -- The status is in Redis for 120 seconds.
  pub read_health-record_result :
      (p : Proxy) (result : Option Checked) (jitter t : ℕ) (s : Store) (u : ℕ)
      → read (record_result R cfg p result jitter t s).2 u (health p.id)
        ≡ (if ltb u (t + 120 * 1000) then str (status (status_of result)) else missing)
  unfolding record_result schedule_next_check
  read_health-record_result p result jitter t s u =
      let (new, latency, ip) = or_else result (unknown, 0, none) in
      let s1 = set (health p.id) (status new) (some 120) t s in
      let s2 = hset (info p.id) (info_fields p) t s1 in
      read-set_ne R cfg (next_check p.id) (health p.id) _ _ t u (store_ip R cfg p.id ip t s2) refl
      ∙ read-store_ip R cfg p.id ip t u s2 (health p.id) refl
      ∙ read-hset_ne R cfg (info p.id) (health p.id) (info_fields p) t u s1 refl
      ∙ rw (read-set (health p.id) (status new) (some 120) t s u (health p.id), ==_refl p.id)

  -- The seconds until a dead proxy that fails again is checked.
  abbrev pub next_backoff : Datum → ℕ
  next_backoff d = min (current_backoff d * 2) 600

  module _ (p : Proxy) (is_dead_now : p.last_health_status ≡ some dead) (jitter t : ℕ)
      (s : Store) where
    status_of-dead : status_of (check_single_proxy R cfg p failure t s).0 ≡ dead
    unfolding check_single_proxy
    status_of-dead =
        ap
          (λ o.
            (after_failure R cfg (or_else o unknown) p
              (incr (failures p.id) t (del (successes p.id) s)).0 t
              (incr (failures p.id) t (del (successes p.id) s)).1).0)
          is_dead_now

    backoff_before :
        read (incr (failures p.id) t (del (successes p.id) s)).1 t (dead_backoff p.id)
        ≡ read s t (dead_backoff p.id)
    backoff_before =
        read-incr_ne R cfg (failures p.id) (dead_backoff p.id) t t (del (successes p.id) s) refl
        ∙ read-del_ne R cfg (successes p.id) (dead_backoff p.id) t s refl

    read_backoff-dead :
        read (check_single_proxy R cfg p failure t s).1 t (dead_backoff p.id)
        ≡ str (number (next_backoff (read s t (dead_backoff p.id))))
    unfolding check_single_proxy
    read_backoff-dead =
        let s1 = (incr (failures p.id) t (del (successes p.id) s)).1 in
        let count = (incr (failures p.id) t (del (successes p.id) s)).0 in
        ap
          (λ o. read (after_failure R cfg (or_else o unknown) p count t s1).1 t (dead_backoff p.id))
          is_dead_now
        ∙ rw
            (
              read-set (dead_backoff p.id) (number (next_backoff (read s1 t (dead_backoff p.id))))
                  (some 3600) t s1 t (dead_backoff p.id),
              ==_refl p.id,
            )
            (ground (arith, backoff_before))

    -- A dead proxy that fails again is checked again after twice the previous wait, which began
    -- at 120 seconds, and at most after 600 seconds.
    pub dead_waits :
        (u : ℕ)
        → is_due (read (visit R cfg p failure jitter t s).1 u (next_check p.id)) u
          ≡ leb (t + next_backoff (read s t (dead_backoff p.id)) * 1000) u
    unfolding visit
    dead_waits u =
        let (r, s') = check_single_proxy R cfg p failure t s in
        due_exactly p r jitter t s' u
        ∙ ap (λ x. leb (t + wait x jitter (read s' t (dead_backoff p.id))) u) status_of-dead
        ∙ ap (λ d. leb (t + wait dead jitter d) u) read_backoff-dead

    read_health-dead :
        (u : ℕ)
        → read (visit R cfg p failure jitter t s).1 u (health p.id)
          ≡ (if ltb u (t + 120 * 1000) then str (status dead) else missing)
    unfolding visit
    read_health-dead u =
        let (r, s') = check_single_proxy R cfg p failure t s in
        read_health-record_result p r jitter t s' u
        ∙ ap (λ x. if ltb u (t + 120 * 1000) then str (status x) else missing) status_of-dead

    -- Between 120 and 240 seconds after a dead proxy has failed again, the rotation takes it for
    -- alive and no check is due, if the stored wait was at least 120 seconds.
    pub dead_gap :
        (u : ℕ)
        → 120 ≤ current_backoff (read s t (dead_backoff p.id))
        → t + 120000 ≤ u
        → u < t + 240000
        → (is_dead (read (visit R cfg p failure jitter t s).1 u (health p.id)) ≡ false)
          × (is_due (read (visit R cfg p failure jitter t s).1 u (next_check p.id)) u ≡ false)
    dead_gap u long from before = (rw read_health-dead (ground arith), rw dead_waits (ground arith))
