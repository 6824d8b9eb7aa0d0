-- ===== src/Api/Proxies/Check.antt =====
-- What the rotation sees after `check_proxy` (src/api/proxies.py).
use proxysm.Base.{
  ℕ, ◌+◌, ◌*◌, ◌≡◌, refl, ap, sym, subst, ◌∙◌, false, none, some, arith, ltb, leb, if◌then◌else◌,
  or_else, ==_refl, Bool-cases, Option-cases, inl, inr,
}
use proxysm.Models.{Settings, Status, unknown, healthy, degraded, dead, other, Proxy}
use proxysm.Redis.{
  Key, key_eq, health, info, failures, successes, dead_backoff, status, str, is_dead, Redis,
}
use proxysm.Health.{
  Probe, success, failure, crash, latency_spike, after_success, after_failure, success_path,
  failure_path, check_single_proxy,
}
use proxysm.Health.Frame.{read-set_ne, read-del_ne, read-incr_ne, read-hset_ne}
use proxysm.Rotation.{dead_in}
use proxysm.Rotation.Engine.{info_mapping, update_proxy_health, cache_proxy_info}
use proxysm.Api.{Reply, ok, failed}
use proxysm.Api.Pools.{get_proxy_row, row_info}
use proxysm.Api.Pools.Push.{IsLasting, Serves, build-cache_self, id-get_proxy_row}
use proxysm.Api.Proxies.{ProxyTables, checked, check_proxy}

module _ (R : Redis) (cfg : Settings) where
  open R use {Store, read, set, del, incr, hset, read-set, read-hset}

  -- The info and the health of every proxy are none of the checker's counters.
  abbrev IsElsewhere : Proxy → Key → Type 0
  IsElsewhere p j =
      (key_eq (failures p.id) j ≡ false)
      × (key_eq (successes p.id) j ≡ false)
      × (key_eq (dead_backoff p.id) j ≡ false)

  after_success-frame :
      (old : Status) (p : Proxy) (latency count t u : ℕ) (s : Store) (j : Key)
      → IsElsewhere p j
      → read (after_success R cfg old p latency count t s).1 u j ≡ read s u j
  unfolding after_success
  after_success-frame unknown p latency count t u s j h = refl
  after_success-frame dead p latency count t u s j (f, su, b) =
      read-set_ne R cfg (successes p.id) j _ none t u (del (successes p.id) s) su
      ∙ read-del_ne R cfg (successes p.id) j u s su
  after_success-frame degraded p latency count t u s j (f, su, b) =
      elim (Bool-cases (leb cfg.health_recoveries_to_healthy count)) [
        | inl e ↦ rw (e, after_success) (read-del_ne R cfg (successes p.id) j u s su)
        | inr e ↦ rw (e, after_success) refl
      ]
  after_success-frame healthy p latency count t u s j (f, su, b) =
      elim (Bool-cases (latency_spike p latency)) [
        | inl e ↦ rw (e, after_success) (read-del_ne R cfg (successes p.id) j u s su)
        | inr e ↦ rw (e, after_success) refl
      ]
  after_success-frame (other w) p latency count t u s j (f, su, b) =
      elim (Bool-cases (latency_spike p latency)) [
        | inl e ↦ rw (e, after_success) (read-del_ne R cfg (successes p.id) j u s su)
        | inr e ↦ rw (e, after_success) refl
      ]

  after_failure-frame :
      (old : Status) (p : Proxy) (count t u : ℕ) (s : Store) (j : Key)
      → IsElsewhere p j
      → read (after_failure R cfg old p count t s).1 u j ≡ read s u j
  unfolding after_failure
  after_failure-frame unknown p count t u s j h = refl
  after_failure-frame healthy p count t u s j h = refl
  after_failure-frame degraded p count t u s j h = refl
  after_failure-frame (other w) p count t u s j h = refl
  after_failure-frame dead p count t u s j (f, su, b) =
      read-set_ne R cfg (dead_backoff p.id) j _ (some 3600) t u s b

  -- A check leaves the keys alone that the rotation reads.
  check-frame :
      (p : Proxy) (probe : Probe) (t u : ℕ) (s : Store) (j : Key)
      → IsElsewhere p j
      → read (check_single_proxy R cfg p probe t s).1 u j ≡ read s u j
  unfolding check_single_proxy success_path failure_path
  check-frame p crash t u s j h = refl
  check-frame p failure t u s j (f, su, b) =
      let s1 = incr (failures p.id) t (del (successes p.id) s) in
      after_failure-frame (or_else p.last_health_status unknown) p s1.0 t u s1.1 j (f, su, b)
      ∙ read-incr_ne R cfg (failures p.id) j t u (del (successes p.id) s) f
      ∙ read-del_ne R cfg (successes p.id) j u s su
  check-frame p (success latency ip) t u s j (f, su, b) =
      let s1 = incr (successes p.id) t (del (failures p.id) s) in
      after_success-frame (or_else p.last_health_status unknown) p latency s1.0 t u
        (del (dead_backoff p.id) s1.1) j (f, su, b)
      ∙ read-del_ne R cfg (dead_backoff p.id) j u s1.1 b
      ∙ read-incr_ne R cfg (successes p.id) j t u (del (failures p.id) s) su
      ∙ read-del_ne R cfg (failures p.id) j u s f

  dead_in-written :
      (p : Proxy) (new : Status) (t u : ℕ) (s : Store)
      → dead_in R u
          (cache_proxy_info R p.id (row_info p) t (update_proxy_health R p.id new t s))
          p.id
        ≡ (if ltb u (t + 120 * 1000) then is_dead (str (status new)) else false)
  unfolding cache_proxy_info update_proxy_health
  dead_in-written p new t u s =
      let s' = set (health p.id) (status new) (some 120) t s in
      ap is_dead (
        read-hset_ne R cfg (info p.id) (health p.id) (info_mapping (row_info p)) t u s' refl
        ∙ read-set (health p.id) (status new) (some 120) t s u (health p.id))
      ∙ rw (==_refl p.id)
          (elim (Bool-cases (ltb u (t + 120 * 1000))) [ inl e ↦ rw e refl | inr e ↦ rw e refl ])

  IsLasting-check :
      (p : Proxy) (probe : Probe) (new : Status) (t : ℕ) (s : Store)
      → IsLasting R s
      → IsLasting R (update_proxy_health R p.id new t (check_single_proxy R cfg p probe t s).1)
  unfolding update_proxy_health
  IsLasting-check p probe new t s h j u v =
      let s1 = (check_single_proxy R cfg p probe t s).1 in
      let same : (w : ℕ)
          → read (set (health p.id) (status new) (some 120) t s1) w (info j) ≡ read s w (info j) =
        λ w.
          read-set_ne R cfg (health p.id) (info j) (status new) (some 120) t w s1 refl
          ∙ check-frame p probe t w s (info j) (refl, refl, refl) in
      same u ∙ h j u v ∙ sym (same v)

  -- A check by hand takes effect in the rotation at once: for 120 seconds the proxy is passed over
  -- exactly if its new status is dead, later it is not, and from then on its dict is made of its
  -- row.
  pub check_proxy_lem :
      (id : ℕ) (probe : Probe) (t u : ℕ) (db : ProxyTables) (s : Store) (new : Status) (latency : ℕ)
      → IsLasting R s
      → (check_proxy R cfg id probe t db s).0 ≡ ok (new, latency)
      → let (reply, db', s') = check_proxy R cfg id probe t db s in
        (dead_in R u s' id ≡ (if ltb u (t + 120 * 1000) then is_dead (str (status new)) else false))
        × ((p : Proxy) × (get_proxy_row id db.proxies ≡ some p) × Serves R u s' p)
  unfolding check_proxy
  check_proxy_lem id probe t u db s new latency lasting h =
      elim (Option-cases (get_proxy_row id db.proxies)) [
        | inl e ↦ ground (arith, e)
        | inr (p, e) ↦
            let (result, s1) = check_single_proxy R cfg p probe t s in
            elim (Option-cases result) [
              | inl f ↦
                  let crashed : Path (Reply (Status × ℕ)) failed (ok (new, latency)) =
                    rw (e, f, check_proxy) at h in
                  cc
              | inr ((new', latency', ip), f) ↦
                  let whole : check_proxy R cfg id probe t db s
                      ≡ checked R cfg p t (new', latency', ip) db s1 =
                    rw (e, f, check_proxy) refl in
                  let replied : Path (Reply (Status × ℕ)) (ok (new', latency'))
                      (ok (new, latency)) =
                    rw (e, f, check_proxy) at h in
                  let same : new' ≡ new = cc in
                  let id_is : p.id ≡ id = id-get_proxy_row id db.proxies p e in
                  let s2 = update_proxy_health R p.id new' t s1 in
                  let s' = cache_proxy_info R p.id (row_info p) t s2 in
                  let shown : dead_in R u s' id
                      ≡ (if ltb u (t + 120 * 1000) then is_dead (str (status new)) else false) =
                    ap (dead_in R u s') (sym id_is)
                    ∙ dead_in-written p new' t u s1
                    ∙ ap (λ n. if ltb u (t + 120 * 1000) then is_dead (str (status n)) else false)
                        same in
                  subst
                    (λ r.
                      (dead_in R u r.2 id
                        ≡ (if ltb u (t + 120 * 1000) then is_dead (str (status new)) else false))
                      × ((q : Proxy) × (get_proxy_row id db.proxies ≡ some q) × Serves R u r.2 q))
                    (sym whole)
                    (
                      shown,
                      (
                        p,
                        e,
                        build-cache_self R p.id (row_info p) t u s2
                            (IsLasting-check p probe new' t s lasting),
                      ),
                    )
            ]
      ]
