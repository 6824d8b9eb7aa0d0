-- ===== src/Api/Pools/Serves.antt =====
-- Pools and rotation together: what a client gets after a pool was pushed to Redis
-- (src/api/pools.py and src/rotation/engine.py).
use proxysm.Base.{
  ℕ, ◌≡◌, ap, sym, subst, ◌∙◌, none, List, [], ◌∷◌, map, arith, All, Any, Option-cases, inl, inr,
}
use proxysm.Text.{codes}
use proxysm.Models.{Proxy}
use proxysm.Redis.{pool_proxies, Redis}
use proxysm.Rotation.{rotate_random}
use proxysm.Rotation.Engine.{
  Upstream, ok, build_proxy_dict, run_strategy, rotate, pinned, get_next_proxy,
}
use proxysm.Rotation.Engine.Cache.{cached}
use proxysm.Rotation.Random.{rotate_random-alive}
use proxysm.Api.Pools.{Tables, active_members, row_info, sync_pool_redis}
use proxysm.Api.Pools.Push.{IsLasting, sync_pool_redis_lem}

-- Out of a selected id, the row that it stands for.
found_row :
    (B : ℕ → Proxy → Type 0) (rows : List (Proxy × ℕ)) (id : ℕ)
    → ((p : Proxy) → p.id ≡ id → B p.id p → B id p)
    → Any (λ x. x ≡ id) (map (λ e. e.0.id) rows)
    → All (λ e. B e.0.id e.0) rows
    → Any (λ e. B id e.0) rows
found_row B [] id move found all = elim found [ ]
found_row B (e ∷ rows) id move (inl same) (here, all) = inl (move e.0 same here)
found_row B (e ∷ rows) id move (inr later) (here, all) = inr (found_row B rows id move later all)

Any-map :
    (P Q : Proxy × ℕ → Type 0) (rows : List (Proxy × ℕ))
    → ((e : Proxy × ℕ) → P e → Q e)
    → Any P rows
    → Any Q rows
Any-map P Q [] f found = elim found [ ]
Any-map P Q (e ∷ rows) f (inl here) = inl (f e here)
Any-map P Q (e ∷ rows) f (inr later) = inr (Any-map P Q rows f later)

module _ (R : Redis) (draw_index draw_weight : ℕ → ℕ) where
  open R use {Store, read}

  -- What a client gets from a pool that was just pushed, when the pool rotates at random, is the
  -- dict of the row of one of its active members, with the credentials of that row.
  pub random_member :
      (db : Tables) (pool t u : ℕ) (s : Store) (up : Upstream)
      → IsLasting R s
      → (get_next_proxy R draw_index draw_weight pool
          (codes "random")
          none
          u
          (sync_pool_redis R db pool t s)).0
        ≡ ok up
      → Any (λ e. up ≡ cached e.0.id (row_info e.0)) (active_members pool db.proxies db.links)
  unfolding get_next_proxy pinned rotate run_strategy
  random_member db pool t u s up h e =
      let s' = sync_pool_redis R db pool t s in
      let rows = active_members pool db.proxies db.links in
      let (ids, served) = sync_pool_redis_lem R db pool t u s h in
      elim (Option-cases (rotate_random R draw_index (pool_proxies pool) u s')) [
        | inl nothing ↦ ground (arith, nothing)
        | inr (id, found) ↦
            let member : Any (λ x. x ≡ id) (map (λ r. r.0.id) rows) =
              subst (Any (λ x. x ≡ id)) ids
                (rotate_random-alive R draw_index (pool_proxies pool) u s' id found).0 in
            let built : build_proxy_dict R id u s' ≡ ok up = ground (arith, found) in
            Any-map (λ r. build_proxy_dict R id u s' ≡ ok (cached r.0.id (row_info r.0)))
              (λ r. up ≡ cached r.0.id (row_info r.0)) rows
              (λ r at. let both : ok (cached r.0.id (row_info r.0)) ≡ ok up = sym at ∙ built in cc)
              (found_row (λ i p. build_proxy_dict R i u s' ≡ ok (cached p.id (row_info p))) rows id
                (λ p same b. ap (λ i. build_proxy_dict R i u s') (sym same) ∙ b) member served)
      ]
