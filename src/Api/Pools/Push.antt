-- ===== src/Api/Pools/Push.antt =====
-- What `_sync_pool_redis` (src/api/pools.py) leaves in Redis for the rotation.
use proxysm.Base.{
  ℕ, ◌≡◌, refl, ap, sym, subst, ◌∙◌, false, ◌&&◌, some, List, [], ◌∷◌, map, arith, ◌==◌, ==_refl,
  if◌then◌else◌, All, Bool-cases, Option-cases, inl, inr,
}
use proxysm.Models.{Proxy, PoolProxy}
use proxysm.Redis.{
  info, pool_proxies, pool_weighted, hash, hash_of, list_of, touched, put_fields, Redis,
}
use proxysm.Rotation.Engine.{
  ok, proxy_dict_of, Info, info_mapping, build_proxy_dict, cache_proxy_info, sync_pool,
  sync_weighted_pool,
}
use proxysm.Rotation.Engine.Cache.{
  cached, info_mapping-HasFields, proxy_dict-HasFields, proxy_dict_of-put_fields, touched_self,
  read-sync_pool,
}
use proxysm.Api.Pools.{Tables, get_proxy_row, active_members, row_info, cache_each, sync_pool_redis}

pub id-get_proxy_row :
    (id : ℕ) (l : List Proxy) (p : Proxy) → get_proxy_row id l ≡ some p → p.id ≡ id
unfolding get_proxy_row
id-get_proxy_row id [] p h = cc
id-get_proxy_row id (q ∷ l) p h = ground (arith, id-get_proxy_row id l p)

-- Each is the row of its id.
abbrev pub AreRows : List Proxy → List (Proxy × ℕ) → Type 0
AreRows proxies = All (λ e. get_proxy_row e.0.id proxies ≡ some e.0)

active_members-AreRows :
    (pool : ℕ) (proxies : List Proxy) (links : List PoolProxy)
    → AreRows proxies (active_members pool proxies links)
unfolding active_members
active_members-AreRows pool proxies [] = tt
active_members-AreRows pool proxies (k ∷ l) =
    elim (Option-cases (get_proxy_row k.proxy_id proxies)) [
      | inl e ↦ rw (e, active_members) (active_members-AreRows pool proxies l)
      | inr (p, e) ↦ elim (Bool-cases (k.pool_id == pool && p.is_active)) [
        | inl in_pool ↦
            rw (e, in_pool, active_members)
              (
                ap (λ i. get_proxy_row i proxies) (id-get_proxy_row k.proxy_id proxies p e) ∙ e,
                active_members-AreRows pool proxies l,
              )
        | inr out ↦ rw (e, out, active_members) (active_members-AreRows pool proxies l)
      ]
    ]

module _ (R : Redis) where
  open R use {Store, read, hset, read-hset, read-del, read-zadd, read-rpush}

  -- The info of the proxies has no expiry, as the program never sets one.
  abbrev pub IsLasting : Store → Type 0
  IsLasting s = (j u v : ℕ) → read s u (info j) ≡ read s v (info j)

  read-cache :
      (q j : ℕ) (i : Info) (t u : ℕ) (s : Store)
      → IsLasting s
      → read (cache_proxy_info R q i t s) u (info j) ≡ (
          if q == j
          then hash (put_fields (info_mapping i) (hash_of (read s t (info q))))
          else read s u (info j))
  unfolding cache_proxy_info
  read-cache q j i t u s h = elim (Bool-cases (q == j)) [
    | inl same ↦
        let new = hash (put_fields (info_mapping i) (hash_of (read s t (info q)))) in
        read-hset (info q) (info_mapping i) t s u (info j)
        ∙ rw same (
            ap (λ d. touched (read s t (info q)) d new) (h q u t)
            ∙ touched_self (read s t (info q))
                (put_fields (info_mapping i) (hash_of (read s t (info q)))))
    | inr other ↦ read-hset (info q) (info_mapping i) t s u (info j) ∙ rw other
  ]

  pub IsLasting-cache :
      (q : ℕ) (i : Info) (t : ℕ) (s : Store) → IsLasting s → IsLasting (cache_proxy_info R q i t s)
  IsLasting-cache q i t s h j u v =
      let new = hash (put_fields (info_mapping i) (hash_of (read s t (info q)))) in
      read-cache q j i t u s h
      ∙ ap (λ d. if q == j then new else d) (h j u v)
      ∙ sym (read-cache q j i t v s h)

  -- What the dict of a proxy is after a cache: the cached one, or what it was.
  pub build-cache_self :
      (q : ℕ) (i : Info) (t u : ℕ) (s : Store)
      → IsLasting s
      → build_proxy_dict R q u (cache_proxy_info R q i t s) ≡ ok (cached q i)
  unfolding build_proxy_dict
  build-cache_self q i t u s h =
      let fields = put_fields (info_mapping i) (hash_of (read s t (info q))) in
      ap (λ d. proxy_dict_of q (hash_of d)) (read-cache q q i t u s h)
      ∙ rw (==_refl q) (
          proxy_dict_of-put_fields q i (hash_of (read s t (info q)))
          ∙ ap ok (
              proxy_dict-HasFields q i fields
                (info_mapping-HasFields i (hash_of (read s t (info q))))))

  build-cache_other :
      (q j : ℕ) (i : Info) (t u : ℕ) (s : Store)
      → IsLasting s
      → (q == j) ≡ false
      → build_proxy_dict R j u (cache_proxy_info R q i t s) ≡ build_proxy_dict R j u s
  unfolding build_proxy_dict
  build-cache_other q j i t u s h other =
      let same : read (cache_proxy_info R q i t s) u (info j) ≡ read s u (info j) =
        read-cache q j i t u s h ∙ rw other in
      ap (λ d. proxy_dict_of j (hash_of d)) same

  -- The rotation would return the row.
  abbrev pub Serves : ℕ → Store → Proxy → Type 0
  Serves u s p = build_proxy_dict R p.id u s ≡ ok (cached p.id (row_info p))

  module _ (proxies : List Proxy) (t u : ℕ) where
    Serves-cache :
        (p q : Proxy) (s : Store)
        → IsLasting s
        → get_proxy_row p.id proxies ≡ some p
        → get_proxy_row q.id proxies ≡ some q
        → Serves u s p
        → Serves u (cache_proxy_info R q.id (row_info q) t s) p
    Serves-cache p q s h row_p row_q served = elim (Bool-cases (q.id == p.id)) [
      | inr other ↦ build-cache_other q.id p.id (row_info q) t u s h other ∙ served
      | inl same ↦
          let ids : q.id ≡ p.id = ground (arith, same) in
          let rows : some q ≡ some p = sym row_q ∙ ap (λ i. get_proxy_row i proxies) ids ∙ row_p in
          let q_is_p : q ≡ p = cc in
          subst (λ x. Serves u (cache_proxy_info R x.id (row_info x) t s) p) (sym q_is_p)
            (build-cache_self p.id (row_info p) t u s h)
    ]

    Serves-cache_each :
        (rows : List (Proxy × ℕ)) (p : Proxy) (s : Store)
        → IsLasting s
        → AreRows proxies rows
        → get_proxy_row p.id proxies ≡ some p
        → Serves u s p
        → Serves u (cache_each R rows t s) p
    unfolding cache_each
    Serves-cache_each [] p s h all row served = served
    Serves-cache_each ((q, w) ∷ rows) p s h (here, all) row served =
        Serves-cache_each rows p (cache_proxy_info R q.id (row_info q) t s)
          (IsLasting-cache q.id (row_info q) t s h) all row (Serves-cache p q s h row here served)

    All-Serves :
        (rows : List (Proxy × ℕ)) (s : Store)
        → IsLasting s
        → AreRows proxies rows
        → All (λ e. Serves u (cache_each R rows t s) e.0) rows
    unfolding cache_each
    All-Serves [] s h all = tt
    All-Serves ((q, w) ∷ rows) s h (here, all) =
        let s' = cache_proxy_info R q.id (row_info q) t s in
        let h' = IsLasting-cache q.id (row_info q) t s h in
        (
          Serves-cache_each rows q s' h' all here (build-cache_self q.id (row_info q) t u s h),
          All-Serves rows s' h' all,
        )

  -- The caches leave the list of the pool alone.
  read_pool-cache_each :
      (rows : List (Proxy × ℕ)) (pool t u : ℕ) (s : Store)
      → read (cache_each R rows t s) u (pool_proxies pool) ≡ read s u (pool_proxies pool)
  unfolding cache_each cache_proxy_info
  read_pool-cache_each [] pool t u s = refl
  read_pool-cache_each ((q, w) ∷ rows) pool t u s =
      read_pool-cache_each rows pool t u (cache_proxy_info R q.id (row_info q) t s)
      ∙ read-hset (info q.id) (info_mapping (row_info q)) t s u (pool_proxies pool)

  read_pool-sync_weighted :
      (pool : ℕ) (l : List (ℕ × ℕ)) (t u : ℕ) (s : Store)
      → read (sync_weighted_pool R pool l t s) u (pool_proxies pool) ≡ read s u (pool_proxies pool)
  unfolding sync_weighted_pool
  read_pool-sync_weighted pool [] t u s = read-del (pool_weighted pool) s u (pool_proxies pool)
  read_pool-sync_weighted pool (e ∷ l) t u s =
      read-zadd (pool_weighted pool) (e ∷ l) t (R.del (pool_weighted pool) s) u (pool_proxies pool)
      ∙ read-del (pool_weighted pool) s u (pool_proxies pool)

  read_info-sync :
      (pool : ℕ) (ids : List ℕ) (j t u : ℕ) (s : Store)
      → read (sync_pool R pool ids t s) u (info j) ≡ read s u (info j)
  unfolding sync_pool
  read_info-sync pool [] j t u s = read-del (pool_proxies pool) s u (info j)
  read_info-sync pool (e ∷ l) j t u s =
      read-rpush (pool_proxies pool) (e ∷ l) t (R.del (pool_proxies pool) s) u (info j)
      ∙ read-del (pool_proxies pool) s u (info j)

  read_info-sync_weighted :
      (pool : ℕ) (l : List (ℕ × ℕ)) (j t u : ℕ) (s : Store)
      → read (sync_weighted_pool R pool l t s) u (info j) ≡ read s u (info j)
  unfolding sync_weighted_pool
  read_info-sync_weighted pool [] j t u s = read-del (pool_weighted pool) s u (info j)
  read_info-sync_weighted pool (e ∷ l) j t u s =
      read-zadd (pool_weighted pool) (e ∷ l) t (R.del (pool_weighted pool) s) u (info j)
      ∙ read-del (pool_weighted pool) s u (info j)

  IsLasting-sync :
      (pool : ℕ) (ids : List ℕ) (l : List (ℕ × ℕ)) (t : ℕ) (s : Store)
      → IsLasting s
      → IsLasting (sync_weighted_pool R pool l t (sync_pool R pool ids t s))
  IsLasting-sync pool ids l t s h j u v =
      let s1 = sync_pool R pool ids t s in
      let before : (w : ℕ)
          → read (sync_weighted_pool R pool l t s1) w (info j) ≡ read s w (info j) =
        λ w. read_info-sync_weighted pool l j t w s1 ∙ read_info-sync pool ids j t w s in
      before u ∙ h j u v ∙ sym (before v)

  -- After the push the list of the pool holds the ids of its active members, and at any time the
  -- dict of each is made of its row, whatever Redis held before.
  pub sync_pool_redis_lem :
      (db : Tables) (pool t u : ℕ) (s : Store)
      → IsLasting s
      → let rows = active_members pool db.proxies db.links in
        (list_of (read (sync_pool_redis R db pool t s) u (pool_proxies pool))
          ≡ map (λ e. e.0.id) rows)
        × All (λ e. Serves u (sync_pool_redis R db pool t s) e.0) rows
  unfolding sync_pool_redis
  sync_pool_redis_lem db pool t u s h =
      let rows = active_members pool db.proxies db.links in
      let ids = map (λ e. e.0.id) rows in
      let weighted = map (λ e. (e.0.id, e.1)) rows in
      let s1 = sync_pool R pool ids t s in
      let s2 = sync_weighted_pool R pool weighted t s1 in
      (
        ap list_of
              (read_pool-cache_each rows pool t u s2 ∙ read_pool-sync_weighted pool weighted t u s1)
            ∙ read-sync_pool R t s pool ids u,
        All-Serves db.proxies t u rows s2 (IsLasting-sync pool ids weighted t s h)
            (active_members-AreRows pool db.proxies db.links),
      )
