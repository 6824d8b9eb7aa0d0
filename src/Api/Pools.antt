-- ===== src/Api/Pools.antt =====
-- src/api/pools.py: the pools, the proxies in them, and what of it is pushed to Redis. The rows that
-- a join returns are taken in the order of the links, where the database is free.
pub mod Members
pub mod Push
pub mod Serves
use proxysm.Base.{
  ℕ, ◌+◌, Bool, true, false, not, ◌&&◌, ◌||◌, Option, none, some, List, [], ◌∷◌, ◌++◌, map, ◌==◌,
  if◌then◌else◌, length, or_else,
}
use proxysm.Text.{Text, text_eq}
use proxysm.Models.{healthy, Proxy, Pool, PoolProxy, ProjectPool}
use proxysm.Redis.{Redis}
use proxysm.Rotation.Engine.{Info, sync_pool, sync_weighted_pool, cache_proxy_info}
use proxysm.Api.{Reply, ok, not_found, failed, Field, required}
use proxysm.Api.Paging.{page_of}

-- The tables that the handlers read and write.
pub record Tables : Type 0 where
  pub pools : List Pool
  pub links : List PoolProxy
  pub project_pools : List ProjectPool
  pub proxies : List Proxy

-- `db.get(Pool, id)`, `db.get(Proxy, id)`
unfoldable pub get_pool_row : ℕ → List Pool → Option Pool
get_pool_row id [] = none
get_pool_row id (p ∷ l) = let rest = get_pool_row id l in if p.id == id then some p else rest

unfoldable pub get_proxy_row : ℕ → List Proxy → Option Proxy
get_proxy_row id [] = none
get_proxy_row id (p ∷ l) = let rest = get_proxy_row id l in if p.id == id then some p else rest

-- `PoolProxy.pool_id == pool_id, PoolProxy.proxy_id == proxy_id` finds a link.
unfoldable pub is_linked : ℕ → ℕ → List PoolProxy → Bool
is_linked pool proxy [] = false
is_linked pool proxy (k ∷ l) =
    let rest = is_linked pool proxy l in (k.pool_id == pool && k.proxy_id == proxy) || rest

-- The proxy has a row.
abbrev pub exists : ℕ → List Proxy → Bool
exists id proxies = elim (get_proxy_row id proxies) [ none ↦ false | some p ↦ true ]

-- One round of the loop of `add_proxies_to_pool`: whether it does not `continue`, and the links.
abbrev pub is_wanted : List Proxy → ℕ → ℕ → List PoolProxy → Bool
is_wanted proxies pool id links = exists id proxies && not (is_linked pool id links)

abbrev pub new_link : ℕ → ℕ → PoolProxy
new_link pool id = record { pool_id = pool; proxy_id = id; weight = 1 }

abbrev pub with_link : List Proxy → ℕ → ℕ → List PoolProxy → List PoolProxy
with_link proxies pool id links =
    if is_wanted proxies pool id links then links ++ new_link pool id ∷ [] else links

-- The loop: the links, and `added`.
unfoldable pub add_links : List Proxy → ℕ → List ℕ → List PoolProxy → List PoolProxy × ℕ
unfolding get_proxy_row is_linked
add_links proxies pool [] links = (links, 0)
add_links proxies pool (id ∷ ids) links =
    let (links', n) = add_links proxies pool ids (with_link proxies pool id links) in
    (links', if is_wanted proxies pool id links then n + 1 else n)

-- The link of a pool and a proxy is deleted.
unfoldable pub unlink : ℕ → ℕ → List PoolProxy → List PoolProxy
unlink pool proxy [] = []
unlink pool proxy (k ∷ l) =
    let rest = unlink pool proxy l in
    if k.pool_id == pool && k.proxy_id == proxy then rest else k ∷ rest

-- The loop of `remove_proxies_from_pool`: the links, and `removed`.
unfoldable pub remove_links : ℕ → List ℕ → List PoolProxy → List PoolProxy × ℕ
unfolding is_linked unlink
remove_links pool [] links = (links, 0)
remove_links pool (id ∷ ids) links =
    let found = is_linked pool id links in
    let (links', n) = remove_links pool ids (unlink pool id links) in
    (links', if found then n + 1 else n)

-- The query of `_sync_pool_redis`: the active proxies of a pool with their weights.
unfoldable pub active_members : ℕ → List Proxy → List PoolProxy → List (Proxy × ℕ)
unfolding get_proxy_row
active_members pool proxies [] = []
active_members pool proxies (k ∷ l) =
    let rest = active_members pool proxies l in
    elim (get_proxy_row k.proxy_id proxies) [
      | none ↦ rest
      | some p ↦ if k.pool_id == pool && p.is_active then (p, k.weight) ∷ rest else rest
    ]

-- The counts of `_get_pool_counts`.
unfoldable pub proxy_count : ℕ → List PoolProxy → ℕ
proxy_count pool [] = 0
proxy_count pool (k ∷ l) =
    let rest = proxy_count pool l in if k.pool_id == pool then rest + 1 else rest

abbrev pub is_healthy : Proxy → Bool
is_healthy p = elim p.last_health_status [ some healthy ↦ true | _ ↦ false ]

unfoldable pub healthy_count : ℕ → List Proxy → List PoolProxy → ℕ
unfolding get_proxy_row
healthy_count pool proxies [] = 0
healthy_count pool proxies (k ∷ l) =
    let rest = healthy_count pool proxies l in
    elim (get_proxy_row k.proxy_id proxies) [
      | none ↦ rest
      | some p ↦ if k.pool_id == pool && is_healthy p then rest + 1 else rest
    ]

-- The dict that is cached for a proxy.
abbrev pub row_info : Proxy → Info
row_info p = record {
  host = p.host;
  port = p.port;
  protocol = p.protocol;
  username = or_else p.username [];
  password = or_else p.password_encrypted [];
}

pub record PoolResponse : Type 0 where
  pub pool : Pool
  pub proxies : ℕ
  pub healthy : ℕ

abbrev pub response : Tables → Pool → PoolResponse
response db p = record {
  pool = p;
  proxies = proxy_count p.id db.links;
  healthy = healthy_count p.id db.proxies db.links;
}

unfoldable pub list_pools : ℕ → ℕ → Tables → List PoolResponse × ℕ
unfolding page_of proxy_count healthy_count
list_pools page per_page db = (map (response db) (page_of page per_page db.pools), length db.pools)

unfoldable pub get_pool : ℕ → Tables → Reply PoolResponse
unfolding get_pool_row
get_pool id db = elim (get_pool_row id db.pools) [ none ↦ not_found | some p ↦ ok (response db p) ]

-- Another pool has the name.
unfoldable pub name_taken : ℕ → Text → List Pool → Bool
name_taken id name [] = false
name_taken id name (p ∷ l) =
    let rest = name_taken id name l in (not (p.id == id) && text_eq p.name name) || rest

-- `id` is the UUID that the row gets; a name that is taken violates a constraint.
unfoldable pub create_pool : ℕ → Text → Text → Tables → Reply PoolResponse × Tables
unfolding name_taken
create_pool id name strategy db =
    let p : Pool = record { id = id; name = name; rotation_strategy = strategy } in
    if name_taken id name db.pools then (failed, db) else (
      ok (record { pool = p; proxies = 0; healthy = 0 }),
      record db { pools = db.pools ++ p ∷ [] },
    )

unfoldable pub replace_pool : Pool → List Pool → List Pool
replace_pool p [] = []
replace_pool p (q ∷ l) = let rest = replace_pool p l in if q.id == p.id then p ∷ rest else q ∷ rest

unfoldable pub update_pool : ℕ → Field Text → Field Text → Tables → Reply PoolResponse × Tables
unfolding get_pool_row replace_pool name_taken
update_pool id name strategy db = elim (get_pool_row id db.pools) [
  | none ↦ (not_found, db)
  | some p ↦ elim (required name p.name) [
    | none ↦ (failed, db)
    | some name' ↦ elim (required strategy p.rotation_strategy) [
      | none ↦ (failed, db)
      | some strategy' ↦
          let p' = record p { name = name'; rotation_strategy = strategy' } in
          let db' : Tables = record db { pools = replace_pool p' db.pools } in
          if name_taken p.id name' db.pools then (failed, db) else (ok (response db' p'), db')
    ]
  ]
]

unfoldable pub remove_pool : ℕ → List Pool → List Pool
remove_pool id [] = []
remove_pool id (p ∷ l) = let rest = remove_pool id l in if p.id == id then rest else p ∷ rest

unfoldable pub unlink_pool : ℕ → List PoolProxy → List PoolProxy
unlink_pool id [] = []
unlink_pool id (k ∷ l) = let rest = unlink_pool id l in if k.pool_id == id then rest else k ∷ rest

unfoldable pub unassign_all : ℕ → List ProjectPool → List ProjectPool
unassign_all id [] = []
unassign_all id (k ∷ l) = let rest = unassign_all id l in if k.pool_id == id then rest else k ∷ rest

-- The links go with the pool (ON DELETE CASCADE); Redis is not touched.
unfoldable pub delete_pool : ℕ → Tables → Reply (Unit {0}) × Tables
unfolding get_pool_row remove_pool unlink_pool unassign_all
delete_pool id db = elim (get_pool_row id db.pools) [
  | none ↦ (not_found, db)
  | some p ↦ (
    ok tt,
    record db {
      pools = remove_pool id db.pools;
      links = unlink_pool id db.links;
      project_pools = unassign_all id db.project_pools;
    },
  )
]

module _ (R : Redis) where
  open R use {Store}

  unfoldable pub cache_each : List (Proxy × ℕ) → ℕ → Store → Store
  cache_each [] t s = s
  cache_each ((p, w) ∷ l) t s = cache_each l t (cache_proxy_info R p.id (row_info p) t s)

  unfoldable pub sync_pool_redis : Tables → ℕ → ℕ → Store → Store
  unfolding active_members cache_each
  sync_pool_redis db pool t s =
      let rows = active_members pool db.proxies db.links in
      let s1 = sync_pool R pool (map (λ e. e.0.id) rows) t s in
      let s2 = sync_weighted_pool R pool (map (λ e. (e.0.id, e.1)) rows) t s1 in
      cache_each rows t s2

  unfoldable pub add_proxies_to_pool : ℕ → List ℕ → ℕ → Tables → Store → Reply ℕ × Tables × Store
  unfolding get_pool_row add_links sync_pool_redis
  add_proxies_to_pool pool ids t db s = elim (get_pool_row pool db.pools) [
    | none ↦ (not_found, db, s)
    | some p ↦
        let (links', added) = add_links db.proxies pool ids db.links in
        let db' : Tables = record db { links = links' } in
        (ok added, db', sync_pool_redis db' pool t s)
  ]

  unfoldable pub remove_proxies_from_pool :
      ℕ → List ℕ → ℕ → Tables → Store → Reply ℕ × Tables × Store
  unfolding get_pool_row remove_links sync_pool_redis
  remove_proxies_from_pool pool ids t db s = elim (get_pool_row pool db.pools) [
    | none ↦ (not_found, db, s)
    | some p ↦
        let (links', removed) = remove_links pool ids db.links in
        let db' : Tables = record db { links = links' } in
        (ok removed, db', sync_pool_redis db' pool t s)
  ]
