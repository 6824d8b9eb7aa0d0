-- ===== src/Auth.antt =====
-- `_authenticate` of src/proxy/http_proxy.py and of src/proxy/socks5_proxy.py: credentials are
-- looked up in the tables of projects and pools, behind a cache. `sha256` stands for
-- `hashlib.sha256(…).hexdigest()`; a time is a number of milliseconds.
pub mod Cache
mod Tests
use proxysm.Base.{
  ℕ, ◌+◌, Bool, true, false, ◌&&◌, Option, none, some, List, [], ◌∷◌, ◌++◌, ltb, ◌==◌,
  if◌then◌else◌,
}
use proxysm.Base.Int.{ℤ, leb_ℤ}
use proxysm.Models.{Pool, Project, ProjectPool}
use proxysm.Text.{Text, text_eq}

-- The three tables of the query.
pub record Db : Type 0 where
  pub projects : List Project
  pub links : List ProjectPool
  pub pools : List Pool

-- What the function returns.
pub record Grant : Type 0 where
  pub project_id : ℕ
  pub pool_id : ℕ
  pub strategy : Text

-- The cached tuple, with what is kept of the grant.
pub record Entry (A : Type 0) : Type 0 where
  pub stored_hash : Text
  pub kept : A
  pub expiry : ℕ

unfoldable pub find_project : Text → List Project → Option Project
find_project slug [] = none
find_project slug (p ∷ l) =
    let rest = find_project slug l in if text_eq p.slug slug then some p else rest

unfoldable pub find_pool : ℕ → List Pool → Option Pool
find_pool id [] = none
find_pool id (p ∷ l) = let rest = find_pool id l in if p.id == id then some p else rest

-- The pool of a project with the highest priority; among equals, where the query leaves the choice
-- to the database, the first.
unfoldable pub best_pool : List Pool → ℕ → List ProjectPool → Option (ℤ × Pool)
unfolding find_pool
best_pool pools project [] = none
best_pool pools project (link ∷ l) =
    let rest = best_pool pools project l in
    if link.project_id == project
    then (elim (find_pool link.pool_id pools) [
      | none ↦ rest
      | some pool ↦ elim rest [
        | none ↦ some (link.priority, pool)
        | some (priority, other) ↦
            if leb_ℤ priority link.priority
            then some (link.priority, pool)
            else some (priority, other)
      ]
    ])
    else rest

-- The joined query with its `limit(1)`.
unfoldable pub query : Db → Text → Option (Project × Pool)
unfolding find_project best_pool
query db slug = elim (find_project slug db.projects) [
  | none ↦ none
  | some project ↦ elim (best_pool db.pools project.id db.links) [
    | none ↦ none
    | some (priority, pool) ↦ some (project, pool)
  ]
]

-- `f"{slug}:{api_key}"`
abbrev pub cache_key : Text → Text → Text
cache_key slug api_key = slug ++ b':' ∷ api_key

module _ {A : Type 0} where
  -- `_auth_cache.get(key)`
  unfoldable pub cache_get : Text → List (Text × Entry A) → Option (Entry A)
  cache_get k [] = none
  cache_get k ((j, e) ∷ l) = let rest = cache_get k l in if text_eq j k then some e else rest

  -- `del _auth_cache[key]`
  unfoldable pub cache_del : Text → List (Text × Entry A) → List (Text × Entry A)
  cache_del k [] = []
  cache_del k ((j, e) ∷ l) = let rest = cache_del k l in if text_eq j k then rest else (j, e) ∷ rest

  -- `_auth_cache[key] = entry`
  unfoldable pub cache_set : Text → Entry A → List (Text × Entry A) → List (Text × Entry A)
  cache_set k new [] = (k, new) ∷ []
  cache_set k new ((j, e) ∷ l) =
      let rest = cache_set k new l in if text_eq j k then (j, new) ∷ l else (j, e) ∷ rest

  module _ (sha256 : Text → Text) (keep : Grant → A) (db : Db) where
    -- The part behind the cache.
    unfoldable pub look_up : Text → Text → Option A
    unfolding query
    look_up slug api_key = elim (query db slug) [
      | none ↦ none
      | some (project, pool) ↦
          if text_eq project.api_key_hash (sha256 api_key)
          then some (
              keep (record {
                project_id = project.id;
                pool_id = pool.id;
                strategy = pool.rotation_strategy;
              }))
          else none
    ]

    -- A grant is cached for 30 seconds.
    unfoldable pub from_db :
        Text → Text → ℕ → List (Text × Entry A) → Option A × List (Text × Entry A)
    unfolding look_up cache_set
    from_db slug api_key now cache = elim (look_up slug api_key) [
      | none ↦ (none, cache)
      | some a ↦ (
        some a,
        cache_set (cache_key slug api_key)
            (record { stored_hash = sha256 api_key; kept = a; expiry = now + 30000 }) cache,
      )
    ]

    unfoldable pub authenticate :
        Text → Text → ℕ → List (Text × Entry A) → Option A × List (Text × Entry A)
    unfolding cache_get cache_del from_db
    authenticate slug api_key now cache =
        let k = cache_key slug api_key in
        elim (cache_get k cache) [
          | none ↦ from_db slug api_key now cache
          | some e ↦
              if ltb now e.expiry
              then (if text_eq (sha256 api_key) e.stored_hash
                  then (some e.kept, cache)
                  else from_db slug api_key now cache)
              else from_db slug api_key now (cache_del k cache)
        ]

-- The SOCKS5 server keeps no project id.
abbrev pub socks_grant : Grant → ℕ × Text
socks_grant g = (g.pool_id, g.strategy)

unfoldable pub socks_authenticate :
    (Text → Text)
    → Db
    → Text
    → Text
    → ℕ
    → List (Text × Entry (ℕ × Text))
    → Option (ℕ × Text) × List (Text × Entry (ℕ × Text))
unfolding authenticate
socks_authenticate sha256 db slug api_key now cache =
    authenticate sha256 socks_grant db slug api_key now cache
