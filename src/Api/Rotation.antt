-- ===== src/Api/Rotation.antt =====
-- `rotate_proxy` of src/api/rotation.py, with `get_project_by_api_key` of src/api/deps.py: a client
-- with an API key asks for a proxy, and the pools of its project are tried by priority.
pub mod Failover
use proxysm.Base.{ℕ, Bool, true, false, not, Option, none, some, List, [], ◌∷◌, ◌==◌, if◌then◌else◌}
use proxysm.Base.Int.{ℤ, leb_ℤ}
use proxysm.Text.{Text, text_eq, is_empty}
use proxysm.Models.{Pool, Project, ProjectPool}
use proxysm.Redis.{Redis}
use proxysm.Rotation.Engine.{Upstream, Result, ok, pool_exhausted, get_next_proxy}
use proxysm.Auth.{Db, find_project, find_pool}

-- A proxy, or the status codes 401, 404, 403 and 503, the last for a project without pools and for
-- pools that are all exhausted.
pub data Answer : Type 0 where
  proxy : Upstream → Answer
  unauthorized project_not_found forbidden no_pools all_exhausted : Answer

unfoldable pub find_by_hash : Text → List Project → Option Project
find_by_hash hash [] = none
find_by_hash hash (p ∷ l) =
    let rest = find_by_hash hash l in if text_eq p.api_key_hash hash then some p else rest

-- The header `X-API-Key`; `sha256` is the hex digest. None is a 401.
unfoldable pub get_project_by_api_key : (Text → Text) → Db → Option Text → Option Project
unfolding find_by_hash
get_project_by_api_key sha256 db none = none
get_project_by_api_key sha256 db (some key) =
    if is_empty key then none else find_by_hash (sha256 key) db.projects

-- `order_by(ProjectPool.priority.desc())`; among equals the order of the links.
unfoldable pub insert_pool : Pool × ℤ → List (Pool × ℤ) → List (Pool × ℤ)
insert_pool e [] = e ∷ []
insert_pool e (x ∷ l) = let rest = insert_pool e l in if leb_ℤ x.1 e.1 then e ∷ x ∷ l else x ∷ rest

unfoldable pub project_pools : ℕ → List Pool → List ProjectPool → List (Pool × ℤ)
unfolding insert_pool find_pool
project_pools project pools [] = []
project_pools project pools (k ∷ l) =
    let rest = project_pools project pools l in
    elim (find_pool k.pool_id pools) [
      | none ↦ rest
      | some pool ↦ if k.project_id == project then insert_pool (pool, k.priority) rest else rest
    ]

module _ (R : Redis) (draw_index draw_weight : ℕ → ℕ) where
  open R use {Store}

  -- `except PoolExhaustedError: continue`
  unfoldable pub rotate_each : List (Pool × ℤ) → ℕ → Store → Option Upstream × Store
  unfolding get_next_proxy
  rotate_each [] t s = (none, s)
  rotate_each ((pool, priority) ∷ l) t s =
      let (found, s') =
        get_next_proxy R draw_index draw_weight pool.id pool.rotation_strategy none t s in
      let rest = rotate_each l t s' in elim found [ ok up ↦ (some up, s') | pool_exhausted ↦ rest ]

  abbrev answer_of : Option Upstream × Store → Answer × Store
  answer_of (none, s) = (all_exhausted, s)
  answer_of (some up, s) = (proxy up, s)

  abbrev answer_from : List (Pool × ℤ) → ℕ → Store → Answer × Store
  answer_from [] t s = (no_pools, s)
  answer_from (e ∷ l) t s = answer_of (rotate_each (e ∷ l) t s)

  unfoldable pub rotate_proxy : (Text → Text) → Db → Text → Option Text → ℕ → Store → Answer × Store
  unfolding get_project_by_api_key find_project project_pools rotate_each
  rotate_proxy sha256 db slug key t s = elim (get_project_by_api_key sha256 db key) [
    | none ↦ (unauthorized, s)
    | some caller ↦ elim (find_project slug db.projects) [
      | none ↦ (project_not_found, s)
      | some project ↦
          if project.id == caller.id
          then answer_from (project_pools project.id db.pools db.links) t s
          else (forbidden, s)
    ]
  ]
