-- ===== src/Api/Rotation/Failover.antt =====
-- Who gets a proxy from `rotate_proxy` (src/api/rotation.py), and which.
use proxysm.Base.{
  ℕ, ◌≡◌, refl, ap, false, Option, none, some, List, [], ◌∷◌, arith, ◌==◌, Any, Bool-cases,
  Option-cases, inl, inr, length,
}
use proxysm.Base.Int.{ℤ, pos}
use proxysm.Text.{Text, text_eq, is_empty}
use proxysm.Text.Laws.{text_eq-eq}
use proxysm.Models.{Pool, Project}
use proxysm.Redis.{health, pool_proxies, pool_connections, list_of, counts_of, is_dead, Redis}
use proxysm.Rotation.{dead_in, first_alive, rotate_least_connections, rotate_round_robin}
use proxysm.Rotation.RoundRobin.Loop.{health-round_robin_loop}
use proxysm.Rotation.Engine.{Upstream, run_strategy, rotate, pinned, get_next_proxy}
use proxysm.Rotation.Engine.Alive.{get_next_proxy-alive}
use proxysm.Auth.{Db, find_project}
use proxysm.Api.Rotation.{
  proxy, find_by_hash, get_project_by_api_key, project_pools, rotate_each, answer_from,
  rotate_proxy,
}

hash-find_by_hash :
    (hash : Text) (l : List Project) (p : Project)
    → find_by_hash hash l ≡ some p
    → p.api_key_hash ≡ hash
unfolding find_by_hash
hash-find_by_hash hash [] p h = cc
hash-find_by_hash hash (q ∷ l) p h =
    ground (arith, text_eq-eq q.api_key_hash hash, hash-find_by_hash hash l p)

hash-get_project_by_api_key :
    (sha256 : Text → Text) (db : Db) (k : Text) (p : Project)
    → get_project_by_api_key sha256 db (some k) ≡ some p
    → p.api_key_hash ≡ sha256 k
unfolding get_project_by_api_key
hash-get_project_by_api_key sha256 db k p h =
    ground (arith, hash-find_by_hash (sha256 k) db.projects p)

-- The project is a row of the table.
member-find_by_hash :
    (hash : Text) (l : List Project) (p : Project)
    → find_by_hash hash l ≡ some p
    → Any (λ q. q ≡ p) l
unfolding find_by_hash
member-find_by_hash hash [] p h = cc
member-find_by_hash hash (q ∷ l) p h = elim (Bool-cases (text_eq q.api_key_hash hash)) [
  | inl e ↦ let found : some q ≡ some p = rw (e, find_by_hash) at h in inl cc
  | inr e ↦ inr (member-find_by_hash hash l p (rw (e, find_by_hash) at h))
]

member-get_project_by_api_key :
    (sha256 : Text → Text) (db : Db) (k : Text) (p : Project)
    → get_project_by_api_key sha256 db (some k) ≡ some p
    → Any (λ q. q ≡ p) db.projects
unfolding get_project_by_api_key
member-get_project_by_api_key sha256 db k p h = elim (Bool-cases (is_empty k)) [
  | inl e ↦ ground (arith, e, h)
  | inr e ↦ member-find_by_hash (sha256 k) db.projects p (rw (e, get_project_by_api_key) at h)
]

module _ (R : Redis) where
  open R use {Store, read, read-zincrby}

  health-least_connections :
      (pool t u id : ℕ) (s : Store)
      → read (rotate_least_connections R (pool_connections pool) t s).1 u (health id)
        ≡ read s u (health id)
  unfolding rotate_least_connections
  health-least_connections pool t u id s =
      elim (Option-cases
        (first_alive (dead_in R t s) (counts_of (read s t (pool_connections pool))))) [
          | inl e ↦ rw (e, rotate_least_connections)
          | inr (j, e) ↦
              rw (e, rotate_least_connections)
                (read-zincrby (pool_connections pool) (pos 1) j t s u (health id))
        ]

  health-round_robin :
      (pool t u id : ℕ) (s : Store)
      → read (rotate_round_robin R (pool_proxies pool) t s).1 u (health id) ≡ read s u (health id)
  unfolding rotate_round_robin
  health-round_robin pool t u id s =
      health-round_robin_loop R pool t (length (list_of (read s t (pool_proxies pool)))) s u id

  module _ (draw_index draw_weight : ℕ → ℕ) where
    health-run_strategy :
        (pool : ℕ) (strategy : Text) (t u id : ℕ) (s : Store)
        → read (run_strategy R draw_index draw_weight pool strategy t s).1 u (health id)
          ≡ read s u (health id)
    unfolding run_strategy
    health-run_strategy pool strategy t u id s =
        ground (arith, health-least_connections pool t u id s, health-round_robin pool t u id s)

    -- Rotating changes no health key.
    health-get_next_proxy :
        (pool : ℕ) (strategy : Text) (t u id : ℕ) (s : Store)
        → read (get_next_proxy R draw_index draw_weight pool strategy none t s).1 u (health id)
          ≡ read s u (health id)
    unfolding get_next_proxy pinned rotate
    health-get_next_proxy pool strategy t u id s = health-run_strategy pool strategy t u id s

    rotate_each-alive :
        (l : List (Pool × ℤ)) (t : ℕ) (s : Store) (up : Upstream)
        → (rotate_each R draw_index draw_weight l t s).0 ≡ some up
        → dead_in R t s up.id ≡ false
    unfolding rotate_each
    rotate_each-alive [] t s up h = cc
    rotate_each-alive ((pool, priority) ∷ l) t s up h =
        let (found, s') =
          get_next_proxy R draw_index draw_weight pool.id pool.rotation_strategy none t s in
        let same : dead_in R t s' up.id ≡ dead_in R t s up.id =
          ap is_dead (health-get_next_proxy pool.id pool.rotation_strategy t t up.id s) in
        ground (
          arith,
          same,
          get_next_proxy-alive R draw_index draw_weight pool.id pool.rotation_strategy none t s up,
          rotate_each-alive l t s' up,
        )

    answer_from-alive :
        (l : List (Pool × ℤ)) (t : ℕ) (s : Store) (up : Upstream)
        → (answer_from R draw_index draw_weight l t s).0 ≡ proxy up
        → dead_in R t s up.id ≡ false
    answer_from-alive [] t s up h = cc
    answer_from-alive (e ∷ l) t s up h = ground (arith, rotate_each-alive (e ∷ l) t s up)

    -- A client gets a proxy only with a key whose hash stands in a row of the table of projects with
    -- the id of the project that has the slug, and then a proxy that is not dead.
    pub rotate_proxy_lem :
        (sha256 : Text → Text) (db : Db) (slug : Text) (key : Option Text) (t : ℕ) (s : Store)
        (up : Upstream)
        → (rotate_proxy R draw_index draw_weight sha256 db slug key t s).0 ≡ proxy up
        → (k : Text) × (caller : Project) × (project : Project) × (key ≡ some k)
          × (find_project slug db.projects ≡ some project)
          × Any (λ q. q ≡ caller) db.projects
          × (caller.id ≡ project.id)
          × (caller.api_key_hash ≡ sha256 k)
          × (dead_in R t s up.id ≡ false)
    unfolding rotate_proxy
    rotate_proxy_lem sha256 db slug none t s up h = cc
    rotate_proxy_lem sha256 db slug (some k) t s up h =
        elim (Option-cases (get_project_by_api_key sha256 db (some k))) [
          | inl e ↦ ground (arith, e)
          | inr (caller, e) ↦ elim (Option-cases (find_project slug db.projects)) [
            | inl f ↦ ground (arith, e, f)
            | inr (project, f) ↦ elim (Bool-cases (project.id == caller.id)) [
              | inr other ↦ ground (arith, e, f, other)
              | inl same ↦
                  let pools = project_pools project.id db.pools db.links in
                  (
                    k,
                    caller,
                    project,
                    refl,
                    f,
                    member-get_project_by_api_key sha256 db k caller e,
                    ground (arith, same),
                    hash-get_project_by_api_key sha256 db k caller e,
                    answer_from-alive pools t s up (ground (arith, e, f, same)),
                  )
            ]
          ]
        ]
