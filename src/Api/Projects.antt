-- ===== src/Api/Projects.antt =====
-- src/api/projects.py: the projects, their API keys, and which pools they may use. A key that
-- `secrets.token_urlsafe` draws and the UUID of a row are arguments.
pub mod Slug
pub mod Revoked
use proxysm.Base.{
  ℕ, ◌+◌, Bool, true, false, not, ◌&&◌, ◌||◌, Option, none, some, List, [], ◌∷◌, ◌++◌, map, leb,
  ◌==◌, if◌then◌else◌, length,
}
use proxysm.Base.Int.{pos}
use proxysm.Text.{Text, text_eq, to_lower, is_digit}
use proxysm.Models.{Pool, Project, ProjectPool}
use proxysm.Auth.{Db, find_pool}
use proxysm.Api.{Reply, ok, not_found, failed, Field, unset, null, value}
use proxysm.Api.Paging.{page_of}

-- `[a-z0-9\-]`
abbrev pub is_slug_char : ℕ → Bool
unfolding is_digit
is_slug_char c = leb b'a' c && leb c b'z' || leb b'0' c && leb c b'9' || c == b'-'

-- `lower` and `replace(" ", "-")`, for what `keep_slug` leaves of it: U+212A and U+0130 are the
-- characters beside the capitals that become a letter from a to z, the second with a combining dot.
abbrev pub slug_char : ℕ → ℕ
unfolding to_lower
slug_char c =
    if c == b' ' then b'-' else if c == 8490 then b'k' else if c == 304 then b'i' else to_lower c

abbrev pub keep_slug : Text → Text
keep_slug [] = []
keep_slug (c ∷ s) = let rest = keep_slug s in if is_slug_char c then c ∷ rest else rest

-- `_make_slug`
unfoldable pub make_slug : Text → Text
make_slug name = keep_slug (map slug_char name)

-- `db.get(Project, id)`
unfoldable pub get_project_row : ℕ → List Project → Option Project
get_project_row id [] = none
get_project_row id (p ∷ l) = let rest = get_project_row id l in if p.id == id then some p else rest

unfoldable pub get_project_pools : ℕ → Db → List Pool
unfolding find_pool
get_project_pools id db = pools_of db.links
  where
    pools_of : List ProjectPool → List Pool
    pools_of [] = []
    pools_of (k ∷ l) =
        let rest = pools_of l in
        elim (find_pool k.pool_id db.pools) [
          | none ↦ rest
          | some pool ↦ if k.project_id == id then pool ∷ rest else rest
        ]

pub record ProjectResponse : Type 0 where
  pub project : Project
  pub pools : List Pool

abbrev pub project_response : Db → Project → ProjectResponse
unfolding get_project_pools
project_response db p = record { project = p; pools = get_project_pools p.id db }

unfoldable pub list_projects : ℕ → ℕ → Db → List ProjectResponse × ℕ
unfolding page_of get_project_pools
list_projects page per_page db =
    (map (project_response db) (page_of page per_page db.projects), length db.projects)

unfoldable pub get_project : ℕ → Db → Reply ProjectResponse
unfolding get_project_row get_project_pools
get_project id db = elim (get_project_row id db.projects) [
  | none ↦ not_found
  | some p ↦ ok (project_response db p)
]

-- Another project has the name or the slug.
unfoldable pub is_taken : Project → List Project → Bool
is_taken new [] = false
is_taken new (p ∷ l) =
    let rest = is_taken new l in
    not (p.id == new.id) && (text_eq p.name new.name || text_eq p.slug new.slug) || rest

-- The project with its key in plain text, or a 409.
pub data Created : Type 0 where
  created : Project → Text → Created
  conflict : Created

unfoldable pub replace_project : Project → List Project → List Project
replace_project p [] = []
replace_project p (q ∷ l) =
    let rest = replace_project p l in if q.id == p.id then p ∷ rest else q ∷ rest

unfoldable pub update_project : ℕ → Field Text → Db → Reply ProjectResponse × Db
unfolding get_project_row get_project_pools is_taken replace_project make_slug
update_project id name db = elim (get_project_row id db.projects) [
  | none ↦ (not_found, db)
  | some p ↦ elim name [
    | unset ↦ (ok (project_response db p), db)
    | null ↦ (failed, db)
    | value new ↦
        let p' = record p { name = new; slug = make_slug new } in
        let db' : Db = record db { projects = replace_project p' db.projects } in
        if is_taken p' db.projects then (failed, db) else (ok (project_response db' p'), db')
  ]
]

unfoldable pub remove_project : ℕ → List Project → List Project
remove_project id [] = []
remove_project id (p ∷ l) = let rest = remove_project id l in if p.id == id then rest else p ∷ rest

unfoldable pub unassign_project : ℕ → List ProjectPool → List ProjectPool
unassign_project id [] = []
unassign_project id (k ∷ l) =
    let rest = unassign_project id l in if k.project_id == id then rest else k ∷ rest

unfoldable pub delete_project : ℕ → Db → Reply (Unit {0}) × Db
unfolding get_project_row remove_project unassign_project
delete_project id db = elim (get_project_row id db.projects) [
  | none ↦ (not_found, db)
  | some p ↦ (
    ok tt,
    record db { projects = remove_project id db.projects; links = unassign_project id db.links },
  )
]

unfoldable pub is_assigned : ℕ → ℕ → List ProjectPool → Bool
is_assigned project pool [] = false
is_assigned project pool (k ∷ l) =
    let rest = is_assigned project pool l in (k.project_id == project && k.pool_id == pool) || rest

abbrev pub is_assignable : List Pool → ℕ → ℕ → List ProjectPool → Bool
unfolding find_pool is_assigned
is_assignable pools project pool links = elim (find_pool pool pools) [
  | none ↦ false
  | some p ↦ not (is_assigned project pool links)
]

-- The loop of `assign_pools`: the links, and `added`.
unfoldable pub assign_each : List Pool → ℕ → List ℕ → List ProjectPool → List ProjectPool × ℕ
unfolding find_pool is_assigned
assign_each pools project [] links = (links, 0)
assign_each pools project (pool ∷ ids) links =
    let wanted = is_assignable pools project pool links in
    let link : ProjectPool = record { project_id = project; pool_id = pool; priority = pos 0 } in
    let (links', n) =
      assign_each pools project ids (if wanted then links ++ link ∷ [] else links) in
    (links', if wanted then n + 1 else n)

unfoldable pub assign_pools : ℕ → List ℕ → Db → Reply ℕ × Db
unfolding get_project_row assign_each
assign_pools id pools db = elim (get_project_row id db.projects) [
  | none ↦ (not_found, db)
  | some p ↦
      let (links', added) = assign_each db.pools id pools db.links in
      (ok added, record db { links = links' })
]

unfoldable pub unassign : ℕ → ℕ → List ProjectPool → List ProjectPool
unassign project pool [] = []
unassign project pool (k ∷ l) =
    let rest = unassign project pool l in
    if k.project_id == project && k.pool_id == pool then rest else k ∷ rest

unfoldable pub unassign_pool : ℕ → ℕ → Db → Reply (Unit {0}) × Db
unfolding is_assigned unassign
unassign_pool project pool db =
    if is_assigned project pool db.links
    then (ok tt, record db { links = unassign project pool db.links })
    else (not_found, db)

module _ (sha256 : Text → Text) where
  unfoldable pub create_project : ℕ → Text → Text → Db → Created × Db
  unfolding make_slug is_taken
  create_project id name api_key db =
      let p : Project = record {
        id = id;
        name = name;
        slug = make_slug name;
        api_key_hash = sha256 api_key;
        api_key_plain = some api_key;
      } in
      if is_taken p db.projects
      then (conflict, db)
      else (created p api_key, record db { projects = db.projects ++ p ∷ [] })

  abbrev pub with_key : Text → Project → Project
  with_key api_key p = record p { api_key_hash = sha256 api_key; api_key_plain = some api_key }

  unfoldable pub rotate_api_key : ℕ → Text → Db → Reply Text × Db
  unfolding get_project_row replace_project
  rotate_api_key id api_key db = elim (get_project_row id db.projects) [
    | none ↦ (not_found, db)
    | some p ↦
        (ok api_key, record db { projects = replace_project (with_key api_key p) db.projects })
  ]
