-- ===== src/Api/Projects/Revoked.antt =====
-- A key that was replaced by `rotate_api_key` (src/api/projects.py), at the two proxy servers
-- (`_authenticate` in src/proxy/http_proxy.py and src/proxy/socks5_proxy.py).
use proxysm.Base.{
  ℕ, ◌≤◌, ◌≡◌, refl, ap, sym, ◌∙◌, true, false, none, some, List, [], ◌∷◌, arith, ltb, ◌==◌,
  Bool-cases, Option-cases, inl, inr,
}
use proxysm.Text.{Text, text_eq}
use proxysm.Text.Laws.{text_eq-eq, text_eq_refl}
use proxysm.Models.{Project}
use proxysm.Auth.{
  Db, Grant, Entry, find_project, best_pool, query, cache_key, cache_get, cache_del, look_up,
  from_db, authenticate,
}
use proxysm.Api.Projects.{get_project_row, replace_project, with_key, rotate_api_key}

slug-find_project :
    (slug : Text) (l : List Project) (p : Project) → find_project slug l ≡ some p → p.slug ≡ slug
unfolding find_project
slug-find_project slug [] p h = cc
slug-find_project slug (q ∷ l) p h = elim (Bool-cases (text_eq q.slug slug)) [
  | inl e ↦
      let found : some q ≡ some p = rw (e, find_project) at h in
      let is : q ≡ p = cc in ap (λ (x : Project). x.slug) (sym is) ∙ text_eq-eq q.slug slug e
  | inr e ↦ slug-find_project slug l p (rw (e, find_project) at h)
]

module _ {A : Type 0} (sha256 : Text → Text) (keep : Grant → A) where
  look_up_wrong :
      (db : Db) (slug api_key : Text) (p : Project)
      → find_project slug db.projects ≡ some p
      → text_eq p.api_key_hash (sha256 api_key) ≡ false
      → look_up sha256 keep db slug api_key ≡ none
  unfolding look_up query
  look_up_wrong db slug api_key p found wrong =
      elim (Option-cases (best_pool db.pools p.id db.links)) [
        | inl e ↦ rw (found, e, look_up, query) refl
        | inr ((priority, pool), e) ↦ rw (found, e, wrong, look_up, query) refl
      ]

  from_db_wrong :
      (db : Db) (slug api_key : Text) (now : ℕ) (cache : List (Text × Entry A))
      → look_up sha256 keep db slug api_key ≡ none
      → (from_db sha256 keep db slug api_key now cache).0 ≡ none
  unfolding from_db
  from_db_wrong db slug api_key now cache h = rw (h, from_db) refl

  authenticate_wrong :
      (db : Db) (slug api_key : Text) (now : ℕ) (cache : List (Text × Entry A))
      → look_up sha256 keep db slug api_key ≡ none
      → ((e : Entry A) → cache_get (cache_key slug api_key) cache ≡ some e → e.expiry ≤ now)
      → (authenticate sha256 keep db slug api_key now cache).0 ≡ none
  unfolding authenticate
  authenticate_wrong db slug api_key now cache h expired =
      let k = cache_key slug api_key in
      elim (Option-cases (cache_get k cache)) [
        | inl e ↦ rw (e, authenticate) (from_db_wrong db slug api_key now cache h)
        | inr (entry, e) ↦
            let bound : entry.expiry ≤ now = expired entry e in
            let late : ltb now entry.expiry ≡ false = ground (arith, bound) in
            rw (e, late, authenticate) (from_db_wrong db slug api_key now (cache_del k cache) h)
      ]

find_project-replace :
    (p : Project) (l : List Project) (slug : Text) (q : Project)
    → find_project slug l ≡ some q
    → p.slug ≡ slug
    → p.id ≡ q.id
    → find_project slug (replace_project p l) ≡ some p
unfolding find_project replace_project
find_project-replace p [] slug q h same id = cc
find_project-replace p (r ∷ l) slug q h same id = elim (Bool-cases (r.id == p.id)) [
  | inl e ↦ rw (e, find_project) (rw (same, text_eq_refl slug) refl)
  | inr e ↦ elim (Bool-cases (text_eq r.slug slug)) [
    | inl f ↦
        let found : some r ≡ some q = rw (f, find_project) at h in
        let is : r ≡ q = cc in
        let ids : r.id ≡ p.id = ap (λ (x : Project). x.id) is ∙ sym id in
        absurd (ground (arith, e, ids))
    | inr f ↦
        rw (e, f, find_project)
          (find_project-replace p l slug q (rw (f, find_project) at h) same id)
  ]
]

-- Once a project's key is replaced, the old key is refused at the proxies, for any tables and any
-- cache, except while an entry that was cached for it before has not expired. The keys differ, and
-- the hash is injective.
pub rotate_api_key-revokes :
    {A : Type 0}
    → (sha256 : Text → Text) (keep : Grant → A) (db : Db) (id : ℕ) (p : Project)
      (slug old new : Text) (now : ℕ) (cache : List (Text × Entry A))
    → ((s t : Text) → sha256 s ≡ sha256 t → s ≡ t)
    → text_eq new old ≡ false
    → get_project_row id db.projects ≡ some p
    → find_project slug db.projects ≡ some p
    → ((e : Entry A) → cache_get (cache_key slug old) cache ≡ some e → e.expiry ≤ now)
    → (authenticate sha256 keep (rotate_api_key sha256 id new db).1 slug old now cache).0 ≡ none
unfolding rotate_api_key
rotate_api_key-revokes sha256 keep db id p slug old new now cache injective differ row found
      expired =
    let p' = with_key sha256 new p in
    let db' : Db = record db { projects = replace_project p' db.projects } in
    let found' : find_project slug db'.projects ≡ some p' =
      find_project-replace p' db.projects slug p found (slug-find_project slug db.projects p found)
        refl in
    let wrong : text_eq (sha256 new) (sha256 old) ≡ false =
      elim (Bool-cases (text_eq (sha256 new) (sha256 old))) [
        | inr e ↦ e
        | inl e ↦
            let same : new ≡ old = injective new old (text_eq-eq (sha256 new) (sha256 old) e) in
            let eq : text_eq new old ≡ true = ap (text_eq new) (sym same) ∙ text_eq_refl new in cc
      ] in
    rw (row, rotate_api_key)
      (authenticate_wrong sha256 keep db' slug old now cache
        (look_up_wrong sha256 keep db' slug old p' found' wrong) expired)
