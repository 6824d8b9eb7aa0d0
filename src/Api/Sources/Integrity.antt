-- ===== src/Api/Sources/Integrity.antt =====
-- The references between sources, proxies and links under the handlers of src/api/sources.py.
use proxysm.Base.{
  ℕ, ◌≡◌, refl, ap, ◌∙◌, Bool, true, false, not, ◌&&◌, ◌||◌, List, [], ◌∷◌, ◌++◌, arith, ◌==◌, All,
  Bool-cases, Option-cases, inl, inr, leb, length,
}
use proxysm.Models.{Proxy, PoolProxy}
use proxysm.SourcePoller.{fits}
use proxysm.Api.Pools.{get_proxy_row}
use proxysm.Api.Proxies.{ProxyTables, source_taken, new_source}
use proxysm.Api.Sources.{
  SourceRow, get_source_row, other_has, SourceCreate, create_source, SourceUpdate, changed_source,
  replace_source, write_source, update_source, remove_source, remove_proxies, comes_from,
  remove_links, delete_source,
}

abbrev pub has_source : ℕ → List SourceRow → Bool
has_source id [] = false
has_source id (row ∷ l) = row.1.id == id || has_source id l

abbrev pub has_proxy : ℕ → List Proxy → Bool
has_proxy id [] = false
has_proxy id (p ∷ l) = p.id == id || has_proxy id l

-- Every proxy has its source, and every link its proxy.
pub record IsIntact (db : ProxyTables) : Type 0 where
  pub owned : All (λ (p : Proxy). has_source p.source_id db.sources ≡ true) db.proxies
  pub linked : All (λ (k : PoolProxy). has_proxy k.proxy_id db.proxies ≡ true) db.links

module _ {A : Type 0} (P Q : A → Type 0) (f : (x : A) → P x → Q x) where
  All-with : (l : List A) → All P l → All Q l
  All-with [] h = tt
  All-with (x ∷ l) h = (f x h.0, All-with l h.1)

has_source-append :
    (id : ℕ) (l m : List SourceRow) → has_source id l ≡ true → has_source id (l ++ m) ≡ true
has_source-append id [] m h = absurd (ground (arith, h))
has_source-append id (row ∷ l) m h = elim (Bool-cases (row.1.id == id)) [
  | inl e ↦ rw (e) refl
  | inr e ↦ rw (e) (has_source-append id l m (rw (e) at h))
]

has_source-replace :
    (id : ℕ) (row : SourceRow) (l : List SourceRow)
    → has_source id (replace_source row l) ≡ has_source id l
unfolding replace_source
has_source-replace id row [] = refl
has_source-replace id row (old ∷ l) = elim (Bool-cases (old.1.id == row.1.id)) [
  | inl e ↦
      let same : row.1.id ≡ old.1.id = ground (arith, e) in
      rw (e, has_source-replace id row l) (ap (λ n. n == id || has_source id l) same)
  | inr e ↦ rw (e, has_source-replace id row l) refl
]

has_source-remove :
    (id j : ℕ) (l : List SourceRow)
    → (j == id) ≡ false
    → has_source j l ≡ true
    → has_source j (remove_source id l) ≡ true
unfolding remove_source
has_source-remove id j [] other h = absurd (ground (arith, h))
has_source-remove id j (row ∷ l) other h = elim (Bool-cases (row.1.id == j)) [
  | inl e ↦ let kept : (row.1.id == id) ≡ false = ground (arith, e, other) in rw (kept, e) refl
  | inr e ↦
      let rest = has_source-remove id j l other (rw (e) at h) in
      elim (Bool-cases (row.1.id == id)) [ inl f ↦ rw (f) rest | inr f ↦ rw (f, e) rest ]
]

has_proxy-remove :
    (id j : ℕ) (l : List Proxy)
    → comes_from id l j ≡ false
    → has_proxy j l ≡ true
    → has_proxy j (remove_proxies id l) ≡ true
unfolding get_proxy_row remove_proxies
has_proxy-remove id j [] other h = absurd (ground (arith, h))
has_proxy-remove id j (p ∷ l) other h = elim (Bool-cases (p.id == j)) [
  | inl e ↦
      let kept : (p.source_id == id) ≡ false = rw (e, comes_from) at other in rw (kept, e) refl
  | inr e ↦
      let rest = has_proxy-remove id j l (rw (e, comes_from) at other) (rw (e) at h) in
      elim (Bool-cases (p.source_id == id)) [ inl f ↦ rw (f) rest | inr f ↦ rw (f, e) rest ]
]

remove_proxies-All :
    (id : ℕ) (sources : List SourceRow) (l : List Proxy)
    → All (λ (p : Proxy). has_source p.source_id sources ≡ true) l
    → All
        (λ (p : Proxy). has_source p.source_id (remove_source id sources) ≡ true)
        (remove_proxies id l)
unfolding remove_proxies
remove_proxies-All id sources [] h = tt
remove_proxies-All id sources (p ∷ l) h =
    let rest = remove_proxies-All id sources l h.1 in
    elim (Bool-cases (p.source_id == id)) [
      | inl e ↦ rw (e) rest
      | inr e ↦ rw (e) (has_source-remove id p.source_id sources e h.0, rest)
    ]

remove_links-All :
    (id : ℕ) (proxies : List Proxy) (l : List PoolProxy)
    → All (λ (k : PoolProxy). has_proxy k.proxy_id proxies ≡ true) l
    → All
        (λ (k : PoolProxy). has_proxy k.proxy_id (remove_proxies id proxies) ≡ true)
        (remove_links id proxies l)
unfolding remove_links
remove_links-All id proxies [] h = tt
remove_links-All id proxies (k ∷ l) h =
    let rest = remove_links-All id proxies l h.1 in
    elim (Bool-cases (comes_from id proxies k.proxy_id)) [
      | inl e ↦ rw (e) rest
      | inr e ↦ rw (e) (has_proxy-remove id k.proxy_id proxies e h.0, rest)
    ]

-- What the three handlers that write are called with; the number is the UUID that a new row gets.
pub data Request : Type 0 where
  creation : ℕ → SourceCreate → Request
  change : ℕ → SourceUpdate → Request
  deletion : ℕ → Request

unfoldable pub handle : Request → ProxyTables → ProxyTables
unfolding create_source update_source delete_source
handle (creation id body) db = (create_source id body db).1
handle (change id body) db = (update_source id body db).1
handle (deletion id) db = (delete_source id db).1

unfoldable pub handle_all : List Request → ProxyTables → ProxyTables
unfolding handle
handle_all [] db = db
handle_all (r ∷ rs) db = handle_all rs (handle r db)

-- The conditions under which a row is written.
abbrev may_write : SourceRow → ProxyTables → Bool
unfolding other_has
may_write row db =
    not (other_has row.1.id row.0 db.sources) && (leb (length row.0) 255 && fits 255 row.1.provider)

abbrev may_create : SourceCreate → ProxyTables → Bool
unfolding source_taken
may_create body db =
    not (source_taken body.name db.sources)
    && (leb (length body.name) 255 && fits 255 body.provider)

write_source-IsIntact :
    (row : SourceRow) (db : ProxyTables) → IsIntact db → IsIntact (write_source row db).1
unfolding write_source
write_source-IsIntact row db h = elim (Bool-cases (may_write row db)) [
  | inr e ↦ rw (e) h
  | inl e ↦ rw (e) (record {
    owned =
        All-with (λ (p : Proxy). has_source p.source_id db.sources ≡ true)
          (λ (p : Proxy). has_source p.source_id (replace_source row db.sources) ≡ true)
          (λ p k. has_source-replace p.source_id row db.sources ∙ k) db.proxies h.owned;
    linked = h.linked;
  })
]

update_source-IsIntact :
    (id : ℕ) (body : SourceUpdate) (db : ProxyTables)
    → IsIntact db
    → IsIntact (update_source id body db).1
unfolding update_source
update_source-IsIntact id body db h = elim (Option-cases (get_source_row id db.sources)) [
  | inl e ↦ rw (e, update_source) h
  | inr (row, e) ↦ elim (Option-cases (changed_source body row)) [
    | inl f ↦ rw (e, f, update_source) h
    | inr (row', f) ↦ rw (e, f, update_source) (write_source-IsIntact row' db h)
  ]
]

create_source-IsIntact :
    (id : ℕ) (body : SourceCreate) (db : ProxyTables)
    → IsIntact db
    → IsIntact (create_source id body db).1
unfolding create_source
create_source-IsIntact id body db h =
    let row : SourceRow =
      (body.name, new_source id body.type body.url body.provider body.protocol) in
    elim (Bool-cases (may_create body db)) [
      | inr e ↦ rw (e) h
      | inl e ↦ rw (e) (record {
        owned =
            All-with (λ (p : Proxy). has_source p.source_id db.sources ≡ true)
              (λ (p : Proxy). has_source p.source_id (db.sources ++ row ∷ []) ≡ true)
              (λ p k. has_source-append p.source_id db.sources (row ∷ []) k) db.proxies h.owned;
        linked = h.linked;
      })
    ]

delete_source-IsIntact :
    (id : ℕ) (db : ProxyTables) → IsIntact db → IsIntact (delete_source id db).1
unfolding delete_source
delete_source-IsIntact id db h = elim (Option-cases (get_source_row id db.sources)) [
  | inl e ↦ rw (e, delete_source) h
  | inr (row, e) ↦
      rw (e, delete_source)
        (record {
          owned = remove_proxies-All id db.sources db.proxies h.owned;
          linked = remove_links-All id db.proxies db.links h.linked;
        })
]

handle-IsIntact : (r : Request) (db : ProxyTables) → IsIntact db → IsIntact (handle r db)
unfolding handle
handle-IsIntact (creation id body) db h = create_source-IsIntact id body db h
handle-IsIntact (change id body) db h = update_source-IsIntact id body db h
handle-IsIntact (deletion id) db h = delete_source-IsIntact id db h

-- Whatever sources are created, changed and deleted, in whatever order, every proxy has its source
-- and every link of a pool its proxy, if that was so before.
pub handle_all-IsIntact :
    (requests : List Request) (db : ProxyTables) → IsIntact db → IsIntact (handle_all requests db)
unfolding handle_all
handle_all-IsIntact [] db h = h
handle_all-IsIntact (r ∷ rs) db h = handle_all-IsIntact rs (handle r db) (handle-IsIntact r db h)
