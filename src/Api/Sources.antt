-- ===== src/Api/Sources.antt =====
-- src/api/sources.py: the sources of proxies. The tables are those of the handlers of proxies; the
-- UUID of a new row is an argument, as is what the HTTP client gives to the poller.
pub mod Integrity
pub mod Polls
use proxysm.Base.{
  ℕ, Bool, true, false, not, ◌&&◌, ◌||◌, Option, none, some, List, [], ◌∷◌, ◌++◌, map, leb, ◌==◌,
  if◌then◌else◌, length,
}
use proxysm.Text.{Text, codes, text_eq}
use proxysm.Models.{Proxy, PoolProxy, ProxySource}
use proxysm.ImportParser.{Url}
use proxysm.SourcePoller.{Address, db_proxies, fits}
use proxysm.SourcePoller.Poll.{
  Response, Tables, PollInfo, PollResult, source_not_found, only_url_sources, no_url_configured,
  poll_raised, polled, has_no_url, poll_single_source_by_id,
}
use proxysm.Api.{Reply, ok, not_found, failed, Field, unset, null, value, required}
use proxysm.Api.Paging.{page_of}
use proxysm.Api.Pools.{get_proxy_row}
use proxysm.Api.Proxies.{ProxyTables, source_taken, new_source}

abbrev pub SourceRow : Type 0
SourceRow = Text × ProxySource

-- `db.get(ProxySource, id)`
unfoldable pub get_source_row : ℕ → List SourceRow → Option SourceRow
get_source_row id [] = none
get_source_row id ((name, s) ∷ l) =
    let rest = get_source_row id l in if s.id == id then some (name, s) else rest

pub record SourceResponse : Type 0 where
  pub name : Text
  pub source : ProxySource
  pub proxy_count : ℕ

unfoldable pub source_to_response : List Proxy → SourceRow → SourceResponse
unfolding db_proxies
source_to_response proxies (name, s) = record {
  name = name;
  source = s;
  proxy_count = length (db_proxies s.id proxies);
}

unfoldable pub list_sources : ℕ → ℕ → ProxyTables → List SourceResponse × ℕ
unfolding page_of source_to_response
list_sources page per_page db =
    (map (source_to_response db.proxies) (page_of page per_page db.sources), length db.sources)

pub record SourceCreate : Type 0 where
  pub name : Text
  pub type : Text
  pub url : Option Text
  pub provider : Option Text
  pub protocol : Text

-- A name that is taken, or a text that is too long for its column, leaves the table as it is.
unfoldable pub create_source : ℕ → SourceCreate → ProxyTables → Reply SourceResponse × ProxyTables
unfolding source_taken
create_source id body db =
    let s = new_source id body.type body.url body.provider body.protocol in
    if not (source_taken body.name db.sources)
      && (leb (length body.name) 255 && fits 255 body.provider)
    then (
      ok (record { name = body.name; source = s; proxy_count = 0 }),
      record db { sources = db.sources ++ (body.name, s) ∷ [] },
    )
    else (failed, db)

unfoldable pub get_source : ℕ → ProxyTables → Reply SourceResponse
unfolding get_source_row source_to_response
get_source id db = elim (get_source_row id db.sources) [
  | none ↦ not_found
  | some row ↦ ok (source_to_response db.proxies row)
]

pub record SourceUpdate : Type 0 where
  pub name : Field Text
  pub url : Field Text
  pub provider : Field Text
  pub protocol : Field Text
  pub is_active : Field Bool

-- `setattr` of a column that admits null.
abbrev pub nullable : {A : Type 0} → Field A → Option A → Option A
nullable unset a = a
nullable null a = none
nullable (value b) a = some b

-- The loop of `update_source`; none if null is set where the column admits none.
unfoldable pub changed_source : SourceUpdate → SourceRow → Option SourceRow
changed_source body (name, s) = elim (required body.name name) [
  | none ↦ none
  | some name' ↦ elim (required body.protocol s.protocol) [
    | none ↦ none
    | some protocol' ↦ elim (required body.is_active s.is_active) [
      | none ↦ none
      | some active ↦ some (
        name',
        record s {
          url = nullable body.url s.url;
          provider = nullable body.provider s.provider;
          protocol = protocol';
          is_active = active;
        },
      )
    ]
  ]
]

-- The row with the id of this one is it.
unfoldable pub replace_source : SourceRow → List SourceRow → List SourceRow
replace_source row [] = []
replace_source row (old ∷ l) =
    let rest = replace_source row l in if old.1.id == row.1.id then row ∷ rest else old ∷ rest

-- Another source has the name.
unfoldable pub other_has : ℕ → Text → List SourceRow → Bool
other_has id name [] = false
other_has id name (old ∷ l) =
    let rest = other_has id name l in (not (old.1.id == id) && text_eq old.0 name) || rest

-- The row is written, if no constraint is violated.
unfoldable pub write_source : SourceRow → ProxyTables → Reply SourceResponse × ProxyTables
unfolding replace_source other_has source_to_response
write_source row db =
    if not (other_has row.1.id row.0 db.sources)
      && (leb (length row.0) 255 && fits 255 row.1.provider)
    then (
      ok (source_to_response db.proxies row),
      record db { sources = replace_source row db.sources },
    )
    else (failed, db)

unfoldable pub update_source : ℕ → SourceUpdate → ProxyTables → Reply SourceResponse × ProxyTables
unfolding get_source_row changed_source write_source
update_source id body db = elim (get_source_row id db.sources) [
  | none ↦ (not_found, db)
  | some row ↦ elim (changed_source body row) [
    | none ↦ (failed, db)
    | some row' ↦ write_source row' db
  ]
]

unfoldable pub remove_source : ℕ → List SourceRow → List SourceRow
remove_source id [] = []
remove_source id (row ∷ l) =
    let rest = remove_source id l in if row.1.id == id then rest else row ∷ rest

-- The proxies of a source go with it (`cascade="all, delete-orphan"`).
unfoldable pub remove_proxies : ℕ → List Proxy → List Proxy
remove_proxies id [] = []
remove_proxies id (p ∷ l) =
    let rest = remove_proxies id l in if p.source_id == id then rest else p ∷ rest

-- The proxy is one of the source.
abbrev pub comes_from : ℕ → List Proxy → ℕ → Bool
comes_from id proxies proxy = elim (get_proxy_row proxy proxies) [
  | none ↦ false
  | some p ↦ p.source_id == id
]

-- And the links of each of them.
unfoldable pub remove_links : ℕ → List Proxy → List PoolProxy → List PoolProxy
unfolding get_proxy_row
remove_links id proxies [] = []
remove_links id proxies (k ∷ l) =
    let rest = remove_links id proxies l in
    if comes_from id proxies k.proxy_id then rest else k ∷ rest

unfoldable pub delete_source : ℕ → ProxyTables → Reply (Unit {0}) × ProxyTables
unfolding get_source_row remove_source remove_proxies remove_links
delete_source id db = elim (get_source_row id db.sources) [
  | none ↦ (not_found, db)
  | some row ↦ (
    ok tt,
    record db {
      sources = remove_source id db.sources;
      proxies = remove_proxies id db.proxies;
      links = remove_links id db.proxies db.links;
    },
  )
]

-- The two responses with status 400, the 404, or what the poller gives: its dict, or an exception.
pub data PollReply : Type 0 where
  missing not_url without_url poll_failed : PollReply
  answered : PollInfo → PollReply

-- The poller changes rows of sources in their places, and no name.
unfoldable pub renamed : List SourceRow → List ProxySource → List SourceRow
renamed ((name, s) ∷ l) (s' ∷ l') = (name, s') ∷ renamed l l'
renamed _ _ = []

abbrev pub rows_only : List SourceRow → List ProxySource
rows_only = map (λ (r : SourceRow). r.1)

abbrev pub with_tables : ProxyTables → Tables → ProxyTables
with_tables db t = record db { sources = renamed db.sources t.sources; proxies = t.proxies }

unfoldable pub poll_reply : PollResult → ProxyTables → PollReply × ProxyTables
unfolding renamed
poll_reply (polled info t) db = (answered info, with_tables db t)
poll_reply (poll_raised t) db = (poll_failed, with_tables db t)
poll_reply _ db = (poll_failed, db)

module _ (urlparse : Text → Url) (new_id : Address → ℕ) where
  unfoldable pub poll_source :
      (ProxySource → Response) → ℕ → ℕ → ProxyTables → PollReply × ProxyTables
  unfolding get_source_row poll_single_source_by_id poll_reply
  poll_source fetch id now db = elim (get_source_row id db.sources) [
    | none ↦ (missing, db)
    | some row ↦
        if not (text_eq row.1.type (codes "url"))
        then (not_url, db)
        else if has_no_url urlparse new_id row.1
        then (without_url, db)
        else poll_reply
            (poll_single_source_by_id urlparse new_id fetch id now
              (record { sources = rows_only db.sources; proxies = db.proxies }))
            db
  ]
