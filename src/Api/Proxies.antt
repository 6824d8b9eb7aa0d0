-- ===== src/Api/Proxies.antt =====
-- src/api/proxies.py: proxies are created, imported in bulk, changed, deleted and checked. The UUIDs
-- of new rows, the time stamp in a source's name and what a URL gives are arguments. The list with
-- its filters is left out.
pub mod Import
pub mod Check
use proxysm.Base.{
  ℕ, ◌+◌, Bool, true, false, not, ◌&&◌, ◌||◌, Option, none, some, List, [], ◌∷◌, ◌++◌, map, leb,
  length, ◌==◌, if◌then◌else◌,
}
use proxysm.Base.Int.{ℤ}
use proxysm.Text.{Text, codes, text_eq, is_empty}
use proxysm.Models.{Settings, healthy, Status, Proxy, PoolProxy, ProxySource}
use proxysm.Redis.{Redis}
use proxysm.ImportParser.{ParsedProxy, Url, parse_proxy_list}
use proxysm.SourcePoller.{Address, in_rows, fits, valid_rows, new_row}
use proxysm.Health.{Probe, Checked, check_single_proxy}
use proxysm.Rotation.Engine.{update_proxy_health, cache_proxy_info}
use proxysm.Api.{Reply, ok, not_found, failed, Field, required}
use proxysm.Api.Pools.{get_proxy_row, row_info}

-- The tables: a source has a name, which is unique.
pub record ProxyTables : Type 0 where
  pub sources : List (Text × ProxySource)
  pub proxies : List Proxy
  pub links : List PoolProxy

pub record ProxyCreate : Type 0 where
  pub host : Text
  pub port : ℤ
  pub protocol : Text
  pub provider : Option Text
  pub username : Option Text
  pub password : Option Text

pub record ProxyBulkImport : Type 0 where
  pub provider : Option Text
  pub protocol : Text
  pub proxies : Option Text
  pub proxy_list : Option (List ProxyCreate)
  pub url : Option Text
  pub filename : Option Text

-- `if s:` of an optional text
abbrev pub truthy : Option Text → Option Text
truthy none = none
truthy (some s) = if is_empty s then none else some s

-- `_make_source_name`
abbrev pub make_source_name : Text → Text → Text
make_source_name stamp prefix = prefix ++ b'-' ∷ stamp

unfoldable pub source_taken : Text → List (Text × ProxySource) → Bool
source_taken name [] = false
source_taken name ((n, s) ∷ l) = let rest = source_taken name l in text_eq n name || rest

abbrev pub new_source : ℕ → Text → Option Text → Option Text → Text → ProxySource
new_source id type url provider protocol = record {
  id = id;
  type = type;
  url = url;
  provider = provider;
  protocol = protocol;
  is_active = true;
  last_polled_at = none;
  last_status_code = none;
  consecutive_failures = 0;
}

abbrev pub parsed_of : ProxyCreate → ParsedProxy
parsed_of p = record {
  host = p.host;
  port = p.port;
  protocol = p.protocol;
  username = p.username;
  password = p.password;
}

-- What is written, if no constraint is violated.
abbrev pub commit :
    {A : Type 0} → A → Text → ProxySource → List Proxy → ProxyTables → Reply A × ProxyTables
unfolding source_taken valid_rows
commit a name source rows db =
    if not (source_taken name db.sources)
      && leb (length name) 255
      && fits 255 source.provider
      && valid_rows rows
    then (ok a, record db { sources = db.sources ++ (name, source) ∷ []; proxies = rows })
    else (failed, db)

abbrev pub address_in : ProxySource → ParsedProxy → Address
address_in source p = (p.host, p.port, source.protocol)

module _ (new_id : Address → ℕ) where
  -- One round of the loop, and the rows after it.
  abbrev pub with_entry : ProxySource → ParsedProxy → List Proxy → List Proxy
  unfolding in_rows new_row
  with_entry source p rows =
      if in_rows (address_in source p) rows then rows else rows ++ new_row new_id source p ∷ []

  -- The loop: the rows, `created` and `skipped`.
  unfoldable pub add_entries : ProxySource → List ParsedProxy → List Proxy → List Proxy × ℕ × ℕ
  unfolding in_rows new_row
  add_entries source [] rows = (rows, 0, 0)
  add_entries source (p ∷ ps) rows =
      let known = in_rows (address_in source p) rows in
      let (rows', created, skipped) = add_entries source ps (with_entry source p rows) in
      (rows', if known then created else created + 1, if known then skipped + 1 else skipped)

module _ (new_id : Address → ℕ) (source_id : ℕ) (stamp : Text) where
  unfoldable pub create_proxy : ProxyCreate → ProxyTables → Reply Proxy × ProxyTables
  unfolding new_row source_taken valid_rows
  create_proxy body db =
      let source = new_source source_id (codes "manual") none body.provider body.protocol in
      let p = new_row new_id source (parsed_of body) in
      commit p (make_source_name stamp (codes "manual")) (record source { protocol = codes "http" })
        (db.proxies ++ p ∷ []) db

  -- The type, the name and the URL of the new source.
  abbrev pub import_source : ProxyBulkImport → Text × ProxySource
  import_source body = elim (truthy body.url) [
    | some url ↦ (url, new_source source_id (codes "url") body.url body.provider body.protocol)
    | none ↦ elim (truthy body.filename) [
      | some name ↦ (
        make_source_name stamp name,
        new_source source_id (codes "file") body.url body.provider body.protocol,
      )
      | none ↦ (
        make_source_name stamp (codes "manual"),
        new_source source_id (codes "manual") body.url body.provider body.protocol,
      )
    ]
  ]

  module _ (urlparse : Text → Url) where
    -- The entries of a text, if there is one; none is an exception.
    abbrev pub entries_of : Option (Option Text) → Option (List ParsedProxy)
    unfolding parse_proxy_list
    entries_of none = some []
    entries_of (some none) = none
    entries_of (some (some text)) = parse_proxy_list urlparse text

    abbrev pub text_part : Option Text → Option (Option Text)
    text_part o = elim (truthy o) [ none ↦ none | some text ↦ some (some text) ]

    abbrev pub structured : Option (List ProxyCreate) → List ParsedProxy
    structured none = []
    structured (some l) = map parsed_of l

    -- `fetched` is the text at the URL; none if the request or its status raises.
    unfoldable pub proxy_entries : Option Text → ProxyBulkImport → Option (List ParsedProxy)
    unfolding parse_proxy_list
    proxy_entries fetched body =
        elim (entries_of (elim (truthy body.url) [ none ↦ none | some url ↦ some fetched ])) [
          | none ↦ none
          | some from_url ↦ elim (entries_of (text_part body.proxies)) [
            | none ↦ none
            | some from_text ↦ some (from_url ++ (from_text ++ structured body.proxy_list))
          ]
        ]

    -- The reply counts what was created and skipped, with the id of the source.
    unfoldable pub bulk_import_proxies :
        Option Text → ProxyBulkImport → ProxyTables → Reply (ℕ × ℕ × ℕ) × ProxyTables
    unfolding proxy_entries add_entries source_taken valid_rows
    bulk_import_proxies fetched body db =
        let (name, source) = import_source body in
        elim (proxy_entries fetched body) [
          | none ↦ (failed, db)
          | some entries ↦
              let (rows, created, skipped) = add_entries new_id source entries db.proxies in
              commit (created, skipped, source_id) name source rows db
        ]

unfoldable pub get_proxy : ℕ → ProxyTables → Reply Proxy
unfolding get_proxy_row
get_proxy id db = elim (get_proxy_row id db.proxies) [ none ↦ not_found | some p ↦ ok p ]

unfoldable pub replace_proxy : Proxy → List Proxy → List Proxy
replace_proxy p [] = []
replace_proxy p (q ∷ l) =
    let rest = replace_proxy p l in if q.id == p.id then p ∷ rest else q ∷ rest

unfoldable pub update_proxy : ℕ → Field Bool → ProxyTables → Reply Proxy × ProxyTables
unfolding get_proxy_row replace_proxy
update_proxy id is_active db = elim (get_proxy_row id db.proxies) [
  | none ↦ (not_found, db)
  | some p ↦ elim (required is_active p.is_active) [
    | none ↦ (failed, db)
    | some active ↦
        let p' = record p { is_active = active } in
        (ok p', record db { proxies = replace_proxy p' db.proxies })
  ]
]

unfoldable pub remove_proxy : ℕ → List Proxy → List Proxy
remove_proxy id [] = []
remove_proxy id (p ∷ l) = let rest = remove_proxy id l in if p.id == id then rest else p ∷ rest

unfoldable pub unlink_proxy : ℕ → List PoolProxy → List PoolProxy
unlink_proxy id [] = []
unlink_proxy id (k ∷ l) =
    let rest = unlink_proxy id l in if k.proxy_id == id then rest else k ∷ rest

-- The links go with the proxy (ON DELETE CASCADE); Redis is not touched.
unfoldable pub delete_proxy : ℕ → ProxyTables → Reply (Unit {0}) × ProxyTables
unfolding get_proxy_row remove_proxy unlink_proxy
delete_proxy id db = elim (get_proxy_row id db.proxies) [
  | none ↦ (not_found, db)
  | some p ↦
      (ok tt, record db { proxies = remove_proxy id db.proxies; links = unlink_proxy id db.links })
]

abbrev pub latency_after : Status → ℕ → Option ℕ → Option ℕ
latency_after healthy latency old = some latency
latency_after _ latency old = old

module _ (R : Redis) (cfg : Settings) where
  open R use {Store}

  -- The row and Redis after a check with this result.
  abbrev pub checked :
      Proxy → ℕ → Checked → ProxyTables → Store → Reply (Status × ℕ) × ProxyTables × Store
  unfolding replace_proxy update_proxy_health cache_proxy_info
  checked p t (new, latency, ip) db s =
      let p' = record p {
        last_health_status = some new;
        avg_latency = latency_after new latency p.avg_latency;
      } in
      (
        ok (new, latency),
        record db { proxies = replace_proxy p' db.proxies },
        cache_proxy_info R p.id (row_info p) t (update_proxy_health R p.id new t s),
      )

  unfoldable pub check_proxy :
      ℕ → Probe → ℕ → ProxyTables → Store → Reply (Status × ℕ) × ProxyTables × Store
  unfolding get_proxy_row check_single_proxy replace_proxy update_proxy_health cache_proxy_info
  check_proxy id probe t db s = elim (get_proxy_row id db.proxies) [
    | none ↦ (not_found, db, s)
    | some p ↦
        let (result, s') = check_single_proxy R cfg p probe t s in
        elim result [ none ↦ (failed, db, s') | some r ↦ checked p t r db s' ]
  ]
