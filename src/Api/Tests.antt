-- ===== src/Api/Tests.antt =====
-- Examples for the handlers of the API.
use proxysm.Base.{
  ℕ, ◌+◌, ◌≡◌, refl, true, false, none, some, List, [], ◌∷◌, ◌++◌, arith, length, All, Any,
}
use proxysm.Base.Int.{pos}
use proxysm.Text.{Text, codes}
use proxysm.Models.{healthy, Proxy, PoolProxy, Project}
use proxysm.Redis.{lookup, put_field, put_fields}
use proxysm.Redis.Memory.{memory, no_keys, read_cell, alter}
use proxysm.Rotation.{rotate_random, random_loop, dead_in}
use proxysm.Rotation.Engine.{
  ok, proxy_dict, proxy_dict_of, build_proxy_dict, cache_proxy_info, info_mapping, pinned,
  run_strategy, rotate, get_next_proxy, sync_pool, sync_weighted_pool,
}
use proxysm.Rotation.Engine.Cache.{cached}
use proxysm.Auth.{Db, find_project, find_pool}
use proxysm.Base.{ap, ltb, if◌then◌else◌, ◌*◌, ◌≤◌}
use proxysm.Text.{is_digit, to_lower, behind_prefix}
use proxysm.Models.{ProxySource, settings}
use proxysm.Redis.{status, str, is_dead}
use proxysm.Health.{success, latency_spike, after_success, success_path, check_single_proxy}
use proxysm.Auth.{Grant, Entry, cache_key, cache_get, authenticate}
use proxysm.ImportParser.{ParsedProxy}
use proxysm.SourcePoller.{Address, in_rows}
use proxysm.HttpProxy.{crlf}
use proxysm.HttpProxy.Headers.{parse_proxy_auth}
use proxysm.HttpProxy.Login.{block, login_line}
use proxysm.HttpProxy.Letters.{codec}
use proxysm.Api
use proxysm.Api.Projects.{make_slug, get_project_row, rotate_api_key}
use proxysm.Api.Projects.Slug.{parse_proxy_auth-make_slug}
use proxysm.Api.Projects.Revoked.{rotate_api_key-revokes}
use proxysm.Api.Proxies.{ProxyTables, address_in, add_entries, check_proxy}
use proxysm.Api.Proxies.Import.{all_distinct, add_entries_lem}
use proxysm.Api.Proxies.Check.{check_proxy_lem}
use proxysm.Api.Pools.{
  Tables, row_info, get_proxy_row, is_linked, active_members, cache_each, sync_pool_redis,
}
use proxysm.Api.{unset, null, value}
use proxysm.Api.Sources.{update_source, delete_source, create_source, remove_links}
use proxysm.Api.Sources.Integrity.{
  IsIntact, Request, creation, change, deletion, handle, handle_all, handle_all-IsIntact,
}
use proxysm.Api.Pools.Members.{all_unique}
use proxysm.Api.Pools.Push.{IsLasting, Serves}
use proxysm.Api.Pools.Serves.{random_member}
use proxysm.Api.Rotation.{
  proxy, find_by_hash, get_project_by_api_key, insert_pool, project_pools, rotate_each,
  rotate_proxy,
}
use proxysm.Api.Rotation.Failover.{rotate_proxy_lem}

abbrev proxy_three : Proxy
proxy_three = record {
  id = 3;
  source_id = 1;
  provider = none;
  host = codes "10.0.0.3";
  port = pos 8080;
  protocol = codes "http";
  username = some (codes "me");
  password_encrypted = some (codes "pw");
  is_active = true;
  last_health_check = none;
  last_health_status = some healthy;
  avg_latency = none;
}

abbrev proxy_four : Proxy
proxy_four = record proxy_three { id = 4; is_active = false }

-- Pool 7 holds an active proxy and one that is not.
abbrev tables : Tables
tables = record {
  pools = record { id = 7; name = codes "main"; rotation_strategy = codes "random" } ∷ [];
  links =
      record { pool_id = 7; proxy_id = 3; weight = 5 }
      ∷ record { pool_id = 7; proxy_id = 4; weight = 5 }
      ∷ [];
  project_pools = [];
  proxies = proxy_three ∷ proxy_four ∷ [];
}

abbrev one_link : List PoolProxy
one_link = record { pool_id = 7; proxy_id = 3; weight = 5 } ∷ []

links_unique : all_unique one_link ≡ true
unfolding is_linked
links_unique = refl

lasting : IsLasting memory no_keys
unfolding read_cell
lasting j u v = refl

served :
    (get_next_proxy memory
      (λ n. 0)
      (λ n. 1)
      7
      (codes "random")
      none
      900
      (sync_pool_redis memory tables 7 500 no_keys)).0
    ≡ ok (cached 3 (row_info proxy_three))
unfolding get_next_proxy pinned rotate run_strategy rotate_random random_loop read_cell alter
    build_proxy_dict proxy_dict_of proxy_dict lookup put_field put_fields sync_pool_redis sync_pool
    sync_weighted_pool cache_each cache_proxy_info info_mapping active_members get_proxy_row
served = refl

random_member_example :
    Any
      (λ e. cached 3 (row_info proxy_three) ≡ cached e.0.id (row_info e.0))
      (active_members 7 tables.proxies tables.links)
random_member_example =
    random_member memory (λ n. 0) (λ n. 1) tables 7 500 900 no_keys
      (cached 3 (row_info proxy_three)) lasting served

abbrev hash : Text → Text
hash k = codes "sha256:" ++ k

abbrev shop : Project
shop = record {
  id = 1;
  name = codes "Shop";
  slug = codes "shop";
  api_key_hash = codes "sha256:key";
  api_key_plain = none;
}

abbrev rows : Db
rows = record {
  projects = shop ∷ [];
  links = record { project_id = 1; pool_id = 7; priority = pos 0 } ∷ [];
  pools = tables.pools;
}

answered :
    (rotate_proxy memory
      (λ n. 0)
      (λ n. 1)
      hash
      rows
      (codes "shop")
      (some (codes "key"))
      900
      (sync_pool_redis memory tables 7 500 no_keys)).0
    ≡ proxy (cached 3 (row_info proxy_three))
unfolding rotate_proxy get_project_by_api_key find_by_hash find_project find_pool project_pools
    insert_pool rotate_each get_next_proxy pinned rotate run_strategy rotate_random random_loop
    read_cell alter build_proxy_dict proxy_dict_of proxy_dict lookup put_field put_fields
    sync_pool_redis sync_pool sync_weighted_pool cache_each cache_proxy_info info_mapping
    active_members get_proxy_row
answered = refl

rotate_proxy_lem_example :
    (k : Text) × (caller : Project) × (project : Project) × (some (codes "key") ≡ some k)
    × (find_project (codes "shop") rows.projects ≡ some project)
    × Any (λ q. q ≡ caller) rows.projects
    × (caller.id ≡ project.id)
    × (caller.api_key_hash ≡ hash k)
    × (dead_in memory 900 (sync_pool_redis memory tables 7 500 no_keys) 3 ≡ false)
rotate_proxy_lem_example =
    rotate_proxy_lem memory (λ n. 0) (λ n. 1) hash rows (codes "shop") (some (codes "key")) 900
      (sync_pool_redis memory tables 7 500 no_keys) (cached 3 (row_info proxy_three)) answered

-- The lines of a client that logs in to the project "My Shop".
my_shop : make_slug (codes "My Shop!") ≡ codes "my-shop"
unfolding make_slug is_digit to_lower
my_shop = refl

parse_proxy_auth-make_slug_example :
    parse_proxy_auth codec
      (block [] ++ (login_line codec (make_slug (codes "My Shop!")) (codes "k") ++ (crlf ++ crlf)))
    ≡ some (make_slug (codes "My Shop!"), codes "k")
parse_proxy_auth-make_slug_example =
    parse_proxy_auth-make_slug codec [] (codes "My Shop!") (codes "k") crlf tt tt

abbrev keep : Grant → Grant
keep g = g

shop_row : get_project_row 1 rows.projects ≡ some shop
unfolding get_project_row
shop_row = refl

shop_slug : find_project (codes "shop") rows.projects ≡ some shop
unfolding find_project
shop_slug = refl

-- The old key, cached until time 100.
abbrev old_entry : Entry Grant
old_entry = record {
  stored_hash = hash (codes "key");
  kept = record { project_id = 1; pool_id = 7; strategy = codes "random" };
  expiry = 100;
}

abbrev old_cache : List (Text × Entry Grant)
old_cache = (cache_key (codes "shop") (codes "key"), old_entry) ∷ []

old_expired :
    (e : Entry Grant)
    → cache_get (cache_key (codes "shop") (codes "key")) old_cache ≡ some e
    → e.expiry ≤ 100
unfolding cache_get
old_expired e h =
    let same : old_entry ≡ e = cc in
    let expiry : 100 ≡ e.expiry = ap (λ (x : Entry Grant). x.expiry) same in omega (arith, expiry)

hash_injective : (k l : Text) → hash k ≡ hash l → k ≡ l
hash_injective k l h =
    let both : behind_prefix (codes "sha256:") (hash k) ≡ behind_prefix (codes "sha256:") (hash l) =
      ap (behind_prefix (codes "sha256:")) h in
    cc

rotate_api_key-revokes_example :
    (authenticate hash keep
      (rotate_api_key hash 1 (codes "new") rows).1
      (codes "shop")
      (codes "key")
      100
      old_cache).0
    ≡ none
rotate_api_key-revokes_example =
    rotate_api_key-revokes hash keep rows 1 shop (codes "shop") (codes "key") (codes "new") 100
      old_cache hash_injective refl shop_row shop_slug old_expired

abbrev manual : ProxySource
manual = record {
  id = 2;
  type = codes "manual";
  url = none;
  provider = none;
  protocol = codes "http";
  is_active = true;
  last_polled_at = none;
  last_status_code = none;
  consecutive_failures = 0;
}

abbrev entry : Text → ParsedProxy
entry host = record {
  host = host;
  port = pos 8080;
  protocol = codes "socks5";
  username = none;
  password = none;
}

abbrev ids : Address → ℕ
ids k = 9

abbrev entries : List ParsedProxy
entries = entry (codes "10.0.0.3") ∷ entry (codes "10.0.0.5") ∷ entry (codes "10.0.0.5") ∷ []

distinct : all_distinct (proxy_three ∷ []) ≡ true
unfolding in_rows
distinct = refl

add_entries_lem_example :
    let (rows', created, skipped) = add_entries ids manual entries (proxy_three ∷ []) in
    All (λ p. in_rows (address_in manual p) rows' ≡ true) entries
    × (created + skipped ≡ length entries)
    × (length rows' ≡ length (proxy_three ∷ []) + created)
    × (all_distinct rows' ≡ true)
    × (add_entries ids manual entries rows' ≡ (rows', 0, length entries))
add_entries_lem_example = add_entries_lem ids manual entries (proxy_three ∷ []) distinct

abbrev proxy_tables : ProxyTables
proxy_tables = record { sources = []; proxies = proxy_three ∷ []; links = tables.links }

check_replies :
    (check_proxy memory settings 3 (success 1200 none) 500 proxy_tables no_keys).0
    ≡ Api.ok (healthy, 1200)
unfolding check_proxy check_single_proxy success_path after_success latency_spike get_proxy_row
check_replies = refl

check_proxy_lem_example :
    let (reply, db', s') =
      check_proxy memory settings 3 (success 1200 none) 500 proxy_tables no_keys in
    (dead_in memory 900 s' 3
      ≡ (if ltb 900 (500 + 120 * 1000) then is_dead (str (status healthy)) else false))
    × ((p : Proxy) × (get_proxy_row 3 proxy_tables.proxies ≡ some p) × Serves memory 900 s' p)
check_proxy_lem_example =
    check_proxy_lem memory settings 3 (success 1200 none) 500 900 proxy_tables no_keys healthy 1200
      lasting check_replies

-- Source 1 has proxy 3, which is in pool 7; source 2 has none.
abbrev sourced : ProxyTables
sourced = record {
  sources =
      (codes "feed", record manual { id = 1; type = codes "url" }) ∷ (codes "list", manual) ∷ [];
  proxies = proxy_three ∷ [];
  links = record { pool_id = 7; proxy_id = 3; weight = 1 } ∷ [];
}

sourced-IsIntact : IsIntact sourced
sourced-IsIntact = record { owned = (refl, tt); linked = (refl, tt) }

abbrev requests : List Request
requests =
    change 2 (record {
      name = value (codes "more");
      url = unset;
      provider = null;
      protocol = value (codes "socks5");
      is_active = unset;
    })
    ∷ deletion 1
    ∷ creation 5 (record {
      name = codes "feed";
      type = codes "file";
      url = none;
      provider = none;
      protocol = codes "http";
    })
    ∷ []

deletes_all : (handle_all requests sourced).links ≡ []
unfolding handle_all handle update_source delete_source create_source remove_links
deletes_all = refl

handle_all-IsIntact_example : IsIntact (handle_all requests sourced)
handle_all-IsIntact_example = handle_all-IsIntact requests sourced sourced-IsIntact
