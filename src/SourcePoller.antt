-- ===== src/SourcePoller.antt =====
-- `_sync_proxies` of src/services/source_poller.py: a feed that was read is merged into the table
-- of proxies. The table is a list of rows; `new_id` is the UUID that a new row gets.
pub mod Feed
pub mod Merge
pub mod Poll
pub mod Failures
mod Tests
use proxysm.Base.{
  ℕ, ◌≡◌, Bool, true, false, not, ◌&&◌, ◌||◌, Option, none, some, List, [], ◌∷◌, ◌++◌, map, ◌==◌,
  leb, if◌then◌else◌, length,
}
use proxysm.Base.Int.{ℤ, pos, negsuc, eq_ℤ}
use proxysm.Text.{Text, codes, text_eq, option_eq}
use proxysm.Models.{Status, unknown, healthy, degraded, dead, other, Proxy, ProxySource}
use proxysm.ImportParser.{ParsedProxy}

-- (host, port, protocol)
abbrev pub Address : Type 0
Address = Text × ℤ × Text

abbrev pub address_eq : Address → Address → Bool
address_eq (h, p, r) (h', p', r') = text_eq h h' && (eq_ℤ p p' && text_eq r r')

abbrev pub address_of : Proxy → Address
address_of r = (r.host, r.port, r.protocol)

-- A dict keyed by the address, in the order of insertion.
abbrev pub FeedSet : Type 0
FeedSet = List (Address × ParsedProxy)

-- `feed_set[key] = p`
unfoldable pub set_key : Address → ParsedProxy → FeedSet → FeedSet
set_key k p [] = (k, p) ∷ []
set_key k p ((j, q) ∷ l) =
    let rest = set_key k p l in if address_eq j k then (j, p) ∷ l else (j, q) ∷ rest

unfoldable pub get_key : Address → FeedSet → Option ParsedProxy
get_key k [] = none
get_key k ((j, q) ∷ l) = let rest = get_key k l in if address_eq j k then some q else rest

-- Step 1, from the dict `d`; `protocol` is `source.protocol`.
unfoldable pub feed_set : Text → List ParsedProxy → FeedSet → FeedSet
unfolding set_key
feed_set protocol [] d = d
feed_set protocol (p ∷ ps) d = feed_set protocol ps (set_key (p.host, p.port, protocol) p d)

-- Some row has the address.
unfoldable pub in_rows : Address → List Proxy → Bool
in_rows k [] = false
in_rows k (r ∷ rs) = let rest = in_rows k rs in address_eq (address_of r) k || rest

-- `Proxy.source_id == source.id`
unfoldable pub db_proxies : ℕ → List Proxy → List Proxy
db_proxies source [] = []
db_proxies source (r ∷ rs) =
    let rest = db_proxies source rs in if r.source_id == source then r ∷ rest else rest

-- Step 3, for a row that is missing from the feed.
unfoldable pub disappeared : Proxy → Proxy
disappeared r = elim r.last_health_status [
  | some dead ↦ record r { is_active = false }
  | some degraded ↦ record r { is_active = false }
  | _ ↦ r
]

unfoldable pub drop_missing : ℕ → FeedSet → List Proxy → List Proxy
unfolding get_key disappeared
drop_missing source feed [] = []
drop_missing source feed (r ∷ rs) =
    let r' : Proxy = elim (get_key (address_of r) feed) [ none ↦ disappeared r | some _ ↦ r ] in
    (if r.source_id == source then r' else r) ∷ drop_missing source feed rs

-- Step 4, for one row.
unfoldable pub reactivate : Proxy → Proxy
reactivate r =
    if r.is_active then r else record r { is_active = true; last_health_status = some unknown }

-- Step 5, for one row.
unfoldable pub with_credentials : ParsedProxy → Proxy → Proxy
with_credentials p r =
    if not (option_eq r.username p.username) || not (option_eq r.password_encrypted p.password)
    then record r { username = p.username; password_encrypted = p.password }
    else r

-- Steps 4 and 5 for one entry of the feed: the row of the source with its key.
unfoldable pub return_one : ℕ → Address → ParsedProxy → List Proxy → List Proxy
unfolding reactivate with_credentials
return_one source k p [] = []
return_one source k p (r ∷ rs) =
    (if r.source_id == source && address_eq (address_of r) k
      then with_credentials p (reactivate r)
      else r)
    ∷ return_one source k p rs

unfoldable pub return_each : ℕ → FeedSet → List Proxy → List Proxy
unfolding return_one
return_each source [] rows = rows
return_each source ((k, p) ∷ feed) rows = return_each source feed (return_one source k p rows)

-- The constraints and the lengths of the columns of src/models/proxy.py.
unfoldable pub valid_status : Option Status → Bool
valid_status (some (other _)) = false
valid_status _ = true

abbrev pub fits : ℕ → Option Text → Bool
fits n none = true
fits n (some s) = leb (length s) n

abbrev pub valid_port : ℤ → Bool
valid_port (pos p) = leb p 65535
valid_port (negsuc n) = false

abbrev pub valid_protocol : Text → Bool
valid_protocol r =
    text_eq r (codes "http") || text_eq r (codes "https") || text_eq r (codes "socks5")

unfoldable pub valid_row : Proxy → Bool
unfolding valid_status
valid_row r =
    valid_port r.port
    && valid_protocol r.protocol
    && valid_status r.last_health_status
    && leb (length r.host) 255
    && fits 255 r.username
    && fits 255 r.provider

unfoldable pub valid_rows : List Proxy → Bool
unfolding valid_row in_rows
valid_rows [] = true
valid_rows (r ∷ rs) =
    let rest = valid_rows rs in valid_row r && not (in_rows (address_of r) rs) && rest

module _ (new_id : Address → ℕ) (source : ProxySource) where
  -- The row that is added for an entry of the feed.
  unfoldable pub new_row : ParsedProxy → Proxy
  new_row p = record {
    id = new_id (p.host, p.port, source.protocol);
    source_id = source.id;
    provider = source.provider;
    host = p.host;
    port = p.port;
    protocol = source.protocol;
    username = p.username;
    password_encrypted = p.password;
    is_active = true;
    last_health_check = none;
    last_health_status = some unknown;
    avg_latency = none;
  }

  -- Step 2: the rows that are added, behind those that were. The query for a duplicate sees both
  -- the table and the rows added so far.
  unfoldable pub add_new : FeedSet → List Proxy → List Proxy → List Proxy
  unfolding in_rows db_proxies new_row
  add_new [] table added = added
  add_new ((k, p) ∷ feed) table added =
      let known = in_rows k (db_proxies source.id table) in
      let duplicate = in_rows (p.host, p.port, p.protocol) (table ++ added) in
      add_new feed table (if known || duplicate then added else added ++ (new_row p ∷ []))

  -- `none`: the commit violates a constraint, and nothing is written.
  unfoldable pub sync_proxies : List ParsedProxy → List Proxy → Option (List Proxy)
  unfolding feed_set add_new drop_missing return_each valid_rows
  sync_proxies parsed table =
      let feed = feed_set source.protocol parsed [] in
      let added = add_new feed table [] in
      let rows = return_each source.id feed (drop_missing source.id feed table) ++ added in
      if valid_rows rows then some rows else none
