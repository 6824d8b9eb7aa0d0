-- ===== src/SourcePoller/Merge.antt =====
-- What `_sync_proxies` of src/services/source_poller.py does to a row that is in the table.
use proxysm.Base.{
  ℕ, ◌≡◌, refl, ap, ◌∙◌, Bool, true, false, ◌&&◌, Option, none, some, List, [], ◌∷◌, ◌++◌, map,
  arith, ◌==◌, if◌then◌else◌, Bool-cases, inl, inr,
}
use proxysm.Text.Laws.{option_eq-eq}
use proxysm.Models.{Status, unknown, degraded, dead, Proxy, ProxySource}
use proxysm.ImportParser.{ParsedProxy}
use proxysm.SourcePoller.{
  Address, address_eq, address_of, FeedSet, get_key, feed_set, disappeared, drop_missing,
  reactivate, with_credentials, return_one, return_each, add_new, sync_proxies,
}
use proxysm.SourcePoller.Feed.{
  address_eq-eq, address_eq_sym, last_for, get_key-feed_set, Distinct, Distinct-feed_set,
}

-- Dead or degraded.
abbrev pub is_failing : Option Status → Bool
is_failing (some dead) = true
is_failing (some degraded) = true
is_failing _ = false

-- A row whose address is in the feed, with the last entry `p` for it.
abbrev pub returned : ParsedProxy → Proxy → Proxy
returned p r = record r {
  is_active = true;
  last_health_status = if r.is_active then r.last_health_status else some unknown;
  username = p.username;
  password_encrypted = p.password;
}

-- A row whose address is not in the feed.
abbrev pub missed : Proxy → Proxy
missed r = record r { is_active = if is_failing r.last_health_status then false else r.is_active }

-- What becomes of a row.
abbrev pub merged : ProxySource → List ParsedProxy → Proxy → Proxy
merged source parsed r =
    if r.source_id == source.id
    then (elim (last_for source.protocol (address_of r) parsed) [
      | none ↦ missed r
      | some p ↦ returned p r
    ])
    else r

with_credentials_lem :
    (p : ParsedProxy) (r : Proxy)
    → with_credentials p r ≡ record r { username = p.username; password_encrypted = p.password }
unfolding with_credentials
with_credentials_lem p r =
    ground (arith, option_eq-eq r.username p.username, option_eq-eq r.password_encrypted p.password)

returned_lem : (p : ParsedProxy) (r : Proxy) → with_credentials p (reactivate r) ≡ returned p r
unfolding reactivate
returned_lem p r = elim (Bool-cases r.is_active) [
  | inl e ↦ with_credentials_lem p (reactivate r) ∙ ground (arith, e)
  | inr e ↦ with_credentials_lem p (reactivate r) ∙ ground (arith, e)
]

missed_lem : (r : Proxy) → disappeared r ≡ missed r
unfolding disappeared
missed_lem r = by_status r.last_health_status refl
  where
    by_status : (o : Option Status) → r.last_health_status ≡ o → disappeared r ≡ missed r
    by_status none e = ground (arith, e)
    by_status (some dead) e = ground (arith, e)
    by_status (some degraded) e = ground (arith, e)
    by_status (some o) e = ground (arith, e)

-- What step 4 does to a row, from a dict.
abbrev returned_by : ℕ → FeedSet → Proxy → Proxy
returned_by source feed r =
    if r.source_id == source
    then (elim (get_key (address_of r) feed) [ none ↦ r | some p ↦ returned p r ])
    else r

return_one_lem :
    (source : ℕ) (k : Address) (p : ParsedProxy) (rows : List Proxy)
    → return_one source k p rows
      ≡ map
          (λ r. if r.source_id == source && address_eq (address_of r) k then returned p r else r)
          rows
unfolding return_one
return_one_lem source k p [] = refl
return_one_lem source k p (r ∷ rows) =
    ground (arith, returned_lem p r, return_one_lem source k p rows)

returned_by_next :
    (source : ℕ) (k : Address) (p : ParsedProxy) (feed : FeedSet) (r : Proxy)
    → get_key k feed ≡ none
    → returned_by source feed
        (if r.source_id == source && address_eq (address_of r) k then returned p r else r)
      ≡ returned_by source ((k, p) ∷ feed) r
unfolding get_key
returned_by_next source k p feed r fresh = elim (Bool-cases (r.source_id == source)) [
  | inr e ↦ ground (arith, e)
  | inl e ↦ elim (Bool-cases (address_eq (address_of r) k)) [
    | inl same ↦
        let at_k : get_key (address_of r) feed ≡ none =
          ap (λ a. get_key a feed) (address_eq-eq (address_of r) k same) ∙ fresh in
        let same' : address_eq k (address_of r) ≡ true = address_eq_sym k (address_of r) ∙ same in
        ground (arith, e, same, same', at_k)
    | inr off ↦
        let off' : address_eq k (address_of r) ≡ false = address_eq_sym k (address_of r) ∙ off in
        ground (arith, e, off, off')
  ]
]

map-map :
    (f g h : Proxy → Proxy)
    → ((r : Proxy) → f (g r) ≡ h r)
    → (rows : List Proxy) → map f (map g rows) ≡ map h rows
map-map f g h e [] = refl
map-map f g h e (r ∷ rows) = rw (e r, map-map f g h e rows)

return_each_lem :
    (source : ℕ) (feed : FeedSet) (rows : List Proxy)
    → Distinct feed
    → return_each source feed rows ≡ map (returned_by source feed) rows
unfolding return_each get_key
return_each_lem source [] rows h = map_id rows
  where
    map_id : (rows : List Proxy) → rows ≡ map (returned_by source []) rows
    map_id [] = refl
    map_id (r ∷ rows) = ground (arith, map_id rows)
return_each_lem source ((k, p) ∷ feed) rows (fresh, h) =
    return_each_lem source feed (return_one source k p rows) h
    ∙ ap (map (returned_by source feed)) (return_one_lem source k p rows)
    ∙ map-map (returned_by source feed)
        (λ r. if r.source_id == source && address_eq (address_of r) k then returned p r else r)
        (returned_by source ((k, p) ∷ feed)) (λ r. returned_by_next source k p feed r fresh) rows

merged_row :
    (source : ProxySource) (parsed : List ParsedProxy) (r : Proxy) (o : Option ParsedProxy)
    → last_for source.protocol (address_of r) parsed ≡ o
    → let feed = feed_set source.protocol parsed [] in
      let r' : Proxy = elim (get_key (address_of r) feed) [ none ↦ disappeared r | some _ ↦ r ] in
      returned_by source.id feed (if r.source_id == source.id then r' else r)
      ≡ merged source parsed r
merged_row source parsed r none e =
    ground (arith, e, get_key-feed_set source.protocol (address_of r) parsed, missed_lem r)
merged_row source parsed r (some p) e =
    ground (arith, e, get_key-feed_set source.protocol (address_of r) parsed)

drop_missing_lem :
    (source : ProxySource) (parsed : List ParsedProxy) (rows : List Proxy)
    → let feed = feed_set source.protocol parsed [] in
      map (returned_by source.id feed) (drop_missing source.id feed rows)
      ≡ map (merged source parsed) rows
unfolding drop_missing
drop_missing_lem source parsed [] = refl
drop_missing_lem source parsed (r ∷ rows) = rw (
  merged_row source parsed r (last_for source.protocol (address_of r) parsed) refl,
  drop_missing_lem source parsed rows,
)

-- When the sync commits, each row that was in the table is what `merged` makes of it: a row of the
-- source that is in the feed is active, "unknown" if it was inactive, and has the credentials of
-- the last entry for its address; a row of the source that is not is deactivated if it is dead or
-- degraded; all else stays. The new rows follow.
pub sync_merges :
    (new_id : Address → ℕ) (source : ProxySource) (parsed : List ParsedProxy)
    (table after : List Proxy)
    → sync_proxies new_id source parsed table ≡ some after
    → after
      ≡ map (merged source parsed) table
        ++ add_new new_id source (feed_set source.protocol parsed []) table []
unfolding sync_proxies
sync_merges new_id source parsed table after h =
    let feed = feed_set source.protocol parsed [] in
    let rows =
      return_each_lem source.id feed (drop_missing source.id feed table)
        (Distinct-feed_set source.protocol parsed [] tt) in
    let old = rows ∙ drop_missing_lem source parsed table in ground (arith, old)
