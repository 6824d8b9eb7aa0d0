-- ===== src/Api/Pools/Members.antt =====
-- Which proxies are in a pool after the loops of `add_proxies_to_pool` and
-- `remove_proxies_from_pool` (src/api/pools.py).
use proxysm.Base.{
  ℕ, ◌+◌, ◌≡◌, refl, ◌∙◌, Bool, true, not, ◌&&◌, ◌||◌, List, [], ◌∷◌, ◌++◌, arith, ◌==◌, length,
  length-append,
}
use proxysm.Text.{has}
use proxysm.Models.{Proxy, PoolProxy}
use proxysm.Api.Pools.{is_linked, exists, new_link, with_link, add_links}

-- No pool has a proxy twice, as the unique constraint wants.
abbrev pub all_unique : List PoolProxy → Bool
all_unique [] = true
all_unique (k ∷ l) = not (is_linked k.pool_id k.proxy_id l) && all_unique l

is_linked-append :
    (pool id : ℕ) (l m : List PoolProxy)
    → is_linked pool id (l ++ m) ≡ (is_linked pool id l || is_linked pool id m)
unfolding is_linked
is_linked-append pool id [] m = refl
is_linked-append pool id (k ∷ l) m = ground (arith, is_linked-append pool id l m)

all_unique-append :
    (k : PoolProxy) (l : List PoolProxy)
    → all_unique (l ++ k ∷ []) ≡ (all_unique l && not (is_linked k.pool_id k.proxy_id l))
unfolding is_linked
all_unique-append k [] = refl
all_unique-append k (j ∷ l) =
    ground (arith, is_linked-append j.pool_id j.proxy_id l (k ∷ []), all_unique-append k l)

is_linked-with_link :
    (proxies : List Proxy) (pool id : ℕ) (links : List PoolProxy) (other q : ℕ)
    → is_linked other q (with_link proxies pool id links)
      ≡ (is_linked other q links || (other == pool && (id == q && exists q proxies)))
unfolding is_linked
is_linked-with_link proxies pool id links other q =
    ground (arith, is_linked-append other q links (new_link pool id ∷ []))

is_linked-add_links :
    (proxies : List Proxy) (pool : ℕ) (ids : List ℕ) (links : List PoolProxy) (other q : ℕ)
    → is_linked other q (add_links proxies pool ids links).0
      ≡ (is_linked other q links || (other == pool && has q ids && exists q proxies))
unfolding add_links
is_linked-add_links proxies pool [] links other q = ground arith
is_linked-add_links proxies pool (id ∷ ids) links other q =
    is_linked-add_links proxies pool ids (with_link proxies pool id links) other q
    ∙ ground (arith, is_linked-with_link proxies pool id links other q)

length-add_links :
    (proxies : List Proxy) (pool : ℕ) (ids : List ℕ) (links : List PoolProxy)
    → length (add_links proxies pool ids links).0
      ≡ length links + (add_links proxies pool ids links).1
unfolding add_links
length-add_links proxies pool [] links = omega arith
length-add_links proxies pool (id ∷ ids) links =
    length-add_links proxies pool ids (with_link proxies pool id links)
    ∙ ground (arith, length-append links (new_link pool id ∷ []))

all_unique-add_links :
    (proxies : List Proxy) (pool : ℕ) (ids : List ℕ) (links : List PoolProxy)
    → all_unique links ≡ true
    → all_unique (add_links proxies pool ids links).0 ≡ true
unfolding add_links
all_unique-add_links proxies pool [] links h = h
all_unique-add_links proxies pool (id ∷ ids) links h =
    all_unique-add_links proxies pool ids (with_link proxies pool id links)
      (ground (arith, all_unique-append (new_link pool id) links))

-- After the loop a pool holds a proxy exactly if it did before, or if the pool is the one of the
-- request, the proxy is asked for and has a row; as many links are new as are counted; and no
-- proxy is twice in a pool if none was.
pub add_links_lem :
    (proxies : List Proxy) (pool : ℕ) (ids : List ℕ) (links : List PoolProxy) (other id : ℕ)
    → all_unique links ≡ true
    → let (links', added) = add_links proxies pool ids links in
      (is_linked other id links'
        ≡ (is_linked other id links || (other == pool && has id ids && exists id proxies)))
      × (length links' ≡ length links + added)
      × (all_unique links' ≡ true)
add_links_lem proxies pool ids links other id h = (
  is_linked-add_links proxies pool ids links other id,
  length-add_links proxies pool ids links,
  all_unique-add_links proxies pool ids links h,
)
