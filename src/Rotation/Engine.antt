-- ===== src/Rotation/Engine.antt =====
-- The rotation engine (src/rotation/engine.py).
pub mod Alive
pub mod Sticky
pub mod Cache
use proxysm.Base.{ℕ, String, Bool, Option, none, some, List, [], ◌∷◌, str_eq, if◌then◌else◌}
use proxysm.Base.Int.{ℤ, pos, negsuc}
use proxysm.Text.{Text, text_eq, codes, is_empty}
use proxysm.Models.{Status}
use proxysm.Redis.{
  health, info, sticky, ratelimit, pool_proxies, pool_weighted, pool_connections, status, number,
  integer, word, Fields, str, hash_of, lookup, Redis,
}
use proxysm.Rotation.{
  dead_in, rotate_round_robin, rotate_random, rotate_weighted_random, rotate_least_connections,
  rate_limit_check,
}

-- The dict that `get_next_proxy` returns.
pub record Upstream : Type 0 where
  pub id : ℕ
  pub host : Text
  pub port : ℤ
  pub protocol : Text
  pub username : Option Text
  pub password : Option Text

-- `PoolExhaustedError`, or the result
pub data Result (A : Type 0) : Type 0 where
  ok : A → Result A
  pool_exhausted : Result A

-- `info.get(f, d)` of a text, and of a port through `int`
abbrev pub text_field : String → Text → Fields → Text
text_field f d m = elim (lookup f m) [ some (word v) ↦ v | _ ↦ d ]

abbrev pub port_field : String → Fields → ℤ
port_field f m = elim (lookup f m) [ some (integer n) ↦ n | _ ↦ pos 0 ]

-- `x or None`
abbrev pub or_none : Text → Option Text
or_none v = if is_empty v then none else some v

unfoldable pub proxy_dict : ℕ → Fields → Upstream
unfolding lookup
proxy_dict id m = record {
  id = id;
  host = text_field "host" [] m;
  port = port_field "port" m;
  protocol = text_field "protocol" (codes "http") m;
  username = or_none (text_field "username" [] m);
  password = or_none (text_field "password" [] m);
}

-- `if not info: raise PoolExhaustedError`
unfoldable pub proxy_dict_of : ℕ → Fields → Result Upstream
unfolding proxy_dict
proxy_dict_of id [] = pool_exhausted
proxy_dict_of id (f ∷ m) = ok (proxy_dict id (f ∷ m))

-- The mapping of `cache_proxy_info`.
pub record Info : Type 0 where
  pub host : Text
  pub port : ℤ
  pub protocol : Text
  pub username : Text
  pub password : Text

unfoldable pub info_mapping : Info → Fields
info_mapping i =
    ("host", word i.host)
    ∷ ("port", integer i.port)
    ∷ ("protocol", word i.protocol)
    ∷ ("username", word i.username)
    ∷ ("password", word i.password)
    ∷ []

module _ (R : Redis) where
  open R use {Store, read, set, del, rpush, zadd, zincrby, hset}

  unfoldable pub build_proxy_dict : ℕ → ℕ → Store → Result Upstream
  unfolding proxy_dict_of
  build_proxy_dict id t s = proxy_dict_of id (hash_of (read s t (info id)))

  -- The proxy that is pinned to a session and not dead.
  unfoldable pub pinned : ℕ → Option String → ℕ → Store → Option ℕ
  pinned pool none t s = none
  pinned pool (some key) t s = if str_eq key "" then none else elim (read s t (sticky pool key)) [
    | str (number id) ↦ if dead_in R t s id then none else some id
    | _ ↦ none
  ]

  -- What `math.random` draws in ROTATE_RANDOM and in ROTATE_WEIGHTED_RANDOM.
  module _ (draw_index draw_weight : ℕ → ℕ) where
    -- The chain of tests on the strategy; any other word is round robin.
    unfoldable pub run_strategy : ℕ → Text → ℕ → Store → Option ℕ × Store
    unfolding rotate_round_robin rotate_random rotate_weighted_random rotate_least_connections
    run_strategy pool strategy t s =
        if text_eq strategy (codes "random")
        then (rotate_random R draw_index (pool_proxies pool) t s, s)
        else if text_eq strategy (codes "weighted_random")
        then (rotate_weighted_random R draw_weight (pool_weighted pool) t s, s)
        else if text_eq strategy (codes "least_connections")
        then rotate_least_connections R (pool_connections pool) t s
        else rotate_round_robin R (pool_proxies pool) t s

    unfoldable pub rotate : ℕ → Text → ℕ → Store → Result Upstream × Store
    unfolding run_strategy build_proxy_dict
    rotate pool strategy t s =
        let (found, s') = run_strategy pool strategy t s in
        (elim found [ none ↦ pool_exhausted | some id ↦ build_proxy_dict id t s' ], s')

    unfoldable pub get_next_proxy : ℕ → Text → Option String → ℕ → Store → Result Upstream × Store
    unfolding pinned rotate
    get_next_proxy pool strategy session_key t s = elim (pinned pool session_key t s) [
      | some id ↦ (build_proxy_dict id t s, s)
      | none ↦ rotate pool strategy t s
    ]

  unfoldable pub sync_pool : ℕ → List ℕ → ℕ → Store → Store
  sync_pool pool [] t s = del (pool_proxies pool) s
  sync_pool pool (p ∷ ps) t s = rpush (pool_proxies pool) (p ∷ ps) t (del (pool_proxies pool) s)

  unfoldable pub sync_weighted_pool : ℕ → List (ℕ × ℕ) → ℕ → Store → Store
  sync_weighted_pool pool [] t s = del (pool_weighted pool) s
  sync_weighted_pool pool (p ∷ ps) t s =
      zadd (pool_weighted pool) (p ∷ ps) t (del (pool_weighted pool) s)

  unfoldable pub update_proxy_health : ℕ → Status → ℕ → Store → Store
  update_proxy_health id new t s = set (health id) (status new) (some 120) t s

  unfoldable pub cache_proxy_info : ℕ → Info → ℕ → Store → Store
  unfolding info_mapping
  cache_proxy_info id i t s = hset (info id) (info_mapping i) t s

  unfoldable pub check_rate_limit : ℕ → ℕ → ℕ → Store → Bool × Store
  unfolding rate_limit_check
  check_rate_limit project rpm_limit t s =
      rate_limit_check R (ratelimit project 60) rpm_limit 60 t s

  unfoldable pub track_connection : ℕ → ℕ → Bool → ℕ → Store → Store
  track_connection pool id increment t s =
      zincrby (pool_connections pool) (if increment then pos 1 else negsuc 0) id t s

  unfoldable pub set_sticky_session : ℕ → String → ℕ → ℕ → ℕ → Store → Store
  set_sticky_session pool session_key id ttl t s =
      set (sticky pool session_key) (number id) (some ttl) t s
