-- ===== src/Rotation/Engine/Cache.antt =====
-- `cache_proxy_info` and `_build_proxy_dict` of src/rotation/engine.py agree, and the lists that
-- `sync_pool` and `sync_weighted_pool` leave.
use proxysm.Base.{
  ℕ, ◌≡◌, refl, ap, ◌∙◌, String, some, List, [], ◌∷◌, arith, str_eq, eq_iff, if◌then◌else◌, ==_refl,
  Bool-cases, inl, inr,
}
use proxysm.Redis.{
  info, pool_proxies, Value, integer, word, Fields, Datum, hash, hash_of, list_of, touched, missing,
  lookup, put_field, put_fields, Redis,
}
use proxysm.Rotation.Engine.{
  Upstream, ok, or_none, proxy_dict, proxy_dict_of, Info, info_mapping, build_proxy_dict,
  cache_proxy_info, sync_pool,
}

pub lookup-put_field :
    (f g : String) (v : Value) (m : Fields)
    → lookup g (put_field f v m) ≡ (if str_eq f g then some v else lookup g m)
unfolding lookup put_field
lookup-put_field f g v [] = refl
lookup-put_field f g v ((j, w) ∷ m) =
    ground (arith, eq_iff f g, eq_iff j f, eq_iff j g, lookup-put_field f g v m)

proxy_dict_of-put_field :
    (id : ℕ) (f : String) (v : Value) (m : Fields)
    → proxy_dict_of id (put_field f v m) ≡ ok (proxy_dict id (put_field f v m))
unfolding proxy_dict_of put_field
proxy_dict_of-put_field id f v [] = refl
proxy_dict_of-put_field id f v ((j, w) ∷ m) = elim (Bool-cases (str_eq j f)) [
  | inl e ↦ rw e
  | inr e ↦ rw e
]

-- The dict of what was cached.
abbrev pub cached : ℕ → Info → Upstream
cached id i = record {
  id = id;
  host = i.host;
  port = i.port;
  protocol = i.protocol;
  username = or_none i.username;
  password = or_none i.password;
}

-- The five fields of a mapping.
abbrev HasFields : Info → Fields → Type 0
HasFields i m =
    (lookup "host" m ≡ some (word i.host))
    × (lookup "port" m ≡ some (integer i.port))
    × (lookup "protocol" m ≡ some (word i.protocol))
    × (lookup "username" m ≡ some (word i.username))
    × (lookup "password" m ≡ some (word i.password))

pub info_mapping-HasFields : (i : Info) (m : Fields) → HasFields i (put_fields (info_mapping i) m)
unfolding info_mapping put_fields
info_mapping-HasFields i m = (
  simp lookup-put_field,
  simp lookup-put_field,
  simp lookup-put_field,
  simp lookup-put_field,
  simp lookup-put_field,
)

pub proxy_dict-HasFields :
    (id : ℕ) (i : Info) (m : Fields) → HasFields i m → proxy_dict id m ≡ cached id i
unfolding proxy_dict
proxy_dict-HasFields id i m (h1, h2, h3, h4, h5) = ground arith

pub proxy_dict_of-put_fields :
    (id : ℕ) (i : Info) (m : Fields)
    → proxy_dict_of id (put_fields (info_mapping i) m)
      ≡ ok (proxy_dict id (put_fields (info_mapping i) m))
unfolding info_mapping put_fields
proxy_dict_of-put_fields id i m = proxy_dict_of-put_field id "password" (word i.password) (
    put_field "username" (word i.username) (
      put_field "protocol" (word i.protocol)
        (put_field "port" (integer i.port) (put_field "host" (word i.host) m))))

pub touched_self : (d : Datum) (m : Fields) → touched d d (hash m) ≡ hash m
touched_self missing m = refl
touched_self d m = refl

module _ (R : Redis) (t : ℕ) (s : R.Store) where
  open R use {read, read-hset, read-del, read-rpush, read-zadd}

  -- Whatever was cached for a proxy before, what is read after `cache_proxy_info` is what was
  -- cached last, an empty user name or password being read as none.
  pub build-cache :
      (id : ℕ) (i : Info) → build_proxy_dict R id t (cache_proxy_info R id i t s) ≡ ok (cached id i)
  unfolding build_proxy_dict cache_proxy_info
  build-cache id i =
      let fields = info_mapping i in
      let old = hash_of (read s t (info id)) in
      ap (λ d. proxy_dict_of id (hash_of d)) (read-hset (info id) fields t s t (info id))
      ∙ rw (==_refl id) (
          ap (λ d. proxy_dict_of id (hash_of d))
            (touched_self (read s t (info id)) (put_fields fields old)))
      ∙ proxy_dict_of-put_fields id i old
      ∙ ap ok (proxy_dict-HasFields id i (put_fields fields old) (info_mapping-HasFields i old))

  -- `sync_pool` leaves exactly the given list.
  pub read-sync_pool :
      (pool : ℕ) (ids : List ℕ) (u : ℕ)
      → list_of (read (sync_pool R pool ids t s) u (pool_proxies pool)) ≡ ids
  unfolding sync_pool
  read-sync_pool pool [] u = rw (read-del (pool_proxies pool) s u (pool_proxies pool), ==_refl pool)
  read-sync_pool pool (p ∷ ps) u =
      let k = pool_proxies pool in
      let gone : (v : ℕ) → read (R.del k s) v k ≡ missing =
        λ v. rw (read-del k s v k, ==_refl pool) in
      rw (read-rpush k (p ∷ ps) t (R.del k s) u k, ==_refl pool, gone t)
