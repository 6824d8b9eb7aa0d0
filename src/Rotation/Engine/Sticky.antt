-- ===== src/Rotation/Engine/Sticky.antt =====
-- Sticky sessions of src/rotation/engine.py.
use proxysm.Base.{
  ℕ, ◌+◌, ◌*◌, ◌≡◌, refl, ap, String, false, some, arith, str_eq, if◌then◌else◌, ltb,
}
use text.Mathlib.TextPositions.{eq_refl}
use proxysm.Text.{Text}
use proxysm.Redis.{Key, key_eq, health, info, sticky, number, str, missing, hash_of, is_dead, Redis}
use proxysm.Rotation.{dead_in}
use proxysm.Rotation.Engine.{
  proxy_dict_of, build_proxy_dict, rotate, pinned, get_next_proxy, set_sticky_session,
}

module _ (R : Redis) (draw_index draw_weight : ℕ → ℕ) (pool : ℕ) (key : String) (id ttl t : ℕ)
    (s : R.Store) where
  open R use {Store, read, read-set}

  abbrev after : Store
  after = set_sticky_session R pool key id ttl t s

  read_sticky :
      (u : ℕ)
      → read after u (sticky pool key)
        ≡ (if ltb u (t + ttl * 1000) then str (number id) else missing)
  unfolding set_sticky_session
  read_sticky u =
      rw (read-set (sticky pool key) (number id) (some ttl) t s u (sticky pool key))
        (ground (arith, eq_refl key))

  read_other : (j : Key) (u : ℕ) → key_eq (sticky pool key) j ≡ false → read after u j ≡ read s u j
  unfolding set_sticky_session
  read_other j u h = rw (read-set (sticky pool key) (number id) (some ttl) t s u j, h)

  build_after : (u : ℕ) → build_proxy_dict R id u after ≡ build_proxy_dict R id u s
  unfolding build_proxy_dict
  build_after u = ap (λ d. proxy_dict_of id (hash_of d)) (read_other (info id) u refl)

  -- After a session was pinned, and until its time is over, a call for the session returns the
  -- pinned proxy and leaves the store alone, if the key is not empty and the proxy not dead; it
  -- rotates if the proxy is dead, and from the end of the time on.
  pub sticky_session :
      (strategy : Text) (u : ℕ)
      → str_eq key "" ≡ false
      → get_next_proxy R draw_index draw_weight pool strategy (some key) u after ≡ (
          if ltb u (t + ttl * 1000)
          then (if dead_in R u s id
              then rotate R draw_index draw_weight pool strategy u after
              else (build_proxy_dict R id u s, after))
          else rotate R draw_index draw_weight pool strategy u after)
  unfolding get_next_proxy pinned
  sticky_session strategy u nonempty =
      let same : dead_in R u after id ≡ dead_in R u s id =
        ap is_dead (read_other (health id) u refl) in
      let same_info : build_proxy_dict R id u after ≡ build_proxy_dict R id u s = build_after u in
      ground (arith, read_sticky u, same, same_info)
