-- ===== src/Health/Frame.antt =====
-- What a check and the record of its result leave under the keys of the health checker.
use proxysm.Base.{ℕ, ◌≡◌, refl, ◌∙◌, false, Option, none, some, arith, or_else}
use proxysm.Text.{Text}
use proxysm.Models.{unknown, Proxy, Settings}
use proxysm.Redis.{
  Key, key_eq, Value, Fields, health, info, external_ip, next_check, status, word, Redis,
}
use proxysm.Health.{Checked}
use proxysm.Health.Cycle.{info_fields, store_ip, record_result}

module _ (R : Redis) (cfg : Settings) where
  open R use {
    Store, read, set, del, incr, hset, read-set, read-del, incr_reply, read-incr, read-hset,
  }

  pub read-set_ne :
      (k j : Key) (v : Value) (ex : Option ℕ) (t u : ℕ) (s : Store)
      → key_eq k j ≡ false
      → read (set k v ex t s) u j ≡ read s u j
  read-set_ne k j v ex t u s h = rw (read-set k v ex t s u j, h)

  pub read-del_ne :
      (k j : Key) (u : ℕ) (s : Store) → key_eq k j ≡ false → read (del k s) u j ≡ read s u j
  read-del_ne k j u s h = rw (read-del k s u j, h)

  pub read-incr_ne :
      (k j : Key) (t u : ℕ) (s : Store) → key_eq k j ≡ false → read (incr k t s).1 u j ≡ read s u j
  read-incr_ne k j t u s h = rw (read-incr k t s u j, h)

  pub read-hset_ne :
      (k j : Key) (m : Fields) (t u : ℕ) (s : Store)
      → key_eq k j ≡ false
      → read (hset k m t s) u j ≡ read s u j
  read-hset_ne k j m t u s h = rw (read-hset k m t s u j, h)

  pub read-store_ip :
      (id : ℕ) (ip : Option Text) (t u : ℕ) (s : Store) (j : Key)
      → key_eq (external_ip id) j ≡ false
      → read (store_ip R cfg id ip t s) u j ≡ read s u j
  unfolding store_ip
  read-store_ip id none t u s j h = refl
  read-store_ip id (some ip) t u s j h =
      ground (arith, read-set_ne (external_ip id) j (word ip) (some 3600) t u s h)

  -- `record_result` writes four keys of its proxy and no other.
  pub record_result-frame :
      (p : Proxy) (result : Option Checked) (jitter t : ℕ) (s : Store) (u : ℕ) (j : Key)
      → key_eq (health p.id) j ≡ false
      → key_eq (info p.id) j ≡ false
      → key_eq (external_ip p.id) j ≡ false
      → key_eq (next_check p.id) j ≡ false
      → read (record_result R cfg p result jitter t s).2 u j ≡ read s u j
  unfolding record_result
  record_result-frame p result jitter t s u j h1 h2 h3 h4 =
      let (new, latency, ip) = or_else result (unknown, 0, none) in
      let s1 = set (health p.id) (status new) (some 120) t s in
      let s2 = hset (info p.id) (info_fields p) t s1 in
      read-set_ne (next_check p.id) j _ _ t u _ h4
      ∙ read-store_ip p.id ip t u s2 j h3
      ∙ read-hset_ne (info p.id) j (info_fields p) t u s1 h2
      ∙ read-set_ne (health p.id) j (status new) (some 120) t u s h1
