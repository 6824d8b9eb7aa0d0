-- ===== src/Socks5/Server.antt =====
-- `handle_socks5_client` of src/proxy/socks5_proxy.py as a whole: the handshake, the choice of the
-- upstream, the connection through it and the reply. The bytes that the client sent are an argument;
-- the relay stands in Relay.
pub mod Access
pub mod Relay
use proxysm.Base.{
  ℕ, Bool, true, false, Option, none, some, List, [], ◌∷◌, ◌++◌, ◌==◌, if◌then◌else◌,
}
use proxysm.Base.Int.{pos}
use proxysm.Text.{Text, codes, text_eq, has, has_text}
use proxysm.Redis.{Redis}
use proxysm.Auth.{Db, Entry, socks_authenticate}
use proxysm.Rotation.Engine.{Upstream, Result, ok, pool_exhausted, get_next_proxy}
use proxysm.HttpProxy.{Codec}
use proxysm.HttpProxy.Connect.{Dialer, url_of, connect_request}
use proxysm.Socks5.{Ending, closed, incomplete, request, read_exactly, socks5_reply, handshake}

abbrev pub Cache : Type 0
Cache = List (Text × Entry (ℕ × Text))

-- How the call ends: without a tunnel, or with the relay between the client and the host and port,
-- through an upstream. The bytes are those that the client sent behind its request.
pub data Served : Type 0 where
  ended : Served
  relayed : Upstream → Text → ℕ → List ℕ → Served

-- Step 6: whether the tunnel through the upstream is there. Nothing is sent over TLS.
unfoldable pub connects : Codec → Dialer → Text → ℕ → Upstream → Bool
unfolding connect_request
connects c net host port up =
    if text_eq up.protocol (codes "socks5")
    then net.socks_connect (url_of (codes "socks5") up) host (pos port)
    else (elim (net.connect_reply up.host up.port false
        (c.encode (connect_request c host (pos port) up))) [
          | none ↦ false
          | some line ↦ has_text (codes "200") line
        ])

module _ (decode : List ℕ → Text) where
  -- The credentials that the server reads, if it comes to that.
  unfoldable pub sent_password : Text → List ℕ → Option (Text × Text)
  unfolding read_exactly
  sent_password username [] = none
  sent_password username (plen ∷ bytes) = elim (read_exactly plen bytes) [
    | none ↦ none
    | some (password, rest) ↦ some (username, decode password)
  ]

  unfoldable pub sent_username : List ℕ → Option (Text × Text)
  unfolding read_exactly sent_password
  sent_username (version ∷ ulen ∷ bytes) =
      if version == 1
      then (elim (read_exactly ulen bytes) [
        | none ↦ none
        | some (username, rest) ↦ sent_password (decode username) rest
      ])
      else none
  sent_username _ = none

  unfoldable pub sent_credentials : List ℕ → Option (Text × Text)
  unfolding read_exactly sent_username
  sent_credentials (version ∷ nmethods ∷ bytes) =
      if version == 5
      then (elim (read_exactly nmethods bytes) [
        | none ↦ none
        | some (methods, rest) ↦ if has 2 methods then sent_username rest else none
      ])
      else none
  sent_credentials _ = none

module _ (sha256 : Text → Text) (db : Db) (tick : ℕ) where
  -- The lookup that the handshake makes, on the cache at that time.
  abbrev pub answers : Cache → Text → Text → Option (ℕ × Text)
  unfolding socks_authenticate
  answers cache username password = (socks_authenticate sha256 db username password tick cache).0

  -- The cache once the credentials are looked up.
  abbrev pub cache_after : Cache → Option (Text × Text) → Cache
  unfolding socks_authenticate
  cache_after cache none = cache
  cache_after cache (some (username, password)) =
      (socks_authenticate sha256 db username password tick cache).1

module _ (c : Codec) (net : Dialer) (R : Redis) (draw_index draw_weight : ℕ → ℕ) (t : ℕ) where
  open R use {Store}

  -- Steps 6 and 7.
  abbrev pub through : Text → ℕ → List ℕ → Upstream → List ℕ × Served
  unfolding connects
  through host port rest up =
      if connects c net host port up
      then (socks5_reply 0, relayed up host port rest)
      else (socks5_reply 1, ended)

  abbrev pub routed : Text → ℕ → List ℕ → Result Upstream × Store → (List ℕ × Served) × Store
  unfolding through
  routed host port rest (pool_exhausted, s) = ((socks5_reply 1, ended), s)
  routed host port rest (ok up, s) = (through host port rest up, s)

  -- Steps 5 to 7, for a pool and its strategy.
  unfoldable pub serve : ℕ × Text → Text → ℕ → List ℕ → Store → (List ℕ × Served) × Store
  unfolding get_next_proxy routed
  serve (pool, strategy) host port rest s =
      routed host port rest (get_next_proxy R draw_index draw_weight pool strategy none t s)

  -- What is written after `out` was.
  abbrev pub written_after : List ℕ → (List ℕ × Served) × Store → (List ℕ × Served) × Store
  written_after out ((more, served), s) = ((out ++ more, served), s)

  unfoldable pub serve_ending : List ℕ × Ending (ℕ × Text) → Store → (List ℕ × Served) × Store
  unfolding serve
  serve_ending (out, closed) s = ((out, ended), s)
  serve_ending (out, incomplete) s = ((out, ended), s)
  serve_ending (out, request a host port rest) s = written_after out (serve a host port rest s)

  module _ (decode : List ℕ → Text) (sha256 : Text → Text) (db : Db) (tick : ℕ) where
    -- What is written, how the call ends, and the cache and Redis behind it; `t` is the time of
    -- Redis, `tick` the clock of the cache.
    unfoldable pub handle_socks5_client :
        List ℕ → Cache → Store → ((List ℕ × Served) × Store) × Cache
    unfolding handshake serve_ending sent_credentials
    handle_socks5_client bytes cache s = (
      serve_ending (handshake decode (answers sha256 db tick cache) bytes) s,
      cache_after sha256 db tick cache (sent_credentials decode bytes),
    )
