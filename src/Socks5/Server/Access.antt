-- ===== src/Socks5/Server/Access.antt =====
-- Who gets a tunnel from the SOCKS5 server (src/proxy/socks5_proxy.py), and what it gets.
use proxysm.Base.{
  ℕ, ◌≡◌, refl, sym, ap, ◌∙◌, Bool, true, false, not, ◌||◌, Option, none, some, List, [], ◌∷◌, ◌++◌,
  ◌==◌, Bool-cases, Option-cases, inl, inr,
}
use proxysm.Base.Int.{pos}
use proxysm.Text.{Text, codes, text_eq, has, has_text}
use proxysm.Redis.{Redis}
use proxysm.Rotation.{dead_in}
use proxysm.Rotation.Engine.{Upstream, Result, ok, pool_exhausted, get_next_proxy}
use proxysm.Rotation.Engine.Alive.{get_next_proxy-alive}
use proxysm.Auth.{Db, socks_grant, look_up, socks_authenticate}
use proxysm.Auth.Cache.{IsSound, authenticate_lem}
use proxysm.HttpProxy.{Codec}
use proxysm.HttpProxy.Connect.{Dialer, Tunnel, established, url_of, connect_request, dial}
use proxysm.Socks5.{
  Ending, closed, incomplete, request, read_exactly, socks5_reply, dotted, colon_groups,
  after_writing, read_port, read_domain, read_address, read_request, check_credentials,
  read_password, read_credentials, handshake,
}
use proxysm.Socks5.Request.{client, handshake-client}
use proxysm.Socks5.Server.{
  Cache, Served, ended, relayed, connects, sent_password, sent_username, sent_credentials, routed,
  serve, written_after, serve_ending, answers, cache_after, handle_socks5_client,
}

module _ {A : Type 0} where
  -- If the handshake ends with a request, `out` was written and `P` holds of what was granted.
  abbrev Grants : List ℕ → (A → Type 0) → List ℕ × Ending A → Type 0
  Grants out P (w, closed) = Unit
  Grants out P (w, incomplete) = Unit
  Grants out P (w, request a host port rest) = (w ≡ out) × P a

  after_writing-Grants :
      (pre out : List ℕ) (P : A → Type 0) (x : List ℕ × Ending A)
      → Grants out P x
      → Grants (pre ++ out) P (after_writing pre x)
  after_writing-Grants pre out P (w, closed) h = tt
  after_writing-Grants pre out P (w, incomplete) h = tt
  after_writing-Grants pre out P (w, request a host port rest) (e, p) = (ap (λ x. pre ++ x) e, p)

module _ {A : Type 0} (decode : List ℕ → Text) (P : A → Type 0) (a : A) (p : P a) where
  read_port-Grants : (host : Text) (bytes : List ℕ) → Grants [] P (read_port decode a host bytes)
  unfolding read_port
  read_port-Grants host bytes = go (read_exactly 2 bytes) refl
    where
      go :
          (o : Option (List ℕ × List ℕ))
          → read_exactly 2 bytes ≡ o
          → Grants [] P (read_port decode a host bytes)
      go none e = rw (e, read_port) tt
      go (some ([], r)) e = rw (e, read_port) tt
      go (some (x ∷ [], r)) e = rw (e, read_port) tt
      go (some (x ∷ y ∷ [], r)) e = rw (e, read_port) (refl, p)
      go (some (x ∷ y ∷ z ∷ l, r)) e = rw (e, read_port) tt

  read_domain-Grants : (bytes : List ℕ) → Grants [] P (read_domain decode a bytes)
  unfolding read_domain read_port
  read_domain-Grants [] = tt
  read_domain-Grants (len ∷ bytes) = elim (Option-cases (read_exactly len bytes)) [
    | inl e ↦ rw (e, read_domain) tt
    | inr ((name, rest), e) ↦ rw (e, read_domain) (read_port-Grants (decode name) rest)
  ]

  read_address-Grants : (atyp : ℕ) (bytes : List ℕ) → Grants [] P (read_address decode a atyp bytes)
  unfolding read_address
  read_address-Grants atyp bytes = elim (Bool-cases (atyp == 1)) [
    | inl v4 ↦ elim (Option-cases (read_exactly 4 bytes)) [
      | inl e ↦ rw (v4, e, read_address) tt
      | inr ((raw, rest), e) ↦ rw (v4, e, read_address) (read_port-Grants (dotted raw) rest)
    ]
    | inr n4 ↦ elim (Bool-cases (atyp == 3)) [
      | inl name ↦ rw (n4, name, read_address) (read_domain-Grants bytes)
      | inr other ↦ elim (Bool-cases (atyp == 4)) [
        | inl v6 ↦ elim (Option-cases (read_exactly 16 bytes)) [
          | inl e ↦ rw (n4, other, v6, e, read_address) tt
          | inr ((raw, rest), e) ↦
              rw (n4, other, v6, e, read_address) (read_port-Grants (colon_groups raw) rest)
        ]
        | inr n6 ↦ rw (n4, other, n6, read_address) tt
      ]
    ]
  ]

  read_request-Grants : (bytes : List ℕ) → Grants [] P (read_request decode a bytes)
  unfolding read_request
  read_request-Grants [] = tt
  read_request-Grants (ver ∷ []) = tt
  read_request-Grants (ver ∷ cmd ∷ []) = tt
  read_request-Grants (ver ∷ cmd ∷ rsv ∷ []) = tt
  read_request-Grants (ver ∷ cmd ∷ rsv ∷ atyp ∷ bytes) =
      elim (Bool-cases (not (ver == 5) || not (cmd == 1))) [
        | inl e ↦ rw (e, read_request) tt
        | inr e ↦ rw (e, read_request) (read_address-Grants atyp bytes)
      ]

module _ {A : Type 0} (decode : List ℕ → Text) (authenticate : Text → Text → Option A) where
  -- What was granted is the answer at the credentials that were sent.
  abbrev Answers : Option (Text × Text) → A → Type 0
  Answers o a =
      (username : Text) × (password : Text) × (o ≡ some (username, password))
      × (authenticate username password ≡ some a)

  read_password-Grants :
      (username : Text) (bytes : List ℕ)
      → Grants
          (1 ∷ 0 ∷ [])
          (Answers (sent_password decode username bytes))
          (read_password decode authenticate username bytes)
  unfolding read_password sent_password check_credentials
  read_password-Grants username [] = tt
  read_password-Grants username (plen ∷ bytes) = elim (Option-cases (read_exactly plen bytes)) [
    | inl e ↦ rw (e, read_password) tt
    | inr ((password, rest), e) ↦ elim (Option-cases (authenticate username (decode password))) [
      | inl f ↦ rw (e, read_password) (rw (f, check_credentials) tt)
      | inr (a, f) ↦
          let sent : sent_password decode username (plen ∷ bytes)
              ≡ some (username, decode password) =
            rw (e, sent_password) refl in
          let reads : read_password decode authenticate username (plen ∷ bytes)
              ≡ after_writing (1 ∷ 0 ∷ []) (read_request decode a rest) =
            rw (e, read_password) (rw (f, check_credentials) refl) in
          rw reads (
            after_writing-Grants (1 ∷ 0 ∷ []) []
              (Answers (sent_password decode username (plen ∷ bytes))) (read_request decode a rest)
              (read_request-Grants decode (Answers (sent_password decode username (plen ∷ bytes))) a
                (username, decode password, sent, f) rest))
    ]
  ]

  read_credentials-Grants :
      (bytes : List ℕ)
      → Grants
          (1 ∷ 0 ∷ [])
          (Answers (sent_username decode bytes))
          (read_credentials decode authenticate bytes)
  unfolding read_credentials sent_username
  read_credentials-Grants [] = tt
  read_credentials-Grants (version ∷ []) = elim (Bool-cases (version == 1)) [
    | inl e ↦ rw (e, read_credentials) tt
    | inr e ↦ rw (e, read_credentials) tt
  ]
  read_credentials-Grants (version ∷ ulen ∷ bytes) = elim (Bool-cases (version == 1)) [
    | inr v ↦ rw (v, read_credentials) tt
    | inl v ↦ elim (Option-cases (read_exactly ulen bytes)) [
      | inl e ↦ rw (v, e, read_credentials) tt
      | inr ((username, rest), e) ↦
          rw (v, e, read_credentials, sent_username) (read_password-Grants (decode username) rest)
    ]
  ]

  handshake-Grants :
      (bytes : List ℕ)
      → Grants
          (5 ∷ 2 ∷ 1 ∷ 0 ∷ [])
          (Answers (sent_credentials decode bytes))
          (handshake decode authenticate bytes)
  unfolding handshake sent_credentials
  handshake-Grants [] = tt
  handshake-Grants (version ∷ []) = tt
  handshake-Grants (version ∷ nmethods ∷ bytes) = elim (Bool-cases (version == 5)) [
    | inr v ↦ rw (v, handshake) tt
    | inl v ↦ elim (Option-cases (read_exactly nmethods bytes)) [
      | inl e ↦ rw (v, e, handshake) tt
      | inr ((methods, rest), e) ↦ elim (Bool-cases (has 2 methods)) [
        | inr m ↦ rw (v, e, m, handshake) tt
        | inl m ↦
            rw (v, e, m, handshake, sent_credentials)
              (after_writing-Grants (5 ∷ 2 ∷ []) (1 ∷ 0 ∷ []) (Answers (sent_username decode rest))
                (read_credentials decode authenticate rest) (read_credentials-Grants rest))
      ]
    ]
  ]

abbrev pub is_established : Tunnel → Bool
is_established established = true
is_established _ = false

-- The network as one sees it who never asks for TLS.
abbrev pub without_tls : Dialer → Dialer
without_tls net = record net {
  connect_reply = λ host port tls bytes. net.connect_reply host port false bytes;
}

-- The SOCKS5 server gets its tunnel exactly where the HTTP proxy would get one for the same host,
-- port and upstream if it never used TLS.
pub connects-dial :
    (c : Codec) (net : Dialer) (host : Text) (port : ℕ) (up : Upstream)
    → connects c net host port up ≡ is_established (dial c (without_tls net) host (pos port) up)
unfolding connects dial
connects-dial c net host port up = elim (Bool-cases (text_eq up.protocol (codes "socks5"))) [
  | inl e ↦ elim (Bool-cases (net.socks_connect (url_of (codes "socks5") up) host (pos port))) [
    | inl f ↦ rw (e, connects, dial, f) refl
    | inr f ↦ rw (e, connects, dial, f) refl
  ]
  | inr e ↦
      elim (Option-cases (
        net.connect_reply up.host up.port false
          (c.encode (connect_request c host (pos port) up)))) [
            | inl f ↦ rw (e, connects, dial, f) refl
            | inr (line, f) ↦ elim (Bool-cases (has_text (codes "200") line)) [
              | inl g ↦ rw (e, connects, dial, f, g) refl
              | inr g ↦ rw (e, connects, dial, f, g) refl
            ]
          ]
]

module _ (c : Codec) (net : Dialer) (R : Redis) (draw_index draw_weight : ℕ → ℕ) (t : ℕ)
    (decode : List ℕ → Text) (sha256 : Text → Text) (db : Db) (tick : ℕ) where
  open R use {Store}

  -- A tunnel was made for credentials that were sent and that the tables accept, through the upstream
  -- that the rotation gives for their pool, which is not dead and let the connection through; the
  -- client was told of it.
  abbrev pub IsServed : Option (Text × Text) → Store → List ℕ × Served → Type 0
  IsServed sent s (written, ended) = Unit
  IsServed sent s (written, relayed up host port rest) =
      (username : Text) × (password : Text) × (g : ℕ × Text) × (sent ≡ some (username, password))
      × (look_up sha256 socks_grant db username password ≡ some g)
      × ((get_next_proxy R draw_index draw_weight g.0 g.1 none t s).0 ≡ ok up)
      × (dead_in R t s up.id ≡ false)
      × (connects c net host port up ≡ true)
      × (written ≡ (5 ∷ 2 ∷ 1 ∷ 0 ∷ []) ++ socks5_reply 0)

  serve-IsServed :
      (sent : Option (Text × Text)) (username password : Text) (g : ℕ × Text) (host : Text)
      (port : ℕ) (rest out : List ℕ) (s : Store)
      → sent ≡ some (username, password)
      → look_up sha256 socks_grant db username password ≡ some g
      → out ≡ 5 ∷ 2 ∷ 1 ∷ 0 ∷ []
      → IsServed sent s
          (written_after c net R draw_index draw_weight t out
            (serve c net R draw_index draw_weight t g host port rest s)).0
  unfolding serve
  serve-IsServed sent username password (pool, strategy) host port rest out s is_sent accepted o =
      let next = get_next_proxy R draw_index draw_weight pool strategy none t s in
      go next.0 next.1 refl
    where
      go :
          (found : Result Upstream) (s' : Store)
          → (get_next_proxy R draw_index draw_weight pool strategy none t s).0 ≡ found
          → IsServed sent s
              (written_after c net R draw_index draw_weight t out
                (routed c net R draw_index draw_weight t host port rest (found, s'))).0
      go pool_exhausted s' e = tt
      go (ok up) s' e = elim (Bool-cases (connects c net host port up)) [
        | inl there ↦ rw there (
          username,
          password,
          (pool, strategy),
          is_sent,
          accepted,
          e,
          get_next_proxy-alive R draw_index draw_weight pool strategy none t s up e,
          there,
          ap (λ w. w ++ socks5_reply 0) o,
        )
        | inr off ↦ rw off tt
      ]

  cache_after-IsSound :
      ((k l : Text) → sha256 k ≡ sha256 l → k ≡ l)
      → (sent : Option (Text × Text)) (cache : Cache) → IsSound sha256 socks_grant db cache
      → IsSound sha256 socks_grant db (cache_after sha256 db tick cache sent)
  unfolding socks_authenticate
  cache_after-IsSound injective none cache sound = sound
  cache_after-IsSound injective (some (username, password)) cache sound =
      (authenticate_lem sha256 socks_grant db injective username password tick cache sound).1

  answers-look_up :
      ((k l : Text) → sha256 k ≡ sha256 l → k ≡ l)
      → (username password : Text) (cache : Cache) → IsSound sha256 socks_grant db cache
      → answers sha256 db tick cache username password
        ≡ look_up sha256 socks_grant db username password
  unfolding socks_authenticate
  answers-look_up injective username password cache sound =
      (authenticate_lem sha256 socks_grant db injective username password tick cache sound).0

  serve_ending-IsServed :
      ((k l : Text) → sha256 k ≡ sha256 l → k ≡ l)
      → (sent : Option (Text × Text)) (cache : Cache) (x : List ℕ × Ending (ℕ × Text)) (s : Store)
      → IsSound sha256 socks_grant db cache
      → Grants (5 ∷ 2 ∷ 1 ∷ 0 ∷ []) (Answers decode (answers sha256 db tick cache) sent) x
      → IsServed sent s (serve_ending c net R draw_index draw_weight t x s).0
  unfolding serve_ending
  serve_ending-IsServed injective sent cache (out, closed) s sound h = tt
  serve_ending-IsServed injective sent cache (out, incomplete) s sound h = tt
  serve_ending-IsServed injective sent cache (out, request g host port rest) s sound
        (o, (username, password, is_sent, answer)) =
      serve-IsServed sent username password g host port rest out s is_sent
        (sym (answers-look_up injective username password cache sound) ∙ answer) o

  -- Whatever bytes a client sends, a tunnel is made only for credentials among them that the tables
  -- accept, only through an upstream that the rotation gives for their pool, that is not dead and
  -- that let the connection through, and the client is told of exactly that; and the cache of
  -- credentials stays sound. The cache is sound before, and the hash is injective.
  pub handle_socks5_client-IsServed :
      ((k l : Text) → sha256 k ≡ sha256 l → k ≡ l)
      → (bytes : List ℕ) (cache : Cache) (s : Store) → IsSound sha256 socks_grant db cache
      → let (answer, cache') =
          handle_socks5_client c net R draw_index draw_weight t decode sha256 db tick bytes cache
            s in
        IsServed (sent_credentials decode bytes) s answer.0 × IsSound sha256 socks_grant db cache'
  unfolding handle_socks5_client
  handle_socks5_client-IsServed injective bytes cache s sound =
      let sent = sent_credentials decode bytes in
      (
        serve_ending-IsServed injective sent cache
            (handshake decode (answers sha256 db tick cache) bytes) s sound
            (handshake-Grants decode (answers sha256 db tick cache) bytes),
        cache_after-IsSound injective sent cache sound,
      )

  -- A client that speaks SOCKS5 and sends credentials that the tables accept is served the host and
  -- the port that it asks for, from the pool of these credentials, whatever it sends behind: the call
  -- is the choice of the upstream and the connection, behind the four bytes of the login. The cache
  -- is sound, and the hash is injective.
  pub handle_socks5_client-client :
      ((k l : Text) → sha256 k ≡ sha256 l → k ≡ l)
      → (user pass host rest : List ℕ) (port : ℕ) (g : ℕ × Text) (cache : Cache) (s : Store)
      → IsSound sha256 socks_grant db cache
      → look_up sha256 socks_grant db (decode user) (decode pass) ≡ some g
      → (handle_socks5_client c net R draw_index draw_weight t decode sha256 db tick
          (client user pass host port rest)
          cache
          s).0
        ≡ written_after c net R draw_index draw_weight t
            (5 ∷ 2 ∷ 1 ∷ 0 ∷ [])
            (serve c net R draw_index draw_weight t g (decode host) port rest s)
  unfolding handle_socks5_client serve_ending
  handle_socks5_client-client injective user pass host rest port g cache s sound accepted =
      let answer = answers-look_up injective (decode user) (decode pass) cache sound ∙ accepted in
      ap (λ x. serve_ending c net R draw_index draw_weight t x s)
        (handshake-client decode (answers sha256 db tick cache) user pass host rest port g answer)
