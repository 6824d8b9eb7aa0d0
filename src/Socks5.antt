-- ===== src/Socks5.antt =====
-- The handshake of `handle_socks5_client` (src/proxy/socks5_proxy.py): the bytes that the client
-- sent are an argument, `decode` is `bytes.decode("utf-8", errors="replace")`, and `authenticate`
-- is the lookup of the credentials at that time.
pub mod Request
pub mod Server
mod Tests
use proxysm.Base.{
  ℕ, zero, suc, ◌+◌, ◌*◌, ◌/◌, ◌%◌, Bool, true, false, not, ◌||◌, Option, none, some, List, [], ◌∷◌,
  ◌++◌, ltb, ◌==◌, if◌then◌else◌,
}
use proxysm.Text.{Text, has}

-- How the handshake ends: the connection is closed, it ends before the bytes that are awaited, or
-- the client asks for a host and a port, with what follows.
pub data Ending (A : Type 0) : Type 0 where
  closed : Ending A
  incomplete : Ending A
  request : A → Text → ℕ → List ℕ → Ending A

-- `reader.readexactly(n)`: the bytes, and the rest.
unfoldable pub read_exactly : ℕ → List ℕ → Option (List ℕ × List ℕ)
read_exactly zero bytes = some ([], bytes)
read_exactly (suc n) [] = none
read_exactly (suc n) (b ∷ bytes) = elim (read_exactly n bytes) [
  | none ↦ none
  | some (taken, rest) ↦ some (b ∷ taken, rest)
]

-- `_build_socks5_reply` with its defaults
abbrev pub socks5_reply : ℕ → List ℕ
socks5_reply rep = 5 ∷ rep ∷ 0 ∷ 1 ∷ 0 ∷ 0 ∷ 0 ∷ 0 ∷ 0 ∷ 0 ∷ []

-- `str(b)` of a byte
unfoldable pub decimal : ℕ → Text
decimal n =
    if ltb n 10
    then (n + b'0') ∷ []
    else if ltb n 100
    then (n / 10 + b'0') ∷ (n % 10 + b'0') ∷ []
    else (n / 100 + b'0') ∷ (n / 10 % 10 + b'0') ∷ (n % 10 + b'0') ∷ []

unfoldable pub dotted : List ℕ → Text
unfolding decimal
dotted [] = []
dotted (b ∷ []) = decimal b
dotted (b ∷ bytes) = decimal b ++ b'.' ∷ dotted bytes

abbrev pub hex_digit : ℕ → ℕ
hex_digit n = if ltb n 10 then n + b'0' else n + 87

-- f"{b:02x}"
abbrev pub hex_byte : ℕ → Text
hex_byte b = hex_digit (b / 16) ∷ hex_digit (b % 16) ∷ []

unfoldable pub colon_groups : List ℕ → Text
colon_groups (a ∷ b ∷ []) = hex_byte a ++ hex_byte b
colon_groups (a ∷ b ∷ bytes) = hex_byte a ++ (hex_byte b ++ b':' ∷ colon_groups bytes)
colon_groups _ = []

-- What is written after `out` was, and the ending.
abbrev pub after_writing {ℓ} : {A : Type ℓ} → List ℕ → List ℕ × A → List ℕ × A
after_writing out (more, a) = (out ++ more, a)

module _ {A : Type 0} (decode : List ℕ → Text) where
  -- `struct.unpack("!H", …)` of the port
  unfoldable pub read_port : A → Text → List ℕ → List ℕ × Ending A
  unfolding read_exactly
  read_port a host bytes = elim (read_exactly 2 bytes) [
    | some (hi ∷ lo ∷ [], rest) ↦ ([], request a host (hi * 256 + lo) rest)
    | _ ↦ ([], incomplete)
  ]

  -- A domain with its length before it.
  unfoldable pub read_domain : A → List ℕ → List ℕ × Ending A
  unfolding read_exactly read_port
  read_domain a [] = ([], incomplete)
  read_domain a (len ∷ bytes) = elim (read_exactly len bytes) [
    | none ↦ ([], incomplete)
    | some (name, rest) ↦ read_port a (decode name) rest
  ]

  unfoldable pub read_address : A → ℕ → List ℕ → List ℕ × Ending A
  unfolding read_exactly read_port read_domain dotted colon_groups
  read_address a atyp bytes =
      if atyp == 1
      then (elim (read_exactly 4 bytes) [
        | none ↦ ([], incomplete)
        | some (raw, rest) ↦ read_port a (dotted raw) rest
      ])
      else if atyp == 3
      then read_domain a bytes
      else if atyp == 4
      then (elim (read_exactly 16 bytes) [
        | none ↦ ([], incomplete)
        | some (raw, rest) ↦ read_port a (colon_groups raw) rest
      ])
      else (socks5_reply 1, closed)

  -- 4. Request
  unfoldable pub read_request : A → List ℕ → List ℕ × Ending A
  unfolding read_address
  read_request a (ver ∷ cmd ∷ rsv ∷ atyp ∷ bytes) =
      if not (ver == 5) || not (cmd == 1)
      then (socks5_reply 7, closed)
      else read_address a atyp bytes
  read_request a _ = ([], incomplete)

  module _ (authenticate : Text → Text → Option A) where
    -- The credentials were read.
    unfoldable pub check_credentials : Text → Text → List ℕ → List ℕ × Ending A
    unfolding read_request
    check_credentials username password bytes = elim (authenticate username password) [
      | none ↦ (1 ∷ 1 ∷ [], closed)
      | some a ↦ after_writing (1 ∷ 0 ∷ []) (read_request a bytes)
    ]

    unfoldable pub read_password : Text → List ℕ → List ℕ × Ending A
    unfolding read_exactly check_credentials
    read_password username [] = ([], incomplete)
    read_password username (plen ∷ bytes) = elim (read_exactly plen bytes) [
      | none ↦ ([], incomplete)
      | some (password, rest) ↦ check_credentials username (decode password) rest
    ]

    -- 3. Username/password auth
    unfoldable pub read_credentials : List ℕ → List ℕ × Ending A
    unfolding read_exactly read_password
    read_credentials [] = ([], incomplete)
    read_credentials (version ∷ []) = if version == 1 then ([], incomplete) else ([], closed)
    read_credentials (version ∷ ulen ∷ bytes) =
        if version == 1
        then (elim (read_exactly ulen bytes) [
          | none ↦ ([], incomplete)
          | some (username, rest) ↦ read_password (decode username) rest
        ])
        else ([], closed)

    -- 1. Greeting and 2. the choice of the method
    unfoldable pub handshake : List ℕ → List ℕ × Ending A
    unfolding read_exactly read_credentials
    handshake (version ∷ nmethods ∷ bytes) =
        if version == 5
        then (elim (read_exactly nmethods bytes) [
          | none ↦ ([], incomplete)
          | some (methods, rest) ↦
              if has 2 methods
              then after_writing (5 ∷ 2 ∷ []) (read_credentials rest)
              else (5 ∷ 255 ∷ [], closed)
        ])
        else ([], closed)
    handshake _ = ([], incomplete)
