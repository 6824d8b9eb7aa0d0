-- ===== src/HttpProxy.antt =====
-- The HTTP proxy server (src/proxy/http_proxy.py): a client is authenticated, an upstream proxy is
-- chosen for it, and its request is tunnelled or forwarded. A byte string is a list of codes.
pub mod Headers
pub mod Connect
pub mod Forward
pub mod Client
pub mod Route
pub mod Owned
pub mod Gate
pub mod Letters
pub mod Login
pub mod Stripped
mod Tests
use proxysm.Base.{
  ℕ, suc, ◌≡◌, Bool, true, ◌||◌, Option, some, List, [], ◌∷◌, ◌++◌, map, leb, ◌&&◌, ◌==◌, All,
}
use proxysm.Base.Int.{ℤ, pos, negsuc}
use proxysm.Text.{Text, codes, lstrip_by, rstrip_by, to_lower, is_digit}
use proxysm.Text.Decimal.{print}

-- The alphabet of base64.
abbrev pub is_base64 : ℕ → Bool
unfolding is_digit
is_base64 c =
    leb b'A' c && leb c b'Z'
    || leb b'a' c && leb c b'z'
    || leb b'0' c && leb c b'9'
    || c == b'+'
    || c == b'/'
    || c == b'='

-- The codecs of Python's library: UTF-8, where `decode` puts U+FFFD for what is no UTF-8, and
-- base64, where none is a `binascii.Error`.
pub record Codec : Type 0 where
  pub decode : Text → Text
  pub encode : Text → Text
  pub b64encode : Text → Text
  pub b64decode : Text → Option Text
  pub decode_nil : decode [] ≡ []
  pub b64decode_nil : b64decode [] ≡ some []
  pub decode-encode : (s : Text) → decode (encode s) ≡ s
  pub b64decode-b64encode : (s : Text) → b64decode (b64encode s) ≡ some s
  pub b64encode_alphabet : (s : Text) → All (λ c. is_base64 c ≡ true) (b64encode s)

-- `bytes.strip`, which knows only ASCII
abbrev pub is_byte_space : ℕ → Bool
is_byte_space c = leb 9 c && leb c 13 || c == 32

abbrev pub strip_bytes : Text → Text
strip_bytes s = rstrip_by is_byte_space (lstrip_by is_byte_space s)

abbrev pub lower : Text → Text
lower s = map to_lower s

abbrev pub crlf : Text
crlf = 13 ∷ 10 ∷ []

-- `str(n)`
abbrev pub print_int : ℤ → Text
print_int (pos n) = print n
print_int (negsuc n) = b'-' ∷ print (suc n)
