-- ===== src/WebAuth.antt =====
-- Who may use the API and the web pages: src/web/auth.py, `admin_auth` of src/api/deps.py, and the
-- login and the guard of src/web/routes.py. `sign` is `_sign`, the hex digest of an HMAC under the
-- secret key; `sha256` is the hex digest. The time is in milliseconds.
pub mod Token
pub mod Admin
mod Tests
use proxysm.Base.{
  ℕ, zero, suc, ◌+◌, ◌*◌, ◌/◌, Bool, true, false, not, ◌||◌, ◌&&◌, Option, none, some, List, [],
  ◌∷◌, ◌++◌, ltb, leb, if◌then◌else◌,
}
use proxysm.Base.Int.{ℤ, pos, negsuc}
use proxysm.Text.{Text, codes, text_eq, is_empty, has, behind_prefix, rsplit_once, parse_int}
use proxysm.Text.Decimal.{print}

-- `verify_session_token`: true, false, or the `TypeError` of `compare_digest`, which takes only
-- ASCII.
pub data Verdict : Type 0 where
  accepted refused type_error : Verdict

abbrev pub is_ascii : Text → Bool
is_ascii [] = true
is_ascii (c ∷ s) = ltb c 128 && is_ascii s

-- SESSION_TTL_SECONDS
abbrev pub session_ttl : ℕ
session_ttl = 604800

-- `time.time() - int(issued) < SESSION_TTL_SECONDS`
abbrev pub is_fresh : ℤ → ℕ → Bool
is_fresh (pos n) now = ltb now ((n + session_ttl) * 1000)
is_fresh (negsuc n) now = ltb (now + suc n * 1000) (session_ttl * 1000)

abbrev pub check_time : Text → ℕ → Verdict
check_time issued now = elim (parse_int issued) [
  | none ↦ refused
  | some n ↦ if is_fresh n now then accepted else refused
]

module _ (sign : Text → Text) where
  unfoldable pub create_session_token : ℕ → Text
  create_session_token now = let issued = print (now / 1000) in issued ++ b'.' ∷ sign issued

  abbrev pub check_signature : Text → Text → ℕ → Verdict
  check_signature issued signature now =
      if is_ascii signature
      then (if text_eq signature (sign issued) then check_time issued now else refused)
      else type_error

  -- A token without a dot has no two parts.
  unfoldable pub verify_session_token : Option Text → ℕ → Verdict
  verify_session_token none now = refused
  verify_session_token (some token) now = elim (rsplit_once b'.' token) [
    | none ↦ refused
    | some (issued, signature) ↦ check_signature issued signature now
  ]

  -- `admin_auth`: the request passes, a 401, or the exception.
  module _ (sha256 : Text → Text) (admin_password : Text) where
    -- `_password_ok`, and the same comparison in `admin_auth`
    abbrev pub password_ok : Text → Bool
    password_ok password = text_eq (sha256 password) (sha256 admin_password)

    unfoldable pub admin_auth : Option Text → Option Text → ℕ → Verdict
    unfolding verify_session_token
    admin_auth none cookie now = verify_session_token cookie now
    admin_auth (some authorization) cookie now =
        elim (behind_prefix (codes "Bearer ") authorization) [
          | none ↦ refused
          | some token ↦ if password_ok token then accepted else refused
        ]

    -- The status of POST /login, and the cookie that it sets.
    unfoldable pub login_submit : Text → ℕ → ℕ × Option Text
    unfolding create_session_token
    login_submit password now =
        if password_ok password then (303, some (create_session_token now)) else (401, none)

    -- A page of the web interface: whether it is shown, or the browser is sent to the login page.
    unfoldable pub require_session : Option Text → ℕ → Verdict
    unfolding verify_session_token
    require_session cookie now = verify_session_token cookie now
