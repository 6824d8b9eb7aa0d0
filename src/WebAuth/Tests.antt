-- ===== src/WebAuth/Tests.antt =====
-- Examples for the authentication of the API and the pages.
use proxysm.Base.{
  ◌≡◌, ◌↔◌, ◌⊎◌, refl, true, false, none, some, [], ◌∷◌, ◌++◌, leb, arith, if◌then◌else◌,
}
use proxysm.Text.{Text, codes, has, parse_int, digits, signed, strip, is_space, is_digit}
use proxysm.WebAuth.{
  accepted, refused, is_ascii, verify_session_token, admin_auth, login_submit, require_session,
}
use proxysm.WebAuth.Admin.{admin_auth-accepted, login_submit-require_session}

-- A signature of letters.
abbrev sign : Text → Text
sign [] = codes "h"
sign (c ∷ s) = (if leb c 52 then b'a' else b'b') ∷ sign s

sign_ascii : (s : Text) → is_ascii (sign s) ≡ true
sign_ascii [] = refl
sign_ascii (c ∷ s) = ground (arith, sign_ascii s)

sign_no_dot : (s : Text) → has b'.' (sign s) ≡ false
sign_no_dot [] = refl
sign_no_dot (c ∷ s) = ground (arith, sign_no_dot s)

abbrev same : Text → Text
same s = s

valid : verify_session_token sign (some (codes "7.bh")) 9000 ≡ accepted
unfolding verify_session_token parse_int signed strip is_space digits is_digit
valid = refl

admin_auth-accepted_example :
    (admin_auth sign same (codes "pw") (some (codes "Bearer pw")) none 9000 ≡ accepted) ↔ (
      (some (codes "Bearer pw") ≡ some (codes "Bearer " ++ codes "pw"))
      ⊎ ((some (codes "Bearer pw") ≡ none) × (verify_session_token sign none 9000 ≡ accepted)))
admin_auth-accepted_example =
    admin_auth-accepted sign same (codes "pw") (some (codes "Bearer pw")) none 9000 (λ s u e. e)

login_submit-require_session_example :
    let (status, cookie) = login_submit sign same (codes "pw") (codes "pw") 5500 in
    ((codes "pw" ≡ codes "pw")
      × (status ≡ 303)
      × (require_session sign same (codes "pw") cookie 9000 ≡ accepted)
      × (admin_auth sign same (codes "pw") none cookie 9000 ≡ accepted))
    ⊎ ((¬ (codes "pw" ≡ codes "pw"))
        × (status ≡ 401)
        × (cookie ≡ none)
        × (require_session sign same (codes "pw") cookie 9000 ≡ refused))
login_submit-require_session_example =
    login_submit-require_session sign same (codes "pw") (codes "pw") 5500 9000 (λ s u e. e)
      sign_ascii sign_no_dot refl
