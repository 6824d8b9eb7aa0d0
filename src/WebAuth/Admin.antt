-- ===== src/WebAuth/Admin.antt =====
-- Who passes `admin_auth` (src/api/deps.py), and what a login gives (src/web/routes.py).
use proxysm.Base.{
  ℕ, ◌+◌, ◌*◌, ◌/◌, ◌≡◌, ◌↔◌, ◌⊎◌, refl, ap, ◌∙◌, true, false, Option, none, some, ◌++◌, ltb, arith,
  Bool-cases, Option-cases, inl, inr,
}
use proxysm.Text.{Text, codes, has, text_eq, behind_prefix}
use proxysm.Text.Laws.{text_eq-eq, text_eq_refl, behind_prefix-join}
use proxysm.WebAuth.{
  accepted, refused, is_ascii, session_ttl, create_session_token, verify_session_token, admin_auth,
  login_submit, require_session,
}
use proxysm.WebAuth.Token.{verify-create_session_token}

module _ (sign sha256 : Text → Text) (admin_password : Text) where
  -- A request passes exactly if it has the header of the administrator's password, or has no such
  -- header and a cookie that is accepted. The hash is injective.
  pub admin_auth-accepted :
      (authorization cookie : Option Text) (now : ℕ)
      → ((s u : Text) → sha256 s ≡ sha256 u → s ≡ u)
      → (admin_auth sign sha256 admin_password authorization cookie now ≡ accepted) ↔ (
          (authorization ≡ some (codes "Bearer " ++ admin_password))
          ⊎ ((authorization ≡ none) × (verify_session_token sign cookie now ≡ accepted)))
  unfolding admin_auth
  admin_auth-accepted none cookie now injective =
      (λ h. inr (refl, h), λ o. elim o [ inl h ↦ cc | inr (h, valid) ↦ valid ])
  admin_auth-accepted (some authorization) cookie now injective = (to, from)
    where
      to :
          admin_auth sign sha256 admin_password (some authorization) cookie now ≡ accepted
          → (some authorization ≡ some (codes "Bearer " ++ admin_password))
            ⊎ ((some authorization ≡ none) × (verify_session_token sign cookie now ≡ accepted))
      to h = elim (Option-cases (behind_prefix (codes "Bearer ") authorization)) [
        | inl e ↦ ground (arith, e)
        | inr (token, e) ↦ elim (Bool-cases (text_eq (sha256 token) (sha256 admin_password))) [
          | inr f ↦ ground (arith, e, f)
          | inl f ↦
              let same =
                injective token admin_password
                  (text_eq-eq (sha256 token) (sha256 admin_password) f) in
              inl (
                ap some (
                  behind_prefix-join (codes "Bearer ") authorization token e
                  ∙ ap (λ l. codes "Bearer " ++ l) same))
        ]
      ]

      from :
          (some authorization ≡ some (codes "Bearer " ++ admin_password))
            ⊎ ((some authorization ≡ none) × (verify_session_token sign cookie now ≡ accepted))
          → admin_auth sign sha256 admin_password (some authorization) cookie now ≡ accepted
      from (inr (h, valid)) = cc
      from (inl h) =
          let is : authorization ≡ codes "Bearer " ++ admin_password = cc in
          rw (is, text_eq_refl (sha256 admin_password)) refl

  -- A login with the administrator's password is redirected with a cookie that opens the pages and
  -- the API, until the session has lasted; one with any other password gets the 401 and no cookie, and
  -- the pages stay shut. A signature is ASCII and has no dot, and the hash is injective.
  pub login_submit-require_session :
      (password : Text) (made now : ℕ)
      → ((s u : Text) → sha256 s ≡ sha256 u → s ≡ u)
      → ((s : Text) → is_ascii (sign s) ≡ true)
      → ((s : Text) → has b'.' (sign s) ≡ false)
      → ltb now ((made / 1000 + session_ttl) * 1000) ≡ true
      → let (status, cookie) = login_submit sign sha256 admin_password password made in
        ((password ≡ admin_password)
          × (status ≡ 303)
          × (require_session sign sha256 admin_password cookie now ≡ accepted)
          × (admin_auth sign sha256 admin_password none cookie now ≡ accepted))
        ⊎ ((¬ (password ≡ admin_password))
            × (status ≡ 401)
            × (cookie ≡ none)
            × (require_session sign sha256 admin_password cookie now ≡ refused))
  unfolding login_submit require_session admin_auth verify_session_token
  login_submit-require_session password made now injective ascii no_dot early =
      let opened : verify_session_token sign (some (create_session_token sign made)) now
          ≡ accepted =
        verify-create_session_token sign made now ascii no_dot ∙ rw early refl in
      elim (Bool-cases (text_eq (sha256 password) (sha256 admin_password))) [
        | inr e ↦
            let differs : ¬ (password ≡ admin_password) = λ p.
              let yes : text_eq (sha256 password) (sha256 admin_password) ≡ true =
                rw p (text_eq_refl (sha256 admin_password)) in
              cc in
            rw (e, login_submit) (inr (differs, refl, refl, refl))
        | inl e ↦
            rw (e, login_submit)
              (inl (
                injective password admin_password
                    (text_eq-eq (sha256 password) (sha256 admin_password) e),
                refl,
                opened,
                opened,
              ))
      ]
