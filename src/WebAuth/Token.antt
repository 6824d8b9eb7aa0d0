-- ===== src/WebAuth/Token.antt =====
-- Session tokens (src/web/auth.py).
use proxysm.Base.{
  ℕ, ◌+◌, ◌*◌, ◌/◌, ◌≡◌, refl, ap, sym, ◌∙◌, true, false, Option, none, some, [], ◌∷◌, ◌++◌, ltb,
  arith, if◌then◌else◌, Bool-cases, Option-cases, inl, inr, ◌==◌,
}
use proxysm.Base.Int.{ℤ}
use proxysm.Text.{Text, has, text_eq, rsplit_once, parse_int}
use proxysm.Text.Laws.{text_eq-eq, text_eq_refl, rsplit_once-append}
use proxysm.Text.Decimal.{print, parse_int-print}
use proxysm.WebAuth.{
  accepted, refused, is_ascii, session_ttl, is_fresh, check_time, create_session_token,
  verify_session_token,
}

rsplit_once-join : (x : ℕ) (s a b : Text) → rsplit_once x s ≡ some (a, b) → s ≡ a ++ x ∷ b
rsplit_once-join x [] a b h = cc
rsplit_once-join x (y ∷ s) a b h = elim (Option-cases (rsplit_once x s)) [
  | inr ((a', b'), e) ↦
      let eq : Path (Option (Text × Text)) (some (y ∷ a', b')) (some (a, b)) =
        rw (e, rsplit_once) at h in
      let tail : a ≡ y ∷ a' = cc in
      let same : b ≡ b' = cc in
      ap (λ l. y ∷ l) (rsplit_once-join x s a' b' e)
      ∙ ap (λ l. l ++ x ∷ b') (sym tail)
      ∙ ap (λ l. a ++ x ∷ l) (sym same)
  | inl e ↦ elim (Bool-cases (y == x)) [
    | inr f ↦ ground (arith, e, f)
    | inl f ↦
        let eq : Path (Option (Text × Text)) (some ([], s)) (some (a, b)) =
          rw (e, f, rsplit_once) at h in
        let head : a ≡ [] = cc in
        let same : b ≡ s = cc in
        let y_is : y ≡ x = ground (arith, f) in
        ap (λ z. z ∷ s) y_is ∙ ap (λ l. x ∷ l) (sym same) ∙ ap (λ l. l ++ x ∷ b) (sym head)
  ]
]

module _ (sign : Text → Text) where
  -- A token is accepted from its creation on for as long as the session lasts, counted from the
  -- second in which it was made, and refused afterwards. A signature is ASCII and has no dot.
  pub verify-create_session_token :
      (made now : ℕ)
      → ((s : Text) → is_ascii (sign s) ≡ true)
      → ((s : Text) → has b'.' (sign s) ≡ false)
      → verify_session_token sign (some (create_session_token sign made)) now
        ≡ (if ltb now ((made / 1000 + session_ttl) * 1000) then accepted else refused)
  unfolding verify_session_token create_session_token
  verify-create_session_token made now ascii no_dot =
      let issued = print (made / 1000) in
      rw
        (
          rsplit_once-append b'.' issued (sign issued) (no_dot issued),
          ascii issued,
          text_eq_refl (sign issued),
          verify_session_token,
        )
        (rw (parse_int-print (made / 1000), check_time) refl)

  -- A cookie that is accepted is a text with its own signature behind a dot, and the text is the
  -- time of an issue that is not older than the session lasts.
  pub verify_session_token-accepted :
      (cookie : Option Text) (now : ℕ)
      → verify_session_token sign cookie now ≡ accepted
      → (issued : Text) × (n : ℤ) × (cookie ≡ some (issued ++ b'.' ∷ sign issued))
        × (parse_int issued ≡ some n)
        × (is_fresh n now ≡ true)
  unfolding verify_session_token
  verify_session_token-accepted none now h = cc
  verify_session_token-accepted (some token) now h = elim (Option-cases (rsplit_once b'.' token)) [
    | inl e ↦ ground (arith, e)
    | inr ((issued, signature), e) ↦ elim (Bool-cases (is_ascii signature)) [
      | inr f ↦ ground (arith, e, f)
      | inl ascii ↦ elim (Bool-cases (text_eq signature (sign issued))) [
        | inr f ↦ ground (arith, e, ascii, f)
        | inl same ↦ elim (Option-cases (parse_int issued)) [
          | inl f ↦ ground (arith, e, ascii, same, f)
          | inr (n, f) ↦ elim (Bool-cases (is_fresh n now)) [
            | inr late ↦ ground (arith, e, ascii, same, f, late)
            | inl fresh ↦ (
              issued,
              n,
              ap some (
                  rsplit_once-join b'.' token issued signature e
                  ∙ ap (λ l. issued ++ b'.' ∷ l) (text_eq-eq signature (sign issued) same)),
              f,
              fresh,
            )
          ]
        ]
      ]
    ]
  ]
