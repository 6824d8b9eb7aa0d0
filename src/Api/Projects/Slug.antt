-- ===== src/Api/Projects/Slug.antt =====
-- `_make_slug` (src/api/projects.py), and a project's credentials at the HTTP proxy
-- (src/proxy/http_proxy.py).
use proxysm.Base.{
  ℕ, ◌≡◌, refl, ap, ◌∙◌, true, false, some, List, [], ◌∷◌, ◌++◌, arith, map, All, Bool-cases, inl,
  inr,
}
use proxysm.Text.{Text, has, to_lower, is_digit}
use proxysm.HttpProxy.{Codec, crlf}
use proxysm.HttpProxy.Headers.{is_proxy_auth, parse_proxy_auth}
use proxysm.HttpProxy.Login.{block, login_line, parse_proxy_auth-login_line}
use proxysm.Api.Projects.{is_slug_char, slug_char, keep_slug, make_slug}

All-keep_slug : (s : Text) → All (λ c. is_slug_char c ≡ true) (keep_slug s)
unfolding is_digit
All-keep_slug [] = tt
All-keep_slug (c ∷ s) = elim (Bool-cases (is_slug_char c)) [
  | inl e ↦ rw (e, keep_slug) (e, All-keep_slug s)
  | inr e ↦ rw (e, keep_slug) (All-keep_slug s)
]

slug_char_id : (c : ℕ) → is_slug_char c ≡ true → slug_char c ≡ c
unfolding is_digit to_lower
slug_char_id c h = ground arith

keep_slug_id : (s : Text) → All (λ c. is_slug_char c ≡ true) s → keep_slug (map slug_char s) ≡ s
unfolding is_digit to_lower
keep_slug_id [] h = refl
keep_slug_id (c ∷ s) (here, all) =
    let kept : is_slug_char (slug_char c) ≡ true = ap is_slug_char (slug_char_id c here) ∙ here in
    rw kept (rw (slug_char_id c here) (ap (λ l. c ∷ l) (keep_slug_id s all)))

-- A slug consists of lower-case ASCII letters, digits and dashes, and is its own slug.
pub make_slug_lem :
    (name : Text)
    → All (λ c. is_slug_char c ≡ true) (make_slug name)
      × (make_slug (make_slug name) ≡ make_slug name)
unfolding make_slug is_digit to_lower
make_slug_lem name =
    let all = All-keep_slug (map slug_char name) in
    (all, keep_slug_id (keep_slug (map slug_char name)) all)

slug-has : (s : Text) → All (λ c. is_slug_char c ≡ true) s → has b':' s ≡ false
unfolding is_digit
slug-has [] h = refl
slug-has (c ∷ s) (here, all) = ground (arith, slug-has s all)

-- Whatever a project is called and whatever its key is, the credentials made of its slug and its key
-- are read at the proxy as they were sent: behind lines that hold no carriage return and are no
-- credentials, and before any text.
pub parse_proxy_auth-make_slug :
    (c : Codec) (before : List Text) (name api_key after : Text)
    → All (λ line. has 13 line ≡ false) before
    → All (λ line. is_proxy_auth line ≡ false) before
    → parse_proxy_auth c
        (block before ++ (login_line c (make_slug name) api_key ++ (crlf ++ after)))
      ≡ some (make_slug name, api_key)
parse_proxy_auth-make_slug c before name api_key after no_cr others =
    parse_proxy_auth-login_line c before (make_slug name) api_key after no_cr others
      (slug-has (make_slug name) (make_slug_lem name).0)
