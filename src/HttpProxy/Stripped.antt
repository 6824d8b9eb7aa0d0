-- ===== src/HttpProxy/Stripped.antt =====
-- Which headers `_handle_http` (src/proxy/http_proxy.py) sends on.
use proxysm.Base.{
  ℕ, ◌≡◌, refl, ap, subst, ◌∙◌, true, false, ◌||◌, Option, none, some, List, [], ◌∷◌, ◌++◌, arith,
  ◌==◌, ==_refl, All, Bool-cases, Option-cases, inl, inr,
}
use proxysm.Base.Int.{ℤ, pos}
use proxysm.Text.{
  Text, codes, text_eq, is_empty, split_once, starts_with, strip, to_lower, parse_int,
}
use proxysm.Text.Laws.{text_eq-eq}
use proxysm.HttpProxy.{Codec, lower}
use proxysm.HttpProxy.Headers.{split_crlf, is_proxy_auth}
use proxysm.HttpProxy.Forward.{
  Dict, dict_set, Forwarded, set_header, forward_line, forward_each, forward_headers,
}

-- The name of a header line, before its colon, is ASCII and has no blank at its ends.
abbrev pub IsPlain : Codec → Text → Type 0
IsPlain c line = strip (c.decode (split_once b':' line).0) ≡ (split_once b':' line).0

-- The name is not that of the credentials, in any case.
abbrev pub IsOther : Text × Text → Type 0
IsOther (key, value) = text_eq (lower key) (codes "proxy-authorization") ≡ false

split_once-join :
    (x : ℕ) (s r : Text) → (split_once x s).1 ≡ some r → s ≡ (split_once x s).0 ++ x ∷ r
split_once-join x [] r h = cc
split_once-join x (y ∷ s) r h = elim (Bool-cases (y == x)) [
  | inl e ↦
      let y_is : y ≡ x = ground (arith, e) in
      let rest : s ≡ r = let eq : some s ≡ some r = rw (e, split_once) at h in cc in
      rw e (ap (λ z. z ∷ s) y_is ∙ ap (λ l. x ∷ l) rest)
  | inr e ↦ rw e (ap (λ l. y ∷ l) (split_once-join x s r (rw (e, split_once) at h)))
]

starts_with-lower :
    (name k v : Text)
    → lower k ≡ name
    → starts_with (name ++ b':' ∷ []) (lower (k ++ b':' ∷ v)) ≡ true
unfolding to_lower
starts_with-lower name k v h =
    subst (λ n. starts_with (n ++ b':' ∷ []) (lower (k ++ b':' ∷ v)) ≡ true) h (go k)
  where
    go : (k : Text) → starts_with (lower k ++ b':' ∷ []) (lower (k ++ b':' ∷ v)) ≡ true
    go [] = refl
    go (x ∷ k) = rw (==_refl (to_lower x)) (go k)

dict_set-IsOther :
    (key value : Text) (d : Dict)
    → IsOther (key, value)
    → All IsOther d
    → All IsOther (dict_set key value d)
unfolding dict_set
dict_set-IsOther key value [] h all = (h, tt)
dict_set-IsOther key value ((k, v) ∷ d) h (here, all) = elim (Bool-cases (text_eq k key)) [
  | inl e ↦ rw (e, dict_set) (here, all)
  | inr e ↦ rw (e, dict_set) (here, dict_set-IsOther key value d h all)
]

abbrev Kept : Option Forwarded → Type 0
Kept none = Unit
Kept (some st) = All IsOther st.0

set_header-Kept :
    (key value : Text) (st : Forwarded)
    → IsOther (key, value)
    → All IsOther st.0
    → Kept (set_header key value st)
set_header-Kept key value (d, n) h all =
    elim (Bool-cases (text_eq (lower key) (codes "content-length"))) [
      | inr e ↦ rw (e, set_header) (dict_set-IsOther key value d h all)
      | inl e ↦ elim (Option-cases (parse_int value)) [
        | inl f ↦ rw (e, f, set_header) tt
        | inr (m, f) ↦ rw (e, f, set_header) (dict_set-IsOther key value d h all)
      ]
    ]

module _ (c : Codec) where
  -- A line that is not skipped has another name.
  key_IsOther :
      (line value : Text)
      → is_proxy_auth line ≡ false
      → (split_once b':' line).1 ≡ some value
      → IsPlain c line
      → IsOther (strip (c.decode (split_once b':' line).0), strip (c.decode value))
  key_IsOther line value other found plain =
      let k = (split_once b':' line).0 in
      let name = codes "proxy-authorization" in
      rw plain (elim (Bool-cases (text_eq (lower k) name)) [
        | inr apart ↦ apart
        | inl same ↦
            let matches : is_proxy_auth line ≡ true =
              ap is_proxy_auth (split_once-join b':' line value found)
              ∙ starts_with-lower name k value (text_eq-eq (lower k) name same) in
            cc
      ])

  forward_line-Kept :
      (line : Text) (st : Forwarded)
      → IsPlain c line
      → All IsOther st.0
      → Kept (forward_line c line st)
  unfolding dict_set
  forward_line-Kept line st plain all = elim (Bool-cases (is_empty line || is_proxy_auth line)) [
    | inl skip ↦ rw (skip, forward_line) all
    | inr keep ↦ elim (Option-cases (split_once b':' line).1) [
      | inl e ↦ rw (keep, e, forward_line) all
      | inr (value, e) ↦
          let key = strip (c.decode (split_once b':' line).0) in
          let other : is_proxy_auth line ≡ false = ground (arith, keep) in
          rw (keep, e, forward_line)
            (set_header-Kept key (strip (c.decode value)) st (key_IsOther line value other e plain)
              all)
    ]
  ]

  forward_each-Kept :
      (lines : List Text) (st : Forwarded)
      → All (IsPlain c) lines
      → All IsOther st.0
      → Kept (forward_each c lines st)
  unfolding forward_each
  forward_each-Kept [] st plain all = all
  forward_each-Kept (line ∷ lines) st (here, plain) all =
      elim (Option-cases (forward_line c line st)) [
        | inl e ↦ rw (e, forward_each) tt
        | inr (st', e) ↦
            rw (e, forward_each)
              (forward_each-Kept lines st' plain
                (subst Kept e (forward_line-Kept line st here all)))
      ]

  -- Of a header block whose names are plain, no header that is sent on has the name
  -- Proxy-Authorization in any case: the credentials for this proxy do not go further.
  pub forward_headers-IsOther :
      (headers_raw : Text) (d : Dict) (n : ℤ)
      → All (IsPlain c) (split_crlf headers_raw)
      → forward_headers c headers_raw ≡ some (d, n)
      → All IsOther d
  unfolding forward_headers
  forward_headers-IsOther headers_raw d n plain e =
      subst Kept e (forward_each-Kept (split_crlf headers_raw) ([], pos 0) plain tt)
