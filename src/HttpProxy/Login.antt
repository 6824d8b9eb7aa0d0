-- ===== src/HttpProxy/Login.antt =====
-- Basic credentials from a client to `_parse_proxy_auth`, and from `_handle_connect` to the next
-- proxy (src/proxy/http_proxy.py).
use proxysm.Base.{
  ℕ, suc, ◌≡◌, refl, ap, sym, ◌∙◌, Bool, true, false, ◌&&◌, none, some, List, [], ◌∷◌, ◌++◌, arith,
  ◌==◌, if◌then◌else◌, subst, All, append_assoc, append-nil,
}
use proxysm.Base.Int.{ℤ, pos, negsuc}
use proxysm.Text.{Text, codes, has, is_empty, push, to_lower, rstrip_by, is_digit}
use proxysm.Text.Laws.{split_once-append, has_append_free, has_cons_free, has_middle}
use proxysm.Text.Decimal.{print, has-print}
use proxysm.Rotation.Engine.{Upstream}
use proxysm.HttpProxy.{Codec, is_base64, is_byte_space, crlf, print_int}
use proxysm.HttpProxy.Headers.{
  split_from, split_crlf, is_proxy_auth, value_of, after_basic, credentials, auth_of_lines,
  parse_proxy_auth,
}
use proxysm.HttpProxy.Connect.{shown, has_user, host_header, connect_head}

-- Lines as they are sent.
abbrev pub block : List Text → Text
block [] = []
block (line ∷ lines) = line ++ (crlf ++ block lines)

split_crlf-line : (s r : Text) → has 13 s ≡ false → split_crlf (s ++ 13 ∷ 10 ∷ r) ≡ s ∷ split_crlf r
unfolding split_crlf split_from
split_crlf-line [] r h = refl
split_crlf-line (x ∷ s) r h =
    let x_is : (x == 13) ≡ false = ground (arith, h) in
    let ih = split_crlf-line s r (ground (arith, h)) in rw (x_is, split_from) (ap (push x) ih)

split_crlf-block :
    (lines : List Text) (r : Text)
    → All (λ line. has 13 line ≡ false) lines
    → split_crlf (block lines ++ r) ≡ lines ++ split_crlf r
split_crlf-block [] r h = refl
split_crlf-block (line ∷ lines) r (here, all) =
    ap split_crlf (append_assoc line (crlf ++ block lines) r)
    ∙ split_crlf-line line (block lines ++ r) here
    ∙ ap (λ l. line ∷ l) (split_crlf-block lines r all)

auth_of_lines-append :
    (c : Codec) (before after : List Text)
    → All (λ line. is_proxy_auth line ≡ false) before
    → auth_of_lines c (before ++ after) ≡ auth_of_lines c after
unfolding auth_of_lines
auth_of_lines-append c [] after h = refl
auth_of_lines-append c (line ∷ before) after (here, all) =
    rw here (auth_of_lines-append c before after all)

has-base64 : (s : Text) → All (λ x. is_base64 x ≡ true) s → has 13 s ≡ false
unfolding is_base64 is_digit
has-base64 [] h = refl
has-base64 (x ∷ s) (here, all) = ground (arith, has-base64 s all)

rstrip-base64 : (s : Text) → All (λ x. is_base64 x ≡ true) s → rstrip_by is_byte_space s ≡ s
unfolding is_base64 is_digit
rstrip-base64 [] h = refl
rstrip-base64 (x ∷ s) (here, all) =
    let no_space : is_byte_space x ≡ false = ground arith in
    rw (rstrip-base64 s all, no_space) (unchanged (is_empty s))
  where
    unchanged : (b : Bool) → (if b && false then [] else x ∷ s) ≡ x ∷ s
    unchanged true = refl
    unchanged false = refl

strip_value :
    (x : ℕ) (s : Text)
    → All (λ y. is_base64 y ≡ true) (x ∷ s)
    → value_of (codes "Proxy-Authorization: Basic " ++ x ∷ s) ≡ codes "Basic " ++ x ∷ s
strip_value x s h = rw (rstrip-base64 (x ∷ s) h) refl

auth_of_lines-basic :
    (c : Codec) (x : ℕ) (s : Text) (after : List Text)
    → All (λ y. is_base64 y ≡ true) (x ∷ s)
    → auth_of_lines c ((codes "Proxy-Authorization: Basic " ++ x ∷ s) ∷ after)
      ≡ credentials c (x ∷ s)
unfolding auth_of_lines to_lower
auth_of_lines-basic c x s after h =
    ap (λ v. elim (after_basic v) [ none ↦ auth_of_lines c after | some e ↦ credentials c e ])
      (strip_value x s h)

-- What a client sends to log in.
abbrev pub login_line : Codec → Text → Text → Text
login_line c slug api_key =
    codes "Proxy-Authorization: Basic " ++ c.b64encode (c.encode (slug ++ b':' ∷ api_key))

credentials-login :
    (c : Codec) (slug api_key : Text)
    → has b':' slug ≡ false
    → credentials c (c.b64encode (c.encode (slug ++ b':' ∷ api_key))) ≡ some (slug, api_key)
credentials-login c slug api_key h =
    rw
      (
        c.b64decode-b64encode (c.encode (slug ++ b':' ∷ api_key)),
        c.decode-encode (slug ++ b':' ∷ api_key),
        credentials,
      )
      (rw (split_once-append b':' slug api_key h) refl)

-- Credentials are not encoded as nothing.
encoded_some :
    (c : Codec) (slug api_key e : Text)
    → c.b64encode (c.encode (slug ++ b':' ∷ api_key)) ≡ e
    → (x : ℕ) × (s : Text) × (e ≡ x ∷ s)
encoded_some c slug api_key (x ∷ s) h = (x, s, refl)
encoded_some c slug api_key [] h =
    let plain = slug ++ b':' ∷ api_key in
    let bytes : some (c.encode plain) ≡ some [] =
      sym (c.b64decode-b64encode (c.encode plain)) ∙ ap c.b64decode h ∙ c.b64decode_nil in
    let is_nil : c.encode plain ≡ [] = cc in
    let text : plain ≡ [] = sym (c.decode-encode plain) ∙ ap c.decode is_nil ∙ c.decode_nil in
    let found : true ≡ has b':' [] = sym (has_middle b':' slug api_key) ∙ ap (has b':') text in cc

-- The credentials of a client are read as they were sent, whatever other lines stand before them, if
-- these are no credentials and hold no carriage return, and whatever stands behind. The slug has no
-- colon.
pub parse_proxy_auth-login_line :
    (c : Codec) (before : List Text) (slug api_key after : Text)
    → All (λ line. has 13 line ≡ false) before
    → All (λ line. is_proxy_auth line ≡ false) before
    → has b':' slug ≡ false
    → parse_proxy_auth c (block before ++ (login_line c slug api_key ++ (crlf ++ after)))
      ≡ some (slug, api_key)
unfolding parse_proxy_auth to_lower
parse_proxy_auth-login_line c before slug api_key after no_cr others h =
    let e = c.b64encode (c.encode (slug ++ b':' ∷ api_key)) in
    let alphabet = c.b64encode_alphabet (c.encode (slug ++ b':' ∷ api_key)) in
    let line_ends : has 13 (login_line c slug api_key) ≡ false =
      has_append_free 13 (codes "Proxy-Authorization: Basic ") e refl (has-base64 e alphabet) in
    let (x, s, e_is) = encoded_some c slug api_key e refl in
    let base64 : All (λ y. is_base64 y ≡ true) (x ∷ s) =
      subst (All (λ y. is_base64 y ≡ true)) e_is alphabet in
    ap (auth_of_lines c) (
      split_crlf-block before (login_line c slug api_key ++ (crlf ++ after)) no_cr
      ∙ ap (λ l. before ++ l) (split_crlf-line (login_line c slug api_key) after line_ends))
    ∙ auth_of_lines-append c before (login_line c slug api_key ∷ split_crlf after) others
    ∙ ap (λ v. auth_of_lines c ((codes "Proxy-Authorization: Basic " ++ v) ∷ split_crlf after)) e_is
    ∙ auth_of_lines-basic c x s (split_crlf after) base64
    ∙ ap (credentials c) (sym e_is)
    ∙ credentials-login c slug api_key h

layout :
    (a h p b e cr : Text)
    → ((a ++ (h ++ b':' ∷ (p ++ cr))) ++ (b ++ (e ++ cr))) ++ cr
      ≡ ((a ++ (h ++ b':' ∷ p)) ++ (cr ++ [])) ++ ((b ++ e) ++ (cr ++ cr))
layout a h p b e cr = simp (append_assoc, append-nil)

has-print_int : (n : ℤ) → has 13 (print_int n) ≡ false
unfolding is_digit
has-print_int (pos n) = has-print 13 n refl
has-print_int (negsuc n) = has_cons_free 13 b'-' (print (suc n)) refl (has-print 13 (suc n) refl)

-- The next proxy, if it reads headers as this one does, reads from a CONNECT request the user and
-- the password that the upstream is stored with. The user is not empty and has no colon, and the
-- target host no carriage return.
pub parse_proxy_auth-connect_head :
    (c : Codec) (host : Text) (port : ℤ) (up : Upstream) (user pass : Text)
    → up.username ≡ some user
    → up.password ≡ some pass
    → is_empty user ≡ false
    → has b':' user ≡ false
    → has 13 host ≡ false
    → parse_proxy_auth c (connect_head c host port up ++ crlf) ≡ some (user, pass)
unfolding to_lower
parse_proxy_auth-connect_head c host port up user pass name word nonempty no_colon no_cr =
    let host_line = codes "Host: " ++ (host ++ b':' ∷ print_int port) in
    let ends : has 13 host_line ≡ false =
      has_append_free 13 (codes "Host: ") (host ++ b':' ∷ print_int port) refl (
        has_append_free 13 host (b':' ∷ print_int port) no_cr
          (has_cons_free 13 b':' (print_int port) refl (has-print_int port))) in
    let with_user : has_user up ≡ true = rw (name, nonempty, has_user) refl in
    let secret = c.b64encode (c.encode (shown up.username ++ b':' ∷ shown up.password)) in
    let basic = codes "Proxy-Authorization: Basic " in
    let sent : c.b64encode (c.encode (shown up.username ++ b':' ∷ shown up.password))
        ≡ c.b64encode (c.encode (user ++ b':' ∷ pass)) =
      rw (name, word) refl in
    ap (parse_proxy_auth c) (
      ap (λ l. (host_header host port ++ l) ++ crlf) (rw with_user refl)
      ∙ layout (codes "Host: ") host (print_int port) basic secret crlf
      ∙ ap (λ e. (host_line ++ (crlf ++ [])) ++ ((basic ++ e) ++ (crlf ++ crlf))) sent)
    ∙ parse_proxy_auth-login_line c (host_line ∷ []) user pass crlf (ends, tt) (refl, tt) no_colon
