-- ===== src/ImportParser/Formats.antt =====
-- Lines of src/services/import_parser.py in a given format are read back.
use proxysm.Base.{ℕ, ◌≡◌, ◌⊎◌, refl, ap, ◌∙◌, true, false, some, [], ◌∷◌, ◌++◌, arith, inl, inr}
use proxysm.Base.Int.{ℤ}
use proxysm.Text.{Text, codes, has, starts_with, split_on, split_once, rsplit_once, parse_int}
use proxysm.Text.Laws.{
  has_middle, has_append_free, has_text_free, split_on_free, split_on-append, split_once-append,
  rsplit_once-append,
}
use proxysm.ImportParser.{
  Url, in_port_range, is_port, looks_like_host, proxy_at, with_port, parse_colon_parts,
  parse_at_format, parse_at_or_colon, parse_spaced, parse_single_line,
}

-- No character of the text separates parts or announces another format.
pub record IsPlain (s : Text) : Type 0 where
  pub colon : has b':' s ≡ false
  pub comma : has b',' s ≡ false
  pub at_sign : has b'@' s ≡ false
  pub space : has b' ' s ≡ false
  pub tab : has 9 s ≡ false
  pub slash : has b'/' s ≡ false
  pub bracket : has b'[' s ≡ false

-- No character of the line announces a format that is tried before the colons.
record IsColonLine (s : Text) : Type 0 where
  comma : has b',' s ≡ false
  space : has b' ' s ≡ false
  tab : has 9 s ≡ false
  slash : has b'/' s ≡ false
  bracket : has b'[' s ≡ false

IsPlain-IsColonLine : (s : Text) → IsPlain s → IsColonLine s
IsPlain-IsColonLine s h = record {
  comma = h.comma;
  space = h.space;
  tab = h.tab;
  slash = h.slash;
  bracket = h.bracket;
}

-- `c` is a colon or an at sign.
IsColonLine-append :
    (s t : Text) (c : ℕ)
    → ((c ≡ b':') ⊎ (c ≡ b'@'))
    → IsColonLine s
    → IsColonLine t
    → IsColonLine (s ++ c ∷ t)
IsColonLine-append s t c e h k = record {
  comma = has_append_free b',' s (c ∷ t) h.comma (ground (arith, k.comma));
  space = has_append_free b' ' s (c ∷ t) h.space (ground (arith, k.space));
  tab = has_append_free 9 s (c ∷ t) h.tab (ground (arith, k.tab));
  slash = has_append_free b'/' s (c ∷ t) h.slash (ground (arith, k.slash));
  bracket = has_append_free b'[' s (c ∷ t) h.bracket (ground (arith, k.bracket));
}

is_port-parse_int :
    (s : Text) (v : ℤ) → parse_int s ≡ some v → in_port_range v ≡ true → is_port s ≡ true
unfolding is_port
is_port-parse_int s v e h = rw (e, is_port) h

starts_with_bracket : (s : Text) → has b'[' s ≡ false → starts_with (codes "[") s ≡ false
starts_with_bracket [] h = refl
starts_with_bracket (c ∷ s) h = ground arith

module _ (urlparse : Text → Url) where
  -- Such a line goes to the at sign or to the colons.
  parse_single_line-colon :
      (line : Text)
      → IsColonLine line
      → parse_single_line urlparse line ≡ parse_at_or_colon urlparse line
  unfolding parse_single_line parse_spaced
  parse_single_line-colon line h = rw (
    has_text_free b'/' (codes "://") line refl h.slash,
    starts_with_bracket line h.bracket,
    h.comma,
    h.tab,
    has_text_free b' ' (codes "  ") line refl h.space,
    h.space,
  )

  module _ (host port user pass : Text) (v : ℤ) where
    -- A line host:port:user:pass of plain parts is read as it is meant, if the host looks like one
    -- and the port is the text of a number from 1 to 65535.
    pub parse_host_port_user_pass :
        IsPlain host
        → IsPlain port
        → IsPlain user
        → IsPlain pass
        → looks_like_host host ≡ true
        → parse_int port ≡ some v
        → in_port_range v ≡ true
        → parse_single_line urlparse (host ++ b':' ∷ (port ++ b':' ∷ (user ++ b':' ∷ pass)))
          ≡ some (proxy_at host (some user) (some pass) v)
    unfolding parse_at_or_colon parse_colon_parts
    parse_host_port_user_pass h p u w is_host number in_range =
        let tail = user ++ b':' ∷ pass in
        let middle = port ++ b':' ∷ tail in
        let line = host ++ b':' ∷ middle in
        let no_at : has b'@' line ≡ false = has_append_free b'@' host (b':' ∷ middle) h.at_sign (
          has_append_free b'@' port (b':' ∷ tail) p.at_sign
            (has_append_free b'@' user (b':' ∷ pass) u.at_sign w.at_sign)) in
        let is_colon_line : IsColonLine line =
          IsColonLine-append host middle b':' (inl refl) (IsPlain-IsColonLine host h) (
            IsColonLine-append port tail b':' (inl refl) (IsPlain-IsColonLine port p) (
              IsColonLine-append user pass b':' (inl refl) (IsPlain-IsColonLine user u)
                (IsPlain-IsColonLine pass w))) in
        let parts : split_on b':' line ≡ host ∷ port ∷ user ∷ pass ∷ [] =
          split_on-append b':' host middle h.colon
          ∙ ap (λ l. host ∷ l) (split_on-append b':' port tail p.colon)
          ∙ ap (λ l. host ∷ port ∷ l) (split_on-append b':' user pass u.colon)
          ∙ ap (λ l. host ∷ port ∷ user ∷ l) (split_on_free b':' pass w.colon) in
        parse_single_line-colon line is_colon_line
        ∙ rw (no_at, parts, is_port-parse_int port v number in_range, is_host)
            (rw (number, with_port))

    -- So is a line user:pass@host:port.
    pub parse_user_pass_at_host_port :
        IsPlain host
        → IsPlain port
        → IsPlain user
        → IsPlain pass
        → looks_like_host host ≡ true
        → parse_int port ≡ some v
        → in_port_range v ≡ true
        → parse_single_line urlparse ((user ++ b':' ∷ pass) ++ b'@' ∷ (host ++ b':' ∷ port))
          ≡ some (proxy_at host (some user) (some pass) v)
    unfolding parse_at_or_colon parse_at_format
    parse_user_pass_at_host_port h p u w is_host number in_range =
        let left = user ++ b':' ∷ pass in
        let right = host ++ b':' ∷ port in
        let line = left ++ b'@' ∷ right in
        let at_there : has b'@' line ≡ true = has_middle b'@' left right in
        let is_colon_line : IsColonLine line =
          IsColonLine-append left right b'@' (inr refl)
            (IsColonLine-append user pass b':' (inl refl) (IsPlain-IsColonLine user u)
              (IsPlain-IsColonLine pass w))
            (IsColonLine-append host port b':' (inl refl) (IsPlain-IsColonLine host h)
              (IsPlain-IsColonLine port p)) in
        let halves : split_once b'@' line ≡ (left, some right) =
          split_once-append b'@' left right
            (has_append_free b'@' user (b':' ∷ pass) u.at_sign w.at_sign) in
        let right_parts : rsplit_once b':' right ≡ some (host, port) =
          rsplit_once-append b':' host port p.colon in
        let left_parts : split_once b':' left ≡ (user, some pass) =
          split_once-append b':' user pass u.colon in
        parse_single_line-colon line is_colon_line
        ∙ ground (
          arith,
          at_there,
          halves,
          right_parts,
          left_parts,
          is_port-parse_int port v number in_range,
          is_host,
          number,
        )
