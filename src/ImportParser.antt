-- ===== src/ImportParser.antt =====
-- The import parser (src/services/import_parser.py). A `ValueError` is `none`.
pub mod Formats
pub mod Ports
pub mod Lines
mod Tests
use proxysm.Base.{
  ℕ, zero, suc, ◌+◌, map, get_elem?, String, Bool, true, false, not, ◌&&◌, ◌||◌, Option, none, some,
  List, [], ◌∷◌, ltb, leb, ◌==◌, if◌then◌else◌, length,
}
use proxysm.Base.Int.{ℤ, pos, negsuc}
use proxysm.Text.{
  Text, codes, text_eq, is_empty, starts_with, has, has_text, split_on, nonempty_texts, words,
  split_once, rsplit_once, strip, rstrip_by, splitlines, parse_int, is_digit, to_lower,
}

pub record ParsedProxy : Type 0 where
  pub host : Text
  pub port : ℤ
  pub protocol : Text
  pub username : Option Text
  pub password : Option Text

-- `_SOCKS_PORTS`, `_HTTPS_PORTS`
unfoldable pub guess_protocol : ℤ → Text
guess_protocol (negsuc n) = codes "http"
guess_protocol (pos p) =
    if leb 1080 p && ltb p 1090
    then codes "socks5"
    else if p == 443 || p == 8443 || p == 8444
    then codes "https"
    else codes "http"

abbrev pub in_port_range : ℤ → Bool
in_port_range (pos p) = ltb 0 p && leb p 65535
in_port_range (negsuc n) = false

unfoldable pub is_port : Text → Bool
is_port s = elim (parse_int s) [ none ↦ false | some p ↦ in_port_range p ]

-- `(?:\d{1,3}\.){n}\d{1,3}` after `k` digits of the group at hand.
unfoldable pub ipv4 : ℕ → ℕ → Text → Bool
unfolding is_digit
ipv4 zero k [] = leb 1 k && leb k 3
ipv4 (suc n) k [] = false
ipv4 zero k (c ∷ cs) = is_digit c && ipv4 zero (k + 1) cs
ipv4 (suc n) k (c ∷ cs) =
    let digit = ipv4 (suc n) (k + 1) cs in
    let point = ipv4 n 0 cs in
    if is_digit c then digit else if c == b'.' && leb 1 k && leb k 3 then point else false

abbrev pub is_letter : ℕ → Bool
is_letter c = leb b'a' c && leb c b'z' || leb b'A' c && leb c b'Z'

-- `[\w.-]`
abbrev pub is_name_char : ℕ → Bool
is_name_char c = is_letter c || is_digit c || c == b'_' || c == b'.' || c == b'-'

abbrev pub all_chars : (ℕ → Bool) → Text → Bool
all_chars p [] = true
all_chars p (c ∷ cs) = p c && all_chars p cs

-- `[a-zA-Z][\w.-]+`
unfoldable pub hostname : Text → Bool
hostname [] = false
hostname (c ∷ cs) = is_letter c && not (is_empty cs) && all_chars is_name_char cs

-- `$` also matches before a newline at the end.
abbrev pub drop_newline : Text → Text
drop_newline [] = []
drop_newline (c ∷ []) = if c == 10 then [] else c ∷ []
drop_newline (c ∷ d ∷ cs) = c ∷ drop_newline (d ∷ cs)

unfoldable pub looks_like_host : Text → Bool
unfolding ipv4 hostname
looks_like_host s = let t = drop_newline s in ipv4 3 0 t || hostname t

-- `parts[i] if len(parts) > i else None`
abbrev pub part : List Text → ℕ → Option Text
part = get_elem?

-- `port = int(...)`, and the rest with it
abbrev pub with_port : Text → (ℤ → ParsedProxy) → Option ParsedProxy
with_port s f = elim (parse_int s) [ none ↦ none | some p ↦ some (f p) ]

-- `ParsedProxy(host=…, port=port, protocol=_guess_protocol(port), username=…, password=…)`
abbrev pub proxy_at : Text → Option Text → Option Text → ℤ → ParsedProxy
proxy_at host user pass port = record {
  host = host;
  port = port;
  protocol = guess_protocol port;
  username = user;
  password = pass;
}

abbrev pub strip_all : List Text → List Text
strip_all [] = []
strip_all (p ∷ ps) = strip p ∷ strip_all ps

unfoldable pub delimited_parts : List Text → Option ParsedProxy
delimited_parts (host ∷ port ∷ rest) =
    if is_port port
    then with_port port (proxy_at host (get_elem? rest 0) (get_elem? rest 1))
    else none
delimited_parts _ = none

-- Blank parts are dropped: a part is blank if nothing is left of it.
unfoldable pub parse_delimited : List Text → Option ParsedProxy
parse_delimited raw = delimited_parts (nonempty_texts (strip_all raw))

unfoldable pub host_first : Text → Text → Option ParsedProxy
host_first left right = elim (rsplit_once b':' left) [
  | some (host, port) ↦
      if is_port port
      then (let (user, pass) = split_once b':' right in
          with_port port (proxy_at host (some user) pass))
      else none
  | none ↦ none
]

unfoldable pub parse_at_format : Text → Option ParsedProxy
parse_at_format line =
    let (left, rest) = split_once b'@' line in
    elim rest [
      | none ↦ none
      | some right ↦ elim (rsplit_once b':' right) [
        | some (host, port) ↦
            if is_port port && looks_like_host host
            then (let (user, pass) = split_once b':' left in
                with_port port (proxy_at host (some user) pass))
            else host_first left right
        | none ↦ host_first left right
      ]
    ]

abbrev pub is_known_protocol : Text → Bool
is_known_protocol p =
    text_eq p (codes "http")
    || text_eq p (codes "https")
    || text_eq p (codes "socks5")
    || text_eq p (codes "socks4")

unfoldable pub third_part : Text → Text → Text → Option ParsedProxy
third_part host port last =
    let proto = strip (map to_lower last) in
    if is_port port
    then with_port port (λ p.
      if is_known_protocol proto
      then record { host = host; port = p; protocol = proto; username = none; password = none }
      else proxy_at host (some last) none p)
    else none

-- The tests on `len(parts)` are the patterns.
unfoldable pub parse_colon_parts : List Text → Option ParsedProxy
parse_colon_parts (host ∷ port ∷ []) = with_port port (proxy_at host none none)
parse_colon_parts (a ∷ b ∷ c ∷ []) = third_part a b c
parse_colon_parts (a ∷ b ∷ c ∷ d ∷ rest) =
    if is_port b && looks_like_host a
    then with_port b (proxy_at a (some c) (some d))
    else if is_port d && looks_like_host c
    then with_port d (proxy_at c (some a) (some b))
    else none
parse_colon_parts _ = none

-- Behind the bracket: `:port@user:pass`, or `:port:user:pass`.
unfoldable pub after_bracket : Text → Text → Option ParsedProxy
after_bracket host rest =
    let (before, auth) = split_once b'@' rest in
    elim auth [
      | some auth ↦
          (let (user, pass) = split_once b':' auth in
            with_port before (proxy_at host (some user) pass))
      | none ↦ elim (split_on b':' rest) [
        | port ∷ more ↦ with_port port (proxy_at host (get_elem? more 0) (get_elem? more 1))
        | [] ↦ none
      ]
    ]

abbrev pub drop_colon : Text → Text
drop_colon [] = []
drop_colon (c ∷ cs) = if c == b':' then cs else c ∷ cs

abbrev pub drop_first : Text → Text
drop_first [] = []
drop_first (c ∷ cs) = cs

-- The opening bracket is the first character of the line.
unfoldable pub parse_ipv6_brackets : Text → Option ParsedProxy
parse_ipv6_brackets line =
    let (host, rest) = split_once b']' (drop_first line) in
    elim rest [ some rest ↦ after_bracket host (drop_colon rest) | none ↦ none ]

-- What `urlparse` of the standard library finds in a line; reading `.port` may raise.
pub record Url : Type 0 where
  pub scheme : Text
  pub hostname : Option Text
  pub port : Option (Option ℕ)
  pub username : Option Text
  pub password : Option Text

abbrev pub or_text : Option Text → Text
or_text none = []
or_text (some s) = s

-- `x or None`
abbrev pub or_none : Option Text → Option Text
or_none none = none
or_none (some s) = if is_empty s then none else some s

abbrev pub default_port : Text → ℕ
default_port protocol =
    if text_eq protocol (codes "socks5")
    then 1080
    else if text_eq protocol (codes "https")
    then 443
    else 8080

-- `parsed.port or …`
abbrev pub port_or : Option ℕ → ℕ → ℕ
port_or none d = d
port_or (some p) d = if p == 0 then d else p

unfoldable pub url_proxy : Url → Option ParsedProxy
url_proxy u =
    let protocol = if is_empty u.scheme then codes "http" else u.scheme in
    elim u.port [
      | none ↦ none
      | some p ↦ some (record {
        host = or_text u.hostname;
        port = pos (port_or p (default_port protocol));
        protocol = protocol;
        username = or_none u.username;
        password = or_none u.password;
      })
    ]

-- "host:port user pass", with a single space; `none` if the line has another format.
unfoldable pub spaced_host_port : List Text → Option (Option ParsedProxy)
spaced_host_port (first ∷ user ∷ rest) = elim (split_on b':' first) [
  | host ∷ port ∷ [] ↦
      if is_port port
      then some (with_port port (proxy_at host (some user) (get_elem? rest 0)))
      else none
  | _ ↦ none
]
spaced_host_port _ = none

abbrev pub head_text : List Text → Text
head_text [] = []
head_text (w ∷ ws) = w

abbrev pub second_is_port : List Text → Bool
second_is_port (a ∷ b ∷ rest) = is_port b
second_is_port _ = false

module _ (urlparse : Text → Url) where
  -- The formats that are not told by `://`, a bracket, a comma or blanks.
  unfoldable pub parse_at_or_colon : Text → Option ParsedProxy
  parse_at_or_colon line =
      if has b'@' line then parse_at_format line else parse_colon_parts (split_on b':' line)

  unfoldable pub parse_spaced : Text → Option ParsedProxy
  parse_spaced line =
      if has b' ' line && has b':' line
      then (let parts = words line in
          elim (spaced_host_port parts) [
            | some result ↦ result
            | none ↦ if second_is_port parts then parse_delimited parts else parse_at_or_colon line
          ])
      else parse_at_or_colon line

  unfoldable pub parse_single_line : Text → Option ParsedProxy
  parse_single_line line =
      if has_text (codes "://") line
      then url_proxy (urlparse line)
      else if starts_with (codes "[") line
      then parse_ipv6_brackets line
      else if has b',' line && not (has b':' (head_text (split_on b',' line)))
      then parse_delimited (split_on b',' line)
      else if has 9 line || has_text (codes "  ") line || has b' ' line && not (has b':' line)
      then parse_delimited (words line)
      else parse_spaced line

  -- The lines of the list from number `i` on: what was parsed, and the lines that were not.
  unfoldable pub parse_lines : ℕ → List Text → List ParsedProxy × List (ℕ × Text)
  parse_lines i [] = ([], [])
  parse_lines i (raw ∷ rest) =
      let line = rstrip_by (λ c. c == 13) (strip raw) in
      let (results, errors) = parse_lines (i + 1) rest in
      if is_empty line || starts_with (codes "#") line
      then (results, errors)
      else elim (parse_single_line line) [
        | some p ↦ (p ∷ results, errors)
        | none ↦ (results, (i, line) ∷ errors)
      ]

  unfoldable pub parse_proxy_list : Text → Option (List ParsedProxy)
  parse_proxy_list text =
      let (results, errors) = parse_lines 1 (splitlines (strip text)) in
      elim results [ p ∷ ps ↦ some (p ∷ ps) | [] ↦ elim errors [ [] ↦ some [] | e ∷ es ↦ none ] ]
