-- ===== src/HttpProxy/Headers.antt =====
-- The header block of a client (src/proxy/http_proxy.py): how `handle_client` reads it, and
-- `_parse_proxy_auth`.
use proxysm.Base.{
  Bool, true, false, ◌||◌, Option, none, some, List, [], ◌∷◌, ◌++◌, ◌==◌, if◌then◌else◌, or_else,
}
use proxysm.Text.{Text, codes, text_eq, is_empty, starts_with, push, split_once}
use proxysm.HttpProxy.{Codec, strip_bytes, lower, crlf}

-- The loop that reads the header block: the block, and the lines behind it.
unfoldable pub read_headers : List Text → Text × List Text
read_headers [] = ([], [])
read_headers (line ∷ lines) =
    let (block, rest) = read_headers lines in
    if is_empty line || text_eq line crlf then ([], lines) else (line ++ block, rest)

-- `split(b"\r\n")`; `after_cr` says that a carriage return stands before.
unfoldable pub split_from : Bool → Text → List Text
split_from after_cr [] = if after_cr then (13 ∷ []) ∷ [] else [] ∷ []
split_from after_cr (x ∷ s) =
    let plain = split_from false s in
    let held = split_from true s in
    let next = if x == 13 then held else push x plain in
    if after_cr then (if x == 10 then [] ∷ plain else push 13 next) else next

unfoldable pub split_crlf : Text → List Text
unfolding split_from
split_crlf s = split_from false s

-- `line.lower().startswith(b"proxy-authorization:")`
abbrev pub is_proxy_auth : Text → Bool
is_proxy_auth line = starts_with (codes "proxy-authorization:") (lower line)

-- `line.split(b":", 1)[1].strip()` of a line with a colon
abbrev pub value_of : Text → Text
value_of line = strip_bytes (or_else (split_once b':' line).1 [])

-- `value[6:]` of a value that begins with "basic "
abbrev pub after_basic : Text → Option Text
after_basic value =
    if starts_with (codes "basic ") (lower value) then some (drop_six value) else none
  where
    drop_six : Text → Text
    drop_six (a ∷ b ∷ c ∷ d ∷ e ∷ f ∷ s) = s
    drop_six _ = []

-- The slug and the key of what was decoded.
abbrev pub credentials : Codec → Text → Option (Text × Text)
credentials c encoded = elim (c.b64decode encoded) [
  | none ↦ none
  | some bytes ↦
      let (slug, api_key) = split_once b':' (c.decode bytes) in some (slug, or_else api_key [])
]

unfoldable pub auth_of_lines : Codec → List Text → Option (Text × Text)
auth_of_lines c [] = none
auth_of_lines c (line ∷ lines) =
    let rest = auth_of_lines c lines in
    if is_proxy_auth line
    then (elim (after_basic (value_of line)) [ none ↦ rest | some encoded ↦ credentials c encoded ])
    else rest

unfoldable pub parse_proxy_auth : Codec → Text → Option (Text × Text)
unfolding split_crlf auth_of_lines
parse_proxy_auth c headers_raw = auth_of_lines c (split_crlf headers_raw)
