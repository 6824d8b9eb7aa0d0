-- ===== src/HttpProxy/Forward.antt =====
-- `_handle_http` (src/proxy/http_proxy.py): a request other than CONNECT, forwarded with its headers
-- and its body, and the response.
use proxysm.Base.{
  ℕ, zero, suc, Bool, not, ◌&&◌, ◌||◌, Option, none, some, List, [], ◌∷◌, ◌++◌, length,
  if◌then◌else◌,
}
use proxysm.Base.Int.{ℤ, pos, negsuc}
use proxysm.Text.{Text, codes, text_eq, is_empty, split_once, strip, parse_int}
use proxysm.Text.Decimal.{print}
use proxysm.Rotation.Engine.{Upstream}
use proxysm.Socks5.{read_exactly}
use proxysm.RequestLogger.{RequestLog}
use proxysm.HttpProxy.{Codec, lower, crlf}
use proxysm.HttpProxy.Headers.{split_crlf, is_proxy_auth}
use proxysm.HttpProxy.Connect.{url_of, use_ssl, bad_gateway_reply}

abbrev pub Dict : Type 0
Dict = List (Text × Text)

-- `d[key] = value`
unfoldable pub dict_set : Text → Text → Dict → Dict
dict_set key value [] = (key, value) ∷ []
dict_set key value ((k, v) ∷ d) =
    let rest = dict_set key value d in if text_eq k key then (k, value) ∷ d else (k, v) ∷ rest

-- `forward_headers` and `content_length`
abbrev pub Forwarded : Type 0
Forwarded = Dict × ℤ

-- One line of the loop; none is a `ValueError`.
abbrev pub set_header : Text → Text → Forwarded → Option Forwarded
set_header key value (d, n) =
    if text_eq (lower key) (codes "content-length")
    then (elim (parse_int value) [ none ↦ none | some m ↦ some (dict_set key value d, m) ])
    else some (dict_set key value d, n)

abbrev pub forward_line : Codec → Text → Forwarded → Option Forwarded
unfolding dict_set
forward_line c line st =
    if is_empty line || is_proxy_auth line then some st else elim (split_once b':' line).1 [
      | none ↦ some st
      | some value ↦
          set_header (strip (c.decode (split_once b':' line).0)) (strip (c.decode value)) st
    ]

unfoldable pub forward_each : Codec → List Text → Forwarded → Option Forwarded
unfolding dict_set
forward_each c [] st = some st
forward_each c (line ∷ lines) st = elim (forward_line c line st) [
  | none ↦ none
  | some st' ↦ forward_each c lines st'
]

unfoldable pub forward_headers : Codec → Text → Option Forwarded
unfolding split_crlf forward_each
forward_headers c headers_raw = forward_each c (split_crlf headers_raw) ([], pos 0)

-- The body of the request: none if the client sends fewer bytes than it said.
unfoldable pub read_body : ℤ → Text → Option Text
unfolding read_exactly
read_body (pos zero) rest = some []
read_body (pos (suc n)) rest = elim (read_exactly (suc n) rest) [
  | none ↦ none
  | some (body, more) ↦ some body
]
read_body (negsuc n) rest = some []

-- What is asked of the HTTP client: through which proxy, and what.
pub record Fetch : Type 0 where
  pub proxy_url : Text
  pub method : Text
  pub url : Text
  pub headers : Dict
  pub body : Text

-- How a response goes on behind its headers: its body cannot be read, the body is written and the
-- `drain` behind it raises, or it is delivered, and then whether what stands behind the log in the
-- `try`, the end of the session included, raises nothing.
pub data Ending : Type 0 where
  cut_off : Ending
  undelivered : Text → Ending
  delivered : Text → Bool → Ending

pub record Response : Type 0 where
  pub status : ℕ
  pub reason : Text
  pub headers : Dict
  pub ending : Ending

-- The HTTP client: whether `ProxyConnector.from_url` takes the URL of a SOCKS5 proxy, and what the
-- request gives, where none is an exception before there is a response. `hostname` is `urlparse(url).hostname or ""`, or "" if
-- that raises.
pub record HttpClient : Type 0 where
  pub from_url : Text → Bool
  pub fetch : Fetch → Option Response
  pub hostname : Text → Text

abbrev pub is_socks : Upstream → Bool
is_socks up = text_eq up.protocol (codes "socks5")

abbrev pub proxy_url : Upstream → Text
proxy_url up =
    if is_socks up
    then url_of (codes "socks5") up
    else url_of (if use_ssl up then codes "https" else codes "http") up

abbrev pub header_line : Codec → Text → Text → Text
header_line c key value = c.encode (key ++ (codes ": " ++ (value ++ crlf)))

unfoldable pub response_headers : Codec → Dict → Text
response_headers c [] = []
response_headers c ((k, v) ∷ d) =
    let rest = response_headers c d in
    if text_eq (lower k) (codes "transfer-encoding") then rest else header_line c k v ++ rest

-- What is written to the client before the body is read.
unfoldable pub response_head : Codec → Response → Text
unfolding response_headers
response_head c resp =
    c.encode (codes "HTTP/1.1 " ++ (print resp.status ++ b' ' ∷ (resp.reason ++ crlf)))
    ++ response_headers c resp.headers

-- And with the body.
unfoldable pub response_bytes : Codec → Response → Text → Text
unfolding response_head
response_bytes c resp resp_body =
    response_head c resp
    ++ (c.encode (codes "Content-Length: " ++ (print (length resp_body) ++ (crlf ++ crlf)))
        ++ resp_body)

-- The ids that a request is logged under.
pub record Owner : Type 0 where
  pub project_id : Text
  pub pool_id : Text
  pub proxy_id : Text

abbrev pub log_row : Owner → ℕ → ℕ → ℕ → ℕ → Text → Option Text → ℕ → RequestLog
log_row owner status elapsed sent received domain error now = record {
  project_id = owner.project_id;
  pool_id = owner.pool_id;
  proxy_id = owner.proxy_id;
  status_code = status;
  response_time_ms = elapsed;
  bytes_sent = sent;
  bytes_received = received;
  target_domain = domain;
  error_type = error;
  created_at = now;
}

-- What a handler writes to the client, and what it logs.
abbrev pub Handled : Type 0
Handled = Text × List RequestLog

abbrev pub silent : Handled
silent = ([], [])

-- `if project_id:`
abbrev pub logged : RequestLog → List RequestLog
logged r = if is_empty r.project_id then [] else r ∷ []

module _ (c : Codec) (net : HttpClient) (owner : Owner) (elapsed now : ℕ) where
  -- The row of a request that is answered.
  abbrev pub answered_rows : Response → Text → Text → Text → List RequestLog
  answered_rows resp resp_body url body = logged (
      log_row owner resp.status elapsed (length body) (length resp_body) (net.hostname url) none
        now)

  -- The `except`, behind what was written and logged.
  abbrev pub broken : Text → Text → List RequestLog → Handled
  broken url out rows = (
    out ++ bad_gateway_reply,
    rows
        ++ logged (log_row owner 0 elapsed 0 0 (net.hostname url) (some (codes "proxy_error")) now),
  )

  unfoldable pub respond : Text → Text → Response → Ending → Handled
  respond url body resp cut_off = broken url (response_head c resp) []
  respond url body resp (undelivered resp_body) = broken url (response_bytes c resp resp_body) []
  respond url body resp (delivered resp_body ends) =
      let out = response_bytes c resp resp_body in
      let rows = answered_rows resp resp_body url body in
      if ends then (out, rows) else broken url out rows

  -- The `try`.
  unfoldable pub exchange : Upstream → Text → Text → Dict → Text → Handled
  unfolding respond
  exchange up method url headers body =
      let asked : Fetch = record {
        proxy_url = proxy_url up;
        method = method;
        url = url;
        headers = headers;
        body = body;
      } in
      elim (net.fetch asked) [
        | none ↦ broken url [] []
        | some resp ↦ respond url body resp resp.ending
      ]

  -- What stands before the `try`, where an exception ends the connection.
  unfoldable pub forward : Upstream → Text → Text → Text → Text → Handled
  unfolding forward_headers read_body exchange
  forward up method url headers_raw rest = elim (forward_headers c headers_raw) [
    | none ↦ silent
    | some (headers, n) ↦ elim (read_body n rest) [
      | none ↦ silent
      | some body ↦ exchange up method url headers body
    ]
  ]

  unfoldable pub handle_http : Upstream → List Text → Text → Text → Handled
  unfolding forward
  handle_http up (method ∷ url ∷ version ∷ more) headers_raw rest =
      if is_socks up && not (net.from_url (proxy_url up))
      then silent
      else forward up method url headers_raw rest
  handle_http up _ headers_raw rest = silent
