-- ===== src/HttpProxy/Connect.antt =====
-- `_handle_connect` (src/proxy/http_proxy.py): the tunnel of a CONNECT request. The relay behind the
-- acceptance is left out.
use proxysm.Base.{Bool, true, false, ◌||◌, Option, none, some, List, [], ◌∷◌, ◌++◌, if◌then◌else◌}
use proxysm.Base.Int.{ℤ, pos, eq_ℤ}
use proxysm.Text.{Text, codes, text_eq, is_empty, has_text, split_on, parse_int}
use proxysm.Rotation.Engine.{Upstream}
use proxysm.HttpProxy.{Codec, crlf, print_int}

-- What the network does: none is an exception, a timeout included. `socks_connect` is the connection
-- to a host through the proxy at a URL; `connect_reply` sends bytes to a host and port, with or
-- without TLS, and reads the first line of the reply and its headers.
pub record Dialer : Type 0 where
  pub socks_connect : Text → Text → ℤ → Bool
  pub connect_reply : Text → ℤ → Bool → Text → Option Text

-- How the handler ends: by a `ValueError`, with a 502, or with the tunnel.
pub data Tunnel : Type 0 where
  raised bad_gateway established : Tunnel

-- The text of an optional field in an f-string.
abbrev pub shown : Option Text → Text
shown none = codes "None"
shown (some s) = s

-- `if up_user`
abbrev pub has_user : Upstream → Bool
has_user up = elim up.username [
  | none ↦ false
  | some user ↦ (if is_empty user then false else true)
]

-- f"{scheme}://{up_user}:{up_pass}@{up_host}:{up_port}", or without the credentials
abbrev pub url_of : Text → Upstream → Text
url_of scheme up =
    let address = up.host ++ b':' ∷ print_int up.port in
    scheme
    ++ (codes "://"
        ++ (if has_user up
            then shown up.username ++ b':' ∷ (shown up.password ++ b'@' ∷ address)
            else address))

abbrev pub use_ssl : Upstream → Bool
use_ssl up =
    text_eq up.protocol (codes "https") || eq_ℤ up.port (pos 443) || eq_ℤ up.port (pos 8443)

-- The host and the port of the target; none is a port that is no number.
abbrev pub destination : List Text → Option (Text × ℤ)
destination [] = none
destination (host ∷ []) = some (host, pos 443)
destination (host ∷ port ∷ more) = elim (parse_int port) [ none ↦ none | some n ↦ some (host, n) ]

-- The header that logs in to the upstream.
abbrev pub login : Codec → Upstream → Text
login c up =
    codes "Proxy-Authorization: Basic "
    ++ (c.b64encode (c.encode (shown up.username ++ b':' ∷ shown up.password)) ++ crlf)

abbrev pub host_header : Text → ℤ → Text
host_header host port = codes "Host: " ++ (host ++ b':' ∷ (print_int port ++ crlf))

abbrev pub connect_head : Codec → Text → ℤ → Upstream → Text
connect_head c host port up = host_header host port ++ (if has_user up then login c up else [])

unfoldable pub connect_request : Codec → Text → ℤ → Upstream → Text
connect_request c host port up =
    codes "CONNECT "
    ++ (host
        ++ b':'
          ∷ (print_int port
              ++ (codes " HTTP/1.1" ++ (crlf ++ (connect_head c host port up ++ crlf)))))

unfoldable pub dial : Codec → Dialer → Text → ℤ → Upstream → Tunnel
unfolding connect_request
dial c net host port up =
    if text_eq up.protocol (codes "socks5")
    then (if net.socks_connect (url_of (codes "socks5") up) host port
        then established
        else bad_gateway)
    else (elim (net.connect_reply up.host up.port (use_ssl up)
        (c.encode (connect_request c host port up))) [
          | none ↦ bad_gateway
          | some line ↦ if has_text (codes "200") line then established else bad_gateway
        ])

unfoldable pub handle_connect : Codec → Dialer → Text → Upstream → Tunnel
unfolding dial
handle_connect c net target up = elim (destination (split_on b':' target)) [
  | none ↦ raised
  | some (host, port) ↦ dial c net host port up
]

abbrev pub bad_gateway_reply : Text
bad_gateway_reply =
    codes "HTTP/1.1 502 Bad Gateway" ++ (crlf ++ (codes "Content-Length: 0" ++ (crlf ++ crlf)))

-- What the client is sent.
abbrev pub tunnel_reply : Tunnel → Text
tunnel_reply raised = []
tunnel_reply bad_gateway = bad_gateway_reply
tunnel_reply established = codes "HTTP/1.1 200 Connection Established" ++ (crlf ++ crlf)
