-- ===== src/HttpProxy/Client.antt =====
-- `handle_client` (src/proxy/http_proxy.py), from the lines that the client sends to the end of the
-- connection; the metrics are left out.
use proxysm.Base.{ℕ, Option, none, some, List, [], ◌∷◌, ◌++◌, ◌-◌, ◌&&◌, leb, map, if◌then◌else◌}
use proxysm.Text.{Text, codes, text_eq, is_empty, split_on, strip, words}
use proxysm.Redis.{Redis}
use proxysm.Rotation.Engine.{Upstream, Result, ok, pool_exhausted, get_next_proxy}
use proxysm.Auth.{Db, Grant, Entry, authenticate}
use proxysm.HttpProxy.{Codec, crlf}
use proxysm.HttpProxy.Headers.{read_headers, parse_proxy_auth}
use proxysm.HttpProxy.Connect.{Dialer, Tunnel, raised, handle_connect, tunnel_reply}
use proxysm.HttpProxy.Forward.{HttpClient, Owner, log_row, Handled, silent, handle_http}

abbrev pub Cache : Type 0
Cache = List (Text × Entry Grant)

abbrev pub keep : Grant → Grant
keep g = g

abbrev pub auth_required_reply : Text
auth_required_reply =
    codes "HTTP/1.1 407 Proxy Authentication Required"
    ++ (crlf
        ++ (codes "Proxy-Authenticate: Basic realm="
            ++ (b'"'
                ∷ (codes "Proxysm"
                    ++ b'"' ∷ (crlf ++ (codes "Content-Length: 0" ++ (crlf ++ crlf)))))))

abbrev pub unavailable_reply : Text
unavailable_reply =
    codes "HTTP/1.1 503 Service Unavailable"
    ++ (crlf ++ (codes "Content-Length: 0" ++ (crlf ++ crlf)))

-- `upper`, of ASCII letters; no other letter has a capital in the words that are compared
abbrev pub upper : Text → Text
upper s = map (λ x. if leb b'a' x && leb x b'z' then x - 32 else x) s

abbrev pub concat : List Text → Text
concat [] = []
concat (line ∷ lines) = line ++ concat lines

-- `target.split(":")[0]`
abbrev pub domain_of : Text → Text
domain_of target = elim (split_on b':' target) [ [] ↦ [] | host ∷ parts ↦ host ]

-- `decode("utf-8", errors="replace").strip().split()`
abbrev pub parts_of : Codec → Text → List Text
parts_of c request_line = words (strip (c.decode request_line))

module _ (c : Codec) (dialer : Dialer) (net : HttpClient) (uuid : ℕ → Text) (elapsed now : ℕ) where
  -- A CONNECT request is logged when its tunnel has ended, unless the handler raises.
  abbrev pub connected : Owner → Text → Tunnel → Handled
  connected owner target raised = silent
  connected owner target tunnel =
      (tunnel_reply tunnel, log_row owner 200 elapsed 0 0 (domain_of target) none now ∷ [])

  abbrev pub owner_of : Grant → Upstream → Owner
  owner_of g up = record {
    project_id = uuid g.project_id;
    pool_id = uuid g.pool_id;
    proxy_id = uuid up.id;
  }

  -- What stands behind the choice of the upstream.
  unfoldable pub dispatch : Grant → Upstream → List Text → Text → Text → Handled
  unfolding handle_connect handle_http
  dispatch g up (method ∷ target ∷ version ∷ more) headers_raw body =
      let owner = owner_of g up in
      if text_eq (upper method) (codes "CONNECT")
      then connected owner target (handle_connect c dialer target up)
      else handle_http c net owner elapsed now up (method ∷ target ∷ version ∷ more) headers_raw
          body
  dispatch g up _ headers_raw body = silent

  module _ (R : Redis) (draw_index draw_weight : ℕ → ℕ) (sha256 : Text → Text) (db : Db)
      (t tick : ℕ) where
    open R use {Store}

    abbrev pub routed : Grant → List Text → Text → Text → Result Upstream × Store → Handled × Store
    unfolding dispatch
    routed g parts headers_raw body (pool_exhausted, s) = ((unavailable_reply, []), s)
    routed g parts headers_raw body (ok up, s) = (dispatch g up parts headers_raw body, s)

    abbrev pub granted :
        List Text → Text → Text → Cache → Store → Option Grant → Handled × Cache × Store
    unfolding get_next_proxy
    granted parts headers_raw body cache s none = ((auth_required_reply, []), cache, s)
    granted parts headers_raw body cache s (some g) =
        let (handled, s') =
          routed g parts headers_raw body
            (get_next_proxy R draw_index draw_weight g.pool_id g.strategy none t s) in
        (handled, cache, s')

    -- Once the header block is read; `body` is what the client sends behind it.
    unfoldable pub handle_request : Text → Text → Text → Cache → Store → Handled × Cache × Store
    unfolding parse_proxy_auth authenticate
    handle_request request_line headers_raw body cache s = elim (parse_proxy_auth c headers_raw) [
      | none ↦ ((auth_required_reply, []), cache, s)
      | some (slug, api_key) ↦
          let (grant, cache') = authenticate sha256 keep db slug api_key tick cache in
          granted (parts_of c request_line) headers_raw body cache' s grant
    ]

    -- `lines` is what `readline` gives, an empty line at the end of the input; `body` is what the
    -- client sends behind these lines; `t` is the time of Redis, `tick` the clock of the cache.
    unfoldable pub handle_client : List Text → Text → Cache → Store → Handled × Cache × Store
    unfolding read_headers handle_request
    handle_client [] body cache s = (silent, cache, s)
    handle_client (request_line ∷ lines) body cache s =
        if is_empty request_line
        then (silent, cache, s)
        else let (headers_raw, more) = read_headers lines in
          handle_request request_line headers_raw (concat more ++ body) cache s
