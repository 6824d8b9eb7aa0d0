-- ===== src/HttpProxy/Route.antt =====
-- Through which upstream a request of the HTTP proxy goes (src/proxy/http_proxy.py): a network that
-- is cut down to one upstream, and what makes no difference there.
use proxysm.Base.{
  ℕ, ◌≡◌, refl, ap, false, not, ◌&&◌, none, List, [], ◌∷◌, if◌then◌else◌, Bool-cases, Option-cases,
  inl, inr,
}
use proxysm.Base.Int.{ℤ, eq_ℤ, eq_ℤ_refl}
use proxysm.Text.{Text, codes, text_eq, split_on}
use proxysm.Text.Laws.{text_eq_refl}
use proxysm.Rotation.Engine.{Upstream}
use proxysm.Auth.{Grant}
use proxysm.HttpProxy.{Codec}
use proxysm.HttpProxy.Connect.{Dialer, url_of, connect_request, destination, dial, handle_connect}
use proxysm.HttpProxy.Forward.{
  Fetch, HttpClient, Owner, proxy_url, is_socks, Dict, forward_headers, read_body, respond,
  exchange, forward, handle_http,
}
use proxysm.HttpProxy.Client.{upper, connected, owner_of, dispatch}

-- No connection is made, and no request succeeds.
abbrev pub no_dialer : Dialer
no_dialer = record {
  socks_connect = λ url host port. false;
  connect_reply = λ host port tls request. none;
}

abbrev pub no_client : HttpClient → HttpClient
no_client net = record net { fetch = λ asked. none }

-- Connections to this upstream are as they were, and no other is made.
abbrev pub over_dialer : Upstream → Dialer → Dialer
over_dialer up net = record {
  socks_connect =
      λ url host port. text_eq url (url_of (codes "socks5") up) && net.socks_connect url host port;
  connect_reply = λ host port tls request.
      if text_eq host up.host && eq_ℤ port up.port
      then net.connect_reply host port tls request
      else none;
}

-- And of the requests those that go through this upstream.
abbrev pub over_client : Upstream → HttpClient → HttpClient
over_client up net = record net {
  fetch = λ asked. if text_eq asked.proxy_url (proxy_url up) then net.fetch asked else none;
}

dial-over :
    (c : Codec) (net : Dialer) (host : Text) (port : ℤ) (up : Upstream)
    → dial c (over_dialer up net) host port up ≡ dial c net host port up
unfolding dial connect_request
dial-over c net host port up =
    rw (text_eq_refl (url_of (codes "socks5") up), text_eq_refl up.host, eq_ℤ_refl up.port) refl

handle_connect-over :
    (c : Codec) (net : Dialer) (target : Text) (up : Upstream)
    → handle_connect c (over_dialer up net) target up ≡ handle_connect c net target up
unfolding handle_connect
handle_connect-over c net target up = elim (Option-cases (destination (split_on b':' target))) [
  | inl e ↦ rw (e, handle_connect) refl
  | inr ((host, port), e) ↦ rw (e, handle_connect) (dial-over c net host port up)
]

module _ (c : Codec) (net : HttpClient) (owner : Owner) (elapsed now : ℕ) (up : Upstream) where
  exchange-over :
      (method url : Text) (headers : Dict) (body : Text)
      → exchange c (over_client up net) owner elapsed now up method url headers body
        ≡ exchange c net owner elapsed now up method url headers body
  unfolding exchange respond
  exchange-over method url headers body =
      let asked : Fetch = record {
        proxy_url = proxy_url up;
        method = method;
        url = url;
        headers = headers;
        body = body;
      } in
      let same : (over_client up net).fetch asked ≡ net.fetch asked =
        rw (text_eq_refl (proxy_url up)) refl in
      elim (Option-cases (net.fetch asked)) [
        | inl e ↦ rw (same, e, exchange) refl
        | inr (resp, e) ↦ rw (same, e, exchange) refl
      ]

  forward-over :
      (method url headers_raw rest : Text)
      → forward c (over_client up net) owner elapsed now up method url headers_raw rest
        ≡ forward c net owner elapsed now up method url headers_raw rest
  unfolding forward
  forward-over method url headers_raw rest = elim (Option-cases (forward_headers c headers_raw)) [
    | inl e ↦ rw (e, forward) refl
    | inr ((headers, n), e) ↦ elim (Option-cases (read_body n rest)) [
      | inl f ↦ rw (e, f, forward) refl
      | inr (body, f) ↦ rw (e, f, forward) (exchange-over method url headers body)
    ]
  ]

  handle_http-over :
      (parts : List Text) (headers_raw rest : Text)
      → handle_http c (over_client up net) owner elapsed now up parts headers_raw rest
        ≡ handle_http c net owner elapsed now up parts headers_raw rest
  unfolding handle_http
  handle_http-over [] headers_raw rest = refl
  handle_http-over (method ∷ []) headers_raw rest = refl
  handle_http-over (method ∷ url ∷ []) headers_raw rest = refl
  handle_http-over (method ∷ url ∷ version ∷ more) headers_raw rest =
      elim (Bool-cases (is_socks up && not (net.from_url (proxy_url up)))) [
        | inl e ↦ rw (e, handle_http) refl
        | inr e ↦ rw (e, handle_http) (forward-over method url headers_raw rest)
      ]

-- What is done with a request, once its upstream is chosen, is done through this upstream.
pub dispatch-over :
    (c : Codec) (dialer : Dialer) (net : HttpClient) (uuid : ℕ → Text) (elapsed now : ℕ) (g : Grant)
    (up : Upstream) (parts : List Text) (headers_raw body : Text)
    → dispatch c
        (over_dialer up dialer)
        (over_client up net)
        uuid
        elapsed
        now
        g
        up
        parts
        headers_raw
        body
      ≡ dispatch c dialer net uuid elapsed now g up parts headers_raw body
unfolding dispatch
dispatch-over c dialer net uuid elapsed now g up [] headers_raw body = refl
dispatch-over c dialer net uuid elapsed now g up (method ∷ []) headers_raw body = refl
dispatch-over c dialer net uuid elapsed now g up (method ∷ url ∷ []) headers_raw body = refl
dispatch-over c dialer net uuid elapsed now g up (method ∷ target ∷ version ∷ more) headers_raw
      body =
    let owner = owner_of c dialer net uuid elapsed now g up in
    elim (Bool-cases (text_eq (upper method) (codes "CONNECT"))) [
      | inl e ↦
          rw (e, dispatch)
            (ap (connected c dialer net uuid elapsed now owner target)
              (handle_connect-over c dialer target up))
      | inr e ↦
          rw (e, dispatch)
            (handle_http-over c net owner elapsed now up (method ∷ target ∷ version ∷ more)
              headers_raw body)
    ]
