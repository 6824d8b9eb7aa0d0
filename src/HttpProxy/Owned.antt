-- ===== src/HttpProxy/Owned.antt =====
-- Under which ids a request of the HTTP proxy is logged (src/proxy/http_proxy.py).
use proxysm.Base.{
  ℕ, ◌≡◌, refl, true, false, not, ◌&&◌, List, [], ◌∷◌, All, Bool-cases, Option-cases, inl, inr,
}
use proxysm.Text.{Text, codes, text_eq, is_empty}
use proxysm.Rotation.Engine.{Upstream}
use proxysm.Auth.{Grant}
use proxysm.RequestLogger.{RequestLog}
use proxysm.HttpProxy.{Codec}
use proxysm.HttpProxy.Connect.{Dialer, Tunnel, raised, bad_gateway, established, handle_connect}
use proxysm.HttpProxy.Forward.{
  Fetch, HttpClient, Owner, proxy_url, is_socks, Dict, logged, Response, Ending, cut_off,
  undelivered, delivered, response_head, response_bytes, answered_rows, broken, respond,
  forward_headers, read_body, exchange, forward, handle_http,
}
use proxysm.HttpProxy.Client.{upper, connected, owner_of, dispatch}

-- The row is logged under these ids.
abbrev pub IsOwned : Owner → RequestLog → Type 0
IsOwned owner r =
    (r.project_id ≡ owner.project_id) × (r.pool_id ≡ owner.pool_id) × (r.proxy_id ≡ owner.proxy_id)

logged-IsOwned : (owner : Owner) (r : RequestLog) → IsOwned owner r → All (IsOwned owner) (logged r)
logged-IsOwned owner r h = elim (Bool-cases (is_empty r.project_id)) [
  | inl e ↦ rw (e, logged) tt
  | inr e ↦ rw (e, logged) (h, tt)
]

module _ (c : Codec) (net : HttpClient) (owner : Owner) (elapsed now : ℕ) where
  broken-IsOwned :
      (url out : Text) (rows : List RequestLog)
      → All (IsOwned owner) rows
      → All (IsOwned owner) (broken c net owner elapsed now url out rows).1
  broken-IsOwned url out [] all = logged-IsOwned owner _ (refl, refl, refl)
  broken-IsOwned url out (r ∷ rows) all = (all.0, broken-IsOwned url out rows all.1)

  respond-IsOwned :
      (url body : Text) (resp : Response) (ending : Ending)
      → All (IsOwned owner) (respond c net owner elapsed now url body resp ending).1
  unfolding respond
  respond-IsOwned url body resp cut_off = broken-IsOwned url (response_head c resp) [] tt
  respond-IsOwned url body resp (undelivered content) =
      broken-IsOwned url (response_bytes c resp content) [] tt
  respond-IsOwned url body resp (delivered content true) = logged-IsOwned owner _ (refl, refl, refl)
  respond-IsOwned url body resp (delivered content false) =
      broken-IsOwned url (response_bytes c resp content)
        (answered_rows c net owner elapsed now resp content url body)
        (logged-IsOwned owner _ (refl, refl, refl))

  exchange-IsOwned :
      (up : Upstream) (method url : Text) (headers : Dict) (body : Text)
      → All (IsOwned owner) (exchange c net owner elapsed now up method url headers body).1
  unfolding exchange
  exchange-IsOwned up method url headers body =
      let asked : Fetch = record {
        proxy_url = proxy_url up;
        method = method;
        url = url;
        headers = headers;
        body = body;
      } in
      elim (Option-cases (net.fetch asked)) [
        | inl e ↦ rw (e, exchange) (broken-IsOwned url [] [] tt)
        | inr (resp, e) ↦ rw (e, exchange) (respond-IsOwned url body resp resp.ending)
      ]

  forward-IsOwned :
      (up : Upstream) (method url headers_raw rest : Text)
      → All (IsOwned owner) (forward c net owner elapsed now up method url headers_raw rest).1
  unfolding forward
  forward-IsOwned up method url headers_raw rest =
      elim (Option-cases (forward_headers c headers_raw)) [
        | inl e ↦ rw (e, forward) tt
        | inr ((headers, n), e) ↦ elim (Option-cases (read_body n rest)) [
          | inl f ↦ rw (e, f, forward) tt
          | inr (body, f) ↦ rw (e, f, forward) (exchange-IsOwned up method url headers body)
        ]
      ]

  handle_http-IsOwned :
      (up : Upstream) (parts : List Text) (headers_raw rest : Text)
      → All (IsOwned owner) (handle_http c net owner elapsed now up parts headers_raw rest).1
  unfolding handle_http
  handle_http-IsOwned up [] headers_raw rest = tt
  handle_http-IsOwned up (method ∷ []) headers_raw rest = tt
  handle_http-IsOwned up (method ∷ url ∷ []) headers_raw rest = tt
  handle_http-IsOwned up (method ∷ url ∷ version ∷ more) headers_raw rest =
      elim (Bool-cases (is_socks up && not (net.from_url (proxy_url up)))) [
        | inl e ↦ rw (e, handle_http) tt
        | inr e ↦ rw (e, handle_http) (forward-IsOwned up method url headers_raw rest)
      ]

module _ (c : Codec) (dialer : Dialer) (net : HttpClient) (uuid : ℕ → Text) (elapsed now : ℕ) where
  connected-IsOwned :
      (owner : Owner) (target : Text) (tunnel : Tunnel)
      → All (IsOwned owner) (connected c dialer net uuid elapsed now owner target tunnel).1
  connected-IsOwned owner target raised = tt
  connected-IsOwned owner target bad_gateway = ((refl, refl, refl), tt)
  connected-IsOwned owner target established = ((refl, refl, refl), tt)

  pub dispatch-IsOwned :
      (g : Grant) (up : Upstream) (parts : List Text) (headers_raw body : Text)
      → All
          (IsOwned (owner_of c dialer net uuid elapsed now g up))
          (dispatch c dialer net uuid elapsed now g up parts headers_raw body).1
  unfolding dispatch
  dispatch-IsOwned g up [] headers_raw rest = tt
  dispatch-IsOwned g up (method ∷ []) headers_raw rest = tt
  dispatch-IsOwned g up (method ∷ url ∷ []) headers_raw rest = tt
  dispatch-IsOwned g up (method ∷ target ∷ version ∷ more) headers_raw body =
      let owner = owner_of c dialer net uuid elapsed now g up in
      elim (Bool-cases (text_eq (upper method) (codes "CONNECT"))) [
        | inl e ↦
            rw (e, dispatch) (connected-IsOwned owner target (handle_connect c dialer target up))
        | inr e ↦
            rw (e, dispatch)
              (handle_http-IsOwned c net owner elapsed now up (method ∷ target ∷ version ∷ more)
                headers_raw body)
      ]
