-- ===== src/HttpProxy/Gate.antt =====
-- Who gets through the HTTP proxy (src/proxy/http_proxy.py).
use proxysm.Base.{
  ℕ, ◌≡◌, ◌⊎◌, refl, sym, ◌∙◌, Option, false, none, some, List, [], ◌∷◌, ◌++◌, All, Bool-cases,
  Option-cases, inl, inr,
}
use proxysm.Text.{Text, is_empty}
use proxysm.Redis.{Redis}
use proxysm.Rotation.{dead_in}
use proxysm.Rotation.Engine.{Upstream, Result, ok, pool_exhausted, get_next_proxy}
use proxysm.Rotation.Engine.Alive.{get_next_proxy-alive}
use proxysm.Auth.{Db, Grant, look_up, authenticate}
use proxysm.Auth.Cache.{IsSound, authenticate_lem}
use proxysm.HttpProxy.{Codec}
use proxysm.HttpProxy.Headers.{read_headers, parse_proxy_auth}
use proxysm.HttpProxy.Connect.{Dialer}
use proxysm.HttpProxy.Route.{no_dialer, no_client, over_dialer, over_client, dispatch-over}
use proxysm.HttpProxy.Forward.{Handled, HttpClient}
use proxysm.HttpProxy.Client.{
  Cache, keep, concat, auth_required_reply, parts_of, dispatch, routed, granted, handle_request,
  handle_client,
}
use proxysm.HttpProxy.Owned.{IsOwned, dispatch-IsOwned}

module _ (c : Codec) (dialer : Dialer) (net : HttpClient) (uuid : ℕ → Text) (elapsed now : ℕ) where
  module _ (R : Redis) (draw_index draw_weight : ℕ → ℕ) (sha256 : Text → Text) (db : Db)
      (injective : (k l : Text) → sha256 k ≡ sha256 l → k ≡ l) (t tick : ℕ) where
    open R use {Store}

    -- What a request with these credentials, if any, comes to, on a network that is an argument: nothing is logged, and nothing is
    -- reached; or the tables accept the credentials, the rotation gives an upstream for the
    -- pool of these, which is not dead, all is done through it, and what is logged is under these ids.
    abbrev pub IsGranted : Option (Text × Text) → Store → (Dialer → HttpClient → Handled) → Type 0
    IsGranted sent s on =
        ((on dialer net).1 ≡ []) × (on dialer net ≡ on no_dialer (no_client net))
        ⊎ ((slug : Text) × (api_key : Text) × (g : Grant) × (up : Upstream) × (sent
              ≡ some (slug, api_key))
            × (look_up sha256 keep db slug api_key ≡ some g)
            × ((get_next_proxy R draw_index draw_weight g.pool_id g.strategy none t s).0 ≡ ok up)
            × (dead_in R t s up.id ≡ false)
            × (on dialer net ≡ on (over_dialer up dialer) (over_client up net))
            × All
                (IsOwned (record {
                  project_id = uuid g.project_id;
                  pool_id = uuid g.pool_id;
                  proxy_id = uuid up.id;
                }))
                (on dialer net).1)

    granted-IsGranted :
        (parts : List Text) (headers_raw body slug api_key : Text) (cache : Cache) (s : Store)
        (g : Grant)
        → look_up sha256 keep db slug api_key ≡ some g
        → IsGranted (some (slug, api_key)) s (λ d n.
          (granted c d n uuid elapsed now R draw_index draw_weight sha256 db t tick parts
            headers_raw body cache s
            (some g)).0)
    unfolding dispatch get_next_proxy
    granted-IsGranted parts headers_raw body slug api_key cache s g found =
        let next = get_next_proxy R draw_index draw_weight g.pool_id g.strategy none t s in
        go next.0 next.1 refl
      where
        go :
            (answer : Result Upstream) (s' : Store)
            → (get_next_proxy R draw_index draw_weight g.pool_id g.strategy none t s).0 ≡ answer
            → IsGranted (some (slug, api_key)) s (λ d n.
              (routed c d n uuid elapsed now R draw_index draw_weight sha256 db t tick g parts
                headers_raw body
                (answer, s')).0)
        go pool_exhausted s' e = inl (refl, refl)
        go (ok up) s' e = inr (
          slug,
          api_key,
          g,
          up,
          refl,
          found,
          e,
          get_next_proxy-alive R draw_index draw_weight g.pool_id g.strategy none t s up e,
          sym (dispatch-over c dialer net uuid elapsed now g up parts headers_raw body),
          dispatch-IsOwned c dialer net uuid elapsed now g up parts headers_raw body,
        )

    handle_request-IsGranted :
        (request_line headers_raw body : Text) (cache : Cache) (s : Store)
        → IsSound sha256 keep db cache
        → IsGranted (parse_proxy_auth c headers_raw) s (λ d n.
          (handle_request c d n uuid elapsed now R draw_index draw_weight sha256 db t tick
            request_line headers_raw body cache s).0)
          × IsSound sha256 keep db
              (handle_request c dialer net uuid elapsed now R draw_index draw_weight sha256 db t
                tick request_line headers_raw body cache s).1
    unfolding handle_request dispatch get_next_proxy
    handle_request-IsGranted request_line headers_raw body cache s sound =
        elim (Option-cases (parse_proxy_auth c headers_raw)) [
          | inl e ↦ rw (e, handle_request) (inl (refl, refl), sound)
          | inr ((slug, api_key), e) ↦
              let (answer, sound') =
                authenticate_lem sha256 keep db injective slug api_key tick cache sound in
              elim (Option-cases (look_up sha256 keep db slug api_key)) [
                | inl f ↦ rw (e, answer ∙ f, handle_request) (inl (refl, refl), sound')
                | inr (g, f) ↦
                    rw (e, answer ∙ f, handle_request)
                      (
                        granted-IsGranted (parts_of c request_line) headers_raw body slug api_key
                            (authenticate sha256 keep db slug api_key tick cache).1 s g f,
                        sound',
                      )
              ]
        ]

    -- Whatever a client sends, either nothing is logged for it and no upstream is reached, or its
    -- header block has credentials that the tables accept, and then whatever is done and logged goes
    -- through the upstream that the rotation gives for their pool, which is not dead: the outcome is
    -- the same on a network where only this upstream can be reached, and every row is logged under the
    -- project and the pool that the tables grant and the id of this upstream. The cache stays sound.
    -- The cache is sound before, and the hash is injective.
    pub handle_client-IsGranted :
        (request_line : Text) (lines : List Text) (body : Text) (cache : Cache) (s : Store)
        → IsSound sha256 keep db cache
        → IsGranted (parse_proxy_auth c (read_headers lines).0) s (λ d n.
          (handle_client c d n uuid elapsed now R draw_index draw_weight sha256 db t tick
            (request_line ∷ lines)
            body
            cache
            s).0)
          × IsSound sha256 keep db
              (handle_client c dialer net uuid elapsed now R draw_index draw_weight sha256 db t tick
                (request_line ∷ lines)
                body
                cache
                s).1
    unfolding handle_client
    handle_client-IsGranted request_line lines body cache s sound =
        elim (Bool-cases (is_empty request_line)) [
          | inl e ↦ rw (e, handle_client) (inl (refl, refl), sound)
          | inr e ↦
              let (headers_raw, more) = read_headers lines in
              rw (e, handle_client)
                (handle_request-IsGranted request_line headers_raw (concat more ++ body) cache s
                  sound)
        ]

    rejected_request :
        (request_line headers_raw body : Text) (cache : Cache) (s : Store)
        → IsSound sha256 keep db cache
        → ((slug api_key : Text)
            → parse_proxy_auth c headers_raw ≡ some (slug, api_key)
            → look_up sha256 keep db slug api_key ≡ none)
        → let (handled, cache', s') =
            handle_request c dialer net uuid elapsed now R draw_index draw_weight sha256 db t tick
              request_line headers_raw body cache s in
          (handled ≡ (auth_required_reply, [])) × (s' ≡ s)
    unfolding handle_request dispatch get_next_proxy
    rejected_request request_line headers_raw body cache s sound refused =
        elim (Option-cases (parse_proxy_auth c headers_raw)) [
          | inl e ↦ rw (e, handle_request) (refl, refl)
          | inr ((slug, api_key), e) ↦
              let (answer, sound') =
                authenticate_lem sha256 keep db injective slug api_key tick cache sound in
              rw (e, answer ∙ refused slug api_key e, handle_request) (refl, refl)
        ]

    -- A request whose header block has no credentials, or has credentials that the tables do not
    -- accept, gets exactly the 407; nothing is logged, and Redis is not touched. The cache is sound,
    -- the hash is injective, and a first line was read.
    pub handle_client-rejected :
        (request_line : Text) (lines : List Text) (body : Text) (cache : Cache) (s : Store)
        → is_empty request_line ≡ false
        → IsSound sha256 keep db cache
        → ((slug api_key : Text)
            → parse_proxy_auth c (read_headers lines).0 ≡ some (slug, api_key)
            → look_up sha256 keep db slug api_key ≡ none)
        → let (handled, cache', s') =
            handle_client c dialer net uuid elapsed now R draw_index draw_weight sha256 db t tick
              (request_line ∷ lines)
              body
              cache
              s in
          (handled ≡ (auth_required_reply, [])) × (s' ≡ s)
    unfolding handle_client
    handle_client-rejected request_line lines body cache s e sound refused =
        let (headers_raw, more) = read_headers lines in
        rw (e, handle_client)
          (rejected_request request_line headers_raw (concat more ++ body) cache s sound refused)
