-- ===== src/HttpProxy/Tests.antt =====
-- Examples for the HTTP proxy.
use proxysm.Base.{ℕ, ◌≡◌, refl, sym, ◌∙◌, true, none, some, List, [], ◌∷◌, ◌++◌, All}
use proxysm.Base.Int.{pos}
use proxysm.Text.{Text, codes, is_space, words, strip, to_lower}
use proxysm.Redis.{info, integer, word, lookup, pool_proxies, hash, list, missing}
use proxysm.Redis.Memory.{Cells, memory, no_keys, read_cell}
use proxysm.Rotation.Engine.{
  Upstream, pinned, run_strategy, rotate, get_next_proxy, build_proxy_dict, proxy_dict_of,
  proxy_dict,
}
use proxysm.Rotation.{rotate_random, random_loop}
use proxysm.Auth.{
  Db, cache_get, query, find_project, best_pool, find_pool, look_up, from_db, cache_set,
  authenticate,
}
use proxysm.Auth.Cache.{IsSound}
use proxysm.HttpProxy.{crlf}
use proxysm.HttpProxy.Letters.{codec}
use proxysm.HttpProxy.Headers.{
  read_headers, split_from, split_crlf, auth_of_lines, parse_proxy_auth,
}
use proxysm.HttpProxy.Connect.{Dialer, connect_head}
use proxysm.HttpProxy.Forward.{
  HttpClient, Handled, delivered, respond, dict_set, log_row, forward_each, forward, exchange,
  read_body, handle_http, forward_headers,
}
use proxysm.HttpProxy.Client.{
  Cache, keep, dispatch, handle_request, auth_required_reply, handle_client,
}
use proxysm.HttpProxy.Gate.{IsGranted, handle_client-IsGranted, handle_client-rejected}
use proxysm.HttpProxy.Login.{login_line, parse_proxy_auth-connect_head}
use proxysm.HttpProxy.Stripped.{IsOther, forward_headers-IsOther}

abbrev same : Text → Text
same s = s

abbrev dialer : Dialer
dialer = record {
  socks_connect = λ url host port. true;
  connect_reply = λ host port tls request. some (codes "HTTP/1.1 200 OK");
}

abbrev net : HttpClient
net = record {
  from_url = λ url. true;
  fetch = λ asked. some (record {
    status = 200;
    reason = codes "OK";
    headers = [];
    ending = delivered (codes "hi") true;
  });
  hostname = λ url. codes "example.org";
}

abbrev uuid : ℕ → Text
uuid id = id ∷ []

-- The hash of a key is the key.
abbrev one_project : Db
one_project = record {
  projects =
      record {
        id = 1;
        name = codes "Shop";
        slug = 1 ∷ 2 ∷ [];
        api_key_hash = 3 ∷ [];
        api_key_plain = none;
      }
      ∷ [];
  links = record { project_id = 1; pool_id = 7; priority = pos 0 } ∷ [];
  pools = record { id = 7; name = codes "main"; rotation_strategy = codes "random" } ∷ [];
}

empty-IsSound : IsSound same keep one_project []
unfolding cache_get
empty-IsSound k e h = cc

-- Each pool has one proxy.
abbrev one_alive : Cells
one_alive (pool_proxies pool) = (list (3 ∷ []), none)
one_alive (info id) =
    (hash (("host", word (codes "10.0.0.1")) ∷ ("port", integer (pos 3128)) ∷ []), none)
one_alive _ = (missing, none)

abbrev first_line : Text
first_line = codes "GET http://example.org/ HTTP/1.1"

abbrev header_lines : List Text
header_lines = (login_line codec (1 ∷ 2 ∷ []) (3 ∷ []) ++ crlf) ∷ crlf ∷ []

-- The request above, on a network.
abbrev outcome : Dialer → HttpClient → Handled × Cache × Cells
unfolding handle_client
outcome d n =
    handle_client codec d n uuid 120 500 memory (λ n. 0) (λ n. 1) same one_project 900 40
      (first_line ∷ header_lines) [] [] one_alive

handle_client-IsGranted_example :
    IsGranted codec dialer net uuid 120 500 memory
      (λ n. 0)
      (λ n. 1)
      same
      one_project
      (λ k l e. e)
      900
      40
      (parse_proxy_auth codec (read_headers header_lines).0)
      one_alive
      (λ d n. (outcome d n).0)
    × IsSound same keep one_project (outcome dialer net).1
unfolding outcome
handle_client-IsGranted_example =
    handle_client-IsGranted codec dialer net uuid 120 500 memory (λ n. 0) (λ n. 1) same one_project
      (λ k l e. e) 900 40 first_line header_lines [] [] one_alive empty-IsSound

-- That request is forwarded and logged once.
logs_once :
    (handle_client codec dialer net uuid 120 500 memory
      (λ n. 0)
      (λ n. 1)
      same
      one_project
      900
      40
      (first_line ∷ header_lines)
      []
      []
      one_alive).0.1
    ≡ log_row
        (record { project_id = 1 ∷ []; pool_id = 7 ∷ []; proxy_id = 3 ∷ [] })
        200
        120
        0
        2
        (codes "example.org")
        none
        500
      ∷ []
unfolding handle_client handle_request read_headers parse_proxy_auth split_crlf split_from
    auth_of_lines to_lower authenticate look_up query find_project best_pool find_pool from_db
    cache_get cache_set get_next_proxy pinned rotate run_strategy rotate_random random_loop
    read_cell build_proxy_dict proxy_dict_of proxy_dict lookup dispatch handle_http forward
    forward_headers forward_each dict_set exchange respond read_body words strip is_space
logs_once = refl

no_credentials : parse_proxy_auth codec (read_headers (crlf ∷ [])).0 ≡ none
unfolding parse_proxy_auth split_crlf split_from auth_of_lines read_headers to_lower
no_credentials = refl

handle_client-rejected_example :
    let (handled, cache', s') =
      handle_client codec dialer net uuid 120 500 memory
        (λ n. 0)
        (λ n. 1)
        same
        one_project
        900
        40
        (first_line ∷ crlf ∷ [])
        []
        []
        no_keys in
    (handled ≡ (auth_required_reply, [])) × (s' ≡ no_keys)
handle_client-rejected_example =
    handle_client-rejected codec dialer net uuid 120 500 memory (λ n. 0) (λ n. 1) same one_project
      (λ k l e. e) 900 40 first_line (crlf ∷ []) [] [] no_keys refl empty-IsSound
      (λ slug api_key parsed.
        let both : none ≡ some (slug, api_key) = sym no_credentials ∙ parsed in cc)

abbrev upstream : Upstream
upstream = record {
  id = 3;
  host = codes "10.0.0.1";
  port = pos 3128;
  protocol = codes "http";
  username = some (1 ∷ []);
  password = some (2 ∷ []);
}

parse_proxy_auth-connect_head_example :
    parse_proxy_auth codec (connect_head codec (codes "example.org") (pos 443) upstream ++ crlf)
    ≡ some (1 ∷ [], 2 ∷ [])
parse_proxy_auth-connect_head_example =
    parse_proxy_auth-connect_head codec (codes "example.org") (pos 443) upstream (1 ∷ []) (2 ∷ [])
      refl refl refl refl refl

abbrev headers_raw : Text
headers_raw = codes "Host: a" ++ (crlf ++ (codes "PROXY-authorization: x" ++ crlf))

forwarded : forward_headers codec headers_raw ≡ some ((codes "Host", codes "a") ∷ [], pos 0)
unfolding forward_headers split_crlf split_from forward_each to_lower strip is_space dict_set
forwarded = refl

forward_headers-IsOther_example : All IsOther ((codes "Host", codes "a") ∷ [])
unfolding split_crlf split_from strip is_space to_lower
forward_headers-IsOther_example =
    forward_headers-IsOther codec headers_raw ((codes "Host", codes "a") ∷ []) (pos 0)
      (refl, (refl, (refl, tt))) forwarded
