-- ===== src/Socks5/Tests.antt =====
-- An example for the handshake.
use proxysm.Base.{ℕ, ◌≡◌, refl, true, Option, some, none, List, [], ◌∷◌, ◌&&◌, if◌then◌else◌}
use proxysm.Base.Int.{pos}
use proxysm.Text.{Text, codes, text_eq}
use proxysm.Redis.{info, integer, word, pool_proxies, hash, list, missing}
use proxysm.Redis.Memory.{Cells, memory, read_cell}
use proxysm.Rotation.Engine.{
  Upstream, pinned, run_strategy, rotate, get_next_proxy, build_proxy_dict, proxy_dict_of,
  proxy_dict,
}
use proxysm.Rotation.{rotate_random, random_loop}
use proxysm.Auth.{Db, cache_get, query, find_project, best_pool, find_pool, look_up, socks_grant}
use proxysm.Auth.Cache.{IsSound}
use proxysm.HttpProxy.Letters.{codec}
use proxysm.HttpProxy.Connect.{Dialer, connect_request}
use proxysm.Socks5.{socks5_reply}
use proxysm.Socks5.Server.{
  connects, sent_credentials, relayed, serve, written_after, handle_socks5_client,
}
use proxysm.Socks5.Server.Access.{
  IsServed, handle_socks5_client-IsServed, handle_socks5_client-client,
}
use proxysm.Socks5.Server.Relay.{Stream, relay}
use proxysm.Socks5.Request.{client}

abbrev only_bob : Text → Text → Option ℕ
only_bob slug key = if text_eq slug (codes "bob") && text_eq key (codes "pw") then some 7 else none

-- One project with one pool of one proxy; the hash of a key is the key.
abbrev same : Text → Text
same s = s

abbrev one_project : Db
one_project = record {
  projects =
      record {
        id = 1;
        name = codes "Shop";
        slug = codes "bob";
        api_key_hash = codes "pw";
        api_key_plain = none;
      }
      ∷ [];
  links = record { project_id = 1; pool_id = 7; priority = pos 0 } ∷ [];
  pools = record { id = 7; name = codes "main"; rotation_strategy = codes "random" } ∷ [];
}

abbrev one_alive : Cells
one_alive (pool_proxies pool) = (list (3 ∷ []), none)
one_alive (info id) =
    (hash (("host", word (codes "10.0.0.1")) ∷ ("port", integer (pos 3128)) ∷ []), none)
one_alive _ = (missing, none)

abbrev dialer : Dialer
dialer = record {
  socks_connect = λ url host port. true;
  connect_reply = λ host port tls request. some (codes "HTTP/1.1 200 OK");
}

abbrev upstream : Upstream
upstream = record {
  id = 3;
  host = codes "10.0.0.1";
  port = pos 3128;
  protocol = codes "http";
  username = none;
  password = none;
}

abbrev bytes_of_bob : List ℕ
bytes_of_bob = client (codes "bob") (codes "pw") (codes "example.org") 443 (9 ∷ [])

empty-IsSound : IsSound same socks_grant one_project []
unfolding cache_get
empty-IsSound k e h = cc

handle_socks5_client-IsServed_example :
    let (answer, cache') =
      handle_socks5_client codec dialer memory
        (λ n. 0)
        (λ n. 1)
        900
        same
        same
        one_project
        40
        bytes_of_bob
        []
        one_alive in
    IsServed codec dialer memory
      (λ n. 0)
      (λ n. 1)
      900
      same
      same
      one_project
      40
      (sent_credentials same bytes_of_bob)
      one_alive
      answer.0
    × IsSound same socks_grant one_project cache'
handle_socks5_client-IsServed_example =
    handle_socks5_client-IsServed codec dialer memory (λ n. 0) (λ n. 1) 900 same same one_project 40
      (λ k l e. e) bytes_of_bob [] one_alive empty-IsSound

accepts_bob :
    look_up same socks_grant one_project (codes "bob") (codes "pw") ≡ some (7, codes "random")
unfolding look_up query find_project best_pool find_pool
accepts_bob = refl

handle_socks5_client-client_example :
    (handle_socks5_client codec dialer memory
      (λ n. 0)
      (λ n. 1)
      900
      same
      same
      one_project
      40
      bytes_of_bob
      []
      one_alive).0
    ≡ written_after codec dialer memory
        (λ n. 0)
        (λ n. 1)
        900
        (5 ∷ 2 ∷ 1 ∷ 0 ∷ [])
        (serve codec dialer memory
          (λ n. 0)
          (λ n. 1)
          900
          (7, codes "random")
          (codes "example.org")
          443
          (9 ∷ [])
          one_alive)
handle_socks5_client-client_example =
    handle_socks5_client-client codec dialer memory (λ n. 0) (λ n. 1) 900 same same one_project 40
      (λ k l e. e) (codes "bob") (codes "pw") (codes "example.org") (9 ∷ []) 443 (7, codes "random")
      [] one_alive empty-IsSound accepts_bob

-- That client gets its tunnel.
serves_bob :
    (serve codec dialer memory
      (λ n. 0)
      (λ n. 1)
      900
      (7, codes "random")
      (codes "example.org")
      443
      (9 ∷ [])
      one_alive).0
    ≡ (socks5_reply 0, relayed upstream (codes "example.org") 443 (9 ∷ []))
unfolding serve connects get_next_proxy pinned rotate run_strategy rotate_random random_loop
    build_proxy_dict proxy_dict_of proxy_dict connect_request read_cell
serves_bob = refl

abbrev two_by_two : Stream
two_by_two = record { arrives = λ l. 1; drains = λ l. true }

relays_all : relay two_by_two 4 (1 ∷ 2 ∷ 3 ∷ []) [] ≡ some (1 ∷ 2 ∷ 3 ∷ [], [])
unfolding relay
relays_all = refl
