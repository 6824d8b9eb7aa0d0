-- ===== src/Rotation/Tests.antt =====
-- Examples for the properties of the rotation.
use proxysm.Base.{
  ◌+◌, ◌*◌, ◌≡◌, refl, false, none, some, [], ◌∷◌, arith, ltb, min, if◌then◌else◌, map, ◌==◌,
}
use proxysm.Base.Int.{pos}
use proxysm.Text.{codes}
use proxysm.Models.{dead}
use proxysm.Redis.{
  health, info, ratelimit, pool_proxies, pool_weighted, status, integer, word, str, list, weights,
  hash, missing, weights_of, lookup,
}
use proxysm.Redis.Memory.{Cells, memory, no_keys, read-no_keys, read_cell, alter}
use proxysm.Rotation.{
  random_loop, dead_in, round_robin_loop, rotate_round_robin, rotate_random, rotate_weighted_random,
  candidates, total_weight,
}
use proxysm.Rotation.Engine.{
  Upstream, ok, proxy_dict, proxy_dict_of, build_proxy_dict, pinned, run_strategy, rotate,
  get_next_proxy, set_sticky_session,
}
use proxysm.Rotation.RoundRobin.Order.{behind}
use proxysm.Rotation.RoundRobin.Loop.{Holds}
use proxysm.Rotation.RoundRobin.{calls, round_robin_cycle}
use proxysm.Rotation.Weighted.{hits, weight_in, rotate_weighted_random-share}
use proxysm.Rotation.RateLimit.{count_allowed, requests, rate_limit_window}
use proxysm.Rotation.Engine.Alive.{get_next_proxy-alive}
use proxysm.Rotation.Engine.Sticky.{sticky_session}

-- Every pool holds 1, 2 and 3; 3 is dead.
abbrev one_dead : Cells
one_dead (pool_proxies pool) = (list (1 ∷ 2 ∷ 3 ∷ []), none)
one_dead (pool_weighted pool) = (weights ((1, 100) ∷ (2, 300) ∷ (3, 50) ∷ []), none)
one_dead (health id) = if id == 3 then (str (status dead), none) else (missing, none)
one_dead (info id) =
    (hash (("host", word (codes "10.0.0.1")) ∷ ("port", integer (pos 80)) ∷ []), none)
one_dead _ = (missing, none)

-- Every pool holds 4 and 5; every proxy is dead.
abbrev all_dead : Cells
all_dead (pool_proxies pool) = (list (4 ∷ 5 ∷ []), none)
all_dead (health id) = (str (status dead), none)
all_dead _ = (missing, none)

-- Every pool holds 1 and 2; no proxy has a health key.
abbrev all_alive : Cells
all_alive (pool_proxies pool) = (list (1 ∷ 2 ∷ []), none)
all_alive _ = (missing, none)

round_robin_cycle_example :
    ((calls memory 7 (500 ∷ 900 ∷ []) all_alive).0 ≡ map some (behind (1 ∷ 2 ∷ [])))
    × Holds memory 7 (calls memory 7 (500 ∷ 900 ∷ []) all_alive).1 (1 ∷ 2 ∷ [])
unfolding read_cell
round_robin_cycle_example =
    round_robin_cycle memory 7 (500 ∷ 900 ∷ []) (1 ∷ 2 ∷ []) all_alive (λ u. refl)
      (λ u. refl, (λ u. refl, tt)) refl

rotate_weighted_random-share_example :
    hits
      (λ k. rotate_weighted_random memory (λ total. k) (pool_weighted 7) 500 one_dead)
      2
      0
      (total_weight (
        candidates
          (dead_in memory 500 one_dead)
          (weights_of (read_cell one_dead 500 (pool_weighted 7)))))
    ≡ (if dead_in memory 500 one_dead 2
        then 0
        else weight_in 2 (weights_of (read_cell one_dead 500 (pool_weighted 7))))
rotate_weighted_random-share_example =
    rotate_weighted_random-share memory (pool_weighted 7) 500 one_dead 2

random_one : rotate_random memory (λ n. 2) (pool_proxies 7) 500 one_dead ≡ some 1
unfolding rotate_random random_loop read_cell
random_one = refl

random_none : rotate_random memory (λ n. 0) (pool_proxies 7) 500 all_dead ≡ none
unfolding rotate_random random_loop read_cell
random_none = refl

rate_limit_window_example :
    (count_allowed (requests memory 9 2 (1000 ∷ 2000 ∷ 3000 ∷ []) no_keys).0 ≡ min 2 3)
    × (read_cell (requests memory 9 2 (1000 ∷ 2000 ∷ 3000 ∷ []) no_keys).1 61000 (ratelimit 9 60)
        ≡ missing)
rate_limit_window_example =
    rate_limit_window memory 9 2 1000 (2000 ∷ 3000 ∷ []) no_keys 61000
      (λ u. read-no_keys u (ratelimit 9 60)) (omega arith, (omega arith, tt)) (omega arith)

-- The dict of the proxies of `one_dead`.
abbrev first_upstream : Upstream
first_upstream = record {
  id = 2;
  host = codes "10.0.0.1";
  port = pos 80;
  protocol = codes "http";
  username = none;
  password = none;
}

next_is_second :
    (get_next_proxy memory (λ n. 0) (λ n. 1) 7 (codes "round_robin") none 500 one_dead).0
    ≡ ok first_upstream
unfolding get_next_proxy rotate run_strategy pinned rotate_round_robin round_robin_loop
    build_proxy_dict proxy_dict_of proxy_dict lookup read_cell alter
next_is_second = refl

get_next_proxy-alive_example : dead_in memory 500 one_dead 2 ≡ false
get_next_proxy-alive_example =
    get_next_proxy-alive memory (λ n. 0) (λ n. 1) 7 (codes "round_robin") none 500 one_dead
      first_upstream next_is_second

-- One dead proxy, and a session pinned to a live one for 60 seconds.
abbrev after_pin : Cells
after_pin = set_sticky_session memory 7 "alice" 1 60 500 one_dead

sticky_session_example :
    get_next_proxy memory (λ n. 0) (λ n. 1) 7 (codes "random") (some "alice") 900 after_pin ≡ (
      if ltb 900 (500 + 60 * 1000)
      then (if dead_in memory 900 one_dead 1
          then rotate memory (λ n. 0) (λ n. 1) 7 (codes "random") 900 after_pin
          else (build_proxy_dict memory 1 900 one_dead, after_pin))
      else rotate memory (λ n. 0) (λ n. 1) 7 (codes "random") 900 after_pin)
sticky_session_example =
    sticky_session memory (λ n. 0) (λ n. 1) 7 "alice" 1 60 500 one_dead (codes "random") 900 refl
