-- ===== src/Rotation/Engine/Alive.antt =====
-- No strategy selects a dead proxy.
use proxysm.Base.{
  ℕ, zero, suc, ◌+◌, ◌≡◌, ap, ◌∙◌, String, Bool, false, Option, some, List, [], ◌∷◌, arith, length,
  All, Bool-cases, Option-cases, inl, inr,
}
use proxysm.Base.Int.{ℤ}
use proxysm.Text.{Text}
use proxysm.Redis.{
  Key, health, info, pool_proxies, pool_weighted, pool_connections, list_of, weights_of, counts_of,
  is_dead, hash_of, Redis,
}
use proxysm.Rotation.{
  dead_in, candidates, first_alive, last_candidate, pick, total_weight, round_robin_loop,
  rotate_random, rotate_weighted_random,
}
use proxysm.Rotation.Random.{rotate_random-alive}
use proxysm.Rotation.Engine.{
  Upstream, ok, proxy_dict_of, build_proxy_dict, run_strategy, rotate, pinned, get_next_proxy,
}

id-proxy_dict_of : (id : ℕ) (m : _) (u : Upstream) → proxy_dict_of id m ≡ ok u → u.id ≡ id
unfolding proxy_dict_of
id-proxy_dict_of id [] u h = cc
id-proxy_dict_of id (f ∷ m) u h = ground arith

module _ (dead_at : ℕ → Bool) where
  first_alive-alive :
      (l : List (ℕ × ℤ)) (id : ℕ) → first_alive dead_at l ≡ some id → dead_at id ≡ false
  unfolding first_alive
  first_alive-alive [] id h = cc
  first_alive-alive ((j, c) ∷ l) id h = ground (arith, first_alive-alive l id)

  pick-alive :
      (l : List (ℕ × ℕ)) (k c id : ℕ)
      → pick (candidates dead_at l) k c ≡ some id
      → dead_at id ≡ false
  unfolding pick candidates
  pick-alive [] k c id h = cc
  pick-alive ((j, w) ∷ l) k c id h = ground (arith, pick-alive l k c id, pick-alive l k (c + w) id)

  candidates-All : (l : List (ℕ × ℕ)) → All (λ e. dead_at e.0 ≡ false) (candidates dead_at l)
  unfolding candidates
  candidates-All [] = tt
  candidates-All ((j, w) ∷ l) = elim (Bool-cases (dead_at j)) [
    | inl d ↦ rw d (candidates-All l)
    | inr a ↦ rw a (a, candidates-All l)
  ]

  last_candidate-alive :
      (l : List (ℕ × ℕ)) (id : ℕ)
      → All (λ e. dead_at e.0 ≡ false) l
      → last_candidate l ≡ some id
      → dead_at id ≡ false
  unfolding last_candidate
  last_candidate-alive [] id all h = cc
  last_candidate-alive ((j, w) ∷ []) id all h = ground arith
  last_candidate-alive ((j, w) ∷ e ∷ l) id all h = last_candidate-alive (e ∷ l) id all.1 h

module _ (R : Redis) where
  open R use {Store, read, lmove, read-lmove}

  round_robin_loop-alive :
      (pool t n : ℕ) (s : Store) (id : ℕ)
      → (round_robin_loop R (pool_proxies pool) t n s).0 ≡ some id
      → dead_in R t s id ≡ false
  unfolding round_robin_loop
  round_robin_loop-alive pool t zero s id h = cc
  round_robin_loop-alive pool t (suc n) s id h =
      let (reply, s') = lmove (pool_proxies pool) t s in
      let same : dead_in R t s' id ≡ dead_in R t s id =
        ap is_dead (read-lmove (pool_proxies pool) t s t (health id)) in
      ground (arith, same, round_robin_loop-alive pool t n s' id)

  rotate_weighted_random-alive :
      (draw : ℕ → ℕ) (key : Key) (t : ℕ) (s : Store) (id : ℕ)
      → rotate_weighted_random R draw key t s ≡ some id
      → dead_in R t s id ≡ false
  unfolding rotate_weighted_random
  rotate_weighted_random-alive draw key t s id h =
      let dead_at = dead_in R t s in
      let l = weights_of (read s t key) in
      let total = total_weight (candidates dead_at l) in
      ground (
        arith,
        pick-alive dead_at l (draw total) 0 id,
        last_candidate-alive dead_at (candidates dead_at l) id (candidates-All dead_at l),
      )

  pinned-alive :
      (pool : ℕ) (session_key : Option String) (t : ℕ) (s : Store) (id : ℕ)
      → pinned R pool session_key t s ≡ some id
      → dead_in R t s id ≡ false
  unfolding pinned
  pinned-alive pool session_key t s id h = ground arith

  module _ (draw_index draw_weight : ℕ → ℕ) where
    run_strategy-alive :
        (pool : ℕ) (strategy : Text) (t : ℕ) (s : Store) (id : ℕ)
        → (run_strategy R draw_index draw_weight pool strategy t s).0 ≡ some id
        → dead_in R t s id ≡ false
    unfolding run_strategy
    run_strategy-alive pool strategy t s id h = ground (
      arith,
      λ (e : rotate_random R draw_index (pool_proxies pool) t s ≡ some id).
          (rotate_random-alive R draw_index (pool_proxies pool) t s id e).1,
      rotate_weighted_random-alive draw_weight (pool_weighted pool) t s id,
      first_alive-alive (dead_in R t s) (counts_of (read s t (pool_connections pool))) id,
      round_robin_loop-alive pool t (length (list_of (read s t (pool_proxies pool)))) s id,
    )

    -- Whatever the strategy, the session and the draws, a proxy that is returned is not one whose
    -- health key says "dead" at that time.
    pub get_next_proxy-alive :
        (pool : ℕ) (strategy : Text) (session_key : Option String) (t : ℕ) (s : Store)
        (u : Upstream)
        → (get_next_proxy R draw_index draw_weight pool strategy session_key t s).0 ≡ ok u
        → dead_in R t s u.id ≡ false
    unfolding get_next_proxy rotate build_proxy_dict
    get_next_proxy-alive pool strategy session_key t s u h =
        elim (Option-cases (pinned R pool session_key t s)) [
          | inr (id, e) ↦
              let same : u.id ≡ id =
                id-proxy_dict_of id (hash_of (read s t (info id))) u (ground arith) in
              ap (dead_in R t s) same ∙ pinned-alive pool session_key t s id e
          | inl e ↦
              elim (Option-cases (run_strategy R draw_index draw_weight pool strategy t s).0) [
                | inr (id, f) ↦
                    let s' = (run_strategy R draw_index draw_weight pool strategy t s).1 in
                    let same : u.id ≡ id =
                      id-proxy_dict_of id (hash_of (read s' t (info id))) u (ground arith) in
                    ap (dead_in R t s) same ∙ run_strategy-alive pool strategy t s id f
                | inl f ↦ ground arith
              ]
        ]
