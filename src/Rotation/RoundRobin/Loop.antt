-- ===== src/Rotation/RoundRobin/Loop.antt =====
-- The loop of ROTATE_ROUND_ROBIN (src/rotation/lua_scripts.py), round by round.
use proxysm.Base.{
  ℕ, zero, suc, ◌<◌, ◌≡◌, refl, sym, ap, ◌∙◌, Bool, true, false, none, some, List, [], ◌∷◌, ◌++◌,
  append-nil, append_assoc, arith, ==_refl, length, All,
}
use proxysm.Redis.{pool_proxies, health, list, list_of, moved_one, is_dead, Redis}
use proxysm.Rotation.{dead_in, round_robin_loop}
use proxysm.Rotation.RoundRobin.Order.{behind, moved_one-append, touched_list}

-- Every member is dead, or every one is alive.
abbrev pub AllDead : (ℕ → Bool) → List ℕ → Type 0
AllDead dead_at = All (λ x. dead_at x ≡ true)

abbrev pub AllAlive : (ℕ → Bool) → List ℕ → Type 0
AllAlive dead_at = All (λ x. dead_at x ≡ false)

-- The list of a pool, whenever it is read.
abbrev pub Holds : (R : Redis) → ℕ → R.Store → List ℕ → Type 0
Holds R pool s l = (u : ℕ) → R.read s u (pool_proxies pool) ≡ list l

module _ (R : Redis) (pool t : ℕ) where
  open R use {Store, read, lmove, lmove_reply, read-lmove}

  -- What one LMOVE of a list does.
  pub lmove_last :
      (xs : List ℕ) (x : ℕ) (s : Store)
      → Holds R pool s (xs ++ x ∷ [])
      → ((lmove (pool_proxies pool) t s).0 ≡ some x)
        × Holds R pool (lmove (pool_proxies pool) t s).1 (x ∷ xs)
  lmove_last xs x s h = (
    lmove_reply (pool_proxies pool) t s
        ∙ ap (λ d. moved_one (list_of d)) (h t)
        ∙ moved_one-append xs x,
    λ u.
        rw (read-lmove (pool_proxies pool) t s u (pool_proxies pool), ==_refl pool, h t, h u)
          (touched_list xs x),
  )

  pub dead_in-lmove :
      (s : Store) (id : ℕ) → dead_in R t (lmove (pool_proxies pool) t s).1 id ≡ dead_in R t s id
  dead_in-lmove s id = ap is_dead (read-lmove (pool_proxies pool) t s t (health id))

  -- The loop over members that are all dead, `ws` in the order of the visits: they end up in front.
  module _ (dead_at : ℕ → Bool) where
    abbrev SeesDead : Store → Type 0
    SeesDead s = (id : ℕ) → dead_in R t s id ≡ dead_at id

    -- A dead member in the last place is skipped.
    skip_dead :
        (n x : ℕ) (xs : List ℕ) (s : Store)
        → SeesDead s
        → Holds R pool s (xs ++ x ∷ [])
        → dead_at x ≡ true
        → (s' : Store) × SeesDead s'
          × Holds R pool s' (x ∷ xs)
          × (round_robin_loop R (pool_proxies pool) t (suc n) s
              ≡ round_robin_loop R (pool_proxies pool) t n s')
    unfolding round_robin_loop
    skip_dead n x xs s sees h d =
        let s' = (lmove (pool_proxies pool) t s).1 in
        let (reply, after) = lmove_last xs x s h in
        let is_skipped : dead_in R t s' x ≡ true = dead_in-lmove s x ∙ sees x ∙ d in
        (s', (λ id. dead_in-lmove s id ∙ sees id), after, ground (arith, reply, is_skipped))

    -- A live member in the last place is returned.
    take_alive :
        (n x : ℕ) (xs : List ℕ) (s : Store)
        → SeesDead s
        → Holds R pool s (xs ++ x ∷ [])
        → dead_at x ≡ false
        → ((round_robin_loop R (pool_proxies pool) t (suc n) s).0 ≡ some x)
          × Holds R pool (round_robin_loop R (pool_proxies pool) t (suc n) s).1 (x ∷ xs)
    unfolding round_robin_loop
    take_alive n x xs s sees h d =
        let (reply, after) = lmove_last xs x s h in
        let s' = (lmove (pool_proxies pool) t s).1 in
        let is_taken : dead_in R t s' x ≡ false = dead_in-lmove s x ∙ sees x ∙ d in
        (ground (arith, reply, is_taken), ground (arith, reply, is_taken, after))

    -- `ws` are the dead members behind the live one, in the order of the visits.
    pub find_alive :
        (ws front xs : List ℕ) (y n : ℕ) (s : Store)
        → SeesDead s
        → Holds R pool s (front ++ (xs ++ y ∷ behind ws))
        → AllDead dead_at ws
        → dead_at y ≡ false
        → length ws < n
        → ((round_robin_loop R (pool_proxies pool) t n s).0 ≡ some y)
          × Holds R pool
              (round_robin_loop R (pool_proxies pool) t n s).1
              (y ∷ (behind ws ++ (front ++ xs)))
    find_alive ws front xs y zero s sees h all alive enough = absurd (omega arith)
    find_alive [] front xs y (suc n) s sees h all alive enough =
        take_alive n y (front ++ xs) s sees
          (λ u. h u ∙ ap list (sym (append_assoc front xs (y ∷ [])))) alive
    find_alive (w ∷ ws) front xs y (suc n) s sees h (d, all) alive enough =
        let last_is : front ++ (xs ++ y ∷ (behind ws ++ w ∷ []))
            ≡ (front ++ (xs ++ y ∷ behind ws)) ++ w ∷ [] =
          simp append_assoc in
        let (s', sees', h', step) =
          skip_dead n w (front ++ (xs ++ y ∷ behind ws)) s sees (λ u. h u ∙ ap list last_is) d in
        let regroup : y ∷ (behind ws ++ ((w ∷ front) ++ xs))
            ≡ y ∷ (behind (w ∷ ws) ++ (front ++ xs)) =
          simp append_assoc in
        let (found, holds) = find_alive ws (w ∷ front) xs y n s' sees' h' all alive (omega arith) in
        (rw step found, rw step (λ u. holds u ∙ ap list regroup))

    -- All members are dead.
    pub find_none :
        (ws front : List ℕ) (s : Store)
        → SeesDead s
        → Holds R pool s (front ++ behind ws)
        → AllDead dead_at ws
        → ((round_robin_loop R (pool_proxies pool) t (length ws) s).0 ≡ none)
          × Holds R pool
              (round_robin_loop R (pool_proxies pool) t (length ws) s).1
              (behind ws ++ front)
    unfolding round_robin_loop
    find_none [] front s sees h all = (refl, λ u. h u ∙ ap list (append-nil front))
    find_none (w ∷ ws) front s sees h (d, all) =
        let last_is : front ++ (behind ws ++ w ∷ []) ≡ (front ++ behind ws) ++ w ∷ [] =
          simp append_assoc in
        let (s', sees', h', step) =
          skip_dead (length ws) w (front ++ behind ws) s sees (λ u. h u ∙ ap list last_is) d in
        let regroup : behind ws ++ (w ∷ front) ≡ behind (w ∷ ws) ++ front = simp append_assoc in
        let (found, holds) = find_none ws (w ∷ front) s' sees' h' all in
        (rw step found, rw step (λ u. holds u ∙ ap list regroup))

  -- The loop moves the list and no health key.
  pub health-round_robin_loop :
      (n : ℕ) (s : Store) (u id : ℕ)
      → read (round_robin_loop R (pool_proxies pool) t n s).1 u (health id) ≡ read s u (health id)
  unfolding round_robin_loop
  health-round_robin_loop zero s u id = refl
  health-round_robin_loop (suc n) s u id = ground (
    arith,
    read-lmove (pool_proxies pool) t s u (health id),
    health-round_robin_loop n (lmove (pool_proxies pool) t s).1 u id,
  )
