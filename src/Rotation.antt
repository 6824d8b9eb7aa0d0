-- ===== src/Rotation.antt =====
-- The Lua scripts of src/rotation/lua_scripts.py. A script runs at one time `t`, and what it draws
-- from `math.random` is an argument.
pub mod Engine
pub mod RoundRobin
pub mod Weighted
pub mod Random
pub mod RateLimit
mod Tests
use proxysm.Base.{
  ℕ, zero, suc, ◌+◌, ◌%◌, Bool, true, false, ◌||◌, Option, none, some, List, [], ◌∷◌, ◌++◌, ltb,
  leb, ◌==◌, if◌then◌else◌, length, get_elem?,
}
use proxysm.Base.Int.{ℤ, pos}
use proxysm.Redis.{Key, health, Datum, list_of, weights_of, counts_of, is_dead, Redis}

-- The members of a list whose health key does not say "dead"; `dead_at` reads that key.
module _ (dead_at : ℕ → Bool) where
  -- `for i = 0, pool_size - 1` of ROTATE_RANDOM, with `n` rounds left
  unfoldable pub random_loop : List ℕ → ℕ → ℕ → ℕ → ℕ → Option ℕ
  random_loop pool size start zero i = none
  random_loop pool size start (suc n) i =
      let rest = random_loop pool size start n (i + 1) in
      elim (get_elem? pool ((start + i) % size)) [
        | none ↦ none
        | some id ↦ if dead_at id then rest else some id
      ]

  -- The table `candidates` of ROTATE_WEIGHTED_RANDOM.
  unfoldable pub candidates : List (ℕ × ℕ) → List (ℕ × ℕ)
  candidates [] = []
  candidates ((id, weight) ∷ l) =
      let rest = candidates l in if dead_at id then rest else (id, weight) ∷ rest

  -- The first member that is not dead.
  unfoldable pub first_alive : List (ℕ × ℤ) → Option ℕ
  first_alive [] = none
  first_alive ((id, n) ∷ l) = let rest = first_alive l in if dead_at id then rest else some id

abbrev pub total_weight : List (ℕ × ℕ) → ℕ
total_weight [] = 0
total_weight ((id, weight) ∷ l) = weight + total_weight l

-- `candidates[#candidates][1]`
unfoldable pub last_candidate : List (ℕ × ℕ) → Option ℕ
last_candidate [] = none
last_candidate ((id, weight) ∷ []) = some id
last_candidate (_ ∷ l) = last_candidate l

-- The walk over the cumulative weights. The weights are whole numbers, so `threshold` is
-- `math.random() * total_weight` rounded up.
unfoldable pub pick : List (ℕ × ℕ) → ℕ → ℕ → Option ℕ
pick [] threshold cumulative = none
pick ((id, weight) ∷ l) threshold cumulative =
    let rest = pick l threshold (cumulative + weight) in
    if leb threshold (cumulative + weight) then some id else rest

abbrev or_last : Option ℕ → List (ℕ × ℕ) → Option ℕ
or_last none l = last_candidate l
or_last (some id) l = some id

module _ (R : Redis) where
  open R use {Store, read, incr, expire, lmove, zincrby}

  -- GET proxy:{id}:health, compared with 'dead'
  abbrev pub dead_in : ℕ → Store → ℕ → Bool
  dead_in t s id = is_dead (read s t (health id))

  -- `for i = 1, pool_size` of ROTATE_ROUND_ROBIN, with `n` rounds left
  unfoldable pub round_robin_loop : Key → ℕ → ℕ → Store → Option ℕ × Store
  round_robin_loop key t zero s = (none, s)
  round_robin_loop key t (suc n) s =
      let (moved, s') = lmove key t s in
      let rest = round_robin_loop key t n s' in
      elim moved [ none ↦ (none, s') | some id ↦ if dead_in t s' id then rest else (some id, s') ]

  unfoldable pub rotate_round_robin : Key → ℕ → Store → Option ℕ × Store
  unfolding round_robin_loop
  rotate_round_robin key t s = round_robin_loop key t (length (list_of (read s t key))) s

  -- `draw n` is `math.random(0, n - 1)`
  unfoldable pub rotate_random : (ℕ → ℕ) → Key → ℕ → Store → Option ℕ
  unfolding random_loop
  rotate_random draw key t s =
      let pool = list_of (read s t key) in
      let size = length pool in
      if size == 0 then none else random_loop (dead_in t s) pool size (draw size) size 0

  -- `draw w` is `math.random() * w`, rounded up
  unfoldable pub rotate_weighted_random : (ℕ → ℕ) → Key → ℕ → Store → Option ℕ
  unfolding candidates pick last_candidate
  rotate_weighted_random draw key t s =
      let alive = candidates (dead_in t s) (weights_of (read s t key)) in
      let total = total_weight alive in
      if total == 0 || length alive == 0 then none else or_last (pick alive (draw total) 0) alive

  unfoldable pub rotate_least_connections : Key → ℕ → Store → Option ℕ × Store
  unfolding first_alive
  rotate_least_connections key t s = elim (first_alive (dead_in t s) (counts_of (read s t key))) [
    | none ↦ (none, s)
    | some id ↦ (some id, zincrby key (pos 1) id t s)
  ]

  -- 1 is `true`
  unfoldable pub rate_limit_check : Key → ℕ → ℕ → ℕ → Store → Bool × Store
  rate_limit_check key limit window t s =
      let (current, s1) = incr key t s in
      let s2 = if current == 1 then expire key window t s1 else s1 in
      (if ltb limit current then false else true, s2)
