-- ===== src/Rotation/RateLimit.antt =====
-- RATE_LIMIT_CHECK of src/rotation/lua_scripts.py, as `check_rate_limit` of src/rotation/engine.py
-- calls it: the window of 60 seconds begins with the first request.
use proxysm.Base.{
  ℕ, suc, ◌+◌, ◌≤◌, ◌<◌, min, ◌≡◌, ap, ◌∙◌, Bool, true, false, List, [], ◌∷◌, arith, ltb, ◌==◌,
  if◌then◌else◌, length, All,
}
use proxysm.Redis.{key_eq, ratelimit, number, str, missing, counter, Redis}
use proxysm.Rotation.Engine.{check_rate_limit}

-- How many replies allow the request.
abbrev pub count_allowed : List Bool → ℕ
count_allowed [] = 0
count_allowed (true ∷ l) = suc (count_allowed l)
count_allowed (false ∷ l) = count_allowed l

module _ (R : Redis) (project limit : ℕ) where
  open R use {Store, read, incr, expire, incr_reply, read-incr, read-expire}

  -- The requests of one project, at the given times.
  abbrev pub requests : List ℕ → Store → List Bool × Store
  requests [] s = ([], s)
  requests (t ∷ ts) s =
      let (allowed, s') = check_rate_limit R project limit t s in
      let (rest, s'') = requests ts s' in (allowed ∷ rest, s'')

  -- The counter holds `n` until `end`.
  abbrev Window : ℕ → ℕ → Store → Type 0
  Window end n s =
      (u : ℕ) → read s u (ratelimit project 60) ≡ (if ltb u end then str (number n) else missing)

  first_request :
      (t : ℕ) (s : Store)
      → ((u : ℕ) → read s u (ratelimit project 60) ≡ missing)
      → ((check_rate_limit R project limit t s).0 ≡ (if ltb limit 1 then false else true))
        × Window (t + 60000) 1 (check_rate_limit R project limit t s).1
  unfolding check_rate_limit
  first_request t s fresh =
      let k = ratelimit project 60 in
      let s1 = (incr k t s).1 in
      let reply : (incr k t s).0 ≡ 1 = incr_reply k t s ∙ ap (λ d. counter d + 1) (fresh t) in
      let self : key_eq k k ≡ true = ground arith in
      let now : read s1 t k ≡ str (number 1) = rw (read-incr k t s t k, self, fresh t) in
      (rw reply, λ u. rw reply (read-expire k 60 t s1 u k ∙ rw (self, now)))

  next_request :
      (end n t : ℕ) (s : Store)
      → Window end n s
      → 0 < n
      → t < end
      → ((check_rate_limit R project limit t s).0 ≡ (if ltb limit (n + 1) then false else true))
        × Window end (n + 1) (check_rate_limit R project limit t s).1
  unfolding check_rate_limit
  next_request end n t s w pos before =
      let k = ratelimit project 60 in
      let now : read s t k ≡ str (number n) = ground (arith, w t) in
      let reply : (incr k t s).0 ≡ n + 1 = incr_reply k t s ∙ ap (λ d. counter d + 1) now in
      let self : key_eq k k ≡ true = ground arith in
      let more : (n + 1 == 1) ≡ false = ground arith in
      (rw reply, λ u. rw (reply, more, read-incr k t s u k, self, now, w u) (ground arith))

  requests-Window :
      (ts : List ℕ) (end n : ℕ) (s : Store)
      → Window end n s
      → 0 < n
      → All (λ t. t < end) ts
      → (count_allowed (requests ts s).0 + min limit n ≡ min limit (n + length ts))
        × Window end (n + length ts) (requests ts s).1
  requests-Window [] end n s w pos all = (
    omega arith,
    λ u. w u ∙ ap (λ m. if ltb u end then str (number m) else missing) (omega arith),
  )
  requests-Window (t ∷ ts) end n s w pos (before, all) =
      let (reply, w') = next_request end n t s w pos before in
      let (count, w'') =
        requests-Window ts end (n + 1) (check_rate_limit R project limit t s).1 w' (omega arith)
          all in
      (
        ground (arith, reply, count),
        λ u. w'' u ∙ ap (λ m. if ltb u end then str (number m) else missing) (omega arith),
      )

  -- From a request at `t` that finds no counter, and of all requests in the 60 seconds from it,
  -- exactly as many are allowed as the limit says, as long as there are as many; at the end of the
  -- 60 seconds the counter is gone.
  pub rate_limit_window :
      (t : ℕ) (ts : List ℕ) (s : Store) (u : ℕ)
      → ((v : ℕ) → read s v (ratelimit project 60) ≡ missing)
      → All (λ v. v < t + 60000) ts
      → t + 60000 ≤ u
      → (count_allowed (requests (t ∷ ts) s).0 ≡ min limit (suc (length ts)))
        × (read (requests (t ∷ ts) s).1 u (ratelimit project 60) ≡ missing)
  rate_limit_window t ts s u fresh all late =
      let (reply, w) = first_request t s fresh in
      let (count, w') =
        requests-Window ts (t + 60000) 1 (check_rate_limit R project limit t s).1 w (omega arith)
          all in
      (ground (arith, reply, count), ground (arith, w' u))
