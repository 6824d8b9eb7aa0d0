-- ===== src/Rotation/RoundRobin.antt =====
-- ROTATE_ROUND_ROBIN of src/rotation/lua_scripts.py: what a call returns, and what a cycle of calls does.
pub mod Order
pub mod Loop
use proxysm.Base.{
  ℕ, zero, suc, ◌+◌, ◌≤◌, ◌<◌, ◌≡◌, refl, sym, ap, subst, ◌∙◌, Bool, true, false, Option, none,
  some, List, [], ◌∷◌, ◌++◌, append-nil, append_assoc, map, arith, ltb, ◌==◌, ==_refl,
  if◌then◌else◌, length, length-append, All,
}
use proxysm.Redis.{
  Key, key_eq, pool_proxies, health, Datum, list, list_of, moved, moved_one, move_last, moved_datum,
  touched, is_dead, Redis,
}
use proxysm.Rotation.{dead_in, round_robin_loop, rotate_round_robin}
use proxysm.Rotation.RoundRobin.Order.{
  behind, behind-append, behind-behind, length-behind, All-append, All-behind,
}
use proxysm.Rotation.RoundRobin.Loop.{
  Holds, AllDead, AllAlive, find_alive, find_none, health-round_robin_loop,
}

module _ (R : Redis) (pool : ℕ) where
  open R use {Store, read}

  -- A call on a pool in which the members behind the last live one, `zs`, are dead returns that
  -- live member, and turns the list so that it comes first.
  pub rotate_round_robin-alive :
      (t : ℕ) (s : Store) (xs zs : List ℕ) (y : ℕ)
      → Holds R pool s (xs ++ y ∷ zs)
      → dead_in R t s y ≡ false
      → AllDead (dead_in R t s) zs
      → let (found, s') = rotate_round_robin R (pool_proxies pool) t s in
        (found ≡ some y) × Holds R pool s' ((y ∷ zs) ++ xs)
  unfolding rotate_round_robin
  rotate_round_robin-alive t s xs zs y h alive all =
      let back = behind-behind zs in
      let n = length (list_of (read s t (pool_proxies pool))) in
      let size : n ≡ length (xs ++ y ∷ zs) = ap (λ d. length (list_of d)) (h t) in
      let enough : length (behind zs) < n =
        omega (arith, size, length-append xs (y ∷ zs), length-behind zs) in
      let (found, holds) =
        find_alive R pool t (dead_in R t s) (behind zs) [] xs y n s (λ _. refl)
          (λ u. h u ∙ ap (λ l. list (xs ++ y ∷ l)) (sym back))
          (All-behind (λ x. dead_in R t s x ≡ true) zs all) alive enough in
      (found, λ u. holds u ∙ ap (λ l. list (y ∷ (l ++ xs))) back)

  -- A call on a pool without a live member gives none, and leaves the list as it is.
  pub rotate_round_robin-dead :
      (t : ℕ) (s : Store) (l : List ℕ)
      → Holds R pool s l
      → AllDead (dead_in R t s) l
      → let (found, s') = rotate_round_robin R (pool_proxies pool) t s in
        (found ≡ none) × Holds R pool s' l
  unfolding rotate_round_robin
  rotate_round_robin-dead t s l h all =
      let back = behind-behind l in
      let n = length (list_of (read s t (pool_proxies pool))) in
      let size : length (behind l) ≡ n =
        length-behind l ∙ sym (ap (λ d. length (list_of d)) (h t)) in
      let (found, holds) =
        find_none R pool t (dead_in R t s) (behind l) [] s (λ _. refl)
          (λ u. h u ∙ ap list (sym back)) (All-behind (λ x. dead_in R t s x ≡ true) l all) in
      subst
        (λ k.
          let (found, s') = round_robin_loop R (pool_proxies pool) t k s in
          (found ≡ none) × Holds R pool s' l)
        size (found, λ u. holds u ∙ ap list (append-nil (behind (behind l)) ∙ back))

  -- Calls at the given times.
  abbrev pub calls : List ℕ → Store → List (Option ℕ) × Store
  calls [] s = ([], s)
  calls (t ∷ ts) s =
      let (found, s') = rotate_round_robin R (pool_proxies pool) t s in
      let (rest, s'') = calls ts s' in (found ∷ rest, s'')

  abbrev pub NeverDead : Store → List ℕ → Type 0
  NeverDead s = All (λ x. (u : ℕ) → dead_in R u s x ≡ false)

  NeverDead-rotate :
      (t : ℕ) (s : Store) (l : List ℕ)
      → NeverDead s l
      → NeverDead (rotate_round_robin R (pool_proxies pool) t s).1 l
  unfolding rotate_round_robin
  NeverDead-rotate t s [] h = tt
  NeverDead-rotate t s (x ∷ l) (hx, h) = (
    λ u.
        ap is_dead
          (health-round_robin_loop R pool t (length (list_of (read s t (pool_proxies pool)))) s u x)
        ∙ hx u,
    NeverDead-rotate t s l h,
  )

  calls_visit :
      (ts ws front : List ℕ) (s : Store)
      → Holds R pool s (front ++ behind ws)
      → NeverDead s ws
      → length ts ≡ length ws
      → ((calls ts s).0 ≡ map some ws) × Holds R pool (calls ts s).1 (behind ws ++ front)
  calls_visit [] [] front s h all e = (refl, λ u. h u ∙ ap list (append-nil front))
  calls_visit [] (w ∷ ws) front s h all e = absurd (omega arith)
  calls_visit (t ∷ ts) [] front s h all e = absurd (omega arith)
  calls_visit (t ∷ ts) (w ∷ ws) front s h (hw, all) e =
      let last_is : front ++ (behind ws ++ w ∷ []) ≡ (front ++ behind ws) ++ w ∷ [] =
        simp append_assoc in
      let (found, holds) =
        rotate_round_robin-alive t s (front ++ behind ws) [] w (λ u. h u ∙ ap list last_is) (hw t)
          tt in
      let s' = (rotate_round_robin R (pool_proxies pool) t s).1 in
      let (rest, done) =
        calls_visit ts ws (w ∷ front) s' holds (NeverDead-rotate t s ws all) (omega arith) in
      let regroup : behind ws ++ (w ∷ front) ≡ behind (w ∷ ws) ++ front = simp append_assoc in
      (rw (found, rest), λ u. done u ∙ ap list regroup)

  -- In a pool whose members are never dead, as many calls as it has members, at any times, return
  -- each member once, from the last to the first, and leave the list as it was.
  pub round_robin_cycle :
      (ts l : List ℕ) (s : Store)
      → Holds R pool s l
      → NeverDead s l
      → length ts ≡ length l
      → ((calls ts s).0 ≡ map some (behind l)) × Holds R pool (calls ts s).1 l
  round_robin_cycle ts l s h all e =
      let back = behind-behind l in
      let (found, holds) =
        calls_visit ts (behind l) [] s (λ u. h u ∙ ap list (sym back))
          (All-behind (λ x. (u : ℕ) → dead_in R u s x ≡ false) l all) (e ∙ sym (length-behind l)) in
      (found, λ u. holds u ∙ ap list (append-nil (behind (behind l)) ∙ back))
