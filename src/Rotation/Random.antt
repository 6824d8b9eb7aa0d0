-- ===== src/Rotation/Random.antt =====
-- ROTATE_RANDOM of src/rotation/lua_scripts.py.
use proxysm.Base.{
  ℕ, zero, suc, ◌+◌, ◌-◌, ◌%◌, ◌≤◌, ◌<◌, ◌≡◌, refl, sym, ap, ◌∙◌, Bool, true, false, none, some,
  List, [], ◌∷◌, arith, ltb, ◌==◌, length, get_elem?, All, Any, Bool-cases, Option-cases, inl, inr,
}
use native.Mathlib.Nat.{mod-eq_of_lt}
use proxysm.Redis.{Key, list_of, Redis}
use proxysm.Rotation.{random_loop, dead_in, rotate_random}

get_elem?-Any : (l : List ℕ) (i x : ℕ) → get_elem? l i ≡ some x → Any (λ y. y ≡ x) l
get_elem?-Any [] i x h = cc
get_elem?-Any (y ∷ l) zero x h = inl (cc)
get_elem?-Any (y ∷ l) (suc i) x h = inr (get_elem?-Any l i x h)

All-get_elem? :
    (P : ℕ → Type 0) (l : List ℕ)
    → ((i x : ℕ) → i < length l → get_elem? l i ≡ some x → P x)
    → All P l
All-get_elem? P [] h = tt
All-get_elem? P (x ∷ l) h =
    (h zero x (omega arith) refl, All-get_elem? P l (λ i y p e. h (suc i) y (omega arith) e))

some_inj : {x y : ℕ} → some x ≡ some y → x ≡ y
some_inj h = cc

module _ (dead_at : ℕ → Bool) (pool : List ℕ) (size start : ℕ) where
  -- What the loop returns stands in the pool and is not dead.
  loop_some :
      (n i id : ℕ)
      → random_loop dead_at pool size start n i ≡ some id
      → Any (λ x. x ≡ id) pool × (dead_at id ≡ false)
  unfolding random_loop
  loop_some zero i id h = cc
  loop_some (suc n) i id h = elim (Option-cases (get_elem? pool ((start + i) % size))) [
    | inl e ↦ ground arith
    | inr (x, e) ↦ elim (Bool-cases (dead_at x)) [
      | inl d ↦ loop_some n (i + 1) id (ground arith)
      | inr a ↦
          let same : x ≡ id = ground arith in
          (get_elem?-Any pool ((start + i) % size) id (e ∙ ap some same), ap dead_at (sym same) ∙ a)
    ]
  ]

  -- A loop that returns none over indices in range has met only dead members.
  loop_none :
      (n i : ℕ)
      → ((k : ℕ) → k < size → (x : ℕ) × (get_elem? pool k ≡ some x))
      → 0 < size
      → random_loop dead_at pool size start n i ≡ none
      → (k x : ℕ) → i ≤ k
      → k < i + n
      → get_elem? pool ((start + k) % size) ≡ some x
      → dead_at x ≡ true
  unfolding random_loop
  loop_none zero i full pos h k x lo hi e = absurd (omega arith)
  loop_none (suc n) i full pos h k x lo hi e =
      let (y, e') = full ((start + i) % size) (grind arith) in
      let passed : (dead_at y ≡ true) × (random_loop dead_at pool size start n (i + 1) ≡ none) =
        ground (arith, e') in
      elim (Bool-cases (k == i)) [
        | inl here ↦
            let k_is : k ≡ i = ground arith in
            let x_is : x ≡ y =
              some_inj (sym e ∙ ap (λ m. get_elem? pool ((start + m) % size)) k_is ∙ e') in
            ap dead_at x_is ∙ passed.0
        | inr later ↦ loop_none n (i + 1) full pos passed.1 k x (ground arith) (omega arith) e
      ]

get_elem?_total : (l : List ℕ) (k : ℕ) → k < length l → (x : ℕ) × (get_elem? l k ≡ some x)
get_elem?_total [] k h = absurd (omega arith)
get_elem?_total (x ∷ l) zero h = (x, refl)
get_elem?_total (x ∷ l) (suc k) h = get_elem?_total l k (omega arith)

-- Every index is met when the loop goes once round from `start`.
round_index :
    (size start k : ℕ) → start < size → k < size → (start + (k + size - start) % size) % size ≡ k
round_index size start k h h' = elim (Bool-cases (ltb k start)) [
  | inl before ↦
      let m : (k + size - start) % size ≡ k + size - start = mod-eq_of_lt (ground arith) in
      rw m (wrap (start + (k + size - start)) (ground arith))
  | inr after ↦
      let m : (k + size - start) % size ≡ k - start =
        wrap_to (k + size - start) (k - start) (ground arith) (omega arith) in
      rw m (let e : start + (k - start) ≡ k = ground arith in rw e (mod-eq_of_lt h'))
]
  where
    wrap_to : (a b : ℕ) → a ≡ b + size → b < size → a % size ≡ b
    wrap_to a b e lt = rw e (grind arith)

    wrap : (a : ℕ) → a ≡ k + size → a % size ≡ k
    wrap a e = wrap_to a k e h'

module _ (R : Redis) (draw : ℕ → ℕ) (key : Key) (t : ℕ) (s : R.Store) where
  -- The proxy that is returned stands in the pool and is not dead.
  pub rotate_random-alive :
      (id : ℕ)
      → rotate_random R draw key t s ≡ some id
      → Any (λ x. x ≡ id) (list_of (R.read s t key)) × (dead_in R t s id ≡ false)
  unfolding rotate_random
  rotate_random-alive id h =
      let pool = list_of (R.read s t key) in
      elim (Bool-cases (length pool == 0)) [
        | inl empty ↦ ground arith
        | inr more ↦
            loop_some (dead_in R t s) pool (length pool) (draw (length pool)) (length pool) 0 id
              (ground arith)
      ]

  -- None is returned only if every member of the pool is dead, if `math.random` draws an index of
  -- the pool.
  pub rotate_random-none :
      ((n : ℕ) → 0 < n → draw n < n)
      → rotate_random R draw key t s ≡ none
      → All (λ x. dead_in R t s x ≡ true) (list_of (R.read s t key))
  unfolding rotate_random
  rotate_random-none in_range h =
      let pool = list_of (R.read s t key) in
      let size = length pool in
      let start = draw size in
      All-get_elem? (λ x. dead_in R t s x ≡ true) pool
        λ i x i_in e.
          let pos : 0 < size = omega arith in
          let k = (i + size - start) % size in
          let back : (start + k) % size ≡ i = round_index size start i (in_range size pos) i_in in
          loop_none (dead_in R t s) pool size start size 0 (get_elem?_total pool) pos (ground arith)
            k x (omega arith) (grind arith) (ap (get_elem? pool) back ∙ e)
