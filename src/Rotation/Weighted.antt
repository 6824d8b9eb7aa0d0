-- ===== src/Rotation/Weighted.antt =====
-- ROTATE_WEIGHTED_RANDOM of src/rotation/lua_scripts.py: the share of each proxy.
use proxysm.Base.{
  ℕ, zero, suc, ◌+◌, ◌≤◌, ◌<◌, ◌≡◌, refl, ◌∙◌, Bool, false, Option, none, some, List, [], ◌∷◌,
  arith, ◌==◌, if◌then◌else◌, length,
}
use proxysm.Redis.{Key, weights_of, Redis}
use proxysm.Rotation.{candidates, total_weight, pick, or_last, dead_in, rotate_weighted_random}

-- How many thresholds in lo + 1, …, lo + n make `f` return `id`.
pub hits : (ℕ → Option ℕ) → ℕ → ℕ → ℕ → ℕ
hits f id lo zero = 0
hits f id lo (suc n) =
    (elim (f (lo + 1)) [ none ↦ 0 | some j ↦ if j == id then 1 else 0 ]) + hits f id (lo + 1) n

-- The weight of a member.
abbrev pub weight_in : ℕ → List (ℕ × ℕ) → ℕ
weight_in id [] = 0
weight_in id ((j, w) ∷ l) = (if j == id then w else 0) + weight_in id l

hits-add :
    (f : ℕ → Option ℕ) (id lo a b : ℕ)
    → hits f id lo (a + b) ≡ hits f id lo a + hits f id (lo + a) b
unfolding hits
hits-add f id lo zero b =
    let e : 0 + b ≡ b = omega arith in
    let e' : lo + 0 ≡ lo = omega arith in rw (e, e') (omega arith)
hits-add f id lo (suc a) b =
    let e : suc a + b ≡ suc (a + b) = omega arith in
    let e' : lo + suc a ≡ lo + 1 + a = omega arith in
    rw (e, e') (omega (arith, hits-add f id (lo + 1) a b))

hits-same :
    (f g : ℕ → Option ℕ) (id lo n : ℕ)
    → ((k : ℕ) → lo < k → k ≤ lo + n → f k ≡ g k)
    → hits f id lo n ≡ hits g id lo n
unfolding hits
hits-same f g id lo zero h = refl
hits-same f g id lo (suc n) h =
    ground
      (arith, h (lo + 1), hits-same f g id (lo + 1) n (λ k p q. h k (omega arith) (omega arith)))

-- The thresholds that fall on one member.
hits_const :
    (f : ℕ → Option ℕ) (id j lo n : ℕ)
    → ((k : ℕ) → lo < k → k ≤ lo + n → f k ≡ some j)
    → hits f id lo n ≡ (if j == id then n else 0)
unfolding hits
hits_const f id j lo zero h = ground arith
hits_const f id j lo (suc n) h =
    ground
      (arith, h (lo + 1), hits_const f id j (lo + 1) n (λ k p q. h k (omega arith) (omega arith)))

hits-pick :
    (l : List (ℕ × ℕ)) (id cumulative : ℕ)
    → hits (λ k. pick l k cumulative) id cumulative (total_weight l) ≡ weight_in id l
unfolding pick hits
hits-pick [] id c = refl
hits-pick ((j, w) ∷ l) id c =
    let f = λ (k : ℕ). pick ((j, w) ∷ l) k c in
    let own : hits f id c w ≡ (if j == id then w else 0) =
      hits_const f id j c w (λ k p q. ground arith) in
    let others : hits f id (c + w) (total_weight l)
        ≡ hits (λ k. pick l k (c + w)) id (c + w) (total_weight l) =
      hits-same f (λ k. pick l k (c + w)) id (c + w) (total_weight l) (λ k p q. ground arith) in
    hits-add f id c w (total_weight l) ∙ omega (arith, own, others, hits-pick l id (c + w))

weight_in-candidates :
    (dead_at : ℕ → Bool) (l : List (ℕ × ℕ)) (id : ℕ)
    → weight_in id (candidates dead_at l) ≡ (if dead_at id then 0 else weight_in id l)
unfolding candidates
weight_in-candidates dead_at [] id = ground arith
weight_in-candidates dead_at ((j, w) ∷ l) id = ground (arith, weight_in-candidates dead_at l id)

or_last-pick :
    (l all : List (ℕ × ℕ)) (k cumulative : ℕ)
    → cumulative < k
    → k ≤ cumulative + total_weight l
    → or_last (pick l k cumulative) all ≡ pick l k cumulative
unfolding pick
or_last-pick [] all k c lo hi = absurd (omega arith)
or_last-pick ((j, w) ∷ l) all k c lo hi = ground (arith, or_last-pick l all k (c + w))

nonempty : (l : List (ℕ × ℕ)) → 0 < total_weight l → (length l == 0) ≡ false
nonempty [] h = absurd (omega arith)
nonempty (e ∷ l) h = ground arith

module _ (R : Redis) (key : Key) (t : ℕ) (s : R.Store) where
  -- The table of candidates.
  abbrev alive : List (ℕ × ℕ)
  alive = candidates (dead_in R t s) (weights_of (R.read s t key))

  -- Of the thresholds 1, …, total, where total is the weight of the members that are not dead,
  -- as many select a proxy as it has weight, and none selects a dead one.
  pub rotate_weighted_random-share :
      (id : ℕ)
      → hits
          (λ k. rotate_weighted_random R (λ total. k) key t s)
          id
          0
          (total_weight (candidates (dead_in R t s) (weights_of (R.read s t key))))
        ≡ (if dead_in R t s id then 0 else weight_in id (weights_of (R.read s t key)))
  unfolding rotate_weighted_random
  rotate_weighted_random-share id =
      hits-same (λ k. rotate_weighted_random R (λ total. k) key t s) (λ k. pick alive k 0) id 0
        (total_weight alive)
        (λ k lo hi. ground (arith, or_last-pick alive alive k 0, nonempty alive))
      ∙ hits-pick alive id 0
      ∙ weight_in-candidates (dead_in R t s) (weights_of (R.read s t key)) id
