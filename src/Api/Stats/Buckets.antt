-- ===== src/Api/Stats/Buckets.antt =====
-- The buckets into which src/api/stats.py counts latencies.
use proxysm.Base.{
  ℕ, ◌+◌, ◌≡◌, refl, Bool, true, false, not, ◌&&◌, Option, none, some, List, [], ◌∷◌, ◌++◌, map,
  arith, ltb, leb, ◌==◌, if◌then◌else◌, All, Bool-cases, Option-cases, inl, inr,
}
use proxysm.Text.{Text, text_eq}
use proxysm.Models.{Pool, PoolProxy, ProjectPool}
use proxysm.Groups.{rows_with, groups_for, distinct_by, group_rows}
use proxysm.Metrics.{LogRow, where_rows, count_where}
use proxysm.Api.Stats.{cutoff, from_to, from_on, is_null, insert_desc, order_desc}
use proxysm.Api.Stats.Requests.{
  Histogram, pool_with, Pooled, latency_in, histogram_of, in_project, pools_of_request, join_pools,
  histogram_each, timed, get_pool_latency_histogram,
}

abbrev pub one_if : Bool → ℕ
one_if b = if b then 1 else 0

module _ {A : Type 0} where
  pub count_cons :
      (p : A → Bool) (x : A) (l : List A) → count_where p (x ∷ l) ≡ one_if (p x) + count_where p l
  unfolding count_where
  count_cons p x l = elim (Bool-cases (p x)) [
    | inl e ↦ rw (e) (omega arith)
    | inr e ↦ rw (e) (omega arith)
  ]

  pub count_nil : (p : A → Bool) → count_where p [] ≡ 0
  unfolding count_where
  count_nil p = refl

  pub where_rows-All {ℓ} :
      (P : A → Type ℓ) (p : A → Bool) (l : List A) → All P l → All P (where_rows p l)
  unfolding where_rows
  where_rows-All P p [] h = tt
  where_rows-All P p (x ∷ l) (here, h) = elim (Bool-cases (p x)) [
    | inl e ↦ rw (e, where_rows) (here, where_rows-All P p l h)
    | inr e ↦ rw (e, where_rows) (where_rows-All P p l h)
  ]

  where_rows-passed : (p : A → Bool) (l : List A) → All (λ x. p x ≡ true) (where_rows p l)
  unfolding where_rows
  where_rows-passed p [] = tt
  where_rows-passed p (x ∷ l) = elim (Bool-cases (p x)) [
    | inl e ↦ rw (e, where_rows) (e, where_rows-passed p l)
    | inr e ↦ rw (e, where_rows) (where_rows-passed p l)
  ]

  insert_desc-All {ℓ} :
      (P : A → Type ℓ) (f : A → ℕ) (x : A) (l : List A) → P x → All P l → All P (insert_desc f x l)
  unfolding insert_desc
  insert_desc-All P f x [] here h = (here, tt)
  insert_desc-All P f x (y ∷ l) here (first, h) = elim (Bool-cases (ltb (f x) (f y))) [
    | inl e ↦ rw (e) (first, insert_desc-All P f x l here h)
    | inr e ↦ rw (e) (here, (first, h))
  ]

  pub order_desc-All {ℓ} :
      (P : A → Type ℓ) (f : A → ℕ) (l : List A) → All P l → All P (order_desc f l)
  unfolding order_desc
  order_desc-All P f [] h = tt
  order_desc-All P f (x ∷ l) (here, h) =
      insert_desc-All P f x (order_desc f l) here (order_desc-All P f l h)

  module _ {K : Type 0} (eq : K → K → Bool) (key : A → K) (P : A → Type 0) where
    rows_with-All : (k : K) (rows : List A) → All P rows → All P (rows_with eq key k rows)
    unfolding rows_with
    rows_with-All k [] h = tt
    rows_with-All k (x ∷ rows) (here, h) = elim (Bool-cases (eq (key x) k)) [
      | inl e ↦ rw (e) (here, rows_with-All k rows h)
      | inr e ↦ rw (e) (rows_with-All k rows h)
    ]

    groups_for-All :
        (keys : List K) (rows : List A)
        → All P rows
        → All (λ (k, l). All P l) (groups_for eq key keys rows)
    unfolding groups_for
    groups_for-All [] rows h = tt
    groups_for-All (k ∷ keys) rows h = (rows_with-All k rows h, groups_for-All keys rows h)

    pub group_rows-All :
        (rows : List A) → All P rows → All (λ (k, l). All P l) (group_rows eq key rows)
    unfolding group_rows
    group_rows-All rows h = groups_for-All (distinct_by eq (map key rows)) rows h

-- Latencies.
latency_once :
    (o : Option ℕ)
    → is_null o ≡ false
    → one_if (from_to 0 100 o)
        + one_if (from_to 100 300 o)
        + one_if (from_to 300 500 o)
        + one_if (from_to 500 1000 o)
        + one_if (from_to 1000 3000 o)
        + one_if (from_on 3000 o)
      ≡ 1
latency_once none h = cc
latency_once (some c) h = ground arith

abbrev pub HasTime : Pooled → Type 0
HasTime (pool, r) = is_null r.response_time_ms ≡ false

abbrev pub AddsUp : Histogram → Type 0
AddsUp h = h.below_100 + h.from_100 + h.from_300 + h.from_500 + h.from_1000 + h.from_3000 ≡ h.total

histogram_of-AddsUp :
    (pool : Pool) (rows : List Pooled) → All HasTime rows → AddsUp (histogram_of pool rows)
unfolding histogram_of
histogram_of-AddsUp pool [] h = nothing
  where
    nothing : AddsUp (histogram_of pool [])
    nothing = omega (
      arith,
      count_nil (latency_in 0 100),
      count_nil (latency_in 100 300),
      count_nil (latency_in 300 500),
      count_nil (latency_in 500 1000),
      count_nil (latency_in 1000 3000),
      count_nil (λ (x : Pooled). from_on 3000 x.1.response_time_ms),
    )
histogram_of-AddsUp pool ((id, r) ∷ rows) (here, h) = omega (
  arith,
  latency_once r.response_time_ms here,
  count_cons (latency_in 0 100) (id, r) rows,
  count_cons (latency_in 100 300) (id, r) rows,
  count_cons (latency_in 300 500) (id, r) rows,
  count_cons (latency_in 500 1000) (id, r) rows,
  count_cons (latency_in 1000 3000) (id, r) rows,
  count_cons (λ (x : Pooled). from_on 3000 x.1.response_time_ms) (id, r) rows,
  histogram_of-AddsUp pool rows h,
)

histogram_each-AddsUp :
    (pools : List Pool) (groups : List (ℕ × List Pooled))
    → All (λ (k, l). All HasTime l) groups
    → All AddsUp (histogram_each pools groups)
unfolding histogram_each
histogram_each-AddsUp pools [] h = tt
histogram_each-AddsUp pools ((id, rows) ∷ groups) (here, h) =
    elim (Option-cases (pool_with id pools)) [
      | inl e ↦ rw (e, histogram_each) (histogram_each-AddsUp pools groups h)
      | inr (pool, e) ↦
          rw (e, histogram_each)
            (histogram_of-AddsUp pool rows here, histogram_each-AddsUp pools groups h)
    ]

All-join : {A : Type 0} (P : A → Type 0) (l m : List A) → All P l → All P m → All P (l ++ m)
All-join P [] m h k = k
All-join P (x ∷ l) m (here, h) k = (here, All-join P l m h k)

module _ (uuid : ℕ → Text) where
  pools_of_request-HasTime :
      (r : LogRow) (links : List PoolProxy)
      → is_null r.response_time_ms ≡ false
      → All HasTime (pools_of_request uuid r links)
  unfolding pools_of_request
  pools_of_request-HasTime r [] h = tt
  pools_of_request-HasTime r (link ∷ links) h =
      elim (Bool-cases (text_eq (uuid link.proxy_id) r.proxy_id)) [
        | inl e ↦ rw (e) (h, pools_of_request-HasTime r links h)
        | inr e ↦ rw (e) (pools_of_request-HasTime r links h)
      ]

  join_pools-HasTime :
      (start : ℕ) (rows : List LogRow) (links : List PoolProxy)
      → All (λ r. timed start r ≡ true) rows
      → All HasTime (join_pools uuid rows links)
  unfolding join_pools
  join_pools-HasTime start [] links h = tt
  join_pools-HasTime start (r ∷ rows) links (here, h) =
      All-join HasTime (pools_of_request uuid r links) (join_pools uuid rows links)
        (pools_of_request-HasTime r links
          (not_null (leb start r.created_at) (is_null r.response_time_ms) here))
        (join_pools-HasTime start rows links h)
    where
      not_null : (a b : Bool) → (a && not b) ≡ true → b ≡ false
      not_null a b e = ground arith

  -- In each histogram the six buckets add up to the total: no latency is left out or counted twice.
  pub get_pool_latency_histogram-AddsUp :
      (now : ℕ) (project : Option ℕ) (hours : ℕ) (logs : List LogRow) (links : List PoolProxy)
      (project_pools : List ProjectPool) (pools : List Pool)
      → All AddsUp
          (get_pool_latency_histogram uuid now project hours logs links project_pools pools)
  unfolding get_pool_latency_histogram
  get_pool_latency_histogram-AddsUp now project hours logs links project_pools pools =
      let rows = where_rows (timed (cutoff now hours)) logs in
      let kept =
        where_rows (λ (x : Pooled). in_project project project_pools x.0)
          (join_pools uuid rows links) in
      order_desc-All AddsUp (λ row. row.total)
        (histogram_each pools (group_rows ◌==◌ (λ (x : Pooled). x.0) kept))
        (histogram_each-AddsUp pools (group_rows ◌==◌ (λ (x : Pooled). x.0) kept) (
          group_rows-All ◌==◌ (λ (x : Pooled). x.0) HasTime kept
            (where_rows-All HasTime (λ (x : Pooled). in_project project project_pools x.0)
              (join_pools uuid rows links)
              (join_pools-HasTime (cutoff now hours) rows links
                (where_rows-passed (timed (cutoff now hours)) logs)))))
