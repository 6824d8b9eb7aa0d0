-- ===== src/Api/Stats/Overview.antt =====
-- The counts of proxies of `get_overview_stats` and `get_provider_health` (src/api/stats.py).
use proxysm.Base.{
  ℕ, suc, ◌+◌, ◌≡◌, refl, ap, sym, ◌∙◌, true, false, Option, some, List, [], ◌∷◌, map, arith, ltb,
  length, if◌then◌else◌, Bool-cases, inl, inr,
}
use proxysm.Text.{Text, codes, option_eq}
use proxysm.Text.Laws.{option_eq-eq, option_eq_refl}
use proxysm.Models.{Proxy, Pool, Project}
use proxysm.Groups.{
  has_by, distinct_by, rows_with, groups_for, group_rows, grouped, has_by-distinct_by,
  grouped-group_rows,
}
use proxysm.Metrics.{LogRow, Table, count_where, sum_of}
use proxysm.Api.Stats.{Numbers, insert_desc, order_desc}
use proxysm.Api.Stats.Rollups.{word_of, count_each, get_count, status_map, get_overview_stats}
use proxysm.Api.Stats.Entities.{
  ProviderHealth, has_word, provider_of, provider_each, get_provider_health,
}

module _ {A : Type 0} (key : A → Option Text) where
  rows_with-count :
      (k : Option Text) (rows : List A)
      → length (rows_with option_eq key k rows) ≡ count_where (λ x. option_eq (key x) k) rows
  unfolding rows_with count_where
  rows_with-count k [] = refl
  rows_with-count k (x ∷ rows) = elim (Bool-cases (option_eq (key x) k)) [
    | inl e ↦ rw (e) (ap suc (rows_with-count k rows))
    | inr e ↦ rw (e) (rows_with-count k rows)
  ]

  count-none :
      (k : Option Text) (rows : List A)
      → has_by option_eq k (map key rows) ≡ false
      → count_where (λ x. option_eq (key x) k) rows ≡ 0
  unfolding count_where
  count-none k [] h = refl
  count-none k (x ∷ rows) h = elim (Bool-cases (option_eq (key x) k)) [
    | inl e ↦ let no_way : true ≡ false = rw e at h in cc
    | inr e ↦
        let rest : has_by option_eq k (map key rows) ≡ false = rw e at h in
        rw (e) (count-none k rows rest)
  ]

get_count-count_each :
    (w : Option Text) (keys : List (Option Text)) (rows : List Proxy)
    → get_count w (count_each (groups_for option_eq word_of keys rows)).0
      ≡ (if has_by option_eq w keys then length (rows_with option_eq word_of w rows) else 0)
unfolding get_count count_each groups_for
get_count-count_each w [] rows = refl
get_count-count_each w (k ∷ keys) rows = elim (Bool-cases (option_eq k w)) [
  | inl e ↦ rw (e) (ap (λ x. length (rows_with option_eq word_of x rows)) (option_eq-eq k w e))
  | inr e ↦ rw (e) (get_count-count_each w keys rows)
]

total-count_each :
    (groups : List (Option Text × List Proxy)) → (count_each groups).1 ≡ grouped groups
unfolding count_each
total-count_each [] = refl
total-count_each ((k, rows) ∷ groups) = ap (λ n. length rows + n) (total-count_each groups)

-- What the dict says of a word.
get_count-status_map :
    (w : Option Text) (proxies : List Proxy)
    → get_count w (status_map proxies).0 ≡ count_where (λ p. option_eq (word_of p) w) proxies
unfolding status_map group_rows
get_count-status_map w proxies =
    let keys = map word_of proxies in
    get_count-count_each w (distinct_by option_eq keys) proxies
    ∙ ap (λ b. if b then length (rows_with option_eq word_of w proxies) else 0)
        (has_by-distinct_by option_eq option_eq-eq option_eq_refl w keys)
    ∙ elim (Bool-cases (has_by option_eq w keys)) [
      | inl e ↦ rw (e) (rows_with-count word_of w proxies)
      | inr e ↦ rw (e) (sym (count-none word_of w proxies e))
    ]

-- The overview counts each proxy once: `total_proxies` is the number of rows, and each of the four
-- counts by status is the number of rows with that status.
pub get_overview_stats-counts :
    {N : Type 0} (num : Numbers N) (now : ℕ) (proxies : List Proxy) (pools : List Pool)
    (projects : List Project) (table : Table N) (logs : List LogRow)
    → let o = get_overview_stats num now proxies pools projects table logs in
      (o.total_proxies ≡ length proxies)
      × (o.healthy_proxies ≡ count_where (has_word (codes "healthy")) proxies)
      × (o.degraded_proxies ≡ count_where (has_word (codes "degraded")) proxies)
      × (o.dead_proxies ≡ count_where (has_word (codes "dead")) proxies)
      × (o.unknown_proxies ≡ count_where (has_word (codes "unknown")) proxies)
unfolding get_overview_stats status_map
get_overview_stats-counts num now proxies pools projects table logs = (
  total_lem,
  get_count-status_map (some (codes "healthy")) proxies,
  get_count-status_map (some (codes "degraded")) proxies,
  get_count-status_map (some (codes "dead")) proxies,
  get_count-status_map (some (codes "unknown")) proxies,
)
  where
    total_lem : (status_map proxies).1 ≡ length proxies
    total_lem =
        total-count_each (group_rows option_eq word_of proxies)
        ∙ grouped-group_rows option_eq option_eq-eq option_eq_refl word_of proxies

module _ {A : Type 0} (f : A → ℕ) where
  sum_of-insert_desc :
      (g : A → ℕ) (x : A) (l : List A) → sum_of g (insert_desc f x l) ≡ g x + sum_of g l
  unfolding sum_of insert_desc
  sum_of-insert_desc g x [] = refl
  sum_of-insert_desc g x (y ∷ l) = elim (Bool-cases (ltb (f x) (f y))) [
    | inl e ↦ rw (e) (omega (arith, sum_of-insert_desc g x l))
    | inr e ↦ rw (e) refl
  ]

  pub sum_of-order_desc : (g : A → ℕ) (l : List A) → sum_of g (order_desc f l) ≡ sum_of g l
  unfolding sum_of order_desc
  sum_of-order_desc g [] = refl
  sum_of-order_desc g (x ∷ l) =
      sum_of-insert_desc g x (order_desc f l) ∙ ap (λ n. g x + n) (sum_of-order_desc g l)

total-provider_each :
    (groups : List (Option Text × List Proxy))
    → sum_of (λ (row : ProviderHealth). row.total) (provider_each groups) ≡ grouped groups
unfolding sum_of provider_each provider_of
total-provider_each [] = refl
total-provider_each ((provider, rows) ∷ groups) =
    ap (λ n. length rows + n) (total-provider_each groups)

-- The totals by provider add up to the number of proxies.
pub total-get_provider_health :
    (proxies : List Proxy)
    → sum_of (λ (row : ProviderHealth). row.total) (get_provider_health proxies) ≡ length proxies
unfolding get_provider_health
total-get_provider_health proxies =
    let groups = group_rows option_eq (λ (p : Proxy). p.provider) proxies in
    sum_of-order_desc (λ row. row.total) (λ row. row.total) (provider_each groups)
    ∙ total-provider_each groups
    ∙ grouped-group_rows option_eq option_eq-eq option_eq_refl (λ p. p.provider) proxies
