-- ===== src/Metrics/FiveMinutes.antt =====
-- What `_rollup_5min` (src/services/metrics.py) makes of the requests of a window.
use proxysm.Base.{
  ℕ, ◌+◌, ◌-◌, ◌≡◌, refl, ap, ◌∙◌, Bool, true, false, ◌&&◌, ◌||◌, some, List, [], ◌∷◌, ◌++◌, map,
  arith, ◌==◌, if◌then◌else◌, All, Bool-cases, inl, inr,
}
use mathlib.Core.Path.{fun_ext}
use proxysm.Bandwidth.{AccKey, acc_key_eq}
use proxysm.Metrics.{
  LogRow, five_minutes, granularity_eq, Slot, slot_eq, Aggregates, Figures, Table, where_rows,
  has_key, distinct, within, proxy_of, pool_of, project_of, minutes_5, trunc, figures_of, rows_for,
  group_by, raw_stats, rollup_5min,
}
use proxysm.Metrics.Lookup.{find, hits, find-upsert_each, hits-append, All-append, has_key-distinct}

-- Some element passes the test.
abbrev pub any {ℓ} : {A : Type ℓ} → (A → Bool) → List A → Bool
any p [] = false
any p (x ∷ l) = p x || any p l

-- The request is one of this proxy, pool or project.
abbrev pub owns : AccKey → LogRow → Bool
owns k r = acc_key_eq (proxy_of r) k || (acc_key_eq (pool_of r) k || acc_key_eq (project_of r) k)

-- The request falls into the five minutes from `lo` on.
abbrev pub in_window : ℕ → LogRow → Bool
in_window lo r = within lo (lo + minutes_5) r.created_at

pub any-or {ℓ} :
    {A : Type ℓ} (p q : A → Bool) (l : List A) → (any p l || any q l) ≡ any (λ x. p x || q x) l
any-or p q [] = refl
any-or p q (x ∷ l) =
    or_regroup (p x) (q x) (any p l) (any q l) ∙ ap (λ b. (p x || q x) || b) (any-or p q l)
  where
    or_regroup : (a b c d : Bool) → ((a || c) || (b || d)) ≡ ((a || b) || (c || d))
    or_regroup a b c d = ground arith

pub has_key-map {ℓ} :
    {A : Type ℓ} (k : AccKey) (key : A → AccKey) (l : List A)
    → has_key k (map key l) ≡ any (λ x. acc_key_eq (key x) k) l
has_key-map k key [] = refl
has_key-map k key (x ∷ l) = ap (λ b. acc_key_eq (key x) k || b) (has_key-map k key l)

pub any-where_rows :
    {A : Type 0} (p q : A → Bool) (l : List A) → any q (where_rows p l) ≡ any (λ x. p x && q x) l
unfolding where_rows
any-where_rows p q [] = refl
any-where_rows p q (x ∷ l) = elim (Bool-cases (p x)) [
  | inl e ↦ rw (e, where_rows) (ap (λ b. q x || b) (any-where_rows p q l))
  | inr e ↦ rw (e, where_rows) (any-where_rows p q l)
]

pub All-distinct {ℓ} : (P : AccKey → Type ℓ) (l : List AccKey) → All P l → All P (distinct l)
unfolding distinct
All-distinct P [] h = h
All-distinct P (k ∷ l) (here, h) = elim (Bool-cases (has_key k (distinct l))) [
  | inl e ↦ rw e (All-distinct P l h)
  | inr e ↦ rw e (here, All-distinct P l h)
]

pub and_or : (a b c : Bool) → (a && c || b && c) ≡ ((a || b) && c)
and_or true true c = ground arith
and_or true false c = ground arith
and_or false b c = refl

-- Among the entities of one type, a request is owned as `entity` says.
abbrev Sees : (LogRow → AccKey) → AccKey → Type 0
Sees entity k = (r : LogRow) → acc_key_eq (entity r) k ≡ owns k r

or_false : (b : Bool) → b ≡ (b || false)
or_false true = refl
or_false false = refl

proxy_of-Sees : (r : LogRow) → Sees proxy_of (proxy_of r)
proxy_of-Sees r s = or_false (acc_key_eq (proxy_of s) (proxy_of r))

pool_of-Sees : (r : LogRow) → Sees pool_of (pool_of r)
pool_of-Sees r s = or_false (acc_key_eq (pool_of s) (pool_of r))

project_of-Sees : (r : LogRow) → Sees project_of (project_of r)
project_of-Sees r s = refl

All-map {ℓ κ} :
    {A : Type ℓ} (P : AccKey → Type κ) (key : A → AccKey) (l : List A)
    → ((x : A) → P (key x))
    → All P (map key l)
All-map P key [] h = tt
All-map P key (x ∷ l) h = (h x, All-map P key l h)

module _ (agg : Aggregates) where
  open agg use {Number}

  -- The figures of the requests of an entity in the five minutes from `lo` on.
  abbrev pub spec_figures : List LogRow → AccKey → ℕ → Figures Number
  spec_figures logs k lo = figures_of agg (where_rows (λ r. in_window lo r && owns k r) logs)

  abbrev at_slot : ℕ → Slot → Bool
  at_slot lo slot = lo == slot.period && granularity_eq five_minutes slot.granularity

  hits-rows_for :
      (slot : Slot) (entity : LogRow → AccKey) (lo : ℕ) (logs : List LogRow) (keys : List AccKey)
      → hits slot (rows_for agg entity lo logs keys) ≡ (has_key slot.key keys && at_slot lo slot)
  unfolding rows_for slot_eq
  hits-rows_for slot entity lo logs [] = refl
  hits-rows_for slot entity lo logs (k ∷ keys) =
      ap (λ b. (acc_key_eq k slot.key && at_slot lo slot) || b)
        (hits-rows_for slot entity lo logs keys)
      ∙ and_or (acc_key_eq k slot.key) (has_key slot.key keys) (at_slot lo slot)

  rows_for-spec :
      (entity : LogRow → AccKey) (lo : ℕ) (logs : List LogRow) (keys : List AccKey)
      → All (Sees entity) keys
      → All
          (λ (slot, f). f ≡ spec_figures logs slot.key slot.period)
          (rows_for agg entity lo logs keys)
  unfolding rows_for
  rows_for-spec entity lo logs [] h = tt
  rows_for-spec entity lo logs (k ∷ keys) (here, h) = (
    ap (λ p. figures_of agg (where_rows p logs))
        (fun_ext (λ r. ap (λ b. in_window lo r && b) (here r))),
    rows_for-spec entity lo logs keys h,
  )

  group_by-spec :
      (entity : LogRow → AccKey) (lo : ℕ) (logs : List LogRow)
      → ((r : LogRow) → Sees entity (entity r))
      → All (λ (slot, f). f ≡ spec_figures logs slot.key slot.period) (group_by agg entity lo logs)
  unfolding group_by
  group_by-spec entity lo logs sees =
      let rows = where_rows (in_window lo) logs in
      rows_for-spec entity lo logs (distinct (map entity rows))
        (All-distinct (Sees entity) (map entity rows) (All-map (Sees entity) entity rows sees))

  hits-group_by :
      (slot : Slot) (entity : LogRow → AccKey) (lo : ℕ) (logs : List LogRow)
      → hits slot (group_by agg entity lo logs)
        ≡ (any (λ r. in_window lo r && acc_key_eq (entity r) slot.key) logs && at_slot lo slot)
  unfolding group_by
  hits-group_by slot entity lo logs =
      let rows = where_rows (in_window lo) logs in
      hits-rows_for slot entity lo logs (distinct (map entity rows))
      ∙ ap (λ b. b && at_slot lo slot)
          (has_key-distinct slot.key (map entity rows)
            ∙ has_key-map slot.key entity rows
            ∙ any-where_rows (in_window lo) (λ r. acc_key_eq (entity r) slot.key) logs)

  hits-raw_stats :
      (slot : Slot) (lo : ℕ) (logs : List LogRow)
      → hits slot (raw_stats agg lo logs)
        ≡ (any (λ r. in_window lo r && owns slot.key r) logs && at_slot lo slot)
  unfolding raw_stats
  hits-raw_stats slot lo logs =
      let t = at_slot lo slot in
      let proxies = λ (r : LogRow). in_window lo r && acc_key_eq (proxy_of r) slot.key in
      let pools = λ (r : LogRow). in_window lo r && acc_key_eq (pool_of r) slot.key in
      let projects = λ (r : LogRow). in_window lo r && acc_key_eq (project_of r) slot.key in
      hits-append slot (group_by agg proxy_of lo logs)
        (group_by agg pool_of lo logs ++ group_by agg project_of lo logs)
      ∙ ap (λ b. hits slot (group_by agg proxy_of lo logs) || b)
          (hits-append slot (group_by agg pool_of lo logs) (group_by agg project_of lo logs))
      ∙ rw
          (
            hits-group_by slot proxy_of lo logs,
            hits-group_by slot pool_of lo logs,
            hits-group_by slot project_of lo logs,
          )
          (ap (λ b. any proxies logs && t || b) (and_or (any pools logs) (any projects logs) t)
            ∙ and_or (any proxies logs) (any pools logs || any projects logs) t
            ∙ ap (λ b. b && t)
                (ap (λ b. any proxies logs || b) (any-or pools projects logs)
                  ∙ any-or proxies (λ r. pools r || projects r) logs
                  ∙ ap (λ p. any p logs)
                      (fun_ext (λ r.
                        factor (in_window lo r) (acc_key_eq (proxy_of r) slot.key)
                          (acc_key_eq (pool_of r) slot.key) (acc_key_eq (project_of r) slot.key)))))
    where
      factor : (w a b c : Bool) → (w && a || (w && b || w && c)) ≡ (w && (a || (b || c)))
      factor w a b c = ground arith

  raw_stats-spec :
      (lo : ℕ) (logs : List LogRow)
      → All (λ (slot, f). f ≡ spec_figures logs slot.key slot.period) (raw_stats agg lo logs)
  unfolding raw_stats
  raw_stats-spec lo logs =
      let F = λ (s : Slot). spec_figures logs s.key s.period in
      All-append F (group_by agg proxy_of lo logs)
        (group_by agg pool_of lo logs ++ group_by agg project_of lo logs)
        (group_by-spec proxy_of lo logs proxy_of-Sees)
        (All-append F (group_by agg pool_of lo logs) (group_by agg project_of lo logs)
          (group_by-spec pool_of lo logs pool_of-Sees)
          (group_by-spec project_of lo logs project_of-Sees))

  -- Behind the rollup at `now`, the row of an entity for the window of five minutes before that of
  -- `now` holds the figures of exactly its requests in that window, whatever the row held; where the
  -- entity has no request in that window, and at every other slot, the table is as it was.
  pub find-rollup_5min :
      (now : ℕ) (logs : List LogRow) (table : Table Number) (slot : Slot)
      → let lo = trunc minutes_5 now - minutes_5 in
        find slot (rollup_5min agg now logs table) ≡ (
          if any (λ r. in_window lo r && owns slot.key r) logs
            && (lo == slot.period && granularity_eq five_minutes slot.granularity)
          then some (spec_figures logs slot.key slot.period)
          else find slot table)
  unfolding rollup_5min
  find-rollup_5min now logs table slot =
      let lo = trunc minutes_5 now - minutes_5 in
      find-upsert_each (λ s. spec_figures logs s.key s.period) slot (raw_stats agg lo logs) table
        (raw_stats-spec lo logs)
      ∙ ap (λ b. if b then some (spec_figures logs slot.key slot.period) else find slot table)
          (hits-raw_stats slot lo logs)
