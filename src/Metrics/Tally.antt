-- ===== src/Metrics/Tally.antt =====
-- Requests and rows of `metrics_rollup` (src/services/metrics.py), counted over stretches of time.
use proxysm.Base.{
  ℕ, ◌+◌, ◌%◌, ◌≤◌, ◌≡◌, refl, ap, sym, ◌∙◌, Bool, true, false, ◌&&◌, ◌||◌, Option, none, some,
  List, [], ◌∷◌, arith, ◌==◌, if◌then◌else◌, All, Bool-cases, inl, inr,
}
use proxysm.Bandwidth.{AccKey, acc_key_eq}
use proxysm.Metrics.{
  LogRow, Granularity, five_minutes, hour, day, granularity_eq, Slot, slot_eq, Figures, Table,
  where_rows, count_where, sum_of, within, is_success, is_failure, minutes_5,
}
use proxysm.Metrics.Lookup.{find, hits, slot_eq-eq}
use proxysm.Metrics.FiveMinutes.{owns}
use proxysm.Metrics.Balance.{width_of, IsRow, IsUnique}

module _ {A : Type 0} where
  -- The sum of `f` where `p` holds.
  abbrev pub tally : (A → Bool) → (A → ℕ) → List A → ℕ
  tally p f [] = 0
  tally p f (x ∷ l) = let rest = tally p f l in if p x then f x + rest else rest

  pub tally-split :
      (p q s : A → Bool) (f : A → ℕ) (l : List A)
      → ((x : A) → p x ≡ (q x || s x))
      → ((x : A) → (q x && s x) ≡ false)
      → tally p f l ≡ tally q f l + tally s f l
  tally-split p q s f [] whole apart = refl
  tally-split p q s f (x ∷ l) whole apart =
      ground (arith, whole x, apart x, tally-split p q s f l whole apart)

  pub tally-none :
      (p : A → Bool) (f : A → ℕ) (l : List A) → ((x : A) → p x ≡ false) → tally p f l ≡ 0
  tally-none p f [] h = refl
  tally-none p f (x ∷ l) h = rw (h x) (tally-none p f l h)

  pub sum_of-where_rows :
      (p : A → Bool) (f : A → ℕ) (l : List A) → sum_of f (where_rows p l) ≡ tally p f l
  unfolding sum_of where_rows
  sum_of-where_rows p f [] = refl
  sum_of-where_rows p f (x ∷ l) = ground (arith, sum_of-where_rows p f l)

  count_where-where_rows :
      (p q : A → Bool) (l : List A)
      → count_where q (where_rows p l) ≡ tally p (λ x. if q x then 1 else 0) l
  unfolding count_where where_rows
  count_where-where_rows p q [] = refl
  count_where-where_rows p q (x ∷ l) = ground (arith, count_where-where_rows p q l)

-- The three counts of a row.
pub data Count : Type 0 where
  total successful failed : Count

abbrev pub counted : Count → LogRow → Bool
counted total r = true
counted successful r = is_success r
counted failed r = is_failure r

-- The requests of an entity in a stretch of time that count.
abbrev pub requests : Count → AccKey → ℕ → ℕ → List LogRow → ℕ
requests c k lo hi logs =
    count_where (counted c) (where_rows (λ r. within lo hi r.created_at && owns k r) logs)

pub requests-tally :
    (c : Count) (k : AccKey) (lo hi : ℕ) (logs : List LogRow)
    → requests c k lo hi logs
      ≡ tally (λ r. within lo hi r.created_at && owns k r) (λ r. if counted c r then 1 else 0) logs
requests-tally c k lo hi logs =
    count_where-where_rows (λ r. within lo hi r.created_at && owns k r) (counted c) logs

pub within_split : (a b d x : ℕ) → a ≤ b → b ≤ d → within a d x ≡ (within a b x || within b d x)
within_split a b d x h k = ground arith

pub within_apart : (a b d x : ℕ) → (within a b x && within b d x) ≡ false
within_apart a b d x = ground arith

pub within_none : (a b x : ℕ) → b ≤ a → within a b x ≡ false
within_none a b x h = ground arith

abbrev pub window : AccKey → ℕ → Slot
window k lo = record { key = k; period = lo; granularity = five_minutes }

aligned_eq :
    (a x : ℕ) → a % minutes_5 ≡ 0 → x % minutes_5 ≡ 0 → within a (a + minutes_5) x ≡ (x == a)
aligned_eq a x h k = ground arith

module _ {N : Type 0} where
  abbrev pub count_of : Count → Figures N → ℕ
  count_of total f = f.total_requests
  count_of successful f = f.successful_requests
  count_of failed f = f.failed_requests

  -- What a row shows, 0 if there is none.
  abbrev pub shown : Count → Option (Figures N) → ℕ
  shown c none = 0
  shown c (some f) = count_of c f

  -- A window of five minutes holds no more than its slot.
  in_slot :
      (k : AccKey) (lo : ℕ) (slot : Slot) (f : Figures N)
      → lo % minutes_5 ≡ 0
      → IsRow (slot, f)
      → (granularity_eq slot.granularity five_minutes
          && within lo (lo + minutes_5) slot.period
          && acc_key_eq slot.key k)
        ≡ slot_eq slot (window k lo)
  unfolding slot_eq
  in_slot k lo slot f h (balanced, aligned) = by_granularity slot.granularity aligned
    where
      rearrange : (a b : Bool) → (a && b) ≡ (b && (a && true))
      rearrange a b = ground arith

      never : (a b : Bool) → false ≡ (a && (b && false))
      never a b = ground arith

      by_granularity :
          (g : Granularity)
          → slot.period % width_of g ≡ 0
          → (granularity_eq g five_minutes
              && within lo (lo + minutes_5) slot.period
              && acc_key_eq slot.key k)
            ≡ (acc_key_eq slot.key k && (slot.period == lo && granularity_eq g five_minutes))
      by_granularity five_minutes e =
          rw (aligned_eq lo slot.period h e) (rearrange (slot.period == lo) (acc_key_eq slot.key k))
      by_granularity hour e = never (acc_key_eq slot.key k) (slot.period == lo)
      by_granularity day e = never (acc_key_eq slot.key k) (slot.period == lo)

  -- The rows of windows of an entity that start in a stretch of time.
  abbrev pub stretch : AccKey → ℕ → ℕ → Slot × Figures N → Bool
  stretch k lo hi (slot, f) =
      granularity_eq slot.granularity five_minutes
      && within lo hi slot.period
      && acc_key_eq slot.key k

  abbrev pub in_row : Count → Slot × Figures N → ℕ
  in_row c (slot, f) = count_of c f

  find-none : (slot : Slot) (table : Table N) → hits slot table ≡ false → find slot table ≡ none
  find-none slot [] h = refl
  find-none slot ((s, f) ∷ table) h = elim (Bool-cases (slot_eq s slot)) [
    | inl e ↦ let no_way : true ≡ false = rw e at h in cc
    | inr e ↦ let rest : hits slot table ≡ false = rw e at h in rw e (find-none slot table rest)
  ]

  pub tally-slot :
      (c : Count) (slot : Slot) (table : Table N)
      → IsUnique table
      → tally (λ (s, f). slot_eq s slot) (in_row c) table ≡ shown c (find slot table)
  tally-slot c slot [] h = refl
  tally-slot c slot ((s, f) ∷ table) (free, h) = elim (Bool-cases (slot_eq s slot)) [
    | inl e ↦
        let gone : hits slot table ≡ false =
          ap (λ x. hits x table) (sym (slot_eq-eq s slot e)) ∙ free in
        let rest = tally-slot c slot table h ∙ ap (shown c) (find-none slot table gone) in
        rw e (omega (arith, rest))
    | inr e ↦ rw e (tally-slot c slot table h)
  ]

  pub tally-window :
      (c : Count) (k : AccKey) (lo : ℕ) (table : Table N)
      → lo % minutes_5 ≡ 0
      → All IsRow table
      → tally (stretch k lo (lo + minutes_5)) (in_row c) table
        ≡ tally (λ (s, f). slot_eq s (window k lo)) (in_row c) table
  tally-window c k lo [] h all = refl
  tally-window c k lo ((s, f) ∷ table) h (here, all) = rw (in_slot k lo s f h here) (
      ap (λ n. if slot_eq s (window k lo) then count_of c f + n else n)
        (tally-window c k lo table h all))
