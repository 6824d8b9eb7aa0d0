-- ===== src/Metrics/Hours.antt =====
-- The requests of an hour, from `request_log` through the windows of five minutes to the row of the
-- hour (src/services/metrics.py).
use proxysm.Base.{
  ℕ, zero, suc, ◌+◌, ◌-◌, ◌*◌, ◌%◌, ◌≤◌, ◌≡◌, refl, ap, subst, sym, ◌∙◌, Bool, true, false, ◌&&◌,
  ◌||◌, some, List, arith, ◌==◌, if◌then◌else◌, ==_refl,
}
use proxysm.Bandwidth.{AccKey, acc_key_eq}
use proxysm.Metrics.{
  LogRow, five_minutes, hour, granularity_eq, Slot, Aggregates, Table, within, minutes_5, one_hour,
  trunc, rows_of, merged, coarsen, rollup_1hour,
}
use proxysm.Metrics.Lookup.{find}
use proxysm.Metrics.FiveMinutes.{any, owns}
use proxysm.Metrics.Coarser.{merged_spec, is_there, find-coarsen}
use proxysm.Metrics.Balance.{IsValid}
use proxysm.Metrics.Tally.{
  tally, tally-split, tally-none, sum_of-where_rows, Count, total, successful, failed, counted,
  requests, requests-tally, within_split, within_apart, within_none, count_of, shown, window,
  stretch, in_row, tally-slot, tally-window,
}

within_part :
    (a b d x : ℕ) (k : Bool)
    → a ≤ b
    → b ≤ d
    → (within a d x && k) ≡ (within a b x && k || within b d x && k)
within_part a b d x k h g =
    rw (within_split a b d x h g) (distribute (within a b x) (within b d x) k)
  where
    distribute : (p q k : Bool) → ((p || q) && k) ≡ (p && k || q && k)
    distribute p q k = ground arith

within_disjoint : (a b d x : ℕ) (k : Bool) → ((within a b x && k) && (within b d x && k)) ≡ false
within_disjoint a b d x k = disjoint (within a b x) (within b d x) k (within_apart a b d x)
  where
    disjoint : (p q k : Bool) → (p && q) ≡ false → ((p && k) && (q && k)) ≡ false
    disjoint p q k h = ground arith

requests-split :
    (c : Count) (k : AccKey) (a b d : ℕ) (logs : List LogRow)
    → a ≤ b
    → b ≤ d
    → requests c k a d logs ≡ requests c k a b logs + requests c k b d logs
requests-split c k a b d logs h g =
    requests-tally c k a d logs
    ∙ tally-split (λ r. within a d r.created_at && owns k r)
        (λ r. within a b r.created_at && owns k r) (λ r. within b d r.created_at && owns k r)
        (λ r. if counted c r then 1 else 0) logs
        (λ r. within_part a b d r.created_at (owns k r) h g)
        (λ r. within_disjoint a b d r.created_at (owns k r))
    ∙ rw (sym (requests-tally c k a b logs), sym (requests-tally c k b d logs)) refl

stretch_part :
    (a b d x : ℕ) (g k : Bool)
    → a ≤ b
    → b ≤ d
    → (g && within a d x && k) ≡ (g && within a b x && k || g && within b d x && k)
stretch_part a b d x g k h l =
    rw (within_split a b d x h l) (distribute g (within a b x) (within b d x) k)
  where
    distribute : (g p q k : Bool) → (g && (p || q) && k) ≡ (g && p && k || g && q && k)
    distribute g p q k = ground arith

stretch_disjoint :
    (a b d x : ℕ) (g k : Bool) → ((g && within a b x && k) && (g && within b d x && k)) ≡ false
stretch_disjoint a b d x g k = disjoint g (within a b x) (within b d x) k (within_apart a b d x)
  where
    disjoint : (g p q k : Bool) → (p && q) ≡ false → ((g && p && k) && (g && q && k)) ≡ false
    disjoint g p q k h = ground arith

module _ {N : Type 0} where
  stretch-split :
      (c : Count) (k : AccKey) (a b d : ℕ) (table : Table N)
      → a ≤ b
      → b ≤ d
      → tally (stretch k a d) (in_row c) table
        ≡ tally (stretch k a b) (in_row c) table + tally (stretch k b d) (in_row c) table
  stretch-split c k a b d table h g =
      tally-split (stretch k a d) (stretch k a b) (stretch k b d) (in_row c) table
        (λ (s, f).
          stretch_part a b d s.period (granularity_eq s.granularity five_minutes)
            (acc_key_eq s.key k) h g)
        (λ (s, f).
          stretch_disjoint a b d s.period (granularity_eq s.granularity five_minutes)
            (acc_key_eq s.key k))

  -- Each window from `lo` on, of `n`, shows the requests of the entity in its time.
  abbrev pub ShowsEach : Count → AccKey → ℕ → List LogRow → Table N → ℕ → Type 0
  ShowsEach c k lo logs table zero = Unit
  ShowsEach c k lo logs table (suc n) =
      ShowsEach c k lo logs table n
      × (shown c (find (window k (lo + n * minutes_5)) table)
          ≡ requests c k (lo + n * minutes_5) (lo + n * minutes_5 + minutes_5) logs)

  windows :
      (c : Count) (k : AccKey) (lo n : ℕ) (logs : List LogRow) (table : Table N)
      → lo % minutes_5 ≡ 0
      → IsValid table
      → ShowsEach c k lo logs table n
      → tally (stretch k lo (lo + n * minutes_5)) (in_row c) table
        ≡ requests c k lo (lo + n * minutes_5) logs
  windows c k lo zero logs table h valid shows =
      let hi = lo + 0 * minutes_5 in
      let short : hi ≤ lo = omega arith in
      tally-none (stretch k lo hi) (in_row c) table (λ (s, f).
        no_stretch (granularity_eq s.granularity five_minutes) (within lo hi s.period)
          (acc_key_eq s.key k) (within_none lo hi s.period short))
      ∙ sym (
          requests-tally c k lo hi logs
          ∙ tally-none (λ r. within lo hi r.created_at && owns k r)
              (λ r. if counted c r then 1 else 0) logs
              (λ r.
                no_request (within lo hi r.created_at) (owns k r)
                  (within_none lo hi r.created_at short)))
    where
      no_stretch : (g w k : Bool) → w ≡ false → (g && w && k) ≡ false
      no_stretch g w k e = ground arith

      no_request : (w k : Bool) → w ≡ false → (w && k) ≡ false
      no_request w k e = ground arith
  windows c k lo (suc n) logs table h valid (before, last) =
      let mid = lo + n * minutes_5 in
      let hi = lo + suc n * minutes_5 in
      let there : mid + minutes_5 ≡ hi = omega arith in
      let aligned : mid % minutes_5 ≡ 0 = omega arith in
      let one : tally (stretch k mid (mid + minutes_5)) (in_row c) table
          ≡ requests c k mid (mid + minutes_5) logs =
        tally-window c k mid table aligned valid.1
        ∙ tally-slot c (window k mid) table valid.0
        ∙ last in
      let last_one =
        subst (λ x. tally (stretch k mid x) (in_row c) table ≡ requests c k mid x logs) there one in
      stretch-split c k lo mid hi table (omega arith) (omega arith)
      ∙ rw (windows c k lo n logs table h valid before, last_one) refl
      ∙ sym (requests-split c k lo mid hi logs (omega arith) (omega arith))

chosen {ℓ} :
    {A : Type ℓ} (a b d : Bool) (x y : A)
    → a ≡ true
    → b ≡ true
    → (if a && (b && true) || d then x else y) ≡ x
chosen a b d x y e f = rw (e, f)

module _ (agg : Aggregates) where
  open agg use {Number}

  count_of-merged :
      (c : Count) (k : AccKey) (lo hi : ℕ) (table : Table Number)
      → count_of c (merged agg (rows_of agg five_minutes k lo hi table))
        ≡ tally (stretch k lo hi) (in_row c) table
  unfolding merged
  count_of-merged total k lo hi table = sum_of-where_rows (stretch k lo hi) (in_row total) table
  count_of-merged successful k lo hi table =
      sum_of-where_rows (stretch k lo hi) (in_row successful) table
  count_of-merged failed k lo hi table = sum_of-where_rows (stretch k lo hi) (in_row failed) table

  -- If each of the twelve windows of the hour before that of `now` shows the requests of an entity in
  -- its five minutes, then the row of that hour, behind `_rollup_1hour`, shows the requests of the
  -- entity in the hour: all, successful or failed ones. The entity has a window in the hour, and the
  -- table is valid.
  pub shown-rollup_1hour :
      (c : Count) (k : AccKey) (now : ℕ) (logs : List LogRow) (table : Table Number)
      → let lo = trunc one_hour now - one_hour in
        IsValid table
        → ShowsEach c k lo logs table 12
        → any (is_there agg five_minutes hour one_hour k lo) table ≡ true
        → shown c (
            find (record { key = k; period = lo; granularity = hour }) (rollup_1hour agg now table))
          ≡ requests c k lo (lo + one_hour) logs
  unfolding rollup_1hour
  shown-rollup_1hour c k now logs table valid shows there =
      let lo = trunc one_hour now - one_hour in
      let slot : Slot = record { key = k; period = lo; granularity = hour } in
      let row : find slot (coarsen agg five_minutes hour one_hour now table)
          ≡ some (merged_spec agg five_minutes hour one_hour table slot) =
        find-coarsen agg five_minutes hour one_hour now table slot
        ∙ chosen (any (is_there agg five_minutes hour one_hour k lo) table) (lo == lo) _
            (some (merged_spec agg five_minutes hour one_hour table slot)) (find slot table) there
            (==_refl lo) in
      ap (shown c) row
      ∙ count_of-merged c k lo (lo + one_hour) table
      ∙ windows c k lo 12 logs table (omega arith) valid shows
