-- ===== src/Partitions/Days.antt =====
-- From when to when there is a partition (src/services/partitions.py).
use proxysm.Base.{
  ℕ, zero, suc, ◌+◌, ◌-◌, ◌≤◌, ◌<◌, ◌≡◌, refl, ap, sym, ◌∙◌, true, false, some, List, [], ◌∷◌, ◌++◌,
  append_assoc, arith, ltb, if◌then◌else◌, Bool-cases, inl, inr,
}
use proxysm.Text.{Text, behind_prefix}
use proxysm.Text.Laws.{behind_prefix-append}
use proxysm.Partitions.{
  Date, tomorrow, yesterday, plus_days, minus_days, is_before, date_text, partition_name, Partition,
  partition_of, is_dropped, drop_each, drop_old_partitions,
}
use proxysm.Partitions.Dates.{
  Fits, rank, is_before-rank, tomorrow-Fits, rank-tomorrow, yesterday-Fits, rank-yesterday,
  yesterday-tomorrow,
}
use proxysm.Partitions.Names.{parse_date-date_text}

pub plus_days_last : (k : ℕ) (d : Date) → plus_days (suc k) d ≡ tomorrow (plus_days k d)
unfolding plus_days
plus_days_last zero d = refl
plus_days_last (suc k) d = plus_days_last k (tomorrow d)

pub plus_days-Fits : (k : ℕ) (d : Date) → Fits d → Fits (plus_days k d)
unfolding plus_days
plus_days-Fits zero d h = h
plus_days-Fits (suc k) d h = plus_days-Fits k (tomorrow d) (tomorrow-Fits d h)

yesterday-plus_days : (k : ℕ) (d : Date) → Fits d → yesterday (plus_days (suc k) d) ≡ plus_days k d
yesterday-plus_days k d h =
    ap yesterday (plus_days_last k d) ∙ yesterday-tomorrow (plus_days k d) (plus_days-Fits k d h)

minus_days-plus_more :
    (r j : ℕ) (d : Date) → Fits d → minus_days r (plus_days (r + j) d) ≡ plus_days j d
unfolding minus_days
minus_days-plus_more zero j d h = let e : 0 + j ≡ j = omega arith in ap (λ n. plus_days n d) e
minus_days-plus_more (suc r) j d h =
    let e : suc r + j ≡ suc (r + j) = omega arith in
    ap (λ n. minus_days r (yesterday (plus_days n d))) e
    ∙ ap (minus_days r) (yesterday-plus_days (r + j) d h)
    ∙ minus_days-plus_more r j d h

minus_days-plus_less :
    (k j : ℕ) (d : Date) → Fits d → minus_days (k + j) (plus_days k d) ≡ minus_days j d
unfolding minus_days plus_days
minus_days-plus_less zero j d h = let e : 0 + j ≡ j = omega arith in ap (λ n. minus_days n d) e
minus_days-plus_less (suc k) j d h =
    let e : suc k + j ≡ suc (k + j) = omega arith in
    ap (λ n. minus_days n (plus_days (suc k) d)) e
    ∙ ap (minus_days (k + j)) (yesterday-plus_days k d h)
    ∙ minus_days-plus_less k j d h

rank-plus_days : (j : ℕ) (d : Date) → Fits d → rank d + j ≤ rank (plus_days j d)
unfolding plus_days
rank-plus_days zero d h = omega arith
rank-plus_days (suc j) d h =
    let step = rank-tomorrow d h in
    let rest = rank-plus_days j (tomorrow d) (tomorrow-Fits d h) in omega arith

minus_days-Fits : (j : ℕ) (d : Date) → Fits d → Fits (minus_days j d)
unfolding minus_days
minus_days-Fits zero d h = h
minus_days-Fits (suc j) d h = minus_days-Fits j (yesterday d) (yesterday-Fits d h)

year-yesterday : (d : Date) → d.year ≤ (yesterday d).year + 1
unfolding yesterday
year-yesterday d = ground arith

rank-minus_days : (j : ℕ) (d : Date) → Fits d → j < d.year → rank (minus_days j d) ≤ rank d
unfolding minus_days
rank-minus_days zero d h y = omega arith
rank-minus_days (suc j) d h y =
    let step = rank-yesterday d h (omega arith) in
    let rest =
      rank-minus_days j (yesterday d) (yesterday-Fits d h) (omega (arith, year-yesterday d)) in
    omega arith

ltb-lt : (a b : ℕ) → a < b → ltb a b ≡ true
ltb-lt a b h = ground arith

ltb-le : (a b : ℕ) → b ≤ a → ltb a b ≡ false
ltb-le a b h = ground arith

is_before-days :
    (k r : ℕ) (d : Date)
    → Fits d
    → r < d.year
    → is_before d (minus_days r (plus_days k d)) ≡ ltb r k
is_before-days k r d h y = elim (Bool-cases (ltb r k)) [
  | inl e ↦
      let j = k - r in
      let whole : r + j ≡ k = ground (arith, e) in
      let some_days : 1 ≤ j = ground (arith, e) in
      let there : minus_days r (plus_days k d) ≡ plus_days j d =
        ap (λ n. minus_days r (plus_days n d)) (sym whole) ∙ minus_days-plus_more r j d h in
      let later : rank d < rank (plus_days j d) = omega (arith, rank-plus_days j d h) in
      ap (is_before d) there
      ∙ is_before-rank d (plus_days j d) h (plus_days-Fits j d h)
      ∙ ltb-lt (rank d) (rank (plus_days j d)) later
      ∙ sym e
  | inr e ↦
      let j = r - k in
      let whole : k + j ≡ r = ground (arith, e) in
      let there : minus_days r (plus_days k d) ≡ minus_days j d =
        ap (λ n. minus_days n (plus_days k d)) (sym whole) ∙ minus_days-plus_less k j d h in
      ap (is_before d) there
      ∙ is_before-rank d (minus_days j d) h (minus_days-Fits j d h)
      ∙ ltb-le (rank d) (rank (minus_days j d)) (rank-minus_days j d h (omega arith))
      ∙ sym e
]

pub behind_prefix-partition_name :
    (parent : Text) (d : Date)
    → behind_prefix (parent ++ b'_' ∷ []) (partition_name parent d) ≡ some (date_text d)
unfolding partition_name
behind_prefix-partition_name parent d =
    ap (behind_prefix (parent ++ b'_' ∷ [])) (sym (append_assoc parent (b'_' ∷ []) (date_text d)))
    ∙ behind_prefix-append (parent ++ b'_' ∷ []) (date_text d)

is_dropped-named :
    (parent : Text) (cutoff d : Date)
    → Fits d
    → 1 ≤ d.year
    → d.year ≤ 9999
    → is_dropped parent cutoff (partition_name parent d) ≡ is_before d cutoff
unfolding is_dropped
is_dropped-named parent cutoff d h y z =
    rw (behind_prefix-partition_name parent d, is_dropped) (rw (parse_date-date_text d h y z) refl)

-- The partition of a day is dropped by the job of another day exactly if that is more than
-- `retention_days` days later, and every other partition is treated as if it stood alone. The date
-- has a year of at most four digits, and the retention does not lead back before the first year.
pub drop_old_partitions-days :
    (retention_days : ℕ) (parent : Text) (d : Date) (k : ℕ) (others : List Partition)
    → Fits d
    → retention_days < d.year
    → d.year ≤ 9999
    → drop_old_partitions retention_days parent (plus_days k d) (partition_of parent d ∷ others) ≡ (
        if ltb retention_days k
        then drop_old_partitions retention_days parent (plus_days k d) others
        else partition_of parent d
          ∷ drop_old_partitions retention_days parent (plus_days k d) others)
unfolding drop_old_partitions drop_each partition_of
drop_old_partitions-days retention_days parent d k others h y z =
    let cutoff = minus_days retention_days (plus_days k d) in
    let rest = drop_each parent cutoff others in
    ap (λ b. if b then rest else partition_of parent d ∷ rest)
      (is_dropped-named parent cutoff d h (omega arith) z ∙ is_before-days k retention_days d h y)
