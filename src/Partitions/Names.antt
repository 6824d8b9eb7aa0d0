-- ===== src/Partitions/Names.antt =====
-- The date in the name of a partition (src/services/partitions.py), written and read.
use proxysm.Base.{
  ℕ, ◌+◌, ◌/◌, ◌%◌, ◌≤◌, ◌≡◌, refl, ap, ◌∙◌, true, false, some, [], ◌∷◌, ◌++◌, arith, ◌==◌,
}
use proxysm.Text.{has, split_on, is_digit}
use proxysm.Text.Laws.{split_on-append, split_on_free}
use proxysm.Partitions.{
  Date, padded, date_text, number_from, read_year, read_field, read_day, is_date, checked_date,
  date_of_parts, parse_date,
}
use proxysm.Partitions.Dates.{Fits, days_in_month_bounds}

has-padded_4 : (n : ℕ) → has b'_' (padded 4 n) ≡ false
unfolding padded
has-padded_4 n = ground arith

has-padded_2 : (n : ℕ) → has b'_' (padded 2 n) ≡ false
unfolding padded
has-padded_2 n = ground arith

digit_is : (n : ℕ) → is_digit (n % 10 + b'0') ≡ true
unfolding is_digit
digit_is n = ground arith

read_year-padded : (n : ℕ) → n ≤ 9999 → read_year (padded 4 n) ≡ some n
unfolding read_year padded number_from
read_year-padded n h =
    let a = digit_is (n / 10 / 10 / 10) in
    let b = digit_is (n / 10 / 10) in
    let c = digit_is (n / 10) in let d = digit_is n in rw (a, b, c, d) (ap some (omega arith))

read_field-padded : (n : ℕ) → n ≤ 99 → read_field (padded 2 n) ≡ some n
unfolding read_field padded number_from is_digit
read_field-padded n h = ground arith

read_day-padded : (n : ℕ) → n ≤ 99 → read_day (padded 2 n) ≡ some n
unfolding read_day padded
read_day-padded n h =
    let digit : (n / 10 % 10 + b'0' == 32) ≡ false = ground arith in
    rw digit (read_field-padded n h)

split-date_text :
    (d : Date)
    → split_on b'_' (date_text d) ≡ padded 4 d.year ∷ padded 2 d.month ∷ padded 2 d.day ∷ []
unfolding date_text
split-date_text d =
    split_on-append b'_' (padded 4 d.year) (padded 2 d.month ++ b'_' ∷ padded 2 d.day)
      (has-padded_4 d.year)
    ∙ ap (λ l. padded 4 d.year ∷ l)
        (split_on-append b'_' (padded 2 d.month) (padded 2 d.day) (has-padded_2 d.month)
          ∙ ap (λ l. padded 2 d.month ∷ l)
              (split_on_free b'_' (padded 2 d.day) (has-padded_2 d.day)))

is_date-Fits : (d : Date) → Fits d → 1 ≤ d.year → is_date d ≡ true
is_date-Fits d h y = ground arith

-- The date that the name of a partition is made with is the one that is read from it. It has a year
-- of at most four digits.
pub parse_date-date_text :
    (d : Date) → Fits d → 1 ≤ d.year → d.year ≤ 9999 → parse_date (date_text d) ≡ some d
unfolding parse_date date_of_parts checked_date
parse_date-date_text d h y z =
    let bound = days_in_month_bounds d.year d.month in
    ap date_of_parts (split-date_text d)
    ∙ rw
        (
          read_year-padded d.year z,
          read_field-padded d.month (omega arith),
          read_day-padded d.day (omega (arith, bound)),
          is_date-Fits d h y,
        )
        refl
