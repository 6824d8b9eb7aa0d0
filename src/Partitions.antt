-- ===== src/Partitions.antt =====
-- src/services/partitions.py: the daily partitions of `request_log` and `health_check_log`, how they
-- are named, created and dropped. A date is that of `datetime.date`.
pub mod Dates
pub mod Names
pub mod Days
pub mod Asked
pub mod Created
mod Tests
use proxysm.Base.{
  ℕ, zero, suc, ◌+◌, ◌-◌, ◌*◌, ◌/◌, ◌%◌, Bool, true, false, not, ◌&&◌, ◌||◌, Option, none, some,
  List, [], ◌∷◌, ◌++◌, ltb, leb, ◌==◌, if◌then◌else◌,
}
use proxysm.Text.{Text, codes, text_eq, behind_prefix, split_on, is_digit}

pub record Date : Type 0 where
  pub year : ℕ
  -- from 1 to 12
  pub month : ℕ
  -- from 1 on
  pub day : ℕ

abbrev pub ymd : (year month day : ℕ) → Date
ymd year month day = record { year = year; month = month; day = day }

-- `_is_leap` and `_days_in_month` of datetime
abbrev pub is_leap : ℕ → Bool
is_leap y = y % 4 == 0 && (not (y % 100 == 0) || y % 400 == 0)

abbrev pub has_30 : ℕ → Bool
has_30 m = m == 4 || (m == 6 || (m == 9 || m == 11))

unfoldable pub days_in_month : ℕ → ℕ → ℕ
days_in_month y m =
    if m == 2 && is_leap y then 29 else if m == 2 then 28 else if has_30 m then 30 else 31

-- date + timedelta(days=1)
unfoldable pub tomorrow : Date → Date
unfolding days_in_month
tomorrow d =
    if ltb d.day (days_in_month d.year d.month)
    then ymd d.year d.month (d.day + 1)
    else if ltb d.month 12
    then ymd d.year (d.month + 1) 1
    else ymd (d.year + 1) 1 1

-- date - timedelta(days=1)
unfoldable pub yesterday : Date → Date
unfolding days_in_month
yesterday d =
    if ltb 1 d.day
    then ymd d.year d.month (d.day - 1)
    else if ltb 1 d.month
    then ymd d.year (d.month - 1) (days_in_month d.year (d.month - 1))
    else ymd (d.year - 1) 12 31

-- date + timedelta(days=n), date - timedelta(days=n)
unfoldable pub plus_days : ℕ → Date → Date
unfolding tomorrow
plus_days zero d = d
plus_days (suc n) d = plus_days n (tomorrow d)

unfoldable pub minus_days : ℕ → Date → Date
unfolding yesterday
minus_days zero d = d
minus_days (suc n) d = minus_days n (yesterday d)

-- The order of dates.
unfoldable pub is_before : Date → Date → Bool
is_before a b =
    ltb a.year b.year
    || (a.year == b.year && (ltb a.month b.month || (a.month == b.month && ltb a.day b.day)))

-- A number in a field of `width` digits, with leading zeros.
unfoldable pub padded : ℕ → ℕ → Text
padded zero n = []
padded (suc width) n = padded width (n / 10) ++ (n % 10 + b'0') ∷ []

-- `strftime('%Y_%m_%d')`, which Python documents with a year of four digits; a C library that does
-- not pad a year below 1000 differs there
unfoldable pub date_text : Date → Text
unfolding padded
date_text d = padded 4 d.year ++ b'_' ∷ (padded 2 d.month ++ b'_' ∷ padded 2 d.day)

-- f"{parent}_{…}"
unfoldable pub partition_name : Text → Date → Text
unfolding date_text
partition_name parent d = parent ++ b'_' ∷ date_text d

-- The number of a text of ASCII digits; none if there is another character.
unfoldable pub number_from : ℕ → Text → Option ℕ
unfolding is_digit
number_from n [] = some n
number_from n (c ∷ cs) =
    let rest = number_from (n * 10 + (c - 48)) cs in if is_digit c then rest else none

-- Fields of `strptime`: `%Y` takes four digits, `%m` and `%d` take one or two; a day may have a blank
-- in place of its first digit.
unfoldable pub read_year : Text → Option ℕ
unfolding number_from
read_year (a ∷ b ∷ c ∷ d ∷ []) = number_from 0 (a ∷ b ∷ c ∷ d ∷ [])
read_year _ = none

unfoldable pub read_field : Text → Option ℕ
unfolding number_from
read_field (a ∷ []) = number_from 0 (a ∷ [])
read_field (a ∷ b ∷ []) = number_from 0 (a ∷ b ∷ [])
read_field _ = none

unfoldable pub read_day : Text → Option ℕ
unfolding read_field
read_day (a ∷ b ∷ []) = if a == 32 then read_field (b ∷ []) else read_field (a ∷ b ∷ [])
read_day s = read_field s

-- A date that there is.
abbrev pub is_date : Date → Bool
is_date d =
    leb 1 d.year
    && (leb 1 d.month
        && (leb d.month 12 && (leb 1 d.day && leb d.day (days_in_month d.year d.month))))

unfoldable pub checked_date : Option ℕ → Option ℕ → Option ℕ → Option Date
unfolding days_in_month
checked_date (some y) (some m) (some d) = if is_date (ymd y m d) then some (ymd y m d) else none
checked_date _ _ _ = none

unfoldable pub date_of_parts : List Text → Option Date
unfolding read_year read_field read_day checked_date
date_of_parts (y ∷ m ∷ d ∷ []) = checked_date (read_year y) (read_field m) (read_day d)
date_of_parts _ = none

-- `strptime(…, "%Y_%m_%d").date()`; none is a `ValueError`.
unfoldable pub parse_date : Text → Option Date
unfolding date_of_parts
parse_date s = date_of_parts (split_on b'_' s)

-- A partition: its name and the dates from and to which it reaches.
pub record Partition : Type 0 where
  pub name : Text
  pub range_start : Date
  pub range_end : Date

unfoldable pub partition_of : Text → Date → Partition
unfolding partition_name tomorrow
partition_of parent d = record {
  name = partition_name parent d;
  range_start = d;
  range_end = tomorrow d;
}

-- The partitions of the next `n` days.
unfoldable pub wanted : ℕ → Text → Date → List Partition
unfolding partition_of
wanted zero parent d = []
wanted (suc n) parent d = partition_of parent d ∷ wanted n parent (tomorrow d)

abbrev pub partitioned_tables : List Text
partitioned_tables = codes "request_log" ∷ codes "health_check_log" ∷ []

abbrev pub lookahead_days : ℕ
lookahead_days = 7

abbrev pub is_named : Text → List Partition → Bool
is_named name [] = false
is_named name (p ∷ l) = text_eq p.name name || is_named name l

-- CREATE TABLE IF NOT EXISTS
unfoldable pub create : Partition → List Partition → List Partition
create p existing = if is_named p.name existing then existing else existing ++ p ∷ []

-- The statements of one transaction; none if the database refuses one of them, after which it
-- ignores the rest of the transaction.
unfoldable pub create_each :
    (Partition → Bool) → List Partition → List Partition → Option (List Partition)
unfolding create
create_each refuses [] existing = some existing
create_each refuses (p ∷ ps) existing =
    let rest = create_each refuses ps (create p existing) in
    if not (is_named p.name existing) && refuses p then none else rest

-- The statements for these tables.
unfoldable pub wanted_each : List Text → Date → List Partition
unfolding wanted
wanted_each [] today = []
wanted_each (parent ∷ parents) today =
    wanted lookahead_days parent today ++ wanted_each parents today

-- `ensure_partitions`, on the partitions of both tables. The exception is caught, but the commit of
-- such a transaction is a rollback.
unfoldable pub ensure_partitions : (Partition → Bool) → Date → List Partition → List Partition
unfolding create_each wanted_each
ensure_partitions refuses today existing =
    elim (create_each refuses (wanted_each partitioned_tables today) existing) [
      | none ↦ existing
      | some partitions ↦ partitions
    ]

-- Whether the loop of `drop_old_partitions` drops the partition with this name.
unfoldable pub is_dropped : Text → Date → Text → Bool
unfolding parse_date is_before
is_dropped parent cutoff name = elim (behind_prefix (parent ++ b'_' ∷ []) name) [
  | none ↦ false
  | some date_part ↦ elim (parse_date date_part) [ none ↦ false | some d ↦ is_before d cutoff ]
]

unfoldable pub drop_each : Text → Date → List Partition → List Partition
unfolding is_dropped
drop_each parent cutoff [] = []
drop_each parent cutoff (p ∷ l) =
    let rest = drop_each parent cutoff l in
    if is_dropped parent cutoff p.name then rest else p ∷ rest

-- `drop_old_partitions` for one table.
unfoldable pub drop_old_partitions : ℕ → Text → Date → List Partition → List Partition
unfolding drop_each minus_days
drop_old_partitions retention_days parent today = drop_each parent (minus_days retention_days today)
