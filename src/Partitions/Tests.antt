-- ===== src/Partitions/Tests.antt =====
-- Examples for the partitions.
use proxysm.Base.{◌≡◌, refl, List, [], ◌∷◌, arith, ltb, if◌then◌else◌}
use proxysm.Text.{codes}
use proxysm.Partitions.{
  Date, ymd, tomorrow, plus_days, partition_name, days_in_month, parse_date, date_text, padded,
  Partition, partition_of, drop_old_partitions,
}
use proxysm.Partitions.Dates.{Fits}
use proxysm.Partitions.Names.{parse_date-date_text}
use proxysm.Partitions.Days.{drop_old_partitions-days}
use proxysm.Base.{some}

abbrev leap_day : Date
leap_day = ymd 2028 2 29

leap_day-Fits : Fits leap_day
unfolding days_in_month
leap_day-Fits = omega arith

named_leap_day : partition_name (codes "request_log") leap_day ≡ codes "request_log_2028_02_29"
unfolding partition_name date_text padded
named_leap_day = refl

after_leap_day : tomorrow leap_day ≡ ymd 2028 3 1
unfolding tomorrow days_in_month
after_leap_day = refl

parse_date-date_text_example : parse_date (date_text leap_day) ≡ some leap_day
parse_date-date_text_example =
    parse_date-date_text leap_day leap_day-Fits (omega arith) (omega arith)

drop_old_partitions-days_example :
    drop_old_partitions 7
      (codes "request_log")
      (plus_days 8 leap_day)
      (partition_of (codes "request_log") leap_day ∷ [])
    ≡ (if ltb 7 8
        then drop_old_partitions 7 (codes "request_log") (plus_days 8 leap_day) []
        else partition_of (codes "request_log") leap_day
          ∷ drop_old_partitions 7 (codes "request_log") (plus_days 8 leap_day) [])
drop_old_partitions-days_example =
    drop_old_partitions-days 7 (codes "request_log") leap_day 8 [] leap_day-Fits (omega arith)
      (omega arith)

abbrev one_partition : List Partition
one_partition =
    record { name = codes "request_log_default"; range_start = ymd 1 1 1; range_end = ymd 1 1 1 }
    ∷ []
