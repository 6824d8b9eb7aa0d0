-- ===== src/Metrics/Tests.antt =====
-- Examples for the rollup of requests.
use proxysm.Base.{ℕ, ◌≡◌, refl, ◌&&◌, ◌||◌, none, some, List, [], ◌∷◌, ◌==◌, if◌then◌else◌, length}
use proxysm.Text.{codes}
use proxysm.Bandwidth.{no_bytes}
use proxysm.Metrics.{
  LogRow, five_minutes, hour, granularity_eq, Slot, slot_eq, Aggregates, Figures, Table, where_rows,
  count_where, one_hour, rollup_5min, coarsen, rollup_1hour, rollup_metrics,
}
use proxysm.Metrics.Lookup.{find}
use proxysm.Metrics.FiveMinutes.{any, owns, in_window, spec_figures, find-rollup_5min}
use proxysm.Metrics.Coarser.{merged_spec, is_there, find-coarsen}
use proxysm.Metrics.Balance.{IsValid, rollup_metrics-IsValid}
use proxysm.Metrics.Tally.{total, requests, shown}
use proxysm.Metrics.Hours.{ShowsEach, shown-rollup_1hour}

-- Aggregates that count.
abbrev counting : Aggregates
counting = record {
  Number = ℕ;
  average = λ l. length l;
  percentile_95 = λ l. length l;
  weighted = λ l. length l;
  greatest = λ l. length l;
}

abbrev asked : ℕ → LogRow
asked at = record {
  proxy_id = codes "a";
  pool_id = codes "b";
  project_id = codes "c";
  status_code = some 200;
  response_time_ms = some 12;
  bytes_sent = 5;
  bytes_received = 7;
  target_domain = none;
  error_type = none;
  created_at = at;
}

abbrev two_requests : List LogRow
two_requests = asked 3600010 ∷ asked 3900020 ∷ []

abbrev proxy_slot : ℕ → Slot
proxy_slot lo = record { key = (codes "proxy", codes "a"); period = lo; granularity = five_minutes }

abbrev one_request : Figures ℕ
one_request = record {
  total_requests = 1;
  successful_requests = 1;
  failed_requests = 0;
  bytes = no_bytes;
  avg_response_time_ms = 1;
  p95_response_time_ms = 1;
}

abbrev two_rows : Table ℕ
two_rows = (proxy_slot 3600000, one_request) ∷ (proxy_slot 3900000, one_request) ∷ []

two_rows-IsValid : IsValid two_rows
unfolding slot_eq
two_rows-IsValid = ((refl, (refl, tt)), ((refl, refl), ((refl, refl), tt)))

find-rollup_5min_example :
    find (proxy_slot 3600000) (rollup_5min counting 3900100 two_requests []) ≡ (
      if any (λ r. in_window 3600000 r && owns (codes "proxy", codes "a") r) two_requests
        && (3600000 == 3600000 && granularity_eq five_minutes five_minutes)
      then some (spec_figures counting two_requests (codes "proxy", codes "a") 3600000)
      else none)
find-rollup_5min_example = find-rollup_5min counting 3900100 two_requests [] (proxy_slot 3600000)

find-coarsen_example :
    let slot : Slot = record {
      key = (codes "proxy", codes "a");
      period = 3600000;
      granularity = hour;
    } in
    find slot (coarsen counting five_minutes hour one_hour 7200100 two_rows) ≡ (
      if any (is_there counting five_minutes hour one_hour slot.key 3600000) two_rows
          && (3600000 == 3600000 && granularity_eq hour hour)
        || any (is_there counting five_minutes hour one_hour slot.key 7200000) two_rows
          && (7200000 == 3600000 && granularity_eq hour hour)
      then some (merged_spec counting five_minutes hour one_hour two_rows slot)
      else none)
find-coarsen_example =
    find-coarsen counting five_minutes hour one_hour 7200100 two_rows
      (record { key = (codes "proxy", codes "a"); period = 3600000; granularity = hour })

rollup_metrics-IsValid_example :
    IsValid (rollup_metrics counting 3 7200100 7200100 7200200 7200300 two_requests two_rows)
rollup_metrics-IsValid_example =
    rollup_metrics-IsValid counting 3 7200100 7200100 7200200 7200300 two_requests two_rows
      two_rows-IsValid

shows_each : ShowsEach total (codes "proxy", codes "a") 3600000 two_requests two_rows 12
unfolding slot_eq count_where where_rows
shows_each = (
  (((((((((((tt, refl), refl), refl), refl), refl), refl), refl), refl), refl), refl), refl),
  refl,
)

shown-rollup_1hour_example :
    shown total (
      find
        (record { key = (codes "proxy", codes "a"); period = 3600000; granularity = hour })
        (rollup_1hour counting 7200100 two_rows))
    ≡ requests total (codes "proxy", codes "a") 3600000 7200000 two_requests
shown-rollup_1hour_example =
    shown-rollup_1hour counting total (codes "proxy", codes "a") 7200100 two_requests two_rows
      two_rows-IsValid shows_each refl
