-- ===== src/Api/Stats/Classes.antt =====
-- The classes into which src/api/stats.py counts requests by status and by error.
use proxysm.Base.{
  ℕ, ◌+◌, ◌≡◌, refl, ap, Bool, false, not, ◌&&◌, ◌||◌, Option, none, some, List, [], ◌∷◌, arith,
  ltb, length, All, Bool-cases, Option-cases, inl, inr,
}
use proxysm.Text.{Text, codes, text_eq, option_eq}
use proxysm.Text.Laws.{text_eq-eq}
use proxysm.Models.{Project}
use proxysm.Groups.{group_rows}
use proxysm.Metrics.{LogRow, where_rows, count_where}
use proxysm.Api.Stats.{cutoff, in_scope, from_to, from_on, is_null}
use proxysm.Api.Stats.Requests.{
  StatusCodes, project_with, status_in, status_500, succeeded, status_codes_of, status_codes_each,
  get_status_codes, get_error_breakdown,
}
use proxysm.Api.Stats.Buckets.{
  one_if, count_cons, count_nil, where_rows-All, order_desc-All, group_rows-All,
}

abbrev is_informational : Option ℕ → Bool
is_informational none = false
is_informational (some c) = ltb c 200

status_once :
    (o : Option ℕ)
    → one_if (from_to 200 300 o)
        + one_if (from_to 300 400 o)
        + one_if (from_to 400 500 o)
        + one_if (from_on 500 o || is_null o)
        + one_if (is_informational o)
      ≡ 1
status_once none = refl
status_once (some c) = ground arith

-- The requests of a group with a status below 200, among them those that are logged with 0.
abbrev pub below_200 : LogRow → Bool
below_200 r = is_informational r.status_code

pub status_codes_of-adds :
    (id : Text) (project : Project) (rows : List LogRow)
    → let row = status_codes_of id project rows in
      row.status_2xx + row.status_3xx + row.status_4xx + row.status_5xx + count_where below_200 rows
      ≡ row.total
unfolding status_codes_of
status_codes_of-adds id project [] = omega (
  arith,
  count_nil (status_in 200 300),
  count_nil (status_in 300 400),
  count_nil (status_in 400 500),
  count_nil status_500,
  count_nil below_200,
)
status_codes_of-adds id project (r ∷ rows) = omega (
  arith,
  status_once r.status_code,
  count_cons (status_in 200 300) r rows,
  count_cons (status_in 300 400) r rows,
  count_cons (status_in 400 500) r rows,
  count_cons status_500 r rows,
  count_cons below_200 r rows,
  status_codes_of-adds id project rows,
)

-- A status that is not below 200, or none.
abbrev pub IsAnswered : LogRow → Type 0
IsAnswered r = below_200 r ≡ false

abbrev pub AddsUp : StatusCodes → Type 0
AddsUp row = row.status_2xx + row.status_3xx + row.status_4xx + row.status_5xx ≡ row.total

count-IsAnswered : (rows : List LogRow) → All IsAnswered rows → count_where below_200 rows ≡ 0
unfolding count_where
count-IsAnswered [] h = refl
count-IsAnswered (r ∷ rows) (here, h) = rw here (count-IsAnswered rows h)

status_codes_each-AddsUp :
    (uuid : ℕ → Text) (projects : List Project) (groups : List (Text × List LogRow))
    → All (λ (k, l). All IsAnswered l) groups
    → All AddsUp (status_codes_each uuid projects groups)
unfolding status_codes_each
status_codes_each-AddsUp uuid projects [] h = tt
status_codes_each-AddsUp uuid projects ((id, rows) ∷ groups) (here, h) =
    elim (Option-cases (project_with uuid id projects)) [
      | inl e ↦ rw (e, status_codes_each) (status_codes_each-AddsUp uuid projects groups h)
      | inr (project, e) ↦
          rw (e, status_codes_each)
            (
              omega (arith, status_codes_of-adds id project rows, count-IsAnswered rows here),
              status_codes_each-AddsUp uuid projects groups h,
            )
    ]

-- If no request is logged with a status below 200, the four classes of each project add up to its
-- total: every request is in exactly one.
pub get_status_codes-AddsUp :
    (uuid : ℕ → Text) (now : ℕ) (project : Option Text) (hours : ℕ) (logs : List LogRow)
    (projects : List Project)
    → All IsAnswered logs
    → All AddsUp (get_status_codes uuid now project hours logs projects)
unfolding get_status_codes
get_status_codes-AddsUp uuid now project hours logs projects h =
    let rows = where_rows (in_scope (cutoff now hours) project) logs in
    let groups = group_rows text_eq (λ (r : LogRow). r.project_id) rows in
    order_desc-All AddsUp (λ row. row.total) (status_codes_each uuid projects groups)
      (status_codes_each-AddsUp uuid projects groups (
        group_rows-All text_eq (λ (r : LogRow). r.project_id) IsAnswered rows
          (where_rows-All IsAnswered (in_scope (cutoff now hours) project) logs h)))

-- No error, and no status or one below 200.
abbrev pub unclassified : LogRow → Bool
unclassified r = is_null r.error_type && (is_null r.status_code || below_200 r)

one_of_three :
    (a b d : Bool)
    → (a && b) ≡ false
    → one_if a + one_if b + 0 + 0 + one_if (not (a || b)) + one_if (d && false) + 0 ≡ 1
one_of_three a b d h = ground arith

not_both : (e : Text) → (text_eq e (codes "proxy_error") && text_eq e (codes "timeout")) ≡ false
not_both e = elim (Bool-cases (text_eq e (codes "proxy_error"))) [
  | inr f ↦ rw f refl
  | inl f ↦
      let g : text_eq e (codes "timeout") ≡ false =
        ap (λ x. text_eq x (codes "timeout")) (text_eq-eq e (codes "proxy_error") f) in
      rw (f, g) refl
]

error_once :
    (e : Option Text) (o : Option ℕ)
    → one_if (option_eq e (some (codes "proxy_error")))
        + one_if (option_eq e (some (codes "timeout")))
        + one_if (is_null e && from_to 400 500 o)
        + one_if (is_null e && from_on 500 o)
        + one_if (
            not (is_null e)
            && not
                (option_eq e (some (codes "proxy_error")) || option_eq e (some (codes "timeout"))))
        + one_if (from_to 200 400 o && is_null e)
        + one_if (is_null e && (is_null o || is_informational o))
      ≡ 1
error_once none none = refl
error_once none (some c) = ground arith
error_once (some e) o =
    one_of_three (text_eq e (codes "proxy_error")) (text_eq e (codes "timeout")) (from_to 200 400 o)
      (not_both e)

-- The classes of the breakdown.
abbrev proxy_error : LogRow → Bool
proxy_error r = option_eq r.error_type (some (codes "proxy_error"))

abbrev timed_out : LogRow → Bool
timed_out r = option_eq r.error_type (some (codes "timeout"))

abbrev client_error : LogRow → Bool
client_error r = is_null r.error_type && status_in 400 500 r

abbrev server_error : LogRow → Bool
server_error r = is_null r.error_type && from_on 500 r.status_code

abbrev other_error : LogRow → Bool
other_error r =
    not (is_null r.error_type)
    && not (
        option_eq r.error_type (some (codes "proxy_error"))
        || option_eq r.error_type (some (codes "timeout")))

abbrev clean : LogRow → Bool
clean r = succeeded r && is_null r.error_type

classes_add :
    (rows : List LogRow)
    → count_where proxy_error rows
        + count_where timed_out rows
        + count_where client_error rows
        + count_where server_error rows
        + count_where other_error rows
        + count_where clean rows
        + count_where unclassified rows
      ≡ length rows
classes_add [] = omega (
  arith,
  count_nil proxy_error,
  count_nil timed_out,
  count_nil client_error,
  count_nil server_error,
  count_nil other_error,
  count_nil clean,
  count_nil unclassified,
)
classes_add (r ∷ rows) = omega (
  arith,
  error_once r.error_type r.status_code,
  count_cons proxy_error r rows,
  count_cons timed_out r rows,
  count_cons client_error r rows,
  count_cons server_error r rows,
  count_cons other_error r rows,
  count_cons clean r rows,
  count_cons unclassified r rows,
  classes_add rows,
)

-- The error breakdown counts each request once: its six classes, and the requests without an error
-- whose status is missing or below 200, add up to the total, which is the number of requests that it
-- looks at.
pub get_error_breakdown-adds :
    (now : ℕ) (project : Option Text) (hours : ℕ) (logs : List LogRow)
    → let b = get_error_breakdown now project hours logs in
      let rows = where_rows (in_scope (cutoff now hours) project) logs in
      (b.proxy_errors
          + b.timeouts
          + b.client_4xx
          + b.server_5xx
          + b.other_errors
          + b.successful
          + count_where unclassified rows
        ≡ b.total)
      × (b.total ≡ length rows)
unfolding get_error_breakdown
get_error_breakdown-adds now project hours logs =
    (classes_add (where_rows (in_scope (cutoff now hours) project) logs), refl)
