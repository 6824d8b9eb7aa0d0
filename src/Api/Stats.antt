-- ===== src/Api/Stats.antt =====
-- src/api/stats.py: what its queries share. A window of `hours`, which FastAPI admits from 1 to 168,
-- is an argument, as is `uuid`, the text of an id. Rows that ORDER BY leaves equal, where the
-- database is free, stay in the order of their groups.
pub mod Requests
pub mod Load
pub mod Buckets
pub mod Classes
pub mod Miscounted
pub mod Rollups
pub mod Entities
pub mod Overview
pub mod Thrice
mod Tests
use proxysm.Base.{
  ℕ, zero, suc, ◌+◌, ◌-◌, ◌*◌, Bool, true, false, ◌&&◌, Option, none, some, List, [], ◌∷◌, ltb, leb,
  if◌then◌else◌,
}
use proxysm.Text.{Text, text_eq}
use proxysm.Metrics.{LogRow, one_hour}

-- Arithmetic on floats, and the aggregates of the database on response times and on columns of
-- floats; NULL, for no value, is none.
pub record Numbers (N : Type 0) : Type 0 where
  pub is_zero : N → Bool
  pub zero : N
  pub round_0 : N → N
  pub round_1 : N → N
  pub round_2 : N → N
  -- a / b * 100
  pub percent : ℕ → ℕ → N
  -- a / b
  pub ratio : ℕ → ℕ → N
  pub median : List ℕ → Option N
  pub percentile_95 : List ℕ → Option N
  -- AVG of the positive numbers
  pub mean_positive : List ℕ → Option N
  pub mean : List N → Option N
  pub maximum : List N → Option N

module _ {N : Type 0} where
  -- round(x) if x is not None else None
  abbrev pub rounded : (N → N) → Option N → Option N
  rounded round none = none
  rounded round (some x) = some (round x)

  -- round(x) if x else None
  abbrev pub rounded_nonzero : Numbers N → (N → N) → Option N → Option N
  rounded_nonzero num round none = none
  rounded_nonzero num round (some x) = if num.is_zero x then none else some (round x)

  -- round(a / b * 100, 1) if b > 0 else 0
  abbrev pub success_rate : Numbers N → ℕ → ℕ → N
  success_rate num a b = if ltb 0 b then num.round_1 (num.percent a b) else num.zero

-- datetime.now(timezone.utc) - timedelta(hours=hours)
abbrev pub cutoff : ℕ → ℕ → ℕ
cutoff now hours = now - hours * one_hour

-- The filter on the project, if one is given.
abbrev pub of_project : Option Text → LogRow → Bool
of_project none r = true
of_project (some project) r = text_eq r.project_id project

-- rl.created_at >= :cutoff, and the filter on the project
abbrev pub in_scope : ℕ → Option Text → LogRow → Bool
in_scope start project r = leb start r.created_at && of_project project r

-- A status of at least `lo`, and below `hi`; NULL passes neither.
abbrev pub from_to : ℕ → ℕ → Option ℕ → Bool
from_to lo hi none = false
from_to lo hi (some c) = leb lo c && ltb c hi

abbrev pub from_on : ℕ → Option ℕ → Bool
from_on lo none = false
from_on lo (some c) = leb lo c

abbrev pub is_null {ℓ} : {A : Type ℓ} → Option A → Bool
is_null none = true
is_null (some a) = false

module _ {A : Type 0} where
  -- The values that are not NULL.
  abbrev pub values_of : (A → Option ℕ) → List A → List ℕ
  values_of f [] = []
  values_of f (x ∷ l) = let rest = values_of f l in elim (f x) [ none ↦ rest | some n ↦ n ∷ rest ]

  unfoldable pub insert_desc : (A → ℕ) → A → List A → List A
  insert_desc f x [] = x ∷ []
  insert_desc f x (y ∷ l) =
      let rest = insert_desc f x l in if ltb (f x) (f y) then y ∷ rest else x ∷ y ∷ l

  -- ORDER BY … DESC
  unfoldable pub order_desc : (A → ℕ) → List A → List A
  unfolding insert_desc
  order_desc f [] = []
  order_desc f (x ∷ l) = insert_desc f x (order_desc f l)

  unfoldable pub insert_asc : (A → ℕ) → A → List A → List A
  insert_asc f x [] = x ∷ []
  insert_asc f x (y ∷ l) =
      let rest = insert_asc f x l in if ltb (f y) (f x) then y ∷ rest else x ∷ y ∷ l

  -- ORDER BY
  unfoldable pub order_asc : (A → ℕ) → List A → List A
  unfolding insert_asc
  order_asc f [] = []
  order_asc f (x ∷ l) = insert_asc f x (order_asc f l)

  -- LIMIT
  unfoldable pub limit_to : ℕ → List A → List A
  limit_to zero l = []
  limit_to (suc n) [] = []
  limit_to (suc n) (x ∷ l) = x ∷ limit_to n l
