-- ===== src/Bandwidth.antt =====
-- `flush_bandwidth` of src/services/bandwidth.py: the counters that were read and deleted in Redis
-- are added up for each entity and direction, and added to the rows of `metrics_rollup`. A counter
-- is its key with what GETDEL returned.
pub mod Totals
mod Tests
use proxysm.Base.{
  ℕ, ◌-◌, ◌%◌, Bool, true, false, ◌&&◌, ◌||◌, Option, none, some, List, [], ◌∷◌, ◌==◌,
  if◌then◌else◌,
}
use proxysm.Base.Int.{ℤ, pos, ◌+ℤ◌}
use proxysm.Text.{Text, codes, text_eq, split_on, parse_int}

-- `acc_key`: the type and the id of the entity
abbrev pub AccKey : Type 0
AccKey = Text × Text

abbrev pub acc_key_eq : AccKey → AccKey → Bool
acc_key_eq (a, b) (c, d) = text_eq a c && text_eq b d

-- {"sent": …, "recv": …}
pub record Bytes : Type 0 where
  pub sent : ℤ
  pub recv : ℤ

abbrev pub no_bytes : Bytes
no_bytes = record { sent = pos 0; recv = pos 0 }

abbrev pub valid_entity_type : Text → Bool
valid_entity_type t =
    text_eq t (codes "proxy")
    || text_eq t (codes "pool")
    || text_eq t (codes "project")
    || text_eq t (codes "provider")

-- What a counter adds: to which entity, whether to "sent", and how much; none if the loop skips it.
unfoldable pub read_parts : List Text → Text → Option (AccKey × Bool × ℤ)
read_parts (prefix ∷ entity_type ∷ entity_id ∷ direction ∷ []) value =
    if valid_entity_type entity_type
      && (text_eq direction (codes "sent") || text_eq direction (codes "recv"))
    then (elim (parse_int value) [
      | none ↦ none
      | some n ↦ some ((entity_type, entity_id), text_eq direction (codes "sent"), n)
    ])
    else none
read_parts _ value = none

unfoldable pub read_counter : Text → Option Text → Option (AccKey × Bool × ℤ)
unfolding read_parts
read_counter key none = none
read_counter key (some value) = read_parts (split_on b':' key) value

-- `[direction] += byte_count`
abbrev pub add_bytes : Bool → ℤ → Bytes → Bytes
add_bytes true n b = record { sent = b.sent +ℤ n; recv = b.recv }
add_bytes false n b = record { sent = b.sent; recv = b.recv +ℤ n }

-- One step of the loop, on the dict `accumulator`.
unfoldable pub add_counter : AccKey → Bool → ℤ → List (AccKey × Bytes) → List (AccKey × Bytes)
add_counter k is_sent n [] = (k, add_bytes is_sent n no_bytes) ∷ []
add_counter k is_sent n ((j, b) ∷ l) =
    let rest = add_counter k is_sent n l in
    if acc_key_eq j k then (j, add_bytes is_sent n b) ∷ l else (j, b) ∷ rest

unfoldable pub accumulate :
    List (Text × Option Text) → List (AccKey × Bytes) → List (AccKey × Bytes)
unfolding read_counter add_counter
accumulate [] acc = acc
accumulate ((key, value) ∷ rest) acc = elim (read_counter key value) [
  | none ↦ accumulate rest acc
  | some (k, is_sent, n) ↦ accumulate rest (add_counter k is_sent n acc)
]

-- The start of the period of five minutes, in milliseconds.
unfoldable pub period_start : ℕ → ℕ
period_start now = now - now % 300000

-- The columns of a row of `metrics_rollup` of granularity "5min" that the statement touches.
pub record Rollup : Type 0 where
  pub key : AccKey
  pub period : ℕ
  pub bytes : Bytes

-- The INSERT … ON CONFLICT DO UPDATE for one entity.
unfoldable pub upsert : AccKey → ℕ → Bytes → List Rollup → List Rollup
upsert k period b [] = record { key = k; period = period; bytes = b } ∷ []
upsert k period b (r ∷ rows) =
    let rest = upsert k period b rows in
    if acc_key_eq r.key k && r.period == period
    then record r {
      bytes = record { sent = r.bytes.sent +ℤ b.sent; recv = r.bytes.recv +ℤ b.recv };
    }
      ∷ rows
    else r ∷ rest

unfoldable pub upsert_each : ℕ → List (AccKey × Bytes) → List Rollup → List Rollup
unfolding upsert
upsert_each period [] rows = rows
upsert_each period ((k, b) ∷ l) rows = upsert_each period l (upsert k period b rows)

unfoldable pub flush_bandwidth : List (Text × Option Text) → ℕ → List Rollup → List Rollup
unfolding accumulate period_start upsert_each
flush_bandwidth counters now rows = upsert_each (period_start now) (accumulate counters []) rows
