-- ===== src/Metrics/Coarser.antt =====
-- What `_rollup_1hour` and `_rollup_1day` (src/services/metrics.py) make of the finer rows.
use proxysm.Base.{
  ℕ, ◌+◌, ◌-◌, ◌≡◌, refl, ap, ◌∙◌, Bool, ◌&&◌, ◌||◌, some, List, [], ◌∷◌, ◌++◌, map, ◌==◌,
  if◌then◌else◌, All,
}
use proxysm.Bandwidth.{AccKey, acc_key_eq}
use proxysm.Metrics.{
  Granularity, granularity_eq, Slot, slot_eq, Aggregates, Figures, Table, where_rows, has_key,
  distinct, trunc, rows_in, rows_of, merged, merged_for, period_groups, coarsen,
}
use proxysm.Metrics.Lookup.{find, hits, find-upsert_each, hits-append, All-append, has_key-distinct}
use proxysm.Metrics.FiveMinutes.{any, has_key-map, any-where_rows, and_or}

module _ (agg : Aggregates) (source target : Granularity) (width : ℕ) where
  open agg use {Number}

  -- The merged figures of the rows of an entity in the longer period of a slot.
  abbrev pub merged_spec : Table Number → Slot → Figures Number
  merged_spec table slot =
      merged agg (rows_of agg source slot.key slot.period (slot.period + width) table)

  -- The entity has a row in the longer period from `lo` on.
  abbrev pub is_there : AccKey → ℕ → Slot × Figures Number → Bool
  is_there k lo row = rows_in agg source lo (lo + width) row && acc_key_eq row.0.key k

  abbrev at_slot : ℕ → Slot → Bool
  at_slot lo slot = lo == slot.period && granularity_eq target slot.granularity

  merged_for-spec :
      (lo : ℕ) (table : Table Number) (keys : List AccKey)
      → All
          (λ (slot, f). f ≡ merged_spec table slot)
          (merged_for agg source target width lo table keys)
  unfolding merged_for
  merged_for-spec lo table [] = tt
  merged_for-spec lo table (k ∷ keys) = (refl, merged_for-spec lo table keys)

  hits-merged_for :
      (slot : Slot) (lo : ℕ) (table : Table Number) (keys : List AccKey)
      → hits slot (merged_for agg source target width lo table keys)
        ≡ (has_key slot.key keys && at_slot lo slot)
  unfolding merged_for slot_eq
  hits-merged_for slot lo table [] = refl
  hits-merged_for slot lo table (k ∷ keys) =
      ap (λ b. (acc_key_eq k slot.key && at_slot lo slot) || b) (hits-merged_for slot lo table keys)
      ∙ and_or (acc_key_eq k slot.key) (has_key slot.key keys) (at_slot lo slot)

  hits-period_groups :
      (slot : Slot) (lo : ℕ) (table : Table Number)
      → hits slot (period_groups agg source target width lo table)
        ≡ (any (is_there slot.key lo) table && at_slot lo slot)
  unfolding period_groups
  hits-period_groups slot lo table =
      let key = λ (row : Slot × Figures Number). row.0.key in
      let rows = where_rows (rows_in agg source lo (lo + width)) table in
      hits-merged_for slot lo table (distinct (map key rows))
      ∙ ap (λ b. b && at_slot lo slot)
          (has_key-distinct slot.key (map key rows)
            ∙ has_key-map slot.key key rows
            ∙ any-where_rows (rows_in agg source lo (lo + width))
                (λ row. acc_key_eq row.0.key slot.key) table)

  -- Behind the rollup at `now`, the row of an entity for the longer period before that of `now`, and
  -- for the current one, holds the sums over exactly the finer rows of this entity that start in the
  -- period, whatever the row held; where there is none, and at every other slot, the table is as it
  -- was.
  pub find-coarsen :
      (now : ℕ) (table : Table Number) (slot : Slot)
      → let current = trunc width now in
        let previous = current - width in
        find slot (coarsen agg source target width now table) ≡ (
          if any (is_there slot.key previous) table
              && (previous == slot.period && granularity_eq target slot.granularity)
            || any (is_there slot.key current) table
              && (current == slot.period && granularity_eq target slot.granularity)
          then some (merged_spec table slot)
          else find slot table)
  unfolding coarsen period_groups
  find-coarsen now table slot =
      let current = trunc width now in
      let previous = current - width in
      let before = period_groups agg source target width previous table in
      let latest = period_groups agg source target width current table in
      find-upsert_each (merged_spec table) slot (before ++ latest) table (
        All-append (merged_spec table) before latest (merged_for-spec previous table _)
          (merged_for-spec current table _))
      ∙ ap (λ b. if b then some (merged_spec table slot) else find slot table)
          (hits-append slot before latest
            ∙ rw (hits-period_groups slot previous table, hits-period_groups slot current table)
                refl)
