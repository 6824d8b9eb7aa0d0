-- ===== src/Metrics/Cleanup.antt =====
-- What `cleanup_old_data` (src/services/metrics.py) leaves.
use proxysm.Base.{
  ℕ, ◌-◌, ◌*◌, ◌≡◌, refl, ap, ◌∙◌, Bool, true, false, not, ◌&&◌, ◌||◌, Option, none, List, [], ◌∷◌,
  ltb, if◌then◌else◌, Bool-cases, inl, inr,
}
use proxysm.Metrics.{
  LogRow, five_minutes, hour, granularity_eq, Slot, slot_eq, Figures, Table, where_rows, one_day,
  cleanup_old_data,
}
use proxysm.Metrics.Lookup.{find, slot_eq-eq}

module _ {N : Type 0} where
  -- A row whose slot passes the test is found as before.
  find-where_rows :
      (p : Slot → Bool) (slot : Slot) (table : Table N)
      → find slot (where_rows (λ (s, f). p s) table) ≡ (if p slot then find slot table else none)
  unfolding where_rows
  find-where_rows p slot [] = same (p slot)
    where
      same : (b : Bool) → ◌≡◌ {A = Option (Figures N)} none (if b then none else none)
      same true = refl
      same false = refl
  find-where_rows p slot ((s, f) ∷ table) = elim (Bool-cases (slot_eq s slot)) [
    | inl e ↦
        let moved : p s ≡ p slot = ap p (slot_eq-eq s slot e) in
        elim (Bool-cases (p slot)) [
          | inl g ↦ rw (moved ∙ g, where_rows, e, g) refl
          | inr g ↦ rw (moved ∙ g, where_rows, g) (find-where_rows p slot table ∙ rw g refl)
        ]
    | inr e ↦ elim (Bool-cases (p s)) [
      | inl g ↦ rw (g, where_rows, e) (find-where_rows p slot table)
      | inr g ↦ rw (g, where_rows, e) (find-where_rows p slot table)
    ]
  ]

  -- Behind the cleanup, a row of five minutes or of an hour is there exactly if it was and its period
  -- did not start longer ago than the setting of its granularity says; a row of a day is there as it
  -- was.
  pub find-cleanup_old_data :
      (now log_days five_minutes_days hour_days : ℕ) (logs : List LogRow) (table : Table N)
      (slot : Slot)
      → find slot (cleanup_old_data now log_days five_minutes_days hour_days logs table).1 ≡ (
          if granularity_eq slot.granularity five_minutes
              && ltb slot.period (now - five_minutes_days * one_day)
            || granularity_eq slot.granularity hour && ltb slot.period (now - hour_days * one_day)
          then none
          else find slot table)
  unfolding cleanup_old_data
  find-cleanup_old_data now log_days five_minutes_days hour_days logs table slot =
      let old_five = λ (s : Slot).
        granularity_eq s.granularity five_minutes
        && ltb s.period (now - five_minutes_days * one_day) in
      let old_hour = λ (s : Slot).
        granularity_eq s.granularity hour && ltb s.period (now - hour_days * one_day) in
      find-where_rows (λ s. not (old_hour s)) slot (where_rows (λ (s, f). not (old_five s)) table)
      ∙ ap (λ o. if not (old_hour slot) then o else none)
          (find-where_rows (λ s. not (old_five s)) slot table)
      ∙ merge (old_five slot) (old_hour slot) (find slot table)
    where
      merge :
          (a b : Bool) (o : Option (Figures N))
          → (if not b then if not a then o else none else none) ≡ (if a || b then none else o)
      merge true true o = refl
      merge true false o = refl
      merge false true o = refl
      merge false false o = refl
