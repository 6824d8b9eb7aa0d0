-- ===== src/Alerts/Rate.antt =====
-- When the rule "error_rate_above" fires (src/services/alerts.py).
use proxysm.Base.{
  ℕ, ◌+◌, ◌-◌, ◌<◌, ◌≡◌, ap, sym, ◌∙◌, Bool, true, not, ◌&&◌, some, List, [], ◌∷◌, arith, ◌==◌,
  Bool-cases, Option-cases, inl, inr,
}
use proxysm.Base.Int.{ℤ, pos}
use proxysm.Alerts.Conditions.{
  Config, Context, error_rate, fires, Db, number_or, in_window, is_success, count, exceeds,
  check_error_rate,
}

count-split :
    {A : Type 0}
    → (p q : A → Bool) (l : List A)
    → count (λ x. p x && q x) l + count (λ x. p x && not (q x)) l ≡ count p l
unfolding count
count-split p q [] = omega arith
count-split p q (x ∷ l) = ground (arith, count-split p q l)

-- The requests of a window, and those among them that did not succeed.
abbrev pub total_in : Db → ℤ → ℕ → ℕ
unfolding count
total_in db window now = count (λ r. in_window window now r.created_at) db.request_log

abbrev pub failed_in : Db → ℤ → ℕ → ℕ
unfolding count
failed_in db window now =
    count (λ r. in_window window now r.created_at && not (is_success r)) db.request_log

-- When the rule fires, its threshold and window are those of the rule or the defaults, there was a
-- request in the window, and what it reports are the requests that did not succeed and all of them,
-- whose share is above the threshold.
pub check_error_rate-fires :
    (db : Db) (cfg : Config) (now : ℕ) (context : Context)
    → check_error_rate db cfg now ≡ fires context
    → (threshold : ℤ) × (window : ℤ) × (number_or cfg.threshold (pos 0) ≡ some threshold)
      × (number_or cfg.window_seconds (pos 300) ≡ some window)
      × (0 < total_in db window now)
      × (exceeds (failed_in db window now) (total_in db window now) threshold ≡ true)
      × (context ≡ error_rate threshold window (failed_in db window now) (total_in db window now))
unfolding check_error_rate count
check_error_rate-fires db cfg now context h =
    elim (Option-cases (number_or cfg.threshold (pos 0))) [
      | inl e ↦ ground (arith, e)
      | inr (threshold, e) ↦ elim (Option-cases (number_or cfg.window_seconds (pos 300))) [
        | inl f ↦ ground (arith, e, f)
        | inr (window, f) ↦
            let total = total_in db window now in
            let ok =
              count (λ r. in_window window now r.created_at && is_success r) db.request_log in
            let failed : total - ok ≡ failed_in db window now = omega (
              arith,
              count-split (λ r. in_window window now r.created_at) is_success db.request_log,
            ) in
            elim (Bool-cases (total == 0)) [
              | inl g ↦ ground (arith, e, f, g)
              | inr g ↦ elim (Bool-cases (exceeds (total - ok) total threshold)) [
                | inr below ↦ ground (arith, e, f, g, below)
                | inl above ↦
                    let found : fires (error_rate threshold window (total - ok) total)
                        ≡ fires context =
                      rw (e, f, g, above, check_error_rate) at h in
                    let is : context ≡ error_rate threshold window (total - ok) total = cc in
                    (
                      threshold,
                      window,
                      e,
                      f,
                      ground (arith, g),
                      ap (λ n. exceeds n total threshold) (sym failed) ∙ above,
                      is ∙ ap (λ n. error_rate threshold window n total) failed,
                    )
              ]
            ]
      ]
    ]
