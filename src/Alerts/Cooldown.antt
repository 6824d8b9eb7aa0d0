-- ===== src/Alerts/Cooldown.antt =====
-- Rounds of the alert evaluator (src/services/alerts.py): how often a rule fires, and that a rule
-- does not hold up another.
use proxysm.Base.{
  ℕ, ◌+◌, ◌*◌, ◌≤◌, ◌≡◌, refl, ap, subst, true, false, not, ◌||◌, Option, none, some, List, [], ◌∷◌,
  ◌++◌, arith, map, ltb, Bool-cases, Option-cases, inl, inr,
}
use proxysm.Text.{Text}
use proxysm.Alerts.Conditions.{Context, Db}
use proxysm.Alerts.{
  AlertRule, in_cooldown, triggered, after_round, Payload, Posted, goes_on, posted, webhook_of,
  evaluate_alerts,
}

-- The times at which a rule fires over the rounds, each with its tables and its time.
abbrev pub fire_times : ℕ → List (Db × ℕ) → AlertRule → List ℕ
unfolding triggered after_round
fire_times cooldown [] rule = []
fire_times cooldown ((db, now) ∷ rounds) rule =
    let rest = fire_times cooldown rounds (after_round cooldown db now rule) in
    elim (triggered cooldown db now rule) [ none ↦ rest | some context ↦ now ∷ rest ]

-- `u` is at least `gap` behind `last`.
abbrev pub IsPast : ℕ → Option ℕ → ℕ → Type 0
IsPast gap none u = Unit
IsPast gap (some t) u = t + gap ≤ u

-- Each time is at least `gap` behind the one before, the first behind `last`.
abbrev pub AreSpaced : ℕ → Option ℕ → List ℕ → Type 0
AreSpaced gap last [] = Unit
AreSpaced gap last (u ∷ l) = IsPast gap last u × AreSpaced gap (some u) l

triggered-past :
    (cooldown : ℕ) (db : Db) (now : ℕ) (rule : AlertRule) (context : Context)
    → triggered cooldown db now rule ≡ some context
    → in_cooldown cooldown rule now ≡ false
unfolding triggered
triggered-past cooldown db now rule context h =
    elim (Bool-cases (not rule.is_enabled || in_cooldown cooldown rule now)) [
      | inl e ↦ ground (arith, e)
      | inr e ↦ ground (arith, e)
    ]

IsPast-gap :
    (cooldown now : ℕ) (rule : AlertRule)
    → in_cooldown cooldown rule now ≡ false
    → IsPast (cooldown * 1000) rule.last_triggered_at now
IsPast-gap cooldown now rule h = elim (Option-cases rule.last_triggered_at) [
  | inl e ↦ rw (e, IsPast) tt
  | inr (t, e) ↦
      let late : ltb now (t + cooldown * 1000) ≡ false = rw e at h in
      rw (e, IsPast) (ground (arith, late))
]

-- Whatever the tables hold and whenever the rounds are, a rule does not fire before its cooldown has
-- passed since it fired last, within these rounds or before.
pub fire_times-AreSpaced :
    (cooldown : ℕ) (rounds : List (Db × ℕ)) (rule : AlertRule)
    → AreSpaced (cooldown * 1000) rule.last_triggered_at (fire_times cooldown rounds rule)
unfolding triggered after_round
fire_times-AreSpaced cooldown [] rule = tt
fire_times-AreSpaced cooldown ((db, now) ∷ rounds) rule =
    let row = after_round cooldown db now rule in
    let keeps = λ (r : AlertRule).
      AreSpaced (cooldown * 1000) r.last_triggered_at (fire_times cooldown rounds row) in
    let ih : keeps row = fire_times-AreSpaced cooldown rounds row in
    elim (Option-cases (triggered cooldown db now rule)) [
      | inl e ↦
          let same : row ≡ rule = rw (e, after_round) refl in
          rw (e, fire_times) (subst keeps same ih)
      | inr (context, e) ↦
          let stamped : row ≡ record rule { last_triggered_at = some now } =
            rw (e, after_round) refl in
          rw (e, fire_times)
            (
              IsPast-gap cooldown now rule (triggered-past cooldown db now rule context e),
              subst keeps stamped ih,
            )
    ]

module _ (post : Text → Payload → Posted) (cooldown : ℕ) where
  -- What the rounds post if they are taken rule by rule.
  abbrev pub posts_each : Db → ℕ → List AlertRule → List (Text × Payload)
  unfolding triggered
  posts_each db now [] = []
  posts_each db now (rule ∷ rules) =
      posted post cooldown (webhook_of post cooldown db now rule) ++ posts_each db now rules

  -- If no post raises anything but an `HTTPError`, each rule is treated as if it were alone, also
  -- when the evaluation or the delivery for another one fails.
  pub evaluate_alerts-each :
      (db : Db) (now : ℕ) (rules : List AlertRule)
      → ((r : Option (Text × Payload)) → goes_on post cooldown r ≡ true)
      → evaluate_alerts post cooldown db now rules
        ≡ (map (after_round cooldown db now) rules, posts_each db now rules)
  unfolding evaluate_alerts triggered after_round
  evaluate_alerts-each db now [] h = refl
  evaluate_alerts-each db now (rule ∷ rules) h = rw (h (webhook_of post cooldown db now rule)) (
      ap
        (λ r. (
          after_round cooldown db now rule ∷ r.0,
          posted post cooldown (webhook_of post cooldown db now rule) ++ r.1,
        ))
        (evaluate_alerts-each db now rules h))
