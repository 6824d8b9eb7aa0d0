-- ===== src/Alerts.antt =====
-- The alert rules (src/services/alerts.py): which of them fire in a round, and the webhooks that are
-- sent. A time is a number of milliseconds, a threshold a number of millionths; the code computes
-- the rate as a float, which is exact here.
pub mod Conditions
pub mod Cooldown
pub mod Dead
pub mod Rate
mod Tests
use proxysm.Base.{
  ℕ, ◌+◌, ◌*◌, Bool, true, false, not, ◌&&◌, ◌||◌, Option, none, some, List, [], ◌∷◌, ◌++◌, ltb,
  leb, if◌then◌else◌,
}
use proxysm.Text.{Text, codes, text_eq, is_empty}
use proxysm.Alerts.Conditions.{
  Config, Context, Checked, raised, quiet, fires, Db, check_error_rate, check_pool_health,
  check_bandwidth, check_all_dead,
}

-- A row of `alert_rules`, with the `url` of its `action_config`.
pub record AlertRule : Type 0 where
  pub id : ℕ
  pub name : Text
  pub condition_type : Text
  pub condition_config : Config
  pub action_url : Option Text
  pub is_enabled : Bool
  pub last_triggered_at : Option ℕ

-- The settings `alert_check_interval` and `alert_cooldown_seconds` are arguments.
abbrev pub in_cooldown : ℕ → AlertRule → ℕ → Bool
in_cooldown cooldown rule now = elim rule.last_triggered_at [
  | none ↦ false
  | some t ↦ ltb now (t + cooldown * 1000)
]

unfoldable pub evaluate_condition : Db → ℕ → AlertRule → Checked
unfolding check_error_rate check_pool_health check_bandwidth check_all_dead
evaluate_condition db now rule =
    let cfg = rule.condition_config in
    if text_eq rule.condition_type (codes "error_rate_above")
    then check_error_rate db cfg now
    else if text_eq rule.condition_type (codes "pool_below_min_healthy")
    then check_pool_health db cfg
    else if text_eq rule.condition_type (codes "bandwidth_exceeded")
    then check_bandwidth db cfg now
    else if text_eq rule.condition_type (codes "all_proxies_dead")
    then check_all_dead db
    else quiet

-- The JSON that is posted.
pub record Payload : Type 0 where
  pub alert_name : Text
  pub condition_type : Text
  pub context : Context
  pub triggered_at : ℕ

-- What the HTTP client does with a post; any status of a response is a delivery.
pub data Posted : Type 0 where
  sent http_error other_error : Posted

-- The webhook of a rule that fires; none if the rule has no URL.
abbrev pub webhook : AlertRule → Context → ℕ → Option (Text × Payload)
webhook rule context now = elim rule.action_url [
  | none ↦ none
  | some url ↦
      if is_empty url
      then none
      else some (
        url,
        record {
          alert_name = rule.name;
          condition_type = rule.condition_type;
          context = context;
          triggered_at = now;
        },
      )
]

-- What the round does with a rule: nothing, or the context with which it fires.
unfoldable pub triggered : ℕ → Db → ℕ → AlertRule → Option Context
unfolding evaluate_condition
triggered cooldown db now rule =
    if not rule.is_enabled || in_cooldown cooldown rule now
    then none
    else (elim (evaluate_condition db now rule) [
      | raised ↦ none
      | quiet ↦ none
      | fires context ↦ some context
    ])

-- The row after it.
unfoldable pub after_round : ℕ → Db → ℕ → AlertRule → AlertRule
unfolding triggered
after_round cooldown db now rule = elim (triggered cooldown db now rule) [
  | none ↦ rule
  | some context ↦ record rule { last_triggered_at = some now }
]

module _ (post : Text → Payload → Posted) (cooldown : ℕ) where
  -- Whether the loop goes on: an exception that is no `HTTPError` ends it.
  abbrev pub goes_on : Option (Text × Payload) → Bool
  goes_on none = true
  goes_on (some (url, payload)) = elim (post url payload) [ other_error ↦ false | _ ↦ true ]

  abbrev pub posted : Option (Text × Payload) → List (Text × Payload)
  posted none = []
  posted (some p) = p ∷ []

  abbrev pub webhook_of : Db → ℕ → AlertRule → Option (Text × Payload)
  webhook_of db now rule = elim (triggered cooldown db now rule) [
    | none ↦ none
    | some context ↦ webhook rule context now
  ]

  -- The round: the rows after it, each committed before its webhook, and what is posted.
  unfoldable pub evaluate_alerts : Db → ℕ → List AlertRule → List AlertRule × List (Text × Payload)
  unfolding after_round triggered
  evaluate_alerts db now [] = ([], [])
  evaluate_alerts db now (rule ∷ rules) =
      let (rules', posts) = evaluate_alerts db now rules in
      let request = webhook_of db now rule in
      let rule' = after_round cooldown db now rule in
      if goes_on request
      then (rule' ∷ rules', posted request ++ posts)
      else (rule' ∷ rules, posted request)
