-- ===== src/Alerts/Tests.antt =====
-- Examples for the alert rules.
use proxysm.Base.{◌*◌, ◌≡◌, refl, true, Option, none, some, [], ◌∷◌}
use proxysm.Base.Int.{pos}
use proxysm.Text.{Text, codes}
use proxysm.Models.{dead, Proxy}
use proxysm.RequestLogger.{RequestLog}
use proxysm.Alerts.Conditions.{
  missing, no_pool, given, Config, error_rate, fires, Db, count, check_error_rate, check_all_dead,
}
use proxysm.Alerts.{
  AlertRule, Payload, Posted, http_error, evaluate_condition, triggered, after_round, goes_on,
}
use proxysm.Alerts.Cooldown.{fire_times, AreSpaced, fire_times-AreSpaced}

abbrev dead_proxy : Proxy
dead_proxy = record {
  id = 3;
  source_id = 1;
  provider = none;
  host = codes "10.0.0.3";
  port = pos 8080;
  protocol = codes "http";
  username = none;
  password_encrypted = none;
  is_active = true;
  last_health_check = none;
  last_health_status = some dead;
  avg_latency = none;
}

abbrev failed_request : RequestLog
failed_request = record {
  project_id = codes "1";
  pool_id = codes "7";
  proxy_id = codes "3";
  status_code = 0;
  response_time_ms = 120;
  bytes_sent = 0;
  bytes_received = 0;
  target_domain = codes "example.org";
  error_type = some (codes "proxy_error");
  created_at = 990000;
}

abbrev tables : Db
tables = record {
  request_log = failed_request ∷ [];
  pools = [];
  links = [];
  proxies = dead_proxy ∷ [];
  rollups = [];
}

-- Half of the requests of the last five minutes.
abbrev config : Config
config = record {
  threshold = given (pos 500000);
  window_seconds = missing;
  pool_id = no_pool;
  min_healthy = missing;
  limit_bytes = missing;
}

abbrev rule : AlertRule
rule = record {
  id = 1;
  name = codes "all dead";
  condition_type = codes "all_proxies_dead";
  condition_config = config;
  action_url = some (codes "https://example.org/hook");
  is_enabled = true;
  last_triggered_at = none;
}

fire_times-AreSpaced_example :
    AreSpaced
      (900 * 1000)
      none
      (fire_times 900 ((tables, 1000000) ∷ (tables, 1060000) ∷ (tables, 1900000) ∷ []) rule)
fire_times-AreSpaced_example =
    fire_times-AreSpaced 900 ((tables, 1000000) ∷ (tables, 1060000) ∷ (tables, 1900000) ∷ []) rule

-- The rule is silent in the second of these rounds.
twice :
    fire_times 900 ((tables, 1000000) ∷ (tables, 1060000) ∷ (tables, 1900000) ∷ []) rule
    ≡ 1000000 ∷ 1900000 ∷ []
unfolding count check_all_dead evaluate_condition triggered after_round
twice = refl

abbrev post : Text → Payload → Posted
post url payload = http_error

post-goes_on : (r : Option (Text × Payload)) → goes_on post 900 r ≡ true
post-goes_on none = refl
post-goes_on (some p) = refl

rate_fires : check_error_rate tables config 1000000 ≡ fires (error_rate (pos 500000) (pos 300) 1 1)
unfolding check_error_rate count
rate_fires = refl
