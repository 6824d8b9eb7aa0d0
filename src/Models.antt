-- ===== src/Models.antt =====
-- The rows that the program reads and writes (src/models) and the
-- settings (src/config.py). A UUID is a number, a time is a number of milliseconds, and a latency,
-- which the code rounds to one digit, is a number of tenths of a millisecond.
use proxysm.Base.{ℕ, String, Bool, Option}
use proxysm.Base.Int.{ℤ}
use proxysm.Text.{Text}

-- `last_health_status`: the four words that the table admits, and any other text.
pub data Status : Type 0 where
  unknown healthy degraded dead : Status
  other : String → Status

pub record Proxy : Type 0 where
  pub id : ℕ
  pub source_id : ℕ
  pub provider : Option Text
  pub host : Text
  pub port : ℤ
  pub protocol : Text
  pub username : Option Text
  pub password_encrypted : Option Text
  pub is_active : Bool
  pub last_health_check : Option ℕ
  pub last_health_status : Option Status
  pub avg_latency : Option ℕ

pub record Settings : Type 0 where
  pub health_check_interval : ℕ
  pub health_failures_to_dead : ℕ
  pub health_failures_to_degraded : ℕ
  pub health_recoveries_to_healthy : ℕ

-- The defaults of `Settings`.
abbrev pub settings : Settings
settings = record {
  health_check_interval = 60;
  health_failures_to_dead = 3;
  health_failures_to_degraded = 2;
  health_recoveries_to_healthy = 3;
}

pub record ProxySource : Type 0 where
  pub id : ℕ
  pub type : Text
  pub url : Option Text
  pub provider : Option Text
  pub protocol : Text
  pub is_active : Bool
  pub last_polled_at : Option ℕ
  pub last_status_code : Option ℕ
  pub consecutive_failures : ℕ

pub record Pool : Type 0 where
  pub id : ℕ
  pub name : Text
  pub rotation_strategy : Text

-- A proxy in a pool.
pub record PoolProxy : Type 0 where
  pub pool_id : ℕ
  pub proxy_id : ℕ
  pub weight : ℕ

pub record Project : Type 0 where
  pub id : ℕ
  pub name : Text
  pub slug : Text
  pub api_key_hash : Text
  pub api_key_plain : Option Text

-- A pool of a project.
pub record ProjectPool : Type 0 where
  pub project_id : ℕ
  pub pool_id : ℕ
  pub priority : ℤ
