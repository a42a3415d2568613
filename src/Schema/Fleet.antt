-- ===== src/Schema/Fleet.antt =====
-- The rows of db/001_schema.sql that describe companies, devices and their configuration.
-- A time is a number of microseconds, the resolution of TIMESTAMPTZ. A column of text that a CHECK
-- restricts to a few words is an enumeration. `BIGSERIAL` ids that no code reads are left out.
use python_vs_go_pos_benchma.Prelude.{ℕ, Bool, true, false, Option, String, ◌==◌}

-- companies
pub record Company : Type 0 where
  pub id : ℕ
  pub name : String

-- panel_users
pub record PanelUser : Type 0 where
  pub id : ℕ
  pub company_id : ℕ
  pub token_hash : String
  pub active : Bool

-- stations
pub record Station : Type 0 where
  pub id : ℕ
  pub company_id : ℕ

-- devices.status
pub data DeviceStatus : Type 0 where
  active inactive blocked : DeviceStatus

abbrev pub device_is_active : DeviceStatus → Bool
device_is_active DeviceStatus.active = true
device_is_active _ = false

-- devices
pub record Device : Type 0 where
  pub id : ℕ
  pub station_id : ℕ
  pub external_key : String
  pub status : DeviceStatus

-- device_credentials
pub record Credential : Type 0 where
  pub id : ℕ
  pub device_id : ℕ
  pub credential_hash : String
  pub is_active : Bool

-- device_configurations; `is_published` is status = 'PUBLISHED'
pub record Configuration : Type 0 where
  pub id : ℕ
  pub device_id : ℕ
  pub version : ℕ
  pub is_published : Bool
  pub checksum : String
  pub snapshot : String

-- device_current_states
pub record DeviceState : Type 0 where
  pub device_id : ℕ
  pub last_seen_at : Option ℕ
  pub app_version : Option String
  pub state_payload : String
  pub acknowledged_version : Option ℕ
  pub updated_at : ℕ

-- device_heartbeats
pub record HeartbeatRow : Type 0 where
  pub device_id : ℕ
  pub occurred_at : ℕ
  pub received_at : ℕ
  pub sequence : Option ℕ
  pub payload : String

-- wash_bays
pub record WashBay : Type 0 where
  pub id : ℕ
  pub station_id : ℕ
  pub device_id : Option ℕ

-- maintenance_windows.status
pub data MaintenanceStatus : Type 0 where
  scheduled active completed cancelled : MaintenanceStatus

-- maintenance_windows
pub record MaintenanceWindow : Type 0 where
  pub id : ℕ
  pub device_id : Option ℕ
  pub starts_at : ℕ
  pub ends_at : ℕ
  pub status : MaintenanceStatus

-- The two alarm keys, `device:{id}:offline` and `device:{id}:execution-failures`.
pub data AlarmKey : Type 0 where
  offline : ℕ → AlarmKey
  execution_failures : ℕ → AlarmKey

abbrev pub key_eq : AlarmKey → AlarmKey → Bool
key_eq (AlarmKey.offline a) (AlarmKey.offline b) = a == b
key_eq (AlarmKey.execution_failures a) (AlarmKey.execution_failures b) = a == b
key_eq _ _ = false

-- alarms; `is_open` is status = 'OPEN', the other status is 'RESOLVED'
pub record Alarm : Type 0 where
  pub id : ℕ
  pub device_id : ℕ
  pub alarm_key : AlarmKey
  pub is_open : Bool
  pub opened_at : ℕ
  pub closed_at : Option ℕ
