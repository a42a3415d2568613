-- ===== src/Heartbeat.antt =====
-- python/app/heartbeat.py: a device reports that it is alive.
pub mod Seen
use python_vs_go_pos_benchma.Prelude.{
  ℕ, List, Option, none, some, String, ◌==◌, is_none, find, insert, update, if◌then◌else◌,
}
use python_vs_go_pos_benchma.Schema.Fleet.{DeviceState}
use python_vs_go_pos_benchma.Session.{Action, execute, commit, ◌>>◌}

-- INSERT INTO device_current_states, with its defaults
abbrev fresh_state : ℕ → ℕ → DeviceState
fresh_state device_id now = record {
  device_id = device_id;
  last_seen_at = none;
  app_version = none;
  state_payload = "{}";
  acknowledged_version = none;
  updated_at = now;
}

abbrev pub states_with : ℕ → ℕ → List DeviceState → List DeviceState
states_with device_id now states =
    if is_none (find (λ s. s.device_id == device_id) states)
    then insert (fresh_state device_id now) states
    else states

abbrev pub seen : ℕ → Option String → String → DeviceState → DeviceState
seen now app_version payload s = record s {
  last_seen_at = some now;
  app_version = app_version;
  state_payload = payload;
  updated_at = now;
}

-- `payload` is the JSON text of the reported state, by json.dumps. The sequence, which is only stored,
-- is a natural number here and any int in the source.
unfoldable pub record_heartbeat : ℕ → Option ℕ → Option String → String → ℕ → Action (Unit {0})
record_heartbeat device_id sequence app_version payload now = do
  execute (λ db. record db {
    heartbeats =
        insert
          (record {
            device_id = device_id;
            occurred_at = now;
            received_at = now;
            sequence = sequence;
            payload = payload;
          })
          db.heartbeats;
  })
  execute (λ db. record db { device_states = states_with device_id now db.device_states })
  execute (λ db. record db {
    device_states =
        update (λ s. s.device_id == device_id) (seen now app_version payload) db.device_states;
  })
  commit
