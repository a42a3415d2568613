-- ===== src/Worker/Sweep.antt =====
-- `sweep_target_runtime` of python/app/worker.py. The sweep runs in one transaction and raises
-- nothing, so its steps are functions on the tables.
pub mod Alarms
pub mod Windows
pub mod Verdict
pub mod Outcome
pub mod Failures
pub mod Refines
use python_vs_go_pos_benchma.Prelude.{
  ℕ, ◌+◌, Bool, true, false, not, ◌&&◌, ◌||◌, Option, none, some, List, [], ◌∷◌, ltb, leb, ◌==◌,
  is_some, find, select, count, update, insert, length, sort_by, if◌then◌else◌,
}
use python_vs_go_pos_benchma.Schema.{Db, seconds}
use python_vs_go_pos_benchma.Schema.Fleet.{
  Device, device_is_active, DeviceState, MaintenanceWindow, MaintenanceStatus, Alarm, AlarmKey,
  key_eq,
}
use python_vs_go_pos_benchma.Schema.Ops.{Execution, has_failed}
use python_vs_go_pos_benchma.Errors.{ok}
use python_vs_go_pos_benchma.Session.{Action, pure, read, execute, commit, ◌>>=◌, ◌>>◌}

abbrev is_scheduled : MaintenanceStatus → Bool
is_scheduled MaintenanceStatus.scheduled = true
is_scheduled _ = false

abbrev is_active : MaintenanceStatus → Bool
is_active MaintenanceStatus.active = true
is_active _ = false

-- status='SCHEDULED' AND starts_at <= :now AND ends_at > :now
abbrev pub starts_now : ℕ → MaintenanceWindow → Bool
starts_now now w = is_scheduled w.status && leb w.starts_at now && ltb now w.ends_at

-- status IN ('SCHEDULED','ACTIVE') AND ends_at <= :now
abbrev pub is_over : ℕ → MaintenanceWindow → Bool
is_over now w = (is_scheduled w.status || is_active w.status) && leb w.ends_at now

abbrev pub activate : MaintenanceWindow → MaintenanceWindow
activate w = record w { status = MaintenanceStatus.active }

abbrev pub complete : MaintenanceWindow → MaintenanceWindow
complete w = record w { status = MaintenanceStatus.completed }

-- The two updates of the windows, one after the other.
unfoldable pub sweep_windows : ℕ → List MaintenanceWindow → List MaintenanceWindow
sweep_windows now windows = update (is_over now) complete (update (starts_now now) activate windows)

-- A window of some device that is active at this instant; `active_maintenance_ids` has the devices.
abbrev pub covers : ℕ → ℕ → MaintenanceWindow → Bool
covers now device_id w =
    is_active w.status
    && leb w.starts_at now
    && ltb now w.ends_at
    && (elim w.device_id [ none ↦ false | some d ↦ d == device_id ])

abbrev pub in_maintenance : ℕ → List MaintenanceWindow → ℕ → Bool
in_maintenance now windows device_id = is_some (find (covers now device_id) windows)

-- WHERE device_id=:device_id AND alarm_key=:alarm_key AND status='OPEN'
abbrev pub is_open_alarm : ℕ → AlarmKey → Alarm → Bool
is_open_alarm device_id key a = a.device_id == device_id && key_eq a.alarm_key key && a.is_open

-- `last_seen is not None and last_seen < now - n seconds`, without a subtraction
abbrev pub unseen_for : ℕ → ℕ → Option ℕ → Bool
unseen_for n now none = false
unseen_for n now (some last_seen) = ltb (last_seen + seconds n) now

-- LEFT JOIN device_current_states
abbrev pub last_seen_of : List DeviceState → ℕ → Option ℕ
last_seen_of states device_id = elim (find (λ s. s.device_id == device_id) states) [
  | none ↦ none
  | some s ↦ s.last_seen_at
]

-- The alarms, the next alarm id, and how many the sweep has opened and resolved so far.
pub record Progress : Type 0 where
  pub alarms : List Alarm
  pub next_id : ℕ
  pub opened : ℕ
  pub resolved : ℕ

-- INSERT INTO alarms … 'OPEN'
abbrev pub new_alarm : ℕ → ℕ → AlarmKey → ℕ → Alarm
new_alarm id device_id key now = record {
  id = id;
  device_id = device_id;
  alarm_key = key;
  is_open = true;
  opened_at = now;
  closed_at = none;
}

abbrev pub open_new : ℕ → AlarmKey → ℕ → Progress → Progress
open_new device_id key now s = record s {
  alarms = insert (new_alarm s.next_id device_id key now) s.alarms;
  next_id = s.next_id + 1;
  opened = s.opened + 1;
}

-- UPDATE alarms SET status='RESOLVED', closed_at=… WHERE id=:id AND status='OPEN'
abbrev pub closed : ℕ → Alarm → Alarm
closed now a = record a { is_open = false; closed_at = some now }

abbrev pub is_open_with : ℕ → Alarm → Bool
is_open_with id a = a.id == id && a.is_open

abbrev pub resolve_alarm : ℕ → ℕ → Progress → Progress
resolve_alarm id now s = record s {
  alarms = update (is_open_with id) (closed now) s.alarms;
  resolved = s.resolved + 1;
}

-- The end of the loop's body: `existing` is the open offline alarm of the device, if there is one.
abbrev pub judge : ℕ → ℕ → Option ℕ → Bool → Option Alarm → Progress → Progress
judge now device_id last_seen maintained existing s =
    if unseen_for 300 now last_seen && not maintained
    then (elim existing [
      | none ↦ open_new device_id (AlarmKey.offline device_id) now s
      | some a ↦ s
    ])
    else if not (unseen_for 120 now last_seen)
    then (elim existing [ none ↦ s | some a ↦ resolve_alarm a.id now s ])
    else s

module _ (now : ℕ) (states : List DeviceState) (windows : List MaintenanceWindow) where
  -- The loop's body for one device.
  unfoldable pub check_device : ℕ → Progress → Progress
  check_device device_id s =
      judge now device_id (last_seen_of states device_id) (in_maintenance now windows device_id)
        (find (is_open_alarm device_id (AlarmKey.offline device_id)) s.alarms) s

  -- for row in device_rows
  unfoldable pub check_devices : List Device → Progress → Progress
  check_devices [] s = s
  check_devices (d ∷ ds) s = check_devices ds (check_device d.id s)

-- `_open_alarm`: a new alarm unless one with this key is open.
unfoldable pub open_alarm : ℕ → AlarmKey → ℕ → Progress → Progress
open_alarm device_id key now s =
    if is_some (find (is_open_alarm device_id key) s.alarms)
    then s
    else open_new device_id key now s

-- created_at >= now - 10 min AND status IN ('FAILED','TIMEOUT')
abbrev pub is_recent_failure : ℕ → Execution → Bool
is_recent_failure now e = leb now (e.created_at + seconds 600) && has_failed e.status

abbrev pub adds_id : ℕ → List ℕ → List ℕ
adds_id i ids = if is_some (find (λ j. j == i) ids) then ids else i ∷ ids

-- The devices of some executions, each once.
abbrev pub device_ids : List Execution → List ℕ
device_ids [] = []
device_ids (e ∷ es) = adds_id e.device_id (device_ids es)

-- GROUP BY device_id HAVING count(*) >= 3
unfoldable pub failing_devices : ℕ → List Execution → List ℕ
failing_devices now executions =
    let failures = select (is_recent_failure now) executions in
    select (λ d. leb 3 (count (λ e. e.device_id == d) failures)) (device_ids failures)

-- for row in failure_rows
unfoldable pub open_failures : ℕ → List ℕ → Progress → Progress
unfolding open_alarm
open_failures now [] s = s
open_failures now (d ∷ ds) s =
    open_failures now ds (open_alarm d (AlarmKey.execution_failures d) now s)

-- WHERE d.status='ACTIVE' ORDER BY d.id
abbrev pub active_devices : Db → List Device
active_devices db =
    sort_by (λ a b. leb a.id b.id) (select (λ d. device_is_active d.status) db.devices)

pub record SweepResult : Type 0 where
  pub alarms_opened : ℕ
  pub alarms_resolved : ℕ
  pub maintenance_activated : ℕ
  pub maintenance_completed : ℕ
  pub devices_evaluated : ℕ

-- The alarms after the sweep, given the windows after it.
unfoldable pub sweep_alarms : ℕ → Db → List MaintenanceWindow → Progress
unfolding check_device check_devices open_failures failing_devices
sweep_alarms now db windows =
    let start : Progress = record {
      alarms = db.alarms;
      next_id = db.sequences.alarm;
      opened = 0;
      resolved = 0;
    } in
    open_failures now (failing_devices now db.executions)
      (check_devices now db.device_states windows (active_devices db) start)

unfoldable pub sweep : ℕ → Db → SweepResult × Db
unfolding sweep_windows sweep_alarms
sweep now db =
    let windows = sweep_windows now db.maintenance in
    let done = sweep_alarms now db windows in
    (
      record {
        alarms_opened = done.opened;
        alarms_resolved = done.resolved;
        maintenance_activated = count (starts_now now) db.maintenance;
        maintenance_completed =
            count (is_over now) (update (starts_now now) activate db.maintenance);
        devices_evaluated = length (active_devices db);
      },
      record db {
        maintenance = windows;
        alarms = done.alarms;
        sequences = record db.sequences { alarm = done.next_id };
      },
    )

unfoldable pub sweep_target_runtime : ℕ → Action SweepResult
unfolding sweep
sweep_target_runtime now = do
  done ← read (λ db. ok (sweep now db).0)
  execute (λ db. (sweep now db).1)
  commit
  pure done
