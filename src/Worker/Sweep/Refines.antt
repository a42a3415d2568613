-- ===== src/Worker/Sweep/Refines.antt =====
-- A sweep against its specification: which alarms are open after it.
use python_vs_go_pos_benchma.Prelude.{
  ℕ, ◌≡◌, refl, ◌∙◌, inl, inr, arith, Bool, false, Bool-cases, ◌&&◌, ◌||◌, List, [], ◌∷◌, ◌==◌, ltb,
  leb, count, count_ext, count_never, count-select_both, count-sort_by, select, if◌then◌else◌,
}
use python_vs_go_pos_benchma.Schema.{Db}
use python_vs_go_pos_benchma.Schema.Fleet.{Device, device_is_active, MaintenanceWindow, AlarmKey}
use python_vs_go_pos_benchma.Session.{serve}
use python_vs_go_pos_benchma.Worker.Sweep.{
  Progress, starts_now, is_over, is_recent_failure, check_devices, failing_devices, sweep_windows,
  activate, complete, active_devices, last_seen_of, in_maintenance, sweep_alarms,
  sweep_target_runtime,
}
use python_vs_go_pos_benchma.Worker.Sweep.Alarms.{Consistent, AlarmsSound, open_count}
use python_vs_go_pos_benchma.Worker.Sweep.Verdict.{is_open, verdict, same}
use python_vs_go_pos_benchma.Worker.Sweep.Alarms.{sweep_target_runtime-AlarmsSound}
use python_vs_go_pos_benchma.Worker.Sweep.Outcome.{
  verdict_again, check_devices-verdict, check_devices-failures,
}
use python_vs_go_pos_benchma.Worker.Sweep.Failures.{open_failures-failing, failing_devices-lists}

-- The specification: the offline alarm of a device is open afterwards if it is ACTIVE and the verdict
-- is so, and as before if it is not ACTIVE, …
abbrev pub offline_after : ℕ → Db → ℕ → Bool
offline_after now db i =
    let was = is_open db.alarms i (AlarmKey.offline i) in
    if ltb 0 (count (λ d. d.id == i && device_is_active d.status) db.devices)
    then verdict now (last_seen_of db.device_states i)
        (in_maintenance now (sweep_windows now db.maintenance) i) was
    else was

-- … and its alarm of failing executions if it was open or three have failed in 10 minutes.
abbrev pub failures_after : ℕ → Db → ℕ → Bool
failures_after now db i =
    is_open db.alarms i (AlarmKey.execution_failures i)
    || leb 3 (count (λ e. e.device_id == i && is_recent_failure now e) db.executions)

active_devices-counts :
    (i : ℕ) (db : Db)
    → count (λ d. d.id == i) (active_devices db)
      ≡ count (λ d. d.id == i && device_is_active d.status) db.devices
active_devices-counts i db =
    count-sort_by (λ (d : Device). d.id == i) (λ a b. leb a.id b.id)
      (select (λ d. device_is_active d.status) db.devices)
    ∙ count-select_both (λ (d : Device). d.id == i) (λ d. device_is_active d.status) db.devices

or_false : (b : Bool) → (b || false) ≡ b
or_false b = ground arith

-- The alarms that are open after a sweep, under either key of any device, are those of the
-- specification, if ids of alarms are unique and below the next one and no device has two open ones
-- under a key: the order of the devices, and what the loops did before, make no difference.
pub sweep_target_runtime-refines :
    (now : ℕ) (db : Db) (i : ℕ)
    → AlarmsSound db
    → let after = (serve (sweep_target_runtime now) db).1 in
      (is_open after.alarms i (AlarmKey.offline i) ≡ offline_after now db i)
      × (is_open after.alarms i (AlarmKey.execution_failures i) ≡ failures_after now db i)
unfolding sweep_target_runtime sweep_alarms
sweep_target_runtime-refines now db i h =
    let windows = sweep_windows now db.maintenance in
    let start : Progress = record {
      alarms = db.alarms;
      next_id = db.sequences.alarm;
      opened = 0;
      resolved = 0;
    } in
    let before = open_count db.alarms in
    let consistent : Consistent before start = record {
      ids_below = h.ids_below;
      ids = h.ids;
      once = h.once;
      balance = refl;
    } in
    let s = check_devices now db.device_states windows (active_devices db) start in
    let ids = failing_devices now db.executions in
    let offline =
      check_devices-verdict now db.device_states windows before (active_devices db) start i
        consistent in
    let failures =
      check_devices-failures now db.device_states windows before (active_devices db) start i
        consistent in
    let no_failure : count (λ j. same j (AlarmKey.execution_failures j) i (AlarmKey.offline i)) ids
        ≡ 0 =
      count_never _ ids (λ j. ground arith) in
    let its_failure : count
          (λ j. same j (AlarmKey.execution_failures j) i (AlarmKey.execution_failures i)) ids
        ≡ count (λ j. j == i) ids =
      count_ext _ _ ids (λ j. ground arith) in
    (
      open_failures-failing now ids s i (AlarmKey.offline i)
          ∙ rw (no_failure, offline, active_devices-counts i db)
              (or_false (offline_after now db i)),
      open_failures-failing now ids s i (AlarmKey.execution_failures i)
          ∙ rw (its_failure, failures, failing_devices-lists now i db.executions) refl,
    )

-- A window after the two updates: neither would change it again.
abbrev Unmoved : ℕ → MaintenanceWindow → Type 0
Unmoved now w = (starts_now now w ≡ false) × (is_over now w ≡ false)

Unmoved-complete :
    (now : ℕ) (v : MaintenanceWindow)
    → starts_now now v ≡ false
    → Unmoved now (if is_over now v then complete v else v)
Unmoved-complete now v h = elim (Bool-cases (is_over now v)) [
  | inl over ↦ rw over (refl, refl)
  | inr lasts ↦ rw lasts (h, lasts)
]

sweep_windows-again :
    (now : ℕ) (windows : List MaintenanceWindow)
    → sweep_windows now (sweep_windows now windows) ≡ sweep_windows now windows
unfolding sweep_windows
sweep_windows-again now [] = refl
sweep_windows-again now (w ∷ ws) =
    let v = if starts_now now w then activate w else w in
    let (waits, lasts) =
      Unmoved-complete now v
        (elim (Bool-cases (starts_now now w)) [ inl e ↦ rw e | inr e ↦ rw e e ]) in
    rw (waits, lasts, sweep_windows-again now ws)

-- What a sweep leaves of the tables that the specification reads.
record Swept (now : ℕ) (db db' : Db) : Type 0 where
  devices : db'.devices ≡ db.devices
  device_states : db'.device_states ≡ db.device_states
  executions : db'.executions ≡ db.executions
  maintenance : db'.maintenance ≡ sweep_windows now db.maintenance

sweep_target_runtime-Swept :
    (now : ℕ) (db : Db) → Swept now db (serve (sweep_target_runtime now) db).1
unfolding sweep_target_runtime
sweep_target_runtime-Swept now db = record {
  devices = refl;
  device_states = refl;
  executions = refl;
  maintenance = refl;
}

offline_after-again :
    (now : ℕ) (db db' : Db) (i : ℕ)
    → Swept now db db'
    → is_open db'.alarms i (AlarmKey.offline i) ≡ offline_after now db i
    → offline_after now db' i ≡ is_open db'.alarms i (AlarmKey.offline i)
offline_after-again now db db' i same e =
    let listed = ltb 0 (count (λ d. d.id == i && device_is_active d.status) db.devices) in
    let maintained = in_maintenance now (sweep_windows now db.maintenance) i in
    rw
      (
        same.devices,
        same.device_states,
        same.maintenance,
        sweep_windows-again now db.maintenance,
        e,
      )
      (elim (Bool-cases listed) [
        | inl known ↦ rw known (
            verdict_again now (last_seen_of db.device_states i) maintained
              (is_open db.alarms i (AlarmKey.offline i)))
        | inr unknown ↦ rw unknown
      ])

failures_after-again :
    (now : ℕ) (db db' : Db) (i : ℕ)
    → Swept now db db'
    → is_open db'.alarms i (AlarmKey.execution_failures i) ≡ failures_after now db i
    → failures_after now db' i ≡ is_open db'.alarms i (AlarmKey.execution_failures i)
failures_after-again now db db' i same e =
    rw (same.executions, e)
      (either (is_open db.alarms i (AlarmKey.execution_failures i))
        (leb 3 (count (λ e. e.device_id == i && is_recent_failure now e) db.executions)))
  where
    either : (a b : Bool) → ((a || b) || b) ≡ (a || b)
    either a b = ground arith

-- A second sweep at the same instant leaves the same alarms open, under either key of any device, if ids
-- of alarms are unique and below the next one and no device has two open ones under a key.
pub sweep_target_runtime-again :
    (now : ℕ) (db : Db) (i : ℕ)
    → AlarmsSound db
    → let once = (serve (sweep_target_runtime now) db).1 in
      let twice = (serve (sweep_target_runtime now) once).1 in
      (is_open twice.alarms i (AlarmKey.offline i) ≡ is_open once.alarms i (AlarmKey.offline i))
      × (is_open twice.alarms i (AlarmKey.execution_failures i)
          ≡ is_open once.alarms i (AlarmKey.execution_failures i))
sweep_target_runtime-again now db i h =
    let once = (serve (sweep_target_runtime now) db).1 in
    let (_, _, sound, _) = sweep_target_runtime-AlarmsSound now db h in
    let first = sweep_target_runtime-refines now db i h in
    let second = sweep_target_runtime-refines now once i sound in
    let swept = sweep_target_runtime-Swept now db in
    (
      second.0 ∙ offline_after-again now db once i swept first.0,
      second.1 ∙ failures_after-again now db once i swept first.1,
    )
