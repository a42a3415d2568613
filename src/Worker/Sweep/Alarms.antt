-- ===== src/Worker/Sweep/Alarms.antt =====
-- The alarms that a sweep leaves: no two open ones under a key, and every one accounted for.
use python_vs_go_pos_benchma.Prelude.{
  ℕ, ◌+◌, ◌≡◌, ◌≤◌, ◌<◌, refl, ap, inl, inr, arith, Bool, true, false, not, Bool-cases,
  Option-cases, ◌&&◌, List, [], ◌∷◌, ◌==◌, ==_iff, ==_refl, Option, none, some, find, count,
  count-insert, count_zero_of_find, update, All, All-insert, All-map, All-update, IsKey,
  IsKey-update, sum_of, sum-update_one, find_holds, if◌then◌else◌,
}
use python_vs_go_pos_benchma.Schema.{Db}
use python_vs_go_pos_benchma.Schema.Fleet.{
  Device, DeviceState, MaintenanceWindow, Alarm, AlarmKey, key_eq,
}
use python_vs_go_pos_benchma.Errors.{ok}
use python_vs_go_pos_benchma.Session.{serve}
use python_vs_go_pos_benchma.Worker.Sweep.{
  Progress, is_open_alarm, open_new, new_alarm, closed, is_open_with, resolve_alarm, judge,
  check_device, check_devices, open_alarm, open_failures, unseen_for, failing_devices,
  sweep_windows, active_devices, last_seen_of, in_maintenance, sweep_alarms, sweep,
  sweep_target_runtime, SweepResult,
}

-- How many alarms are open.
abbrev pub open_count : List Alarm → ℕ
open_count alarms = count (λ (a : Alarm). a.is_open) alarms

-- Ids are unique and below the next one; a device has one open alarm at most under a key; and every
-- alarm opened or resolved since there were `before` open ones is counted.
pub record Consistent (before : ℕ) (s : Progress) : Type 0 where
  pub ids_below : All (λ (a : Alarm). a.id < s.next_id) s.alarms
  pub ids : IsKey (λ (a : Alarm). a.id) s.alarms
  pub once : (d : ℕ) (k : AlarmKey) → count (is_open_alarm d k) s.alarms ≤ 1
  pub balance : open_count s.alarms + s.resolved ≡ before + s.opened

-- Equal keys.
pub same_key : (j k : AlarmKey) → key_eq j k ≡ true → j ≡ k
same_key (AlarmKey.offline a) (AlarmKey.offline b) h = ap AlarmKey.offline ((==_iff a b).0 h)
same_key (AlarmKey.execution_failures a) (AlarmKey.execution_failures b) h =
    ap AlarmKey.execution_failures ((==_iff a b).0 h)
same_key _ _ h = cc

fresh_id :
    (n i : ℕ) (alarms : List Alarm)
    → All (λ (a : Alarm). a.id < n) alarms
    → (n == i) ≡ true
    → count (λ (a : Alarm). a.id == i) alarms ≡ 0
fresh_id n i [] below h = refl
fresh_id n i (a ∷ as_) below h = ground (arith, below.0, h, fresh_id n i as_ below.1 h)

pub open_new-Consistent :
    (before d : ℕ) (k : AlarmKey) (now : ℕ) (s : Progress)
    → find (is_open_alarm d k) s.alarms ≡ none
    → Consistent before s
    → Consistent before (open_new d k now s)
open_new-Consistent before d k now s new h =
    let none_yet = count_zero_of_find (is_open_alarm d k) s.alarms new in
    record {
      ids_below =
          All-insert (λ (a : Alarm). a.id < s.next_id + 1) _ s.alarms
            (All-map s.alarms (λ a lt. omega arith) h.ids_below) (omega arith);
      ids = λ i. elim (Bool-cases (s.next_id == i)) [
        | inl hit ↦
            rw (count-insert, hit, fresh_id s.next_id i s.alarms h.ids_below hit) (omega arith)
        | inr miss ↦ rw (count-insert, miss) (omega (arith, h.ids i))
      ];
      once = λ d' k'. elim (Bool-cases (is_open_alarm d' k' (new_alarm s.next_id d k now))) [
        | inl hit ↦
            let same_d : d ≡ d' = ground (arith, hit) in
            let same_k : k ≡ k' = same_key k k' (ground (arith, hit)) in
            let none_yet' : count (is_open_alarm d' k') s.alarms ≡ 0 =
              rw (same_d, same_k) at none_yet in
            rw (count-insert, hit, none_yet') (omega arith)
        | inr miss ↦ rw (count-insert, miss) (omega (arith, h.once d' k'))
      ];
      balance = rw count-insert (omega (arith, h.balance));
    }

count-closed :
    (q : Alarm → Bool) (i now : ℕ) (alarms : List Alarm)
    → ((a : Alarm) → q (closed now a) ≡ false)
    → count q (update (is_open_with i) (closed now) alarms) ≤ count q alarms
count-closed q i now [] never = omega arith
count-closed q i now (a ∷ rest) never =
    let h = count-closed q i now rest never in
    elim (Bool-cases (is_open_with i a)) [
      | inl hit ↦ rw (hit, never a) (omega (arith, h))
      | inr miss ↦ rw miss (omega (arith, h))
    ]

abbrev one_if_open : Alarm → ℕ
one_if_open a = if a.is_open then 1 else 0

open_count_lem : (alarms : List Alarm) → sum_of (λ _. true) one_if_open alarms ≡ open_count alarms
open_count_lem [] = refl
open_count_lem (a ∷ rest) = rw (open_count_lem rest)

pub one_with_id :
    (i : ℕ) (alarms : List Alarm)
    → count (is_open_with i) alarms ≤ count (λ (a : Alarm). a.id == i) alarms
one_with_id i [] = omega arith
one_with_id i (a ∷ rest) = ground (arith, one_with_id i rest)

resolve_alarm-Consistent :
    (before d : ℕ) (k : AlarmKey) (now : ℕ) (a : Alarm) (s : Progress)
    → find (is_open_alarm d k) s.alarms ≡ some a
    → Consistent before s
    → Consistent before (resolve_alarm a.id now s)
resolve_alarm-Consistent before d k now a s found h =
    let holds = find_holds (is_open_alarm d k) s.alarms a found in
    let is_open : a.is_open ≡ true = ground (arith, holds) in
    let this : is_open_with a.id a ≡ true = rw (is_open, ==_refl) in
    let one : count (is_open_with a.id) s.alarms ≤ 1 =
      omega (arith, h.ids a.id, one_with_id a.id s.alarms) in
    let after = update (is_open_with a.id) (closed now) s.alarms in
    let moved =
      sum-update_one (is_open_alarm d k) (is_open_with a.id) (closed now) one_if_open s.alarms a one
        found this in
    let was : one_if_open a ≡ 1 = rw is_open in
    record {
      ids_below =
          All-update (λ (x : Alarm). x.id < s.next_id) (is_open_with a.id) (closed now) s.alarms
            (λ x _ lt. lt) h.ids_below;
      ids =
          IsKey-update (λ (x : Alarm). x.id) (is_open_with a.id) (closed now) s.alarms (λ x. refl)
            h.ids;
      once = λ d' k'.
          let fewer = count-closed (is_open_alarm d' k') a.id now s.alarms (λ x. ground arith) in
          omega (arith, fewer, h.once d' k');
      balance = omega (arith, h.balance, moved, was, open_count_lem s.alarms, open_count_lem after);
    }

pub judge-Consistent :
    (before now d : ℕ) (last_seen : Option ℕ) (maintained : Bool) (o : Option Alarm) (s : Progress)
    → find (is_open_alarm d (AlarmKey.offline d)) s.alarms ≡ o
    → Consistent before s
    → Consistent before (judge now d last_seen maintained o s)
judge-Consistent before now d last_seen maintained o s e h =
    elim (Bool-cases (unseen_for 300 now last_seen && not maintained)) [
      | inl gone ↦ rw gone (opened o e)
      | inr here ↦ elim (Bool-cases (not (unseen_for 120 now last_seen))) [
        | inl back ↦ rw (here, back) (closed_ o e)
        | inr late ↦ rw (here, late) h
      ]
    ]
  where
    opened :
        (o : Option Alarm)
        → find (is_open_alarm d (AlarmKey.offline d)) s.alarms ≡ o
        → Consistent before (elim o [ none ↦ open_new d (AlarmKey.offline d) now s | some a ↦ s ])
    opened none e = open_new-Consistent before d (AlarmKey.offline d) now s e h
    opened (some a) e = h

    closed_ :
        (o : Option Alarm)
        → find (is_open_alarm d (AlarmKey.offline d)) s.alarms ≡ o
        → Consistent before (elim o [ none ↦ s | some a ↦ resolve_alarm a.id now s ])
    closed_ none e = h
    closed_ (some a) e = resolve_alarm-Consistent before d (AlarmKey.offline d) now a s e h

pub check_devices-Consistent :
    (before now : ℕ) (states : List DeviceState) (windows : List MaintenanceWindow)
    (devices : List Device) (s : Progress)
    → Consistent before s
    → Consistent before (check_devices now states windows devices s)
unfolding check_devices check_device
check_devices-Consistent before now states windows [] s h = h
check_devices-Consistent before now states windows (d ∷ ds) s h =
    check_devices-Consistent before now states windows ds (check_device now states windows d.id s) (
      judge-Consistent before now d.id (last_seen_of states d.id) (in_maintenance now windows d.id)
        (find (is_open_alarm d.id (AlarmKey.offline d.id)) s.alarms) s refl h)

open_failures-Consistent :
    (before now : ℕ) (ids : List ℕ) (s : Progress)
    → Consistent before s
    → Consistent before (open_failures now ids s)
unfolding open_failures open_alarm
open_failures-Consistent before now [] s h = h
open_failures-Consistent before now (d ∷ ds) s h =
    elim (Option-cases (find (is_open_alarm d (AlarmKey.execution_failures d)) s.alarms)) [
      | inl missing ↦ rw missing (
          open_failures-Consistent before now ds (open_new d (AlarmKey.execution_failures d) now s)
            (open_new-Consistent before d (AlarmKey.execution_failures d) now s missing h))
      | inr (a, known) ↦ rw known (open_failures-Consistent before now ds s h)
    ]

-- The alarms of a database: ids are unique and below the next one, and a device has one open alarm
-- at most under a key.
pub record AlarmsSound (db : Db) : Type 0 where
  pub ids_below : All (λ (a : Alarm). a.id < db.sequences.alarm) db.alarms
  pub ids : IsKey (λ (a : Alarm). a.id) db.alarms
  pub once : (d : ℕ) (k : AlarmKey) → count (is_open_alarm d k) db.alarms ≤ 1

-- A sweep of a database with sound alarms never fails, and leaves sound alarms; and those that were
-- open before it, with those that it reports as opened, are those open after it with those that it
-- reports as resolved.
pub sweep_target_runtime-AlarmsSound :
    (now : ℕ) (db : Db)
    → AlarmsSound db
    → let after = (serve (sweep_target_runtime now) db).1 in
      (r : SweepResult) × ((serve (sweep_target_runtime now) db).0 ≡ ok r)
      × AlarmsSound after
      × (open_count after.alarms + r.alarms_resolved ≡ open_count db.alarms + r.alarms_opened)
unfolding sweep_target_runtime sweep_alarms
sweep_target_runtime-AlarmsSound now db h =
    let start : Progress = record {
      alarms = db.alarms;
      next_id = db.sequences.alarm;
      opened = 0;
      resolved = 0;
    } in
    let done =
      open_failures-Consistent (open_count db.alarms) now (failing_devices now db.executions) _ (
        check_devices-Consistent (open_count db.alarms) now db.device_states
          (sweep_windows now db.maintenance) (active_devices db) start
          (record { ids_below = h.ids_below; ids = h.ids; once = h.once; balance = refl })) in
    (
      (sweep now db).0,
      refl,
      record { ids_below = done.ids_below; ids = done.ids; once = done.once },
      done.balance,
    )
