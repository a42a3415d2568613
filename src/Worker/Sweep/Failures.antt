-- ===== src/Worker/Sweep/Failures.antt =====
-- The alarms that the second loop of a sweep opens.
use python_vs_go_pos_benchma.Prelude.{
  ℕ, ◌+◌, ◌≡◌, ◌<◌, refl, sym, ◌∙◌, inl, inr, arith, Bool, true, false, Bool-cases, Option-cases,
  ◌&&◌, ◌||◌, List, [], ◌∷◌, ◌==◌, ==_iff, ltb, leb, some, find, count, count_ext,
  count_pos_of_find, find_holds, count_never, count-select_both, select, if◌then◌else◌,
}
use python_vs_go_pos_benchma.Schema.Fleet.{AlarmKey}
use python_vs_go_pos_benchma.Schema.Ops.{Execution}
use python_vs_go_pos_benchma.Worker.Sweep.{
  Progress, is_open_alarm, adds_id, device_ids, is_recent_failure, open_alarm, open_failures,
  failing_devices,
}
use python_vs_go_pos_benchma.Worker.Sweep.Verdict.{is_open, same, same-is_open, is_open-open_new}

-- `_open_alarm` leaves the alarm open.
is_open-open_alarm :
    (j : ℕ) (key : AlarmKey) (now : ℕ) (s : Progress) (d : ℕ) (k : AlarmKey)
    → is_open (open_alarm j key now s).alarms d k ≡ (is_open s.alarms d k || same j key d k)
unfolding open_alarm
is_open-open_alarm j key now s d k = elim (Option-cases (find (is_open_alarm j key) s.alarms)) [
  | inl missing ↦ rw missing (is_open-open_new j key now s d k)
  | inr (a, known) ↦ elim (Bool-cases (same j key d k)) [
    | inl hit ↦ let was = same-is_open j key s.alarms (some a) d k known hit in rw (known, hit, was)
    | inr miss ↦ rw (known, miss) (ground arith)
  ]
]

-- The second loop opens the alarms of the failing devices, and no other.
pub open_failures-failing :
    (now : ℕ) (ids : List ℕ) (s : Progress) (d : ℕ) (k : AlarmKey)
    → is_open (open_failures now ids s).alarms d k ≡ (
        is_open s.alarms d k || ltb 0 (count (λ j. same j (AlarmKey.execution_failures j) d k) ids))
unfolding open_failures
open_failures-failing now [] s d k = ground arith
open_failures-failing now (j ∷ js) s d k =
    let first = is_open-open_alarm j (AlarmKey.execution_failures j) now s d k in
    let rest =
      open_failures-failing now js (open_alarm j (AlarmKey.execution_failures j) now s) d k in
    rest
    ∙ rw first (
        either (is_open s.alarms d k) (same j (AlarmKey.execution_failures j) d k)
          (count (λ j. same j (AlarmKey.execution_failures j) d k) js))
  where
    either : (v b : Bool) (n : ℕ) → ((v || b) || ltb 0 n) ≡ (v || ltb 0 ((if b then 1 else 0) + n))
    either v true n = ground arith
    either v false n = ground arith

-- Each device of some executions is listed.
adds_id-lists :
    (i d : ℕ) (ids : List ℕ)
    → ltb 0 (count (λ j. j == i) (adds_id d ids)) ≡ ((d == i) || ltb 0 (count (λ j. j == i) ids))
adds_id-lists i d ids = elim (Option-cases (find (λ j. j == d) ids)) [
  | inl new ↦ rw new (ground arith)
  | inr (j, known) ↦ elim (Bool-cases (d == i)) [
    | inl hit ↦
        let is_i : d ≡ i = (==_iff d i).0 hit in
        let listed : 0 < count (λ j. j == i) ids =
          count_pos_of_find (λ j. j == d) (λ j. j == i) ids j known
            (rw is_i at (find_holds (λ j. j == d) ids j known)) in
        rw (known, hit) (ground (arith, listed))
    | inr miss ↦ rw (known, miss)
  ]
]

device_ids-lists :
    (i : ℕ) (es : List Execution)
    → ltb 0 (count (λ j. j == i) (device_ids es)) ≡ ltb 0 (count (λ e. e.device_id == i) es)
device_ids-lists i [] = refl
device_ids-lists i (e ∷ es) =
    adds_id-lists i e.device_id (device_ids es) ∙ rw (device_ids-lists i es) (ground arith)

pub failing_devices-lists :
    (now i : ℕ) (executions : List Execution)
    → ltb 0 (count (λ j. j == i) (failing_devices now executions))
      ≡ leb 3 (count (λ e. e.device_id == i && is_recent_failure now e) executions)
unfolding failing_devices
failing_devices-lists now i executions =
    let failures = select (is_recent_failure now) executions in
    let many : ℕ → Bool = λ d. leb 3 (count (λ (e : Execution). e.device_id == d) failures) in
    let n = count (λ (e : Execution). e.device_id == i) failures in
    let total : n ≡ count (λ e. e.device_id == i && is_recent_failure now e) executions =
      count-select_both (λ (e : Execution). e.device_id == i) (is_recent_failure now) executions in
    let chosen = count-select_both (λ j. j == i) many (device_ids failures) in
    let listed = device_ids-lists i failures in
    rw (sym total, chosen)
      (elim (Bool-cases (leb 3 n)) [
        | inl enough ↦
            let all : count (λ j. j == i && many j) (device_ids failures)
                ≡ count (λ j. j == i) (device_ids failures) =
              count_ext _ _ (device_ids failures) (λ j. elim (Bool-cases (j == i)) [
                | inl hit ↦ let is_i : j ≡ i = (==_iff j i).0 hit in rw (hit, is_i, enough)
                | inr miss ↦ rw miss
              ]) in
            rw (all, enough, listed) (ground (arith, enough))
        | inr few ↦
            let nothing : count (λ j. j == i && many j) (device_ids failures) ≡ 0 =
              count_never _ (device_ids failures) (λ j. elim (Bool-cases (j == i)) [
                | inl hit ↦ let is_i : j ≡ i = (==_iff j i).0 hit in rw (hit, is_i, few)
                | inr miss ↦ rw miss
              ]) in
            rw (nothing, few)
      ])
