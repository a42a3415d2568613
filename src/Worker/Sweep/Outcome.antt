-- ===== src/Worker/Sweep/Outcome.antt =====
-- The offline alarms after the first loop of a sweep.
use python_vs_go_pos_benchma.Prelude.{
  ℕ, ◌+◌, ◌≡◌, refl, sym, ap, ◌∙◌, inl, inr, arith, Bool, true, false, not, Bool-cases, ◌&&◌, List,
  [], ◌∷◌, ◌==◌, ==_iff, ltb, Option, none, some, is_some, find, count, if◌then◌else◌,
}
use python_vs_go_pos_benchma.Schema.Fleet.{Device, DeviceState, MaintenanceWindow, Alarm, AlarmKey}
use python_vs_go_pos_benchma.Worker.Sweep.{
  Progress, is_open_alarm, judge, check_device, check_devices, unseen_for, last_seen_of,
  in_maintenance,
}
use python_vs_go_pos_benchma.Worker.Sweep.Alarms.{Consistent, judge-Consistent}
use python_vs_go_pos_benchma.Worker.Sweep.Verdict.{
  is_open, verdict, same, same-is_open, is_open-open_new, is_open-resolve_alarm,
}

-- The loop's body decides one alarm.
judge-verdict :
    (before now i : ℕ) (last_seen : Option ℕ) (maintained : Bool) (o : Option Alarm) (s : Progress)
    (k : AlarmKey) (d : ℕ)
    → find (is_open_alarm i (AlarmKey.offline i)) s.alarms ≡ o
    → Consistent before s
    → is_open (judge now i last_seen maintained o s).alarms d k ≡ (
        if same i (AlarmKey.offline i) d k
        then verdict now last_seen maintained (is_some o)
        else is_open s.alarms d k)
judge-verdict before now i last_seen maintained o s k d e h =
    elim (Bool-cases (same i (AlarmKey.offline i) d k)) [
      | inl hit ↦
          let was = same-is_open i (AlarmKey.offline i) s.alarms o d k e hit in
          rw hit (decided o e hit was)
      | inr miss ↦ rw miss (apart o e miss)
    ]
  where
    decided :
        (o : Option Alarm)
        → find (is_open_alarm i (AlarmKey.offline i)) s.alarms ≡ o
        → same i (AlarmKey.offline i) d k ≡ true
        → is_open s.alarms d k ≡ is_some o
        → is_open (judge now i last_seen maintained o s).alarms d k
          ≡ verdict now last_seen maintained (is_some o)
    decided none e hit was = elim (Bool-cases (unseen_for 300 now last_seen && not maintained)) [
      | inl gone ↦ rw (gone, is_open-open_new i (AlarmKey.offline i) now s d k, was, hit)
      | inr here ↦ elim (Bool-cases (not (unseen_for 120 now last_seen))) [
        | inl back ↦ rw (here, back) was
        | inr late ↦ rw (here, late) was
      ]
    ]
    decided (some a) e hit was =
        elim (Bool-cases (unseen_for 300 now last_seen && not maintained)) [
          | inl gone ↦ rw gone was
          | inr here ↦ elim (Bool-cases (not (unseen_for 120 now last_seen))) [
            | inl back ↦ rw (
              here,
              back,
              is_open-resolve_alarm before i (AlarmKey.offline i) now a s d k e h,
              was,
              hit,
            )
            | inr late ↦ rw (here, late) was
          ]
        ]

    apart :
        (o : Option Alarm)
        → find (is_open_alarm i (AlarmKey.offline i)) s.alarms ≡ o
        → same i (AlarmKey.offline i) d k ≡ false
        → is_open (judge now i last_seen maintained o s).alarms d k ≡ is_open s.alarms d k
    apart none e miss = elim (Bool-cases (unseen_for 300 now last_seen && not maintained)) [
      | inl gone ↦ rw (gone, is_open-open_new i (AlarmKey.offline i) now s d k, miss) (ground arith)
      | inr here ↦ elim (Bool-cases (not (unseen_for 120 now last_seen))) [
        | inl back ↦ rw (here, back)
        | inr late ↦ rw (here, late)
      ]
    ]
    apart (some a) e miss = elim (Bool-cases (unseen_for 300 now last_seen && not maintained)) [
      | inl gone ↦ rw gone
      | inr here ↦ elim (Bool-cases (not (unseen_for 120 now last_seen))) [
        | inl back ↦
            rw
              (
                here,
                back,
                is_open-resolve_alarm before i (AlarmKey.offline i) now a s d k e h,
                miss,
              )
              (ground arith)
        | inr late ↦ rw (here, late)
      ]
    ]

pub verdict_again :
    (now : ℕ) (last_seen : Option ℕ) (maintained was : Bool)
    → verdict now last_seen maintained (verdict now last_seen maintained was)
      ≡ verdict now last_seen maintained was
verdict_again now last_seen maintained was =
    elim (Bool-cases (unseen_for 300 now last_seen && not maintained)) [
      | inl gone ↦ rw gone
      | inr here ↦ elim (Bool-cases (not (unseen_for 120 now last_seen))) [
        | inl back ↦ rw (here, back)
        | inr late ↦ rw (here, late)
      ]
    ]

module _ (now : ℕ) (states : List DeviceState) (windows : List MaintenanceWindow) (before : ℕ) where
  -- The loop decides the offline alarm of each of its devices, and no other alarm.
  pub check_devices-verdict :
      (devices : List Device) (s : Progress) (i : ℕ)
      → Consistent before s
      → is_open (check_devices now states windows devices s).alarms i (AlarmKey.offline i) ≡ (
          if ltb 0 (count (λ d. d.id == i) devices)
          then verdict now
              (last_seen_of states i)
              (in_maintenance now windows i)
              (is_open s.alarms i (AlarmKey.offline i))
          else is_open s.alarms i (AlarmKey.offline i))
  unfolding check_devices check_device
  check_devices-verdict [] s i h = refl
  check_devices-verdict (d ∷ ds) s i h =
      let s' = check_device now states windows d.id s in
      let h' : Consistent before s' =
        judge-Consistent before now d.id (last_seen_of states d.id)
          (in_maintenance now windows d.id)
          (find (is_open_alarm d.id (AlarmKey.offline d.id)) s.alarms) s refl h in
      let V : Bool → Bool = verdict now (last_seen_of states i) (in_maintenance now windows i) in
      let rest = check_devices-verdict ds s' i h' in
      let first =
        judge-verdict before now d.id (last_seen_of states d.id) (in_maintenance now windows d.id)
          (find (is_open_alarm d.id (AlarmKey.offline d.id)) s.alarms) s (AlarmKey.offline i) i refl
          h in
      elim (Bool-cases (d.id == i)) [
        | inl hit ↦
            let is_i : d.id ≡ i = (==_iff d.id i).0 hit in
            let both : same d.id (AlarmKey.offline d.id) i (AlarmKey.offline i) ≡ true = rw hit in
            let decided : is_open s'.alarms i (AlarmKey.offline i)
                ≡ V (is_open s.alarms i (AlarmKey.offline i)) =
              (rw both at first)
              ∙ ap
                  (λ e.
                    verdict now (last_seen_of states e) (in_maintenance now windows e)
                      (is_open s.alarms e (AlarmKey.offline e)))
                  is_i in
            let met : ltb 0 (1 + count (λ (x : Device). x.id == i) ds) ≡ true = ground arith in
            rw (hit, met)
              (elim (Bool-cases (ltb 0 (count (λ (x : Device). x.id == i) ds))) [
                | inl more ↦
                    rest
                    ∙ rw (more, decided)
                        (verdict_again now (last_seen_of states i) (in_maintenance now windows i)
                          (is_open s.alarms i (AlarmKey.offline i)))
                | inr no_more ↦ rest ∙ rw (no_more, decided)
              ])
        | inr miss ↦
            let not_both : same d.id (AlarmKey.offline d.id) i (AlarmKey.offline i) ≡ false =
              rw miss in
            let kept : is_open s'.alarms i (AlarmKey.offline i)
                ≡ is_open s.alarms i (AlarmKey.offline i) =
              rw not_both at first in
            let n = count (λ (x : Device). x.id == i) ds in
            let others : 0 + n ≡ n = omega arith in rw (miss, others, sym kept) rest
      ]

  pub check_devices-failures :
      (devices : List Device) (s : Progress) (i : ℕ)
      → Consistent before s
      → is_open
          (check_devices now states windows devices s).alarms
          i
          (AlarmKey.execution_failures i)
        ≡ is_open s.alarms i (AlarmKey.execution_failures i)
  unfolding check_devices check_device
  check_devices-failures [] s i h = refl
  check_devices-failures (d ∷ ds) s i h =
      let s' = check_device now states windows d.id s in
      let first =
        judge-verdict before now d.id (last_seen_of states d.id) (in_maintenance now windows d.id)
          (find (is_open_alarm d.id (AlarmKey.offline d.id)) s.alarms) s
          (AlarmKey.execution_failures i) i refl h in
      let apart : same d.id (AlarmKey.offline d.id) i (AlarmKey.execution_failures i) ≡ false =
        ground arith in
      check_devices-failures ds s' i (
        judge-Consistent before now d.id (last_seen_of states d.id)
          (in_maintenance now windows d.id)
          (find (is_open_alarm d.id (AlarmKey.offline d.id)) s.alarms) s refl h)
      ∙ (rw apart at first)
