-- ===== src/Worker/Sweep/Windows.antt =====
-- The maintenance windows that a sweep leaves.
use python_vs_go_pos_benchma.Prelude.{
  ℕ, ◌≡◌, ◌≤◌, ◌<◌, arith, ◌⊎◌, inl, inr, true, false, Bool-cases, List, [], ◌∷◌, ltb, All,
  if◌then◌else◌,
}
use python_vs_go_pos_benchma.Schema.{Db}
use python_vs_go_pos_benchma.Schema.Fleet.{MaintenanceWindow}
use python_vs_go_pos_benchma.Session.{serve}
use python_vs_go_pos_benchma.Worker.Sweep.{
  is_scheduled, is_active, starts_now, is_over, activate, complete, sweep_windows,
  sweep_target_runtime,
}

-- A window whose status agrees with an instant: it is SCHEDULED only before its start, and ACTIVE only
-- before its end.
pub record IsSettled (now : ℕ) (w : MaintenanceWindow) : Type 0 where
  pub scheduled_before : is_scheduled w.status ≡ true → now < w.starts_at
  pub active_before : is_active w.status ≡ true → now < w.ends_at

-- A window after the first update, and after the second.
complete-IsSettled :
    (now : ℕ) (v : MaintenanceWindow)
    → (is_scheduled v.status ≡ true → (v.ends_at ≤ now) ⊎ (now < v.starts_at))
    → IsSettled now (if is_over now v then complete v else v)
complete-IsSettled now v h = elim (Bool-cases (is_over now v)) [
  | inl over ↦ rw over (record { scheduled_before = λ e. cc; active_before = λ e. cc })
  | inr open_ ↦ rw open_ (record {
    scheduled_before =
        λ e. elim (h e) [ inl ended ↦ ground (arith, open_, e, ended) | inr before ↦ before ];
    active_before = λ e. ground (arith, open_, e);
  })
]

waiting_alone :
    (now : ℕ) (w : MaintenanceWindow)
    → starts_now now w ≡ false
    → is_scheduled w.status ≡ true
    → (w.ends_at ≤ now) ⊎ (now < w.starts_at)
waiting_alone now w h e = elim (Bool-cases (ltb now w.starts_at)) [
  | inl before ↦ inr (ground (arith, before))
  | inr begun ↦ inl (ground (arith, begun, h, e))
]

pub sweep_windows-IsSettled :
    (now : ℕ) (windows : List MaintenanceWindow) → All (IsSettled now) (sweep_windows now windows)
unfolding sweep_windows
sweep_windows-IsSettled now [] = tt
sweep_windows-IsSettled now (w ∷ ws) =
    let rest = sweep_windows-IsSettled now ws in
    elim (Bool-cases (starts_now now w)) [
      | inl starts ↦ rw starts (complete-IsSettled now (activate w) (λ e. cc), rest)
      | inr waits ↦ rw waits (complete-IsSettled now w (waiting_alone now w waits), rest)
    ]

-- After a sweep, a maintenance window is SCHEDULED only if it has not begun, and ACTIVE only if it has
-- not ended.
pub sweep_target_runtime-IsSettled :
    (now : ℕ) (db : Db) → All (IsSettled now) (serve (sweep_target_runtime now) db).1.maintenance
unfolding sweep_target_runtime
sweep_target_runtime-IsSettled now db = sweep_windows-IsSettled now db.maintenance
