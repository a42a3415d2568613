-- ===== src/Gate/Seeded.antt =====
-- The gate on a database that was seeded with a profile and then served.
use python_vs_go_pos_benchma.Prelude.{
  ℕ, ◌≡◌, inl, inr, arith, Bool-cases, some, none, String, List, str_eq,
}
use mathlib.Core.Path.{subst}
use python_vs_go_pos_benchma.Seed.Profile.{Profile, get_profile}
use python_vs_go_pos_benchma.Seed.Rows.{Digests}
use python_vs_go_pos_benchma.Seed.Database.{seed_db, IsProfile}
use python_vs_go_pos_benchma.Seed.Database.Sound.{
  seed_db-PaymentsSound, seed_db-CommandsSound, seed_db-AlarmsSound,
}
use python_vs_go_pos_benchma.Seed.Database.Agreed.{seed_db-Agreed, seed_db-AllComplete}
use python_vs_go_pos_benchma.Api.Endpoints.{Env}
use python_vs_go_pos_benchma.Api.Server.{Request, run}
use python_vs_go_pos_benchma.Api.Checked.{Checked, run-Checked}
use python_vs_go_pos_benchma.Gate.{hard_gate, clean, is_corr}
use python_vs_go_pos_benchma.Gate.Clean.{hard_gate-clean, Checked-InvariantsHold}

-- A profile with numbers in these bounds.
in_bounds : (cfg cfg' : Profile) → IsProfile cfg → some cfg ≡ some cfg' → IsProfile cfg'
in_bounds cfg cfg' h e = let same : cfg ≡ cfg' = cc in subst IsProfile same h

-- The profiles are D1, D2 and D3.
get_profile-IsProfile :
    (name : String) (cfg : Profile) → get_profile name ≡ some cfg → IsProfile cfg
unfolding get_profile
get_profile-IsProfile name cfg h = elim (Bool-cases (str_eq name "D1")) [
  | inl d1 ↦ in_bounds _ cfg d1_fits (rw d1 at h)
  | inr n1 ↦ elim (Bool-cases (str_eq name "D2")) [
    | inl d2 ↦ in_bounds _ cfg d2_fits (rw (n1, d2) at h)
    | inr n2 ↦ elim (Bool-cases (str_eq name "D3")) [
      | inl d3 ↦ in_bounds _ cfg d3_fits (rw (n1, n2, d3) at h)
      | inr n3 ↦ let h' : none ≡ some cfg = rw (n1, n2, n3) at h in cc
    ]
  ]
]
  where
    d1_fits : IsProfile (record { companies = 10; stations = 50; devices = 500; payments = 100000 })
    d1_fits = record {
      companies = omega arith;
      stations = omega arith;
      devices = omega arith;
      payments = omega arith;
      commands = omega arith;
    }

    d2_fits :
        IsProfile (record { companies = 50; stations = 500; devices = 5000; payments = 1000000 })
    d2_fits = record {
      companies = omega arith;
      stations = omega arith;
      devices = omega arith;
      payments = omega arith;
      commands = omega arith;
    }

    d3_fits :
        IsProfile (record { companies = 500; stations = 5000; devices = 50000; payments = 1000000 })
    d3_fits = record {
      companies = omega arith;
      stations = omega arith;
      devices = omega arith;
      payments = omega arith;
      commands = omega arith;
    }

-- A database seeded with at least one company, station and device, with fewer than 10^12 payments and no
-- more commands than payments, satisfies all the invariants of the server and the worker.
pub seed_db-Checked :
    (digest : Digests) (cfg : Profile) → IsProfile cfg → Checked is_corr (seed_db digest cfg)
seed_db-Checked digest cfg ok_ = record {
  sound = record {
    payments = seed_db-PaymentsSound digest cfg ok_;
    commands = seed_db-CommandsSound digest cfg ok_;
  };
  agreed = seed_db-Agreed digest cfg ok_;
  complete = seed_db-AllComplete digest cfg ok_;
  alarms = seed_db-AlarmsSound digest cfg ok_;
}

-- Whatever requests the server answers and however often the worker runs, at any instants, after a
-- database is seeded with one of the three profiles: all eight queries of the gate count 0 rows.
pub run-clean :
    (digest : Digests) (env : Env) (name : String) (cfg : Profile) (requests : List (ℕ × Request))
    → get_profile name ≡ some cfg
    → hard_gate (run env requests (seed_db digest cfg)) ≡ clean
run-clean digest env name cfg requests known =
    hard_gate-clean (run env requests (seed_db digest cfg)) (
      Checked-InvariantsHold (run env requests (seed_db digest cfg)) (
        run-Checked is_corr env requests (seed_db digest cfg)
          (seed_db-Checked digest cfg (get_profile-IsProfile name cfg known))))
