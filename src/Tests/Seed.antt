-- ===== src/Tests/Seed.antt =====
-- Seeded databases, and the gate on them.
use python_vs_go_pos_benchma.Prelude.{ℕ, ◌+◌, ◌≡◌, refl, arith, some, codes, List, [], ◌∷◌}
use python_vs_go_pos_benchma.Schema.{seconds}
use python_vs_go_pos_benchma.Api.Server.{Request, run}
use python_vs_go_pos_benchma.Api.Checked.{Checked}
use python_vs_go_pos_benchma.Seed.Profile.{Profile, get_profile}
use python_vs_go_pos_benchma.Seed.Rows.{Digests}
use python_vs_go_pos_benchma.Seed.Database.{seed_db, IsProfile}
use python_vs_go_pos_benchma.Seed.Database.Sizes.{row_counts, promised, row_counts-seed_db}
use python_vs_go_pos_benchma.Gate.{hard_gate, clean, is_corr}
use python_vs_go_pos_benchma.Gate.Passed.{Passed, hard_gate-Passed}
use python_vs_go_pos_benchma.Gate.Clean.{hard_gate-clean, Checked-InvariantsHold}
use python_vs_go_pos_benchma.Gate.Seeded.{seed_db-Checked, run-clean}
use python_vs_go_pos_benchma.Tests.Data.{digest, env, by_card, done, noon}

abbrev digests : Digests
digests = record {
  sha256 = digest;
  hmac_sha256 = λ key text. digest text;
  md5 = λ text. text;
  snapshot = λ device_key station_key. device_key;
}

abbrev d1 : Profile
d1 = record { companies = 10; stations = 50; devices = 500; payments = 100000 }

d1-IsProfile : IsProfile d1
d1-IsProfile = record {
  companies = omega arith;
  stations = omega arith;
  devices = omega arith;
  payments = omega arith;
  commands = omega arith;
}

-- Device 1 fetches its commands, runs the first one and pays; the worker sweeps.
abbrev morning : List (ℕ × Request)
morning =
    (noon, Request.commands_pending 1 (some (codes "Device credential-1")) 10)
    ∷ (noon + seconds 1, Request.command_acknowledge 1 (some (codes "Device credential-1")) 1)
    ∷ (
      noon + seconds 2,
      Request.command_result 1 (some (codes "Device credential-1")) 1 "corr-command-result" done,
    )
    ∷ (
      noon + seconds 3,
      Request.payment 1 (some (codes "Device credential-1")) "corr-rf-1" (by_card 1000),
    )
    ∷ (noon + seconds 400, Request.sweep)
    ∷ []

seed_db-Checked_example : Checked is_corr (seed_db digests d1)
seed_db-Checked_example = seed_db-Checked digests d1 d1-IsProfile

hard_gate-clean_example : hard_gate (seed_db digests d1) ≡ clean
hard_gate-clean_example =
    hard_gate-clean (seed_db digests d1)
      (Checked-InvariantsHold (seed_db digests d1) (seed_db-Checked digests d1 d1-IsProfile))

hard_gate-Passed_example : Passed (run env morning (seed_db digests d1))
unfolding get_profile
hard_gate-Passed_example =
    hard_gate-Passed (run env morning (seed_db digests d1))
      (run-clean digests env "D1" d1 morning refl)

run-clean_example : hard_gate (run env morning (seed_db digests d1)) ≡ clean
unfolding get_profile
run-clean_example = run-clean digests env "D1" d1 morning refl

row_counts-seed_db_example : row_counts (seed_db digests d1) ≡ promised d1
row_counts-seed_db_example = row_counts-seed_db digests d1 d1-IsProfile
