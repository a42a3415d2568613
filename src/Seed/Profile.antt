-- ===== src/Seed/Profile.antt =====
-- db/seed/profiles.py: how many rows each profile has.
use python_vs_go_pos_benchma.Prelude.{
  ℕ, ◌/◌, Option, none, some, String, str_eq, max, if◌then◌else◌,
}

-- A value of PROFILES.
pub record Profile : Type 0 where
  pub companies : ℕ
  pub stations : ℕ
  pub devices : ℕ
  pub payments : ℕ

-- `get_profile`; none stands for its ValueError.
unfoldable pub get_profile : String → Option Profile
get_profile name =
    if str_eq name "D1"
    then some (record { companies = 10; stations = 50; devices = 500; payments = 100000 })
    else if str_eq name "D2"
    then some (record { companies = 50; stations = 500; devices = 5000; payments = 1000000 })
    else if str_eq name "D3"
    then some (record { companies = 500; stations = 5000; devices = 50000; payments = 1000000 })
    else none

-- `qr`, `wallets` and `commands` of seed_sql
abbrev pub qr_count : Profile → ℕ
qr_count cfg = max 100 (cfg.devices / 5)

abbrev pub wallet_count : Profile → ℕ
wallet_count cfg = max 100 (cfg.devices / 5)

abbrev pub command_count : Profile → ℕ
command_count cfg = max 10 (cfg.devices / 10)
