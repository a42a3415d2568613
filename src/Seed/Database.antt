-- ===== src/Seed/Database.antt =====
-- The database that `seed_sql` of db/seed/seed.py leaves.
pub mod Joined
pub mod Sizes
pub mod Sound
pub mod Agreed
use python_vs_go_pos_benchma.Prelude.{ℕ, ◌+◌, ◌*◌, ◌^◌, ◌≤◌, ◌<◌, [], max}
use python_vs_go_pos_benchma.Schema.{Db}
use python_vs_go_pos_benchma.Seed.Decimal.RoundTrip.{power_of_ten}
use python_vs_go_pos_benchma.Seed.Profile.{Profile, command_count}
use python_vs_go_pos_benchma.Seed.Rows.{Digests}
use python_vs_go_pos_benchma.Seed.Rows as Rows

-- TRUNCATE … RESTART IDENTITY, the INSERTs, and setval on the payments' sequence, all in one
-- transaction.
unfoldable pub seed_db : Digests → Profile → Db
seed_db digest cfg = record {
  companies = Rows.companies digest cfg;
  panel_users = Rows.panel_users digest cfg;
  stations = Rows.stations digest cfg;
  devices = Rows.devices digest cfg;
  credentials = Rows.credentials digest cfg;
  configurations = Rows.configurations digest cfg;
  device_states = Rows.device_states digest cfg;
  heartbeats = Rows.heartbeats digest cfg;
  wash_bays = Rows.wash_bays digest cfg;
  maintenance = [];
  alarms = [];
  programs = Rows.programs digest cfg;
  program_methods = Rows.program_methods digest cfg;
  entitlements = Rows.entitlements digest cfg;
  qr_codes = Rows.qr_codes digest cfg;
  rf_cards = Rows.rf_cards digest cfg;
  rf_wallets = Rows.rf_wallets digest cfg;
  payments = Rows.payments digest cfg;
  attempts = [];
  provider_transactions = [];
  start_rights = [];
  ledger = [];
  executions = Rows.executions digest cfg;
  commands = Rows.commands digest cfg;
  command_results = [];
  events = [];
  audit = [];
  sequences = record { payment = max cfg.payments 1 + 1; start_right = 1; alarm = 1 };
}

-- What the profiles have in common: nothing is empty, ids of payments fit 12 digits, and each seeded
-- command has its payment.
pub record IsProfile (cfg : Profile) : Type 0 where
  pub companies : 1 ≤ cfg.companies
  pub stations : 1 ≤ cfg.stations
  pub devices : 1 ≤ cfg.devices
  pub payments : cfg.payments < power_of_ten 12
  pub commands : command_count cfg ≤ cfg.payments
