-- ===== src/Seed/Database/Sizes.antt =====
-- `row_counts` of db/seed/seed.py, and what it counts in a seeded database.
use python_vs_go_pos_benchma.Prelude.{
  ℕ, zero, suc, ◌+◌, ◌-◌, ◌%◌, ◌≡◌, refl, ap, ◌∙◌, Bool, List, [], ◌∷◌, map, select, ◌==◌, length,
  length-map, All,
}
use python_vs_go_pos_benchma.Schema.{Db}
use python_vs_go_pos_benchma.Schema.Fleet.{Station}
use python_vs_go_pos_benchma.Seed.Series.{range, join, serial}
use python_vs_go_pos_benchma.Seed.Series.Counting.{All-range, All-rows, join_each}
use python_vs_go_pos_benchma.Seed.Profile.{Profile, qr_count, wallet_count, command_count}
use python_vs_go_pos_benchma.Seed.Rows.{
  Digests, companies, panel_users, stations, devices, credentials, configurations, device_states,
  heartbeats, qr_codes, rf_cards, rf_wallets, payments, executions, commands, station, device,
  at_station,
}
use python_vs_go_pos_benchma.Seed.Database.{seed_db, IsProfile}
use python_vs_go_pos_benchma.Seed.Database.Joined.{
  station_of, payments_lem, executions_lem, commands_lem, payment_at, execution_at, command_at,
}

pub record RowCounts : Type 0 where
  pub companies : ℕ
  pub panel_users : ℕ
  pub stations : ℕ
  pub devices : ℕ
  pub device_credentials : ℕ
  pub device_configurations : ℕ
  pub device_current_states : ℕ
  pub payments : ℕ
  pub qr_codes : ℕ
  pub rf_cards : ℕ
  pub rf_wallets : ℕ
  pub program_executions : ℕ
  pub commands : ℕ
  pub heartbeats : ℕ

unfoldable pub row_counts : Db → RowCounts
row_counts db = record {
  companies = length db.companies;
  panel_users = length db.panel_users;
  stations = length db.stations;
  devices = length db.devices;
  device_credentials = length db.credentials;
  device_configurations = length db.configurations;
  device_current_states = length db.device_states;
  payments = length db.payments;
  qr_codes = length db.qr_codes;
  rf_cards = length db.rf_cards;
  rf_wallets = length db.rf_wallets;
  program_executions = length db.executions;
  commands = length db.commands;
  heartbeats = length db.heartbeats;
}

-- What a profile promises.
abbrev pub promised : Profile → RowCounts
promised cfg = record {
  companies = cfg.companies;
  panel_users = cfg.companies;
  stations = cfg.stations;
  devices = cfg.devices;
  device_credentials = cfg.devices;
  device_configurations = cfg.devices;
  device_current_states = cfg.devices;
  payments = cfg.payments;
  qr_codes = qr_count cfg;
  rf_cards = wallet_count cfg;
  rf_wallets = wallet_count cfg;
  program_executions = command_count cfg;
  commands = command_count cfg;
  heartbeats = cfg.devices;
}

length-range : (k n : ℕ) → length (range k n) ≡ n
length-range k zero = refl
length-range k (suc n) = ap suc (length-range (k + 1) n)

length-serial : {A : Type 0} (k : ℕ) (fs : List (ℕ → A)) → length (serial k fs) ≡ length fs
length-serial k [] = refl
length-serial k (f ∷ fs) = ap suc (length-serial (k + 1) fs)

-- A table made of a series, without and with a sequence for its ids.
length-rows : {A : Type 0} (f : ℕ → A) (n : ℕ) → length (map f (range 1 n)) ≡ n
length-rows f n = length-map f (range 1 n) ∙ length-range 1 n

length-serial_rows :
    {A B : Type 0} (f : B → ℕ → A) (xs : List B) → length (serial 1 (map f xs)) ≡ length xs
length-serial_rows f xs = length-serial 1 (map f xs) ∙ length-map f xs

module _ (digest : Digests) (cfg : Profile) (ok_ : IsProfile cfg) where
  -- A join of rows with their stations.
  length-stationed :
      {A B : Type 0} (f : A × Station → ℕ → B) (on : A → Station → Bool) (at : A → Station)
      (as_ : List A)
      → All (λ a. select (on a) (stations digest cfg) ≡ at a ∷ []) as_
      → length (serial 1 (map f (join on as_ (stations digest cfg)))) ≡ length as_
  length-stationed f on at as_ each =
      length-serial_rows f (join on as_ (stations digest cfg))
      ∙ ap length (join_each on at as_ (stations digest cfg) each)
      ∙ length-map (λ a. (a, at a)) as_

  length-devices : length (devices digest cfg) ≡ cfg.devices
  unfolding devices
  length-devices = length-rows (device digest cfg) cfg.devices

  length-companies : length (companies digest cfg) ≡ cfg.companies
  unfolding companies
  length-companies = length-rows _ cfg.companies

  length-panel_users : length (panel_users digest cfg) ≡ cfg.companies
  unfolding panel_users
  length-panel_users = length-serial_rows _ (range 1 cfg.companies) ∙ length-range 1 cfg.companies

  length-stations : length (stations digest cfg) ≡ cfg.stations
  unfolding stations
  length-stations = length-rows _ cfg.stations

  length-credentials : length (credentials digest cfg) ≡ cfg.devices
  unfolding credentials
  length-credentials = length-serial_rows _ (devices digest cfg) ∙ length-devices

  length-device_states : length (device_states digest cfg) ≡ cfg.devices
  unfolding device_states
  length-device_states = length-map _ (devices digest cfg) ∙ length-devices

  length-heartbeats : length (heartbeats digest cfg) ≡ cfg.devices
  unfolding heartbeats
  length-heartbeats = length-map _ (devices digest cfg) ∙ length-devices

  length-rf_cards : length (rf_cards digest cfg) ≡ wallet_count cfg
  unfolding rf_cards
  length-rf_cards =
      length-serial_rows _ (range 1 (wallet_count cfg)) ∙ length-range 1 (wallet_count cfg)

  length-rf_wallets : length (rf_wallets digest cfg) ≡ wallet_count cfg
  unfolding rf_wallets
  length-rf_wallets = length-serial_rows _ (rf_cards digest cfg) ∙ length-rf_cards

  device_stations :
      All
        (λ d.
          select (at_station digest cfg d) (stations digest cfg)
          ≡ station digest cfg d.station_id ∷ [])
        (devices digest cfg)
  unfolding devices
  device_stations =
      All-rows (device digest cfg)
        (λ d.
          select (at_station digest cfg d) (stations digest cfg)
          ≡ station digest cfg d.station_id ∷ [])
        1 cfg.devices (λ g low high. station_of digest cfg ok_ (g - 1))

  length-configurations : length (configurations digest cfg) ≡ cfg.devices
  unfolding configurations
  length-configurations =
      length-stationed _ (at_station digest cfg) (λ d. station digest cfg d.station_id)
        (devices digest cfg) device_stations
      ∙ length-devices

  length-qr_codes : length (qr_codes digest cfg) ≡ qr_count cfg
  unfolding qr_codes
  length-qr_codes =
      length-stationed _ (λ g s. s.id == (g - 1) % cfg.stations + 1)
        (λ g. station digest cfg ((g - 1) % cfg.stations + 1)) (range 1 (qr_count cfg))
        (All-range
          (λ g.
            select (λ s. s.id == (g - 1) % cfg.stations + 1) (stations digest cfg)
            ≡ station digest cfg ((g - 1) % cfg.stations + 1) ∷ [])
          1 (qr_count cfg) (λ g low high. station_of digest cfg ok_ (g - 1)))
      ∙ length-range 1 (qr_count cfg)

  length-payments : length (payments digest cfg) ≡ cfg.payments
  length-payments =
      ap length (payments_lem digest cfg ok_) ∙ length-rows (payment_at digest cfg ok_) cfg.payments

  length-executions : length (executions digest cfg) ≡ command_count cfg
  length-executions =
      ap length (executions_lem digest cfg ok_)
      ∙ length-rows (execution_at digest cfg ok_) (command_count cfg)

  length-commands : length (commands digest cfg) ≡ command_count cfg
  length-commands =
      ap length (commands_lem digest cfg ok_)
      ∙ length-rows (command_at digest cfg ok_) (command_count cfg)

  -- A database seeded with at least one company, station and device, with fewer than 10^12 payments and
  -- no more commands than payments, has as many rows in each table as its profile promises.
  pub row_counts-seed_db : row_counts (seed_db digest cfg) ≡ promised cfg
  unfolding row_counts seed_db
  row_counts-seed_db = rw (
    length-companies, length-panel_users, length-stations, length-devices, length-credentials,
    length-configurations, length-device_states, length-payments, length-qr_codes, length-rf_cards,
    length-rf_wallets, length-executions, length-commands, length-heartbeats,
  )
