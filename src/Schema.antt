-- ===== src/Schema.antt =====
-- The database of db/001_schema.sql: one list of rows for each table that the program uses.
pub mod Fleet
pub mod Money
pub mod Ops
use python_vs_go_pos_benchma.Prelude.{ℕ, ◌*◌, List}
use Fleet.{
  Company, PanelUser, Station, Device, Credential, Configuration, DeviceState, HeartbeatRow,
  WashBay, MaintenanceWindow, Alarm,
}
use Money.{
  Program, ProgramMethod, Entitlement, QrCode, RfCard, RfWallet, Payment, Attempt,
  ProviderTransaction, StartRight, LedgerEntry,
}
use Ops.{Execution, Command, CommandResult, Event, AuditEntry}

-- The sequences behind the BIGSERIAL columns whose values the code reads back: the next values.
pub record Sequences : Type 0 where
  pub payment : ℕ
  pub start_right : ℕ
  pub alarm : ℕ

pub record Db : Type 0 where
  pub companies : List Company
  pub panel_users : List PanelUser
  pub stations : List Station
  pub devices : List Device
  pub credentials : List Credential
  pub configurations : List Configuration
  pub device_states : List DeviceState
  pub heartbeats : List HeartbeatRow
  pub wash_bays : List WashBay
  pub maintenance : List MaintenanceWindow
  pub alarms : List Alarm
  pub programs : List Program
  pub program_methods : List ProgramMethod
  pub entitlements : List Entitlement
  pub qr_codes : List QrCode
  pub rf_cards : List RfCard
  pub rf_wallets : List RfWallet
  pub payments : List Payment
  pub attempts : List Attempt
  pub provider_transactions : List ProviderTransaction
  pub start_rights : List StartRight
  pub ledger : List LedgerEntry
  pub executions : List Execution
  pub commands : List Command
  pub command_results : List CommandResult
  pub events : List Event
  pub audit : List AuditEntry
  pub sequences : Sequences

-- timedelta(seconds=n), in microseconds
abbrev pub seconds : ℕ → ℕ
seconds n = n * 1000000
