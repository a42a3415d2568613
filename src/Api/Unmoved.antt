-- ===== src/Api/Unmoved.antt =====
-- What each operation behind an endpoint leaves alone: the tables of the others.
use python_vs_go_pos_benchma.Prelude.{ℕ, String, Text, ◌≡◌, refl, sym, ap, List}
use mathlib.Core.Path.{subst}
use python_vs_go_pos_benchma.Schema.{Db}
use python_vs_go_pos_benchma.Schema.Fleet.{Device}
use python_vs_go_pos_benchma.Schema.Ops.{CommandStatus}
use python_vs_go_pos_benchma.Errors.{Result}
use python_vs_go_pos_benchma.Session.{serve}
use python_vs_go_pos_benchma.Payments.Request.{PaymentRequest, Crypto}
use python_vs_go_pos_benchma.Payments.Payload.{PaymentPayload}
use python_vs_go_pos_benchma.Payments.Create.{create_payment}
use python_vs_go_pos_benchma.Payments.Create.Recorded.{recorded}
use python_vs_go_pos_benchma.Payments.Create.Created as Created
use python_vs_go_pos_benchma.Payments.Charge.Effects as Charged
use python_vs_go_pos_benchma.Commands.Pending.{CommandView, pending_commands}
use python_vs_go_pos_benchma.Commands.Pending.Sent.{pending_commands_lem}
use python_vs_go_pos_benchma.Commands.Acknowledge.{acknowledge_command}
use python_vs_go_pos_benchma.Commands.Acknowledge.Effects as Acked
use python_vs_go_pos_benchma.Commands.Report.{ResultRequest, ResultView, apply_command_result}
use python_vs_go_pos_benchma.Commands.Report.Effects as Reports

-- The tables that the invariant of payments reads are the same.
abbrev pub SameMoney : Db → Db → Type 0
SameMoney db db' =
    (db'.payments ≡ db.payments)
    × (db'.start_rights ≡ db.start_rights)
    × (db'.ledger ≡ db.ledger)
    × (db'.qr_codes ≡ db.qr_codes)
    × (db'.rf_wallets ≡ db.rf_wallets)
    × (db'.sequences.payment ≡ db.sequences.payment)

-- What is the same in any database that differs in other tables only.
pub unmoved : (db : Db) → SameMoney db db
unmoved db = (refl, refl, refl, refl, refl, refl)

module _ (crypto : Crypto) (device : Device) (body : PaymentRequest) (key : String) (now : ℕ)
    (db : Db) where
  -- The tables of commands and alarms are the same.
  abbrev pub SameCommands : Db → Type 0
  SameCommands db' =
      (db'.commands ≡ db.commands)
      × (db'.command_results ≡ db.command_results)
      × (db'.executions ≡ db.executions)
      × (db'.alarms ≡ db.alarms)
      × (db'.sequences.alarm ≡ db.sequences.alarm)

  Charged-commands :
      (terms : _) (c : _) (db' : Db)
      → Charged.Charged crypto terms device.station_id body now body.payment_method db c db'
      → SameCommands db'
  Charged-commands terms c db' (Charged.no_transfer e _ _ _ _) = rw e (refl, refl, refl, refl, refl)
  Charged-commands terms c db' (Charged.code_used q _ _ _ e _ _ _ _) =
      rw e (refl, refl, refl, refl, refl)
  Charged-commands terms c db' (Charged.wallet_debited card w _ _ _ e _ _ _ _) =
      rw e (refl, refl, refl, refl, refl)

  pub created_commands :
      (r : Result PaymentPayload) (db' : Db)
      → Created.Created crypto device body key now db r db'
      → SameCommands db'
  unfolding recorded
  created_commands r db' (Created.replayed _ _ _ _ same) = rw same (refl, refl, refl, refl, refl)
  created_commands r db' (Created.refused _ _ same grows) =
      (rw same refl, rw same refl, rw same refl, rw same refl, grows.1)
  created_commands r db' (Created.paid terms c charged _ _ ch _ _ is_db) =
      rw is_db (Charged-commands terms c charged ch)

  pub create_payment-SameCommands :
      SameCommands (serve (create_payment crypto device body key now) db).1
  create_payment-SameCommands =
      created_commands (serve (create_payment crypto device body key now) db).0
        (serve (create_payment crypto device body key now) db).1
        (Created.create_payment-Created crypto device body key now db)

-- A database that differs in the tables of commands only.
abbrev pub OnlyCommands : Db → Db → Type 0
OnlyCommands db db' = db' ≡ record db {
  commands = db'.commands;
  executions = db'.executions;
  command_results = db'.command_results;
  events = db'.events;
}

pub OnlyCommands-SameMoney : (db db' : Db) → OnlyCommands db db' → SameMoney db db'
OnlyCommands-SameMoney db db' e = (
  ap (λ (d : Db). d.payments) e,
  ap (λ (d : Db). d.start_rights) e,
  ap (λ (d : Db). d.ledger) e,
  ap (λ (d : Db). d.qr_codes) e,
  ap (λ (d : Db). d.rf_wallets) e,
  ap (λ (d : Db). d.sequences.payment) e,
)

pub pending_commands-OnlyCommands :
    (device_id limit now : ℕ) (db : Db)
    → OnlyCommands db (serve (pending_commands device_id limit now) db).1
pending_commands-OnlyCommands device_id limit now db =
    subst (λ (r : Result (List CommandView) × Db). OnlyCommands db r.1)
      (sym (pending_commands_lem device_id limit now db)) refl

acknowledged-OnlyCommands :
    (device_id command_id now : ℕ) (db : Db) (r : Result (ℕ × CommandStatus)) (db' : Db)
    → Acked.Acknowledged device_id command_id now db r db'
    → OnlyCommands db db'
acknowledged-OnlyCommands device_id command_id now db r db' (Acked.refused _ _ same) = rw same refl
acknowledged-OnlyCommands device_id command_id now db r db' (Acked.repeated _ _ _ _ same) =
    rw same refl
acknowledged-OnlyCommands device_id command_id now db r db' (Acked.first _ _ _ _ _ same) =
    rw same refl

pub acknowledge_command-OnlyCommands :
    (device_id command_id now : ℕ) (db : Db)
    → OnlyCommands db (serve (acknowledge_command device_id command_id now) db).1
acknowledge_command-OnlyCommands device_id command_id now db =
    acknowledged-OnlyCommands device_id command_id now db
      (serve (acknowledge_command device_id command_id now) db).0
      (serve (acknowledge_command device_id command_id now) db).1
      (Acked.acknowledge_command-Acknowledged device_id command_id now db)

module _ (hmac : Text → Text → String) (device_id command_id : ℕ) (request : ResultRequest)
    (key : String) (now : ℕ) (db : Db) where
  reported-OnlyCommands :
      (r : Result ResultView) (db' : Db)
      → Reports.Reported hmac device_id command_id request key now db r db'
      → OnlyCommands db db'
  reported-OnlyCommands r db' (Reports.refused _ _ same) = rw same refl
  reported-OnlyCommands r db' (Reports.repeated _ _ _ _ _ _ _ _ _ same) = rw same refl
  reported-OnlyCommands r db' (Reports.first _ _ _ _ _ _ _ _ same) = rw same refl

  pub apply_command_result-OnlyCommands :
      OnlyCommands db (serve (apply_command_result hmac device_id command_id request key now) db).1
  apply_command_result-OnlyCommands =
      reported-OnlyCommands
        (serve (apply_command_result hmac device_id command_id request key now) db).0
        (serve (apply_command_result hmac device_id command_id request key now) db).1
        (Reports.apply_command_result-Reported hmac device_id command_id request key now db)
