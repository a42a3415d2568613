-- ===== src/Api/Sound/Operations.antt =====
-- The invariants of payments and commands, and that every operation behind an endpoint keeps both.
use python_vs_go_pos_benchma.Prelude.{ℕ, String}
use python_vs_go_pos_benchma.Schema.{Db}
use python_vs_go_pos_benchma.Schema.Fleet.{Device}
use python_vs_go_pos_benchma.Session.{serve}
use python_vs_go_pos_benchma.Session.Rules.{Keeps}
use python_vs_go_pos_benchma.Heartbeat.{record_heartbeat}
use python_vs_go_pos_benchma.Payments.Request.{PaymentRequest, Crypto}
use python_vs_go_pos_benchma.Payments.Create.{create_payment}
use python_vs_go_pos_benchma.Payments.Create.Sound.{PaymentsSound, create_payment-Sound}
use python_vs_go_pos_benchma.Commands.Pending.{pending_commands}
use python_vs_go_pos_benchma.Commands.Acknowledge.{acknowledge_command}
use python_vs_go_pos_benchma.Commands.Report.{ResultRequest, apply_command_result}
use python_vs_go_pos_benchma.Commands.Sound.{
  CommandsSound, pending_commands-Sound, acknowledge_command-Sound,
}
use python_vs_go_pos_benchma.Commands.Sound.Report.{apply_command_result-Sound}
use python_vs_go_pos_benchma.Worker.Sweep.{sweep_target_runtime}
use python_vs_go_pos_benchma.Api.Unmoved.{
  SameMoney, unmoved, OnlyCommands-SameMoney, create_payment-SameCommands,
  pending_commands-OnlyCommands, acknowledge_command-OnlyCommands,
  apply_command_result-OnlyCommands,
}

pub record Sound (db : Db) : Type 0 where
  pub payments : PaymentsSound db
  pub commands : CommandsSound db

pub SameMoney-Sound : (db db' : Db) → SameMoney db db' → PaymentsSound db → PaymentsSound db'
SameMoney-Sound db db' (payments, start_rights, ledger, qr_codes, rf_wallets, sequences) h =
    record {
      keys = rw payments h.keys;
      ids_below = rw (payments, sequences) h.ids_below;
      ids = rw payments h.ids;
      rights = rw (payments, start_rights) h.rights;
      debits = rw (payments, ledger) h.debits;
      codes = rw (payments, qr_codes) h.codes;
      code_ids = rw qr_codes h.code_ids;
      wallet_ids = rw rf_wallets h.wallet_ids;
    }

create_payment-CommandsSound :
    (crypto : Crypto) (device : Device) (body : PaymentRequest) (key : String) (now : ℕ) (db : Db)
    → CommandsSound db
    → CommandsSound (serve (create_payment crypto device body key now) db).1
create_payment-CommandsSound crypto device body key now db h =
    let (commands, results, _, _, _) = create_payment-SameCommands crypto device body key now db in
    record {
      ids = rw commands h.ids;
      one_result = rw results h.one_result;
      each = rw (commands, results) h.each;
    }

-- The operations behind the endpoints.
pub heartbeat-Keeps :
    (device_id : ℕ) (sequence : _) (app_version : _) (payload : String) (now : ℕ)
    → Keeps Sound (record_heartbeat device_id sequence app_version payload now)
unfolding record_heartbeat
heartbeat-Keeps device_id sequence app_version payload now = record {
  at = λ db h. record {
    payments =
        SameMoney-Sound db
          (serve (record_heartbeat device_id sequence app_version payload now) db).1 (unmoved db)
          h.payments;
    commands = record {
      ids = h.commands.ids;
      one_result = h.commands.one_result;
      each = h.commands.each;
    };
  };
}

pub sweep-Keeps : (now : ℕ) → Keeps Sound (sweep_target_runtime now)
unfolding sweep_target_runtime
sweep-Keeps now = record {
  at = λ db h. record {
    payments = SameMoney-Sound db (serve (sweep_target_runtime now) db).1 (unmoved db) h.payments;
    commands = record {
      ids = h.commands.ids;
      one_result = h.commands.one_result;
      each = h.commands.each;
    };
  };
}

pub create_payment-Keeps :
    (crypto : Crypto) (device : Device) (body : PaymentRequest) (key : String) (now : ℕ)
    → Keeps Sound (create_payment crypto device body key now)
create_payment-Keeps crypto device body key now = record {
  at = λ db h. record {
    payments = create_payment-Sound crypto device body key now db h.payments;
    commands = create_payment-CommandsSound crypto device body key now db h.commands;
  };
}

pub pending_commands-Keeps :
    (device_id limit now : ℕ) → Keeps Sound (pending_commands device_id limit now)
pending_commands-Keeps device_id limit now = record {
  at = λ db h. record {
    payments =
        SameMoney-Sound db (serve (pending_commands device_id limit now) db).1
          (OnlyCommands-SameMoney db (serve (pending_commands device_id limit now) db).1
            (pending_commands-OnlyCommands device_id limit now db))
          h.payments;
    commands = pending_commands-Sound device_id limit now db h.commands;
  };
}

pub acknowledge_command-Keeps :
    (device_id command_id now : ℕ) → Keeps Sound (acknowledge_command device_id command_id now)
acknowledge_command-Keeps device_id command_id now = record {
  at = λ db h. record {
    payments =
        SameMoney-Sound db (serve (acknowledge_command device_id command_id now) db).1
          (OnlyCommands-SameMoney db (serve (acknowledge_command device_id command_id now) db).1
            (acknowledge_command-OnlyCommands device_id command_id now db))
          h.payments;
    commands = acknowledge_command-Sound device_id command_id now db h.commands;
  };
}

pub apply_command_result-Keeps :
    (hmac : _) (device_id command_id : ℕ) (request : ResultRequest) (key : String) (now : ℕ)
    → Keeps Sound (apply_command_result hmac device_id command_id request key now)
apply_command_result-Keeps hmac device_id command_id request key now = record {
  at = λ db h. record {
    payments =
        SameMoney-Sound db
          (serve (apply_command_result hmac device_id command_id request key now) db).1
          (OnlyCommands-SameMoney db
            (serve (apply_command_result hmac device_id command_id request key now) db).1
            (apply_command_result-OnlyCommands hmac device_id command_id request key now db))
          h.payments;
    commands = apply_command_result-Sound hmac device_id command_id request key now db h.commands;
  };
}
