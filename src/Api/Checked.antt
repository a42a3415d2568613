-- ===== src/Api/Checked.antt =====
-- Everything that db/checks/invariants.sql asks of the database, kept by every request and sweep.
use python_vs_go_pos_benchma.Prelude.{ℕ, Bool, String, List, ap}
use python_vs_go_pos_benchma.Schema.{Db}
use python_vs_go_pos_benchma.Session.{serve}
use python_vs_go_pos_benchma.Heartbeat.{record_heartbeat}
use python_vs_go_pos_benchma.Payments.Request.{Crypto}
use python_vs_go_pos_benchma.Payments.Create.Complete.{AllComplete, create_payment-AllComplete}
use python_vs_go_pos_benchma.Commands.Pending.{pending_commands}
use python_vs_go_pos_benchma.Commands.Acknowledge.{acknowledge_command}
use python_vs_go_pos_benchma.Commands.Report.{apply_command_result}
use python_vs_go_pos_benchma.Commands.Agreed.{Agreed}
use python_vs_go_pos_benchma.Commands.Agreed.Requests.{
  pending_commands-Agreed, acknowledge_command-Agreed, apply_command_result-Agreed,
}
use python_vs_go_pos_benchma.Worker.Sweep.{sweep_target_runtime}
use python_vs_go_pos_benchma.Worker.Sweep.Alarms.{AlarmsSound, sweep_target_runtime-AlarmsSound}
use python_vs_go_pos_benchma.Api.Endpoints.{Env}
use python_vs_go_pos_benchma.Api.Server.{Request, run}
use python_vs_go_pos_benchma.Api.Kept.{Kept, run-Kept}
use python_vs_go_pos_benchma.Api.Unmoved.{
  OnlyCommands, SameMoney, OnlyCommands-SameMoney, create_payment-SameCommands,
  pending_commands-OnlyCommands, acknowledge_command-OnlyCommands,
  apply_command_result-OnlyCommands,
}
use python_vs_go_pos_benchma.Api.Sound.{Sound-Kept}
use python_vs_go_pos_benchma.Api.Sound.Operations.{Sound}

pub record Checked (chosen : String → Bool) (db : Db) : Type 0 where
  pub sound : Sound db
  pub agreed : Agreed db
  pub complete : AllComplete chosen db
  pub alarms : AlarmsSound db

module _ (chosen : String → Bool) where
  SameMoney-AllComplete :
      (db db' : Db) → SameMoney db db' → AllComplete chosen db → AllComplete chosen db'
  SameMoney-AllComplete db db' (payments, start_rights, ledger, _, _, _) h =
      rw (payments, start_rights, ledger) h

  OnlyCommands-AlarmsSound : (db db' : Db) → OnlyCommands db db' → AlarmsSound db → AlarmsSound db'
  OnlyCommands-AlarmsSound db db' e h =
      let alarms = ap (λ (d : Db). d.alarms) e in
      let sequence = ap (λ (d : Db). d.sequences.alarm) e in
      record {
        ids_below = rw (alarms, sequence) h.ids_below;
        ids = rw alarms h.ids;
        once = rw alarms h.once;
      }

  -- A request on commands.
  on_commands :
      (db db' : Db)
      → OnlyCommands db db'
      → Sound db'
      → Agreed db'
      → Checked chosen db
      → Checked chosen db'
  on_commands db db' only sound agreed h = record {
    sound = sound;
    agreed = agreed;
    complete = SameMoney-AllComplete db db' (OnlyCommands-SameMoney db db' only) h.complete;
    alarms = OnlyCommands-AlarmsSound db db' only h.alarms;
  }

  pub Checked-Kept : (crypto : Crypto) → Kept crypto (Checked chosen)
  unfolding record_heartbeat sweep_target_runtime
  Checked-Kept crypto =
      let kept = Sound-Kept crypto in
      record {
        heartbeat = λ i q v p now. record {
          at = λ db h. record {
            sound = (kept.heartbeat i q v p now).at db h.sound;
            agreed = record {
              ids = h.agreed.ids;
              one_command = h.agreed.one_command;
              agree = h.agreed.agree;
            };
            complete = h.complete;
            alarms = record {
              ids_below = h.alarms.ids_below;
              ids = h.alarms.ids;
              once = h.alarms.once;
            };
          };
        };
        create_payment = λ d body key now. record {
          at = λ db h.
              let (commands, _, executions, alarms, sequence) =
                create_payment-SameCommands crypto d body key now db in
              record {
                sound = (kept.create_payment d body key now).at db h.sound;
                agreed = record {
                  ids = rw commands h.agreed.ids;
                  one_command = rw commands h.agreed.one_command;
                  agree = rw (commands, executions) h.agreed.agree;
                };
                complete = create_payment-AllComplete chosen crypto d body key now db h.complete;
                alarms = record {
                  ids_below = rw (alarms, sequence) h.alarms.ids_below;
                  ids = rw alarms h.alarms.ids;
                  once = rw alarms h.alarms.once;
                };
              };
        };
        pending_commands = λ i n now. record {
          at = λ db h.
              on_commands db (serve (pending_commands i n now) db).1
                (pending_commands-OnlyCommands i n now db)
                ((kept.pending_commands i n now).at db h.sound)
                (pending_commands-Agreed i n now db h.agreed) h;
        };
        acknowledge_command = λ i c now. record {
          at = λ db h.
              on_commands db (serve (acknowledge_command i c now) db).1
                (acknowledge_command-OnlyCommands i c now db)
                ((kept.acknowledge_command i c now).at db h.sound)
                (acknowledge_command-Agreed i c now db h.agreed) h;
        };
        apply_command_result = λ i c body key now. record {
          at = λ db h.
              on_commands db (serve (apply_command_result crypto.hmac_sha256 i c body key now) db).1
                (apply_command_result-OnlyCommands crypto.hmac_sha256 i c body key now db)
                ((kept.apply_command_result i c body key now).at db h.sound)
                (apply_command_result-Agreed crypto.hmac_sha256 i c body key now db h.agreed) h;
        };
        sweep = λ now. record {
          at = λ db h.
              let (_, _, alarms, _) = sweep_target_runtime-AlarmsSound now db h.alarms in
              record {
                sound = (kept.sweep now).at db h.sound;
                agreed = record {
                  ids = h.agreed.ids;
                  one_command = h.agreed.one_command;
                  agree = h.agreed.agree;
                };
                complete = h.complete;
                alarms = alarms;
              };
        };
      }

  -- Any sequence of requests and runs of the worker keeps all that db/checks/invariants.sql asks for:
  -- besides the invariants of payments and commands, an execution that agrees with its ended command,
  -- a start right and a debit for every successful payment under a key of the chosen form, and one
  -- open alarm at most for each device and key.
  pub run-Checked :
      (env : Env) (requests : List (ℕ × Request)) (db : Db)
      → Checked chosen db
      → Checked chosen (run env requests db)
  run-Checked env requests db h =
      run-Kept env (Checked chosen) (Checked-Kept env.crypto) requests db h
