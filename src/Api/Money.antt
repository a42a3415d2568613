-- ===== src/Api/Money.antt =====
-- The money on RF wallets under the whole server.
use python_vs_go_pos_benchma.Prelude.{ℕ, ◌+◌, List, ◌≡◌, refl}
use mathlib.Core.Path.{◌∙◌}
use python_vs_go_pos_benchma.Schema.{Db}
use python_vs_go_pos_benchma.Session.{serve}
use python_vs_go_pos_benchma.Heartbeat.{record_heartbeat}
use python_vs_go_pos_benchma.Payments.Request.{Crypto}
use python_vs_go_pos_benchma.Payments.Create.Wallets.{balances, debited, create_payment_conserves}
use python_vs_go_pos_benchma.Commands.Pending.{pending_commands}
use python_vs_go_pos_benchma.Commands.Acknowledge.{acknowledge_command}
use python_vs_go_pos_benchma.Commands.Report.{apply_command_result}
use python_vs_go_pos_benchma.Worker.Sweep.{sweep_target_runtime}
use python_vs_go_pos_benchma.Api.Endpoints.{Env}
use python_vs_go_pos_benchma.Api.Server.{Request, run}
use python_vs_go_pos_benchma.Api.Kept.{Kept, run-Kept}
use python_vs_go_pos_benchma.Api.Unmoved.{
  OnlyCommands, OnlyCommands-SameMoney, pending_commands-OnlyCommands,
  acknowledge_command-OnlyCommands, apply_command_result-OnlyCommands,
}
use python_vs_go_pos_benchma.Api.Sound.{Sound-Kept}
use python_vs_go_pos_benchma.Api.Sound.Operations.{Sound}

-- A sound database in which balances and debits have this sum.
record Funded (total : ℕ) (db : Db) : Type 0 where
  sound : Sound db
  sums : balances db + debited db ≡ total

module _ (total : ℕ) where
  OnlyCommands-Funded :
      (db db' : Db) → OnlyCommands db db' → Sound db' → Funded total db → Funded total db'
  OnlyCommands-Funded db db' only sound h =
      let (_, _, ledger, _, wallets, _) = OnlyCommands-SameMoney db db' only in
      record { sound = sound; sums = rw (ledger, wallets) h.sums }

  Funded-Kept : (crypto : Crypto) → Kept crypto (Funded total)
  unfolding record_heartbeat sweep_target_runtime
  Funded-Kept crypto =
      let kept = Sound-Kept crypto in
      record {
        heartbeat = λ i q v p now. record {
          at = λ db h. record { sound = (kept.heartbeat i q v p now).at db h.sound; sums = h.sums };
        };
        create_payment = λ d body key now. record {
          at = λ db h. record {
            sound = (kept.create_payment d body key now).at db h.sound;
            sums =
                create_payment_conserves crypto d body key now db h.sound.payments.wallet_ids
                ∙ h.sums;
          };
        };
        pending_commands = λ i n now. record {
          at = λ db h.
              OnlyCommands-Funded db (serve (pending_commands i n now) db).1
                (pending_commands-OnlyCommands i n now db)
                ((kept.pending_commands i n now).at db h.sound) h;
        };
        acknowledge_command = λ i c now. record {
          at = λ db h.
              OnlyCommands-Funded db (serve (acknowledge_command i c now) db).1
                (acknowledge_command-OnlyCommands i c now db)
                ((kept.acknowledge_command i c now).at db h.sound) h;
        };
        apply_command_result = λ i c body key now. record {
          at = λ db h.
              OnlyCommands-Funded db
                (serve (apply_command_result crypto.hmac_sha256 i c body key now) db).1
                (apply_command_result-OnlyCommands crypto.hmac_sha256 i c body key now db)
                ((kept.apply_command_result i c body key now).at db h.sound) h;
        };
        sweep = λ now. record {
          at = λ db h. record { sound = (kept.sweep now).at db h.sound; sums = h.sums };
        };
      }

-- Over any sequence of requests and sweeps the balances of all RF wallets and the debits in the ledger
-- keep their sum, if the invariants of payments and commands hold at the start.
pub run_conserves :
    (env : Env) (requests : List (ℕ × Request)) (db : Db)
    → Sound db
    → balances (run env requests db) + debited (run env requests db) ≡ balances db + debited db
run_conserves env requests db sound =
    (run-Kept env (Funded (balances db + debited db))
      (Funded-Kept (balances db + debited db) env.crypto) requests db
      (record { sound = sound; sums = refl })).sums
