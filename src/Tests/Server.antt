-- ===== src/Tests/Server.antt =====
-- The invariants of the whole server, the worker's alarms and the life of a command, at a small car wash.
use python_vs_go_pos_benchma.Prelude.{
  ℕ, ◌≤◌, length, ◌+◌, ◌≡◌, refl, arith, none, some, true, List, [], ◌∷◌, IsKey, Pointwise,
}
use python_vs_go_pos_benchma.Schema.{Db, seconds}
use python_vs_go_pos_benchma.Schema.Fleet.{AlarmKey}
use python_vs_go_pos_benchma.Schema.Ops.{Command, CommandStatus, Outcome}
use python_vs_go_pos_benchma.Errors.{ok}
use python_vs_go_pos_benchma.Session.{serve}
use python_vs_go_pos_benchma.Payments.Create.{create_payment}
use python_vs_go_pos_benchma.Payments.Create.Complete.{AllComplete, create_payment-AllComplete}
use python_vs_go_pos_benchma.Commands.Moves.{SameOrder}
use python_vs_go_pos_benchma.Commands.Life.{Life}
use python_vs_go_pos_benchma.Commands.Sound.{CommandsSound}
use python_vs_go_pos_benchma.Commands.Moves.{is_terminal}
use python_vs_go_pos_benchma.Commands.Agreed.{Agreed}
use python_vs_go_pos_benchma.Commands.Agreed.Requests.{apply_command_result-Agreed}
use python_vs_go_pos_benchma.Commands.Acknowledge.{acknowledge_command}
use python_vs_go_pos_benchma.Commands.Pending.{pending_commands, waiting_rows, send_rows}
use python_vs_go_pos_benchma.Commands.Pending.Sent.{Sends, pending_commands-Sends}
use python_vs_go_pos_benchma.Commands.Report.{apply_command_result}
use python_vs_go_pos_benchma.Commands.Served.{command_served}
use python_vs_go_pos_benchma.Worker.Sweep.{sweep_target_runtime}
use python_vs_go_pos_benchma.Worker.Sweep.Alarms.{AlarmsSound}
use python_vs_go_pos_benchma.Worker.Sweep.Verdict.{is_open}
use python_vs_go_pos_benchma.Worker.Sweep.Refines.{
  offline_after, sweep_target_runtime-refines, sweep_target_runtime-again,
}
use python_vs_go_pos_benchma.Api.Server.{Request, run}
use python_vs_go_pos_benchma.Api.Checked.{Checked, run-Checked}
use python_vs_go_pos_benchma.Payments.Create.Wallets.{balances, debited}
use python_vs_go_pos_benchma.Api.Money.{run_conserves}
use python_vs_go_pos_benchma.Api.Sound.Operations.{Sound}
use python_vs_go_pos_benchma.Api.Life.{run-Life}
use python_vs_go_pos_benchma.Gate.{is_corr}
use python_vs_go_pos_benchma.Tests.Data.{crypto, device, env, header, shop, by_card, done, noon}
use python_vs_go_pos_benchma.Tests.Payments.{shop-PaymentsSound}

one_id : IsKey (λ (c : Command). c.id) shop.commands
one_id i = ground arith

shop-Agreed : Agreed shop
shop-Agreed = record {
  ids = one_id;
  one_command = λ i. ground arith;
  agree = ((λ ended its. cc, tt), tt);
}

shop-AlarmsSound : AlarmsSound shop
shop-AlarmsSound = record {
  ids_below = (omega arith, tt);
  ids = λ i. ground arith;
  once = λ d k. ground arith;
}

abbrev shift : List (ℕ × Request)
shift =
    (noon, Request.payment 3 header "corr-rf-2-000" (by_card 500))
    ∷ (noon + seconds 1, Request.command_result 3 header 11 "corr-command-result" done)
    ∷ (noon + seconds 400, Request.sweep)
    ∷ []

shop-Sound : Sound shop
shop-Sound = record {
  payments = shop-PaymentsSound;
  commands = record {
    ids = one_id;
    one_result = λ i. omega arith;
    each = (record { reported = refl; timed = λ _. refl }, tt);
  };
}

run-Checked_example : Checked is_corr (run env shift shop)
run-Checked_example =
    run-Checked is_corr env shift shop (record {
      sound = shop-Sound;
      agreed = shop-Agreed;
      complete = tt;
      alarms = shop-AlarmsSound;
    })

create_payment-AllComplete_example :
    AllComplete is_corr
      (serve (create_payment crypto device (by_card 500) "corr-rf-2-000" noon) shop).1
create_payment-AllComplete_example =
    create_payment-AllComplete is_corr crypto device (by_card 500) "corr-rf-2-000" noon shop tt

apply_command_result-Agreed_example :
    Agreed
      (serve
        (apply_command_result crypto.hmac_sha256 3 11 done "first-result" (noon + seconds 1))
        shop).1
apply_command_result-Agreed_example =
    apply_command_result-Agreed crypto.hmac_sha256 3 11 done "first-result" (noon + seconds 1) shop
      shop-Agreed

run-Life_example :
    Pointwise
      (λ c d. Life c d × SameOrder c d × (is_terminal c.status ≡ true → d ≡ c))
      shop.commands
      (run env shift shop).commands
run-Life_example = run-Life env shift shop one_id

-- The device was seen at noon: after 400 s its alarm is open, and a second sweep leaves it so.
sweep_target_runtime-refines_example :
    is_open (serve (sweep_target_runtime (noon + seconds 400)) shop).1.alarms 3 (AlarmKey.offline 3)
    ≡ offline_after (noon + seconds 400) shop 3
sweep_target_runtime-refines_example =
    (sweep_target_runtime-refines (noon + seconds 400) shop 3 shop-AlarmsSound).0

sweep_target_runtime-again_example :
    is_open
      (serve (sweep_target_runtime noon) (serve (sweep_target_runtime noon) shop).1).1.alarms
      3
      (AlarmKey.offline 3)
    ≡ is_open (serve (sweep_target_runtime noon) shop).1.alarms 3 (AlarmKey.offline 3)
sweep_target_runtime-again_example = (sweep_target_runtime-again noon shop 3 shop-AlarmsSound).0

-- A command that waits for its device.
abbrev waiting : Command
waiting = record {
  id = 11;
  device_id = 3;
  execution_id = 12;
  status = CommandStatus.pending;
  payload = "{}";
  created_at = noon;
  sent_at = none;
  acknowledged_at = none;
  completed_at = none;
  result_code = none;
}

abbrev ready : Db
ready = record shop { commands = waiting ∷ [] }

ready-CommandsSound : CommandsSound ready
ready-CommandsSound = record {
  ids = λ i. ground arith;
  one_result = λ i. omega arith;
  each = (record { reported = refl; timed = λ h. cc }, tt);
}

command_served_example :
    (serve
      (acknowledge_command 3 11 (noon + seconds 5))
      (serve (pending_commands 3 10 (noon + seconds 1)) ready).1).0
    ≡ ok (11, CommandStatus.acknowledged)
command_served_example =
    (command_served 3 11 crypto.hmac_sha256 done "first-result" (noon + seconds 1) 10
      (noon + seconds 5) (noon + seconds 60) ready waiting Outcome.success ready-CommandsSound refl
      refl (omega arith) (omega arith) refl).0

-- A command of another device waits, too. Only that of device 3 is sent to it.
abbrev foreign : Command
foreign = record waiting { id = 12; device_id = 4 }

abbrev both_wait : Db
both_wait = record shop { commands = foreign ∷ (waiting ∷ []) }

both_ids : IsKey (λ (c : Command). c.id) both_wait.commands
both_ids i = ground arith

pending_commands-Sends_example :
    Pointwise (Sends 3 (waiting_rows 3 1 both_wait) (noon + seconds 1)) both_wait.commands (
      foreign
      ∷ (record waiting { status = CommandStatus.sent; sent_at = some (noon + seconds 1) } ∷ []))
    × (length (waiting_rows 3 1 both_wait) ≤ 1)
unfolding pending_commands waiting_rows send_rows
pending_commands-Sends_example = pending_commands-Sends 3 1 (noon + seconds 1) both_wait both_ids

run_conserves_example :
    balances (run env shift shop) + debited (run env shift shop) ≡ balances shop + debited shop
run_conserves_example = run_conserves env shift shop shop-Sound
