-- ===== src/Tests/Service.antt =====
-- Commands, the worker, the dashboard and the server at a small car wash.
use python_vs_go_pos_benchma.Prelude.{
  All, ◌≤◌, ◌<◌, ℕ, ◌+◌, ◌≡◌, refl, arith, none, some, codes, List, [], ◌∷◌, IsKey, Pointwise,
}
use python_vs_go_pos_benchma.Schema.{Db, seconds}
use python_vs_go_pos_benchma.Schema.Money.{Method, PaymentStatus}
use python_vs_go_pos_benchma.Schema.Ops.{Command, Outcome}
use python_vs_go_pos_benchma.Errors.{ok}
use python_vs_go_pos_benchma.Session.{serve}
use python_vs_go_pos_benchma.Heartbeat.Seen.{state_of, record_heartbeat_seen}
use python_vs_go_pos_benchma.Heartbeat.{record_heartbeat}
use python_vs_go_pos_benchma.Commands.Acknowledge.{acknowledge_command}
use python_vs_go_pos_benchma.Commands.Acknowledge.Effects.{Acks, acknowledge_command-Acks}
use python_vs_go_pos_benchma.Commands.Report.{ResultView, apply_command_result}
use python_vs_go_pos_benchma.Commands.Report.Effects.{Completes, apply_command_result-Completes}
use python_vs_go_pos_benchma.Commands.Report.Replay as Replay
use python_vs_go_pos_benchma.Commands.Sound.{CommandsSound}
use python_vs_go_pos_benchma.Commands.Sound.Report.{apply_command_result-Sound}
use python_vs_go_pos_benchma.Worker.Sweep.{sweep_target_runtime}
use python_vs_go_pos_benchma.Schema.Fleet.{MaintenanceStatus}
use python_vs_go_pos_benchma.Worker.Sweep.Windows.{IsSettled, sweep_target_runtime-IsSettled}
use python_vs_go_pos_benchma.Worker.Sweep.Alarms.{AlarmsSound, sweep_target_runtime-AlarmsSound}
use python_vs_go_pos_benchma.Dashboard.Period.{
  Datetime, period_bounds, instant, days_before_year, days_of_months, days_in_month,
}
use python_vs_go_pos_benchma.Dashboard.Period.Contains.{IsDate, period_bounds_contains}
use python_vs_go_pos_benchma.Dashboard.Overview.{
  Overview, overview, device_figures, financial, payment_methods,
}
use python_vs_go_pos_benchma.Dashboard.Overview.Figures.{overview_adds_up, totals, amounts}
use python_vs_go_pos_benchma.Auth.{device_token}
use python_vs_go_pos_benchma.Api.Server.{Request, run, step}
use python_vs_go_pos_benchma.Api.Access.{IsRefusal, step_refuses}
use python_vs_go_pos_benchma.Api.Sound.Operations.{Sound}
use python_vs_go_pos_benchma.Api.Sound.{run-Sound}
use python_vs_go_pos_benchma.Tests.Data.{crypto, env, header, shop, by_card, done, noon}
use python_vs_go_pos_benchma.Tests.Payments.{shop-PaymentsSound}

command_ids : IsKey (λ (c : Command). c.id) shop.commands
command_ids i = ground arith

shop-CommandsSound : CommandsSound shop
shop-CommandsSound = record {
  ids = command_ids;
  one_result = λ i. omega arith;
  each = (record { reported = refl; timed = λ _. refl }, tt);
}

abbrev day : List (ℕ × Request)
day =
    (noon, Request.payment 3 header "first-payment" (by_card 500))
    ∷ (noon + seconds 1, Request.command_result 3 header 11 "first-result" done)
    ∷ (noon + seconds 400, Request.sweep)
    ∷ []

run-Sound_example : Sound (run env day shop)
run-Sound_example =
    run-Sound env day shop (record { payments = shop-PaymentsSound; commands = shop-CommandsSound })

-- The report of command 11, a second after its acknowledgement.
abbrev reported : Db
reported = Replay.next crypto.hmac_sha256 3 11 done "first-result" (noon + seconds 1) shop

abbrev answer : ResultView
answer = record { id = 11; status = Outcome.success; result_code = none }

apply_command_result-Sound_example : CommandsSound reported
apply_command_result-Sound_example =
    apply_command_result-Sound crypto.hmac_sha256 3 11 done "first-result" (noon + seconds 1) shop
      shop-CommandsSound

apply_command_result-Completes_example :
    Pointwise
      (Completes crypto.hmac_sha256 3 11 done "first-result" (noon + seconds 1) shop)
      shop.commands
      reported.commands
apply_command_result-Completes_example =
    apply_command_result-Completes crypto.hmac_sha256 3 11 done "first-result" (noon + seconds 1)
      shop command_ids

acknowledge_command-Acks_example :
    Pointwise
      (Acks 3 11 (noon + seconds 2) shop)
      shop.commands
      (serve (acknowledge_command 3 11 (noon + seconds 2)) shop).1.commands
acknowledge_command-Acks_example = acknowledge_command-Acks 3 11 (noon + seconds 2) shop command_ids

report_replay_example :
    serve
      (apply_command_result crypto.hmac_sha256 3 11 done "first-result" (noon + seconds 9))
      reported
    ≡ (ok answer, reported)
unfolding apply_command_result
report_replay_example =
    (Replay.report_replay crypto.hmac_sha256 3 11 done "first-result" (noon + seconds 1) shop answer
        done Outcome.success Outcome.success (noon + seconds 9) refl refl refl).0
      refl

report_confuses_none_example :
    serve
      (apply_command_result crypto.hmac_sha256 3 11
        (record done { code = some (codes "None") })
        "first-result"
        (noon + seconds 9))
      reported
    ≡ (ok answer, reported)
unfolding apply_command_result
report_confuses_none_example =
    Replay.report_confuses_none crypto.hmac_sha256 3 11 done "first-result" (noon + seconds 1) shop
      answer Outcome.success (noon + seconds 9) refl refl refl

sweep_target_runtime-AlarmsSound_example :
    AlarmsSound (serve (sweep_target_runtime (noon + seconds 60)) shop).1
sweep_target_runtime-AlarmsSound_example =
    (sweep_target_runtime-AlarmsSound (noon + seconds 60) shop (record {
      ids_below = (omega arith, tt);
      ids = λ i. ground arith;
      once = λ d k. ground arith;
    })).2

record_heartbeat_seen_example :
    state_of 4
      (serve (record_heartbeat 3 (some 1) none "{}" (noon + seconds 500)) shop).1.device_states
    ≡ state_of 4 shop.device_states
record_heartbeat_seen_example =
    (record_heartbeat_seen 3 (some 1) none "{}" (noon + seconds 500) shop).1 4 (omega arith)

abbrev today : Datetime
today = record { year = 2024; month = 1; day = 15; time = 26400000000 }

abbrev figures : Overview
figures = record {
  company_name = "Wash";
  period_start = 63840873600000000;
  period_end = 63840960000000000;
  station_count = 1;
  wash_bay_count = 1;
  devices = record { total = 1; online = 1; offline = 0; unknown = 0; active = 1 };
  money = record {
    transaction_count = 1;
    successful_count = 1;
    failed_count = 0;
    pending_count = 0;
    cancelled_count = 0;
    gross_amount = 500;
  };
  methods =
      record {
        payment_method = Method.rf_card;
        total_count = 1;
        successful_count = 1;
        amount = 500;
      }
      ∷ [];
  failed_execution_count = 0;
}

-- The shop after a payment.
abbrev busy : Db
busy = record shop {
  payments =
      record {
        id = 1;
        device_id = 3;
        station_id = 2;
        idempotency_key = "first-payment";
        request_hash = "01";
        method = Method.rf_card;
        amount_minor = 500;
        currency = "TRY";
        status = PaymentStatus.success;
        error_code = none;
        error_message = none;
        program_id = some 6;
        qr_code_id = none;
        rf_wallet_id = some 9;
        created_at = noon;
        completed_at = some noon;
      }
      ∷ [];
}

overview_adds_up_example :
    (figures.devices.total
      ≡ figures.devices.online + figures.devices.offline + figures.devices.unknown)
    × (figures.money.transaction_count
        ≡ figures.money.successful_count + figures.money.failed_count + figures.money.pending_count
          + figures.money.cancelled_count)
    × (totals figures.methods ≡ figures.money.transaction_count)
    × (amounts figures.methods ≡ figures.money.gross_amount)
unfolding overview device_figures financial payment_methods period_bounds instant days_before_year
    days_of_months days_in_month
overview_adds_up_example = overview_adds_up 1 "TODAY" today noon busy figures (refl, tt) refl

-- The end of February in a leap year.
abbrev leap_day : Datetime
leap_day = record { year = 2024; month = 2; day = 29; time = 0 }

leap_day-IsDate : IsDate leap_day
unfolding days_in_month
leap_day-IsDate = record {
  year_from = omega arith;
  month_from = omega arith;
  month_to = omega arith;
  day_from = omega arith;
  day_to = omega arith;
  time_to = omega arith;
}

period_bounds_contains_example :
    (63842342400000000 ≤ instant leap_day) × (instant leap_day < 63844848000000000)
unfolding period_bounds instant days_before_year days_of_months days_in_month
period_bounds_contains_example =
    period_bounds_contains "THIS_MONTH" leap_day 63842342400000000 63844848000000000 leap_day-IsDate
      refl

-- A payment without an Authorization header.
step_refuses_example :
    IsRefusal (step env (noon, Request.payment 3 none "first-payment" (by_card 500)) shop).0
    × ((step env (noon, Request.payment 3 none "first-payment" (by_card 500)) shop).1 ≡ shop)
unfolding device_token
step_refuses_example =
    step_refuses env shop noon (Request.payment 3 none "first-payment" (by_card 500)) refl

-- A window that begins at noon and one that is over.
abbrev maintained : Db
maintained = record shop {
  maintenance =
      record {
        id = 1;
        device_id = some 3;
        starts_at = noon;
        ends_at = noon + seconds 60;
        status = MaintenanceStatus.scheduled;
      }
      ∷ record {
        id = 2;
        device_id = none;
        starts_at = 0;
        ends_at = noon;
        status = MaintenanceStatus.active;
      }
      ∷ [];
}

sweep_target_runtime-IsSettled_example :
    All (IsSettled noon) (serve (sweep_target_runtime noon) maintained).1.maintenance
sweep_target_runtime-IsSettled_example = sweep_target_runtime-IsSettled noon maintained
