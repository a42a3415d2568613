-- ===== src/Api/Sound.antt =====
-- The invariants of payments and commands, kept by the server of python/app/main.py and the worker.
pub mod Operations
use python_vs_go_pos_benchma.Prelude.{ℕ, List}
use python_vs_go_pos_benchma.Schema.{Db}
use python_vs_go_pos_benchma.Payments.Request.{Crypto}
use python_vs_go_pos_benchma.Api.Endpoints.{Env}
use python_vs_go_pos_benchma.Api.Server.{Request, run}
use python_vs_go_pos_benchma.Api.Kept.{Kept, run-Kept}
use python_vs_go_pos_benchma.Api.Sound.Operations.{
  Sound, heartbeat-Keeps, sweep-Keeps, create_payment-Keeps, pending_commands-Keeps,
  acknowledge_command-Keeps, apply_command_result-Keeps,
}

pub Sound-Kept : (crypto : Crypto) → Kept crypto Sound
Sound-Kept crypto = record {
  heartbeat = heartbeat-Keeps;
  create_payment = create_payment-Keeps crypto;
  pending_commands = pending_commands-Keeps;
  acknowledge_command = acknowledge_command-Keeps;
  apply_command_result = apply_command_result-Keeps crypto.hmac_sha256;
  sweep = sweep-Keeps;
}

-- Any sequence of requests and runs of the worker, at any instants, keeps the invariants of payments
-- (unique keys and ids, no start right or debit without a payment that earns it, QR codes accounted
-- for) and of commands (unique ids, at most one result, and one exactly when the command has ended).
pub run-Sound :
    (env : Env) (requests : List (ℕ × Request)) (db : Db) → Sound db → Sound (run env requests db)
run-Sound env requests db h = run-Kept env Sound (Sound-Kept env.crypto) requests db h
