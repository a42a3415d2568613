-- ===== src/Api/Life.antt =====
-- Commands under the whole server: only legal changes, and the end of a command is its end.
use python_vs_go_pos_benchma.Prelude.{
  ℕ, List, ◌≡◌, refl, ◌==◌, true, IsKey, Pointwise, Pointwise-refl, Pointwise-map, count-Pointwise,
}
use python_vs_go_pos_benchma.Schema.{Db}
use python_vs_go_pos_benchma.Schema.Ops.{Command}
use python_vs_go_pos_benchma.Session.{serve}
use python_vs_go_pos_benchma.Heartbeat.{record_heartbeat}
use python_vs_go_pos_benchma.Payments.Request.{Crypto}
use python_vs_go_pos_benchma.Payments.Create.{create_payment}
use python_vs_go_pos_benchma.Commands.Moves.{SameOrder, Steps, is_terminal}
use python_vs_go_pos_benchma.Commands.Life.{Life, begun, Life-order, Life-ended, lives_on}
use python_vs_go_pos_benchma.Commands.Pending.{pending_commands}
use python_vs_go_pos_benchma.Commands.Pending.Sent.{pending_commands-Steps}
use python_vs_go_pos_benchma.Commands.Acknowledge.{acknowledge_command}
use python_vs_go_pos_benchma.Commands.Acknowledge.Effects.{acknowledge_command-Steps}
use python_vs_go_pos_benchma.Commands.Report.{apply_command_result}
use python_vs_go_pos_benchma.Commands.Report.Effects.{apply_command_result-Steps}
use python_vs_go_pos_benchma.Worker.Sweep.{sweep_target_runtime}
use python_vs_go_pos_benchma.Api.Endpoints.{Env}
use python_vs_go_pos_benchma.Api.Server.{Request, run}
use python_vs_go_pos_benchma.Api.Kept.{Kept, run-Kept}
use python_vs_go_pos_benchma.Api.Unmoved.{create_payment-SameCommands}

-- The commands of a database have lived on from those at the start.
record Lived (start : List Command) (db : Db) : Type 0 where
  ids : IsKey (λ (c : Command). c.id) db.commands
  lives : Pointwise Life start db.commands

module _ (start : List Command) where
  Lived-step :
      (db db' : Db) → Pointwise Steps db.commands db'.commands → Lived start db → Lived start db'
  Lived-step db db' steps h = record {
    ids = λ i.
        rw
          (count-Pointwise Steps (λ c. c.id == i) db.commands db'.commands (λ c c' x. rw x.order.id)
            steps)
          (h.ids i);
    lives = lives_on start db.commands db'.commands h.lives steps;
  }

  Lived-same : (db db' : Db) → db'.commands ≡ db.commands → Lived start db → Lived start db'
  Lived-same db db' same h = record { ids = rw same h.ids; lives = rw same h.lives }

  Lived-Kept : (crypto : Crypto) → Kept crypto (Lived start)
  unfolding record_heartbeat sweep_target_runtime
  Lived-Kept crypto = record {
    heartbeat = λ i q v p now. record {
      at = λ db. Lived-same db (serve (record_heartbeat i q v p now) db).1 refl;
    };
    create_payment = λ d body key now. record {
      at = λ db.
          Lived-same db (serve (create_payment crypto d body key now) db).1
            (create_payment-SameCommands crypto d body key now db).0;
    };
    pending_commands = λ i n now. record {
      at = λ db h.
          Lived-step db (serve (pending_commands i n now) db).1
            (pending_commands-Steps i n now db h.ids) h;
    };
    acknowledge_command = λ i c now. record {
      at = λ db h.
          Lived-step db (serve (acknowledge_command i c now) db).1
            (acknowledge_command-Steps i c now db h.ids) h;
    };
    apply_command_result = λ i c body key now. record {
      at = λ db h.
          Lived-step db (serve (apply_command_result crypto.hmac_sha256 i c body key now) db).1
            (apply_command_result-Steps crypto.hmac_sha256 i c body key now db h.ids) h;
    };
    sweep = λ now. record { at = λ db. Lived-same db (serve (sweep_target_runtime now) db).1 refl };
  }

-- Over any sequence of requests and sweeps no command is added or removed, each row keeps its id,
-- device, execution and creation time, its status takes legal changes only, and a command that has
-- ended keeps its whole row for good, result and times included, if ids of commands are unique.
pub run-Life :
    (env : Env) (requests : List (ℕ × Request)) (db : Db)
    → IsKey (λ (c : Command). c.id) db.commands
    → Pointwise
        (λ c d. Life c d × SameOrder c d × (is_terminal c.status ≡ true → d ≡ c))
        db.commands
        (run env requests db).commands
run-Life env requests db ids =
    let after = run env requests db in
    let lived =
      run-Kept env (Lived db.commands) (Lived-Kept db.commands env.crypto) requests db
        (record { ids = ids; lives = Pointwise-refl Life db.commands (λ c. begun) }) in
    Pointwise-map Life _ db.commands after.commands
      (λ c d life. (life, Life-order c d life, Life-ended c d life)) lived.lives
