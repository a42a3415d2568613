-- ===== src/Commands/Pending.antt =====
-- `pending_commands` of python/app/commands.py.
pub mod Loop
pub mod Sent
use mathlib.Core.Option
use python_vs_go_pos_benchma.Prelude.{
  ℕ, ◌+◌, Bool, true, false, ◌&&◌, ◌||◌, Option, none, some, String, List, [], ◌∷◌, map, ltb, leb,
  ◌==◌, select, update, take, sort_by, if◌then◌else◌,
}
use python_vs_go_pos_benchma.Schema.{Db, seconds}
use python_vs_go_pos_benchma.Schema.Ops.{
  Command, CommandStatus, is_waiting, Execution, ExecutionStatus, is_created,
}
use python_vs_go_pos_benchma.Errors.{ok}
use python_vs_go_pos_benchma.Session.{Action, pure, read, execute, commit, ◌>>=◌, ◌>>◌}

-- ORDER BY created_at, id
abbrev pub comes_before : Command → Command → Bool
comes_before a b = ltb a.created_at b.created_at || (a.created_at == b.created_at && leb a.id b.id)

-- WHERE device_id=:device_id AND status IN ('PENDING','SENT')
abbrev pub awaits : ℕ → Command → Bool
awaits device_id c = c.device_id == device_id && is_waiting c.status

-- UPDATE commands SET status='SENT', sent_at=:now
abbrev pub sent_now : ℕ → Command → Command
sent_now now c = record c { status = CommandStatus.sent; sent_at = some now }

abbrev pub is_pending : CommandStatus → Bool
is_pending CommandStatus.pending = true
is_pending _ = false

-- The body of the loop: a row that is still PENDING is marked, in the tables and in the answer.
abbrev pub send_row : ℕ → Command → Action Command
send_row now row =
    if is_pending row.status
    then (do
      execute
          (λ db. record db { commands = update (λ c. c.id == row.id) (sent_now now) db.commands })
      execute (λ db. record db {
        executions =
            update (λ e. e.id == row.execution_id && is_created e.status)
              (λ e. record e { status = ExecutionStatus.command_sent }) db.executions;
      })
      pure (sent_now now row))
    else pure row

-- for row in rows
unfoldable pub send_rows : ℕ → List Command → Action (List Command)
send_rows now [] = pure []
send_rows now (row ∷ rows) = do
  sent ← send_row now row
  rest ← send_rows now rows
  pure (sent ∷ rest)

-- An item of the answer. Its constant type "EXECUTE_PROGRAM" is left out.
pub record CommandView : Type 0 where
  pub id : ℕ
  pub execution_id : ℕ
  pub status : CommandStatus
  pub payload : String
  pub created_at : ℕ
  pub sent_at : Option ℕ
  pub ack_deadline_at : ℕ
  pub result_deadline_at : Option ℕ

abbrev pub command_view : Command → CommandView
command_view c = record {
  id = c.id;
  execution_id = c.execution_id;
  status = c.status;
  payload = c.payload;
  created_at = c.created_at;
  sent_at = c.sent_at;
  ack_deadline_at = c.created_at + seconds 30;
  result_deadline_at = Option.map (λ t. t + seconds 120) c.acknowledged_at;
}

-- The rows that the query returns.
unfoldable pub waiting_rows : ℕ → ℕ → Db → List Command
waiting_rows device_id limit db =
    take limit (sort_by comes_before (select (awaits device_id) db.commands))

unfoldable pub pending_commands : ℕ → ℕ → ℕ → Action (List CommandView)
unfolding waiting_rows send_rows
pending_commands device_id limit now = do
  rows ← read (λ db. ok (waiting_rows device_id limit db))
  sent ← send_rows now rows
  commit
  pure (map command_view sent)
