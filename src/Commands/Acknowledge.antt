-- ===== src/Commands/Acknowledge.antt =====
-- `acknowledge_command` of python/app/commands.py.
pub mod Effects
use python_vs_go_pos_benchma.Prelude.{
  ℕ, ◌+◌, Bool, true, false, ◌&&◌, some, leb, ◌==◌, find, update, if◌then◌else◌,
}
use python_vs_go_pos_benchma.Schema.{seconds}
use python_vs_go_pos_benchma.Schema.Ops.{
  Command, CommandStatus, is_waiting, Execution, ExecutionStatus,
}
use python_vs_go_pos_benchma.Errors.{Error, failure, or_raise}
use python_vs_go_pos_benchma.Session.{Action, pure, raise, read, execute, commit, ◌>>=◌, ◌>>◌}

abbrev pub command_not_found : Error
command_not_found = failure 404 "COMMAND_NOT_FOUND" "Komut bulunamadı."

abbrev pub command_expired : Error
command_expired = failure 409 "COMMAND_EXPIRED" "Komut onay süresi doldu."

abbrev pub not_acknowledgeable : Error
not_acknowledgeable = failure 409 "COMMAND_NOT_ACKNOWLEDGEABLE" "Komut onaylanamaz."

-- WHERE id=:command_id AND device_id=:device_id
abbrev pub is_command : ℕ → ℕ → Command → Bool
is_command device_id command_id c = c.id == command_id && c.device_id == device_id

-- `status in {"ACKNOWLEDGED", "SUCCESS", "FAILED"}`
abbrev pub is_acknowledged : CommandStatus → Bool
is_acknowledged CommandStatus.acknowledged = true
is_acknowledged CommandStatus.success = true
is_acknowledged CommandStatus.failed = true
is_acknowledged _ = false

-- `created_at <= now - 30 s`, without a subtraction
abbrev pub is_expired : ℕ → Command → Bool
is_expired now c = leb (c.created_at + seconds 30) now

abbrev pub acknowledged_now : ℕ → Command → Command
acknowledged_now now c = record c {
  status = CommandStatus.acknowledged;
  acknowledged_at = some now;
}

abbrev pub running_now : ℕ → Execution → Execution
running_now now e = record e { status = ExecutionStatus.running; started_at = some now }

unfoldable pub acknowledge : ℕ → ℕ → Command → Action (ℕ × CommandStatus)
acknowledge now command_id command =
    if is_waiting command.status && is_expired now command
    then raise command_expired
    else if is_waiting command.status
    then (do
      execute (λ db. record db {
        commands = update (λ c. c.id == command_id) (acknowledged_now now) db.commands;
      })
      execute (λ db. record db {
        executions = update (λ e. e.id == command.execution_id) (running_now now) db.executions;
      })
      commit
      pure (command.id, CommandStatus.acknowledged))
    else if is_acknowledged command.status
    then pure (command.id, command.status)
    else raise not_acknowledgeable

unfoldable pub acknowledge_command : ℕ → ℕ → ℕ → Action (ℕ × CommandStatus)
unfolding acknowledge
acknowledge_command device_id command_id now = do
  command ←
      read (λ db. or_raise (find (is_command device_id command_id) db.commands) command_not_found)
  acknowledge now command_id command
