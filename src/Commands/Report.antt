-- ===== src/Commands/Report.antt =====
-- `apply_command_result` of python/app/commands.py.
pub mod Effects
pub mod Replay
use python_vs_go_pos_benchma.Prelude.{
  ℕ, ◌+◌, Bool, true, false, not, ◌&&◌, ◌||◌, Option, none, some, String, Text, codes, List, [],
  ◌∷◌, ◌++◌, leb, ◌==◌, str_eq, is_none, find, insert, update, if◌then◌else◌,
}
use python_vs_go_pos_benchma.Schema.{Db, seconds}
use python_vs_go_pos_benchma.Schema.Ops.{
  Command, CommandStatus, CommandResult, Outcome, Execution, ExecutionStatus, Note,
}
use python_vs_go_pos_benchma.Errors.{Error, ok, failure, or_raise}
use python_vs_go_pos_benchma.Session.{
  Action, pure, raise, read, execute, require, commit, ◌>>=◌, ◌>>◌,
}
use python_vs_go_pos_benchma.Payments.Request.{csrf_secret}
use python_vs_go_pos_benchma.Commands.Acknowledge.{is_command, command_not_found}

-- CommandResultRequest of python/app/main.py.
pub record ResultRequest : Type 0 where
  pub result : String
  pub code : Option Text
  pub message : Option Text

-- `{"SUCCESS", "FAILED"}`
abbrev pub outcome_of : String → Option Outcome
outcome_of result =
    if str_eq result "SUCCESS"
    then some Outcome.success
    else if str_eq result "FAILED"
    then some Outcome.failed
    else none

abbrev pub outcome_text : Outcome → Text
outcome_text Outcome.success = codes "SUCCESS"
outcome_text Outcome.failed = codes "FAILED"

-- An optional text in an f-string.
abbrev pub text_of : Option Text → Text
text_of none = codes "None"
text_of (some t) = t

-- f"{result}:{code}:{message}"
abbrev pub raw_result : Outcome → Option Text → Option Text → Text
raw_result result code message =
    outcome_text result ++ (codes ":" ++ (text_of code ++ (codes ":" ++ text_of message)))

abbrev pub command_status : Outcome → CommandStatus
command_status Outcome.success = CommandStatus.success
command_status Outcome.failed = CommandStatus.failed

abbrev pub execution_status : Outcome → ExecutionStatus
execution_status Outcome.success = ExecutionStatus.success
execution_status Outcome.failed = ExecutionStatus.failed

-- The answer: the command's id, its status and its result code.
pub record ResultView : Type 0 where
  pub id : ℕ
  pub status : Outcome
  pub result_code : Option Text

abbrev pub invalid_result : Error
invalid_result = failure 422 "INVALID_COMMAND_RESULT" "Komut sonucu geçersiz."

abbrev pub result_conflict : Error
result_conflict = failure 409 "IDEMPOTENCY_CONFLICT" "Komut sonucu daha önce farklı işlendi."

abbrev pub not_running : Error
not_running = failure 409 "COMMAND_NOT_RUNNING" "Komut çalışır durumda değil."

abbrev pub result_expired : Error
result_expired = failure 409 "COMMAND_RESULT_EXPIRED" "Komut sonuç süresi doldu."

abbrev pub is_running : CommandStatus → Bool
is_running CommandStatus.acknowledged = true
is_running _ = false

-- `acknowledged_at and acknowledged_at <= now - 120 s`
abbrev pub is_overdue : ℕ → Option ℕ → Bool
is_overdue now none = false
is_overdue now (some at) = leb (at + seconds 120) now

abbrev pub completed_now : ℕ → Outcome → Option Text → Command → Command
completed_now now outcome code c = record c {
  status = command_status outcome;
  completed_at = some now;
  result_code = code;
}

abbrev pub finished_now : ℕ → Outcome → Execution → Execution
finished_now now outcome e = record e { status = execution_status outcome; completed_at = some now }

abbrev pub result_of : ℕ → CommandResult → Bool
result_of command_id r = r.command_id == command_id

-- `hmac` is hmac.new(key, text, sha256).hexdigest().
module _ (hmac : Text → Text → String) where
  unfoldable pub result_hash : Outcome → Option Text → Option Text → String
  result_hash result code message = hmac csrf_secret (raw_result result code message)

  abbrev pub result_row : ℕ → Outcome → ResultRequest → String → ℕ → CommandResult
  result_row command_id outcome request key now = record {
    command_id = command_id;
    result_key = key;
    request_hash = result_hash outcome request.code request.message;
    status = outcome;
    code = request.code;
    message = request.message;
    created_at = now;
  }

  -- The writes of a first result, and the commit. UNIQUE (command_id) guards the insert.
  unfoldable pub complete :
      ℕ → ℕ → Command → Outcome → ResultRequest → String → ℕ → Action ResultView
  complete device_id command_id command outcome request key now = do
    unique ← read (λ db. ok (is_none (find (result_of command_id) db.command_results)))
    require unique (Error.integrity_error "command_results")
    execute (λ db. record db {
      command_results = insert (result_row command_id outcome request key now) db.command_results;
    })
    execute (λ db. record db {
      commands =
          update (λ c. c.id == command_id) (completed_now now outcome request.code) db.commands;
    })
    execute (λ db. record db {
      executions =
          update (λ e. e.id == command.execution_id) (finished_now now outcome) db.executions;
    })
    execute (λ db. record db {
      events =
          insert
            (record {
              device_id = device_id;
              payment_id = none;
              event_type = "execution.completed";
              payload = Note.execution_event command_id outcome request.code;
              created_at = now;
            })
            db.events;
    })
    commit
    pure (record { id = command_id; status = outcome; result_code = request.code })

  -- A second report must repeat the first, key and content; the first must come in time.
  unfoldable pub settle_result :
      ℕ
      → ℕ
      → Command
      → Outcome
      → ResultRequest
      → String
      → ℕ
      → Option CommandResult
      → Action ResultView
  unfolding complete
  settle_result device_id command_id command outcome request key now (some existing) =
      if not (str_eq existing.result_key key)
        || not (str_eq existing.request_hash (result_hash outcome request.code request.message))
      then raise result_conflict
      else pure (record { id = command.id; status = existing.status; result_code = existing.code })
  settle_result device_id command_id command outcome request key now none =
      if not (is_running command.status)
      then raise not_running
      else if is_overdue now command.acknowledged_at
      then raise result_expired
      else complete device_id command_id command outcome request key now

  unfoldable pub apply_command_result : ℕ → ℕ → ResultRequest → String → ℕ → Action ResultView
  unfolding settle_result
  apply_command_result device_id command_id request key now = do
    outcome ← read (λ _. or_raise (outcome_of request.result) invalid_result)
    command ←
        read (λ db. or_raise (find (is_command device_id command_id) db.commands) command_not_found)
    existing ← read (λ db. ok (find (result_of command_id) db.command_results))
    settle_result device_id command_id command outcome request key now existing
