-- ===== src/Commands/Agreed/Requests.antt =====
-- The three requests on commands keep commands and their executions in agreement.
use python_vs_go_pos_benchma.Prelude.{
  ℕ, ◌≡◌, refl, ap, inl, inr, arith, Bool-cases, true, false, List, [], ◌∷◌, ◌==◌, some, All,
  All-map, All-update, All-Pointwise, find, find_holds, update, String, Text, ◌&&◌,
}
use python_vs_go_pos_benchma.Schema.{Db}
use python_vs_go_pos_benchma.Schema.Ops.{
  Command, CommandStatus, Execution, ExecutionStatus, Outcome, is_created,
}
use python_vs_go_pos_benchma.Errors.{Result}
use python_vs_go_pos_benchma.Session.{serve}
use python_vs_go_pos_benchma.Commands.Pending.{
  CommandView, pending_commands, is_pending, waiting_rows,
}
use python_vs_go_pos_benchma.Commands.Pending.Sent.{
  Sends, pending_commands-Sends, pending_commands-Steps, pending_commands_lem,
}
use python_vs_go_pos_benchma.Commands.Pending.Loop.{sent_executions, started}
use python_vs_go_pos_benchma.Commands.Acknowledge.{
  is_command, acknowledge_command, acknowledged_now, running_now,
}
use python_vs_go_pos_benchma.Commands.Acknowledge.Effects as Ack
use python_vs_go_pos_benchma.Commands.Report.{
  ResultRequest, ResultView, apply_command_result, completed_now, finished_now, command_status,
  execution_status,
}
use python_vs_go_pos_benchma.Commands.Report.Effects as Rep
use python_vs_go_pos_benchma.Commands.Agreed.{
  same_word, Agree, AllAgree, Agreed, keep-Agreed, Agree-update, one_test,
}

-- Fetching commands: only executions that are CREATED change.
Agree-sent_executions :
    (c : Command) (rows : List Command) (executions : List Execution)
    → All (Agree c) executions
    → All (Agree c) (sent_executions rows executions)
Agree-sent_executions c [] executions h = h
Agree-sent_executions c (row ∷ rows) executions h = elim (Bool-cases (is_pending row.status)) [
  | inl e ↦ rw e (
      Agree-sent_executions c rows
        (update (λ e. e.id == row.execution_id && is_created e.status) started executions)
        (All-update (Agree c) (λ e. e.id == row.execution_id && is_created e.status) started
          executions
          (λ e met old ended its. absurd (not_yet row.execution_id c e met (old ended its))) h))
  | inr e ↦ rw e (Agree-sent_executions c rows executions h)
]
  where
    created_apart :
        (e : ExecutionStatus) (s : CommandStatus) → is_created e ≡ true → same_word e s ≡ false
    created_apart ExecutionStatus.created s h = refl
    created_apart _ s h = cc

    not_yet :
        (i : ℕ) (c : Command) (e : Execution)
        → (e.id == i && is_created e.status) ≡ true
        → same_word e.status c.status ≡ true
        → ⊥
    not_yet i c e met same =
        let is_new : is_created e.status ≡ true = ground arith in
        let apart = created_apart e.status c.status is_new in cc

Sends-Agree :
    (device_id : ℕ) (rows : List Command) (now : ℕ) (executions : List Execution) (c c' : Command)
    → Sends device_id rows now c c'
    → All (Agree c) executions
    → All (Agree c') executions
Sends-Agree device_id rows now executions c c' (inl (e, _)) h = rw e h
Sends-Agree device_id rows now executions c c' (inr (_, _, _, e)) h =
    rw e (All-map executions (λ x _ ended. cc) h)

pub pending_commands-Agreed :
    (device_id limit now : ℕ) (db : Db)
    → Agreed db
    → Agreed (serve (pending_commands device_id limit now) db).1
pending_commands-Agreed device_id limit now db h =
    let db' = (serve (pending_commands device_id limit now) db).1 in
    let rows = waiting_rows device_id limit db in
    let same : db'.executions ≡ sent_executions rows db.executions =
      ap (λ (r : Result (List CommandView) × Db). r.1.executions)
        (pending_commands_lem device_id limit now db) in
    keep-Agreed db db' (pending_commands-Steps device_id limit now db h.ids)
      (rw same (
        All-Pointwise (Sends device_id rows now)
          (λ c. All (Agree c) (sent_executions rows db.executions))
          (λ c. All (Agree c) (sent_executions rows db.executions)) db.commands db'.commands
          (Sends-Agree device_id rows now (sent_executions rows db.executions))
          ((pending_commands-Sends device_id limit now db h.ids).0)
          (All-map db.commands (λ c. Agree-sent_executions c rows db.executions) h.agree)))
      h

module _ (device_id command_id now : ℕ) (db : Db) where
  found_id :
      (c : Command)
      → find (is_command device_id command_id) db.commands ≡ some c
      → (c.id == command_id) ≡ true
  found_id c found =
      ground (arith, find_holds (is_command device_id command_id) db.commands c found)

  acknowledged-AllAgree :
      (r : Result (ℕ × CommandStatus)) (db' : Db)
      → Ack.Acknowledged device_id command_id now db r db'
      → Agreed db
      → AllAgree db'.executions db'.commands
  acknowledged-AllAgree r db' (Ack.refused _ _ same) h = rw same h.agree
  acknowledged-AllAgree r db' (Ack.repeated _ _ _ _ same) h = rw same h.agree
  acknowledged-AllAgree r db' (Ack.first c found _ _ _ same) h = rw same (
      Agree-update command_id c.execution_id (acknowledged_now now) (running_now now) db.commands
        db.executions (λ c. refl) (λ e. refl) (λ c e ended. cc)
        (one_test (is_command device_id command_id) command_id db.commands c h.ids h.one_command
          found (found_id c found))
        h.agree)

  pub acknowledge_command-Agreed :
      Agreed db → Agreed (serve (acknowledge_command device_id command_id now) db).1
  acknowledge_command-Agreed h =
      keep-Agreed db (serve (acknowledge_command device_id command_id now) db).1
        (Ack.acknowledge_command-Steps device_id command_id now db h.ids)
        (acknowledged-AllAgree (serve (acknowledge_command device_id command_id now) db).0
          (serve (acknowledge_command device_id command_id now) db).1
          (Ack.acknowledge_command-Acknowledged device_id command_id now db) h)
        h

module _ (hmac : Text → Text → String) (device_id command_id : ℕ) (request : ResultRequest)
    (key : String) (now : ℕ) (db : Db) where
  outcomes_agree : (o : Outcome) → same_word (execution_status o) (command_status o) ≡ true
  outcomes_agree Outcome.success = refl
  outcomes_agree Outcome.failed = refl

  reported-AllAgree :
      (r : Result ResultView) (db' : Db)
      → Rep.Reported hmac device_id command_id request key now db r db'
      → Agreed db
      → AllAgree db'.executions db'.commands
  reported-AllAgree r db' (Rep.refused _ _ same) h = rw same h.agree
  reported-AllAgree r db' (Rep.repeated _ _ _ _ _ _ _ _ _ same) h = rw same h.agree
  reported-AllAgree r db' (Rep.first c o found _ _ _ _ _ same) h = rw same (
      Agree-update command_id c.execution_id (completed_now now o request.code) (finished_now now o)
        db.commands db.executions (λ c. refl) (λ e. refl) (λ c e _ _. outcomes_agree o)
        (one_test (is_command device_id command_id) command_id db.commands c h.ids h.one_command
          found (found_id device_id command_id now db c found))
        h.agree)

  -- If ids of commands are unique, no two commands have one execution, and each ended command agrees
  -- with its execution, then this holds after any report of a result.
  pub apply_command_result-Agreed :
      Agreed db
      → Agreed (serve (apply_command_result hmac device_id command_id request key now) db).1
  apply_command_result-Agreed h =
      keep-Agreed db (serve (apply_command_result hmac device_id command_id request key now) db).1
        (Rep.apply_command_result-Steps hmac device_id command_id request key now db h.ids)
        (reported-AllAgree
          (serve (apply_command_result hmac device_id command_id request key now) db).0
          (serve (apply_command_result hmac device_id command_id request key now) db).1
          (Rep.apply_command_result-Reported hmac device_id command_id request key now db) h)
        h
