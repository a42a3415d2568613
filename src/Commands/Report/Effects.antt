-- ===== src/Commands/Report/Effects.antt =====
-- How a report of a result may end, and what it does to the tables.
use python_vs_go_pos_benchma.Prelude.{
  ℕ, ◌+◌, ◌<◌, ◌≡◌, refl, ◌⊎◌, inl, inr, arith, Bool-cases, Option-cases, true, false, ◌==◌, Option,
  none, some, All-map, IsKey, only_row, Pointwise, Pointwise-refl, Pointwise-update, Pointwise-map,
  ==_iff, find, find_holds, update, insert, str_eq, eq_iff, String, Text,
}
use python_vs_go_pos_benchma.Schema.{Db, seconds}
use python_vs_go_pos_benchma.Schema.Ops.{Command, CommandStatus, CommandResult, Outcome, Note}
use python_vs_go_pos_benchma.Errors.{Error, Result, ok, err}
use python_vs_go_pos_benchma.Session.{Session, serve, begin, close}
use python_vs_go_pos_benchma.Commands.Moves.{SameOrder, Steps, Steps-refl, Move, is_terminal}
use python_vs_go_pos_benchma.Commands.Acknowledge.{is_command, command_not_found}
use python_vs_go_pos_benchma.Commands.Report.{
  ResultRequest, ResultView, outcome_of, result_of, result_hash, result_row, completed_now,
  finished_now, command_status, is_running, is_overdue, settle_result, apply_command_result,
  result_conflict, not_running, result_expired, invalid_result,
}

module _ (hmac : Text → Text → String) (device_id command_id : ℕ) (request : ResultRequest)
    (key : String) (now : ℕ) (db : Db) where
  -- The tables after a first result.
  abbrev pub completed : Command → Outcome → Db
  completed c outcome = record db {
    command_results =
        insert (result_row hmac command_id outcome request key now) db.command_results;
    commands =
        update (λ x. x.id == command_id) (completed_now now outcome request.code) db.commands;
    executions = update (λ e. e.id == c.execution_id) (finished_now now outcome) db.executions;
    events =
        insert
          (record {
            device_id = device_id;
            payment_id = none;
            event_type = "execution.completed";
            payload = Note.execution_event command_id outcome request.code;
            created_at = now;
          })
          db.events;
  }

  -- An error, a repetition of the first report, or the first report in time.
  pub data Reported (r : Result ResultView) (db' : Db) : Type 0 where
    refused : (e : Error) → r ≡ err e → db' ≡ db → Reported r db'
    repeated :
        (c : Command) (outcome : Outcome) (x : CommandResult)
        → find (is_command device_id command_id) db.commands ≡ some c
        → outcome_of request.result ≡ some outcome
        → find (result_of command_id) db.command_results ≡ some x
        → x.result_key ≡ key
        → x.request_hash ≡ result_hash hmac outcome request.code request.message
        → r ≡ ok (record { id = c.id; status = x.status; result_code = x.code })
        → db' ≡ db
        → Reported r db'
    first :
        (c : Command) (outcome : Outcome)
        → find (is_command device_id command_id) db.commands ≡ some c
        → outcome_of request.result ≡ some outcome
        → find (result_of command_id) db.command_results ≡ none
        → c.status ≡ CommandStatus.acknowledged
        → is_overdue now c.acknowledged_at ≡ false
        → r ≡ ok (record { id = command_id; status = outcome; result_code = request.code })
        → db' ≡ completed c outcome
        → Reported r db'

  abbrev ResultOf : Result ResultView × Session → Type 0
  ResultOf r = Reported r.0 (close r.1)

  running : (s : CommandStatus) → is_running s ≡ true → s ≡ CommandStatus.acknowledged
  running s h = ground arith

  settle_result-Reported :
      (c : Command) (outcome : Outcome) (o : Option CommandResult)
      → find (is_command device_id command_id) db.commands ≡ some c
      → outcome_of request.result ≡ some outcome
      → find (result_of command_id) db.command_results ≡ o
      → ResultOf (settle_result hmac device_id command_id c outcome request key now o (begin db))
  unfolding settle_result
  settle_result-Reported c outcome none found valid new = elim (Bool-cases (is_running c.status)) [
    | inl runs ↦ elim (Bool-cases (is_overdue now c.acknowledged_at)) [
      | inl late ↦ rw (runs, late) (refused result_expired refl refl)
      | inr timely ↦
          rw (runs, timely, new)
            (first c outcome found valid new (running c.status runs) timely refl refl)
    ]
    | inr idle ↦ rw idle (refused not_running refl refl)
  ]
  settle_result-Reported c outcome (some x) found valid known =
      elim (Bool-cases (str_eq x.result_key key)) [
        | inl same_key ↦
            elim (Bool-cases
              (str_eq x.request_hash (result_hash hmac outcome request.code request.message))) [
                | inl same_hash ↦
                    rw (same_key, same_hash)
                      (repeated c outcome x found valid known ((eq_iff x.result_key key).0 same_key)
                        ((eq_iff x.request_hash
                            (result_hash hmac outcome request.code request.message)).0
                          same_hash)
                        refl refl)
                | inr other ↦ rw (same_key, other) (refused result_conflict refl refl)
              ]
        | inr other ↦ rw other (refused result_conflict refl refl)
      ]

  pub apply_command_result-Reported :
      Reported
        (serve (apply_command_result hmac device_id command_id request key now) db).0
        (serve (apply_command_result hmac device_id command_id request key now) db).1
  unfolding apply_command_result
  apply_command_result-Reported = elim (Option-cases (outcome_of request.result)) [
    | inl invalid ↦ rw invalid (refused invalid_result refl refl)
    | inr (outcome, valid) ↦
        elim (Option-cases (find (is_command device_id command_id) db.commands)) [
          | inl missing ↦ rw (valid, missing) (refused command_not_found refl refl)
          | inr (c, found) ↦
              rw (valid, found)
                (settle_result-Reported c outcome (find (result_of command_id) db.command_results)
                  found valid refl)
        ]
  ]

  -- The status that the text of a report asks for.
  abbrev pub Asks : String → CommandStatus → Type 0
  Asks text CommandStatus.success = text ≡ "SUCCESS"
  Asks text CommandStatus.failed = text ≡ "FAILED"
  Asks text _ = ⊥

  -- What a report may do to a command: the first result of the command that it names completes it.
  pub record Ends (c c' : Command) : Type 0 where
    pub named : c.id ≡ command_id
    pub of_device : c.device_id ≡ device_id
    pub runs : c.status ≡ CommandStatus.acknowledged
    pub in_time : (at : ℕ) → c.acknowledged_at ≡ some at → now < at + seconds 120
    pub asks : Asks request.result c'.status
    pub rest :
        c' ≡ record c { status = c'.status; completed_at = some now; result_code = request.code }

  abbrev pub Completes : Command → Command → Type 0
  Completes c c' = (c' ≡ c) ⊎ Ends c c'

  outcome_asks :
      (o : Outcome) → outcome_of request.result ≡ some o → Asks request.result (command_status o)
  outcome_asks o valid =
      ground (arith, valid, eq_iff request.result "SUCCESS", eq_iff request.result "FAILED")

  timely :
      (o : Option ℕ) → is_overdue now o ≡ false → (at : ℕ) → o ≡ some at → now < at + seconds 120
  timely o h at e = ground (arith, h, e)

  first-Ends :
      (c : Command) (outcome : Outcome)
      → find (is_command device_id command_id) db.commands ≡ some c
      → outcome_of request.result ≡ some outcome
      → c.status ≡ CommandStatus.acknowledged
      → is_overdue now c.acknowledged_at ≡ false
      → Ends c (completed_now now outcome request.code c)
  first-Ends c outcome found valid runs in_time =
      let its = find_holds (is_command device_id command_id) db.commands c found in
      record {
        named = ground (arith, its);
        of_device = ground (arith, its);
        runs = runs;
        in_time = timely c.acknowledged_at in_time;
        asks = outcome_asks outcome valid;
        rest = refl;
      }

  Completes-cases :
      (r : Result ResultView) (db' : Db)
      → IsKey (λ (c : Command). c.id) db.commands
      → Reported r db'
      → Pointwise Completes db.commands db'.commands
  Completes-cases r db' unique (refused _ _ same) =
      rw same (Pointwise-refl Completes db.commands (λ c. inl refl))
  Completes-cases r db' unique (repeated _ _ _ _ _ _ _ _ _ same) =
      rw same (Pointwise-refl Completes db.commands (λ c. inl refl))
  Completes-cases r db' unique (first c outcome found valid _ runs in_time _ same) =
      let ends = first-Ends c outcome found valid runs in_time in
      rw same (
        Pointwise-update Completes (λ x. x.id == command_id)
          (completed_now now outcome request.code) db.commands (λ x. inl refl)
          (All-map db.commands (λ x only hit. let is_c : x ≡ c = only hit in inr (rw is_c ends))
            (only_row (is_command device_id command_id) (λ x. x.id == command_id) db.commands c
              (unique command_id) found ((==_iff c.id command_id).1 ends.named))))

  -- A report, whatever it ends in, leaves each command as it is, or completes the one that it names:
  -- a command of the device that was ACKNOWLEDGED, less than 120 seconds before if that is known. It
  -- takes the status that the report asks for, SUCCESS or FAILED, with this instant and the code of
  -- the report, and nothing else of it changes, if ids are unique.
  pub apply_command_result-Completes :
      IsKey (λ (c : Command). c.id) db.commands
      → Pointwise Completes db.commands
          (serve (apply_command_result hmac device_id command_id request key now) db).1.commands
  apply_command_result-Completes unique =
      Completes-cases (serve (apply_command_result hmac device_id command_id request key now) db).0
        (serve (apply_command_result hmac device_id command_id request key now) db).1 unique
        apply_command_result-Reported

  asked_moves :
      (s t : CommandStatus) → s ≡ CommandStatus.acknowledged → Asks request.result t → Move s t
  asked_moves s CommandStatus.success e h = rw e tt
  asked_moves s CommandStatus.failed e h = rw e tt
  asked_moves s CommandStatus.pending e h = absurd h
  asked_moves s CommandStatus.sent e h = absurd h
  asked_moves s CommandStatus.acknowledged e h = absurd h

  goes_on : (s : CommandStatus) → s ≡ CommandStatus.acknowledged → is_terminal s ≡ true → ⊥
  goes_on s e h = ground arith

  Ends-order : (c c' : Command) → Ends c c' → SameOrder c c'
  Ends-order c c' h =
      rw h.rest (record { id = refl; device_id = refl; execution_id = refl; created_at = refl })

  Completes-Steps : (c c' : Command) → Completes c c' → Steps c c'
  Completes-Steps c c' (inl e) = rw e (Steps-refl c)
  Completes-Steps c c' (inr h) = record {
    order = Ends-order c c' h;
    move = asked_moves c.status c'.status h.runs h.asks;
    ended = λ e. absurd (goes_on c.status h.runs e);
  }

  -- … which is a step in the life of a command.
  pub apply_command_result-Steps :
      IsKey (λ (c : Command). c.id) db.commands
      → Pointwise Steps db.commands
          (serve (apply_command_result hmac device_id command_id request key now) db).1.commands
  apply_command_result-Steps unique =
      Pointwise-map Completes Steps db.commands
        (serve (apply_command_result hmac device_id command_id request key now) db).1.commands
        Completes-Steps (apply_command_result-Completes unique)
