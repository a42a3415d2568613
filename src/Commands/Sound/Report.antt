-- ===== src/Commands/Sound/Report.antt =====
-- A report of a result keeps the invariant of commands.
use python_vs_go_pos_benchma.Prelude.{
  ℕ, ◌≤◌, ◌≡◌, refl, inl, inr, arith, Bool-cases, true, false, List, ◌==◌, Option, none, some,
  All-zip, All-update_cases, IsKey-update, only_row, find, find_holds, find-insert_hit,
  find-insert_miss, count, count-insert, count_zero_of_find, insert, String, Text,
}
use python_vs_go_pos_benchma.Schema.{Db}
use python_vs_go_pos_benchma.Schema.Ops.{Command, CommandStatus, CommandResult, Outcome}
use python_vs_go_pos_benchma.Errors.{Result}
use python_vs_go_pos_benchma.Session.{serve}
use python_vs_go_pos_benchma.Commands.Acknowledge.{is_acknowledged, is_command}
use python_vs_go_pos_benchma.Commands.Report.{
  ResultRequest, ResultView, apply_command_result, result_of, result_row, completed_now,
  command_status,
}
use python_vs_go_pos_benchma.Commands.Report.Effects.{
  Reported, refused, repeated, first, completed, apply_command_result-Reported,
}
use python_vs_go_pos_benchma.Commands.Sound.{CommandsSound, IsReported}
use python_vs_go_pos_benchma.Commands.Moves.{is_terminal}

-- The first result of a command.
module _ (row : CommandResult) (results : List CommandResult) (now : ℕ) (o : Outcome)
    (code : Option Text) (c : Command) (runs : c.status ≡ CommandStatus.acknowledged) where
  completed-IsReported :
      (x : Command)
      → (x.id == row.command_id) ≡ true
      → x ≡ c
      → IsReported results x
      → IsReported (insert row results) (completed_now now o code x)
  completed-IsReported x hit is_c h =
      let it : result_of x.id row ≡ true = ground arith in
      let (found, is_found) = find-insert_hit (result_of x.id) row results it in
      let acked : is_acknowledged x.status ≡ true = rw (is_c, runs) in
      record { reported = rw is_found (ended o); timed = λ _. h.timed acked }
    where
      ended : (o : Outcome) → is_terminal (command_status o) ≡ true
      ended Outcome.success = refl
      ended Outcome.failed = refl

  other-IsReported :
      (x : Command)
      → (x.id == row.command_id) ≡ false
      → IsReported results x
      → IsReported (insert row results) x
  other-IsReported x miss h =
      let not_it : result_of x.id row ≡ false = ground arith in
      record {
        reported = rw (find-insert_miss (result_of x.id) row results not_it) h.reported;
        timed = h.timed;
      }

  one_result-insert :
      (i : ℕ)
      → find (result_of row.command_id) results ≡ none
      → count (result_of i) results ≤ 1
      → count (result_of i) (insert row results) ≤ 1
  one_result-insert i new h = elim (Bool-cases (result_of i row)) [
    | inl hit ↦
        let is_i : row.command_id ≡ i = ground arith in
        let none_yet : count (result_of i) results ≡ 0 =
          count_zero_of_find (result_of i) results (rw is_i at new) in
        rw (count-insert, hit, none_yet) (omega arith)
    | inr miss ↦ rw (count-insert, miss) (omega (arith, h))
  ]

module _ (hmac : Text → Text → String) (device_id command_id : ℕ) (request : ResultRequest)
    (key : String) (now : ℕ) (db : Db) where
  first-Sound :
      (c : Command) (outcome : Outcome)
      → find (is_command device_id command_id) db.commands ≡ some c
      → find (result_of command_id) db.command_results ≡ none
      → c.status ≡ CommandStatus.acknowledged
      → CommandsSound db
      → CommandsSound (completed hmac device_id command_id request key now db c outcome)
  first-Sound c outcome found new runs h =
      let row = result_row hmac command_id outcome request key now in
      let its_id : (c.id == command_id) ≡ true =
        ground (arith, find_holds (is_command device_id command_id) db.commands c found) in
      record {
        ids =
            IsKey-update (λ x. x.id) (λ x. x.id == command_id)
              (completed_now now outcome request.code) db.commands (λ x. refl) h.ids;
        one_result = λ i.
            one_result-insert row db.command_results now outcome request.code c runs i new
              (h.one_result i);
        each =
            All-update_cases (λ x. x.id == command_id) (completed_now now outcome request.code)
              db.commands
              (λ x hit both.
                completed-IsReported row db.command_results now outcome request.code c runs x hit
                  (both.0 hit) both.1)
              (λ x miss both.
                other-IsReported row db.command_results now outcome request.code c runs x miss
                  both.1)
              (All-zip (λ x. (x.id == command_id) ≡ true → x ≡ c) (IsReported db.command_results)
                db.commands
                (only_row (is_command device_id command_id) (λ x. x.id == command_id) db.commands c
                  (h.ids command_id) found its_id)
                h.each);
      }

  sound_cases :
      (r : Result ResultView) (db' : Db)
      → CommandsSound db
      → Reported hmac device_id command_id request key now db r db'
      → CommandsSound db'
  sound_cases r db' h (refused _ _ same) = rw same h
  sound_cases r db' h (repeated _ _ _ _ _ _ _ _ _ same) = rw same h
  sound_cases r db' h (first c outcome found _ new runs _ _ same) =
      rw same (first-Sound c outcome found new runs h)

  -- If ids of commands are unique, a command has at most one result, and has one exactly when it is
  -- SUCCESS or FAILED, and has a time of acknowledgement when it is ACKNOWLEDGED or beyond, then all
  -- of this holds after a report of a result, whatever it ends in.
  pub apply_command_result-Sound :
      CommandsSound db
      → CommandsSound (serve (apply_command_result hmac device_id command_id request key now) db).1
  apply_command_result-Sound h =
      sound_cases (serve (apply_command_result hmac device_id command_id request key now) db).0
        (serve (apply_command_result hmac device_id command_id request key now) db).1 h
        (apply_command_result-Reported hmac device_id command_id request key now db)
