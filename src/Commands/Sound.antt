-- ===== src/Commands/Sound.antt =====
-- What db/checks/invariants.sql asks of commands, as an invariant of the three requests.
pub mod Report
use mathlib.Core.Path.{subst}
use python_vs_go_pos_benchma.Prelude.{
  ℕ, ◌+◌, ◌≤◌, ◌≡◌, refl, sym, ap, ◌∙◌, ◌⊎◌, inl, inr, arith, Bool, Bool-cases, true, false, List,
  ◌==◌, ==_iff, Option, none, some, is_some, All, All-map, IsKey, Pointwise, All-Pointwise,
  count-Pointwise, find, find-insert_hit, find-insert_miss, count, count-insert, count_zero_of_find,
  update, insert, String, Text, if◌then◌else◌,
}
use python_vs_go_pos_benchma.Schema.{Db}
use python_vs_go_pos_benchma.Schema.Ops.{Command, CommandStatus, CommandResult, Outcome, is_waiting}
use python_vs_go_pos_benchma.Errors.{Result}
use python_vs_go_pos_benchma.Session.{serve}
use python_vs_go_pos_benchma.Commands.Moves.{is_terminal}
use python_vs_go_pos_benchma.Commands.Pending.{
  CommandView, pending_commands, waiting_rows, sent_now,
}
use python_vs_go_pos_benchma.Commands.Pending.Sent.{
  Sends, pending_commands-Sends, pending_commands_lem,
}
use python_vs_go_pos_benchma.Commands.Acknowledge.{
  acknowledge_command, acknowledged_now, is_acknowledged,
}
use python_vs_go_pos_benchma.Commands.Acknowledge.Effects as Ack
use python_vs_go_pos_benchma.Commands.Report.{
  ResultRequest, ResultView, apply_command_result, result_of, result_row, completed_now,
  command_status,
}
use python_vs_go_pos_benchma.Commands.Report.Effects as Rep

-- A command has ended exactly when it has a result, and was acknowledged before.
pub record IsReported (results : List CommandResult) (c : Command) : Type 0 where
  pub reported : is_terminal c.status ≡ is_some (find (result_of c.id) results)
  pub timed : is_acknowledged c.status ≡ true → is_some c.acknowledged_at ≡ true

pub record CommandsSound (db : Db) : Type 0 where
  pub ids : IsKey (λ (c : Command). c.id) db.commands
  pub one_result : (i : ℕ) → count (result_of i) db.command_results ≤ 1
  pub each : All (IsReported db.command_results) db.commands

-- A change that keeps ids and respects the results.
keep_commands :
    (R : Command → Command → Type 0) (db db' : Db)
    → ((c c' : Command) → R c c' → c'.id ≡ c.id)
    → ((c c' : Command)
        → R c c'
        → IsReported db.command_results c
        → IsReported db'.command_results c')
    → ((i : ℕ) → count (result_of i) db'.command_results ≤ 1)
    → Pointwise R db.commands db'.commands
    → CommandsSound db
    → CommandsSound db'
keep_commands R db db' same_id keep one r h = record {
  ids = λ i.
      rw
        (count-Pointwise R (λ c. c.id == i) db.commands db'.commands (λ c c' x. rw (same_id c c' x))
          r)
        (h.ids i);
  one_result = one;
  each =
      All-Pointwise R (IsReported db.command_results) (IsReported db'.command_results) db.commands
        db'.commands keep r h.each;
}

waiting_not_terminal : (s : CommandStatus) → is_waiting s ≡ true → is_terminal s ≡ false
waiting_not_terminal s h = ground arith

still_going : (s : CommandStatus) → s ≡ CommandStatus.pending → is_terminal s ≡ false
still_going s h = ground arith

Sends-keep :
    (device_id : ℕ) (rows : List Command) (now : ℕ) (results : List CommandResult) (c c' : Command)
    → Sends device_id rows now c c'
    → IsReported results c
    → IsReported results c'
Sends-keep device_id rows now results c c' (inl (e, _)) h = rw e h
Sends-keep device_id rows now results c c' (inr (_, w, _, e)) h =
    rw e (record { reported = sym (still_going c.status w) ∙ h.reported; timed = λ x. cc })

Sends-id :
    (device_id : ℕ) (rows : List Command) (now : ℕ) (c c' : Command)
    → Sends device_id rows now c c'
    → c'.id ≡ c.id
Sends-id device_id rows now c c' (inl (e, _)) = rw e
Sends-id device_id rows now c c' (inr (_, _, _, e)) = rw e

pub results-pending :
    (device_id limit now : ℕ) (db : Db)
    → (serve (pending_commands device_id limit now) db).1.command_results ≡ db.command_results
results-pending device_id limit now db =
    ap (λ (r : Result (List CommandView) × Db). r.1.command_results)
      (pending_commands_lem device_id limit now db)

pub pending_commands-Sound :
    (device_id limit now : ℕ) (db : Db)
    → CommandsSound db
    → CommandsSound (serve (pending_commands device_id limit now) db).1
pending_commands-Sound device_id limit now db h =
    let same = results-pending device_id limit now db in
    let rows = waiting_rows device_id limit db in
    keep_commands (Sends device_id rows now) db (serve (pending_commands device_id limit now) db).1
      (Sends-id device_id rows now)
      (λ c c' x r.
        subst (λ rs. IsReported rs c') (sym same)
          (Sends-keep device_id rows now db.command_results c c' x r))
      (λ i. subst (λ rs. count (result_of i) rs ≤ 1) (sym same) (h.one_result i))
      ((pending_commands-Sends device_id limit now db h.ids).0) h

module _ (device_id command_id now : ℕ) (db : Db) where
  Acks-keep :
      (c c' : Command)
      → Ack.Acks device_id command_id now db c c'
      → IsReported db.command_results c
      → IsReported db.command_results c'
  Acks-keep c c' (inl e) h = rw e h
  Acks-keep c c' (inr (w, e)) h =
      rw e (record {
        reported = sym (waiting_not_terminal c.status w) ∙ h.reported;
        timed = λ x. refl;
      })

  Acks-id : (c c' : Command) → Ack.Acks device_id command_id now db c c' → c'.id ≡ c.id
  Acks-id c c' (inl e) = rw e
  Acks-id c c' (inr (w, e)) = rw e

  results-acknowledge :
      (r : Result (ℕ × CommandStatus)) (db' : Db)
      → Ack.Acknowledged device_id command_id now db r db'
      → db'.command_results ≡ db.command_results
  results-acknowledge r db' (Ack.refused _ _ same) = rw same
  results-acknowledge r db' (Ack.repeated _ _ _ _ same) = rw same
  results-acknowledge r db' (Ack.first _ _ _ _ _ same) = rw same

  pub acknowledge_command-Sound :
      CommandsSound db → CommandsSound (serve (acknowledge_command device_id command_id now) db).1
  acknowledge_command-Sound h =
      let db' = (serve (acknowledge_command device_id command_id now) db).1 in
      let same : db'.command_results ≡ db.command_results =
        results-acknowledge (serve (acknowledge_command device_id command_id now) db).0 db'
          (Ack.acknowledge_command-Acknowledged device_id command_id now db) in
      keep_commands (Ack.Acks device_id command_id now db) db db' Acks-id
        (λ c c' x r. subst (λ rs. IsReported rs c') (sym same) (Acks-keep c c' x r))
        (λ i. subst (λ rs. count (result_of i) rs ≤ 1) (sym same) (h.one_result i))
        (Ack.acknowledge_command-Acks device_id command_id now db h.ids) h
