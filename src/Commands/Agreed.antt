-- ===== src/Commands/Agreed.antt =====
-- A command that has ended and its execution say the same: the last but one check of
-- db/checks/invariants.sql, as an invariant of the three requests on commands.
pub mod Requests
use mathlib.Core.Path.{◌∙◌}
use python_vs_go_pos_benchma.Prelude.{
  ℕ, ◌≡◌, refl, sym, ap, inl, inr, arith, Bool, Bool-cases, true, false, List, [], ◌∷◌, ◌==◌,
  ==_iff, ==_refl, some, All, All-map, All-update, All-update_cases, All-zip, IsKey, only_row,
  Pointwise, All-Pointwise, count-Pointwise, find, find_holds, update, String, Text, ◌&&◌,
}
use python_vs_go_pos_benchma.Schema.{Db}
use python_vs_go_pos_benchma.Schema.Ops.{
  Command, CommandStatus, Execution, ExecutionStatus, Outcome, is_created,
}
use python_vs_go_pos_benchma.Errors.{Result}
use python_vs_go_pos_benchma.Session.{serve}
use python_vs_go_pos_benchma.Commands.Moves.{Steps}
use python_vs_go_pos_benchma.Commands.Pending.{
  CommandView, pending_commands, is_pending, waiting_rows,
}
use python_vs_go_pos_benchma.Commands.Pending.Sent.{
  Sends, pending_commands-Sends, pending_commands-Steps, pending_commands_lem,
}
use python_vs_go_pos_benchma.Commands.Pending.Loop.{sent_executions, started}
use python_vs_go_pos_benchma.Commands.Acknowledge.{
  is_command, acknowledge_command, acknowledged_now, running_now,
}
use python_vs_go_pos_benchma.Commands.Acknowledge.Effects as Ack
use python_vs_go_pos_benchma.Commands.Report.{
  ResultRequest, ResultView, apply_command_result, completed_now, finished_now, command_status,
  execution_status,
}
use python_vs_go_pos_benchma.Commands.Report.Effects as Rep
use python_vs_go_pos_benchma.Commands.Moves.{is_terminal}

-- The two columns hold the same word.
abbrev pub same_word : ExecutionStatus → CommandStatus → Bool
same_word ExecutionStatus.success CommandStatus.success = true
same_word ExecutionStatus.failed CommandStatus.failed = true
same_word _ _ = false

abbrev pub Agree : Command → Execution → Type 0
Agree c e =
    is_terminal c.status ≡ true
    → (e.id == c.execution_id) ≡ true
    → same_word e.status c.status ≡ true

abbrev pub AllAgree : List Execution → List Command → Type 0
AllAgree executions commands = All (λ c. All (Agree c) executions) commands

-- An execution is the work of one command at most, and says what that command says once it has ended.
pub record Agreed (db : Db) : Type 0 where
  pub ids : IsKey (λ (c : Command). c.id) db.commands
  pub one_command : IsKey (λ (c : Command). c.execution_id) db.commands
  pub agree : AllAgree db.executions db.commands

pub keep-Agreed :
    (db db' : Db)
    → Pointwise Steps db.commands db'.commands
    → AllAgree db'.executions db'.commands
    → Agreed db
    → Agreed db'
keep-Agreed db db' steps agree h = record {
  ids = λ i.
      rw
        (count-Pointwise Steps (λ c. c.id == i) db.commands db'.commands (λ c c' x. rw x.order.id)
          steps)
        (h.ids i);
  one_command = λ i.
      rw
        (count-Pointwise Steps (λ c. c.execution_id == i) db.commands db'.commands
          (λ c c' x. rw x.order.execution_id) steps)
        (h.one_command i);
  agree = agree;
}

-- One command and its execution change together.
pub Agree-update :
    (command_id x : ℕ) (f : Command → Command) (g : Execution → Execution) (commands : List Command)
    (executions : List Execution)
    → ((c : Command) → (f c).execution_id ≡ c.execution_id)
    → ((e : Execution) → (g e).id ≡ e.id)
    → ((c : Command) (e : Execution) → Agree (f c) (g e))
    → All (λ c. (c.id == command_id) ≡ (c.execution_id == x)) commands
    → AllAgree executions commands
    → AllAgree (update (λ e. e.id == x) g executions) (update (λ c. c.id == command_id) f commands)
Agree-update command_id x f g commands executions same_f same_g now only h =
    All-update_cases (λ c. c.id == command_id) f commands
      (λ c hit both.
        let its : c.execution_id ≡ x = (==_iff c.execution_id x).0 (sym both.0 ∙ hit) in
        All-update_cases (λ e. e.id == x) g executions (λ e met _. now c e)
          (λ e other _ ended found.
            let found' : (e.id == x) ≡ true = rw (same_f c, its) at found in absurd (cc))
          both.1)
      (λ c miss both.
        let not_its : (c.execution_id == x) ≡ false = sym both.0 ∙ miss in
        All-update (Agree c) (λ e. e.id == x) g executions
          (λ e met old ended found.
            let found' : (e.id == c.execution_id) ≡ true = rw (same_g e) at found in
            absurd (ground arith))
          both.1)
      (All-zip (λ c. (c.id == command_id) ≡ (c.execution_id == x)) (λ c. All (Agree c) executions)
        commands only h)

-- Where ids and executions are unique, one test finds the command that the other finds.
pub one_test :
    (p : Command → Bool) (command_id : ℕ) (commands : List Command) (c : Command)
    → IsKey (λ (c : Command). c.id) commands
    → IsKey (λ (c : Command). c.execution_id) commands
    → find p commands ≡ some c
    → (c.id == command_id) ≡ true
    → All (λ d. (d.id == command_id) ≡ (d.execution_id == c.execution_id)) commands
one_test p command_id commands c ids one found its_id =
    All-map commands
      (λ d only. elim (Bool-cases (d.id == command_id)) [
        | inl hit ↦ let is_c : d ≡ c = only.0 hit in rw (hit, is_c) (sym (==_refl c.execution_id))
        | inr miss ↦ elim (Bool-cases (d.execution_id == c.execution_id)) [
          | inl same ↦
              let is_c : d ≡ c = only.1 same in
              let its : (d.id == command_id) ≡ true = rw is_c its_id in cc
          | inr other ↦ rw (miss, other)
        ]
      ])
      (All-zip _ _ commands
        (only_row p (λ d. d.id == command_id) commands c (ids command_id) found its_id)
        (only_row p (λ d. d.execution_id == c.execution_id) commands c (one c.execution_id) found
          (==_refl c.execution_id)))
