-- ===== src/Commands/Pending/Loop.antt =====
-- The loop of `pending_commands` over the rows of its query, as one update of each table.
use python_vs_go_pos_benchma.Prelude.{
  ℕ, ◌≡◌, refl, ap, Bool, false, is_some, find, ◌∙◌, inl, inr, arith, Bool-cases, true, ◌&&◌, List,
  [], ◌∷◌, map, ◌==◌, update, if◌then◌else◌,
}
use python_vs_go_pos_benchma.Schema.Ops.{Command, Execution, ExecutionStatus, is_created}
use python_vs_go_pos_benchma.Errors.{ok}
use python_vs_go_pos_benchma.Session.{Session}
use python_vs_go_pos_benchma.Commands.Pending.{sent_now, is_pending, send_rows}

-- The row in the answer.
abbrev pub marked : ℕ → Command → Command
marked now row = if is_pending row.status then sent_now now row else row

-- The tables after the loop.
abbrev pub sent_commands : ℕ → List Command → List Command → List Command
sent_commands now [] commands = commands
sent_commands now (row ∷ rows) commands = sent_commands now rows (
    if is_pending row.status
    then update (λ c. c.id == row.id) (sent_now now) commands
    else commands)

abbrev pub started : Execution → Execution
started e = record e { status = ExecutionStatus.command_sent }

abbrev pub sent_executions : List Command → List Execution → List Execution
sent_executions [] executions = executions
sent_executions (row ∷ rows) executions = sent_executions rows (
    if is_pending row.status
    then update (λ e. e.id == row.execution_id && is_created e.status) started executions
    else executions)

pub send_rows_lem :
    (now : ℕ) (rows : List Command) (s : Session)
    → send_rows now rows s ≡ (
      ok (map (marked now) rows),
      record s {
        current = record s.current {
          commands = sent_commands now rows s.current.commands;
          executions = sent_executions rows s.current.executions;
        };
      },
    )
unfolding send_rows
send_rows_lem now [] s = refl
send_rows_lem now (row ∷ rows) s = elim (Bool-cases (is_pending row.status)) [
  | inl e ↦ rw (e, send_rows_lem now rows)
  | inr e ↦ rw (e, send_rows_lem now rows)
]

-- The loop row by row: each pending row of the query sends the commands under its id.
abbrev pub sends_it : Command → Command → Bool
sends_it c r = is_pending r.status && r.id == c.id

abbrev pub sent_by : ℕ → List Command → Command → Command
sent_by now rows c = if is_some (find (sends_it c) rows) then sent_now now c else c

sent_by_pending :
    (now : ℕ) (row : Command) (rows cs : List Command)
    → is_pending row.status ≡ true
    → map (sent_by now rows) (update (λ c. c.id == row.id) (sent_now now) cs)
      ≡ map (sent_by now (row ∷ rows)) cs
sent_by_pending now row rows [] e = refl
sent_by_pending now row rows (c ∷ cs) e = elim (Bool-cases (c.id == row.id)) [
  | inl hit ↦
      let hit' : (row.id == c.id) ≡ true = ground (arith, hit) in
      elim (Bool-cases (is_some (find (sends_it c) rows))) [
        | inl again ↦ rw (hit, hit', e, again, sent_by_pending now row rows cs e)
        | inr once ↦ rw (hit, hit', e, once, sent_by_pending now row rows cs e)
      ]
  | inr miss ↦
      let miss' : (row.id == c.id) ≡ false = ground (arith, miss) in
      rw (miss, miss', e, sent_by_pending now row rows cs e)
]

sent_by_other :
    (now : ℕ) (row : Command) (rows cs : List Command)
    → is_pending row.status ≡ false
    → map (sent_by now rows) cs ≡ map (sent_by now (row ∷ rows)) cs
sent_by_other now row rows [] e = refl
sent_by_other now row rows (c ∷ cs) e = rw (e, sent_by_other now row rows cs e)

sent_by_none : (now : ℕ) (cs : List Command) → cs ≡ map (sent_by now []) cs
sent_by_none now [] = refl
sent_by_none now (c ∷ cs) = ap (λ ds. c ∷ ds) (sent_by_none now cs)

pub sent_commands_lem :
    (now : ℕ) (rows cs : List Command) → sent_commands now rows cs ≡ map (sent_by now rows) cs
sent_commands_lem now [] cs = sent_by_none now cs
sent_commands_lem now (row ∷ rows) cs = elim (Bool-cases (is_pending row.status)) [
  | inl e ↦ rw e (
      sent_commands_lem now rows (update (λ c. c.id == row.id) (sent_now now) cs)
      ∙ sent_by_pending now row rows cs e)
  | inr e ↦ rw e (sent_commands_lem now rows cs ∙ sent_by_other now row rows cs e)
]
