-- ===== src/Commands/Acknowledge/Effects.antt =====
-- How an acknowledgement may end, and what it does to the tables.
use python_vs_go_pos_benchma.Prelude.{
  ℕ, ◌≡◌, refl, ◌⊎◌, inl, inr, arith, Bool-cases, Option-cases, true, false, ◌==◌, some, All-map,
  IsKey, only_row, Pointwise, Pointwise-refl, Pointwise-update, Pointwise-map, find, find_holds,
  update,
}
use python_vs_go_pos_benchma.Schema.{Db}
use python_vs_go_pos_benchma.Schema.Ops.{Command, CommandStatus, is_waiting}
use python_vs_go_pos_benchma.Errors.{Error, Result, ok, err}
use python_vs_go_pos_benchma.Session.{Session, serve, begin, close}
use python_vs_go_pos_benchma.Commands.Moves.{Steps, Steps-refl, Move, is_terminal}
use python_vs_go_pos_benchma.Commands.Acknowledge.{
  is_command, is_acknowledged, is_expired, acknowledged_now, running_now, acknowledge,
  acknowledge_command, command_not_found, command_expired, not_acknowledgeable,
}

module _ (device_id command_id now : ℕ) (db : Db) where
  -- The four ways to end: an error, a repetition, or the first acknowledgement in time.
  pub data Acknowledged (r : Result (ℕ × CommandStatus)) (db' : Db) : Type 0 where
    refused : (e : Error) → r ≡ err e → db' ≡ db → Acknowledged r db'
    repeated :
        (c : Command)
        → find (is_command device_id command_id) db.commands ≡ some c
        → is_acknowledged c.status ≡ true
        → r ≡ ok (c.id, c.status)
        → db' ≡ db
        → Acknowledged r db'
    first :
        (c : Command)
        → find (is_command device_id command_id) db.commands ≡ some c
        → is_waiting c.status ≡ true
        → is_expired now c ≡ false
        → r ≡ ok (c.id, CommandStatus.acknowledged)
        → db' ≡ record db {
          commands = update (λ x. x.id == command_id) (acknowledged_now now) db.commands;
          executions = update (λ e. e.id == c.execution_id) (running_now now) db.executions;
        }
        → Acknowledged r db'

  abbrev ResultOf : Result (ℕ × CommandStatus) × Session → Type 0
  ResultOf r = Acknowledged r.0 (close r.1)

  acknowledge-Acknowledged :
      (c : Command)
      → find (is_command device_id command_id) db.commands ≡ some c
      → ResultOf (acknowledge now command_id c (begin db))
  unfolding acknowledge
  acknowledge-Acknowledged c found = elim (Bool-cases (is_waiting c.status)) [
    | inl waits ↦ elim (Bool-cases (is_expired now c)) [
      | inl late ↦ rw (waits, late) (refused command_expired refl refl)
      | inr timely ↦ rw (waits, timely) (first c found waits timely refl refl)
    ]
    | inr done ↦ elim (Bool-cases (is_acknowledged c.status)) [
      | inl known ↦ rw (done, known) (repeated c found known refl refl)
      | inr odd ↦ rw (done, odd) (refused not_acknowledgeable refl refl)
    ]
  ]

  pub acknowledge_command-Acknowledged :
      Acknowledged
        (serve (acknowledge_command device_id command_id now) db).0
        (serve (acknowledge_command device_id command_id now) db).1
  unfolding acknowledge_command
  acknowledge_command-Acknowledged =
      elim (Option-cases (find (is_command device_id command_id) db.commands)) [
        | inl missing ↦ rw missing (refused command_not_found refl refl)
        | inr (c, found) ↦ rw found (acknowledge-Acknowledged c found)
      ]

  -- What an acknowledgement may do to a command.
  abbrev pub Acks : Command → Command → Type 0
  Acks c c' = (c' ≡ c) ⊎ ((is_waiting c.status ≡ true) × (c' ≡ acknowledged_now now c))

  Acks-cases :
      (r : Result (ℕ × CommandStatus)) (db' : Db)
      → IsKey (λ (c : Command). c.id) db.commands
      → Acknowledged r db'
      → Pointwise Acks db.commands db'.commands
  Acks-cases r db' unique (refused _ _ same) =
      rw same (Pointwise-refl Acks db.commands (λ c. inl refl))
  Acks-cases r db' unique (repeated _ _ _ _ same) =
      rw same (Pointwise-refl Acks db.commands (λ c. inl refl))
  Acks-cases r db' unique (first c found waits _ _ same) =
      let its_id : (c.id == command_id) ≡ true =
        ground (arith, find_holds (is_command device_id command_id) db.commands c found) in
      rw same (
        Pointwise-update Acks (λ x. x.id == command_id) (acknowledged_now now) db.commands
          (λ x. inl refl)
          (All-map db.commands
            (λ x only hit. let is_c : x ≡ c = only hit in inr (rw is_c waits, refl))
            (only_row (is_command device_id command_id) (λ x. x.id == command_id) db.commands c
              (unique command_id) found its_id)))

  -- An acknowledgement, whatever it ends in, leaves each command as it is, or marks one that is
  -- PENDING or SENT as ACKNOWLEDGED at this instant and changes nothing else of it, if ids are unique.
  pub acknowledge_command-Acks :
      IsKey (λ (c : Command). c.id) db.commands
      → Pointwise Acks db.commands
          (serve (acknowledge_command device_id command_id now) db).1.commands
  acknowledge_command-Acks unique =
      Acks-cases (serve (acknowledge_command device_id command_id now) db).0
        (serve (acknowledge_command device_id command_id now) db).1 unique
        acknowledge_command-Acknowledged

  waiting_moves : (s : CommandStatus) → is_waiting s ≡ true → Move s CommandStatus.acknowledged
  waiting_moves CommandStatus.pending h = tt
  waiting_moves CommandStatus.sent h = tt
  waiting_moves _ h = cc

  waiting_goes_on : (s : CommandStatus) → is_waiting s ≡ true → is_terminal s ≡ true → ⊥
  waiting_goes_on s w h = ground arith

  Acks-Steps : (c c' : Command) → Acks c c' → Steps c c'
  Acks-Steps c c' (inl e) = rw e (Steps-refl c)
  Acks-Steps c c' (inr (w, e)) = rw e (record {
    order = record { id = refl; device_id = refl; execution_id = refl; created_at = refl };
    move = waiting_moves c.status w;
    ended = λ h. absurd (waiting_goes_on c.status w h);
  })

  -- … which is a step in the life of a command.
  pub acknowledge_command-Steps :
      IsKey (λ (c : Command). c.id) db.commands
      → Pointwise Steps db.commands
          (serve (acknowledge_command device_id command_id now) db).1.commands
  acknowledge_command-Steps unique =
      Pointwise-map Acks Steps db.commands
        (serve (acknowledge_command device_id command_id now) db).1.commands Acks-Steps
        (acknowledge_command-Acks unique)
