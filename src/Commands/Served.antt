-- ===== src/Commands/Served.antt =====
-- A command from its first fetch to its end: a device that keeps the deadlines completes it.
use mathlib.Core.Path.{subst}
use python_vs_go_pos_benchma.Prelude.{
  ℕ, ◌+◌, ◌<◌, ◌≡◌, refl, sym, ap, ◌∙◌, inl, inr, arith, Bool, Bool-cases, Option-cases, true,
  false, ◌==◌, ==_iff, List, [], ◌∷◌, none, some, All, All-find, Pointwise, find, find_holds,
  find-update_hit, update, String, Text,
}
use python_vs_go_pos_benchma.Schema.{Db, seconds}
use python_vs_go_pos_benchma.Schema.Ops.{Command, CommandStatus, Execution, Outcome, is_waiting}
use python_vs_go_pos_benchma.Errors.{Result, ok}
use python_vs_go_pos_benchma.Session.{serve}
use python_vs_go_pos_benchma.Commands.Pending.{pending_commands, waiting_rows}
use python_vs_go_pos_benchma.Commands.Pending.Sent.{Sends, pending_commands-Sends}
use python_vs_go_pos_benchma.Commands.Acknowledge.{
  is_command, is_expired, acknowledge_command, acknowledge, acknowledged_now, running_now,
}
use python_vs_go_pos_benchma.Commands.Report.{
  ResultRequest, ResultView, apply_command_result, settle_result, result_of, outcome_of,
  completed_now, finished_now, command_status, execution_status, is_overdue,
}
use python_vs_go_pos_benchma.Commands.Report.Effects.{completed}
use python_vs_go_pos_benchma.Commands.Moves.{is_terminal}
use python_vs_go_pos_benchma.Commands.Sound.{CommandsSound, IsReported, results-pending}

module _ {A : Type 0} where
  -- The row of a query, in a table that changed row by row.
  find-Pointwise :
      (R : A → A → Type 0) (p : A → Bool) (xs ys : List A) (x : A)
      → ((x y : A) → R x y → p y ≡ p x)
      → Pointwise R xs ys
      → find p xs ≡ some x
      → (y : A) × (find p ys ≡ some y) × R x y
  find-Pointwise R p [] [] x same r h = cc
  find-Pointwise R p (a ∷ xs) (b ∷ ys) x same r h = elim (Bool-cases (p a)) [
    | inl hit ↦
        let is_x : a ≡ x = ground arith in (b, rw (same a b r.0, hit), subst (λ z. R z b) is_x r.0)
    | inr miss ↦
        let (y, found, related) = find-Pointwise R p xs ys x same r.1 (rw miss at h) in
        (y, rw (same a b r.0, miss) found, related)
  ]
  find-Pointwise R p [] (y ∷ ys) x same r h = elim r [ ]
  find-Pointwise R p (a ∷ xs) [] x same r h = elim r [ ]

module _ (device_id command_id : ℕ) where
  -- An acknowledgement in time.
  acknowledges :
      (now : ℕ) (db : Db) (c : Command)
      → find (is_command device_id command_id) db.commands ≡ some c
      → is_waiting c.status ≡ true
      → is_expired now c ≡ false
      → serve (acknowledge_command device_id command_id now) db ≡ (
        ok (c.id, CommandStatus.acknowledged),
        record db {
          commands = update (λ x. x.id == command_id) (acknowledged_now now) db.commands;
          executions = update (λ e. e.id == c.execution_id) (running_now now) db.executions;
        },
      )
  unfolding acknowledge_command acknowledge
  acknowledges now db c found waits timely = rw (found, waits, timely)

  -- A first report in time.
  reports :
      (hmac : Text → Text → String) (request : ResultRequest) (key : String) (now : ℕ) (db : Db)
      (c : Command) (o : Outcome)
      → outcome_of request.result ≡ some o
      → find (is_command device_id command_id) db.commands ≡ some c
      → find (result_of command_id) db.command_results ≡ none
      → c.status ≡ CommandStatus.acknowledged
      → is_overdue now c.acknowledged_at ≡ false
      → serve (apply_command_result hmac device_id command_id request key now) db ≡ (
        ok (record { id = command_id; status = o; result_code = request.code }),
        completed hmac device_id command_id request key now db c o,
      )
  unfolding apply_command_result settle_result
  reports hmac request key now db c o valid found new runs timely =
      rw (valid, found, new, runs, timely, new)

  no_result :
      (db : Db) (c : Command)
      → CommandsSound db
      → find (is_command device_id command_id) db.commands ≡ some c
      → is_waiting c.status ≡ true
      → find (result_of command_id) db.command_results ≡ none
  no_result db c sound found waits =
      let h =
        All-find (IsReported db.command_results) (is_command device_id command_id) db.commands c
          sound.each found in
      let its_id : c.id ≡ command_id =
        ground (arith, find_holds (is_command device_id command_id) db.commands c found) in
      let going : is_terminal c.status ≡ false = ground arith in
      elim (Option-cases (find (result_of command_id) db.command_results)) [
        | inl none_yet ↦ none_yet
        | inr (r, known) ↦
            let bad : is_terminal c.status ≡ true = h.reported ∙ rw (its_id, known) refl in cc
      ]

  -- The answer and the database after the report of a command with this execution.
  abbrev Completed : ResultRequest → Outcome → ℕ → Result ResultView × Db → Type 0
  Completed request o execution_id last =
      (last.0 ≡ ok (record { id = command_id; status = o; result_code = request.code }))
      × ((d : Command) × (find (is_command device_id command_id) last.1.commands ≡ some d)
          × (d.status ≡ command_status o))
      × All (λ e. (e.id == execution_id) ≡ true → e.status ≡ execution_status o) last.1.executions

  -- A command that is PENDING or SENT, fetched by its device at any instant and under any limit, then
  -- acknowledged within 30 seconds of its creation, then reported within 120 seconds of that with a
  -- valid result, is acknowledged and completed: both requests succeed, the command and each
  -- execution under its execution's id end with the reported outcome, if ids of commands are unique
  -- and exactly the ended commands have a result.
  pub command_served :
      (hmac : Text → Text → String) (request : ResultRequest) (key : String)
      (fetched limit acknowledged reported : ℕ) (db : Db) (c : Command) (o : Outcome)
      → CommandsSound db
      → find (is_command device_id command_id) db.commands ≡ some c
      → is_waiting c.status ≡ true
      → acknowledged < c.created_at + seconds 30
      → reported < acknowledged + seconds 120
      → outcome_of request.result ≡ some o
      → let first = (serve (pending_commands device_id limit fetched) db).1 in
        let second = serve (acknowledge_command device_id command_id acknowledged) first in
        let third =
          serve (apply_command_result hmac device_id command_id request key reported) second.1 in
        (second.0 ≡ ok (command_id, CommandStatus.acknowledged))
        × Completed request o c.execution_id third
  command_served hmac request key fetched limit acknowledged reported db c o sound found waits
        in_time on_time valid =
      let first = (serve (pending_commands device_id limit fetched) db).1 in
      let p = is_command device_id command_id in
      let rows = waiting_rows device_id limit db in
      let (c1, found1, sent) =
        find-Pointwise (Sends device_id rows fetched) p db.commands first.commands c
          (same_command rows) ((pending_commands-Sends device_id limit fetched db sound.ids).0)
          found in
      let waits1 : is_waiting c1.status ≡ true = still rows fetched c c1 waits sent in
      let (created1, execution1) = kept rows fetched c c1 sent in
      let timely : is_expired acknowledged c1 ≡ false = rw created1 (ground (arith, in_time)) in
      let ack = acknowledges acknowledged first c1 found1 waits1 timely in
      let its_id : (c1.id == command_id) ≡ true =
        ground (arith, find_holds p first.commands c1 found1) in
      let found2 =
        find-update_hit p (λ x. x.id == command_id) (acknowledged_now acknowledged) first.commands
          c1 (λ y. refl) found1 its_id in
      let new : find (result_of command_id) first.command_results ≡ none =
        rw (results-pending device_id limit fetched db) (no_result db c sound found waits) in
      let c2 = acknowledged_now acknowledged c1 in
      let second = (record first {
        commands = update (λ x. x.id == command_id) (acknowledged_now acknowledged) first.commands;
        executions =
            update (λ e. e.id == c1.execution_id) (running_now acknowledged) first.executions;
      }) in
      let rep =
        reports hmac request key reported second c2 o valid found2 new refl
          (ground (arith, on_time)) in
      let found3 =
        find-update_hit p (λ x. x.id == command_id) (completed_now reported o request.code)
          second.commands c2 (λ y. refl) found2 its_id in
      let id_is : c1.id ≡ command_id = (==_iff c1.id command_id).0 its_id in
      subst
        (λ (r : Result (ℕ × CommandStatus) × Db).
          (r.0 ≡ ok (command_id, CommandStatus.acknowledged))
          × Completed request o c.execution_id
              (serve (apply_command_result hmac device_id command_id request key reported) r.1))
        (sym ack)
        (
          ap (λ i. ok (i, CommandStatus.acknowledged)) id_is,
          subst
              (λ i. Completed request o i (
                serve (apply_command_result hmac device_id command_id request key reported) second))
              execution1
              (subst (Completed request o c1.execution_id) (sym rep) (
                refl,
                (completed_now reported o request.code c2, found3, refl),
                finished reported o c1.execution_id second.executions,
              )),
        )
    where
      same_command :
          (rows : List Command) (x y : Command)
          → Sends device_id rows fetched x y
          → is_command device_id command_id y ≡ is_command device_id command_id x
      same_command rows x y (inl (e, _)) = rw e
      same_command rows x y (inr (_, _, _, e)) = rw e

      still :
          (rows : List Command) (now : ℕ) (x y : Command)
          → is_waiting x.status ≡ true
          → Sends device_id rows now x y
          → is_waiting y.status ≡ true
      still rows now x y w (inl (e, _)) = rw e w
      still rows now x y w (inr (_, _, _, e)) = rw e refl

      kept :
          (rows : List Command) (now : ℕ) (x y : Command)
          → Sends device_id rows now x y
          → (y.created_at ≡ x.created_at) × (y.execution_id ≡ x.execution_id)
      kept rows now x y (inl (e, _)) = rw e (refl, refl)
      kept rows now x y (inr (_, _, _, e)) = rw e (refl, refl)

      finished :
          (now : ℕ) (o : Outcome) (i : ℕ) (executions : List Execution)
          → All
              (λ e. (e.id == i) ≡ true → e.status ≡ execution_status o)
              (update (λ e. e.id == i) (finished_now now o) executions)
      finished now o i [] = tt
      finished now o i (e ∷ es) = (
        elim (Bool-cases (e.id == i)) [
          | inl hit ↦ rw hit (λ _. refl)
          | inr miss ↦ rw miss (λ bad. cc)
        ],
        finished now o i es,
      )
