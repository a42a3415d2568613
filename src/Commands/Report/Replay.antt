-- ===== src/Commands/Report/Replay.antt =====
-- A report of a result is safe to repeat under its idempotency key.
use python_vs_go_pos_benchma.Prelude.{
  ℕ, ◌≡◌, ◌≢◌, refl, sym, ◌∙◌, inl, inr, arith, Bool-cases, ◌==◌, ==_refl, none, some, find,
  find_holds, find-insert-none, find-update, update, String, str_eq, eq_iff, eq_refl, Text, codes,
}
use python_vs_go_pos_benchma.Schema.{Db}
use python_vs_go_pos_benchma.Schema.Ops.{Command, CommandResult, Outcome}
use python_vs_go_pos_benchma.Errors.{Result, ok, err}
use python_vs_go_pos_benchma.Session.{serve}
use python_vs_go_pos_benchma.Commands.Acknowledge.{is_command}
use python_vs_go_pos_benchma.Commands.Report.{
  ResultRequest, ResultView, outcome_of, apply_command_result, result_of, result_row, completed_now,
  result_hash, result_conflict,
}
use python_vs_go_pos_benchma.Commands.Report.Effects.{
  Reported, refused, repeated, first, apply_command_result-Reported,
}

module _ (hmac : Text → Text → String) (device_id command_id : ℕ) where
  its_id :
      (db : Db) (c : Command)
      → find (is_command device_id command_id) db.commands ≡ some c
      → c.id ≡ command_id
  its_id db c found =
      ground (arith, find_holds (is_command device_id command_id) db.commands c found)

  -- A report on a command that has a result.
  module _ (request : ResultRequest) (key : String) (now : ℕ) (db : Db) (c : Command) (o : Outcome)
      (x : CommandResult) (found : find (is_command device_id command_id) db.commands ≡ some c)
      (valid : outcome_of request.result ≡ some o)
      (known : find (result_of command_id) db.command_results ≡ some x)
      (same_key : x.result_key ≡ key) where
    repeat_same :
        x.request_hash ≡ result_hash hmac o request.code request.message
        → serve (apply_command_result hmac device_id command_id request key now) db
          ≡ (ok (record { id = c.id; status = x.status; result_code = x.code }), db)
    unfolding apply_command_result
    repeat_same same_hash = rw (
      valid,
      found,
      known,
      same_key,
      same_hash,
      eq_refl key,
      eq_refl (result_hash hmac o request.code request.message),
    )

    repeat_other :
        x.request_hash ≢ result_hash hmac o request.code request.message
        → serve (apply_command_result hmac device_id command_id request key now) db
          ≡ (err result_conflict, db)
    unfolding apply_command_result
    repeat_other other =
        elim (Bool-cases
          (str_eq x.request_hash (result_hash hmac o request.code request.message))) [
            | inl same ↦ absurd (
                other (
                  (eq_iff x.request_hash (result_hash hmac o request.code request.message)).0 same))
            | inr differs ↦ rw (valid, found, known, same_key, eq_refl key, differs)
          ]

  -- What a successful report leaves behind for the next one.
  pub record Answered (request : ResultRequest) (key : String) (db : Db) (v : ResultView)
      : Type 0 where
    pub outcome : Outcome
    pub valid : outcome_of request.result ≡ some outcome
    pub command : Command
    pub found : find (is_command device_id command_id) db.commands ≡ some command
    pub row : CommandResult
    pub known : find (result_of command_id) db.command_results ≡ some row
    pub same_key : row.result_key ≡ key
    pub same_hash : row.request_hash ≡ result_hash hmac outcome request.code request.message
    pub view : v ≡ record { id = command.id; status = row.status; result_code = row.code }

  Answered-cases :
      (request : ResultRequest) (key : String) (now : ℕ) (db : Db) (v : ResultView)
      (r : Result ResultView) (db' : Db)
      → Reported hmac device_id command_id request key now db r db'
      → r ≡ ok v
      → Answered request key db' v
  Answered-cases request key now db v r db' (refused e is_r _) h = cc
  Answered-cases request key now db v r db' (repeated c o x found valid known k s is_r same) h =
      rw same (record {
        outcome = o;
        valid = valid;
        command = c;
        found = found;
        row = x;
        known = known;
        same_key = k;
        same_hash = s;
        view = cc;
      })
  Answered-cases request key now db v r db' (first c o found valid new runs timely is_r same) h =
      let row = result_row hmac command_id o request key now in
      let (c', found') =
        find-update (is_command device_id command_id) (λ x. x.id == command_id)
          (completed_now now o request.code) db.commands c (λ y. refl) found in
      let its : c'.id ≡ command_id = ground (
        arith,
        find_holds (is_command device_id command_id)
            (update (λ (x : Command). x.id == command_id) (completed_now now o request.code)
              db.commands)
            c' found',
      ) in
      rw same (record {
        outcome = o;
        valid = valid;
        command = c';
        found = found';
        row = row;
        known = find-insert-none (result_of command_id) row db.command_results new ∙ rw ==_refl;
        same_key = refl;
        same_hash = refl;
        view = rw its (cc);
      })

  module _ (request : ResultRequest) (key : String) (now : ℕ) (db : Db) where
    abbrev pub outcome : Result ResultView
    outcome = (serve (apply_command_result hmac device_id command_id request key now) db).0

    abbrev pub next : Db
    next = (serve (apply_command_result hmac device_id command_id request key now) db).1

    -- After a successful report, one under the same key at any later time is answered as before if
    -- its content has the same hash, and refused with IDEMPOTENCY_CONFLICT if not; neither changes
    -- anything.
    pub report_replay :
        (v : ResultView) (request' : ResultRequest) (o o' : Outcome) (later : ℕ)
        → outcome ≡ ok v
        → outcome_of request.result ≡ some o
        → outcome_of request'.result ≡ some o'
        → let hash = result_hash hmac o request.code request.message in
          let hash' = result_hash hmac o' request'.code request'.message in
          let second =
            serve (apply_command_result hmac device_id command_id request' key later) next in
          (hash' ≡ hash → second ≡ (ok v, next))
          × (hash' ≢ hash → second ≡ (err result_conflict, next))
    report_replay v request' o o' later h valid valid' =
        let a =
          Answered-cases request key now db v outcome next
            (apply_command_result-Reported hmac device_id command_id request key now db) h in
        let same_o : a.outcome ≡ o = cc (a.valid, valid) in
        let hashed : a.row.request_hash ≡ result_hash hmac o request.code request.message =
          rw same_o at a.same_hash in
        (
          λ same.
              repeat_same request' key later next a.command o' a.row a.found valid' a.known
                a.same_key (hashed ∙ sym same)
              ∙ rw a.view,
          λ other.
              repeat_other request' key later next a.command o' a.row a.found valid' a.known
                a.same_key (λ e. other (sym e ∙ hashed)),
        )

    -- The hash does not tell a missing code from the code "None": after a successful report without a
    -- code, one with that code under the same key is taken for a repetition, and its code is lost.
    pub report_confuses_none :
        (v : ResultView) (o : Outcome) (later : ℕ)
        → request.code ≡ none
        → outcome_of request.result ≡ some o
        → outcome ≡ ok v
        → let request' = record request { code = some (codes "None") } in
          serve (apply_command_result hmac device_id command_id request' key later) next
          ≡ (ok v, next)
    unfolding result_hash
    report_confuses_none v o later no_code valid h =
        (report_replay v (record request { code = some (codes "None") }) o o later h valid valid).0
          (rw no_code)
