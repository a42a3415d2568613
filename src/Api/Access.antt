-- ===== src/Api/Access.antt =====
-- Who may send a device's requests to the server of python/app/main.py.
use python_vs_go_pos_benchma.Prelude.{
  ℕ, ◌≡◌, refl, Bool, true, false, ◌&&◌, leb, ltb, Option, none, some, Text, find,
}
use python_vs_go_pos_benchma.Schema.{Db}
use python_vs_go_pos_benchma.Schema.Fleet.{Device}
use python_vs_go_pos_benchma.Errors.{Error, Result, ok, err}
use python_vs_go_pos_benchma.Session.{Action, Session, begin, close, pure, read, after, ◌>>=◌}
use python_vs_go_pos_benchma.Auth.{authenticate_device, device_token, is_credential}
use python_vs_go_pos_benchma.Heartbeat.{record_heartbeat}
use python_vs_go_pos_benchma.Configuration.{get_configuration}
use python_vs_go_pos_benchma.Payments.Create.{create_payment}
use python_vs_go_pos_benchma.Commands.Pending.{pending_commands}
use python_vs_go_pos_benchma.Commands.Acknowledge.{acknowledge_command}
use python_vs_go_pos_benchma.Commands.Report.{apply_command_result}
use python_vs_go_pos_benchma.Api.Endpoints
use python_vs_go_pos_benchma.Api.Endpoints.{
  Env, authenticated, bound, version_fits, is_positive, key_fits, text_fits, payment_answer,
}
use python_vs_go_pos_benchma.Api.Server.{Request, Reply, Response, dispatch, respond, step}

-- The device that a request claims to be, and its Authorization header.
abbrev pub claims : Request → Option (ℕ × Option Text)
claims (Request.heartbeat i a _ _ _) = some (i, a)
claims (Request.configuration i a _) = some (i, a)
claims (Request.payment i a _ _) = some (i, a)
claims (Request.commands_pending i a _) = some (i, a)
claims (Request.command_acknowledge i a _) = some (i, a)
claims (Request.command_result i a _ _ _) = some (i, a)
claims _ = none

-- An answer 401, or that of a request that FastAPI finds invalid.
abbrev pub IsRefusal : Response → Type 0
IsRefusal (Response.failure status_code _ _ _) = status_code ≡ 401
IsRefusal Response.validation_failure = Unit
IsRefusal _ = ⊥

module _ (env : Env) (db : Db) where
  -- No active credential of a device has the token of a header.
  abbrev pub Unknown : ℕ → Option Text → Type 0
  Unknown i a = find (is_credential env.sha256 i (device_token a)) db.credentials ≡ none

  -- A claim to be a device, under a token that is none of its own.
  abbrev pub ClaimsUnknown : Option (ℕ × Option Text) → Type 0
  ClaimsUnknown none = ⊥
  ClaimsUnknown (some (i, a)) = Unknown i a

  -- How a refused action ends.
  abbrev Refused : {A : Type 0} → Result A × Session → Type 0
  Refused (err (Error.app_error n c m d), s) = (n ≡ 401) × (s ≡ begin db)
  Refused (err Error.validation_error, s) = s ≡ begin db
  Refused _ = ⊥

  Refused-after :
      {A B : Type 0} (r : Result A × Session) (f : A → Action B) → Refused r → Refused (after r f)
  Refused-after (err (Error.app_error n c m d), s) f h = h
  Refused-after (err Error.validation_error, s) f h = h
  Refused-after (err (Error.integrity_error _), s) f h = h
  Refused-after (err (Error.driver_error _), s) f h = h
  Refused-after (ok x, s) f h = absurd h

  unauthenticated :
      {A : Type 0} (i : ℕ) (a : Option Text) (m : Device → Action A)
      → Unknown i a
      → Refused ((authenticated env i a >>= m) (begin db))
  unfolding authenticate_device
  unauthenticated i a m unknown = rw unknown (refl, refl)

  unbounded :
      {A : Type 0} (fits : Bool) (i : ℕ) (a : Option Text) (m : Device → Action A)
      → Unknown i a
      → Refused ((bound fits >>= λ _. authenticated env i a >>= m) (begin db))
  unbounded true i a m unknown = unauthenticated i a m unknown
  unbounded false i a m unknown = refl

  -- A request of a device, by the device that it claims to be.
  refuses :
      (now : ℕ) (request : Request)
      → ClaimsUnknown (claims request)
      → Refused (dispatch env now request (begin db))
  unfolding dispatch Endpoints.heartbeat Endpoints.configuration Endpoints.payment
      Endpoints.commands_pending Endpoints.command_acknowledge Endpoints.command_result
  refuses now (Request.heartbeat i a q v p) h =
      Refused-after (Endpoints.heartbeat env i a q v p now (begin db))
        (λ _. pure (200, Reply.accepted))
        (unbounded (version_fits v) i a (λ d. record_heartbeat d.id q v p now) h)
  refuses now (Request.configuration i a v) h =
      Refused-after (Endpoints.configuration env i a v (begin db))
        (λ c. pure (200, Reply.configuration c))
        (unbounded (is_positive v) i a (λ d. read (get_configuration d.id v)) h)
  refuses now (Request.payment i a k b) h =
      Refused-after (Endpoints.payment env i a k b now (begin db))
        (λ p. pure (p.0, Reply.payment p.1))
        (unbounded
          (key_fits k && ltb 0 b.configuration_version && is_positive b.displayed_price_minor) i a
          (λ d. create_payment env.crypto d b k now >>= λ p. read (λ _. payment_answer p)) h)
  refuses now (Request.commands_pending i a n) h =
      Refused-after (Endpoints.commands_pending env i a n now (begin db))
        (λ cs. pure (200, Reply.commands cs))
        (unbounded (leb 1 n && leb n 100) i a (λ d. pending_commands d.id n now) h)
  refuses now (Request.command_acknowledge i a c) h =
      Refused-after (Endpoints.command_acknowledge env i a c now (begin db))
        (λ r. pure (200, Reply.acknowledged r.0 r.1))
        (unauthenticated i a (λ d. acknowledge_command d.id c now) h)
  refuses now (Request.command_result i a c k b) h =
      Refused-after (Endpoints.command_result env i a c k b now (begin db))
        (λ r. pure (200, Reply.result r))
        (unbounded (key_fits k && text_fits 64 b.code && text_fits 500 b.message) i a
          (λ d. apply_command_result env.crypto.hmac_sha256 d.id c b k now) h)
  refuses now Request.health h = absurd h
  refuses now (Request.dashboard_overview _ _ _) h = absurd h
  refuses now Request.sweep h = absurd h

  answer-IsRefusal :
      (r : Result (ℕ × Reply) × Session) → Refused r → IsRefusal (respond r.0) × (close r.1 ≡ db)
  unfolding respond
  answer-IsRefusal (err (Error.app_error n c m d), s) (is_401, same) = (is_401, rw same)
  answer-IsRefusal (err Error.validation_error, s) same = (tt, rw same)
  answer-IsRefusal (err (Error.integrity_error _), s) h = absurd h
  answer-IsRefusal (err (Error.driver_error _), s) h = absurd h
  answer-IsRefusal (ok x, s) h = absurd h

  -- A request that claims to be a device, with a token that no active credential of this device has,
  -- is answered with 401, or found invalid, whatever it asks for, and changes nothing.
  pub step_refuses :
      (now : ℕ) (request : Request)
      → ClaimsUnknown (claims request)
      → IsRefusal (step env (now, request) db).0 × ((step env (now, request) db).1 ≡ db)
  unfolding step
  step_refuses now request h =
      answer-IsRefusal (dispatch env now request (begin db)) (refuses now request h)
