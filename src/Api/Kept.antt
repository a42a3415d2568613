-- ===== src/Api/Kept.antt =====
-- What every request of python/app/main.py keeps when the operations behind the endpoints keep it.
use python_vs_go_pos_benchma.Prelude.{
  ℕ, String, Text, Option, Bool, ◌&&◌, ◌||◌, ltb, leb, str_eq, List, [], ◌∷◌,
}
use python_vs_go_pos_benchma.Schema.{Db}
use python_vs_go_pos_benchma.Schema.Fleet.{Device}
use python_vs_go_pos_benchma.Session.{Action, read, ◌>>=◌}
use python_vs_go_pos_benchma.Session.Rules.{
  Keeps, Keeps-read-bind, Keeps-bind-read, Keeps-bind-pure, Keeps-read, Keeps-pure,
}
use python_vs_go_pos_benchma.Heartbeat.{record_heartbeat}
use python_vs_go_pos_benchma.Configuration.{get_configuration}
use python_vs_go_pos_benchma.Payments.Request.{PaymentRequest, Crypto}
use python_vs_go_pos_benchma.Payments.Create.{create_payment}
use python_vs_go_pos_benchma.Commands.Pending.{pending_commands}
use python_vs_go_pos_benchma.Commands.Acknowledge.{acknowledge_command}
use python_vs_go_pos_benchma.Commands.Report.{ResultRequest, apply_command_result}
use python_vs_go_pos_benchma.Worker.Sweep.{sweep_target_runtime}
use python_vs_go_pos_benchma.Api.Endpoints
use python_vs_go_pos_benchma.Api.Endpoints.{
  Env, authenticated, bound, within, version_fits, is_positive, key_fits, text_fits, payment_answer,
}
use python_vs_go_pos_benchma.Auth.{
  authenticate_device, authenticate_panel, device_token, bearer_token,
}
use python_vs_go_pos_benchma.Dashboard.Overview.{overview}
use python_vs_go_pos_benchma.Api.Server.{Request, Reply, dispatch, step, run}

-- A predicate of the database that each operation behind an endpoint keeps.
pub record Kept (crypto : Crypto) (P : Db → Type 0) : Type 0 where
  pub heartbeat :
      (device_id : ℕ) (sequence : Option ℕ) (app_version : Option String) (payload : String)
      (now : ℕ)
      → Keeps P (record_heartbeat device_id sequence app_version payload now)
  pub create_payment :
      (device : Device) (body : PaymentRequest) (key : String) (now : ℕ)
      → Keeps P (create_payment crypto device body key now)
  pub pending_commands : (device_id limit now : ℕ) → Keeps P (pending_commands device_id limit now)
  pub acknowledge_command :
      (device_id command_id now : ℕ) → Keeps P (acknowledge_command device_id command_id now)
  pub apply_command_result :
      (device_id command_id : ℕ) (request : ResultRequest) (key : String) (now : ℕ)
      → Keeps P (apply_command_result crypto.hmac_sha256 device_id command_id request key now)
  pub sweep : (now : ℕ) → Keeps P (sweep_target_runtime now)

module _ (env : Env) (P : Db → Type 0) (kept : Kept env.crypto P) (now : ℕ) where
  -- A request that authenticates a device before its operation, and checks bounds before that.
  authenticated-Keeps :
      {A : Type 0} (device_id : ℕ) (authorization : Option Text) (m : Device → Action A)
      → ((d : Device) → Keeps P (m d))
      → Keeps P (authenticated env device_id authorization >>= m)
  authenticated-Keeps i a m = Keeps-read-bind (authenticate_device env.sha256 i (device_token a)) m

  bounded-Keeps :
      {A : Type 0} (fits : Bool) (device_id : ℕ) (authorization : Option Text)
      (m : Device → Action A)
      → ((d : Device) → Keeps P (m d))
      → Keeps P (bound fits >>= λ _. authenticated env device_id authorization >>= m)
  bounded-Keeps fits i a m keep =
      Keeps-read-bind (within fits) (λ _. authenticated env i a >>= m)
        (λ _. authenticated-Keeps i a m keep)

  dispatch-Keeps : (request : Request) → Keeps P (dispatch env now request)
  unfolding dispatch Endpoints.heartbeat Endpoints.configuration Endpoints.payment
      Endpoints.commands_pending Endpoints.command_acknowledge Endpoints.command_result
      Endpoints.dashboard_overview
  dispatch-Keeps Request.health = Keeps-pure (200, Reply.healthy)
  dispatch-Keeps (Request.heartbeat i a q v p) =
      Keeps-bind-pure (Endpoints.heartbeat env i a q v p now) (λ _. (200, Reply.accepted))
        (bounded-Keeps (version_fits v) i a (λ d. record_heartbeat d.id q v p now)
          (λ d. kept.heartbeat d.id q v p now))
  dispatch-Keeps (Request.configuration i a v) =
      Keeps-bind-pure (Endpoints.configuration env i a v) (λ c. (200, Reply.configuration c))
        (bounded-Keeps (is_positive v) i a (λ d. read (get_configuration d.id v))
          (λ d. Keeps-read (get_configuration d.id v)))
  dispatch-Keeps (Request.payment i a k b) =
      Keeps-bind-pure (Endpoints.payment env i a k b now) (λ p. (p.0, Reply.payment p.1))
        (bounded-Keeps
          (key_fits k && ltb 0 b.configuration_version && is_positive b.displayed_price_minor) i a
          (λ d. create_payment env.crypto d b k now >>= λ p. read (λ _. payment_answer p))
          (λ d.
            Keeps-bind-read (create_payment env.crypto d b k now) (λ p _. payment_answer p)
              (kept.create_payment d b k now)))
  dispatch-Keeps (Request.commands_pending i a n) =
      Keeps-bind-pure (Endpoints.commands_pending env i a n now) (λ cs. (200, Reply.commands cs))
        (bounded-Keeps (leb 1 n && leb n 100) i a (λ d. pending_commands d.id n now)
          (λ d. kept.pending_commands d.id n now))
  dispatch-Keeps (Request.command_acknowledge i a c) =
      Keeps-bind-pure (Endpoints.command_acknowledge env i a c now)
        (λ r. (200, Reply.acknowledged r.0 r.1))
        (authenticated-Keeps i a (λ d. acknowledge_command d.id c now)
          (λ d. kept.acknowledge_command d.id c now))
  dispatch-Keeps (Request.command_result i a c k b) =
      Keeps-bind-pure (Endpoints.command_result env i a c k b now) (λ r. (200, Reply.result r))
        (bounded-Keeps (key_fits k && text_fits 64 b.code && text_fits 500 b.message) i a
          (λ d. apply_command_result env.crypto.hmac_sha256 d.id c b k now)
          (λ d. kept.apply_command_result d.id c b k now))
  dispatch-Keeps (Request.dashboard_overview a p today) =
      Keeps-bind-pure (Endpoints.dashboard_overview env a p today now)
        (λ o. (200, Reply.overview o))
        (Keeps-read-bind
          (within (str_eq p "TODAY" || str_eq p "LAST_7_DAYS" || str_eq p "THIS_MONTH"))
          (λ _. read (authenticate_panel env.sha256 (bearer_token a)) >>= λ current.
            read (overview current.company_id p today now))
          (λ _.
            Keeps-read-bind (authenticate_panel env.sha256 (bearer_token a))
              (λ current. read (overview current.company_id p today now))
              (λ current. Keeps-read (overview current.company_id p today now))))
  dispatch-Keeps Request.sweep =
      Keeps-bind-pure (sweep_target_runtime now) (λ r. (200, Reply.swept r)) (kept.sweep now)

pub run-Kept :
    (env : Env) (P : Db → Type 0)
    → Kept env.crypto P
    → (requests : List (ℕ × Request)) (db : Db) → P db
    → P (run env requests db)
unfolding run step
run-Kept env P kept [] db h = h
run-Kept env P kept ((now, request) ∷ rest) db h =
    run-Kept env P kept rest (step env (now, request) db).1
      ((dispatch-Keeps env P kept now request).at db h)
