-- ===== src/Api/Server.antt =====
-- The application of python/app/main.py as a server: any sequence of requests, and runs of the
-- worker (python/app/worker_cli.py), each on its own session.
use python_vs_go_pos_benchma.Prelude.{ℕ, Option, String, Text, List, [], ◌∷◌}
use python_vs_go_pos_benchma.Schema.{Db}
use python_vs_go_pos_benchma.Schema.Ops.{CommandStatus}
use python_vs_go_pos_benchma.Errors.{Error, Details, Result, ok, err, app_error}
use python_vs_go_pos_benchma.Session.{Action, pure, serve, ◌>>=◌}
use python_vs_go_pos_benchma.Configuration.{ConfigurationView}
use python_vs_go_pos_benchma.Payments.Request.{PaymentRequest}
use python_vs_go_pos_benchma.Payments.Payload.{PaymentPayload}
use python_vs_go_pos_benchma.Commands.Pending.{CommandView}
use python_vs_go_pos_benchma.Commands.Report.{ResultRequest, ResultView}
use python_vs_go_pos_benchma.Dashboard.Period.{Datetime}
use python_vs_go_pos_benchma.Dashboard.Overview.{Overview}
use python_vs_go_pos_benchma.Worker.Sweep.{SweepResult, sweep_target_runtime}
use python_vs_go_pos_benchma.Api.Endpoints
use python_vs_go_pos_benchma.Api.Endpoints.{Env}

-- A request with its parameters, or a run of the worker. A device's request has the headers X-Device-Id and Authorization.
pub data Request : Type 0 where
  health : Request
  heartbeat : ℕ → Option Text → Option ℕ → Option String → String → Request
  configuration : ℕ → Option Text → Option ℕ → Request
  payment : ℕ → Option Text → String → PaymentRequest → Request
  commands_pending : ℕ → Option Text → ℕ → Request
  command_acknowledge : ℕ → Option Text → ℕ → Request
  command_result : ℕ → Option Text → ℕ → String → ResultRequest → Request
  dashboard_overview : Option Text → String → Datetime → Request
  sweep : Request

-- The `data` of a success response.
pub data Reply : Type 0 where
  healthy accepted : Reply
  configuration : ConfigurationView → Reply
  payment : PaymentPayload → Reply
  commands : List CommandView → Reply
  acknowledged : ℕ → CommandStatus → Reply
  result : ResultView → Reply
  overview : Overview → Reply
  swept : SweepResult → Reply

module _ (env : Env) (now : ℕ) where
  -- An endpoint with the status code of its success.
  unfoldable pub dispatch : Request → Action (ℕ × Reply)
  dispatch Request.health = pure (200, Reply.healthy)
  dispatch (Request.heartbeat i a q v p) = do
    _ ← Endpoints.heartbeat env i a q v p now
    pure (200, Reply.accepted)
  dispatch (Request.configuration i a v) = do
    c ← Endpoints.configuration env i a v
    pure (200, Reply.configuration c)
  dispatch (Request.payment i a k b) = do
    p ← Endpoints.payment env i a k b now
    pure (p.0, Reply.payment p.1)
  dispatch (Request.commands_pending i a n) = do
    cs ← Endpoints.commands_pending env i a n now
    pure (200, Reply.commands cs)
  dispatch (Request.command_acknowledge i a c) = do
    r ← Endpoints.command_acknowledge env i a c now
    pure (200, Reply.acknowledged r.0 r.1)
  dispatch (Request.command_result i a c k b) = do
    r ← Endpoints.command_result env i a c k b now
    pure (200, Reply.result r)
  dispatch (Request.dashboard_overview a p today) = do
    o ← Endpoints.dashboard_overview env a p today now
    pure (200, Reply.overview o)
  dispatch Request.sweep = do r ← sweep_target_runtime now; pure (200, Reply.swept r)

-- The answer: `success_response`, or what the exception handlers make of an exception.
pub data Response : Type 0 where
  success : ℕ → Reply → Response
  failure : ℕ → String → String → Details → Response
  validation_failure server_error : Response

unfoldable pub respond : Result (ℕ × Reply) → Response
respond (ok (status_code, reply)) = Response.success status_code reply
respond (err (app_error status_code code message details)) =
    Response.failure status_code code message details
respond (err Error.validation_error) = Response.validation_failure
respond (err (Error.integrity_error _)) = Response.server_error
respond (err (Error.driver_error _)) = Response.server_error

-- One request at an instant.
unfoldable pub step : Env → ℕ × Request → Db → Response × Db
step env (now, request) db = let (r, db') = serve (dispatch env now request) db in (respond r, db')

-- Requests one after the other: the database that they leave.
unfoldable pub run : Env → List (ℕ × Request) → Db → Db
unfolding step
run env [] db = db
run env (request ∷ rest) db = run env rest (step env request db).1
