-- ===== src/Api/Endpoints.antt =====
-- The endpoints of python/app/main.py. FastAPI checks the declared bounds of a request before its
-- endpoint runs; the types of the fields are those of the model.
use Prim.Native.String.{count as char_count}
use python_vs_go_pos_benchma.Prelude.{
  ℕ, Bool, true, ◌&&◌, ◌||◌, Option, none, some, String, Text, List, ltb, leb, length, str_eq,
  or_else, if◌then◌else◌,
}
use python_vs_go_pos_benchma.Schema.{Db}
use python_vs_go_pos_benchma.Schema.Fleet.{Device}
use python_vs_go_pos_benchma.Schema.Money.{PaymentStatus}
use python_vs_go_pos_benchma.Schema.Ops.{CommandStatus}
use python_vs_go_pos_benchma.Errors.{Error, Details, app_error, Result, ok, err}
use python_vs_go_pos_benchma.Session.{Action, read, ◌>>=◌, ◌>>◌}
use python_vs_go_pos_benchma.Auth.{
  authenticate_device, authenticate_panel, device_token, bearer_token,
}
use python_vs_go_pos_benchma.Heartbeat.{record_heartbeat}
use python_vs_go_pos_benchma.Configuration.{ConfigurationView, get_configuration}
use python_vs_go_pos_benchma.Payments.Request.{PaymentRequest, Crypto}
use python_vs_go_pos_benchma.Payments.Payload.{PaymentPayload}
use python_vs_go_pos_benchma.Payments.Create.{create_payment}
use python_vs_go_pos_benchma.Commands.Pending.{CommandView, pending_commands}
use python_vs_go_pos_benchma.Commands.Acknowledge.{acknowledge_command}
use python_vs_go_pos_benchma.Commands.Report.{ResultRequest, ResultView, apply_command_result}
use python_vs_go_pos_benchma.Dashboard.Period.{Datetime}
use python_vs_go_pos_benchma.Dashboard.Overview.{Overview, overview}

-- The functions outside this repository: the digests, and json.dumps.
pub record Env : Type 0 where
  pub crypto : Crypto
  pub sha256 : Text → String

-- A declared bound of FastAPI.
abbrev pub within : Bool → Db → Result (Unit {0})
within holds db = if holds then ok tt else err Error.validation_error

abbrev pub bound : Bool → Action (Unit {0})
bound holds = read (within holds)

-- min_length=8, max_length=128
abbrev pub key_fits : String → Bool
key_fits key = leb 8 (char_count key) && leb (char_count key) 128

abbrev pub text_fits : ℕ → Option Text → Bool
text_fits n none = true
text_fits n (some t) = leb (length t) n

-- max_length=60
abbrev pub version_fits : Option String → Bool
version_fits none = true
version_fits (some v) = leb (char_count v) 60

-- gt=0 of an optional number
abbrev pub is_positive : Option ℕ → Bool
is_positive none = true
is_positive (some n) = ltb 0 n

-- FAILED and CANCELLED payments are answered as errors, PENDING ones with 202.
unfoldable pub payment_answer : PaymentPayload → Result (ℕ × PaymentPayload)
payment_answer p =
    let failed =
      app_error 409 (or_else p.error_code "PAYMENT_FAILED")
        (or_else p.error_code "Ödeme başarısız.") (Details.payment p.id p.status) in
    elim p.status [
      | PaymentStatus.failed ↦ err failed
      | PaymentStatus.cancelled ↦ err failed
      | PaymentStatus.pending ↦ ok (202, p)
      | PaymentStatus.success ↦ ok (200, p)
    ]

module _ (env : Env) where
  abbrev pub authenticated : ℕ → Option Text → Action Device
  authenticated device_id authorization =
      read (authenticate_device env.sha256 device_id (device_token authorization))

  unfoldable pub heartbeat :
      ℕ → Option Text → Option ℕ → Option String → String → ℕ → Action (Unit {0})
  heartbeat device_id authorization sequence app_version payload now = do
    bound (version_fits app_version)
    device ← authenticated device_id authorization
    record_heartbeat device.id sequence app_version payload now

  unfoldable pub configuration : ℕ → Option Text → Option ℕ → Action ConfigurationView
  configuration device_id authorization current_version = do
    bound (is_positive current_version)
    device ← authenticated device_id authorization
    read (get_configuration device.id current_version)

  unfoldable pub payment :
      ℕ → Option Text → String → PaymentRequest → ℕ → Action (ℕ × PaymentPayload)
  unfolding payment_answer
  payment device_id authorization key body now = do
    bound
        (key_fits key && ltb 0 body.configuration_version && is_positive body.displayed_price_minor)
    device ← authenticated device_id authorization
    payload ← create_payment env.crypto device body key now
    read (λ _. payment_answer payload)

  unfoldable pub commands_pending : ℕ → Option Text → ℕ → ℕ → Action (List CommandView)
  commands_pending device_id authorization limit now = do
    bound (leb 1 limit && leb limit 100)
    device ← authenticated device_id authorization
    pending_commands device.id limit now

  unfoldable pub command_acknowledge : ℕ → Option Text → ℕ → ℕ → Action (ℕ × CommandStatus)
  command_acknowledge device_id authorization command_id now = do
    device ← authenticated device_id authorization
    acknowledge_command device.id command_id now

  unfoldable pub command_result :
      ℕ → Option Text → ℕ → String → ResultRequest → ℕ → Action ResultView
  command_result device_id authorization command_id key body now = do
    bound (key_fits key && text_fits 64 body.code && text_fits 500 body.message)
    device ← authenticated device_id authorization
    apply_command_result env.crypto.hmac_sha256 device.id command_id body key now

  unfoldable pub dashboard_overview : Option Text → String → Datetime → ℕ → Action Overview
  dashboard_overview authorization period today now = do
    bound (str_eq period "TODAY" || str_eq period "LAST_7_DAYS" || str_eq period "THIS_MONTH")
    current ← read (authenticate_panel env.sha256 (bearer_token authorization))
    read (overview current.company_id period today now)
