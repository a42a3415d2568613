-- ===== src/Payments/Payload.antt =====
-- `payment_payload` of python/app/payments.py: what a client sees of a payment. Ids are kept as
-- numbers, without their decimal text and without the code `PAY-…` that is formed from the id.
use mathlib.Core.Option
use python_vs_go_pos_benchma.Prelude.{ℕ, Option, String, ◌==◌, find}
use python_vs_go_pos_benchma.Schema.{Db}
use python_vs_go_pos_benchma.Schema.Money.{Payment, PaymentStatus, Method, StartRight}
use python_vs_go_pos_benchma.Schema.Ops.{Execution, ExecutionStatus}
use python_vs_go_pos_benchma.Errors.{Error, Result, ok, failure, or_raise, ◌>>=◌}

pub record PaymentPayload : Type 0 where
  pub id : ℕ
  pub status : PaymentStatus
  pub payment_method : Method
  pub amount_minor : ℕ
  pub currency : String
  pub error_code : Option String
  pub station_program_id : Option ℕ
  pub created_at : ℕ
  pub start_right : Option (ℕ × String)
  pub execution : Option (ℕ × ExecutionStatus)

abbrev pub payment_not_found : Error
payment_not_found = failure 404 "PAYMENT_NOT_FOUND" "Ödeme bulunamadı."

abbrev pub payload_of : Payment → Option StartRight → Option Execution → PaymentPayload
payload_of payment right execution = record {
  id = payment.id;
  status = payment.status;
  payment_method = payment.method;
  amount_minor = payment.amount_minor;
  currency = payment.currency;
  error_code = payment.error_code;
  station_program_id = payment.program_id;
  created_at = payment.created_at;
  start_right = Option.map (λ r. (r.id, r.status)) right;
  execution = Option.map (λ e. (e.id, e.status)) execution;
}

unfoldable pub payment_payload : ℕ → Db → Result PaymentPayload
payment_payload payment_id db = do
  payment ← or_raise (find (λ p. p.id == payment_id) db.payments) payment_not_found
  let right = find (λ r. r.payment_id == payment_id) db.start_rights
  let execution = find (λ e. e.payment_id == payment_id) db.executions
  ok (payload_of payment right execution)
