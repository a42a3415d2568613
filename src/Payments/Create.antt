-- ===== src/Payments/Create.antt =====
-- `create_payment` of python/app/payments.py. The advisory lock that it begins with makes requests
-- with the same device and key follow one another, as all requests do in this model.
pub mod Recorded
pub mod Created
pub mod Replay
pub mod Wallets
pub mod Codes
pub mod Sound
pub mod Complete
pub mod Paid
pub mod Free
pub mod Admitted
use python_vs_go_pos_benchma.Prelude.{
  ℕ, ◌+◌, Bool, true, false, not, ◌&&◌, Option, none, some, String, ltb, ◌==◌, str_eq, is_none,
  is_some, find, insert, if◌then◌else◌,
}
use python_vs_go_pos_benchma.Schema.{Db, Sequences}
use python_vs_go_pos_benchma.Schema.Fleet.{Device}
use python_vs_go_pos_benchma.Schema.Money.{Method, PaymentStatus, is_success, is_pending, Payment}
use python_vs_go_pos_benchma.Schema.Ops.{Note}
use python_vs_go_pos_benchma.Errors.{Error, ok, failure}
use python_vs_go_pos_benchma.Session.{
  Action, pure, raise, read, execute, require, commit, ◌>>=◌, ◌>>◌,
}
use python_vs_go_pos_benchma.Payments.Request.{PaymentRequest, Crypto, request_hash}
use python_vs_go_pos_benchma.Payments.Payload.{PaymentPayload, payment_payload}
use python_vs_go_pos_benchma.Payments.Admission.{Terms, admit}
use python_vs_go_pos_benchma.Payments.Charge.{Charge, charge}

-- WHERE device_id=:device_id AND idempotency_key=:key
abbrev pub has_key : ℕ → String → Payment → Bool
has_key device_id key p = p.device_id == device_id && str_eq p.idempotency_key key

-- What every insert of one payment shares.
pub record Entry : Type 0 where
  pub device_id : ℕ
  pub station_id : ℕ
  pub key : String
  pub request_hash : String
  pub method : Method
  pub terms : Terms
  pub charge : Charge
  pub now : ℕ

abbrev pub payment_row : Entry → ℕ → Payment
payment_row e id = record {
  id = id;
  device_id = e.device_id;
  station_id = e.station_id;
  idempotency_key = e.key;
  request_hash = e.request_hash;
  method = e.method;
  amount_minor = e.charge.amount_minor;
  currency = "TRY";
  status = e.charge.status;
  error_code = e.charge.error_code;
  error_message = e.charge.error_code;
  program_id = some e.terms.program_id;
  qr_code_id = e.charge.qr_code_id;
  rf_wallet_id = e.charge.rf_wallet_id;
  created_at = e.now;
  completed_at = if is_pending e.charge.status then none else some e.now;
}

-- INSERT INTO payment_transactions … RETURNING id, with UNIQUE (device_id, idempotency_key)
unfoldable pub insert_payment : Entry → Action ℕ
insert_payment e = do
  id ← read (λ db. ok db.sequences.payment)
  execute (λ db. record db { sequences = record db.sequences { payment = id + 1 } })
  unique ← read (λ db. ok (is_none (find (has_key e.device_id e.key) db.payments)))
  require unique (Error.integrity_error "payment_transactions")
  execute (λ db. record db { payments = insert (payment_row e id) db.payments })
  pure id

abbrev pub insert_attempt : Entry → ℕ → Action (Unit {0})
insert_attempt e id = execute (λ db. record db {
  attempts =
      insert
        (record { payment_id = id; attempt_no = 1; status = e.charge.status; created_at = e.now })
        db.attempts;
})

abbrev pub is_card : Method → Bool
is_card Method.card = true
is_card _ = false

abbrev pub is_rf_card : Method → Bool
is_rf_card Method.rf_card = true
is_rf_card _ = false

unfoldable pub insert_provider : Entry → ℕ → Action (Unit {0})
insert_provider e id =
    if is_card e.method
    then execute (λ db. record db {
      provider_transactions =
          insert
            (record {
              payment_id = id;
              mock_ref = id;
              status = e.charge.status;
              created_at = e.now;
            })
            db.provider_transactions;
    })
    else pure tt

-- The entry for a debited wallet, with CHECK (amount_minor > 0)
unfoldable pub insert_debit : Entry → ℕ → Option ℕ → Action (Unit {0})
insert_debit e id none = pure tt
insert_debit e id (some wallet_id) =
    if is_rf_card e.method && is_success e.charge.status
    then (do
      require (ltb 0 e.terms.price) (Error.integrity_error "rf_wallet_ledger")
      execute (λ db. record db {
        ledger =
            insert
              (record {
                wallet_id = wallet_id;
                payment_id = id;
                is_debit = true;
                amount_minor = e.terms.price;
                created_at = e.now;
              })
              db.ledger;
      }))
    else pure tt

unfoldable pub insert_right : Entry → ℕ → Action (Unit {0})
insert_right e id =
    if is_success e.charge.status
    then execute (λ db. record db {
      start_rights =
          insert
            (record {
              id = db.sequences.start_right;
              payment_id = id;
              device_id = e.device_id;
              wash_bay_id = e.terms.wash_bay_id;
              program_id = e.terms.program_id;
              status = "AVAILABLE";
              created_at = e.now;
            })
            db.start_rights;
      sequences = record db.sequences { start_right = db.sequences.start_right + 1 };
    })
    else pure tt

abbrev pub insert_event : Entry → ℕ → Action (Unit {0})
insert_event e id = execute (λ db. record db {
  events =
      insert
        (record {
          device_id = e.device_id;
          payment_id = some id;
          event_type = "payment.completed";
          payload = Note.payment_event e.charge.status e.method e.charge.error_code;
          created_at = e.now;
        })
        db.events;
})

abbrev pub insert_audit : Entry → ℕ → Action (Unit {0})
insert_audit e id = execute (λ db. record db {
  audit =
      insert
        (record {
          payment_id = id;
          action = "payment.completed";
          payload = Note.payment_audit e.charge.status;
          created_at = e.now;
        })
        db.audit;
})

-- The inserts of one payment, and the commit.
unfoldable pub record_payment : Entry → Action ℕ
record_payment e = do
  id ← insert_payment e
  insert_attempt e id
  insert_provider e id
  insert_debit e id e.charge.rf_wallet_id
  insert_right e id
  insert_event e id
  insert_audit e id
  commit
  pure id

abbrev pub idempotency_conflict : Error
idempotency_conflict =
    failure 409 "IDEMPOTENCY_CONFLICT" "Aynı anahtar farklı bir ödeme isteğinde kullanıldı."

module _ (crypto : Crypto) (device : Device) (body : PaymentRequest) (key : String) (now : ℕ) where
  -- The request is new: admit, charge, record.
  unfoldable pub pay : Action PaymentPayload
  pay = do
    terms ← read (admit crypto device body now)
    charged ← charge crypto terms device.station_id body now body.payment_method
    id ← record_payment (record {
      device_id = device.id;
      station_id = device.station_id;
      key = key;
      request_hash = request_hash crypto body;
      method = body.payment_method;
      terms = terms;
      charge = charged;
      now = now;
    })
    read (payment_payload id)

  -- The key is known: answer again, or refuse another request under the same key.
  unfoldable pub resolve : Option Payment → Action PaymentPayload
  unfolding pay
  resolve none = pay
  resolve (some existing) =
      if not (str_eq existing.request_hash (request_hash crypto body))
      then raise idempotency_conflict
      else read (payment_payload existing.id)

  unfoldable pub create_payment : Action PaymentPayload
  unfolding resolve
  create_payment = do
    existing ← read (λ db. ok (find (has_key device.id key) db.payments))
    resolve existing
