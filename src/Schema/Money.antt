-- ===== src/Schema/Money.antt =====
-- The rows of db/001_schema.sql that describe programs, means of payment and payments.
use python_vs_go_pos_benchma.Prelude.{ℕ, Bool, true, false, Option, String, str_eq}

-- programs
pub record Program : Type 0 where
  pub id : ℕ
  pub company_id : ℕ
  pub price_minor : ℕ
  pub active : Bool

-- The payment methods of the CHECK constraints; `other` is any further text that a request may hold.
pub data Method : Type 0 where
  card qr rf_card : Method
  other : String → Method

abbrev pub method_eq : Method → Method → Bool
method_eq Method.card Method.card = true
method_eq Method.qr Method.qr = true
method_eq Method.rf_card Method.rf_card = true
method_eq (Method.other s) (Method.other t) = str_eq s t
method_eq _ _ = false

-- program_payment_methods
pub record ProgramMethod : Type 0 where
  pub id : ℕ
  pub program_id : ℕ
  pub payment_method : Method
  pub enabled : Bool

-- entitlements
pub record Entitlement : Type 0 where
  pub id : ℕ
  pub device_id : ℕ
  pub program_id : ℕ
  pub enabled : Bool

-- qr_codes.status
pub data QrStatus : Type 0 where
  active used expired : QrStatus

abbrev pub qr_is_active : QrStatus → Bool
qr_is_active QrStatus.active = true
qr_is_active _ = false

-- qr_codes
pub record QrCode : Type 0 where
  pub id : ℕ
  pub token_hash : String
  pub company_id : ℕ
  pub station_id : ℕ
  pub program_id : ℕ
  pub amount_minor : ℕ
  pub usage_limit : ℕ
  pub usage_count : ℕ
  pub status : QrStatus
  pub starts_at : ℕ
  pub expires_at : ℕ

-- rf_cards; `is_active` is status = 'ACTIVE'
pub record RfCard : Type 0 where
  pub id : ℕ
  pub company_id : ℕ
  pub uid_hash : String
  pub is_active : Bool
  pub expires_at : Option ℕ

-- rf_wallets
pub record RfWallet : Type 0 where
  pub id : ℕ
  pub rf_card_id : ℕ
  pub balance_minor : ℕ
  pub version : ℕ
  pub updated_at : ℕ

-- payment_transactions.status
pub data PaymentStatus : Type 0 where
  pending success failed cancelled : PaymentStatus

abbrev pub is_success : PaymentStatus → Bool
is_success PaymentStatus.success = true
is_success _ = false

abbrev pub is_pending : PaymentStatus → Bool
is_pending PaymentStatus.pending = true
is_pending _ = false

abbrev pub is_failed : PaymentStatus → Bool
is_failed PaymentStatus.failed = true
is_failed _ = false

abbrev pub is_cancelled : PaymentStatus → Bool
is_cancelled PaymentStatus.cancelled = true
is_cancelled _ = false

-- payment_transactions
pub record Payment : Type 0 where
  pub id : ℕ
  pub device_id : ℕ
  pub station_id : ℕ
  pub idempotency_key : String
  pub request_hash : String
  pub method : Method
  pub amount_minor : ℕ
  pub currency : String
  pub status : PaymentStatus
  pub error_code : Option String
  pub error_message : Option String
  pub program_id : Option ℕ
  pub qr_code_id : Option ℕ
  pub rf_wallet_id : Option ℕ
  pub created_at : ℕ
  pub completed_at : Option ℕ

-- payment_attempts
pub record Attempt : Type 0 where
  pub payment_id : ℕ
  pub attempt_no : ℕ
  pub status : PaymentStatus
  pub created_at : ℕ

-- provider_transactions; the reference `MOCK-{payment_id}` is held as the number in it
pub record ProviderTransaction : Type 0 where
  pub payment_id : ℕ
  pub mock_ref : ℕ
  pub status : PaymentStatus
  pub created_at : ℕ

-- start_rights; the code writes no status but 'AVAILABLE'
pub record StartRight : Type 0 where
  pub id : ℕ
  pub payment_id : ℕ
  pub device_id : ℕ
  pub wash_bay_id : ℕ
  pub program_id : ℕ
  pub status : String
  pub created_at : ℕ

-- rf_wallet_ledger; `is_debit` is direction = 'DEBIT'
pub record LedgerEntry : Type 0 where
  pub wallet_id : ℕ
  pub payment_id : ℕ
  pub is_debit : Bool
  pub amount_minor : ℕ
  pub created_at : ℕ
