-- ===== src/Payments/Charge.antt =====
-- The branches of `create_payment` (python/app/payments.py) on the payment method: a card, a QR code
-- or an RF card is charged.
pub mod Effects
use python_vs_go_pos_benchma.Prelude.{
  ℕ, ◌+◌, ◌-◌, Bool, true, false, not, ◌&&◌, ◌||◌, Option, none, some, String, Text, List, [], ◌∷◌,
  ltb, leb, ◌==◌, str_eq, or_else, find, update, if◌then◌else◌,
}
use python_vs_go_pos_benchma.Schema.{Db}
use python_vs_go_pos_benchma.Schema.Money.{
  Method, PaymentStatus, QrCode, QrStatus, qr_is_active, RfCard, RfWallet,
}
use python_vs_go_pos_benchma.Errors.{ok, failure}
use python_vs_go_pos_benchma.Session.{Action, pure, raise, read, execute, ◌>>=◌, ◌>>◌}
use python_vs_go_pos_benchma.Payments.Request.{PaymentRequest, Crypto, secret_hash, qr_pepper}
use python_vs_go_pos_benchma.Payments.Uid.{normalize_uid}
use python_vs_go_pos_benchma.Payments.Admission.{Terms, has_token}

-- The variables that the branches set: status, error_code (error_message has the same value),
-- amount_minor, qr_code_id and rf_wallet_id.
pub record Charge : Type 0 where
  pub status : PaymentStatus
  pub error_code : Option String
  pub amount_minor : ℕ
  pub qr_code_id : Option ℕ
  pub rf_wallet_id : Option ℕ

-- No money has moved: the program's price stands as the amount.
abbrev pub unpaid : ℕ → PaymentStatus → Option String → Charge
unpaid price status error_code = record {
  status = status;
  error_code = error_code;
  amount_minor = price;
  qr_code_id = none;
  rf_wallet_id = none;
}

abbrev pub refused : ℕ → String → Charge
refused price code = unpaid price PaymentStatus.failed (some code)

-- The test scenarios of a card, and how each ends.
unfoldable pub card_scenarios : List (String × PaymentStatus × Option String)
card_scenarios =
    ("TEST_SUCCESS", PaymentStatus.success, none)
    ∷ ("TEST_FAILED", PaymentStatus.failed, some "CARD_DECLINED")
    ∷ ("TEST_CANCELLED", PaymentStatus.cancelled, some "CARD_CANCELLED")
    ∷ ("TEST_TIMEOUT", PaymentStatus.pending, none)
    ∷ ("TEST_INSUFFICIENT_FUNDS", PaymentStatus.failed, some "INSUFFICIENT_FUNDS")
    ∷ ("TEST_PROVIDER_ERROR", PaymentStatus.failed, some "PROVIDER_ERROR")
    ∷ []

abbrev settle_card : ℕ → Option (String × PaymentStatus × Option String) → Action Charge
settle_card price none = raise (failure 422 "INVALID_TEST_SCENARIO" "Kart test senaryosu geçersiz.")
settle_card price (some (_, status, code)) = pure (unpaid price status code)

unfoldable pub charge_card : Terms → PaymentRequest → Action Charge
charge_card terms body =
    settle_card terms.price (find (λ s. str_eq s.0 (or_else body.test_scenario "")) card_scenarios)

-- The conditions on a locked QR code, in the order of the source, after `qr is None`.
abbrev pub qr_is_invalid : Terms → ℕ → ℕ → QrCode → Bool
qr_is_invalid terms station_id now q =
    not (qr_is_active q.status)
    || not (q.company_id == terms.company_id)
    || not (q.station_id == station_id)
    || not (q.program_id == terms.program_id)
    || ltb now q.starts_at
    || leb q.expires_at now
    || leb q.usage_limit q.usage_count

-- UPDATE qr_codes SET usage_count, status, with the values computed from the locked row
abbrev pub use_code : QrCode → QrCode → QrCode
use_code locked q =
    let new_usage = locked.usage_count + 1 in
    record q {
      usage_count = new_usage;
      status = if leb locked.usage_limit new_usage then QrStatus.used else QrStatus.active;
    }

unfoldable pub redeem : Terms → ℕ → ℕ → Option QrCode → Action Charge
redeem terms station_id now none = pure (refused terms.price "QR_INVALID")
redeem terms station_id now (some qr) =
    if qr_is_invalid terms station_id now qr then pure (refused terms.price "QR_INVALID") else do
      execute (λ db. record db { qr_codes = update (λ q. q.id == qr.id) (use_code qr) db.qr_codes })
      pure (record {
        status = PaymentStatus.success;
        error_code = none;
        amount_minor = qr.amount_minor;
        qr_code_id = some qr.id;
        rf_wallet_id = none;
      })

unfoldable pub charge_qr : Crypto → Terms → ℕ → PaymentRequest → ℕ → Action Charge
unfolding redeem
charge_qr crypto terms station_id body now = do
  qr ← read (λ db. ok (find (has_token crypto body) db.qr_codes))
  redeem terms station_id now qr

-- The conditions on an RF card after `card is None`.
abbrev pub rf_is_invalid : Terms → ℕ → RfCard → Bool
rf_is_invalid terms now card =
    not card.is_active
    || not (card.company_id == terms.company_id)
    || (elim card.expires_at [ none ↦ false | some expiry ↦ leb expiry now ])

-- UPDATE rf_wallets SET balance_minor=balance_minor-:amount, version=version+1, updated_at=:now
abbrev pub debit : ℕ → ℕ → RfWallet → RfWallet
debit amount now w = record w {
  balance_minor = w.balance_minor - amount;
  version = w.version + 1;
  updated_at = now;
}

unfoldable pub spend : Terms → ℕ → Option RfWallet → Action Charge
spend terms now none = pure (refused terms.price "RF_INSUFFICIENT_BALANCE")
spend terms now (some wallet) =
    if ltb wallet.balance_minor terms.price
    then pure (refused terms.price "RF_INSUFFICIENT_BALANCE")
    else do
      execute (λ db. record db {
        rf_wallets = update (λ w. w.id == wallet.id) (debit terms.price now) db.rf_wallets;
      })
      pure (record {
        status = PaymentStatus.success;
        error_code = none;
        amount_minor = terms.price;
        qr_code_id = none;
        rf_wallet_id = some wallet.id;
      })

unfoldable pub spend_card : Terms → ℕ → Option RfCard → Action Charge
unfolding spend
spend_card terms now none = pure (refused terms.price "RF_CARD_INVALID")
spend_card terms now (some card) =
    if rf_is_invalid terms now card then pure (refused terms.price "RF_CARD_INVALID") else do
      wallet ← read (λ db. ok (find (λ w. w.rf_card_id == card.id) db.rf_wallets))
      spend terms now wallet

-- WHERE uid_hash=:uid_hash
abbrev pub has_uid : Crypto → Text → RfCard → Bool
has_uid crypto uid c = str_eq c.uid_hash (secret_hash crypto uid qr_pepper)

unfoldable pub charge_rf : Crypto → Terms → PaymentRequest → ℕ → Action Charge
unfolding spend_card
charge_rf crypto terms body now = do
  uid ← read (λ _. normalize_uid (or_else body.rf_uid []))
  card ← read (λ db. ok (find (has_uid crypto uid) db.rf_cards))
  spend_card terms now card

unfoldable pub charge : Crypto → Terms → ℕ → PaymentRequest → ℕ → Method → Action Charge
unfolding charge_card charge_qr charge_rf
charge crypto terms station_id body now Method.card = charge_card terms body
charge crypto terms station_id body now Method.qr = charge_qr crypto terms station_id body now
charge crypto terms station_id body now Method.rf_card = charge_rf crypto terms body now
charge crypto terms station_id body now (Method.other _) =
    raise (failure 422 "UNSUPPORTED_PAYMENT_METHOD" "Ödeme yöntemi desteklenmiyor.")
