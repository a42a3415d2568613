-- ===== src/Tests/Payments.antt =====
-- Payments by RF card at a small car wash.
use python_vs_go_pos_benchma.Prelude.{
  ◌+◌, ◌≡◌, ◌≤◌, refl, arith, none, some, true, String, codes, length, ◌%◌, All, IsKey,
}
use python_vs_go_pos_benchma.Schema.{seconds}
use python_vs_go_pos_benchma.Schema.Money.{Method, PaymentStatus, QrCode, RfWallet}
use python_vs_go_pos_benchma.Errors.{ok}
use python_vs_go_pos_benchma.Session.{serve}
use python_vs_go_pos_benchma.Payments.Payload.{PaymentPayload, payment_payload}
use python_vs_go_pos_benchma.Payments.Request.{PaymentRequest}
use python_vs_go_pos_benchma.Payments.Admission.{
  Terms, admit, check_device, choose_program, check_program, not_acknowledged,
}
use python_vs_go_pos_benchma.Payments.Uid.{normalize_uid, hex_digits}
use python_vs_go_pos_benchma.Payments.Uid.Canonical.{is_upper_hex, normalize_uid_canonical}
use python_vs_go_pos_benchma.Payments.Charge.{charge}
use python_vs_go_pos_benchma.Payments.Create.{
  create_payment, record_payment, insert_payment, insert_provider, insert_debit, insert_right,
}
use python_vs_go_pos_benchma.Payments.Create.Created.{SameTables}
use python_vs_go_pos_benchma.Payments.Create.Replay.{
  next, create_payment_atomic, create_payment_replay,
}
use python_vs_go_pos_benchma.Payments.Create.Wallets.{balances, debited, create_payment_conserves}
use python_vs_go_pos_benchma.Payments.Create.Codes.{CodesAccounted, create_payment-CodesAccounted}
use python_vs_go_pos_benchma.Payments.Create.Sound.{PaymentsSound, create_payment-Sound}
use python_vs_go_pos_benchma.Payments.Create.Admitted.{Admitted, create_payment-Admitted}
use python_vs_go_pos_benchma.Payments.Create.Free.{create_payment_free}
use python_vs_go_pos_benchma.Tests.Data.{crypto, device, shop, shop_with, by_card, noon}

abbrev key : String
key = "first-payment"

abbrev paid_view : PaymentPayload
paid_view = record {
  id = 1;
  status = PaymentStatus.success;
  payment_method = Method.rf_card;
  amount_minor = 500;
  currency = "TRY";
  error_code = none;
  station_program_id = some 6;
  created_at = noon;
  start_right = some (1, "AVAILABLE");
  execution = none;
}

code_ids : IsKey (λ (q : QrCode). q.id) shop.qr_codes
code_ids i = ground arith

wallet_ids : IsKey (λ (w : RfWallet). w.id) shop.rf_wallets
wallet_ids i = ground arith

pub shop-PaymentsSound : PaymentsSound shop
shop-PaymentsSound = record {
  keys = λ d k. omega arith;
  ids_below = tt;
  ids = λ i. omega arith;
  rights = λ i. omega arith;
  debits = λ i. omega arith;
  codes = ((refl, omega arith), tt);
  code_ids = code_ids;
  wallet_ids = wallet_ids;
}

create_payment_replay_example :
    serve
      (create_payment crypto device (by_card 500) key (noon + seconds 5))
      (next crypto device (by_card 500) key noon shop)
    ≡ (ok paid_view, next crypto device (by_card 500) key noon shop)
unfolding create_payment admit check_device choose_program check_program charge normalize_uid
    hex_digits record_payment insert_payment insert_provider insert_debit insert_right
    payment_payload
create_payment_replay_example =
    (create_payment_replay crypto device (by_card 500) key noon shop paid_view device (by_card 500)
        (noon + seconds 5) refl refl).0
      refl

create_payment_atomic_example :
    SameTables shop
      (next crypto device (record (by_card 500) { configuration_version = 2 }) key noon shop)
unfolding create_payment admit check_device
create_payment_atomic_example =
    create_payment_atomic crypto device (record (by_card 500) { configuration_version = 2 }) key
      noon shop not_acknowledged refl

create_payment_conserves_example :
    balances (next crypto device (by_card 500) key noon shop)
      + debited (next crypto device (by_card 500) key noon shop)
    ≡ 2000
create_payment_conserves_example =
    create_payment_conserves crypto device (by_card 500) key noon shop wallet_ids

create_payment-CodesAccounted_example :
    CodesAccounted (next crypto device (by_card 500) key noon shop)
create_payment-CodesAccounted_example =
    create_payment-CodesAccounted crypto device (by_card 500) key noon shop code_ids
      ((refl, omega arith), tt)

create_payment-Sound_example : PaymentsSound (next crypto device (by_card 500) key noon shop)
create_payment-Sound_example =
    create_payment-Sound crypto device (by_card 500) key noon shop shop-PaymentsSound

abbrev free_terms : Terms
free_terms = record { company_id = 1; wash_bay_id = 5; program_id = 6; price = 0 }

abbrev unpriced : PaymentRequest
unpriced = record (by_card 0) { displayed_price_minor = none }

create_payment_free_example :
    (serve (create_payment crypto device unpriced key noon) (shop_with 0)).1.start_rights
    ≡ (shop_with 0).start_rights
unfolding admit check_device choose_program check_program
create_payment_free_example =
    create_payment_free crypto device unpriced key noon (shop_with 0) free_terms refl refl refl

normalize_uid_canonical_example :
    All (λ c. is_upper_hex c ≡ true) (codes "04A1B2C3")
    × (8 ≤ length (codes "04A1B2C3"))
    × (length (codes "04A1B2C3") ≤ 64)
    × (length (codes "04A1B2C3") % 2 ≡ 0)
    × (normalize_uid (codes "04A1B2C3") ≡ ok (codes "04A1B2C3"))
unfolding normalize_uid hex_digits
normalize_uid_canonical_example =
    normalize_uid_canonical (codes "04 a1:b2-c3") (codes "04A1B2C3") refl

create_payment-Admitted_example : Admitted crypto device (by_card 500) noon shop paid_view
unfolding create_payment admit check_device choose_program check_program charge normalize_uid
    hex_digits record_payment insert_payment insert_provider insert_debit insert_right
    payment_payload
create_payment-Admitted_example =
    create_payment-Admitted crypto device (by_card 500) key noon shop paid_view refl tt refl
