-- ===== src/Payments/Create/Wallets.antt =====
-- Money in RF wallets: what leaves a wallet stands in the ledger.
use python_vs_go_pos_benchma.Prelude.{
  ℕ, ◌+◌, ◌≡◌, refl, true, some, String, List, ◌==◌, ==_refl, arith, sum_of, sum-update_one,
  sum-insert, IsKey,
}
use python_vs_go_pos_benchma.Schema.{Db}
use python_vs_go_pos_benchma.Schema.Fleet.{Device}
use python_vs_go_pos_benchma.Schema.Money.{RfWallet, LedgerEntry}
use python_vs_go_pos_benchma.Errors.{Result}
use python_vs_go_pos_benchma.Session.{serve}
use python_vs_go_pos_benchma.Payments.Request.{PaymentRequest, Crypto}
use python_vs_go_pos_benchma.Payments.Payload.{PaymentPayload}
use python_vs_go_pos_benchma.Payments.Admission.{Terms}
use python_vs_go_pos_benchma.Payments.Charge.{Charge, debit}
use python_vs_go_pos_benchma.Payments.Charge.Effects.{
  Charged, no_transfer, code_used, wallet_debited,
}
use python_vs_go_pos_benchma.Payments.Create.{Entry, create_payment}
use python_vs_go_pos_benchma.Payments.Create.Recorded.{recorded, ledger_with, debits}
use python_vs_go_pos_benchma.Payments.Create.Created.{
  Created, replayed, refused, paid, create_payment-Created, entry_of,
}

-- The sum of all balances.
abbrev pub balances : Db → ℕ
balances db = sum_of (λ _. true) (λ (w : RfWallet). w.balance_minor) db.rf_wallets

-- The sum of all debits in the ledger.
abbrev pub debited : Db → ℕ
debited db = sum_of (λ (e : LedgerEntry). e.is_debit) (λ e. e.amount_minor) db.ledger

debited-ledger_with :
    (e : Entry) (id w : ℕ) (rows : List LedgerEntry)
    → debits e ≡ true
    → sum_of
        (λ (r : LedgerEntry). r.is_debit)
        (λ r. r.amount_minor)
        (ledger_with e id (some w) rows)
      ≡ sum_of (λ (r : LedgerEntry). r.is_debit) (λ r. r.amount_minor) rows + e.terms.price
debited-ledger_with e id w rows h = rw (h, sum-insert) refl

module _ (crypto : Crypto) (device : Device) (body : PaymentRequest) (key : String) (now : ℕ) where
  Charged-conserves :
      (terms : Terms) (c : Charge) (db db' : Db)
      → IsKey (λ (w : RfWallet). w.id) db.rf_wallets
      → Charged crypto terms device.station_id body now body.payment_method db c db'
      → let e = entry_of crypto device body key now terms c in
        balances (recorded e db') + debited (recorded e db') ≡ balances db + debited db
  unfolding recorded
  Charged-conserves terms c db db' unique (no_transfer same _ no_wallet _ _) = rw (same, no_wallet)
  Charged-conserves terms c db db' unique (code_used q _ _ _ same _ _ no_wallet _) =
      rw (same, no_wallet)
  Charged-conserves terms c db db' unique
        (wallet_debited card w is_rf found fits same ok_ _ wallet _) =
      let e = entry_of crypto device body key now terms c in
      let is_debit : debits e ≡ true = rw (is_rf, ok_) in
      rw (same, wallet)
        (omega (
          arith,
          debited-ledger_with e db'.sequences.payment w.id db.ledger is_debit,
          sum-update_one (λ (r : RfWallet). r.rf_card_id == card.id) (λ r. r.id == w.id)
              (debit terms.price now) (λ r. r.balance_minor) db.rf_wallets w (unique w.id) found
              (==_refl w.id),
          fits,
        ))

  conserves_cases :
      (db : Db) (r : Result PaymentPayload) (db' : Db)
      → IsKey (λ (w : RfWallet). w.id) db.rf_wallets
      → Created crypto device body key now db r db'
      → balances db' + debited db' ≡ balances db + debited db
  conserves_cases db r db' unique (replayed p _ _ _ same) = rw same
  conserves_cases db r db' unique (refused _ _ same _) = rw same
  conserves_cases db r db' unique (paid terms c charged _ _ ch _ _ is_db) =
      rw is_db (Charged-conserves terms c db charged unique ch)

  -- Whatever a payment request ends in, the balances of all RF wallets and the debits in the ledger
  -- add up to what they did before, if wallet ids are unique.
  pub create_payment_conserves :
      (db : Db)
      → IsKey (λ (w : RfWallet). w.id) db.rf_wallets
      → let db' = (serve (create_payment crypto device body key now) db).1 in
        balances db' + debited db' ≡ balances db + debited db
  create_payment_conserves db unique =
      conserves_cases db (serve (create_payment crypto device body key now) db).0
        (serve (create_payment crypto device body key now) db).1 unique
        (create_payment-Created crypto device body key now db)
