-- ===== src/Payments/Create/Complete.antt =====
-- A successful payment is committed whole: the last check of db/checks/invariants.sql, as an
-- invariant of `create_payment`.
use python_vs_go_pos_benchma.Prelude.{
  ℕ, ◌≡◌, refl, inl, inr, arith, Bool, Bool-cases, true, false, Option, none, some, is_some, String,
  List, ==_refl, All, All-map, All-insert, find, find-insert-some, find-insert_hit, Option-cases,
  insert,
}
use python_vs_go_pos_benchma.Schema.{Db}
use python_vs_go_pos_benchma.Schema.Fleet.{Device}
use python_vs_go_pos_benchma.Schema.Money.{
  Payment, PaymentStatus, StartRight, LedgerEntry, is_success,
}
use python_vs_go_pos_benchma.Errors.{Result}
use python_vs_go_pos_benchma.Session.{serve}
use python_vs_go_pos_benchma.Payments.Request.{PaymentRequest, Crypto}
use python_vs_go_pos_benchma.Payments.Payload.{PaymentPayload}
use python_vs_go_pos_benchma.Payments.Admission.{Terms}
use python_vs_go_pos_benchma.Payments.Charge.{Charge}
use python_vs_go_pos_benchma.Payments.Charge.Effects.{
  Charged, no_transfer, code_used, wallet_debited,
}
use python_vs_go_pos_benchma.Payments.Create.{Entry, create_payment, payment_row, is_rf_card}
use python_vs_go_pos_benchma.Payments.Create.Recorded.{recorded, rights_with, ledger_with, debits}
use python_vs_go_pos_benchma.Payments.Create.Created.{
  Created, replayed, refused, paid, create_payment-Created, entry_of, Charged-SamePayments,
}
use python_vs_go_pos_benchma.Payments.Create.Sound.{right_for, debit_for}

-- A successful payment has its start right, and one with a card its debit.
pub record IsComplete (rights : List StartRight) (ledger : List LedgerEntry) (p : Payment)
    : Type 0 where
  pub has_right : is_success p.status ≡ true → is_some (find (right_for p.id) rights) ≡ true
  pub has_debit :
      is_success p.status ≡ true
      → is_rf_card p.method ≡ true
      → is_some (find (debit_for p.id) ledger) ≡ true

-- Every payment under a key of a certain form is complete.
abbrev pub AllComplete : (String → Bool) → Db → Type 0
AllComplete chosen db =
    All (λ p. chosen p.idempotency_key ≡ true → IsComplete db.start_rights db.ledger p) db.payments

still_found :
    {A : Type 0} (p : A → Bool) (y : A) (xs : List A)
    → is_some (find p xs) ≡ true
    → is_some (find p (insert y xs)) ≡ true
still_found p y xs h = elim (Option-cases (find p xs)) [
  | inl missing ↦ let bad : is_some (find p xs) ≡ false = rw missing in cc
  | inr (x, found) ↦ rw (find-insert-some p y xs x found) refl
]

now_found :
    {A : Type 0} (p : A → Bool) (y : A) (xs : List A)
    → p y ≡ true
    → is_some (find p (insert y xs)) ≡ true
now_found p y xs h = let (x, found) = find-insert_hit p y xs h in rw found refl

-- The inserts of a payment take no row away.
rights-grow :
    (e : Entry) (n m i : ℕ) (rights : List StartRight)
    → is_some (find (right_for i) rights) ≡ true
    → is_some (find (right_for i) (rights_with e n m rights)) ≡ true
rights-grow e n m i rights h = elim (Bool-cases (is_success e.charge.status)) [
  | inl won ↦ rw won (still_found (right_for i) _ rights h)
  | inr lost ↦ rw lost h
]

ledger-grow :
    (e : Entry) (n i : ℕ) (w : Option ℕ) (ledger : List LedgerEntry)
    → is_some (find (debit_for i) ledger) ≡ true
    → is_some (find (debit_for i) (ledger_with e n w ledger)) ≡ true
ledger-grow e n i none ledger h = h
ledger-grow e n i (some w) ledger h = elim (Bool-cases (debits e)) [
  | inl won ↦ rw won (still_found (debit_for i) _ ledger h)
  | inr lost ↦ rw lost h
]

module _ (chosen : String → Bool) (crypto : Crypto) (device : Device) (body : PaymentRequest)
    (key : String) (now : ℕ) where
  -- A payment by card that succeeds has debited a wallet, and the ledger shows it.
  paid_debit :
      (terms : Terms) (c : Charge) (n : ℕ) (db db' : Db) (ledger : List LedgerEntry)
      → Charged crypto terms device.station_id body now body.payment_method db c db'
      → is_success c.status ≡ true
      → is_rf_card body.payment_method ≡ true
      → is_some (
          find
            (debit_for n)
            (ledger_with (entry_of crypto device body key now terms c) n c.rf_wallet_id ledger))
        ≡ true
  paid_debit terms c n db db' ledger (no_transfer _ _ _ _ by_card) won rf =
      let is_card = by_card (success_of c.status won) in
      let bad : is_rf_card body.payment_method ≡ false = rw is_card in cc
    where
      success_of : (s : PaymentStatus) → is_success s ≡ true → s ≡ PaymentStatus.success
      success_of s h = ground arith
  paid_debit terms c n db db' ledger (code_used q is_qr _ _ _ _ _ _ _) won rf =
      let bad : is_rf_card body.payment_method ≡ false = rw is_qr in cc
  paid_debit terms c n db db' ledger (wallet_debited card w _ _ _ _ _ _ is_w _) won rf =
      rw (is_w, rf, won) (now_found (debit_for n) _ ledger (rw (==_refl n) refl))

  paid-AllComplete :
      (terms : Terms) (c : Charge) (db db' : Db)
      → AllComplete chosen db
      → Charged crypto terms device.station_id body now body.payment_method db c db'
      → AllComplete chosen (recorded (entry_of crypto device body key now terms c) db')
  unfolding recorded
  paid-AllComplete terms c db db' h ch =
      let e = entry_of crypto device body key now terms c in
      let same = Charged-SamePayments crypto device body key now db terms c db' ch in
      let n = db'.sequences.payment in
      let m = db'.sequences.start_right in
      rw (same.payments, same.start_rights, same.ledger)
        (All-insert
          (λ p.
            chosen p.idempotency_key ≡ true
            → IsComplete (rights_with e n m db.start_rights)
                (ledger_with e n c.rf_wallet_id db.ledger) p)
          (payment_row e n) db.payments
          (All-map db.payments
            (λ p old is_chosen.
              let whole = old is_chosen in
              record {
                has_right = λ won. rights-grow e n m p.id db.start_rights (whole.has_right won);
                has_debit = λ won rf.
                    ledger-grow e n p.id c.rf_wallet_id db.ledger (whole.has_debit won rf);
              })
            h)
          (λ _. record {
            has_right = λ won. rw won (now_found (right_for n) _ db.start_rights (==_refl n));
            has_debit = λ won rf. paid_debit terms c n db db' db.ledger ch won rf;
          }))

  complete_cases :
      (db : Db) (r : Result PaymentPayload) (db' : Db)
      → AllComplete chosen db
      → Created crypto device body key now db r db'
      → AllComplete chosen db'
  complete_cases db r db' h (replayed p _ _ _ same) = rw same h
  complete_cases db r db' h (refused _ _ same grows) = rw same h
  complete_cases db r db' h (paid terms c charged _ _ ch _ _ is_db) =
      rw is_db (paid-AllComplete terms c db charged h ch)

  -- If every successful payment whose key passes a given test has a start right, and a debit where it
  -- was paid by RF card, then this holds after any payment request.
  pub create_payment-AllComplete :
      (db : Db)
      → AllComplete chosen db
      → AllComplete chosen (serve (create_payment crypto device body key now) db).1
  create_payment-AllComplete db h =
      complete_cases db (serve (create_payment crypto device body key now) db).0
        (serve (create_payment crypto device body key now) db).1 h
        (create_payment-Created crypto device body key now db)
