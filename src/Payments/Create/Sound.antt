-- ===== src/Payments/Create/Sound.antt =====
-- What db/checks/invariants.sql asks of payments, as an invariant of `create_payment`.
use python_vs_go_pos_benchma.Prelude.{
  ℕ, ◌+◌, ◌≤◌, ◌<◌, ◌≡◌, refl, inl, inr, Bool, Bool-cases, ◌&&◌, Option, none, some, String, List,
  [], ◌∷◌, ◌==◌, arith, eq_iff, find, insert, count, count-insert, count_zero_of_find, IsKey,
  IsKey-update, All, All-map, All-insert,
}
use python_vs_go_pos_benchma.Schema.{Db}
use python_vs_go_pos_benchma.Schema.Fleet.{Device}
use python_vs_go_pos_benchma.Schema.Money.{
  QrCode, RfWallet, Payment, StartRight, LedgerEntry, is_success,
}
use python_vs_go_pos_benchma.Errors.{Result}
use python_vs_go_pos_benchma.Session.{serve}
use python_vs_go_pos_benchma.Payments.Request.{PaymentRequest, Crypto}
use python_vs_go_pos_benchma.Payments.Payload.{PaymentPayload}
use python_vs_go_pos_benchma.Payments.Admission.{Terms}
use python_vs_go_pos_benchma.Payments.Charge.{Charge, use_code, debit}
use python_vs_go_pos_benchma.Payments.Charge.Effects.{
  Charged, no_transfer, code_used, wallet_debited,
}
use python_vs_go_pos_benchma.Payments.Create.{
  Entry, create_payment, payment_row, has_key, is_rf_card,
}
use python_vs_go_pos_benchma.Payments.Create.Recorded.{recorded, rights_with, ledger_with, debits}
use python_vs_go_pos_benchma.Payments.Create.Created.{
  Created, replayed, refused, paid, create_payment-Created, entry_of, Charged-SamePayments,
}
use python_vs_go_pos_benchma.Payments.Create.Codes.{CodesAccounted, charged_accounts}

-- The payments that earn a start right under an id, and those that debit a wallet.
abbrev pub earns : ℕ → Payment → Bool
earns i p = p.id == i && is_success p.status

abbrev pub spends : ℕ → Payment → Bool
spends i p = p.id == i && (is_rf_card p.method && is_success p.status)

abbrev pub right_for : ℕ → StartRight → Bool
right_for i r = r.payment_id == i

abbrev pub debit_for : ℕ → LedgerEntry → Bool
debit_for i e = e.payment_id == i && e.is_debit

pub record PaymentsSound (db : Db) : Type 0 where
  -- a device has one payment at most under an idempotency key
  pub keys : (d : ℕ) (k : String) → count (has_key d k) db.payments ≤ 1
  pub ids_below : All (λ p. p.id < db.sequences.payment) db.payments
  pub ids : IsKey (λ (p : Payment). p.id) db.payments
  -- a start right, or a debit, stands for a payment that earns it, and no two for one
  pub rights : (i : ℕ) → count (right_for i) db.start_rights ≤ count (earns i) db.payments
  pub debits : (i : ℕ) → count (debit_for i) db.ledger ≤ count (spends i) db.payments
  pub codes : CodesAccounted db
  pub code_ids : IsKey (λ (q : QrCode). q.id) db.qr_codes
  pub wallet_ids : IsKey (λ (w : RfWallet). w.id) db.rf_wallets

keys-insert :
    (d : ℕ) (k : String) (p : Payment) (payments : List Payment)
    → find (has_key p.device_id p.idempotency_key) payments ≡ none
    → count (has_key d k) payments ≤ 1
    → count (has_key d k) (insert p payments) ≤ 1
keys-insert d k p payments new h = elim (Bool-cases (has_key d k p)) [
  | inl hit ↦
      let same_d : p.device_id ≡ d = ground arith in
      let same_k : p.idempotency_key ≡ k = ground (arith, eq_iff p.idempotency_key k) in
      let none_yet : count (has_key d k) payments ≡ 0 =
        count_zero_of_find (has_key d k) payments (rw (same_d, same_k) at new) in
      rw (count-insert, hit, none_yet) (omega arith)
  | inr miss ↦ rw (count-insert, miss) (omega (arith, h))
]

below_none :
    (n : ℕ) (payments : List Payment)
    → All (λ p. p.id < n) payments
    → count (λ p. p.id == n) payments ≡ 0
below_none n [] a = refl
below_none n (p ∷ ps) a = ground (arith, a.0, below_none n ps a.1)

ids-insert :
    (n : ℕ) (p : Payment) (payments : List Payment)
    → p.id ≡ n
    → All (λ r. r.id < n) payments
    → IsKey (λ (r : Payment). r.id) payments
    → IsKey (λ (r : Payment). r.id) (insert p payments)
ids-insert n p payments e below h i = elim (Bool-cases (p.id == i)) [
  | inl hit ↦
      let is_n : n ≡ i = ground arith in
      let none_yet : count (λ (r : Payment). r.id == i) payments ≡ 0 =
        rw is_n at (below_none n payments below) in
      rw (count-insert, hit, none_yet) (omega arith)
  | inr miss ↦ rw (count-insert, miss) (omega (arith, h i))
]

rights-insert :
    (e : Entry) (n m i : ℕ) (rights : List StartRight) (payments : List Payment)
    → count (right_for i) rights ≤ count (earns i) payments
    → count (right_for i) (rights_with e n m rights)
      ≤ count (earns i) (insert (payment_row e n) payments)
rights-insert e n m i rights payments h = elim (Bool-cases (is_success e.charge.status)) [
  | inl won ↦ rw (won, count-insert, count-insert) (ground arith)
  | inr lost ↦ rw (lost, count-insert) (omega (arith, h))
]

debits-insert :
    (e : Entry) (n i : ℕ) (w : Option ℕ) (ledger : List LedgerEntry) (payments : List Payment)
    → count (debit_for i) ledger ≤ count (spends i) payments
    → count (debit_for i) (ledger_with e n w ledger)
      ≤ count (spends i) (insert (payment_row e n) payments)
debits-insert e n i none ledger payments h = rw count-insert (omega (arith, h))
debits-insert e n i (some w) ledger payments h = elim (Bool-cases (debits e)) [
  | inl won ↦ rw (won, count-insert, count-insert) (ground arith)
  | inr lost ↦ rw (lost, count-insert) (omega (arith, h))
]

module _ (crypto : Crypto) (device : Device) (body : PaymentRequest) (key : String) (now : ℕ) where
  Charged-ids :
      (terms : Terms) (c : Charge) (db db' : Db)
      → PaymentsSound db
      → Charged crypto terms device.station_id body now body.payment_method db c db'
      → IsKey (λ (q : QrCode). q.id) db'.qr_codes × IsKey (λ (w : RfWallet). w.id) db'.rf_wallets
  Charged-ids terms c db db' h (no_transfer same _ _ _ _) = rw same (h.code_ids, h.wallet_ids)
  Charged-ids terms c db db' h (code_used q _ _ _ same _ _ _ _) = rw same (
    IsKey-update (λ q. q.id) (λ r. r.id == q.id) (use_code q) db.qr_codes (λ r. refl) h.code_ids,
    h.wallet_ids,
  )
  Charged-ids terms c db db' h (wallet_debited card w _ _ _ same _ _ _ _) = rw same (
    h.code_ids,
    IsKey-update (λ w. w.id) (λ r. r.id == w.id) (debit terms.price now) db.rf_wallets (λ r. refl)
        h.wallet_ids,
  )

  paid-Sound :
      (terms : Terms) (c : Charge) (db db' : Db)
      → PaymentsSound db
      → find (has_key device.id key) db.payments ≡ none
      → Charged crypto terms device.station_id body now body.payment_method db c db'
      → PaymentsSound (recorded (entry_of crypto device body key now terms c) db')
  unfolding recorded
  paid-Sound terms c db db' h new ch =
      let e = entry_of crypto device body key now terms c in
      let same = Charged-SamePayments crypto device body key now db terms c db' ch in
      let n = db'.sequences.payment in
      let below : All (λ (p : Payment). p.id < n) db.payments = rw same.sequences h.ids_below in
      let ids = Charged-ids terms c db db' h ch in
      record {
        keys = λ d k.
            rw same.payments (keys-insert d k (payment_row e n) db.payments new (h.keys d k));
        ids_below = rw same.payments (
            All-insert (λ (p : Payment). p.id < n + 1) (payment_row e n) db.payments
              (All-map db.payments (λ p lt. omega arith) below) (omega arith));
        ids = rw same.payments (ids-insert n (payment_row e n) db.payments refl below h.ids);
        rights = λ i.
            rw (same.payments, same.start_rights)
              (rights-insert e n db'.sequences.start_right i db.start_rights db.payments
                (h.rights i));
        debits = λ i.
            rw (same.payments, same.ledger)
              (debits-insert e n i c.rf_wallet_id db.ledger db.payments (h.debits i));
        codes = charged_accounts crypto device body key now terms c db db' h.code_ids h.codes ch;
        code_ids = ids.0;
        wallet_ids = ids.1;
      }

  sound_cases :
      (db : Db) (r : Result PaymentPayload) (db' : Db)
      → PaymentsSound db
      → Created crypto device body key now db r db'
      → PaymentsSound db'
  sound_cases db r db' h (replayed p _ _ _ same) = rw same h
  sound_cases db r db' h (refused _ _ same grows) = rw same (record {
    keys = h.keys;
    ids_below = All-map db.payments (λ p lt. omega (arith, grows.0)) h.ids_below;
    ids = h.ids;
    rights = h.rights;
    debits = h.debits;
    codes = h.codes;
    code_ids = h.code_ids;
    wallet_ids = h.wallet_ids;
  })
  sound_cases db r db' h (paid terms c charged new _ ch _ _ is_db) =
      rw is_db (paid-Sound terms c db charged h new ch)

  -- If a device has at most one payment under an idempotency key, ids of payments are unique and below
  -- the next one, no payment has more start rights or debits than it earns, QR codes are accounted
  -- for, and ids of codes and wallets are unique, then all of this holds after a payment request,
  -- whatever it ends in.
  pub create_payment-Sound :
      (db : Db)
      → PaymentsSound db
      → PaymentsSound (serve (create_payment crypto device body key now) db).1
  create_payment-Sound db h =
      sound_cases db (serve (create_payment crypto device body key now) db).0
        (serve (create_payment crypto device body key now) db).1 h
        (create_payment-Created crypto device body key now db)
