-- ===== src/Payments/Create/Created.antt =====
-- How `create_payment` may end, and what it leaves: the cases on which the properties rest.
use python_vs_go_pos_benchma.Prelude.{
  ℕ, ◌≡◌, refl, inl, inr, true, Bool-cases, Option, none, some, String, str_eq, find, eq_iff, arith,
}
use python_vs_go_pos_benchma.Schema.{Db}
use python_vs_go_pos_benchma.Schema.Fleet.{Device}
use python_vs_go_pos_benchma.Schema.Money.{Payment}
use python_vs_go_pos_benchma.Errors.{Error, Result, ok, err, Result-cases}
use python_vs_go_pos_benchma.Session.{Session, begin, close, serve, after, read, ◌>>=◌}
use python_vs_go_pos_benchma.Payments.Request.{PaymentRequest, Crypto, request_hash}
use python_vs_go_pos_benchma.Payments.Payload.{PaymentPayload, payment_payload}
use python_vs_go_pos_benchma.Payments.Admission.{Terms, admit}
use python_vs_go_pos_benchma.Payments.Charge.{Charge, charge}
use python_vs_go_pos_benchma.Payments.Charge.Effects.{
  Charged, no_transfer, code_used, wallet_debited, Ends, charge-Ends,
}
use python_vs_go_pos_benchma.Payments.Create.{
  Entry, has_key, pay, resolve, create_payment, record_payment, idempotency_conflict,
}
use python_vs_go_pos_benchma.Payments.Create.Recorded.{
  recorded, Records, Advances, record_payment-Records, fits_ledger,
}

-- The tables are the same; a sequence may have gone on.
abbrev pub SameTables : Db → Db → Type 0
SameTables db db' = db' ≡ record db { sequences = db'.sequences }

-- A charge writes to no table but qr_codes and rf_wallets.
pub record SamePayments (db db' : Db) : Type 0 where
  pub payments : db'.payments ≡ db.payments
  pub start_rights : db'.start_rights ≡ db.start_rights
  pub ledger : db'.ledger ≡ db.ledger
  pub sequences : db'.sequences ≡ db.sequences

module _ (crypto : Crypto) (device : Device) (body : PaymentRequest) (key : String) (now : ℕ) where
  -- The entry of a request that is admitted and charged.
  abbrev pub entry_of : Terms → Charge → Entry
  entry_of terms c = record {
    device_id = device.id;
    station_id = device.station_id;
    key = key;
    request_hash = request_hash crypto body;
    method = body.payment_method;
    terms = terms;
    charge = c;
    now = now;
  }

  pub data Created (db : Db) (r : Result PaymentPayload) (db' : Db) : Type 0 where
    replayed :
        (p : Payment)
        → find (has_key device.id key) db.payments ≡ some p
        → p.request_hash ≡ request_hash crypto body
        → r ≡ payment_payload p.id db
        → db' ≡ db
        → Created db r db'
    refused :
        (e : Error)
        → r ≡ err e
        → SameTables db db'
        → Advances db.sequences db'.sequences
        → Created db r db'
    paid :
        (terms : Terms) (c : Charge) (charged : Db)
        → find (has_key device.id key) db.payments ≡ none
        → admit crypto device body now db ≡ ok terms
        → Charged crypto terms device.station_id body now body.payment_method db c charged
        → fits_ledger (entry_of terms c) c.rf_wallet_id ≡ true
        → r ≡ payment_payload charged.sequences.payment (recorded (entry_of terms c) charged)
        → db' ≡ recorded (entry_of terms c) charged
        → Created db r db'

  module _ (db : Db) where
    abbrev ResultOf : Result PaymentPayload × Session → Type 0
    ResultOf r = Created db r.0 (close r.1)

    pub Charged-SamePayments :
        (terms : Terms) (c : Charge) (db' : Db)
        → Charged crypto terms device.station_id body now body.payment_method db c db'
        → SamePayments db db'
    Charged-SamePayments terms c db' (no_transfer e _ _ _ _) =
        rw e (record { payments = refl; start_rights = refl; ledger = refl; sequences = refl })
    Charged-SamePayments terms c db' (code_used q _ _ _ e _ _ _ _) =
        rw e (record { payments = refl; start_rights = refl; ledger = refl; sequences = refl })
    Charged-SamePayments terms c db' (wallet_debited card w _ _ _ e _ _ _ _) =
        rw e (record { payments = refl; start_rights = refl; ledger = refl; sequences = refl })

    module _ (new : find (has_key device.id key) db.payments ≡ none) where
      recorded-Created :
          (terms : Terms) (c : Charge) (s : Session) (r : Result ℕ × Session)
          → admit crypto device body now db ≡ ok terms
          → s.committed ≡ db
          → Charged crypto terms device.station_id body now body.payment_method db c s.current
          → Records (entry_of terms c) s r
          → ResultOf (after r λ id. read (payment_payload id))
      recorded-Created terms c s (ok id, s') adm same ch (is_next, done, fits) =
          rw (done, is_next) (paid terms c s.current new adm ch fits refl refl)
      recorded-Created terms c s (err x, s') adm same ch (kept, _, _, grows) =
          let before = (Charged-SamePayments terms c s.current ch).sequences in
          refused x refl (rw (kept, same) refl) (rw before at grows)

      charged-Created :
          (terms : Terms) (r : Result Charge × Session)
          → admit crypto device body now db ≡ ok terms
          → Ends crypto terms device.station_id body now body.payment_method (begin db) r
          → ResultOf
              (after r λ c. do id ← record_payment (entry_of terms c); read (payment_payload id))
      charged-Created terms (ok c, s) adm (same, ch) =
          recorded-Created terms c s (record_payment (entry_of terms c) s) adm same ch (
            record_payment-Records (entry_of terms c) s
              (rw ((Charged-SamePayments terms c s.current ch).payments) new))
      charged-Created terms (err e, s) adm same =
          refused e refl (rw same refl) (rw same (omega arith, refl))

      pay-Created : ResultOf (pay crypto device body key now (begin db))
      unfolding pay
      pay-Created = elim (Result-cases (admit crypto device body now db)) [
        | inl (terms, adm) ↦ rw adm (
            charged-Created terms
              (charge crypto terms device.station_id body now body.payment_method (begin db)) adm
              (charge-Ends crypto terms device.station_id body now body.payment_method (begin db)))
        | inr (e, adm) ↦ rw adm (refused e refl refl (omega arith, refl))
      ]

    resolve-Created :
        (o : Option Payment)
        → find (has_key device.id key) db.payments ≡ o
        → ResultOf (resolve crypto device body key now o (begin db))
    unfolding resolve
    resolve-Created none new = pay-Created new
    resolve-Created (some p) known =
        elim (Bool-cases (str_eq p.request_hash (request_hash crypto body))) [
          | inl same ↦ rw same (
              replayed p known ((eq_iff p.request_hash (request_hash crypto body)).0 same) refl
                refl)
          | inr other ↦ rw other (refused idempotency_conflict refl refl (omega arith, refl))
        ]

    pub create_payment-Created :
        Created db
          (serve (create_payment crypto device body key now) db).0
          (serve (create_payment crypto device body key now) db).1
    unfolding create_payment
    create_payment-Created = resolve-Created (find (has_key device.id key) db.payments) refl
