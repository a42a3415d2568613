-- ===== src/Payments/Create/Admitted.antt =====
-- The checks of `create_payment` (python/app/payments.py) behind a payment that it answers.
use python_vs_go_pos_benchma.Prelude.{
  ℕ, ◌<◌, ◌∙◌, ◌≡◌, inl, inr, arith, Bool-cases, true, false, not, ◌||◌, ◌==◌, ==_refl, All,
  find-insert-none, insert, sym, Option, none, some, String, find,
}
use python_vs_go_pos_benchma.Schema.{Db}
use python_vs_go_pos_benchma.Schema.Fleet.{Device}
use python_vs_go_pos_benchma.Schema.Money.{Method, Payment, QrCode}
use python_vs_go_pos_benchma.Errors.{Error, Result, ok, or_raise, passes, holds}
use python_vs_go_pos_benchma.Session.{serve}
use python_vs_go_pos_benchma.Payments.Request.{PaymentRequest, Crypto}
use python_vs_go_pos_benchma.Payments.Payload.{PaymentPayload, payment_payload}
use python_vs_go_pos_benchma.Payments.Admission.{Terms, choose_program, is_qr, has_token}
use python_vs_go_pos_benchma.Payments.Admission.Ready.{Ready, Offered, admit-Ready}
use python_vs_go_pos_benchma.Payments.Create.{Entry, create_payment, has_key, payment_row}
use python_vs_go_pos_benchma.Payments.Create.Recorded.{recorded}
use python_vs_go_pos_benchma.Payments.Create.Paid.{unused_id}
use python_vs_go_pos_benchma.Payments.Create.Created.{
  Created, replayed, refused, paid, create_payment-Created, entry_of, Charged-SamePayments,
}

module _ (crypto : Crypto) (device : Device) (body : PaymentRequest) (db : Db) where
  -- The code that a request carries, which is one of the company, at the station, for the program.
  pub record CodeFor (company_id program_id : ℕ) : Type 0 where
    pub code : QrCode
    pub carried : find (has_token crypto body) db.qr_codes ≡ some code
    pub of_company : code.company_id ≡ company_id
    pub at_station : code.station_id ≡ device.station_id
    pub for_program : code.program_id ≡ program_id

  -- The program that a request asks for: by its QR code, or by its body.
  pub record Chosen (company_id program_id : ℕ) : Type 0 where
    pub by_code : body.payment_method ≡ Method.qr → CodeFor company_id program_id
    pub by_body : ¬ (body.payment_method ≡ Method.qr) → body.station_program_id ≡ some program_id

  not_qr : (m : Method) → is_qr crypto m ≡ false → m ≡ Method.qr → ⊥
  not_qr m h e = ground arith

  yes_qr : (m : Method) → is_qr crypto m ≡ true → m ≡ Method.qr
  yes_qr m h = ground arith

  given : (o : Option ℕ) (e : Error) (n : ℕ) → or_raise o e ≡ ok n → o ≡ some n
  given none e n h = cc
  given (some m) e n h = cc

  choose_program-Chosen :
      (company_id program_id : ℕ)
      → choose_program crypto company_id device.station_id body db ≡ ok program_id
      → Chosen company_id program_id
  unfolding choose_program
  choose_program-Chosen company_id program_id h =
      elim (Bool-cases (is_qr crypto body.payment_method)) [
        | inl qr ↦
            let (q, carried, h1) =
              holds (find (has_token crypto body) db.qr_codes) _ _ _ (rw qr at h) in
            let (same, h2) =
              passes (not (q.company_id == company_id) || not (q.station_id == device.station_id)) _
                _ _ h1 in
            record {
              by_code = λ _. record {
                code = q;
                carried = carried;
                of_company = ground (arith, same);
                at_station = ground (arith, same);
                for_program = cc;
              };
              by_body = λ other. absurd (other (yes_qr body.payment_method qr));
            }
        | inr other ↦ record {
          by_code = λ e. absurd (not_qr body.payment_method other e);
          by_body = λ _. given body.station_program_id _ program_id (rw other at h);
        }
      ]

-- What a new payment is read back as.
payload_is :
    (e : Entry) (charged : Db) (v : PaymentPayload)
    → find (λ (p : Payment). p.id == charged.sequences.payment) charged.payments ≡ none
    → payment_payload charged.sequences.payment (recorded e charged) ≡ ok v
    → (v.station_program_id ≡ some e.terms.program_id) × (v.payment_method ≡ e.method)
unfolding payment_payload recorded
payload_is e charged v new h =
    let n = charged.sequences.payment in
    let found : find (λ (p : Payment). p.id == n) (insert (payment_row e n) charged.payments)
        ≡ some (payment_row e n) =
      find-insert-none (λ (p : Payment). p.id == n) (payment_row e n) charged.payments new
      ∙ rw (==_refl n) in
    let read : _ ≡ ok v = rw found at h in ground (arith, read)

-- A device that is ready, and a program that is on sale there, is the one that a request asks for, and
-- is the one in the answer.
pub record Admitted (crypto : Crypto) (device : Device) (body : PaymentRequest) (now : ℕ) (db : Db)
    (v : PaymentPayload) : Type 0 where
  pub terms : Terms
  pub ready : Ready device body now db terms.company_id terms.wash_bay_id
  pub chosen : Chosen crypto device body db terms.company_id terms.program_id
  pub offered : Offered terms.company_id device.id terms.program_id terms.price body db
  pub answered : v.station_program_id ≡ some terms.program_id
  pub by_method : v.payment_method ≡ body.payment_method

module _ (crypto : Crypto) (device : Device) (body : PaymentRequest) (key : String) (now : ℕ)
    (db : Db) where
  Admitted-cases :
      (v : PaymentPayload) (r : Result PaymentPayload) (db' : Db)
      → Created crypto device body key now db r db'
      → find (has_key device.id key) db.payments ≡ none
      → All (λ (p : Payment). p.id < db.sequences.payment) db.payments
      → r ≡ ok v
      → Admitted crypto device body now db v
  Admitted-cases v r db' (replayed _ known _ _ _) new below h = cc
  Admitted-cases v r db' (refused _ is_r _ _) new below h = cc
  Admitted-cases v r db' (paid terms c charged _ adm ch _ is_r _) new below h =
      let (ready, asked, offered) = admit-Ready crypto device body now db terms adm in
      let same = Charged-SamePayments crypto device body key now db terms c charged ch in
      let (program, method) =
        payload_is (entry_of crypto device body key now terms c) charged v
          (rw (same.payments, same.sequences) (unused_id db.sequences.payment db.payments below))
          (sym is_r ∙ h) in
      record {
        terms = terms;
        ready = ready;
        chosen =
            choose_program-Chosen crypto device body db terms.company_id terms.program_id asked;
        offered = offered;
        answered = program;
        by_method = method;
      }

  -- If a request under a new key is answered with a payment, whatever its status, then the device
  -- was active, at a station of the company, seen in the last 120 seconds, not in maintenance, and
  -- had applied its published configuration, which the request names; its wash bay was free; and the
  -- program of the payment is the one that the request asks for, by a QR code of the company at the
  -- station if the method is QR and by its body if not, and was on sale to the company, open to the
  -- device and the method, and at the displayed price if the method is CARD or RF_CARD. The payment
  -- has the method of the request. Ids of payments are below the next one.
  pub create_payment-Admitted :
      (v : PaymentPayload)
      → find (has_key device.id key) db.payments ≡ none
      → All (λ (p : Payment). p.id < db.sequences.payment) db.payments
      → (serve (create_payment crypto device body key now) db).0 ≡ ok v
      → Admitted crypto device body now db v
  create_payment-Admitted v new below h =
      Admitted-cases v (serve (create_payment crypto device body key now) db).0
        (serve (create_payment crypto device body key now) db).1
        (create_payment-Created crypto device body key now db) new below h
