-- ===== src/Payments/Create/Paid.antt =====
-- A payment that nothing stands against succeeds.
use python_vs_go_pos_benchma.Prelude.{
  ℕ, String, Text, ◌<◌, ◌≤◌, ◌≡◌, refl, ◌∙◌, arith, Bool, true, false, ltb, ◌==◌, ==_refl, none,
  some, is_some, or_else, find, update, [], find-insert_hit, find-insert-none, List, ◌∷◌, All,
  insert, if◌then◌else◌,
}
use python_vs_go_pos_benchma.Schema.{Db}
use python_vs_go_pos_benchma.Schema.Fleet.{Device}
use python_vs_go_pos_benchma.Schema.Money.{
  Method, PaymentStatus, QrCode, RfCard, RfWallet, Payment, StartRight,
}
use python_vs_go_pos_benchma.Errors.{Result, ok}
use python_vs_go_pos_benchma.Session.{Session, begin, serve}
use python_vs_go_pos_benchma.Payments.Request.{PaymentRequest, Crypto}
use python_vs_go_pos_benchma.Payments.Uid.{normalize_uid}
use python_vs_go_pos_benchma.Payments.Payload.{PaymentPayload, payment_payload, payload_of}
use python_vs_go_pos_benchma.Payments.Admission.{Terms, admit, choose_program, has_token}
use python_vs_go_pos_benchma.Payments.Admission.Ready.{Ready, Offered}
use python_vs_go_pos_benchma.Payments.Admission.Complete.{admit-ok}
use python_vs_go_pos_benchma.Payments.Charge.{
  Charge, charge, unpaid, qr_is_invalid, use_code, debit, rf_is_invalid, has_uid, redeem,
  spend_card, spend, card_scenarios,
}
use python_vs_go_pos_benchma.Payments.Create.{
  Entry, has_key, pay, resolve, create_payment, payment_row,
}
use python_vs_go_pos_benchma.Payments.Create.Recorded.{
  right_row, recorded, recorded_if_fits, fits_ledger, debits,
}
use python_vs_go_pos_benchma.Payments.Create.Created.{entry_of}

module _ (crypto : Crypto) (terms : Terms) (station_id : ℕ) (body : PaymentRequest) (now : ℕ)
    (db : Db) where
  -- Means that cover a price: a card that the test scenario approves, a QR code of this program at this
  -- station with a use left, or an RF card with enough on its wallet.
  pub data Covers : Method → Type 0 where
    card_approves : or_else body.test_scenario "" ≡ "TEST_SUCCESS" → Covers Method.card
    code_pays :
        (q : QrCode)
        → find (has_token crypto body) db.qr_codes ≡ some q
        → qr_is_invalid terms station_id now q ≡ false
        → Covers Method.qr
    wallet_pays :
        (uid : Text) (card : RfCard) (w : RfWallet)
        → normalize_uid (or_else body.rf_uid []) ≡ ok uid
        → find (has_uid crypto uid) db.rf_cards ≡ some card
        → rf_is_invalid terms now card ≡ false
        → find (λ w. w.rf_card_id == card.id) db.rf_wallets ≡ some w
        → terms.price ≤ w.balance_minor
        → 0 < terms.price
        → Covers Method.rf_card

  -- The means are charged.
  record IsCharged (r : Result Charge × Session) : Type 0 where
    c : Charge
    charged : Db
    is_r : r ≡ (ok c, record { committed = db; current = charged })
    success : c.status ≡ PaymentStatus.success
    same_payments : charged.payments ≡ db.payments
    same_sequences : charged.sequences ≡ db.sequences
    fits : (e : Entry) → e.charge ≡ c → e.terms ≡ terms → fits_ledger e c.rf_wallet_id ≡ true

  charge-IsCharged :
      (method : Method)
      → Covers method
      → IsCharged (charge crypto terms station_id body now method (begin db))
  unfolding charge redeem spend_card spend card_scenarios
  charge-IsCharged _ (card_approves approved) = rw approved (record {
    c = unpaid terms.price PaymentStatus.success none;
    charged = db;
    is_r = refl;
    success = refl;
    same_payments = refl;
    same_sequences = refl;
    fits = λ e is_c is_terms. refl;
  })
  charge-IsCharged _ (code_pays q found valid) =
      rw (found, valid)
        (record {
          c = record {
            status = PaymentStatus.success;
            error_code = none;
            amount_minor = q.amount_minor;
            qr_code_id = some q.id;
            rf_wallet_id = none;
          };
          charged = record db { qr_codes = update (λ r. r.id == q.id) (use_code q) db.qr_codes };
          is_r = refl;
          success = refl;
          same_payments = refl;
          same_sequences = refl;
          fits = λ e is_c is_terms. refl;
        })
  charge-IsCharged _ (wallet_pays uid card w is_uid found valid has_wallet enough more) =
      let covered : ltb w.balance_minor terms.price ≡ false = ground (arith, enough) in
      rw (is_uid, found, valid, has_wallet, covered)
        (record {
          c = record {
            status = PaymentStatus.success;
            error_code = none;
            amount_minor = terms.price;
            qr_code_id = none;
            rf_wallet_id = some w.id;
          };
          charged = record db {
            rf_wallets = update (λ r. r.id == w.id) (debit terms.price now) db.rf_wallets;
          };
          is_r = refl;
          success = refl;
          same_payments = refl;
          same_sequences = refl;
          fits = λ e is_c is_terms. paying (debits e) e.terms.price (rw is_terms more);
        })
    where
      paying : (b : Bool) (price : ℕ) → 0 < price → (if b then ltb 0 price else true) ≡ true
      paying true price h = ground arith
      paying false price h = refl

-- What a recorded success is read back as, under an id that no payment has.
payload_of_success :
    (e : Entry) (charged : Db)
    → e.charge.status ≡ PaymentStatus.success
    → find (λ (p : Payment). p.id == charged.sequences.payment) charged.payments ≡ none
    → (v : PaymentPayload) × (payment_payload charged.sequences.payment (recorded e charged) ≡ ok v)
      × (v.status ≡ PaymentStatus.success)
      × (is_some v.start_right ≡ true)
unfolding payment_payload recorded
payload_of_success e charged won new =
    let n = charged.sequences.payment in
    let row = payment_row e n in
    let found : find (λ (p : Payment). p.id == n) (insert row charged.payments) ≡ some row =
      find-insert-none (λ (p : Payment). p.id == n) row charged.payments new ∙ rw (==_refl n) in
    let right = right_row e n charged.sequences.start_right in
    let (r, has_right) =
      find-insert_hit (λ (r : StartRight). r.payment_id == n) right charged.start_rights
        (==_refl n) in
    (
      payload_of row (some r) (find (λ x. x.payment_id == n) charged.executions),
      rw (found, won, has_right),
      won,
      refl,
    )

pub unused_id :
    (n : ℕ) (payments : List Payment)
    → All (λ p. p.id < n) payments
    → find (λ p. p.id == n) payments ≡ none
unused_id n [] h = refl
unused_id n (p ∷ ps) h = ground (arith, h.0, unused_id n ps h.1)

-- A payment that is a SUCCESS and has a start right.
pub record IsPaid (r : Result PaymentPayload) : Type 0 where
  pub payload : PaymentPayload
  pub is_ok : r ≡ ok payload
  pub success : payload.status ≡ PaymentStatus.success
  pub has_right : is_some payload.start_right ≡ true

module _ (crypto : Crypto) (device : Device) (body : PaymentRequest) (key : String) (now : ℕ)
    (db : Db) (terms : Terms) where
  -- A new request that is admitted, under means that are charged.
  charged_pays :
      find (has_key device.id key) db.payments ≡ none
      → admit crypto device body now db ≡ ok terms
      → All (λ (p : Payment). p.id < db.sequences.payment) db.payments
      → IsCharged crypto terms device.station_id body now db
          (charge crypto terms device.station_id body now body.payment_method (begin db))
      → IsPaid (serve (create_payment crypto device body key now) db).0
  unfolding create_payment resolve pay
  charged_pays new admitted below h =
      let e = entry_of crypto device body key now terms h.c in
      let s : Session = record { committed = db; current = h.charged } in
      let made = recorded_if_fits e s (rw h.same_payments new) (h.fits e refl refl) in
      let (v, payload, won, right) = payload_of_success e h.charged h.success (
        rw (h.same_payments, h.same_sequences)
          (unused_id db.sequences.payment db.payments below)) in
      record {
        payload = v;
        is_ok = rw (new, admitted, h.is_r, made) payload;
        success = won;
        has_right = right;
      }

  -- A request under a new key, by a device that is ready, for a program that is on sale, with means
  -- that cover its price: a card that the scenario approves, a valid QR code, or a valid RF card
  -- with enough for a price above 0. It is answered with a payment that is a SUCCESS and has a start
  -- right, if ids of payments are below the next one.
  pub create_payment_pays :
      find (has_key device.id key) db.payments ≡ none
      → All (λ (p : Payment). p.id < db.sequences.payment) db.payments
      → Ready device body now db terms.company_id terms.wash_bay_id
      → choose_program crypto terms.company_id device.station_id body db ≡ ok terms.program_id
      → Offered terms.company_id device.id terms.program_id terms.price body db
      → Covers crypto terms device.station_id body now db body.payment_method
      → IsPaid (serve (create_payment crypto device body key now) db).0
  create_payment_pays new below ready chosen offered covers =
      charged_pays new (admit-ok crypto device body now db terms ready chosen offered) below
        (charge-IsCharged crypto terms device.station_id body now db body.payment_method covers)
