-- ===== src/Payments/Charge/Effects.antt =====
-- What a charge does to the tables: nothing, one use of a QR code, or one debit of a wallet.
use python_vs_go_pos_benchma.Prelude.{
  ℕ, ◌≤◌, ◌≡◌, refl, inl, inr, false, Option, none, some, String, ltb, ◌==◌, arith, find, update,
  Bool-cases, str_eq, or_else, Text, [],
}
use python_vs_go_pos_benchma.Schema.{Db}
use python_vs_go_pos_benchma.Schema.Money.{Method, PaymentStatus, QrCode, RfCard, RfWallet}
use python_vs_go_pos_benchma.Errors.{Result, ok, err}
use python_vs_go_pos_benchma.Session.{Session, read, ◌>>=◌}
use python_vs_go_pos_benchma.Payments.Request.{PaymentRequest, Crypto}
use python_vs_go_pos_benchma.Payments.Uid.{normalize_uid}
use python_vs_go_pos_benchma.Payments.Admission.{Terms, has_token}
use python_vs_go_pos_benchma.Payments.Charge.{
  Charge, charge, redeem, spend, spend_card, qr_is_invalid, use_code, debit, card_scenarios,
  settle_card, rf_is_invalid, has_uid,
}

module _ (crypto : Crypto) (terms : Terms) (station_id : ℕ) (body : PaymentRequest) (now : ℕ) where
  -- The charges that a database allows, and the database after each.
  pub data Charged (method : Method) (db : Db) (c : Charge) (db' : Db) : Type 0 where
    no_transfer :
        db' ≡ db
        → c.qr_code_id ≡ none
        → c.rf_wallet_id ≡ none
        → c.amount_minor ≡ terms.price
        → (c.status ≡ PaymentStatus.success → method ≡ Method.card)
        → Charged method db c db'
    code_used :
        (q : QrCode)
        → method ≡ Method.qr
        → find (has_token crypto body) db.qr_codes ≡ some q
        → qr_is_invalid terms station_id now q ≡ false
        → db' ≡ record db { qr_codes = update (λ r. r.id == q.id) (use_code q) db.qr_codes }
        → c.status ≡ PaymentStatus.success
        → c.qr_code_id ≡ some q.id
        → c.rf_wallet_id ≡ none
        → c.amount_minor ≡ q.amount_minor
        → Charged method db c db'
    wallet_debited :
        (card : RfCard) (w : RfWallet)
        → method ≡ Method.rf_card
        → find (λ r. r.rf_card_id == card.id) db.rf_wallets ≡ some w
        → terms.price ≤ w.balance_minor
        → db' ≡ record db {
          rf_wallets = update (λ r. r.id == w.id) (debit terms.price now) db.rf_wallets;
        }
        → c.status ≡ PaymentStatus.success
        → c.qr_code_id ≡ none
        → c.rf_wallet_id ≡ some w.id
        → c.amount_minor ≡ terms.price
        → Charged method db c db'

  -- How a charge ends from a session: it raises and leaves the session alone, or it returns and
  -- only the open transaction has changed, as `Charged` says.
  abbrev pub Ends : Method → Session → Result Charge × Session → Type 0
  Ends method s (ok c, s') = (s'.committed ≡ s.committed) × Charged method s.current c s'.current
  Ends method s (err e, s') = s' ≡ s

  settle_card-Ends :
      (o : Option (String × PaymentStatus × Option String)) (s : Session)
      → Ends Method.card s (settle_card terms.price o s)
  settle_card-Ends none s = refl
  settle_card-Ends (some (n, st, code)) s = (refl, no_transfer refl refl refl refl (λ _. refl))

  redeem-Ends :
      (o : Option QrCode) (s : Session)
      → find (has_token crypto body) s.current.qr_codes ≡ o
      → Ends Method.qr s (redeem terms station_id now o s)
  unfolding redeem
  redeem-Ends none s e = (refl, no_transfer refl refl refl refl (λ h. cc))
  redeem-Ends (some q) s e = elim (Bool-cases (qr_is_invalid terms station_id now q)) [
    | inl bad ↦ rw bad (refl, no_transfer refl refl refl refl (λ h. cc))
    | inr good ↦ rw good (refl, code_used q refl e good refl refl refl refl refl)
  ]

  spend-Ends :
      (card : RfCard) (o : Option RfWallet) (s : Session)
      → find (λ r. r.rf_card_id == card.id) s.current.rf_wallets ≡ o
      → Ends Method.rf_card s (spend terms now o s)
  unfolding spend
  spend-Ends card none s e = (refl, no_transfer refl refl refl refl (λ h. cc))
  spend-Ends card (some w) s e = elim (Bool-cases (ltb w.balance_minor terms.price)) [
    | inl short ↦ rw short (refl, no_transfer refl refl refl refl (λ h. cc))
    | inr enough ↦
        let fits : terms.price ≤ w.balance_minor = ground arith in
        rw enough (refl, wallet_debited card w refl e fits refl refl refl refl refl)
  ]

  spend_card-Ends :
      (o : Option RfCard) (s : Session) → Ends Method.rf_card s (spend_card terms now o s)
  unfolding spend_card
  spend_card-Ends none s = (refl, no_transfer refl refl refl refl (λ h. cc))
  spend_card-Ends (some card) s = elim (Bool-cases (rf_is_invalid terms now card)) [
    | inl bad ↦ rw bad (refl, no_transfer refl refl refl refl (λ h. cc))
    | inr good ↦
        rw good (spend-Ends card (find (λ w. w.rf_card_id == card.id) s.current.rf_wallets) s refl)
  ]

  charge_rf-Ends :
      (uid : Result Text) (s : Session)
      → Ends Method.rf_card s (
          (◌>>=◌
              (λ s. (uid, s))
              λ uid. do
                card ← read (λ db. ok (find (has_uid crypto uid) db.rf_cards))
                spend_card terms now card)
            s)
  charge_rf-Ends (ok uid) s = spend_card-Ends (find (has_uid crypto uid) s.current.rf_cards) s
  charge_rf-Ends (err e) s = refl

  pub charge-Ends :
      (method : Method) (s : Session)
      → Ends method s (charge crypto terms station_id body now method s)
  unfolding charge
  charge-Ends Method.card s =
      settle_card-Ends (find (λ c. str_eq c.0 (or_else body.test_scenario "")) card_scenarios) s
  charge-Ends Method.qr s = redeem-Ends (find (has_token crypto body) s.current.qr_codes) s refl
  charge-Ends Method.rf_card s = charge_rf-Ends (normalize_uid (or_else body.rf_uid [])) s
  charge-Ends (Method.other _) s = refl
