-- ===== src/Payments/Create/Free.antt =====
-- A program that costs nothing, and a payment for it by RF card.
use python_vs_go_pos_benchma.Prelude.{ℕ, ◌≡◌, arith, inl, inr, true, false, Bool-cases, String, ltb}
use python_vs_go_pos_benchma.Schema.{Db}
use python_vs_go_pos_benchma.Schema.Fleet.{Device}
use python_vs_go_pos_benchma.Schema.Money.{Method, is_success, PaymentStatus}
use python_vs_go_pos_benchma.Errors.{Result, ok}
use python_vs_go_pos_benchma.Session.{serve}
use python_vs_go_pos_benchma.Payments.Request.{PaymentRequest, Crypto}
use python_vs_go_pos_benchma.Payments.Payload.{PaymentPayload}
use python_vs_go_pos_benchma.Payments.Admission.{Terms, admit}
use python_vs_go_pos_benchma.Payments.Charge.{Charge}
use python_vs_go_pos_benchma.Payments.Charge.Effects.{
  Charged, no_transfer, code_used, wallet_debited,
}
use python_vs_go_pos_benchma.Payments.Create.{create_payment}
use python_vs_go_pos_benchma.Payments.Create.Recorded.{recorded, fits_ledger}
use python_vs_go_pos_benchma.Payments.Create.Created.{
  Created, replayed, refused, paid, create_payment-Created, entry_of, Charged-SamePayments,
}

module _ (crypto : Crypto) (device : Device) (body : PaymentRequest) (key : String) (now : ℕ)
    (db : Db) (terms : Terms) (free : terms.price ≡ 0)
    (by_card : body.payment_method ≡ Method.rf_card) where
  nothing_won :
      (c : Charge) (charged : Db)
      → Charged crypto terms device.station_id body now body.payment_method db c charged
      → fits_ledger (entry_of crypto device body key now terms c) c.rf_wallet_id ≡ true
      → is_success c.status ≡ false
  nothing_won c charged (no_transfer _ _ _ _ only_card) fits =
      elim (Bool-cases (is_success c.status)) [
        | inl won ↦
            let is_card : body.payment_method ≡ Method.card = only_card (won_status c.status won) in
            cc
        | inr lost ↦ lost
      ]
    where
      won_status : (s : PaymentStatus) → is_success s ≡ true → s ≡ PaymentStatus.success
      won_status s h = ground arith
  nothing_won c charged (code_used q is_qr _ _ _ _ _ _ _) fits = cc
  nothing_won c charged (wallet_debited card w _ _ _ _ won _ wallet _) fits =
      let fits' : ltb 0 0 ≡ true = rw (wallet, by_card, won, free) at fits in cc

  free_cases :
      (r : Result PaymentPayload) (db' : Db)
      → admit crypto device body now db ≡ ok terms
      → Created crypto device body key now db r db'
      → db'.start_rights ≡ db.start_rights
  unfolding recorded
  free_cases r db' adm (replayed _ _ _ _ same) = rw same
  free_cases r db' adm (refused _ _ same _) = rw same
  free_cases r db' adm (paid terms' c charged new adm' ch fits _ is_db) =
      let same_terms : terms' ≡ terms = cc in
      let ch' = rw same_terms at ch in
      let lost = nothing_won c charged ch' (rw same_terms at fits) in
      rw (is_db, lost)
        ((Charged-SamePayments crypto device body key now db terms c charged ch').start_rights)

  -- If a request by RF card is admitted for a program of price 0, it gives no start right, whatever
  -- card and wallet it names: the ledger takes no entry of amount 0, so the payment cannot succeed.
  pub create_payment_free :
      admit crypto device body now db ≡ ok terms
      → (serve (create_payment crypto device body key now) db).1.start_rights ≡ db.start_rights
  create_payment_free adm =
      free_cases (serve (create_payment crypto device body key now) db).0
        (serve (create_payment crypto device body key now) db).1 adm
        (create_payment-Created crypto device body key now db)
