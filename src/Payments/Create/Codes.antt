-- ===== src/Payments/Create/Codes.antt =====
-- QR codes are not redeemed more often than their limit allows.
use python_vs_go_pos_benchma.Prelude.{
  ℕ, ◌≤◌, ◌<◌, ◌≡◌, true, false, none, some, String, List, ◌==◌, ==_refl, arith, update, insert,
  count, count-insert, IsKey, All, All-map, All-zip, All-update_cases, only_row,
}
use python_vs_go_pos_benchma.Schema.{Db}
use python_vs_go_pos_benchma.Schema.Fleet.{Device}
use python_vs_go_pos_benchma.Schema.Money.{QrCode, Payment}
use python_vs_go_pos_benchma.Errors.{Result}
use python_vs_go_pos_benchma.Session.{serve}
use python_vs_go_pos_benchma.Payments.Request.{PaymentRequest, Crypto}
use python_vs_go_pos_benchma.Payments.Payload.{PaymentPayload}
use python_vs_go_pos_benchma.Payments.Admission.{Terms, has_token, option_is}
use python_vs_go_pos_benchma.Payments.Charge.{Charge, use_code, qr_is_invalid}
use python_vs_go_pos_benchma.Payments.Charge.Effects.{
  Charged, no_transfer, code_used, wallet_debited,
}
use python_vs_go_pos_benchma.Payments.Create.{create_payment, payment_row}
use python_vs_go_pos_benchma.Payments.Create.Recorded.{recorded}
use python_vs_go_pos_benchma.Payments.Create.Created.{
  Created, replayed, refused, paid, create_payment-Created, entry_of,
}

-- How many payments have redeemed a code.
abbrev pub redeemed : ℕ → List Payment → ℕ
redeemed code_id payments = count (λ p. option_is p.qr_code_id code_id) payments

-- A code's usage count is the number of payments that redeemed it, and within its limit.
abbrev pub IsAccounted : List Payment → QrCode → Type 0
IsAccounted payments q = (redeemed q.id payments ≡ q.usage_count) × (q.usage_count ≤ q.usage_limit)

abbrev pub CodesAccounted : Db → Type 0
CodesAccounted db = All (IsAccounted db.payments) db.qr_codes

-- A payment without a code changes no account.
unrelated :
    (p : Payment) (payments : List Payment) (codes : List QrCode)
    → p.qr_code_id ≡ none
    → All (IsAccounted payments) codes
    → All (IsAccounted (insert p payments)) codes
unrelated p payments codes no_code a =
    All-map codes (λ q h. (rw (count-insert, no_code) (omega (arith, h.0)), h.1)) a

-- A payment with a code that is used once more changes the account of that code alone.
module _ (p : Payment) (payments : List Payment) (q : QrCode)
    (with_code : p.qr_code_id ≡ some q.id) where
  account_of_code :
      (r : QrCode)
      → q.usage_count < q.usage_limit
      → r ≡ q
      → IsAccounted payments r
      → IsAccounted (insert p payments) (use_code q r)
  account_of_code r room is_q h =
      let h' : IsAccounted payments q = rw is_q at h in
      rw (is_q, count-insert, with_code, ==_refl) (omega (arith, h'.0), omega (arith, room))

  account_of_other :
      (r : QrCode)
      → (r.id == q.id) ≡ false
      → IsAccounted payments r
      → IsAccounted (insert p payments) r
  account_of_other r other h =
      let other' : (q.id == r.id) ≡ false = ground arith in
      (rw (count-insert, with_code, other') (omega (arith, h.0)), h.1)

  used_once :
      (codes : List QrCode)
      → q.usage_count < q.usage_limit
      → All (λ r. (r.id == q.id) ≡ true → r ≡ q) codes
      → All (IsAccounted payments) codes
      → All (IsAccounted (insert p payments)) (update (λ r. r.id == q.id) (use_code q) codes)
  used_once codes room only a =
      All-update_cases (λ r. r.id == q.id) (use_code q) codes
        (λ r e both. account_of_code r room (both.0 e) both.1)
        (λ r e both. account_of_other r e both.1)
        (All-zip (λ r. (r.id == q.id) ≡ true → r ≡ q) (IsAccounted payments) codes only a)

room_left :
    (terms : Terms) (station_id now : ℕ) (q : QrCode)
    → qr_is_invalid terms station_id now q ≡ false
    → q.usage_count < q.usage_limit
room_left terms station_id now q h = ground arith

module _ (crypto : Crypto) (device : Device) (body : PaymentRequest) (key : String) (now : ℕ) where
  pub charged_accounts :
      (terms : Terms) (c : Charge) (db db' : Db)
      → IsKey (λ (q : QrCode). q.id) db.qr_codes
      → CodesAccounted db
      → Charged crypto terms device.station_id body now body.payment_method db c db'
      → CodesAccounted (recorded (entry_of crypto device body key now terms c) db')
  unfolding recorded
  charged_accounts terms c db db' unique a (no_transfer same no_code _ _ _) =
      let e = entry_of crypto device body key now terms c in
      rw same (unrelated (payment_row e db.sequences.payment) db.payments db.qr_codes no_code a)
  charged_accounts terms c db db' unique a (code_used q _ found good same _ code _ _) =
      let e = entry_of crypto device body key now terms c in
      rw same (
        used_once (payment_row e db.sequences.payment) db.payments q code db.qr_codes
          (room_left terms device.station_id now q good)
          (only_row (has_token crypto body) (λ r. r.id == q.id) db.qr_codes q (unique q.id) found
            (==_refl q.id))
          a)
  charged_accounts terms c db db' unique a (wallet_debited card w _ _ _ same _ no_code _ _) =
      let e = entry_of crypto device body key now terms c in
      rw same (unrelated (payment_row e db.sequences.payment) db.payments db.qr_codes no_code a)

  accounts_cases :
      (db : Db) (r : Result PaymentPayload) (db' : Db)
      → IsKey (λ (q : QrCode). q.id) db.qr_codes
      → CodesAccounted db
      → Created crypto device body key now db r db'
      → CodesAccounted db'
  accounts_cases db r db' unique a (replayed p _ _ _ same) = rw same a
  accounts_cases db r db' unique a (refused _ _ same _) = rw same a
  accounts_cases db r db' unique a (paid terms c charged _ _ ch _ _ is_db) =
      rw is_db (charged_accounts terms c db charged unique a ch)

  -- If the usage count of every QR code is the number of payments that redeemed it, and within its
  -- limit, and ids of codes are unique, then a payment request keeps both, whatever it ends in.
  pub create_payment-CodesAccounted :
      (db : Db)
      → IsKey (λ (q : QrCode). q.id) db.qr_codes
      → CodesAccounted db
      → CodesAccounted (serve (create_payment crypto device body key now) db).1
  create_payment-CodesAccounted db unique a =
      accounts_cases db (serve (create_payment crypto device body key now) db).0
        (serve (create_payment crypto device body key now) db).1 unique a
        (create_payment-Created crypto device body key now db)
