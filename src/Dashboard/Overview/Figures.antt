-- ===== src/Dashboard/Overview/Figures.antt =====
-- The figures of the overview add up.
use python_vs_go_pos_benchma.Prelude.{
  ℕ, ◌+◌, ◌≡◌, refl, inl, inr, arith, Bool, true, Bool-cases, ◌&&◌, ◌||◌, List, [], ◌∷◌, ◌==◌, ltb,
  leb, Option, String, is_none, length, count, sum_of, All, All-select, All-map, find, Option-cases,
}
use python_vs_go_pos_benchma.Schema.{Db}
use python_vs_go_pos_benchma.Schema.Fleet.{Device}
use python_vs_go_pos_benchma.Schema.Money.{
  Payment, Method, method_eq, is_success, is_failed, is_pending, is_cancelled,
}
use python_vs_go_pos_benchma.Errors.{ok, err, failure, Result-cases}
use python_vs_go_pos_benchma.Dashboard.Period.{Datetime, period_bounds}
use python_vs_go_pos_benchma.Dashboard.Overview.{
  is_online, is_offline, last_seen, device_figures, company_devices, financial, MethodFigures,
  method_row, add_group, payment_methods, in_company, company_payments, Overview, overview,
}

-- A device is online, offline or has never been seen, and no two of these.
devices_partition :
    (now : ℕ) (seen : Device → Option ℕ) (devices : List Device)
    → length devices
      ≡ count (λ d. is_online now (seen d)) devices
        + count (λ d. is_offline now (seen d)) devices
        + count (λ d. is_none (seen d)) devices
devices_partition now seen [] = refl
devices_partition now seen (d ∷ ds) = ground (arith, devices_partition now seen ds)

payments_partition :
    (payments : List Payment)
    → length payments
      ≡ count (λ p. is_success p.status) payments
        + count (λ p. is_failed p.status) payments
        + count (λ p. is_pending p.status) payments
        + count (λ p. is_cancelled p.status) payments
payments_partition [] = refl
payments_partition (p ∷ ps) = ground (arith, payments_partition ps)

-- A column with the three methods of its CHECK.
abbrev pub is_listed : Payment → Bool
is_listed p =
    method_eq p.method Method.card
    || method_eq p.method Method.qr
    || method_eq p.method Method.rf_card

abbrev pub amounts : List MethodFigures → ℕ
amounts rows = sum_of (λ _. true) (λ (g : MethodFigures). g.amount) rows

abbrev pub totals : List MethodFigures → ℕ
totals rows = sum_of (λ _. true) (λ (g : MethodFigures). g.total_count) rows

methods_partition :
    (payments : List Payment)
    → All (λ p. is_listed p ≡ true) payments
    → ((method_row payments Method.card).total_count
          + (method_row payments Method.qr).total_count
          + (method_row payments Method.rf_card).total_count
        ≡ length payments)
      × ((method_row payments Method.card).amount
            + (method_row payments Method.qr).amount
            + (method_row payments Method.rf_card).amount
          ≡ sum_of (λ p. is_success p.status) (λ p. p.amount_minor) payments)
methods_partition [] a = (refl, refl)
methods_partition (p ∷ ps) a =
    let h = methods_partition ps a.1 in
    let listed = a.0 in (ground (arith, h.0), ground (arith, h.1))

grouped :
    (rows : List MethodFigures) (g : MethodFigures)
    → (g.total_count ≡ 0 → g.amount ≡ 0)
    → (totals (add_group g rows) ≡ g.total_count + totals rows)
      × (amounts (add_group g rows) ≡ g.amount + amounts rows)
grouped rows g empty = elim (Bool-cases (g.total_count == 0)) [
  | inl zero_ ↦
      let none_of : g.total_count ≡ 0 = ground (arith, zero_) in
      rw zero_ (omega (arith, none_of), omega (arith, empty none_of))
  | inr some_ ↦ rw some_ (refl, refl)
]

no_amount :
    (m : Method) (payments : List Payment)
    → (method_row payments m).total_count ≡ 0
    → (method_row payments m).amount ≡ 0
no_amount m [] h = refl
no_amount m (p ∷ ps) h = elim (Bool-cases (method_eq p.method m)) [
  | inl hit ↦
      let h' : 1 + count (λ p. method_eq p.method m) ps ≡ 0 = rw hit at h in absurd (omega arith)
  | inr miss ↦
      let h' : 0 + count (λ p. method_eq p.method m) ps ≡ 0 = rw miss at h in
      let rest : (method_row ps m).amount ≡ 0 = no_amount m ps (omega arith) in
      rw miss (omega (arith, rest))
]

pub payment_methods_partition :
    (payments : List Payment)
    → All (λ p. is_listed p ≡ true) payments
    → (totals (payment_methods payments) ≡ (financial payments).transaction_count)
      × (amounts (payment_methods payments) ≡ (financial payments).gross_amount)
unfolding payment_methods financial
payment_methods_partition payments a =
    let card = method_row payments Method.card in
    let qr = method_row payments Method.qr in
    let rf = method_row payments Method.rf_card in
    let h = methods_partition payments a in
    let three = grouped [] rf (no_amount Method.rf_card payments) in
    let two = grouped (add_group rf []) qr (no_amount Method.qr payments) in
    let one = grouped (add_group qr (add_group rf [])) card (no_amount Method.card payments) in
    (omega (arith, h.0, one.0, two.0, three.0), omega (arith, h.1, one.1, two.1, three.1))

-- What an overview is made of.
overview_cases :
    (company_id : ℕ) (period : String) (today : Datetime) (now : ℕ) (db : Db) (v : Overview)
    → overview company_id period today now db ≡ ok v
    → (start : ℕ) × (end_ : ℕ) × (v.devices ≡ device_figures company_id now db)
      × (v.money ≡ financial (company_payments company_id start end_ db))
      × (v.methods ≡ payment_methods (company_payments company_id start end_ db))
unfolding overview
overview_cases company_id period today now db v h =
    elim (Result-cases (period_bounds period today)) [
      | inl (bounds, valid) ↦ elim (Option-cases (find (λ c. c.id == company_id) db.companies)) [
        | inl missing ↦
            let refused : err (failure 404 "COMPANY_NOT_FOUND" "Şirket bulunamadı.") ≡ ok v =
              rw (valid, missing) at h in
            cc
        | inr (c, found) ↦
            let answered = rw (valid, found) at h in
            (bounds.0, bounds.1, cc answered, cc answered, cc answered)
      ]
      | inr (e, invalid) ↦ let refused : err e ≡ ok v = rw invalid at h in cc
    ]

-- In an overview that is answered, every device of the company counts as online, offline or unknown,
-- and as only one of these; the payments of the period are those in each status; and, if the
-- payments have the three methods that their column allows, the counts and amounts of the methods
-- add up to the number of payments and to the gross amount.
pub overview_adds_up :
    (company_id : ℕ) (period : String) (today : Datetime) (now : ℕ) (db : Db) (v : Overview)
    → All (λ p. is_listed p ≡ true) db.payments
    → overview company_id period today now db ≡ ok v
    → (v.devices.total ≡ v.devices.online + v.devices.offline + v.devices.unknown)
      × (v.money.transaction_count
          ≡ v.money.successful_count + v.money.failed_count + v.money.pending_count
            + v.money.cancelled_count)
      × (totals v.methods ≡ v.money.transaction_count)
      × (amounts v.methods ≡ v.money.gross_amount)
unfolding financial device_figures
overview_adds_up company_id period today now db v listed h =
    let (start, end_, devices, money, methods) =
      overview_cases company_id period today now db v h in
    let payments = company_payments company_id start end_ db in
    let allowed : All (λ (p : Payment). is_listed p ≡ true) payments =
      All-map payments (λ p both. both.0)
        (All-select (λ (p : Payment). is_listed p ≡ true)
          (λ p.
            in_company company_id db p.station_id
            && leb start p.created_at
            && ltb p.created_at end_)
          db.payments listed) in
    let by_method = payment_methods_partition payments allowed in
    (
      rw devices (devices_partition now (last_seen db) (company_devices company_id db)),
      rw money (payments_partition payments),
      rw (methods, money) by_method.0,
      rw (methods, money) by_method.1,
    )
