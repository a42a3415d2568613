-- ===== src/Payments/Admission/Complete.antt =====
-- The checks of a payment refuse no device that is ready, and no program that is on sale.
use python_vs_go_pos_benchma.Prelude.{
  ℕ, ◌≡◌, arith, Bool-cases, true, false, not, ◌&&◌, ◌==◌, ==_refl, or_else, inl, inr, none, find,
}
use python_vs_go_pos_benchma.Schema.{Db}
use python_vs_go_pos_benchma.Schema.Fleet.{Device}
use python_vs_go_pos_benchma.Errors.{ok}
use python_vs_go_pos_benchma.Payments.Request.{PaymentRequest, Crypto}
use python_vs_go_pos_benchma.Payments.Admission.{
  Terms, admit, check_device, check_program, choose_program, shows_price, occupies,
}
use python_vs_go_pos_benchma.Payments.Admission.Ready.{Ready, Offered}

check_device-ok :
    (device : Device) (body : PaymentRequest) (now : ℕ) (db : Db) (company_id wash_bay_id : ℕ)
    → Ready device body now db company_id wash_bay_id
    → check_device device body now db ≡ ok (company_id, wash_bay_id)
unfolding check_device
check_device-ok device body now db company_id wash_bay_id h =
    let same : (h.configuration.version == body.configuration_version) ≡ true =
      rw h.named (==_refl body.configuration_version) in
    let free : find (occupies h.wash_bay.id) db.executions ≡ none = rw h.bay_id h.is_free in
    rw (
      h.is_active, h.at_station, h.has_state, h.is_fresh, h.at_bay, h.no_maintenance, h.published,
      same, h.applied, free, h.of_company, h.bay_id,
    )

check_program-ok :
    (company_id device_id program_id price : ℕ) (body : PaymentRequest) (db : Db)
    → Offered company_id device_id program_id price body db
    → check_program company_id device_id program_id body db ≡ ok price
unfolding check_program
check_program-ok company_id device_id program_id price body db h =
    let shown : (shows_price body.payment_method
          && not (or_else body.displayed_price_minor 0 == h.program.price_minor))
        ≡ false =
      elim (Bool-cases (shows_price body.payment_method)) [
        | inl shows ↦ let e = h.displayed shows in rw (shows, e, h.at_price) (ground arith)
        | inr hides ↦ rw hides
      ] in
    rw (h.on_sale, h.entitled, h.by_method, shown, h.at_price)

-- What admission grants, from what it checks.
pub admit-ok :
    (crypto : Crypto) (device : Device) (body : PaymentRequest) (now : ℕ) (db : Db) (terms : Terms)
    → Ready device body now db terms.company_id terms.wash_bay_id
    → choose_program crypto terms.company_id device.station_id body db ≡ ok terms.program_id
    → Offered terms.company_id device.id terms.program_id terms.price body db
    → admit crypto device body now db ≡ ok terms
unfolding admit
admit-ok crypto device body now db terms ready chosen offered =
    let site = check_device-ok device body now db terms.company_id terms.wash_bay_id ready in
    let price =
      check_program-ok terms.company_id device.id terms.program_id terms.price body db offered in
    rw (site, chosen, price)
