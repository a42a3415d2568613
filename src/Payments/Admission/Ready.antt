-- ===== src/Payments/Admission/Ready.antt =====
-- What the checks of a payment establish.
use python_vs_go_pos_benchma.Prelude.{
  ℕ, ap, ◌≡◌, or_else, is_none, refl, arith, Bool, true, false, not, ◌&&◌, ◌||◌, Option, none, some,
  ◌==◌, is_some, find,
}
use python_vs_go_pos_benchma.Schema.{Db}
use python_vs_go_pos_benchma.Schema.Fleet.{
  Device, DeviceState, Station, WashBay, Configuration, device_is_active,
}
use python_vs_go_pos_benchma.Schema.Money.{Program, Entitlement}
use python_vs_go_pos_benchma.Errors.{ok, passes, holds, first_step}
use python_vs_go_pos_benchma.Payments.Request.{PaymentRequest, Crypto}
use python_vs_go_pos_benchma.Payments.Admission.{
  Terms, admit, check_device, check_program, choose_program, shows_price, is_offered, is_stale,
  option_is, is_maintained, is_published_for, occupies,
}

-- A device that may take a payment for a request: it is active, at a station of the company, was
-- seen in the last 120 seconds, serves the wash bay, is not in maintenance, has applied the
-- published configuration that the request names, and the wash bay is free.
pub record Ready (device : Device) (body : PaymentRequest) (now : ℕ) (db : Db)
    (company_id wash_bay_id : ℕ) : Type 0 where
  pub is_active : device_is_active device.status ≡ true
  pub station : Station
  pub at_station : find (λ (s : Station). s.id == device.station_id) db.stations ≡ some station
  pub of_company : station.company_id ≡ company_id
  pub state : DeviceState
  pub has_state : find (λ (s : DeviceState). s.device_id == device.id) db.device_states ≡ some state
  pub is_fresh : is_stale state.last_seen_at now ≡ false
  pub wash_bay : WashBay
  pub at_bay : find (λ b. option_is b.device_id device.id) db.wash_bays ≡ some wash_bay
  pub bay_id : wash_bay.id ≡ wash_bay_id
  pub no_maintenance : find (is_maintained device.id now) db.maintenance ≡ none
  pub configuration : Configuration
  pub published : find (is_published_for device.id) db.configurations ≡ some configuration
  pub named : configuration.version ≡ body.configuration_version
  pub applied : option_is state.acknowledged_version configuration.version ≡ true
  pub is_free : find (occupies wash_bay_id) db.executions ≡ none

none_found : {A : Type 0} (o : Option A) → is_some o ≡ false → o ≡ none
none_found none h = refl
none_found (some a) h = cc

applied_of : (a b : Bool) → (b || not a) ≡ false → a ≡ true
applied_of true b h = refl
applied_of false true h = cc
applied_of false false h = cc

was_active : (b : Bool) → not b ≡ false → b ≡ true
was_active b h = ground arith

check_device-Ready :
    (device : Device) (body : PaymentRequest) (now : ℕ) (db : Db) (site : ℕ × ℕ)
    → check_device device body now db ≡ ok site
    → Ready device body now db site.0 site.1
unfolding check_device
check_device-Ready device body now db site h =
    let (active, h1) = passes (not (device_is_active device.status)) _ _ _ h in
    let (station, at_station, h2) =
      holds (find (λ (s : Station). s.id == device.station_id) db.stations) _ _ _ h1 in
    let (state, has_state, h3) =
      holds (find (λ (s : DeviceState). s.device_id == device.id) db.device_states) _ _ _ h2 in
    let (is_fresh, h4) = passes (is_stale state.last_seen_at now) _ _ _ h3 in
    let (bay, at_bay, h5) =
      holds (find (λ (b : WashBay). option_is b.device_id device.id) db.wash_bays) _ _ _ h4 in
    let (calm, h6) =
      passes (is_some (find (is_maintained device.id now) db.maintenance)) _ _ _ h5 in
    let (c, published, h7) = holds (find (is_published_for device.id) db.configurations) _ _ _ h6 in
    let (same, h8) =
      passes
        (not (c.version == body.configuration_version)
          || not (option_is state.acknowledged_version c.version))
        _ _ _ h7 in
    let (free, h9) = passes (is_some (find (occupies bay.id) db.executions)) _ _ _ h8 in
    let is_site : (station.company_id, bay.id) ≡ site = cc in
    let bay_id : bay.id ≡ site.1 = ap (λ (x : ℕ × ℕ). x.1) is_site in
    record {
      is_active = was_active (device_is_active device.status) active;
      station = station;
      at_station = at_station;
      of_company = ap (λ (x : ℕ × ℕ). x.0) is_site;
      state = state;
      has_state = has_state;
      is_fresh = is_fresh;
      wash_bay = bay;
      at_bay = at_bay;
      bay_id = bay_id;
      no_maintenance = none_found (find (is_maintained device.id now) db.maintenance) calm;
      configuration = c;
      published = published;
      named = ground (arith, same);
      applied = applied_of (option_is state.acknowledged_version c.version) _ same;
      is_free = none_found (find (occupies site.1) db.executions) (rw bay_id at free);
    }

-- A program that is on sale at a price to a company and a device, for the method and the displayed
-- price of a request.
pub record Offered (company_id device_id program_id price : ℕ) (body : PaymentRequest) (db : Db)
    : Type 0 where
  pub program : Program
  pub on_sale :
      find
        (λ (p : Program). p.id == program_id && p.company_id == company_id && p.active)
        db.programs
      ≡ some program
  pub at_price : program.price_minor ≡ price
  pub entitled :
      is_none (
        find
          (λ (e : Entitlement). e.device_id == device_id && e.program_id == program_id && e.enabled)
          db.entitlements)
      ≡ false
  pub by_method :
      is_none (find (is_offered program_id body.payment_method) db.program_methods) ≡ false
  pub displayed :
      shows_price body.payment_method ≡ true → or_else body.displayed_price_minor 0 ≡ price

check_program-Offered :
    (company_id device_id program_id : ℕ) (body : PaymentRequest) (db : Db) (price : ℕ)
    → check_program company_id device_id program_id body db ≡ ok price
    → Offered company_id device_id program_id price body db
unfolding check_program
check_program-Offered company_id device_id program_id body db price h =
    let (p, on_sale, h1) =
      holds
        (find (λ (p : Program). p.id == program_id && p.company_id == company_id && p.active)
          db.programs)
        _ _ _ h in
    let (entitled, h2) =
      passes
        (is_none (
          find
            (λ (e : Entitlement).
              e.device_id == device_id && e.program_id == program_id && e.enabled)
            db.entitlements))
        _ _ _ h1 in
    let (by_method, h3) =
      passes (is_none (find (is_offered program_id body.payment_method) db.program_methods)) _ _ _
        h2 in
    let (shown, h4) =
      passes
        (shows_price body.payment_method
          && not (or_else body.displayed_price_minor 0 == p.price_minor))
        _ _ _ h3 in
    let at_price : p.price_minor ≡ price = cc in
    record {
      program = p;
      on_sale = on_sale;
      at_price = at_price;
      entitled = entitled;
      by_method = by_method;
      displayed = λ shows. ground (arith, shown, shows, at_price);
    }

-- All the checks together.
pub admit-Ready :
    (crypto : Crypto) (device : Device) (body : PaymentRequest) (now : ℕ) (db : Db) (terms : Terms)
    → admit crypto device body now db ≡ ok terms
    → Ready device body now db terms.company_id terms.wash_bay_id
      × (choose_program crypto terms.company_id device.station_id body db ≡ ok terms.program_id)
      × Offered terms.company_id device.id terms.program_id terms.price body db
unfolding admit
admit-Ready crypto device body now db terms h =
    let (site, checked, h1) = first_step (check_device device body now db) _ _ h in
    let (program_id, chosen, h2) =
      first_step (choose_program crypto site.0 device.station_id body db) _ _ h1 in
    let (price, priced, h3) =
      first_step (check_program site.0 device.id program_id body db) _ _ h2 in
    let is_terms : record {
      company_id = site.0;
      wash_bay_id = site.1;
      program_id = program_id;
      price = price;
    }
        ≡ terms =
      cc in
    rw⁻¹ is_terms (
      check_device-Ready device body now db site checked,
      chosen,
      check_program-Offered site.0 device.id program_id body db price priced,
    )
