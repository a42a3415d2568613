-- ===== src/Payments/Admission.antt =====
-- The checks of `create_payment` (python/app/payments.py) that come before any money moves: the
-- device and its station, the configuration, the wash bay, the program and its price.
pub mod Ready
pub mod Complete
use python_vs_go_pos_benchma.Prelude.{
  ℕ, ◌+◌, Bool, true, false, not, ◌&&◌, ◌||◌, Option, none, some, String, [], ltb, leb, ◌==◌,
  str_eq, is_none, is_some, or_else, find, if◌then◌else◌,
}
use python_vs_go_pos_benchma.Schema.{Db, seconds}
use python_vs_go_pos_benchma.Schema.Fleet.{
  Device, Configuration, MaintenanceWindow, MaintenanceStatus, device_is_active,
}
use python_vs_go_pos_benchma.Schema.Money.{Method, method_eq, ProgramMethod, QrCode}
use python_vs_go_pos_benchma.Schema.Ops.{Execution, is_busy}
use python_vs_go_pos_benchma.Errors.{
  Error, Details, app_error, Result, ok, failure, or_raise, raise_if, ◌>>=◌, ◌>>◌,
}
use python_vs_go_pos_benchma.Payments.Request.{PaymentRequest, Crypto, secret_hash, qr_pepper}

-- What the checks establish for the charge.
pub record Terms : Type 0 where
  pub company_id : ℕ
  pub wash_bay_id : ℕ
  pub program_id : ℕ
  pub price : ℕ

abbrev pub not_operational : String → Error
not_operational = failure 409 "DEVICE_NOT_OPERATIONAL"

abbrev pub device_offline : Error
device_offline = failure 409 "DEVICE_OFFLINE" "Çevrimdışı cihazda ödeme başlatılamaz."

abbrev pub in_maintenance : Error
in_maintenance = failure 409 "DEVICE_IN_MAINTENANCE" "Bakım durumundaki cihazda ödeme başlatılamaz."

abbrev pub not_acknowledged : Error
not_acknowledged =
    failure 409 "CONFIGURATION_NOT_ACKNOWLEDGED"
      "Güncel cihaz yapılandırması uygulanmadan ödeme başlatılamaz."

abbrev pub wash_bay_busy : Error
wash_bay_busy = failure 409 "WASH_BAY_BUSY" "Peronda devam eden bir program bulunuyor."

abbrev pub qr_not_found : Error
qr_not_found = failure 404 "QR_NOT_FOUND" "QR kod bu istasyonda geçerli değil."

abbrev pub price_changed : ℕ → Error
price_changed price =
    app_error 409 "PROGRAM_PRICE_CHANGED"
      "Program fiyatı değişti. Güncel fiyatı onaylayıp tekrar deneyin."
      (Details.current_price price)

-- `last_seen_at is None or last_seen_at < now - 120 s`, without a subtraction
abbrev pub is_stale : Option ℕ → ℕ → Bool
is_stale none now = true
is_stale (some last_seen) now = ltb (last_seen + seconds 120) now

abbrev pub option_is : Option ℕ → ℕ → Bool
option_is none n = false
option_is (some m) n = m == n

abbrev pub window_is_active : MaintenanceStatus → Bool
window_is_active MaintenanceStatus.active = true
window_is_active _ = false

-- A maintenance window of the device that is active and contains the instant.
abbrev pub is_maintained : ℕ → ℕ → MaintenanceWindow → Bool
is_maintained device_id now w =
    option_is w.device_id device_id
    && window_is_active w.status
    && leb w.starts_at now
    && ltb now w.ends_at

abbrev pub is_published_for : ℕ → Configuration → Bool
is_published_for device_id c = c.device_id == device_id && c.is_published

-- A program execution that occupies the wash bay.
abbrev pub occupies : ℕ → Execution → Bool
occupies wash_bay_id e = option_is e.wash_bay_id wash_bay_id && is_busy e.status

-- The device may take a payment now: its company and its wash bay.
unfoldable pub check_device : Device → PaymentRequest → ℕ → Db → Result (ℕ × ℕ)
check_device device body now db = do
  raise_if (not (device_is_active device.status)) (not_operational "Cihaz işlem için aktif değil.")
  station ←
      or_raise (find (λ s. s.id == device.station_id) db.stations)
        (not_operational "Cihaz istasyonu bulunamadı.")
  state ← or_raise (find (λ s. s.device_id == device.id) db.device_states) device_offline
  raise_if (is_stale state.last_seen_at now) device_offline
  wash_bay ←
      or_raise (find (λ b. option_is b.device_id device.id) db.wash_bays)
        (failure 409 "DEVICE_NOT_ASSIGNED" "Cihaz bir perona bağlı değil.")
  raise_if (is_some (find (is_maintained device.id now) db.maintenance)) in_maintenance
  configuration ← or_raise (find (is_published_for device.id) db.configurations) not_acknowledged
  raise_if
      (not (configuration.version == body.configuration_version)
        || not (option_is state.acknowledged_version configuration.version))
      not_acknowledged
  raise_if (is_some (find (occupies wash_bay.id) db.executions)) wash_bay_busy
  ok (station.company_id, wash_bay.id)

module _ (crypto : Crypto) where
  -- secret_hash(str(body.get("qr_token") or ""), QR_PEPPER)
  abbrev pub qr_token_hash : PaymentRequest → String
  qr_token_hash body = secret_hash crypto (or_else body.qr_token []) qr_pepper

  abbrev pub has_token : PaymentRequest → QrCode → Bool
  has_token body q = str_eq q.token_hash (qr_token_hash body)

  abbrev pub qr_program : ℕ → ℕ → PaymentRequest → Db → Result ℕ
  qr_program company_id station_id body db = do
    qr ← or_raise (find (has_token body) db.qr_codes) qr_not_found
    raise_if (not (qr.company_id == company_id) || not (qr.station_id == station_id)) qr_not_found
    ok qr.program_id

  abbrev pub is_qr : Method → Bool
  is_qr Method.qr = true
  is_qr _ = false

  -- The program that is asked for: that of the QR code, or of the body.
  unfoldable pub choose_program : ℕ → ℕ → PaymentRequest → Db → Result ℕ
  choose_program company_id station_id body db =
      if is_qr body.payment_method
      then qr_program company_id station_id body db
      else or_raise body.station_program_id
          (failure 422 "STATION_PROGRAM_REQUIRED" "Program zorunludur.")

-- `method in {"CARD", "RF_CARD"}`
abbrev pub shows_price : Method → Bool
shows_price Method.card = true
shows_price Method.rf_card = true
shows_price _ = false

abbrev pub is_offered : ℕ → Method → ProgramMethod → Bool
is_offered program_id method m =
    m.program_id == program_id && method_eq m.payment_method method && m.enabled

-- The program is on sale for this company, this device and this method, at the price displayed.
unfoldable pub check_program : ℕ → ℕ → ℕ → PaymentRequest → Db → Result ℕ
check_program company_id device_id program_id body db = do
  program ←
      or_raise
        (find (λ p. p.id == program_id && p.company_id == company_id && p.active) db.programs)
        (failure 409 "PROGRAM_NOT_AVAILABLE" "Program kullanılamıyor.")
  raise_if
      (is_none (
        find (λ e. e.device_id == device_id && e.program_id == program_id && e.enabled)
          db.entitlements))
      (failure 409 "ENTITLEMENT_REQUIRED" "Cihaz program yetkisine sahip değil.")
  raise_if (is_none (find (is_offered program_id body.payment_method) db.program_methods))
      (failure 409 "PAYMENT_METHOD_NOT_AVAILABLE" "Ödeme yöntemi bu programda açık değil.")
  raise_if
      (shows_price body.payment_method
        && not (or_else body.displayed_price_minor 0 == program.price_minor))
      (price_changed program.price_minor)
  ok program.price_minor

-- All the checks, in their order.
unfoldable pub admit : Crypto → Device → PaymentRequest → ℕ → Db → Result Terms
admit crypto device body now db = do
  site ← check_device device body now db
  program_id ← choose_program crypto site.0 device.station_id body db
  price ← check_program site.0 device.id program_id body db
  ok (record { company_id = site.0; wash_bay_id = site.1; program_id = program_id; price = price })
