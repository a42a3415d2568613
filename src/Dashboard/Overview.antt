-- ===== src/Dashboard/Overview.antt =====
-- `overview` of python/app/dashboard.py: counts and sums over the rows of one company.
pub mod Figures
use python_vs_go_pos_benchma.Prelude.{
  ℕ, ◌+◌, Bool, false, ◌&&◌, Option, none, some, String, List, [], ◌∷◌, ltb, leb, ◌==◌, is_some,
  is_none, find, select, count, sum_of, length, if◌then◌else◌,
}
use python_vs_go_pos_benchma.Schema.{Db, seconds}
use python_vs_go_pos_benchma.Schema.Fleet.{Device, device_is_active}
use python_vs_go_pos_benchma.Schema.Money.{
  Payment, Method, method_eq, is_success, is_failed, is_pending, is_cancelled,
}
use python_vs_go_pos_benchma.Schema.Ops.{Execution, has_failed}
use python_vs_go_pos_benchma.Errors.{Result, ok, failure, or_raise, ◌>>=◌}
use python_vs_go_pos_benchma.Dashboard.Period.{Datetime, period_bounds}

-- JOIN stations s ON s.id=… WHERE s.company_id=:company_id; a station's id is its primary key
abbrev pub in_company : ℕ → Db → ℕ → Bool
in_company company_id db station_id =
    is_some (find (λ s. s.id == station_id && s.company_id == company_id) db.stations)

-- LEFT JOIN device_current_states: the column last_seen_at, NULL where no row joins
abbrev pub last_seen : Db → Device → Option ℕ
last_seen db d = elim (find (λ s. s.device_id == d.id) db.device_states) [
  | none ↦ none
  | some s ↦ s.last_seen_at
]

-- last_seen_at >= now - 120 s, and its opposite; both are unknown, so not counted, at NULL
abbrev pub is_online : ℕ → Option ℕ → Bool
is_online now none = false
is_online now (some t) = leb now (t + seconds 120)

abbrev pub is_offline : ℕ → Option ℕ → Bool
is_offline now none = false
is_offline now (some t) = ltb (t + seconds 120) now

pub record DeviceFigures : Type 0 where
  pub total : ℕ
  pub online : ℕ
  pub offline : ℕ
  pub unknown : ℕ
  pub active : ℕ

abbrev pub company_devices : ℕ → Db → List Device
company_devices company_id db = select (λ d. in_company company_id db d.station_id) db.devices

unfoldable pub device_figures : ℕ → ℕ → Db → DeviceFigures
device_figures company_id now db =
    let devices = company_devices company_id db in
    record {
      total = length devices;
      online = count (λ d. is_online now (last_seen db d)) devices;
      offline = count (λ d. is_offline now (last_seen db d)) devices;
      unknown = count (λ d. is_none (last_seen db d)) devices;
      active = count (λ d. device_is_active d.status) devices;
    }

-- The payments of the company's stations with start <= created_at < end.
abbrev pub company_payments : ℕ → ℕ → ℕ → Db → List Payment
company_payments company_id start end_ db =
    select
      (λ p.
        in_company company_id db p.station_id && leb start p.created_at && ltb p.created_at end_)
      db.payments

pub record Financial : Type 0 where
  pub transaction_count : ℕ
  pub successful_count : ℕ
  pub failed_count : ℕ
  pub pending_count : ℕ
  pub cancelled_count : ℕ
  pub gross_amount : ℕ

unfoldable pub financial : List Payment → Financial
financial payments = record {
  transaction_count = length payments;
  successful_count = count (λ p. is_success p.status) payments;
  failed_count = count (λ p. is_failed p.status) payments;
  pending_count = count (λ p. is_pending p.status) payments;
  cancelled_count = count (λ p. is_cancelled p.status) payments;
  gross_amount = sum_of (λ p. is_success p.status) (λ p. p.amount_minor) payments;
}

-- A row of the query that groups by method.
pub record MethodFigures : Type 0 where
  pub payment_method : Method
  pub total_count : ℕ
  pub successful_count : ℕ
  pub amount : ℕ

abbrev pub method_row : List Payment → Method → MethodFigures
method_row payments m = record {
  payment_method = m;
  total_count = count (λ p. method_eq p.method m) payments;
  successful_count = count (λ p. method_eq p.method m && is_success p.status) payments;
  amount = sum_of (λ p. method_eq p.method m && is_success p.status) (λ p. p.amount_minor) payments;
}

-- A group exists for a method that some payment has.
abbrev pub add_group : MethodFigures → List MethodFigures → List MethodFigures
add_group g rest = if g.total_count == 0 then rest else g ∷ rest

-- GROUP BY p.method ORDER BY p.method: the CHECK of the column allows three methods.
unfoldable pub payment_methods : List Payment → List MethodFigures
payment_methods payments =
    add_group (method_row payments Method.card) (
      add_group (method_row payments Method.qr) (add_group (method_row payments Method.rf_card) []))

-- JOIN payment_transactions p ON p.id=e.payment_id JOIN stations s ON s.id=p.station_id
abbrev pub execution_in_company : ℕ → Db → Execution → Bool
execution_in_company company_id db e =
    is_some (find (λ p. p.id == e.payment_id && in_company company_id db p.station_id) db.payments)

abbrev pub failed_executions : ℕ → ℕ → ℕ → Db → ℕ
failed_executions company_id start end_ db =
    count
      (λ e.
        execution_in_company company_id db e
        && leb start e.created_at
        && ltb e.created_at end_
        && has_failed e.status)
      db.executions

-- The answer. Its constants (no dealers, one company, no refunds, the currency) are left out, and so
-- is the net amount, which the code sets to the gross amount.
pub record Overview : Type 0 where
  pub company_name : String
  pub period_start : ℕ
  pub period_end : ℕ
  pub station_count : ℕ
  pub wash_bay_count : ℕ
  pub devices : DeviceFigures
  pub money : Financial
  pub methods : List MethodFigures
  pub failed_execution_count : ℕ

-- `now` is read twice by the code, once for the period and once for the devices.
unfoldable pub overview : ℕ → String → Datetime → ℕ → Db → Result Overview
unfolding device_figures financial payment_methods
overview company_id period today now db = do
  bounds ← period_bounds period today
  company ←
      or_raise (find (λ c. c.id == company_id) db.companies)
        (failure 404 "COMPANY_NOT_FOUND" "Şirket bulunamadı.")
  let payments = company_payments company_id bounds.0 bounds.1 db
  ok (record {
    company_name = company.name;
    period_start = bounds.0;
    period_end = bounds.1;
    station_count = count (λ s. s.company_id == company_id) db.stations;
    wash_bay_count = count (λ b. in_company company_id db b.station_id) db.wash_bays;
    devices = device_figures company_id now db;
    money = financial payments;
    methods = payment_methods payments;
    failed_execution_count = failed_executions company_id bounds.0 bounds.1 db;
  })
