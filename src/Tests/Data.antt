-- ===== src/Tests/Data.antt =====
-- A small database, and stand-ins for the digests and json.dumps.
use python_vs_go_pos_benchma.Prelude.{
  ℕ, ◌+◌, Option, none, some, true, String, Text, codes, [], ◌∷◌, or_else,
}
use python_vs_go_pos_benchma.Schema.{Db, seconds}
use python_vs_go_pos_benchma.Schema.Fleet.{
  Device, DeviceStatus, DeviceState, Configuration, AlarmKey,
}
use python_vs_go_pos_benchma.Schema.Money.{Method, QrStatus}
use python_vs_go_pos_benchma.Schema.Ops.{CommandStatus, ExecutionStatus}
use python_vs_go_pos_benchma.Payments.Request.{PaymentRequest, Crypto}
use python_vs_go_pos_benchma.Commands.Report.{ResultRequest}
use python_vs_go_pos_benchma.Api.Endpoints.{Env}

-- Tells an empty text from others.
abbrev pub digest : Text → String
digest [] = "00"
digest (c ∷ t) = "01"

abbrev pub crypto : Crypto
crypto = record { hmac_sha256 = λ key text. digest text; dumps = λ body. or_else body.rf_uid [] }

abbrev pub env : Env
env = record { crypto = crypto; sha256 = digest }

-- 15 January 2024, 07:20 UTC.
abbrev pub noon : ℕ
noon = 63840900000000000

abbrev pub device : Device
device = record { id = 3; station_id = 2; external_key = "POS-3"; status = DeviceStatus.active }

abbrev pub header : Option Text
header = some (codes "Device abc")

abbrev pub configuration : Configuration
configuration = record {
  id = 1;
  device_id = 3;
  version = 1;
  is_published = true;
  checksum = "";
  snapshot = "{}";
}

abbrev pub state : DeviceState
state = record {
  device_id = 3;
  last_seen_at = some noon;
  app_version = none;
  state_payload = "{}";
  acknowledged_version = some 1;
  updated_at = noon;
}

abbrev pub shop_with : ℕ → Db
shop_with price = record {
  companies = record { id = 1; name = "Wash" } ∷ [];
  panel_users = [];
  stations = record { id = 2; company_id = 1 } ∷ [];
  devices = device ∷ [];
  credentials = record { id = 1; device_id = 3; credential_hash = "01"; is_active = true } ∷ [];
  configurations = configuration ∷ [];
  device_states = state ∷ [];
  heartbeats = [];
  wash_bays = record { id = 5; station_id = 2; device_id = some 3 } ∷ [];
  maintenance = [];
  alarms =
      record {
        id = 1;
        device_id = 3;
        alarm_key = AlarmKey.offline 3;
        is_open = true;
        opened_at = 0;
        closed_at = none;
      }
      ∷ [];
  programs = record { id = 6; company_id = 1; price_minor = price; active = true } ∷ [];
  program_methods =
      record { id = 1; program_id = 6; payment_method = Method.rf_card; enabled = true } ∷ [];
  entitlements = record { id = 1; device_id = 3; program_id = 6; enabled = true } ∷ [];
  qr_codes =
      record {
        id = 7;
        token_hash = "00";
        company_id = 1;
        station_id = 2;
        program_id = 6;
        amount_minor = 500;
        usage_limit = 1;
        usage_count = 0;
        status = QrStatus.active;
        starts_at = 0;
        expires_at = noon + seconds 60;
      }
      ∷ [];
  rf_cards =
      record { id = 8; company_id = 1; uid_hash = "01"; is_active = true; expires_at = none } ∷ [];
  rf_wallets =
      record { id = 9; rf_card_id = 8; balance_minor = 2000; version = 1; updated_at = 0 } ∷ [];
  payments = [];
  attempts = [];
  provider_transactions = [];
  start_rights = [];
  ledger = [];
  executions =
      record {
        id = 12;
        payment_id = 90;
        device_id = 3;
        wash_bay_id = none;
        status = ExecutionStatus.running;
        created_at = noon;
        started_at = some noon;
        completed_at = none;
      }
      ∷ [];
  commands =
      record {
        id = 11;
        device_id = 3;
        execution_id = 12;
        status = CommandStatus.acknowledged;
        payload = "{}";
        created_at = noon;
        sent_at = some noon;
        acknowledged_at = some noon;
        completed_at = none;
        result_code = none;
      }
      ∷ [];
  command_results = [];
  events = [];
  audit = [];
  sequences = record { payment = 1; start_right = 1; alarm = 2 };
}

abbrev pub shop : Db
shop = shop_with 500

-- A payment by RF card at a displayed price.
abbrev pub by_card : ℕ → PaymentRequest
by_card price = record {
  station_program_id = some 6;
  payment_method = Method.rf_card;
  configuration_version = 1;
  displayed_price_minor = some price;
  qr_token = none;
  rf_uid = some (codes "04a1:b2c3");
  test_scenario = none;
}

abbrev pub done : ResultRequest
done = record { result = "SUCCESS"; code = none; message = none }
