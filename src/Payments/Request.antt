-- ===== src/Payments/Request.antt =====
-- The body of a payment request, and the functions outside this repository that the service calls.
use python_vs_go_pos_benchma.Prelude.{ℕ, Option, String, Text, codes}
use python_vs_go_pos_benchma.Schema.Money.{Method}

-- DevicePaymentRequest of python/app/main.py, after its validation. Ids are natural numbers: a
-- negative one matches no row. A version or a price has the lower bound 1 there.
pub record PaymentRequest : Type 0 where
  pub station_program_id : Option ℕ
  pub payment_method : Method
  pub configuration_version : ℕ
  pub displayed_price_minor : Option ℕ
  pub qr_token : Option Text
  pub rf_uid : Option Text
  pub test_scenario : Option String

-- hmac.new(key, text, sha256).hexdigest() of the UTF-8 bytes, and json.dumps of a body.
pub record Crypto : Type 0 where
  pub hmac_sha256 : Text → Text → String
  pub dumps : PaymentRequest → Text

-- The constants of python/app/settings.py.
abbrev pub csrf_secret : Text
csrf_secret = codes "benchmark-csrf-secret"

abbrev pub qr_pepper : Text
qr_pepper = codes "benchmark-qr-pepper"

module _ (crypto : Crypto) where
  abbrev pub secret_hash : Text → Text → String
  secret_hash value pepper = crypto.hmac_sha256 pepper value

  abbrev pub request_hash : PaymentRequest → String
  request_hash body = secret_hash (crypto.dumps body) csrf_secret
