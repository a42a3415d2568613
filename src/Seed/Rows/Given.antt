-- ===== src/Seed/Rows/Given.antt =====
-- What the INSERTs of `seed_sql` share: digests as parameters, and two instants.
use python_vs_go_pos_benchma.Prelude.{ℕ, String, Text}
use python_vs_go_pos_benchma.Dashboard.Period.{instant}

-- encode(digest(…, 'sha256'), 'hex'), encode(hmac(…, pepper, 'sha256'), 'hex'), md5, and the JSON of
-- jsonb_build_object on a device's and a station's key. The arguments of hmac stand as in Python.
pub record Digests : Type 0 where
  pub sha256 : Text → String
  pub hmac_sha256 : Text → Text → String
  pub md5 : String → String
  pub snapshot : String → String → String

-- TIMESTAMPTZ '2026-08-31 00:00:00+00'
unfoldable pub fixed_ts : ℕ
fixed_ts = instant (record { year = 2026; month = 8; day = 31; time = 0 })

-- TIMESTAMPTZ '2027-12-31 23:59:59+00'
unfoldable pub expires_ts : ℕ
expires_ts = instant (record { year = 2027; month = 12; day = 31; time = 86399000000 })
