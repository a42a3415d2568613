-- ===== src/Seed/Rows/Offer.antt =====
-- The INSERTs of `seed_sql` into the tables of programs, wash bays and means of payment.
use Prim.Native.String.{◌++◌}
use python_vs_go_pos_benchma.Prelude.{
  ℕ, ◌+◌, ◌-◌, ◌*◌, ◌/◌, ◌%◌, true, some, Text, codes, List, [], ◌∷◌, map, ◌==◌,
}
use python_vs_go_pos_benchma.Schema.Fleet.{WashBay}
use python_vs_go_pos_benchma.Schema.Money.{
  Program, Method, ProgramMethod, Entitlement, QrCode, QrStatus, RfCard, RfWallet,
}
use python_vs_go_pos_benchma.Payments.Request.{qr_pepper}
use python_vs_go_pos_benchma.Payments.Uid.{to_upper}
use python_vs_go_pos_benchma.Seed.Decimal.{decimal, to_hex, lpad}
use python_vs_go_pos_benchma.Seed.Series.{range, join, serial}
use python_vs_go_pos_benchma.Seed.Profile.{Profile, qr_count, wallet_count}
use python_vs_go_pos_benchma.Seed.Rows.Given.{Digests, fixed_ts, expires_ts}
use python_vs_go_pos_benchma.Seed.Rows.Fleet.{stations, devices, at_station}

module _ (digest : Digests) (cfg : Profile) where
  abbrev pub program : ℕ → Program
  program g = record {
    id = g;
    company_id = (g - 1) / 3 + 1;
    price_minor = 1000 + (g - 1) % 3 * 500;
    active = true;
  }

  unfoldable pub programs : List Program
  programs = map program (range 1 (cfg.companies * 3))

  -- CROSS JOIN (VALUES ('CARD'), ('QR'), ('RF_CARD'))
  unfoldable pub program_methods : List ProgramMethod
  program_methods = serial 1 (
      map (λ r id. record { id = id; program_id = r.0.id; payment_method = r.1; enabled = true })
        (join (λ p m. true) programs (Method.card ∷ Method.qr ∷ Method.rf_card ∷ [])))

  -- The first program of a company.
  abbrev pub first_program : ℕ → ℕ
  first_program company_id = (company_id - 1) * 3 + 1

  unfoldable pub entitlements : List Entitlement
  entitlements = serial 1 (
      map
        (λ r id. record {
          id = id;
          device_id = r.0.id;
          program_id = first_program r.1.company_id;
          enabled = true;
        })
        (join (at_station digest cfg) (devices digest cfg) (stations digest cfg)))

  unfoldable pub wash_bays : List WashBay
  wash_bays =
      map (λ d. record { id = d.id; station_id = d.station_id; device_id = some d.id })
        (devices digest cfg)

  -- src and scoped
  unfoldable pub qr_codes : List QrCode
  qr_codes = serial 1 (
      map
        (λ r id. record {
          id = id;
          token_hash = digest.hmac_sha256 qr_pepper (codes ("qr-token-" ++ decimal r.0));
          company_id = r.1.company_id;
          station_id = r.1.id;
          program_id = first_program r.1.company_id;
          amount_minor = 1500;
          usage_limit = 1;
          usage_count = 0;
          status = QrStatus.active;
          starts_at = fixed_ts;
          expires_at = expires_ts;
        })
        (join (λ g s. s.id == (g - 1) % cfg.stations + 1) (range 1 (qr_count cfg))
          (stations digest cfg)))

  -- upper('AABBCCDD' || lpad(to_hex(g), 8, '0'))
  abbrev pub seeded_uid : ℕ → Text
  seeded_uid g = map to_upper (codes ("AABBCCDD" ++ lpad 8 (to_hex g)))

  unfoldable pub rf_cards : List RfCard
  rf_cards = serial 1 (
      map
        (λ g id. record {
          id = id;
          company_id = (g - 1) % cfg.companies + 1;
          uid_hash = digest.hmac_sha256 qr_pepper (seeded_uid g);
          is_active = true;
          expires_at = some expires_ts;
        })
        (range 1 (wallet_count cfg)))

  unfoldable pub rf_wallets : List RfWallet
  rf_wallets = serial 1 (
      map
        (λ c id. record {
          id = id;
          rf_card_id = c.id;
          balance_minor = 1000;
          version = 0;
          updated_at = fixed_ts;
        })
        rf_cards)
