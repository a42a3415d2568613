-- ===== src/Seed/Database/Sound.antt =====
-- A freshly seeded database satisfies the invariants of the server.
use Prim.Native.String.{◌++◌}
use text.Mathlib.TextLemmas.{append_cancel_left}
use python_vs_go_pos_benchma.Prelude.{
  ℕ, ◌+◌, ◌≡◌, ◌≢◌, ◌≤◌, ◌<◌, refl, sym, ap, ◌∙◌, inl, inr, arith, Bool-cases, String, [], eq_iff,
  count, All, IsKey, max,
}
use python_vs_go_pos_benchma.Schema.Money.{Payment, QrCode, RfWallet}
use python_vs_go_pos_benchma.Payments.Create.{has_key}
use python_vs_go_pos_benchma.Payments.Admission.{option_is}
use python_vs_go_pos_benchma.Payments.Create.Codes.{IsAccounted}
use python_vs_go_pos_benchma.Payments.Create.Sound.{PaymentsSound}
use python_vs_go_pos_benchma.Commands.Sound.{CommandsSound, IsReported}
use python_vs_go_pos_benchma.Worker.Sweep.Alarms.{AlarmsSound}
use python_vs_go_pos_benchma.Seed.Decimal.{decimal, lpad}
use python_vs_go_pos_benchma.Seed.Decimal.RoundTrip.{value, power_of_ten, value-lpad}
use python_vs_go_pos_benchma.Seed.Series.Counting.{
  All-rows, count-rows, count-rows_none, IsKey-rows, IsKey-serial, All-serial, All-of_map,
  All-always,
}
use python_vs_go_pos_benchma.Seed.Profile.{Profile, command_count}
use python_vs_go_pos_benchma.Seed.Rows.{Digests, payments, qr_codes, rf_wallets}
use python_vs_go_pos_benchma.Seed.Database.{seed_db, IsProfile}
use python_vs_go_pos_benchma.Seed.Database.Joined.{
  payment_at, payments_lem, command_at, commands_lem,
}

-- Two payments of the seed have different idempotency keys.
keys_differ :
    (g h : ℕ)
    → g < h
    → h < power_of_ten 12
    → "idem-" ++ lpad 12 (decimal g) ≢ "idem-" ++ lpad 12 (decimal h)
keys_differ g h apart high e =
    let same = append_cancel_left "idem-" (lpad 12 (decimal g)) (lpad 12 (decimal h)) e in
    let back : g ≡ h =
      sym (value-lpad 12 g (omega arith) (omega (arith, apart, high)) (omega arith))
      ∙ ap (value 0) same
      ∙ value-lpad 12 h (omega arith) high (omega arith) in
    omega (arith, back, apart)

module _ (digest : Digests) (cfg : Profile) (ok_ : IsProfile cfg) where
  keys : (d : ℕ) (k : String) → count (has_key d k) (payments digest cfg) ≤ 1
  keys d k =
      let fits = ok_.payments in
      rw (payments_lem digest cfg ok_) (
        count-rows (payment_at digest cfg ok_) (has_key d k) 1 cfg.payments (λ g h low apart high e.
          elim (Bool-cases (has_key d k (payment_at digest cfg ok_ h))) [
            | inl both ↦
                let k_g : "idem-" ++ lpad 12 (decimal g) ≡ k =
                  ground (arith, e, eq_iff ("idem-" ++ lpad 12 (decimal g)) k) in
                let k_h : "idem-" ++ lpad 12 (decimal h) ≡ k =
                  ground (arith, both, eq_iff ("idem-" ++ lpad 12 (decimal h)) k) in
                absurd (keys_differ g h apart (omega (arith, high, fits)) (k_g ∙ sym k_h))
            | inr other ↦ other
          ]))

  ids_below : All (λ (p : Payment). p.id < max cfg.payments 1 + 1) (payments digest cfg)
  ids_below = rw (payments_lem digest cfg ok_) (
      All-rows (payment_at digest cfg ok_) (λ p. p.id < max cfg.payments 1 + 1) 1 cfg.payments
        (λ g low high. omega arith))

  ids : IsKey (λ (p : Payment). p.id) (payments digest cfg)
  ids =
      rw (payments_lem digest cfg ok_)
        (IsKey-rows (payment_at digest cfg ok_) (λ p. p.id) 1 cfg.payments (λ g. refl))

  redeemed_none :
      (i : ℕ) → count (λ (p : Payment). option_is p.qr_code_id i) (payments digest cfg) ≡ 0
  redeemed_none i = rw (payments_lem digest cfg ok_) (
      count-rows_none (payment_at digest cfg ok_) (λ p. option_is p.qr_code_id i) 1 cfg.payments
        (λ g low high. refl))

  codes-IsAccounted : All (IsAccounted (payments digest cfg)) (qr_codes digest cfg)
  unfolding qr_codes
  codes-IsAccounted = All-serial (IsAccounted (payments digest cfg)) _ 1 (
      All-of_map (λ f. (n : ℕ) → IsAccounted (payments digest cfg) (f n)) _ _
        (All-always _ _ (λ r n. (redeemed_none n, omega arith))))

  code_ids : IsKey (λ (q : QrCode). q.id) (qr_codes digest cfg)
  unfolding qr_codes
  code_ids =
      IsKey-serial (λ q. q.id) _ 1
        (All-of_map (λ f. (n : ℕ) → (f n).id ≡ n) _ _ (All-always _ _ (λ r n. refl)))

  wallet_ids : IsKey (λ (w : RfWallet). w.id) (rf_wallets digest cfg)
  unfolding rf_wallets
  wallet_ids =
      IsKey-serial (λ w. w.id) _ 1
        (All-of_map (λ f. (n : ℕ) → (f n).id ≡ n) _ _ (All-always _ _ (λ r n. refl)))

  pub seed_db-PaymentsSound : PaymentsSound (seed_db digest cfg)
  unfolding seed_db
  seed_db-PaymentsSound = record {
    keys = keys;
    ids_below = ids_below;
    ids = ids;
    rights = λ i. omega arith;
    debits = λ i. omega arith;
    codes = codes-IsAccounted;
    code_ids = code_ids;
    wallet_ids = wallet_ids;
  }

  pub seed_db-CommandsSound : CommandsSound (seed_db digest cfg)
  unfolding seed_db
  seed_db-CommandsSound = record {
    ids =
        rw (commands_lem digest cfg ok_)
          (IsKey-rows (command_at digest cfg ok_) (λ c. c.id) 1 (command_count cfg) (λ g. refl));
    one_result = λ i. omega arith;
    each = rw (commands_lem digest cfg ok_) (
        All-rows (command_at digest cfg ok_) (IsReported []) 1 (command_count cfg)
          (λ g low high. record { reported = refl; timed = λ h. cc }));
  }

  pub seed_db-AlarmsSound : AlarmsSound (seed_db digest cfg)
  unfolding seed_db
  seed_db-AlarmsSound = record { ids_below = tt; ids = λ i. omega arith; once = λ d k. omega arith }
