-- ===== src/Seed/Database/Joined.antt =====
-- The joins of `seed_sql`: each row finds its one partner.
use python_vs_go_pos_benchma.Prelude.{
  ℕ, ◌+◌, ◌-◌, ◌%◌, ◌≡◌, refl, ap, ◌∙◌, arith, ◌∷◌, [], map, select, ◌==◌,
}
use python_vs_go_pos_benchma.Schema.Money.{Payment}
use python_vs_go_pos_benchma.Schema.Ops.{Execution, Command}
use python_vs_go_pos_benchma.Seed.Series.{range}
use python_vs_go_pos_benchma.Seed.Series.Counting.{All-range, select-rows, join_each, map-map}
use python_vs_go_pos_benchma.Seed.Profile.{Profile, command_count}
use python_vs_go_pos_benchma.Seed.Rows.{
  Digests, station, execution, command, stations, payment, payments, executions, commands,
}
use python_vs_go_pos_benchma.Seed.Database.{IsProfile}

module _ (digest : Digests) (cfg : Profile) (ok_ : IsProfile cfg) where
  pub station_of :
      (i : ℕ)
      → select (λ s. s.id == i % cfg.stations + 1) (stations digest cfg)
        ≡ station digest cfg (i % cfg.stations + 1) ∷ []
  unfolding stations
  station_of i =
      let some_ = ok_.stations in
      select-rows (station digest cfg) (λ s. s.id) 1 cfg.stations (i % cfg.stations + 1) (λ g. refl)
        (omega arith) (omega (arith, some_))

  -- The row of a payment's number, that of an execution's, and that of a command's.
  abbrev pub payment_at : ℕ → Payment
  payment_at g = payment digest cfg (g, station digest cfg ((g - 1) % cfg.stations + 1))

  abbrev pub execution_at : ℕ → Execution
  execution_at g = execution digest cfg (g, payment_at g)

  abbrev pub command_at : ℕ → Command
  command_at g = command digest cfg (g, execution_at g)

  pub payments_lem : payments digest cfg ≡ map payment_at (range 1 cfg.payments)
  unfolding payments
  payments_lem =
      ap (map (payment digest cfg)) (
        join_each (λ g s. s.id == (g - 1) % cfg.stations + 1)
          (λ g. station digest cfg ((g - 1) % cfg.stations + 1)) (range 1 cfg.payments)
          (stations digest cfg)
          (All-range
            (λ g.
              select (λ s. s.id == (g - 1) % cfg.stations + 1) (stations digest cfg)
              ≡ station digest cfg ((g - 1) % cfg.stations + 1) ∷ [])
            1 cfg.payments (λ g low high. station_of (g - 1))))
      ∙ map-map (payment digest cfg) (λ g. (g, station digest cfg ((g - 1) % cfg.stations + 1)))
          (range 1 cfg.payments)

  pub executions_lem : executions digest cfg ≡ map execution_at (range 1 (command_count cfg))
  unfolding executions
  executions_lem =
      let enough = ok_.commands in
      rw payments_lem (
        ap (map (execution digest cfg)) (
          join_each (λ g p. p.id == g) payment_at (range 1 (command_count cfg))
            (map payment_at (range 1 cfg.payments))
            (All-range
              (λ g.
                select (λ (p : Payment). p.id == g) (map payment_at (range 1 cfg.payments))
                ≡ payment_at g ∷ [])
              1 (command_count cfg)
              (λ g low high.
                select-rows payment_at (λ p. p.id) 1 cfg.payments g (λ h. refl) low
                  (omega (arith, high, enough)))))
        ∙ map-map (execution digest cfg) (λ g. (g, payment_at g)) (range 1 (command_count cfg)))

  pub commands_lem : commands digest cfg ≡ map command_at (range 1 (command_count cfg))
  unfolding commands
  commands_lem = rw executions_lem (
      ap (map (command digest cfg)) (
        join_each (λ g e. e.id == g) execution_at (range 1 (command_count cfg))
          (map execution_at (range 1 (command_count cfg)))
          (All-range
            (λ g.
              select (λ (e : Execution). e.id == g) (map execution_at (range 1 (command_count cfg)))
              ≡ execution_at g ∷ [])
            1 (command_count cfg)
            (λ g low high.
              select-rows execution_at (λ e. e.id) 1 (command_count cfg) g (λ h. refl) low high)))
      ∙ map-map (command digest cfg) (λ g. (g, execution_at g)) (range 1 (command_count cfg)))
