-- ===== src/Seed/Rows/Work.antt =====
-- The INSERTs of `seed_sql` into the tables of payments, executions and commands.
use Prim.Native.String.{◌++◌}
use python_vs_go_pos_benchma.Prelude.{
  ℕ, ◌+◌, ◌-◌, ◌*◌, ◌%◌, none, some, List, map, ◌==◌, if◌then◌else◌,
}
use python_vs_go_pos_benchma.Schema.{seconds}
use python_vs_go_pos_benchma.Schema.Fleet.{Station}
use python_vs_go_pos_benchma.Schema.Money.{Method, Payment, PaymentStatus}
use python_vs_go_pos_benchma.Schema.Ops.{Execution, ExecutionStatus, Command, CommandStatus}
use python_vs_go_pos_benchma.Seed.Decimal.{decimal, lpad}
use python_vs_go_pos_benchma.Seed.Series.{range, join}
use python_vs_go_pos_benchma.Seed.Profile.{Profile, command_count}
use python_vs_go_pos_benchma.Seed.Rows.Given.{Digests, fixed_ts}
use python_vs_go_pos_benchma.Seed.Rows.Fleet.{stations}

module _ (digest : Digests) (cfg : Profile) where
  -- CASE id % 3 WHEN 0 THEN 'CARD' WHEN 1 THEN 'QR' ELSE 'RF_CARD' END
  abbrev pub seeded_method : ℕ → Method
  seeded_method id =
      if id % 3 == 0 then Method.card else if id % 3 == 1 then Method.qr else Method.rf_card

  abbrev pub seeded_status : ℕ → PaymentStatus
  seeded_status id = if id % 20 == 0 then PaymentStatus.failed else PaymentStatus.success

  -- A row of `enriched` as it is inserted.
  abbrev pub payment : ℕ × Station → Payment
  payment (id, s) = record {
    id = id;
    device_id = (id - 1) % cfg.devices + 1;
    station_id = (id - 1) % cfg.stations + 1;
    idempotency_key = "idem-" ++ lpad 12 (decimal id);
    request_hash = digest.md5 ("request-" ++ decimal id);
    method = seeded_method id;
    amount_minor = 1000 + id % 20 * 100;
    currency = "TRY";
    status = seeded_status id;
    error_code = none;
    error_message = none;
    program_id = some ((s.company_id - 1) * 3 + (id - 1) % 3 + 1);
    qr_code_id = none;
    rf_wallet_id = none;
    created_at = fixed_ts + seconds (id % 86400);
    completed_at = some (fixed_ts + seconds (id % 86400) + 250000);
  }

  unfoldable pub payments : List Payment
  payments = map payment (
      join (λ g s. s.id == (g - 1) % cfg.stations + 1) (range 1 cfg.payments) (stations digest cfg))

  abbrev pub execution : ℕ × Payment → Execution
  execution (g, p) = record {
    id = g;
    payment_id = g;
    device_id = p.device_id;
    wash_bay_id = some p.device_id;
    status = ExecutionStatus.created;
    created_at = fixed_ts + seconds (g % 3600);
    started_at = none;
    completed_at = none;
  }

  unfoldable pub executions : List Execution
  executions = map execution (join (λ g p. p.id == g) (range 1 (command_count cfg)) payments)

  abbrev pub command : ℕ × Execution → Command
  command (g, e) = record {
    id = g;
    device_id = e.device_id;
    execution_id = e.id;
    status = CommandStatus.pending;
    payload = "{}";
    created_at = fixed_ts + seconds (g % 3600);
    sent_at = none;
    acknowledged_at = none;
    completed_at = none;
    result_code = none;
  }

  unfoldable pub commands : List Command
  commands = map command (join (λ g e. e.id == g) (range 1 (command_count cfg)) executions)
