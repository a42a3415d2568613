-- ===== src/Gate.antt =====
-- `hard_gate` of scripts/correctness_driver.py: the eight queries that a run has to pass.
pub mod Clean
pub mod Sees
pub mod Passed
pub mod Seeded
use python_vs_go_pos_benchma.Prelude.{
  ℕ, Bool, true, not, ◌&&◌, ◌||◌, List, [], ◌∷◌, map, ltb, ◌==◌, str_eq, is_some, find, select,
  count, length, String, codes, starts_with,
}
use python_vs_go_pos_benchma.Schema.{Db}
use python_vs_go_pos_benchma.Schema.Money.{Payment, LedgerEntry, StartRight, is_success}
use python_vs_go_pos_benchma.Schema.Ops.{Command, Execution}
use python_vs_go_pos_benchma.Payments.Create.{has_key, is_rf_card}
use python_vs_go_pos_benchma.Payments.Create.Sound.{right_for, debit_for}
use python_vs_go_pos_benchma.Commands.Moves.{is_terminal}
use python_vs_go_pos_benchma.Commands.Agreed.{same_word}
use python_vs_go_pos_benchma.Seed.Series.{join}

module _ {A : Type 0} where
  -- One row of each group of a GROUP BY, …
  abbrev pub groups : (A → A → Bool) → List A → List A
  groups same [] = []
  groups same (x ∷ xs) = x ∷ select (λ y. not (same x y)) (groups same xs)

  -- … and SELECT count(*) FROM (SELECT … GROUP BY … HAVING …).
  abbrev pub count_groups : (A → A → Bool) → (List A → Bool) → List A → ℕ
  count_groups same having rows = count (λ g. having (select (same g) rows)) (groups same rows)

-- GROUP BY device_id, idempotency_key
abbrev pub same_tuple : Payment → Payment → Bool
same_tuple g p = has_key g.device_id g.idempotency_key p

-- idempotency_key LIKE 'corr-%'
abbrev pub is_corr : String → Bool
is_corr key = starts_with (codes "corr-") (codes key)

-- NOT EXISTS (SELECT 1 FROM start_rights …) or NOT EXISTS (SELECT 1 FROM rf_wallet_ledger …)
abbrev pub is_partial : List StartRight → List LedgerEntry → Payment → Bool
is_partial rights ledger p =
    (is_success p.status && not (is_some (find (right_for p.id) rights)))
    || (is_success p.status && is_rf_card p.method && not (is_some (find (debit_for p.id) ledger)))

pub record HardGate : Type 0 where
  pub duplicate_successful_payment : ℕ
  pub qr_double_redemption : ℕ
  pub rf_double_spend : ℕ
  pub negative_wallet : ℕ
  pub duplicate_ledger_debit : ℕ
  pub idempotency_mismatch : ℕ
  pub illegal_command_state_transition : ℕ
  pub partial_committed_financial_state : ℕ

unfoldable pub hard_gate : Db → HardGate
hard_gate db = record {
  duplicate_successful_payment =
      count_groups same_tuple (λ ps. ltb 1 (count (λ p. is_success p.status) ps)) db.payments;
  qr_double_redemption = count (λ q. ltb q.usage_limit q.usage_count) db.qr_codes;
  rf_double_spend = count (λ w. ltb w.balance_minor 0) db.rf_wallets;
  negative_wallet = count (λ w. ltb w.balance_minor 0) db.rf_wallets;
  duplicate_ledger_debit =
      count_groups (λ g e. e.payment_id == g.payment_id) (λ es. ltb 1 (length es))
        (select (λ e. e.is_debit) db.ledger);
  idempotency_mismatch =
      count_groups same_tuple (λ ps. ltb 1 (length (groups str_eq (map (λ p. p.request_hash) ps))))
        db.payments;
  illegal_command_state_transition =
      count (λ r. is_terminal r.0.status && not (same_word r.1.status r.0.status))
        (join (λ c e. e.id == c.execution_id) db.commands db.executions);
  partial_committed_financial_state =
      count (λ p. is_corr p.idempotency_key && is_partial db.start_rights db.ledger p) db.payments;
}

-- `not any(gate.values())`
abbrev pub clean : HardGate
clean = record {
  duplicate_successful_payment = 0;
  qr_double_redemption = 0;
  rf_double_spend = 0;
  negative_wallet = 0;
  duplicate_ledger_debit = 0;
  idempotency_mismatch = 0;
  illegal_command_state_transition = 0;
  partial_committed_financial_state = 0;
}
