-- ===== src/Gate/Passed.antt =====
-- hard_gate of scripts/correctness_driver.py: what its queries ask of the rows.
use python_vs_go_pos_benchma.Prelude.{
  ℕ, ◌≤◌, ◌≡◌, ◌∙◌, refl, ap, inl, inr, arith, true, false, not, ◌&&◌, List, map, ltb, ◌==◌, ==_iff,
  str_eq, eq_iff, select, count, length, All, All-map, String, length-select, count-select_both,
}
use python_vs_go_pos_benchma.Schema.{Db}
use python_vs_go_pos_benchma.Schema.Money.{Payment, LedgerEntry, StartRight, QrCode, is_success}
use python_vs_go_pos_benchma.Schema.Ops.{Command, Execution}
use python_vs_go_pos_benchma.Payments.Create.{has_key}
use python_vs_go_pos_benchma.Payments.Create.Sound.{debit_for}
use python_vs_go_pos_benchma.Payments.Create.Complete.{IsComplete}
use python_vs_go_pos_benchma.Commands.Moves.{is_terminal}
use python_vs_go_pos_benchma.Commands.Agreed.{same_word, Agree}
use python_vs_go_pos_benchma.Gate.{
  HardGate, groups, same_tuple, is_corr, is_partial, hard_gate, clean,
}
use python_vs_go_pos_benchma.Gate.Sees.{one_group, counted_none, all_same, joined}

-- What the gate asks for, row by row.
pub record Passed (db : Db) : Type 0 where
  pub one_success :
      (d : ℕ) (k : String) → count (λ p. is_success p.status) (select (has_key d k) db.payments) ≤ 1
  pub one_hash :
      (d : ℕ) (k : String)
      → let hashes = map (λ (p : Payment). p.request_hash) (select (has_key d k) db.payments) in
        All (λ a. All (λ b. a ≡ b) hashes) hashes
  pub debits : (i : ℕ) → count (debit_for i) db.ledger ≤ 1
  pub codes : All (λ (q : QrCode). q.usage_count ≤ q.usage_limit) db.qr_codes
  pub agree : All (λ c. All (Agree c) db.executions) db.commands
  pub complete :
      All
        (λ p. is_corr p.idempotency_key ≡ true → IsComplete db.start_rights db.ledger p)
        db.payments

apart_keys :
    (d : ℕ) (k : String) (a b : Payment)
    → has_key d k a ≡ false
    → has_key d k b ≡ true
    → same_tuple a b ≡ false
apart_keys d k a b h hit = ground (
  arith,
  h,
  hit,
  eq_iff a.idempotency_key k,
  eq_iff b.idempotency_key k,
  eq_iff b.idempotency_key a.idempotency_key,
)

same_key :
    (d : ℕ) (k : String) (payments : List Payment) (g : Payment)
    → has_key d k g ≡ true
    → select (same_tuple g) payments ≡ select (has_key d k) payments
same_key d k payments g hit =
    let is_d : g.device_id ≡ d = ground (arith, hit) in
    let its : str_eq g.idempotency_key k ≡ true = ground (arith, hit) in
    ap (λ (i : ℕ). select (has_key i g.idempotency_key) payments) is_d
    ∙ ap (λ (s : String). select (has_key d s) payments) ((eq_iff g.idempotency_key k).0 its)

whole :
    (rights : List StartRight) (ledger : List LedgerEntry) (p : Payment)
    → (is_corr p.idempotency_key && is_partial rights ledger p) ≡ false
    → is_corr p.idempotency_key ≡ true
    → IsComplete rights ledger p
whole rights ledger p h corr =
    let not_partial : is_partial rights ledger p ≡ false = ground (arith, h, corr) in
    record {
      has_right = λ won. ground (arith, not_partial, won);
      has_debit = λ won rf. ground (arith, not_partial, won, rf);
    }

agrees :
    (c : Command) (e : Execution)
    → ((e.id == c.execution_id) ≡ true
        → (is_terminal c.status && not (same_word e.status c.status)) ≡ false)
    → Agree c e
agrees c e h ended its = let fine = h its in ground (arith, fine, ended)

at_most_one : (n : ℕ) → ltb 1 n ≡ false → n ≤ 1
at_most_one n h = ground (arith, h)

module _ (db : Db) (passes : hard_gate db ≡ clean) where
  one_success :
      (d : ℕ) (k : String) → count (λ p. is_success p.status) (select (has_key d k) db.payments) ≤ 1
  unfolding hard_gate
  one_success d k =
      elim (one_group same_tuple (λ ps. ltb 1 (count (λ p. is_success p.status) ps)) (has_key d k)
        db.payments (apart_keys d k) (same_key d k db.payments)
        (ap (λ (g : HardGate). g.duplicate_successful_payment) passes)) [
          | inl empty ↦ rw empty (omega arith)
          | inr few ↦ at_most_one _ few
        ]

  one_hash :
      (d : ℕ) (k : String)
      → let hashes = map (λ (p : Payment). p.request_hash) (select (has_key d k) db.payments) in
        All (λ a. All (λ b. a ≡ b) hashes) hashes
  unfolding hard_gate
  one_hash d k =
      elim (one_group same_tuple
        (λ ps. ltb 1 (length (groups str_eq (map (λ (p : Payment). p.request_hash) ps))))
        (has_key d k) db.payments (apart_keys d k) (same_key d k db.payments)
        (ap (λ (g : HardGate). g.idempotency_mismatch) passes)) [
          | inl empty ↦ rw empty tt
          | inr few ↦
              all_same (map (λ (p : Payment). p.request_hash) (select (has_key d k) db.payments))
                (at_most_one _ few)
        ]

  debits : (i : ℕ) → count (debit_for i) db.ledger ≤ 1
  unfolding hard_gate
  debits i =
      let its = λ (e : LedgerEntry). e.payment_id == i in
      let rows = select (λ (e : LedgerEntry). e.is_debit) db.ledger in
      let n = length-select its rows in
      let both = count-select_both its (λ e. e.is_debit) db.ledger in
      elim (one_group (λ (g e : LedgerEntry). e.payment_id == g.payment_id)
        (λ es. ltb 1 (length es)) its rows (λ a b h hit. ground (arith, h, hit))
        (λ g hit.
          ap (λ (j : ℕ). select (λ (e : LedgerEntry). e.payment_id == j) rows)
            ((==_iff g.payment_id i).0 hit))
        (ap (λ (g : HardGate). g.duplicate_ledger_debit) passes)) [
          | inl empty ↦
              let zero_ : length (select its rows) ≡ 0 = rw empty refl in
              omega (arith, zero_, n, both)
          | inr few ↦ let le = at_most_one _ few in omega (arith, le, n, both)
        ]

  -- A database that passes the gate has, for every device and idempotency key, one successful payment
  -- at most, and the same request hash in all payments; one debit at most for a payment; no QR code
  -- used above its limit; no ended command that disagrees with its execution; and for each successful
  -- payment under a correctness key a start right, and a debit too if it is by RF card.
  pub hard_gate-Passed : Passed db
  unfolding hard_gate
  hard_gate-Passed = record {
    one_success = one_success;
    one_hash = one_hash;
    debits = debits;
    codes =
        All-map db.qr_codes (λ q fine. ground (arith, fine))
          (counted_none (λ (q : QrCode). ltb q.usage_limit q.usage_count) db.qr_codes
            (ap (λ (g : HardGate). g.qr_double_redemption) passes));
    agree =
        All-map db.commands (λ c fine. All-map db.executions (λ e h. agrees c e h) fine)
          (joined
            (λ (r : Command × Execution).
              (is_terminal r.0.status && not (same_word r.1.status r.0.status)) ≡ false)
            (λ c e. e.id == c.execution_id) db.commands db.executions
            (counted_none _ _ (ap (λ (g : HardGate). g.illegal_command_state_transition) passes)));
    complete =
        All-map db.payments (λ p fine. whole db.start_rights db.ledger p fine)
          (counted_none _ db.payments
            (ap (λ (g : HardGate). g.partial_committed_financial_state) passes));
  }
