-- ===== src/Gate/Clean.antt =====
-- hard_gate of scripts/correctness_driver.py beside the queries of db/checks/invariants.sql.
use python_vs_go_pos_benchma.Prelude.{
  ℕ, ◌+◌, ◌≤◌, ◌≡◌, refl, inl, inr, arith, Bool, Bool-cases, true, false, not, ◌&&◌, List, [], ◌∷◌,
  ◌++◌, map, ltb, ◌==◌, str_eq, select, count, length, All, All-map, String, count_none,
  count_never, length-select, length-select_le, count-select, count-select_both, count_le,
  length-map,
}
use python_vs_go_pos_benchma.Schema.{Db}
use python_vs_go_pos_benchma.Schema.Money.{Payment, LedgerEntry, StartRight, QrCode, is_success}
use python_vs_go_pos_benchma.Schema.Ops.{Command, Execution}
use python_vs_go_pos_benchma.Payments.Create.{has_key, is_rf_card}
use python_vs_go_pos_benchma.Payments.Create.Sound.{debit_for, spends}
use python_vs_go_pos_benchma.Payments.Create.Complete.{IsComplete}
use python_vs_go_pos_benchma.Commands.Moves.{is_terminal}
use python_vs_go_pos_benchma.Commands.Agreed.{same_word, Agree}
use python_vs_go_pos_benchma.Seed.Series.{join}
use python_vs_go_pos_benchma.Api.Checked.{Checked}
use python_vs_go_pos_benchma.Gate.{
  groups, count_groups, same_tuple, is_corr, is_partial, hard_gate, clean,
}

module _ {A : Type 0} where
  length-groups : (same : A → A → Bool) (xs : List A) → length (groups same xs) ≤ length xs
  length-groups same [] = omega arith
  length-groups same (x ∷ xs) =
      omega (arith, length-select_le (λ y. not (same x y)) (groups same xs), length-groups same xs)

-- The pairs of a join, where every partner has a property.
module _ {A B : Type 0} where
  count_appended :
      (p : A × B → Bool) (xs ys : List (A × B))
      → count p xs ≡ 0
      → count p ys ≡ 0
      → count p (xs ++ ys) ≡ 0
  count_appended p [] ys h k = k
  count_appended p (x ∷ xs) ys h k = elim (Bool-cases (p x)) [
    | inl e ↦ let h' : 1 + count p xs ≡ 0 = rw e at h in absurd (omega arith)
    | inr e ↦
        let h' : 0 + count p xs ≡ 0 = rw e at h in rw (e, count_appended p xs ys (omega arith) k)
  ]

  count_pairs :
      (p : A × B → Bool) (q : B → Bool) (a : A) (bs : List B)
      → All (λ b. q b ≡ true → p (a, b) ≡ false) bs
      → count p (map (λ b. (a, b)) (select q bs)) ≡ 0
  count_pairs p q a [] h = refl
  count_pairs p q a (b ∷ bs) h = elim (Bool-cases (q b)) [
    | inl hit ↦ rw (hit, h.0 hit, count_pairs p q a bs h.1)
    | inr miss ↦ rw (miss, count_pairs p q a bs h.1)
  ]

  count_joined :
      (p : A × B → Bool) (on : A → B → Bool) (as_ : List A) (bs : List B)
      → All (λ a. All (λ b. on a b ≡ true → p (a, b) ≡ false) bs) as_
      → count p (join on as_ bs) ≡ 0
  count_joined p on [] bs h = refl
  count_joined p on (a ∷ as_) bs h =
      count_appended p (map (λ b. (a, b)) (select (on a) bs)) (join on as_ bs)
        (count_pairs p (on a) a bs h.0) (count_joined p on as_ bs h.1)

-- The rows of a group of payments are those under one idempotency key.
tuples-one :
    (g : Payment) (payments : List Payment)
    → count (has_key g.device_id g.idempotency_key) payments ≤ 1
    → length (select (same_tuple g) payments) ≤ 1
tuples-one g payments h = let n = length-select (same_tuple g) payments in omega (arith, n, h)

debits-one :
    (i : ℕ) (ledger : List LedgerEntry)
    → count (debit_for i) ledger ≤ 1
    → length (select (λ e. e.payment_id == i) (select (λ e. e.is_debit) ledger)) ≤ 1
debits-one i ledger h =
    let debits = select (λ (e : LedgerEntry). e.is_debit) ledger in
    let n = length-select (λ (e : LedgerEntry). e.payment_id == i) debits in
    let both =
      count-select_both (λ (e : LedgerEntry). e.payment_id == i) (λ e. e.is_debit) ledger in
    omega (arith, n, both, h)

not_partial :
    (rights : List StartRight) (ledger : List LedgerEntry) (p : Payment)
    → IsComplete rights ledger p
    → is_partial rights ledger p ≡ false
not_partial rights ledger p h = elim (Bool-cases (is_success p.status)) [
  | inl won ↦ elim (Bool-cases (is_rf_card p.method)) [
    | inl rf ↦ rw (won, rf, h.has_right won, h.has_debit won rf)
    | inr other ↦ rw (won, other, h.has_right won)
  ]
  | inr lost ↦ rw lost
]

legal :
    (c : Command) (e : Execution)
    → Agree c e
    → (e.id == c.execution_id) ≡ true
    → (is_terminal c.status && not (same_word e.status c.status)) ≡ false
legal c e agree its = elim (Bool-cases (is_terminal c.status)) [
  | inl ended ↦ rw (ended, agree ended its)
  | inr going ↦ rw going
]

-- What the queries of db/checks/invariants.sql ask of the rows that the gate reads: one payment under
-- an idempotency key of a device, no code used above its limit, one debit of a wallet for a payment,
-- ended commands that agree with their executions, and whole payments under correctness keys.
pub record InvariantsHold (db : Db) : Type 0 where
  pub keys : (d : ℕ) (k : String) → count (has_key d k) db.payments ≤ 1
  pub codes : All (λ (q : QrCode). q.usage_count ≤ q.usage_limit) db.qr_codes
  pub debits : (i : ℕ) → count (debit_for i) db.ledger ≤ 1
  pub agree : All (λ c. All (Agree c) db.executions) db.commands
  pub complete :
      All
        (λ p. is_corr p.idempotency_key ≡ true → IsComplete db.start_rights db.ledger p)
        db.payments

-- … which the invariants of the server and the worker imply.
pub Checked-InvariantsHold : (db : Db) → Checked is_corr db → InvariantsHold db
Checked-InvariantsHold db h = record {
  keys = h.sound.payments.keys;
  codes = All-map db.qr_codes (λ q both. both.1) h.sound.payments.codes;
  debits = λ i.
      let its =
        count_le (spends i) (λ (p : Payment). p.id == i) db.payments (λ p e. ground (arith, e)) in
      omega (arith, its, h.sound.payments.debits i, h.sound.payments.ids i);
  agree = h.agreed.agree;
  complete = h.complete;
}

module _ (db : Db) (h : InvariantsHold db) where
  no_duplicates :
      count_groups same_tuple (λ ps. ltb 1 (count (λ p. is_success p.status) ps)) db.payments ≡ 0
  no_duplicates = count_never _ (groups same_tuple db.payments) (λ g.
      let few = count-select (λ p. is_success p.status) (same_tuple g) db.payments in
      let one = h.keys g.device_id g.idempotency_key in ground (arith, few, one))

  no_mismatch :
      count_groups same_tuple
        (λ ps. ltb 1 (length (groups str_eq (map (λ (p : Payment). p.request_hash) ps))))
        db.payments
      ≡ 0
  no_mismatch = count_never _ (groups same_tuple db.payments) (λ g.
      let ps = select (same_tuple g) db.payments in
      let hashes : List String = map (λ (p : Payment). p.request_hash) ps in
      let few = length-groups str_eq hashes in
      let as_many = length-map (λ (p : Payment). p.request_hash) ps in
      let one = tuples-one g db.payments (h.keys g.device_id g.idempotency_key) in
      ground (arith, few, as_many, one))

  no_double_debit :
      count_groups
        (λ (g e : LedgerEntry). e.payment_id == g.payment_id)
        (λ es. ltb 1 (length es))
        (select (λ e. e.is_debit) db.ledger)
      ≡ 0
  no_double_debit =
      count_never _ (groups _ (select (λ (e : LedgerEntry). e.is_debit) db.ledger)) (λ g.
        let one = debits-one g.payment_id db.ledger (h.debits g.payment_id) in ground (arith, one))

  -- A database that satisfies what db/checks/invariants.sql asks of idempotency keys, codes, debits,
  -- ended commands and payments under correctness keys passes the gate: each of its eight queries
  -- counts 0 rows. The two on negative balances do so for any database, since a balance is a natural
  -- number here.
  pub hard_gate-clean : hard_gate db ≡ clean
  unfolding hard_gate
  hard_gate-clean =
      let codes_ =
        count_none (λ (q : QrCode). ltb q.usage_limit q.usage_count) db.qr_codes
          (All-map db.qr_codes (λ q le. ground (arith, le)) h.codes) in
      let illegal =
        count_joined (λ r. is_terminal r.0.status && not (same_word r.1.status r.0.status))
          (λ (c : Command) (e : Execution). e.id == c.execution_id) db.commands db.executions
          (All-map db.commands (λ c agree. All-map db.executions (λ e a its. legal c e a its) agree)
            h.agree) in
      let partial =
        count_none (λ p. is_corr p.idempotency_key && is_partial db.start_rights db.ledger p)
          db.payments
          (All-map db.payments
            (λ p whole. elim (Bool-cases (is_corr p.idempotency_key)) [
              | inl c ↦ rw (c, not_partial db.start_rights db.ledger p (whole c))
              | inr c ↦ rw c
            ])
            h.complete) in
      let wallets =
        count_never (λ (w : _). ltb w.balance_minor 0) db.rf_wallets (λ w. ground arith) in
      rw (no_duplicates, no_mismatch, no_double_debit, codes_, illegal, partial, wallets)
