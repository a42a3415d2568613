-- ===== src/Payments/Create/Recorded.antt =====
-- The inserts of one payment as one update of the tables, and that `record_payment` makes it.
use python_vs_go_pos_benchma.Prelude.{
  ℕ, ◌+◌, ◌≤◌, ◌≡◌, refl, inl, inr, Bool, true, false, ◌&&◌, Option, none, some, List, ltb, find,
  insert, arith, sym, Bool-cases, if◌then◌else◌,
}
use mathlib.Core.Path.{subst}
use python_vs_go_pos_benchma.Schema.{Db, Sequences}
use python_vs_go_pos_benchma.Schema.Money.{is_success, LedgerEntry, StartRight, ProviderTransaction}
use python_vs_go_pos_benchma.Schema.Ops.{Note}
use python_vs_go_pos_benchma.Errors.{Error, Result, ok, err}
use python_vs_go_pos_benchma.Session.{Session, begin}
use python_vs_go_pos_benchma.Payments.Create.{
  Entry, has_key, payment_row, is_card, is_rf_card, record_payment, insert_payment, insert_provider,
  insert_debit, insert_right,
}

-- The entry is one of a debited wallet.
abbrev pub debits : Entry → Bool
debits e = is_rf_card e.method && is_success e.charge.status

abbrev pub ledger_with : Entry → ℕ → Option ℕ → List LedgerEntry → List LedgerEntry
ledger_with e id none rows = rows
ledger_with e id (some wallet_id) rows =
    if debits e
    then insert
        (record {
          wallet_id = wallet_id;
          payment_id = id;
          is_debit = true;
          amount_minor = e.terms.price;
          created_at = e.now;
        })
        rows
    else rows

abbrev pub right_row : Entry → ℕ → ℕ → StartRight
right_row e id right_id = record {
  id = right_id;
  payment_id = id;
  device_id = e.device_id;
  wash_bay_id = e.terms.wash_bay_id;
  program_id = e.terms.program_id;
  status = "AVAILABLE";
  created_at = e.now;
}

abbrev pub providers_with : Entry → ℕ → List ProviderTransaction → List ProviderTransaction
providers_with e id rows =
    if is_card e.method
    then insert
        (record { payment_id = id; mock_ref = id; status = e.charge.status; created_at = e.now })
        rows
    else rows

abbrev pub rights_with : Entry → ℕ → ℕ → List StartRight → List StartRight
rights_with e id right_id rows =
    if is_success e.charge.status then insert (right_row e id right_id) rows else rows

abbrev pub next_right : Entry → ℕ → ℕ
next_right e right_id = if is_success e.charge.status then right_id + 1 else right_id

-- One payment, one attempt, one event and one audit entry; a provider transaction for a card, a
-- debit for a wallet, and a start right for a success.
unfoldable pub recorded : Entry → Db → Db
recorded e db =
    let id = db.sequences.payment in
    record db {
      payments = insert (payment_row e id) db.payments;
      attempts =
          insert
            (record {
              payment_id = id;
              attempt_no = 1;
              status = e.charge.status;
              created_at = e.now;
            })
            db.attempts;
      provider_transactions = providers_with e id db.provider_transactions;
      ledger = ledger_with e id e.charge.rf_wallet_id db.ledger;
      start_rights = rights_with e id db.sequences.start_right db.start_rights;
      events =
          insert
            (record {
              device_id = e.device_id;
              payment_id = some id;
              event_type = "payment.completed";
              payload = Note.payment_event e.charge.status e.method e.charge.error_code;
              created_at = e.now;
            })
            db.events;
      audit =
          insert
            (record {
              payment_id = id;
              action = "payment.completed";
              payload = Note.payment_audit e.charge.status;
              created_at = e.now;
            })
            db.audit;
      sequences = record db.sequences {
        payment = id + 1;
        start_right = next_right e db.sequences.start_right;
      };
    }

-- The ledger takes no entry of amount 0.
abbrev pub fits_ledger : Entry → Option ℕ → Bool
fits_ledger e none = true
fits_ledger e (some w) = if debits e then ltb 0 e.terms.price else true

-- What a transaction that is rolled back may leave of the sequences.
abbrev pub Advances : Sequences → Sequences → Type 0
Advances before after = (before.payment ≤ after.payment) × (after.alarm ≡ before.alarm)

-- The whole of a payment is recorded and committed; or the ledger refuses its entry, and nothing is.
abbrev pub Records : Entry → Session → Result ℕ × Session → Type 0
Records e s (ok id, s') =
    (id ≡ s.current.sequences.payment)
    × (s' ≡ begin (recorded e s.current))
    × (fits_ledger e e.charge.rf_wallet_id ≡ true)
Records e s (err x, s') =
    (s'.committed ≡ s.committed)
    × (x ≡ Error.integrity_error "rf_wallet_ledger")
    × (fits_ledger e e.charge.rf_wallet_id ≡ false)
    × Advances s.current.sequences s'.current.sequences

insert_payment_lem :
    (e : Entry) (s : Session)
    → find (has_key e.device_id e.key) s.current.payments ≡ none
    → insert_payment e s ≡ (
      ok s.current.sequences.payment,
      record s {
        current = record s.current {
          payments = insert (payment_row e s.current.sequences.payment) s.current.payments;
          sequences = record s.current.sequences { payment = s.current.sequences.payment + 1 };
        };
      },
    )
unfolding insert_payment
insert_payment_lem e s new = rw new

insert_provider_lem :
    (e : Entry) (id : ℕ) (s : Session)
    → insert_provider e id s ≡ (
      ok tt,
      record s {
        current = record s.current {
          provider_transactions = providers_with e id s.current.provider_transactions;
        };
      },
    )
unfolding insert_provider
insert_provider_lem e id s = elim (Bool-cases (is_card e.method)) [ inl c ↦ rw c | inr c ↦ rw c ]

insert_right_lem :
    (e : Entry) (id : ℕ) (s : Session)
    → insert_right e id s ≡ (
      ok tt,
      record s {
        current = record s.current {
          start_rights = rights_with e id s.current.sequences.start_right s.current.start_rights;
          sequences = record s.current.sequences {
            start_right = next_right e s.current.sequences.start_right;
          };
        };
      },
    )
unfolding insert_right
insert_right_lem e id s = elim (Bool-cases (is_success e.charge.status)) [
  | inl c ↦ rw c
  | inr c ↦ rw c
]

insert_debit_lem :
    (e : Entry) (id : ℕ) (w : Option ℕ) (s : Session)
    → fits_ledger e w ≡ true
    → insert_debit e id w s ≡ (
      ok tt,
      record s { current = record s.current { ledger = ledger_with e id w s.current.ledger } },
    )
unfolding insert_debit
insert_debit_lem e id none s h = refl
insert_debit_lem e id (some w) s h = elim (Bool-cases (debits e)) [
  | inl c ↦ let h' : ltb 0 e.terms.price ≡ true = rw c at h in rw (c, h')
  | inr c ↦ rw c
]

insert_debit_refused :
    (e : Entry) (id : ℕ) (w : Option ℕ) (s : Session)
    → fits_ledger e w ≡ false
    → insert_debit e id w s ≡ (err (Error.integrity_error "rf_wallet_ledger"), s)
unfolding insert_debit
insert_debit_refused e id none s h = cc
insert_debit_refused e id (some w) s h = elim (Bool-cases (debits e)) [
  | inl c ↦ let h' : ltb 0 e.terms.price ≡ false = rw c at h in rw (c, h')
  | inr c ↦ let h' : true ≡ false = rw c at h in cc
]

pub recorded_if_fits :
    (e : Entry) (s : Session)
    → find (has_key e.device_id e.key) s.current.payments ≡ none
    → fits_ledger e e.charge.rf_wallet_id ≡ true
    → record_payment e s ≡ (ok s.current.sequences.payment, begin (recorded e s.current))
unfolding record_payment recorded
recorded_if_fits e s new fits =
    rw (insert_payment_lem e s new)
      (rw (insert_provider_lem) (rw (insert_debit_lem, fits) (rw (insert_right_lem))))

refused_if_short :
    (e : Entry) (s : Session)
    → find (has_key e.device_id e.key) s.current.payments ≡ none
    → fits_ledger e e.charge.rf_wallet_id ≡ false
    → Records e s (record_payment e s)
unfolding record_payment
refused_if_short e s new short = rw (insert_payment_lem e s new) (
    rw (insert_provider_lem)
      (rw (insert_debit_refused, short) (refl, refl, short, (omega arith, refl))))

pub record_payment-Records :
    (e : Entry) (s : Session)
    → find (has_key e.device_id e.key) s.current.payments ≡ none
    → Records e s (record_payment e s)
record_payment-Records e s new = elim (Bool-cases (fits_ledger e e.charge.rf_wallet_id)) [
  | inl fits ↦ subst (Records e s) (sym (recorded_if_fits e s new fits)) (refl, refl, fits)
  | inr short ↦ refused_if_short e s new short
]
