-- ===== src/Payments/Create/Replay.antt =====
-- `create_payment` is atomic, and safe to repeat under its idempotency key.
use python_vs_go_pos_benchma.Prelude.{
  ℕ, ◌≡◌, ◌≢◌, refl, sym, ◌∙◌, inl, inr, Bool-cases, none, some, String, str_eq, eq_iff, eq_refl,
  find, find-insert-none, find-insert_hit, ==_refl, ◌==◌,
}
use python_vs_go_pos_benchma.Schema.{Db}
use python_vs_go_pos_benchma.Schema.Fleet.{Device}
use python_vs_go_pos_benchma.Schema.Money.{Payment}
use python_vs_go_pos_benchma.Errors.{Error, Result, ok, err}
use python_vs_go_pos_benchma.Session.{serve}
use python_vs_go_pos_benchma.Payments.Request.{PaymentRequest, Crypto, request_hash}
use python_vs_go_pos_benchma.Payments.Payload.{PaymentPayload, payment_payload, payload_of}
use python_vs_go_pos_benchma.Payments.Create.{
  Entry, has_key, payment_row, create_payment, idempotency_conflict,
}
use python_vs_go_pos_benchma.Payments.Create.Recorded.{recorded}
use python_vs_go_pos_benchma.Payments.Create.Created.{
  SameTables, Created, replayed, refused, paid, Charged-SamePayments, create_payment-Created,
  entry_of,
}

-- The payment that was just recorded can be read back.
pub payload-recorded :
    (e : Entry) (db : Db)
    → (v : PaymentPayload) × (payment_payload db.sequences.payment (recorded e db) ≡ ok v)
unfolding payment_payload recorded
payload-recorded e db =
    let id = db.sequences.payment in
    let (p, found) =
      find-insert_hit (λ (p : Payment). p.id == id) (payment_row e id) db.payments (==_refl id) in
    (
      payload_of p (find (λ r. r.payment_id == id) (recorded e db).start_rights)
          (find (λ x. x.payment_id == id) db.executions),
      rw found,
    )

-- … and so can its key.
known-recorded :
    (e : Entry) (db : Db)
    → find (has_key e.device_id e.key) db.payments ≡ none
    → find (has_key e.device_id e.key) (recorded e db).payments
      ≡ some (payment_row e db.sequences.payment)
unfolding recorded
known-recorded e db new =
    find-insert-none (has_key e.device_id e.key) (payment_row e db.sequences.payment) db.payments
      new
    ∙ rw (==_refl, eq_refl)

module _ (crypto : Crypto) (body : PaymentRequest) (key : String) (now : ℕ) where
  -- A known key under the hash of its request: the payment is read again, and nothing else happens.
  repeat_same :
      (device : Device) (p : Payment) (db : Db)
      → find (has_key device.id key) db.payments ≡ some p
      → p.request_hash ≡ request_hash crypto body
      → serve (create_payment crypto device body key now) db ≡ (payment_payload p.id db, db)
  unfolding create_payment
  repeat_same device p db known same = rw (known, same, eq_refl)

  repeat_other :
      (device : Device) (p : Payment) (db : Db)
      → find (has_key device.id key) db.payments ≡ some p
      → p.request_hash ≢ request_hash crypto body
      → serve (create_payment crypto device body key now) db ≡ (err idempotency_conflict, db)
  unfolding create_payment
  repeat_other device p db known other =
      elim (Bool-cases (str_eq p.request_hash (request_hash crypto body))) [
        | inl same ↦ absurd (other ((eq_iff p.request_hash (request_hash crypto body)).0 same))
        | inr differs ↦ rw (known, differs)
      ]

module _ (crypto : Crypto) (device : Device) (body : PaymentRequest) (key : String) (now : ℕ)
    (db : Db) where
  -- The outcome of a request, and the database after it.
  abbrev pub outcome : Result PaymentPayload
  outcome = (serve (create_payment crypto device body key now) db).0

  abbrev pub next : Db
  next = (serve (create_payment crypto device body key now) db).1

  atomic_cases :
      (e : Error) (r : Result PaymentPayload) (db' : Db)
      → Created crypto device body key now db r db'
      → r ≡ err e
      → SameTables db db'
  atomic_cases e r db' (replayed p _ _ _ same) h = rw same refl
  atomic_cases e r db' (refused _ _ same _) h = same
  atomic_cases e r db' (paid terms c charged new adm ch fits is_r is_db) h =
      let (v, payload) = payload-recorded (entry_of crypto device body key now terms c) charged in
      cc (is_r, payload, h)

  -- If `create_payment` raises, whatever the reason, it leaves every table as it was; only a sequence
  -- may have gone on.
  pub create_payment_atomic : (e : Error) → outcome ≡ err e → SameTables db next
  create_payment_atomic e =
      atomic_cases e outcome next (create_payment-Created crypto device body key now db)

  replay_cases :
      (v : PaymentPayload) (r : Result PaymentPayload) (db' : Db)
      → Created crypto device body key now db r db'
      → r ≡ ok v
      → (p : Payment) × (find (has_key device.id key) db'.payments ≡ some p)
        × (p.request_hash ≡ request_hash crypto body)
        × (payment_payload p.id db' ≡ ok v)
  replay_cases v r db' (replayed p known same is_r is_db) h =
      rw is_db (p, known, same, sym is_r ∙ h)
  replay_cases v r db' (refused e is_r _ _) h = cc
  replay_cases v r db' (paid terms c charged new adm ch fits is_r is_db) h = rw is_db (
    payment_row (entry_of crypto device body key now terms c) charged.sequences.payment,
    known-recorded (entry_of crypto device body key now terms c) charged
        (rw (Charged-SamePayments crypto device body key now db terms c charged ch).payments new),
    refl,
    sym is_r ∙ h,
  )

  -- After a success, the same request under the same key, at any later time and whatever has become
  -- of the device's status, is answered as before and changes nothing; another request under that
  -- key, one with another hash, is refused with IDEMPOTENCY_CONFLICT and changes nothing.
  pub create_payment_replay :
      (v : PaymentPayload) (device' : Device) (body' : PaymentRequest) (later : ℕ)
      → device'.id ≡ device.id
      → outcome ≡ ok v
      → (request_hash crypto body' ≡ request_hash crypto body
          → serve (create_payment crypto device' body' key later) next ≡ (ok v, next))
        × (request_hash crypto body' ≢ request_hash crypto body
            → serve (create_payment crypto device' body' key later) next
              ≡ (err idempotency_conflict, next))
  create_payment_replay v device' body' later same_id h =
      let (p, known, hashed, payload) =
        replay_cases v outcome next (create_payment-Created crypto device body key now db) h in
      let known' : find (has_key device'.id key) next.payments ≡ some p = rw same_id known in
      (
        λ same.
            repeat_same crypto body' key later device' p next known' (hashed ∙ sym same)
            ∙ rw payload,
        λ other.
            repeat_other crypto body' key later device' p next known' (λ e. other (sym e ∙ hashed)),
      )
