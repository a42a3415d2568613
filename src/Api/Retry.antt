-- ===== src/Api/Retry.antt =====
-- A device that sends a payment again, as often as it likes.
use python_vs_go_pos_benchma.Prelude.{
  ℕ, String, Text, Option, Bool, true, ◌&&◌, ltb, List, [], ◌∷◌, map, ◌≡◌, refl, ap, ◌∙◌,
}
use python_vs_go_pos_benchma.Schema.{Db}
use python_vs_go_pos_benchma.Schema.Fleet.{Device}
use python_vs_go_pos_benchma.Errors.{Result, ok, err}
use python_vs_go_pos_benchma.Session.{Session, serve, begin, close, after, read, pure}
use python_vs_go_pos_benchma.Auth.{authenticate_device, device_token}
use python_vs_go_pos_benchma.Payments.Request.{PaymentRequest, Crypto}
use python_vs_go_pos_benchma.Payments.Payload.{PaymentPayload}
use python_vs_go_pos_benchma.Payments.Create.{create_payment}
use python_vs_go_pos_benchma.Payments.Create.Replay as Replay
use python_vs_go_pos_benchma.Payments.Create.Recorded.{recorded}
use python_vs_go_pos_benchma.Payments.Create.Created as Created
use python_vs_go_pos_benchma.Payments.Charge.Effects as Charged
use python_vs_go_pos_benchma.Api.Endpoints
use python_vs_go_pos_benchma.Api.Endpoints.{Env, key_fits, is_positive, within, payment_answer}
use python_vs_go_pos_benchma.Api.Server.{Request, Reply, Response, dispatch, respond, step}

-- The answers to requests one after the other, and the database after them.
abbrev pub converse : Env → List (ℕ × Request) → Db → List Response × Db
converse env [] db = ([], db)
converse env (r ∷ rs) db =
    let (first, db') = step env r db in
    let (rest, last) = converse env rs db' in (first ∷ rest, last)

-- The bounds of a payment request.
abbrev payment_fits : String → PaymentRequest → Bool
payment_fits key body =
    key_fits key && ltb 0 body.configuration_version && is_positive body.displayed_price_minor

-- How the endpoint answers what `create_payment` returns.
abbrev in_reply : Result (ℕ × PaymentPayload) → Result (ℕ × Reply)
in_reply (ok (status_code, v)) = ok (status_code, Reply.payment v)
in_reply (err e) = err e

abbrev answer_of : Result PaymentPayload → Result (ℕ × Reply)
answer_of (ok v) = in_reply (payment_answer v)
answer_of (err e) = err e

-- The rest of the endpoint, from the end of `create_payment`.
abbrev reply_to : Result (ℕ × PaymentPayload) × Session → Response × Db
reply_to paid =
    let answered : Result (ℕ × Reply) × Session = after paid (λ p. pure (p.0, Reply.payment p.1)) in
    (respond answered.0, close answered.1)

reply_to_lem :
    (q : Result (ℕ × PaymentPayload)) (s : Session)
    → reply_to (q, s) ≡ (respond (in_reply q), close s)
reply_to_lem (ok p) s = refl
reply_to_lem (err e) s = refl

finish_lem :
    (r : Result PaymentPayload × Session)
    → reply_to (after r (λ p. read (λ _. payment_answer p))) ≡ (respond (answer_of r.0), close r.1)
finish_lem (err e, s) = refl
finish_lem (ok v, s) = reply_to_lem (payment_answer v) s

module _ (env : Env) (i : ℕ) (a : Option Text) (key : String) (body : PaymentRequest) where
  abbrev asks : ℕ → ℕ × Request
  asks now = (now, Request.payment i a key body)

  payment_step :
      (now : ℕ) (db : Db) (d : Device)
      → payment_fits key body ≡ true
      → authenticate_device env.sha256 i (device_token a) db ≡ ok d
      → let paid = serve (create_payment env.crypto d body key now) db in
        step env (asks now) db ≡ (respond (answer_of paid.0), paid.1)
  unfolding step dispatch Endpoints.payment
  payment_step now db d fits known =
      rw (fits, known) (finish_lem (create_payment env.crypto d body key now (begin db)))

-- A payment leaves devices and their credentials alone.
module _ (crypto : Crypto) (device : Device) (body : PaymentRequest) (key : String) (now : ℕ)
    (db : Db) where
  abbrev SameDevices : Db → Type 0
  SameDevices db' = (db'.credentials ≡ db.credentials) × (db'.devices ≡ db.devices)

  Charged-SameDevices :
      (terms : _) (c : _) (db' : Db)
      → Charged.Charged crypto terms device.station_id body now body.payment_method db c db'
      → SameDevices db'
  Charged-SameDevices terms c db' (Charged.no_transfer e _ _ _ _) = rw e (refl, refl)
  Charged-SameDevices terms c db' (Charged.code_used q _ _ _ e _ _ _ _) = rw e (refl, refl)
  Charged-SameDevices terms c db' (Charged.wallet_debited card w _ _ _ e _ _ _ _) =
      rw e (refl, refl)

  Created-SameDevices :
      (r : Result PaymentPayload) (db' : Db)
      → Created.Created crypto device body key now db r db'
      → SameDevices db'
  unfolding recorded
  Created-SameDevices r db' (Created.replayed _ _ _ _ same) = rw same (refl, refl)
  Created-SameDevices r db' (Created.refused _ _ same _) = (rw same refl, rw same refl)
  Created-SameDevices r db' (Created.paid terms c charged _ _ ch _ _ is_db) =
      rw is_db (Charged-SameDevices terms c charged ch)

  authenticated_again :
      (sha256 : Text → String) (i : ℕ) (token : Text)
      → let db' = (serve (create_payment crypto device body key now) db).1 in
        authenticate_device sha256 i token db' ≡ authenticate_device sha256 i token db
  unfolding authenticate_device
  authenticated_again sha256 i token =
      let same =
        Created-SameDevices (serve (create_payment crypto device body key now) db).0
          (serve (create_payment crypto device body key now) db).1
          (Created.create_payment-Created crypto device body key now db) in
      rw (same.0, same.1)

module _ (env : Env) (i : ℕ) (a : Option Text) (key : String) (body : PaymentRequest) (db : Db)
    (d : Device) (v : PaymentPayload) (now : ℕ) where
  -- Where a payment was made, each repetition has the same answer and changes nothing.
  repeated :
      (times : List ℕ)
      → payment_fits key body ≡ true
      → authenticate_device env.sha256 i (device_token a) db ≡ ok d
      → (serve (create_payment env.crypto d body key now) db).0 ≡ ok v
      → let db' = (serve (create_payment env.crypto d body key now) db).1 in
        converse env (map (asks env i a key body) times) db'
        ≡ (map (λ _. respond (answer_of (ok v))) times, db')
  repeated [] fits known paid = refl
  repeated (t ∷ ts) fits known paid =
      let db' = (serve (create_payment env.crypto d body key now) db).1 in
      let known' =
        authenticated_again env.crypto d body key now db env.sha256 i (device_token a) ∙ known in
      let again =
        (Replay.create_payment_replay env.crypto d body key now db v d body t refl paid).0 refl in
      let first : step env (asks env i a key body t) db' ≡ (respond (answer_of (ok v)), db') =
        payment_step env i a key body t db' d fits known'
        ∙ ap (λ (r : Result PaymentPayload × Db). (respond (answer_of r.0), r.1)) again in
      rw (first, repeated ts fits known paid)

  -- Once `create_payment` has returned a payment to an authenticated device, whatever its status, any
  -- number of repetitions of the request at any instants have the answer of the first, and leave
  -- the database as the first has left it.
  pub payment_retries :
      (times : List ℕ)
      → payment_fits key body ≡ true
      → authenticate_device env.sha256 i (device_token a) db ≡ ok d
      → (serve (create_payment env.crypto d body key now) db).0 ≡ ok v
      → let (answer, after_) = step env (now, Request.payment i a key body) db in
        converse env (map (λ t. (t, Request.payment i a key body)) times) after_
        ≡ (map (λ _. answer) times, after_)
  payment_retries times fits known paid =
      let first = payment_step env i a key body now db d fits known in
      rw (first, paid) (repeated times fits known paid)
