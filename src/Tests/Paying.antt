-- ===== src/Tests/Paying.antt =====
-- A payment by RF card at a small car wash, made and repeated.
use python_vs_go_pos_benchma.Prelude.{
  ℕ, ◌+◌, ◌≡◌, refl, arith, none, some, true, codes, strip, List, [], ◌∷◌, map,
}
use python_vs_go_pos_benchma.Schema.{seconds}
use python_vs_go_pos_benchma.Schema.Money.{Method}
use python_vs_go_pos_benchma.Session.{serve}
use python_vs_go_pos_benchma.Auth.{authenticate_device, device_token}
use python_vs_go_pos_benchma.Payments.Uid.{normalize_uid, hex_digits}
use python_vs_go_pos_benchma.Payments.Admission.{Terms, choose_program}
use python_vs_go_pos_benchma.Payments.Admission.Ready.{Ready, Offered}
use python_vs_go_pos_benchma.Payments.Create.{create_payment}
use python_vs_go_pos_benchma.Payments.Create.Paid.{IsPaid, Covers, wallet_pays, create_payment_pays}
use python_vs_go_pos_benchma.Api.Server.{Request, step}
use python_vs_go_pos_benchma.Api.Retry.{converse, payment_retries}
use python_vs_go_pos_benchma.Tests.Data.{
  crypto, env, device, state, configuration, header, shop, by_card, noon,
}

abbrev terms : Terms
terms = record { company_id = 1; wash_bay_id = 5; program_id = 6; price = 500 }

ready : Ready device (by_card 500) noon shop 1 5
ready = record {
  is_active = refl;
  station = record { id = 2; company_id = 1 };
  at_station = refl;
  of_company = refl;
  state = state;
  has_state = refl;
  is_fresh = refl;
  wash_bay = record { id = 5; station_id = 2; device_id = some 3 };
  at_bay = refl;
  bay_id = refl;
  no_maintenance = refl;
  configuration = configuration;
  published = refl;
  named = refl;
  applied = refl;
  is_free = refl;
}

offered : Offered 1 3 6 500 (by_card 500) shop
offered = record {
  program = record { id = 6; company_id = 1; price_minor = 500; active = true };
  on_sale = refl;
  at_price = refl;
  entitled = refl;
  by_method = refl;
  displayed = λ shows. refl;
}

covers : Covers crypto terms 2 (by_card 500) noon shop Method.rf_card
unfolding normalize_uid hex_digits
covers =
    wallet_pays (codes "04A1B2C3")
      (record { id = 8; company_id = 1; uid_hash = "01"; is_active = true; expires_at = none })
      (record { id = 9; rf_card_id = 8; balance_minor = 2000; version = 1; updated_at = 0 }) refl
      refl refl refl (omega arith) (omega arith)

create_payment_pays_example :
    IsPaid (serve (create_payment crypto device (by_card 500) "first-payment" noon) shop).0
unfolding choose_program
create_payment_pays_example =
    create_payment_pays crypto device (by_card 500) "first-payment" noon shop terms refl tt ready
      refl offered covers

paid : IsPaid (serve (create_payment crypto device (by_card 500) "first-payment" noon) shop).0
unfolding choose_program
paid =
    create_payment_pays crypto device (by_card 500) "first-payment" noon shop terms refl tt ready
      refl offered covers

abbrev first_request : ℕ × Request
first_request = (noon, Request.payment 3 header "first-payment" (by_card 500))

abbrev retries : List ℕ
retries = (noon + seconds 1) ∷ (noon + seconds 700) ∷ []

payment_retries_example :
    converse env
      (map (λ t. (t, Request.payment 3 header "first-payment" (by_card 500))) retries)
      (step env first_request shop).1
    ≡ (map (λ _. (step env first_request shop).0) retries, (step env first_request shop).1)
unfolding authenticate_device device_token strip
payment_retries_example =
    payment_retries env 3 header "first-payment" (by_card 500) shop device paid.payload noon retries
      refl refl paid.is_ok
