-- ===== src/Tests/Adapters.antt =====
-- The adapters of the providers on concrete configurations, answers and bodies.
use pasarelapagos_backend.Prelude.{
  String, true, false, none, some, [], ◌∷◌, ◌≡◌, ◌≢◌, refl, ◌==◌, String_eq, ◌<>◌, All, lookup,
  or_else, find, eq_iff, if◌then◌else◌,
}
use pasarelapagos_backend.Json.{Json, null, str, object}
use pasarelapagos_backend.Errors.{ok}
use pasarelapagos_backend.Providers.{
  CreateChargeInput, ProviderChargeResult, WebhookEvent, PaymentProvider,
}
use pasarelapagos_backend.Providers.Registry.{get, register}
use pasarelapagos_backend.Providers.Adapters.{
  Config, Headers, Node, Ending, runs, answered, failed, HttpError, body_of, status_in,
}
use pasarelapagos_backend.Providers.Adapters.Statuses.{IsTyped}
use pasarelapagos_backend.Providers.Adapters.Statuses.Registered.{start-IsTyped}
use pasarelapagos_backend.Providers.Adapters.Statuses.Known.{charged_as_reconciled}
use pasarelapagos_backend.Providers.Adapters.Failures.{Translates, start-Translates}
use pasarelapagos_backend.Providers.Adapters.Signatures.{pagarme-signed, unsigned_is_read}
use pasarelapagos_backend.Providers.Adapters.Startup.{Clients, start}
use pasarelapagos_backend.Providers.Adapters.Stripe
use pasarelapagos_backend.Providers.Adapters.Stripe.ErrorMapper.{card_error}
use pasarelapagos_backend.Providers.Adapters.MercadoPago
use pasarelapagos_backend.Providers.Adapters.Pagarme
use pasarelapagos_backend.Providers.Adapters.Conekta
use pasarelapagos_backend.Providers.Adapters.Dlocal
use pasarelapagos_backend.Payments.Reconciliation.{mapped_status}
use pasarelapagos_backend.Payments.Create.{map_provider_status}

abbrev paid_body : Json
paid_body = object (
    ("type", str "charge.paid")
    ∷ ("data", object (("id", str "ch_1") ∷ ("status", str "paid") ∷ []))
    ∷ [])

abbrev notification : Json
notification =
    object (("action", str "payment.updated") ∷ ("data", object (("id", str "77") ∷ [])) ∷ [])

-- Of a text that stands for a body, the body.
abbrev node : Node
node = record {
  hmac = λ algorithm secret message. algorithm <> ":" <> secret <> ":" <> message;
  parse = λ raw.
      if raw == "paid" then some paid_body else if raw == "note" then some notification else none;
  number = λ s. none;
  now = 5000;
  iso_text = λ n. "2026-01-01T00:00:00.000Z";
  to_lower = λ s. s;
  to_upper = λ s. s;
}

abbrev breaker : String → Ending
breaker key = runs

abbrev config : Config
config key =
    if key == "STRIPE_SECRET_KEY"
    then some "sk_1"
    else if key == "PAGARME_API_KEY"
    then some "ak_1"
    else if key == "PAGARME_WEBHOOK_SECRET"
    then some "whsec"
    else none

abbrev charge : Conekta.Charge
charge = record { id = some "ch_7"; status = some "paid"; reference = none }

abbrev order : Conekta.Order
order = record { id = "ord_7"; payment_status = some "paid"; charges = charge ∷ []; raw = null }

abbrev no_answer : HttpError
no_answer = record { status = some 503; body = none; message = "Service Unavailable" }

abbrev conekta : Conekta.ConektaHttp
conekta = record {
  post_order = λ path body. answered order;
  post_refund = λ path body. failed no_answer;
  get_order = λ path. failed no_answer;
}

abbrev lost : MercadoPago.MpError
lost = record { cause_code = none; status = some 503; message = "internal_error" }

abbrev mercadopago : MercadoPago.MpClient
mercadopago = record {
  create_payment = λ body key. failed lost;
  create_refund = λ body. failed lost;
  get_payment = λ id. failed lost;
}

abbrev intent : Stripe.PaymentIntent
intent = record { id = "pi_1"; status = "succeeded"; redirect_url = none; raw = null }

abbrev stripe : Stripe.StripeInstance
stripe = record {
  create_intent = λ params key. answered intent;
  capture_intent = λ id. answered intent;
  retrieve_intent = λ id. answered intent;
  create_refund = λ params. failed (card_error (some "expired_card") "expired");
  construct_event = λ raw sig secret. failed "No signatures found";
}

abbrev clients : Clients
clients = record {
  stripe = λ key. stripe;
  mercadopago = λ token. mercadopago;
  pagarme = λ key. record {
    post_order = λ path body. failed no_answer;
    post_cancel = λ path amount. failed no_answer;
    get_charge = λ path. failed no_answer;
  };
  conekta = λ key. conekta;
  dlocal = record {
    payment_text = λ body. "";
    refund_text = λ body. "";
    post_payment = λ path headers body. failed no_answer;
    post_refund = λ path headers body. failed no_answer;
    get_payment = λ path headers. failed no_answer;
  };
}

abbrev input : CreateChargeInput
input = record {
  amount_minor = 1500;
  currency = "USD";
  country = "US";
  customer = record { id = "c1"; email = none; document_id = none };
  description = none;
  method = "card";
  metadata = none;
  idempotency_key = "k1";
  return_url = none;
}

abbrev signed : Headers
signed = ("x-hub-signature", "sha1=sha1:whsec:paid") ∷ []

abbrev paid_event : WebhookEvent
paid_event = record {
  provider_id = "pagarme";
  event_type = "charge.paid";
  external_id = "ch_1";
  status = "captured";
  raw = paid_body;
}

start-IsTyped_example : All IsTyped (start clients node breaker config)
start-IsTyped_example = start-IsTyped clients node breaker config

start-Translates_example :
    All (λ p. p.id ≢ "mercadopago" → Translates breaker p) (start clients node breaker config)
start-Translates_example = start-Translates clients node breaker config

abbrev pagarme_provider : PaymentProvider
pagarme_provider = Pagarme.provider node "whsec" (clients.pagarme "ak_1") breaker

pagarme_registered : get "pagarme" (start clients node breaker config) ≡ ok pagarme_provider
unfolding get find register start Stripe.on_module_init MercadoPago.on_module_init
    Pagarme.on_module_init Conekta.on_module_init Dlocal.on_module_init Stripe.provider
    Pagarme.provider
pagarme_registered = refl

stripe_registered :
    get "stripe" (start clients node breaker config) ≡ ok (Stripe.provider stripe node breaker "")
unfolding get find register start Stripe.on_module_init MercadoPago.on_module_init
    Pagarme.on_module_init Conekta.on_module_init Dlocal.on_module_init Stripe.provider
    Pagarme.provider
stripe_registered = refl

paid_verifies : Pagarme.verify_webhook node "whsec" "paid" signed ≡ ok paid_event
unfolding Pagarme.verify_webhook Pagarme.has_good_signature lookup Pagarme.read_event
paid_verifies = refl

abbrev captured : ProviderChargeResult
captured = record { external_id = "pi_1"; status = "captured"; redirect_url = none; raw = null }

stripe_charges : Stripe.create_charge stripe node breaker input ≡ ok captured
unfolding Stripe.create_charge Stripe.map_intent_status status_in lookup
stripe_charges = refl

charged_as_reconciled_example : mapped_status "captured" ≡ some (map_provider_status "captured")
unfolding Stripe.provider
charged_as_reconciled_example =
    charged_as_reconciled clients node breaker config "stripe"
      (Stripe.provider stripe node breaker "") input captured stripe_registered stripe_charges
      (λ e. cc ((eq_iff "captured" "refunded").1 e))

pagarme-signed_example :
    or_else (lookup "x-hub-signature" signed) "" ≡ "sha1=" <> node.hmac "sha1" "whsec" "paid"
pagarme-signed_example =
    pagarme-signed node "paid" signed "whsec" paid_event
      (λ e. let never : false ≡ true = (eq_iff "whsec" "").1 e in cc) paid_verifies

unsigned_is_read_example :
    (Conekta.verify_webhook node "whsec" "paid" [] ≡ Conekta.read_event (body_of node "paid"))
    × (Dlocal.verify_webhook node "login" "whsec" "paid" []
        ≡ Dlocal.read_event node (body_of node "paid"))
    × (MercadoPago.verify_webhook node config "paid" []
        ≡ MercadoPago.read_event node "paid" (body_of node "paid"))
unfolding lookup
unsigned_is_read_example = unsigned_is_read node "paid" [] "whsec" "login" config refl refl refl
