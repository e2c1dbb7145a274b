-- ===== src/Providers/Adapters/Stripe.antt =====
-- src/modules/providers/adapters/stripe/stripe.provider.ts. The client of the package `stripe` is a
-- parameter: a function for each of its calls.
pub mod ErrorMapper
mod Client
pub use Client.*
use pasarelapagos_backend.Prelude.{
  ℕ, String, Bool, true, Option, none, some, List, [], ◌∷◌, ◌==◌, String_eq, lookup, or_else,
  or_opt, truthy, map, ◌<>◌, if◌then◌else◌,
}
use pasarelapagos_backend.Prelude.Int.{ℤ}
use pasarelapagos_backend.Json.{Json}
use pasarelapagos_backend.Json.Reading.{then_member, text_or, shown}
use pasarelapagos_backend.Errors.{Result, ok, err, unauthorized}
use pasarelapagos_backend.Providers.{
  PaymentProvider, CreateChargeInput, ProviderChargeResult, RefundInput, ProviderRefundResult,
  WebhookEvent,
}
use pasarelapagos_backend.Providers.Registry.{ProviderRegistry, register}
use pasarelapagos_backend.Providers.Adapters.{
  Config, Headers, Node, Reply, answered, failed, attempt, Ending, guarded, assign, status_in,
}
use pasarelapagos_backend.Payments.Refund.{truthy_amount}
use ErrorMapper.{StripeError, map_stripe_error}

abbrev pub intent_status_map : List (String × String)
intent_status_map =
    ("requires_payment_method", "pending")
    ∷ ("requires_confirmation", "pending")
    ∷ ("requires_action", "pending")
    ∷ ("processing", "pending")
    ∷ ("requires_capture", "authorized")
    ∷ ("canceled", "cancelled")
    ∷ ("succeeded", "captured")
    ∷ []

unfoldable pub map_intent_status : String → String
unfolding status_in
map_intent_status status = status_in intent_status_map status

abbrev pub event_status_map : List (String × String)
event_status_map =
    ("payment_intent.succeeded", "captured")
    ∷ ("payment_intent.payment_failed", "failed")
    ∷ ("payment_intent.canceled", "cancelled")
    ∷ ("payment_intent.amount_capturable_updated", "authorized")
    ∷ ("charge.refunded", "refunded")
    ∷ []

unfoldable pub map_event_status : String → String
unfolding status_in
map_event_status event_type = status_in event_status_map event_type

unfoldable pub extract_external_id : StripeEvent → String
extract_external_id event =
    text_or "unknown"
      (or_opt (then_member "payment_intent" event.object) (then_member "id" event.object))

abbrev refund_reasons : List (String × String)
refund_reasons =
    ("duplicate", "duplicate")
    ∷ ("fraudulent", "fraudulent")
    ∷ ("requested_by_customer", "requested_by_customer")
    ∷ []

abbrev known_reason : Option String → Option String
known_reason none = none
known_reason (some reason) = some (or_else (lookup reason refund_reasons) "requested_by_customer")

unfoldable pub map_refund_reason : Option String → Option String
unfolding lookup
map_refund_reason reason = known_reason (truthy reason)

abbrev confirmation_of : Option String → Option Confirmation
confirmation_of none = none
confirmation_of (some url) =
    some (record { confirm = true; return_url = url; automatic_payment_methods_enabled = true })

unfoldable pub intent_params : Node → CreateChargeInput → IntentParams
unfolding assign
intent_params node input = record {
  amount = input.amount_minor;
  currency = node.to_lower input.currency;
  capture_method = "automatic";
  description = input.description;
  metadata =
      assign "country" input.country
        (assign "customerId" input.customer.id (or_else input.metadata []));
  receipt_email = input.customer.email;
  confirmation = confirmation_of (truthy input.return_url);
}

unfoldable pub refund_params : RefundInput → RefundParams
unfolding map_refund_reason
refund_params input = record {
  payment_intent = input.external_id;
  amount = truthy_amount input.amount_minor;
  reason = map_refund_reason input.reason;
}

abbrev pub charged : PaymentIntent → ProviderChargeResult
charged intent = record {
  external_id = intent.id;
  status = map_intent_status intent.status;
  redirect_url = intent.redirect_url;
  raw = intent.raw;
}

-- The same without the URL, for `capture` and `retrieve`.
abbrev pub found : PaymentIntent → ProviderChargeResult
found intent = record {
  external_id = intent.id;
  status = map_intent_status intent.status;
  redirect_url = none;
  raw = intent.raw;
}

abbrev pub refund_status : Option String → String
refund_status none = "failed"
refund_status (some s) =
    if s == "succeeded" then "succeeded" else if s == "pending" then "pending" else "failed"

abbrev pub refunded : StripeRefund → ProviderRefundResult
refunded r = record {
  external_refund_id = or_else r.id "";
  status = refund_status r.status;
  raw = r.raw;
}

abbrev pub event_of : StripeEvent → WebhookEvent
event_of event = record {
  provider_id = "stripe";
  event_type = event.type;
  external_id = extract_external_id event;
  status = map_event_status event.type;
  raw = event.raw;
}

abbrev pub constructed : Reply String StripeEvent → Result WebhookEvent
constructed (answered event) = ok (event_of event)
constructed (failed message) = err (unauthorized ("Firma Stripe inválida: " <> message))

module _ (stripe : StripeInstance) (node : Node) (breaker : String → Ending) where
  unfoldable pub create_charge : CreateChargeInput → Result ProviderChargeResult
  unfolding map_stripe_error intent_params map_intent_status
  create_charge input = guarded (breaker "stripe:createCharge") (
      attempt map_stripe_error charged
        (stripe.create_intent (intent_params node input) input.idempotency_key))

  unfoldable pub capture : String → Result ProviderChargeResult
  unfolding map_stripe_error map_intent_status
  capture charge_id =
      guarded (breaker "stripe:capture")
        (attempt map_stripe_error found (stripe.capture_intent charge_id))

  unfoldable pub refund : RefundInput → Result ProviderRefundResult
  unfolding map_stripe_error refund_params
  refund input =
      guarded (breaker "stripe:refund")
        (attempt map_stripe_error refunded (stripe.create_refund (refund_params input)))

  unfoldable pub retrieve : String → Result ProviderChargeResult
  unfolding map_stripe_error map_intent_status
  retrieve external_id =
      guarded (breaker "stripe:retrieve")
        (attempt map_stripe_error found (stripe.retrieve_intent external_id))

  module _ (webhook_secret : String) where
    abbrev pub signed_event : String → Option String → Result WebhookEvent
    signed_event raw none = err (unauthorized "Falta stripe-signature")
    signed_event raw (some sig) = constructed (stripe.construct_event raw sig webhook_secret)

    unfoldable pub verify_webhook : String → Headers → Result WebhookEvent
    unfolding lookup extract_external_id map_event_status
    verify_webhook raw headers = signed_event raw (truthy (lookup "stripe-signature" headers))

    unfoldable pub provider : PaymentProvider
    provider = record {
      id = "stripe";
      countries = "US" ∷ "GB" ∷ "DE" ∷ "FR" ∷ "ES" ∷ "IT" ∷ "BR" ∷ "MX" ∷ "AR" ∷ [];
      currencies = "USD" ∷ "EUR" ∷ "GBP" ∷ "BRL" ∷ "MXN" ∷ "ARS" ∷ [];
      create_charge = create_charge;
      refund = refund;
      retrieve = retrieve;
      verify_webhook = verify_webhook;
    }

-- `onModuleInit`; `new_stripe` makes the client of a secret key.
module _ (new_stripe : String → StripeInstance) (node : Node) (breaker : String → Ending) where
  abbrev pub with_key : Config → Option String → ProviderRegistry → ProviderRegistry
  with_key config none registry = registry
  with_key config (some key) registry =
      register
        (provider (new_stripe key) node breaker (or_else (config "STRIPE_WEBHOOK_SECRET") ""))
        registry

  unfoldable pub on_module_init : Config → ProviderRegistry → ProviderRegistry
  unfolding register provider
  on_module_init config registry = with_key config (truthy (config "STRIPE_SECRET_KEY")) registry
