-- ===== src/Providers/Adapters/Conekta.antt =====
-- src/modules/providers/adapters/conekta/conekta.provider.ts. The `axios` client is a parameter: a
-- function for each request that is made by it, with its path.
pub mod ErrorMapper
mod Client
pub use Client.*
use pasarelapagos_backend.Prelude.{
  ℕ, ◌+◌, ◌*◌, ◌/◌, String, Bool, not, Option, none, some, List, [], ◌∷◌, ◌&&◌, ◌==◌, String_eq,
  lookup, or_else, or_opt, truthy, head?, ◌<>◌, if◌then◌else◌,
}
use pasarelapagos_backend.Prelude.Int.{ℤ}
use pasarelapagos_backend.Json.{Json, object}
use pasarelapagos_backend.Json.Reading.{member, then_member, last_item, text_or, shown}
use pasarelapagos_backend.Errors.{Result, ok, err, unauthorized}
use pasarelapagos_backend.Providers.{
  PaymentProvider, CreateChargeInput, ProviderChargeResult, RefundInput, ProviderRefundResult,
  WebhookEvent,
}
use pasarelapagos_backend.Providers.Registry.{ProviderRegistry, register}
use pasarelapagos_backend.Providers.Adapters.{
  Config, Headers, Node, Reply, HttpError, attempt, Ending, guarded, assign, status_in, body_of,
  readable, ◌>>=◌,
}
use pasarelapagos_backend.Payments.Refund.{truthy_amount}
use pasarelapagos_backend.Webhooks.Secret.{remove_first}
use ErrorMapper.{map_conekta_error}

abbrev pub status_map : List (String × String)
status_map =
    ("paid", "captured")
    ∷ ("partially_paid", "authorized")
    ∷ ("pending_payment", "pending")
    ∷ ("expired", "failed")
    ∷ ("declined", "failed")
    ∷ ("refunded", "refunded")
    ∷ ("voided", "cancelled")
    ∷ []

unfoldable pub map_status : String → String
unfolding status_in
map_status s = status_in status_map s

abbrev payment_method : Node → CreateChargeInput → PaymentMethod
payment_method node input =
    if input.method == "cash_voucher"
    then cash (node.now / 1000 + 3 * 24 * 3600)
    else card (or_else (lookup "paymentSourceId" (or_else input.metadata [])) "")

unfoldable pub order_body : Node → CreateChargeInput → OrderBody
unfolding assign lookup
order_body node input = record {
  currency = "MXN";
  customer_name = input.customer.id;
  customer_email = or_else input.customer.email "pagador@example.com";
  customer_phone = "+5200000000000";
  line_items = item ∷ [];
  charges = payment_method node input ∷ [];
  metadata = assign "idempotencyKey" input.idempotency_key (or_else input.metadata []);
}
  where
    item : LineItem
    item = record {
      name = or_else input.description "Producto";
      unit_price = input.amount_minor;
      quantity = 1;
    }

unfoldable pub refund_body : RefundInput → RefundBody
refund_body input = record {
  reason = or_else input.reason "requested_by_client";
  amount = truthy_amount input.amount_minor;
}

abbrev charge_id : Option Charge → Option String
charge_id none = none
charge_id (some c) = c.id

abbrev charge_status : Option Charge → Option String
charge_status none = none
charge_status (some c) = c.status

abbrev reference_of : Option Charge → Option String
reference_of none = none
reference_of (some c) = c.reference

-- The key of a table that a missing status stands for is "undefined".
abbrev pub status_of : Order → String
status_of order =
    or_else (or_opt (charge_status (head? order.charges)) order.payment_status) "undefined"

abbrev pub charged : Order → ProviderChargeResult
charged order = record {
  external_id = or_else (charge_id (head? order.charges)) order.id;
  status = map_status (status_of order);
  redirect_url = reference_of (head? order.charges);
  raw = order.raw;
}

abbrev pub refunded : RefundAnswer → ProviderRefundResult
refunded answer = record { external_refund_id = answer.id; status = "succeeded"; raw = answer.raw }

abbrev pub found : Order → ProviderChargeResult
found order = record {
  external_id = order.id;
  status = map_status (or_else order.payment_status "undefined");
  redirect_url = none;
  raw = order.raw;
}

-- `body.data?.object ?? {}`
abbrev pub order_in : Json → Json
order_in body = or_else (then_member "object" (member "data" body)) (object [])

-- The last of `order.charges?.data ?? []`, or `{}`.
abbrev charge_in : Json → Json
charge_in order = or_else (last_item (then_member "data" (member "charges" order))) (object [])

abbrev pub status_in_order : Json → String
status_in_order order =
    text_or "pending" (or_opt (member "status" (charge_in order)) (member "payment_status" order))

-- The event of a body.
abbrev pub event_in : Json → WebhookEvent
event_in body =
    let order = order_in body in
    let charge = charge_in order in
    record {
      provider_id = "conekta";
      event_type = text_or "order.updated" (member "type" body);
      external_id = text_or "unknown" (or_opt (member "id" charge) (member "id" order));
      status = map_status (status_in_order order);
      raw = body;
    }

-- The part of `verifyWebhook` after the check.
unfoldable pub read_event : Json → Result WebhookEvent
unfolding readable member shown map_status
read_event json = do body ← readable "data" json; ok (event_in body)

abbrev without_prefix : Option String → String
without_prefix none = ""
without_prefix (some digest) = remove_first "sha256=" digest

module _ (node : Node) (webhook_secret : String) where
  unfoldable pub has_bad_signature : String → Headers → Bool
  unfolding lookup remove_first
  has_bad_signature raw headers =
      let incoming = without_prefix (lookup "digest" headers) in
      not (webhook_secret == "")
      && not (incoming == "")
      && not (node.hmac "sha256" webhook_secret raw == incoming)

  unfoldable pub verify_webhook : String → Headers → Result WebhookEvent
  unfolding read_event has_bad_signature
  verify_webhook raw headers =
      if has_bad_signature raw headers
      then err (unauthorized "Firma Conekta inválida")
      else read_event (body_of node raw)

  module _ (http : ConektaHttp) (breaker : String → Ending) where
    unfoldable pub create_charge : CreateChargeInput → Result ProviderChargeResult
    unfolding map_conekta_error order_body map_status
    create_charge input =
        guarded (breaker "conekta:createCharge")
          (attempt map_conekta_error charged (http.post_order "/orders" (order_body node input)))

    unfoldable pub refund : RefundInput → Result ProviderRefundResult
    unfolding map_conekta_error refund_body
    refund input = guarded (breaker "conekta:refund") (
        attempt map_conekta_error refunded
          (http.post_refund ("/orders/" <> input.external_id <> "/refunds") (refund_body input)))

    unfoldable pub retrieve : String → Result ProviderChargeResult
    unfolding map_conekta_error map_status
    retrieve external_id =
        guarded (breaker "conekta:retrieve")
          (attempt map_conekta_error found (http.get_order ("/orders/" <> external_id)))

    unfoldable pub provider : PaymentProvider
    provider = record {
      id = "conekta";
      countries = "MX" ∷ [];
      currencies = "MXN" ∷ [];
      create_charge = create_charge;
      refund = refund;
      retrieve = retrieve;
      verify_webhook = verify_webhook;
    }

-- `onModuleInit`; `new_http` makes the client of an API key.
module _ (new_http : String → ConektaHttp) (node : Node) (breaker : String → Ending) where
  abbrev pub with_key : Config → Option String → ProviderRegistry → ProviderRegistry
  with_key config none registry = registry
  with_key config (some key) registry =
      register (provider node (or_else (config "CONEKTA_WEBHOOK_SECRET") "") (new_http key) breaker)
        registry

  unfoldable pub on_module_init : Config → ProviderRegistry → ProviderRegistry
  unfolding register provider
  on_module_init config registry = with_key config (truthy (config "CONEKTA_PRIVATE_KEY")) registry
