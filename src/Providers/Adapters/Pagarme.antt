-- ===== src/Providers/Adapters/Pagarme.antt =====
-- src/modules/providers/adapters/pagarme/pagarme.provider.ts. The `axios` client is a parameter: a
-- function for each request that is made by it, with its path.
pub mod ErrorMapper
mod Client
pub use Client.*
use pasarelapagos_backend.Prelude.{
  ℕ, String, Bool, true, false, not, Option, none, some, List, [], ◌∷◌, ◌==◌, String_eq, lookup,
  or_else, or_opt, truthy, head?, ◌<>◌, if◌then◌else◌,
}
use pasarelapagos_backend.Prelude.Int.{ℤ}
use pasarelapagos_backend.Json.{Json, object}
use pasarelapagos_backend.Json.Reading.{member, then_member, then_first, text_or, shown}
use pasarelapagos_backend.Errors.{Result, ok, err, unauthorized}
use pasarelapagos_backend.Providers.{
  PaymentProvider, CreateChargeInput, ProviderChargeResult, RefundInput, ProviderRefundResult,
  WebhookEvent,
}
use pasarelapagos_backend.Providers.Registry.{ProviderRegistry, register}
use pasarelapagos_backend.Providers.Adapters.{
  Config, Headers, Node, Reply, HttpError, attempt, Ending, guarded, status_in, body_of, readable,
  ◌>>=◌,
}
use pasarelapagos_backend.Payments.Refund.{truthy_amount}
use ErrorMapper.{map_pagarme_error}

abbrev pub status_map : List (String × String)
status_map =
    ("paid", "captured")
    ∷ ("authorized", "authorized")
    ∷ ("pending", "pending")
    ∷ ("waiting_payment", "pending")
    ∷ ("processing", "pending")
    ∷ ("failed", "failed")
    ∷ ("canceled", "cancelled")
    ∷ ("refunded", "refunded")
    ∷ ("chargedback", "refunded")
    ∷ ("generated", "pending")
    ∷ ("waiting", "pending")
    ∷ []

unfoldable pub map_status : String → String
unfolding status_in
map_status s = status_in status_map s

abbrev payment_method : CreateChargeInput → PaymentMethod
payment_method input =
    if input.method == "pix"
    then pix 3600 (("order", input.idempotency_key) ∷ [])
    else credit_card false 1 "PASARELA"

unfoldable pub order_body : CreateChargeInput → OrderBody
order_body input = record {
  items = item ∷ [];
  customer = record {
    name = input.customer.id;
    email = or_else input.customer.email "pagador@example.com";
    type = "individual";
    document = or_else input.customer.document_id "00000000000";
    document_type = "CPF";
  };
  payments = payment_method input ∷ [];
  code = input.idempotency_key;
}
  where
    item : Item
    item = record {
      amount = input.amount_minor;
      description = or_else input.description "Produto";
      quantity = 1;
      code = "ITEM_001";
    }

abbrev charge_id : Option Charge → Option String
charge_id none = none
charge_id (some c) = c.id

abbrev charge_status : Option Charge → Option String
charge_status none = none
charge_status (some c) = c.status

abbrev qr_of : Option Transaction → Option String
qr_of none = none
qr_of (some tx) = or_opt tx.qr_code_url tx.qr_code

abbrev pix_qr : Option Charge → Option String
pix_qr none = none
pix_qr (some c) = qr_of c.last_transaction

abbrev pub status_of : Order → String
status_of order = or_else (charge_status (head? order.charges)) order.status

abbrev pub charged : Order → ProviderChargeResult
charged order = record {
  external_id = or_else (charge_id (head? order.charges)) order.id;
  status = map_status (status_of order);
  redirect_url = pix_qr (head? order.charges);
  raw = order.raw;
}

abbrev pub cancelled : ChargeAnswer → ProviderRefundResult
cancelled answer = record {
  external_refund_id = answer.id;
  status = if answer.status == "canceled" then "succeeded" else "pending";
  raw = answer.raw;
}

abbrev pub found : ChargeAnswer → ProviderChargeResult
found answer = record {
  external_id = answer.id;
  status = map_status answer.status;
  redirect_url = none;
  raw = answer.raw;
}

-- `body.data?.charges?.[0] ?? body.data ?? {}`
abbrev charge_in : Json → Json
charge_in body =
    or_else (or_opt (then_first (then_member "charges" (member "data" body))) (member "data" body))
      (object [])

abbrev pub status_in_body : Json → String
status_in_body body =
    text_or "pending"
      (or_opt (member "status" (charge_in body)) (then_member "status" (member "data" body)))

-- The event of a body.
abbrev pub event_in : Json → WebhookEvent
event_in body =
    let charge = charge_in body in
    record {
      provider_id = "pagarme";
      event_type = text_or "charge.updated" (member "type" body);
      external_id = text_or "unknown" (or_opt (member "id" charge) (member "id" body));
      status = map_status (status_in_body body);
      raw = body;
    }

-- The part of `verifyWebhook` after the check.
unfoldable pub read_event : Json → Result WebhookEvent
unfolding readable member shown map_status
read_event json = do body ← readable "data" json; ok (event_in body)

module _ (node : Node) (webhook_secret : String) where
  -- The check is skipped where there is no secret.
  unfoldable pub has_good_signature : String → Headers → Bool
  unfolding lookup
  has_good_signature raw headers =
      if webhook_secret == ""
      then true
      else or_else (lookup "x-hub-signature" headers) ""
        == ("sha1=" <> node.hmac "sha1" webhook_secret raw)

  unfoldable pub verify_webhook : String → Headers → Result WebhookEvent
  unfolding read_event has_good_signature
  verify_webhook raw headers =
      if not (has_good_signature raw headers)
      then err (unauthorized "Firma Pagar.me inválida")
      else read_event (body_of node raw)

  module _ (http : PagarmeHttp) (breaker : String → Ending) where
    unfoldable pub create_charge : CreateChargeInput → Result ProviderChargeResult
    unfolding map_pagarme_error order_body map_status
    create_charge input =
        guarded (breaker "pagarme:createCharge")
          (attempt map_pagarme_error charged (http.post_order "/orders" (order_body input)))

    unfoldable pub refund : RefundInput → Result ProviderRefundResult
    unfolding map_pagarme_error
    refund input = guarded (breaker "pagarme:refund") (
        attempt map_pagarme_error cancelled (
          http.post_cancel ("/charges/" <> input.external_id <> "/cancel")
            (truthy_amount input.amount_minor)))

    unfoldable pub retrieve : String → Result ProviderChargeResult
    unfolding map_pagarme_error map_status
    retrieve external_id =
        guarded (breaker "pagarme:retrieve")
          (attempt map_pagarme_error found (http.get_charge ("/charges/" <> external_id)))

    unfoldable pub provider : PaymentProvider
    provider = record {
      id = "pagarme";
      countries = "BR" ∷ [];
      currencies = "BRL" ∷ [];
      create_charge = create_charge;
      refund = refund;
      retrieve = retrieve;
      verify_webhook = verify_webhook;
    }

-- `onModuleInit`; `new_http` makes the client of an API key.
module _ (new_http : String → PagarmeHttp) (node : Node) (breaker : String → Ending) where
  abbrev pub with_key : Config → Option String → ProviderRegistry → ProviderRegistry
  with_key config none registry = registry
  with_key config (some key) registry =
      register (provider node (or_else (config "PAGARME_WEBHOOK_SECRET") "") (new_http key) breaker)
        registry

  unfoldable pub on_module_init : Config → ProviderRegistry → ProviderRegistry
  unfolding register provider
  on_module_init config registry = with_key config (truthy (config "PAGARME_API_KEY")) registry
