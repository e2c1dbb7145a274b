-- ===== src/Providers/Adapters/Dlocal.antt =====
-- src/modules/providers/adapters/dlocal/dlocal.provider.ts. The `axios` client is a parameter: a
-- function for each request that is made by it, with its path and the headers of the interceptor.
pub mod ErrorMapper
mod Client
pub use Client.*
use pasarelapagos_backend.Prelude.{
  ℕ, String, Bool, not, Option, none, some, List, [], ◌∷◌, ◌&&◌, ◌||◌, ◌==◌, String_eq, lookup,
  or_else, decimal, ◌<>◌, if◌then◌else◌,
}
use pasarelapagos_backend.Prelude.Int.{ℤ}
use pasarelapagos_backend.Json.{Json, str}
use pasarelapagos_backend.Json.Reading.{member, then_member, text_or, shown}
use pasarelapagos_backend.Errors.{Result, ok, err, unauthorized}
use pasarelapagos_backend.Providers.{
  PaymentProvider, CreateChargeInput, ProviderChargeResult, RefundInput, ProviderRefundResult,
  WebhookEvent,
}
use pasarelapagos_backend.Providers.Registry.{ProviderRegistry, register}
use pasarelapagos_backend.Providers.Adapters.{
  Config, Headers, Node, Reply, HttpError, attempt, Ending, guarded, status_in, Hundredths, body_of,
  readable, on_text, ◌>>=◌,
}
use pasarelapagos_backend.Payments.Refund.{truthy_amount}
use ErrorMapper.{map_dlocal_error}

abbrev pub status_map : List (String × String)
status_map =
    ("PAID", "captured")
    ∷ ("AUTHORIZED", "authorized")
    ∷ ("PENDING", "pending")
    ∷ ("PROCESSING", "pending")
    ∷ ("REJECTED", "failed")
    ∷ ("CANCELLED", "cancelled")
    ∷ ("EXPIRED", "failed")
    ∷ ("REFUNDED", "refunded")
    ∷ []

abbrev upper_of : Node → Option String → String
upper_of node none = "undefined"
upper_of node (some s) = node.to_upper s

unfoldable pub map_status : Node → Option String → String
unfolding status_in
map_status node s = status_in status_map (upper_of node s)

unfoldable pub map_refund_status : Option String → String
map_refund_status none = "failed"
map_refund_status (some s) =
    if s == "SUCCESS" then "succeeded" else if s == "PENDING" then "pending" else "failed"

abbrev country_methods : List (String × List (String × String))
country_methods =
    (
      "PE",
      ("card", "VI") ∷ ("bank_transfer", "BT") ∷ ("cash_voucher", "PEC") ∷ ("wallet", "YPE") ∷ [],
    )
    ∷ ("CL", ("card", "VI") ∷ ("bank_transfer", "WP") ∷ ("cash_voucher", "EF") ∷ [])
    ∷ ("CO", ("card", "VI") ∷ ("bank_transfer", "DA") ∷ ("cash_voucher", "EF") ∷ [])
    ∷ ("UY", ("card", "VI") ∷ ("bank_transfer", "RE") ∷ ("cash_voucher", "OC") ∷ [])
    ∷ []

unfoldable pub map_method : String → String → String
unfolding lookup
map_method method country =
    or_else (lookup method (or_else (lookup country country_methods) [])) "VI"

unfoldable pub payment_body : CreateChargeInput → PaymentBody
unfolding map_method
payment_body input = record {
  amount = record { hundredths = input.amount_minor };
  currency = input.currency;
  country = input.country;
  payment_method_id = map_method input.method input.country;
  payment_method_flow = "REDIRECT";
  payer_name = input.customer.id;
  payer_email = or_else input.customer.email "pagador@example.com";
  payer_document = or_else input.customer.document_id "12345678";
  order_id = input.idempotency_key;
  description = or_else input.description "Pago";
  callback_url = or_else input.return_url "https://example.com/callback";
  notification_url = or_else input.return_url "https://example.com/notify";
}

abbrev hundredths_of : Option ℤ → Option (Hundredths ℤ)
hundredths_of none = none
hundredths_of (some amount) = some (record { hundredths = amount })

unfoldable pub refund_body : RefundInput → RefundBody
refund_body input = record {
  payment_id = input.external_id;
  notification_url = "https://example.com/notify";
  amount = hundredths_of (truthy_amount input.amount_minor);
}

abbrev pub charged : Node → PaymentAnswer → ProviderChargeResult
charged node answer = record {
  external_id = answer.id;
  status = map_status node answer.status;
  redirect_url = answer.redirect_url;
  raw = answer.raw;
}

abbrev pub found : Node → PaymentAnswer → ProviderChargeResult
found node answer = record {
  external_id = answer.id;
  status = map_status node answer.status;
  redirect_url = none;
  raw = answer.raw;
}

abbrev pub refunded : RefundAnswer → ProviderRefundResult
refunded answer = record {
  external_refund_id = answer.id;
  status = map_refund_status answer.status;
  raw = answer.raw;
}

-- The event of a body, whose status was turned to upper case.
abbrev pub event_in : Json → Option String → WebhookEvent
event_in body upper = record {
  provider_id = "dlocal";
  event_type = text_or "PAYMENT" (member "event_type" body);
  external_id = text_or "unknown" (then_member "id" (member "data" body));
  status = status_in status_map (or_else upper "undefined");
  raw = body;
}

-- The part of `verifyWebhook` after the check.
unfoldable pub read_event : Node → Json → Result WebhookEvent
unfolding readable member shown status_in
read_event node json = do
  body ← readable "event_type" json
  upper ← on_text "s?.toUpperCase" node.to_upper (some (status_of body))
  ok (event_in body upper)
  where
    status_of : Json → Json
    status_of body = or_else (then_member "status" (member "data" body)) (str "PENDING")

module _ (node : Node) (api_key secret_key : String) where
  -- The interceptor of the requests.
  unfoldable pub signed_headers : (body : String) → Headers
  unfolding decimal
  signed_headers body =
      ("X-Date", decimal node.now)
      ∷ ("X-Login", api_key)
      ∷ ("X-Trans-Key", secret_key)
      ∷ (
        "Authorization",
        "V2-HMAC-SHA256, Signature: "
            <> node.hmac "sha256" secret_key (api_key <> decimal node.now <> body),
      )
      ∷ []

  unfoldable pub has_bad_signature : String → Headers → Bool
  unfolding lookup
  has_bad_signature raw headers =
      let sig = or_else (lookup "x-dlocal-signature" headers) "" in
      not (sig == "") && not (sig == node.hmac "sha256" secret_key raw)

  unfoldable pub verify_webhook : String → Headers → Result WebhookEvent
  unfolding read_event has_bad_signature
  verify_webhook raw headers =
      if has_bad_signature raw headers
      then err (unauthorized "Firma dLocal inválida")
      else read_event node (body_of node raw)

  module _ (http : DlocalHttp) (breaker : String → Ending) where
    unfoldable pub create_charge : CreateChargeInput → Result ProviderChargeResult
    unfolding map_dlocal_error payment_body map_status signed_headers
    create_charge input = guarded (breaker "dlocal:createCharge") (
        attempt map_dlocal_error (charged node) (
          http.post_payment "/secure_payments"
            (signed_headers (http.payment_text (payment_body input))) (payment_body input)))

    unfoldable pub refund : RefundInput → Result ProviderRefundResult
    unfolding map_dlocal_error refund_body map_refund_status signed_headers
    refund input = guarded (breaker "dlocal:refund") (
        attempt map_dlocal_error refunded (
          http.post_refund "/refunds" (signed_headers (http.refund_text (refund_body input)))
            (refund_body input)))

    unfoldable pub retrieve : String → Result ProviderChargeResult
    unfolding map_dlocal_error map_status signed_headers
    retrieve external_id = guarded (breaker "dlocal:retrieve") (
        attempt map_dlocal_error (found node)
          (http.get_payment ("/payments/" <> external_id) (signed_headers "")))

    unfoldable pub provider : PaymentProvider
    provider = record {
      id = "dlocal";
      countries = "PE" ∷ "CL" ∷ "CO" ∷ "UY" ∷ "BO" ∷ "PY" ∷ "CR" ∷ "GT" ∷ "EC" ∷ [];
      currencies = "PEN" ∷ "CLP" ∷ "COP" ∷ "UYU" ∷ "BOB" ∷ "PYG" ∷ "CRC" ∷ "GTQ" ∷ "USD" ∷ [];
      create_charge = create_charge;
      refund = refund;
      retrieve = retrieve;
      verify_webhook = verify_webhook;
    }

-- `onModuleInit`
module _ (http : DlocalHttp) (node : Node) (breaker : String → Ending) where
  abbrev pub with_keys : String → String → ProviderRegistry → ProviderRegistry
  with_keys api_key secret_key registry =
      if api_key == "" || secret_key == ""
      then registry
      else register (provider node api_key secret_key http breaker) registry

  unfoldable pub on_module_init : Config → ProviderRegistry → ProviderRegistry
  unfolding register provider
  on_module_init config registry =
      with_keys (or_else (config "DLOCAL_API_KEY") "") (or_else (config "DLOCAL_SECRET_KEY") "")
        registry
