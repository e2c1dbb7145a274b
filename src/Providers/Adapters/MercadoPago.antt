-- ===== src/Providers/Adapters/MercadoPago.antt =====
-- src/modules/providers/adapters/mercadopago/mercadopago.provider.ts. The client of the package
-- `mercadopago` is a parameter: a function for each of its calls.
pub mod ErrorMapper
mod Client
pub use Client.*
pub mod Notifications
use Prim.Native.Char.{Char, code}
use Prim.Native.String
use pasarelapagos_backend.Prelude.{
  split_at, ℕ, ◌+◌, ◌*◌, String, Bool, Option, none, some, List, [], ◌∷◌, ◌&&◌, not, ◌==◌,
  String_eq, ℕ_eq, lookup, or_else, or_opt, truthy, find, starts_with, decimal, ◌<>◌, if◌then◌else◌,
}
use pasarelapagos_backend.Prelude.Int.{ℤ}
use pasarelapagos_backend.Json.{Json}
use pasarelapagos_backend.Json.Reading.{member, then_member, text_or, shown, truthy_json}
use pasarelapagos_backend.Errors.{Result, ok, err, Exception, error, unauthorized}
use pasarelapagos_backend.Providers.{
  PaymentProvider, CreateChargeInput, ProviderChargeResult, RefundInput, ProviderRefundResult,
  WebhookEvent,
}
use pasarelapagos_backend.Providers.Registry.{ProviderRegistry, register}
use pasarelapagos_backend.Providers.Adapters.{
  Config, Headers, Node, Reply, answered, failed, attempt, Ending, guarded, assign, status_in,
  Hundredths, body_of, readable, on_text, ◌>>=◌,
}
use pasarelapagos_backend.Payments.Refund.{truthy_amount}
use pasarelapagos_backend.Webhooks.Secret.{remove_first}
use ErrorMapper.{map_mercadopago_error}

abbrev pub status_map : List (String × String)
status_map =
    ("approved", "captured")
    ∷ ("authorized", "authorized")
    ∷ ("in_process", "pending")
    ∷ ("in_mediation", "pending")
    ∷ ("pending", "pending")
    ∷ ("rejected", "failed")
    ∷ ("cancelled", "cancelled")
    ∷ ("refunded", "refunded")
    ∷ ("charged_back", "refunded")
    ∷ ("opened", "pending")
    ∷ ("waiting_transfer", "pending")
    ∷ []

unfoldable pub map_status : String → String
unfolding status_in
map_status s = status_in status_map s

abbrev method_table : List (String × String)
method_table =
    ("card", "credit_card")
    ∷ ("wallet", "account_money")
    ∷ ("bank_transfer", "bank_transfer")
    ∷ ("pix", "pix")
    ∷ ("qr", "account_money")
    ∷ []

unfoldable pub map_method : String → String
unfolding lookup
map_method method = or_else (lookup method method_table) "credit_card"

abbrev identification_of : Option String → Option Identification
identification_of none = none
identification_of (some number) = some (record { type = "DNI"; number = number })

-- `String(id)` of a number
abbrev pub id_text : Option ℕ → String
id_text none = "undefined"
id_text (some n) = decimal n

abbrev hundredths_of : Option ℤ → Option (Hundredths ℤ)
hundredths_of none = none
hundredths_of (some amount) = some (record { hundredths = amount })

abbrev expiration : Node → String → Option String
expiration node method =
    if method == "pix" then some (node.iso_text (node.now + 24 * 60 * 60 * 1000)) else none

unfoldable pub payment_body : Node → CreateChargeInput → PaymentBody
unfolding map_method assign
payment_body node input = record {
  transaction_amount = record { hundredths = input.amount_minor };
  description = or_else input.description "Pago";
  payment_method_id = if input.method == "pix" then "pix" else map_method input.method;
  payer_email = or_else input.customer.email "pagador@example.com";
  payer_identification = identification_of (truthy input.customer.document_id);
  metadata = assign "customerId" input.customer.id (or_else input.metadata []);
  statement_descriptor = "PASARELA";
  callback_url = truthy input.return_url;
  date_of_expiration = expiration node input.method;
}

abbrev is_rejected : Option String → Bool
is_rejected status = or_else status "" == "rejected"

abbrev pub charged : MpPayment → ProviderChargeResult
charged result = record {
  external_id = id_text result.id;
  status = map_status (or_else result.status "pending");
  redirect_url = result.ticket_url;
  raw = result.raw;
}

abbrev pub found : MpPayment → ProviderChargeResult
found result = record {
  external_id = id_text result.id;
  status = map_status (or_else result.status "pending");
  redirect_url = none;
  raw = result.raw;
}

abbrev pub refunded : MpRefund → ProviderRefundResult
refunded result = record {
  external_refund_id = id_text result.id;
  status = if or_else result.status "" == "approved" then "succeeded" else "pending";
  raw = result.raw;
}

-- An error that no `catch` maps.
abbrev pub thrown : MpError → Exception
thrown e = error e.message

abbrev coded : MpError → Option Json → Exception
coded e none = thrown e
coded e (some code) =
    if truthy_json code then map_mercadopago_error (shown code) e.status else thrown e

-- The `try` and the `catch` of `createCharge`: a rejected payment throws too.
unfoldable pub charge_of : Reply MpError MpPayment → Result ProviderChargeResult
unfolding map_mercadopago_error map_status decimal shown truthy_json
charge_of (answered result) =
    if is_rejected result.status
    then err (map_mercadopago_error (or_else result.status_detail "cc_rejected_other_reason") none)
    else ok (charged result)
charge_of (failed e) = err (coded e e.cause_code)

-- `part?.split('=')[1]`
abbrev value_of : Option String → Option String
value_of none = none
value_of (some part) = second (split_at 61 part)
  where
    second : List String → Option String
    second [] = none
    second (k ∷ []) = none
    second (k ∷ v ∷ rest) = some v

-- The value of a part of `x-signature` that starts with `key`, such as `ts=`.
unfoldable pub signature_part : String → String → String
unfolding split_at find starts_with
signature_part key x_sig = or_else (value_of (find (λ p. starts_with p key) (split_at 44 x_sig))) ""

module _ (node : Node) where
  abbrev id_in : Option Json → String
  id_in none = decimal node.now
  id_in (some body) =
      text_or (decimal node.now) (or_opt (then_member "id" (member "data" body)) (member "id" body))

  -- A text that is no JSON, or is `null`, throws inside of the `try`.
  unfoldable pub extract_data_id : String → String
  unfolding member shown decimal
  extract_data_id raw = id_in (node.parse raw)

  unfoldable pub signed_template : String → Headers → String
  unfolding lookup extract_data_id signature_part
  signed_template raw headers =
      "id:"
      <> extract_data_id raw
      <> ";request-id:"
      <> or_else (lookup "x-request-id" headers) ""
      <> ";ts:"
      <> signature_part "ts=" (or_else (lookup "x-signature" headers) "")
      <> ";"

  -- The check of the signature under a secret that is set.
  unfoldable pub has_bad_signature : String → String → Headers → Bool
  unfolding lookup signature_part signed_template
  has_bad_signature secret raw headers =
      let v1 = signature_part "v1=" (or_else (lookup "x-signature" headers) "") in
      not (v1 == "") && not (node.hmac "sha256" secret (signed_template raw headers) == v1)

  abbrev pub check_signature : Option String → String → Headers → Result (Unit {0})
  check_signature none raw headers = ok tt
  check_signature (some secret) raw headers =
      if has_bad_signature secret raw headers
      then err (unauthorized "Firma MercadoPago inválida")
      else ok tt

  -- The event of a body, with the text that its status is read from.
  abbrev pub event_in : String → Json → Option String → WebhookEvent
  event_in raw body by_action = record {
    provider_id = "mercadopago";
    event_type = text_or "payment.updated" (or_opt (member "action" body) (member "type" body));
    external_id = text_or (extract_data_id raw) (then_member "id" (member "data" body));
    status = map_status (or_else by_action "pending");
    raw = body;
  }

  -- The part after the check.
  unfoldable pub read_event : String → Json → Result WebhookEvent
  unfolding member shown readable map_status extract_data_id remove_first
  read_event raw json = do
    body ← readable "data" json
    let data_status = then_member "status" (member "data" body)
    by_action ← on_text_unless data_status (member "action" body)
    ok (event_in raw body by_action)
    where
      -- `data_status ?? action?.replace('payment.', '')`
      on_text_unless : Option Json → Option Json → Result (Option String)
      on_text_unless (some s) action = ok (some (shown s))
      on_text_unless none action = on_text "body.action?.replace" (remove_first "payment.") action

  module _ (config : Config) where
    unfoldable pub verify_webhook : String → Headers → Result WebhookEvent
    unfolding read_event has_bad_signature
    verify_webhook raw headers = do
      checked ← check_signature (truthy (config "MERCADOPAGO_WEBHOOK_SECRET")) raw headers
      read_event raw (body_of node raw)

    module _ (client : MpClient) (breaker : String → Ending) where
      unfoldable pub create_charge : CreateChargeInput → Result ProviderChargeResult
      unfolding charge_of payment_body
      create_charge input =
          guarded (breaker "mp:createCharge")
            (charge_of (client.create_payment (payment_body node input) input.idempotency_key))

      abbrev pub refund_request : RefundInput → MpRefundRequest
      refund_request input = record {
        payment_id = node.number input.external_id;
        amount = hundredths_of (truthy_amount input.amount_minor);
      }

      unfoldable pub refund : RefundInput → Result ProviderRefundResult
      unfolding decimal
      refund input =
          guarded (breaker "mp:refund")
            (attempt thrown refunded (client.create_refund (refund_request input)))

      unfoldable pub retrieve : String → Result ProviderChargeResult
      unfolding map_status decimal
      retrieve external_id =
          guarded (breaker "mp:retrieve")
            (attempt thrown found (client.get_payment (node.number external_id)))

      unfoldable pub provider : PaymentProvider
      provider = record {
        id = "mercadopago";
        countries = "AR" ∷ "BR" ∷ "MX" ∷ "CO" ∷ "CL" ∷ "PE" ∷ "UY" ∷ "BO" ∷ "PY" ∷ [];
        currencies = "ARS" ∷ "BRL" ∷ "MXN" ∷ "COP" ∷ "CLP" ∷ "PEN" ∷ "UYU" ∷ "BOB" ∷ "PYG" ∷ [];
        create_charge = create_charge;
        refund = refund;
        retrieve = retrieve;
        verify_webhook = verify_webhook;
      }

-- `onModuleInit`; `new_client` makes the clients of an access token.
module _ (new_client : String → MpClient) (node : Node) (breaker : String → Ending) where
  abbrev pub with_token : Config → Option String → ProviderRegistry → ProviderRegistry
  with_token config none registry = registry
  with_token config (some token) registry =
      register (provider node config (new_client token) breaker) registry

  unfoldable pub on_module_init : Config → ProviderRegistry → ProviderRegistry
  unfolding register provider
  on_module_init config registry =
      with_token config (truthy (config "MERCADOPAGO_ACCESS_TOKEN")) registry
