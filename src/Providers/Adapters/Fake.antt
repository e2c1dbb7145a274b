-- ===== src/Providers/Adapters/Fake.antt =====
-- src/modules/providers/adapters/fake/fake.provider.ts
use pasarelapagos_backend.Prelude.{
  String, Bool, false, not, Option, none, some, List, [], ◌∷◌, ◌&&◌, ◌==◌, String_eq, lookup,
  or_else, decimal, ◌<>◌, if◌then◌else◌,
}
use pasarelapagos_backend.Prelude.Int.{pos}
use pasarelapagos_backend.Json.{Json, Fields, num, str, end, field, obj, object}
use pasarelapagos_backend.Json.Reading.{member, text_or, shown}
use pasarelapagos_backend.Errors.{Result, ok, err, unauthorized}
use pasarelapagos_backend.Providers.{
  PaymentProvider, CreateChargeInput, ProviderChargeResult, RefundInput, ProviderRefundResult,
  WebhookEvent,
}
use pasarelapagos_backend.Providers.Registry.{ProviderRegistry, register}
use pasarelapagos_backend.Providers.Adapters.{Config, Headers, Node, body_of, readable, ◌>>=◌}
use pasarelapagos_backend.Webhooks.Secret.{remove_first}

abbrev fake_raw : Json
fake_raw = object (("provider", str "fake") ∷ [])

abbrev opt_field : String → Option String → Fields → Fields
opt_field k none rest = rest
opt_field k (some s) rest = field k (str s) rest

abbrev text_fields : List (String × String) → Fields
text_fields [] = end
text_fields ((k, v) ∷ rest) = field k (str v) (text_fields rest)

abbrev metadata_field : Option (List (String × String)) → Fields → Fields
metadata_field none rest = rest
metadata_field (some entries) rest = field "metadata" (obj (text_fields entries)) rest

-- The input as an object.
abbrev input_json : CreateChargeInput → Json
input_json i = obj (
    field "amountMinor" (num (pos i.amount_minor)) (
      field "currency" (str i.currency) (
        field "country" (str i.country) (
          field "customer" (obj customer) (
            opt_field "description" i.description (
              field "method" (str i.method) (
                metadata_field i.metadata (
                  field "idempotencyKey" (str i.idempotency_key)
                    (opt_field "returnUrl" i.return_url end)))))))))
  where
    customer : Fields
    customer =
        field "id" (str i.customer.id)
          (opt_field "email" i.customer.email (opt_field "documentId" i.customer.document_id end))

unfoldable pub create_charge : CreateChargeInput → Result ProviderChargeResult
create_charge input = ok (record {
  external_id = "fake_" <> input.idempotency_key;
  status = "captured";
  redirect_url = none;
  raw = object (("provider", str "fake") ∷ ("input", input_json input) ∷ []);
})

unfoldable pub refund : RefundInput → Result ProviderRefundResult
refund input = ok (record {
  external_refund_id = "fake_refund_" <> input.external_id;
  status = "succeeded";
  raw = fake_raw;
})

unfoldable pub retrieve : String → Result ProviderChargeResult
retrieve external_id =
    ok (record {
      external_id = external_id;
      status = "captured";
      redirect_url = none;
      raw = fake_raw;
    })

-- `NODE_ENV === 'production'`
abbrev pub in_production : Config → Bool
in_production env = or_else (env "NODE_ENV") "" == "production"

abbrev is_signature : Option String → String → Bool
is_signature none expected = false
is_signature (some sig) expected = remove_first "sha256=" sig == expected

module _ (node : Node) (env : Config) where
  abbrev pub read_event : Json → Result WebhookEvent
  read_event json = do
    body ← readable "type" json
    ok (record {
      provider_id = "fake";
      event_type = text_or "payment.captured" (member "type" body);
      external_id = text_or ("fake_ext_" <> decimal node.now) (member "externalId" body);
      status = text_or "captured" (member "status" body);
      raw = body;
    })

  unfoldable pub verify_webhook : String → Headers → Result WebhookEvent
  unfolding lookup remove_first readable member shown decimal
  verify_webhook raw headers =
      let expected = node.hmac "sha256" (or_else (env "WEBHOOK_SIGNING_SECRET") "change-me") raw in
      if in_production env && not (is_signature (lookup "x-fake-signature" headers) expected)
      then err (unauthorized "Firma HMAC inválida")
      else read_event (body_of node raw)

  unfoldable pub provider : PaymentProvider
  provider = record {
    id = "fake";
    countries = "AR" ∷ "BR" ∷ "MX" ∷ "PE" ∷ "CL" ∷ "CO" ∷ "US" ∷ [];
    currencies = "ARS" ∷ "BRL" ∷ "MXN" ∷ "PEN" ∷ "CLP" ∷ "COP" ∷ "USD" ∷ "EUR" ∷ [];
    create_charge = create_charge;
    refund = refund;
    retrieve = retrieve;
    verify_webhook = verify_webhook;
  }

  -- `onModuleInit`
  unfoldable pub on_module_init : ProviderRegistry → ProviderRegistry
  unfolding register provider
  on_module_init registry = if in_production env then registry else register provider registry
