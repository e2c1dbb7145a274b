-- ===== src/Providers/Adapters/Signatures.antt =====
-- What the signatures of webhooks guard: `verifyWebhook` of src/modules/providers/adapters/.
use pasarelapagos_backend.Prelude.{
  split_at, String, true, false, Option, none, some, ◌≡◌, ◌≢◌, refl, inl, inr, ◌==◌, String_eq,
  lookup, find, starts_with, or_else, Bool-cases, Option-cases, eq_iff, ◌<>◌, truthy,
}
use pasarelapagos_backend.Errors.{ok, err, unauthorized}
use pasarelapagos_backend.Providers.{WebhookEvent}
use pasarelapagos_backend.Providers.Adapters.{
  Config, Headers, Node, Ending, body_of, Reply, answered, failed,
}
use pasarelapagos_backend.Providers.Adapters.Stripe
use pasarelapagos_backend.Providers.Adapters.MercadoPago
use pasarelapagos_backend.Providers.Adapters.Pagarme
use pasarelapagos_backend.Providers.Adapters.Conekta
use pasarelapagos_backend.Providers.Adapters.Dlocal

module _ (node : Node) (raw : String) (headers : Headers) where
  pagarme_good :
      (secret : String)
      → secret ≢ ""
      → Pagarme.has_good_signature node secret raw headers ≡ true
      → or_else (lookup "x-hub-signature" headers) "" ≡ "sha1=" <> node.hmac "sha1" secret raw
  unfolding Pagarme.has_good_signature
  pagarme_good secret set good = elim (Bool-cases (secret == "")) [
    | inl unset ↦ absurd (set ((eq_iff secret "").0 unset))
    | inr there ↦ (eq_iff _ _).0 (rw there at good)
  ]

  conekta_unsigned :
      (secret : String)
      → lookup "digest" headers ≡ none
      → Conekta.has_bad_signature node secret raw headers ≡ false
  unfolding Conekta.has_bad_signature
  conekta_unsigned secret a = elim (Bool-cases (secret == "")) [
    | inl unset ↦ rw (a, unset) refl
    | inr there ↦ rw (a, there) refl
  ]

  dlocal_unsigned :
      (api_key secret : String)
      → lookup "x-dlocal-signature" headers ≡ none
      → Dlocal.has_bad_signature node api_key secret raw headers ≡ false
  unfolding Dlocal.has_bad_signature
  dlocal_unsigned api_key secret a = rw a refl

  mercadopago_unsigned :
      (secret : String)
      → lookup "x-signature" headers ≡ none
      → MercadoPago.has_bad_signature node secret raw headers ≡ false
  unfolding MercadoPago.has_bad_signature MercadoPago.signature_part split_at find starts_with
  mercadopago_unsigned secret a = rw a refl

  mercadopago_check :
      (secret : Option String)
      → lookup "x-signature" headers ≡ none
      → MercadoPago.check_signature node secret raw headers ≡ ok tt
  mercadopago_check none a = refl
  mercadopago_check (some secret) a = rw (mercadopago_unsigned secret a) refl

  constructed_answered :
      (reply : Reply String Stripe.StripeEvent) (e : WebhookEvent)
      → Stripe.constructed reply ≡ ok e
      → (event : Stripe.StripeEvent) × (reply ≡ answered event) × (e ≡ Stripe.event_of event)
  constructed_answered (answered event) e h = (event, refl, cc)
  constructed_answered (failed m) e h = cc

  -- If a secret is configured, a webhook passes the adapter of Pagar.me only if its header is the HMAC of
  -- the whole body under that secret.
  pub pagarme-signed :
      (secret : String) (e : WebhookEvent)
      → secret ≢ ""
      → Pagarme.verify_webhook node secret raw headers ≡ ok e
      → or_else (lookup "x-hub-signature" headers) "" ≡ "sha1=" <> node.hmac "sha1" secret raw
  unfolding Pagarme.verify_webhook
  pagarme-signed secret e set passed =
      elim (Bool-cases (Pagarme.has_good_signature node secret raw headers)) [
        | inl good ↦ pagarme_good secret set good
        | inr bad ↦
            let refused : err (unauthorized "Firma Pagar.me inválida") ≡ ok e = rw bad at passed in
            cc
      ]

  -- A webhook that passes the adapter of Stripe has a signature under which the client accepted the body
  -- with the configured secret, and is read from the client's event.
  pub stripe-signed :
      (stripe : Stripe.StripeInstance) (breaker : String → Ending) (secret : String)
      (e : WebhookEvent)
      → Stripe.verify_webhook stripe node breaker secret raw headers ≡ ok e
      → (sig : String) × (event : Stripe.StripeEvent) × (truthy (lookup "stripe-signature" headers)
          ≡ some sig)
        × (stripe.construct_event raw sig secret ≡ answered event)
        × (e ≡ Stripe.event_of event)
  unfolding Stripe.verify_webhook
  stripe-signed stripe breaker secret e passed =
      elim (Option-cases (truthy (lookup "stripe-signature" headers))) [
        | inl missing ↦
            let refused : err (unauthorized "Falta stripe-signature") ≡ ok e =
              rw missing at passed in
            cc
        | inr (sig, there) ↦
            let (event, reply, eq) =
              constructed_answered (stripe.construct_event raw sig secret) e (rw there at passed) in
            (sig, event, there, reply, eq)
      ]

  -- Without the header of the signature the adapters of Conekta, dLocal and Mercado Pago read the event
  -- as if it had been signed, whatever secrets are configured.
  pub unsigned_is_read :
      (secret api_key : String) (config : Config)
      → lookup "digest" headers ≡ none
      → lookup "x-dlocal-signature" headers ≡ none
      → lookup "x-signature" headers ≡ none
      → (Conekta.verify_webhook node secret raw headers ≡ Conekta.read_event (body_of node raw))
        × (Dlocal.verify_webhook node api_key secret raw headers
            ≡ Dlocal.read_event node (body_of node raw))
        × (MercadoPago.verify_webhook node config raw headers
            ≡ MercadoPago.read_event node raw (body_of node raw))
  unfolding Conekta.verify_webhook Dlocal.verify_webhook MercadoPago.verify_webhook
  unsigned_is_read secret api_key config a b c = (
    rw (conekta_unsigned secret a) refl,
    rw (dlocal_unsigned api_key secret b) refl,
    rw (mercadopago_check (truthy (config "MERCADOPAGO_WEBHOOK_SECRET")) c) refl,
  )
