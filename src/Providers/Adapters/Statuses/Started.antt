-- ===== src/Providers/Adapters/Statuses/Started.antt =====
-- The statuses of the adapters that src/modules/providers/providers.module.ts starts.
use pasarelapagos_backend.Prelude.{
  String, Bool, true, false, Option, none, some, ◌≡◌, refl, String_eq, ◌==◌, contains, or_else,
  if◌then◌else◌,
}
use pasarelapagos_backend.Errors.{ok}
use pasarelapagos_backend.Providers.{ProviderChargeResult, ProviderRefundResult, WebhookEvent}
use pasarelapagos_backend.Providers.Adapters.{
  Config, Node, Ending, runs, opened, late, Reply, answered, failed, guarded,
}
use pasarelapagos_backend.Providers.Adapters.Statuses.{
  IsChargeStatus, IsRefundStatus, IsTyped, status_in-IsChargeStatus, attempt_returns, ok_returns,
  if_returns,
}
use pasarelapagos_backend.Providers.Adapters.Stripe
use pasarelapagos_backend.Providers.Adapters.MercadoPago
use pasarelapagos_backend.Providers.Adapters.Pagarme
use pasarelapagos_backend.Providers.Adapters.Conekta
use pasarelapagos_backend.Providers.Adapters.Dlocal

abbrev HasChargeStatus : ProviderChargeResult → Type 0
HasChargeStatus r = IsChargeStatus r.status

abbrev HasRefundStatus : ProviderRefundResult → Type 0
HasRefundStatus r = IsRefundStatus r.status

abbrev EventHasStatus : WebhookEvent → Type 0
EventHasStatus e = IsChargeStatus e.status

-- A choice between refund statuses.
choice :
    (b : Bool) (s t : String)
    → IsRefundStatus s
    → IsRefundStatus t
    → IsRefundStatus (if b then s else t)
choice true s t p q = p
choice false s t p q = q

intent_status : (s : String) → IsChargeStatus (Stripe.map_intent_status s)
unfolding Stripe.map_intent_status contains
intent_status s = status_in-IsChargeStatus Stripe.intent_status_map s refl

event_status : (s : String) → IsChargeStatus (Stripe.map_event_status s)
unfolding Stripe.map_event_status contains
event_status s = status_in-IsChargeStatus Stripe.event_status_map s refl

stripe_refund_status : (s : Option String) → IsRefundStatus (Stripe.refund_status s)
unfolding contains
stripe_refund_status none = refl
stripe_refund_status (some s) =
    choice (s == "succeeded") "succeeded" _ refl
      (choice (s == "pending") "pending" "failed" refl refl)

mercadopago_status : (s : String) → IsChargeStatus (MercadoPago.map_status s)
unfolding MercadoPago.map_status contains
mercadopago_status s = status_in-IsChargeStatus MercadoPago.status_map s refl

pagarme_status : (s : String) → IsChargeStatus (Pagarme.map_status s)
unfolding Pagarme.map_status contains
pagarme_status s = status_in-IsChargeStatus Pagarme.status_map s refl

conekta_status : (s : String) → IsChargeStatus (Conekta.map_status s)
unfolding Conekta.map_status contains
conekta_status s = status_in-IsChargeStatus Conekta.status_map s refl

dlocal_status : (node : Node) (s : Option String) → IsChargeStatus (Dlocal.map_status node s)
unfolding Dlocal.map_status contains
dlocal_status node none = status_in-IsChargeStatus Dlocal.status_map "undefined" refl
dlocal_status node (some s) = status_in-IsChargeStatus Dlocal.status_map (node.to_upper s) refl

dlocal-IsRefundStatus : (s : Option String) → IsRefundStatus (Dlocal.map_refund_status s)
unfolding contains Dlocal.map_refund_status
dlocal-IsRefundStatus none = refl
dlocal-IsRefundStatus (some s) =
    choice (s == "SUCCESS") "succeeded" _ refl
      (choice (s == "PENDING") "pending" "failed" refl refl)

module _ (node : Node) (breaker : String → Ending) where
  module _ (stripe : Stripe.StripeInstance) (secret : String) where
    pub stripe-IsTyped : IsTyped (Stripe.provider stripe node breaker secret)
    unfolding Stripe.provider Stripe.create_charge Stripe.refund Stripe.retrieve
        Stripe.verify_webhook
    stripe-IsTyped = record {
      charges = λ input r.
          attempt_returns HasChargeStatus _ Stripe.charged _ _ r (λ a. intent_status a.status);
      refunds = λ input r.
          attempt_returns HasRefundStatus _ Stripe.refunded _ _ r
            (λ a. stripe_refund_status a.status);
      retrieves = λ id r.
          attempt_returns HasChargeStatus _ Stripe.found _ _ r (λ a. intent_status a.status);
    }

  module _ (secret : String) (http : Pagarme.PagarmeHttp) where
    pub pagarme-IsTyped : IsTyped (Pagarme.provider node secret http breaker)
    unfolding Pagarme.provider Pagarme.create_charge Pagarme.refund Pagarme.retrieve
        Pagarme.verify_webhook contains
    pagarme-IsTyped = record {
      charges = λ input r.
          attempt_returns HasChargeStatus _ Pagarme.charged _ _ r
            (λ order. pagarme_status (Pagarme.status_of order));
      refunds = λ input r.
          attempt_returns HasRefundStatus _ Pagarme.cancelled _ _ r
            (λ a. choice (a.status == "canceled") "succeeded" "pending" refl refl);
      retrieves = λ id r.
          attempt_returns HasChargeStatus _ Pagarme.found _ _ r (λ a. pagarme_status a.status);
    }

  module _ (secret : String) (http : Conekta.ConektaHttp) where
    pub conekta-IsTyped : IsTyped (Conekta.provider node secret http breaker)
    unfolding Conekta.provider Conekta.create_charge Conekta.refund Conekta.retrieve
        Conekta.verify_webhook contains
    conekta-IsTyped = record {
      charges = λ input r.
          attempt_returns HasChargeStatus _ Conekta.charged _ _ r
            (λ order. conekta_status (Conekta.status_of order));
      refunds = λ input r. attempt_returns HasRefundStatus _ Conekta.refunded _ _ r (λ a. refl);
      retrieves = λ id r.
          attempt_returns HasChargeStatus _ Conekta.found _ _ r
            (λ order. conekta_status (or_else order.payment_status "undefined"));
    }

  module _ (api_key secret_key : String) (http : Dlocal.DlocalHttp) where
    pub dlocal-IsTyped : IsTyped (Dlocal.provider node api_key secret_key http breaker)
    unfolding Dlocal.provider Dlocal.create_charge Dlocal.refund Dlocal.retrieve
        Dlocal.verify_webhook
    dlocal-IsTyped = record {
      charges = λ input r.
          attempt_returns HasChargeStatus _ (Dlocal.charged node) _ _ r
            (λ a. dlocal_status node a.status);
      refunds = λ input r.
          attempt_returns HasRefundStatus _ Dlocal.refunded _ _ r
            (λ a. dlocal-IsRefundStatus a.status);
      retrieves = λ id r.
          attempt_returns HasChargeStatus _ (Dlocal.found node) _ _ r
            (λ a. dlocal_status node a.status);
    }

  module _ (config : Config) (client : MercadoPago.MpClient) where
    mercadopago_charges :
        (reply : Reply MercadoPago.MpError MercadoPago.MpPayment) (x : Ending)
        (r : ProviderChargeResult)
        → guarded x (MercadoPago.charge_of reply) ≡ ok r
        → IsChargeStatus r.status
    unfolding MercadoPago.charge_of
    mercadopago_charges (answered p) runs r h =
        if_returns HasChargeStatus _ _ _ r
          (ok_returns HasChargeStatus (MercadoPago.charged p) r
            (mercadopago_status (or_else p.status "pending")))
          h
    mercadopago_charges (failed x) runs r h = cc
    mercadopago_charges reply opened r h = cc
    mercadopago_charges reply (late m) r h = cc

    pub mercadopago-IsTyped : IsTyped (MercadoPago.provider node config client breaker)
    unfolding MercadoPago.provider MercadoPago.create_charge MercadoPago.refund MercadoPago.retrieve
        MercadoPago.verify_webhook contains
    mercadopago-IsTyped = record {
      charges = λ input r.
          mercadopago_charges
            (client.create_payment (MercadoPago.payment_body node input) input.idempotency_key)
            (breaker "mp:createCharge") r;
      refunds = λ input r.
          attempt_returns HasRefundStatus _ MercadoPago.refunded _ _ r
            (λ a. choice (or_else a.status "" == "approved") "succeeded" "pending" refl refl);
      retrieves = λ id r.
          attempt_returns HasChargeStatus _ MercadoPago.found _ _ r
            (λ a. mercadopago_status (or_else a.status "pending"));
    }
