-- ===== src/Providers/Adapters/Failures.antt =====
-- What the error mappers of src/modules/providers/adapters/ and the breakers make of the failures of the
-- providers' APIs.
use pasarelapagos_backend.Prelude.{
  arith, String, Bool, true, false, ◌≡◌, ◌≢◌, refl, All, if◌then◌else◌, String_eq,
}
use pasarelapagos_backend.Errors.{Result, err, Exception, PaymentException, payment, error}
use pasarelapagos_backend.Errors.Filter.{status_of}
use pasarelapagos_backend.Providers.{PaymentProvider, CreateChargeInput, RefundInput}
use pasarelapagos_backend.Providers.Adapters.{
  Config, Node, Ending, runs, opened, late, Reply, answered, failed, attempt, guarded, HttpError,
  at_least_500,
}
use pasarelapagos_backend.Providers.Adapters.Statuses.Registered.{start-All}
use pasarelapagos_backend.Providers.Adapters.Startup.{Clients, start}
use pasarelapagos_backend.Providers.Adapters.Stripe
use pasarelapagos_backend.Providers.Adapters.Stripe.ErrorMapper.{
  StripeError, card_error, connection_error, api_error, rate_limit_error, authentication_error,
  other, map_stripe_error,
}
use pasarelapagos_backend.Providers.Adapters.MercadoPago
use pasarelapagos_backend.Providers.Adapters.Pagarme
use pasarelapagos_backend.Providers.Adapters.Pagarme.ErrorMapper.{map_pagarme_error}
use pasarelapagos_backend.Providers.Adapters.Conekta
use pasarelapagos_backend.Providers.Adapters.Conekta.ErrorMapper.{map_conekta_error}
use pasarelapagos_backend.Providers.Adapters.Dlocal
use pasarelapagos_backend.Providers.Adapters.Dlocal.ErrorMapper.{map_dlocal_error}

pub record IsPayment (e : Exception) : Type 0 where
  pub exception : PaymentException
  pub is_it : e ≡ payment exception

-- An error of the catalogue, or the library's own message that a breaker has given up.
pub data IsTold (breaker : String → Ending) (e : Exception) : Type 0 where
  translated : IsPayment e → IsTold breaker e
  gave_up :
      (key message : String) → breaker key ≡ late message → e ≡ error message → IsTold breaker e

-- Whatever a call of the provider throws is an error of the catalogue, but for a breaker's timeout.
pub record Translates (breaker : String → Ending) (p : PaymentProvider) : Type 0 where
  pub charges :
      (i : CreateChargeInput) (e : Exception) → p.create_charge i ≡ err e → IsTold breaker e
  pub refunds : (i : RefundInput) (e : Exception) → p.refund i ≡ err e → IsTold breaker e
  pub retrieves : (id : String) (e : Exception) → p.retrieve id ≡ err e → IsTold breaker e

same_error :
    {B : Type 0} (p : PaymentException) (e : Exception)
    → Path (Result B) (err (payment p)) (err e)
    → IsPayment e
same_error p e h = record { exception = p; is_it = cc }

attempt_throws :
    {E A B : Type 0} (mapper : E → Exception) (f : A → B) (breaker : String → Ending) (key : String)
    (reply : Reply E A) (e : Exception)
    → ((a : E) → IsPayment (mapper a))
    → guarded (breaker key) (attempt mapper f reply) ≡ err e
    → IsTold breaker e
attempt_throws {E} {A} {B} mapper f breaker key reply e h eq = go (breaker key) refl reply eq
  where
    go :
        (x : Ending)
        → breaker key ≡ x
        → (reply : Reply E A) → guarded x (attempt mapper f reply) ≡ err e
        → IsTold breaker e
    go runs k (answered a) eq = cc
    go runs k (failed a) eq =
        let p = h a in translated (same_error {B = B} p.exception e (rw p.is_it at eq))
    go opened k reply eq = translated (same_error {B = B} _ e eq)
    go (late message) k reply eq =
        let same : Path (Result B) (err (error message)) (err e) = eq in
        gave_up key message k (ground arith)

either : (p q : PaymentException) (b : Bool) → IsPayment (if b then payment p else payment q)
either p q true = record { exception = p; is_it = refl }
either p q false = record { exception = q; is_it = refl }

stripe_mapper : (e : StripeError) → IsPayment (map_stripe_error e)
unfolding map_stripe_error
stripe_mapper (card_error code message) = record { exception = _; is_it = refl }
stripe_mapper (connection_error message) = record { exception = _; is_it = refl }
stripe_mapper (api_error message) = record { exception = _; is_it = refl }
stripe_mapper (rate_limit_error message) = record { exception = _; is_it = refl }
stripe_mapper (authentication_error message) = record { exception = _; is_it = refl }
stripe_mapper (other message) = record { exception = _; is_it = refl }

pagarme_mapper : (e : HttpError) → IsPayment (map_pagarme_error e)
unfolding map_pagarme_error
pagarme_mapper e = either _ _ (at_least_500 e.status)

conekta_mapper : (e : HttpError) → IsPayment (map_conekta_error e)
unfolding map_conekta_error
conekta_mapper e = either _ _ (at_least_500 e.status)

dlocal_mapper : (e : HttpError) → IsPayment (map_dlocal_error e)
unfolding map_dlocal_error
dlocal_mapper e = either _ _ (at_least_500 e.status)

module _ (clients : Clients) (node : Node) (breaker : String → Ending) (config : Config) where
  stripe-Translates :
      (key secret : String)
      → Translates breaker (Stripe.provider (clients.stripe key) node breaker secret)
  unfolding Stripe.provider Stripe.create_charge Stripe.refund Stripe.retrieve
  stripe-Translates key secret = record {
    charges = λ i e. attempt_throws _ _ breaker _ _ e stripe_mapper;
    refunds = λ i e. attempt_throws _ _ breaker _ _ e stripe_mapper;
    retrieves = λ id e. attempt_throws _ _ breaker _ _ e stripe_mapper;
  }

  pagarme-Translates :
      (key secret : String)
      → Translates breaker (Pagarme.provider node secret (clients.pagarme key) breaker)
  unfolding Pagarme.provider Pagarme.create_charge Pagarme.refund Pagarme.retrieve
  pagarme-Translates key secret = record {
    charges = λ i e. attempt_throws _ _ breaker _ _ e pagarme_mapper;
    refunds = λ i e. attempt_throws _ _ breaker _ _ e pagarme_mapper;
    retrieves = λ id e. attempt_throws _ _ breaker _ _ e pagarme_mapper;
  }

  conekta-Translates :
      (key secret : String)
      → Translates breaker (Conekta.provider node secret (clients.conekta key) breaker)
  unfolding Conekta.provider Conekta.create_charge Conekta.refund Conekta.retrieve
  conekta-Translates key secret = record {
    charges = λ i e. attempt_throws _ _ breaker _ _ e conekta_mapper;
    refunds = λ i e. attempt_throws _ _ breaker _ _ e conekta_mapper;
    retrieves = λ id e. attempt_throws _ _ breaker _ _ e conekta_mapper;
  }

  dlocal-Translates :
      (key secret : String)
      → Translates breaker (Dlocal.provider node key secret clients.dlocal breaker)
  unfolding Dlocal.provider Dlocal.create_charge Dlocal.refund Dlocal.retrieve
  dlocal-Translates key secret = record {
    charges = λ i e. attempt_throws _ _ breaker _ _ e dlocal_mapper;
    refunds = λ i e. attempt_throws _ _ breaker _ _ e dlocal_mapper;
    retrieves = λ id e. attempt_throws _ _ breaker _ _ e dlocal_mapper;
  }

  -- Of every started provider but Mercado Pago: whatever a charge, a refund or a look-up throws, because
  -- of the API or of an open breaker, is an error of the catalogue; the only other error is the message
  -- of a breaker that has given up after its time.
  pub start-Translates :
      All (λ p. p.id ≢ "mercadopago" → Translates breaker p) (start clients node breaker config)
  unfolding MercadoPago.provider
  start-Translates =
      start-All (λ p. p.id ≢ "mercadopago" → Translates breaker p) clients node breaker config
        (λ key secret other. stripe-Translates key secret) (λ key other. absurd (other refl))
        (λ key secret other. pagarme-Translates key secret)
        (λ key secret other. conekta-Translates key secret)
        (λ key secret other. dlocal-Translates key secret)

-- Whatever error the client of Mercado Pago throws at a refund, its code and status are lost: it is
-- thrown on as it is, which the server answers as an internal error.
pub mercadopago-refund_is_internal :
    (node : Node) (config : Config) (client : MercadoPago.MpClient) (breaker : String → Ending)
    (input : RefundInput) (e : MercadoPago.MpError)
    → breaker "mp:refund" ≡ runs
    → client.create_refund (MercadoPago.refund_request node config client breaker input) ≡ failed e
    → (MercadoPago.refund node config client breaker input ≡ err (error e.message))
      × (status_of (error e.message) ≡ 500)
unfolding MercadoPago.refund status_of
mercadopago-refund_is_internal node config client breaker input e up failure =
    (rw (up, failure) refl, refl)
