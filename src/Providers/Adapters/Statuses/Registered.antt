-- ===== src/Providers/Adapters/Statuses/Registered.antt =====
-- What holds of every provider that src/modules/providers/providers.module.ts starts with.
use pasarelapagos_backend.Prelude.{
  String, Option, none, some, [], ◌∷◌, inl, inr, ◌==◌, ◌||◌, String_eq, All, Bool-cases, truthy,
  or_else,
}
use pasarelapagos_backend.Providers.{PaymentProvider}
use pasarelapagos_backend.Providers.Registry.{ProviderRegistry, register}
use pasarelapagos_backend.Providers.Adapters.{Config, Node, Ending}
use pasarelapagos_backend.Providers.Adapters.Statuses.{IsTyped}
use pasarelapagos_backend.Providers.Adapters.Statuses.Started.{
  stripe-IsTyped, mercadopago-IsTyped, pagarme-IsTyped, conekta-IsTyped, dlocal-IsTyped,
}
use pasarelapagos_backend.Providers.Adapters.Startup.{Clients, start}
use pasarelapagos_backend.Providers.Adapters.Stripe
use pasarelapagos_backend.Providers.Adapters.MercadoPago
use pasarelapagos_backend.Providers.Adapters.Pagarme
use pasarelapagos_backend.Providers.Adapters.Conekta
use pasarelapagos_backend.Providers.Adapters.Dlocal

module _ {ℓ} (P : PaymentProvider → Type ℓ) where
  register-All :
      (p : PaymentProvider) (ps : ProviderRegistry) → P p → All P ps → All P (register p ps)
  unfolding register
  register-All p [] h hs = (h, tt)
  register-All p (q ∷ qs) h (k, hs) = elim (Bool-cases (q.id == p.id)) [
    | inl same ↦ rw same (h, hs)
    | inr other ↦ rw other (k, register-All p qs h hs)
  ]

  -- What holds of the provider of each adapter holds of every provider that is started.
  module _ (clients : Clients) (node : Node) (breaker : String → Ending) (config : Config) where
    stripe_All :
        (o : Option String) (ps : ProviderRegistry)
        → ((key secret : String) → P (Stripe.provider (clients.stripe key) node breaker secret))
        → All P ps
        → All P (Stripe.with_key clients.stripe node breaker config o ps)
    stripe_All none ps h hs = hs
    stripe_All (some key) ps h hs = register-All _ ps (h key _) hs

    mercadopago_All :
        (o : Option String) (ps : ProviderRegistry)
        → ((key : String) → P (MercadoPago.provider node config (clients.mercadopago key) breaker))
        → All P ps
        → All P (MercadoPago.with_token clients.mercadopago node breaker config o ps)
    mercadopago_All none ps h hs = hs
    mercadopago_All (some key) ps h hs = register-All _ ps (h key) hs

    pagarme_All :
        (o : Option String) (ps : ProviderRegistry)
        → ((key secret : String) → P (Pagarme.provider node secret (clients.pagarme key) breaker))
        → All P ps
        → All P (Pagarme.with_key clients.pagarme node breaker config o ps)
    pagarme_All none ps h hs = hs
    pagarme_All (some key) ps h hs = register-All _ ps (h key _) hs

    conekta_All :
        (o : Option String) (ps : ProviderRegistry)
        → ((key secret : String) → P (Conekta.provider node secret (clients.conekta key) breaker))
        → All P ps
        → All P (Conekta.with_key clients.conekta node breaker config o ps)
    conekta_All none ps h hs = hs
    conekta_All (some key) ps h hs = register-All _ ps (h key _) hs

    dlocal_All :
        (api_key secret_key : String) (ps : ProviderRegistry)
        → P (Dlocal.provider node api_key secret_key clients.dlocal breaker)
        → All P ps
        → All P (Dlocal.with_keys clients.dlocal node breaker api_key secret_key ps)
    dlocal_All api_key secret_key ps h hs = elim (Bool-cases (api_key == "" || secret_key == "")) [
      | inl missing ↦ rw missing hs
      | inr there ↦ rw there (register-All _ ps h hs)
    ]

    pub start-All :
        ((key secret : String) → P (Stripe.provider (clients.stripe key) node breaker secret))
        → ((key : String) → P (MercadoPago.provider node config (clients.mercadopago key) breaker))
        → ((key secret : String) → P (Pagarme.provider node secret (clients.pagarme key) breaker))
        → ((key secret : String) → P (Conekta.provider node secret (clients.conekta key) breaker))
        → ((key secret : String) → P (Dlocal.provider node key secret clients.dlocal breaker))
        → All P (start clients node breaker config)
    unfolding start Stripe.on_module_init MercadoPago.on_module_init Pagarme.on_module_init
        Conekta.on_module_init Dlocal.on_module_init
    start-All s m p c d =
        dlocal_All (or_else (config "DLOCAL_API_KEY") "") (or_else (config "DLOCAL_SECRET_KEY") "")
          _ (d _ _)
          (conekta_All (truthy (config "CONEKTA_PRIVATE_KEY")) _ c (
            pagarme_All (truthy (config "PAGARME_API_KEY")) _ p (
              mercadopago_All (truthy (config "MERCADOPAGO_ACCESS_TOKEN")) _ m
                (stripe_All (truthy (config "STRIPE_SECRET_KEY")) [] s tt))))

module _ (clients : Clients) (node : Node) (breaker : String → Ending) (config : Config) where
  -- Whatever the configuration is, every status that a provider of the started registry returns of a
  -- charge, a refund or a look-up is one that the type of the interface names, if no API answers with
  -- the name of a property that an object literal inherits.
  pub start-IsTyped : All IsTyped (start clients node breaker config)
  start-IsTyped =
      start-All IsTyped clients node breaker config
        (λ key secret. stripe-IsTyped node breaker (clients.stripe key) secret)
        (λ key. mercadopago-IsTyped node breaker config (clients.mercadopago key))
        (λ key secret. pagarme-IsTyped node breaker secret (clients.pagarme key))
        (λ key secret. conekta-IsTyped node breaker secret (clients.conekta key))
        (λ key secret. dlocal-IsTyped node breaker key secret clients.dlocal)
