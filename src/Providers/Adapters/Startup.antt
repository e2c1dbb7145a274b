-- ===== src/Providers/Adapters/Startup.antt =====
-- src/modules/providers/providers.module.ts: the adapters that start with the server. Each registers
-- itself by its `onModuleInit`, in the order in which the module imports them.
pub mod Configured
use pasarelapagos_backend.Prelude.{String, []}
use pasarelapagos_backend.Providers.Registry.{ProviderRegistry, register}
use pasarelapagos_backend.Providers.Adapters.{Config, Node, Ending}
use pasarelapagos_backend.Providers.Adapters.Stripe
use pasarelapagos_backend.Providers.Adapters.MercadoPago
use pasarelapagos_backend.Providers.Adapters.Pagarme
use pasarelapagos_backend.Providers.Adapters.Conekta
use pasarelapagos_backend.Providers.Adapters.Dlocal

-- The clients that the adapters make: of a key, where the key is an argument of the client.
pub record Clients : Type 0 where
  pub stripe : String → Stripe.StripeInstance
  pub mercadopago : String → MercadoPago.MpClient
  pub pagarme : String → Pagarme.PagarmeHttp
  pub conekta : String → Conekta.ConektaHttp
  pub dlocal : Dlocal.DlocalHttp

unfoldable pub start : Clients → Node → (String → Ending) → Config → ProviderRegistry
unfolding Stripe.on_module_init MercadoPago.on_module_init Pagarme.on_module_init
    Conekta.on_module_init Dlocal.on_module_init
start clients node breaker config = Dlocal.on_module_init clients.dlocal node breaker config (
    Conekta.on_module_init clients.conekta node breaker config (
      Pagarme.on_module_init clients.pagarme node breaker config (
        MercadoPago.on_module_init clients.mercadopago node breaker config
          (Stripe.on_module_init clients.stripe node breaker config []))))
