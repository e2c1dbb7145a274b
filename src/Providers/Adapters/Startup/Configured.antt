-- ===== src/Providers/Adapters/Startup/Configured.antt =====
-- Which providers the adapters register, by the configuration.
use pasarelapagos_backend.Prelude.{
  String, Bool, false, not, ◌==◌, ◌||◌, ◌&&◌, String_eq, any, is_some, truthy, or_else,
}
use pasarelapagos_backend.Providers.Registry.{ProviderRegistry}
use pasarelapagos_backend.Providers.Adapters.{Config}
use pasarelapagos_backend.Providers.Adapters.Stripe
use pasarelapagos_backend.Providers.Adapters.MercadoPago
use pasarelapagos_backend.Providers.Adapters.Pagarme
use pasarelapagos_backend.Providers.Adapters.Conekta
use pasarelapagos_backend.Providers.Adapters.Dlocal

abbrev has : String → ProviderRegistry → Bool
has id ps = any (λ p. p.id == id) ps

-- A key that is set and not empty.
abbrev pub is_set : Config → String → Bool
is_set config key = is_some (truthy (config key))

-- The id is that of an adapter whose keys are set: two for dLocal, one for each of the others.
abbrev pub is_configured : Config → String → Bool
is_configured config id =
    not (
        or_else (config "DLOCAL_API_KEY") "" == "" || or_else (config "DLOCAL_SECRET_KEY") "" == "")
      && "dlocal" == id
    || (is_set config "CONEKTA_PRIVATE_KEY" && "conekta" == id
        || (is_set config "PAGARME_API_KEY" && "pagarme" == id
            || (is_set config "MERCADOPAGO_ACCESS_TOKEN" && "mercadopago" == id
                || (is_set config "STRIPE_SECRET_KEY" && "stripe" == id || false))))
