-- ===== src/Providers/Registry.antt =====
-- src/modules/providers/provider.registry.ts: a `Map` from ids to providers, in insertion order.
pub mod Laws
use pasarelapagos_backend.Prelude.{
  String, Bool, List, [], ◌∷◌, Option, none, some, ◌&&◌, find, contains, ◌==◌, String_eq, ◌<>◌,
  if◌then◌else◌,
}
use pasarelapagos_backend.Errors.{Result, ok, err, error}
use pasarelapagos_backend.Providers.{PaymentProvider}

abbrev pub ProviderRegistry : Type 0
ProviderRegistry = List PaymentProvider

-- `providers.set(provider.id, provider)`: a key that is there keeps its place.
unfoldable pub register : PaymentProvider → ProviderRegistry → ProviderRegistry
register p [] = p ∷ []
register p (q ∷ qs) = if q.id == p.id then p ∷ qs else q ∷ register p qs

abbrev get_or_throw : String → Option PaymentProvider → Result PaymentProvider
get_or_throw id none = err (error ("Provider no registrado: " <> id))
get_or_throw id (some p) = ok p

unfoldable pub get : String → ProviderRegistry → Result PaymentProvider
unfolding find
get id providers = get_or_throw id (find (λ p. p.id == id) providers)

abbrev selected_or_throw : String → String → Option PaymentProvider → Result PaymentProvider
selected_or_throw country currency none =
    err (error ("Sin provider para " <> country <> "/" <> currency))
selected_or_throw country currency (some p) = ok p

-- the test of the loop in `selectFor`
abbrev pub serves : String → String → PaymentProvider → Bool
serves country currency p = contains p.countries country && contains p.currencies currency

unfoldable pub select_for : String → String → ProviderRegistry → Result PaymentProvider
unfolding find
select_for country currency providers =
    selected_or_throw country currency (find (serves country currency) providers)

unfoldable pub list : ProviderRegistry → List PaymentProvider
list providers = providers
