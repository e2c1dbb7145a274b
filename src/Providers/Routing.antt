-- ===== src/Providers/Routing.antt =====
-- src/modules/providers/routing.service.ts, on the table of routes and the cache.
pub mod Choice
use pasarelapagos_backend.Prelude.{
  ℕ, ◌+◌, String, Bool, true, false, Option, none, some, List, [], ◌∷◌, ◌&&◌, ◌==◌, String_eq, ◌<>◌,
  find, filter, map, ltb, if◌then◌else◌,
}
use pasarelapagos_backend.Prelude.Int.{ℤ, ltb_ℤ}
use pasarelapagos_backend.Errors.{Result, ok, err, not_found}
use pasarelapagos_backend.Providers.{PaymentProvider}
use pasarelapagos_backend.Providers.Registry
use pasarelapagos_backend.Providers.Registry.{ProviderRegistry}
use pasarelapagos_backend.Providers.Breaker.{
  Breaker, Health, closed, open_, half, unknown, health_of,
}

-- A row of the table `ProviderRoute`.
pub record ProviderRoute : Type 0 where
  pub country : String
  pub currency : String
  pub method : String
  pub provider_id : String
  pub priority : ℤ
  pub active : Bool

-- An entry of the cache, until it expires.
pub record CachedRoute : Type 0 where
  pub key : String
  pub provider_ids : List String
  pub expires_at : ℕ

pub record Routes : Type 0 where
  pub rows : List ProviderRoute
  pub cache : List CachedRoute
  pub breakers : List Breaker
  pub now : ℕ

abbrev pub cache_ttl_ms : ℕ
cache_ttl_ms = 300000

abbrev pub cache_key : (country currency method : String) → String
cache_key country currency method = "route:" <> country <> ":" <> currency <> ":" <> method

abbrev pub is_route : (country currency method : String) → ProviderRoute → Bool
is_route country currency method r =
    r.country == country && (r.currency == currency && (r.method == method && r.active))

-- `orderBy: { priority: 'desc' }`
unfoldable pub insert_route : ProviderRoute → List ProviderRoute → List ProviderRoute
insert_route r [] = r ∷ []
insert_route r (s ∷ ss) = if ltb_ℤ r.priority s.priority then s ∷ insert_route r ss else r ∷ s ∷ ss

unfoldable pub by_priority : List ProviderRoute → List ProviderRoute
unfolding insert_route
by_priority [] = []
by_priority (r ∷ rs) = insert_route r (by_priority rs)

abbrev provider_of : ProviderRoute → String
provider_of r = r.provider_id

unfoldable pub routed_ids : (country currency method : String) → List ProviderRoute → List String
unfolding by_priority filter
routed_ids country currency method rows =
    map provider_of (by_priority (filter (is_route country currency method) rows))

abbrev pub is_cached : String → ℕ → CachedRoute → Bool
is_cached key now c = c.key == key && ltb now c.expires_at

abbrev pub cache_route : String → List String → Routes → Routes
cache_route key ids s = record s {
  cache = record { key = key; provider_ids = ids; expires_at = s.now + cache_ttl_ms } ∷ s.cache;
}

abbrev ids_or_read :
    (country currency method : String) → Option CachedRoute → Routes → List String × Routes
ids_or_read country currency method (some c) s = (c.provider_ids, s)
ids_or_read country currency method none s =
    let ids = routed_ids country currency method s.rows in
    (ids, cache_route (cache_key country currency method) ids s)

-- The ids of the route, from the cache or else from the table.
unfoldable pub provider_ids : (country currency method : String) → Routes → List String × Routes
unfolding routed_ids find
provider_ids country currency method s =
    ids_or_read country currency method
      (find (is_cached (cache_key country currency method) s.now) s.cache) s

abbrev pub is_available : Health → Bool
is_available closed = true
is_available unknown = true
is_available open_ = false
is_available half = false

abbrev pub is_up : List Breaker → String → Bool
is_up breakers id = is_available (health_of (id <> ":createCharge") breakers)

abbrev or_later : Result PaymentProvider → Option PaymentProvider → Option PaymentProvider
or_later (ok p) later = some p
or_later (err e) later = later

-- The loop over the ids.
unfoldable pub first_up : ProviderRegistry → List Breaker → List String → Option PaymentProvider
first_up registry breakers [] = none
first_up registry breakers (id ∷ ids) =
    let later = first_up registry breakers ids in
    if is_up breakers id then or_later (Registry.get id registry) later else later

abbrev fall_back :
    (country currency method : String) → Result PaymentProvider → Result PaymentProvider
fall_back country currency method (ok p) = ok p
fall_back country currency method (err e) =
    err (not_found ("Sin provider disponible para " <> country <> "/" <> currency <> "/" <> method))

abbrev or_registry :
    ProviderRegistry
    → (country currency method : String) → Option PaymentProvider
    → Result PaymentProvider
or_registry registry country currency method (some p) = ok p
or_registry registry country currency method none =
    fall_back country currency method (Registry.select_for country currency registry)

-- `selectProvider`
unfoldable pub select_provider :
    ProviderRegistry → (country currency method : String) → Routes → Result PaymentProvider × Routes
unfolding provider_ids first_up
select_provider registry country currency method s =
    let (ids, s') = provider_ids country currency method s in
    (or_registry registry country currency method (first_up registry s.breakers ids), s')

abbrev is_other : String → CachedRoute → Bool
is_other key c = if c.key == key then false else true

-- `invalidateRoute`
unfoldable pub invalidate_route : (country currency method : String) → Routes → Routes
unfolding filter
invalidate_route country currency method s = record s {
  cache = filter (is_other (cache_key country currency method)) s.cache;
}
