-- ===== src/Providers/Routing/Choice.antt =====
-- Which provider a route leads to, and what the cache of routes does.
use pasarelapagos_backend.Prelude.{
  ℕ, ◌+◌, ◌<◌, String, true, false, none, some, List, [], ◌∷◌, ◌++◌, ◌≡◌, refl, ap, ◌∙◌, ◌⊎◌, inl,
  inr, arith, All, ◌==◌, String_eq, eq_refl, ◌<>◌, find, filter, ltb, Bool-cases,
}
use pasarelapagos_backend.Errors.{Result, ok, err, Exception, not_found, Result-cases}
use pasarelapagos_backend.Providers.{PaymentProvider}
use pasarelapagos_backend.Providers.Registry
use pasarelapagos_backend.Providers.Registry.{ProviderRegistry}
use pasarelapagos_backend.Providers.Breaker.{Breaker}
use pasarelapagos_backend.Providers.Routing.{
  Routes, CachedRoute, cache_key, cache_ttl_ms, is_cached, is_other, routed_ids, provider_ids,
  is_up, first_up, select_provider, invalidate_route,
}

module _ (registry : ProviderRegistry) (breakers : List Breaker) where
  -- A provider is passed over because its breaker is not closed, or it is not registered.
  abbrev pub IsSkipped : String → Type 0
  IsSkipped id =
      (is_up breakers id ≡ false) ⊎ ((e : Exception) × (Registry.get id registry ≡ err e))

  -- The first of the ids that is not passed over.
  pub record IsFirstUp (ids : List String) (p : PaymentProvider) : Type 0 where
    pub id : String
    pub before : List String
    pub after : List String
    pub split : ids ≡ before ++ id ∷ after
    pub up : is_up breakers id ≡ true
    pub registered : Registry.get id registry ≡ ok p
    pub skipped : All IsSkipped before

  behind :
      (id : String) (ids : List String) (p : PaymentProvider)
      → IsSkipped id
      → IsFirstUp ids p
      → IsFirstUp (id ∷ ids) p
  behind id ids p s f = record {
    id = f.id;
    before = id ∷ f.before;
    after = f.after;
    split = ap (λ js. id ∷ js) f.split;
    up = f.up;
    registered = f.registered;
    skipped = (s, f.skipped);
  }

  skip :
      (id : String) (ids : List String)
      → IsSkipped id
      → first_up registry breakers (id ∷ ids) ≡ first_up registry breakers ids
  unfolding first_up
  skip id ids (inl down) = rw down refl
  skip id ids (inr (e, missing)) = elim (Bool-cases (is_up breakers id)) [
    | inl up ↦ rw (up, missing) refl
    | inr down ↦ rw down refl
  ]

  state-of :
      (id : String)
      → ((p : PaymentProvider) × (is_up breakers id ≡ true) × (Registry.get id registry ≡ ok p))
        ⊎ IsSkipped id
  state-of id = elim (Bool-cases (is_up breakers id)) [
    | inr down ↦ inr (inl down)
    | inl up ↦ elim (Result-cases (Registry.get id registry)) [
      | inl (p, there) ↦ inl (p, up, there)
      | inr missing ↦ inr (inr missing)
    ]
  ]

  first_up-cases :
      (ids : List String)
      → ((p : PaymentProvider) × (first_up registry breakers ids ≡ some p) × IsFirstUp ids p)
        ⊎ ((first_up registry breakers ids ≡ none) × All IsSkipped ids)
  unfolding first_up
  first_up-cases [] = inr (refl, tt)
  first_up-cases (id ∷ ids) = elim (state-of id) [
    | inl (p, up, there) ↦ inl (
      p,
      rw (up, there) refl,
      record {
        id = id;
        before = [];
        after = ids;
        split = refl;
        up = up;
        registered = there;
        skipped = tt;
      },
    )
    | inr s ↦ elim (first_up-cases ids) [
      | inl (p, e, f) ↦ inl (p, skip id ids s ∙ e, behind id ids p s f)
      | inr (e, all) ↦ inr (skip id ids s ∙ e, (s, all))
    ]
  ]

module _ (registry : ProviderRegistry) (country currency method : String) where
  -- How the selection of a provider ended, over the ids of the route.
  pub data Chosen (breakers : List Breaker) (ids : List String) (r : Result PaymentProvider)
      : Type 0 where
    routed :
        (p : PaymentProvider) → IsFirstUp registry breakers ids p → r ≡ ok p → Chosen breakers ids r
    fell_back :
        (p : PaymentProvider)
        → All (IsSkipped registry breakers) ids
        → Registry.select_for country currency registry ≡ ok p
        → r ≡ ok p
        → Chosen breakers ids r
    nowhere :
        (e : Exception)
        → All (IsSkipped registry breakers) ids
        → Registry.select_for country currency registry ≡ err e
        → r
          ≡ err (
              not_found
                ("Sin provider disponible para " <> country <> "/" <> currency <> "/" <> method))
        → Chosen breakers ids r

  -- The provider that is selected is the first of the route's ids whose breaker is closed or unknown
  -- and that is registered; only when there is none, it is the registry's choice for the country and
  -- the currency, and the call throws only if that has none either.
  pub select_provider-Chosen :
      (s : Routes)
      → Chosen s.breakers
          (provider_ids country currency method s).0
          (select_provider registry country currency method s).0
  unfolding select_provider
  select_provider-Chosen s =
      let (ids, s') = provider_ids country currency method s in
      elim (first_up-cases registry s.breakers ids) [
        | inl (p, e, f) ↦ routed p f (rw e refl)
        | inr (e, all) ↦ elim (Result-cases (Registry.select_for country currency registry)) [
          | inl (p, there) ↦ fell_back p all there (rw (e, there) refl)
          | inr (x, missing) ↦ nowhere x all missing (rw (e, missing) refl)
        ]
      ]

module _ (country currency method : String) where
  -- Once its route was read, a selection within the next five minutes goes by the same ids, whatever
  -- the table of routes says by then.
  pub provider_ids-cached :
      (s later : Routes)
      → find (is_cached (cache_key country currency method) s.now) s.cache ≡ none
      → later.cache ≡ (provider_ids country currency method s).1.cache
      → later.now < s.now + cache_ttl_ms
      → provider_ids country currency method later
        ≡ ((provider_ids country currency method s).0, later)
  unfolding provider_ids find
  provider_ids-cached s later fresh same soon =
      let key = eq_refl (cache_key country currency method) in
      let in_time : ltb later.now (s.now + cache_ttl_ms) ≡ true = ground arith in ground arith

none-kept :
    (key : String) (now : ℕ) (cache : List CachedRoute)
    → find (is_cached key now) (filter (is_other key) cache) ≡ none
unfolding find filter
none-kept key now [] = refl
none-kept key now (c ∷ cs) = elim (Bool-cases (c.key == key)) [
  | inl mine ↦ rw mine (none-kept key now cs)
  | inr other ↦ rw (other, other) (none-kept key now cs)
]

-- After `invalidateRoute`, a selection goes by the active routes of the table, as they are then.
pub invalidate_route-provider_ids :
    (country currency method : String) (s : Routes)
    → (provider_ids country currency method (invalidate_route country currency method s)).0
      ≡ routed_ids country currency method s.rows
unfolding provider_ids invalidate_route
invalidate_route-provider_ids country currency method s =
    rw (none-kept (cache_key country currency method) s.now s.cache) refl
