-- ===== src/Providers/Registry/Laws.antt =====
-- What the registry promises: lookups find what was registered last, and routing by country and
-- currency is sound, complete, and takes the provider that was registered first.
use pasarelapagos_backend.Prelude.{
  String, true, false, [], ◌∷◌, ◌++◌, some, ◌≡◌, refl, ◌↔◌, ◌&&◌, find, contains, ◌==◌, String_eq,
  arith, eq_iff, ◌<>◌, All, All-map, find-IsFound, find-none_iff, if◌then◌else◌,
}
use pasarelapagos_backend.Errors.{ok, err, error, Exception}
use pasarelapagos_backend.Providers.{PaymentProvider}
use pasarelapagos_backend.Providers.Registry.{serves, ProviderRegistry, register, get, select_for}

-- After `register p`, `get` finds `p` under its own id, and under any other id what it found
-- before.
pub get-register :
    (p : PaymentProvider) (r : ProviderRegistry) (id : String)
    → get id (register p r) ≡ (if p.id == id then ok p else get id r)
unfolding get register
get-register p [] id = ground arith
get-register p (q ∷ qs) id =
    ground (arith, get-register p qs id, eq_iff q.id p.id, eq_iff q.id id, eq_iff p.id id)

abbrev pub Serves : PaymentProvider → String → String → Type 0
Serves p country currency =
    (contains p.countries country ≡ true) × (contains p.currencies currency ≡ true)

-- The test of `selectFor` is `Serves`.
serves_iff :
    (country currency : String) (q : PaymentProvider)
    → ((contains q.countries country && contains q.currencies currency) ≡ true)
      ↔ Serves q country currency
serves_iff country currency q = ground arith

not-serves_iff :
    (country currency : String) (q : PaymentProvider)
    → ((contains q.countries country && contains q.currencies currency) ≡ false)
      ↔ (¬ Serves q country currency)
not-serves_iff country currency q = ground arith

-- The provider that is chosen serves the country and the currency, and none before it does.
pub record IsFirst (country currency : String) (r : ProviderRegistry) (p : PaymentProvider)
    : Type 0 where
  pub before : ProviderRegistry
  pub after : ProviderRegistry
  pub split : r ≡ before ++ p ∷ after
  pub serves : Serves p country currency
  pub skipped : All (λ q. ¬ Serves q country currency) before

-- `selectFor` returns the first registered provider that serves both the country and the
-- currency.
pub select_for-IsFirst :
    (country currency : String) (r : ProviderRegistry) (p : PaymentProvider)
    → select_for country currency r ≡ ok p
    → IsFirst country currency r p
unfolding select_for
select_for-IsFirst country currency r p e =
    let found : find (serves country currency) r ≡ some p = ground arith in
    let f = find-IsFound (serves country currency) r found in
    record {
      before = f.before;
      after = f.after;
      split = f.split;
      serves = (serves_iff country currency p).0 f.passes;
      skipped = All-map (λ q h. (not-serves_iff country currency q).0 h) f.before f.skipped;
    }

-- `selectFor` throws exactly if no registered provider serves the country and the currency.
pub select_for-throws_iff :
    (country currency : String) (r : ProviderRegistry)
    → ((e : Exception) × (select_for country currency r ≡ err e))
      ↔ All (λ q. ¬ Serves q country currency) r
unfolding select_for
select_for-throws_iff country currency r =
    let (to, from) = find-none_iff (serves country currency) r in
    (
      λ (e, h). All-map (λ q k. (not-serves_iff country currency q).0 k) r (to (ground arith)),
      λ h. (
        error ("Sin provider para " <> country <> "/" <> currency),
        rw (from (All-map (λ q k. (not-serves_iff country currency q).1 k) r h)) refl,
      ),
    )
