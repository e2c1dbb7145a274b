-- ===== src/Providers/Adapters/Statuses/Known.antt =====
-- The statuses of the adapters meet the tables of src/modules/payments/reconciliation.service.ts,
-- src/modules/webhooks/webhook.processor.ts and src/modules/payments/payments.service.ts.
use pasarelapagos_backend.Prelude.{
  String, some, [], ◌∷◌, ◌≡◌, ◌≢◌, refl, inl, inr, ◌==◌, String_eq, All, find, Bool-cases,
  All-contains,
}
use pasarelapagos_backend.Errors.{ok}
use pasarelapagos_backend.Providers.{PaymentProvider, CreateChargeInput, ProviderChargeResult}
use pasarelapagos_backend.Providers.Registry.{ProviderRegistry, get}
use pasarelapagos_backend.Providers.Adapters.{Config, Node, Ending}
use pasarelapagos_backend.Providers.Adapters.Statuses.{IsTyped, IsChargeStatus, charge_statuses}
use pasarelapagos_backend.Providers.Adapters.Statuses.Registered.{start-IsTyped}
use pasarelapagos_backend.Providers.Adapters.Startup.{Clients, start}
use pasarelapagos_backend.Payments.Machine.{
  PaymentStatus, pending, authorized, captured, failed, cancelled, refunded,
}
use pasarelapagos_backend.Payments.Reconciliation.{mapped_status}
use pasarelapagos_backend.Payments.Create.{map_provider_status}

module _ {ℓ} (P : PaymentProvider → Type ℓ) where
  get-All :
      (id : String) (ps : ProviderRegistry) {p : PaymentProvider}
      → All P ps
      → get id ps ≡ ok p
      → P p
  unfolding get find
  get-All id [] h e = cc
  get-All id (q ∷ qs) {p} (k, h) e = elim (Bool-cases (q.id == id)) [
    | inl mine ↦ let same : ok q ≡ ok p = rw mine at e in let eq : q ≡ p = cc in rw eq at k
    | inr other ↦ get-All id qs h (rw other at e)
  ]

abbrev IsKnown : String → Type 0
IsKnown s = (t : PaymentStatus) × (mapped_status s ≡ some t)

known : (s : String) → IsChargeStatus s → IsKnown s
unfolding mapped_status
known s h =
    All-contains IsKnown charge_statuses s
      (
        (pending, refl),
        (
          (authorized, refl),
          ((captured, refl), ((failed, refl), ((cancelled, refl), ((refunded, refl), tt)))),
        ),
      )
      h

abbrev Agrees : String → Type 0
Agrees s = s ≢ "refunded" → mapped_status s ≡ some (map_provider_status s)

agreed : (s : String) → IsChargeStatus s → Agrees s
unfolding mapped_status map_provider_status
agreed s h =
    All-contains Agrees charge_statuses s
      (
        (λ n. refl),
        ((λ n. refl), ((λ n. refl), ((λ n. refl), ((λ n. refl), ((λ n. absurd (n refl)), tt))))),
      )
      h

module _ (clients : Clients) (node : Node) (breaker : String → Ending) (config : Config) where
  -- Unless a started provider answers a charge with "refunded", the status that the payment is created
  -- with is the one that the reconciliation and the worker read from the same answer.
  pub charged_as_reconciled :
      (id : String) (p : PaymentProvider) (input : CreateChargeInput) (r : ProviderChargeResult)
      → get id (start clients node breaker config) ≡ ok p
      → p.create_charge input ≡ ok r
      → r.status ≢ "refunded"
      → mapped_status r.status ≡ some (map_provider_status r.status)
  charged_as_reconciled id p input r registered answered other =
      let typed = get-All IsTyped id _ (start-IsTyped clients node breaker config) registered in
      agreed r.status (typed.charges input r answered) other
