-- ===== src/Payments/Reconciliation.antt =====
-- src/modules/payments/reconciliation.service.ts
pub mod Laws
use pasarelapagos_backend.Prelude.{
  ℕ, ◌+◌, ◌-◌, ◌*◌, String, Bool, true, false, Option, none, some, List, [], ◌∷◌, ◌++◌, map, ◌&&◌,
  ◌==◌, String_eq, ◌<>◌, find, filter, lookup, take, truthy, is_some, ltb, if◌then◌else◌,
}
use pasarelapagos_backend.Json.{Json, str, object}
use pasarelapagos_backend.Errors.{Result, ok, err}
use pasarelapagos_backend.Providers.{ProviderChargeResult}
use pasarelapagos_backend.Providers.Registry
use pasarelapagos_backend.Context.{Env}
use pasarelapagos_backend.Payments.Machine.{
  PaymentStatus, pending, authorized, captured, failed, cancelled, refunded, status_text,
  PaymentStatus_eq, assert_valid_transition,
}
use pasarelapagos_backend.World.{
  World, Payment, PaymentEvent, ReconcileJob, ProviderCall, retrieve, Action, pure, gets, lift,
  transaction, ◌>>=◌, ◌>>◌, has_id, update_payment, set_status, create_event, call_provider,
}

-- The table from a provider's status, here and in the webhook processor.
abbrev status_map : List (String × PaymentStatus)
status_map =
    ("pending", pending)
    ∷ ("authorized", authorized)
    ∷ ("captured", captured)
    ∷ ("failed", failed)
    ∷ ("cancelled", cancelled)
    ∷ ("refunded", refunded)
    ∷ []

unfoldable pub mapped_status : String → Option PaymentStatus
unfolding lookup
mapped_status s = lookup s status_map

abbrev pending_threshold_min : ℕ
pending_threshold_min = 30

-- The clock is past the threshold; a time before 1970 is taken as 1970.
abbrev pub is_stale : ℕ → Payment → Bool
is_stale now p =
    p.status == pending
    && is_some p.external_id
    && ltb p.created_at (now - pending_threshold_min * 60 * 1000)

abbrev pub reconcile_job : Payment → ReconcileJob
reconcile_job p = record { job_id = "reconcile:" <> p.id; payment_id = p.id; attempts = 3 }

-- `schedulePendingReconciliation`, which hands its jobs to the queue. The query has no order: where it
-- has more than a hundred rows, which of them it answers is the database's; here the first of the table.
unfoldable pub schedule_pending : Action (Unit {0})
unfolding filter
schedule_pending w =
    let stale = take 100 (filter (is_stale w.now) w.payments) in
    (ok tt, record w { reconcile_jobs = w.reconcile_jobs ++ map reconcile_job stale })

abbrev external_id_of : Option Payment → Option (Payment × String)
external_id_of none = none
external_id_of (some p) = elim (truthy p.external_id) [ none ↦ none | some e ↦ some (p, e) ]

abbrev pub reconciled_event : Payment → PaymentStatus → Json → PaymentEvent
reconciled_event payment s raw = record {
  payment_id = payment.id;
  type = "reconciliation.updated";
  payload = object (
      ("from", str (status_text payment.status)) ∷ ("to", str (status_text s)) ∷ ("raw", raw) ∷ []);
}

-- The transaction that stores the new status.
unfoldable pub store_status : Payment → PaymentStatus → Json → Action (Unit {0})
store_status payment s raw = do
  update_payment payment.id (set_status s)
  create_event (reconciled_event payment s raw)

-- A transition that is not valid is only logged.
abbrev if_valid : Result (Unit {0}) → Action (Unit {0}) → Action (Unit {0})
if_valid (ok _) m = m
if_valid (err _) m = pure tt

-- What is done with the provider's status of the payment.
unfoldable pub apply_status : Payment → Option PaymentStatus → Json → Action (Unit {0})
apply_status payment none raw = pure tt
apply_status payment (some s) raw =
    if payment.status == s
    then pure tt
    else if_valid (assert_valid_transition payment.status s)
        (transaction (store_status payment s raw))

module _ (env : Env) where
  unfoldable pub reconcile_found : Option (Payment × String) → Action (Unit {0})
  reconcile_found none = pure tt
  reconcile_found (some (payment, external_id)) = do
    provider ← lift (Registry.get payment.provider_id env.registry)
    let call = retrieve provider.id external_id
    call_provider call (env.latency call)
    result ← lift (provider.retrieve external_id)
    apply_status payment (mapped_status result.status) result.raw

  -- `reconcileOne`, which is all that `ReconcileProcessor.process` does
  unfoldable pub reconcile_one : String → Action (Unit {0})
  reconcile_one payment_id = do
    found ← gets (λ w. find (has_id payment_id) w.payments)
    reconcile_found (external_id_of found)
