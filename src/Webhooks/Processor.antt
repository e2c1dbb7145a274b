-- ===== src/Webhooks/Processor.antt =====
-- src/modules/webhooks/webhook.processor.ts
pub mod Laws
pub mod Retry
use pasarelapagos_backend.Prelude.{
  ℕ, ◌-◌, String, Bool, true, false, Option, none, some, List, [], ◌∷◌, ◌++◌, ◌&&◌, ◌==◌, String_eq,
  ◌<>◌, find, map, any, if◌then◌else◌,
}
use pasarelapagos_backend.Errors.{Result, ok, err, error}
use pasarelapagos_backend.Providers.{WebhookEvent}
use pasarelapagos_backend.Payments.Machine.{
  PaymentStatus, PaymentStatus_eq, assert_valid_transition,
}
use pasarelapagos_backend.Payments.Reconciliation.{mapped_status}
use pasarelapagos_backend.World.{
  World, Payment, PaymentEvent, WebhookInbound, WebhookJob, Action, pure, gets, or_throw, lift,
  transaction, ◌>>=◌, ◌>>◌, not_there, update_payment, set_status, create_event,
}
use pasarelapagos_backend.World.Metrics.{record_webhook}

-- `findFirst({ where: { externalId, providerId } })`
abbrev is_text : Option String → String → Bool
is_text none s = false
is_text (some t) s = t == s

abbrev pub concerns : WebhookEvent → Payment → Bool
concerns e p = is_text p.external_id e.external_id && p.provider_id == e.provider_id

abbrev pub has_inbound_id : String → WebhookInbound → Bool
has_inbound_id id i = i.id == id

abbrev pub processed : ℕ → WebhookInbound → WebhookInbound
processed now i = record i { status = "processed"; processed_at = some now }

abbrev pub process_row : String → ℕ → WebhookInbound → WebhookInbound
process_row id now i = if i.id == id then processed now i else i

-- `markProcessed`
unfoldable pub mark_processed : String → Action (Unit {0})
unfolding any
mark_processed id w =
    if any (has_inbound_id id) w.inbounds
    then (ok tt, record w { inbounds = map (process_row id w.now) w.inbounds })
    else (err (error not_there), w)

abbrev pub webhook_event : Payment → WebhookEvent → PaymentEvent
webhook_event payment event = record {
  payment_id = payment.id;
  type = "webhook." <> event.event_type;
  payload = event.raw;
}

-- The transaction that stores the new status.
unfoldable pub store_event : Payment → WebhookEvent → PaymentStatus → Action (Unit {0})
store_event payment event s = do
  update_payment payment.id (set_status s)
  create_event (webhook_event payment event)

module _ (job : WebhookJob) (lag_ms : ℕ) where
  abbrev finish : Action (Unit {0})
  finish = do
    mark_processed job.webhook_inbound_id
    record_webhook job.event.provider_id "processed" lag_ms

  -- What is done once the payment is found.
  unfoldable pub process_status : Payment → Option PaymentStatus → Action (Unit {0})
  process_status payment none = mark_processed job.webhook_inbound_id
  process_status payment (some s) = if payment.status == s then finish else (do
    lift (assert_valid_transition payment.status s)
    transaction (store_event payment job.event s)
    finish)

-- A throw makes the queue try the job again.
unfoldable pub process : WebhookJob → Action (Unit {0})
process job = do
  now ← gets (λ w. w.now)
  found ← gets (λ w. find (concerns job.event) w.payments)
  payment ← or_throw found (error ("Payment no encontrado: " <> job.event.external_id))
  process_status job (now - job.enqueued_at) payment (mapped_status job.event.status)

-- `onFailed`
unfoldable pub on_failed : WebhookJob → Action (Unit {0})
on_failed job = do
  now ← gets (λ w. w.now)
  record_webhook job.event.provider_id "failed" (now - job.enqueued_at)
