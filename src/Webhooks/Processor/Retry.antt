-- ===== src/Webhooks/Processor/Retry.antt =====
-- The queue may run a job of the webhook worker again.
use pasarelapagos_backend.Prelude.{some, ◌≡◌, find}
use pasarelapagos_backend.Payments.Machine.{PaymentStatus}
use pasarelapagos_backend.Payments.Reconciliation.{mapped_status}
use pasarelapagos_backend.World.{World, Payment, WebhookJob}
use pasarelapagos_backend.Webhooks.Processor.{concerns}

module _ (job : WebhookJob) where
  -- The payment of the job, if there is one, has the status that the event maps to.
  abbrev IsSettled : World → Type 0
  IsSettled w =
      (p : Payment) (s : PaymentStatus)
      → find (concerns job.event) w.payments ≡ some p
      → mapped_status job.event.status ≡ some s
      → p.status ≡ s
