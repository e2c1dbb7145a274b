-- ===== src/Server.antt =====
-- The server as a whole: the requests, jobs and deliveries that it handles, one after another, on
-- one database.
pub mod History
pub mod Ledger
pub mod Refinement
pub mod Lifetime
pub mod Settling
use pasarelapagos_backend.Prelude.{ℕ, ◌+◌, String, Option, List, [], ◌∷◌}
use pasarelapagos_backend.Context.{Env, OrgContext}
use pasarelapagos_backend.World.{World, WebhookJob}
use pasarelapagos_backend.Payments.Create.{CreatePaymentDto, create}
use pasarelapagos_backend.Payments.Refund.{RefundBody, refund}
use pasarelapagos_backend.Payments.Reconciliation.{schedule_pending, reconcile_one}
use pasarelapagos_backend.Webhooks.Controller.{handle}
use pasarelapagos_backend.Webhooks.Processor.{process, on_failed}

-- What can happen. Requests come after validation and the guards; a job may run at any time and more
-- than once, as the queue may retry it.
pub data Happening : Type 0 where
  post_payment : CreatePaymentDto → (idempotency_key : Option String) → OrgContext → Happening
  post_refund : (id : String) → RefundBody → OrgContext → Happening
  post_webhook : (provider_id raw : String) → (headers : List (String × String)) → Happening
  webhook_job : WebhookJob → Happening
  webhook_job_failed : WebhookJob → Happening
  reconcile_tick : Happening
  reconcile_job : (payment_id : String) → Happening
  time : ℕ → Happening

module _ (env : Env) where
  unfoldable pub step : Happening → World → World
  unfolding create refund handle process on_failed schedule_pending reconcile_one
  step (post_payment dto key ctx) w = (create env dto key ctx w).1
  step (post_refund id body ctx) w = (refund env body ctx id w).1
  step (post_webhook provider_id raw headers) w = (handle env provider_id raw headers w).1
  step (webhook_job job) w = (process job w).1
  step (webhook_job_failed job) w = (on_failed job w).1
  step reconcile_tick w = (schedule_pending w).1
  step (reconcile_job payment_id) w = (reconcile_one env payment_id w).1
  step (time ms) w = record w { now = w.now + ms }

  unfoldable pub run : List Happening → World → World
  unfolding step
  run [] w = w
  run (h ∷ hs) w = run hs (step h w)
