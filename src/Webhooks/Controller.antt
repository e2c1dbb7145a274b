-- ===== src/Webhooks/Controller.antt =====
-- src/modules/webhooks/webhooks.controller.ts: `handle`.
pub mod Dedup
use pasarelapagos_backend.Prelude.{
  ℕ, ◌+◌, String, Bool, true, false, Option, none, some, List, [], ◌∷◌, ◌++◌, ◌&&◌, ◌==◌, String_eq,
  ◌<>◌, find, any, if◌then◌else◌,
}
use pasarelapagos_backend.Errors.{Result, ok, err, error, unauthorized}
use pasarelapagos_backend.Providers.{WebhookEvent}
use pasarelapagos_backend.Providers.Registry
use pasarelapagos_backend.Context.{Env}
use pasarelapagos_backend.World.{
  World, WebhookInbound, WebhookJob, Action, pure, gets, lift, ◌>>=◌, ◌>>◌, mint, unique_failed,
}

-- `@@unique([providerId, externalId])`, as `findUnique` reads it
abbrev pub same_inbound : String → String → WebhookInbound → Bool
same_inbound provider_id external_id i =
    i.provider_id == provider_id && i.external_id == external_id

-- `webhookInbound.create`
unfoldable pub create_inbound : WebhookInbound → Action WebhookInbound
unfolding any
create_inbound i w =
    if any (same_inbound i.provider_id i.external_id) w.inbounds
    then (err (error unique_failed), w)
    else (ok i, record w { inbounds = w.inbounds ++ i ∷ [] })

-- `webhookQueue.add`: the job is handed to the queue.
abbrev pub add_job : WebhookJob → Action (Unit {0})
add_job j w = (ok tt, record w { webhook_jobs = w.webhook_jobs ++ j ∷ [] })

-- Any failure of the verification is one answer to the caller.
abbrev pub verified : Result WebhookEvent → Result WebhookEvent
verified (ok e) = ok e
verified (err e) = err (unauthorized "Firma de webhook inválida")

module _ (env : Env) where
  module _ (provider_id : String) (headers : List (String × String)) (event : WebhookEvent) where
    abbrev pub new_inbound : ℕ → WebhookInbound
    new_inbound n = record {
      id = env.cuid n;
      provider_id = provider_id;
      external_id = event.external_id;
      headers = headers;
      body = event.raw;
      processed_at = none;
      status = "received";
    }

    -- The part after the check for duplicates.
    unfoldable pub persist_and_enqueue : Action Bool
    persist_and_enqueue = do
      n ← mint
      inbound ← create_inbound (new_inbound n)
      now ← gets (λ w. w.now)
      add_job (record {
        job_id = "webhook:" <> provider_id <> ":" <> event.external_id;
        webhook_inbound_id = inbound.id;
        event = event;
        enqueued_at = now;
        attempts = 5;
      })
      pure true

    abbrev unless_seen : Option WebhookInbound → Action Bool
    unless_seen (some i) = pure true
    unless_seen none = persist_and_enqueue

    unfoldable pub accept : Action Bool
    accept = do
      existing ← gets (λ w. find (same_inbound provider_id event.external_id) w.inbounds)
      unless_seen existing

  -- The result is `received`.
  unfoldable pub handle : String → String → List (String × String) → Action Bool
  handle provider_id raw headers = do
    provider ← lift (Registry.get provider_id env.registry)
    event ← lift (verified (provider.verify_webhook raw headers))
    accept provider_id headers event
