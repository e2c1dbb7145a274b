-- ===== src/Tests/Webhooks.antt =====
-- The webhooks at work.
use pasarelapagos_backend.Prelude.{
  ℕ, ◌+◌, String, true, Option, none, some, [], ◌∷◌, ◌≡◌, refl, inr, arith, ◌<>◌, String_eq,
}
use pasarelapagos_backend.Errors.{Result, ok}
use pasarelapagos_backend.Context.{TenantContext}
use pasarelapagos_backend.World.{World, WebhookInbound}
use pasarelapagos_backend.World.Rows.{AreDistinct}
use pasarelapagos_backend.Webhooks.Controller.{accept}
use pasarelapagos_backend.Webhooks.Controller.Dedup.{Accepted, accept-Accepted}
use pasarelapagos_backend.Webhooks.Processor.{process}
use pasarelapagos_backend.Webhooks.Processor.Laws.{Processed, process-Processed}
use pasarelapagos_backend.Webhooks.Secret.{WebhookSecretService, verify, sign}
use pasarelapagos_backend.Webhooks.Secret.Rotation.{verify-sign}
use pasarelapagos_backend.Idempotency.{Reply, intercept}
use pasarelapagos_backend.Idempotency.Replay.{intercept_again}
use pasarelapagos_backend.Tests.Fixtures.{env, world, job, captured_event}

accept-Accepted_example :
    ((accept env "stripe" [] captured_event world).0 ≡ ok true)
    × Accepted env "stripe" [] captured_event world (accept env "stripe" [] captured_event world).1
accept-Accepted_example =
    accept-Accepted env "stripe" [] captured_event world
      (accept env "stripe" [] captured_event world).1
      (accept env "stripe" [] captured_event world).0 refl

distinct : AreDistinct world.payments
distinct = ((refl, tt), (tt, tt))

process-Processed_example : Processed job world (process job world).1 (process job world).0
process-Processed_example =
    process-Processed job world (process job world).1 (process job world).0 distinct refl

abbrev inbound : WebhookInbound
inbound = record {
  id = "id0";
  provider_id = "stripe";
  external_id = "ch_1";
  headers = [];
  body = captured_event.raw;
  processed_at = none;
  status = "received";
}

abbrev received : World
received = record world { inbounds = inbound ∷ [] }

abbrev hmac : String → String → String
hmac body secret = secret <> ":" <> body

abbrev before : WebhookSecretService
before = record { current = "s1"; previous = none }

abbrev rotated : WebhookSecretService
rotated = record { current = "s2"; previous = some "s1" }

verify-sign_example : verify hmac rotated "body" (sign hmac before "body") ≡ true
verify-sign_example = verify-sign hmac before rotated "body" (inr (refl, λ h. cc))

abbrev handler : ℕ → Result (Reply ℕ) × ℕ
handler n = (ok (record { status_code = 201; response = n }), n + 1)

abbrev tienda : Option TenantContext
tienda = some (record { id = "t1"; name = "Tienda" })

intercept_again_example :
    intercept handler 5000
      (some "k")
      tienda
      "h1"
      9
      (intercept handler 1000 (some "k") tienda "h1" 4 []).1.1
    ≡ (
      ok (record { status_code = 201; response = 4 }),
      (9, (intercept handler 1000 (some "k") tienda "h1" 4 []).1.1),
    )
unfolding intercept
intercept_again_example =
    intercept_again handler 1000 5000 (some "k") "k" tienda "h1" "h1" 4 5 9 []
      (intercept handler 1000 (some "k") tienda "h1" 4 []).1.1
      (record { status_code = 201; response = 4 }) refl refl refl (omega arith)
