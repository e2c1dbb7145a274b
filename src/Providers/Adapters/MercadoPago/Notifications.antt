-- ===== src/Providers/Adapters/MercadoPago/Notifications.antt =====
-- What the adapter of Mercado Pago reads from a notification that names an event and no status.
use pasarelapagos_backend.Prelude.{String, none, some, ◌≡◌, refl, lookup}
use pasarelapagos_backend.Json.{Json, str}
use pasarelapagos_backend.Json.Reading.{member, then_member}
use pasarelapagos_backend.Errors.{ok}
use pasarelapagos_backend.Providers.{WebhookEvent}
use pasarelapagos_backend.Providers.Adapters.{Node, readable, status_in}
use pasarelapagos_backend.Providers.Adapters.MercadoPago.{read_event, event_in, map_status}
use pasarelapagos_backend.Payments.Machine.{pending}
use pasarelapagos_backend.Payments.Reconciliation.{mapped_status}
use pasarelapagos_backend.Webhooks.Secret.{remove_first}

-- A notification with the action "payment.updated" and no status under `data` is read as one of a pending
-- payment, whatever else it holds.
pub updated_is_pending :
    (node : Node) (raw : String) (body : Json)
    → readable "data" body ≡ ok body
    → then_member "status" (member "data" body) ≡ none
    → member "action" body ≡ some (str "payment.updated")
    → (e : WebhookEvent) × (read_event node raw body ≡ ok e)
      × (mapped_status e.status ≡ some pending)
unfolding read_event map_status status_in lookup mapped_status remove_first
updated_is_pending node raw body object no_status action =
    (event_in node raw body (some "updated"), rw (object, no_status, action) refl, refl)
