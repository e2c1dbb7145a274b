-- ===== src/Tests/Fixtures.antt =====
-- A server with one provider, two payments of one organization, and what it is asked.
use pasarelapagos_backend.Prelude.{
  true, false, none, some, [], ◌∷◌, ◌==◌, String_eq, ◌<>◌, decimal, if◌then◌else◌,
}
use pasarelapagos_backend.Prelude.Int.{pos}
use pasarelapagos_backend.Json.{null}
use pasarelapagos_backend.Errors.{ok, err, unauthorized}
use pasarelapagos_backend.Providers.{PaymentProvider, WebhookEvent}
use pasarelapagos_backend.Context.{Env, OrgContext}
use pasarelapagos_backend.Payments.Machine.{pending, captured}
use pasarelapagos_backend.Payments.Create.{CreatePaymentDto}
use pasarelapagos_backend.Payments.Refund.{RefundBody}
use pasarelapagos_backend.World.{World, Payment, card, WebhookJob}

abbrev pub captured_event : WebhookEvent
captured_event = record {
  provider_id = "stripe";
  event_type = "payment.updated";
  external_id = "ch_1";
  status = "captured";
  raw = null;
}

abbrev pub stripe : PaymentProvider
stripe = record {
  id = "stripe";
  countries = "AR" ∷ "MX" ∷ [];
  currencies = "ARS" ∷ [];
  create_charge = λ input.
      ok (record { external_id = "ch_9"; status = "captured"; redirect_url = none; raw = null });
  refund = λ input. ok (record { external_refund_id = "re_1"; status = "captured"; raw = null });
  retrieve =
      λ id. ok (record { external_id = id; status = "captured"; redirect_url = none; raw = null });
  verify_webhook =
      λ raw headers. if raw == "forged" then err (unauthorized "firma") else ok captured_event;
}

abbrev pub env : Env
env = record { cuid = λ n. "id" <> decimal n; latency = λ c. 120; registry = stripe ∷ [] }

abbrev pub org : OrgContext
org = record {
  organization_id = "org1";
  user_id = "u1";
  can_read = true;
  can_write = true;
  is_api_key = false;
}

abbrev pub waiting : Payment
waiting = record {
  id = "p1";
  tenant_id = "org1";
  organization_id = "org1";
  customer_id = none;
  idempotency_key = "k1";
  amount_minor = 5000;
  currency = "ARS";
  country = "AR";
  method = card;
  status = pending;
  provider_id = "stripe";
  external_id = some "ch_1";
  description = none;
  metadata = none;
  failure_code = none;
  failure_message = none;
  created_at = 1000;
}

abbrev pub paid : Payment
paid = record waiting {
  id = "p2";
  idempotency_key = "k2";
  status = captured;
  external_id = some "ch_2";
  created_at = 2000;
}

abbrev pub world : World
world = record {
  payments = waiting ∷ paid ∷ [];
  events = [];
  refunds = [];
  customers = [];
  inbounds = [];
  tenants = record { id = "t1"; name = "Tienda"; active = true } ∷ [];
  api_keys = [];
  audit_log = [];
  audit_up = true;
  webhook_jobs = [];
  reconcile_jobs = [];
  calls = [];
  samples = [];
  minted = 7;
  now = 9000000;
}

abbrev pub dto : CreatePaymentDto
dto = record {
  amount_minor = 1200;
  currency = "ARS";
  country = "AR";
  method = "card";
  customer_id = none;
  email = none;
  description = none;
  return_url = none;
  metadata = none;
}

abbrev pub part : RefundBody
part = record { amount_minor = some (pos 2000); reason = none }

abbrev pub job : WebhookJob
job = record {
  job_id = "webhook:stripe:ch_1";
  webhook_inbound_id = "id0";
  event = record captured_event { status = "otro" };
  enqueued_at = 8000000;
  attempts = 5;
}
