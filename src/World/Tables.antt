-- ===== src/World/Tables.antt =====
-- The rows of prisma/schema.prisma, and the state of a running server.
use pasarelapagos_backend.Prelude.{ℕ, String, Bool, Option, List}
use pasarelapagos_backend.Prelude.Int.{ℤ}
use pasarelapagos_backend.Json.{Json}
use pasarelapagos_backend.Providers.{CreateChargeInput, RefundInput, WebhookEvent}
use pasarelapagos_backend.Payments.Machine.{PaymentStatus}

pub data PaymentMethodKind : Type 0 where
  card wallet bank_transfer cash_voucher pix qr : PaymentMethodKind

pub record Payment : Type 0 where
  pub id : String
  pub tenant_id : String
  pub organization_id : String
  pub customer_id : Option String
  pub idempotency_key : String
  pub amount_minor : ℕ
  pub currency : String
  pub country : String
  pub method : PaymentMethodKind
  pub status : PaymentStatus
  pub provider_id : String
  pub external_id : Option String
  pub description : Option String
  pub metadata : Option (List (String × String))
  pub failure_code : Option String
  pub failure_message : Option String
  pub created_at : ℕ

pub record PaymentEvent : Type 0 where
  pub payment_id : String
  pub type : String
  pub payload : Json

pub record Refund : Type 0 where
  pub id : String
  pub payment_id : String
  pub amount_minor : ℤ
  pub reason : Option String
  pub external_refund_id : Option String
  pub status : String

pub record Customer : Type 0 where
  pub id : String
  pub tenant_id : String
  pub organization_id : String
  pub external_id : String
  pub email : Option String
  pub country : Option String

pub record WebhookInbound : Type 0 where
  pub id : String
  pub provider_id : String
  pub external_id : String
  pub headers : List (String × String)
  pub body : Json
  pub processed_at : Option ℕ
  pub status : String

pub record AuditLog : Type 0 where
  pub tenant_id : String
  pub organization_id : Option String
  pub actor_id : Option String
  pub action : String
  pub resource_id : String
  pub resource_type : String
  pub before : Option Json
  pub after : Option Json

pub record Tenant : Type 0 where
  pub id : String
  pub name : String
  pub active : Bool

pub record TenantApiKey : Type 0 where
  pub id : String
  pub tenant_id : String
  pub label : String
  pub key_hash : String
  pub prefix : String
  pub active : Bool
  pub expires_at : Option ℕ
  pub revoked_at : Option ℕ
  pub last_used_at : Option ℕ
  pub created_at : ℕ

-- A call of `webhookQueue.add` and of `queue.addBulk`, with the options that matter.
pub record WebhookJob : Type 0 where
  pub job_id : String
  pub webhook_inbound_id : String
  pub event : WebhookEvent
  pub enqueued_at : ℕ
  pub attempts : ℕ

pub record ReconcileJob : Type 0 where
  pub job_id : String
  pub payment_id : String
  pub attempts : ℕ

-- A call that left the server for a provider's API.
pub data ProviderCall : Type 0 where
  charge : (provider_id : String) → CreateChargeInput → ProviderCall
  refund : (provider_id : String) → RefundInput → ProviderCall
  retrieve : (provider_id : String) → (external_id : String) → ProviderCall

-- A call of `add` or `record` on an instrument of src/modules/metrics/metrics.service.ts.
pub data Sample : Type 0 where
  payments_total : (provider status country method : String) → Sample
  payment_duration : (duration_ms : ℕ) (provider country : String) → Sample
  webhook_total : (provider status : String) → Sample
  webhook_lag : (lag_ms : ℕ) (provider : String) → Sample
  circuit_breaker_state : (amount : ℤ) (provider : String) → Sample
  active_pending : (amount : ℤ) (country : String) → Sample

pub record World : Type 0 where
  pub payments : List Payment
  pub events : List PaymentEvent
  pub refunds : List Refund
  pub customers : List Customer
  pub inbounds : List WebhookInbound
  pub tenants : List Tenant
  pub api_keys : List TenantApiKey
  pub audit_log : List AuditLog
  -- whether a write to the audit table goes through
  pub audit_up : Bool
  -- the jobs that were handed to the two queues; which of them a queue takes, and when it runs them, is
  -- the queue's
  pub webhook_jobs : List WebhookJob
  pub reconcile_jobs : List ReconcileJob
  pub calls : List ProviderCall
  pub samples : List Sample
  -- how many ids have been minted
  pub minted : ℕ
  -- `Date.now()`
  pub now : ℕ
