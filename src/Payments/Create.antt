-- ===== src/Payments/Create.antt =====
-- src/modules/payments/payments.service.ts: `create`, with the DTO and the helpers that it uses.
mod Values
unfoldable pub use Values.*
pub mod Insert
pub mod Charge
pub mod Outcome
pub mod Laws
pub mod Methods
use pasarelapagos_backend.Prelude.{
  ℕ, ◌-◌, String, Bool, true, false, Option, none, some, List, [], ◌∷◌, ◌++◌, ◌&&◌, ◌==◌, String_eq,
  ◌<>◌, lookup, find, is_blank, truthy, or_else, decimal, if◌then◌else◌,
}
use pasarelapagos_backend.Json.{Json, str, object}
use pasarelapagos_backend.Errors.{Result, ok, err, Exception, bad_request, message_of}
use pasarelapagos_backend.Providers.{CreateChargeInput, ProviderChargeResult, PaymentProvider}
use pasarelapagos_backend.Providers.Registry
use pasarelapagos_backend.Context.{OrgContext, Env}
use pasarelapagos_backend.Payments.Machine.{
  PaymentStatus, pending, authorized, captured, failed, cancelled, status_text,
}
use pasarelapagos_backend.World.{
  World, Payment, Customer, PaymentMethodKind, card, wallet, bank_transfer, cash_voucher, pix, qr,
  charge, Action, pure, throw, gets, or_throw, lift, transaction, try_catch, ◌>>=◌, ◌>>◌, mint,
  create_payment, update_payment, create_event, call_provider,
}
use pasarelapagos_backend.World.Audit.{log}
use pasarelapagos_backend.World.Metrics.{increment_pending, decrement_pending, record_payment}

-- The key, unless it is missing or blank.
unfoldable pub required_key : Option String → Option String
unfolding is_blank
required_key none = none
required_key (some key) = if is_blank key then none else some key

-- The filter of the replay: the organization and the key.
abbrev pub replays : String → String → Payment → Bool
replays org key p = p.organization_id == org && p.idempotency_key == key

module _ (env : Env) (dto : CreatePaymentDto) (key : String) (ctx : OrgContext) where
  abbrev is_customer : String → Customer → Bool
  is_customer external_id c = c.tenant_id == ctx.organization_id && c.external_id == external_id

  -- `tx.customer.upsert`, whose update changes nothing
  unfoldable pub upsert_customer : String → Action String
  unfolding find
  upsert_customer external_id w = elim (find (is_customer external_id) w.customers) [
    | some c ↦ (ok c.id, w)
    | none ↦
        let id = env.cuid w.minted in
        (
          ok id,
          (mint (record w {
            customers =
                w.customers
                ++ (record {
                  id = id;
                  tenant_id = ctx.organization_id;
                  organization_id = ctx.organization_id;
                  external_id = external_id;
                  email = dto.email;
                  country = some dto.country;
                })
                  ∷ [];
          })).1,
        )
  ]

  unfoldable pub customer_of : Option String → Action (Option String)
  customer_of none = pure none
  customer_of (some external_id) = do id ← upsert_customer external_id; pure (some id)

  abbrev pub new_payment : PaymentProvider → PaymentMethodKind → Option String → ℕ → ℕ → Payment
  new_payment provider method customer_id n now = record {
    id = env.cuid n;
    tenant_id = ctx.organization_id;
    organization_id = ctx.organization_id;
    customer_id = customer_id;
    idempotency_key = key;
    amount_minor = dto.amount_minor;
    currency = dto.currency;
    country = dto.country;
    method = method;
    status = pending;
    provider_id = provider.id;
    external_id = none;
    description = dto.description;
    metadata = dto.metadata;
    failure_code = none;
    failure_message = none;
    created_at = now;
  }

  -- Step 3, inside its transaction.
  unfoldable pub insert_pending : PaymentProvider → PaymentMethodKind → Action Payment
  insert_pending provider method = do
    customer_id ← customer_of (truthy dto.customer_id)
    n ← mint
    now ← gets (λ w. w.now)
    p ← create_payment (new_payment provider method customer_id n now)
    create_event (record {
      payment_id = p.id;
      type = "payment.created";
      payload =
          object
            (("providerId", str provider.id) ∷ ("organizationId", str ctx.organization_id) ∷ []);
    })
    pure p

  abbrev pub charge_input : Payment → CreateChargeInput
  charge_input payment = record {
    amount_minor = dto.amount_minor;
    currency = dto.currency;
    country = dto.country;
    customer = record {
      id = or_else dto.customer_id payment.id;
      email = dto.email;
      document_id = none;
    };
    description = dto.description;
    method = dto.method;
    metadata = dto.metadata;
    idempotency_key = key;
    return_url = dto.return_url;
  }

  abbrev pub settle : ProviderChargeResult → Payment → Payment
  settle result p = record p {
    external_id = some result.external_id;
    status = map_provider_status result.status;
  }

  -- The transaction that stores the provider's answer.
  unfoldable pub store_result : String → ProviderChargeResult → Action Payment
  store_result id result = do
    p ← update_payment id (settle result)
    create_event
        (record { payment_id = id; type = "provider." <> result.status; payload = result.raw })
    pure p

  -- Step 4, the body of the `try`.
  unfoldable pub charge_payment : PaymentProvider → Payment → ℕ → Action PaymentView
  charge_payment provider payment start = do
    let input = charge_input payment
    call_provider (charge provider.id input) (env.latency (charge provider.id input))
    result ← lift (provider.create_charge input)
    updated ← transaction (store_result payment.id result)
    decrement_pending dto.country
    finish ← gets (λ w. w.now)
    record_payment (record {
      provider = provider.id;
      status = status_text (map_provider_status result.status);
      country = dto.country;
      method = dto.method;
      duration_ms = finish - start;
    })
    log (record {
      tenant_id = ctx.organization_id;
      organization_id = some ctx.organization_id;
      actor_id = some ctx.user_id;
      action = "payment.created";
      resource_id = updated.id;
      resource_type = "Payment";
      before = none;
      after = some (
          object (
            ("status", str (status_text (map_provider_status result.status)))
            ∷ ("providerId", str provider.id)
            ∷ []));
    })
    pure (serialize updated)

  abbrev pub mark_failed : Exception → Payment → Payment
  mark_failed e p = record p {
    status = failed;
    failure_code = some "PROVIDER_ERROR";
    failure_message = some (message_of e);
  }

  -- The `catch`.
  unfoldable pub fail_payment : Payment → Exception → Action PaymentView
  fail_payment payment e = do
    decrement_pending dto.country
    update_payment payment.id (mark_failed e)
    throw e

  -- Steps 2 to 4, after no payment with the key was found.
  unfoldable pub create_new : ℕ → Action PaymentView
  create_new start = do
    provider ← lift (Registry.select_for dto.country dto.currency env.registry)
    increment_pending dto.country
    method ← lift (to_prisma_method dto.method)
    payment ← transaction (insert_pending provider method)
    try_catch (charge_payment provider payment start) (fail_payment payment)

abbrev replay_or : Action PaymentView → Option Payment → Action PaymentView
replay_or m none = m
replay_or m (some existing) = pure (serialize existing)

unfoldable pub create : Env → CreatePaymentDto → Option String → OrgContext → Action PaymentView
create env dto idempotency_key ctx = do
  key ←
      or_throw (required_key idempotency_key)
        (bad_request "Header idempotency-key requerido para crear pagos")
  start ← gets (λ w. w.now)
  existing ← gets (λ w. find (replays ctx.organization_id key) w.payments)
  replay_or (create_new env dto key ctx start) existing
