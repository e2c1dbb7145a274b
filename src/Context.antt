-- ===== src/Context.antt =====
-- src/common/interfaces/org-context.interface.ts and src/common/decorators/tenant.decorator.ts, with what
-- the services are constructed with.
use pasarelapagos_backend.Prelude.{ℕ, String, Bool}
use pasarelapagos_backend.Providers.Registry.{ProviderRegistry}
use pasarelapagos_backend.World.{ProviderCall}

pub record OrgContext : Type 0 where
  pub organization_id : String
  pub user_id : String
  pub can_read : Bool
  pub can_write : Bool
  pub is_api_key : Bool

pub record TenantContext : Type 0 where
  pub id : String
  pub name : String

-- What lies outside the repository: the ids of `@default(cuid())`, the time that a provider's API
-- takes, and, in `registry`, its answers.
pub record Env : Type 0 where
  pub cuid : ℕ → String
  pub latency : ProviderCall → ℕ
  pub registry : ProviderRegistry
