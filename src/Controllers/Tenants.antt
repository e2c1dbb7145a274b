-- ===== src/Controllers/Tenants.antt =====
-- src/modules/tenants/tenants.controller.ts
use pasarelapagos_backend.Prelude.{
  ℕ, String, Bool, true, false, Option, none, some, List, ◌&&◌, leb, if◌then◌else◌,
}
use pasarelapagos_backend.Errors.{Result, ok, err, error, bad_request}
use pasarelapagos_backend.Context.{TenantContext}
use pasarelapagos_backend.World.{Action, lift, or_throw, ◌>>=◌}
use pasarelapagos_backend.Guards.{Request}
use pasarelapagos_backend.Guards.Auth.{Firebase, api_key_guard}
use pasarelapagos_backend.Tenants.ApiKeys.{CreateApiKeyResult, ApiKeyView}
use pasarelapagos_backend.Tenants.ApiKeys as ApiKeys

pub record CreateApiKeyDto : Type 0 where
  pub label : String
  pub expires_in_days : Option ℕ

-- `@Min(1)` and `@Max(365)`, of a field that may be missing
abbrev pub is_valid_expiry : Option ℕ → Bool
is_valid_expiry none = true
is_valid_expiry (some days) = leb 1 days && leb days 365

abbrev validated : CreateApiKeyDto → Result CreateApiKeyDto
validated dto =
    if is_valid_expiry dto.expires_in_days then ok dto else err (bad_request "expiresInDays")

module _ (compare : (raw_key key_hash : String) → Bool) (firebase : Firebase) where
  -- `@UseGuards(ApiKeyGuard)` and `@Tenant()`
  unfoldable pub tenant_of : Request → Action TenantContext
  tenant_of req = do
    req1 ← api_key_guard compare firebase false req
    or_throw req1.tenant (error "Cannot read properties of undefined (reading 'id')")

  unfoldable pub list : Request → Action (List ApiKeyView)
  list req = do t ← tenant_of req; ApiKeys.list t.id

  unfoldable pub revoke : Request → String → Action (Unit {0})
  revoke req key_id = do t ← tenant_of req; ApiKeys.revoke key_id t.id

  module _ (cuid nanoid : ℕ → String) (hash : (raw_key : String) (salt : ℕ) → String) where
    unfoldable pub create : Request → CreateApiKeyDto → Action CreateApiKeyResult
    create req body = do
      t ← tenant_of req
      dto ← lift (validated body)
      ApiKeys.create cuid nanoid hash t.id dto.label dto.expires_in_days
