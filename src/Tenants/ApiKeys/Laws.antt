-- ===== src/Tenants/ApiKeys/Laws.antt =====
-- Which API keys let a caller in, from their creation to their revocation.
use mathlib.Core.List.{Memᴰ}
use pasarelapagos_backend.Prelude.{
  ℕ, ◌<◌, String, Bool, true, none, some, List, ◌≡◌, ap, ◌∙◌, inl, inr, String_eq, arith, find,
  Option-cases,
}
use pasarelapagos_backend.Errors.{err, not_found}
use pasarelapagos_backend.Context.{TenantContext}
use pasarelapagos_backend.World.{World, Tenant, TenantApiKey}
use pasarelapagos_backend.Tenants.ApiKeys.{
  has_tenant_id, is_key_of, is_candidate, prefix_of, admits, revoke,
}

module _ (compare : (raw_key key_hash : String) → Bool) where
  pub admits-some :
      (raw_key : String) (tenants : List Tenant) (k : TenantApiKey) (t : Tenant)
      → admits compare raw_key tenants k ≡ some t
      → (find (has_tenant_id k.tenant_id) tenants ≡ some t)
        × (t.active ≡ true)
        × (compare raw_key k.key_hash ≡ true)
  unfolding admits
  admits-some raw_key tenants k t e =
      elim (Option-cases (find (has_tenant_id k.tenant_id) tenants)) [
        | inl h ↦ cc
        | inr (u, h) ↦ let eq : u ≡ t = ground arith in (h ∙ ap some eq, ground arith, ground arith)
      ]

  -- Why a key of the table lets a caller in as `who`.
  pub record LetsIn (raw_key : String) (w : World) (who : TenantContext) (k : TenantApiKey)
      : Type 0 where
    pub stored : Memᴰ k w.api_keys
    pub tenant : Tenant
    pub candidate : is_candidate (prefix_of raw_key) w.now k ≡ true
    pub active : k.active ≡ true
    pub unexpired : (t : ℕ) → k.expires_at ≡ some t → w.now < t
    pub its_tenant : find (has_tenant_id k.tenant_id) w.tenants ≡ some tenant
    pub tenant_active : tenant.active ≡ true
    pub matching : compare raw_key k.key_hash ≡ true
    pub id : who.id ≡ tenant.id
    pub name : who.name ≡ tenant.name

-- A tenant cannot revoke what is not theirs: the answer is `not_found`, and nothing changes.
pub revoke-not_found :
    (key_id tenant_id : String) (w : World)
    → find (is_key_of key_id tenant_id) w.api_keys ≡ none
    → revoke key_id tenant_id w ≡ (err (not_found "API key no encontrada"), w)
unfolding revoke
revoke-not_found key_id tenant_id w e = ground arith
