-- ===== src/Tenants/ApiKeys.antt =====
-- src/modules/tenants/api-key.service.ts. `nanoid` and bcrypt's `hash` and `compare` are parameters.
pub mod Laws
pub mod Creation
use pasarelapagos_backend.Prelude.{
  ℕ, zero, suc, ◌+◌, ◌*◌, String, Bool, true, false, Option, none, some, List, [], ◌∷◌, ◌++◌, ◌&&◌,
  ◌==◌, String_eq, ◌<>◌, find, any, map, filter, if◌then◌else◌, ltb, slice_to, slice_from,
  starts_with,
}
use pasarelapagos_backend.Json.{Json, null, bool, num, str, object}
use pasarelapagos_backend.Prelude.Int.{pos}
use pasarelapagos_backend.Errors.{Result, ok, err, error, not_found}
use pasarelapagos_backend.Context.{TenantContext}
use pasarelapagos_backend.World.{
  World, Tenant, TenantApiKey, Action, pure, gets, or_throw, ◌>>=◌, ◌>>◌, modify, mint,
}
use pasarelapagos_backend.World.Audit.{AuditEntry, log}

pub record CreateApiKeyResult : Type 0 where
  pub id : String
  pub raw_key : String
  pub prefix : String
  pub expires_at : Option ℕ

-- What `list` selects of a key: all but its hash.
pub record ApiKeyView : Type 0 where
  pub id : String
  pub label : String
  pub prefix : String
  pub active : Bool
  pub expires_at : Option ℕ
  pub revoked_at : Option ℕ
  pub last_used_at : Option ℕ
  pub created_at : ℕ

abbrev pub has_tenant_id : String → Tenant → Bool
has_tenant_id id t = t.id == id

abbrev pub is_key : String → TenantApiKey → Bool
is_key id k = k.id == id

abbrev pub is_key_of : (key_id tenant_id : String) → TenantApiKey → Bool
is_key_of key_id tenant_id k = k.id == key_id && k.tenant_id == tenant_id

abbrev pub belongs : String → TenantApiKey → Bool
belongs tenant_id k = k.tenant_id == tenant_id

-- `tenantApiKey.create`, with the reference to the table of tenants
unfoldable pub create_key : TenantApiKey → Action TenantApiKey
unfolding any
create_key k w =
    if any (has_tenant_id k.tenant_id) w.tenants
    then (ok k, record w { api_keys = w.api_keys ++ k ∷ [] })
    else (err (error "Foreign key constraint failed"), w)

-- `tenantApiKey.update({ where: { id }, data })`
abbrev pub change_key : String → (TenantApiKey → TenantApiKey) → TenantApiKey → TenantApiKey
change_key id f k = if k.id == id then f k else k

abbrev pub update_key : String → (TenantApiKey → TenantApiKey) → Action (Unit {0})
update_key id f = modify (λ w. record w { api_keys = map (change_key id f) w.api_keys })

-- `expiresInDays ? new Date(Date.now() + expiresInDays * 24 * 60 * 60 * 1000) : null`
abbrev pub expiry : ℕ → Option ℕ → Option ℕ
expiry now none = none
expiry now (some zero) = none
expiry now (some (suc days)) = some (now + suc days * 86400000)

-- A date is its time.
abbrev date : Option ℕ → Json
date none = null
date (some t) = num (pos t)

-- What a key is looked up by: `rawKey.slice(3, 3 + this.PREFIX_LEN)`.
abbrev pub prefix_of : String → String
prefix_of raw_key = slice_to 8 (slice_from 3 raw_key)

abbrev pub raw_key_of : String → String
raw_key_of random = "pk_" <> slice_to 8 random <> "_" <> random

abbrev pub unexpired : ℕ → Option ℕ → Bool
unexpired now none = true
unexpired now (some t) = ltb now t

-- The rows that `validate` reads.
abbrev pub is_candidate : String → ℕ → TenantApiKey → Bool
is_candidate prefix now k = k.prefix == prefix && (k.active && unexpired now k.expires_at)

abbrev pub use_key : ℕ → TenantApiKey → TenantApiKey
use_key now k = record k { last_used_at = some now }

abbrev pub revoke_key : ℕ → TenantApiKey → TenantApiKey
revoke_key now k = record k { active = false; revoked_at = some now }

abbrev view : TenantApiKey → ApiKeyView
view k = record {
  id = k.id;
  label = k.label;
  prefix = k.prefix;
  active = k.active;
  expires_at = k.expires_at;
  revoked_at = k.revoked_at;
  last_used_at = k.last_used_at;
  created_at = k.created_at;
}

-- `orderBy: { createdAt: 'desc' }`: the order of creation, reversed
abbrev newest_first : List ApiKeyView → List ApiKeyView → List ApiKeyView
newest_first [] acc = acc
newest_first (v ∷ vs) acc = newest_first vs (v ∷ acc)

unfoldable pub list : String → Action (List ApiKeyView)
unfolding filter
list tenant_id = gets (λ w. newest_first (map view (filter (belongs tenant_id) w.api_keys)) [])

-- The events of a key's life in the audit log.
abbrev created_entry : (tenant_id id label prefix : String) → Option ℕ → AuditEntry
created_entry tenant_id id label prefix expires_at = record {
  tenant_id = tenant_id;
  organization_id = none;
  actor_id = none;
  action = "apikey.created";
  resource_id = id;
  resource_type = "TenantApiKey";
  before = none;
  after = some (
      object (("label", str label) ∷ ("prefix", str prefix) ∷ ("expiresAt", date expires_at) ∷ []));
}

abbrev revoked_entry : (tenant_id key_id : String) → AuditEntry
revoked_entry tenant_id key_id = record {
  tenant_id = tenant_id;
  organization_id = none;
  actor_id = none;
  action = "apikey.revoked";
  resource_id = key_id;
  resource_type = "TenantApiKey";
  before = some (object (("active", bool true) ∷ []));
  after = some (object (("active", bool false) ∷ []));
}

-- `revoke`
unfoldable pub revoke : (key_id tenant_id : String) → Action (Unit {0})
revoke key_id tenant_id = do
  found ← gets (λ w. find (is_key_of key_id tenant_id) w.api_keys)
  _ ← or_throw found (not_found "API key no encontrada")
  now ← gets (λ w. w.now)
  update_key key_id (revoke_key now)
  log (revoked_entry tenant_id key_id)

module _ (compare : (raw_key key_hash : String) → Bool) where
  -- One turn of the loop of `validate`: the tenant whom the candidate lets in.
  unfoldable pub admits : String → List Tenant → TenantApiKey → Option Tenant
  unfolding find
  admits raw_key tenants k = elim (find (has_tenant_id k.tenant_id) tenants) [
    | none ↦ none
    | some t ↦ if t.active && compare raw_key k.key_hash then some t else none
  ]

  abbrev pub or_next :
      TenantApiKey → Option Tenant → Option (TenantApiKey × Tenant) → Option (TenantApiKey × Tenant)
  or_next k none rest = rest
  or_next k (some t) rest = some (k, t)

  unfoldable pub first_match :
      String → List Tenant → List TenantApiKey → Option (TenantApiKey × Tenant)
  unfolding admits
  first_match raw_key tenants [] = none
  first_match raw_key tenants (k ∷ ks) =
      or_next k (admits raw_key tenants k) (first_match raw_key tenants ks)

  abbrev pub admit : Option (TenantApiKey × Tenant) → Action (Option TenantContext)
  admit none = pure none
  admit (some (k, t)) = do
    now ← gets (λ w. w.now)
    update_key k.id (use_key now)
    pure (some (record { id = t.id; name = t.name }))

  unfoldable pub match_of : String → World → Option (TenantApiKey × Tenant)
  unfolding filter first_match
  match_of raw_key w =
      if starts_with raw_key "pk_"
      then first_match raw_key w.tenants
          (filter (is_candidate (prefix_of raw_key) w.now) w.api_keys)
      else none

  -- `validate`: a key, or none, is a tenant, or none.
  unfoldable pub validate : String → Action (Option TenantContext)
  unfolding match_of
  validate raw_key = do found ← gets (match_of raw_key); admit found

module _ (cuid nanoid : ℕ → String) (hash : (raw_key : String) (salt : ℕ) → String) where
  -- The row that `create` adds; the id and the salt come from the number of the mint.
  abbrev pub new_key : (tenant_id label : String) → Option ℕ → (now n : ℕ) → TenantApiKey
  new_key tenant_id label expires_in_days now n = record {
    id = cuid n;
    tenant_id = tenant_id;
    label = label;
    key_hash = hash (raw_key_of (nanoid n)) n;
    prefix = slice_to 8 (nanoid n);
    active = true;
    expires_at = expiry now expires_in_days;
    revoked_at = none;
    last_used_at = none;
    created_at = now;
  }

  -- `create`
  unfoldable pub create : (tenant_id label : String) → Option ℕ → Action CreateApiKeyResult
  create tenant_id label expires_in_days = do
    n ← mint
    now ← gets (λ w. w.now)
    key ← create_key (new_key tenant_id label expires_in_days now n)
    log (created_entry tenant_id key.id label key.prefix key.expires_at)
    pure (record {
      id = key.id;
      raw_key = raw_key_of (nanoid n);
      prefix = key.prefix;
      expires_at = key.expires_at;
    })
