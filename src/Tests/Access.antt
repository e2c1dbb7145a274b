-- ===== src/Tests/Access.antt =====
-- The guards and the API keys at work.
use pasarelapagos_backend.Prelude.{
  Option, ℕ, ◌+◌, ◌-◌, String, Bool, true, false, none, some, [], ◌∷◌, ◌≡◌, refl, find, lookup,
  contains, ◌==◌, String_eq, ◌<>◌, if◌then◌else◌, leb, size, slice_to, starts_with, eq_refl,
}
use pasarelapagos_backend.Errors.{ok, err, unprocessable}
use pasarelapagos_backend.Json.{Json, Fields, str, obj, field, end}
use pasarelapagos_backend.Context.{OrgContext, TenantContext}
use pasarelapagos_backend.World.{World, TenantApiKey}
use pasarelapagos_backend.Tenants.ApiKeys.{CreateApiKeyResult, create, create_key, validate}
use pasarelapagos_backend.Tenants.ApiKeys.Creation.{create-validate}
use pasarelapagos_backend.Guards.{Request, User}
use pasarelapagos_backend.Guards.Access.{tenant_guard, check_user}
use pasarelapagos_backend.Guards.Access.Isolation.{Granted, tenant_guard-Granted}
use pasarelapagos_backend.Guards.Throttler.{count_of}
use pasarelapagos_backend.Guards.Throttler.Limit.{passes, passes_lem}
use pasarelapagos_backend.Guards.Pci.{pci_guard, tokenize}
use pasarelapagos_backend.Guards.Pci.Keys.{here, below, pci_guard-HasKey}
use pasarelapagos_backend.Pii.{is_encrypted, encrypt, decrypt}
use pasarelapagos_backend.Pii.RoundTrip.{decrypt-encrypt}
use pasarelapagos_backend.Tests.Fixtures.{world}

abbrev request : Request
request = record {
  x_api_key = none;
  authorization = some "Bearer tok";
  x_organization_id = some "org1";
  organization_id = none;
  user = none;
  tenant = none;
  org_context = none;
}

abbrev ana : User
ana = record {
  uid = "u1";
  email = none;
  name = none;
  product_permissions = ("payments", record { can_read = some true; can_write = some true }) ∷ [];
  organizations = "org1" ∷ [];
  role = none;
}

abbrev anas : Request
anas = record request { user = some ana }

abbrev context : OrgContext
context = record {
  organization_id = "org1";
  user_id = "u1";
  can_read = true;
  can_write = true;
  is_api_key = false;
}

abbrev admitted : Request
admitted = record anas {
  org_context = some context;
  organization_id = some "org1";
  tenant = some (record { id = "org1"; name = "org1" });
}

tenant_guard-Granted_example :
    (ctx : OrgContext) × (admitted.org_context ≡ some ctx) × Granted false anas ctx
unfolding tenant_guard check_user lookup contains
tenant_guard-Granted_example = tenant_guard-Granted false anas admitted refl

abbrev stray : User
stray = record ana { organizations = [] }

abbrev strays : Request
strays = record request { user = some stray; x_organization_id = some "org2" }

abbrev compare : String → String → Bool
compare raw_key key_hash = ("h:" <> raw_key) == key_hash

passes_lem_example :
    passes 60 3 "rl:t1:0" request 5 []
    ≡ (if leb (5 + count_of "rl:t1:0" []) 3 then 5 else 3 - count_of "rl:t1:0" [])
passes_lem_example = passes_lem 60 3 "rl:t1:0" request 5 []

abbrev text_of : Json → String
text_of j = "{}"

abbrev same_case : String → String
same_case s = s

abbrev carded : Fields
carded = field "card" (obj (field "cvv" (str "123") end)) end

pci_guard-HasKey_example : pci_guard text_of same_case (obj carded) ≡ err (unprocessable tokenize)
unfolding contains
pci_guard-HasKey_example =
    pci_guard-HasKey text_of same_case "cvv" carded
      (below "card" (field "cvv" (str "123") end) end (here (str "123") end)) refl

abbrev cuid : ℕ → String
cuid n = "id7"

abbrev nanoid : ℕ → String
nanoid n = "a1b2c3d4e5"

abbrev hash : String → ℕ → String
hash raw_key salt = "h:" <> raw_key

abbrev new_result : CreateApiKeyResult
new_result = record {
  id = "id7";
  raw_key = "pk_a1b2c3d4_a1b2c3d4e5";
  prefix = "a1b2c3d4";
  expires_at = none;
}

abbrev keyed : World
keyed = (create cuid nanoid hash "t1" "caja" none world).1

create-validate_example :
    (validate compare "pk_a1b2c3d4_a1b2c3d4e5" keyed).0
    ≡ ok (some (record { id = "t1"; name = "Tienda" }))
unfolding create create_key find slice_to size
create-validate_example =
    create-validate compare cuid nanoid hash "t1" "caja" none
      (record { id = "t1"; name = "Tienda"; active = true }) world keyed new_result
      (λ raw_key salt. eq_refl ("h:" <> raw_key)) (λ n. refl) refl refl refl tt

abbrev first_key : TenantApiKey
first_key = record {
  id = "key1";
  tenant_id = "t1";
  label = "vieja";
  key_hash = "h:pk_a1b2c3d4_x";
  prefix = "a1b2c3d4";
  active = true;
  expires_at = none;
  revoked_at = none;
  last_used_at = none;
  created_at = 0;
}

abbrev second_key : TenantApiKey
second_key = record first_key { id = "key2"; key_hash = "h:pk_zzzzzzzz_y"; prefix = "zzzzzzzz" }

abbrev two_keys : World
two_keys = record world { api_keys = first_key ∷ second_key ∷ [] }

abbrev tienda : TenantContext
tienda = record { id = "t1"; name = "Tienda" }

abbrev iv_of : ℕ → String
iv_of n = "0a1b"

abbrev seal : String → String → String → String × String
seal key iv plaintext = ("ff", plaintext)

abbrev unseal : String → String → String → String → Option String
unseal key iv tag body = some body

decrypt-encrypt_example :
    decrypt unseal (some "k") (encrypt iv_of seal (some "k") 3 "ana") ≡ ok "ana"
unfolding is_encrypted starts_with
decrypt-encrypt_example =
    decrypt-encrypt iv_of seal unseal (some "k") 3 "ana" (λ key iv. refl) (λ key iv. refl) refl refl
