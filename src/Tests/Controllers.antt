-- ===== src/Tests/Controllers.antt =====
-- Requests to the routes.
use pasarelapagos_backend.Prelude.{
  ℕ, String, Bool, true, none, some, [], ◌∷◌, ◌≡◌, refl, find, filter, lookup, contains, ◌==◌,
  String_eq, ◌<>◌, decimal, starts_with, slice_to, slice_from,
}
use pasarelapagos_backend.Json.{Json}
use pasarelapagos_backend.Errors.{Result, ok}
use pasarelapagos_backend.Context.{TenantContext}
use pasarelapagos_backend.World.{World, TenantApiKey}
use pasarelapagos_backend.Tenants.ApiKeys.{validate, match_of, first_match, admits}
use pasarelapagos_backend.Guards.{Request}
use pasarelapagos_backend.Guards.Auth.{
  Firebase, FirebaseDecodedToken, auth_guard, api_key_guard, verify_token,
}
use pasarelapagos_backend.Guards.Access.{tenant_guard, check_user}
use pasarelapagos_backend.Payments.Create.{serialize, CreatePaymentDto}
use pasarelapagos_backend.Payments.Listing.{PaymentDetail}
use pasarelapagos_backend.Payments.Listing as Listing
use pasarelapagos_backend.Controllers.Payments.{with_tenant, create}
use pasarelapagos_backend.Controllers.Auth.{Me, Verified, me, verify}
use pasarelapagos_backend.Controllers.Agreement.{me-verify}
use pasarelapagos_backend.Controllers.Tenants as Keys
use pasarelapagos_backend.Controllers.Tenants.{CreateApiKeyDto}
use pasarelapagos_backend.Controllers.OtherTenants.{others, routes_keep_others}
use pasarelapagos_backend.Tests.Fixtures.{world, paid, dto}

abbrev compare : String → String → Bool
compare raw_key key_hash = ("h:" <> raw_key) == key_hash

abbrev decoded : FirebaseDecodedToken
decoded = record {
  uid = "u1";
  email = none;
  name = none;
  organization_id = none;
  product_permissions =
      some (("payments", record { can_read = some true; can_write = some true }) ∷ []);
  organizations = some ("org1" ∷ []);
}

abbrev firebase : Firebase
firebase = some (λ token. some decoded)

abbrev by_token : Request
by_token = record {
  x_api_key = none;
  authorization = some "Bearer tok";
  x_organization_id = some "org1";
  organization_id = none;
  user = none;
  tenant = none;
  org_context = none;
}

abbrev by_key : Request
by_key = record by_token { x_api_key = some "pk_a1b2c3d4_x" }

abbrev stored : TenantApiKey
stored = record {
  id = "key1";
  tenant_id = "org1";
  label = "caja";
  key_hash = "h:pk_a1b2c3d4_x";
  prefix = "a1b2c3d4";
  active = true;
  expires_at = none;
  revoked_at = none;
  last_used_at = none;
  created_at = 0;
}

abbrev served : World
served = record world {
  tenants = record { id = "org1"; name = "Tienda"; active = true } ∷ [];
  api_keys = stored ∷ [];
}

abbrev after : World
after = record served { api_keys = record stored { last_used_at = some 9000000 } ∷ [] }

abbrev detail : PaymentDetail
detail = record { view = serialize paid; events = [] }

abbrev stringify : Json → String
stringify body = "{}"

abbrev lower : String → String
lower s = s

abbrev validated : Json → Result CreatePaymentDto
validated body = ok dto

abbrev mine : Me
mine = record {
  organization_id = "org1";
  user_id = "u1";
  can_read = true;
  can_write = true;
  product = "payments";
}

me-verify_example :
    (v : Verified) × (verify firebase by_token.authorization ≡ ok v)
    × (v.has_payments_access ≡ true)
    × (v.uid ≡ mine.user_id)
    × (mine.can_read ≡ true)
unfolding me with_tenant auth_guard tenant_guard check_user verify_token lookup contains starts_with
    slice_from
me-verify_example = me-verify compare firebase by_token world world mine refl refl

abbrev of_another : TenantApiKey
of_another = record stored { id = "key2"; tenant_id = "org2"; prefix = "zzzzzzzz" }

abbrev shared : World
shared = record served { api_keys = stored ∷ of_another ∷ [] }

abbrev used : World
used = record served { api_keys = record stored { last_used_at = some 9000000 } ∷ of_another ∷ [] }

abbrev tienda : TenantContext
tienda = record { id = "org1"; name = "Tienda" }

abbrev numbered : ℕ → String
numbered n = "id" <> decimal n

abbrev salted : String → ℕ → String
salted raw_key salt = "h:" <> raw_key

routes_keep_others_example :
    (others "org1" (Keys.list compare firebase by_key shared).1.api_keys
      ≡ others "org1" shared.api_keys)
    × ((key_id : String)
        → others "org1" (Keys.revoke compare firebase by_key key_id shared).1.api_keys
          ≡ others "org1" shared.api_keys)
    × ((body : CreateApiKeyDto)
        → others "org1"
            (Keys.create compare firebase numbered numbered salted by_key body shared).1.api_keys
          ≡ others "org1" shared.api_keys)
unfolding Keys.tenant_of api_key_guard validate match_of first_match admits find filter starts_with
    slice_to slice_from
routes_keep_others_example =
    routes_keep_others compare firebase numbered numbered salted by_key shared used tienda
      ((refl, tt), (tt, tt)) refl
