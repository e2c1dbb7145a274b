-- ===== src/Guards/Access.antt =====
-- src/common/guards/tenant.guard.ts, src/common/guards/write.guard.ts and src/common/guards/roles.guard.ts.
pub mod Isolation
use pasarelapagos_backend.Prelude.{
  ℕ, String, Bool, true, false, not, Option, none, some, List, [], ◌∷◌, ◌&&◌, ◌==◌, String_eq, ◌<>◌,
  or_else, lookup, contains, truthy, is_some, if◌then◌else◌,
}
use pasarelapagos_backend.Errors.{Result, ok, err, bad_request, forbidden}
use pasarelapagos_backend.Context.{OrgContext, TenantContext}
use pasarelapagos_backend.Guards.{Request, User, Permission}

-- What a request by API key gets.
abbrev pub key_context : String → OrgContext
key_context org = record {
  organization_id = org;
  user_id = "api-key";
  can_read = true;
  can_write = true;
  is_api_key = true;
}

abbrev pub user_context : (org uid : String) → (can_read can_write : Bool) → OrgContext
user_context org uid can_read can_write = record {
  organization_id = org;
  user_id = uid;
  can_read = can_read;
  can_write = can_write;
  is_api_key = false;
}

abbrev by_key : String → Request → Request
by_key org req = record req {
  org_context = some (key_context org);
  tenant = some (record { id = org; name = "api-key-tenant" });
}

abbrev by_user : String → OrgContext → Request → Request
by_user org ctx req = record req {
  org_context = some ctx;
  organization_id = some org;
  tenant = some (record { id = org; name = org });
}

-- A right that the token grants or refuses, or else the fallback.
abbrev pub right : (Permission → Option Bool) → Option Permission → Bool → Bool
right f none is_dev = is_dev
right f (some p) is_dev = or_else (f p) is_dev

abbrev pub is_empty : List String → Bool
is_empty [] = true
is_empty (s ∷ ss) = false

-- `userOrgs.length > 0 && !userOrgs.includes(org)`
abbrev pub is_outsider : List String → String → Bool
is_outsider orgs org = not (is_empty orgs) && not (contains orgs org)

abbrev has_key : Request → Option String
has_key req = elim req.user [ none ↦ req.organization_id | some u ↦ none ]

-- `is_dev` is `NODE_ENV !== 'production'`.
module _ (is_dev : Bool) where
  unfoldable pub check_user : String → User → Request → Result Request
  unfolding lookup contains
  check_user org user req =
      let perms = lookup "payments" user.product_permissions in
      let can_read = right (λ p. p.can_read) perms is_dev in
      let can_write = right (λ p. p.can_write) perms is_dev in
      if user.uid == ""
      then err (
          bad_request "Usuario no autenticado — FirebaseAuthGuard debe correr antes de TenantGuard")
      else if is_outsider user.organizations org
      then err (forbidden "No pertenecés a la organización indicada")
      else if can_read
      then ok (by_user org (user_context org user.uid can_read can_write) req)
      else err (forbidden "Sin acceso al módulo \"payments\" en esta organización")

  abbrev check_some_user : String → Option User → Request → Result Request
  check_some_user org none req =
      err
        (bad_request "Usuario no autenticado — FirebaseAuthGuard debe correr antes de TenantGuard")
  check_some_user org (some user) req = check_user org user req

  abbrev check_header : Option String → Request → Result Request
  check_header none req = err (bad_request "Header x-organization-id requerido")
  check_header (some org) req = check_some_user org req.user req

  abbrev check : Option String → Request → Result Request
  check none req = check_header (truthy req.x_organization_id) req
  check (some org) req = ok (by_key org req)

  -- `TenantGuard.canActivate`
  unfoldable pub tenant_guard : (is_public : Bool) → Request → Result Request
  tenant_guard true req = ok req
  tenant_guard false req = check (has_key req) req

-- `WriteGuard.canActivate`
abbrev may_write : Option OrgContext → Bool
may_write none = false
may_write (some ctx) = ctx.can_write

unfoldable pub write_guard : Request → Result Request
write_guard req =
    if may_write req.org_context
    then ok req
    else err (forbidden "No tenés permisos de escritura en este módulo")

abbrev join : String → List String → String
join s [] = s
join s (t ∷ ts) = s <> " | " <> join t ts

abbrev role_of : Option User → Option String
role_of none = none
role_of (some u) = truthy u.role

abbrev check_role : String → List String → Option String → Request → Result Request
check_role r rs none req = err (forbidden "Sin rol asignado para este tenant")
check_role r rs (some role) req =
    if contains (r ∷ rs) role
    then ok req
    else err (forbidden ("Rol '" <> role <> "' no tiene acceso. Requerido: " <> join r rs))

-- `RolesGuard.canActivate`
unfoldable pub roles_guard : (required : Option (List String)) → Request → Result Request
unfolding contains
roles_guard none req = ok req
roles_guard (some []) req = ok req
roles_guard (some (r ∷ rs)) req = check_role r rs (role_of req.user) req
