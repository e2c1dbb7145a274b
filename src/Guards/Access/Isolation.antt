-- ===== src/Guards/Access/Isolation.antt =====
-- Which organization a request may act for, with which rights.
use pasarelapagos_backend.Prelude.{
  String, Bool, true, false, none, some, List, [], ◌∷◌, ◌≡◌, ◌⊎◌, refl, inl, inr, arith, ◌==◌,
  String_eq, lookup, contains, truthy, Bool-cases, Option-cases, Option, or_else, ap,
}
use pasarelapagos_backend.Errors.{ok, err, forbidden, Result-cases}
use pasarelapagos_backend.Context.{OrgContext}
use pasarelapagos_backend.World.{World}
use pasarelapagos_backend.Guards.{Request, User, Permission}
use pasarelapagos_backend.Guards.Auth.{Firebase, auth_guard}
use pasarelapagos_backend.Guards.Access.{
  key_context, user_context, right, is_outsider, check_user, tenant_guard, write_guard, roles_guard,
}

module _ (is_dev : Bool) where
  -- Why a request gets its context.
  pub data Granted (req : Request) (ctx : OrgContext) : Type 0 where
    by_key :
        (org : String)
        → req.user ≡ none
        → req.organization_id ≡ some org
        → ctx ≡ key_context org
        → Granted req ctx
    by_user :
        (org : String) (user : User) (can_write : Bool)
        → req.user ≡ some user
        → truthy req.x_organization_id ≡ some org
        → (user.organizations ≡ []) ⊎ (contains user.organizations org ≡ true)
        → right (λ p. p.can_read) (lookup "payments" user.product_permissions) is_dev ≡ true
        → right (λ p. p.can_write) (lookup "payments" user.product_permissions) is_dev ≡ can_write
        → ctx ≡ user_context org user.uid true can_write
        → Granted req ctx

  insider :
      (orgs : List String) (org : String)
      → is_outsider orgs org ≡ false
      → (orgs ≡ []) ⊎ (contains orgs org ≡ true)
  insider [] org e = inl refl
  insider (o ∷ os) org e = elim (Bool-cases (contains (o ∷ os) org)) [
    | inl h ↦ inr h
    | inr h ↦ let out : Path Bool true false = rw h at e in cc
  ]

  check_user-Granted :
      (org : String) (user : User) (req req' : Request)
      → req.user ≡ some user
      → truthy req.x_organization_id ≡ some org
      → check_user is_dev org user req ≡ ok req'
      → (ctx : OrgContext) × (req'.org_context ≡ some ctx) × Granted req ctx
  unfolding check_user
  check_user-Granted org user req req' u h e =
      let perms = lookup "payments" user.product_permissions in
      let w = right (λ p. p.can_write) perms is_dev in
      elim (Bool-cases (user.uid == "")) [
        | inl absent ↦ absurd (ground arith)
        | inr there ↦ elim (Bool-cases (is_outsider user.organizations org)) [
          | inl out ↦ absurd (ground arith)
          | inr member ↦ elim (Bool-cases (right (λ p. p.can_read) perms is_dev)) [
            | inr none_r ↦ absurd (ground arith)
            | inl read ↦ (
              user_context org user.uid true w,
              ground arith,
              by_user org user w u h (insider user.organizations org member) read refl refl,
            )
          ]
        ]
      ]

  -- A request that passes the tenant guard acts for the organization of its API key with all rights,
  -- or for the one that its header names. Where its user's token lists organizations, that is one of
  -- them; where it lists none, it may be any. The request has a right on payments as far as the token
  -- grants it, and, where the token does not say, exactly outside production; without the right to
  -- read it does not pass.
  pub tenant_guard-Granted :
      (req req' : Request)
      → tenant_guard is_dev false req ≡ ok req'
      → (ctx : OrgContext) × (req'.org_context ≡ some ctx) × Granted req ctx
  unfolding tenant_guard
  tenant_guard-Granted req req' e = elim (Option-cases req.user) [
    | inl anonymous ↦ elim (Option-cases req.organization_id) [
      | inr (org, o) ↦ (key_context org, ground arith, by_key org anonymous o refl)
      | inl no_org ↦ absurd (ground arith)
    ]
    | inr (user, u) ↦ elim (Option-cases (truthy req.x_organization_id)) [
      | inl no_header ↦ absurd (ground arith)
      | inr (org, h) ↦ check_user-Granted org user req req' u h (ground arith)
    ]
  ]

granted_right : (o : Option Bool) → or_else o false ≡ true → o ≡ some true
granted_right none e = ground arith
granted_right (some b) e = ap some e

-- In production a request that passes the tenant guard and the write guard comes by an API key, or
-- its user's token grants writing on payments.
pub write_guard-Granted :
    (req req1 req2 : Request)
    → tenant_guard false false req ≡ ok req1
    → write_guard req1 ≡ ok req2
    → (req.user ≡ none)
      ⊎ ((user : User) × (p : Permission) × (req.user ≡ some user)
          × (lookup "payments" user.product_permissions ≡ some p)
          × (p.can_read ≡ some true)
          × (p.can_write ≡ some true))
unfolding write_guard
write_guard-Granted req req1 req2 e w =
    let (ctx, has, granted) = tenant_guard-Granted false req req1 e in go ctx has granted
  where
    go :
        (ctx : OrgContext)
        → req1.org_context ≡ some ctx
        → Granted false req ctx
        → (req.user ≡ none)
          ⊎ ((user : User) × (p : Permission) × (req.user ≡ some user)
              × (lookup "payments" user.product_permissions ≡ some p)
              × (p.can_read ≡ some true)
              × (p.can_write ≡ some true))
    go ctx has (by_key org u o c) = inl u
    go ctx has (by_user org user can_write u h m r wr c) =
        elim (Option-cases (lookup "payments" user.product_permissions)) [
          | inl silent ↦ let no : Path Bool false true = rw silent at r in cc
          | inr (p, found) ↦
              let read : or_else p.can_read false ≡ true = rw found at r in
              let write : or_else p.can_write false ≡ true = ground arith in
              inr
                (user, p, u, found, granted_right p.can_read read, granted_right p.can_write write)
        ]

-- A user whose token lists no organization passes for any organization that they name.
pub tenant_guard-no_organizations :
    (is_dev : Bool) (org : String) (user : User) (req : Request)
    → req.user ≡ some user
    → user.organizations ≡ []
    → (user.uid == "") ≡ false
    → (org == "") ≡ false
    → right (λ p. p.can_read) (lookup "payments" user.product_permissions) is_dev ≡ true
    → req.x_organization_id ≡ some org
    → (req' : Request) × (tenant_guard is_dev false req ≡ ok req')
      × (req'.organization_id ≡ some org)
unfolding tenant_guard check_user
tenant_guard-no_organizations is_dev org user req u o i ne r h =
    elim (Result-cases (tenant_guard is_dev false req)) [
      | inl (req', e) ↦ (req', e, ground arith)
      | inr (x, e) ↦ absurd (ground arith)
    ]

-- Whoever the authentication guard lets in to a route with `@Roles()`, the roles guard refuses, as
-- no user is given a role.
pub roles_guard-auth_guard :
    (compare : (raw_key key_hash : String) → Bool) (firebase : Firebase) (r : String)
    (rs : List String) (req req' : Request) (w w' : World)
    → req.user ≡ none
    → auth_guard compare firebase false req w ≡ (ok req', w')
    → roles_guard (some (r ∷ rs)) req' ≡ err (forbidden "Sin rol asignado para este tenant")
unfolding auth_guard roles_guard
roles_guard-auth_guard compare firebase r rs req req' w w' u e = ground arith
