-- ===== src/Guards.antt =====
-- src/common/guards/: what a guard reads of a request, and what it leaves on it. A guard that returns
-- `true` is `ok` with the request after it.
pub mod Auth
pub mod Access
pub mod FirebaseAuth
pub mod Throttler
pub mod Pci
use pasarelapagos_backend.Prelude.{String, Bool, Option, List}
use pasarelapagos_backend.Context.{OrgContext, TenantContext}

-- A right that a token may leave out.
pub record Permission : Type 0 where
  pub can_read : Option Bool
  pub can_write : Option Bool

-- `role` is what roles.guard.ts reads of a user.
pub record User : Type 0 where
  pub uid : String
  pub email : Option String
  pub name : Option String
  pub product_permissions : List (String × Permission)
  pub organizations : List String
  pub role : Option String

-- The headers that the guards read, and `req['organizationId']`, `req['user']`, `req['tenant']` and
-- `req['orgContext']`.
pub record Request : Type 0 where
  pub x_api_key : Option String
  pub authorization : Option String
  pub x_organization_id : Option String
  pub organization_id : Option String
  pub user : Option User
  pub tenant : Option TenantContext
  pub org_context : Option OrgContext
