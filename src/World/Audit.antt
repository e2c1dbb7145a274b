-- ===== src/World/Audit.antt =====
-- src/modules/audit/audit.service.ts: the append-only audit log.
use pasarelapagos_backend.Prelude.{
  ℕ, String, Bool, false, Option, none, some, List, [], ◌∷◌, ◌++◌, ◌==◌, String_eq, ◌&&◌, or_else,
  filter, take, if◌then◌else◌,
}
use pasarelapagos_backend.Json.{Json}
use pasarelapagos_backend.Errors.{ok}
use pasarelapagos_backend.World.Tables.{AuditLog}
use pasarelapagos_backend.World.Effects.{Action, gets}

-- The optional fields `metadata` and `ip` are set by no caller.
pub record AuditEntry : Type 0 where
  pub tenant_id : String
  pub organization_id : Option String
  pub actor_id : Option String
  pub action : String
  pub resource_id : String
  pub resource_type : String
  pub before : Option Json
  pub after : Option Json

abbrev row : AuditEntry → AuditLog
row entry = record {
  tenant_id = entry.tenant_id;
  organization_id = some (or_else entry.organization_id entry.tenant_id);
  actor_id = entry.actor_id;
  action = entry.action;
  resource_id = entry.resource_id;
  resource_type = entry.resource_type;
  before = entry.before;
  after = entry.after;
}

-- A write that fails is swallowed by the `catch`.
abbrev pub log : AuditEntry → Action (Unit {0})
log entry w = (
  ok tt,
  record w { audit_log = if w.audit_up then w.audit_log ++ row entry ∷ [] else w.audit_log },
)

abbrev of_org : String → AuditLog → Bool
of_org org a = is_org org a.organization_id
  where
    is_org : String → Option String → Bool
    is_org org none = false
    is_org org (some o) = o == org

-- The latest first: the table is in the order of its writes.
abbrev reversed : List AuditLog → List AuditLog → List AuditLog
reversed [] acc = acc
reversed (a ∷ rest) acc = reversed rest (a ∷ acc)

-- `findByOrg`, whose limit is 100 unless it is given
unfoldable pub find_by_org : String → Option ℕ → Action (List AuditLog)
unfolding filter
find_by_org org limit =
    gets (λ w. take (or_else limit 100) (reversed (filter (of_org org) w.audit_log) []))

-- `findByResource`
unfoldable pub find_by_resource : (resource_id org : String) → Action (List AuditLog)
unfolding filter
find_by_resource resource_id org =
    gets (λ w. filter (λ (a : AuditLog). a.resource_id == resource_id && of_org org a) w.audit_log)
