-- ===== src/Server/Ledger.antt =====
-- The ledger that the payments of the server promise to be: what is known of each payment by its id, and
-- how it may change. The order of the rows, their other columns and all other tables are forgotten.
pub mod Rows
use pasarelapagos_backend.Prelude.{
  ℕ, suc, String, Option, none, some, List, ◌≡◌, ◌==◌, String_eq, find, if◌then◌else◌,
}
use pasarelapagos_backend.World.{Payment, has_id}
use pasarelapagos_backend.Payments.Machine.{PaymentStatus, pending}
use pasarelapagos_backend.Payments.Machine.Diagram.{◌⟶◌, Step}

pub record Entry : Type 0 where
  pub organization_id : String
  pub amount_minor : ℕ
  pub currency : String
  pub status : PaymentStatus

abbrev pub Ledger : Type 0
Ledger = String → Option Entry

-- One step of the specification.
pub data LedgerStep (before after : Ledger) : Type 0 where
  -- nothing changes
  idle : ((id : String) → after id ≡ before id) → LedgerStep before after
  -- a payment is opened under a new id, pending or one edge of the diagram further
  opened :
      (new : String) (e : Entry)
      → before new ≡ none
      → Step pending e.status
      → ((id : String) → after id ≡ (if id == new then some e else before id))
      → LedgerStep before after
  -- the status of one payment takes one edge of the diagram
  moved :
      (one : String) (e : Entry) (s : PaymentStatus)
      → before one ≡ some e
      → e.status ⟶ s
      → ((id : String)
          → after id ≡ (if id == one then some (record e { status = s }) else before id))
      → LedgerStep before after

-- A number of steps, one after another.
pub data LedgerRun (last : Ledger) : ℕ → Ledger → Type 0 where
  done : LedgerRun last 0 last
  next :
      {n : ℕ} {first second : Ledger}
      → LedgerStep first second
      → LedgerRun last n second
      → LedgerRun last (suc n) first

abbrev pub entry_of : Payment → Entry
entry_of p = record {
  organization_id = p.organization_id;
  amount_minor = p.amount_minor;
  currency = p.currency;
  status = p.status;
}

abbrev pub entry_of_found : Option Payment → Option Entry
entry_of_found none = none
entry_of_found (some p) = some (entry_of p)

-- The ledger of a table of payments.
unfoldable pub ledger : List Payment → Ledger
ledger ps id = entry_of_found (find (has_id id) ps)
