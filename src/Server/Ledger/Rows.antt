-- ===== src/Server/Ledger/Rows.antt =====
-- The ledger of a table after a row was added or had its status set.
use pasarelapagos_backend.Prelude.{
  String, Bool, false, none, some, List, [], ◌∷◌, ◌++◌, ◌≡◌, refl, inl, inr, arith, ◌==◌, String_eq,
  eq_iff, find, any, Bool-cases, ◌∙◌, if◌then◌else◌,
}
use pasarelapagos_backend.World.{Payment, clashes, update_row, has_id, set_status}
use pasarelapagos_backend.World.Rows.{AreDistinct}
use pasarelapagos_backend.World.Rows.Lookup.{find-has_id, find-update_row, find-append_new}
use pasarelapagos_backend.Payments.Machine.{PaymentStatus, pending}
use pasarelapagos_backend.Payments.Machine.Diagram.{Step}
use pasarelapagos_backend.Server.Ledger.{LedgerStep, idle, opened, moved, entry_of, ledger}

-- What a happening may do to the rows.
pub data RowStep (ps qs : List Payment) : Type 0 where
  same : qs ≡ ps → RowStep ps qs
  added :
      (p : Payment)
      → any (clashes p) ps ≡ false
      → Step pending p.status
      → qs ≡ ps ++ p ∷ []
      → RowStep ps qs
  changed :
      (t : Payment → Bool) (p : Payment) (s : PaymentStatus)
      → find t ps ≡ some p
      → Step p.status s
      → qs ≡ update_row p.id (set_status s) ps
      → RowStep ps qs

fresh_id :
    (p : Payment) (ps : List Payment) → any (clashes p) ps ≡ false → find (has_id p.id) ps ≡ none
unfolding find any
fresh_id p [] h = refl
fresh_id p (q ∷ qs) h =
    let apart : (q.id == p.id) ≡ false = ground (arith, eq_iff p.id q.id, eq_iff q.id p.id) in
    let later : any (clashes p) qs ≡ false = ground arith in rw apart (fresh_id p qs later)

append_other :
    (id : String) (p : Payment) (ps : List Payment)
    → (id == p.id) ≡ false
    → find (has_id id) (ps ++ p ∷ []) ≡ find (has_id id) ps
unfolding find
append_other id p [] h =
    let apart : (p.id == id) ≡ false = ground (arith, eq_iff p.id id, eq_iff id p.id) in
    rw apart refl
append_other id p (q ∷ qs) h = elim (Bool-cases (q.id == id)) [
  | inl here ↦ rw here refl
  | inr other ↦ rw other (append_other id p qs h)
]

update_other :
    (id one : String) (f : Payment → Payment) (ps : List Payment)
    → ((p : Payment) → (f p).id ≡ p.id)
    → (id == one) ≡ false
    → find (has_id id) (update_row one f ps) ≡ find (has_id id) ps
unfolding find update_row
update_other id one f [] n h = refl
update_other id one f (q ∷ qs) n h = elim (Bool-cases (q.id == one)) [
  | inl there ↦
      let apart : (q.id == id) ≡ false =
        ground (arith, eq_iff q.id one, eq_iff q.id id, eq_iff id one) in
      rw (there, n q, apart) refl
  | inr other ↦ elim (Bool-cases (q.id == id)) [
    | inl here ↦ rw (other, here) refl
    | inr not_here ↦ rw (other, not_here) (update_other id one f qs n h)
  ]
]

-- What the ledger of a table says after the status of a row that was found was set.
after_update :
    (t : Payment → Bool) (p : Payment) (s : PaymentStatus) (ps : List Payment)
    → AreDistinct ps
    → find t ps ≡ some p
    → (id : String)
    → ledger (update_row p.id (set_status s) ps) id
      ≡ (if id == p.id then some (record (entry_of p) { status = s }) else ledger ps id)
unfolding ledger
after_update t p s ps d found id = elim (Bool-cases (id == p.id)) [
  | inl it ↦
      let eq : id ≡ p.id = (eq_iff id p.id).0 it in
      let by_id = find-has_id t p ps d found in
      rw it (rw (eq, find-update_row (has_id p.id) (set_status s) p ps (λ q. refl) d by_id) refl)
  | inr other ↦ rw (other, update_other id p.id (set_status s) ps (λ q. refl) other) refl
]

after_append :
    (p : Payment) (ps : List Payment)
    → any (clashes p) ps ≡ false
    → (id : String)
    → ledger (ps ++ p ∷ []) id ≡ (if id == p.id then some (entry_of p) else ledger ps id)
unfolding ledger
after_append p ps fresh id = elim (Bool-cases (id == p.id)) [
  | inl it ↦
      let eq : id ≡ p.id = (eq_iff id p.id).0 it in rw it (rw (eq, find-append_new p ps fresh) refl)
  | inr other ↦ rw (other, append_other id p ps other) refl
]

unmoved :
    (p : Payment) (ps : List Payment)
    → find (has_id p.id) ps ≡ some p
    → (id : String) → (if id == p.id then some (entry_of p) else ledger ps id) ≡ ledger ps id
unfolding ledger
unmoved p ps found id = elim (Bool-cases (id == p.id)) [
  | inl it ↦ let eq : id ≡ p.id = (eq_iff id p.id).0 it in rw it (rw (eq, found) refl)
  | inr other ↦ rw other refl
]

-- A step of the rows is one of the ledger.
pub RowStep-LedgerStep :
    (ps qs : List Payment) → AreDistinct ps → RowStep ps qs → LedgerStep (ledger ps) (ledger qs)
RowStep-LedgerStep ps qs d (same e) = idle (λ id. rw e refl)
RowStep-LedgerStep ps qs d (added p fresh first rows) =
    opened p.id (entry_of p) (unfold ledger in rw (fresh_id p ps fresh) refl) first
      (λ id. rw rows (after_append p ps fresh id))
RowStep-LedgerStep ps qs d (changed t p s found (inl stays) rows) = idle (λ id. rw rows (
    after_update t p s ps d found id ∙ rw (← stays) (unmoved p ps (find-has_id t p ps d found) id)))
RowStep-LedgerStep ps qs d (changed t p s found (inr edge) rows) =
    moved p.id (entry_of p) s (unfold ledger in rw (find-has_id t p ps d found) refl) edge
      (λ id. rw rows (after_update t p s ps d found id))
