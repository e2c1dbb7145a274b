-- ===== src/World/Rows/Lookup.antt =====
-- What a lookup in the table of payments finds after an insertion or an update.
use pasarelapagos_backend.Prelude.{
  Bool, false, some, List, [], ◌∷◌, ◌++◌, ◌≡◌, refl, inl, inr, arith, ◌==◌, String_eq, eq_iff,
  eq_refl, find, any, Bool-cases,
}
use pasarelapagos_backend.World.Tables.{Payment}
use pasarelapagos_backend.World.Queries.{clashes, update_row, has_id}
use pasarelapagos_backend.World.Rows.{AreDistinct, IsNeutral, find-apart}

-- A row that was found by any test is the one that its id finds.
pub find-has_id :
    (t : Payment → Bool) (p : Payment) (ps : List Payment)
    → AreDistinct ps
    → find t ps ≡ some p
    → find (has_id p.id) ps ≡ some p
unfolding find
find-has_id t p [] d e = cc
find-has_id t p (q ∷ qs) (a, d) e = elim (Bool-cases (t q)) [
  | inl yes_q ↦
      let same : some q ≡ some p = rw yes_q at e in let eq : p ≡ q = cc in rw eq (rw (eq_refl q.id))
  | inr no_q ↦
      let later : find t qs ≡ some p = rw no_q at e in
      rw (find-apart t q qs a later) (find-has_id t p qs d later)
]

-- The row that was added last is the one that its id finds and updates.
module _ (p : Payment) where
  pub find-append_new :
      (ps : List Payment) → any (clashes p) ps ≡ false → find (has_id p.id) (ps ++ p ∷ []) ≡ some p
  unfolding find any
  find-append_new [] h = rw (eq_refl p.id)
  find-append_new (q ∷ qs) h =
      let apart : (q.id == p.id) ≡ false = ground (arith, eq_iff p.id q.id, eq_iff q.id p.id) in
      let later : any (clashes p) qs ≡ false = ground arith in rw apart (find-append_new qs later)

  pub update_row-append_new :
      (f : Payment → Payment) (ps : List Payment)
      → any (clashes p) ps ≡ false
      → update_row p.id f (ps ++ p ∷ []) ≡ ps ++ f p ∷ []
  unfolding update_row any
  update_row-append_new f [] h = rw (eq_refl p.id)
  update_row-append_new f (q ∷ qs) h =
      let apart : (q.id == p.id) ≡ false = ground (arith, eq_iff p.id q.id, eq_iff q.id p.id) in
      let later : any (clashes p) qs ≡ false = ground arith in
      rw apart (rw (update_row-append_new f qs later))

  pub clashes-neutral :
      (f : Payment → Payment) (ps : List Payment)
      → IsNeutral f
      → any (clashes p) ps ≡ false
      → any (clashes (f p)) ps ≡ false
  unfolding any
  clashes-neutral f [] n h = refl
  clashes-neutral f (q ∷ qs) n h =
      let later : any (clashes p) qs ≡ false = ground arith in
      let apart : clashes p q ≡ false = ground arith in
      rw ((n p q).0, apart) (clashes-neutral f qs n later)

-- After the update of a row that was found by a test which the update does not change, the test
-- finds the updated row.
pub find-update_row :
    (t : Payment → Bool) (f : Payment → Payment) (p : Payment) (ps : List Payment)
    → ((q : Payment) → t (f q) ≡ t q)
    → AreDistinct ps
    → find t ps ≡ some p
    → find t (update_row p.id f ps) ≡ some (f p)
unfolding find update_row
find-update_row t f p [] n d e = cc
find-update_row t f p (q ∷ qs) n (a, d) e = elim (Bool-cases (t q)) [
  | inl yes_q ↦
      let same : some q ≡ some p = rw yes_q at e in
      let eq : p ≡ q = cc in rw eq (rw (eq_refl q.id) (rw (n q, yes_q)))
  | inr no_q ↦
      let later : find t qs ≡ some p = rw no_q at e in
      rw (find-apart t q qs a later, no_q) (find-update_row t f p qs n d later)
]
