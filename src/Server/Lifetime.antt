-- ===== src/Server/Lifetime.antt =====
-- How often the status of one payment changes.
use pasarelapagos_backend.Prelude.{
  ℕ, ◌+◌, ◌≤◌, String, false, Option, none, some, List, [], ◌∷◌, ◌≡◌, refl, inl, inr, arith, find,
  ◌==◌, Bool-cases, if◌then◌else◌,
}
use pasarelapagos_backend.Context.{Env}
use pasarelapagos_backend.World.{World, Payment, has_id}
use pasarelapagos_backend.World.Rows.{AreDistinct}
use pasarelapagos_backend.Payments.Machine.{PaymentStatus, PaymentStatus_eq, status_eq_iff}
use pasarelapagos_backend.Payments.Machine.Diagram.{◌⟶*◌, here, next, rank, rank-le, rank-lt}
use pasarelapagos_backend.Server.{Happening, step}
use pasarelapagos_backend.Server.History.{find-Evolves, step-Advances}

-- 1 if there are two rows, with two statuses.
abbrev differ : Option Payment → Option Payment → ℕ
differ none o = 0
differ (some p) none = 0
differ (some p) (some q) = if p.status == q.status then 0 else 1

module _ (env : Env) (id : String) where
  -- The number of happenings that change the status of the payment.
  unfoldable pub changes : List Happening → World → ℕ
  unfolding find step
  changes [] w = 0
  changes (h ∷ hs) w =
      differ (find (has_id id) w.payments) (find (has_id id) (step env h w).payments)
      + changes hs (step env h w)

rises :
    (p q : Payment)
    → p.status ⟶* q.status
    → differ (some p) (some q) + rank p.status ≤ rank q.status
rises p q h = elim (Bool-cases (p.status == q.status)) [
  | inl stays ↦ rw stays (omega (arith, rank-le h))
  | inr differs ↦ rw differs (go p.status q.status differs h)
]
  where
    go : (s t : PaymentStatus) → (s == t) ≡ false → s ⟶* t → 1 + rank s ≤ rank t
    go s t n here = absurd (cc (n, (status_eq_iff s s).1 refl))
    go s t n (next r e) = omega (arith, rank-le r, rank-lt e)

rank-le_4 : (s : PaymentStatus) → rank s ≤ 4
rank-le_4 s = ground arith

module _ (env : Env) (id : String) where
  counted :
      (hs : List Happening) (w : World) (p : Payment)
      → AreDistinct w.payments
      → find (has_id id) w.payments ≡ some p
      → changes env id hs w + rank p.status ≤ 4
  unfolding changes
  counted [] w p d found = omega (arith, rank-le_4 p.status)
  counted (h ∷ hs) w p d found =
      let w' = step env h w in
      let moved = step-Advances env h w d in
      let (q, found', keeps) = find-Evolves id p w.payments w'.payments moved.evolves found in
      let later = counted hs w' q moved.distinct found' in
      let up = rises p q keeps.status in rw (found, found') (omega (arith, later, up))

  -- Whatever happens to the server and however long, the status of a payment changes four times at most.
  pub changes-le_4 :
      (hs : List Happening) (w : World) (p : Payment)
      → AreDistinct w.payments
      → find (has_id id) w.payments ≡ some p
      → changes env id hs w ≤ 4
  changes-le_4 hs w p d found = omega (arith, counted hs w p d found)
