-- ===== src/World/Rows.antt =====
-- Lemmas on the table of payments: its constraints, updates by primary key, and what an operation
-- may do to the rows that are there.
pub mod Lookup
use pasarelapagos_backend.Prelude.{
  String, Bool, false, some, List, [], ◌∷◌, ◌++◌, ◌≡◌, refl, inl, inr, arith, ◌==◌, String_eq,
  eq_iff, eq_refl, find, any, All, All-map, All-concat, ◌∙◌, Bool-cases,
}
use pasarelapagos_backend.Payments.Machine.{PaymentStatus}
use pasarelapagos_backend.Payments.Machine.Diagram.{◌⟶*◌, here, ⟶*-trans}
use pasarelapagos_backend.World.Tables.{Payment, World}
use pasarelapagos_backend.World.Queries.{clashes, update_row, has_id, set_status}

-- The primary key and the unique index of the table: no two rows clash, in either order.
abbrev pub AreDistinct : List Payment → Type 0
AreDistinct [] = Unit
AreDistinct (p ∷ ps) = All (λ q. clashes q p ≡ false) ps × AreDistinct ps

-- What an operation leaves of a row: all that says whose payment it is, for what and through which
-- provider, and a status that is reached along the diagram.
pub record Keeps (p q : Payment) : Type 0 where
  pub id : q.id ≡ p.id
  pub tenant : q.tenant_id ≡ p.tenant_id
  pub organization : q.organization_id ≡ p.organization_id
  pub key : q.idempotency_key ≡ p.idempotency_key
  pub amount : q.amount_minor ≡ p.amount_minor
  pub currency : q.currency ≡ p.currency
  pub country : q.country ≡ p.country
  pub method : q.method ≡ p.method
  pub provider : q.provider_id ≡ p.provider_id
  pub customer : q.customer_id ≡ p.customer_id
  pub created : q.created_at ≡ p.created_at
  pub external : q.external_id ≡ p.external_id
  pub status : p.status ⟶* q.status

-- Every row that was there is there still, at its place, as `Keeps` says; rows may be added behind.
abbrev pub Evolves : List Payment → List Payment → Type 0
Evolves [] qs = Unit
Evolves (p ∷ ps) [] = ⊥
Evolves (p ∷ ps) (q ∷ qs) = Keeps p q × Evolves ps qs

pub Keeps-refl : (p : Payment) → Keeps p p
Keeps-refl p = record {
  id = refl;
  tenant = refl;
  organization = refl;
  key = refl;
  amount = refl;
  currency = refl;
  country = refl;
  method = refl;
  provider = refl;
  customer = refl;
  created = refl;
  external = refl;
  status = here;
}

pub Keeps-trans : {p q r : Payment} → Keeps p q → Keeps q r → Keeps p r
Keeps-trans a b = record {
  id = cc (a.id, b.id);
  tenant = cc (a.tenant, b.tenant);
  organization = cc (a.organization, b.organization);
  key = cc (a.key, b.key);
  amount = cc (a.amount, b.amount);
  currency = cc (a.currency, b.currency);
  country = cc (a.country, b.country);
  method = cc (a.method, b.method);
  provider = cc (a.provider, b.provider);
  customer = cc (a.customer, b.customer);
  created = cc (a.created, b.created);
  external = cc (a.external, b.external);
  status = ⟶*-trans a.status b.status;
}

pub Evolves-refl : (ps : List Payment) → Evolves ps ps
Evolves-refl [] = tt
Evolves-refl (p ∷ ps) = (Keeps-refl p, Evolves-refl ps)

pub Evolves-trans : (ps qs rs : List Payment) → Evolves ps qs → Evolves qs rs → Evolves ps rs
Evolves-trans [] qs rs h k = tt
Evolves-trans (p ∷ ps) (q ∷ qs) (r ∷ rs) (a, h) (b, k) =
    (Keeps-trans a b, Evolves-trans ps qs rs h k)
Evolves-trans (p ∷ ps) [] rs h k = absurd h
Evolves-trans (p ∷ ps) (q ∷ qs) [] h k = absurd k

pub append-Evolves : (ps qs : List Payment) → Evolves ps (ps ++ qs)
append-Evolves [] qs = tt
append-Evolves (p ∷ ps) qs = (Keeps-refl p, append-Evolves ps qs)

module _ (t : Payment → Bool) {p : Payment} where
  -- A row that is found does not clash with one that clashes with none of the table.
  find-apart :
      (q : Payment) (ps : List Payment)
      → All (λ r. clashes r q ≡ false) ps
      → find t ps ≡ some p
      → (q.id == p.id) ≡ false
  unfolding find
  find-apart q [] h e = cc
  find-apart q (r ∷ rs) (a, h) e = elim (Bool-cases (t r)) [
    | inl yes_r ↦ ground (arith, eq_iff r.id q.id, eq_iff q.id r.id)
    | inr no_r ↦ find-apart q rs h (rw no_r at e)
  ]

  -- In a table that keeps its constraints, the update by the id of a row that was found changes
  -- that row and no other.
  pub update_row-Evolves :
      (f : Payment → Payment) (ps : List Payment)
      → AreDistinct ps
      → find t ps ≡ some p
      → Keeps p (f p)
      → Evolves ps (update_row p.id f ps)
  unfolding find update_row
  update_row-Evolves f [] d e k = cc
  update_row-Evolves f (q ∷ qs) (a, d) e k = elim (Bool-cases (t q)) [
    | inl yes_q ↦
        let same : some q ≡ some p = rw yes_q at e in
        let eq : p ≡ q = cc in rw eq (rw (eq_refl q.id) (rw eq at k, Evolves-refl qs))
    | inr no_q ↦
        let later : find t qs ≡ some p = rw no_q at e in
        rw (find-apart q qs a later) (Keeps-refl q, update_row-Evolves f qs d later k)
  ]

-- A change of a row that the constraints do not read.
abbrev pub IsNeutral : (Payment → Payment) → Type 0
IsNeutral f = (p q : Payment) → (clashes (f p) q ≡ clashes p q) × (clashes q (f p) ≡ clashes q p)

module _ (id : String) (f : Payment → Payment) (n : IsNeutral f) where
  update_row-apart :
      (q : Payment) (ps : List Payment)
      → All (λ r. clashes r q ≡ false) ps
      → All (λ r. clashes r q ≡ false) (update_row id f ps)
  unfolding update_row
  update_row-apart q [] h = tt
  update_row-apart q (p ∷ ps) (a, h) = elim (Bool-cases (p.id == id)) [
    | inl e ↦ rw e ((n p q).0 ∙ a, h)
    | inr e ↦ rw e (a, update_row-apart q ps h)
  ]

  -- A neutral update keeps the constraints.
  pub update_row-AreDistinct :
      (ps : List Payment) → AreDistinct ps → AreDistinct (update_row id f ps)
  unfolding update_row
  update_row-AreDistinct [] d = tt
  update_row-AreDistinct (p ∷ ps) (a, d) = elim (Bool-cases (p.id == id)) [
    | inl e ↦ rw e (All-map (λ r h. (n p r).1 ∙ h) ps a, d)
    | inr e ↦ rw e (update_row-apart p ps a, update_row-AreDistinct ps d)
  ]

-- A row that clashes with none may be added.
pub append-AreDistinct :
    (p : Payment) (ps : List Payment)
    → any (clashes p) ps ≡ false
    → AreDistinct ps
    → AreDistinct (ps ++ p ∷ [])
unfolding any
append-AreDistinct p [] h d = (tt, tt)
append-AreDistinct p (q ∷ qs) h (a, d) =
    let apart : clashes p q ≡ false = ground arith in
    let later : any (clashes p) qs ≡ false = ground arith in
    (All-concat (λ r. clashes r q ≡ false) qs a apart, append-AreDistinct p qs later d)

-- What an operation may do to the table: the constraints hold, and every row is kept.
pub record Advances (ps qs : List Payment) : Type 0 where
  pub distinct : AreDistinct qs
  pub evolves : Evolves ps qs

pub Advances-refl : (ps : List Payment) → AreDistinct ps → Advances ps ps
Advances-refl ps d = record { distinct = d; evolves = Evolves-refl ps }

pub Advances-trans : {ps qs rs : List Payment} → Advances ps qs → Advances qs rs → Advances ps rs
Advances-trans {ps} {qs} {rs} a b = record {
  distinct = b.distinct;
  evolves = Evolves-trans ps qs rs a.evolves b.evolves;
}

pub append-Advances :
    (p : Payment) (ps : List Payment)
    → AreDistinct ps
    → any (clashes p) ps ≡ false
    → Advances ps (ps ++ p ∷ [])
append-Advances p ps d h = record {
  distinct = append-AreDistinct p ps h d;
  evolves = append-Evolves ps (p ∷ []);
}

pub update_row-Advances :
    (t : Payment → Bool) (f : Payment → Payment) (p : Payment) (ps : List Payment)
    → IsNeutral f
    → AreDistinct ps
    → find t ps ≡ some p
    → Keeps p (f p)
    → Advances ps (update_row p.id f ps)
update_row-Advances t f p ps n d e k = record {
  distinct = update_row-AreDistinct p.id f n ps d;
  evolves = update_row-Evolves t f ps d e k;
}

-- A status that is reached is all that `set_status` changes.
pub set_status-Keeps : (s : PaymentStatus) (p : Payment) → p.status ⟶* s → Keeps p (set_status s p)
set_status-Keeps s p h = record {
  id = refl;
  tenant = refl;
  organization = refl;
  key = refl;
  amount = refl;
  currency = refl;
  country = refl;
  method = refl;
  provider = refl;
  customer = refl;
  created = refl;
  external = refl;
  status = h;
}

-- Nothing was written to a table.
pub record HasSameTables (w w' : World) : Type 0 where
  pub payments : w'.payments ≡ w.payments
  pub events : w'.events ≡ w.events
  pub refunds : w'.refunds ≡ w.refunds
  pub customers : w'.customers ≡ w.customers
  pub inbounds : w'.inbounds ≡ w.inbounds
  pub tenants : w'.tenants ≡ w.tenants
  pub api_keys : w'.api_keys ≡ w.api_keys
  pub audit_log : w'.audit_log ≡ w.audit_log
