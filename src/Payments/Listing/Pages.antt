-- ===== src/Payments/Listing/Pages.antt =====
-- What a caller sees of the table of payments: their own organization's, page by page.
use mathlib.Core.List.{map-append}
use native.Mathlib.Nat.{lt-div-mul-add}
use pasarelapagos_backend.Prelude.{
  ℕ, zero, suc, ◌+◌, ◌-◌, ◌*◌, ◌≤◌, ◌<◌, String, true, false, some, List, [], ◌∷◌, ◌++◌, map,
  String_eq, ◌<>◌, ◌≡◌, refl, sym, ap, ◌∙◌, inl, inr, arith, find, filter, length, take, take_all,
  drop, ltb, All, All-map, All-filter, Bool-cases, Option-cases, eq_iff, find-none_iff, find-true,
  ◌⊎◌,
}
use pasarelapagos_backend.Errors.{Result, ok, err, not_found}
use pasarelapagos_backend.Context.{OrgContext}
use pasarelapagos_backend.World.{World, Payment, PaymentEvent}
use pasarelapagos_backend.Payments.Create.{PaymentView, serialize}
use pasarelapagos_backend.Payments.Refund.{owned_by}
use pasarelapagos_backend.Payments.Listing.{
  ListPaymentsDto, PaymentDetail, listed, insert_desc, sort_desc, ceil_div, matching, is_event_of,
  find_all, find_one,
}

module _ {ℓ} {A : Type ℓ} where
  take_empty : (n : ℕ) → Path (List A) (take n []) []
  take_empty zero = refl
  take_empty (suc n) = refl

  take-drop_add : (n m : ℕ) (xs : List A) → take (n + m) xs ≡ take n xs ++ take m (drop n xs)
  take-drop_add zero m xs = let z : 0 + m ≡ m = omega arith in rw z refl
  take-drop_add (suc n) m [] =
      let z : suc n + m ≡ suc (n + m) = omega arith in rw z (sym (take_empty m))
  take-drop_add (suc n) m (x ∷ xs) =
      let z : suc n + m ≡ suc (n + m) = omega arith in
      rw z (ap (λ ys. x ∷ ys) (take-drop_add n m xs))

length-insert_desc : (p : Payment) (ps : List Payment) → length (insert_desc p ps) ≡ suc (length ps)
unfolding insert_desc
length-insert_desc p [] = refl
length-insert_desc p (q ∷ qs) = let rest = length-insert_desc p qs in ground arith

length-sort_desc : (ps : List Payment) → length (sort_desc ps) ≡ length ps
unfolding sort_desc
length-sort_desc [] = refl
length-sort_desc (p ∷ ps) = length-insert_desc p (sort_desc ps) ∙ ap suc (length-sort_desc ps)

module _ {κ} (P : Payment → Type κ) where
  pub All-insert_desc :
      (p : Payment) (ps : List Payment) → P p → All P ps → All P (insert_desc p ps)
  unfolding insert_desc
  All-insert_desc p [] k h = (k, tt)
  All-insert_desc p (q ∷ qs) k (l, h) = elim (Bool-cases (ltb p.created_at q.created_at)) [
    | inl e ↦ rw e (l, All-insert_desc p qs k h)
    | inr e ↦ rw e (k, (l, h))
  ]

  pub All-sort_desc : (ps : List Payment) → All P ps → All P (sort_desc ps)
  unfolding sort_desc
  All-sort_desc [] h = tt
  All-sort_desc (p ∷ ps) (k, h) = All-insert_desc p (sort_desc ps) k (All-sort_desc ps h)

-- Newest first.
pub IsSorted : List Payment → Type 0
IsSorted [] = Unit
IsSorted (p ∷ ps) = All (λ q. q.created_at ≤ p.created_at) ps × IsSorted ps

insert_desc-IsSorted : (p : Payment) (ps : List Payment) → IsSorted ps → IsSorted (insert_desc p ps)
unfolding insert_desc IsSorted
insert_desc-IsSorted p [] s = (tt, tt)
insert_desc-IsSorted p (q ∷ qs) (h, s) = elim (Bool-cases (ltb p.created_at q.created_at)) [
  | inl e ↦ rw e (
    All-insert_desc (λ r. r.created_at ≤ q.created_at) p qs (ground arith) h,
    insert_desc-IsSorted p qs s,
  )
  | inr e ↦ rw e (((ground arith, All-map (λ r k. ground arith) qs h), (h, s)))
]

sort_desc-IsSorted : (ps : List Payment) → IsSorted (sort_desc ps)
unfolding sort_desc IsSorted
sort_desc-IsSorted [] = tt
sort_desc-IsSorted (p ∷ ps) = insert_desc-IsSorted p (sort_desc ps) (sort_desc-IsSorted ps)

module _ (ctx : OrgContext) (query : ListPaymentsDto) (w : World) where
  -- The rows of a listing are all of the caller's organization, with the status that was asked for,
  -- the newest first.
  pub matching-listed :
      All (λ p. p.organization_id ≡ ctx.organization_id) (matching ctx query w)
      × IsSorted (matching ctx query w)
  unfolding matching
  matching-listed = (
    All-sort_desc (λ p. p.organization_id ≡ ctx.organization_id)
        (filter (listed ctx.organization_id query.status) w.payments)
        (All-map (λ p (m, t). owned p t)
          (filter (listed ctx.organization_id query.status) w.payments)
          (All-filter (listed ctx.organization_id query.status) w.payments)),
    sort_desc-IsSorted (filter (listed ctx.organization_id query.status) w.payments),
  )
    where
      owned :
          (p : Payment)
          → listed ctx.organization_id query.status p ≡ true
          → p.organization_id ≡ ctx.organization_id
      owned p t = let yes_org = eq_iff p.organization_id ctx.organization_id in ground arith

  abbrev pub page_of : (limit n : ℕ) → ListPaymentsDto
  page_of limit n = record query { page = some n; limit = some limit }

  -- The items of the first `n` pages, one page after another.
  pub first_pages : (limit n : ℕ) → List PaymentView
  first_pages limit zero = []
  first_pages limit (suc n) = first_pages limit n ++ (find_all ctx (page_of limit (suc n)) w).items

  first_pages_lem :
      (limit n : ℕ) → first_pages limit n ≡ map serialize (take (n * limit) (matching ctx query w))
  unfolding first_pages find_all matching
  first_pages_lem limit zero = let z : 0 * limit ≡ 0 = omega arith in rw z refl
  first_pages_lem limit (suc n) =
      let rows = matching ctx query w in
      let z : suc n * limit ≡ n * limit + limit = omega arith in
      let o : suc n - 1 ≡ n = omega arith in
      rw (z, o, first_pages_lem limit n, take-drop_add (n * limit) limit rows)
        (sym (map-append serialize (take (n * limit) rows) (take limit (drop (n * limit) rows))))

  -- The pages that the answer counts, one after another, are the whole listing in the order of the model.
  pub first_pages_whole :
      (limit : ℕ)
      → 0 < limit
      → first_pages limit (find_all ctx (page_of limit 1) w).meta.pages
        ≡ map serialize (matching ctx query w)
  unfolding find_all matching
  first_pages_whole limit positive =
      let kept = filter (listed ctx.organization_id query.status) w.payments in
      let total = length kept in
      let long = lt-div-mul-add {a = total + (limit - 1)} {b = limit} positive in
      let enough : total ≤ ceil_div total limit * limit = omega arith in
      let size = length-sort_desc kept in
      first_pages_lem limit (ceil_div total limit)
      ∙ ap (map serialize)
          (take_all (ceil_div total limit * limit) (sort_desc kept) (rw size enough))

-- What the detail of a payment is.
pub record IsDetail (id : String) (ctx : OrgContext) (d : PaymentDetail) (p : Payment)
    : Type 0 where
  pub same : p.id ≡ id
  pub owned : p.organization_id ≡ ctx.organization_id
  pub view : d.view ≡ serialize p
  pub events : All (λ (e : PaymentEvent). e.payment_id ≡ id) d.events

-- A payment of another organization cannot be told from one that does not exist: the answer is
-- `not_found`, whatever the table holds of the others. An answer is a payment of the caller's
-- organization, with the id that was asked for and events of that payment only. Nothing changes.
pub find_one-isolated :
    (id : String) (ctx : OrgContext) (w w' : World) (r : Result PaymentDetail)
    → find_one id ctx w ≡ (r, w')
    → (w' ≡ w)
      × ((All (λ p. owned_by id ctx.organization_id p ≡ false) w.payments
            × (r ≡ err (not_found ("Payment " <> id <> " no encontrado"))))
          ⊎ ((p : Payment) × (d : PaymentDetail) × (r ≡ ok d) × IsDetail id ctx d p))
unfolding find_one
find_one-isolated id ctx w w' r e =
    let mine = owned_by id ctx.organization_id in
    elim (Option-cases (find mine w.payments)) [
      | inl missing ↦ (ground arith, inl ((find-none_iff mine w.payments).0 missing, ground arith))
      | inr (p, found) ↦
          let both = find-true mine w.payments found in
          let by_id = eq_iff p.id id in
          let by_org = eq_iff p.organization_id ctx.organization_id in
          let same : p.id ≡ id = ground arith in
          let events = filter (is_event_of p.id) w.events in
          (
            ground arith,
            inr (
              p,
              record { view = serialize p; events = events },
              ground arith,
              record {
                same = same;
                owned = ground arith;
                view = refl;
                events =
                    All-map (λ ev (m, t). (eq_iff ev.payment_id p.id).0 t ∙ same) events
                      (All-filter (is_event_of p.id) w.events);
              },
            ),
          )
    ]
