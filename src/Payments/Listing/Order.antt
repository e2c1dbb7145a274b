-- ===== src/Payments/Listing/Order.antt =====
-- The order of a listing, which the database is free to choose where two rows have one time.
use mathlib.Core.List.{Memᴰ}
use pasarelapagos_backend.Prelude.{
  ℕ, ◌<◌, false, List, [], ◌∷◌, map, ◌≡◌, ◌≢◌, ◌↔◌, refl, sym, ap, ◌∙◌, inl, inr, arith, filter,
  ltb, All, All-map, Bool-cases, String_eq,
}
use pasarelapagos_backend.Context.{OrgContext}
use pasarelapagos_backend.World.{World, Payment}
use pasarelapagos_backend.Payments.Create.{serialize}
use pasarelapagos_backend.Payments.Listing.{
  ListPaymentsDto, insert_desc, sort_desc, listed, matching, find_all,
}
use pasarelapagos_backend.Payments.Listing.Pages.{
  All-insert_desc, All-sort_desc, page_of, first_pages, first_pages_whole,
}

-- Each row is newer than all that follow.
abbrev pub IsNewestFirst : List Payment → Type 0
IsNewestFirst [] = Unit
IsNewestFirst (p ∷ ps) = All (λ q. q.created_at < p.created_at) ps × IsNewestFirst ps

-- No two rows have one time.
abbrev pub TimesAreDistinct : List Payment → Type 0
TimesAreDistinct [] = Unit
TimesAreDistinct (p ∷ ps) = All (λ q. q.created_at ≢ p.created_at) ps × TimesAreDistinct ps

insert_desc-IsNewestFirst :
    (p : Payment) (ps : List Payment)
    → All (λ q. q.created_at ≢ p.created_at) ps
    → IsNewestFirst ps
    → IsNewestFirst (insert_desc p ps)
unfolding insert_desc
insert_desc-IsNewestFirst p [] apart s = (tt, tt)
insert_desc-IsNewestFirst p (q ∷ qs) (ne, apart) (h, s) =
    elim (Bool-cases (ltb p.created_at q.created_at)) [
      | inl e ↦ rw e (
        All-insert_desc (λ r. r.created_at < q.created_at) p qs (ground arith) h,
        insert_desc-IsNewestFirst p qs apart s,
      )
      | inr e ↦
          let older : q.created_at < p.created_at = newer p q ne e in
          rw e ((older, All-map (λ r k. omega (arith, k, older)) qs h), (h, s))
    ]
  where
    newer :
        (p q : Payment)
        → q.created_at ≢ p.created_at
        → ltb p.created_at q.created_at ≡ false
        → q.created_at < p.created_at
    newer p q ne e = ground arith

sort_desc-IsNewestFirst : (ps : List Payment) → TimesAreDistinct ps → IsNewestFirst (sort_desc ps)
unfolding sort_desc
sort_desc-IsNewestFirst [] d = tt
sort_desc-IsNewestFirst (p ∷ ps) (a, d) =
    insert_desc-IsNewestFirst p (sort_desc ps)
      (All-sort_desc (λ q. q.created_at ≢ p.created_at) ps a) (sort_desc-IsNewestFirst ps d)

module _ (P : Payment → Type 0) where
  All-of : (ps : List Payment) (q : Payment) → All P ps → Memᴰ q ps → P q
  All-of [] q h m = elim m [ ]
  All-of (p ∷ ps) q (k, h) (Memᴰ.head e) = rw e k
  All-of (p ∷ ps) q (k, h) (Memᴰ.tail m) = All-of ps q h m

  All-members : (ps : List Payment) → ((q : Payment) → Memᴰ q ps → P q) → All P ps
  All-members [] f = tt
  All-members (p ∷ ps) f = (f p (Memᴰ.head refl), All-members ps (λ q m. f q (Memᴰ.tail m)))

-- The same rows, sorted, are the same rows as those.
sort_desc-mem : (ps : List Payment) (p : Payment) → Memᴰ p (sort_desc ps) → Memᴰ p ps
sort_desc-mem ps p m =
    All-of (λ q. Memᴰ q ps) (sort_desc ps) p
      (All-sort_desc (λ q. Memᴰ q ps) ps (All-members (λ q. Memᴰ q ps) ps (λ q m. m))) m

insert_desc-here : (p : Payment) (ps : List Payment) → Memᴰ p (insert_desc p ps)
unfolding insert_desc
insert_desc-here p [] = Memᴰ.head refl
insert_desc-here p (q ∷ qs) = elim (Bool-cases (ltb p.created_at q.created_at)) [
  | inl e ↦ rw e (Memᴰ.tail (insert_desc-here p qs))
  | inr e ↦ rw e (Memᴰ.head refl)
]

insert_desc-there : (p r : Payment) (ps : List Payment) → Memᴰ r ps → Memᴰ r (insert_desc p ps)
unfolding insert_desc
insert_desc-there p r [] m = elim m [ ]
insert_desc-there p r (q ∷ qs) (Memᴰ.head h) = elim (Bool-cases (ltb p.created_at q.created_at)) [
  | inr e ↦ rw e (Memᴰ.tail (Memᴰ.head h))
  | inl e ↦ rw e (Memᴰ.head h)
]
insert_desc-there p r (q ∷ qs) (Memᴰ.tail m) = elim (Bool-cases (ltb p.created_at q.created_at)) [
  | inr e ↦ rw e (Memᴰ.tail (Memᴰ.tail m))
  | inl e ↦ rw e (Memᴰ.tail (insert_desc-there p r qs m))
]

mem-sort_desc : (ps : List Payment) (p : Payment) → Memᴰ p ps → Memᴰ p (sort_desc ps)
unfolding sort_desc
mem-sort_desc [] p m = elim m [ ]
mem-sort_desc (q ∷ qs) p (Memᴰ.head e) = rw e (insert_desc-here q (sort_desc qs))
mem-sort_desc (q ∷ qs) p (Memᴰ.tail m) = insert_desc-there q p (sort_desc qs) (mem-sort_desc qs p m)

-- There is one order, the newest first, of rows that have it strictly.
newest_first_is_one :
    (ps qs : List Payment)
    → IsNewestFirst ps
    → IsNewestFirst qs
    → ((r : Payment) → Memᴰ r ps ↔ Memᴰ r qs)
    → ps ≡ qs
newest_first_is_one [] [] s t h = refl
newest_first_is_one [] (q ∷ qs) s t h = elim ((h q).1 (Memᴰ.head refl)) [ ]
newest_first_is_one (p ∷ ps) [] s t h = elim ((h p).0 (Memᴰ.head refl)) [ ]
newest_first_is_one (p ∷ ps) (q ∷ qs) (a, s) (b, t) h =
    let first : p ≡ q = heads ((h p).0 (Memᴰ.head refl)) ((h q).1 (Memᴰ.head refl)) in
    let rest = newest_first_is_one ps qs s t (λ r. (
      λ m.
          tail_of r first (All-of (λ z. z.created_at < p.created_at) ps r a m)
            ((h r).0 (Memᴰ.tail m)),
      λ m.
          tail_back r first (All-of (λ z. z.created_at < q.created_at) qs r b m)
            ((h r).1 (Memᴰ.tail m)),
    )) in
    ground (arith, first, rest)
  where
    heads : Memᴰ p (q ∷ qs) → Memᴰ q (p ∷ ps) → p ≡ q
    heads (Memᴰ.head e) n = e
    heads (Memᴰ.tail m) (Memᴰ.head e) = sym e
    heads (Memᴰ.tail m) (Memᴰ.tail n) =
        let older = All-of (λ z. z.created_at < q.created_at) qs p b m in
        let newer = All-of (λ z. z.created_at < p.created_at) ps q a n in
        absurd (omega (arith, older, newer))

    tail_of : (r : Payment) → p ≡ q → r.created_at < p.created_at → Memᴰ r (q ∷ qs) → Memᴰ r qs
    tail_of r first older (Memᴰ.tail m) = m
    tail_of r first older (Memᴰ.head e) =
        let same : r.created_at ≡ p.created_at =
          ap (λ (z : Payment). z.created_at) (e ∙ sym first) in
        absurd (omega (arith, older, same))

    tail_back : (r : Payment) → p ≡ q → r.created_at < q.created_at → Memᴰ r (p ∷ ps) → Memᴰ r ps
    tail_back r first older (Memᴰ.tail m) = m
    tail_back r first older (Memᴰ.head e) =
        let same : r.created_at ≡ q.created_at = ap (λ (z : Payment). z.created_at) (e ∙ first) in
        absurd (omega (arith, older, same))

module _ (ctx : OrgContext) (query : ListPaymentsDto) (w : World) where
  -- If no two rows of a listing have one time, the pages that the answer counts, one after another, are
  -- the rows that match, each once, in the only order that has the newest first.
  pub find_all-pages :
      (limit : ℕ) (rows : List Payment)
      → 0 < limit
      → TimesAreDistinct (filter (listed ctx.organization_id query.status) w.payments)
      → IsNewestFirst rows
      → ((p : Payment)
          → Memᴰ p rows ↔ Memᴰ p (filter (listed ctx.organization_id query.status) w.payments))
      → first_pages ctx query w limit (find_all ctx (page_of ctx query w limit 1) w).meta.pages
        ≡ map serialize rows
  unfolding matching
  find_all-pages limit rows positive apart newest same =
      let kept = filter (listed ctx.organization_id query.status) w.payments in
      let one =
        newest_first_is_one (sort_desc kept) rows (sort_desc-IsNewestFirst kept apart) newest (λ p.
          (λ m. (same p).1 (sort_desc-mem kept p m), λ m. mem-sort_desc kept p ((same p).0 m))) in
      first_pages_whole ctx query w limit positive ∙ ap (map serialize) one
