-- ===== src/Server/Settling.antt =====
-- The reconciliation ends the wait of a payment whose provider knows the answer.
use mathlib.Core.List.{Memᴰ}
use pasarelapagos_backend.Prelude.{
  ◌≤◌, String, false, some, List, [], ◌∷◌, ◌++◌, ◌≡◌, ◌≢◌, refl, inl, inr, arith, find, filter,
  take, take_all, length, map, truthy, Bool, true, Option, ◌==◌, Bool-cases, ap, ◌∙◌, sym,
}
use pasarelapagos_backend.Errors.{ok}
use pasarelapagos_backend.Context.{Env}
use pasarelapagos_backend.Providers.{PaymentProvider, ProviderChargeResult}
use pasarelapagos_backend.Providers.Registry
use pasarelapagos_backend.World.{World, Payment, has_id, set_status, update_row, update_payment}
use pasarelapagos_backend.World.Rows.{AreDistinct}
use pasarelapagos_backend.World.Rows.Lookup.{find-has_id, find-update_row}
use pasarelapagos_backend.Payments.Machine.{
  PaymentStatus, PaymentStatus_eq, status_eq_iff, assert_valid_transition, pending, authorized,
  captured, failed, cancelled, refunded, partially_refunded,
}
use pasarelapagos_backend.Payments.Machine.Diagram.{
  ◌⟶◌, ◌⟶*◌, rank, rank-le, rank-lt, assert_valid_transition_iff,
}
use pasarelapagos_backend.Payments.Reconciliation as Reconciliation
use pasarelapagos_backend.Payments.Reconciliation.{
  mapped_status, is_stale, schedule_pending, reconcile_one, reconcile_found, apply_status,
  store_status,
}
use pasarelapagos_backend.Server.{Happening, reconcile_tick, reconcile_job, step, run}
use pasarelapagos_backend.Server.History.{find-Evolves, run-Advances, step-Advances}

-- Nothing leads back to PENDING.
pending_is_first : {s : PaymentStatus} → s ⟶* pending → s ≡ pending
pending_is_first {s} h = at_bottom s (rank-le h)
  where
    at_bottom : (s : PaymentStatus) → rank s ≤ 0 → s ≡ pending
    at_bottom pending e = refl
    at_bottom authorized e = absurd (omega arith)
    at_bottom captured e = absurd (omega arith)
    at_bottom failed e = absurd (omega arith)
    at_bottom cancelled e = absurd (omega arith)
    at_bottom refunded e = absurd (omega arith)
    at_bottom partially_refunded e = absurd (omega arith)

map-mem : {A B : Type 0} (f : A → B) (a : A) (xs : List A) → Memᴰ a xs → Memᴰ (f a) (map f xs)
map-mem f a [] m = elim m [ ]
map-mem f a (x ∷ xs) (Memᴰ.head e) = Memᴰ.head (ap f e)
map-mem f a (x ∷ xs) (Memᴰ.tail m) = Memᴰ.tail (map-mem f a xs m)

append-mem : {A : Type 0} (a : A) (xs ys : List A) → Memᴰ a ys → Memᴰ a (xs ++ ys)
append-mem a [] ys m = m
append-mem a (x ∷ xs) ys m = Memᴰ.tail (append-mem a xs ys m)

-- A row that passes a test, and is found, is among those that the test keeps.
found-filter :
    (t q : Payment → Bool) (p : Payment) (ps : List Payment)
    → find t ps ≡ some p
    → q p ≡ true
    → Memᴰ p (filter q ps)
unfolding find filter
found-filter t q p [] e good = cc
found-filter t q p (r ∷ rs) e good = elim (Bool-cases (t r)) [
  | inl here ↦
      let same : Path (Option Payment) (some r) (some p) = rw here at e in
      let eq : r ≡ p = cc in
      let passes : q r ≡ true = rw (← eq) at good in rw passes (Memᴰ.head (sym eq))
  | inr later ↦
      let rest = found-filter t q p rs (rw later at e) good in
      elim (Bool-cases (q r)) [
        | inl kept ↦ rw kept (Memᴰ.tail rest)
        | inr dropped ↦ rw dropped rest
      ]
]

module _ (env : Env) (p : Payment) (provider : PaymentProvider) (external_id : String)
    (result : ProviderChargeResult) (s : PaymentStatus)
    (ext : truthy p.external_id ≡ some external_id)
    (routed : Registry.get p.provider_id env.registry ≡ ok provider)
    (reply : provider.retrieve external_id ≡ ok result)
    (known : mapped_status result.status ≡ some s) (edge : pending ⟶ s) where
  fresh_status : (t : PaymentStatus) → t ≡ pending → (t == s) ≡ false
  fresh_status t e = elim (Bool-cases (t == s)) [
    | inl same ↦
        let eq : t ≡ s = (status_eq_iff t s).0 same in
        let back : pending ≡ s = sym e ∙ eq in absurd (omega (arith, rank-lt edge, ap rank back))
    | inr other ↦ other
  ]

  valid : (t : PaymentStatus) → t ≡ pending → assert_valid_transition t s ≡ ok tt
  valid t e = rw e ((assert_valid_transition_iff pending s).1 (inr edge))

  stores :
      (q : Payment) (w : World)
      → find (has_id q.id) w.payments ≡ some q
      → q.status ≡ pending
      → (apply_status q (some s) result.raw w).1.payments
        ≡ update_row q.id (set_status s) w.payments
  unfolding apply_status store_status update_payment
  stores q w by_id waiting =
      let fresh = fresh_status q.status waiting in let good = valid q.status waiting in ground arith

  finds :
      (q : Payment) (w : World)
      → find (has_id p.id) w.payments ≡ some q
      → truthy q.external_id ≡ some external_id
      → reconcile_one env p.id w ≡ reconcile_found env (some (q, external_id)) w
  unfolding reconcile_one
  finds q w found ext_q = ground arith

  -- The job of a pending payment stores the provider's status.
  settles :
      (q : Payment) (w : World)
      → AreDistinct w.payments
      → find (has_id p.id) w.payments ≡ some q
      → q.provider_id ≡ p.provider_id
      → q.external_id ≡ p.external_id
      → q.status ≡ pending
      → (reconcile_one env p.id w).1.payments ≡ update_row q.id (set_status s) w.payments
  unfolding reconcile_found
  settles q w d found same_provider same_id waiting =
      let by_id : find (has_id q.id) w.payments ≡ some q =
        find-has_id (has_id p.id) q w.payments d found in
      let routed_q : Registry.get q.provider_id env.registry ≡ ok provider =
        rw same_provider routed in
      rw (finds q w found (rw same_id ext), routed_q, reply, known) (stores q _ by_id waiting)

  -- After the job, whether the payment was pending still or not, it is not.
  after_job :
      (q : Payment) (w : World)
      → AreDistinct w.payments
      → find (has_id p.id) w.payments ≡ some q
      → q.provider_id ≡ p.provider_id
      → q.external_id ≡ p.external_id
      → (r : Payment) × (find (has_id p.id) (step env (reconcile_job p.id) w).payments ≡ some r)
        × (r.status ≢ pending)
  unfolding step
  after_job q w d found same_provider same_id = elim (Bool-cases (q.status == pending)) [
    | inl waiting ↦
        let rows =
          settles q w d found same_provider same_id ((status_eq_iff q.status pending).0 waiting) in
        (
          set_status s q,
          rw (rows, find-update_row (has_id p.id) (set_status s) q w.payments (λ x. refl) d found)
              refl,
          λ back. cc (fresh_status s back, (status_eq_iff s s).1 refl),
        )
    | inr settled ↦
        let moved = step-Advances env (reconcile_job p.id) w d in
        let (r, found_r, keeps) = find-Evolves p.id q w.payments _ moved.evolves found in
        (
          r,
          found_r,
          λ back.
              let stays : q.status ⟶* pending = rw back at keeps.status in
              cc (settled, (status_eq_iff q.status pending).1 (pending_is_first stays)),
        )
  ]

  -- Where no more than a hundred payments are stale, the scheduled task hands the queue a job for each of
  -- them. If its provider knows a status that may follow, and the queue runs that job, then, whatever
  -- happens to the server in between, the payment is pending no more once the job has run.
  pub stale_is_settled :
      (w : World) (hs : List Happening)
      → AreDistinct w.payments
      → find (has_id p.id) w.payments ≡ some p
      → is_stale w.now p ≡ true
      → length (filter (is_stale w.now) w.payments) ≤ 100
      → Memᴰ (Reconciliation.reconcile_job p) (step env reconcile_tick w).reconcile_jobs
        × ((r : Payment) × (find
                (has_id p.id)
                (step env (reconcile_job p.id) (run env hs (step env reconcile_tick w))).payments
              ≡ some r)
            × (r.status ≢ pending))
  unfolding step schedule_pending
  stale_is_settled w hs d found stale few =
      let jobs = take 100 (filter (is_stale w.now) w.payments) in
      let all : take 100 (filter (is_stale w.now) w.payments) ≡ filter (is_stale w.now) w.payments =
        take_all 100 (filter (is_stale w.now) w.payments) few in
      let waits = found-filter (has_id p.id) (is_stale w.now) p w.payments found stale in
      let ticked = step env reconcile_tick w in
      let moved = run-Advances env hs ticked d in
      let (q, found_q, keeps) =
        find-Evolves p.id p ticked.payments (run env hs ticked).payments moved.evolves found in
      (
        append-mem _ w.reconcile_jobs (map Reconciliation.reconcile_job jobs)
            (map-mem Reconciliation.reconcile_job p jobs (rw (← all) at waits)),
        after_job q (run env hs ticked) moved.distinct found_q keeps.provider keeps.external,
      )
