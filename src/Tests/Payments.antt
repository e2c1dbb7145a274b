-- ===== src/Tests/Payments.antt =====
-- The payments at work.
use mathlib.Core.List.{Memᴰ}
use pasarelapagos_backend.Prelude.{
  true, none, some, List, [], ◌∷◌, ◌++◌, ◌≡◌, refl, ◌⊎◌, ◌↔◌, inl, ◌≤◌, arith, find, filter, All,
  map, contains, length, decimal,
}
use pasarelapagos_backend.Prelude.Int.{pos}
use pasarelapagos_backend.Errors.{ok, err, Exception, bad_request}
use pasarelapagos_backend.Providers.Registry.{select_for, get}
use pasarelapagos_backend.World.{
  World, Payment, ReconcileJob, ProviderCall, create_payment, update_payment,
}
use pasarelapagos_backend.World.Metrics.{pending_gauge}
use pasarelapagos_backend.World.Rows.{AreDistinct, Advances, HasSameTables}
use pasarelapagos_backend.Payments.Machine.{
  pending, authorized, captured, refunded, partially_refunded, assert_valid_transition, is_terminal,
}
use pasarelapagos_backend.Payments.Machine.Diagram.{
  Drawn, ◌⟶*◌, assert_valid_transition-Drawn, is_terminal_iff,
}
use pasarelapagos_backend.Payments.Create.{
  create, create_new, required_key, serialize, to_prisma_method, insert_pending, customer_of,
  charge_payment, store_result, map_provider_status,
}
use pasarelapagos_backend.Payments.Create.Outcome.{Outcome}
use pasarelapagos_backend.Payments.Create.Laws.{create_charges_once, create_balances}
use pasarelapagos_backend.Payments.Create.Methods.{enum_method_fails}
use pasarelapagos_backend.Payments.Refund.{RefundReply, refund_at, store_refund, new_status, refund}
use pasarelapagos_backend.Payments.Refund.Outcome.{IsRefunded, refund-IsRefunded, refund_throws}
use pasarelapagos_backend.Payments.Listing.{ListPaymentsDto, find_all}
use pasarelapagos_backend.Payments.Listing.Pages.{first_pages, page_of}
use pasarelapagos_backend.Payments.Listing.Order.{find_all-pages}
use pasarelapagos_backend.Payments.Reconciliation.{reconcile_one, schedule_pending}
use pasarelapagos_backend.Payments.Reconciliation.Laws.{
  Reconciled, reconcile_one-Reconciled, IsForStale, schedule_pending_lem,
}
use pasarelapagos_backend.Server.{Happening, post_refund, post_payment, reconcile_job, time, run}
use pasarelapagos_backend.Server.History.{run-Advances}
use pasarelapagos_backend.Tests.Fixtures.{env, org, world, waiting, paid, dto, part}

distinct : AreDistinct world.payments
distinct = ((refl, tt), (tt, tt))

abbrev day : List Happening
day =
    post_payment dto (some "k3") org
    ∷ post_refund "p2" part org
    ∷ time 60000
    ∷ reconcile_job "p1"
    ∷ []

run-Advances_example : Advances world.payments (run env day world).payments
run-Advances_example = run-Advances env day world distinct

abbrev done : Payment
done = record paid { status = refunded }

abbrev over : World
over = record world { payments = waiting ∷ done ∷ [] }

create_charges_once_example :
    (((create env dto (some "k3") org (create env dto (some "k3") org world).1).1.calls
        ≡ world.calls)
      ⊎ ((c : ProviderCall) × ((create env dto
              (some "k3")
              org
              (create env dto (some "k3") org world).1).1.calls
            ≡ world.calls ++ c ∷ [])))
    × (((create env dto (some "k3") org world).1.calls ≡ world.calls)
        ⊎ ((create env dto (some "k3") org (create env dto (some "k3") org world).1).1
            ≡ (create env dto (some "k3") org world).1))
create_charges_once_example = create_charges_once env dto dto org org (some "k3") world refl

enum_method_fails_example :
    ((x : Exception) × ((create env (record dto { method = "CARD" }) (some "k3") org world).0
        ≡ err x))
    × HasSameTables world (create env (record dto { method = "CARD" }) (some "k3") org world).1
    × ((create env (record dto { method = "CARD" }) (some "k3") org world).1.calls ≡ world.calls)
unfolding required_key find contains
enum_method_fails_example =
    enum_method_fails env (record dto { method = "CARD" }) org (some "k3") "k3" world
      (create env (record dto { method = "CARD" }) (some "k3") org world).1
      (create env (record dto { method = "CARD" }) (some "k3") org world).0 refl refl refl refl

abbrev bought : Payment
bought = record waiting {
  id = "id7";
  idempotency_key = "k3";
  amount_minor = 1200;
  status = captured;
  external_id = some "ch_9";
  created_at = 9000000;
}

create_balances_example :
    pending_gauge "AR" (create env dto (some "k3") org world).1.samples
    ≡ pending_gauge "AR" world.samples
unfolding create create_new find required_key select_for contains to_prisma_method insert_pending
    customer_of create_payment decimal charge_payment store_result update_payment
    map_provider_status
create_balances_example =
    create_balances env dto org (some "k3") world (create env dto (some "k3") org world).1
      (create env dto (some "k3") org world).0 refl (inl (serialize bought, refl)) "AR"

abbrev reply : RefundReply
reply = record {
  view = serialize (record paid { status = partially_refunded });
  refund = record {
    id = "id7";
    payment_id = "p2";
    amount_minor = pos 2000;
    reason = none;
    external_refund_id = some "re_1";
    status = "REFUNDED";
  };
}

refund-IsRefunded_example :
    IsRefunded env part org "p2" world (refund env part org "p2" world).1 reply
unfolding refund refund_at store_refund new_status find get assert_valid_transition update_payment
    decimal
refund-IsRefunded_example =
    refund-IsRefunded env part org "p2" world (refund env part org "p2" world).1 reply distinct refl

refund_throws_example :
    HasSameTables world (refund env part org "p1" world).1
    × (((refund env part org "p1" world).1.calls ≡ world.calls)
        ⊎ ((c : ProviderCall) × ((refund env part org "p1" world).1.calls ≡ world.calls ++ c ∷ [])))
unfolding refund find
refund_throws_example =
    refund_throws env part org "p1" world (refund env part org "p1" world).1
      (bad_request "No se puede refundar un pago en estado PENDING") distinct refl

assert_valid_transition-Drawn_example : (assert_valid_transition authorized captured ≡ ok tt) ↔ (
    (authorized ≡ captured)
    ⊎ (Drawn authorized captured ⊎ ((authorized ≡ pending) × (captured ≡ captured))))
assert_valid_transition-Drawn_example = assert_valid_transition-Drawn authorized captured

is_terminal_iff_example : (is_terminal refunded ≡ true) ↔ ((t : _) → refunded ⟶* t → t ≡ refunded)
is_terminal_iff_example = is_terminal_iff refunded

reconcile_one-Reconciled_example :
    Reconciled env "p1" world (reconcile_one env "p1" world).1 (reconcile_one env "p1" world).0
reconcile_one-Reconciled_example =
    reconcile_one-Reconciled env "p1" world (reconcile_one env "p1" world).1
      (reconcile_one env "p1" world).0 distinct refl

abbrev all_statuses : ListPaymentsDto
all_statuses = record { status = none; page = none; limit = none }

swapped : (q r p : Payment) → Memᴰ p (q ∷ r ∷ []) → Memᴰ p (r ∷ q ∷ [])
swapped q r p (Memᴰ.head e) = Memᴰ.tail (Memᴰ.head e)
swapped q r p (Memᴰ.tail (Memᴰ.head e)) = Memᴰ.head e
swapped q r p (Memᴰ.tail (Memᴰ.tail m)) = elim m [ ]

find_all-pages_example :
    first_pages org all_statuses world 1
      (find_all org (page_of org all_statuses world 1 1) world).meta.pages
    ≡ map serialize (paid ∷ waiting ∷ [])
unfolding filter
find_all-pages_example =
    find_all-pages org all_statuses world 1 (paid ∷ waiting ∷ []) (omega arith)
      ((λ e. omega (arith, e), tt), (tt, tt)) ((omega arith, tt), (tt, tt))
      (λ p. (swapped paid waiting p, swapped waiting paid p))

schedule_pending_lem_example :
    HasSameTables world (schedule_pending world).1
    × ((js : List ReconcileJob) × ((schedule_pending world).1.reconcile_jobs
          ≡ world.reconcile_jobs ++ js)
        × (length js ≤ 100)
        × All (IsForStale world) js)
schedule_pending_lem_example = schedule_pending_lem world
