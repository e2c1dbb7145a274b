-- ===== src/Payments/Listing.antt =====
-- src/modules/payments/payments.service.ts: `findAll` and `findOne`.
pub mod Pages
pub mod Order
use pasarelapagos_backend.Prelude.{
  ℕ, ◌+◌, ◌-◌, ◌*◌, ◌/◌, String, Bool, Option, none, some, List, [], ◌∷◌, map, ◌&&◌, ◌==◌,
  String_eq, true, ◌<>◌, find, filter, length, take, drop, or_else, ltb, if◌then◌else◌,
}
use pasarelapagos_backend.Errors.{not_found}
use pasarelapagos_backend.Context.{OrgContext}
use pasarelapagos_backend.Payments.Machine.{PaymentStatus, PaymentStatus_eq}
use pasarelapagos_backend.Payments.Create.{PaymentView, serialize}
use pasarelapagos_backend.Payments.Refund.{owned_by}
use pasarelapagos_backend.World.{World, Payment, PaymentEvent, Action, pure, gets, or_throw, ◌>>=◌}

-- dto/list-payments.dto.ts: `page` is at least 1, and `limit` between 1 and 100
pub record ListPaymentsDto : Type 0 where
  pub status : Option PaymentStatus
  pub page : Option ℕ
  pub limit : Option ℕ

abbrev has_status : Option PaymentStatus → Payment → Bool
has_status none p = true
has_status (some s) p = p.status == s

-- the `where` of the query
abbrev pub listed : String → Option PaymentStatus → Payment → Bool
listed org status p = p.organization_id == org && has_status status p

-- `orderBy: { createdAt: 'desc' }`: the newest first. The order of rows of one time is the database's,
-- on each page anew; here it is the table's.
unfoldable pub insert_desc : Payment → List Payment → List Payment
insert_desc p [] = p ∷ []
insert_desc p (q ∷ qs) = if ltb p.created_at q.created_at then q ∷ insert_desc p qs else p ∷ q ∷ qs

unfoldable pub sort_desc : List Payment → List Payment
unfolding insert_desc
sort_desc [] = []
sort_desc (p ∷ ps) = insert_desc p (sort_desc ps)

-- `Math.ceil(total / limit)`, where `limit` is not 0
abbrev pub ceil_div : ℕ → ℕ → ℕ
ceil_div total limit = (total + (limit - 1)) / limit

pub record PageMeta : Type 0 where
  pub total : ℕ
  pub page : ℕ
  pub limit : ℕ
  pub pages : ℕ

pub record PaymentPage : Type 0 where
  pub items : List PaymentView
  pub meta : PageMeta

-- The rows that a query is about, in the order of the answer.
unfoldable pub matching : OrgContext → ListPaymentsDto → World → List Payment
unfolding sort_desc filter
matching ctx query w = sort_desc (filter (listed ctx.organization_id query.status) w.payments)

unfoldable pub find_all : OrgContext → ListPaymentsDto → World → PaymentPage
unfolding matching serialize
find_all ctx query w =
    let page = or_else query.page 1 in
    let limit = or_else query.limit 20 in
    let rows = matching ctx query w in
    let total = length (filter (listed ctx.organization_id query.status) w.payments) in
    record {
      items = map serialize (take limit (drop ((page - 1) * limit) rows));
      meta = record { total = total; page = page; limit = limit; pages = ceil_div total limit };
    }

pub record PaymentDetail : Type 0 where
  pub view : PaymentView
  pub events : List PaymentEvent

abbrev pub is_event_of : String → PaymentEvent → Bool
is_event_of id e = e.payment_id == id

-- The events are in the order of their creation.
unfoldable pub find_one : String → OrgContext → Action PaymentDetail
unfolding find filter serialize
find_one id ctx = do
  found ← gets (λ w. find (owned_by id ctx.organization_id) w.payments)
  payment ← or_throw found (not_found ("Payment " <> id <> " no encontrado"))
  events ← gets (λ w. filter (is_event_of payment.id) w.events)
  pure (record { view = serialize payment; events = events })
