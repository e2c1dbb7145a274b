-- ===== src/Payments/Machine/Diagram.antt =====
-- The table of src/modules/payments/payment-state.machine.ts as a relation, and the diagram that its
-- comment draws, which lacks one edge of the table.
use pasarelapagos_backend.Prelude.{true, ◌≡◌, refl, ◌↔◌, ◌⊎◌, inl, inr, arith, ℕ, ◌≤◌, ◌<◌}
use pasarelapagos_backend.Errors.{ok}
use pasarelapagos_backend.Payments.Machine.{
  PaymentStatus, pending, authorized, captured, failed, cancelled, refunded, partially_refunded,
  assert_valid_transition, is_terminal,
}

infix 40 ◌⟶◌ ◌⟶*◌
pub data ◌⟶◌ : PaymentStatus → PaymentStatus → Type 0 where
  authorize : pending ⟶ authorized
  capture_at_once : pending ⟶ captured
  fail : pending ⟶ failed
  cancel : pending ⟶ cancelled
  capture : authorized ⟶ captured
  fail_capture : authorized ⟶ failed
  void : authorized ⟶ cancelled
  refund : captured ⟶ refunded
  refund_part : captured ⟶ partially_refunded
  refund_rest : partially_refunded ⟶ refunded

-- The diagram of the comment.
pub data Drawn : PaymentStatus → PaymentStatus → Type 0 where
  pending-authorized : Drawn pending authorized
  authorized-captured : Drawn authorized captured
  pending-failed : Drawn pending failed
  pending-cancelled : Drawn pending cancelled
  authorized-failed : Drawn authorized failed
  authorized-cancelled : Drawn authorized cancelled
  captured-refunded : Drawn captured refunded
  captured-partially_refunded : Drawn captured partially_refunded
  partially_refunded-refunded : Drawn partially_refunded refunded

pub ruleset edges = (
  authorize, capture_at_once, fail, cancel, capture, fail_capture, void, refund, refund_part,
  refund_rest,
)

-- Any number of steps.
pub data ◌⟶*◌ (s : PaymentStatus) : PaymentStatus → Type 0 where
  here : s ⟶* s
  next : {t u : PaymentStatus} → s ⟶* t → t ⟶ u → s ⟶* u

pub ⟶*-trans : {s t u : PaymentStatus} → s ⟶* t → t ⟶* u → s ⟶* u
⟶*-trans p here = p
⟶*-trans p (next q e) = next (⟶*-trans p q) e

-- One step of the code: the status stays, or follows an edge.
abbrev pub Step : PaymentStatus → PaymentStatus → Type 0
Step s t = (s ≡ t) ⊎ (s ⟶ t)

accepted : (s t : PaymentStatus) → assert_valid_transition s t ≡ ok tt → Step s t
unfolding assert_valid_transition
accepted s t e = grind (arith, edges)

-- `assertValidTransition` lets a change of status through exactly if the status stays the same or
-- the change is an edge of the table.
pub assert_valid_transition_iff :
    (s t : PaymentStatus) → (assert_valid_transition s t ≡ ok tt) ↔ Step s t
unfolding assert_valid_transition
assert_valid_transition_iff s t = (accepted s t, back s t)
  where
    along : {s t : PaymentStatus} → s ⟶ t → assert_valid_transition s t ≡ ok tt
    along authorize = refl
    along capture_at_once = refl
    along fail = refl
    along cancel = refl
    along capture = refl
    along fail_capture = refl
    along void = refl
    along refund = refl
    along refund_part = refl
    along refund_rest = refl

    back : (s t : PaymentStatus) → Step s t → assert_valid_transition s t ≡ ok tt
    back s t (inl e) = ground arith
    back s t (inr e) = along e

-- The table has the edges that the comment draws, and one more.
table_edge : (s t : PaymentStatus) → s ⟶ t → Drawn s t ⊎ ((s ≡ pending) × (t ≡ captured))
table_edge s t authorize = inl pending-authorized
table_edge s t capture_at_once = inr (refl, refl)
table_edge s t fail = inl pending-failed
table_edge s t cancel = inl pending-cancelled
table_edge s t capture = inl authorized-captured
table_edge s t fail_capture = inl authorized-failed
table_edge s t void = inl authorized-cancelled
table_edge s t refund = inl captured-refunded
table_edge s t refund_part = inl captured-partially_refunded
table_edge s t refund_rest = inl partially_refunded-refunded

edge_of : (s t : PaymentStatus) → Drawn s t → s ⟶ t
edge_of s t pending-authorized = authorize
edge_of s t authorized-captured = capture
edge_of s t pending-failed = fail
edge_of s t pending-cancelled = cancel
edge_of s t authorized-failed = fail_capture
edge_of s t authorized-cancelled = void
edge_of s t captured-refunded = refund
edge_of s t captured-partially_refunded = refund_part
edge_of s t partially_refunded-refunded = refund_rest

-- `assertValidTransition` lets a status stay, lets through every change that the diagram of the file's
-- comment draws, and lets through one that it does not draw: a pending payment may be captured at
-- once. Every other change it refuses.
pub assert_valid_transition-Drawn :
    (s t : PaymentStatus)
    → (assert_valid_transition s t ≡ ok tt)
      ↔ ((s ≡ t) ⊎ (Drawn s t ⊎ ((s ≡ pending) × (t ≡ captured))))
assert_valid_transition-Drawn s t = (there, back)
  where
    there :
        assert_valid_transition s t ≡ ok tt
        → (s ≡ t) ⊎ (Drawn s t ⊎ ((s ≡ pending) × (t ≡ captured)))
    there valid = elim ((assert_valid_transition_iff s t).0 valid) [
      | inl same ↦ inl same
      | inr edge ↦ inr (table_edge s t edge)
    ]

    back :
        (s ≡ t) ⊎ (Drawn s t ⊎ ((s ≡ pending) × (t ≡ captured)))
        → assert_valid_transition s t ≡ ok tt
    back (inl same) = (assert_valid_transition_iff s t).1 (inl same)
    back (inr (inl drawn)) = (assert_valid_transition_iff s t).1 (inr (edge_of s t drawn))
    back (inr (inr (p, c))) = (assert_valid_transition_iff s t).1 (inr (rw (p, c) capture_at_once))

-- How far along a payment is; every edge raises it.
abbrev pub rank : PaymentStatus → ℕ
rank pending = 0
rank authorized = 1
rank captured = 2
rank partially_refunded = 3
rank failed = 4
rank cancelled = 4
rank refunded = 4

pub rank-lt : {s t : PaymentStatus} → s ⟶ t → rank s < rank t
rank-lt authorize = omega arith
rank-lt capture_at_once = omega arith
rank-lt fail = omega arith
rank-lt cancel = omega arith
rank-lt capture = omega arith
rank-lt fail_capture = omega arith
rank-lt void = omega arith
rank-lt refund = omega arith
rank-lt refund_part = omega arith
rank-lt refund_rest = omega arith

pub rank-le : {s t : PaymentStatus} → s ⟶* t → rank s ≤ rank t
rank-le here = omega arith
rank-le (next p e) = omega (arith, rank-le p, rank-lt e)

-- The table has no cycle: no path that begins with an edge leads back to its start.
pub no_cycle : {s t : PaymentStatus} → s ⟶ t → ¬ (t ⟶* s)
no_cycle e p = omega (arith, rank-lt e, rank-le p)

stuck : {s t : PaymentStatus} → is_terminal s ≡ true → s ⟶ t → ⊥
unfolding is_terminal
stuck h authorize = cc
stuck h capture_at_once = cc
stuck h fail = cc
stuck h cancel = cc
stuck h capture = cc
stuck h fail_capture = cc
stuck h void = cc
stuck h refund = cc
stuck h refund_part = cc
stuck h refund_rest = cc

-- A terminal status is never left, by any number of steps.
pub is_terminal_stays : {s t : PaymentStatus} → is_terminal s ≡ true → s ⟶* t → t ≡ s
is_terminal_stays h here = refl
is_terminal_stays h (next p e) = let same = is_terminal_stays h p in absurd (stuck (rw same h) e)

-- `isTerminal` holds exactly of the statuses from which no other status can be reached.
pub is_terminal_iff :
    (s : PaymentStatus) → (is_terminal s ≡ true) ↔ ((t : PaymentStatus) → s ⟶* t → t ≡ s)
is_terminal_iff s = (λ h t. is_terminal_stays h, alone s)
  where
    alone : (s : PaymentStatus) → ((t : PaymentStatus) → s ⟶* t → t ≡ s) → is_terminal s ≡ true
    alone pending h = cc (h authorized (next here authorize))
    alone authorized h = cc (h captured (next here capture))
    alone captured h = cc (h refunded (next here refund))
    alone partially_refunded h = cc (h refunded (next here refund_rest))
    alone failed h = unfold is_terminal in refl
    alone cancelled h = unfold is_terminal in refl
    alone refunded h = unfold is_terminal in refl

-- A change that the code lets through follows the table.
pub reached_of_ok : (s t : PaymentStatus) → assert_valid_transition s t ≡ ok tt → s ⟶* t
reached_of_ok s t e = elim (accepted s t e) [ inl same ↦ rw same here | inr edge ↦ next here edge ]
