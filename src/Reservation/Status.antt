-- ===== src/Reservation/Status.antt =====
-- status.go: the two state machines and their tables.
pub mod Laws
use clairveil.Prelude.{ℕ, ◌+◌, Bool, true, false, ◌||◌, ◌&&◌, ◌==◌}

-- The strings of `ReservationStatus`. `unset` is "", and `other n` is the n-th string that is no
-- constant.
pub data ReservationStatus : Type 0 where
  discovered available reserved proving proof_ready submitted : ReservationStatus
  confirmed_spent failed replan_required released unknown manual_review : ReservationStatus
  unset : ReservationStatus
  other : ℕ → ReservationStatus

pub data OperationStatus : Type 0 where
  planned proving proof_ready submitted succeeded failed : OperationStatus
  replan_required unknown manual_review conflict_spent unset : OperationStatus
  other : ℕ → OperationStatus

abbrev pub code : ReservationStatus → ℕ
code ReservationStatus.discovered = 0
code ReservationStatus.available = 1
code ReservationStatus.reserved = 2
code ReservationStatus.proving = 3
code ReservationStatus.proof_ready = 4
code ReservationStatus.submitted = 5
code ReservationStatus.confirmed_spent = 6
code ReservationStatus.failed = 7
code ReservationStatus.replan_required = 8
code ReservationStatus.released = 9
code ReservationStatus.unknown = 10
code ReservationStatus.manual_review = 11
code ReservationStatus.unset = 12
code (ReservationStatus.other n) = 13 + n

-- `a == b` on statuses.
unfoldable pub status_eq : ReservationStatus → ReservationStatus → Bool
status_eq a b = code a == code b

unfoldable pub is_unset_operation : OperationStatus → Bool
is_unset_operation OperationStatus.unset = true
is_unset_operation _ = false

-- `IsActiveReservationStatus`.
unfoldable pub is_active : ReservationStatus → Bool
is_active ReservationStatus.reserved = true
is_active ReservationStatus.proving = true
is_active ReservationStatus.proof_ready = true
is_active ReservationStatus.submitted = true
is_active ReservationStatus.unknown = true
is_active ReservationStatus.manual_review = true
is_active _ = false

-- `CanTransitionReservation`.
unfoldable pub can_transition : ReservationStatus → ReservationStatus → Bool
unfolding status_eq
can_transition ReservationStatus.discovered to =
    status_eq to ReservationStatus.available || status_eq to ReservationStatus.failed
can_transition ReservationStatus.available to = status_eq to ReservationStatus.reserved
can_transition ReservationStatus.reserved to =
    status_eq to ReservationStatus.proving
    || status_eq to ReservationStatus.released
    || status_eq to ReservationStatus.replan_required
    || status_eq to ReservationStatus.manual_review
can_transition ReservationStatus.proving to =
    status_eq to ReservationStatus.proof_ready
    || status_eq to ReservationStatus.reserved
    || status_eq to ReservationStatus.replan_required
    || status_eq to ReservationStatus.manual_review
can_transition ReservationStatus.proof_ready to =
    status_eq to ReservationStatus.submitted
    || status_eq to ReservationStatus.unknown
    || status_eq to ReservationStatus.confirmed_spent
    || status_eq to ReservationStatus.replan_required
    || status_eq to ReservationStatus.manual_review
can_transition ReservationStatus.submitted to =
    status_eq to ReservationStatus.confirmed_spent
    || status_eq to ReservationStatus.failed
    || status_eq to ReservationStatus.unknown
    || status_eq to ReservationStatus.replan_required
    || status_eq to ReservationStatus.manual_review
can_transition ReservationStatus.unknown to =
    status_eq to ReservationStatus.confirmed_spent
    || status_eq to ReservationStatus.failed
    || status_eq to ReservationStatus.replan_required
    || status_eq to ReservationStatus.manual_review
can_transition ReservationStatus.manual_review to =
    status_eq to ReservationStatus.confirmed_spent
    || status_eq to ReservationStatus.failed
    || status_eq to ReservationStatus.released
    || status_eq to ReservationStatus.replan_required
can_transition ReservationStatus.failed to = status_eq to ReservationStatus.replan_required
can_transition ReservationStatus.released to = status_eq to ReservationStatus.available
can_transition ReservationStatus.replan_required to =
    status_eq to ReservationStatus.reserved
    || status_eq to ReservationStatus.failed
    || status_eq to ReservationStatus.manual_review
can_transition _ to = false

-- `RequiresLeaseToken`.
unfoldable pub requires_lease_token : ReservationStatus → ReservationStatus → Bool
unfolding status_eq
requires_lease_token from to =
    (status_eq from ReservationStatus.reserved && status_eq to ReservationStatus.proving)
    || (status_eq from ReservationStatus.proving && status_eq to ReservationStatus.proof_ready)
    || (status_eq from ReservationStatus.proof_ready && status_eq to ReservationStatus.submitted)
    || (status_eq from ReservationStatus.proof_ready && status_eq to ReservationStatus.unknown)

-- `IsTerminalReservationStatus`.
unfoldable pub is_terminal : ReservationStatus → Bool
is_terminal ReservationStatus.confirmed_spent = true
is_terminal ReservationStatus.failed = true
is_terminal _ = false

-- `IsTerminalOperationStatus`.
unfoldable pub is_terminal_operation : OperationStatus → Bool
is_terminal_operation OperationStatus.succeeded = true
is_terminal_operation OperationStatus.failed = true
is_terminal_operation OperationStatus.conflict_spent = true
is_terminal_operation _ = false
