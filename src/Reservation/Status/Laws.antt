-- ===== src/Reservation/Status/Laws.antt =====
-- status.go: facts about the tables.
use clairveil.Prelude.{
  ℕ, ◌-◌, true, false, not, ◌&&◌, ◌≡◌, refl, sym, ap, ◌∙◌, arith, ◌==◌, if◌then◌else◌, ==_iff,
}
use clairveil.Reservation.Status.{
  ReservationStatus, code, status_eq, is_active, can_transition, requires_lease_token, is_terminal,
}

-- The status with a given code.
abbrev decode : ℕ → ReservationStatus
decode n =
    if n == 0
    then ReservationStatus.discovered
    else if n == 1
    then ReservationStatus.available
    else if n == 2
    then ReservationStatus.reserved
    else if n == 3
    then ReservationStatus.proving
    else if n == 4
    then ReservationStatus.proof_ready
    else if n == 5
    then ReservationStatus.submitted
    else if n == 6
    then ReservationStatus.confirmed_spent
    else if n == 7
    then ReservationStatus.failed
    else if n == 8
    then ReservationStatus.replan_required
    else if n == 9
    then ReservationStatus.released
    else if n == 10
    then ReservationStatus.unknown
    else if n == 11
    then ReservationStatus.manual_review
    else if n == 12
    then ReservationStatus.unset
    else ReservationStatus.other (n - 13)

decode-code : (s : ReservationStatus) → decode (code s) ≡ s
decode-code (ReservationStatus.other n) = ground arith
decode-code _ = refl

-- Statuses are told apart by the test.
pub status_eq-true : (a b : ReservationStatus) → status_eq a b ≡ true → a ≡ b
unfolding status_eq
status_eq-true a b h =
    sym (decode-code a) ∙ ap decode ((==_iff (code a) (code b)).0 h) ∙ decode-code b

-- No allowed transition leaves `ConfirmedSpent`, and the only one that leaves a status which
-- `IsTerminalReservationStatus` calls terminal goes from `Failed` to `ReplanRequired`; each transition
-- that needs a lease token is allowed, and leads from an active status to an active one.
pub transitions_lem :
    (from to : ReservationStatus)
    → ((is_terminal from && can_transition from to) ≡ (
        status_eq from ReservationStatus.failed && status_eq to ReservationStatus.replan_required))
      × ((requires_lease_token from to
            && not (can_transition from to && is_active from && is_active to))
          ≡ false)
unfolding is_terminal can_transition requires_lease_token is_active status_eq
transitions_lem from to = ground arith
