-- ===== src/Reservation/Reconcile/Linked.antt =====
-- reconcile.go: what `reconcileReservationOperation` writes to the operation.
use clairveil.Prelude.{
  ℕ, String, true, false, ◌≡◌, ◌≢◌, ◌⊎◌, inl, inr, refl, ap, ◌∙◌, Option, none, some, Bool-cases,
  arith, str_eq_iff,
}
use clairveil.Prelude.Result.{Result, ok, err, After}
use clairveil.Prelude.Exec.{continue}
use clairveil.Prelude.Dict.{lookup, lookup-insert}
use clairveil.Reservation.Status.{
  ReservationStatus, OperationStatus, is_terminal_operation, requires_lease_token,
}
use clairveil.Reservation.Types.{Error, NoteReservation, PayrollOperation}
use clairveil.Reservation.Store.{MemoryStore, put_operation, put_reservation}
use clairveil.Reservation.Transition.{
  linked_operation, candidate_with_operation, commit_with_operation, compare_and_set_with_operation,
  put_operation_if, transitioned,
}
use clairveil.Reservation.Evidence.{operation_status_eq}
use clairveil.Reservation.Evidence.Laws.{operation_status_eq-true, operation_status_eq-false}
use clairveil.Reservation.Reconcile.{reconcile_operation, operation_update, returned_status}

pub linked_operation-eq-ok :
    (id : String) (r : NoteReservation) (o : PayrollOperation) (s : MemoryStore)
    (u : PayrollOperation)
    → linked_operation id r (some o) s ≡ ok (some u)
    → (u.operation_id ≡ o.operation_id)
      × (u.status ≡ o.status)
      × ((r.operation_id ≡ "") ⊎ (r.operation_id ≡ o.operation_id))
unfolding linked_operation
linked_operation-eq-ok id r o s u h =
    ground (arith, str_eq_iff r.operation_id "", str_eq_iff r.operation_id o.operation_id)

pub linked_operation-none :
    (id : String) (r : NoteReservation) (s : MemoryStore) (u : PayrollOperation)
    → linked_operation id r none s ≢ ok (some u)
unfolding linked_operation
linked_operation-none id r s u h = ground arith

pub candidate_with_operation-linked :
    (id : String) (from to : ReservationStatus) (o : Option PayrollOperation) (s : MemoryStore)
    (r : NoteReservation) (u : Option PayrollOperation)
    → candidate_with_operation id from to o s ≡ ok (r, u)
    → linked_operation id r o s ≡ ok u
unfolding candidate_with_operation
candidate_with_operation-linked id from to o s r u h = ground arith

linked_operation-some :
    (id : String) (r : NoteReservation) (o : PayrollOperation) (s : MemoryStore)
    → linked_operation id r (some o) s ≢ ok none
unfolding linked_operation
linked_operation-some id r o s h = ground arith

-- From `s` to `t` the operation `x` was written, if it is one, and nothing else; `u` is what was written.
abbrev Writes :
    MemoryStore → MemoryStore → Option PayrollOperation → Option PayrollOperation → Type 0
Writes s t none u = (u ≡ none) × (t.operations ≡ s.operations)
Writes s t (some o) u =
    (q : PayrollOperation) × (u ≡ some q)
    × (q.status ≡ o.status)
    × (lookup o.operation_id t.operations ≡ some q)

linked-Writes :
    (id : String) (r n : NoteReservation) (x u : Option PayrollOperation) (s : MemoryStore)
    → linked_operation id r x s ≡ ok u
    → Writes s (put_operation_if u (put_reservation n s)) x u
unfolding put_operation_if put_operation put_reservation
linked-Writes id r n none none s h = (refl, refl)
linked-Writes id r n none (some q) s h = absurd (linked_operation-none id r s q h)
linked-Writes id r n (some o) none s h = absurd (linked_operation-some id r o s h)
linked-Writes id r n (some o) (some q) s h =
    let (same, status, _) = linked_operation-eq-ok id r o s q h in
    (
      q,
      refl,
      status,
      ground (
        arith,
        lookup-insert q.operation_id o.operation_id q s.operations,
        str_eq_iff q.operation_id o.operation_id,
      ),
    )

compare_and_set_with_operation-Writes :
    (id : String) (from to : ReservationStatus) (x : Option PayrollOperation) (now : ℕ)
    (s : MemoryStore)
    → let (result, t) = compare_and_set_with_operation id from to x now s in
      After result (λ p. Writes s t x p.1) (λ e. t ≡ s)
unfolding compare_and_set_with_operation commit_with_operation
compare_and_set_with_operation-Writes id from to x now s =
    go (candidate_with_operation id from to x s) refl
  where
    go :
        (m : Result Error (NoteReservation × Option PayrollOperation))
        → candidate_with_operation id from to x s ≡ m
        → let (result, t) = commit_with_operation to now m s in
          After result (λ p. Writes s t x p.1) (λ e. t ≡ s)
    go (err e) h = refl
    go (ok (r, u)) h =
        linked-Writes id r (transitioned to now r) x u s
          (candidate_with_operation-linked id from to x s r u h)

-- The operation that was read, and the status that is returned for it, if `requested` was asked for it: if
-- it has ended with another status, it keeps that one and nothing is written; else it is stored with the
-- requested one. Where there is none, the requested status is returned.
abbrev pub Follows :
    MemoryStore → MemoryStore → Option PayrollOperation → OperationStatus → OperationStatus → Type 0
Follows s t none requested returned = (returned ≡ requested) × (t.operations ≡ s.operations)
Follows s t (some p) requested returned =
    ((is_terminal_operation p.status ≡ true)
      × (p.status ≢ requested)
      × (returned ≡ p.status)
      × (t.operations ≡ s.operations))
    ⊎ (((is_terminal_operation p.status ≡ false) ⊎ (p.status ≡ requested))
        × (returned ≡ requested)
        × ((q : PayrollOperation) × (lookup p.operation_id t.operations ≡ some q)
            × (q.status ≡ requested)))

update-Follows :
    (o u : Option PayrollOperation) (requested : OperationStatus) (now : ℕ) (s t : MemoryStore)
    → Writes s t (operation_update o requested now).0 u
    → Follows s t o requested (returned_status u (operation_update o requested now).1)
unfolding operation_update
update-Follows none u requested now s t (e, same) = (ap (λ x. returned_status x requested) e, same)
update-Follows (some p) u requested now s t w = elim (Bool-cases (is_terminal_operation p.status)) [
  | inr going ↦
      let (q, e, status, at) = rw going at w in
      rw going (inr (inl refl, ap (λ x. returned_status x requested) e ∙ status, (q, at, status)))
  | inl ended ↦ elim (Bool-cases (operation_status_eq p.status requested)) [
    | inl t' ↦
        let (q, e, status, at) = rw (ended, t') at w in
        rw (ended, t')
          (inr (
            inr (operation_status_eq-true p.status requested t'),
            ap (λ x. returned_status x requested) e ∙ status,
            (q, at, status),
          ))
    | inr f ↦
        let (e, same) = rw (ended, f) at w in
        rw (ended, f)
          (inl (
            refl,
            operation_status_eq-false p.status requested f,
            ap (λ x. returned_status x p.status) e,
            same,
          ))
  ]
]

-- What `reconcileReservationOperation` makes of the operation.
pub reconcile_operation-Follows :
    (r : NoteReservation) (o : Option PayrollOperation) (to : ReservationStatus)
    (requested : OperationStatus) (now : ℕ) (s : MemoryStore)
    → let (result, t) = reconcile_operation r o to requested now s in
      After result (λ p. Follows s t o requested p.1) (λ e. t ≡ s)
unfolding reconcile_operation
reconcile_operation-Follows r o to requested now s =
    elim (Bool-cases (requires_lease_token r.status to)) [
      | inl t ↦ rw t refl
      | inr f ↦ rw f (
          go _ (
            compare_and_set_with_operation-Writes r.reservation_id r.status to
              (operation_update o requested now).0 now s))
    ]
  where
    go :
        (m : Result Error (NoteReservation × Option PayrollOperation) × MemoryStore)
        → After m.0 (λ p. Writes s m.1 (operation_update o requested now).0 p.1) (λ e. m.1 ≡ s)
        → let (result, t) =
            continue {B = NoteReservation × OperationStatus} m.0
              (λ p t. (ok (p.0, returned_status p.1 (operation_update o requested now).1), t))
              m.1 in
          After result (λ p. Follows s t o requested p.1) (λ e. t ≡ s)
    go (ok (n, u), t) h = update-Follows o u requested now s t h
    go (err e, t) h = h
