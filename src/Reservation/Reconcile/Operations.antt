-- ===== src/Reservation/Reconcile/Operations.antt =====
-- reconcile.go: what `Reconcile` makes of operations that have ended.
use clairveil.Prelude.{
  ℕ, String, true, ◌≡◌, ◌⊎◌, ◌≢◌, inl, inr, refl, ap, sym, subst, ◌∙◌, Option, none, some,
  Bool-cases, str_eq, str_eq_iff, ==_iff, arith,
}
use mathlib.Core.Option.{some-injective}
use clairveil.Prelude.Result.{Result, ok, err}
use clairveil.Prelude.Exec.{continue}
use clairveil.Prelude.Dict.{lookup, lookup-insert}
use clairveil.Reservation.Status.{
  ReservationStatus, OperationStatus, requires_lease_token, is_terminal_operation,
}
use clairveil.Reservation.Types.{Error, NoteReservation, PayrollOperation}
use clairveil.Reservation.Store.{MemoryStore, put_operation, put_reservation}
use clairveil.Reservation.Transition.{
  candidate_with_operation, commit_with_operation, linked_operation, compare_and_set_with_operation,
  put_operation_if, transitioned,
}
use clairveil.Reservation.Invariant.{IsValid, Holds}
use clairveil.Reservation.Keeps.{candidate-eq-ok, candidate_with_operation-eq-ok}
use clairveil.Reservation.Reconcile.{
  Plan, plan, act, reconcile, reconcile_operation, reads_of, find_operation, operation_update,
  returned_status,
}
use clairveil.Reservation.Evidence.{OperationEvidence, ReconcileResult, operation_status_eq}
use clairveil.Reservation.Reconcile.Linked.{
  linked_operation-eq-ok, linked_operation-none, candidate_with_operation-linked,
}
use clairveil.Reservation.Reconcile.Outcome.{reads_of-Holds, held_same}

-- The operation under `k` is still there, with the status that `p` has.
abbrev pub IsKept : String → PayrollOperation → MemoryStore → Type 0
IsKept k p t =
    (q : PayrollOperation) × (lookup k t.operations ≡ some q)
    × (operation_status_eq p.status q.status ≡ true)

status_eq_refl : (a : OperationStatus) → operation_status_eq a a ≡ true
unfolding operation_status_eq
status_eq_refl a = (==_iff _ _).1 refl

put_operation_if-IsKept :
    (s : MemoryStore) (r : NoteReservation) (u : Option PayrollOperation) (k : String)
    (p : PayrollOperation)
    → lookup k s.operations ≡ some p
    → ((o : PayrollOperation)
        → u ≡ some o
        → o.operation_id ≡ k
        → operation_status_eq p.status o.status ≡ true)
    → IsKept k p (put_operation_if u (put_reservation r s))
unfolding put_operation_if put_operation put_reservation
put_operation_if-IsKept s r none k p at same = (p, at, status_eq_refl p.status)
put_operation_if-IsKept s r (some o) k p at same = elim (Bool-cases (str_eq o.operation_id k)) [
  | inl t ↦ (
    o,
    ground (arith, lookup-insert o.operation_id k o s.operations),
    same o refl ((str_eq_iff o.operation_id k).0 t),
  )
  | inr f ↦
      (p, ground (arith, lookup-insert o.operation_id k o s.operations), status_eq_refl p.status)
]

-- An operation `x` that is handed over replaces the one under `k` only by one with its status.
abbrev Agrees : MemoryStore → String → Option PayrollOperation → String → PayrollOperation → Type 0
Agrees s id x k p =
    (r : NoteReservation) (o : PayrollOperation)
    → Holds s id r
    → x ≡ some o
    → o.operation_id ≡ k
    → (r.operation_id ≡ "") ⊎ (r.operation_id ≡ k)
    → operation_status_eq p.status o.status ≡ true

linked_operation-Agrees :
    (s : MemoryStore) (id k : String) (p u : PayrollOperation) (r : NoteReservation)
    (x : Option PayrollOperation)
    → Agrees s id x k p
    → Holds s id r
    → linked_operation id r x s ≡ ok (some u)
    → u.operation_id ≡ k
    → operation_status_eq p.status u.status ≡ true
linked_operation-Agrees s id k p u r none same held h ids =
    absurd (linked_operation-none id r s u h)
linked_operation-Agrees s id k p u r (some o) same held h ids =
    let (a, b, c) = linked_operation-eq-ok id r o s u h in
    let e : o.operation_id ≡ k = sym a ∙ ids in
    subst (λ c. operation_status_eq p.status c ≡ true) (sym b)
      (same r o held refl e (subst (λ c. (r.operation_id ≡ "") ⊎ (r.operation_id ≡ c)) e c))

compare_and_set_with_operation-IsKept :
    (id : String) (from to : ReservationStatus) (x : Option PayrollOperation) (now : ℕ)
    (s : MemoryStore) (k : String) (p : PayrollOperation)
    → lookup k s.operations ≡ some p
    → Agrees s id x k p
    → IsKept k p (compare_and_set_with_operation id from to x now s).1
unfolding compare_and_set_with_operation commit_with_operation
compare_and_set_with_operation-IsKept id from to x now s k p at same =
    go (candidate_with_operation id from to x s) refl
  where
    go :
        (m : Result Error (NoteReservation × Option PayrollOperation))
        → candidate_with_operation id from to x s ≡ m
        → IsKept k p (commit_with_operation to now m s).1
    go (err e) h = (p, at, status_eq_refl p.status)
    go (ok (r, u)) h = put_operation_if-IsKept s (transitioned to now r) u k p at λ o e.
        linked_operation-Agrees s id k p o r x same
          (candidate-eq-ok id from to s r (candidate_with_operation-eq-ok id from to x s r u h)).0
          (candidate_with_operation-linked id from to x s r u h ∙ ap ok e)

operation_update-eq-some :
    (o u : PayrollOperation) (to : OperationStatus) (now : ℕ)
    → (operation_update (some o) to now).0 ≡ some u
    → is_terminal_operation o.status ≡ true
    → (u.operation_id ≡ o.operation_id) × (operation_status_eq o.status u.status ≡ true)
unfolding operation_update
operation_update-eq-some o u to now h t = ground arith

reconcile_operation-IsKept :
    (r : NoteReservation) (o : Option PayrollOperation) (to : ReservationStatus)
    (operation_to : OperationStatus) (now : ℕ) (s : MemoryStore) (k : String) (p : PayrollOperation)
    → lookup k s.operations ≡ some p
    → Agrees s r.reservation_id (operation_update o operation_to now).0 k p
    → IsKept k p (reconcile_operation r o to operation_to now s).1
unfolding reconcile_operation
reconcile_operation-IsKept r o to operation_to now s k p at same =
    elim (Bool-cases (requires_lease_token r.status to)) [
      | inl t ↦ rw t (p, at, status_eq_refl p.status)
      | inr f ↦ rw f (
          go _ (
            compare_and_set_with_operation-IsKept r.reservation_id r.status to
              (operation_update o operation_to now).0 now s k p at same))
    ]
  where
    go :
        (m : Result Error (NoteReservation × Option PayrollOperation) × MemoryStore)
        → IsKept k p m.1
        → IsKept k p
            (continue {B = NoteReservation × OperationStatus} m.0
              (λ p t. (ok (p.0, returned_status p.1 (operation_update o operation_to now).1), t))
              m.1).1
    go (ok p, t) h = h
    go (err e, t) h = h

act-IsKept :
    (r : NoteReservation) (o : Option PayrollOperation) (now : ℕ) (a : Plan) (s : MemoryStore)
    (k : String) (p : PayrollOperation)
    → lookup k s.operations ≡ some p
    → ((to : OperationStatus) → Agrees s r.reservation_id (operation_update o to now).0 k p)
    → IsKept k p (act r o now a s).1
unfolding act
act-IsKept r o now (Plan.answer result) s k p at same = (p, at, status_eq_refl p.status)
act-IsKept r o now Plan.refuse s k p at same = (p, at, status_eq_refl p.status)
act-IsKept r o now (Plan.move to operation_to finish) s k p at same =
    go _ (reconcile_operation-IsKept r o to operation_to now s k p at (same operation_to))
  where
    go :
        (m : Result Error (NoteReservation × OperationStatus) × MemoryStore)
        → IsKept k p m.1
        → IsKept k p
            (continue {B = ReconcileResult} m.0 (λ p t. (ok (finish p.0.status p.1), t)) m.1).1
    go (ok p, t) h = h
    go (err e, t) h = h

-- What the reads of `Reconcile` found.
find_operation-eq-some :
    (id : String) (s : MemoryStore) (r : NoteReservation) (o : PayrollOperation)
    → reads_of id s ≡ ok (r, some o)
    → (r.operation_id ≢ "") × (lookup r.operation_id s.operations ≡ some o)
unfolding reads_of find_operation
find_operation-eq-some id s r o h = ground (arith, str_eq_iff r.operation_id "")

update-Agrees :
    (id : String) (now : ℕ) (s : MemoryStore) (r : NoteReservation) (o : Option PayrollOperation)
    (k : String) (p : PayrollOperation)
    → IsValid s
    → reads_of id s ≡ ok (r, o)
    → lookup k s.operations ≡ some p
    → is_terminal_operation p.status ≡ true
    → (to : OperationStatus) → Agrees s r.reservation_id (operation_update o to now).0 k p
unfolding operation_update
update-Agrees id now s r none k p v found at ended to q u held e ids c = absurd (cc)
update-Agrees id now s r (some o) k p v found at ended to q u held e ids c =
    let holds = reads_of-Holds id s r (some o) found in
    let same : q ≡ r = held_same s (v.keyed id r holds) held holds in
    let (named, there) = find_operation-eq-some id s r o found in
    let key : r.operation_id ≡ k = ground arith in
    let this : o ≡ p =
      some-injective o p (sym (subst (λ j. lookup j s.operations ≡ some o) key there) ∙ at) in
    subst (λ x. operation_status_eq x.status u.status ≡ true) this
      (operation_update-eq-some o u to now e
        (ap (λ x. is_terminal_operation x.status) this ∙ ended)).1

module _ (lower : ℕ → ℕ) where
  -- On a valid store, an operation that is `Succeeded`, `Failed` or `ConflictSpent` still is there
  -- under its key, and has the same status, after a reconciliation of any reservation by any evidence.
  pub reconcile-IsKept :
      (id : String) (e : OperationEvidence) (now : ℕ) (s : MemoryStore) (k : String)
      (p : PayrollOperation)
      → IsValid s
      → lookup k s.operations ≡ some p
      → is_terminal_operation p.status ≡ true
      → IsKept k p (reconcile lower id e now s).1
  unfolding reconcile
  reconcile-IsKept id e now s k p v at ended = go (reads_of id s) refl
    where
      go :
          (m : Result Error (NoteReservation × Option PayrollOperation))
          → reads_of id s ≡ m
          → IsKept k p (continue m (λ p t. act p.0 p.1 now (plan lower p.0 p.1 e) t) s).1
      go (err x) h = (p, at, status_eq_refl p.status)
      go (ok (r, o)) h =
          act-IsKept r o now (plan lower r o e) s k p at
            (update-Agrees id now s r o k p v h at ended)
