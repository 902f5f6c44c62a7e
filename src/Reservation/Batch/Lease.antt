-- ===== src/Reservation/Batch/Lease.antt =====
-- batch_memory_store.go: the shared lease of a batch operation and its inputs.
use clairveil.Prelude.{
  ℕ, String, Bool, not, ◌&&◌, ◌||◌, List, [], ◌∷◌, map, str_eq, ltb, if◌then◌else◌,
}
use clairveil.Prelude.Result.{Result, ok, guard, or_fail, ◌>>=◌, ◌>>◌}
use clairveil.Prelude.Exec.{continue}
use clairveil.Prelude.Dict.{lookup}
use clairveil.Reservation.Status.{is_active, is_terminal_operation}
use clairveil.Reservation.Types.{Error, NoteReservation}
use clairveil.Reservation.Store.{MemoryStore}
use clairveil.Reservation.Links.{is_blank}
use clairveil.Reservation.Transition.{require_lease_token}
use clairveil.Reservation.Lease.{leased, renewed}
use clairveil.Reservation.Create.{put_reservations}
use clairveil.Reservation.Batch.Types.{BatchOperation, OperationInputReservation}
use clairveil.Reservation.Batch.Store.{
  BatchStore, Method, inputs_of, find_batch, put_batch, input_reservations, require_batch_lease,
  clear_input_leases, clear_operation_lease,
}

-- Whether no lease of another holds at `now`.
unfoldable pub is_free : String → ℕ → ℕ → Bool
is_free token until now = not (not (str_eq token "") && ltb now until)

unfoldable pub check_free : ℕ → List NoteReservation → Result Error Unit
unfolding is_free
check_free now [] = ok tt
check_free now (r ∷ rs) = do
  guard (is_active r.status && is_free r.lease_token r.lease_until now) Error.lease_unavailable
  check_free now rs

-- What `AcquireBatchOperationLease` finds, if its checks pass.
unfoldable pub batch_acquirable :
    String
    → String
    → String
    → ℕ
    → ℕ
    → BatchStore
    → Result Error (BatchOperation × List NoteReservation)
unfolding check_free is_free
batch_acquirable id owner token until now b = do
  op ← find_batch id b
  guard (not (is_blank owner || is_blank token || not (ltb now until))) Error.lease_unavailable
  guard (is_free op.lease_token op.lease_until now) Error.lease_unavailable
  guard (not (is_terminal_operation op.status)) Error.lease_unavailable
  rs ← input_reservations (inputs_of id b) b.base
  check_free now rs
  ok (op, rs)

unfoldable pub leased_operation : String → String → ℕ → ℕ → BatchOperation → BatchOperation
leased_operation owner token until now op = record op {
  lease_owner = owner;
  lease_token = token;
  lease_until = until;
  last_heartbeat_at = now;
  updated_at = now;
}

-- The writes of `AcquireBatchOperationLease`.
unfoldable pub grant :
    String → String → String → ℕ → ℕ → BatchOperation × List NoteReservation → Method BatchOperation
unfolding leased_operation
grant id owner token until now (op, rs) b =
    let after = leased_operation owner token until now op in
    (
      ok after,
      put_batch id after (put_reservations (map (leased owner token until now) rs) b.base) b,
    )

-- `AcquireBatchOperationLease`.
unfoldable pub acquire_batch_lease : String → String → String → ℕ → ℕ → Method BatchOperation
unfolding batch_acquirable
acquire_batch_lease id owner token until now b =
    continue (batch_acquirable id owner token until now b) (grant id owner token until now) b

abbrev pub latest : ℕ → ℕ → ℕ
latest a b = if ltb a b then b else a

-- The loop of `HeartbeatBatchOperationLease`: the latest heartbeat, the latest end of a lease, and the
-- reservations. `requireBatchLeaseLocked` has found each reservation already.
unfoldable pub gather :
    List OperationInputReservation
    → String
    → ℕ
    → MemoryStore
    → ℕ
    → ℕ
    → Result Error (ℕ × ℕ × List NoteReservation)
gather [] token now s beat until = ok (beat, until, [])
gather (i ∷ is) token now s beat until = do
  r ← or_fail (lookup i.reservation_id s.reservations) Error.lease_mismatch
  require_lease_token r token now
  (beat', until', rs) ←
      gather is token now s (latest beat r.last_heartbeat_at) (latest until r.lease_until)
  ok (beat', until', r ∷ rs)

unfoldable pub renewed_operation : ℕ → ℕ → BatchOperation → BatchOperation
renewed_operation until now op = record op {
  lease_until = until;
  last_heartbeat_at = now;
  updated_at = now;
}

-- The checks of `HeartbeatBatchOperationLease`.
unfoldable pub batch_renewable :
    String
    → String
    → ℕ
    → ℕ
    → BatchStore
    → Result Error (BatchOperation × (ℕ × ℕ × List NoteReservation))
unfolding gather
batch_renewable id token until now b = do
  op ← require_batch_lease id token now b
  guard (ltb now until) Error.lease_unavailable
  found ← gather (inputs_of id b) token now b.base op.last_heartbeat_at op.lease_until
  ok (op, found)

-- The writes, unless a newer heartbeat was stored before.
unfoldable pub renew :
    String → ℕ → ℕ → BatchOperation → ℕ → ℕ → List NoteReservation → Method BatchOperation
unfolding renewed_operation
renew id until now op beat end rs b =
    if ltb now beat
    then (ok op, b)
    else (let after = renewed_operation (latest end until) now op in
        (
          ok after,
          put_batch id after (put_reservations (map (renewed (latest end until) now) rs) b.base) b,
        ))

-- `HeartbeatBatchOperationLease`.
unfoldable pub heartbeat_batch_lease : String → String → ℕ → ℕ → Method BatchOperation
unfolding batch_renewable renew
heartbeat_batch_lease id token until now b =
    continue (batch_renewable id token until now b)
      (λ (op, found) t. let (beat, end, rs) = found in renew id until now op beat end rs t) b

-- `ReleaseBatchOperationLease`.
unfoldable pub release_batch_lease : String → String → ℕ → Method BatchOperation
unfolding clear_operation_lease
release_batch_lease id token now b =
    continue (require_batch_lease id token now b)
      (λ op t.
        let after = record (clear_operation_lease op) { updated_at = now } in
        (ok after, put_batch id after (clear_input_leases (inputs_of id t) now t.base) t))
      b
