-- ===== src/Reservation/Tests.antt =====
-- The reservation store on concrete inputs.
use clairveil.Prelude.{
  some, ℕ, String, true, false, ◌≡◌, ◌≢◌, refl, none, [], ◌∷◌, All, str_eq_iff, arith, not, ◌&&◌,
}
use clairveil.Prelude.Result.{ok, err, After}
use clairveil.Prelude.Dict.{lookup, insert, contains}
use clairveil.Reservation.Status.{
  ReservationStatus, status_eq, is_active, is_terminal, can_transition, requires_lease_token,
}
use clairveil.Reservation.Status.Laws.{transitions_lem}
use clairveil.Reservation.Types.{
  Error, NoteReservation, SubmittedReservationRef, SubmittedReservationUpdate, active_key,
}
use clairveil.Reservation.Store.{MemoryStore, new_store, put_reservation, commit}
use clairveil.Reservation.Transition.{
  compare_and_set_locked, compare_and_set, compare_and_set_with_lease, transitioned,
}
use clairveil.Reservation.Transition.Effects.{Moves, compare_and_set_locked-Moves}
use clairveil.Reservation.Lease.{
  acquire_lease_locked, acquirable, check_acquire, heartbeat_lease, clear_lease, leased,
}
use clairveil.Reservation.Lease.Exclusion.{acquire_excludes, lease_fences}
use clairveil.Reservation.Create.{
  create_reservation, create_reservation_batch, put_reservations, put_operations, validate_batch,
  validate_reservations, validate_reservation_create, validate_operations,
}
use clairveil.Reservation.Create.Effects.{WasFree, create_reservation_batch-Creates}
use clairveil.Reservation.Create.Release.{release_frees}
use clairveil.Reservation.Marks.{mark_submitted}
use clairveil.Reservation.Marks.Written.{Pairs}
use clairveil.Reservation.Marks.Submitted.{IsSubmittedOperation}
use clairveil.Reservation.Marks.Effects.{Submits, mark_submitted-Marked}
use clairveil.Reservation.Invariant.{IsValid, Holds, new_store-IsValid}
use clairveil.Reservation.Service.{ReserveInput, reserve_batch}
use clairveil.Reservation.Service.Effects.{IsSecured, reserve_batch-IsSecured}
use clairveil.Reservation.Calls.{Call, call, run}
use clairveil.Reservation.Calls.Validity.{run-IsValid, run_unique}
use clairveil.Reservation.Calls.Spent.{IsSpent}
use clairveil.Reservation.Calls.Absorbing.{run-IsSpent}

abbrev pub note : String → ReservationStatus → String → ℕ → NoteReservation
note id status token until = record {
  reservation_id = id;
  company_id = "c";
  payroll_id = "p";
  batch_id = "b";
  chunk_id = "k";
  item_id = "i";
  note_id = "n";
  owner_key_id = "owner";
  encrypted_nullifier = [];
  nullifier_lookup_key = "nullifier";
  nullifier_lookup_key_id = "key";
  status = status;
  expires_at = 0;
  lease_owner = token;
  lease_token = token;
  lease_until = until;
  last_heartbeat_at = 0;
  operation_id = "";
  sign_doc_hash = "";
  tx_bytes_hash = "";
  tx_hash = "";
  account_sequence = 0;
  broadcast_attempt_count = 0;
  last_broadcast_at = 0;
  last_broadcast_error = "";
  audit = none;
  created_at = 1;
  updated_at = 1;
}

abbrev reserved_note : NoteReservation
reserved_note = note "r1" ReservationStatus.reserved "" 0

abbrev ready_note : NoteReservation
ready_note = note "r1" ReservationStatus.proof_ready "token" 20

abbrev pub spent_note : NoteReservation
spent_note = note "r1" ReservationStatus.confirmed_spent "" 0

abbrev pub store_with : NoteReservation → MemoryStore
store_with r = run (Call.create_reservation r ∷ []) new_store

pub store_with-IsValid : (r : NoteReservation) → IsValid (store_with r)
store_with-IsValid r = run-IsValid (Call.create_reservation r ∷ []) new_store new_store-IsValid

reserved_held : Holds (store_with reserved_note) "r1" reserved_note
unfolding run call create_reservation create_reservation_batch validate_batch validate_reservations
    validate_reservation_create validate_operations put_reservations put_operations put_reservation
    lookup insert contains is_active
reserved_held = refl

ready_held : Holds (store_with ready_note) "r1" ready_note
unfolding run call create_reservation create_reservation_batch validate_batch validate_reservations
    validate_reservation_create validate_operations put_reservations put_operations put_reservation
    lookup insert contains is_active
ready_held = refl

pub spent_held : Holds (store_with spent_note) "r1" spent_note
unfolding run call create_reservation create_reservation_batch validate_batch validate_reservations
    validate_reservation_create validate_operations put_reservations put_operations put_reservation
    lookup insert contains is_active
spent_held = refl

run_unique_example : ◌≡◌ {A = String} "r1" "r1"
unfolding is_active active_key
run_unique_example =
    run_unique (Call.create_reservation reserved_note ∷ []) "r1" "r1" reserved_note reserved_note
      reserved_held reserved_held refl refl refl

run-IsSpent_example :
    IsSpent
      (run
        (Call.compare_and_set "r1" ReservationStatus.confirmed_spent ReservationStatus.failed 2
          ∷ [])
        (store_with spent_note))
      "r1"
run-IsSpent_example =
    run-IsSpent
      (Call.compare_and_set "r1" ReservationStatus.confirmed_spent ReservationStatus.failed 2 ∷ [])
      (store_with spent_note) "r1" (store_with-IsValid spent_note) (refl, tt)
      (spent_note, spent_held, refl)

-- A first worker's lease, from 2 to 20.
acquired :
    (acquire_lease_locked "r1" "w" "t" ReservationStatus.reserved 20 2 (store_with reserved_note)).0
    ≡ ok (leased "w" "t" 20 2 reserved_note)
unfolding acquire_lease_locked acquirable check_acquire commit leased status_eq run call
    create_reservation create_reservation_batch validate_batch validate_reservations
    validate_reservation_create validate_operations put_reservations put_operations put_reservation
    lookup insert contains is_active
acquired = refl

acquire_excludes_example :
    (e : Error) × (acquire_lease_locked "r1" "w2" "t2" ReservationStatus.reserved 40 19
        (acquire_lease_locked "r1" "w" "t" ReservationStatus.reserved 20 2
          (store_with reserved_note)).1
      ≡ (
        err e,
        (acquire_lease_locked "r1" "w" "t" ReservationStatus.reserved 20 2
            (store_with reserved_note)).1,
      ))
acquire_excludes_example =
    acquire_excludes "r1" "w" "t" ReservationStatus.reserved 20 2 (store_with reserved_note)
      (leased "w" "t" 20 2 reserved_note) "w2" "t2" ReservationStatus.reserved 40 19
      (store_with-IsValid reserved_note) acquired (omega arith)

abbrev stale : String
stale = "stale"

stale-other : stale ≢ "token"
stale-other e = let same : false ≡ true = (str_eq_iff stale "token").1 e in absurd (cc)

lease_fences_example :
    let s = store_with ready_note in
    (compare_and_set_with_lease "r1" stale ReservationStatus.proof_ready ReservationStatus.submitted
        3 s
      ≡ (err Error.lease_mismatch, s))
    × (compare_and_set "r1" ReservationStatus.proof_ready ReservationStatus.submitted 3 s
        ≡ (err Error.lease_mismatch, s))
    × (heartbeat_lease "r1" stale 30 3 s ≡ (err Error.lease_mismatch, s))
    × (clear_lease "r1" stale 3 s ≡ (err Error.lease_mismatch, s))
unfolding requires_lease_token
lease_fences_example =
    lease_fences "r1" stale ReservationStatus.proof_ready ReservationStatus.submitted 30 3
      (store_with ready_note) ready_note ready_held stale-other refl

compare_and_set_locked-Moves_example :
    let (result, t) =
      compare_and_set_locked "r1" ReservationStatus.reserved ReservationStatus.released 5
        (store_with reserved_note) in
    After result
      (λ new.
        (old : NoteReservation) × Moves
          (store_with reserved_note)
          t
          "r1"
          ReservationStatus.reserved
          ReservationStatus.released
          old
          new)
      (λ e. t ≡ store_with reserved_note)
compare_and_set_locked-Moves_example =
    compare_and_set_locked-Moves "r1" ReservationStatus.reserved ReservationStatus.released 5
      (store_with reserved_note) (store_with-IsValid reserved_note)

create_reservation_batch-Creates_example :
    let (result, t) = create_reservation_batch (reserved_note ∷ []) [] new_store in
    After result
      (λ created.
        (created ≡ reserved_note ∷ [])
        × All (λ r. WasFree new_store r × Holds t r.reservation_id r) (reserved_note ∷ []))
      (λ e. t ≡ new_store)
create_reservation_batch-Creates_example =
    create_reservation_batch-Creates (reserved_note ∷ []) [] new_store

abbrev again : NoteReservation
again = note "r2" ReservationStatus.reserved "" 0

release_frees_example :
    let s = store_with reserved_note in
    let (result, t) =
      compare_and_set "r1" ReservationStatus.reserved ReservationStatus.released 5 s in
    (create_reservation again s ≡ (err Error.active_reservation_exists, s))
    × (result ≡ ok (transitioned ReservationStatus.released 5 reserved_note))
    × ((create_reservation again t).0 ≡ ok again)
unfolding is_active active_key run call create_reservation create_reservation_batch validate_batch
    validate_reservations validate_reservation_create validate_operations put_reservations
    put_operations put_reservation lookup insert contains
release_frees_example =
    release_frees "r1" 5 (store_with reserved_note) reserved_note (store_with-IsValid reserved_note)
      reserved_held refl again refl refl (λ e. cc) refl

abbrev submission : SubmittedReservationUpdate
submission = record {
  tx_hash = "hash";
  tx_bytes_hash = "";
  sign_doc_hash = "";
  account_sequence = 7;
}

abbrev ready_ref : SubmittedReservationRef
ready_ref = record { reservation_id = "r1"; lease_token = "token" }

mark_submitted-Marked_example :
    let (result, t) = mark_submitted (ready_ref ∷ []) [] submission 3 (store_with ready_note) in
    After result
      (λ (marked, operations).
        Pairs (Submits (store_with ready_note) submission 3 t) (ready_ref ∷ []) marked
        × All (IsSubmittedOperation submission 3) operations)
      (λ e. t ≡ store_with ready_note)
mark_submitted-Marked_example =
    mark_submitted-Marked (ready_ref ∷ []) [] submission 3 (store_with ready_note)
      (store_with-IsValid ready_note)

transitions_lem_example :
    ((is_terminal ReservationStatus.failed
        && can_transition ReservationStatus.failed ReservationStatus.replan_required)
      ≡ (status_eq ReservationStatus.failed ReservationStatus.failed
          && status_eq ReservationStatus.replan_required ReservationStatus.replan_required))
    × ((requires_lease_token ReservationStatus.failed ReservationStatus.replan_required
          && not (
              can_transition ReservationStatus.failed ReservationStatus.replan_required
              && is_active ReservationStatus.failed
              && is_active ReservationStatus.replan_required))
        ≡ false)
transitions_lem_example = transitions_lem ReservationStatus.failed ReservationStatus.replan_required

abbrev request : ReserveInput
request = record { reservation = reserved_note; operation = none }

reserve_batch-IsSecured_example :
    (t : MemoryStore) × ((reserve_batch (request ∷ []) 1 (some new_store)).1 ≡ some t)
    × After
        (reserve_batch (request ∷ []) 1 (some new_store)).0
        (λ created. All (λ r. IsSecured new_store t r) created)
        (λ e. t ≡ new_store)
reserve_batch-IsSecured_example = reserve_batch-IsSecured (request ∷ []) 1 new_store
