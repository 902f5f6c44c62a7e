-- ===== src/Reservation/Store.antt =====
-- memory_store.go: the state of `MemoryStore`, and the helpers that its methods call with the lock
-- held. Values are immutable here, so `cloneReservation` and `cloneOperation` are left out; every
-- method holds the lock from start to end, so a method is one step. A store comes from
-- `NewMemoryStore`, so no map is nil and `ensureMapsLocked` does nothing; its rebuilding of the index
-- is `rebuild_index`. The four maps of batch operations belong to batch_memory_store.go.
use clairveil.Prelude.{String, Bool, false, not, Option, none, some, [], ◌∷◌, str_eq, if◌then◌else◌}
use clairveil.Prelude.Exec.{Exec}
use clairveil.Prelude.Result.{Result, ok, err}
use clairveil.Prelude.Dict.{Dict, lookup, insert, erase}
use clairveil.Reservation.Status.{ReservationStatus, is_active}
use clairveil.Reservation.Types.{Error, NoteReservation, PayrollOperation, active_key}

pub record MemoryStore : Type 0 where
  pub reservations : Dict NoteReservation
  pub operations : Dict PayrollOperation
  pub active_reservation_by_key : Dict String

-- `NewMemoryStore`.
abbrev pub new_store : MemoryStore
new_store = record { reservations = []; operations = []; active_reservation_by_key = [] }

abbrev pub Method : Type 0 → Type 0
Method A = Exec MemoryStore Error A

-- The `delete` of `storeReservationLocked`.
unfoldable pub drop_key : Option NoteReservation → Dict String → Dict String
drop_key none index = index
drop_key (some existing) index =
    if is_active existing.status then erase (active_key existing) index else index

-- `storeReservationLocked`.
unfoldable pub put_reservation : NoteReservation → MemoryStore → MemoryStore
unfolding drop_key
put_reservation r s = record s {
  reservations = insert r.reservation_id r s.reservations;
  active_reservation_by_key =
      let index = drop_key (lookup r.reservation_id s.reservations) s.active_reservation_by_key in
      if is_active r.status then insert (active_key r) r.reservation_id index else index;
}

-- `s.operations[operation.OperationID] = operation`.
unfoldable pub put_operation : PayrollOperation → MemoryStore → MemoryStore
put_operation o s = record s { operations = insert o.operation_id o s.operations }

-- `activeReservationConflictLocked`.
unfoldable pub has_conflict : NoteReservation → String → MemoryStore → Bool
has_conflict candidate exclude s =
    elim (lookup (active_key candidate) s.active_reservation_by_key) [
      | none ↦ false
      | some existing ↦ not (str_eq existing exclude)
    ]

-- The loop of `ensureMapsLocked`, over the keys and values of the reservations.
unfoldable pub rebuild_index : Dict NoteReservation → Dict String → Dict String
rebuild_index [] index = index
rebuild_index ((id, r) ∷ rest) index =
    rebuild_index rest (if is_active r.status then insert (active_key r) id index else index)

-- `clearReservationLeaseFields`.
abbrev pub clear_lease_fields : NoteReservation → NoteReservation
clear_lease_fields r = record r {
  lease_owner = "";
  lease_token = "";
  lease_until = 0;
  last_heartbeat_at = 0;
}

-- `clearLeaseForStatusTransition`.
unfoldable pub clear_lease_for : ReservationStatus → NoteReservation → NoteReservation
clear_lease_for ReservationStatus.proving r = r
clear_lease_for ReservationStatus.proof_ready r = r
clear_lease_for _ r = clear_lease_fields r

-- How a method on one reservation ends: its checks fail and it returns the error, or it stores what
-- `f` makes of the reservation that they found, and returns it.
unfoldable pub commit :
    (NoteReservation → NoteReservation) → Result Error NoteReservation → Method NoteReservation
commit f (ok r) s = (ok (f r), put_reservation (f r) s)
commit f (err e) s = (err e, s)
