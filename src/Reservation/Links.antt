-- ===== src/Reservation/Links.antt =====
-- memory_store.go: the checks that tie a batch of leased reservations to its operations.
use Prim.Native.Char.{code}
use clairveil.Prelude.{
  ℕ, String, Bool, true, false, not, ◌&&◌, ◌||◌, ◌==◌, leb, List, [], ◌∷◌, all, str_eq,
  if◌then◌else◌,
}
use clairveil.Prelude.Result.{Result, ok, guard, or_fail, ◌>>=◌, ◌>>◌}
use clairveil.Prelude.Dict.{StringSet, lookup, contains, insert, values}
use clairveil.Reservation.Status.{ReservationStatus, status_eq, is_active}
use clairveil.Reservation.Types.{Error, NoteReservation, PayrollOperation, SubmittedReservationRef}
use clairveil.Reservation.Store.{MemoryStore}
use clairveil.Reservation.Transition.{require_lease_token}

-- `unicode.IsSpace`.
unfoldable pub is_space : ℕ → Bool
is_space c =
    (leb 9 c && leb c 13)
    || c == 32
    || c == 0x85
    || c == 0xa0
    || c == 0x1680
    || (leb 0x2000 c && leb c 0x200a)
    || c == 0x2028
    || c == 0x2029
    || c == 0x202f
    || c == 0x205f
    || c == 0x3000

-- `strings.TrimSpace(s) == ""`.
unfoldable pub is_blank : String → Bool
unfolding is_space
is_blank String.[] = true
is_blank (String.◌∷◌ c s) = is_space (code c) && is_blank s

abbrev pub is_nil {ℓ} : {A : Type ℓ} → List A → Bool
is_nil [] = true
is_nil (x ∷ xs) = false

-- `hasOperationID`.
unfoldable pub has_operation_id : List String → Bool
has_operation_id [] = false
has_operation_id (id ∷ ids) = not (str_eq id "") || has_operation_id ids

unfoldable pub linked_ids : List NoteReservation → List String
linked_ids [] = []
linked_ids (r ∷ rs) =
    let rest = linked_ids rs in if str_eq r.operation_id "" then rest else r.operation_id ∷ rest

-- `operationIDsForReservationUpdate`.
unfoldable pub operation_ids_for : List NoteReservation → List String → List String
operation_ids_for rs ids = if has_operation_id ids then ids else linked_ids rs

-- The ids that end in the set which `loadLinkedOperationsLocked` returns.
unfoldable pub non_empty : List String → List String
non_empty [] = []
non_empty (id ∷ ids) = let rest = non_empty ids in if str_eq id "" then rest else id ∷ rest

unfoldable pub all_unlinked : List NoteReservation → Bool
all_unlinked [] = true
all_unlinked (r ∷ rs) = str_eq r.operation_id "" && all_unlinked rs

-- The checks on one reference of `validateLeasedReservationsForStatusLocked`.
unfoldable pub validate_ref :
    SubmittedReservationRef
    → ReservationStatus
    → ℕ
    → StringSet
    → MemoryStore
    → Result Error NoteReservation
validate_ref ref status now seen s = do
  guard (not (str_eq ref.reservation_id "")) Error.invalid_reservation
  guard (not (contains ref.reservation_id seen)) Error.invalid_reservation
  r ← or_fail (lookup ref.reservation_id s.reservations) Error.reservation_not_found
  guard (status_eq r.status status) Error.compare_and_set_failed
  require_lease_token r ref.lease_token now
  ok r

-- `validateLeasedReservationsForStatusLocked`.
unfoldable pub validate_leased :
    List SubmittedReservationRef
    → ReservationStatus
    → ℕ
    → StringSet
    → MemoryStore
    → Result Error (List NoteReservation)
validate_leased [] status now seen s = ok []
validate_leased (ref ∷ refs) status now seen s = do
  r ← validate_ref ref status now seen s
  rs ← validate_leased refs status now (insert ref.reservation_id tt seen) s
  ok (r ∷ rs)

-- The operations of `loadLinkedOperationsLocked`; the ids are those of `non_empty`.
unfoldable pub load_linked_operations :
    List String → StringSet → MemoryStore → Result Error (List PayrollOperation)
load_linked_operations [] seen s = ok []
load_linked_operations (id ∷ ids) seen s = elim (str_eq id "" || contains id seen) [
  | true ↦ load_linked_operations ids seen s
  | false ↦ do
    o ← or_fail (lookup id s.operations) Error.operation_not_found
    os ← load_linked_operations ids (insert id tt seen) s
    ok (o ∷ os)
]

-- The first loop of `validateReservationOperationLinksLocked`: each reservation names a listed
-- operation.
unfoldable pub names_listed : StringSet → NoteReservation → Bool
names_listed ids r = not (str_eq r.operation_id "") && contains r.operation_id ids

-- `linked[operationID][reservationID]`, as a test on the reservations it is built from.
unfoldable pub is_linked : String → String → List NoteReservation → Bool
is_linked operation_id id [] = false
is_linked operation_id id (r ∷ rs) =
    (str_eq r.operation_id operation_id && str_eq r.reservation_id id)
    || is_linked operation_id id rs

-- `linked[operationID]`, as a test.
unfoldable pub has_link : List NoteReservation → String → Bool
has_link [] operation_id = false
has_link (r ∷ rs) operation_id = str_eq r.operation_id operation_id || has_link rs operation_id

-- The last loop: no active reservation of a listed operation is left out.
unfoldable pub is_covered : List NoteReservation → StringSet → NoteReservation → Bool
unfolding is_linked
is_covered rs ids r =
    str_eq r.operation_id ""
    || not (is_active r.status)
    || not (contains r.operation_id ids)
    || is_linked r.operation_id r.reservation_id rs

unfoldable pub keys : StringSet → List String
keys [] = []
keys ((k, _) ∷ d) = k ∷ keys d

-- `validateReservationOperationLinksLocked`; all its errors wrap `ErrInvalidReservation`.
unfoldable pub validate_links : List NoteReservation → StringSet → MemoryStore → Result Error Unit
unfolding keys
validate_links rs [] s = ok tt
validate_links rs ids s = do
  guard (all (names_listed ids) rs) Error.invalid_reservation
  guard (all (has_link rs) (keys ids)) Error.invalid_reservation
  guard (all (is_covered rs ids) (values s.reservations)) Error.invalid_reservation
