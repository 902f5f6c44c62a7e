-- ===== src/Reservation/Batch/Numbering.antt =====
-- batch_memory_store.go: what the loop of `CreateBatchOperation` on the inputs has established.
use clairveil.Prelude.{
  String, true, false, not, ◌&&◌, ◌≡◌, ◌≢◌, List, [], ◌∷◌, map, All, All-map, arith, str_eq,
  str_eq_iff, ==_iff,
}
use clairveil.Prelude.Int.{ℤ, pos, negsuc}
use clairveil.Prelude.Result.{ok, guard, >>=-then}
use clairveil.Prelude.Dict.{StringSet, contains, insert, lookup-insert}
use clairveil.Reservation.Batch.Types.{schema_version_v1, BatchOperation, OperationInputReservation}
use clairveil.Reservation.Batch.Texts.{is_canonical_field_hex}
use clairveil.Reservation.Batch.Create.{eq_ℤ, mem_ℤ, in_range, check_inputs}

-- No two elements are equal.
abbrev pub Apart : {A : Type 0} → List A → Type 0
Apart [] = Unit
Apart (x ∷ xs) = All (λ y. x ≢ y) xs × Apart xs

abbrev pub index_of : OperationInputReservation → ℤ
index_of i = i.input_index

abbrev pub input_id : OperationInputReservation → String
input_id i = i.reservation_id

-- An input of the batch, with an index of its own in the range, and a reservation among the ids.
abbrev pub IsInputOf : BatchOperation → StringSet → OperationInputReservation → Type 0
IsInputOf op ids i =
    (i.operation_id ≡ op.operation_id)
    × (in_range i.input_index op.input_count ≡ true)
    × (is_canonical_field_hex i.commitment ≡ true)
    × (contains i.reservation_id ids ≡ true)

eq_ℤ-refl : (i : ℤ) → eq_ℤ i i ≡ true
unfolding eq_ℤ
eq_ℤ-refl (pos n) = ground (arith, ==_iff n n)
eq_ℤ-refl (negsuc n) = ground (arith, ==_iff n n)

mem_ℤ-apart : (i j : ℤ) (js : List ℤ) → mem_ℤ j (i ∷ js) ≡ false → i ≢ j
unfolding mem_ℤ
mem_ℤ-apart i j js h e = absurd (cc (rw (e, eq_ℤ-refl) at h))

mem_ℤ-rest : (i j : ℤ) (js : List ℤ) → mem_ℤ j (i ∷ js) ≡ false → mem_ℤ j js ≡ false
unfolding mem_ℤ
mem_ℤ-rest i j js h = ground arith

pub contains-apart : (k j : String) (s : StringSet) → contains j (insert k tt s) ≡ false → k ≢ j
unfolding contains
contains-apart k j s h e = ground (arith, lookup-insert k j tt s, str_eq_iff k j)

pub contains-rest :
    (k j : String) (s : StringSet) → contains j (insert k tt s) ≡ false → contains j s ≡ false
unfolding contains
contains-rest k j s h = ground (arith, lookup-insert k j tt s)

abbrev IsFresh : List ℤ → StringSet → OperationInputReservation → Type 0
IsFresh indices seen i =
    (mem_ℤ i.input_index indices ≡ false) × (contains i.reservation_id seen ≡ false)

-- What the loop on the inputs has established.
pub record Inputs (op : BatchOperation) (ids : StringSet) (indices : List ℤ) (seen : StringSet)
    (is : List OperationInputReservation) : Type 0 where
  pub of_batch : All (IsInputOf op ids) is
  pub fresh : All (IsFresh indices seen) is
  pub indices_apart : Apart (map index_of is)
  pub ids_apart : Apart (map input_id is)

map-All :
    {A B : Type 0} (P : B → Type 0) (f : A → B) (xs : List A)
    → All (λ x. P (f x)) xs
    → All P (map f xs)
map-All P f [] h = tt
map-All P f (x ∷ xs) h = (h.0, map-All P f xs h.1)

pub check_inputs-Inputs :
    (op : BatchOperation) (ids : StringSet) (is : List OperationInputReservation) (indices : List ℤ)
    (seen : StringSet)
    → check_inputs op ids is indices seen ≡ ok tt
    → Inputs op ids indices seen is
unfolding check_inputs
check_inputs-Inputs op ids [] indices seen h = record {
  of_batch = tt;
  fresh = tt;
  indices_apart = tt;
  ids_apart = tt;
}
check_inputs-Inputs op ids (i ∷ is) indices seen h =
    >>=-then
      (guard
        (str_eq i.version schema_version_v1
          && str_eq i.operation_id op.operation_id
          && in_range i.input_index op.input_count
          && is_canonical_field_hex i.commitment)
        _)
      _ h
      λ _ linked h. >>=-then (guard (contains i.reservation_id ids) _) _ h λ _ named h.
        >>=-then (guard (not (mem_ℤ i.input_index indices)) _) _ h λ _ index h.
          >>=-then (guard (not (contains i.reservation_id seen)) _) _ h λ _ once h.
            let r =
              check_inputs-Inputs op ids is (i.input_index ∷ indices)
                (insert i.reservation_id tt seen) h in
            record {
              of_batch = (
                (
                  ground (arith, str_eq_iff i.operation_id op.operation_id),
                  ground arith,
                  ground arith,
                  ground arith,
                ),
                r.of_batch,
              );
              fresh = (
                (ground arith, ground arith),
                All-map is
                    (λ k f. (
                      mem_ℤ-rest i.input_index k.input_index indices f.0,
                      contains-rest i.reservation_id k.reservation_id seen f.1,
                    ))
                    r.fresh,
              );
              indices_apart = (
                map-All (λ y. i.input_index ≢ y) index_of is
                    (All-map is (λ k f. mem_ℤ-apart i.input_index k.input_index indices f.0)
                      r.fresh),
                r.indices_apart,
              );
              ids_apart = (
                map-All (λ y. i.reservation_id ≢ y) input_id is
                    (All-map is (λ k f. contains-apart i.reservation_id k.reservation_id seen f.1)
                      r.fresh),
                r.ids_apart,
              );
            }
