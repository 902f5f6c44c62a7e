-- ===== src/Reservation/Batch/Renewal.antt =====
-- batch_memory_store.go: the ends of the leases before and after a heartbeat.
use clairveil.Prelude.{
  ℕ, String, ◌≡◌, ◌≤◌, inl, inr, refl, sym, subst, some, List, [], ◌∷◌, map, All, arith,
  str_eq_refl, Bool-cases, ltb,
}
use clairveil.Prelude.Result.{ok, or_fail, guard, >>=-then, ok-injective}
use clairveil.Prelude.Exec.{continue-after}
use clairveil.Prelude.Dict.{lookup, lookup-insert}
use clairveil.Reservation.Types.{NoteReservation}
use clairveil.Reservation.Store.{MemoryStore}
use clairveil.Reservation.Transition.{require_lease_token}
use clairveil.Reservation.Lease.{renewed}
use clairveil.Reservation.Invariant.{IsValid, Holds}
use clairveil.Reservation.Batch.Types.{BatchOperation, OperationInputReservation}
use clairveil.Reservation.Batch.Store.{
  BatchStore, inputs_of, find_batch, require_batch_lease, put_batch,
}
use clairveil.Reservation.Batch.Lease.{
  latest, gather, batch_renewable, renewed_operation, renew, heartbeat_batch_lease,
}
use clairveil.Reservation.Batch.Has.{Has, put_reservations-Has}

-- A reservation of the store, whose lease ends by the given time.
abbrev EndsBy : MemoryStore → ℕ → NoteReservation → Type 0
EndsBy s end r = Holds s r.reservation_id r × (r.lease_until ≤ end)

gather-EndsBy :
    (is : List OperationInputReservation) (token : String) (now : ℕ) (s : MemoryStore)
    (beat until : ℕ) (found : ℕ × ℕ × List NoteReservation)
    → IsValid s
    → gather is token now s beat until ≡ ok found
    → (until ≤ found.1) × All (EndsBy s found.1) found.2
unfolding gather
gather-EndsBy [] token now s beat until found v h =
    let e : ◌≡◌ {A = ℕ × ℕ × List NoteReservation} (beat, until, []) found = ok-injective h in
    subst (λ x. (until ≤ x.1) × All (EndsBy s x.1) x.2) e (omega arith, tt)
gather-EndsBy (i ∷ is) token now s beat until found v h =
    >>=-then (or_fail (lookup i.reservation_id s.reservations) _) _ h λ r at h.
      >>=-then (require_lease_token r token now) _ h λ _ _ h.
        >>=-then
          (gather is token now s (latest beat r.last_heartbeat_at) (latest until r.lease_until)) _ h
          λ rest more h.
            let e : (rest.0, rest.1, r ∷ rest.2) ≡ found = ok-injective h in
            let (up, all) = gather-EndsBy is token now s _ _ rest v more in
            let at' : Holds s i.reservation_id r = ground arith in
            subst (λ x. (until ≤ x.1) × All (EndsBy s x.1) x.2) e
              (
                ground arith,
                (
                  (
                    subst (λ j. Holds s j r) (sym (v.keyed i.reservation_id r at')) at',
                    ground arith,
                  ),
                  all,
                ),
              )

pub require_batch_lease-eq-ok :
    (id token : String) (now : ℕ) (b : BatchStore) (op : BatchOperation)
    → require_batch_lease id token now b ≡ ok op
    → lookup id b.batch_operations ≡ some op
unfolding require_batch_lease find_batch
require_batch_lease-eq-ok id token now b op h = ground arith

-- The operation and the reservation are stored, and their leases end no earlier than before.
abbrev pub IsKept : String → BatchOperation → String → NoteReservation → BatchStore → Type 0
IsKept id op j q c =
    ((o : BatchOperation) × (lookup id c.batch_operations ≡ some o)
      × (op.lease_until ≤ o.lease_until))
    × Has (λ r. q.lease_until ≤ r.lease_until) c.base j

module _ (id : String) (b : BatchStore) (op : BatchOperation) (j : String) (q : NoteReservation)
    (v : IsValid b.base) (known : lookup id b.batch_operations ≡ some op)
    (at : Holds b.base j q) where
  unrenewed : IsKept id op j q b
  unrenewed = ((op, known, omega arith), (q, at, omega arith))

  renewed_ends :
      (end now : ℕ) (rs : List NoteReservation)
      → All (EndsBy b.base end) rs
      → All (λ r. r.reservation_id ≡ j → q.lease_until ≤ r.lease_until) (map (renewed end now) rs)
  unfolding renewed
  renewed_ends end now [] h = tt
  renewed_ends end now (r ∷ rs) h =
      ((λ same. ground (arith, h.0.0, h.0.1, at)), renewed_ends end now rs h.1)

  raise_end :
      (a c : ℕ) (rs : List NoteReservation)
      → a ≤ c
      → All (EndsBy b.base a) rs
      → All (EndsBy b.base c) rs
  raise_end a c [] up h = tt
  raise_end a c (r ∷ rs) up h = ((h.0.0, omega (arith, h.0.1)), raise_end a c rs up h.1)

  renew-IsKept :
      (until now : ℕ) (o : BatchOperation) (beat end : ℕ) (rs : List NoteReservation)
      → op.lease_until ≤ end
      → All (EndsBy b.base end) rs
      → IsKept id op j q (renew id until now o beat end rs b).1
  unfolding renew renewed_operation put_batch
  renew-IsKept until now o beat end rs up h = elim (Bool-cases (ltb now beat)) [
    | inl e ↦ rw e unrenewed
    | inr e ↦ rw e (
      (
        renewed_operation (latest end until) now o,
        rw (lookup-insert, str_eq_refl id) refl,
        ground arith,
      ),
      put_reservations-Has (λ r. q.lease_until ≤ r.lease_until)
          (map (renewed (latest end until) now) rs) b.base j
          (renewed_ends (latest end until) now rs
            (raise_end end (latest end until) rs (ground arith) h))
          (q, at, omega arith),
    )
  ]

  batch_renewable-EndsBy :
      (token : String) (until now : ℕ) (o : BatchOperation) (found : ℕ × ℕ × List NoteReservation)
      → batch_renewable id token until now b ≡ ok (o, found)
      → (op.lease_until ≤ found.1) × All (EndsBy b.base found.1) found.2
  unfolding batch_renewable
  batch_renewable-EndsBy token until now o found h =
      >>=-then (require_batch_lease id token now b) _ h λ x had h.
        >>=-then (guard (ltb now until) _) _ h λ _ _ h.
          >>=-then (gather (inputs_of id b) token now b.base x.last_heartbeat_at x.lease_until) _ h
            λ got more h.
              let e : got ≡ found = cc h in
              let (up, all) = gather-EndsBy (inputs_of id b) token now b.base _ _ got v more in
              subst (λ g. (op.lease_until ≤ g.1) × All (EndsBy b.base g.1) g.2) e
                (ground (arith, up, require_batch_lease-eq-ok id token now b x had, known), all)

  -- If a store with valid reservations holds the batch operation and a reservation, then after a
  -- heartbeat of the batch, successful or not, it holds both, and neither's lease ends earlier than
  -- before.
  pub heartbeat_batch_lease-IsKept :
      (token : String) (until now : ℕ)
      → IsKept id op j q (heartbeat_batch_lease id token until now b).1
  unfolding heartbeat_batch_lease
  heartbeat_batch_lease-IsKept token until now =
      continue-after (λ c. IsKept id op j q c) (batch_renewable id token until now b) _ b unrenewed
        λ (o, found) h.
          let (beat, end, rs) = found in
          let (up, all) = batch_renewable-EndsBy token until now o (beat, end, rs) h in
          renew-IsKept until now o beat end rs up all
