-- ===== src/Reservation/Batch/Rides.antt =====
-- batch_memory_store.go: the writes to reservations of the lease methods, as trails.
use clairveil.Prelude.{
  ℕ, String, false, not, ◌||◌, ◌≡◌, inl, inr, refl, subst, ◌∙◌, some, List, [], ◌∷◌, map, All,
  arith, Bool-cases, ltb,
}
use clairveil.Prelude.Result.{Result, ok, guard, or_fail, >>=-then}
use clairveil.Prelude.Exec.{continue, continue-after}
use clairveil.Prelude.Dict.{lookup}
use clairveil.Reservation.Status.{is_terminal_operation}
use clairveil.Reservation.Types.{Error, NoteReservation, active_key}
use clairveil.Reservation.Store.{MemoryStore}
use clairveil.Reservation.Transition.{require_lease_token}
use clairveil.Reservation.Lease.{leased, renewed}
use clairveil.Reservation.Create.{put_reservations}
use clairveil.Reservation.Invariant.{IsValid}
use clairveil.Reservation.Links.{is_blank}
use clairveil.Reservation.Batch.Types.{BatchOperation, OperationInputReservation}
use clairveil.Reservation.Batch.Store.{
  BatchStore, Method, inputs_of, find_batch, input_reservations, put_batch, require_batch_lease,
}
use clairveil.Reservation.Batch.Lease.{
  is_free, check_free, batch_acquirable, grant, acquire_batch_lease, gather, batch_renewable, renew,
  heartbeat_batch_lease, release_batch_lease, latest,
}
use clairveil.Reservation.Batch.Transition.{finish}
use clairveil.Reservation.Batch.Trail.{Trail, Trail-append, Trail-IsValid}
use clairveil.Reservation.Batch.Trails.{
  Alike, Retains, Names, IsInput, input_reservations-IsInput, held-IsInput, rewrite-Trail,
}
use clairveil.Reservation.Batch.Loops.{clear_input_leases-Trail}

module _ (P : String → Type 0) (id : String) where
  abbrev pub Rides : {A : Type 0} → Method A → Type 0
  Rides m =
      (b : BatchStore) → IsValid b.base → Names P (inputs_of id b) → Trail P b.base (m b).1.base

  pub continue-Trail :
      {A B : Type 0} (r : Result Error A) (g : A → Method B) (b : BatchStore)
      → ((a : A) → r ≡ ok a → Trail P b.base (g a b).1.base)
      → Trail P b.base (continue r g b).1.base
  continue-Trail r g b h = continue-after (λ t. Trail P b.base t.base) r g b (Trail.stay b.base) h

  -- The end of a method, after the inputs were written.
  pub finish-Trail :
      (now : ℕ) (op : BatchOperation) (s : MemoryStore) (b : BatchStore)
      → IsValid b.base
      → Names P (inputs_of id b)
      → Trail P b.base s
      → Trail P b.base (finish id now op s b).1.base
  unfolding finish put_batch
  finish-Trail now op s b v p path =
      Trail-append path (clear_input_leases-Trail P (inputs_of id b) now s (Trail-IsValid path v) p)

  -- Inputs of which only the lease is rewritten.
  lease-Trail :
      (f : NoteReservation → NoteReservation) (rs : List NoteReservation) (s : MemoryStore)
      → Retains f
      → ((r : NoteReservation) → r.status ≡ (f r).status)
      → All (IsInput P s) rs
      → Trail P s (put_reservations (map f rs) s)
  lease-Trail f rs s fixed same h = rewrite-Trail P f rs s fixed h (go rs)
    where
      go : (qs : List NoteReservation) → All (λ r. Alike r.status (f r).status) qs
      go [] = tt
      go (r ∷ qs) = (inl (same r), go qs)

  -- What the checks of `AcquireBatchOperationLease` have established.
  pub batch_acquirable-parts :
      (owner token : String) (until now : ℕ) (b : BatchStore) (op : BatchOperation)
      (rs : List NoteReservation)
      → batch_acquirable id owner token until now b ≡ ok (op, rs)
      → (lookup id b.batch_operations ≡ some op)
        × (is_blank token ≡ false)
        × (is_terminal_operation op.status ≡ false)
        × (input_reservations (inputs_of id b) b.base ≡ ok rs)
        × (check_free now rs ≡ ok tt)
  unfolding batch_acquirable find_batch
  batch_acquirable-parts owner token until now b op rs h =
      >>=-then (find_batch id b) _ h λ o known h.
        >>=-then (guard (not (is_blank owner || is_blank token || not (ltb now until))) _) _ h
          λ _ named h. >>=-then (guard (is_free o.lease_token o.lease_until now) _) _ h λ _ _ h.
            >>=-then (guard (not (is_terminal_operation o.status)) _) _ h λ _ live h.
              >>=-then (input_reservations (inputs_of id b) b.base) _ h λ qs found h.
                >>=-then (check_free now qs) _ h λ _ free h.
                  let e : o ≡ op = cc h in
                  let e' : qs ≡ rs = cc h in
                  (
                    ground arith,
                    ground arith,
                    subst (λ x. is_terminal_operation x.status ≡ false) e (ground arith),
                    found ∙ cc e',
                    subst (λ x. check_free now x ≡ ok tt) e' free,
                  )

  batch_acquirable-IsInput :
      (owner token : String) (until now : ℕ) (b : BatchStore) (op : BatchOperation)
      (rs : List NoteReservation)
      → IsValid b.base
      → Names P (inputs_of id b)
      → batch_acquirable id owner token until now b ≡ ok (op, rs)
      → All (IsInput P b.base) rs
  batch_acquirable-IsInput owner token until now b op rs v p h =
      let (_, _, _, found, _) = batch_acquirable-parts owner token until now b op rs h in
      input_reservations-IsInput P (inputs_of id b) b.base rs v p found

  pub acquire_batch_lease-Rides :
      (owner token : String) (until now : ℕ) → Rides (acquire_batch_lease id owner token until now)
  unfolding acquire_batch_lease grant put_batch leased active_key
  acquire_batch_lease-Rides owner token until now b v p =
      continue-Trail (batch_acquirable id owner token until now b) _ b λ (op, rs) h.
        lease-Trail (leased owner token until now) rs b.base (λ r. (refl, refl)) (λ r. refl)
          (batch_acquirable-IsInput owner token until now b op rs v p h)

  gather-IsInput :
      (is : List OperationInputReservation) (token : String) (now : ℕ) (s : MemoryStore)
      (beat until : ℕ) (found : ℕ × ℕ × List NoteReservation)
      → IsValid s
      → Names P is
      → gather is token now s beat until ≡ ok found
      → All (IsInput P s) found.2
  unfolding gather
  gather-IsInput [] token now s beat until found v p h =
      let e : [] ≡ found.2 = cc h in subst (λ l. All (IsInput P s) l) e tt
  gather-IsInput (i ∷ is) token now s beat until found v p h =
      >>=-then (or_fail (lookup i.reservation_id s.reservations) _) _ h λ r at h.
        >>=-then (require_lease_token r token now) _ h λ _ _ h.
          >>=-then
            (gather is token now s (latest beat r.last_heartbeat_at) (latest until r.lease_until)) _
            h
            λ rest more h.
              let e : (r ∷ rest.2) ≡ found.2 = cc h in
              subst (λ l. All (IsInput P s) l) e
                (
                  held-IsInput P s i.reservation_id r v p.0 (ground arith),
                  gather-IsInput is token now s _ _ rest v p.1 more,
                )

  batch_renewable-IsInput :
      (token : String) (until now : ℕ) (b : BatchStore) (op : BatchOperation)
      (found : ℕ × ℕ × List NoteReservation)
      → IsValid b.base
      → Names P (inputs_of id b)
      → batch_renewable id token until now b ≡ ok (op, found)
      → All (IsInput P b.base) found.2
  unfolding batch_renewable
  batch_renewable-IsInput token until now b op found v p h =
      >>=-then (require_batch_lease id token now b) _ h λ o _ h.
        >>=-then (guard (ltb now until) _) _ h λ _ _ h.
          >>=-then (gather (inputs_of id b) token now b.base o.last_heartbeat_at o.lease_until) _ h
            λ got more h.
              let e : got ≡ found = cc h in
              subst (λ l. All (IsInput P b.base) l.2) e
                (gather-IsInput (inputs_of id b) token now b.base _ _ got v p more)

  renew-Trail :
      (until now : ℕ) (op : BatchOperation) (beat end : ℕ) (rs : List NoteReservation)
      (b : BatchStore)
      → All (IsInput P b.base) rs
      → Trail P b.base (renew id until now op beat end rs b).1.base
  unfolding renew put_batch renewed active_key
  renew-Trail until now op beat end rs b h = elim (Bool-cases (ltb now beat)) [
    | inl e ↦ rw e (Trail.stay b.base)
    | inr e ↦
        rw e
          (lease-Trail (renewed (latest end until) now) rs b.base (λ r. (refl, refl)) (λ r. refl) h)
  ]

  pub heartbeat_batch_lease-Rides :
      (token : String) (until now : ℕ) → Rides (heartbeat_batch_lease id token until now)
  unfolding heartbeat_batch_lease
  heartbeat_batch_lease-Rides token until now b v p =
      continue-Trail (batch_renewable id token until now b) _ b λ (op, found) h.
        let (beat, end, rs) = found in
        renew-Trail until now op beat end rs b
          (batch_renewable-IsInput token until now b op (beat, end, rs) v p h)

  pub release_batch_lease-Rides :
      (token : String) (now : ℕ) → Rides (release_batch_lease id token now)
  unfolding release_batch_lease put_batch
  release_batch_lease-Rides token now b v p =
      continue-Trail (require_batch_lease id token now b) _ b
        λ op h. clear_input_leases-Trail P (inputs_of id b) now b.base v p
