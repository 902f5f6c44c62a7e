-- ===== src/Keeper/Delivered.antt =====
-- msg_server.go: the nullifiers of all the messages that a chain accepts.
use clairveil.Prelude.{ℕ, Bool, true, false, ◌||◌, ◌≡◌, refl, ap, List, [], ◌∷◌, ◌++◌, arith}
use clairveil.Prelude.Result.{Result, ok, err}
use clairveil.Keeper.State.{KeeperError, External, Store}
use clairveil.Keeper.Checks.{mem_field}
use clairveil.Keeper.Handlers.{rolled_back}
use clairveil.Keeper.Spending.{Message, named_nullifiers, fields, handle, run}
use clairveil.Keeper.Once.{IsDistinct, mem_field-++, ++-IsDistinct}
use clairveil.Keeper.Accepted.{
  Spends, withdraw-Spends, transfer-Spends, deposit-Leaves, deposit_from-Leaves,
}

-- From `k` to `t` the nullifiers `ns` were spent.
pub record IsSpending {B X : Type 0} (ns : List ℕ) (k t : Store B X) : Type 0 where
  pub distinct : IsDistinct ns
  pub unused : (x : ℕ) → mem_field x ns ≡ true → k.nullifiers x ≡ false
  pub marks : (x : ℕ) → t.nullifiers x ≡ (mem_field x ns || k.nullifiers x)

module _ {B X : Type 0} (ext : External B X) (hash : ℕ → ℕ → ℕ → ℕ) where
  -- If a message is accepted, the nullifiers that it names are distinct, none of them was used before, and
  -- exactly they become used.
  pub handle-Spends :
      (m : Message) (k : Store B X)
      → (handle ext hash m k).0 ≡ ok tt
      → Spends (named_nullifiers m) k (handle ext hash m k).1
  unfolding handle fields mem_field
  handle-Spends (Message.msg_withdraw ctx msg) k h = withdraw-Spends ext hash ctx msg k h
  handle-Spends (Message.msg_transfer ctx req) k h = transfer-Spends ext hash ctx req k h
  handle-Spends (Message.msg_deposit ctx msg) k h = record {
    distinct = tt;
    unused = λ x m. absurd (cc);
    marks = λ x. ap (λ (f : ℕ → Bool). f x) (deposit-Leaves ext hash ctx msg k);
  }
  handle-Spends (Message.deposit_call ctx msg funder) k h = record {
    distinct = tt;
    unused = λ x m. absurd (cc);
    marks = λ x. ap (λ (f : ℕ → Bool). f x) (deposit_from-Leaves ext hash ctx msg funder k);
  }

  IsSpending-append :
      (ns ms : List ℕ) (k t u : Store B X)
      → IsSpending ns k t
      → IsSpending ms t u
      → IsSpending (ns ++ ms) k u
  IsSpending-append ns ms k t u a b = record {
    distinct =
        ++-IsDistinct ns ms a.distinct b.distinct λ x h. ground (arith, a.marks x, b.unused x);
    unused = λ x h. ground (arith, a.unused x, a.marks x, b.unused x, mem_field-++ x ns ms);
    marks = λ x. ground (arith, a.marks x, b.marks x, mem_field-++ x ns ms);
  }

  -- Whatever messages are delivered, one after the other and each rolled back if it fails, the nullifiers
  -- that the accepted ones name are all distinct, none of them was used at the start, and in the end
  -- exactly they are used beside those that were.
  pub run-IsSpending :
      (ms : List Message) (k : Store B X) → IsSpending (run ext hash ms k).0 k (run ext hash ms k).1
  unfolding run mem_field
  run-IsSpending [] k = record { distinct = tt; unused = λ x m. absurd (cc); marks = λ x. refl }
  run-IsSpending (m ∷ ms) k = go (handle ext hash m k) (handle-Spends m k) (run-IsSpending ms)
    where
      go :
          (r : Result KeeperError Unit × Store B X)
          → (r.0 ≡ ok tt → Spends (named_nullifiers m) k r.1)
          → ((t : Store B X) → IsSpending (run ext hash ms t).0 t (run ext hash ms t).1)
          → let (result, t) = rolled_back k r in
            let (spent, end) = run ext hash ms t in
            IsSpending
              (elim result [ ok _ ↦ fields (named_nullifiers m) ++ spent | err e ↦ spent ])
              k
              end
      go (err e, t) h rest = rest k
      go (ok _, t) h rest =
          let s = h refl in
          IsSpending-append (fields (named_nullifiers m)) _ k t _
            (record { distinct = s.distinct; unused = s.unused; marks = s.marks }) (rest t)
