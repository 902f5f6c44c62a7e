-- ===== src/Keeper/Covered.antt =====
-- reserve.go, over all the messages that a chain accepts.
use clairveil.Prelude.{
  Bool, ℕ, ◌+◌, ◌^◌, ◌≤◌, String, true, false, not, ◌≡◌, refl, sym, subst, List, [], ◌∷◌, All,
  Option, none, some, arith,
}
use clairveil.Prelude.Result.{Result, ok, err, After, or_fail, ok-injective}
use clairveil.Prelude.Exec.{>>=-run, lift}
use clairveil.Keeper.State.{MsgDeposit, KeeperError, External, MsgContext, Store}
use clairveil.Keeper.Reserve.{reserve_snapshot}
use clairveil.Keeper.Deposit.{Deposit, check_deposit}
use clairveil.Keeper.Handlers.{
  rolled_back, cached, apply_deposit, deposit_with_funder, deposit, deposit_from,
}
use clairveil.Keeper.Spending.{Message, handle, run}
use clairveil.Keeper.Accepted.{check-eq-ok}
use clairveil.Keeper.Backing.{IsBank, IsBacked, books}
use clairveil.Keeper.Backed.{withdraw-IsBacked, transfer-books, apply_deposit-IsBacked}

module _ {B X : Type 0} (ext : External B X) where
  -- Whether a parsed address is the module account's.
  abbrev from_module : Option (List ℕ) → Bool
  from_module none = false
  from_module (some a) = ext.is_module a

  -- The creator of a `MsgDeposit`, who signs it, is not the module account, which has no key.
  abbrev pub IsSigned : Message → Type 0
  IsSigned (Message.msg_deposit ctx msg) = from_module (ext.parse_address msg.creator) ≡ false
  IsSigned (Message.msg_withdraw ctx msg) = Unit
  IsSigned (Message.msg_transfer ctx req) = Unit
  IsSigned (Message.deposit_call ctx msg funder) = Unit

  parsed_other :
      (o : Option (List ℕ)) (a : List ℕ)
      → or_fail o KeeperError.invalid_address ≡ ok a
      → from_module o ≡ false
      → ext.is_module a ≡ false
  parsed_other none a h signed = absurd (cc)
  parsed_other (some c) a h signed = subst (λ x. ext.is_module x ≡ false) (ok-injective h) signed

module _ {B X : Type 0} (ext : External B X) (hash : ℕ → ℕ → ℕ → ℕ) (laws : IsBank ext)
    (d : String) where
  cached-IsBacked :
      (ctx : MsgContext) (msg : MsgDeposit) (funder : List ℕ) (verify : Bool) (w : Deposit)
      (k : Store B X)
      → ext.is_module funder ≡ false
      → IsBacked ext d (books k)
      → IsBacked ext d (books (cached (apply_deposit ext hash ctx msg funder verify w) k).1)
  cached-IsBacked ctx msg funder verify w k other v =
      go (apply_deposit ext hash ctx msg funder verify w k)
        (λ h. apply_deposit-IsBacked ext hash laws d ctx msg funder verify w k other h v)
    where
      go :
          (r : Result KeeperError Unit × Store B X)
          → (r.0 ≡ ok tt → IsBacked ext d (books r.1))
          → IsBacked ext d (books (rolled_back k r).1)
      go (ok _, t) h = h refl
      go (err e, t) h = v

  deposit-IsBacked :
      (ctx : MsgContext) (msg : MsgDeposit) (k : Store B X)
      → from_module ext (ext.parse_address msg.creator) ≡ false
      → (deposit ext hash ctx msg k).0 ≡ ok tt
      → IsBacked ext d (books k)
      → IsBacked ext d (books (deposit ext hash ctx msg k).1)
  unfolding deposit deposit_with_funder
  deposit-IsBacked ctx msg k signed h v =
      let P : Store B X → Type 0 = λ t. IsBacked ext d (books t) in
      check-eq-ok (not ctx.tree_context.audited) KeeperError.service_disabled _ k tt P h λ _ h.
        check-eq-ok (ext.valid_deposit msg) KeeperError.invalid_message _ k tt P h λ _ h.
          >>=-run (lift (or_fail (ext.parse_address msg.creator) KeeperError.invalid_address)) _ k
            tt P h
            λ depositor parsed h.
              >>=-run (lift (check_deposit ext ctx msg k))
                (λ w. cached (apply_deposit ext hash ctx msg depositor false w)) k tt P h
                λ w _ h.
                  cached-IsBacked ctx msg depositor false w k
                    (parsed_other ext _ depositor parsed signed) v

  deposit_from-IsBacked :
      (ctx : MsgContext) (msg : MsgDeposit) (funder : List ℕ) (k : Store B X)
      → (deposit_from ext hash ctx msg funder k).0 ≡ ok tt
      → IsBacked ext d (books k)
      → IsBacked ext d (books (deposit_from ext hash ctx msg funder k).1)
  unfolding deposit_from deposit_with_funder
  deposit_from-IsBacked ctx msg funder k h v =
      let P : Store B X → Type 0 = λ t. IsBacked ext d (books t) in
      check-eq-ok (not ctx.tree_context.audited) KeeperError.service_disabled _ k tt P h λ _ h.
        check-eq-ok (ext.valid_deposit msg) KeeperError.invalid_message _ k tt P h λ _ h.
          >>=-run (lift (or_fail (ext.parse_address msg.creator) KeeperError.invalid_address)) _ k
            tt P h
            λ _ _ h.
              check-eq-ok (ext.valid_address funder) KeeperError.invalid_address _ k tt P h λ _ h.
                check-eq-ok (not (ext.is_module funder)) KeeperError.invalid_address _ k tt P h
                  λ other h.
                    >>=-run (lift (check_deposit ext ctx msg k))
                      (λ w. cached (apply_deposit ext hash ctx msg funder true w)) k tt P h
                      λ w _ h. cached-IsBacked ctx msg funder true w k (ground (arith, other)) v

  handle-IsBacked :
      (m : Message) (k : Store B X)
      → IsSigned ext m
      → (handle ext hash m k).0 ≡ ok tt
      → IsBacked ext d (books k)
      → IsBacked ext d (books (handle ext hash m k).1)
  unfolding handle
  handle-IsBacked (Message.msg_withdraw ctx msg) k signed h v =
      withdraw-IsBacked ext hash laws d ctx msg k h v
  handle-IsBacked (Message.msg_transfer ctx req) k signed h v =
      subst (IsBacked ext d) (sym (transfer-books ext hash laws d ctx req k)) v
  handle-IsBacked (Message.msg_deposit ctx msg) k signed h v = deposit-IsBacked ctx msg k signed h v
  handle-IsBacked (Message.deposit_call ctx msg funder) k signed h v =
      deposit_from-IsBacked ctx msg funder k h v

  run-IsBacked :
      (ms : List Message) (k : Store B X)
      → All (IsSigned ext) ms
      → IsBacked ext d (books k)
      → IsBacked ext d (books (run ext hash ms k).1)
  unfolding run
  run-IsBacked [] k signed v = v
  run-IsBacked (m ∷ ms) k signed v =
      run-IsBacked ms (rolled_back k (handle ext hash m k)).1 signed.1
        (go (handle ext hash m k) (λ h. handle-IsBacked m k signed.0 h v))
    where
      go :
          (r : Result KeeperError Unit × Store B X)
          → (r.0 ≡ ok tt → IsBacked ext d (books r.1))
          → IsBacked ext d (books (rolled_back k r).1)
      go (ok _, t) h = h refl
      go (err e, t) h = v

  snapshot_covered :
      (k : Store B X)
      → IsBacked ext d (books k)
      → After
          (reserve_snapshot ext d k)
          (λ s.
            (s.invariant_holds ≡ true)
            × (s.collateralized ≡ true)
            × (s.surplus ≡ 0)
            × (s.liability + s.total_withdrawn ≡ s.total_deposited))
          (λ e. 2 ^ 256 ≤ ext.module_balance d k.bank)
  unfolding reserve_snapshot
  snapshot_covered k v = ground (arith, v.counted_in, v.counted_out, v.covered)

  -- If the bank moves coins between the module and other accounts as it should and does not pay the module's
  -- own account, no `MsgDeposit` is signed by the module's account, and the module's balance of a denom is
  -- what was deposited less what was withdrawn, then after any messages, each rolled back if it fails, `GetReserveSnapshot` of the
  -- denom finds that its invariant holds and that there is no surplus, with the counters as the liability
  -- says; it fails only if the balance is 2^256 or more.
  pub run_covered :
      (ms : List Message) (k : Store B X)
      → All (IsSigned ext) ms
      → IsBacked ext d (books k)
      → let t = (run ext hash ms k).1 in
        After
          (reserve_snapshot ext d t)
          (λ s.
            (s.invariant_holds ≡ true)
            × (s.collateralized ≡ true)
            × (s.surplus ≡ 0)
            × (s.liability + s.total_withdrawn ≡ s.total_deposited))
          (λ e. 2 ^ 256 ≤ ext.module_balance d t.bank)
  run_covered ms k signed v = snapshot_covered (run ext hash ms k).1 (run-IsBacked ms k signed v)
