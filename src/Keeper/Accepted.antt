-- ===== src/Keeper/Accepted.antt =====
-- msg_server.go and deposit.go: what an accepted message does to the nullifiers.
use clairveil.Prelude.{
  ℕ, Bool, true, false, not, ◌||◌, ◌≡◌, refl, ap, sym, subst, ◌∙◌, List, [], ◌∷◌, arith,
}
use clairveil.Prelude.Result.{Result, ok, err, or_fail}
use clairveil.Prelude.Exec.{Exec, Leaves, >>=-Leaves, continue-Leaves, continue, check, lift, ◌>>=◌}
use clairveil.Keeper.State.{
  MsgWithdraw, MsgDeposit, ShieldedTransferRequest, Event, KeeperError, External, MsgContext, Store,
}
use clairveil.Keeper.Checks.{mem_field, distinct_fields, set_nullifier, unused_nullifier}
use clairveil.Keeper.Reserve.{record_reserve_withdraw}
use clairveil.Keeper.Withdraw.{Withdrawal, check_withdraw}
use clairveil.Keeper.Transfer.{ShieldedTransfer, check_transfer, unused_nullifiers, first, second}
use clairveil.Keeper.Deposit.{check_deposit}
use clairveil.Keeper.Handlers.{
  pay_out, set_nullifiers, append_all, apply_withdraw, withdraw, apply_transfer, execute_transfer,
  transfer, apply_deposit, deposit_with_funder, deposit, deposit_from,
}
use clairveil.Keeper.Parts.{emit-Leaves, append_all-Leaves}
use clairveil.Keeper.Frames.{
  pay_out-Leaves, record_withdraw-Leaves, apply_deposit-Leaves, check-Leaves, cached-Leaves,
}
use clairveil.Keeper.Spending.{fields}
use clairveil.Keeper.Once.{
  IsDistinct, distinct_from-IsDistinct, unused_nullifiers-eq-ok, set_nullifiers_lem,
  check_withdraw-eq-ok, check_transfer-eq-ok,
}

-- From `k` to `t` the nullifiers of `bzs` are spent: they are distinct, none of them was used, and they
-- alone become used.
pub record Spends {B X : Type 0} (bzs : List (List ℕ)) (k t : Store B X) : Type 0 where
  pub distinct : IsDistinct (fields bzs)
  pub unused : (x : ℕ) → mem_field x (fields bzs) ≡ true → k.nullifiers x ≡ false
  pub marks : (x : ℕ) → t.nullifiers x ≡ (mem_field x (fields bzs) || k.nullifiers x)

-- A check that let the rest run.
pub check-eq-ok :
    {S E V : Type 0} (b : Bool) (e : E) (m : Exec S E V) (s : S) (v : V) (P : S → Type 0)
    → ((check b e >>= λ _. m) s).0 ≡ ok v
    → (b ≡ true → (m s).0 ≡ ok v → P (m s).1)
    → P ((check b e >>= λ _. m) s).1
check-eq-ok true e m s v P h rest = rest refl h
check-eq-ok false e m s v P h rest = absurd (cc)

module _ {B X : Type 0} (ext : External B X) (hash : ℕ → ℕ → ℕ → ℕ) (ctx : MsgContext) where
  -- The rest of `Withdraw` behind `SetNullifier` leaves the nullifiers.
  apply_withdraw_marks :
      (msg : MsgWithdraw) (w : Withdrawal) (k : Store B X)
      → (apply_withdraw ext hash ctx msg w k).1.nullifiers
        ≡ (set_nullifiers ext ctx (w.nullifier ∷ []) k).nullifiers
  unfolding apply_withdraw set_nullifiers
  apply_withdraw_marks msg w k =
      >>=-Leaves (λ k. k.nullifiers) (pay_out ext w.recipient w.coin) _
        (pay_out-Leaves ext hash w.recipient w.coin)
        (λ _.
          >>=-Leaves (λ k. k.nullifiers) (record_reserve_withdraw ext ctx w.coin) _
            (record_withdraw-Leaves ext hash ctx w.coin)
            (λ _.
              emit-Leaves ext hash (λ k. k.nullifiers) (λ k t. refl) (λ k x. refl) ctx
                (Event.withdrawn w.nullifier msg.creator msg.recipient)))
        (set_nullifier ext ctx w.nullifier k)

  apply_transfer_marks :
      (req : ShieldedTransferRequest) (w : ShieldedTransfer) (k : Store B X)
      → (apply_transfer ext hash ctx req w k).1.nullifiers
        ≡ (set_nullifiers ext ctx w.nullifiers k).nullifiers
  unfolding apply_transfer
  apply_transfer_marks req w k =
      >>=-Leaves (λ k. k.nullifiers) (append_all ext hash ctx req.new_commitments) _
        (append_all-Leaves ext hash (λ k. k.nullifiers) (λ k t. refl) (λ k x. refl) ctx
          req.new_commitments)
        (λ _.
          emit-Leaves ext hash (λ k. k.nullifiers) (λ k t. refl) (λ k x. refl) ctx
            (Event.transferred (first w.nullifiers) (second w.nullifiers) req))
        (set_nullifiers ext ctx w.nullifiers k)

  one_nullifier :
      (bz : List ℕ) (n : ℕ) (k : Store B X)
      → unused_nullifier ext bz k ≡ ok n
      → unused_nullifiers ext (bz ∷ []) k ≡ ok (n ∷ [])
  unfolding unused_nullifiers
  one_nullifier bz n k h = rw h refl

  -- The loops of the handlers over distinct nullifiers spend them.
  spends :
      (bzs : List (List ℕ)) (ns : List ℕ) (k t : Store B X)
      → ctx.tree_context.audited ≡ false
      → unused_nullifiers ext bzs k ≡ ok ns
      → IsDistinct (fields bzs)
      → t.nullifiers ≡ (set_nullifiers ext ctx ns k).nullifiers
      → Spends bzs k t
  spends bzs ns k t raw loop d e =
      let (same, free) = unused_nullifiers-eq-ok ext k bzs ns loop in
      record {
        distinct = d;
        unused = free;
        marks = λ x.
            ap (λ (f : ℕ → Bool). f x) e
            ∙ set_nullifiers_lem ext ctx ns k x raw
            ∙ ap (λ l. mem_field x l || k.nullifiers x) (sym same);
      }

  distinct_fields-IsDistinct :
      (bzs : List (List ℕ)) → distinct_fields bzs ≡ ok tt → IsDistinct (fields bzs)
  unfolding distinct_fields
  distinct_fields-IsDistinct bzs h = (distinct_from-IsDistinct [] bzs h).0

  pub withdraw-Spends :
      (msg : MsgWithdraw) (k : Store B X)
      → (withdraw ext hash ctx msg k).0 ≡ ok tt
      → Spends (msg.nullifier ∷ []) k (withdraw ext hash ctx msg k).1
  unfolding withdraw mem_field
  withdraw-Spends msg k = go (check_withdraw ext ctx msg k) refl
    where
      go :
          (m : Result KeeperError Withdrawal)
          → check_withdraw ext ctx msg k ≡ m
          → (continue m (λ w k. apply_withdraw ext hash ctx msg w k) k).0 ≡ ok tt
          → Spends
              (msg.nullifier ∷ [])
              k
              (continue m (λ w k. apply_withdraw ext hash ctx msg w k) k).1
      go (err e) c h = absurd (cc)
      go (ok w) c h =
          let (raw, found) = check_withdraw-eq-ok ext ctx k msg w c in
          let loop = one_nullifier msg.nullifier w.nullifier k found in
          let same =
            (unused_nullifiers-eq-ok ext k (msg.nullifier ∷ []) (w.nullifier ∷ []) loop).0 in
          spends (msg.nullifier ∷ []) (w.nullifier ∷ []) k _ raw loop
            (subst IsDistinct (sym same) (refl, tt)) (apply_withdraw_marks msg w k)

  pub execute_transfer-Spends :
      (req : ShieldedTransferRequest) (k : Store B X)
      → ctx.tree_context.audited ≡ false
      → (execute_transfer ext hash ctx req k).0 ≡ ok tt
      → Spends req.nullifiers k (execute_transfer ext hash ctx req k).1
  unfolding execute_transfer
  execute_transfer-Spends req k raw = go (check_transfer ext ctx req k) refl
    where
      go :
          (m : Result KeeperError ShieldedTransfer)
          → check_transfer ext ctx req k ≡ m
          → (continue m (λ w k. apply_transfer ext hash ctx req w k) k).0 ≡ ok tt
          → Spends req.nullifiers k (continue m (λ w k. apply_transfer ext hash ctx req w k) k).1
      go (err e) c h = absurd (cc)
      go (ok w) c h =
          let (apart, loop) = check_transfer-eq-ok ext ctx k req w c in
          spends req.nullifiers w.nullifiers k _ raw loop
            (distinct_fields-IsDistinct req.nullifiers apart) (apply_transfer_marks req w k)

  -- `Transfer` checks, and then executes.
  pub transfer-Spends :
      (req : ShieldedTransferRequest) (k : Store B X)
      → (transfer ext hash ctx req k).0 ≡ ok tt
      → Spends req.nullifiers k (transfer ext hash ctx req k).1
  unfolding transfer
  transfer-Spends req k h =
      check-eq-ok (not ctx.tree_context.audited) KeeperError.service_disabled _ k tt
        (Spends req.nullifiers k) h
        λ raw h.
          check-eq-ok (ext.valid_transfer req) KeeperError.invalid_message _ k tt
            (Spends req.nullifiers k) h λ _. execute_transfer-Spends req k (ground (arith, raw))

  deposit_with_funder-Leaves :
      (msg : MsgDeposit) (funder : List ℕ) (verify : Bool)
      → Leaves (λ k. k.nullifiers) (deposit_with_funder ext hash ctx msg funder verify)
  unfolding deposit_with_funder
  deposit_with_funder-Leaves msg funder verify k =
      continue-Leaves (λ k. k.nullifiers) (check_deposit ext ctx msg k) _
        (λ w.
          cached-Leaves (λ k. k.nullifiers) (apply_deposit ext hash ctx msg funder verify w)
            (apply_deposit-Leaves ext hash ctx msg funder verify w))
        k

  -- A deposit spends nothing.
  pub deposit-Leaves : (msg : MsgDeposit) → Leaves (λ k. k.nullifiers) (deposit ext hash ctx msg)
  unfolding deposit
  deposit-Leaves msg =
      >>=-Leaves (λ k. k.nullifiers)
        (check (not ctx.tree_context.audited) KeeperError.service_disabled) _
        (check-Leaves ext hash (not ctx.tree_context.audited) KeeperError.service_disabled)
        λ _.
          >>=-Leaves (λ k. k.nullifiers) (check (ext.valid_deposit msg) KeeperError.invalid_message)
            _ (check-Leaves ext hash (ext.valid_deposit msg) KeeperError.invalid_message)
            λ _.
              >>=-Leaves (λ k. k.nullifiers)
                (lift (or_fail (ext.parse_address msg.creator) KeeperError.invalid_address)) _
                (λ k. refl) λ depositor. deposit_with_funder-Leaves msg depositor false

  pub deposit_from-Leaves :
      (msg : MsgDeposit) (funder : List ℕ)
      → Leaves (λ k. k.nullifiers) (deposit_from ext hash ctx msg funder)
  unfolding deposit_from
  deposit_from-Leaves msg funder =
      >>=-Leaves (λ k. k.nullifiers)
        (check (not ctx.tree_context.audited) KeeperError.service_disabled) _
        (check-Leaves ext hash (not ctx.tree_context.audited) KeeperError.service_disabled)
        λ _.
          >>=-Leaves (λ k. k.nullifiers) (check (ext.valid_deposit msg) KeeperError.invalid_message)
            _ (check-Leaves ext hash (ext.valid_deposit msg) KeeperError.invalid_message)
            λ _.
              >>=-Leaves (λ k. k.nullifiers)
                (lift (or_fail (ext.parse_address msg.creator) KeeperError.invalid_address)) _
                (λ k. refl)
                λ _.
                  >>=-Leaves (λ k. k.nullifiers)
                    (check (ext.valid_address funder) KeeperError.invalid_address) _
                    (check-Leaves ext hash (ext.valid_address funder) KeeperError.invalid_address)
                    λ _.
                      >>=-Leaves (λ k. k.nullifiers)
                        (check (not (ext.is_module funder)) KeeperError.invalid_address) _
                        (check-Leaves ext hash (not (ext.is_module funder))
                          KeeperError.invalid_address)
                        λ _. deposit_with_funder-Leaves msg funder true
