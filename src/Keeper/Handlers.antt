-- ===== src/Keeper/Handlers.antt =====
-- msg_server.go and deposit.go: the writes of the messages, and the messages.
use clairveil.Prelude.{
  ℕ, ◌+◌, Bool, true, false, not, Option, none, some, List, [], ◌∷◌, ◌==◌, if◌then◌else◌,
}
use clairveil.Prelude.Int.{ℤ, pos, negsuc}
use clairveil.Prelude.Result.{Result, ok, err, or_fail}
use clairveil.Prelude.Exec.{continue, modify, check, pure, lift, ◌>>=◌, ◌>>◌}
use clairveil.Tree.Append.{append_raw}
use clairveil.Keeper.State.{
  Coin, MsgWithdraw, MsgDeposit, ShieldedTransferRequest, Event, KeeperError, External, MsgContext,
  Store, Handler,
}
use clairveil.Keeper.Checks.{set_nullifier}
use clairveil.Keeper.Reserve.{record_reserve_deposit, record_reserve_withdraw}
use clairveil.Keeper.Events.{on_tree, emit_indexed_event}
use clairveil.Keeper.Withdraw.{Withdrawal, check_withdraw}
use clairveil.Keeper.Transfer.{ShieldedTransfer, check_transfer, first, second}
use clairveil.Keeper.Deposit.{Deposit, check_deposit}

-- The amount of a coin, as the bank adds it to a balance.
abbrev pub units : ℤ → ℕ
units (pos n) = n
units (negsuc n) = 0

-- `ctx.CacheContext()`: what was written is dropped on an error.
abbrev pub rolled_back :
    {B X A : Type 0}
    → Store B X
    → Result KeeperError A × Store B X
    → Result KeeperError A × Store B X
rolled_back k (ok a, t) = (ok a, t)
rolled_back k (err e, t) = (err e, k)

abbrev pub cached : {B X A : Type 0} → Handler B X A → Handler B X A
cached m k = rolled_back k (m k)

module _ {B X : Type 0} (ext : External B X) where
  unfoldable pub bank_update : Option B → Handler B X Unit
  bank_update (some b) k = (ok tt, record k { bank = b })
  bank_update none k = (err KeeperError.bank_failed, k)

  -- `SendCoinsFromModuleToAccount`.
  unfoldable pub pay_out : List ℕ → Coin → Handler B X Unit
  unfolding bank_update
  pay_out recipient coin k = bank_update (ext.send_to_account recipient coin k.bank) k

  -- `SendCoinsFromAccountToModule`.
  unfoldable pub pay_in : List ℕ → Coin → Handler B X Unit
  unfolding bank_update
  pay_in funder coin k = bank_update (ext.send_to_module funder coin k.bank) k

  -- The transfer of a deposit's coin, with the check of the module's balance where it is asked for.
  unfoldable pub take_coin : Bool → List ℕ → Coin → Handler B X Unit
  unfolding pay_in
  take_coin verify funder coin k =
      let (paid, t) = pay_in funder coin k in
      let before = ext.module_balance coin.denom k.bank in
      let after = ext.module_balance coin.denom t.bank in
      let same = if verify then after == before + units coin.amount else true in
      continue paid (λ _. check same KeeperError.balance_mismatch) t

  -- The loop of `SetNullifier`.
  unfoldable pub set_nullifiers : MsgContext → List ℕ → Store B X → Store B X
  unfolding set_nullifier
  set_nullifiers ctx [] k = k
  set_nullifiers ctx (n ∷ ns) k = set_nullifiers ctx ns (set_nullifier ext ctx n k)

  module _ (hash : ℕ → ℕ → ℕ → ℕ) where
    -- The writes of `Withdraw`.
    unfoldable pub apply_withdraw : MsgContext → MsgWithdraw → Withdrawal → Handler B X Unit
    unfolding set_nullifier pay_out record_reserve_withdraw emit_indexed_event
    apply_withdraw ctx msg w = do
      modify (set_nullifier ext ctx w.nullifier)
      pay_out w.recipient w.coin
      record_reserve_withdraw ext ctx w.coin
      emit_indexed_event hash ext ctx (Event.withdrawn w.nullifier msg.creator msg.recipient)

    -- `Withdraw`.
    unfoldable pub withdraw : MsgContext → MsgWithdraw → Handler B X Unit
    unfolding check_withdraw apply_withdraw
    withdraw ctx msg k =
        continue (check_withdraw ext ctx msg k) (λ w k. apply_withdraw ctx msg w k) k

    -- The loop of `AppendCommitment`.
    unfoldable pub append_all : MsgContext → List (List ℕ) → Handler B X Unit
    unfolding on_tree append_raw
    append_all ctx [] = pure tt
    append_all ctx (bz ∷ rest) = do
      on_tree hash ext (append_raw hash ctx.tree_context bz)
      append_all ctx rest

    -- The writes of `executeShieldedTransfer`.
    unfoldable pub apply_transfer :
        MsgContext → ShieldedTransferRequest → ShieldedTransfer → Handler B X Unit
    unfolding set_nullifiers append_all emit_indexed_event
    apply_transfer ctx req w = do
      modify (set_nullifiers ctx w.nullifiers)
      append_all ctx req.new_commitments
      emit_indexed_event hash ext ctx
          (Event.transferred (first w.nullifiers) (second w.nullifiers) req)

    -- `executeShieldedTransfer`.
    unfoldable pub execute_transfer : MsgContext → ShieldedTransferRequest → Handler B X Unit
    unfolding check_transfer apply_transfer
    execute_transfer ctx req k =
        continue (check_transfer ext ctx req k) (λ w k. apply_transfer ctx req w k) k

    -- `Transfer`.
    unfoldable pub transfer : MsgContext → ShieldedTransferRequest → Handler B X Unit
    unfolding execute_transfer
    transfer ctx req = do
      check (not ctx.tree_context.audited) KeeperError.service_disabled
      check (ext.valid_transfer req) KeeperError.invalid_message
      execute_transfer ctx req

    -- The writes of `depositWithValidatedFunder`, in its cache.
    unfoldable pub apply_deposit :
        MsgContext → MsgDeposit → List ℕ → Bool → Deposit → Handler B X Unit
    unfolding take_coin record_reserve_deposit on_tree append_raw emit_indexed_event
    apply_deposit ctx msg funder verify w = do
      take_coin verify funder w.coin
      record_reserve_deposit ext ctx w.coin
      on_tree hash ext (append_raw hash ctx.tree_context msg.note_commitment)
      emit_indexed_event hash ext ctx (Event.deposited msg.creator w.commitment msg.encrypted_note)

    -- `depositWithValidatedFunder`.
    unfoldable pub deposit_with_funder : MsgContext → MsgDeposit → List ℕ → Bool → Handler B X Unit
    unfolding check_deposit apply_deposit
    deposit_with_funder ctx msg funder verify k =
        continue (check_deposit ext ctx msg k) (λ w. cached (apply_deposit ctx msg funder verify w))
          k

    -- `Deposit`.
    unfoldable pub deposit : MsgContext → MsgDeposit → Handler B X Unit
    unfolding deposit_with_funder
    deposit ctx msg = do
      check (not ctx.tree_context.audited) KeeperError.service_disabled
      check (ext.valid_deposit msg) KeeperError.invalid_message
      depositor ← lift (or_fail (ext.parse_address msg.creator) KeeperError.invalid_address)
      deposit_with_funder ctx msg depositor false

    -- `DepositWithFunder`.
    unfoldable pub deposit_from : MsgContext → MsgDeposit → List ℕ → Handler B X Unit
    unfolding deposit_with_funder
    deposit_from ctx msg funder = do
      check (not ctx.tree_context.audited) KeeperError.service_disabled
      check (ext.valid_deposit msg) KeeperError.invalid_message
      creator ← lift (or_fail (ext.parse_address msg.creator) KeeperError.invalid_address)
      check (ext.valid_address funder) KeeperError.invalid_address
      check (not (ext.is_module funder)) KeeperError.invalid_address
      deposit_with_funder ctx msg funder true
