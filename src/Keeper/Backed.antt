-- ===== src/Keeper/Backed.antt =====
-- msg_server.go and deposit.go: every message keeps the reserve covered.
use clairveil.Prelude.{
  ℕ, String, Bool, true, false, not, ◌≡◌, refl, sym, subst, ◌∙◌, Option, List, [], ◌∷◌, ◌==◌,
  if◌then◌else◌,
}
use clairveil.Prelude.Result.{ok}
use clairveil.Prelude.Exec.{Leaves, >>=-Leaves, continue-Leaves, >>=-run, check, lift}
use clairveil.Tree.Append.{append_raw}
use clairveil.Keeper.Events.{on_tree}
use clairveil.Keeper.State.{
  MsgWithdraw, MsgDeposit, ShieldedTransferRequest, Event, KeeperError, External, MsgContext, Store,
}
use clairveil.Keeper.Checks.{set_nullifier}
use clairveil.Keeper.Reserve.{record_reserve_deposit, record_reserve_withdraw}
use clairveil.Keeper.Withdraw.{Withdrawal, check_withdraw}
use clairveil.Keeper.Transfer.{check_transfer, first, second}
use clairveil.Keeper.Deposit.{Deposit}
use clairveil.Keeper.Handlers.{
  pay_out, take_coin, set_nullifiers, append_all, apply_withdraw, withdraw, apply_transfer,
  execute_transfer, transfer, apply_deposit,
}
use clairveil.Keeper.Parts.{emit-Leaves, append_all-Leaves, on_tree-Leaves}
use clairveil.Keeper.Backing.{
  IsBank, IsBacked, books, pay_out-paid, take_coin-paid, record_withdraw-IsBacked,
  record_deposit-IsBacked,
}

module _ {B X : Type 0} (ext : External B X) (hash : ℕ → ℕ → ℕ → ℕ) (laws : IsBank ext)
    (d : String) where
  set_nullifier-books :
      (ctx : MsgContext) (n : ℕ) (k : Store B X) → books (set_nullifier ext ctx n k) ≡ books k
  unfolding set_nullifier
  set_nullifier-books ctx n k = go ctx.tree_context.audited
    where
      go :
          (b : Bool)
          → books (
              if b
              then k
              else record k { nullifiers = λ m. if m == n then true else k.nullifiers m })
            ≡ books k
      go true = refl
      go false = refl

  set_nullifiers-books :
      (ctx : MsgContext) (ns : List ℕ) (k : Store B X)
      → books (set_nullifiers ext ctx ns k) ≡ books k
  unfolding set_nullifiers
  set_nullifiers-books ctx [] k = refl
  set_nullifiers-books ctx (n ∷ ns) k =
      set_nullifiers-books ctx ns (set_nullifier ext ctx n k) ∙ set_nullifier-books ctx n k

  same_counters :
      (b : B) {ds ds' ws ws' : String → Option (Option ℕ)}
      → ds' ≡ ds
      → ws' ≡ ws
      → IsBacked ext d (b, ds, ws)
      → IsBacked ext d (b, ds', ws')
  same_counters b {ds} {ds'} {ws} {ws'} p q v =
      subst (λ x. IsBacked ext d (b, x, ws')) (sym p)
        (subst (λ x. IsBacked ext d (b, ds, x)) (sym q) v)

  apply_withdraw-IsBacked :
      (ctx : MsgContext) (msg : MsgWithdraw) (w : Withdrawal) (k : Store B X)
      → (apply_withdraw ext hash ctx msg w k).0 ≡ ok tt
      → IsBacked ext d (books k)
      → IsBacked ext d (books (apply_withdraw ext hash ctx msg w k).1)
  unfolding apply_withdraw
  apply_withdraw-IsBacked ctx msg w k h v =
      let k1 = set_nullifier ext ctx w.nullifier k in
      let u = subst (IsBacked ext d) (sym (set_nullifier-books ctx w.nullifier k)) v in
      >>=-run (pay_out ext w.recipient w.coin) _ k1 tt (λ t. IsBacked ext d (books t)) h
        λ _ paid h.
          let (p, q, balance) = pay_out-paid ext laws w.recipient w.coin k1 d paid in
          let k2 = (pay_out ext w.recipient w.coin k1).1 in
          >>=-run (record_reserve_withdraw ext ctx w.coin) _ k2 tt (λ t. IsBacked ext d (books t)) h
            λ _ recorded h.
              subst (IsBacked ext d)
                (sym (
                  emit-Leaves ext hash books (λ k t. refl) (λ k x. refl) ctx
                    (Event.withdrawn w.nullifier msg.creator msg.recipient)
                    (record_reserve_withdraw ext ctx w.coin k2).1))
                (record_withdraw-IsBacked ext ctx w.coin k2 d k1.bank recorded
                  (same_counters k1.bank p q u) balance)

  pub withdraw-IsBacked :
      (ctx : MsgContext) (msg : MsgWithdraw) (k : Store B X)
      → (withdraw ext hash ctx msg k).0 ≡ ok tt
      → IsBacked ext d (books k)
      → IsBacked ext d (books (withdraw ext hash ctx msg k).1)
  unfolding withdraw
  withdraw-IsBacked ctx msg k h v =
      >>=-run (lift (check_withdraw ext ctx msg k)) (λ w k. apply_withdraw ext hash ctx msg w k) k
        tt (λ t. IsBacked ext d (books t)) h λ w checked h. apply_withdraw-IsBacked ctx msg w k h v

  check-books :
      (b : Bool) (e : KeeperError) → Leaves {A = Unit {0}} (λ (k : Store B X). books k) (check b e)
  check-books true e k = refl
  check-books false e k = refl

  -- A transfer moves no coins.
  pub transfer-books :
      (ctx : MsgContext) (req : ShieldedTransferRequest) → Leaves books (transfer ext hash ctx req)
  unfolding transfer execute_transfer apply_transfer
  transfer-books ctx req =
      >>=-Leaves books (check (not ctx.tree_context.audited) KeeperError.service_disabled) _
        (check-books (not ctx.tree_context.audited) KeeperError.service_disabled)
        λ _.
          >>=-Leaves books (check (ext.valid_transfer req) KeeperError.invalid_message) _
            (check-books (ext.valid_transfer req) KeeperError.invalid_message)
            λ _ k.
              continue-Leaves books (check_transfer ext ctx req k) _
                (λ w k.
                  >>=-Leaves books (append_all ext hash ctx req.new_commitments) _
                    (append_all-Leaves ext hash books (λ k t. refl) (λ k x. refl) ctx
                      req.new_commitments)
                    (λ _.
                      emit-Leaves ext hash books (λ k t. refl) (λ k x. refl) ctx
                        (Event.transferred (first w.nullifiers) (second w.nullifiers) req))
                    (set_nullifiers ext ctx w.nullifiers k)
                  ∙ set_nullifiers-books ctx w.nullifiers k)
                k

  pub apply_deposit-IsBacked :
      (ctx : MsgContext) (msg : MsgDeposit) (funder : List ℕ) (verify : Bool) (w : Deposit)
      (k : Store B X)
      → ext.is_module funder ≡ false
      → (apply_deposit ext hash ctx msg funder verify w k).0 ≡ ok tt
      → IsBacked ext d (books k)
      → IsBacked ext d (books (apply_deposit ext hash ctx msg funder verify w k).1)
  unfolding apply_deposit
  apply_deposit-IsBacked ctx msg funder verify w k other h v =
      >>=-run (take_coin ext verify funder w.coin) _ k tt (λ t. IsBacked ext d (books t)) h
        λ _ paid h.
          let (p, q, balance) = take_coin-paid ext laws verify funder w.coin k d other paid in
          let k2 = (take_coin ext verify funder w.coin k).1 in
          >>=-run (record_reserve_deposit ext ctx w.coin) _ k2 tt (λ t. IsBacked ext d (books t)) h
            λ _ recorded h.
              subst (IsBacked ext d)
                (sym (
                  >>=-Leaves books
                    (on_tree hash ext (append_raw hash ctx.tree_context msg.note_commitment)) _
                    (on_tree-Leaves ext hash books (λ k t. refl) (λ k x. refl)
                      (append_raw hash ctx.tree_context msg.note_commitment))
                    (λ _.
                      emit-Leaves ext hash books (λ k t. refl) (λ k x. refl) ctx
                        (Event.deposited msg.creator w.commitment msg.encrypted_note))
                    (record_reserve_deposit ext ctx w.coin k2).1))
                (record_deposit-IsBacked ext ctx w.coin k2 d k.bank recorded
                  (same_counters k.bank p q v) balance)
