-- ===== src/Keeper/Frames.antt =====
-- x/privacy/keeper: what the handlers' calls leave of the nullifiers.
use clairveil.Prelude.{ℕ, Bool, true, false, ◌≡◌, refl, ◌∙◌, Option, none, some, List}
use clairveil.Prelude.Result.{Result, ok, err}
use clairveil.Prelude.Exec.{Leaves, >>=-Leaves, continue-Leaves, check}
use clairveil.Tree.Append.{append_raw}
use clairveil.Keeper.State.{
  Coin, MsgDeposit, KeeperError, External, Event, MsgContext, Store, Handler,
}
use clairveil.Keeper.Reserve.{record_reserve_deposit, record_reserve_withdraw}
use clairveil.Keeper.Events.{on_tree}
use clairveil.Keeper.Handlers.{
  take_coin, pay_in, pay_out, bank_update, apply_deposit, cached, rolled_back,
}
use clairveil.Keeper.Deposit.{Deposit}
use clairveil.Keeper.Parts.{on_tree-Leaves, emit-Leaves}

pub cached-Leaves :
    {B X A C : Type 0} (f : Store B X → C) (m : Handler B X A) → Leaves f m → Leaves f (cached m)
cached-Leaves {B} {X} {A} f m h k = go (m k) (h k)
  where
    go : (r : Result KeeperError A × Store B X) → f r.1 ≡ f k → f (rolled_back k r).1 ≡ f k
    go (ok a, t) h = h
    go (err e, t) h = refl

module _ {B X : Type 0} (ext : External B X) (hash : ℕ → ℕ → ℕ → ℕ) where
  pub check-Leaves :
      (b : Bool) (e : KeeperError)
      → Leaves {A = Unit {0}} (λ (k : Store B X). k.nullifiers) (check b e)
  check-Leaves true e k = refl
  check-Leaves false e k = refl

  bank_update-Leaves : (o : Option B) → Leaves (λ k. k.nullifiers) (bank_update ext o)
  unfolding bank_update
  bank_update-Leaves (some b) k = refl
  bank_update-Leaves none k = refl

  pub pay_out-Leaves : (a : List ℕ) (c : Coin) → Leaves (λ k. k.nullifiers) (pay_out ext a c)
  unfolding pay_out
  pay_out-Leaves a c k = bank_update-Leaves (ext.send_to_account a c k.bank) k

  pub pay_in-Leaves : (a : List ℕ) (c : Coin) → Leaves (λ k. k.nullifiers) (pay_in ext a c)
  unfolding pay_in
  pay_in-Leaves a c k = bank_update-Leaves (ext.send_to_module a c k.bank) k

  take_coin-Leaves :
      (verify : Bool) (a : List ℕ) (c : Coin)
      → Leaves (λ k. k.nullifiers) (take_coin ext verify a c)
  unfolding take_coin
  take_coin-Leaves verify a c k =
      continue-Leaves (λ k. k.nullifiers) (pay_in ext a c k).0 _
        (λ _. check-Leaves _ KeeperError.balance_mismatch) (pay_in ext a c k).1
      ∙ pay_in-Leaves a c k

  pub record_withdraw-Leaves :
      (ctx : MsgContext) (c : Coin) → Leaves (λ k. k.nullifiers) (record_reserve_withdraw ext ctx c)
  unfolding record_reserve_withdraw
  record_withdraw-Leaves ctx c k = continue-Leaves (λ k. k.nullifiers) _ _ (λ n k. refl) k

  pub record_deposit-Leaves :
      (ctx : MsgContext) (c : Coin) → Leaves (λ k. k.nullifiers) (record_reserve_deposit ext ctx c)
  unfolding record_reserve_deposit
  record_deposit-Leaves ctx c k = continue-Leaves (λ k. k.nullifiers) _ _ (λ n k. refl) k

  pub apply_deposit-Leaves :
      (ctx : MsgContext) (msg : MsgDeposit) (funder : List ℕ) (verify : Bool) (w : Deposit)
      → Leaves (λ k. k.nullifiers) (apply_deposit ext hash ctx msg funder verify w)
  unfolding apply_deposit
  apply_deposit-Leaves ctx msg funder verify w =
      >>=-Leaves (λ k. k.nullifiers) (take_coin ext verify funder w.coin) _
        (take_coin-Leaves verify funder w.coin)
        λ _.
          >>=-Leaves (λ k. k.nullifiers) (record_reserve_deposit ext ctx w.coin) _
            (record_deposit-Leaves ctx w.coin)
            λ _.
              >>=-Leaves (λ k. k.nullifiers)
                (on_tree hash ext (append_raw hash ctx.tree_context msg.note_commitment)) _
                (on_tree-Leaves ext hash (λ k. k.nullifiers) (λ k t. refl) (λ k x. refl)
                  (append_raw hash ctx.tree_context msg.note_commitment))
                λ _.
                  emit-Leaves ext hash (λ k. k.nullifiers) (λ k t. refl) (λ k x. refl) ctx
                    (Event.deposited msg.creator w.commitment msg.encrypted_note)
