-- ===== src/Keeper/Deposit.antt =====
-- deposit.go: the checks of `depositWithValidatedFunder`.
use clairveil.Prelude.{ℕ, not}
use clairveil.Prelude.Result.{Result, ok, guard, or_fail, ◌>>=◌, ◌>>◌}
use clairveil.Tree.Store.{ensure_can_append}
use clairveil.Keeper.State.{
  Coin, MsgDeposit, Assignment, KeeperError, External, MsgContext, Store, tree_result,
}
use clairveil.Keeper.Checks.{registered_asset, new_commitment}
use clairveil.Keeper.Withdraw.{shielded}

-- What the checks of a deposit have found.
pub record Deposit : Type 0 where
  pub coin : Coin
  pub commitment : ℕ
  pub assignment : Assignment

module _ {B X : Type 0} (ext : External B X) where
  -- `depositWithValidatedFunder`, up to its first write.
  unfoldable pub check_deposit : MsgContext → MsgDeposit → Store B X → Result KeeperError Deposit
  unfolding shielded new_commitment registered_asset
  check_deposit ctx msg k = do
    guard (not ctx.tree_context.audited) KeeperError.service_disabled
    coin ← or_fail (ext.parse_coin msg.amount) KeeperError.invalid_coin
    shielded coin.amount
    commitment ← new_commitment ext msg.note_commitment k
    tree_result (ensure_can_append ctx.tree_context 1 k.tree)
    asset_id ← registered_asset ext coin.denom k
    let assignment = Assignment.deposit commitment coin.amount asset_id
    guard (ext.verify_proof msg.proof assignment) KeeperError.proof_rejected
    ok (record { coin = coin; commitment = commitment; assignment = assignment })
