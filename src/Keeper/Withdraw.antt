-- ===== src/Keeper/Withdraw.antt =====
-- msg_server.go: the checks of `Withdraw`.
use clairveil.Prelude.{ℕ, String, not, some, List, str_eq}
use clairveil.Prelude.Int.{ℤ, pos, leb_ℤ}
use clairveil.Prelude.Result.{Result, ok, err, guard, or_fail, ◌>>=◌, ◌>>◌}
use clairveil.Amount.Shielded.{validate_shielded_amount}
use clairveil.Keeper.State.{Coin, MsgWithdraw, Assignment, KeeperError, External, MsgContext, Store}
use clairveil.Keeper.Checks.{
  is_positive, canonical_field, active_field, registered_asset, known_root, unused_nullifier,
  unexpired,
}

-- `ValidateShieldedAmount`, as a check of a message.
unfoldable pub shielded : ℤ → Result KeeperError Unit
unfolding validate_shielded_amount
shielded amount = elim (validate_shielded_amount (some amount)) [
  | ok _ ↦ ok tt
  | err e ↦ err KeeperError.invalid_amount
]

-- What the checks of `Withdraw` have found.
pub record Withdrawal : Type 0 where
  pub root : ℕ
  pub nullifier : ℕ
  pub recipient : List ℕ
  pub coin : Coin
  pub assignment : Assignment

module _ {B X : Type 0} (ext : External B X) where
  -- The coin of a withdrawal, which `ValidateBasic` and the handler check alike.
  unfoldable pub withdraw_coin : String → Result KeeperError Coin
  unfolding shielded
  withdraw_coin amount = do
    coin ← or_fail (ext.parse_coin amount) KeeperError.invalid_coin
    guard (is_positive coin.amount) KeeperError.not_positive
    shielded coin.amount
    ok coin

  -- `ValidateBasic` of `MsgWithdraw`.
  unfoldable pub validate_withdraw : MsgWithdraw → Result KeeperError Unit
  unfolding withdraw_coin canonical_field active_field
  validate_withdraw msg = do
    creator ← or_fail (ext.parse_address msg.creator) KeeperError.invalid_address
    coin ← withdraw_coin msg.amount
    root ← canonical_field msg.root
    nullifier ← active_field msg.nullifier
    guard (not (str_eq msg.chain_id "")) KeeperError.chain_id_required
    guard (not (leb_ℤ msg.expires_at_unix (pos 0))) KeeperError.expires_not_positive

  -- `Withdraw`, up to its first write.
  unfoldable pub check_withdraw :
      MsgContext → MsgWithdraw → Store B X → Result KeeperError Withdrawal
  unfolding validate_withdraw known_root unused_nullifier registered_asset
  check_withdraw ctx msg k = do
    guard (not ctx.tree_context.audited) KeeperError.service_disabled
    validate_withdraw msg
    strict_root ← canonical_field msg.root
    strict_nullifier ← canonical_field msg.nullifier
    guard (str_eq msg.chain_id ctx.chain_id) KeeperError.chain_id_mismatch
    guard (unexpired ext ctx msg.expires_at_unix) KeeperError.expired
    root ← known_root ext msg.root k
    nullifier ← unused_nullifier ext msg.nullifier k
    recipient ← or_fail (ext.parse_address msg.recipient) KeeperError.invalid_address
    chain_domain ← or_fail (ext.chain_domain ctx.chain_id) KeeperError.digest_failed
    recipient_digest ← or_fail (ext.recipient_digest recipient) KeeperError.digest_failed
    coin ← withdraw_coin msg.amount
    asset_id ← registered_asset ext coin.denom k
    let assignment =
        Assignment.spend root nullifier chain_domain recipient_digest msg.expires_at_unix
          coin.amount asset_id
    guard (ext.verify_proof msg.proof assignment) KeeperError.proof_rejected
    ok (record {
      root = root;
      nullifier = nullifier;
      recipient = recipient;
      coin = coin;
      assignment = assignment;
    })
