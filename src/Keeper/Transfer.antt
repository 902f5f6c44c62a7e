-- ===== src/Keeper/Transfer.antt =====
-- msg_server.go: the checks of `executeShieldedTransfer`.
use clairveil.Prelude.{ℕ, Bool, not, List, [], ◌∷◌, length, ◌==◌}
use clairveil.Prelude.Int.{pos, leb_ℤ}
use clairveil.Prelude.Result.{Result, ok, guard, or_fail, ◌>>=◌, ◌>>◌}
use clairveil.Reservation.Audit.{list_eq}
use clairveil.Tree.Shape.{big_endian}
use clairveil.Tree.Store.{ensure_can_append}
use clairveil.Keeper.State.{
  ShieldedTransferRequest, Assignment, KeeperError, External, MsgContext, Store, tree_result,
}
use clairveil.Keeper.Checks.{
  distinct_fields, known_root, unused_nullifier, new_commitment, unexpired,
}

-- What the checks of a transfer have found; the commitments are kept as the bytes that are appended.
pub record ShieldedTransfer : Type 0 where
  pub root : ℕ
  pub nullifiers : List ℕ
  pub commitments : List ℕ
  pub assignment : Assignment

-- `types.ViewTagLength`.
abbrev pub view_tag_length : ℕ
view_tag_length = 2

unfoldable pub check_view_tags : List (List ℕ) → Result KeeperError Unit
check_view_tags [] = ok tt
check_view_tags (tag ∷ tags) = do
  guard (length tag == view_tag_length) KeeperError.wrong_view_tag
  check_view_tags tags

abbrev pub two : List (List ℕ) → Bool
two values = length values == 2

-- `v[0]` and `v[1]` of the public inputs.
abbrev pub first : List ℕ → ℕ
first [] = 0
first (v ∷ vs) = v

abbrev pub second : List ℕ → ℕ
second [] = 0
second (v ∷ vs) = first vs

module _ {B X : Type 0} (ext : External B X) where
  -- The loop over the nullifiers.
  unfoldable pub unused_nullifiers : List (List ℕ) → Store B X → Result KeeperError (List ℕ)
  unfolding unused_nullifier
  unused_nullifiers [] k = ok []
  unused_nullifiers (bz ∷ rest) k = do
    n ← unused_nullifier ext bz k
    ns ← unused_nullifiers rest k
    ok (n ∷ ns)

  -- The loop over the commitments.
  unfoldable pub new_commitments : List (List ℕ) → Store B X → Result KeeperError (List ℕ)
  unfolding new_commitment
  new_commitments [] k = ok []
  new_commitments (bz ∷ rest) k = do
    c ← new_commitment ext bz k
    cs ← new_commitments rest k
    ok (c ∷ cs)

  -- The checks on the request alone, behind that of its root.
  unfoldable pub check_shape : ShieldedTransferRequest → Result KeeperError Unit
  unfolding distinct_fields check_view_tags
  check_shape req = do
    guard (two req.nullifiers) KeeperError.wrong_count
    guard (two req.new_commitments) KeeperError.wrong_count
    guard (two req.cipher_texts) KeeperError.wrong_count
    guard (two req.view_tags) KeeperError.wrong_count
    distinct_fields req.nullifiers
    distinct_fields req.new_commitments
    check_view_tags req.view_tags

  unfoldable pub check_audit_key : ShieldedTransferRequest → Store B X → Result KeeperError Unit
  unfolding list_eq
  check_audit_key req k = do
    guard (not (length k.audit_master_pubkey == 0)) KeeperError.audit_key_missing
    guard (not (length req.audit_disclosure_target_pub_key == 0)) KeeperError.audit_key_missing
    guard (list_eq k.audit_master_pubkey req.audit_disclosure_target_pub_key)
        KeeperError.audit_key_mismatch

  -- `executeShieldedTransfer`, up to its first write.
  unfoldable pub check_transfer :
      MsgContext → ShieldedTransferRequest → Store B X → Result KeeperError ShieldedTransfer
  unfolding known_root check_shape check_audit_key unused_nullifiers new_commitments big_endian
  check_transfer ctx req k = do
    guard (not (leb_ℤ req.expires_at_unix (pos 0))) KeeperError.expires_not_positive
    guard (unexpired ext ctx req.expires_at_unix) KeeperError.expired
    root ← known_root ext req.root k
    check_shape req
    check_audit_key req k
    nullifiers ← unused_nullifiers req.nullifiers k
    commitments ← new_commitments req.new_commitments k
    tree_result (ensure_can_append ctx.tree_context (length commitments) k.tree)
    chain_domain ← or_fail (ext.chain_domain ctx.chain_id) KeeperError.digest_failed
    payload_digest ← or_fail (ext.payload_digest req) KeeperError.digest_failed
    let assignment =
        Assignment.join_split root (first nullifiers) (second nullifiers) (first commitments)
          (second commitments) req.user_privacy_policy (big_endian 0 req.user_disclosure_digest)
          (big_endian 0 req.audit_disclosure_digest) chain_domain req.expires_at_unix payload_digest
    guard (ext.verify_proof req.proof assignment) KeeperError.proof_rejected
    ok (record {
      root = root;
      nullifiers = nullifiers;
      commitments = commitments;
      assignment = assignment;
    })
