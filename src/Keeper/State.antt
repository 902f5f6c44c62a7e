-- ===== src/Keeper/State.antt =====
-- x/privacy/keeper: the parts of the store that the messages read and write, and what the handlers
-- call outside of what is modelled. A canonical field element is the number of its 32 bytes.
use clairveil.Prelude.{ℕ, String, Bool, Option, List}
use clairveil.Prelude.Int.{ℤ}
use clairveil.Prelude.Result.{Result, ok, err}
use clairveil.Prelude.Exec.{Exec}
use clairveil.Tree.Store.{Error, Tree, Context}

-- `sdk.Coin`.
pub record Coin : Type 0 where
  pub denom : String
  pub amount : ℤ

pub record MsgWithdraw : Type 0 where
  pub creator : String
  pub proof : List ℕ
  pub root : List ℕ
  pub nullifier : List ℕ
  pub amount : String
  pub recipient : String
  pub chain_id : String
  pub expires_at_unix : ℤ

pub record ShieldedTransferRequest : Type 0 where
  pub relayer : String
  pub proof : List ℕ
  pub root : List ℕ
  pub nullifiers : List (List ℕ)
  pub new_commitments : List (List ℕ)
  pub cipher_texts : List (List ℕ)
  pub view_tags : List (List ℕ)
  pub user_privacy_policy : ℕ
  pub user_disclosure_digest : List ℕ
  pub user_disclosure_mode : ℕ
  pub user_disclosure_target_pub_key : List ℕ
  pub user_disclosure_payload : List ℕ
  pub audit_disclosure_digest : List ℕ
  pub audit_disclosure_target_pub_key : List ℕ
  pub audit_disclosure_payload : List ℕ
  pub self_view_disclosure_digest : List ℕ
  pub self_view_disclosure_payload : List ℕ
  pub expires_at_unix : ℤ

pub record MsgDeposit : Type 0 where
  pub creator : String
  pub amount : String
  pub note_commitment : List ℕ
  pub encrypted_note : List ℕ
  pub proof : List ℕ

-- The public inputs of `circuit.SpendCircuit`, `circuit.JoinSplitCircuit` and `circuit.DepositCircuit`.
pub data Assignment : Type 0 where
  spend :
      (root nullifier : ℕ) (chain_domain recipient_digest : ℕ × ℕ) (expires_at_unix amount : ℤ)
      (asset_id : ℕ)
      → Assignment
  join_split :
      (root nullifier1 nullifier2 commitment1 commitment2 user_privacy_policy : ℕ)
      (user_disclosure_digest full_disclosure_digest : ℕ) (chain_domain : ℕ × ℕ)
      (expires_at_unix : ℤ) (payload_digest : ℕ × ℕ)
      → Assignment
  deposit : (commitment : ℕ) (amount : ℤ) (asset_id : ℕ) → Assignment

-- What `emitIndexedPrivacyEvent` gets: the values that the attributes are written from.
pub data Event : Type 0 where
  withdrawn : (nullifier : ℕ) (relayer recipient : String) → Event
  transferred : (nullifier1 nullifier2 : ℕ) → ShieldedTransferRequest → Event
  deposited : (creator : String) (commitment : ℕ) (encrypted_note : List ℕ) → Event

pub data KeeperError : Type 0 where
  service_disabled invalid_address invalid_coin not_positive invalid_amount not_canonical :
      KeeperError
  zero_element duplicate_element chain_id_required expires_not_positive chain_id_mismatch :
      KeeperError
  expired unknown_root nullifier_used digest_failed asset_not_registered asset_corrupt : KeeperError
  proof_rejected bank_failed reserve_state_invalid wrong_count wrong_view_tag : KeeperError
  audit_key_missing audit_key_mismatch commitment_exists index_failed balance_mismatch : KeeperError
  undercollateralized : KeeperError
  invalid_message : KeeperError
  tree : Error → KeeperError

-- `B` is the bank's state and `X` that of the event index. The digests, the proof system and the scan
-- index are functions of this record, and so are the SDK's parsers and the bank.
pub record External (B X : Type 0) : Type 0 where
  pub parse_coin : String → Option Coin
  pub valid_coin : Coin → Bool
  pub parse_address : String → Option (List ℕ)
  -- `VerifyAddressFormat`, and whether an address is the module account's.
  pub valid_address : List ℕ → Bool
  pub is_module : List ℕ → Bool
  -- `GetBalance` of the module account.
  pub module_balance : String → B → ℕ
  -- `SendCoinsFromModuleToAccount` and `SendCoinsFromAccountToModule`.
  pub send_to_account : List ℕ → Coin → B → Option B
  pub send_to_module : List ℕ → Coin → B → Option B
  -- `ComputeChainDomainV1`, `ComputeWithdrawRecipientDigestV1`, `ComputeTransferPayloadDigestV1` and
  -- `CanonicalAssetIDV1`.
  pub chain_domain : String → Option (ℕ × ℕ)
  pub recipient_digest : List ℕ → Option (ℕ × ℕ)
  pub payload_digest : ShieldedTransferRequest → Option (ℕ × ℕ)
  pub canonical_asset_id : String → Option ℕ
  -- `ValidateBasic` of `MsgTransfer` and of `MsgDeposit`.
  pub valid_transfer : ShieldedTransferRequest → Bool
  pub valid_deposit : MsgDeposit → Bool
  -- `verifyProofBN254`, without its gas.
  pub verify_proof : List ℕ → Assignment → Bool
  -- `indexPrivacyEvent` up to the scan index, and its last write.
  pub index_event : Event → X → Option X
  pub store_event : Event → X → X

pub record MsgContext : Type 0 where
  pub tree_context : Context
  pub chain_id : String
  pub block_time : ℤ

-- The store of a keeper. A counter is `some none` where its text is no canonical decimal, and
-- `audit_master_pubkey` is what `GetAuditMasterPubkey` returns.
pub record Store (B X : Type 0) : Type 0 where
  pub tree : Tree
  pub nullifiers : ℕ → Bool
  pub reserve_deposits : String → Option (Option ℕ)
  pub reserve_withdrawals : String → Option (Option ℕ)
  pub asset_by_denom : String → List ℕ
  pub denom_by_asset : ℕ → String
  pub audit_master_pubkey : List ℕ
  pub bank : B
  pub index : X

abbrev pub Handler : Type 0 → Type 0 → Type 0 → Type 0
Handler B X A = Exec (Store B X) KeeperError A

abbrev pub tree_result : {A : Type 0} → Result Error A → Result KeeperError A
tree_result (ok a) = ok a
tree_result (err e) = err (KeeperError.tree e)
