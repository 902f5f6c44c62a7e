-- ===== src/Keeper/Checks.antt =====
-- x/privacy/keeper and x/privacy/types: the checks that the messages share.
use clairveil.Prelude.{
  ℕ, String, Bool, true, false, not, ◌||◌, none, some, List, [], ◌∷◌, str_eq, ◌==◌, ltb,
  if◌then◌else◌,
}
use clairveil.Prelude.Int.{ℤ, pos, negsuc, leb_ℤ}
use clairveil.Prelude.Result.{Result, ok, err, guard, or_fail, ◌>>=◌, ◌>>◌}
use clairveil.Tree.Shape.{strict_field}
use clairveil.Tree.Store.{find_commitment, check_historical_root}
use clairveil.Keeper.State.{KeeperError, External, MsgContext, Store, tree_result}

-- `Amount.IsPositive` of a coin.
abbrev pub is_positive : ℤ → Bool
is_positive (pos n) = ltb 0 n
is_positive (negsuc n) = false

-- `validateFieldElementBytesStrict` of field_bytes.go.
unfoldable pub canonical_field : List ℕ → Result KeeperError ℕ
canonical_field bz = or_fail (strict_field bz) KeeperError.not_canonical

-- `validateActiveFieldElementBytesStrict` of types/msg.go.
unfoldable pub active_field : List ℕ → Result KeeperError ℕ
unfolding canonical_field
active_field bz = do n ← canonical_field bz; guard (not (n == 0)) KeeperError.zero_element; ok n

unfoldable pub mem_field : ℕ → List ℕ → Bool
mem_field n [] = false
mem_field n (m ∷ ms) = (m == n) || mem_field n ms

-- The loop of `ValidateDistinctCanonicalFieldElements`, over the elements seen.
unfoldable pub distinct_from : List ℕ → List (List ℕ) → Result KeeperError Unit
unfolding active_field mem_field
distinct_from seen [] = ok tt
distinct_from seen (bz ∷ rest) = do
  n ← active_field bz
  guard (not (mem_field n seen)) KeeperError.duplicate_element
  distinct_from (n ∷ seen) rest

-- `ValidateDistinctCanonicalFieldElements`.
unfoldable pub distinct_fields : List (List ℕ) → Result KeeperError Unit
unfolding distinct_from
distinct_fields values = distinct_from [] values

module _ {B X : Type 0} (ext : External B X) where
  -- `GetAssetByDenomV1` and `RequireRegisteredAssetV1`.
  unfoldable pub registered_asset : String → Store B X → Result KeeperError ℕ
  unfolding canonical_field
  registered_asset denom k = do
    expected ← or_fail (ext.canonical_asset_id denom) KeeperError.digest_failed
    let stored = k.asset_by_denom denom
    guard (not (elim stored [ [] ↦ true | _ ∷ _ ↦ false ])) KeeperError.asset_not_registered
    asset ← canonical_field stored
    guard (asset == expected) KeeperError.asset_corrupt
    guard (str_eq (k.denom_by_asset asset) denom) KeeperError.asset_corrupt
    ok asset

  -- `CheckHistoricalRoot`, on a strict element.
  unfoldable pub known_root : List ℕ → Store B X → Result KeeperError ℕ
  unfolding canonical_field
  known_root bz k = do
    root ← canonical_field bz
    guard (check_historical_root root k.tree) KeeperError.unknown_root
    ok root

  -- A nullifier that is canonical and unused.
  unfoldable pub unused_nullifier : List ℕ → Store B X → Result KeeperError ℕ
  unfolding canonical_field
  unused_nullifier bz k = do
    n ← canonical_field bz
    guard (not (k.nullifiers n)) KeeperError.nullifier_used
    ok n

  -- A commitment that is canonical and not indexed.
  unfoldable pub new_commitment : List ℕ → Store B X → Result KeeperError ℕ
  unfolding canonical_field
  new_commitment bz k = do
    c ← canonical_field bz
    found ← tree_result (find_commitment c k.tree)
    elim found [ none ↦ ok c | some index ↦ err KeeperError.commitment_exists ]

  -- `ctx.BlockTime().Unix() < expires_at_unix`.
  abbrev pub unexpired : MsgContext → ℤ → Bool
  unexpired ctx expires = not (leb_ℤ expires ctx.block_time)

  -- `SetNullifier` on a canonical nullifier, whose error the handlers do not read.
  unfoldable pub set_nullifier : MsgContext → ℕ → Store B X → Store B X
  set_nullifier ctx n k =
      if ctx.tree_context.audited
      then k
      else record k { nullifiers = λ m. if m == n then true else k.nullifiers m }
