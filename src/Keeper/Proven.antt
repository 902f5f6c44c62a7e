-- ===== src/Keeper/Proven.antt =====
-- msg_server.go: what an accepted withdrawal has proved.
use clairveil.Prelude.{
  ℕ, ◌<◌, ◌^◌, String, Bool, true, false, ◌≡◌, refl, ap, subst, ◌∙◌, not, List, str_eq, str_eq_iff,
  ==_iff, Option, none, some, arith,
}
use clairveil.Prelude.Int.{ℤ, pos, negsuc, leb_ℤ}
use clairveil.Prelude.Result.{ok, guard, or_fail, ok-injective, >>=-eq-ok, >>=-then}
use clairveil.Prelude.Exec.{continue-eq-ok}
use clairveil.Tree.Shape.{strict_field}
use clairveil.Tree.Store.{check_historical_root}
use clairveil.Amount.Shielded.{validate_shielded_amount}
use clairveil.Keeper.State.{Coin, MsgWithdraw, Assignment, KeeperError, External, MsgContext, Store}
use clairveil.Keeper.Checks.{
  canonical_field, known_root, unused_nullifier, registered_asset, is_positive, unexpired,
}
use clairveil.Keeper.Once.{unused_nullifier-eq-ok}
use clairveil.Keeper.Withdraw.{
  Withdrawal, check_withdraw, validate_withdraw, withdraw_coin, shielded,
}
use clairveil.Keeper.Handlers.{withdraw}

-- The message carries a proof for a root of the tree's history, for its own nullifier, recipient, positive
-- amount of less than 2^128 units and expiry, on this chain and in time, and for the asset of its coin's
-- denom, which the registry maps to that asset and back.
pub record IsProven {B X : Type 0} (ext : External B X) (ctx : MsgContext) (msg : MsgWithdraw)
    (k : Store B X) : Type 0 where
  pub root : ℕ
  pub nullifier : ℕ
  pub recipient : List ℕ
  pub chain_domain : ℕ × ℕ
  pub recipient_digest : ℕ × ℕ
  pub coin : Coin
  pub units : ℕ
  pub asset_id : ℕ
  pub of_root : strict_field msg.root ≡ some root
  pub historical : check_historical_root root k.tree ≡ true
  pub of_nullifier : strict_field msg.nullifier ≡ some nullifier
  pub unused : k.nullifiers nullifier ≡ false
  pub of_recipient : ext.parse_address msg.recipient ≡ some recipient
  pub of_digest : ext.recipient_digest recipient ≡ some recipient_digest
  pub of_chain : msg.chain_id ≡ ctx.chain_id
  pub of_domain : ext.chain_domain ctx.chain_id ≡ some chain_domain
  pub in_time : leb_ℤ msg.expires_at_unix ctx.block_time ≡ false
  pub of_coin : ext.parse_coin msg.amount ≡ some coin
  pub of_amount : coin.amount ≡ pos units
  pub positive : 0 < units
  pub bounded : units < 2 ^ 128
  pub of_asset : ext.canonical_asset_id coin.denom ≡ some asset_id
  pub registered : strict_field (k.asset_by_denom coin.denom) ≡ some asset_id
  pub registered_back : k.denom_by_asset asset_id ≡ coin.denom
  pub verified :
      ext.verify_proof msg.proof (
        Assignment.spend root nullifier chain_domain recipient_digest msg.expires_at_unix
          coin.amount asset_id)
      ≡ true

or_fail-eq-ok :
    {A : Type 0} (o : Option A) (e : KeeperError) (a : A) → or_fail o e ≡ ok a → o ≡ some a
or_fail-eq-ok none e a h = absurd (cc)
or_fail-eq-ok (some b) e a h = ap (λ x. some x) (ok-injective h)

guard-eq-ok : (b : Bool) (e : KeeperError) (u : Unit {0}) → guard b e ≡ ok u → b ≡ true
guard-eq-ok true e u h = refl
guard-eq-ok false e u h = absurd (cc)

amount-eq-ok :
    (z : ℤ)
    → is_positive z ≡ true
    → shielded z ≡ ok tt
    → (n : ℕ) × (z ≡ pos n) × (0 < n) × (n < 2 ^ 128)
unfolding shielded validate_shielded_amount
amount-eq-ok (pos n) p h = (n, refl, ground (arith, p), ground (arith, h))
amount-eq-ok (negsuc n) p h = absurd (cc)

module _ {B X : Type 0} (ext : External B X) where
  known_root-eq-ok :
      (bz : List ℕ) (k : Store B X) (root : ℕ)
      → known_root ext bz k ≡ ok root
      → (strict_field bz ≡ some root) × (check_historical_root root k.tree ≡ true)
  unfolding known_root canonical_field
  known_root-eq-ok bz k root h = ground arith

  withdraw_coin-eq-ok :
      (text : String) (coin : Coin)
      → withdraw_coin ext text ≡ ok coin
      → (ext.parse_coin text ≡ some coin)
        × ((n : ℕ) × (coin.amount ≡ pos n) × (0 < n) × (n < 2 ^ 128))
  unfolding withdraw_coin
  withdraw_coin-eq-ok text coin h =
      let (c, parsed, r) = >>=-eq-ok (or_fail (ext.parse_coin text) KeeperError.invalid_coin) _ h in
      let (_, positive, q) =
        >>=-eq-ok (guard (is_positive c.amount) KeeperError.not_positive) _ r in
      let (_, fits, last) = >>=-eq-ok (shielded c.amount) _ q in
      let e : c ≡ coin = ok-injective last in
      (
        or_fail-eq-ok _ _ c parsed ∙ ap (λ x. some x) e,
        subst (λ (x : Coin). (n : ℕ) × (x.amount ≡ pos n) × (0 < n) × (n < 2 ^ 128)) e
            (amount-eq-ok c.amount (guard-eq-ok _ _ _ positive) fits),
      )

  registered_asset-eq-ok :
      (denom : String) (k : Store B X) (asset : ℕ)
      → registered_asset ext denom k ≡ ok asset
      → (ext.canonical_asset_id denom ≡ some asset)
        × (strict_field (k.asset_by_denom denom) ≡ some asset)
        × (k.denom_by_asset asset ≡ denom)
  unfolding registered_asset canonical_field
  registered_asset-eq-ok denom k asset h =
      ground (arith, str_eq_iff (k.denom_by_asset asset) denom, (λ (a : ℕ). ==_iff a asset))

  check_withdraw-IsProven :
      (ctx : MsgContext) (msg : MsgWithdraw) (k : Store B X) (w : Withdrawal)
      → check_withdraw ext ctx msg k ≡ ok w
      → IsProven ext ctx msg k
  unfolding check_withdraw
  check_withdraw-IsProven ctx msg k w h =
      >>=-then (guard (not ctx.tree_context.audited) KeeperError.service_disabled) _ h λ _ _ h.
        >>=-then (validate_withdraw ext msg) _ h λ _ _ h.
          >>=-then (canonical_field msg.root) _ h λ _ _ h.
            >>=-then (canonical_field msg.nullifier) _ h λ _ _ h.
              >>=-then (guard (str_eq msg.chain_id ctx.chain_id) KeeperError.chain_id_mismatch) _ h
                λ _ chain h.
                  >>=-then (guard (unexpired ext ctx msg.expires_at_unix) KeeperError.expired) _ h
                    λ _ timely h. >>=-then (known_root ext msg.root k) _ h λ root rooted h.
                      >>=-then (unused_nullifier ext msg.nullifier k) _ h λ n fresh h.
                        >>=-then
                          (or_fail (ext.parse_address msg.recipient) KeeperError.invalid_address) _
                          h
                          λ recipient parsed h.
                            >>=-then
                              (or_fail (ext.chain_domain ctx.chain_id) KeeperError.digest_failed) _
                              h
                              λ domain of_domain h.
                                >>=-then
                                  (or_fail (ext.recipient_digest recipient)
                                    KeeperError.digest_failed)
                                  _ h
                                  λ digest of_digest h.
                                    >>=-then (withdraw_coin ext msg.amount) _ h λ coin priced h.
                                      >>=-then (registered_asset ext coin.denom k) _ h
                                        λ asset registered h.
                                          >>=-then
                                            (guard (ext.verify_proof msg.proof _)
                                              KeeperError.proof_rejected)
                                            _ h
                                            λ _ verified _.
                                              let (of_root, historical) =
                                                known_root-eq-ok msg.root k root rooted in
                                              let (of_nullifier, unused) =
                                                unused_nullifier-eq-ok ext k msg.nullifier n
                                                  fresh in
                                              let (of_coin, parts) =
                                                withdraw_coin-eq-ok msg.amount coin priced in
                                              let (units, of_amount, positive, bounded) = parts in
                                              let (of_asset, forth, back) =
                                                registered_asset-eq-ok coin.denom k asset
                                                  registered in
                                              record {
                                                root = root;
                                                nullifier = n;
                                                recipient = recipient;
                                                chain_domain = domain;
                                                recipient_digest = digest;
                                                coin = coin;
                                                units = units;
                                                asset_id = asset;
                                                of_root = of_root;
                                                historical = historical;
                                                of_nullifier = of_nullifier;
                                                unused = unused;
                                                of_recipient = or_fail-eq-ok _ _ recipient parsed;
                                                of_digest = or_fail-eq-ok _ _ digest of_digest;
                                                of_chain =
                                                    (str_eq_iff msg.chain_id ctx.chain_id).0
                                                      (guard-eq-ok _ _ _ chain);
                                                of_domain = or_fail-eq-ok _ _ domain of_domain;
                                                in_time = ground (arith, guard-eq-ok _ _ _ timely);
                                                of_coin = of_coin;
                                                of_amount = of_amount;
                                                positive = positive;
                                                bounded = bounded;
                                                of_asset = of_asset;
                                                registered = forth;
                                                registered_back = back;
                                                verified = guard-eq-ok _ _ _ verified;
                                              }

  -- If `Withdraw` accepts a message, then the message's proof verifies for a root of the tree's history and
  -- for the message's own nullifier, which was unused, recipient, positive amount of less than 2^128 units
  -- of a denom that the registry maps to its canonical asset id and back, and expiry, which is still to
  -- come, on the chain that the message names.
  pub withdraw-IsProven :
      (hash : ℕ → ℕ → ℕ → ℕ) (ctx : MsgContext) (msg : MsgWithdraw) (k : Store B X)
      → (withdraw ext hash ctx msg k).0 ≡ ok tt
      → IsProven ext ctx msg k
  unfolding withdraw
  withdraw-IsProven hash ctx msg k h =
      let (w, checked, _) = continue-eq-ok (check_withdraw ext ctx msg k) _ k tt h in
      check_withdraw-IsProven ctx msg k w checked
