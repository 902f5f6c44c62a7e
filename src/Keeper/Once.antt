-- ===== src/Keeper/Once.antt =====
-- msg_server.go: a nullifier is spent once.
use clairveil.Prelude.{
  ℕ, true, false, not, ◌||◌, ◌≡◌, refl, ap, ◌∙◌, some, List, [], ◌∷◌, ◌++◌, arith,
}
use clairveil.Prelude.Result.{ok, guard, ok-injective, >>=-eq-ok}
use clairveil.Tree.Shape.{strict_field}
use clairveil.Keeper.State.{
  MsgWithdraw, ShieldedTransferRequest, KeeperError, External, MsgContext, Store,
}
use clairveil.Keeper.Checks.{
  canonical_field, active_field, mem_field, distinct_from, distinct_fields, unused_nullifier,
  set_nullifier,
}
use clairveil.Keeper.Withdraw.{Withdrawal, check_withdraw}
use clairveil.Keeper.Transfer.{ShieldedTransfer, check_transfer, check_shape, unused_nullifiers}
use clairveil.Keeper.Handlers.{set_nullifiers}
use clairveil.Keeper.Spending.{fields}

-- No element stands twice in the list.
abbrev pub IsDistinct : List ℕ → Type 0
IsDistinct [] = Unit
IsDistinct (n ∷ ns) = (mem_field n ns ≡ false) × IsDistinct ns

pub mem_field-++ :
    (x : ℕ) (ns ms : List ℕ) → mem_field x (ns ++ ms) ≡ (mem_field x ns || mem_field x ms)
unfolding mem_field
mem_field-++ x [] ms = refl
mem_field-++ x (n ∷ ns) ms = ground (arith, mem_field-++ x ns ms)

pub ++-IsDistinct :
    (ns ms : List ℕ)
    → IsDistinct ns
    → IsDistinct ms
    → ((x : ℕ) → mem_field x ns ≡ true → mem_field x ms ≡ false)
    → IsDistinct (ns ++ ms)
unfolding mem_field
++-IsDistinct [] ms a b apart = b
++-IsDistinct (n ∷ ns) ms a b apart = (
  ground (arith, mem_field-++ n ns ms, a.0, apart n),
  ++-IsDistinct ns ms a.1 b (λ x h. apart x (ground arith)),
)

canonical_field-eq-ok : (bz : List ℕ) (n : ℕ) → canonical_field bz ≡ ok n → strict_field bz ≡ some n
unfolding canonical_field
canonical_field-eq-ok bz n h = ground arith

pub fields-cons :
    (bz : List ℕ) (rest : List (List ℕ)) (n : ℕ)
    → strict_field bz ≡ some n
    → fields (bz ∷ rest) ≡ n ∷ fields rest
unfolding fields
fields-cons bz rest n h = ground arith

active_field-eq-ok : (bz : List ℕ) (n : ℕ) → active_field bz ≡ ok n → strict_field bz ≡ some n
unfolding active_field canonical_field
active_field-eq-ok bz n h = ground arith

-- What `ValidateDistinctCanonicalFieldElements` has established.
pub distinct_from-IsDistinct :
    (seen : List ℕ) (bzs : List (List ℕ))
    → distinct_from seen bzs ≡ ok tt
    → IsDistinct (fields bzs)
      × ((x : ℕ) → mem_field x seen ≡ true → mem_field x (fields bzs) ≡ false)
unfolding distinct_from mem_field
distinct_from-IsDistinct seen [] h = unfold fields in (tt, λ x m. refl)
distinct_from-IsDistinct seen (bz ∷ rest) h =
    let (n, active, r) = >>=-eq-ok (active_field bz) _ h in
    let (_, new, q) =
      >>=-eq-ok (guard (not (mem_field n seen)) KeeperError.duplicate_element) _ r in
    let (d, apart) = distinct_from-IsDistinct (n ∷ seen) rest q in
    rw (fields-cons bz rest n (active_field-eq-ok bz n active))
      ((apart n (ground arith), d), λ x m. ground (arith, new, apart x))

module _ {B X : Type 0} (ext : External B X) (k : Store B X) where
  pub unused_nullifier-eq-ok :
      (bz : List ℕ) (n : ℕ)
      → unused_nullifier ext bz k ≡ ok n
      → (strict_field bz ≡ some n) × (k.nullifiers n ≡ false)
  unfolding unused_nullifier canonical_field
  unused_nullifier-eq-ok bz n h = ground arith

  -- What the loop over the nullifiers has established.
  pub unused_nullifiers-eq-ok :
      (bzs : List (List ℕ)) (ns : List ℕ)
      → unused_nullifiers ext bzs k ≡ ok ns
      → (fields bzs ≡ ns) × ((x : ℕ) → mem_field x (fields bzs) ≡ true → k.nullifiers x ≡ false)
  unfolding unused_nullifiers mem_field
  unused_nullifiers-eq-ok [] ns h = unfold fields in (ok-injective h, λ x m. absurd (cc))
  unused_nullifiers-eq-ok (bz ∷ rest) ns h =
      let (n, found, r) = >>=-eq-ok (unused_nullifier ext bz k) _ h in
      let (ms, found_rest, q) = >>=-eq-ok (unused_nullifiers ext rest k) _ r in
      let (at, unused) = unused_nullifier-eq-ok bz n found in
      let (same, others) = unused_nullifiers-eq-ok rest ms found_rest in
      let e : n ∷ ms ≡ ns = ok-injective q in
      rw (fields-cons bz rest n at)
        (ap (λ l. n ∷ l) same ∙ e, λ x m. ground (arith, unused, others x))

-- The nullifiers that a loop of `SetNullifier` marks.
pub set_nullifiers_lem :
    {B X : Type 0} (ext : External B X) (ctx : MsgContext) (ns : List ℕ) (k : Store B X) (x : ℕ)
    → ctx.tree_context.audited ≡ false
    → (set_nullifiers ext ctx ns k).nullifiers x ≡ (mem_field x ns || k.nullifiers x)
unfolding set_nullifiers set_nullifier mem_field
set_nullifiers_lem ext ctx [] k x a = refl
set_nullifiers_lem ext ctx (n ∷ ns) k x a =
    set_nullifiers_lem ext ctx ns (set_nullifier ext ctx n k) x a ∙ ground arith

module _ {B X : Type 0} (ext : External B X) (ctx : MsgContext) (k : Store B X) where
  pub check_withdraw-eq-ok :
      (msg : MsgWithdraw) (w : Withdrawal)
      → check_withdraw ext ctx msg k ≡ ok w
      → (ctx.tree_context.audited ≡ false) × (unused_nullifier ext msg.nullifier k ≡ ok w.nullifier)
  unfolding check_withdraw
  check_withdraw-eq-ok msg w h = ground arith

  pub check_transfer-eq-ok :
      (req : ShieldedTransferRequest) (w : ShieldedTransfer)
      → check_transfer ext ctx req k ≡ ok w
      → (distinct_fields req.nullifiers ≡ ok tt)
        × (unused_nullifiers ext req.nullifiers k ≡ ok w.nullifiers)
  unfolding check_transfer check_shape
  check_transfer-eq-ok req w h = ground arith
