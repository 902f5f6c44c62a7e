-- ===== src/Tree/Refusals.antt =====
-- tree.go: the appends that are refused.
use clairveil.Prelude.{ℕ, ◌<◌, ◌≡◌, ◌≢◌, refl, arith, some, List}
use clairveil.Prelude.Result.{err}
use clairveil.Tree.Shape.{strict_field}
use clairveil.Tree.Store.{Error, Tree, Context, find_commitment}
use clairveil.Tree.Append.{accept_commitment, append_commitment}
use clairveil.Tree.Invariant.{IsValid}

refused_at_once :
    (hash : ℕ → ℕ → ℕ → ℕ) (ctx : Context) (bz : List ℕ) (t : Tree) (e : Error)
    → accept_commitment bz t ≡ err e
    → append_commitment hash ctx bz t ≡ (err e, t)
unfolding append_commitment
refused_at_once hash ctx bz t e h = rw h refl

duplicate_found :
    (hash : ℕ → ℕ → ℕ → ℕ) (leaf : ℕ → ℕ) (count : ℕ) (t : Tree) (bz : List ℕ) (i : ℕ)
    → IsValid hash leaf count t
    → i < count
    → leaf i ≢ 0
    → strict_field bz ≡ some (leaf i)
    → accept_commitment bz t ≡ err Error.duplicate_commitment
unfolding accept_commitment find_commitment
duplicate_found hash leaf count t bz i v h n e = ground (arith, v.indexed i h)

-- In a store that stands for a tree, appending a leaf that it already has, and that is not zero, fails as
-- a duplicate and writes nothing.
pub append_duplicate :
    (hash : ℕ → ℕ → ℕ → ℕ) (leaf : ℕ → ℕ) (count : ℕ) (t : Tree) (ctx : Context) (bz : List ℕ)
    (i : ℕ)
    → IsValid hash leaf count t
    → i < count
    → leaf i ≢ 0
    → strict_field bz ≡ some (leaf i)
    → append_commitment hash ctx bz t ≡ (err Error.duplicate_commitment, t)
append_duplicate hash leaf count t ctx bz i v h n e =
    refused_at_once hash ctx bz t Error.duplicate_commitment
      (duplicate_found hash leaf count t bz i v h n e)
