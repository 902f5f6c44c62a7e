-- ===== src/Tree/Paths.antt =====
-- tree.go: the authentication paths that `GetPath` returns lead from the leaf to the stored root.
use clairveil.Prelude.{
  ℕ, zero, suc, ◌+◌, ◌-◌, ◌*◌, ◌/◌, ◌%◌, ◌<◌, ◌≡◌, refl, ap, sym, subst, ◌∙◌, arith, some, List, [],
  ◌∷◌, ◌==◌, if◌then◌else◌, Bool-cases, inl, inr,
}
use native.Mathlib.Numerals.{add-one}
use clairveil.Prelude.Result.{Result, ok}
use clairveil.Prelude.Exec.{continue}
use clairveil.Tree.Shape.{modulus, ancestor}
use clairveil.Tree.Store.{
  Error, Tree, Context, leaf_count_strict, leaf_required, canonical, find_commitment,
}
use clairveil.Tree.Path.{
  get_leaf_count, PathStep, sibling_index, path_from, path_of, get_path, fold_path,
}
use clairveil.Tree.Spec.{subtree}
use clairveil.Tree.Invariant.{
  IsValid, ancestor-eq-zero, node_or_empty_lem, ensure_incremental_state_lem, populated_pos,
}

module _ (hash : ℕ → ℕ → ℕ → ℕ) (leaf : ℕ → ℕ) (count : ℕ) (t : Tree)
    (v : IsValid hash leaf count t) where
  abbrev step_at : ℕ → ℕ → PathStep
  step_at level index = record {
    sibling = subtree hash leaf level (sibling_index index);
    is_right = index % 2 == 1;
  }

  -- The steps that the path of a node has.
  steps_from : ℕ → ℕ → ℕ → List PathStep
  steps_from zero level index = []
  steps_from (suc rounds) level index =
      step_at level index ∷ steps_from rounds (level + 1) (index / 2)

  path_from_lem :
      (hash_canonical : (l a b : ℕ) → hash l a b < modulus) (rounds level index : ℕ)
      → level + rounds ≡ 32
      → path_from hash rounds level index count t ≡ ok (steps_from rounds level index)
  unfolding path_from steps_from
  path_from_lem hash_canonical zero level index e = refl
  path_from_lem hash_canonical (suc rounds) level index e =
      rw
        (
          node_or_empty_lem hash leaf count t level (sibling_index index) hash_canonical v
              (omega arith),
          path_from_lem hash_canonical rounds (level + 1) (index / 2) (omega arith),
        )
        refl

  -- One step computes the parent.
  fold_step :
      (level index : ℕ)
      → (if index % 2 == 1
          then hash level
              (subtree hash leaf level (sibling_index index))
              (subtree hash leaf level index)
          else hash level
              (subtree hash leaf level index)
              (subtree hash leaf level (sibling_index index)))
        ≡ subtree hash leaf (level + 1) (index / 2)
  unfolding subtree
  fold_step level index = elim (Bool-cases (index % 2 == 1)) [
    | inl odd ↦
        let e : 2 * (index / 2) ≡ index - 1 = ground arith in
        let f : index - 1 + 1 ≡ index = ground arith in rw (add-one level, subtree, odd, e, f) refl
    | inr even ↦
        let e : 2 * (index / 2) ≡ index = ground arith in rw (add-one level, subtree, even, e) refl
  ]

  fold_path_lem :
      (rounds level index : ℕ)
      → fold_path hash level (subtree hash leaf level index) (steps_from rounds level index)
        ≡ subtree hash leaf (level + rounds) (ancestor index rounds)
  unfolding fold_path steps_from ancestor
  fold_path_lem zero level index = let e : level + 0 ≡ level = omega arith in rw e refl
  fold_path_lem (suc rounds) level index =
      let e : level + suc rounds ≡ level + 1 + rounds = omega arith in
      ap (λ (node : ℕ). fold_path hash (level + 1) node (steps_from rounds (level + 1) (index / 2)))
        (fold_step level index)
      ∙ fold_path_lem rounds (level + 1) (index / 2)
      ∙ ap (λ (l : ℕ). subtree hash leaf l (ancestor (index / 2) rounds)) (sym e)

  pub get_leaf_count_lem : get_leaf_count t ≡ count
  unfolding get_leaf_count leaf_count_strict
  get_leaf_count_lem = ground (arith, v.counted)

  path_of_lem :
      (hash_canonical : (l a b : ℕ) → hash l a b < modulus) (i : ℕ)
      → i < count
      → path_of hash (leaf i) t ≡ ok (steps_from 32 0 i, subtree hash leaf 32 0)
  unfolding path_of find_commitment leaf_required canonical
  path_of_lem hash_canonical i h = ground (
    arith,
    get_leaf_count_lem,
    v.indexed i h,
    v.stored i h,
    v.small i,
    path_from_lem hash_canonical 32 0 i (omega arith),
    v.built 32 0 (omega arith) (populated_pos count 32 (omega arith)),
  )

  -- In a store that stands for a tree, where the hash gives canonical values, `GetPath` returns, for each
  -- leaf, a path that folds to the stored root, with that root; it changes nothing.
  pub get_path_verifies :
      (hash_canonical : (l a b : ℕ) → hash l a b < modulus) (ctx : Context) (i : ℕ)
      → i < count
      → (steps : List PathStep) × (get_path hash ctx (leaf i) t
          ≡ (ok (steps, subtree hash leaf 32 0), t))
        × (fold_path hash 0 (leaf i) steps ≡ subtree hash leaf 32 0)
        × (t.nodes 32 0 ≡ some (subtree hash leaf 32 0))
  unfolding get_path
  get_path_verifies hash_canonical ctx i h = (
    steps_from 32 0 i,
    subst
        (λ (r : Result Error Unit × Tree).
          continue r.0 (λ _ t'. (path_of hash (leaf i) t', t')) r.1
          ≡ (ok (steps_from 32 0 i, subtree hash leaf 32 0), t))
        (sym (ensure_incremental_state_lem hash leaf count t ctx v))
        (ap (λ (r : Result Error (List PathStep × ℕ)). (r, t)) (path_of_lem hash_canonical i h)),
    unfold subtree in
        fold_path_lem 32 0 i
        ∙ ap (subtree hash leaf 32) (ancestor-eq-zero i 32 (omega (arith, v.bounded))),
    v.built 32 0 (omega arith) (populated_pos count 32 (omega arith)),
  )
