-- ===== src/Reservation/Reconcile/Agreement.antt =====
-- reconcile.go: what a match between an operation and the evidence comes to.
use clairveil.Prelude.{
  ℕ, Bool, true, false, not, ◌&&◌, ◌||◌, ◌≡◌, ◌⊎◌, inl, inr, refl, sym, ap, subst, Option, none,
  some, List, [], ◌∷◌, arith, ==_iff, str_eq,
}
use clairveil.Prelude.Int.{ℤ, pos, negsuc, leb_ℤ}
use clairveil.Reservation.Types.{PayrollOperation}
use clairveil.Reservation.Audit.{list_eq}
use clairveil.Reservation.Links.{is_nil}
use clairveil.Reservation.Identity.{
  trim, match_required, first_non_empty, normalized, identity_matches, non_empty_texts,
  all_expected, mem,
}
use clairveil.Reservation.Evidence.{
  OperationEvidence, sign_doc_matches, tx_matches, operation_matches,
}

pub list_eq-true : (xs ys : List ℕ) → list_eq xs ys ≡ true → xs ≡ ys
unfolding list_eq
list_eq-true [] [] h = refl
list_eq-true [] (y ∷ ys) h = absurd (cc)
list_eq-true (x ∷ xs) [] h = absurd (cc)
list_eq-true (x ∷ xs) (y ∷ ys) h =
    let head : x ≡ y = (==_iff x y).0 (ground arith) in
    let tail : xs ≡ ys = list_eq-true xs ys (ground arith) in cc (head, tail)

-- Two texts are equal, and not empty.
abbrev pub Equal : List ℕ → List ℕ → Type 0
Equal expected actual = (expected ≡ actual) × (is_nil expected ≡ false)

match_required-Equal : (xs ys : List ℕ) → match_required xs ys ≡ true → Equal xs ys
unfolding match_required
match_required-Equal xs ys h = (list_eq-true xs ys (ground arith), ground arith)

-- A text that is compared only where it is expected.
optional : (b : Bool) (xs ys : List ℕ) → b || match_required xs ys ≡ true → (b ≡ true) ⊎ Equal xs ys
optional true xs ys h = inl refl
optional false xs ys h = inr (match_required-Equal xs ys h)

leb_ℤ-antisym : (i j : ℤ) → leb_ℤ i j ≡ true → leb_ℤ j i ≡ true → i ≡ j
leb_ℤ-antisym (pos m) (pos n) h k = ap pos (ground (arith, h, k))
leb_ℤ-antisym (pos m) (negsuc n) h k = absurd (ground (arith, h, k))
leb_ℤ-antisym (negsuc m) (pos n) h k = absurd (ground (arith, h, k))
leb_ℤ-antisym (negsuc m) (negsuc n) h k = ap negsuc (ground (arith, h, k))

same_item :
    (b c : Bool) (i j : ℤ)
    → not b || (c && leb_ℤ i j && leb_ℤ j i) ≡ true
    → (b ≡ false) ⊎ ((c ≡ true) × (i ≡ j))
same_item false c i j h = inl refl
same_item true false i j h = absurd (cc)
same_item true true i j h = inr (refl, leb_ℤ-antisym i j (ground arith) (ground arith))

sign_doc-Equal :
    (lower : ℕ → ℕ) (xs ys : List ℕ) → sign_doc_matches lower xs ys false ≡ true → Equal xs ys
unfolding sign_doc_matches
sign_doc-Equal lower xs ys h = (sym (list_eq-true ys xs (ground arith)), ground arith)

identity_tests :
    (lower : ℕ → ℕ) (a b c d : List ℕ)
    → identity_matches lower (a ∷ b ∷ []) (c ∷ d ∷ []) ≡ some true
    → (not (is_nil c) && list_eq a c)
        || ((not (is_nil c) && list_eq b c)
            || ((not (is_nil d) && list_eq a d) || (not (is_nil d) && list_eq b d)))
      ≡ true
unfolding identity_matches non_empty_texts all_expected mem
identity_tests lower a b c d h = ground arith

-- One of the hashes that are given is one of those that are expected.
abbrev pub Shares : (expected expected' actual actual' : List ℕ) → Type 0
Shares a b c d = Equal a c ⊎ Equal b c ⊎ Equal a d ⊎ Equal b d

-- Two texts that pass as equal, the first of which is not empty.
shared : (x y : List ℕ) → not (is_nil y) && list_eq x y ≡ true → Equal x y
shared x y h =
    let e = list_eq-true x y (ground arith) in
    (e, subst (λ z. is_nil z ≡ false) (sym e) (ground arith))

either : (b c : Bool) → b || c ≡ true → (b ≡ true) ⊎ (c ≡ true)
either true c h = inl refl
either false c h = inr h

identity_matches-Shares :
    (lower : ℕ → ℕ) (a b c d : List ℕ)
    → identity_matches lower (a ∷ b ∷ []) (c ∷ d ∷ []) ≡ some true
    → Shares a b c d
identity_matches-Shares lower a b c d h = elim (either _ _ (identity_tests lower a b c d h)) [
  | inl t ↦ inl (shared a c t)
  | inr t ↦ elim (either _ _ t) [
    | inl t ↦ inr (inl (shared b c t))
    | inr t ↦ elim (either _ _ t) [
      | inl t ↦ inr (inr (inl (shared a d t)))
      | inr t ↦ inr (inr (inr (shared b d t)))
    ]
  ]
]

module _ (lower : ℕ → ℕ) where
  -- The evidence is of the operation's transaction: it has one of its hashes, or signs its document.
  abbrev pub IsOf : PayrollOperation → OperationEvidence → Type 0
  IsOf o e =
      Equal (normalized lower o.sign_doc_hash) (normalized lower e.sign_doc_hash)
      ⊎ Shares (normalized lower o.tx_hash) (normalized lower o.tx_bytes_hash)
          (normalized lower e.tx_hash) (normalized lower e.tx_bytes_hash)

  pub tx_matches-IsOf :
      (o : PayrollOperation) (e : OperationEvidence) → tx_matches lower o e ≡ true → IsOf o e
  unfolding tx_matches
  tx_matches-IsOf o e h =
      go _
        (identity_matches-Shares lower (normalized lower o.tx_hash)
          (normalized lower o.tx_bytes_hash) (normalized lower e.tx_hash)
          (normalized lower e.tx_bytes_hash))
        h
    where
      go :
          (m : Option Bool)
          → (m ≡ some true
              → Shares
                  (normalized lower o.tx_hash)
                  (normalized lower o.tx_bytes_hash)
                  (normalized lower e.tx_hash)
                  (normalized lower e.tx_bytes_hash))
          → elim m [
            | none ↦ false
            | some matched ↦
                sign_doc_matches lower
                  (normalized lower o.sign_doc_hash)
                  (normalized lower e.sign_doc_hash)
                  matched
          ]
            ≡ true
          → IsOf o e
      go none f h = absurd (cc)
      go (some true) f h = inr (f refl)
      go (some false) f h = inl (
          sign_doc-Equal lower (normalized lower o.sign_doc_hash) (normalized lower e.sign_doc_hash)
            h)

  -- The evidence is of the operation's transaction, and shows the output, disclosures, recipient, amount,
  -- denom and item that the operation expects.
  pub record Agrees (o : PayrollOperation) (e : OperationEvidence) : Type 0 where
    pub tx : tx_matches lower o e ≡ true
    pub same_tx : IsOf o e
    pub output : Equal (trim o.expected_output_commitment) (trim e.output_commitment)
    pub disclosure :
        Equal
          (first_non_empty (o.expected_audit_disclosure_digest ∷ o.expected_disclosure_digest ∷ []))
          (first_non_empty (e.audit_disclosure_digest ∷ e.disclosure_digest ∷ []))
    pub user_disclosure :
        (str_eq o.expected_user_disclosure_digest "" ≡ true)
        ⊎ Equal (trim o.expected_user_disclosure_digest) (trim e.user_disclosure_digest)
    pub self_view :
        (str_eq o.expected_self_view_disclosure_digest "" ≡ true)
        ⊎ Equal (trim o.expected_self_view_disclosure_digest) (trim e.self_view_disclosure_digest)
    pub recipient : Equal (trim o.expected_recipient_hash) (trim e.recipient_hash)
    pub amount : Equal (trim o.expected_amount_hash) (trim e.amount_hash)
    pub denom : Equal (trim o.expected_denom) (trim e.denom)
    pub item :
        (o.batch_item_index_known ≡ false)
        ⊎ ((e.batch_item_index_known ≡ true) × (o.batch_item_index ≡ e.batch_item_index))

  pub operation_matches-Agrees :
      (o : Option PayrollOperation) (e : OperationEvidence)
      → operation_matches lower o e ≡ true
      → (p : PayrollOperation) × (o ≡ some p) × Agrees p e
  unfolding operation_matches
  operation_matches-Agrees none e h = absurd (cc)
  operation_matches-Agrees (some o) e h = (
    o,
    refl,
    record {
      tx = ground arith;
      same_tx = tx_matches-IsOf o e (ground arith);
      output = match_required-Equal _ _ (ground arith);
      disclosure = match_required-Equal _ _ (ground arith);
      user_disclosure = optional _ _ _ (ground arith);
      self_view = optional _ _ _ (ground arith);
      recipient = match_required-Equal _ _ (ground arith);
      amount = match_required-Equal _ _ (ground arith);
      denom = match_required-Equal _ _ (ground arith);
      item = same_item o.batch_item_index_known e.batch_item_index_known _ _ (ground arith);
    },
  )
