-- ===== src/Keeper/Backing.antt =====
-- reserve.go, msg_server.go and deposit.go: the module's balance covers what was deposited and not
-- withdrawn.
use clairveil.Prelude.{
  ℕ, ◌+◌, String, Bool, true, false, ◌≡◌, refl, sym, ap, ◌∙◌, Option, none, some, List, str_eq,
  str_eq_iff, arith, Bool-cases, inl, inr, if◌then◌else◌,
}
use clairveil.Prelude.Int.{ℤ, pos, negsuc}
use clairveil.Prelude.Result.{Result, ok, err, ok-injective}
use clairveil.Prelude.Exec.{continue, check}
use clairveil.Keeper.State.{Coin, KeeperError, External, MsgContext, Store}
use clairveil.Keeper.Reserve.{
  reserve_amount, set_counter, added, increment, deposit_stored, withdrawal_stored,
  record_reserve_deposit, record_reserve_withdraw,
}
use clairveil.Keeper.Handlers.{units, bank_update, pay_in, pay_out, take_coin}

-- What a transfer of `coin` changes in the balance of `denom`.
abbrev pub moved : String → Coin → ℕ
moved denom coin = if str_eq denom coin.denom then units coin.amount else 0

-- The bank moves the coin, and nothing else, between the module and an account that is not the module's,
-- and it refuses to pay the module's own account, which is a blocked address. Of what the module's account
-- sends to the module, where the balance stays as it is, nothing is assumed.
pub record IsBank {B X : Type 0} (ext : External B X) : Type 0 where
  pub blocks :
      (a : List ℕ) (c : Coin) (b : B) → ext.is_module a ≡ true → ext.send_to_account a c b ≡ none
  pub pays :
      (a : List ℕ) (c : Coin) (b b' : B)
      → ext.is_module a ≡ false
      → ext.send_to_account a c b ≡ some b'
      → (d : String) → ext.module_balance d b' + moved d c ≡ ext.module_balance d b
  pub receives :
      (a : List ℕ) (c : Coin) (b b' : B)
      → ext.is_module a ≡ false
      → ext.send_to_module a c b ≡ some b'
      → (d : String) → ext.module_balance d b' ≡ ext.module_balance d b + moved d c

-- The bank's state and the two counters.
abbrev pub Books : Type 0 → Type 0
Books B = B × (String → Option (Option ℕ)) × (String → Option (Option ℕ))

abbrev pub books : {B X : Type 0} → Store B X → Books B
books k = (k.bank, k.reserve_deposits, k.reserve_withdrawals)

module _ {B X : Type 0} (ext : External B X) where
  -- The balance and what was withdrawn make up what was deposited.
  pub record IsBacked (d : String) (b : Books B) : Type 0 where
    pub total_in : ℕ
    pub total_out : ℕ
    pub counted_in : reserve_amount (b.1 d) ≡ ok total_in
    pub counted_out : reserve_amount (b.2 d) ≡ ok total_out
    pub covered : ext.module_balance d b.0 + total_out ≡ total_in

  added-eq-ok :
      (counter : Option (Option ℕ)) (z : ℤ) (n : ℕ)
      → added counter z ≡ ok n
      → (m : ℕ) × (reserve_amount counter ≡ ok m) × (n ≡ m + units z)
  unfolding added reserve_amount
  added-eq-ok none (pos a) n h = (0, refl, sym (ok-injective h))
  added-eq-ok (some none) (pos a) n h = absurd (cc)
  added-eq-ok (some (some m)) (pos a) n h = (m, refl, sym (ok-injective h))
  added-eq-ok none (negsuc a) n h = absurd (cc)
  added-eq-ok (some none) (negsuc a) n h = absurd (cc)
  added-eq-ok (some (some m)) (negsuc a) n h = absurd (cc)

  -- A counter after an increment, at any denom.
  counted :
      (counters : String → Option (Option ℕ)) (c : Coin) (n m total : ℕ) (d : String)
      → reserve_amount (counters c.denom) ≡ ok m
      → n ≡ m + units c.amount
      → reserve_amount (counters d) ≡ ok total
      → reserve_amount (set_counter c.denom n counters d) ≡ ok (total + moved d c)
  unfolding reserve_amount
  counted counters c n m total d at e before = elim (Bool-cases (str_eq d c.denom)) [
    | inl t ↦
        let same : d ≡ c.denom = (str_eq_iff d c.denom).0 t in
        let f : m ≡ total =
          ok-injective (sym at ∙ ap (λ j. reserve_amount (counters j)) (sym same) ∙ before) in
        rw t (ap ok (e ∙ ap (λ j. j + units c.amount) f))
    | inr f ↦ rw f (before ∙ ap ok (omega arith))
  ]

  increment-eq-ok :
      (ctx : MsgContext) (c : Coin) (counter : Option (Option ℕ)) (n : ℕ)
      → increment ext ctx c counter ≡ ok n
      → added counter c.amount ≡ ok n
  unfolding increment
  increment-eq-ok ctx c counter n h = ground arith

  pub record_withdraw-IsBacked :
      (ctx : MsgContext) (c : Coin) (k : Store B X) (d : String) (b0 : B)
      → (record_reserve_withdraw ext ctx c k).0 ≡ ok tt
      → IsBacked d (b0, k.reserve_deposits, k.reserve_withdrawals)
      → ext.module_balance d k.bank + moved d c ≡ ext.module_balance d b0
      → IsBacked d (books (record_reserve_withdraw ext ctx c k).1)
  unfolding record_reserve_withdraw
  record_withdraw-IsBacked ctx c k d b0 h v paid =
      go (increment ext ctx c (k.reserve_withdrawals c.denom)) refl h
    where
      go :
          (r : Result KeeperError ℕ)
          → increment ext ctx c (k.reserve_withdrawals c.denom) ≡ r
          → (continue {S = Store B X} r (λ n k. (ok tt, withdrawal_stored ext c n k)) k).0 ≡ ok tt
          → IsBacked d
              (books (continue {S = Store B X} r (λ n k. (ok tt, withdrawal_stored ext c n k)) k).1)
      go (err e) at h = absurd (cc)
      go (ok n) at h =
          let (m, was, sum) = added-eq-ok _ c.amount n (increment-eq-ok ctx c _ n at) in
          record {
            total_in = v.total_in;
            total_out = v.total_out + moved d c;
            counted_in = v.counted_in;
            counted_out = counted k.reserve_withdrawals c n m v.total_out d was sum v.counted_out;
            covered = omega (arith, v.covered, paid);
          }

  pub record_deposit-IsBacked :
      (ctx : MsgContext) (c : Coin) (k : Store B X) (d : String) (b0 : B)
      → (record_reserve_deposit ext ctx c k).0 ≡ ok tt
      → IsBacked d (b0, k.reserve_deposits, k.reserve_withdrawals)
      → ext.module_balance d k.bank ≡ ext.module_balance d b0 + moved d c
      → IsBacked d (books (record_reserve_deposit ext ctx c k).1)
  unfolding record_reserve_deposit
  record_deposit-IsBacked ctx c k d b0 h v paid =
      go (increment ext ctx c (k.reserve_deposits c.denom)) refl h
    where
      go :
          (r : Result KeeperError ℕ)
          → increment ext ctx c (k.reserve_deposits c.denom) ≡ r
          → (continue {S = Store B X} r (λ n k. (ok tt, deposit_stored ext c n k)) k).0 ≡ ok tt
          → IsBacked d
              (books (continue {S = Store B X} r (λ n k. (ok tt, deposit_stored ext c n k)) k).1)
      go (err e) at h = absurd (cc)
      go (ok n) at h =
          let (m, was, sum) = added-eq-ok _ c.amount n (increment-eq-ok ctx c _ n at) in
          record {
            total_in = v.total_in + moved d c;
            total_out = v.total_out;
            counted_in = counted k.reserve_deposits c n m v.total_in d was sum v.counted_in;
            counted_out = v.counted_out;
            covered = omega (arith, v.covered, paid);
          }

  module _ (laws : IsBank ext) where
    -- A payment and its record together.
    pub pay_out-paid :
        (a : List ℕ) (c : Coin) (k : Store B X) (d : String)
        → (pay_out ext a c k).0 ≡ ok tt
        → let t = (pay_out ext a c k).1 in
          (t.reserve_deposits ≡ k.reserve_deposits)
          × (t.reserve_withdrawals ≡ k.reserve_withdrawals)
          × (ext.module_balance d t.bank + moved d c ≡ ext.module_balance d k.bank)
    unfolding pay_out bank_update
    pay_out-paid a c k d h = go (ext.send_to_account a c k.bank) refl h
      where
        go :
            (o : Option B)
            → ext.send_to_account a c k.bank ≡ o
            → (bank_update ext o k).0 ≡ ok tt
            → let t = (bank_update ext o k).1 in
              (t.reserve_deposits ≡ k.reserve_deposits)
              × (t.reserve_withdrawals ≡ k.reserve_withdrawals)
              × (ext.module_balance d t.bank + moved d c ≡ ext.module_balance d k.bank)
        go (some b) at h = elim (Bool-cases (ext.is_module a)) [
          | inl own ↦ absurd (cc (at, laws.blocks a c k.bank own))
          | inr other ↦ (refl, refl, laws.pays a c k.bank b other at d)
        ]
        go none at h = absurd (cc)

    -- The same for a deposit's coin.
    pay_in-paid :
        (a : List ℕ) (c : Coin) (k : Store B X) (d : String)
        → ext.is_module a ≡ false
        → (pay_in ext a c k).0 ≡ ok tt
        → let t = (pay_in ext a c k).1 in
          (t.reserve_deposits ≡ k.reserve_deposits)
          × (t.reserve_withdrawals ≡ k.reserve_withdrawals)
          × (ext.module_balance d t.bank ≡ ext.module_balance d k.bank + moved d c)
    unfolding pay_in bank_update
    pay_in-paid a c k d other h = go (ext.send_to_module a c k.bank) refl h
      where
        go :
            (o : Option B)
            → ext.send_to_module a c k.bank ≡ o
            → (bank_update ext o k).0 ≡ ok tt
            → let t = (bank_update ext o k).1 in
              (t.reserve_deposits ≡ k.reserve_deposits)
              × (t.reserve_withdrawals ≡ k.reserve_withdrawals)
              × (ext.module_balance d t.bank ≡ ext.module_balance d k.bank + moved d c)
        go (some b) at h = (refl, refl, laws.receives a c k.bank b other at d)
        go none at h = absurd (cc)

    pub take_coin-paid :
        (verify : Bool) (a : List ℕ) (c : Coin) (k : Store B X) (d : String)
        → ext.is_module a ≡ false
        → (take_coin ext verify a c k).0 ≡ ok tt
        → let t = (take_coin ext verify a c k).1 in
          (t.reserve_deposits ≡ k.reserve_deposits)
          × (t.reserve_withdrawals ≡ k.reserve_withdrawals)
          × (ext.module_balance d t.bank ≡ ext.module_balance d k.bank + moved d c)
    unfolding take_coin
    take_coin-paid verify a c k d other h = go (pay_in ext a c k) _ h (pay_in-paid a c k d other)
      where
        Paid : Store B X → Type 0
        Paid t =
            (t.reserve_deposits ≡ k.reserve_deposits)
            × (t.reserve_withdrawals ≡ k.reserve_withdrawals)
            × (ext.module_balance d t.bank ≡ ext.module_balance d k.bank + moved d c)

        go :
            (r : Result KeeperError Unit × Store B X) (same : Bool)
            → (continue r.0 (λ _. check same KeeperError.balance_mismatch) r.1).0 ≡ ok tt
            → (r.0 ≡ ok tt → Paid r.1)
            → Paid
                (continue {B = Unit {0}} r.0 (λ _. check same KeeperError.balance_mismatch) r.1).1
        go (ok _, t) true h paid = paid refl
        go (ok _, t) false h paid = absurd (cc)
        go (err e, t) same h paid = absurd (cc)
