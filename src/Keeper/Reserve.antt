-- ===== src/Keeper/Reserve.antt =====
-- reserve.go: what was deposited and withdrawn, denom by denom.
use clairveil.Prelude.{
  ℕ, ◌+◌, ◌-◌, ◌^◌, String, Bool, not, Option, none, some, str_eq, ◌==◌, leb, ltb, if◌then◌else◌,
}
use clairveil.Prelude.Int.{ℤ, pos, negsuc}
use clairveil.Prelude.Result.{Result, ok, err, guard, ◌>>=◌, ◌>>◌}
use clairveil.Prelude.Exec.{continue}
use clairveil.Keeper.State.{Coin, KeeperError, External, MsgContext, Store, Handler}

-- `getReserveAmount`.
unfoldable pub reserve_amount : Option (Option ℕ) → Result KeeperError ℕ
reserve_amount none = ok 0
reserve_amount (some none) = err KeeperError.reserve_state_invalid
reserve_amount (some (some n)) = ok n

abbrev pub set_counter : String → ℕ → (String → Option (Option ℕ)) → String → Option (Option ℕ)
set_counter denom n counters d = if str_eq d denom then some (some n) else counters d

-- `addReserveAmount`: what `setReserveAmount` is going to store.
unfoldable pub added : Option (Option ℕ) → ℤ → Result KeeperError ℕ
unfolding reserve_amount
added counter (pos n) = do current ← reserve_amount counter; ok (current + n)
added counter (negsuc n) = do
  current ← reserve_amount counter
  err KeeperError.reserve_state_invalid

module _ {B X : Type 0} (ext : External B X) where
  -- `validateReserveCoin`.
  unfoldable pub validate_reserve_coin : Coin → Result KeeperError Unit
  validate_reserve_coin coin = do
    guard (ext.valid_coin coin) KeeperError.invalid_coin
    elim coin.amount [ pos n ↦ ok tt | negsuc n ↦ err KeeperError.invalid_coin ]

  abbrev pub deposit_stored : Coin → ℕ → Store B X → Store B X
  deposit_stored coin n k = record k {
    reserve_deposits = set_counter coin.denom n k.reserve_deposits;
  }

  abbrev pub withdrawal_stored : Coin → ℕ → Store B X → Store B X
  withdrawal_stored coin n k = record k {
    reserve_withdrawals = set_counter coin.denom n k.reserve_withdrawals;
  }

  -- The checks of `RecordReserveDeposit` and of `RecordReserveWithdraw`, and what they are going to store.
  unfoldable pub increment : MsgContext → Coin → Option (Option ℕ) → Result KeeperError ℕ
  unfolding validate_reserve_coin added
  increment ctx coin counter = do
    guard (not ctx.tree_context.audited) KeeperError.service_disabled
    validate_reserve_coin coin
    added counter coin.amount

  -- `RecordReserveDeposit`.
  unfoldable pub record_reserve_deposit : MsgContext → Coin → Handler B X Unit
  unfolding increment
  record_reserve_deposit ctx coin k =
      continue (increment ctx coin (k.reserve_deposits coin.denom))
        (λ n k. (ok tt, deposit_stored coin n k)) k

  -- `RecordReserveWithdraw`.
  unfoldable pub record_reserve_withdraw : MsgContext → Coin → Handler B X Unit
  unfolding increment
  record_reserve_withdraw ctx coin k =
      continue (increment ctx coin (k.reserve_withdrawals coin.denom))
        (λ n k. (ok tt, withdrawal_stored coin n k)) k

  pub record ReserveSnapshot : Type 0 where
    pub denom : String
    pub module_balance : ℕ
    pub total_deposited : ℕ
    pub total_withdrawn : ℕ
    pub liability : ℕ
    pub invariant_holds : Bool
    pub collateralized : Bool
    pub surplus : ℕ
    pub shortfall : ℕ

  -- `GetReserveSnapshot`, on a valid denom. A balance of the bank is never nil or negative.
  unfoldable pub reserve_snapshot : String → Store B X → Result KeeperError ReserveSnapshot
  unfolding reserve_amount
  reserve_snapshot denom k = do
    deposited ← reserve_amount (k.reserve_deposits denom)
    withdrawn ← reserve_amount (k.reserve_withdrawals denom)
    guard (leb withdrawn deposited) KeeperError.reserve_state_invalid
    guard (ltb (deposited - withdrawn) (2 ^ 256)) KeeperError.reserve_state_invalid
    guard (ltb (ext.module_balance denom k.bank) (2 ^ 256)) KeeperError.reserve_state_invalid
    ok (
        let expected = deposited - withdrawn in
        let balance = ext.module_balance denom k.bank in
        record {
          denom = denom;
          module_balance = balance;
          total_deposited = deposited;
          total_withdrawn = withdrawn;
          liability = expected;
          invariant_holds = balance == expected;
          collateralized = leb expected balance;
          surplus = if leb expected balance then balance - expected else 0;
          shortfall = if leb expected balance then 0 else expected - balance;
        })
