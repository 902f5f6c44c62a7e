-- ===== src/Keeper/Tests.antt =====
-- Messages on concrete inputs, with a toy bank and proofs that always verify.
use clairveil.Prelude.{
  ℕ, ◌+◌, ◌-◌, ◌^◌, ◌≤◌, sym, ap, ◌∙◌, str_eq_iff, String, Bool, true, false, not, ◌&&◌, ◌≡◌, refl,
  arith, Option, none, some, List, [], ◌∷◌, str_eq, leb, if◌then◌else◌,
}
use clairveil.Prelude.Int.{pos}
use clairveil.Prelude.Result.{After, ok, err}
use clairveil.Tree.Store.{Tree, check_historical_root}
use clairveil.Tree.Shape.{strict_field}
use clairveil.Tree.Path.{get_leaf_count}
use clairveil.Tree.Grow.{add_leaf}
use clairveil.Tree.Tests.{hash, five, empty, no_leaves, grown, grown-IsValid, grown_snapshot}
use clairveil.Keeper.State.{MsgWithdraw, MsgDeposit, KeeperError, External, MsgContext, Store}
use clairveil.Keeper.Handlers.{units, withdraw}
use clairveil.Keeper.Spending.{Message, run}
use clairveil.Keeper.Delivered.{IsSpending, run-IsSpending}
use clairveil.Keeper.Reserve.{reserve_amount, reserve_snapshot}
use clairveil.Keeper.Backing.{IsBank, IsBacked, books}
use clairveil.Keeper.Covered.{run_covered}
use clairveil.Keeper.Proven.{IsProven, withdraw-IsProven}
use clairveil.Keeper.Heights.{withdraw_later_fails}

-- A bank that knows the module's balance of each denom.
abbrev Bank : Type 0
Bank = String → ℕ

abbrev with_balance : String → ℕ → Bank → Bank
with_balance denom n b d = if str_eq d denom then n else b d

-- The module's address is the only one that is not empty.
abbrev is_own : List ℕ → Bool
is_own [] = false
is_own (n ∷ a) = true

abbrev external : External Bank ℕ
external = record {
  parse_coin = λ s. some (record { denom = "utoken"; amount = pos 7 });
  valid_coin = λ c. true;
  parse_address = λ s. some [];
  valid_address = λ a. true;
  is_module = is_own;
  module_balance = λ d b. b d;
  send_to_account = λ a c b.
      if not (is_own a) && leb (units c.amount) (b c.denom)
      then some (with_balance c.denom (b c.denom - units c.amount) b)
      else none;
  send_to_module = λ a c b.
      if is_own a then some b else some (with_balance c.denom (b c.denom + units c.amount) b);
  chain_domain = λ s. some (1, 2);
  recipient_digest = λ a. some (3, 4);
  payload_digest = λ r. some (5, 6);
  canonical_asset_id = λ d. some 5;
  valid_transfer = λ r. true;
  valid_deposit = λ m. true;
  verify_proof = λ p a. true;
  index_event = λ e x. some (x + 1);
  store_event = λ e x. x;
}

abbrev at_height : ℕ → MsgContext
at_height h = record {
  tree_context = record { audited = false; block_height = h };
  chain_id = "chain";
  block_time = pos 100;
}

abbrev message : MsgWithdraw
message = record {
  creator = "creator";
  proof = [];
  root = five;
  nullifier = five;
  amount = "7utoken";
  recipient = "recipient";
  chain_id = "chain";
  expires_at_unix = pos 200;
}

abbrev store_of : Tree → Store Bank ℕ
store_of t = record {
  tree = record t { historical_roots = λ r. some 0 };
  nullifiers = λ n. false;
  reserve_deposits = λ d. some (some 9);
  reserve_withdrawals = λ d. none;
  asset_by_denom = λ d. five;
  denom_by_asset = λ a. "utoken";
  audit_master_pubkey = [];
  bank = λ d. 9;
  index = 0;
}

abbrev twice : List Message
twice = Message.msg_withdraw (at_height 9) message ∷ Message.msg_withdraw (at_height 9) message ∷ []

run-IsSpending_example :
    IsSpending
      (run external hash twice (store_of empty)).0
      (store_of empty)
      (run external hash twice (store_of empty)).1
run-IsSpending_example = run-IsSpending external hash twice (store_of empty)

-- The second of two equal withdrawals is refused.
spent_once : (run external hash twice (store_of empty)).0 ≡ 5 ∷ []
unfolding run strict_field check_historical_root get_leaf_count
spent_once = refl

withdraw_later_fails_example :
    (e : KeeperError) × ((withdraw external hash
        (at_height 10)
        message
        (record (store_of empty) { tree = grown })).0
      ≡ err e)
withdraw_later_fails_example =
    withdraw_later_fails external hash (add_leaf 0 5 no_leaves) 1
      (record (store_of empty) { tree = grown }) (record { leaf_count = 1; height = 9 })
      (at_height 10) message grown-IsValid (omega arith) grown_snapshot (λ e. omega arith)

abbrev balance_in : String → Option Bank → ℕ
balance_in d none = 0
balance_in d (some b) = b d

external-IsBank : IsBank external
external-IsBank = record {
  blocks = λ a c b own. rw own refl;
  pays =
      λ a c b b' other h d. ground (arith, str_eq_iff d c.denom, ap (balance_in d) (rw other at h));
  receives = λ a c b b' other h d.
      sym (ap (balance_in d) (rw other at h)) ∙ ground (arith, str_eq_iff d c.denom);
}

store-IsBacked : IsBacked external "utoken" (books (store_of empty))
unfolding reserve_amount
store-IsBacked = record {
  total_in = 9;
  total_out = 0;
  counted_in = refl;
  counted_out = refl;
  covered = refl;
}

abbrev deposited : MsgDeposit
deposited = record {
  creator = "creator";
  amount = "7utoken";
  note_commitment = five;
  proof = [];
  encrypted_note = [];
}

-- A withdrawal, a deposit, and deposits that another account and the module's own account are to fund.
abbrev four_messages : List Message
four_messages =
    Message.msg_withdraw (at_height 9) message
    ∷ Message.msg_deposit (at_height 9) deposited
    ∷ Message.deposit_call (at_height 9) deposited []
    ∷ Message.deposit_call (at_height 9) deposited (7 ∷ [])
    ∷ []

run_covered_example :
    let t = (run external hash four_messages (store_of empty)).1 in
    After
      (reserve_snapshot external "utoken" t)
      (λ s.
        (s.invariant_holds ≡ true)
        × (s.collateralized ≡ true)
        × (s.surplus ≡ 0)
        × (s.liability + s.total_withdrawn ≡ s.total_deposited))
      (λ e. 2 ^ 256 ≤ external.module_balance "utoken" t.bank)
run_covered_example =
    run_covered external hash external-IsBank "utoken" four_messages (store_of empty)
      (tt, (refl, (tt, (tt, tt)))) store-IsBacked

first_accepted : (withdraw external hash (at_height 9) message (store_of empty)).0 ≡ ok tt
unfolding withdraw strict_field check_historical_root get_leaf_count
first_accepted = refl

withdraw-IsProven_example : IsProven external (at_height 9) message (store_of empty)
withdraw-IsProven_example =
    withdraw-IsProven external hash (at_height 9) message (store_of empty) first_accepted
