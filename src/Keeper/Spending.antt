-- ===== src/Keeper/Spending.antt =====
-- msg_server.go and deposit.go: messages as they are delivered, and the nullifiers that they spend.
-- BaseApp drops what a failed message wrote.
use clairveil.Prelude.{ℕ, none, some, List, [], ◌∷◌, ◌++◌}
use clairveil.Prelude.Result.{ok, err}
use clairveil.Tree.Shape.{strict_field}
use clairveil.Keeper.State.{
  MsgWithdraw, MsgDeposit, ShieldedTransferRequest, External, MsgContext, Store, Handler,
}
use clairveil.Keeper.Handlers.{cached, withdraw, transfer, deposit, deposit_from}

pub data Message : Type 0 where
  msg_withdraw : MsgContext → MsgWithdraw → Message
  msg_transfer : MsgContext → ShieldedTransferRequest → Message
  msg_deposit : MsgContext → MsgDeposit → Message
  -- A call of `DepositWithFunder` by another module.
  deposit_call : MsgContext → MsgDeposit → (funder : List ℕ) → Message

-- The canonical elements among byte strings.
unfoldable pub fields : List (List ℕ) → List ℕ
fields [] = []
fields (bz ∷ rest) = let ns = fields rest in elim (strict_field bz) [ some n ↦ n ∷ ns | none ↦ ns ]

-- The nullifiers that a message names.
abbrev pub named_nullifiers : Message → List (List ℕ)
named_nullifiers (Message.msg_withdraw ctx msg) = msg.nullifier ∷ []
named_nullifiers (Message.msg_transfer ctx req) = req.nullifiers
named_nullifiers (Message.msg_deposit ctx msg) = []
named_nullifiers (Message.deposit_call ctx msg funder) = []

module _ {B X : Type 0} (ext : External B X) (hash : ℕ → ℕ → ℕ → ℕ) where
  unfoldable pub handle : Message → Handler B X Unit
  unfolding withdraw transfer deposit deposit_from
  handle (Message.msg_withdraw ctx msg) = withdraw ext hash ctx msg
  handle (Message.msg_transfer ctx req) = transfer ext hash ctx req
  handle (Message.msg_deposit ctx msg) = deposit ext hash ctx msg
  handle (Message.deposit_call ctx msg funder) = deposit_from ext hash ctx msg funder

  -- The nullifiers of the messages that were accepted, in their order, and the store in the end.
  unfoldable pub run : List Message → Store B X → List ℕ × Store B X
  unfolding fields handle
  run [] k = ([], k)
  run (m ∷ ms) k =
      let (result, t) = cached (handle m) k in
      let (spent, end) = run ms t in
      (elim result [ ok _ ↦ fields (named_nullifiers m) ++ spent | err e ↦ spent ], end)
