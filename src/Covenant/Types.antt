-- ===== src/Covenant/Types.antt =====
-- The data of internal/covenant: contract.go, packets.go, actions.go and scripts.go. Go's
-- enumerations are `uint8` values and may hold any byte, so they are numbers here, with the
-- source's constants. Types of wire and extension are cut down to what the package reads of them.
use arkade_poker.Prelude.{ℕ, Bool, ◌&&◌, ◌||◌, List, Option, ◌==◌, if◌then◌else◌, ℤ}

abbrev pub Bytes : Type 0
Bytes = List ℕ

-- Player
abbrev pub player1 : ℕ
player1 = 1

abbrev pub player2 : ℕ
player2 = 2

-- Street
abbrev pub pre_flop : ℕ
pre_flop = 1

abbrev pub flop : ℕ
flop = 2

abbrev pub turn : ℕ
turn = 3

abbrev pub river : ℕ
river = 4

-- PhaseKind
abbrev pub await_player1_funding : ℕ
await_player1_funding = 1

abbrev pub await_player2_opening : ℕ
await_player2_opening = 2

abbrev pub betting : ℕ
betting = 3

abbrev pub all_in : ℕ
all_in = 4

abbrev pub board_reveal : ℕ
board_reveal = 5

abbrev pub showdown_reveal : ℕ
showdown_reveal = 6

abbrev pub all_in_reveal : ℕ
all_in_reveal = 7

abbrev pub showdown_evaluation : ℕ
showdown_evaluation = 8

-- RevealPass
abbrev pub first_pass : ℕ
first_pass = 1

abbrev pub second_pass : ℕ
second_pass = 2

-- LastBettingAction
abbrev pub last_start : ℕ
last_start = 0

abbrev pub last_check : ℕ
last_check = 1

abbrev pub last_raise : ℕ
last_raise = 2

-- A field that Go leaves at its zero value is 0.
pub record Phase : Type 0 where
  pub kind : ℕ
  pub actor : ℕ
  pub street : ℕ
  pub pass : ℕ

pub record State : Type 0 where
  pub contract_id : Bytes
  pub phase : Phase
  pub last_action : ℕ
  pub wager1 : ℕ  -- Wagers.Player1, a uint64
  pub wager2 : ℕ
  pub deadline : ℕ  -- a uint64
  pub reveals : List Bytes  -- 18 slots of 64 bytes

-- Params.Stake, Bond, MinBet, MaxWager and InitialDeadline. `validate_amounts` admits positive
-- amounts only, so the agreed terms are natural numbers.
pub record Params : Type 0 where
  pub stake : ℕ
  pub bond : ℕ
  pub min_bet : ℕ
  pub max_wager : ℕ
  pub initial_deadline : ℕ

pub record TxOut : Type 0 where
  pub value : ℤ
  pub pk_script : Bytes

-- A transaction with the hash that wire computes of it.
pub record MsgTx : Type 0 where
  pub tx_hash : Bytes
  pub tx_out : List TxOut

pub record Packet : Type 0 where
  pub packet_type : ℕ
  pub payload : Bytes

-- A funding source: its outpoint, the amount stated for it and the transaction it points into.
pub record Source : Type 0 where
  pub outpoint : Option (Bytes × ℕ)
  pub amount : ℤ
  pub previous_tx : Option MsgTx

pub record Funding : Type 0 where
  pub inputs : List Source
  pub change : Option TxOut

-- BetKind
abbrev pub check : ℕ
check = 1

abbrev pub call : ℕ
call = 2

abbrev pub raise_to : ℕ
raise_to = 3

pub record BettingAction : Type 0 where
  pub kind : ℕ
  pub amount : ℤ

-- SpendingKind
abbrev pub spend_player1_funding : ℕ
spend_player1_funding = 1

abbrev pub spend_player2_opening : ℕ
spend_player2_opening = 2

abbrev pub spend_betting : ℕ
spend_betting = 3

abbrev pub spend_board_reveal : ℕ
spend_board_reveal = 4

abbrev pub spend_showdown_reveal : ℕ
spend_showdown_reveal = 5

abbrev pub spend_all_in_call : ℕ
spend_all_in_call = 6

abbrev pub spend_all_in_reveal : ℕ
spend_all_in_reveal = 7

abbrev pub spend_concession : ℕ
spend_concession = 8

abbrev pub spend_timeout : ℕ
spend_timeout = 9

abbrev pub spend_showdown : ℕ
spend_showdown = 10

pub record SpendingIdentity : Type 0 where
  pub kind : ℕ
  pub actor : ℕ
  pub street : ℕ
  pub pass : ℕ

-- A derived contract. `program` is the compiled bytecode of each spending path.
pub record Contract : Type 0 where
  pub params : Params
  pub id : Bytes
  pub script : Bytes
  pub program : SpendingIdentity → Bytes
  pub payout1 : Bytes  -- Players.Player1.PayoutScript
  pub payout2 : Bytes
  pub valid : Bool

-- validPlayer
abbrev pub valid_player : ℕ → Bool
valid_player p = p == player1 || p == player2

-- otherPlayer
abbrev pub other_player : ℕ → ℕ
other_player p = if p == player1 then player2 else player1

-- Go's `==` on Phase
abbrev pub phase_eq : Phase → Phase → Bool
phase_eq p q = p.kind == q.kind && p.actor == q.actor && p.street == q.street && p.pass == q.pass
