-- ===== src/Samples.antt =====
-- A sample agreement, its players' cards and a hand that starts on it, for the tests.
use arkade_poker.Prelude.{
  ℕ, refl, true, List, [], ◌∷◌, some, none, replicate, ◌==◌, ok, err, arith, pos, Result,
}
use arkade_poker.Covenant.Types.{
  Bytes, Params, State, BettingAction, Contract, MsgTx, Packet, Source, raise_to, betting,
  last_raise, flop,
}
use arkade_poker.Covenant.Reveals.{
  CardLib, RevealWitness, publish_reveals, player1_funding_next, initial_state, state_eq,
}
use arkade_poker.Covenant.Packets.{ArkLib, encode_state}
use arkade_poker.Covenant.Terminal.{ShowdownWitness}
use arkade_poker.Covenant.Live.{IsAgreed, Reach, Action, deposit, act, fund, advance}
use arkade_poker.Covenant.Live.Progress.{IsRevealer}

-- The default terms of the client.
abbrev pub terms : Params
terms = record {
  stake = 5000;
  bond = 5000;
  min_bet = 500;
  max_wager = 100000;
  initial_deadline = 1000;
}

pub terms-IsAgreed : IsAgreed terms
terms-IsAgreed = omega arith

abbrev pub sample_id : Bytes
sample_id = replicate 32 7

-- A card is a number, and its share is 64 copies of it.
abbrev pub sample_cards : CardLib ℕ
sample_cards = record {
  share_bytes = λ n. ok (replicate 64 n);
  proof_bytes = λ n. ok (replicate 160 n);
  zero_card = 0;
  is_zero = λ n. n == 0;
}

abbrev pub able : IsRevealer sample_cards
able = record {
  card = 3;
  share = replicate 64 3;
  proof = replicate 160 3;
  shares = refl;
  proves = refl;
  zeros = refl;
}

abbrev pub holes : RevealWitness ℕ
holes = record { kind = 1; holes = (3, 4); flop = (0, 0, 0); turn = 0; river = 0 }

abbrev pub start : State
start = record {
  contract_id = sample_id;
  phase = record { kind = 1; actor = 0; street = 0; pass = 0 };
  last_action = 0;
  wager1 = 0;
  wager2 = 0;
  deadline = 1000;
  reveals = replicate 18 (replicate 64 0);
}

abbrev pub funded : State
funded = record start {
  phase = record { kind = 2; actor = 0; street = 0; pass = 0 };
  reveals =
      replicate 64 0
      ∷ replicate 64 0
      ∷ replicate 64 3
      ∷ replicate 64 4
      ∷ replicate 14 (replicate 64 0);
}

funded-Action : Action sample_cards sample_id terms start funded
unfolding player1_funding_next publish_reveals initial_state state_eq
funded-Action = fund holes (replicate 160 4 ∷ replicate 160 3 ∷ []) refl

start-Reach : Reach sample_cards sample_id terms 0 start
unfolding initial_state
start-Reach = deposit refl refl

pub funded-Reach : Reach sample_cards sample_id terms 1 (advance funded)
funded-Reach = act start-Reach funded-Action (omega arith) refl refl

-- On the flop, the first player faces a raise to 2,000 over 1,000.
abbrev pub raised : State
raised = record start {
  phase = record { kind = betting; actor = 1; street = flop; pass = 0 };
  last_action = last_raise;
  wager1 = 1000;
  wager2 = 2000;
}

abbrev pub reraise : BettingAction
reraise = record { kind = raise_to; amount = pos 3500 }

-- The libraries of a model in which a transaction shows its packets.
abbrev pub sample_lib : ArkLib
sample_lib = record {
  checked = λ ps. some ps;
  from_tx = λ tx. none;
  tx_out = λ ps. some (record { value = pos 0; pk_script = 106 ∷ [] });
  emulator_packet = λ program witness. some (record { packet_type = 1; payload = program });
  emulator_type = 1;
}

abbrev pub sample_contract : Contract
sample_contract = record {
  params = terms;
  id = sample_id;
  script = 81 ∷ [];
  program = λ i. 1 ∷ [];
  payout1 = 11 ∷ [];
  payout2 = 22 ∷ [];
  valid = true;
}

abbrev pub packets_of : Result (List Packet) → List Packet
packets_of (ok ps) = ps
packets_of (err e) = []

-- A library whose transactions all show the packets of one state.
abbrev pub showing : State → ArkLib
showing s = record sample_lib { from_tx = λ tx. some (packets_of (encode_state s)) }

-- A transaction whose first output holds an amount.
abbrev pub holding : ℕ → MsgTx
holding n = record { tx_hash = 5 ∷ []; tx_out = record { value = pos n; pk_script = 81 ∷ [] } ∷ [] }

abbrev pub wallet_input : ℕ → Source
wallet_input n = record {
  outpoint = some (5 ∷ [], 0);
  amount = pos n;
  previous_tx = some (holding n);
}

abbrev pub evaluation : State
evaluation = record start {
  phase = record { kind = 8; actor = 0; street = 0; pass = 0 };
  wager1 = 3000;
  wager2 = 3000;
}

abbrev pub claim : ShowdownWitness
claim = record {
  cards = 0 ∷ 1 ∷ 2 ∷ 3 ∷ 4 ∷ 5 ∷ 6 ∷ 7 ∷ 8 ∷ [];
  proof1 = record { rank = 7000; siblings = ok (replicate 864 0) };
  proof2 = record { rank = 12; siblings = ok (replicate 864 0) };
}
