-- ===== src/Covenant/Reveals.antt =====
-- internal/covenant/action_reveals.go: the publication of decryption shares, and the reveal actions.
-- A card reveal is a parameter: what internal/shuffle makes of its share and of its proof.
use arkade_poker.Prelude.{
  ℕ, ◌+◌, ◌-◌, ◌*◌, Bool, true, false, not, ◌&&◌, ◌||◌, List, [], ◌∷◌, ◌++◌, leb, ◌==◌,
  if◌then◌else◌, u8, set, Result, ok, err, ◌>>=◌, ◌>>◌, guard, reject, bad_reveals, bad_phase,
  bad_history, bad_target, over_cap, ℤ, pos, uint64, leb_ℤ, eqb_ℤ, is_negative, replicate,
}
use arkade_poker.Covenant.Types.{
  Bytes, State, Params, player1, player2, pre_flop, flop, river, first_pass, second_pass,
  last_start, last_raise, betting, all_in, board_reveal, showdown_reveal, all_in_reveal,
  showdown_evaluation, valid_player, other_player, await_player1_funding, await_player2_opening,
  last_check, phase_eq,
}
use arkade_poker.Covenant.Amounts.{bytes_eq}
use arkade_poker.Covenant.Betting.{own_wager, opposing_wager}
use arkade_poker.Covenant.Phase.{bare}

-- RevealKind
abbrev pub reveal_opponent_holes : ℕ
reveal_opponent_holes = 1

abbrev pub reveal_flop : ℕ
reveal_flop = 2

abbrev pub reveal_turn : ℕ
reveal_turn = 3

abbrev pub reveal_river : ℕ
reveal_river = 4

abbrev pub reveal_own_holes : ℕ
reveal_own_holes = 5

abbrev pub reveal_remaining_from_flop : ℕ
reveal_remaining_from_flop = 6

abbrev pub reveal_remaining_from_turn : ℕ
reveal_remaining_from_turn = 7

abbrev pub reveal_remaining_from_river : ℕ
reveal_remaining_from_river = 8

-- What a CardReveal of internal/shuffle offers: its affine encodings, and Go's zero value.
pub record CardLib (Card : Type 0) : Type 0 where
  pub share_bytes : Card → Result Bytes
  pub proof_bytes : Card → Result Bytes
  pub zero_card : Card
  pub is_zero : Card → Bool

pub record RevealWitness (Card : Type 0) : Type 0 where
  pub kind : ℕ
  pub holes : Card × Card
  pub flop : Card × Card × Card
  pub turn : Card
  pub river : Card

pub record Item (Card : Type 0) : Type 0 where
  pub slot : ℕ
  pub card : Card

-- The items taken so far, and the witness with the taken fields set to zero.
pub record Picked (Card : Type 0) : Type 0 where
  pub items : List (Item Card)
  pub left : RevealWitness Card

-- startEqual
abbrev pub start_equal : State → Bool
start_equal s = s.last_action == last_start && s.wager1 == s.wager2

-- boardRevealKind and remainingRevealKind
abbrev pub board_reveal_kind : ℕ → ℕ
board_reveal_kind street = u8 (reveal_flop + (street + 256 - flop))

abbrev pub remaining_reveal_kind : ℕ → ℕ
remaining_reveal_kind street =
    if street == river
    then reveal_own_holes
    else u8 (reveal_remaining_from_flop + (street + 256 - pre_flop))

module _ {Card : Type 0} (cards : CardLib Card) where
  open cards use {share_bytes, proof_bytes, zero_card, is_zero}

  abbrev item : ℕ → Card → Item Card
  item slot card = record { slot = slot; card = card }

  -- `player` is the actor less Player1, 0 or 1.
  unfoldable pub take_holes : Bool → ℕ → Picked Card → Picked Card
  take_holes opponent player p =
      let start = if opponent then 2 * (1 - player) else 14 + 2 * player in
      record {
        items = p.items ++ (item start p.left.holes.0 ∷ item (start + 1) p.left.holes.1 ∷ []);
        left = record (p.left) { holes = (zero_card, zero_card) };
      }

  unfoldable pub take_flop : ℕ → Picked Card → Picked Card
  take_flop player p = record {
    items =
        p.items
        ++ (item (4 + 3 * player) p.left.flop.0
            ∷ item (4 + 3 * player + 1) p.left.flop.1
            ∷ item (4 + 3 * player + 2) p.left.flop.2
            ∷ []);
    left = record (p.left) { flop = (zero_card, zero_card, zero_card) };
  }

  unfoldable pub take_turn : ℕ → Picked Card → Picked Card
  take_turn player p = record {
    items = p.items ++ (item (10 + player) p.left.turn ∷ []);
    left = record (p.left) { turn = zero_card };
  }

  unfoldable pub take_river : ℕ → Picked Card → Picked Card
  take_river player p = record {
    items = p.items ++ (item (12 + player) p.left.river ∷ []);
    left = record (p.left) { river = zero_card };
  }

  -- The `switch` on the expected kind.
  unfoldable pub pick : ℕ → ℕ → Picked Card → Result (Picked Card)
  unfolding take_holes take_flop take_turn take_river
  pick expected n p =
      if expected == reveal_opponent_holes
      then ok (take_holes true n p)
      else (if expected == reveal_own_holes
          then ok (take_holes false n p)
          else (if expected == reveal_flop
              then ok (take_flop n p)
              else (if expected == reveal_turn
                  then ok (take_turn n p)
                  else (if expected == reveal_river
                      then ok (take_river n p)
                      else (if expected == reveal_remaining_from_flop
                          then ok (take_holes false n (take_river n (take_turn n (take_flop n p))))
                          else (if expected == reveal_remaining_from_turn
                              then ok (take_holes false n (take_river n (take_turn n p)))
                              else (if expected == reveal_remaining_from_river
                                  then ok (take_holes false n (take_river n p))
                                  else err bad_reveals)))))))

  -- The witness, less its kind, is Go's zero value.
  unfoldable pub nothing_left : RevealWitness Card → Bool
  nothing_left r =
      is_zero r.holes.0
      && is_zero r.holes.1
      && is_zero r.flop.0
      && is_zero r.flop.1
      && is_zero r.flop.2
      && is_zero r.turn
      && is_zero r.river

  -- The shares go to their slots; the proofs end up in reverse order.
  unfoldable pub publish :
      List (Item Card) → List Bytes → List Bytes → Result (List Bytes × List Bytes)
  publish [] reveals witness = ok (reveals, witness)
  publish (i ∷ rest) reveals witness = do
    share ← share_bytes i.card
    proof ← proof_bytes i.card
    publish rest (set reveals i.slot share) (proof ∷ witness)

  -- publishReveals: the updated slots, and the proofs for the program.
  unfoldable pub publish_reveals :
      List Bytes → RevealWitness Card → ℕ → ℕ → Result (List Bytes × List Bytes)
  unfolding pick nothing_left publish
  publish_reveals reveals r expected actor = do
    guard (r.kind == expected && valid_player actor) bad_reveals
    picked ← pick expected (actor - player1) (record { items = []; left = r })
    guard (nothing_left picked.left) bad_reveals
    publish picked.items reveals []

  -- BoardReveal: the successor before its deadline moves, and the proofs.
  unfoldable pub board_reveal_next :
      Params → State → RevealWitness Card → Result (State × List Bytes)
  board_reveal_next p s r = do
    guard (s.phase.kind == board_reveal) bad_phase
    guard (start_equal s) bad_history
    reject (leb p.max_wager s.wager1) over_cap
    (reveals, witness) ←
        publish_reveals s.reveals r (board_reveal_kind s.phase.street) s.phase.actor
    let other = other_player s.phase.actor
    let next =
        if s.phase.pass == first_pass
        then record {
          kind = board_reveal;
          actor = other;
          street = s.phase.street;
          pass = second_pass;
        }
        else record { kind = betting; actor = other; street = s.phase.street; pass = 0 }
    ok (record s { phase = next; reveals = reveals }, witness)

  -- ShowdownReveal
  unfoldable pub showdown_reveal_next :
      Params → State → RevealWitness Card → Result (State × List Bytes)
  showdown_reveal_next p s r = do
    guard (s.phase.kind == showdown_reveal) bad_phase
    guard (start_equal s) bad_history
    reject (s.phase.pass == first_pass && s.wager1 == p.max_wager) over_cap
    (reveals, witness) ← publish_reveals s.reveals r reveal_own_holes s.phase.actor
    let other = other_player s.phase.actor
    let next =
        if s.phase.pass == first_pass
        then record { kind = showdown_reveal; actor = other; street = 0; pass = second_pass }
        else bare showdown_evaluation
    ok (record s { phase = next; reveals = reveals }, witness)

  -- AllInReveal
  unfoldable pub all_in_reveal_next :
      Params → State → RevealWitness Card → Result (State × List Bytes)
  all_in_reveal_next p s r = do
    guard (s.phase.kind == all_in_reveal) bad_phase
    guard (start_equal s) bad_history
    guard (s.wager1 == p.max_wager) over_cap
    (reveals, witness) ←
        publish_reveals s.reveals r (remaining_reveal_kind (u8 (s.phase.street + 255)))
          s.phase.actor
    ok (record s { phase = bare showdown_evaluation; reveals = reveals }, witness)

  -- AllInCall
  unfoldable pub all_in_call_next :
      Params → State → RevealWitness Card → Result (State × List Bytes)
  all_in_call_next p s r = do
    guard (s.phase.kind == all_in) bad_phase
    let a = own_wager s s.phase.actor
    let o = opposing_wager s s.phase.actor
    reject (not (s.last_action == last_raise) || not (o == p.max_wager) || leb p.max_wager a)
        bad_history
    (reveals, witness) ←
        publish_reveals s.reveals r (remaining_reveal_kind s.phase.street) s.phase.actor
    let other = other_player s.phase.actor
    let next =
        if s.phase.street == river
        then record { kind = showdown_reveal; actor = other; street = 0; pass = second_pass }
        else record {
          kind = all_in_reveal;
          actor = other;
          street = u8 (s.phase.street + 1);
          pass = 0;
        }
    ok (
      record s {
        phase = next;
        last_action = last_start;
        wager1 = p.max_wager;
        wager2 = p.max_wager;
        reveals = reveals;
      },
      witness,
    )

  -- Player2RevealAndOpening of action_betting.go
  unfoldable pub opening_next :
      Params → State → ℤ → RevealWitness Card → Result (State × List Bytes)
  opening_next p s opening_bet r = do
    guard
        (phase_eq s.phase (bare await_player2_opening)
          && s.last_action == last_start
          && s.wager1 == 0
          && s.wager2 == 0)
        bad_phase
    reject
        (is_negative opening_bet
          || not (leb_ℤ opening_bet (pos p.max_wager))
          || (not (eqb_ℤ opening_bet (pos 0)) && not (leb_ℤ (pos p.min_bet) opening_bet)))
        bad_target
    (reveals, witness) ← publish_reveals s.reveals r reveal_opponent_holes player2
    ok (
      record s {
        wager2 = uint64 opening_bet;
        last_action = if eqb_ℤ opening_bet (pos 0) then last_check else last_raise;
        phase = record {
          kind = if eqb_ℤ opening_bet (pos p.max_wager) then all_in else betting;
          actor = player1;
          street = pre_flop;
          pass = 0;
        };
        reveals = reveals;
      },
      witness,
    )

-- The initial state of a contract, in InitialDeposit and Player1FundingAndReveal.
unfoldable pub initial_state : Bytes → Params → State
initial_state id p = record {
  contract_id = id;
  phase = bare await_player1_funding;
  last_action = last_start;
  wager1 = 0;
  wager2 = 0;
  deadline = p.initial_deadline;
  reveals = replicate 18 (replicate 64 0);
}

abbrev pub list_eq : List Bytes → List Bytes → Bool
list_eq [] [] = true
list_eq [] (y ∷ ys) = false
list_eq (x ∷ xs) [] = false
list_eq (x ∷ xs) (y ∷ ys) = bytes_eq x y && list_eq xs ys

-- Go's `==` on State
unfoldable pub state_eq : State → State → Bool
state_eq s t =
    bytes_eq s.contract_id t.contract_id
    && phase_eq s.phase t.phase
    && s.last_action == t.last_action
    && s.wager1 == t.wager1
    && s.wager2 == t.wager2
    && s.deadline == t.deadline
    && list_eq s.reveals t.reveals

module _ {Card : Type 0} (cards : CardLib Card) where
  -- Player1FundingAndReveal of action_build.go
  unfoldable pub player1_funding_next :
      Bytes → Params → State → RevealWitness Card → Result (State × List Bytes)
  player1_funding_next id p s r = do
    guard (state_eq s (initial_state id p)) bad_phase
    (reveals, witness) ← publish_reveals cards s.reveals r reveal_opponent_holes player1
    ok (record s { phase = bare await_player2_opening; reveals = reveals }, witness)
