-- ===== src/Covenant/Phase.antt =====
-- internal/covenant/packets.go: the phase byte, and the player who has to act.
pub mod RoundTrip
use arkade_poker.Prelude.{
  ℕ, ◌+◌, ◌-◌, ◌*◌, ◌/◌, ◌%◌, Bool, ◌&&◌, ◌||◌, ◌==◌, leb, if◌then◌else◌, u8, Result, ok, err,
  bad_phase, ◌>>=◌,
}
use arkade_poker.Covenant.Types.{
  Phase, player1, player2, pre_flop, flop, river, await_player1_funding, await_player2_opening,
  betting, all_in, board_reveal, showdown_reveal, all_in_reveal, showdown_evaluation, first_pass,
  second_pass, valid_player,
}

-- A phase with a kind and nothing else.
abbrev pub bare : ℕ → Phase
bare k = record { kind = k; actor = 0; street = 0; pass = 0 }

abbrev is_bare : Phase → Bool
is_bare p = p.actor == 0 && p.street == 0 && p.pass == 0

abbrev between : ℕ → ℕ → ℕ → Bool
between lo hi x = leb lo x && leb x hi

abbrev valid_pass : ℕ → Bool
valid_pass x = x == first_pass || x == second_pass

-- The cases of the `switch`. Each summand is below 24, so the `uint8` arithmetic does not wrap.
encode_bare : ℕ → Phase → Result ℕ
encode_bare code p = if is_bare p then ok code else err bad_phase

encode_wager_turn : ℕ → Phase → Result ℕ
encode_wager_turn base p =
    if valid_player p.actor && between pre_flop river p.street && p.pass == 0
    then ok (base + 2 * (p.street - pre_flop) + (p.actor - player1))
    else err bad_phase

encode_board_reveal : Phase → Result ℕ
encode_board_reveal p =
    if valid_player p.actor && between flop river p.street && valid_pass p.pass
    then ok (0x0a + 4 * (p.street - flop) + 2 * (p.pass - first_pass) + (p.actor - player1))
    else err bad_phase

encode_showdown_reveal : Phase → Result ℕ
encode_showdown_reveal p =
    if valid_player p.actor && p.street == 0 && valid_pass p.pass
    then ok (0x16 + 2 * (p.pass - first_pass) + (p.actor - player1))
    else err bad_phase

encode_all_in_reveal : Phase → Result ℕ
encode_all_in_reveal p =
    if valid_player p.actor && between flop river p.street && p.pass == 0
    then ok (0x24 + 2 * (p.street - flop) + (p.actor - player1))
    else err bad_phase

unfoldable pub encode_phase : Phase → Result ℕ
unfolding encode_bare encode_wager_turn encode_board_reveal encode_showdown_reveal
    encode_all_in_reveal
encode_phase p =
    if p.kind == await_player1_funding
    then encode_bare 0x00 p
    else (if p.kind == await_player2_opening
        then encode_bare 0x01 p
        else (if p.kind == showdown_evaluation
            then encode_bare 0x1a p
            else (if p.kind == betting
                then encode_wager_turn 0x02 p
                else (if p.kind == all_in
                    then encode_wager_turn 0x1c p
                    else (if p.kind == board_reveal
                        then encode_board_reveal p
                        else (if p.kind == showdown_reveal
                            then encode_showdown_reveal p
                            else (if p.kind == all_in_reveal
                                then encode_all_in_reveal p
                                else err bad_phase)))))))

abbrev parity_player : ℕ → ℕ
parity_player b = player1 + b % 2

unfoldable pub decode_phase : ℕ → Result Phase
decode_phase b =
    if b == 0
    then ok (bare await_player1_funding)
    else (if b == 1
        then ok (bare await_player2_opening)
        else (if between 0x02 0x09 b
            then ok (record {
              kind = betting;
              actor = parity_player b;
              street = pre_flop + (b - 2) / 2;
              pass = 0;
            })
            else (if between 0x0a 0x15 b
                then ok (record {
                  kind = board_reveal;
                  actor = parity_player b;
                  street = flop + (b - 0x0a) / 4;
                  pass = first_pass + ((b - 0x0a) % 4) / 2;
                })
                else (if between 0x16 0x19 b
                    then ok (record {
                      kind = showdown_reveal;
                      actor = parity_player b;
                      street = 0;
                      pass = first_pass + (b - 0x16) / 2;
                    })
                    else (if b == 0x1a
                        then ok (bare showdown_evaluation)
                        else (if between 0x1c 0x23 b
                            then ok (record {
                              kind = all_in;
                              actor = parity_player b;
                              street = pre_flop + (b - 0x1c) / 2;
                              pass = 0;
                            })
                            else (if between 0x24 0x29 b
                                then ok (record {
                                  kind = all_in_reveal;
                                  actor = parity_player b;
                                  street = flop + (b - 0x24) / 2;
                                  pass = 0;
                                })
                                else err bad_phase)))))))

-- 0 at the evaluation, where either player may settle.
unfoldable pub required_actor : Phase → Result ℕ
unfolding encode_phase
required_actor p = do
  _ ← encode_phase p
  ok (
      if p.kind == await_player1_funding
      then player1
      else (if p.kind == await_player2_opening
          then player2
          else (if p.kind == showdown_evaluation then 0 else p.actor)))
