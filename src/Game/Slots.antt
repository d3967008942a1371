-- ===== src/Game/Slots.antt =====
-- internal/game/cards.go: which reveal slots a phase asks for, and who publishes each slot.
pub mod Published
use arkade_poker.Prelude.{
  ℕ, zero, suc, ◌+◌, ◌-◌, ◌*◌, List, [], ◌∷◌, ◌++◌, ◌==◌, if◌then◌else◌, u8, Result, ok, err,
}
use arkade_poker.Covenant.Types.{
  Phase, flop, turn, river, await_player1_funding, await_player2_opening, all_in, board_reveal,
  showdown_reveal, all_in_reveal, pre_flop,
}
use arkade_poker.Covenant.Phase.{required_actor}
use arkade_poker.Covenant.Reveals.{
  reveal_opponent_holes, reveal_flop, reveal_own_holes, reveal_remaining_from_flop,
}

-- slotPublishers, by the number of the player
unfoldable pub slot_publishers : List ℕ
slot_publishers = 2 ∷ 2 ∷ 1 ∷ 1 ∷ 1 ∷ 1 ∷ 1 ∷ 2 ∷ 2 ∷ 2 ∷ 1 ∷ 2 ∷ 1 ∷ 2 ∷ 1 ∷ 1 ∷ 2 ∷ 2 ∷ []

-- slotCards: the position in the deal of the card of each slot
unfoldable pub slot_cards : List ℕ
slot_cards = 0 ∷ 1 ∷ 2 ∷ 3 ∷ 4 ∷ 5 ∷ 6 ∷ 4 ∷ 5 ∷ 6 ∷ 7 ∷ 7 ∷ 8 ∷ 8 ∷ 0 ∷ 1 ∷ 2 ∷ 3 ∷ []

-- A player's number is 1 or 2 wherever slots are asked for, so the subtraction is exact.
unfoldable pub own_slots : ℕ → List ℕ
own_slots p = (14 + 2 * (p - 1)) ∷ (15 + 2 * (p - 1)) ∷ []

unfoldable pub board_slots : ℕ → ℕ → List ℕ
board_slots p street =
    let n = p - 1 in
    if street == flop
    then (4 + 3 * n) ∷ (5 + 3 * n) ∷ (6 + 3 * n) ∷ []
    else (if street == turn then (10 + n) ∷ [] else (if street == river then (12 + n) ∷ [] else []))

-- The loop `for s := street; s <= River; s++`, by the rounds left.
board_slots_from : ℕ → ℕ → ℕ → List ℕ
board_slots_from zero p street = []
board_slots_from (suc n) p street = board_slots p street ++ board_slots_from n p (street + 1)

unfoldable pub remaining_slots : ℕ → ℕ → List ℕ
unfolding board_slots_from board_slots own_slots
remaining_slots p street = board_slots_from (5 - street) p street ++ own_slots p

-- RequiredActor with its error dropped: 0.
abbrev pub actor_or_zero : Result ℕ → ℕ
actor_or_zero (ok a) = a
actor_or_zero (err _) = 0

unfoldable pub reveal_slots : Phase → List ℕ
reveal_slots x =
    let actor = actor_or_zero (required_actor x) in
    if x.kind == await_player1_funding
    then 2 ∷ 3 ∷ []
    else (if x.kind == await_player2_opening
        then 0 ∷ 1 ∷ []
        else (if x.kind == board_reveal
            then board_slots actor x.street
            else (if x.kind == showdown_reveal
                then own_slots actor
                else (if x.kind == all_in
                    then (if x.street == river
                        then own_slots actor
                        else remaining_slots actor (u8 (x.street + 1)))
                    else (if x.kind == all_in_reveal
                        then remaining_slots actor x.street
                        else [])))))

unfoldable pub reveal_kind : Phase → ℕ
reveal_kind x =
    if x.kind == await_player1_funding
    then reveal_opponent_holes
    else (if x.kind == await_player2_opening
        then reveal_opponent_holes
        else (if x.kind == board_reveal
            then u8 (reveal_flop + (x.street + 256 - flop))
            else (if x.kind == showdown_reveal
                then reveal_own_holes
                else (if x.kind == all_in
                    then (if x.street == river
                        then reveal_own_holes
                        else u8 (reveal_remaining_from_flop + (x.street + 256 - pre_flop)))
                    else (if x.kind == all_in_reveal
                        then u8 (reveal_remaining_from_flop + (x.street + 256 - flop))
                        else 0)))))
