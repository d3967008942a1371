-- ===== src/Game/Admission.antt =====
-- internal/game/admission.go, admitSpend on a live spend: the successor that the client expects of
-- an accepted predecessor, the slots it must publish and the money it must bring.
pub mod Agreement
use arkade_poker.Prelude.{
  ℕ, ◌+◌, ◌-◌, Bool, not, ◌&&◌, ◌||◌, List, [], ◌∷◌, ltb, leb, ◌==◌, if◌then◌else◌, u8, max_uint64,
  Result, ok, err, ◌>>=◌, ◌>>◌, guard, reject, protocol,
}
use arkade_poker.Covenant.Types.{
  Phase, State, Params, player1, river, pre_flop, first_pass, second_pass, last_start, last_check,
  last_raise, await_player1_funding, await_player2_opening, betting, all_in, board_reveal,
  showdown_reveal, all_in_reveal, showdown_evaluation, other_player,
}
use arkade_poker.Covenant.Phase.{bare, required_actor}
use arkade_poker.Covenant.Live.{deadline_interval}
use arkade_poker.Game.Slots.{board_slots, own_slots, remaining_slots, reveal_slots}

-- wager
abbrev pub wager : State → ℕ → ℕ
wager s p = if p == player1 then s.wager1 else s.wager2

-- setWager
abbrev pub set_wager : State → ℕ → ℕ → State
set_wager s p n = if p == player1 then record s { wager1 = n } else record s { wager2 = n }

pub record Expectation : Type 0 where
  pub next : State
  pub slots : List ℕ
  pub contribution : ℕ

-- The cases of the `switch`. `s` is the predecessor with its deadline moved on.
unfoldable pub expect_funding : Params → State → Result Expectation
expect_funding p s = ok (record {
  next = record s { phase = bare await_player2_opening };
  slots = 2 ∷ 3 ∷ [];
  contribution = p.stake + p.bond;
})

unfoldable pub expect_opening : Params → State → ℕ → ℕ → Result Expectation
expect_opening p s opponent target = do
  reject (ltb p.max_wager target || (not (target == 0) && ltb target p.min_bet)) protocol
  ok (record {
    next = record s {
      wager2 = target;
      last_action = if target == 0 then last_check else last_raise;
      phase = record {
        kind = if target == p.max_wager then all_in else betting;
        actor = opponent;
        street = pre_flop;
        pass = 0;
      };
    };
    slots = 0 ∷ 1 ∷ [];
    contribution = target;
  })

-- A wager that matches the opposing one.
unfoldable pub matched : State → ℕ → State
matched s opponent =
    let street = s.phase.street in
    if s.last_action == last_start
    then record s {
      phase = record { kind = betting; actor = opponent; street = street; pass = 0 };
      last_action = last_check;
    }
    else record s {
      phase =
          if street == river
          then record { kind = showdown_reveal; actor = opponent; street = 0; pass = first_pass }
          else record {
            kind = board_reveal;
            actor = opponent;
            street = u8 (street + 1);
            pass = first_pass;
          };
      last_action = last_start;
    }

-- A wager that raises, where the increment is large enough.
unfoldable pub raised : Params → State → ℕ → ℕ → ℕ → ℕ → Result State
raised p s opponent mine theirs target = do
  reject (s.last_action == last_raise && ltb theirs mine) protocol
  let minimum = if s.last_action == last_raise then theirs - mine else p.min_bet
  reject
      (leb target theirs
        || (leb target mine || (not (target == p.max_wager) && ltb (target - theirs) minimum)))
      protocol
  ok (record s {
    phase = record {
      kind = if target == p.max_wager then all_in else betting;
      actor = opponent;
      street = s.phase.street;
      pass = 0;
    };
    last_action = last_raise;
  })

unfoldable pub expect_betting : Params → State → ℕ → ℕ → ℕ → ℕ → ℕ → Result Expectation
expect_betting p s actor opponent mine theirs target = do
  reject (ltb target mine || ltb p.max_wager target) protocol
  next ←
      if target == theirs then ok (matched s opponent) else raised p s opponent mine theirs target
  ok (record { next = set_wager next actor target; slots = []; contribution = target - mine })

unfoldable pub expect_board : State → ℕ → ℕ → Result Expectation
expect_board s actor opponent = ok (record {
  next = record s {
    phase =
        if s.phase.pass == first_pass
        then record {
          kind = board_reveal;
          actor = opponent;
          street = s.phase.street;
          pass = second_pass;
        }
        else record { kind = betting; actor = opponent; street = s.phase.street; pass = 0 };
  };
  slots = board_slots actor s.phase.street;
  contribution = 0;
})

unfoldable pub expect_showdown : State → ℕ → ℕ → Result Expectation
expect_showdown s actor opponent = ok (record {
  next = record s {
    phase =
        if s.phase.pass == first_pass
        then record { kind = showdown_reveal; actor = opponent; street = 0; pass = second_pass }
        else bare showdown_evaluation;
  };
  slots = own_slots actor;
  contribution = 0;
})

unfoldable pub expect_all_in : Params → State → ℕ → ℕ → Result Expectation
expect_all_in p s opponent mine = do
  reject (ltb p.max_wager mine) protocol
  ok (record {
    next = record s {
      wager1 = p.max_wager;
      wager2 = p.max_wager;
      last_action = last_start;
      phase =
          if s.phase.street == river
          then record { kind = showdown_reveal; actor = opponent; street = 0; pass = second_pass }
          else record {
            kind = all_in_reveal;
            actor = opponent;
            street = u8 (s.phase.street + 1);
            pass = 0;
          };
    };
    slots = reveal_slots s.phase;
    contribution = p.max_wager - mine;
  })

unfoldable pub expect_run_out : State → ℕ → Result Expectation
expect_run_out s actor = ok (record {
  next = record s { phase = bare showdown_evaluation };
  slots = remaining_slots actor s.phase.street;
  contribution = 0;
})

unfoldable pub expect_phase : Params → State → ℕ → ℕ → ℕ → ℕ → ℕ → Result Expectation
expect_phase p s actor opponent mine theirs target =
    let kind = s.phase.kind in
    if kind == await_player1_funding
    then expect_funding p s
    else (if kind == await_player2_opening
        then expect_opening p s opponent target
        else (if kind == betting
            then expect_betting p s actor opponent mine theirs target
            else (if kind == board_reveal
                then expect_board s actor opponent
                else (if kind == showdown_reveal
                    then expect_showdown s actor opponent
                    else (if kind == all_in
                        then expect_all_in p s opponent mine
                        else (if kind == all_in_reveal
                            then expect_run_out s actor
                            else err protocol))))))

-- The successor that admitSpend expects when the actor's wager moves to `target`, its new shares
-- not yet filled in.
unfoldable pub expect : Params → State → ℕ → Result Expectation
expect p before target = do
  actor ← required_actor before.phase
  reject (actor == 0) protocol
  reject (ltb (max_uint64 - deadline_interval) before.deadline) protocol
  let s = record before { deadline = before.deadline + deadline_interval }
  let opponent = other_player actor
  expect_phase p s actor opponent (wager before actor) (wager before opponent) target
