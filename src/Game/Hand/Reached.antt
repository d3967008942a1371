-- ===== src/Game/Hand/Reached.antt =====
-- What holds of every game that the events of a hand lead to, from a finished setup on.
use arkade_poker.Prelude.{ℕ, ◌≡◌, ◌⊎◌, inl, inr, true, none, some, ok, refl, arith}
use arkade_poker.Covenant.Types.{Bytes, Params}
use arkade_poker.Game.Setup.{Table, Answers, may_abort}
use arkade_poker.Game.Stage.{stage_aborted}
use arkade_poker.Game.Hand.{Builders, HandEvent, HandGame, Parts, aborted, reduce_hand}
use arkade_poker.Game.Hand.Work.{IsWork, idle, reduce_hand-IsWork}
use arkade_poker.Game.Hand.Placed.{IsPlaced, waiting, stopped, reduce_hand-IsPlaced}

-- The game of a setup that awaits the deposit of the second player.
abbrev pub dealt : ℕ → ℕ → Params → Builders → HandGame
dealt stage role params contract = record {
  stage = stage;
  role = role;
  params = params;
  contract = some contract;
  hand = none;
  prepared = none;
  evaluated = none;
  outcome = none;
  completed = none;
}

-- The game that an abort leaves.
abbrev pub aborted_game : HandGame → Bytes → HandGame
aborted_game g reason = record g {
  stage = stage_aborted;
  hand = none;
  prepared = none;
  evaluated = none;
  outcome = some (aborted reason);
}

-- The games that a hand's events and the abort of a setup lead to.
pub data HandReach (parts : Parts) (answers : Answers) : HandGame → Type 0 where
  start :
      (stage role : ℕ) (params : Params) (contract : Builders)
      → (stage ≡ 11) ⊎ (stage ≡ 12)
      → HandReach parts answers (dealt stage role params contract)
  next :
      {g g' : HandGame} (e : HandEvent)
      → HandReach parts answers g
      → reduce_hand parts g e ≡ ok g'
      → HandReach parts answers g'
  abort :
      {g : HandGame} (table : Table) (reason : Bytes)
      → HandReach parts answers g
      → table.stage ≡ g.stage
      → may_abort answers table reason ≡ true
      → HandReach parts answers (aborted_game g reason)

module _ (parts : Parts) where
  module _ (answers : Answers) where
    -- In every game that the events of a hand lead to, there is prepared work exactly in the
    -- three stages of a transaction: it is a spend whose transaction is the one that the covenant
    -- builds of its action on the hand that the game still holds, encoded and admitted as an
    -- observed one would be, and once it is signed it is still that spend, with a bundle that
    -- compares with the prepared one.
    pub HandReach-IsWork : (g : HandGame) → HandReach parts answers g → IsWork parts g
    HandReach-IsWork g (start stage role params contract (inl at)) =
        idle (inl (omega (arith, at))) refl
    HandReach-IsWork g (start stage role params contract (inr at)) =
        idle (inl (omega (arith, at))) refl
    HandReach-IsWork g (next {g = before} e r h) =
        reduce_hand-IsWork parts before g e h (HandReach-IsWork before r)
    HandReach-IsWork g (abort table reason r same may) = idle (inl (omega arith)) refl

    -- In every game that the events of a hand lead to, the stage tells what the game holds: no
    -- hand before the deposit is seen, a hand and no outcome while it is played, a checked
    -- evaluation when the showdown is to be settled, at the end an outcome and the shown table,
    -- with no hand and no work left, and after an abort its reason, with no hand, work or
    -- evaluation left.
    pub HandReach-IsPlaced : (g : HandGame) → HandReach parts answers g → IsPlaced parts g
    HandReach-IsPlaced g (start stage role params contract (inl at)) =
        waiting (inl (omega (arith, at), omega (arith, at))) refl refl
    HandReach-IsPlaced g (start stage role params contract (inr at)) =
        waiting (inl (omega (arith, at), omega (arith, at))) refl refl
    HandReach-IsPlaced g (next {g = before} e r h) =
        reduce_hand-IsPlaced parts before g e h (HandReach-IsPlaced before r)
    HandReach-IsPlaced g (abort table reason r same may) = stopped reason refl refl refl refl refl
