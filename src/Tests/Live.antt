-- ===== src/Tests/Live.antt =====
-- The theorems on live hands at concrete inputs.
use arkade_poker.Prelude.{◌+◌, ◌*◌, ◌≤◌, ◌≡◌, refl, ok, arith, []}
use arkade_poker.Covenant.Types.{State, BettingAction}
use arkade_poker.Covenant.Betting.{bet_next, check_history, bet_target, bet_result}
use arkade_poker.Covenant.Live.{Action, Reach, advance}
use arkade_poker.Covenant.Live.Invariant.{IsLive, IsBettable}
use arkade_poker.Covenant.Live.Steps.{Reach-IsLive}
use arkade_poker.Covenant.Live.Progress.{Reach-progress}
use arkade_poker.Covenant.Live.Termination.{Reach-bounded}
use arkade_poker.Game.Admission.{expect}
use arkade_poker.Game.Admission.Agreement.{expect-bet_next, expect_built}
use arkade_poker.Samples.{
  terms, terms-IsAgreed, sample_id, sample_cards, able, funded, funded-Reach, raised, reraise,
}

Reach-IsLive_example : IsLive terms (advance funded)
Reach-IsLive_example = Reach-IsLive sample_cards sample_id terms terms-IsAgreed funded-Reach

Reach-progress_example :
    (t : State) × Action sample_cards sample_id terms (advance funded) t
    × Reach sample_cards sample_id terms 2 (advance t)
Reach-progress_example =
    Reach-progress sample_cards able sample_id terms terms-IsAgreed funded-Reach (omega arith)
      (omega arith)

Reach-bounded_example : 1 * 500 ≤ 100000 + 22 * 500
Reach-bounded_example = Reach-bounded sample_cards sample_id terms terms-IsAgreed funded-Reach

raised-IsBettable : IsBettable terms raised
raised-IsBettable = omega arith

abbrev reraised : State
reraised = record raised {
  phase = record { kind = 3; actor = 2; street = 2; pass = 0 };
  wager1 = 3500;
}

reraise_lem : bet_next terms raised reraise ≡ ok reraised
unfolding bet_next check_history bet_target bet_result
reraise_lem = refl

expect-bet_next_example :
    expect terms raised 3500
    ≡ ok (record { next = advance reraised; slots = []; contribution = 2500 })
expect-bet_next_example =
    expect-bet_next terms terms-IsAgreed raised refl raised-IsBettable (omega arith) reraise
      reraised reraise_lem

expected :
    expect terms raised 3500
    ≡ ok (record { next = advance reraised; slots = []; contribution = 2500 })
expected =
    expect-bet_next terms terms-IsAgreed raised refl raised-IsBettable (omega arith) reraise
      reraised reraise_lem

expect_built_example :
    (action : BettingAction) × (t : State) × (bet_next terms raised action ≡ ok t)
    × (advance reraised ≡ advance t)
expect_built_example =
    expect_built terms terms-IsAgreed raised refl raised-IsBettable (omega arith) 3500
      (record { next = advance reraised; slots = []; contribution = 2500 }) expected
