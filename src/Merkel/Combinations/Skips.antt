-- ===== src/Merkel/Combinations/Skips.antt =====
-- What the inner loops of combinationIndex and combinationAt count.
use arkade_poker.Prelude.{ℕ, zero, suc, ◌+◌, ◌-◌, ◌≡◌, ◌<◌, ◌≤◌, some, arith, u64_mod, ◌∙◌, ◌%◌}
use arkade_poker.Merkel.Combinations.{choose, skip, find, above}
use arkade_poker.Merkel.Combinations.Pascal.{choose_step}

-- Pascal's rule for the hands whose least card is v.
pub choose_split :
    (v k : ℕ)
    → v < 52
    → k < 7
    → choose (52 - v) (k + 1) ≡ choose (above v) k + choose (51 - v) (k + 1)
choose_split v k h hk =
    let e : (51 - v) + 1 ≡ 52 - v = omega arith in
    let d : above v ≡ 51 - v = omega arith in rw (← e, d) (choose_step (51 - v) k (omega arith) hk)

pub choose_mono :
    (rounds v k : ℕ)
    → v + rounds ≤ 52
    → k < 7
    → choose (52 - (v + rounds)) (k + 1) ≤ choose (52 - v) (k + 1)
choose_mono zero v k h hk = ground arith
choose_mono (suc rounds) v k h hk =
    let e : 52 - ((v + 1) + rounds) ≡ 52 - (v + suc rounds) = omega arith in
    let d : 52 - (v + 1) ≡ 51 - v = omega arith in
    omega (
      arith,
      rw (e, d) at (choose_mono rounds (v + 1) k (omega arith) hk),
      choose_split v k (omega arith) hk,
    )

-- Skipping from one card to another adds the hands in between.
pub skip_lem :
    (rounds v k index : ℕ)
    → v + rounds ≤ 52
    → k < 7
    → index + choose (52 - v) (k + 1) < u64_mod
    → skip rounds v k index + choose (52 - (v + rounds)) (k + 1) ≡ index + choose (52 - v) (k + 1)
unfolding skip
skip_lem zero v k index h hk small = ground arith
skip_lem (suc rounds) v k index h hk small =
    let e : 52 - ((v + 1) + rounds) ≡ 52 - (v + suc rounds) = omega arith in
    let d : 52 - (v + 1) ≡ 51 - v = omega arith in
    let split = choose_split v k (omega arith) hk in
    let fits : (index + choose (above v) k) % u64_mod ≡ index + choose (above v) k = omega arith in
    let ih =
      rw (e, d) at
        (skip_lem rounds (v + 1) k (index + choose (above v) k) (omega arith) hk
          (rw d (omega arith))) in
    rw fits (ih ∙ omega arith)

-- Counting down from the hands that start at v, the search stops at the card c.
pub find_lem :
    (fuel rounds v k index rest : ℕ)
    → rounds < fuel
    → v + rounds < 52
    → k < 7
    → rest < choose (above (v + rounds)) k
    → index + choose (52 - (v + rounds)) (k + 1) ≡ rest + choose (52 - v) (k + 1)
    → find fuel v k index ≡ some (v + rounds, rest)
unfolding find
find_lem zero rounds v k index rest hf h hk lt e = absurd (omega arith)
find_lem (suc fuel) zero v k index rest hf h hk lt e = ground arith
find_lem (suc fuel) (suc rounds) v k index rest hf h hk lt e =
    let e1 : 52 - ((v + 1) + rounds) ≡ 52 - (v + suc rounds) = omega arith in
    let e2 : 52 - (v + 1) ≡ 51 - v = omega arith in
    let e3 : (v + 1) + rounds ≡ v + suc rounds = omega arith in
    let e4 : (v + 1) % 256 ≡ v + 1 = omega arith in
    let split = choose_split v k (omega arith) hk in
    let mono = rw (e1, e2) at (choose_mono rounds (v + 1) k (omega arith) hk) in
    let found = rw e3 at (
      find_lem fuel rounds (v + 1) k (index - choose (above v) k) rest (omega arith) (omega arith)
        hk (rw e3 lt) (rw (e3, e2) (omega arith))) in
    rw e4 (ground (arith, found))
