-- ===== src/Merkel/Combinations/Pascal.antt =====
-- choose is Pascal's triangle on the range that the code uses.
use arkade_poker.Prelude.{
  ℕ, suc, ◌+◌, ◌≡◌, ◌<◌, ◌≤◌, ◌==◌, ◌&&◌, true, refl, arith, all_below, all_below_sound, ltb,
}
use arkade_poker.Merkel.Combinations.{choose}

pascal_table :
    all_below 52 (λ n.
      choose n 0 == 1
      && all_below 7 (λ k. choose (n + 1) (k + 1) == (choose n k + choose n (k + 1))))
    ≡ true
unfolding all_below choose
pascal_table = refl

pascal_row :
    (n : ℕ)
    → n < 52
    → (choose n 0 == 1
        && all_below 7 (λ k. choose (n + 1) (k + 1) == (choose n k + choose n (k + 1))))
      ≡ true
pascal_row n h = all_below_sound 52 _ n pascal_table h

pub choose_zero : (n : ℕ) → n < 52 → choose n 0 ≡ 1
choose_zero n h = ground (arith, pascal_row n h)

pub choose_step :
    (n k : ℕ) → n < 52 → k < 7 → choose (n + 1) (k + 1) ≡ choose n k + choose n (k + 1)
choose_step n k h hk = ground (
  arith,
  all_below_sound 7 (λ k. choose (n + 1) (k + 1) == (choose n k + choose n (k + 1))) k,
  pascal_row n h,
)

bound_table : all_below 53 (λ n. all_below 8 (λ k. ltb (choose n k) 133784561)) ≡ true
unfolding all_below choose
bound_table = refl

pub choose_bound : (n k : ℕ) → n < 53 → k < 8 → choose n k ≤ 133784560
choose_bound n k h hk =
    ground (arith, all_below_sound 8 _ k (all_below_sound 53 _ n bound_table h) hk)

pub choose_all : choose 52 7 ≡ 133784560
unfolding choose
choose_all = refl

pub zero-choose : (k : ℕ) → choose 0 (suc k) ≡ 0
unfolding choose
zero-choose k = ground arith
