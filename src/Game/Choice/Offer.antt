-- ===== src/Game/Choice/Offer.antt =====
-- What the client offers of a bet, by the wagers: exactly the bets that the contract accepts, at the
-- difference in the actor's wager.
use arkade_poker.Prelude.{
  ℕ, ◌+◌, ◌-◌, ◌≤◌, ◌<◌, ◌≡◌, ◌⊎◌, ◌==◌, if◌then◌else◌, ok, arith, ℤ, pos, negsuc, int64, sub_int64,
  ltb, sym, ap, ◌∙◌, [], ◌∷◌, is_negative, inl, inr, false,
}
use arkade_poker.Covenant.Types.{Params, BettingAction, check, call, raise_to, last_raise}
use arkade_poker.Covenant.Betting.{bet_target}
use arkade_poker.Game.Stage.{stage_betting_local}
use arkade_poker.Game.Choice.{
  Choice, input_bet, input_concede, validate_input, wager_choice, bet_funding,
}

sub_exact : (n m : ℕ) → m ≤ n → n ≤ 2100000000000000 → sub_int64 (pos n) (int64 m) ≡ pos (n - m)
sub_exact n m lo hi = ground arith

-- What the wagers of a betting turn satisfy.
pub record IsTable (p : Params) (last m t : ℕ) : Type 0 where
  pub own : m < p.max_wager
  pub opposing : t < p.max_wager
  pub known : last ≤ 2
  pub raised : last ≡ last_raise → m + p.min_bet ≤ t
  pub level : last < last_raise → m ≡ t
  pub cap : p.max_wager ≤ 2100000000000000
  pub bet_pos : 0 < p.min_bet
  pub bet_le : p.min_bet ≤ p.max_wager

abbrev least : Params → ℕ → ℕ → ℕ → ℕ
least p last m t =
    let increment = if last == last_raise then t - m else p.min_bet in
    if ltb p.max_wager (t + increment) then p.max_wager else t + increment

abbrev pub offer : Params → ℕ → ℕ → ℕ → Choice
offer p last m t = record {
  allowed = input_bet ∷ input_concede ∷ [];
  can_check = (t - m) == 0;
  can_call = ltb 0 (t - m);
  min_raise_to = pos (least p last m t);
  max_raise_to = pos p.max_wager;
  call_amount = pos (t - m);
}

pub wager_choice-offer :
    (p : Params) (last m t : ℕ)
    → IsTable p last m t
    → wager_choice p stage_betting_local last m t ≡ ok (offer p last m t)
unfolding wager_choice
wager_choice-offer p last m t w = ground (arith, w)

abbrev action_of : ℕ → ℤ → BettingAction
action_of k x = record { kind = k; amount = x }

abbrev reached : ℕ → ℤ → ℕ → ℕ → ℕ
reached k (pos x) m t = if k == check then m else (if k == call then t else x)
reached k (negsuc x) m t = m

-- An amount of a Go int64.
abbrev pub Fits : ℤ → Type 0
Fits (pos n) = n < 9223372036854775808
Fits (negsuc n) = n < 9223372036854775808

module _ (p : Params) (last m t : ℕ) (w : IsTable p last m t) where
  check_funding :
      (n : ℕ) (x : ℤ)
      → bet_target p last (action_of check x) m t ≡ ok n
      → bet_funding (offer p last m t) (action_of check x) m ≡ ok (pos (n - m))
  unfolding bet_target bet_funding
  check_funding n x h = ground (arith, w)

  call_funding :
      (n : ℕ) (x : ℤ)
      → bet_target p last (action_of call x) m t ≡ ok n
      → bet_funding (offer p last m t) (action_of call x) m ≡ ok (pos (n - m))
  unfolding bet_target bet_funding
  call_funding n x h = ground (arith, w)

  raise_reached :
      (n x : ℕ)
      → x < 9223372036854775808
      → bet_target p last (action_of raise_to (pos x)) m t ≡ ok n
      → (n ≡ x) × (least p last m t ≤ x) × (x ≤ p.max_wager) × (m < x)
  unfolding bet_target
  raise_reached n x small h = ground (arith, w)

  raise_offered :
      (x : ℕ)
      → least p last m t ≤ x
      → x ≤ p.max_wager
      → m < x
      → bet_funding (offer p last m t) (action_of raise_to (pos x)) m
        ≡ ok (sub_int64 (pos x) (int64 m))
  unfolding bet_funding
  raise_offered x lo hi own = ground (arith, w.bet_pos, w.bet_le)

  raise_funding :
      (n x : ℕ)
      → x < 9223372036854775808
      → bet_target p last (action_of raise_to (pos x)) m t ≡ ok n
      → bet_funding (offer p last m t) (action_of raise_to (pos x)) m ≡ ok (pos (n - m))
  raise_funding n x small h =
      let (e, lo, hi, own) = raise_reached n x small h in
      raise_offered x lo hi own
      ∙ ap ok (
          sub_exact x m (omega (arith, own)) (omega (arith, hi, w.cap))
          ∙ ap (λ y. pos (y - m)) (sym e))

  check_reached :
      (x v : ℤ)
      → validate_input (record { kind = input_bet; bet = action_of check x }) ≡ ok tt
      → bet_funding (offer p last m t) (action_of check x) m ≡ ok v
      → bet_target p last (action_of check x) m t ≡ ok m
  unfolding bet_target bet_funding validate_input
  check_reached x v i h = ground (arith, w)

  call_reached :
      (x v : ℤ)
      → validate_input (record { kind = input_bet; bet = action_of call x }) ≡ ok tt
      → bet_funding (offer p last m t) (action_of call x) m ≡ ok v
      → bet_target p last (action_of call x) m t ≡ ok t
  unfolding bet_target bet_funding validate_input
  call_reached x v i h = ground (arith, w)

  raise_in_range :
      (x : ℕ) (v : ℤ)
      → bet_funding (offer p last m t) (action_of raise_to (pos x)) m ≡ ok v
      → (least p last m t ≤ x) × (x ≤ p.max_wager)
  unfolding bet_funding
  raise_in_range x v h = ground arith

  raise_target :
      (x : ℕ)
      → least p last m t ≤ x
      → x ≤ p.max_wager
      → bet_target p last (action_of raise_to (pos x)) m t ≡ ok x
  unfolding bet_target
  raise_target x lo hi = ground (arith, w)

  pub valid_of_target :
      (n k : ℕ) (x : ℤ)
      → bet_target p last (action_of k x) m t ≡ ok n
      → validate_input (record { kind = input_bet; bet = action_of k x }) ≡ ok tt
  unfolding bet_target validate_input
  valid_of_target n k x h = ground arith

  known_kind :
      (n k : ℕ) (x : ℤ)
      → bet_target p last (action_of k x) m t ≡ ok n
      → (k ≡ check) ⊎ ((k ≡ call) ⊎ ((k ≡ raise_to) × (is_negative x ≡ false)))
  unfolding bet_target
  known_kind n k (pos y) h = ground arith
  known_kind n k (negsuc y) h = ground arith

  -- The funding that is asked for a wager that Bet can reach is the difference to it.
  pub bet_target-bet_funding :
      (n k : ℕ) (x : ℤ)
      → Fits x
      → bet_target p last (action_of k x) m t ≡ ok n
      → bet_funding (offer p last m t) (action_of k x) m ≡ ok (pos (n - m))
  bet_target-bet_funding n k x small h = elim (known_kind n k x h) [
    | inl e ↦ rw e (check_funding n x (rw e at h))
    | inr (inl e) ↦ rw e (call_funding n x (rw e at h))
    | inr (inr (e, sign)) ↦ rw e (raised_by x small sign (rw e at h))
  ]
    where
      raised_by :
          (x : ℤ)
          → Fits x
          → is_negative x ≡ false
          → bet_target p last (action_of raise_to x) m t ≡ ok n
          → bet_funding (offer p last m t) (action_of raise_to x) m ≡ ok (pos (n - m))
      raised_by (pos y) small sign h = raise_funding n y small h
      raised_by (negsuc y) small sign h = cc

  offered_kind :
      (k : ℕ) (x v : ℤ)
      → bet_funding (offer p last m t) (action_of k x) m ≡ ok v
      → (k ≡ check) ⊎ ((k ≡ call) ⊎ ((k ≡ raise_to) × (is_negative x ≡ false)))
  unfolding bet_funding
  offered_kind k (pos y) v h = ground arith
  offered_kind k (negsuc y) v h = ground arith

  pub bet_funding-bet_target :
      (k : ℕ) (x v : ℤ)
      → validate_input (record { kind = input_bet; bet = action_of k x }) ≡ ok tt
      → bet_funding (offer p last m t) (action_of k x) m ≡ ok v
      → (n : ℕ) × (bet_target p last (action_of k x) m t ≡ ok n)
  bet_funding-bet_target k x v i h = elim (offered_kind k x v h) [
    | inl e ↦ (m, rw e (check_reached x v (rw e at i) (rw e at h)))
    | inr (inl e) ↦ (t, rw e (call_reached x v (rw e at i) (rw e at h)))
    | inr (inr (e, sign)) ↦ rw e (raised_to x sign (rw e at h))
  ]
    where
      raised_to :
          (x : ℤ)
          → is_negative x ≡ false
          → bet_funding (offer p last m t) (action_of raise_to x) m ≡ ok v
          → (n : ℕ) × (bet_target p last (action_of raise_to x) m t ≡ ok n)
      raised_to (pos y) sign h = let (lo, hi) = raise_in_range y v h in (y, raise_target y lo hi)
      raised_to (negsuc y) sign h = cc
