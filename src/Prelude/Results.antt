-- ===== src/Prelude/Results.antt =====
-- A fallible Go call: its value, or the error that it returns.
use Prim.Native.Nat.{ℕ}
use mathlib.Core.Path.{◌≡◌, refl}
use mathlib.Core.Logic.{◌⊎◌, inl, inr}
use mathlib.Core.Bool.{Bool, true, false}
use mathlib.Core.Option.{Option, none, some}
use arkade_poker.Prelude.Tests.{if◌then◌else◌}

-- The errors of the modelled packages, one for each message that a caller can see.
pub data Error : Type 0 where
  invalid_contract bad_phase bad_action bad_packet missing_packet bad_version : Error
  contract_mismatch bad_value bad_amount over_cap bad_history bad_target bad_reveals : Error
  deadline_overflow bad_funding no_path bad_extension no_output not_available : Error
  bad_cards bad_rank protocol bad_input bad_order bad_deadline : Error
  bad_policy bad_index record_limit input_limit no_change_fits : Error
  wallet_identity uncertain bad_encoding bad_invitation : Error
  insufficient_funds : ℕ → ℕ → Error

pub data Result {ℓ} (Value : Type ℓ) : Type ℓ where
  ok : Value → Result Value
  err : Error → Result Value

-- `if condition { return failure }`
abbrev pub reject : Bool → Error → Result (Unit {0})
reject false _ = ok tt
reject true failure = err failure

-- The call of a function whose only failure is documented elsewhere.
abbrev pub or_fail {ℓ} : {Value : Type ℓ} → Option Value → Error → Result Value
or_fail (some v) failure = ok v
or_fail none failure = err failure

-- `if !condition { return failure }`
abbrev pub guard : Bool → Error → Result (Unit {0})
guard false failure = err failure
guard true _ = ok tt

-- `abbrev`, so that a bind computes wherever it stands.
infixl 5 ◌>>=◌ ◌>>◌
abbrev pub ◌>>=◌ {ℓ κ} : {X : Type ℓ} {Y : Type κ} → Result X → (X → Result Y) → Result Y
err failure >>= next = err failure
ok v >>= next = next v

abbrev pub ◌>>◌ {ℓ} : {Y : Type ℓ} → Result (Unit {0}) → Result Y → Result Y
test >> rest = test >>= (λ _. rest)

abbrev pub is_ok {ℓ} : {Value : Type ℓ} → Result Value → Bool
is_ok (err _) = false
is_ok (ok _) = true

module _ {ℓ} {X : Type ℓ} where
  pub Result-cases :
      (r : Result X) → ((v : X) × (r ≡ ok v)) ⊎ ((failure : Error) × (r ≡ err failure))
  Result-cases (err failure) = inr (failure, refl)
  Result-cases (ok v) = inl (v, refl)

  pub is_ok-value : (r : Result X) → is_ok r ≡ true → (v : X) × (r ≡ ok v)
  is_ok-value (err failure) h = cc
  is_ok-value (ok v) h = (v, refl)

  -- Where a bind succeeds its first part does, and so does the rest on its value.
  pub >>=-eq-ok {κ} :
      {Y : Type κ} (first : Result X) (next : X → Result Y) {y : Y}
      → (first >>= next) ≡ ok y
      → (v : X) × (first ≡ ok v) × (next v ≡ ok y)
  >>=-eq-ok (err failure) next h = cc
  >>=-eq-ok (ok v) next h = (v, refl, h)

  pub ok-inj : {a b : X} → ◌≡◌ {A = Result X} (ok a) (ok b) → a ≡ b
  ok-inj h = cc

  -- What is left of a chain behind a check that has passed.
  pub past :
      (check : Result (Unit {0})) (rest : Result X) {v : X} → (check >> rest) ≡ ok v → rest ≡ ok v
  past (err failure) rest h = cc
  past (ok _) rest h = h

  pub past_guard :
      (test : Bool) (failure : Error) (rest : Result X) {v : X}
      → (guard test failure >> rest) ≡ ok v
      → (test ≡ true) × (rest ≡ ok v)
  past_guard false failure rest h = cc
  past_guard true failure rest h = (refl, h)

  pub past_reject :
      (test : Bool) (failure : Error) (rest : Result X) {v : X}
      → (reject test failure >> rest) ≡ ok v
      → (test ≡ false) × (rest ≡ ok v)
  past_reject true failure rest h = cc
  past_reject false failure rest h = (refl, h)

  pub past_or_fail {κ} :
      {Y : Type κ} (o : Option X) (failure : Error) (next : X → Result Y) {y : Y}
      → (or_fail o failure >>= next) ≡ ok y
      → (v : X) × (o ≡ some v) × (next v ≡ ok y)
  past_or_fail none failure next h = cc
  past_or_fail (some v) failure next h = (v, refl, h)

  -- The branch that a conditional has taken.
  pub if-cases :
      (b : Bool) {x y : Result X} {v : X}
      → (if b then x else y) ≡ ok v
      → ((b ≡ true) × (x ≡ ok v)) ⊎ ((b ≡ false) × (y ≡ ok v))
  if-cases true h = inl (refl, h)
  if-cases false h = inr (refl, h)

  pub some-inj : {a b : X} → ◌≡◌ {A = Option X} (some a) (some b) → a ≡ b
  some-inj h = cc
