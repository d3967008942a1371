-- ===== src/Game/Codec/Varints.antt =====
-- The numbers of a shared invitation (internal/game/invitation.go): AppendUvarint and Uvarint of Go's
-- encoding/binary, and decoder.uvarint.
use arkade_poker.Prelude.{
  ℕ, zero, suc, ◌≡◌, ◌<◌, ◌≤◌, ◌⊎◌, inl, inr, ◌+◌, ◌-◌, ◌*◌, ◌/◌, ◌%◌, ◌^◌, true, false, ◌&&◌, [],
  ◌∷◌, ◌++◌, Option, none, some, ltb, ◌==◌, if◌then◌else◌, length, Result, ok, ◌>>=◌, ◌>>◌, reject,
  or_fail, bad_encoding, refl, arith, Bool-cases, subst, sym,
}
use arkade_poker.Covenant.Types.{Bytes}

-- AppendUvarint, by the bytes that are left of the ten that a uint64 can take
unfoldable pub put_uvarint : ℕ → ℕ → Bytes
put_uvarint zero v = []
put_uvarint (suc n) v =
    let more = put_uvarint n (v / 128) in if ltb v 128 then v ∷ [] else (v % 128 + 128) ∷ more

-- What Uvarint reads: the value, the number of bytes, the last of them and the rest.
pub record Varint : Type 0 where
  pub value : ℕ
  pub size : ℕ
  pub last : ℕ
  pub rest : Bytes

abbrev under : ℕ → Option Varint → Option Varint
under b none = none
under b (some v) = some (record v { value = b - 128 + 128 * v.value; size = v.size + 1 })

-- Uvarint, by the bytes that are left of the ten
unfoldable pub uvarint : ℕ → Bytes → Option Varint
uvarint zero bytes = none
uvarint (suc n) [] = none
uvarint (suc n) (b ∷ rest) =
    let more = under b (uvarint n rest) in
    if ltb b 128
    then (if n == 0 && ltb 1 b
        then none
        else some (record { value = b; size = 1; last = b; rest = rest }))
    else more

-- decoder.uvarint
unfoldable pub read_uvarint : Bytes → Result (ℕ × Bytes)
read_uvarint bytes = do
  v ← or_fail (uvarint 10 bytes) bad_encoding
  reject (ltb 1 v.size && v.last == 0) bad_encoding
  ok (v.value, v.rest)

pub length-put_uvarint : (n v : ℕ) → length (put_uvarint n v) ≤ n
unfolding put_uvarint
length-put_uvarint zero v = omega arith
length-put_uvarint (suc n) v = ground (arith, length-put_uvarint n (v / 128))

last_byte-fits : (n v : ℕ) → v < 2 * 128 ^ n → (n == 0 && ltb 1 v) ≡ false
last_byte-fits zero v h = ground (arith, h)
last_byte-fits (suc n) v h = ground arith

-- The number that was written is read, and the last of several bytes is not 0.
abbrev IsRead : ℕ → Bytes → Option Varint → Type 0
IsRead v rest read =
    (r : Varint) × (read ≡ some r)
    × (r.value ≡ v)
    × (r.rest ≡ rest)
    × (((v < 128) × (r.size ≡ 1)) ⊎ (1 ≤ r.last))
    × ((v ≡ 0) ⊎ (1 ≤ r.last))

put_small : (n v : ℕ) → ltb v 128 ≡ true → put_uvarint (suc n) v ≡ v ∷ []
unfolding put_uvarint
put_small n v small = rw small

put_large :
    (n v : ℕ)
    → ltb v 128 ≡ false
    → put_uvarint (suc n) v ≡ (v % 128 + 128) ∷ put_uvarint n (v / 128)
unfolding put_uvarint
put_large n v large = rw large

uvarint-small :
    (n v : ℕ) (rest : Bytes)
    → v < 2 * 128 ^ n
    → ltb v 128 ≡ true
    → IsRead v rest (uvarint (suc n) (v ∷ rest))
unfolding uvarint
uvarint-small n v rest h small = (
  record { value = v; size = 1; last = v; rest = rest },
  rw (small, last_byte-fits n v h),
  refl,
  refl,
  inl (ground (arith, small), refl),
  ground arith,
)

uvarint-large :
    (n v : ℕ) (rest bytes : Bytes)
    → ltb v 128 ≡ false
    → IsRead (v / 128) rest (uvarint n bytes)
    → IsRead v rest (uvarint (suc n) ((v % 128 + 128) ∷ bytes))
unfolding uvarint
uvarint-large n v rest bytes large (r, e, value, left, _, last) =
    let big : ltb (v % 128 + 128) 128 ≡ false = ground arith in
    let nonzero : 1 ≤ r.last = ground (arith, last, large) in
    (
      record r { value = v % 128 + 128 - 128 + 128 * r.value; size = r.size + 1 },
      rw (big, e),
      omega (arith, value),
      left,
      inr nonzero,
      inr nonzero,
    )

-- A number read in one byte, or in more where the rest of it is read.
uvarint-step :
    (n v : ℕ) (rest : Bytes)
    → v < 2 * 128 ^ n
    → (ltb v 128 ≡ false → IsRead (v / 128) rest (uvarint n (put_uvarint n (v / 128) ++ rest)))
    → IsRead v rest (uvarint (suc n) (put_uvarint (suc n) v ++ rest))
uvarint-step n v rest h before = elim (Bool-cases (ltb v 128)) [
  | inl small ↦
      subst (λ b. IsRead v rest (uvarint (suc n) (b ++ rest))) (sym (put_small n v small))
        (uvarint-small n v rest h small)
  | inr large ↦
      subst (λ b. IsRead v rest (uvarint (suc n) (b ++ rest))) (sym (put_large n v large))
        (uvarint-large n v rest (put_uvarint n (v / 128) ++ rest) large (before large))
]

uvarint-put :
    (n v : ℕ) (rest : Bytes)
    → v < 2 * 128 ^ n
    → IsRead v rest (uvarint (suc n) (put_uvarint (suc n) v ++ rest))
uvarint-put zero v rest h = uvarint-step zero v rest h (λ large. absurd (ground (arith, h, large)))
uvarint-put (suc n) v rest h =
    uvarint-step (suc n) v rest h (λ _. uvarint-put n (v / 128) rest (omega (arith, h)))

pub read_uvarint-put :
    (v : ℕ) (rest : Bytes)
    → v < 18446744073709551616
    → read_uvarint (put_uvarint 10 v ++ rest) ≡ ok (v, rest)
unfolding read_uvarint
read_uvarint-put v rest h =
    let (r, e, value, left, shape, _) = uvarint-put 9 v rest (omega (arith, h)) in
    let short : (ltb 1 r.size && r.last == 0) ≡ false = ground (arith, shape) in
    rw (e, short, value, left)
