-- ===== src/Prelude/Buffers.antt =====
-- Byte buffers: little-endian numbers, writes at an offset and slices.
use Prim.Native.Nat.{ℕ, zero, suc, ◌+◌, ◌*◌, ◌/◌, ◌%◌, ◌^◌, ◌≤◌, ◌<◌}
use mathlib.Core.Path.{◌≡◌, refl, ap}
use mathlib.Core.List.{List, [], ◌∷◌}
use native.Mathlib.Omega.{arith}
use arkade_poker.Prelude.Lists.{length, take, drop}

-- The `n` low bytes of a number, lowest first.
unfoldable pub le_bytes : ℕ → ℕ → List ℕ
le_bytes zero v = []
le_bytes (suc n) v = (v % 256) ∷ le_bytes n (v / 256)

unfoldable pub le_value : List ℕ → ℕ
le_value [] = 0
le_value (b ∷ bs) = b + 256 * le_value bs

-- `copy(buf[offset:], src)`: what does not fit is dropped.
unfoldable pub put : List ℕ → ℕ → List ℕ → List ℕ
put buf zero [] = buf
put [] zero (x ∷ xs) = []
put (b ∷ bs) zero (x ∷ xs) = x ∷ put bs zero xs
put [] (suc n) src = []
put (b ∷ bs) (suc n) src = b ∷ put bs n src

-- `buf[offset : offset+n]`
abbrev pub slice : List ℕ → ℕ → ℕ → List ℕ
slice buf offset n = take n (drop offset buf)

pub length-le_bytes : (n v : ℕ) → length (le_bytes n v) ≡ n
unfolding le_bytes
length-le_bytes zero v = refl
length-le_bytes (suc n) v = ap suc (length-le_bytes n (v / 256))

pub le_value-le_bytes : (n v : ℕ) → v < 256 ^ n → le_value (le_bytes n v) ≡ v
unfolding le_bytes le_value
le_value-le_bytes zero v h = omega arith
le_value-le_bytes (suc n) v h = omega (arith, le_value-le_bytes n (v / 256) (omega arith))

pub length-put :
    (buf : List ℕ) (offset : ℕ) (src : List ℕ) → length (put buf offset src) ≡ length buf
unfolding put
length-put buf zero [] = refl
length-put [] zero (x ∷ xs) = refl
length-put (b ∷ bs) zero (x ∷ xs) = ap suc (length-put bs zero xs)
length-put [] (suc n) src = refl
length-put (b ∷ bs) (suc n) src = ap suc (length-put bs n src)

-- A write that fits is read back.
pub slice-put :
    (buf : List ℕ) (offset : ℕ) (src : List ℕ)
    → offset + length src ≤ length buf
    → slice (put buf offset src) offset (length src) ≡ src
unfolding put
slice-put buf zero [] h = refl
slice-put [] zero (x ∷ xs) h = absurd (omega arith)
slice-put (b ∷ bs) zero (x ∷ xs) h = ap (λ r. x ∷ r) (slice-put bs zero xs (omega arith))
slice-put [] (suc n) src h = absurd (omega arith)
slice-put (b ∷ bs) (suc n) src h = slice-put bs n src (omega arith)

-- A write elsewhere leaves a slice as it was.
pub slice-put_before :
    (buf : List ℕ) (offset : ℕ) (src : List ℕ) (start n : ℕ)
    → start + n ≤ offset
    → slice (put buf offset src) start n ≡ slice buf start n
unfolding put
slice-put_before buf zero src zero zero h = refl
slice-put_before buf zero src zero (suc n) h = absurd (omega arith)
slice-put_before buf zero src (suc start) n h = absurd (omega arith)
slice-put_before [] (suc o) src start n h = refl
slice-put_before (b ∷ bs) (suc o) src zero zero h = refl
slice-put_before (b ∷ bs) (suc o) src zero (suc n) h =
    ap (λ r. b ∷ r) (slice-put_before bs o src zero n (omega arith))
slice-put_before (b ∷ bs) (suc o) src (suc start) n h =
    slice-put_before bs o src start n (omega arith)

pub slice-put_after :
    (buf : List ℕ) (offset : ℕ) (src : List ℕ) (start n : ℕ)
    → offset + length src ≤ start
    → slice (put buf offset src) start n ≡ slice buf start n
unfolding put
slice-put_after buf zero [] start n h = refl
slice-put_after [] zero (x ∷ xs) start n h = refl
slice-put_after (b ∷ bs) zero (x ∷ xs) zero n h = absurd (omega arith)
slice-put_after (b ∷ bs) zero (x ∷ xs) (suc start) n h =
    slice-put_after bs zero xs start n (omega arith)
slice-put_after [] (suc o) src start n h = refl
slice-put_after (b ∷ bs) (suc o) src zero n h = absurd (omega arith)
slice-put_after (b ∷ bs) (suc o) src (suc start) n h =
    slice-put_after bs o src start n (omega arith)
