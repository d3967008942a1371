-- ===== src/Covenant/Packets/Slots.antt =====
-- The reveal slots of the payloads: each location is written once and read back.
use arkade_poker.Prelude.{
  ℕ, zero, suc, ◌+◌, ◌≤◌, ◌≡◌, ◌≢◌, ◌∙◌, refl, sym, ap, ◌⊎◌, inl, inr, Bool, true, not, ◌&&◌, ◌||◌,
  List, [], ◌∷◌, ◌==◌, leb, length, put, slice, length-put, slice-put, slice-put_before,
  slice-put_after, arith, All,
}
use native.Mathlib.Decide.{ℕ_discrete}
use arkade_poker.Covenant.Types.{Bytes}
use arkade_poker.Covenant.Packets.{
  put_at, write_reveals, read_reveals, nth, reveal_locations, blank_payloads,
}

put_nil : (o : ℕ) (c : Bytes) → put [] o c ≡ []
unfolding put
put_nil zero [] = refl
put_nil zero (x ∷ xs) = refl
put_nil (suc o) c = refl

nth-put_at :
    (ps : List Bytes) (k o : ℕ) (c : Bytes) → nth (put_at ps (k, o) c) k ≡ put (nth ps k) o c
unfolding put_at
nth-put_at [] k o c = sym (put_nil o c)
nth-put_at (b ∷ bs) zero o c = refl
nth-put_at (b ∷ bs) (suc k) o c = nth-put_at bs k o c

nth-put_at_ne :
    (ps : List Bytes) (k o j : ℕ) (c : Bytes) → k ≢ j → nth (put_at ps (k, o) c) j ≡ nth ps j
unfolding put_at
nth-put_at_ne [] k o j c h = refl
nth-put_at_ne (b ∷ bs) zero o zero c h = absurd (h refl)
nth-put_at_ne (b ∷ bs) zero o (suc j) c h = refl
nth-put_at_ne (b ∷ bs) (suc k) o zero c h = refl
nth-put_at_ne (b ∷ bs) (suc k) o (suc j) c h = nth-put_at_ne bs k o j c (λ e. h (ap suc e))

pub length-nth-put_at :
    (ps : List Bytes) (k o j : ℕ) (c : Bytes)
    → length (nth (put_at ps (k, o) c) j) ≡ length (nth ps j)
length-nth-put_at ps k o j c = elim (ℕ_discrete k j) [
  | yes e ↦ rw (← e, nth-put_at ps k o c) (length-put (nth ps k) o c)
  | no ne ↦ ap length (nth-put_at_ne ps k o j c ne)
]

pub length-put_at : (ps : List Bytes) (l : ℕ × ℕ) (c : Bytes) → length (put_at ps l c) ≡ length ps
unfolding put_at
length-put_at [] (k, o) c = refl
length-put_at (b ∷ bs) (zero, o) c = refl
length-put_at (b ∷ bs) (suc k, o) c = ap suc (length-put_at bs (k, o) c)

-- Two locations of 64 bytes do not meet.
abbrev apart : ℕ × ℕ → ℕ × ℕ → Bool
apart (k, o) (k', o') = not (k == k') || (leb (o + 64) o' || leb (o' + 64) o)

abbrev all_apart : ℕ × ℕ → List (ℕ × ℕ) → Bool
all_apart l [] = true
all_apart l (m ∷ ms) = apart l m && all_apart l ms

abbrev disjoint : List (ℕ × ℕ) → Bool
disjoint [] = true
disjoint (l ∷ ls) = all_apart l ls && disjoint ls

abbrev slot_of : List Bytes → ℕ × ℕ → Bytes
slot_of ps (k, o) = slice (nth ps k) o 64

slot_of-put_at :
    (ps : List Bytes) (k o k' o' : ℕ) (c : Bytes)
    → length c ≡ 64
    → apart (k, o) (k', o') ≡ true
    → slot_of (put_at ps (k', o') c) (k, o) ≡ slot_of ps (k, o)
slot_of-put_at ps k o k' o' c len h = elim (ℕ_discrete k' k) [
  | no ne ↦ ap (λ b. slice b o 64) (nth-put_at_ne ps k' o' k c ne)
  | yes e ↦ rw (← e, nth-put_at ps k' o' c) (elsewhere (sides e))
]
  where
    sides : k' ≡ k → (o + 64 ≤ o') ⊎ (o' + 64 ≤ o)
    sides e = ground arith

    elsewhere :
        (o + 64 ≤ o') ⊎ (o' + 64 ≤ o) → slice (put (nth ps k') o' c) o 64 ≡ slice (nth ps k') o 64
    elsewhere (inl lo) = slice-put_before (nth ps k') o' c o 64 lo
    elsewhere (inr hi) = slice-put_after (nth ps k') o' c o 64 (omega arith)

slot_of-write_reveals :
    (locs : List (ℕ × ℕ)) (cs ps : List Bytes) (k o : ℕ)
    → All (λ (c : Bytes). length c ≡ 64) cs
    → all_apart (k, o) locs ≡ true
    → slot_of (write_reveals locs cs ps) (k, o) ≡ slot_of ps (k, o)
unfolding write_reveals
slot_of-write_reveals [] cs ps k o len h = refl
slot_of-write_reveals (l ∷ ls) [] ps k o len h = refl
slot_of-write_reveals ((k', o') ∷ ls) (c ∷ cs) ps k o (len, lens) h =
    slot_of-write_reveals ls cs (put_at ps (k', o') c) k o lens (ground arith)
    ∙ slot_of-put_at ps k o k' o' c len (ground arith)

-- Each location lies in its payload.
abbrev Fits : List Bytes → List (ℕ × ℕ) → Type 0
Fits ps = All (λ (l : ℕ × ℕ). l.1 + 64 ≤ length (nth ps l.0))

Fits-put_at :
    (locs : List (ℕ × ℕ)) (ps : List Bytes) (k o : ℕ) (c : Bytes)
    → Fits ps locs
    → Fits (put_at ps (k, o) c) locs
Fits-put_at [] ps k o c h = tt
Fits-put_at ((j, i) ∷ locs) ps k o c (h, hs) =
    (rw (length-nth-put_at ps k o j c) h, Fits-put_at locs ps k o c hs)

-- What is written at locations that do not meet is read back from them.
pub read_reveals-write_reveals :
    (locs : List (ℕ × ℕ)) (cs ps : List Bytes)
    → disjoint locs ≡ true
    → Fits ps locs
    → All (λ (c : Bytes). length c ≡ 64) cs
    → length cs ≡ length locs
    → read_reveals locs (write_reveals locs cs ps) ≡ cs
unfolding write_reveals read_reveals
read_reveals-write_reveals [] [] ps d f len n = refl
read_reveals-write_reveals [] (c ∷ cs) ps d f len n = absurd (omega arith)
read_reveals-write_reveals (l ∷ ls) [] ps d f len n = absurd (omega arith)
read_reveals-write_reveals ((k, o) ∷ ls) (c ∷ cs) ps d (f, fs) (len, lens) n =
    ap (λ r. r ∷ read_reveals ls (write_reveals ls cs (put_at ps (k, o) c))) first
    ∙ ap (λ r. c ∷ r)
        (read_reveals-write_reveals ls cs (put_at ps (k, o) c) (ground arith)
          (Fits-put_at ls ps k o c fs) lens (omega arith))
  where
    back : slice (put (nth ps k) o c) o (length c) ≡ c
    back = slice-put (nth ps k) o c (omega arith)

    first : slot_of (write_reveals ls cs (put_at ps (k, o) c)) (k, o) ≡ c
    first =
        slot_of-write_reveals ls cs (put_at ps (k, o) c) k o lens (ground arith)
        ∙ ap (λ b. slice b o 64) (nth-put_at ps k o c)
        ∙ (rw len at back)

-- No slot lies in the header.
abbrev off_header : List (ℕ × ℕ) → Bool
off_header [] = true
off_header ((k, o) ∷ ls) = not (k == 0) && off_header ls

pub nth-write_reveals :
    (locs : List (ℕ × ℕ)) (cs ps : List Bytes)
    → off_header locs ≡ true
    → nth (write_reveals locs cs ps) 0 ≡ nth ps 0
unfolding write_reveals
nth-write_reveals [] cs ps h = refl
nth-write_reveals (l ∷ ls) [] ps h = refl
nth-write_reveals ((k, o) ∷ ls) (c ∷ cs) ps h =
    nth-write_reveals ls cs (put_at ps (k, o) c) (ground arith)
    ∙ nth-put_at_ne ps k o 0 c (ground arith)

-- The payloads keep their sizes.
pub length-write_reveals :
    (locs : List (ℕ × ℕ)) (cs ps : List Bytes) → length (write_reveals locs cs ps) ≡ length ps
unfolding write_reveals
length-write_reveals [] cs ps = refl
length-write_reveals (l ∷ ls) [] ps = refl
length-write_reveals (l ∷ ls) (c ∷ cs) ps =
    length-write_reveals ls cs (put_at ps l c) ∙ length-put_at ps l c

pub length-nth-write_reveals :
    (locs : List (ℕ × ℕ)) (cs ps : List Bytes) (j : ℕ)
    → length (nth (write_reveals locs cs ps) j) ≡ length (nth ps j)
unfolding write_reveals
length-nth-write_reveals [] cs ps j = refl
length-nth-write_reveals (l ∷ ls) [] ps j = refl
length-nth-write_reveals ((k, o) ∷ ls) (c ∷ cs) ps j =
    length-nth-write_reveals ls cs (put_at ps (k, o) c) j ∙ length-nth-put_at ps k o j c

-- The 18 slots of a state are read back from its payloads.
pub reveals_round_trip :
    (header : Bytes) (reveals : List Bytes)
    → All (λ (c : Bytes). length c ≡ 64) reveals
    → length reveals ≡ 18
    → read_reveals reveal_locations (write_reveals reveal_locations reveals (blank_payloads header))
      ≡ reveals
reveals_round_trip header reveals len n =
    read_reveals-write_reveals reveal_locations reveals (blank_payloads header) refl (omega arith)
      len n
