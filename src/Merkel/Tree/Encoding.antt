-- ===== src/Merkel/Tree/Encoding.antt =====
-- The 864 bytes of a proof.
use mathlib.Core.List.{append_assoc, append-nil}
use arkade_poker.Prelude.{
  true, ==_iff, guard, bad_packet, ◌>>◌, ℕ, zero, suc, ◌*◌, ◌≡◌, ◌==◌, List, [], ◌∷◌, ◌++◌, All,
  length, take, drop, ok, arith, refl, ap, ◌∙◌, sym, length-append, take-append, drop-append,
}
use arkade_poker.Covenant.Types.{Bytes}
use arkade_poker.Merkel.Tree.{
  Proof, concat, marshal, segments, decode_proof, low_length, high_length, tree_depth,
}

-- Segments of 32 bytes
abbrev pub Hashes : ℕ → List Bytes → Type 0
Hashes n hs = (length hs ≡ n) × All (λ h. length h ≡ 32) hs

length-concat : (n : ℕ) (hs : List Bytes) → Hashes n hs → length (concat hs) ≡ n * 32
unfolding concat
length-concat n [] (e, a) = omega (arith, e)
length-concat zero (h ∷ hs) (e, a) = absurd (omega (arith, e))
length-concat (suc n) (h ∷ hs) (e, (ah, a)) =
    length-append h (concat hs) ∙ omega (arith, ah, length-concat n hs (omega (arith, e), a))

segments-concat :
    (n : ℕ) (hs : List Bytes) (rest : Bytes) → Hashes n hs → segments n (concat hs ++ rest) ≡ hs
unfolding concat segments
segments-concat zero [] rest h = refl
segments-concat zero (h ∷ hs) rest (e, a) = absurd (omega (arith, e))
segments-concat (suc n) [] rest (e, a) = absurd (omega (arith, e))
segments-concat (suc n) (h ∷ hs) rest (e, (ah, a)) =
    ap (λ b. take 32 b ∷ segments n (drop 32 b)) (append_assoc h (concat hs) rest)
    ∙ ap (λ b. b ∷ segments n (drop 32 (h ++ (concat hs ++ rest))))
        (ap (λ k. take k (h ++ (concat hs ++ rest))) (sym ah) ∙ take-append h (concat hs ++ rest))
    ∙ ap (λ b. h ∷ segments n b)
        (ap (λ k. drop k (h ++ (concat hs ++ rest))) (sym ah) ∙ drop-append h (concat hs ++ rest))
    ∙ ap (λ l. h ∷ l) (segments-concat n hs rest (omega (arith, e), a))

pub sized :
    (p : Proof)
    → Hashes low_length p.low
    → Hashes high_length p.high
    → (length (marshal p) == tree_depth * 32) ≡ true
unfolding marshal
sized p low high = (==_iff (length (marshal p)) (tree_depth * 32)).1 (
    length-append (concat p.low) (concat p.high)
    ∙ omega (arith, length-concat low_length p.low low, length-concat high_length p.high high))

upper :
    (p : Proof)
    → Hashes low_length p.low
    → Hashes high_length p.high
    → segments high_length (drop (low_length * 32) (marshal p)) ≡ p.high
unfolding marshal
upper p low high =
    ap (λ k. segments high_length (drop k (concat p.low ++ concat p.high)))
      (sym (length-concat low_length p.low low))
    ∙ ap (segments high_length)
        (drop-append (concat p.low) (concat p.high) ∙ sym (append-nil (concat p.high)))
    ∙ segments-concat high_length p.high [] high

-- A proof of 13 lower and 14 upper hashes of 32 bytes is decoded from the bytes that it is
-- written to.
pub decode_proof-marshal :
    (p : Proof)
    → Hashes low_length p.low
    → Hashes high_length p.high
    → decode_proof (marshal p) ≡ ok p
unfolding decode_proof marshal
decode_proof-marshal p low high =
    ap
      (λ g.
        guard g bad_packet
        >> ok (record {
          low = segments low_length (marshal p);
          high = segments high_length (drop (low_length * 32) (marshal p));
        }))
      (sized p low high)
    ∙ ap
        (λ l.
          ok (record { low = l; high = segments high_length (drop (low_length * 32) (marshal p)) }))
        (segments-concat low_length p.low (concat p.high) low)
    ∙ ap (λ h. ok (record { low = p.low; high = h })) (upper p low high)
