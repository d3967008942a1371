-- ===== src/Storage/Records/Bound.antt =====
-- A stored record is read back under its wallet and its index, and under no other.
use arkade_poker.Prelude.{
  ℕ, zero, suc, ◌≡◌, ◌<◌, ◌≤◌, ◌↔◌, ◌+◌, ◌-◌, Bool, true, false, not, ◌||◌, [], ◌∷◌, ◌++◌, ltb, leb,
  ◌==◌, ==_iff, length, take, drop, slice, le_bytes, le_value, ok, refl, arith, sym, ◌∙◌, ap, subst,
  past_guard, past_reject, ok-inj, record_limit, bad_encoding, length-append, length-le_bytes,
  le_value-le_bytes, take-append, drop-append,
}
use mathlib.Core.List.{append_assoc}
use arkade_poker.Covenant.Types.{Bytes}
use arkade_poker.Covenant.Amounts.{bytes_eq}
use arkade_poker.Merkel.Tree.Climb.{bytes_eq→≡}
use arkade_poker.Game.Codec.Reads.{bytes_eq_refl}
use arkade_poker.Storage.Records.{
  max_record_bytes, record_header, frame_overhead, framed, frame, unframe,
}

drop_past : (k m : ℕ) (x y : Bytes) → k ≡ length x + m → drop k (x ++ y) ≡ drop m y
drop_past k m [] y h = ap (λ j. drop j y) (h ∙ omega arith)
drop_past zero m (b ∷ x) y h = absurd (omega (arith, h))
drop_past (suc k) m (b ∷ x) y h = drop_past k m x y (omega (arith, h))

take_front : (n : ℕ) (x y : Bytes) → length x ≡ n → take n (x ++ y) ≡ x
take_front n x y h = subst (λ k. take k (x ++ y) ≡ x) h (take-append x y)

-- None of three tests has failed.
all_pass :
    (x y z : Bool) → (not x || (not y || not z)) ≡ false → (x ≡ true) × (y ≡ true) × (z ≡ true)
all_pass true true true h = (refl, refl, refl)
all_pass true true false h = cc
all_pass true false z h = cc
all_pass false y z h = cc

sized_tests :
    (total size : ℕ) (start : Bool)
    → total ≡ size + 95
    → (size == 0 || ltb max_record_bytes size) ≡ false
    → start ≡ true
    → (leb total frame_overhead || (ltb (max_record_bytes + frame_overhead) total || not start))
      ≡ false
sized_tests total size start long few begins = ground (arith, long, few, begins)

module _ (sha256 : Bytes → Bytes) where
  length-header : length record_header ≡ 19
  unfolding record_header
  length-header = refl

  -- The parts of a frame
  record HasParts (wallet : Bytes) (index : ℕ) (bytes b : Bytes) : Type 0 where
    long : length b ≡ length bytes + 95
    header : take 19 b ≡ record_header
    owner : slice b 19 32 ≡ wallet
    place : le_value (slice b 51 8) ≡ index
    size : le_value (slice b 59 4) ≡ length bytes
    inside : slice b 63 (length bytes) ≡ bytes
    checked : sha256 (take (length b - 32) b) ≡ drop (length b - 32) b

  frame-HasParts :
      (wallet : Bytes) (index : ℕ) (bytes : Bytes)
      → ((d : Bytes) → length (sha256 d) ≡ 32)
      → length wallet ≡ 32
      → index < 18446744073709551616
      → length bytes ≤ max_record_bytes
      → HasParts wallet index bytes
          (framed wallet index bytes ++ sha256 (framed wallet index bytes))
  unfolding framed
  frame-HasParts wallet index bytes sha sized small few =
      let body = framed wallet index bytes in
      let sum = sha256 body in
      let i = le_bytes 8 index in
      let l = le_bytes 4 (length bytes) in
      let t3 = bytes ++ sum in
      let t2 = l ++ t3 in
      let t1 = i ++ t2 in
      let t0 = wallet ++ t1 in
      let nested : body ++ sum ≡ record_header ++ t0 =
        append_assoc record_header (wallet ++ (i ++ (l ++ bytes))) sum
        ∙ ap (λ r. record_header ++ r)
            (append_assoc wallet (i ++ (l ++ bytes)) sum
              ∙ ap (λ r. wallet ++ r)
                  (append_assoc i (l ++ bytes) sum
                    ∙ ap (λ r. i ++ r) (append_assoc l bytes sum))) in
      let li : length i ≡ 8 = length-le_bytes 8 index in
      let ll : length l ≡ 4 = length-le_bytes 4 (length bytes) in
      let lb : length body ≡ length bytes + 63 = omega (
        arith,
        length-header,
        length-append record_header (wallet ++ (i ++ (l ++ bytes))),
        length-append wallet (i ++ (l ++ bytes)),
        length-append i (l ++ bytes),
        length-append l bytes,
        sized,
        li,
        ll,
      ) in
      let total : length (body ++ sum) ≡ length bytes + 95 =
        omega (arith, length-append body sum, lb, sha body) in
      let cut : length (body ++ sum) - 32 ≡ length body = omega (arith, total, lb) in
      let past19 : drop 19 (record_header ++ t0) ≡ t0 =
        drop_past 19 0 record_header t0 (omega (arith, length-header)) in
      let past51 : drop 51 (record_header ++ t0) ≡ t1 =
        drop_past 51 32 record_header t0 (omega (arith, length-header))
        ∙ drop_past 32 0 wallet t1 (omega (arith, sized)) in
      let past59 : drop 59 (record_header ++ t0) ≡ t2 =
        drop_past 59 40 record_header t0 (omega (arith, length-header))
        ∙ (drop_past 40 8 wallet t1 (omega (arith, sized))
            ∙ drop_past 8 0 i t2 (omega (arith, li))) in
      let past63 : drop 63 (record_header ++ t0) ≡ t3 =
        drop_past 63 44 record_header t0 (omega (arith, length-header))
        ∙ (drop_past 44 12 wallet t1 (omega (arith, sized))
            ∙ (drop_past 12 4 i t2 (omega (arith, li)) ∙ drop_past 4 0 l t3 (omega (arith, ll)))) in
      record {
        long = total;
        header = rw (nested, take_front 19 record_header t0 length-header);
        owner = rw (nested, past19, take_front 32 wallet t1 sized);
        place = rw (
          nested,
          past51,
          take_front 8 i t2 li,
          le_value-le_bytes 8 index (omega (arith, small)),
        );
        size = rw (
          nested,
          past59,
          take_front 4 l t3 ll,
          le_value-le_bytes 4 (length bytes) (omega (arith, few)),
        );
        inside = rw (nested, past63, take_front (length bytes) bytes sum refl);
        checked = rw (cut, take-append body sum, drop-append body sum);
      }

  -- What unframe compares a frame with
  module _ (wallet wallet' : Bytes) (index index' : ℕ) (bytes b : Bytes)
      (p : HasParts wallet index bytes b) where
    abbrev differs : Bool
    differs =
        not (bytes_eq (slice b 19 32) wallet')
        || (not (le_value (slice b 51 8) == index')
            || not (le_value (slice b 59 4) == length b - frame_overhead))

    header-whole :
        (length bytes == 0 || ltb max_record_bytes (length bytes)) ≡ false
        → (leb (length b) frame_overhead
            || (ltb (max_record_bytes + frame_overhead) (length b)
                || not (bytes_eq (take 19 b) record_header)))
          ≡ false
    header-whole few =
        let start : bytes_eq (take 19 b) record_header ≡ true =
          rw (p.header, bytes_eq_refl record_header) in
        sized_tests (length b) (length bytes) (bytes_eq (take 19 b) record_header) p.long few start

    -- The comparison finds no difference for the frame's own wallet and index alone.
    same-owner : differs ≡ false → (wallet' ≡ wallet) × (index' ≡ index)
    same-owner h =
        let (owner, place, _) =
          all_pass (bytes_eq (slice b 19 32) wallet') (le_value (slice b 51 8) == index')
            (le_value (slice b 59 4) == length b - frame_overhead) h in
        (
          sym (bytes_eq→≡ (slice b 19 32) wallet' owner) ∙ p.owner,
          sym ((==_iff (le_value (slice b 51 8)) index').0 place) ∙ p.place,
        )

    owner-same : wallet' ≡ wallet → index' ≡ index → differs ≡ false
    owner-same w i =
        let owner : bytes_eq (slice b 19 32) wallet' ≡ true =
          rw (p.owner, w, bytes_eq_refl wallet) in
        let place : (le_value (slice b 51 8) == index') ≡ true =
          (==_iff (le_value (slice b 51 8)) index').1 (p.place ∙ sym i) in
        let size : (le_value (slice b 59 4) == length b - frame_overhead) ≡ true =
          (==_iff (le_value (slice b 59 4)) (length b - frame_overhead)).1
            (p.size ∙ omega (arith, p.long)) in
        rw (owner, place, size)

    read-inside : slice b 63 (length b - frame_overhead) ≡ bytes
    read-inside =
        let n : length b - frame_overhead ≡ length bytes = omega (arith, p.long) in rw (n, p.inside)

  -- A record that is framed with a wallet key of 32 bytes and an index of 64 bits, where a digest
  -- has 32 bytes, is read under a wallet and an index exactly when they are those that it was
  -- framed with, and what is read is the record.
  pub unframe-frame :
      (wallet wallet' : Bytes) (index index' : ℕ) (bytes bytes' b : Bytes)
      → ((d : Bytes) → length (sha256 d) ≡ 32)
      → length wallet ≡ 32
      → index < 18446744073709551616
      → frame sha256 wallet index bytes ≡ ok b
      → (unframe sha256 wallet' index' b ≡ ok bytes')
        ↔ ((wallet' ≡ wallet) × (index' ≡ index) × (bytes' ≡ bytes))
  unfolding frame unframe
  unframe-frame wallet wallet' index index' bytes bytes' b sha sized small h =
      let (few, h1) =
        past_reject (length bytes == 0 || ltb max_record_bytes (length bytes)) record_limit _ h in
      let p : HasParts wallet index bytes b =
        subst (HasParts wallet index bytes) (ok-inj h1)
          (frame-HasParts wallet index bytes sha sized small (ground (arith, few))) in
      let inside = read-inside wallet wallet' index index' bytes b p in
      (
        λ k.
            let (_, k1) = past_reject _ bad_encoding _ k in
            let (same, k2) =
              past_reject (differs wallet wallet' index index' bytes b p) bad_encoding _ k1 in
            let (_, k3) =
              past_guard (bytes_eq (sha256 (take (length b - 32) b)) (drop (length b - 32) b))
                bad_encoding _ k2 in
            let (w, i) = same-owner wallet wallet' index index' bytes b p same in
            (w, i, sym (ok-inj k3) ∙ inside),
        λ (w, i, r). rw (
          header-whole wallet wallet' index index' bytes b p few,
          owner-same wallet wallet' index index' bytes b p w i,
          p.checked,
          bytes_eq_refl (drop (length b - 32) b),
          inside,
          r,
        ),
      )
