-- ===== src/Tests/Stored.antt =====
-- A record in its frame.
use arkade_poker.Prelude.{◌≡◌, ◌↔◌, ℕ, refl, arith, [], ◌∷◌, ◌++◌, replicate, ok}
use arkade_poker.Covenant.Types.{Bytes}
use arkade_poker.Storage.Records.{framed, frame, unframe}
use arkade_poker.Storage.Records.Bound.{unframe-frame}

abbrev zero_hash : Bytes → Bytes
zero_hash _ = replicate 32 0

abbrev wallet : Bytes
wallet = replicate 32 1

abbrev index : ℕ
index = 3

abbrev other_index : ℕ
other_index = 4

abbrev stored : Bytes
stored = 5 ∷ 6 ∷ []

abbrev stored_bytes : Bytes
stored_bytes = framed wallet index stored ++ replicate 32 0

is_framed : frame zero_hash wallet index stored ≡ ok stored_bytes
unfolding frame
is_framed = refl

unframe-frame_example :
    (unframe zero_hash wallet other_index stored_bytes ≡ ok stored)
    ↔ ((wallet ≡ wallet) × (other_index ≡ index) × (stored ≡ stored))
unframe-frame_example =
    unframe-frame zero_hash wallet wallet index other_index stored stored stored_bytes (λ _. refl)
      refl (omega arith) is_framed
