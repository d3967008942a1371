-- ===== src/Tests/Showdowns.antt =====
-- A showdown, written and read.
use arkade_poker.Prelude.{ℕ, zero, suc, All, length, ◌≡◌, ◌++◌, refl, arith, ok, [], ◌∷◌, replicate}
use arkade_poker.Merkel.Tree.{HandProof}
use arkade_poker.Game.Codec.Witnesses.{Showdown, encode_showdown, decode_showdown}
use arkade_poker.Game.Codec.Witnesses.RoundTrip.{IsSizedShowdown, decode_showdown-encode_showdown}

-- A proof of one rank, every hash of it the same
abbrev rank_proof : ℕ → ℕ → HandProof
rank_proof rank byte = record {
  rank = rank;
  proof = record {
    low = replicate 13 (replicate 32 byte);
    high = replicate 14 (replicate 32 byte);
  };
}

abbrev showdown : Showdown
showdown = record {
  cards = record {
    player1 = (12, 25);
    player2 = (0, 13);
    flop = (11, (37, 3));
    turn = 30;
    river = 46;
  };
  proof1 = rank_proof 3071 5;
  proof2 = rank_proof 120 9;
}

rows-sized : (n byte : ℕ) → All (λ h. length h ≡ 32) (replicate n (replicate 32 byte))
rows-sized zero byte = tt
rows-sized (suc n) byte = (refl, rows-sized n byte)

showdown-IsSizedShowdown : IsSizedShowdown showdown
showdown-IsSizedShowdown = record {
  proof1 = record {
    rank = omega arith;
    low = (refl, rows-sized 13 5);
    high = (refl, rows-sized 14 5);
  };
  proof2 = record {
    rank = omega arith;
    low = (refl, rows-sized 13 9);
    high = (refl, rows-sized 14 9);
  };
}

decode_showdown-encode_showdown_example :
    decode_showdown (encode_showdown showdown ++ (7 ∷ [])) ≡ ok (showdown, 7 ∷ [])
decode_showdown-encode_showdown_example =
    decode_showdown-encode_showdown showdown (7 ∷ []) showdown-IsSizedShowdown
