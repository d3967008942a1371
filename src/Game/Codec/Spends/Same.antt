-- ===== src/Game/Codec/Spends/Same.antt =====
-- With the codec of spends, the reducer's comparison of two concessions or timeouts tells them apart in everything
-- but the signed bundle.
use arkade_poker.Prelude.{
  ◌≡◌, true, Result, ok, err, none, refl, sym, ◌∙◌, ap, subst, some, ok-inj, some-inj, [],
}
use arkade_poker.Covenant.Types.{Bytes}
use arkade_poker.Merkel.Tree.Climb.{bytes_eq→≡}
use arkade_poker.Game.Hand.{
  SavedSpend, PreparedState, HandEvent, HandGame, Parts, same_encoding, same_saved, sign_spend,
}
use arkade_poker.Game.Hand.Steps.{sign_spend-eq}
use arkade_poker.Game.Codec.Spends.{SpendParts, encode_saved}
use arkade_poker.Game.Codec.Spends.RoundTrip.{IsSizedSpend, IsBare, decode_saved-encode_saved}

abbrev pub unsigned : SavedSpend → SavedSpend
unsigned s = record s { signed = none }

module _ (codec : SpendParts) (parts : Parts) where
  -- The parts compare spends by the codec.
  abbrev pub UsesCodec : Type 0
  UsesCodec = (s : SavedSpend) → parts.encode_saved s ≡ encode_saved codec s

  encodings-equal :
      (x y : Result Bytes) → same_encoding x y ≡ true → (b : Bytes) × (x ≡ ok b) × (y ≡ ok b)
  unfolding same_encoding
  encodings-equal (ok x) (ok y) h = (x, refl, ap (λ c. ok c) (sym (bytes_eq→≡ x y h)))
  encodings-equal (ok x) (err f) h = cc
  encodings-equal (err e) y h = cc

  -- Two concessions or timeouts that the reducer takes for the same differ in nothing but the signed bundle.
  pub same_saved-unsigned :
      (a b : SavedSpend)
      → UsesCodec
      → IsBare a.action
      → IsBare b.action
      → IsSizedSpend a
      → IsSizedSpend b
      → same_saved parts a b ≡ true
      → unsigned a ≡ unsigned b
  unfolding same_saved
  same_saved-unsigned a b uses bare_a bare_b sized_a sized_b h =
      let (bytes, ea, eb) =
        encodings-equal (parts.encode_saved (unsigned a)) (parts.encode_saved (unsigned b)) h in
      let read_a =
        decode_saved-encode_saved codec (unsigned a) bytes [] bare_a (sized-unsigned a sized_a)
          (sym (uses (unsigned a)) ∙ ea) in
      let read_b =
        decode_saved-encode_saved codec (unsigned b) bytes [] bare_b (sized-unsigned b sized_b)
          (sym (uses (unsigned b)) ∙ eb) in
      ap (λ (r : SavedSpend × Bytes). r.0) (ok-inj (sym read_a ∙ read_b))
    where
      sized-unsigned : (s : SavedSpend) → IsSizedSpend s → IsSizedSpend (unsigned s)
      sized-unsigned s sized = record {
        route = sized.route;
        source = sized.source;
        sources = sized.sources;
        action = sized.action;
      }

  -- Where the reducer compares spends by their codec, and the prepared spend and the event's are
  -- concessions or timeouts whose numbers and hashes fit their types, the spend that is signed is
  -- the prepared one with a signed bundle: its action, its route, its sources and its prepared
  -- bundle are the same, and so is the transaction that was built.
  pub sign_spend-unsigned :
      (g g' : HandGame) (e : HandEvent) (p : PreparedState)
      → UsesCodec
      → g.prepared ≡ some p
      → IsBare p.saved.action
      → IsBare e.spend.action
      → IsSizedSpend p.saved
      → IsSizedSpend e.spend
      → sign_spend parts g e ≡ ok g'
      → (q : PreparedState) × (g'.prepared ≡ some q)
        × (unsigned q.saved ≡ unsigned p.saved)
        × (q.built ≡ p.built)
  sign_spend-unsigned g g' e p uses there bare_p bare_e sized_p sized_e h =
      let (q, _, _, has, _, same, _, out) = sign_spend-eq parts g g' e h in
      let is_p : q ≡ p = some-inj (sym has ∙ there) in
      let spends : same_saved parts p.saved e.spend ≡ true =
        subst (λ (r : PreparedState). same_saved parts r.saved e.spend ≡ true) is_p same in
      (
        record q { saved = e.spend },
        ap (λ (t : HandGame). t.prepared) (sym out),
        sym (same_saved-unsigned p.saved e.spend uses bare_p bare_e sized_p sized_e spends),
        ap (λ (r : PreparedState). r.built) is_p,
      )
