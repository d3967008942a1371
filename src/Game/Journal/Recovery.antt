-- ===== src/Game/Journal/Recovery.antt =====
-- What a restart finds in the log, whatever the storage did.
use arkade_poker.Prelude.{
  ◌≡◌, ◌⊎◌, inl, inr, Bool, true, false, not, ◌||◌, ◌==◌, List, [], ◌∷◌, ◌++◌, Result, ok, err,
  ◌>>=◌, ◌>>◌, guard, reject, bad_order, uncertain, max_uint64, if◌then◌else◌, refl, ap, ◌∙◌, sym,
  subst, Result-cases, >>=-eq-ok, past, past_guard, bad_encoding, ok-inj,
}
use arkade_poker.Covenant.Types.{Bytes}
use arkade_poker.Covenant.Amounts.{bytes_eq}
use arkade_poker.Merkel.Tree.Climb.{bytes_eq→≡}
use arkade_poker.Game.Journal.{
  Entry, Chain, Machine, Journal, decode_event, Outcome, durable, failed_written, failed_unwritten,
  check_wallet, new_chain, previous_of, session_of, reduce, apply_context, first_check, replay,
  load_journal, stored, admitted, settle, append,
}

-- Where the guarded branch succeeds, so does its check.
passed :
    {Game : Type 0} (c : Result (Unit {0})) (x : Result Game) {t : Game}
    → (c >> x) ≡ ok t
    → c ≡ ok tt
passed (err failure) x h = cc
passed (ok _) x h = refl

check-passed :
    {Game : Type 0} (b : Bool) (c other : Result (Unit {0})) (x y : Result Game) {t : Game}
    → (if b then (other >> (c >> x)) else y) ≡ ok t
    → (if b then c else ok tt) ≡ ok tt
check-passed true c other x y h = passed c x (past other _ h)
check-passed false c other x y h = refl

module _ {Payload Game : Type 0} (m : Machine Payload Game) where
  -- What is decoded is encoded to the same bytes.
  decode_event-canonical :
      (b : Bytes) (e : Entry Payload) → decode_event m b ≡ ok e → m.encode e ≡ ok b
  unfolding decode_event
  decode_event-canonical b e h =
      let (parsed, _, h1) = >>=-eq-ok (m.parse b) _ h in
      let (again, en, h2) = >>=-eq-ok (m.encode parsed) _ h1 in
      let (same, h3) = past_guard (bytes_eq again b) bad_encoding _ h2 in
      subst (λ x. m.encode x ≡ ok b) (ok-inj h3) (en ∙ ap (λ x. ok x) (bytes_eq→≡ again b same))

  abbrev pub run : Chain Game → List Bytes → Result (Chain Game)
  run g records = replay m g records

  -- The first event of a log passes the check of the wallet wherever it is admitted.
  apply_context-first_check :
      (g h : Chain Game) (b : Bytes) (e : Entry Payload)
      → decode_event m b ≡ ok e
      → apply_context m g e ≡ ok h
      → first_check m g e ≡ ok tt
  unfolding apply_context
  apply_context-first_check g h b e d a =
      let (previous, _, h1) = >>=-eq-ok (previous_of m g e) _ a in
      let h2 =
        past
          (reject
            (not (e.sequence == g.next_event)
              || (not (bytes_eq e.previous previous) || g.next_event == max_uint64))
            bad_order)
          _ h1 in
      let h3 = past (guard (bytes_eq e.session_id (session_of m g e)) bad_order) _ h2 in
      let (encoded, en, h4) = >>=-eq-ok (m.encode e) _ h3 in
      let (owned, de, h5) = >>=-eq-ok (decode_event m encoded) _ h4 in
      let same : e ≡ owned =
        ok-inj
          (sym d ∙ ap (decode_event m) (ok-inj (sym (decode_event-canonical b e d) ∙ en)) ∙ de) in
      let (t, r, h6) = >>=-eq-ok (reduce m g owned) _ h5 in
      subst (λ o. first_check m g o ≡ ok tt) (sym same)
        (check-passed (g.next_event == 0) (check_wallet m owned) _ _ _ r)

  -- One record more at the end of a log
  replay-snoc :
      (g h k : Chain Game) (records : List Bytes) (b : Bytes) (e : Entry Payload)
      → run g records ≡ ok h
      → decode_event m b ≡ ok e
      → apply_context m h e ≡ ok k
      → run g (records ++ (b ∷ [])) ≡ ok k
  unfolding replay
  replay-snoc g h k [] b e r d a =
      let a' = subst (λ x. apply_context m x e ≡ ok k) (sym (ok-inj r)) a in
      ap (λ o. o >>= (λ x. first_check m g x >> (apply_context m g x >>= (λ y. run y [])))) d
      ∙ ap (λ o. o >> (apply_context m g e >>= (λ y. run y [])))
          (apply_context-first_check g k b e d a')
      ∙ ap (λ o. o >>= (λ y. run y [])) a'
  replay-snoc g h k (c ∷ records) b e r d a =
      let (f, fe, h1) = >>=-eq-ok (decode_event m c) _ r in
      let (_, fc, h2) = >>=-eq-ok (first_check m g f) _ h1 in
      let (after, am, h3) = >>=-eq-ok (apply_context m g f) _ h2 in
      ap
        (λ o. o >>= (λ x.
          first_check m g x >> (apply_context m g x >>= (λ y. run y (records ++ (b ∷ []))))))
        fe
      ∙ ap (λ o. o >> (apply_context m g f >>= (λ y. run y (records ++ (b ∷ []))))) fc
      ∙ ap (λ o. o >>= (λ y. run y (records ++ (b ∷ [])))) am
      ∙ replay-snoc after h k records b e h3 d a

  -- The log replays, and to the live game unless an append has failed.
  abbrev pub IsRecoverable : Journal Game → List Bytes → Type 0
  IsRecoverable j records =
      (g : Chain Game) × (run (new_chain m) records ≡ ok g) × ((j.failed ≡ true) ⊎ (g ≡ j.game))

  -- The journals that a load and appends lead to, with what the storage holds.
  pub data Lived : Journal Game → List Bytes → Type 0 where
    loaded :
        {j : Journal Game} (records : List Bytes) → load_journal m records ≡ ok j → Lived j records
    appended :
        {j k : Journal Game} {records later : List Bytes} (e : Entry Payload) (outcome : Outcome)
        (r : Result (Unit {0}))
        → Lived j records
        → append m j records e outcome ≡ (r, k, later)
        → Lived k later

  load_journal-IsRecoverable :
      (j : Journal Game) (records : List Bytes)
      → load_journal m records ≡ ok j
      → IsRecoverable j records
  unfolding load_journal
  load_journal-IsRecoverable j records h =
      let (g, r, e) = >>=-eq-ok (run (new_chain m) records) _ h in
      (g, r, inr (ap (λ (k : Journal Game). k.game) (ok-inj e)))

  stored-IsRecoverable :
      (j : Journal Game) (records : List Bytes) (e : Entry Payload) (b : Bytes) (g : Chain Game)
      (outcome : Outcome)
      → IsRecoverable j records
      → admitted m j e ≡ ok (b, g)
      → IsRecoverable (stored m j records b g outcome).1 (stored m j records b g outcome).2
  stored-IsRecoverable j records e b g outcome (g0, r0, state) a =
      let (_, live, h1) = >>=-eq-ok (reject j.failed uncertain) _ a in
      let (b1, _, h2) = >>=-eq-ok (m.encode e) _ h1 in
      let (owned, d, h3) = >>=-eq-ok (decode_event m b1) _ h2 in
      let (g1, ap1, h4) = >>=-eq-ok (apply_context m j.game owned) _ h3 in
      let same = ok-inj h4 in
      let d' = ap (decode_event m) (sym (ap (λ (p : Bytes × Chain Game). p.0) same)) ∙ d in
      let longer =
        replay-snoc (new_chain m) j.game g records b owned (r0 ∙ ap ok (still j.failed live state))
          d' (ap1 ∙ ap ok (ap (λ (p : Bytes × Chain Game). p.1) same)) in
      elim outcome
        as (λ o. IsRecoverable (stored m j records b g o).1 (stored m j records b g o).2) [
          | durable ↦ (g, longer, inr refl)
          | failed_written f ↦ (g, longer, inl refl)
          | failed_unwritten f ↦ (g0, r0, inl refl)
        ]
    where
      still : (f : Bool) → reject f uncertain ≡ ok tt → (f ≡ true) ⊎ (g0 ≡ j.game) → g0 ≡ j.game
      still true l s = cc
      still false l (inl bad) = cc
      still false l (inr good) = good

  append-IsRecoverable :
      (j k : Journal Game) (records later : List Bytes) (e : Entry Payload) (outcome : Outcome)
      (r : Result (Unit {0}))
      → IsRecoverable j records
      → append m j records e outcome ≡ (r, k, later)
      → IsRecoverable k later
  unfolding append
  append-IsRecoverable j k records later e outcome r recoverable h =
      elim (Result-cases (admitted m j e)) [
        | inl (next, a) ↦
            moved (stored-IsRecoverable j records e next.0 next.1 outcome recoverable a) (settled a)
        | inr (failure, a) ↦ moved recoverable (settled a)
      ]
    where
      settled :
          {a : Result (Bytes × Chain Game)}
          → admitted m j e ≡ a
          → settle m j records outcome a ≡ (r, k, later)
      settled same = sym (ap (settle m j records outcome) same) ∙ h

      moved :
          {x : Result (Unit {0}) × Journal Game × List Bytes}
          → IsRecoverable x.1 x.2
          → x ≡ (r, k, later)
          → IsRecoverable k later
      moved i same =
          subst (λ (x : Result (Unit {0}) × Journal Game × List Bytes). IsRecoverable x.1 x.2) same
            i

  -- Whatever the storage does with the records that are appended, and whatever the reducer makes
  -- of an event, the log that it holds can be replayed from the start, and unless an append has
  -- failed the result is the live game.
  pub Lived-IsRecoverable :
      (j : Journal Game) (records : List Bytes) → Lived j records → IsRecoverable j records
  Lived-IsRecoverable j records (loaded _ h) = load_journal-IsRecoverable j records h
  Lived-IsRecoverable j records (appended {j = before} {records = held} e outcome r l h) =
      append-IsRecoverable before j held records e outcome r (Lived-IsRecoverable before held l) h
