-- ===== src/Game/Setup/Order.antt =====
-- The order of the messages of a setup.
use arkade_poker.Prelude.{
  ℕ, ◌+◌, ◌≡◌, ◌≤◌, ◌<◌, ◌⊎◌, inl, inr, Bool, true, false, ◌||◌, Option, none, some, leb, ◌==◌,
  if◌then◌else◌, ok, guard, >>=-eq-ok, past, arith, refl, ◌∙◌, sym, bad_input,
}
use arkade_poker.Game.Stage.{stage_aborted}
use arkade_poker.Game.Setup.{
  Message, SetupState, Event, Table, Answers, admit_peer, admit_shuffle, publication_next,
  open_session, after_published, publish_message, receive_keys, prepare_shuffle, receive_shuffle,
  message_received, setup_next, is_prepared, stage_await_opponent_keys, stage_await_final_shuffle,
}

abbrev pub known : Option Message → Bool
known none = false
known (some _) = true

-- How many messages a player has published, and received, at a stage.
abbrev pub sent : ℕ → ℕ → ℕ
sent stage role =
    if stage == stage_await_opponent_keys
    then (if role == 1 then 0 else 1)
    else (if leb stage 4 then 0 else (if leb stage 9 then 1 else 2))

abbrev pub received : ℕ → ℕ
received stage =
    if leb stage 3
    then 0
    else (if leb stage 7 then 1 else (if stage == stage_await_final_shuffle then 1 else 2))

-- Whether a stage is one of the role: of both players, of the first or of the second.
abbrev pub stage_of_role : ℕ → ℕ → Bool
stage_of_role stage role =
    (stage == 1 || stage == 3)
    || (if role == 1
        then (stage == 4 || (stage == 7 || (stage == 8 || (stage == 9 || stage == 12))))
        else (stage == 2 || (stage == 5 || (stage == 6 || (stage == 10 || stage == 11)))))

abbrev pub IsPlaced : ℕ → SetupState → Type 0
IsPlaced stage s =
    (stage_of_role stage s.role ≡ true)
    × (s.next_send ≡ sent stage s.role)
    × (s.next_receive ≡ received stage)
    × (known s.peer ≡ leb 4 stage)
    × (known s.initial ≡ (stage == 6 || leb 8 stage))
    × (known s.final ≡ (stage == 9 || leb 11 stage))
    × (known s.pending ≡ (stage == 6 || stage == 9))

-- A game in setup: nothing yet, a stage that fits what was exchanged, or aborted.
abbrev pub IsOrdered : Table → Type 0
IsOrdered g =
    ((g.setup ≡ none) × ((g.stage ≡ 0) ⊎ (g.stage ≡ stage_aborted)))
    ⊎ ((s : SetupState) × (g.setup ≡ some s) × (IsPlaced g.stage s ⊎ (g.stage ≡ stage_aborted)))

stages-below :
    (n : ℕ)
    → n < 11
    → 1 ≤ n
    → (n ≡ 1)
      ⊎ (((n ≡ 2) ⊎ ((n ≡ 4) ⊎ ((n ≡ 6) ⊎ (n ≡ 9))))
          ⊎ ((n ≡ 3) ⊎ (((n ≡ 5) ⊎ (n ≡ 8)) ⊎ ((n ≡ 7) ⊎ (n ≡ 10)))))
stages-below n small positive = ground arith

-- The stage after a publication, where the stage before it is one of the four numbers.
IsPlaced-published :
    (n : ℕ) {stage after : ℕ} (s : SetupState)
    → IsPlaced stage s
    → stage ≡ n
    → after ≡ after_published stage
    → is_prepared n ≡ true
    → IsPlaced after (record s { next_send = s.next_send + 1; pending = none; publication = none })
IsPlaced-published n {stage} {after} s placed at next prepared = ground arith

module _ (answers : Answers) where
  admit_peer-fields :
      (s t : SetupState) (m : Message)
      → admit_peer answers s m ≡ ok t
      → t ≡ record s { peer = some m; next_receive = s.next_receive + 1 }
  unfolding admit_peer
  admit_peer-fields s t m h = ground arith

  admit_shuffle-fields :
      (s t : SetupState) (m : Message) (last : Bool)
      → admit_shuffle answers s m last ≡ ok t
      → t ≡ (if last then record s { final = some m } else record s { initial = some m })
  unfolding admit_shuffle
  admit_shuffle-fields s t m true h = ground arith
  admit_shuffle-fields s t m false h = ground arith

  module _ (g g' : Table) (s : SetupState) (e : Event) (placed : IsPlaced g.stage s) where
    open_session-IsOrdered :
        g.stage ≡ 1 → g.setup ≡ some s → open_session answers g s e ≡ ok g' → IsOrdered g'
    unfolding open_session
    open_session-IsOrdered at there h = inr (s, ground arith, inl (ground arith))

    publish_message-fields :
        publish_message answers g s e ≡ ok g'
        → (g'.stage ≡ after_published g.stage)
          × (g'.setup
              ≡ some (record s { next_send = s.next_send + 1; pending = none; publication = none }))
    unfolding publish_message
    publish_message-fields h = (ground arith, ground arith)

    publish_message-IsOrdered :
        (g.stage ≡ 2) ⊎ ((g.stage ≡ 4) ⊎ ((g.stage ≡ 6) ⊎ (g.stage ≡ 9)))
        → publish_message answers g s e ≡ ok g'
        → IsOrdered g'
    publish_message-IsOrdered at h =
        let (stage, setup) = publish_message-fields h in
        inr (
          record s { next_send = s.next_send + 1; pending = none; publication = none },
          setup,
          inl (elim at [
            | inl two ↦ IsPlaced-published 2 s placed two stage refl
            | inr (inl four) ↦ IsPlaced-published 4 s placed four stage refl
            | inr (inr (inl six)) ↦ IsPlaced-published 6 s placed six stage refl
            | inr (inr (inr nine)) ↦ IsPlaced-published 9 s placed nine stage refl
          ]),
        )

    receive_keys-IsOrdered : g.stage ≡ 3 → receive_keys answers g s e ≡ ok g' → IsOrdered g'
    unfolding receive_keys
    receive_keys-IsOrdered at h =
        let (t, a, h1) =
          >>=-eq-ok (admit_peer answers s e.message) _
            (past (guard (e.kind == message_received) bad_input) _ h) in
        inr (t, ground arith, inl (ground (arith, admit_peer-fields s t e.message a)))

    prepare_shuffle-initial :
        g.stage ≡ 5
        → prepare_shuffle answers g s e ≡ ok g'
        → (g'.stage ≡ 6)
          × (g'.setup ≡ some (record s { initial = some e.message; pending = some e.message }))
    unfolding prepare_shuffle admit_shuffle
    prepare_shuffle-initial at h = ground arith

    prepare_shuffle-final :
        g.stage ≡ 8
        → prepare_shuffle answers g s e ≡ ok g'
        → (g'.stage ≡ 9)
          × (g'.setup ≡ some (record s { final = some e.message; pending = some e.message }))
    unfolding prepare_shuffle admit_shuffle
    prepare_shuffle-final at h = ground arith

    receive_shuffle-initial :
        g.stage ≡ 7
        → receive_shuffle answers g s e ≡ ok g'
        → (g'.stage ≡ 8)
          × (g'.setup
              ≡ some (record s { initial = some e.message; next_receive = s.next_receive + 1 }))
    unfolding receive_shuffle admit_shuffle
    receive_shuffle-initial at h = ground arith

    receive_shuffle-final :
        g.stage ≡ 10
        → receive_shuffle answers g s e ≡ ok g'
        → (g'.stage ≡ 11)
          × (g'.setup
              ≡ some (record s { final = some e.message; next_receive = s.next_receive + 1 }))
    unfolding receive_shuffle admit_shuffle
    receive_shuffle-final at h = ground arith

    prepare_shuffle-IsOrdered :
        (g.stage ≡ 5) ⊎ (g.stage ≡ 8) → prepare_shuffle answers g s e ≡ ok g' → IsOrdered g'
    prepare_shuffle-IsOrdered (inl at) h =
        let (stage, setup) = prepare_shuffle-initial at h in
        inr (
          record s { initial = some e.message; pending = some e.message },
          setup,
          inl (ground (arith, at, stage)),
        )
    prepare_shuffle-IsOrdered (inr at) h =
        let (stage, setup) = prepare_shuffle-final at h in
        inr (
          record s { final = some e.message; pending = some e.message },
          setup,
          inl (ground (arith, at, stage)),
        )

    receive_shuffle-IsOrdered :
        (g.stage ≡ 7) ⊎ (g.stage ≡ 10) → receive_shuffle answers g s e ≡ ok g' → IsOrdered g'
    receive_shuffle-IsOrdered (inl at) h =
        let (stage, setup) = receive_shuffle-initial at h in
        inr (
          record s { initial = some e.message; next_receive = s.next_receive + 1 },
          setup,
          inl (ground (arith, at, stage)),
        )
    receive_shuffle-IsOrdered (inr at) h =
        let (stage, setup) = receive_shuffle-final at h in
        inr (
          record s { final = some e.message; next_receive = s.next_receive + 1 },
          setup,
          inl (ground (arith, at, stage)),
        )

    -- The handlers of the stages, and their choice.
    setup_stages :
        g.stage < 11
        → (g.stage ≡ 1)
          ⊎ (((g.stage ≡ 2) ⊎ ((g.stage ≡ 4) ⊎ ((g.stage ≡ 6) ⊎ (g.stage ≡ 9))))
              ⊎ ((g.stage ≡ 3)
                  ⊎ (((g.stage ≡ 5) ⊎ (g.stage ≡ 8)) ⊎ ((g.stage ≡ 7) ⊎ (g.stage ≡ 10)))))
    setup_stages small = stages-below g.stage small (ground (arith, placed.0))

    setup_next-open : g.stage ≡ 1 → setup_next answers g s e ≡ open_session answers g s e
    unfolding setup_next
    setup_next-open at = ground arith

    setup_next-publish :
        (g.stage ≡ 2) ⊎ ((g.stage ≡ 4) ⊎ ((g.stage ≡ 6) ⊎ (g.stage ≡ 9)))
        → setup_next answers g s e ≡ publish_message answers g s e
    unfolding setup_next
    setup_next-publish at = ground arith

    setup_next-keys : g.stage ≡ 3 → setup_next answers g s e ≡ receive_keys answers g s e
    unfolding setup_next
    setup_next-keys at = ground arith

    setup_next-prepare :
        (g.stage ≡ 5) ⊎ (g.stage ≡ 8) → setup_next answers g s e ≡ prepare_shuffle answers g s e
    unfolding setup_next
    setup_next-prepare at = ground arith

    setup_next-receive :
        (g.stage ≡ 7) ⊎ (g.stage ≡ 10) → setup_next answers g s e ≡ receive_shuffle answers g s e
    unfolding setup_next
    setup_next-receive at = ground arith

    pub setup_next-IsOrdered :
        g.stage < 11 → g.setup ≡ some s → setup_next answers g s e ≡ ok g' → IsOrdered g'
    setup_next-IsOrdered small there h = elim (setup_stages small) [
      | inl at ↦ open_session-IsOrdered at there (sym (setup_next-open at) ∙ h)
      | inr (inl at) ↦ publish_message-IsOrdered at (sym (setup_next-publish at) ∙ h)
      | inr (inr (inl at)) ↦ receive_keys-IsOrdered at (sym (setup_next-keys at) ∙ h)
      | inr (inr (inr (inl at))) ↦ prepare_shuffle-IsOrdered at (sym (setup_next-prepare at) ∙ h)
      | inr (inr (inr (inr at))) ↦ receive_shuffle-IsOrdered at (sym (setup_next-receive at) ∙ h)
    ]

    pub publication_next-IsOrdered : publication_next answers g s e ≡ ok g' → IsOrdered g'
    unfolding publication_next
    publication_next-IsOrdered h =
        inr (record s { publication = some e.publication }, ground arith, inl (ground arith))
