-- ===== src/Tests/Setup.antt =====
-- The setup of the second player, from the first event to the deposit.
use arkade_poker.Prelude.{
  ℕ, refl, arith, true, false, List, [], ◌∷◌, none, some, ok, err, bad_order,
}
use arkade_poker.Game.Setup.{
  Message, Invitation, SetupState, Event, Table, Answers, reduce_setup, key_offer, key_reply,
  final_shuffle, initial_shuffle, session_prepared, session_opened, publication_prepared,
  message_published, message_received, message_prepared,
}
use arkade_poker.Game.Setup.Order.{IsOrdered}
use arkade_poker.Game.Setup.Reached.{Reach, start, next, empty_table, Reach-IsOrdered}

abbrev pub keys : ℕ → ℕ → Message
keys sender kind = record {
  kind = kind;
  session_id = 1 ∷ [];
  sender = sender;
  identity = sender ∷ [];
  sequence = 0;
  initial_deadline = 0;
  body = [];
}

abbrev shuffle : ℕ → ℕ → ℕ → Message
shuffle sender kind deadline = record (keys sender kind) {
  sequence = 1;
  initial_deadline = deadline;
}

abbrev invitation : Invitation
invitation = record { session_id = 1 ∷ []; creator_transport_key = 1 ∷ [] }

abbrev pub answers : Answers
answers = record {
  encode_message = λ m. ok (m.kind ∷ m.sender ∷ m.sequence ∷ []);
  check_invitation = λ _. ok tt;
  key_message = λ _. ok (keys 2 key_offer);
  owns_keys = λ _ _ _. ok tt;
  same_keys = λ _ _. false;
  verifies = λ _ _ _. ok tt;
  valid_reason = λ _. true;
  reduce_hand = λ _ _. err bad_order;
}

abbrev pub event : ℕ → Message → Event
event kind m = record {
  kind = kind;
  session_id = 1 ∷ [];
  observed_at = 1000;
  role = 2;
  invitation = invitation;
  message = m;
  publication = m.kind ∷ m.sender ∷ m.sequence ∷ [];
  failure_code = [];
}

abbrev joined : SetupState
joined = record {
  invitation = invitation;
  role = 2;
  local_keys = keys 2 key_offer;
  peer = none;
  publication = none;
  pending = none;
  next_send = 0;
  next_receive = 0;
  initial = none;
  final = none;
}

abbrev table : ℕ → SetupState → Table
table stage s = record { stage = stage; setup = some s; abort_reason = none }

abbrev offered : SetupState
offered = record joined { next_send = 1 }

abbrev met : SetupState
met = record offered { peer = some (keys 1 key_reply); next_receive = 1 }

abbrev shuffled : SetupState
shuffled = record met {
  initial = some (shuffle 2 initial_shuffle 0);
  pending = some (shuffle 2 initial_shuffle 0);
}

abbrev sent_shuffle : SetupState
sent_shuffle = record shuffled { pending = none; next_send = 2 }

abbrev ready : SetupState
ready = record sent_shuffle { final = some (shuffle 1 final_shuffle 1300); next_receive = 2 }

-- The bytes that were published last
abbrev holding_bytes : List ℕ → SetupState → SetupState
holding_bytes b s = record s { publication = some b }

ready_Reach : Reach answers (table 11 ready)
unfolding reduce_setup
ready_Reach =
    next {g = table 10 sent_shuffle} (event message_received (shuffle 1 final_shuffle 1300))
      (next {g = table 6 (holding_bytes (3 ∷ 2 ∷ 1 ∷ []) shuffled)}
        (event message_published (shuffle 2 initial_shuffle 0))
        (next {g = table 6 shuffled} (event publication_prepared (shuffle 2 initial_shuffle 0))
          (next {g = table 5 met} (event message_prepared (shuffle 2 initial_shuffle 0))
            (next {g = table 3 offered} (event message_received (keys 1 key_reply))
              (next {g = table 2 (holding_bytes (1 ∷ 2 ∷ 0 ∷ []) joined)}
                (event message_published (keys 2 key_offer))
                (next {g = table 2 joined} (event publication_prepared (keys 2 key_offer))
                  (next {g = table 1 joined} (event session_opened (keys 2 key_offer))
                    (next {g = empty_table} (event session_prepared (keys 2 key_offer)) start
                      (omega arith) refl)
                    (omega arith) refl)
                  (omega arith) refl)
                (omega arith) refl)
              (omega arith) refl)
            (omega arith) refl)
          (omega arith) refl)
        (omega arith) refl)
      (omega arith) refl

Reach-IsOrdered_example : IsOrdered (table 11 ready)
Reach-IsOrdered_example = Reach-IsOrdered answers (table 11 ready) ready_Reach
