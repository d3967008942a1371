-- ===== src/Game/Setup.antt =====
-- The setup of a hand in internal/game: reduceSetup and mayAbort of reduce.go, checkMessageContext, validateKeys,
-- admitPeer, admitShuffle and deadlineWindow of setup_admission.go. What the shuffle, the message codec, the
-- configuration and the secrets answer, and the reducer of a funded hand, are parameters.
pub mod Order
pub mod Reached
use arkade_poker.Prelude.{
  ℕ, ◌+◌, ◌-◌, Bool, true, false, not, ◌&&◌, ◌||◌, Option, none, some, ltb, leb, ◌==◌,
  if◌then◌else◌, max_uint64, Result, Error, ok, err, ◌>>=◌, ◌>>◌, reject, guard, or_fail, protocol,
  bad_input, bad_order, bad_deadline,
}
use arkade_poker.Covenant.Types.{Bytes}
use arkade_poker.Covenant.Amounts.{bytes_eq}
use arkade_poker.Game.Stage.{
  stage_session_prepared, stage_initial_deposit, stage_await_initial_deposit, stage_aborted,
  stage_player1_funding,
}

-- Stage, from StagePlayer2KeysPrepared to StageAwaitFinalShuffle
abbrev pub stage_player2_keys_prepared : ℕ
stage_player2_keys_prepared = 2

abbrev pub stage_await_opponent_keys : ℕ
stage_await_opponent_keys = 3

abbrev pub stage_player1_keys_prepared : ℕ
stage_player1_keys_prepared = 4

abbrev pub stage_initial_shuffle : ℕ
stage_initial_shuffle = 5

abbrev pub stage_initial_shuffle_prepared : ℕ
stage_initial_shuffle_prepared = 6

abbrev pub stage_await_initial_shuffle : ℕ
stage_await_initial_shuffle = 7

abbrev pub stage_final_shuffle : ℕ
stage_final_shuffle = 8

abbrev pub stage_final_shuffle_prepared : ℕ
stage_final_shuffle_prepared = 9

abbrev pub stage_await_final_shuffle : ℕ
stage_await_final_shuffle = 10

-- EventKind
abbrev pub configured : ℕ
configured = 1

abbrev pub session_prepared : ℕ
session_prepared = 2

abbrev pub message_prepared : ℕ
message_prepared = 3

abbrev pub message_published : ℕ
message_published = 4

abbrev pub message_received : ℕ
message_received = 5

abbrev pub session_opened : ℕ
session_opened = 11

abbrev pub setup_aborted : ℕ
setup_aborted = 12

abbrev pub publication_prepared : ℕ
publication_prepared = 17

abbrev pub initial_funding_timeout : ℕ
initial_funding_timeout = 300

-- MessageKind
abbrev pub key_offer : ℕ
key_offer = 1

abbrev pub key_reply : ℕ
key_reply = 2

abbrev pub initial_shuffle : ℕ
initial_shuffle = 3

abbrev pub final_shuffle : ℕ
final_shuffle = 4

-- A message, cut down to what the reducer reads; `body` stands for the rest of it.
pub record Message : Type 0 where
  pub kind : ℕ
  pub session_id : Bytes
  pub sender : ℕ
  pub identity : Bytes
  pub sequence : ℕ
  pub initial_deadline : ℕ
  pub body : Bytes

pub record Invitation : Type 0 where
  pub session_id : Bytes
  pub creator_transport_key : Bytes

pub record SetupState : Type 0 where
  pub invitation : Invitation
  pub role : ℕ
  pub local_keys : Message
  pub peer : Option Message
  pub publication : Option Bytes
  pub pending : Option Message
  pub next_send : ℕ
  pub next_receive : ℕ
  pub initial : Option Message
  pub final : Option Message

-- An event, with the payloads of its kind.
pub record Event : Type 0 where
  pub kind : ℕ
  pub session_id : Bytes
  pub observed_at : ℕ
  pub role : ℕ
  pub invitation : Invitation
  pub message : Message
  pub publication : Bytes
  pub failure_code : Bytes

-- A client's game during setup
pub record Table : Type 0 where
  pub stage : ℕ
  pub setup : Option SetupState
  pub abort_reason : Option Bytes

-- The answers of the parts that the reducer calls.
pub record Answers : Type 0 where
  pub encode_message : Message → Result Bytes
  pub check_invitation : Invitation → Result (Unit {0})
  pub key_message : Event → Result Message
  pub owns_keys : Invitation → Message → ℕ → Result (Unit {0})
  pub same_keys : Message → Message → Bool
  pub verifies : SetupState → Message → Bool → Result (Unit {0})
  pub valid_reason : Bytes → Bool
  pub reduce_hand : Table → Event → Result Table

abbrev pub other : ℕ → ℕ
other role = if role == 1 then 2 else 1

-- `if err != nil { return failure }`
abbrev pub instead {ℓ} : {Value : Type ℓ} → Result Value → Error → Result Value
instead (ok v) failure = ok v
instead (err _) failure = err failure

abbrev pub present : Option Bytes → Bool
present none = false
present (some _) = true

abbrev pub is_prepared : ℕ → Bool
is_prepared stage =
    stage == stage_player2_keys_prepared
    || (stage == stage_player1_keys_prepared
        || (stage == stage_initial_shuffle_prepared || stage == stage_final_shuffle_prepared))

-- deadlineWindow
unfoldable pub deadline_window : ℕ → ℕ → Result (Unit {0})
deadline_window now deadline =
    reject
      (ltb (max_uint64 - (initial_funding_timeout + 30)) now
        || (ltb deadline (now + 30) || ltb (now + (initial_funding_timeout + 30)) deadline))
      bad_deadline

abbrev pub after_published : ℕ → ℕ
after_published stage =
    if stage == stage_player2_keys_prepared
    then stage_await_opponent_keys
    else (if stage == stage_player1_keys_prepared
        then stage_await_initial_shuffle
        else (if stage == stage_initial_shuffle_prepared
            then stage_await_final_shuffle
            else stage_await_initial_deposit))

module _ (answers : Answers) where
  abbrev encodes : Message → Result (Unit {0})
  encodes m = answers.encode_message m >>= (λ _. ok tt)

  abbrev same_message : Message → Message → Bool
  same_message a b = same (answers.encode_message a) (answers.encode_message b)
    where
      same : Result Bytes → Result Bytes → Bool
      same (ok x) (ok y) = bytes_eq x y
      same (ok x) (err f) = false
      same (err e) y = false

  -- checkMessageContext, where `identity` is the sender's, if it is known
  unfoldable pub check_message_context : Invitation → Message → ℕ → Option Bytes → Result (Unit {0})
  check_message_context inv m role identity = do
    encodes m
    reject
        (not (bytes_eq m.session_id inv.session_id) || (not (m.sender == role) || unlike identity))
        protocol
    reject (role == 1 && not (bytes_eq m.identity inv.creator_transport_key)) protocol
    reject (role == 2 && (unknown identity && (not (m.sequence == 0) || not (m.kind == key_offer))))
        protocol
    where
      unlike : Option Bytes → Bool
      unlike none = false
      unlike (some i) = not (bytes_eq m.identity i)

      unknown : Option Bytes → Bool
      unknown none = true
      unknown (some _) = false

  unfoldable pub validate_keys : Invitation → Message → ℕ → Option Bytes → Result (Unit {0})
  unfolding check_message_context
  validate_keys inv m role identity = do
    check_message_context inv m role identity
    reject (not (m.kind == (if role == 1 then key_reply else key_offer)) || not (m.sequence == 0))
        protocol
    answers.owns_keys inv m role

  unfoldable pub admit_peer : SetupState → Message → Result SetupState
  unfolding validate_keys
  admit_peer s m = do
    validate_keys s.invitation m (other s.role) none
    guard (m.sequence == s.next_receive) bad_order
    reject (bytes_eq m.identity s.local_keys.identity || answers.same_keys m s.local_keys) protocol
    ok (record s { peer = some m; next_receive = s.next_receive + 1 })

  unfoldable pub admit_shuffle : SetupState → Message → Bool → Result SetupState
  admit_shuffle s m last =
      if last
      then (do
        reject (not (m.kind == final_shuffle) || not (m.sender == 1)) protocol
        answers.verifies s m true
        ok (record s { final = some m }))
      else (do
        reject (not (m.kind == initial_shuffle) || not (m.sender == 2)) protocol
        answers.verifies s m false
        ok (record s { initial = some m }))

  unfoldable pub may_abort : Table → Bytes → Bool
  may_abort g reason =
      answers.valid_reason reason
      && ((leb stage_session_prepared g.stage && leb g.stage stage_await_initial_deposit)
          || g.stage == stage_player1_funding)

  -- The message that is to be published
  unfoldable pub pending_message : Table → SetupState → Result Message
  pending_message g s =
      if g.stage == stage_player2_keys_prepared || g.stage == stage_player1_keys_prepared
      then (encodes s.local_keys >> ok s.local_keys)
      else (if g.stage == stage_initial_shuffle_prepared || g.stage == stage_final_shuffle_prepared
          then (or_fail s.pending bad_input >>= (λ m. encodes m >> ok m))
          else err bad_input)

  unfoldable pub publication_next : Table → SetupState → Event → Result Table
  unfolding pending_message
  publication_next g s e = do
    m ← instead (pending_message g s) bad_order
    reject (present s.publication) bad_order
    payload ← instead (answers.encode_message m) protocol
    guard (bytes_eq payload e.publication) protocol
    ok (record g { setup = some (record s { publication = some e.publication }) })

  unfoldable pub prepare_session : Table → Event → Result Table
  unfolding validate_keys
  prepare_session g e = do
    guard (e.kind == session_prepared && bytes_eq e.session_id e.invitation.session_id) bad_input
    answers.check_invitation e.invitation
    local ← answers.key_message e
    guard (same_message local e.message) protocol
    validate_keys e.invitation local e.role (some local.identity)
    ok (record g {
      stage = stage_session_prepared;
      setup = some (record {
        invitation = e.invitation;
        role = e.role;
        local_keys = local;
        peer = none;
        publication = none;
        pending = none;
        next_send = 0;
        next_receive = 0;
        initial = none;
        final = none;
      });
    })

  unfoldable pub open_session : Table → SetupState → Event → Result Table
  open_session g s e = do
    guard (e.kind == session_opened) bad_input
    ok (record g {
      stage = if s.role == 1 then stage_await_opponent_keys else stage_player2_keys_prepared;
    })

  unfoldable pub publish_message : Table → SetupState → Event → Result Table
  publish_message g s e = do
    guard (e.kind == message_published && present s.publication) bad_input
    reject
        (not (same_message (expected s.pending) e.message)
          || (not (e.message.sequence == s.next_send) || s.next_send == max_uint64))
        bad_order
    ok (record g {
      stage = after_published g.stage;
      setup = some (record s { next_send = s.next_send + 1; pending = none; publication = none });
    })
    where
      expected : Option Message → Message
      expected none = s.local_keys
      expected (some m) = m

  unfoldable pub receive_keys : Table → SetupState → Event → Result Table
  unfolding admit_peer
  receive_keys g s e = do
    guard (e.kind == message_received) bad_input
    t ← admit_peer s e.message
    ok (record g {
      stage = if s.role == 1 then stage_player1_keys_prepared else stage_initial_shuffle;
      setup = some t;
    })

  unfoldable pub prepare_shuffle : Table → SetupState → Event → Result Table
  unfolding admit_shuffle check_message_context
  prepare_shuffle g s e = do
    guard (e.kind == message_prepared) bad_input
    check_message_context s.invitation e.message s.role (some s.local_keys.identity)
    guard (e.message.sequence == s.next_send) bad_order
    t ← admit_shuffle s e.message (g.stage == stage_final_shuffle)
    ok (record g {
      stage =
          if g.stage == stage_final_shuffle
          then stage_final_shuffle_prepared
          else stage_initial_shuffle_prepared;
      setup = some (record t { pending = some e.message });
    })

  unfoldable pub receive_shuffle : Table → SetupState → Event → Result Table
  unfolding admit_shuffle check_message_context deadline_window
  receive_shuffle g s e = do
    guard (e.kind == message_received) bad_input
    peer ← or_fail s.peer bad_input
    check_message_context s.invitation e.message (other s.role) (some peer.identity)
    reject (not (e.message.sequence == s.next_receive) || s.next_receive == max_uint64) bad_order
    (if g.stage == stage_await_final_shuffle
        then deadline_window e.observed_at e.message.initial_deadline
        else ok tt)
    t ← admit_shuffle s e.message (g.stage == stage_await_final_shuffle)
    ok (record g {
      stage =
          if g.stage == stage_await_final_shuffle
          then stage_initial_deposit
          else stage_final_shuffle;
      setup = some (record t { next_receive = s.next_receive + 1 });
    })

  -- The `switch` of reduceSetup, on a game that has a setup
  unfoldable pub setup_next : Table → SetupState → Event → Result Table
  unfolding open_session publish_message receive_keys prepare_shuffle receive_shuffle
  setup_next g s e =
      if g.stage == stage_session_prepared
      then open_session g s e
      else (if is_prepared g.stage
          then publish_message g s e
          else (if g.stage == stage_await_opponent_keys
              then receive_keys g s e
              else (if g.stage == stage_initial_shuffle || g.stage == stage_final_shuffle
                  then prepare_shuffle g s e
                  else (if g.stage == stage_await_initial_shuffle
                        || g.stage == stage_await_final_shuffle
                      then receive_shuffle g s e
                      else answers.reduce_hand g e))))

  -- An event of a setup, by whether there is one.
  unfoldable pub reduce_in : Table → Event → Option SetupState → Result Table
  unfolding publication_next prepare_session setup_next
  reduce_in g e none =
      if e.kind == publication_prepared
      then err bad_order
      else (if g.stage == 0 then prepare_session g e else err bad_input)
  reduce_in g e (some s) =
      if e.kind == publication_prepared
      then publication_next g s e
      else (if g.stage == 0 then prepare_session g e else setup_next g s e)

  -- reduceSetup, after the first event of the log
  unfoldable pub reduce_setup : Table → Event → Result Table
  unfolding reduce_in may_abort
  reduce_setup g e =
      if e.kind == configured
      then err bad_order
      else (if e.kind == setup_aborted
          then (guard (may_abort g e.failure_code) bad_input
              >> ok (record g { stage = stage_aborted; abort_reason = some e.failure_code }))
          else reduce_in g e g.setup)
