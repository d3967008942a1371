-- ===== src/Tests/Journal.antt =====
-- A log of two events, the second of which is written by an append that fails.
use arkade_poker.Prelude.{
  ℕ, ◌==◌, ◌-◌, if◌then◌else◌, refl, [], ◌∷◌, Option, none, some, ok, err, Result, true, false,
  replicate, bad_packet,
}
use arkade_poker.Covenant.Types.{Bytes}
use arkade_poker.Game.Setup.{Event, SetupState, Table, reduce_setup, key_offer}
use arkade_poker.Game.Setup.Reached.{empty_table}
use arkade_poker.Game.Journal.{
  Entry, Machine, Journal, decode_event, durable, failed_written, load_journal, append, new_chain,
}
use arkade_poker.Game.Journal.Recovery.{Lived, loaded, appended, IsRecoverable, Lived-IsRecoverable}
use arkade_poker.Tests.Setup.{answers, event, keys}

-- The first event configures the game and the second prepares its session; the payload is the setup's event.
abbrev entry : ℕ → Entry Event
entry n = record {
  session_id = if n == 0 then replicate 32 0 else 1 ∷ [];
  sequence = n;
  previous = if n == 0 then 7 ∷ 4 ∷ [] else 7 ∷ (n - 1) ∷ [];
  kind = if n == 0 then 1 else 2;
  config = none;
  payload = record (event (if n == 0 then 1 else 2) (keys 2 key_offer)) {
    session_id = if n == 0 then replicate 32 0 else 1 ∷ [];
  };
}

abbrev parse : Bytes → Result (Entry Event)
parse [] = err bad_packet
parse (n ∷ rest) = ok (entry n)

abbrev session_of_table : Option SetupState → Option Bytes
session_of_table none = none
session_of_table (some s) = some s.invitation.session_id

-- The log of a setup
abbrev machine : Machine Event Table
machine = record {
  public = 4 ∷ [];
  digest = λ b. 7 ∷ b;
  start = empty_table;
  session = λ t. session_of_table t.setup;
  reduce_event = λ t e. reduce_setup answers t e.payload;
  encode = λ e. ok (e.sequence ∷ []);
  parse = parse;
}

abbrev fresh : Journal Table
fresh = record { game = new_chain machine; failed = false }

abbrev configured_journal : Journal Table
configured_journal = record {
  game = record { state = empty_table; next_event = 1; previous = 7 ∷ 0 ∷ [] };
  failed = false;
}

abbrev stopped : Journal Table
stopped = record configured_journal { failed = true }

stopped-Lived : Lived machine stopped ((0 ∷ []) ∷ (1 ∷ []) ∷ [])
unfolding append load_journal reduce_setup decode_event
stopped-Lived =
    appended {j = configured_journal} {records = (0 ∷ []) ∷ []} (entry 1)
      (failed_written bad_packet) (err bad_packet)
      (appended {j = fresh} {records = []} (entry 0) durable (ok tt) (loaded [] refl) refl) refl

Lived-IsRecoverable_example : IsRecoverable machine stopped ((0 ∷ []) ∷ (1 ∷ []) ∷ [])
Lived-IsRecoverable_example =
    Lived-IsRecoverable machine stopped ((0 ∷ []) ∷ (1 ∷ []) ∷ []) stopped-Lived
