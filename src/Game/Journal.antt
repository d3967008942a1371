-- ===== src/Game/Journal.antt =====
-- The log of a game in internal/game: ApplyContext of reduce.go, CheckWallet and walletBinding of events.go, and
-- loadJournal and append of journal.go, for any reducer, and the comparison with which DecodeEvent of event_codec.go
-- ends. The payloads, the reducer of the events after the first, the encoding of an event, its parser, the digest and
-- the storage are parameters.
pub mod Recovery
use arkade_poker.Prelude.{
  ℕ, ◌+◌, Bool, true, false, not, ◌&&◌, ◌||◌, List, [], ◌∷◌, ◌++◌, Option, none, some, ◌==◌,
  if◌then◌else◌, max_uint64, replicate, Result, Error, ok, err, ◌>>=◌, ◌>>◌, reject, guard,
  bad_order, wallet_identity, uncertain, bad_encoding,
}
use arkade_poker.Covenant.Types.{Bytes}
use arkade_poker.Covenant.Amounts.{bytes_eq}
use arkade_poker.Game.Setup.{configured}

-- An event; `payload` holds the fields that depend on its kind, but for `config`, which is the wallet key and the
-- encoding of a legacy configuration.
pub record Entry (Payload : Type 0) : Type 0 where
  pub session_id : Bytes
  pub sequence : ℕ
  pub previous : Bytes
  pub kind : ℕ
  pub config : Option (Bytes × Bytes)
  pub payload : Payload

-- A game with its place in the log; `state` is all that the reducer changes, its setup and its hand.
pub record Chain (Game : Type 0) : Type 0 where
  pub state : Game
  pub next_event : ℕ
  pub previous : Bytes

-- What a log is of: the wallet key, the digest, the new game, the session that a game is of once it has a setup, what
-- an event after the first makes of it, and the encoding of an event and the parser of one.
pub record Machine (Payload Game : Type 0) : Type 0 where
  pub public : Bytes
  pub digest : Bytes → Bytes
  pub start : Game
  pub session : Game → Option Bytes
  pub reduce_event : Game → Entry Payload → Result Game
  pub encode : Entry Payload → Result Bytes
  pub parse : Bytes → Result (Entry Payload)

pub record Journal (Game : Type 0) : Type 0 where
  pub game : Chain Game
  pub failed : Bool

-- What an append of the storage does: it is durable, or fails and has written the record or not.
pub data Outcome : Type 0 where
  durable : Outcome
  failed_written : Error → Outcome
  failed_unwritten : Error → Outcome

module _ {Payload Game : Type 0} (m : Machine Payload Game) where
  -- DecodeEvent: what is parsed is of the one encoding that the event has.
  unfoldable pub decode_event : Bytes → Result (Entry Payload)
  decode_event bytes = do
    e ← m.parse bytes
    b ← m.encode e
    guard (bytes_eq b bytes) bad_encoding
    ok e

  -- CheckWallet; the domain of the digest is left to `digest`.
  unfoldable pub check_wallet : Entry Payload → Result (Unit {0})
  check_wallet e = guard (e.kind == configured) bad_order >> elim e.config [
    | some c ↦ guard (bytes_eq c.0 m.public) wallet_identity
    | none ↦ guard (bytes_eq e.previous (m.digest m.public)) wallet_identity
  ]

  abbrev pub new_chain : Chain Game
  new_chain = record { state = m.start; next_event = 0; previous = m.digest m.public }

  -- The session of the game, or of the event before the game has one
  abbrev pub session_of : Chain Game → Entry Payload → Bytes
  session_of g e = elim (m.session g.state) [ none ↦ e.session_id | some session ↦ session ]

  -- The digest that the event must follow
  abbrev pub previous_of : Chain Game → Entry Payload → Result Bytes
  previous_of g e =
      if g.next_event == 0 && e.kind == configured
      then elim e.config [ none ↦ ok g.previous | some c ↦ check_wallet e >> ok (m.digest c.1) ]
      else ok g.previous

  -- How reduceSetup begins
  unfoldable pub reduce : Chain Game → Entry Payload → Result Game
  unfolding check_wallet
  reduce g e =
      if g.next_event == 0
      then (guard (e.kind == configured && bytes_eq e.session_id (replicate 32 0)) bad_order
          >> (check_wallet e >> ok g.state))
      else (reject (e.kind == configured) bad_order >> m.reduce_event g.state e)

  unfoldable pub apply_context : Chain Game → Entry Payload → Result (Chain Game)
  unfolding reduce decode_event
  apply_context g e = do
    previous ← previous_of g e
    reject
        (not (e.sequence == g.next_event)
          || (not (bytes_eq e.previous previous) || g.next_event == max_uint64))
        bad_order
    guard (bytes_eq e.session_id (session_of g e)) bad_order
    encoded ← m.encode e
    owned ← decode_event encoded
    t ← reduce g owned
    ok (record { state = t; next_event = g.next_event + 1; previous = m.digest encoded })

  -- `if i == 0`: the replay starts with a new game.
  abbrev pub first_check : Chain Game → Entry Payload → Result (Unit {0})
  first_check g e = if g.next_event == 0 then check_wallet e else ok tt

  -- The loop of loadJournal
  unfoldable pub replay : Chain Game → List Bytes → Result (Chain Game)
  unfolding apply_context check_wallet decode_event
  replay g [] = ok g
  replay g (record_bytes ∷ rest) = do
    e ← decode_event record_bytes
    first_check g e
    h ← apply_context g e
    replay h rest

  unfoldable pub load_journal : List Bytes → Result (Journal Game)
  unfolding replay
  load_journal records = do g ← replay new_chain records; ok (record { game = g; failed = false })

  -- The storage and the journal after an append, with what it returns.
  abbrev pub stored :
      Journal Game
      → List Bytes
      → Bytes
      → Chain Game
      → Outcome
      → Result (Unit {0}) × Journal Game × List Bytes
  stored j records b g durable = (ok tt, record j { game = g }, records ++ (b ∷ []))
  stored j records b g (failed_written e) = (err e, record j { failed = true }, records ++ (b ∷ []))
  stored j records b g (failed_unwritten e) = (err e, record j { failed = true }, records)

  abbrev pub admitted : Journal Game → Entry Payload → Result (Bytes × Chain Game)
  admitted j e = do
    reject j.failed uncertain
    b ← m.encode e
    owned ← decode_event b
    g ← apply_context j.game owned
    ok (b, g)

  abbrev pub settle :
      Journal Game
      → List Bytes
      → Outcome
      → Result (Bytes × Chain Game)
      → Result (Unit {0}) × Journal Game × List Bytes
  settle j records outcome (err failure) = (err failure, j, records)
  settle j records outcome (ok next) = stored j records next.0 next.1 outcome

  -- journal.append
  unfoldable pub append :
      Journal Game
      → List Bytes
      → Entry Payload
      → Outcome
      → Result (Unit {0}) × Journal Game × List Bytes
  unfolding apply_context decode_event
  append j records e outcome = settle j records outcome (admitted j e)
