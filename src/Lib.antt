-- ===== src/Lib.antt =====
-- Arkade Poker: two players play a hand of Texas hold'em inside a covenant on Bitcoin's Ark.
--
-- The program. internal/covenant holds the contract: a State (phase, last betting action, wagers,
-- deadline and 18 published decryption shares) that travels in the packets of each spend, the builders
-- of the successor spends, and the settlements that end a hand. internal/game is the client of a
-- player: it admits what the opponent has spent by computing the successor it expects and comparing.
-- internal/shuffle proves the shares, internal/merkel the ranks of hands; internal/wallet,
-- internal/nostr, internal/storage and internal/ui surround them.
--
-- The files.
-- Prelude - results with the program's errors, integers of 64 bits, lists, byte buffers and Boolean
--   tests.
-- Covenant/Types - the constants and structs of packets.go, contract.go, actions.go and scripts.go
--   of internal/covenant. A Go enum is the number it has in Go, since the code does arithmetic on it.
-- Covenant/Phase - Phase.Encode, DecodePhase and RequiredActor (packets.go).
-- Covenant/Amounts - addAmount and validateFunding (sources.go), validateAmounts (program.go) and
--   Terms.Validate (internal/game/setup.go).
-- Covenant/Betting - Bet (action_betting.go), as bet_next on states.
-- Covenant/Reveals - publishReveals and the reveal actions (action_reveals.go), the opening of
--   action_betting.go and the funding of action_build.go, as functions on states.
-- Covenant/Live - the seven live actions as one step relation (Action) and the states of a hand
--   (Reach); below it the invariant, its preservation, progress and termination.
-- Covenant/Packets - EncodeState, DecodeState, ReadState, readHeader, ActionExtension (packets.go).
-- Covenant/Build - the builders of action_build.go, action_betting.go and action_reveals.go, which
--   read the predecessor, step and assemble the outputs.
-- Covenant/Terminal - Concession, Timeout and Showdown (action_terminal.go).
-- Game/Slots - the slots and reveal kind of a phase (internal/game/cards.go).
-- Game/Admission - the expected successor of admitSpend (internal/game/admission.go).
-- Game/Stage - the stages and actions of a client, routeHand, actionPermitted and settlementEligible
--   (internal/game/reduce.go, hand.go, hand_reduce.go).
-- Game/Choice - validateInput, decideHandEffect, handChoice and RequiredFunding (internal/game/decide.go,
--   hand_decide.go).
-- Game/Setup - reduceSetup and mayAbort (internal/game/reduce.go) and the admission of the setup's
--   messages (internal/game/setup_admission.go); below it what every stage has exchanged.
-- Game/Hand - reduceHand, buildAction, savedAction, sameSaved and openingHand (internal/game/hand_reduce.go)
--   and serializeBuild (hand.go); below it the work, the hand and the submissions of a client.
-- Game/Codec - the encoder, the decoder, EncodeMessage, DecodeMessage and the binary form of an invitation
--   (internal/game/codec.go), its shared form (invitation.go), validateRelay (setup.go), and
--   the codecs of saved spends, showdowns, accepted transactions and receipts (hand_codec.go) with
--   dealOrder and dealFrom (cards.go).
-- Game/Journal - ApplyContext (internal/game/reduce.go), CheckWallet (events.go), loadJournal and append
--   (journal.go) and the comparison at the end of DecodeEvent (event_codec.go), for any payloads of the
--   events and any reducer; below it what a restart finds.
-- Merkel/Cards, Merkel/Strength, Merkel/Ranks - validate, strength, rankTable, Rank5 and Rank7
--   (internal/merkel/ranking.go) and Describe (describe.go).
-- Merkel/Combinations - choose, combinationIndex and combinationAt (ranking.go).
-- Merkel/Tree - proofs, their verification, the cache's check, Generate and Evaluate (proof.go).
-- Wallet/Records - the indexer's records (internal/ports/indexer.go), checkOutput and Balance
--   (internal/wallet/indexer.go, balance.go).
-- Wallet/Funding - SelectFunding (internal/wallet/funding.go).
-- Storage/Records - frame and unframe (internal/storage/record.go).
-- Samples and Tests - concrete inputs, and the theorems applied to them.
--
-- Numbers. A Go uint64 is a natural number below 2^64 and arithmetic on it is reduced where it can
-- wrap; an int64 is an integer, wrapped to 64 bits by int64 and sub_int64. Amounts stay below 21
-- million bitcoin, by the checks of the code. An array of fixed size is a list; its length is stated
-- where a theorem needs it. Loops run over a list, or over a number of rounds that the code states.
-- The one fuel is that of the search for a card in Merkel/Combinations: 256 rounds, one for each byte,
-- which is enough for every index of seven cards.
--
-- Parameters. The extension library of Ark packets (ArkLib) and the card reveals of internal/shuffle
-- (CardLib) are arguments of the definitions that use them, and so are SHA-256 with the tags and the
-- cached levels of the tree, the answers of the shuffle, the codec and the hand's reducer during setup
-- (Answers), the builders, admissions and encoders that the reducer of a hand calls (Builders, Parts),
-- the codecs of internal/shuffle, of a spend's funding and witnesses, and base64 (Crypto, SpendParts, Outside), the
-- encoding of an event, its parser, the reducer of a game's events (Machine) and the storage's answers
-- to the journal, the indexer's answers and the wallet's spending path; a Contract carries its
-- script, its programs and its payout scripts as data, since their compilation is the work of other
-- libraries.
--
-- Not modelled. The scripts that the emulator runs (program_*.go), the assembly and signing of PSBTs,
-- the derivation of contract keys, the cryptography of internal/shuffle, the codecs of events, of
-- fundings and of reveals, the driver of the client, transport, the files of the storage, the services of the wallet,
-- user interface and input and output of any kind.
pub mod Prelude
pub mod Covenant
pub mod Game
pub mod Merkel
pub mod Wallet
pub mod Storage
pub mod Samples
mod Tests
