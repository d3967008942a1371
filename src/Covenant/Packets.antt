-- ===== src/Covenant/Packets.antt =====
-- internal/covenant/packets.go: a live state as the four poker packets of a transaction's ARK
-- extension. The extension library and the emulator's packet are parameters.
pub mod Slots
pub mod Header
pub mod RoundTrip
use arkade_poker.Prelude.{
  ℕ, zero, suc, ◌+◌, ◌-◌, Bool, true, false, ◌&&◌, List, [], ◌∷◌, ◌++◌, Option, none, some, ltb,
  leb, ◌==◌, if◌then◌else◌, length, get_elem?, set, replicate, put, slice, le_bytes, le_value,
  Result, ok, err, ◌>>=◌, ◌>>◌, guard, reject, or_fail, bad_action, bad_packet, missing_packet,
  bad_version, bad_extension,
}
use arkade_poker.Covenant.Types.{Bytes, State, MsgTx, TxOut, Packet, last_raise}
use arkade_poker.Covenant.Phase.{encode_phase, decode_phase}

-- The libraries that the package calls.
pub record ArkLib : Type 0 where
  pub checked : List Packet → Option (List Packet)  -- extension.NewExtensionFromPackets
  pub from_tx : MsgTx → Option (List Packet)  -- extension.NewExtensionFromTx
  pub tx_out : List Packet → Option TxOut  -- Extension.TxOut
  -- An emulator packet with one entry, for a program and its witness, within the limits.
  pub emulator_packet : Bytes → List Bytes → Option Packet
  pub emulator_type : ℕ  -- arkade.PacketType

abbrev pub type_state : ℕ
type_state = 0x20

abbrev pub header_len : ℕ
header_len = 60

-- Packet and offset of each reveal slot.
abbrev pub reveal_locations : List (ℕ × ℕ)
reveal_locations =
    (1, 0)
    ∷ (1, 64)
    ∷ (1, 128)
    ∷ (1, 192)
    ∷ (2, 0)
    ∷ (2, 64)
    ∷ (2, 128)
    ∷ (3, 0)
    ∷ (3, 64)
    ∷ (3, 128)
    ∷ (2, 192)
    ∷ (3, 192)
    ∷ (2, 256)
    ∷ (3, 256)
    ∷ (2, 320)
    ∷ (2, 384)
    ∷ (3, 320)
    ∷ (3, 384)
    ∷ []

-- `copy(payloads[k][offset:], chunk)`
unfoldable pub put_at : List Bytes → ℕ × ℕ → Bytes → List Bytes
put_at [] (k, offset) chunk = []
put_at (b ∷ bs) (zero, offset) chunk = put b offset chunk ∷ bs
put_at (b ∷ bs) (suc k, offset) chunk = b ∷ put_at bs (k, offset) chunk

unfoldable pub write_reveals : List (ℕ × ℕ) → List Bytes → List Bytes → List Bytes
write_reveals [] chunks payloads = payloads
write_reveals (loc ∷ locs) [] payloads = payloads
write_reveals (loc ∷ locs) (c ∷ cs) payloads = write_reveals locs cs (put_at payloads loc c)

abbrev pub nth : List Bytes → ℕ → Bytes
nth [] k = []
nth (b ∷ bs) zero = b
nth (b ∷ bs) (suc k) = nth bs k

unfoldable pub read_reveals : List (ℕ × ℕ) → List Bytes → List Bytes
read_reveals [] records = []
read_reveals ((k, offset) ∷ locs) records =
    slice (nth records k) offset 64 ∷ read_reveals locs records

-- The 60 bytes of the header.
unfoldable pub encode_header : State → ℕ → Bytes
encode_header s phase =
    let h0 = put (replicate header_len 0) 0 (le_bytes 2 1) in
    let h1 = put h0 2 s.contract_id in
    let h2 = put h1 34 (phase ∷ []) in
    let h3 = put h2 35 (s.last_action ∷ []) in
    let h4 = put h3 36 (le_bytes 8 s.wager1) in
    let h5 = put h4 44 (le_bytes 8 s.wager2) in put h5 52 (le_bytes 8 s.deadline)

abbrev pub to_packets : ℕ → List Bytes → List Packet
to_packets t [] = []
to_packets t (b ∷ bs) = record { packet_type = t; payload = b } ∷ to_packets (suc t) bs

abbrev pub blank_payloads : Bytes → List Bytes
blank_payloads header = header ∷ replicate 256 0 ∷ replicate 448 0 ∷ replicate 448 0 ∷ []

unfoldable pub encode_state : State → Result (List Packet)
encode_state s = do
  phase ← encode_phase s.phase
  reject (ltb last_raise s.last_action) bad_action
  ok (
      to_packets type_state
        (write_reveals reveal_locations s.reveals (blank_payloads (encode_header s phase))))

-- The byte at an offset of a header that is long enough.
abbrev byte_at : Bytes → ℕ → ℕ
byte_at h offset = le_value (slice h offset 1)

abbrev set_record : List (Option Bytes) → ℕ → Bytes → List (Option Bytes)
set_record records i b = set records i (some b)

-- The records by type; a later packet of a type replaces an earlier one.
unfoldable pub sort_packets : ℕ → List Packet → List (Option Bytes) → Result (List (Option Bytes))
sort_packets emulator [] records = ok records
sort_packets emulator (p ∷ rest) records =
    if leb type_state p.packet_type && leb p.packet_type 0x23
    then sort_packets emulator rest (set_record records (p.packet_type - type_state) p.payload)
    else elim (p.packet_type == emulator) [
      | true ↦ sort_packets emulator rest records
      | false ↦ err bad_packet
    ]

no_records : List (Option Bytes)
no_records = none ∷ none ∷ none ∷ none ∷ []

-- Each record is there and has its size.
unfoldable pub sized_records : List ℕ → List (Option Bytes) → Result (List Bytes)
sized_records [] records = ok []
sized_records (n ∷ ns) [] = err missing_packet
sized_records (n ∷ ns) (none ∷ rest) = err missing_packet
sized_records (n ∷ ns) (some b ∷ rest) = do
  guard (length b == n) bad_packet
  more ← sized_records ns rest
  ok (b ∷ more)

unfoldable pub decode_records : List Bytes → Result State
decode_records records = do
  let h = nth records 0
  guard (le_value (slice h 0 2) == 1) bad_version
  phase ← decode_phase (byte_at h 34)
  reject (ltb last_raise (byte_at h 35)) bad_action
  ok (record {
    contract_id = slice h 2 32;
    phase = phase;
    last_action = byte_at h 35;
    wager1 = le_value (slice h 36 8);
    wager2 = le_value (slice h 44 8);
    deadline = le_value (slice h 52 8);
    reveals = read_reveals reveal_locations records;
  })

module _ (lib : ArkLib) where
  unfoldable pub poker_records : List Packet → Result (List (Option Bytes))
  unfolding no_records
  poker_records packets = do
    all ← or_fail (lib.checked packets) bad_extension
    sort_packets lib.emulator_type all no_records

  unfoldable pub decode_state : List Packet → Result State
  decode_state packets = do
    records ← poker_records packets
    payloads ← sized_records (header_len ∷ 256 ∷ 448 ∷ 448 ∷ []) records
    decode_records payloads

  unfoldable pub read_state : MsgTx → Result State
  read_state previous = do
    packets ← or_fail (lib.from_tx previous) bad_extension
    decode_state packets

  unfoldable pub read_header : MsgTx → Result Bytes
  read_header previous = do
    packets ← or_fail (lib.from_tx previous) bad_extension
    records ← poker_records packets
    first ← or_fail (get_elem? records 0) missing_packet
    or_fail first missing_packet

  abbrev emulator_entry : Option (Bytes × List Bytes) → Result (List Packet)
  emulator_entry none = ok []
  emulator_entry (some (program, witness)) = do
    p ← or_fail (lib.emulator_packet program witness) bad_extension
    ok (p ∷ [])

  abbrev successor_packets : Option State → Result (List Packet)
  successor_packets none = ok []
  successor_packets (some s) = encode_state s

  -- ActionExtension: the emulator entry first, then the state packets.
  unfoldable pub action_extension :
      Option State → Option (Bytes × List Bytes) → Result (List Packet)
  action_extension successor entry = do
    first ← emulator_entry entry
    next ← successor_packets successor
    or_fail (lib.checked (first ++ next)) bad_extension
