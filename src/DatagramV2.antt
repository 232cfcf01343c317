-- ===== src/DatagramV2.antt =====
-- quic/datagram.go and quic/datagramv2.go: the datagrams of the second version, with the type and the
-- session or tracing identity behind the payload. The limits are those of quic/param_unix.go.
pub mod RoundTrip
pub mod Sessions
mod Tests
use shitflared.Prelude.{
  ℕ, ◌+◌, ◌-◌, Bool, true, false, List, [], ◌∷◌, ◌++◌, Option, none, some, length, take, drop, ltb,
  ◌==◌, if◌then◌else◌,
}

abbrev pub max_datagram_frame_size : ℕ
max_datagram_frame_size = 1350

abbrev pub max_datagram_payload_size : ℕ
max_datagram_payload_size = 1280

abbrev pub session_id_len : ℕ
session_id_len = 16

abbrev pub identity_length : ℕ
identity_length = 25

-- The other bytes are no types.
pub data DatagramV2Type : Type 0 where
  udp ip ip_with_trace tracing_span : DatagramV2Type

abbrev pub type_byte : DatagramV2Type → ℕ
type_byte udp = 0
type_byte ip = 1
type_byte ip_with_trace = 2
type_byte tracing_span = 3

-- An identity is its 16 bytes.
pub record Session : Type 0 where
  pub id : List ℕ
  pub payload : List ℕ

pub data Packet : Type 0 where
  raw_packet : (bytes : List ℕ) → Packet
  traced_packet tracing_span_packet : (payload tracing_identity : List ℕ) → Packet

abbrev pub type_of : Packet → DatagramV2Type
type_of (raw_packet bytes) = ip
type_of (traced_packet payload tracing_identity) = ip_with_trace
type_of (tracing_span_packet payload tracing_identity) = tracing_span

abbrev pub payload_of : Packet → List ℕ
payload_of (raw_packet bytes) = bytes
payload_of (traced_packet payload tracing_identity) = payload
payload_of (tracing_span_packet payload tracing_identity) = payload

abbrev pub metadata_of : Packet → List ℕ
metadata_of (raw_packet bytes) = []
metadata_of (traced_packet payload tracing_identity) = tracing_identity
metadata_of (tracing_span_packet payload tracing_identity) = tracing_identity

-- `none` is an error, here and below.
unfoldable pub suffix_metadata : (payload metadata : List ℕ) → Option (List ℕ)
suffix_metadata payload metadata =
    if ltb max_datagram_frame_size (length payload + length metadata)
    then none
    else some (payload ++ metadata)

unfoldable pub suffix_session_id : (id b : List ℕ) → Option (List ℕ)
suffix_session_id id b = suffix_metadata b id

unfoldable pub suffix_type : List ℕ → DatagramV2Type → Option (List ℕ)
suffix_type b type =
    if ltb max_datagram_frame_size (length b + 1) then none else some (b ++ (type_byte type ∷ []))

abbrev pub and_type : DatagramV2Type → Option (List ℕ) → Option (List ℕ)
and_type type none = none
and_type type (some b) = suffix_type b type

-- What is handed to `SendDatagram`.
unfoldable pub send_to_session : Session → Option (List ℕ)
send_to_session s =
    if ltb max_datagram_payload_size (length s.payload)
    then none
    else and_type udp (suffix_session_id s.id s.payload)

unfoldable pub send_packet : Packet → Option (List ℕ)
send_packet pk = and_type (type_of pk) (suffix_metadata (payload_of pk) (metadata_of pk))

-- The last `n` bytes, with what is before them.
abbrev pub split_last : ℕ → List ℕ → Option (List ℕ × List ℕ)
split_last n b =
    if ltb (length b) n then none else some (take (length b - n) b, drop (length b - n) b)

unfoldable pub extract_session_id : List ℕ → Option (List ℕ × List ℕ)
extract_session_id b = split_last session_id_len b

unfoldable pub extract_tracing_identity : List ℕ → Option (List ℕ × List ℕ)
extract_tracing_identity pk = split_last identity_length pk

-- What a datagram is to the channels of sessions and packets.
pub data Demuxed : Type 0 where
  to_session : Session → Demuxed
  to_packets : Packet → Demuxed

abbrev pub session_of : Option (List ℕ × List ℕ) → Option Demuxed
session_of none = none
session_of (some (payload, id)) = some (to_session (record { id = id; payload = payload }))

abbrev pub packet_of : (List ℕ → List ℕ → Packet) → Option (List ℕ × List ℕ) → Option Demuxed
packet_of make none = none
packet_of make (some (payload, identity)) = some (to_packets (make payload identity))

-- `handleSession` and `handlePacket`, by the byte of the type.
unfoldable pub handle_message : List ℕ → (type : ℕ) → Option Demuxed
handle_message msg type =
    if type == 0
    then session_of (extract_session_id msg)
    else if type == 1
    then some (to_packets (raw_packet msg))
    else if type == 2
    then packet_of traced_packet (extract_tracing_identity msg)
    else if type == 3
    then packet_of tracing_span_packet (extract_tracing_identity msg)
    else none

abbrev pub by_type : List ℕ → List ℕ → Option Demuxed
by_type msg [] = none
by_type msg (type ∷ rest) = handle_message msg type

unfoldable pub demux : List ℕ → Option Demuxed
demux msg = by_type (take (length msg - 1) msg) (drop (length msg - 1) msg)
