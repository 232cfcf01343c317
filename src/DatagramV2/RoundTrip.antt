-- ===== src/DatagramV2/RoundTrip.antt =====
-- quic/datagram.go, quic/datagramv2.go: a datagram that is sent is read back.
use shitflared.Prelude.{
  ℕ, ◌+◌, ◌-◌, ◌≤◌, ◌<◌, ◌≡◌, refl, ap, ◌∙◌, Bool, true, false, List, [], ◌∷◌, ◌++◌, Option, none,
  some, length, take, drop, ltb, if◌then◌else◌, arith, length-append, take-append_length,
  drop-append_length,
}
use shitflared.DatagramV2.{
  DatagramV2Type, udp, type_byte, Session, Packet, raw_packet, traced_packet, tracing_span_packet,
  type_of, payload_of, metadata_of, suffix_metadata, suffix_session_id, suffix_type, and_type,
  send_to_session, send_packet, extract_session_id, extract_tracing_identity, to_session,
  to_packets, session_of, packet_of, handle_message, by_type, demux, split_last,
}

append-nil : (xs : List ℕ) → xs ++ [] ≡ xs
append-nil [] = refl
append-nil (x ∷ xs) = ap (λ ys. x ∷ ys) (append-nil xs)

split_last-append :
    (n : ℕ) (xs ys : List ℕ) → length ys ≡ n → split_last n (xs ++ ys) ≡ some (xs, ys)
split_last-append n xs ys h =
    chosen (ltb (length (xs ++ ys)) n) (ground (arith, length-append xs ys, h))
  where
    at : length (xs ++ ys) - n ≡ length xs
    at = omega (arith, length-append xs ys, h)

    cut :
        (take (length (xs ++ ys) - n) (xs ++ ys) ≡ xs)
        × (drop (length (xs ++ ys) - n) (xs ++ ys) ≡ ys)
    cut = (
      ap (λ k. take k (xs ++ ys)) at ∙ take-append_length (length xs) xs ys refl,
      ap (λ k. drop k (xs ++ ys)) at ∙ drop-append_length (length xs) xs ys refl,
    )

    chosen :
        (b : Bool)
        → b ≡ false
        → let split : Option (List ℕ × List ℕ) =
            if b
            then none
            else some (
              take (length (xs ++ ys) - n) (xs ++ ys),
              drop (length (xs ++ ys) - n) (xs ++ ys),
            ) in
          split ≡ some (xs, ys)
    chosen true e = absurd cc
    chosen false e = ap (λ p. some p) (λ i. (cut.0 i, cut.1 i))

demux-append : (msg : List ℕ) (type : ℕ) → demux (msg ++ (type ∷ [])) ≡ handle_message msg type
unfolding demux
demux-append msg type =
    let at : length (msg ++ (type ∷ [])) - 1 ≡ length msg =
      omega (arith, length-append msg (type ∷ [])) in
    ap (λ k. by_type (take k (msg ++ (type ∷ []))) (drop k (msg ++ (type ∷ [])))) at ∙ λ i.
    by_type (take-append_length (length msg) msg (type ∷ []) refl i)
      (drop-append_length (length msg) msg (type ∷ []) refl i)

-- What is put behind a payload that leaves room for it.
suffix_metadata-fits :
    (payload metadata : List ℕ)
    → length payload + length metadata ≤ 1350
    → suffix_metadata payload metadata ≡ some (payload ++ metadata)
unfolding suffix_metadata
suffix_metadata-fits payload metadata h =
    let fits : ltb 1350 (length payload + length metadata) ≡ false = ground (arith, h) in
    rw fits refl

suffix_type-fits :
    (b : List ℕ) (type : DatagramV2Type)
    → length b < 1350
    → suffix_type b type ≡ some (b ++ (type_byte type ∷ []))
unfolding suffix_type
suffix_type-fits b type h =
    let fits : ltb 1350 (length b + 1) ≡ false = ground (arith, h) in rw fits refl

-- A session's datagram of at most 1280 bytes is sent, and read back as it was.
pub demux-send_to_session :
    (s : Session)
    → length s.id ≡ 16
    → length s.payload ≤ 1280
    → (msg : List ℕ) × ((send_to_session s ≡ some msg) × (demux msg ≡ some (to_session s)))
unfolding send_to_session suffix_session_id handle_message extract_session_id
demux-send_to_session s ids h = (
  (s.payload ++ s.id) ++ (0 ∷ []),
  (
    sent,
    demux-append (s.payload ++ s.id) 0 ∙ ap session_of (split_last-append 16 s.payload s.id ids),
  ),
)
  where
    short : ltb 1280 (length s.payload) ≡ false
    short = ground (arith, h)

    sent : send_to_session s ≡ some ((s.payload ++ s.id) ++ (0 ∷ []))
    sent =
        rw (short, send_to_session)
          (ap (and_type udp) (suffix_metadata-fits s.payload s.id (omega (arith, ids, h)))
            ∙ suffix_type-fits (s.payload ++ s.id) udp
                (omega (arith, length-append s.payload s.id, ids, h)))

-- The metadata of the packet has its length.
abbrev pub HasIdentity : Packet → Type 0
HasIdentity (raw_packet bytes) = Unit
HasIdentity (traced_packet payload tracing_identity) = length tracing_identity ≡ 25
HasIdentity (tracing_span_packet payload tracing_identity) = length tracing_identity ≡ 25

sent_packet :
    (pk : Packet)
    → length (payload_of pk) + length (metadata_of pk) < 1350
    → send_packet pk ≡ some ((payload_of pk ++ metadata_of pk) ++ (type_byte (type_of pk) ∷ []))
unfolding send_packet
sent_packet pk h =
    ap (and_type (type_of pk))
      (suffix_metadata-fits (payload_of pk) (metadata_of pk) (omega (arith, h)))
    ∙ suffix_type-fits (payload_of pk ++ metadata_of pk) (type_of pk)
        (omega (arith, length-append (payload_of pk) (metadata_of pk), h))

handled_packet :
    (pk : Packet)
    → HasIdentity pk
    → handle_message (payload_of pk ++ metadata_of pk) (type_byte (type_of pk))
      ≡ some (to_packets pk)
unfolding handle_message extract_tracing_identity
handled_packet (raw_packet bytes) h = ap (λ b. some (to_packets (raw_packet b))) (append-nil bytes)
handled_packet (traced_packet payload tracing_identity) h =
    ap (packet_of traced_packet) (split_last-append 25 payload tracing_identity h)
handled_packet (tracing_span_packet payload tracing_identity) h =
    ap (packet_of tracing_span_packet) (split_last-append 25 payload tracing_identity h)

-- A packet, traced or not, or tracing spans, which leave room for the byte of the type, are sent and
-- read back as they were; a tracing identity has 25 bytes.
pub demux-send_packet :
    (pk : Packet)
    → HasIdentity pk
    → length (payload_of pk) + length (metadata_of pk) < 1350
    → (msg : List ℕ) × ((send_packet pk ≡ some msg) × (demux msg ≡ some (to_packets pk)))
demux-send_packet pk has h = (
  (payload_of pk ++ metadata_of pk) ++ (type_byte (type_of pk) ∷ []),
  (
    sent_packet pk h,
    demux-append (payload_of pk ++ metadata_of pk) (type_byte (type_of pk)) ∙ handled_packet pk has,
  ),
)
