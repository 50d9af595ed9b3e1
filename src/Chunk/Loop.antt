-- ===== src/Chunk/Loop.antt =====
-- The loop of `parseMessage` in src/mmedia/rtmp/rtmp_context.cpp, with `messageComplete` and the
-- messages that change how the rest is read. What goes on to the handlers is a list of events.
pub mod Segments
use lssvc.Common.{
  Bool, List, Option, [], false, if◌then◌else◌, leb, length, ltb, none, some, suc, true, zero, ℕ,
  ◌%◌, ◌*◌, ◌++◌, ◌+◌, ◌-◌, ◌==◌, ◌>>=◌, ◌>>◌, ◌^◌, ◌||◌, ◌∷◌,
}
use lssvc.Bytes.{read_uint32}
use lssvc.Chunk.{Packet}
use lssvc.Chunk.Receive.{
  Channel, Channels, Outcome, basic_header, no_channel, read_chunk, set_channel, took, wait,
}

pub data Event : Type 0 where
  user_control : Packet → Event
  amf_command : Bool → Packet → Event
  media : Packet → Event
  acknowledge : ℕ → Event

-- The members of RtmpContext that the receiving half keeps; the counters are int32_t patterns.
pub record Inbound : Type 0 where
  pub in_chunk_size : ℕ
  pub ack_size : ℕ
  pub in_bytes : ℕ
  pub last_left : ℕ
  pub channels : Channels
  pub events : List Event

abbrev pub init : Inbound
init = record {
  in_chunk_size = 128;
  ack_size = 2048 * 1000;
  in_bytes = 0;
  last_left = 0;
  channels = λ k. no_channel;
  events = [];
}

abbrev pub emit : Inbound → Event → Inbound
emit s e = record s { events = s.events ++ (e ∷ []) }

-- `handleChunkSize` and `handleAckWindowSize`: the first four bytes of the body, where there are
-- as many.
unfoldable pub handle_chunk_size : Inbound → Packet → Inbound
handle_chunk_size s p = elim (read_uint32 p.body) [
  | none ↦ s
  | some size ↦ record s { in_chunk_size = size }
]

unfoldable pub handle_ack_window_size : Inbound → Packet → Inbound
handle_ack_window_size s p = elim (read_uint32 p.body) [
  | none ↦ s
  | some size ↦ record s { ack_size = size }
]

-- `setPacketType`: the message type becomes a kind of packet.
unfoldable pub set_packet_type : Packet → Packet
set_packet_type p =
    if p.packet_type == 8
    then record p { packet_type = 2 }
    else if p.packet_type == 9
    then record p { packet_type = 1 }
    else if p.packet_type == 18
    then record p { packet_type = 4 }
    else if p.packet_type == 15
    then record p { packet_type = 8 }
    else p

abbrev pub is_media : ℕ → Bool
is_media t = t == 18 || t == 15 || t == 8 || t == 9

-- `messageComplete`, by the message type.
unfoldable pub message_complete : Inbound → Packet → Inbound
message_complete s p =
    if p.packet_type == 1
    then handle_chunk_size s p
    else if p.packet_type == 4
    then emit s (user_control p)
    else if p.packet_type == 5
    then handle_ack_window_size s p
    else if p.packet_type == 17
    then emit s (amf_command true p)
    else if p.packet_type == 20
    then emit s (amf_command false p)
    else if is_media p.packet_type
    then emit s (media (set_packet_type p))
    else s

abbrev pub put_channel : Inbound → ℕ → Channel → Inbound
put_channel s csid ch = record s { channels = set_channel s.channels csid ch }

abbrev pub Result : Type 0
Result = Option (Inbound × List ℕ)

-- What the loop makes of a round: to stop with the bytes where they were, or to go on.
unfoldable pub after_round : (Inbound → List ℕ → Result) → Inbound → ℕ → List ℕ → Outcome → Result
after_round go s csid bytes (wait ch) = some (put_channel s csid ch, bytes)
after_round go s csid bytes (took ch rest none) = go (put_channel s csid ch) rest
after_round go s csid bytes (took ch rest (some p)) =
    go (message_complete (put_channel s csid ch) p) rest

unfoldable pub take_round : (Inbound → List ℕ → Result) → Inbound → List ℕ → Result
take_round go s bytes = elim (basic_header bytes) [
  | none ↦ some (s, bytes)
  | some (fmt, csid, rest) ↦
      read_chunk s.in_chunk_size fmt csid (s.channels csid) rest >>= after_round go s csid bytes
]

-- The `while` loop: the state and the bytes left in the buffer. `none` is a read outside the
-- readable bytes, or no fuel.
unfoldable pub loop : ℕ → Inbound → List ℕ → Result
loop zero s bytes = none
loop (suc fuel) s bytes =
    let round = take_round (loop fuel) s bytes in
    if ltb 1 (length bytes) then round else some (s, bytes)

-- `sendBytesRecv`, with int32_t's compared.
unfoldable pub send_bytes_recv : Inbound → Inbound
send_bytes_recv s =
    if leb ((s.ack_size + 2 ^ 31) % 2 ^ 32) ((s.in_bytes + 2 ^ 31) % 2 ^ 32)
    then record (emit s (acknowledge s.in_bytes)) { in_bytes = 0 }
    else s

-- `parse` in the message state. A round takes a byte at least, so the fuel is enough.
unfoldable pub parse_message : Inbound → List ℕ → Result
parse_message s bytes = do
  (s', left) ←
      loop (suc (length bytes))
        (send_bytes_recv
          (record s { in_bytes = (s.in_bytes + length bytes + (2 ^ 32 - s.last_left)) % 2 ^ 32 }))
        bytes
  some (record s' { last_left = length left }, left)
