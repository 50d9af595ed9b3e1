-- ===== src/Chunk/Send.antt =====
-- The sending half of RtmpContext in src/mmedia/rtmp/rtmp_context.cpp: `buildChunk`, whose two
-- versions differ in how they keep the packet, and the queues. Lengths stay below 2^31. `none` is a
-- write behind the 4096 bytes of `out_buffer_`, a read behind the body, or no fuel.
pub mod Single
pub mod Tail
pub mod Several
pub mod RoundTrip
pub mod Control
pub mod Tests
use lssvc.Common.{
  Bool, List, Option, [], drop, false, if◌then◌else◌, leb, length, ltb, min, none, not, replicate,
  some, suc, take, true, zero, ℕ, ◌%◌, ◌&&◌, ◌*◌, ◌++◌, ◌+◌, ◌-◌, ◌/◌, ◌==◌, ◌>>=◌, ◌^◌, ◌∷◌,
}
use lssvc.Bytes.{write_uint16, write_uint24, write_uint32, write_uint8}
use lssvc.Chunk.{MsgHeader, Packet, ext_mark, store_uint32, type_unknown}

abbrev pub buffer_size : ℕ
buffer_size = 4096

-- `used` is `out_current_ - out_buffer_`; a packet waits with no more than itself.
pub record Outbound : Type 0 where
  pub out_chunk_size : ℕ
  pub used : ℕ
  pub deltas : ℕ → ℕ
  pub prevs : ℕ → Option MsgHeader
  pub waiting : List Packet
  pub buffers : List (List ℕ)
  pub packets : List Packet
  pub sending : Bool

abbrev pub init : Outbound
init = record {
  out_chunk_size = buffer_size;
  used = 0;
  deltas = λ k. 0;
  prevs = λ k. none;
  waiting = [];
  buffers = [];
  packets = [];
  sending = false;
}

-- The format of the first chunk, and the timestamp or delta that it carries.
unfoldable pub choose_fmt : Outbound → MsgHeader → ℕ → Bool → ℕ × ℕ
choose_fmt o h timestamp fmt0 = elim (o.prevs h.cs_id) [
  | none ↦ (0, timestamp)
  | some prev ↦
      if not fmt0 && leb prev.timestamp timestamp && h.msg_sid == prev.msg_sid
      then (with_delta prev (timestamp - prev.timestamp), timestamp - prev.timestamp)
      else (0, timestamp)
]
  where
    with_delta : MsgHeader → ℕ → ℕ
    with_delta prev delta =
        if h.msg_type == prev.msg_type && h.msg_len == prev.msg_len
        then (if delta == o.deltas h.cs_id then 3 else 2)
        else 1

unfoldable pub basic_bytes : ℕ → ℕ → List ℕ
basic_bytes fmt csid =
    if ltb csid 64
    then (fmt * 64 + csid) ∷ []
    else if ltb csid 320
    then (fmt * 64) ∷ ((csid - 64) % 256) ∷ []
    else (fmt * 64 + 1) ∷ ((csid - 64) % 256) ∷ ((csid - 64) / 256 % 256) ∷ []

abbrev pub capped : ℕ → ℕ
capped timestamp = if ltb ext_mark timestamp then ext_mark else timestamp

unfoldable pub message_bytes : ℕ → MsgHeader → ℕ → List ℕ
message_bytes zero h ts =
    write_uint24 ts
    ++ (write_uint24 h.msg_len ++ (write_uint8 h.msg_type ++ store_uint32 h.msg_sid))
message_bytes (suc zero) h ts =
    write_uint24 ts ++ (write_uint24 h.msg_len ++ write_uint8 h.msg_type)
message_bytes (suc (suc zero)) h ts = write_uint24 ts
message_bytes _ h ts = []

-- The extended timestamp, copied as it lies in memory.
abbrev pub ext_bytes : ℕ → List ℕ
ext_bytes timestamp = if capped timestamp == ext_mark then store_uint32 timestamp else []

-- Bytes written at `out_current_`, and a node of them.
unfoldable pub push_header : Outbound → List ℕ → Option Outbound
push_header o bytes =
    if leb (o.used + length bytes) buffer_size
    then some (record o { used = o.used + length bytes; buffers = o.buffers ++ (bytes ∷ []) })
    else none

-- A node of `size` bytes of the packet.
unfoldable pub push_body : Outbound → List ℕ → ℕ → ℕ → Option Outbound
push_body o body parsed size =
    if leb (parsed + size) (length body)
    then some (record o { buffers = o.buffers ++ (take size (drop parsed body) ∷ []) })
    else none

-- The loop over the body. It gives up in silence where the buffer of the headers is full.
unfoldable pub push_chunks : ℕ → Outbound → MsgHeader → ℕ → List ℕ → ℕ → Option Outbound
push_chunks zero o h timestamp body parsed = none
push_chunks (suc fuel) o h timestamp body parsed =
    let size = min (h.msg_len - parsed) o.out_chunk_size in
    push_body o body parsed size >>= λ o'.
    let more = push_header o' (basic_bytes 3 h.cs_id ++ ext_bytes timestamp) >>= λ o''.
    push_chunks fuel o'' h timestamp body (parsed + size) in
    if ltb (parsed + size) h.msg_len
    then (if leb buffer_size o'.used then some o' else more)
    else some o'

abbrev pub set_at {ℓ} : {A : Type ℓ} → (ℕ → A) → ℕ → A → ℕ → A
set_at f i v k = if k == i then v else f k

-- The header that is remembered, where a delta adds to the time before.
unfoldable pub sent_header : Outbound → MsgHeader → ℕ → ℕ → MsgHeader
sent_header o h fmt timestamp = record h {
  timestamp = if fmt == 0 then timestamp else (before (o.prevs h.cs_id) + timestamp) % 2 ^ 32;
}
  where
    before : Option MsgHeader → ℕ
    before none = 0
    before (some prev) = prev.timestamp

unfoldable pub sent_delta : Outbound → ℕ → ℕ → ℕ → ℕ
sent_delta o csid fmt timestamp =
    if fmt == 0 then 0 else if fmt == 3 then o.deltas csid else timestamp

unfoldable pub build_chunk : Outbound → Packet → ℕ → Bool → Option Outbound
build_chunk o p timestamp fmt0 =
    let h = p.header in
    let (fmt, ts) = choose_fmt o h timestamp fmt0 in
    push_header (record o { packets = o.packets ++ (p ∷ []) })
      (basic_bytes fmt h.cs_id ++ (message_bytes fmt h (capped ts) ++ ext_bytes ts))
    >>= λ o'.
        push_chunks (suc h.msg_len)
          (record o' {
            prevs = set_at o.prevs h.cs_id (some (sent_header o h fmt ts));
            deltas = set_at o.deltas h.cs_id (sent_delta o h.cs_id fmt ts);
          })
          h ts p.body 0

-- `send`: at most ten packets of the queue become chunks; the nodes are then passed on.
unfoldable pub build_waiting : ℕ → Outbound → Option Outbound
build_waiting zero o = some o
build_waiting (suc n) o = elim o.waiting [
  | [] ↦ some o
  | (p ∷ ps) ↦ build_chunk (record o { waiting = ps }) p 0 false >>= build_waiting n
]

unfoldable pub send : Outbound → Option Outbound
send o = if o.sending then some o else build_waiting 10 (record o { sending = true })

unfoldable pub push_out_queue : Outbound → Packet → Option Outbound
push_out_queue o p = send (record o { waiting = o.waiting ++ (p ∷ []) })

-- `checkAndSend`, when the nodes are written; the flag says that the handler is to be asked.
unfoldable pub check_and_send : Outbound → Option (Outbound × Bool)
check_and_send o = go o.waiting
  where
    fresh : Outbound
    fresh = record o { sending = false; used = 0; buffers = []; packets = [] }

    go : List Packet → Option (Outbound × Bool)
    go [] = some (fresh, true)
    go (p ∷ ps) = send fresh >>= λ o'. some (o', false)

-- The protocol messages: a header on the command stream, and a body of 4 or 5 bytes.
abbrev pub command_packet : ℕ → List ℕ → Packet
command_packet typ bytes = record {
  header = record { cs_id = 2; timestamp = 0; msg_len = length bytes; msg_type = typ; msg_sid = 0 };
  capacity = 64;
  body = bytes;
  packet_type = type_unknown;
  timestamp = 0;
  index = 0;
}

unfoldable pub send_set_chunk_size : Outbound → Option Outbound
send_set_chunk_size o = push_out_queue o (command_packet 1 (write_uint32 o.out_chunk_size))

unfoldable pub send_ack_window_size : Outbound → ℕ → Option Outbound
send_ack_window_size o ack_size = push_out_queue o (command_packet 5 (write_uint32 ack_size))

unfoldable pub send_set_peer_bandwidth : Outbound → ℕ → Option Outbound
send_set_peer_bandwidth o ack_size =
    push_out_queue o (command_packet 6 (write_uint32 ack_size ++ (2 ∷ [])))

-- The body of `sendUserCtrlMessage`: the type and the values are all written at the start of the
-- packet's memory, and the message is as long as if they stood behind one another.
abbrev pub set_buffer_length : ℕ
set_buffer_length = 3

abbrev pub write_over : List ℕ → List ℕ → List ℕ
write_over memory bytes = bytes ++ drop (length bytes) memory

unfoldable pub user_ctrl_body : ℕ → ℕ → ℕ → List ℕ
user_ctrl_body typ value1 value2 =
    let m = write_over (write_over (replicate 64 0) (write_uint16 typ)) (write_uint32 value1) in
    if typ == set_buffer_length then take 10 (write_over m (write_uint32 value2)) else take 6 m

unfoldable pub send_user_ctrl_message : Outbound → ℕ → ℕ → ℕ → Option Outbound
send_user_ctrl_message o typ value1 value2 =
    push_out_queue o (command_packet 4 (user_ctrl_body typ value1 value2))
