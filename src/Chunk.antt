-- ===== src/Chunk.antt =====
-- include/mmedia/rtmp/rtmp_header.h, include/mmedia/base/packet.h, and the chunk stream of
-- src/mmedia/rtmp/rtmp_context.cpp: what both directions share.
pub mod Receive
pub mod Loop
pub mod Send
pub mod Tests
use lssvc.Common.{
  List, Option, [], if◌then◌else◌, length, ltb, none, some, ℕ, ◌%◌, ◌*◌, ◌+◌, ◌-◌, ◌/◌, ◌^◌, ◌∷◌,
}

-- RtmpMsgHeader. All fields are unsigned: 32 bits, and 8 for `msg_type`.
pub record MsgHeader : Type 0 where
  pub cs_id : ℕ
  pub timestamp : ℕ
  pub msg_len : ℕ
  pub msg_type : ℕ
  pub msg_sid : ℕ

abbrev pub empty_header : MsgHeader
empty_header = record { cs_id = 0; timestamp = 0; msg_len = 0; msg_type = 0; msg_sid = 0 }

-- Packet, with the header that `setExt` hangs on it. `body` holds the bytes written so far, and
-- its length is `size_`.
pub record Packet : Type 0 where
  pub header : MsgHeader
  pub capacity : ℕ
  pub body : List ℕ
  pub packet_type : ℕ
  pub timestamp : ℕ
  pub index : ℕ

abbrev pub type_unknown : ℕ
type_unknown = 255

-- `newPacket`. The index, -1 there, is 0 until a stream sets it.
abbrev pub new_packet : ℕ → MsgHeader → Packet
new_packet size h = record {
  header = h;
  capacity = size;
  body = [];
  packet_type = type_unknown;
  timestamp = 0;
  index = 0;
}

-- `capacity_ - size_`, as the pattern of an int32_t.
abbrev pub space : Packet → ℕ
space p = (p.capacity + 2 ^ 32 - length p.body) % 2 ^ 32

-- `std::min` of two int32_t patterns, in the signed order.
abbrev pub signed_min : ℕ → ℕ → ℕ
signed_min a b = if ltb ((b + 2 ^ 31) % 2 ^ 32) ((a + 2 ^ 31) % 2 ^ 32) then b else a

-- A uint32_t copied as it lies in memory.
unfoldable pub load_uint32 : List ℕ → Option ℕ
load_uint32 (a ∷ b ∷ c ∷ d ∷ _) = some (a + b * 256 + c * 65536 + d * 16777216)
load_uint32 _ = none

unfoldable pub store_uint32 : ℕ → List ℕ
store_uint32 v = (v % 256) ∷ (v / 256 % 256) ∷ (v / 65536 % 256) ∷ (v / 16777216 % 256) ∷ []

abbrev pub ext_mark : ℕ
ext_mark = 0xFFFFFF
