-- ===== src/Chunk/Receive.antt =====
-- The receiving half of RtmpContext: `parseMessage` in src/mmedia/rtmp/rtmp_context.cpp. The bytes
-- from `pos + parsed` on are a list; a read past the readable bytes is `none`.
pub mod Layout
pub mod Rounds
use lssvc.Common.{
  Bool, List, Option, [], drop, false, if◌then◌else◌, length, ltb, none, some, suc, take, zero, ℕ,
  ◌%◌, ◌&&◌, ◌*◌, ◌++◌, ◌+◌, ◌/◌, ◌==◌, ◌>>=◌, ◌>>◌, ◌^◌, ◌||◌, ◌∷◌,
}
use lssvc.Bytes.{read_uint24, read_uint32, read_uint8}
use lssvc.Chunk.{
  MsgHeader, Packet, empty_header, ext_mark, load_uint32, new_packet, signed_min, space,
}

-- The entries of the four maps at one chunk stream id. A missing entry is the empty header, no
-- packet, 0 and false; `parseMessage` makes the same of it.
pub record Channel : Type 0 where
  pub prev : MsgHeader
  pub packet : Option Packet
  pub delta : ℕ
  pub ext : Bool

abbrev pub no_channel : Channel
no_channel = record { prev = empty_header; packet = none; delta = 0; ext = false }

abbrev pub Channels : Type 0
Channels = ℕ → Channel

abbrev pub set_channel : Channels → ℕ → Channel → Channels
set_channel chans csid ch k = if k == csid then ch else chans k

-- The basic header: format, chunk stream id and the bytes behind it. `none` waits for more.
unfoldable pub basic_header : List ℕ → Option (ℕ × ℕ × List ℕ)
basic_header [] = none
basic_header (b ∷ rest) =
    let fmt = b / 64 % 4 in
    if b % 64 == 0
    then two_byte fmt rest
    else if b % 64 == 1
    then three_byte fmt rest
    else some (fmt, b % 64, rest)
  where
    two_byte : ℕ → List ℕ → Option (ℕ × ℕ × List ℕ)
    two_byte fmt [] = none
    two_byte fmt (c ∷ rest) = some (fmt, 64 + c, rest)

    three_byte : ℕ → List ℕ → Option (ℕ × ℕ × List ℕ)
    three_byte fmt (c ∷ d ∷ rest) = some (fmt, 64 + c + d * 256, rest)
    three_byte fmt _ = none

-- The guard on what must be there of the message header.
abbrev pub header_missing : ℕ → ℕ → Bool
header_missing fmt size =
    size == 0 || (fmt == 0 && ltb size 11) || (fmt == 1 && ltb size 7) || (fmt == 2 && ltb size 3)

-- `msg_len` for a new packet.
abbrev pub announced_len : ℕ → ℕ → MsgHeader → List ℕ → Option ℕ
announced_len chunk_size fmt prev bytes =
    if fmt == 0 || fmt == 1
    then read_uint24 (drop 3 bytes)
    else some (if prev.msg_len == 0 then chunk_size else prev.msg_len)

-- The packet under way on the channel, or a new one.
abbrev pub open_packet : Option Packet → ℕ → ℕ → Packet
open_packet (some p) csid len = p
open_packet none csid len = new_packet len (record empty_header { cs_id = csid; msg_len = len })

-- What the message header says: the header of the packet, the delta of the channel, and `ts`.
pub record Fields : Type 0 where
  pub header : MsgHeader
  pub delta : ℕ
  pub ts : ℕ

unfoldable pub read_fields : ℕ → MsgHeader → ℕ → MsgHeader → List ℕ → Option (Fields × List ℕ)
read_fields zero prev delta h bytes = do
  ts ← read_uint24 bytes
  len ← read_uint24 (drop 3 bytes)
  typ ← read_uint8 (drop 6 bytes)
  sid ← load_uint32 (drop 7 bytes)
  some (
    record {
      header = record h { timestamp = ts; msg_len = len; msg_type = typ; msg_sid = sid };
      delta = 0;
      ts = ts;
    },
    drop 11 bytes,
  )
read_fields (suc zero) prev delta h bytes = do
  ts ← read_uint24 bytes
  len ← read_uint24 (drop 3 bytes)
  typ ← read_uint8 (drop 6 bytes)
  some (
    record {
      header = record h {
        timestamp = (ts + prev.timestamp) % 2 ^ 32;
        msg_len = len;
        msg_type = typ;
        msg_sid = prev.msg_sid;
      };
      delta = ts;
      ts = ts;
    },
    drop 7 bytes,
  )
read_fields (suc (suc zero)) prev delta h bytes = do
  ts ← read_uint24 bytes
  some (
    record {
      header = record h {
        timestamp = (ts + prev.timestamp) % 2 ^ 32;
        msg_len = prev.msg_len;
        msg_type = prev.msg_type;
        msg_sid = prev.msg_sid;
      };
      delta = ts;
      ts = ts;
    },
    drop 3 bytes,
  )
read_fields _ prev delta h bytes = some (
  record {
    header = record h {
      timestamp = if h.timestamp == 0 then (delta + prev.timestamp) % 2 ^ 32 else h.timestamp;
      msg_len = prev.msg_len;
      msg_type = prev.msg_type;
      msg_sid = prev.msg_sid;
    };
    delta = delta;
    ts = 0;
  },
  bytes,
)

-- The extended timestamp. Format 0 reads it and leaves the header's timestamp as it is.
abbrev pub with_ext : ℕ → MsgHeader → Fields → ℕ → Fields
with_ext fmt prev f ts = if fmt == 0 then record f { ts = ts } else record f {
  header = record (f.header) { timestamp = (ts + prev.timestamp) % 2 ^ 32 };
  delta = ts;
  ts = ts;
}

-- What one round of the loop comes to: to wait for more bytes, with what it left on the channel, or
-- a chunk taken, with the channel, the bytes behind the chunk, and the packet if it is complete.
pub data Outcome : Type 0 where
  wait : Channel → Outcome
  took : Channel → List ℕ → Option Packet → Outcome

-- What follows the copy of a body: the header becomes the previous one of the channel, and a
-- packet without space left is complete.
unfoldable pub finish_chunk : Channel → Packet → List ℕ → Outcome
finish_chunk ch p rest =
    if space p == 0
    then took (record ch { prev = p.header; packet = none }) rest
        (some (record p { packet_type = p.header.msg_type; timestamp = p.header.timestamp }))
    else took (record ch { prev = p.header; packet = some p }) rest none

-- The body of the chunk.
unfoldable pub read_body : ℕ → Channel → Packet → List ℕ → Outcome
read_body chunk_size ch p bytes =
    let n = signed_min (space p) chunk_size in
    if ltb (length bytes) n
    then wait (record ch { packet = some p })
    else finish_chunk ch (record p { body = p.body ++ take n bytes }) (drop n bytes)

unfoldable pub read_rest : ℕ → ℕ → Channel → Packet → Fields → List ℕ → Option Outcome
read_rest chunk_size fmt ch p f bytes =
    let ext = if fmt == 3 then ch.ext else f.ts == ext_mark in
    let ch' = record ch { ext = ext; delta = f.delta } in
    let plain = some (read_body chunk_size ch' (record p { header = f.header }) bytes) in
    let short = some (wait (record ch' { packet = some (record p { header = f.header }) })) in
    let long = read_uint32 bytes >>= λ ts.
    let f' = with_ext fmt ch.prev f ts in
    some (
      read_body chunk_size (record ch' { delta = f'.delta }) (record p { header = f'.header })
        (drop 4 bytes)) in
    if ext then (if ltb (length bytes) 4 then short else long) else plain

-- One round of the loop on the channel of its chunk stream id.
unfoldable pub read_chunk : ℕ → ℕ → ℕ → Channel → List ℕ → Option Outcome
read_chunk chunk_size fmt csid ch bytes =
    if header_missing fmt (length bytes)
    then some (wait ch)
    else (announced_len chunk_size fmt ch.prev bytes >>= λ len.
        let p = open_packet ch.packet csid len in
        read_fields fmt ch.prev ch.delta p.header bytes >>= λ (f, rest).
        read_rest chunk_size fmt ch p f rest)
