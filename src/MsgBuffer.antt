-- ===== src/MsgBuffer.antt =====
-- src/network/base/lssvc_msgbuffer.cpp and include/network/base/lssvc_msgbuffer.h: the buffer
-- between a socket and the protocol parsers. `head` and `tail` are offsets into `buffer`. A copy
-- outside the vector, a failed `assert`, and a reallocation deeper than the fuel are `none`.
pub mod Invariant
pub mod Refine
pub mod Peek
pub mod Tests
use lssvc.Common.{
  List, Option, assert, drop, if◌then◌else◌, leb, length, ltb, min, none, replicate, some, suc,
  take, zero, ℕ, ◌*◌, ◌++◌, ◌+◌, ◌-◌, ◌/◌, ◌>>=◌, ◌>>◌, ◌^◌,
}
use lssvc.Bytes.{read_uint16, read_uint32, read_uint8, write_uint16, write_uint32}

abbrev pub buffer_offset : ℕ
buffer_offset = 8

abbrev pub default_length : ℕ
default_length = 2048

pub record MsgBuffer : Type 0 where
  pub head : ℕ
  pub tail : ℕ
  pub cap : ℕ
  pub buffer : List ℕ

pub init : ℕ → MsgBuffer
init len = record {
  head = buffer_offset;
  tail = buffer_offset;
  cap = len;
  buffer = replicate (len + buffer_offset) 0;
}

abbrev pub readable_bytes : MsgBuffer → ℕ
readable_bytes b = b.tail - b.head

abbrev pub writable_bytes : MsgBuffer → ℕ
writable_bytes b = length b.buffer - b.tail

-- The memory from the first unread byte on, and the unread bytes themselves.
abbrev pub peek : MsgBuffer → List ℕ
peek b = drop b.head b.buffer

abbrev pub contents : MsgBuffer → List ℕ
contents b = take (readable_bytes b) (peek b)

-- `std::vector::resize`, which fills with zeros.
pub resize : List ℕ → ℕ → List ℕ
resize xs n = if leb n (length xs) then take n xs else xs ++ replicate (n - length xs) 0

unfoldable pub retrieve_all : MsgBuffer → MsgBuffer
unfolding resize
retrieve_all b = record b {
  buffer = if ltb (b.cap * 2) (length b.buffer) then resize b.buffer b.cap else b.buffer;
  head = buffer_offset;
  tail = buffer_offset;
}

unfoldable pub retrieve : MsgBuffer → ℕ → MsgBuffer
retrieve b len =
    if leb (readable_bytes b) len then retrieve_all b else record b { head = b.head + len }

-- `read`: a copy of at most `len` unread bytes.
pub read : MsgBuffer → ℕ → List ℕ
read b len = take (min len (readable_bytes b)) (peek b)

-- `memcpy` over the bytes from an offset on.
unfoldable pub overwrite : List ℕ → ℕ → List ℕ → Option (List ℕ)
overwrite buf off bytes =
    if leb (off + length bytes) (length buf)
    then some (take off buf ++ (bytes ++ drop (off + length bytes) buf))
    else none

-- The second half of both `append`s: copy the bytes in behind `tail`, and move `tail`.
pub copy_in : MsgBuffer → List ℕ → Option MsgBuffer
copy_in b bytes = do
  buffer' ← overwrite b.buffer b.tail bytes
  some (record b { buffer = buffer'; tail = b.tail + length bytes })

-- `std::copy` of the unread bytes to the front.
compact : MsgBuffer → Option MsgBuffer
compact b = do
  buffer' ← overwrite b.buffer buffer_offset (contents b)
  some
      (record b { buffer = buffer'; tail = buffer_offset + readable_bytes b; head = buffer_offset })

grown_length : MsgBuffer → ℕ → ℕ
grown_length b len =
    if ltb (buffer_offset + readable_bytes b + len) (length b.buffer * 2)
    then length b.buffer * 2
    else buffer_offset + readable_bytes b + len

-- `ensureWriteableBytes`. A new buffer is filled by `append`, which calls it again: the fuel is
-- the depth of these calls. `swap` exchanges all four members, so the new buffer takes the place.
pub ensure_writeable_bytes : ℕ → MsgBuffer → ℕ → Option MsgBuffer
ensure_writeable_bytes zero b len = none
ensure_writeable_bytes (suc fuel) b len =
    let grown = ensure_writeable_bytes fuel (init (grown_length b len)) (readable_bytes b) in
    let copied = grown >>= λ fresh. copy_in fresh (contents b) in
    if leb len (writable_bytes b)
    then some b
    else if leb (len + buffer_offset) (b.head + writable_bytes b)
    then compact b
    else copied

-- Two calls are enough: see Invariant.
abbrev pub ensure_depth : ℕ
ensure_depth = 2

pub append : MsgBuffer → List ℕ → Option MsgBuffer
append b bytes = do b' ← ensure_writeable_bytes ensure_depth b (length bytes); copy_in b' bytes

pub append_int16 : MsgBuffer → ℕ → Option MsgBuffer
append_int16 b v = append b (write_uint16 v)

pub append_int32 : MsgBuffer → ℕ → Option MsgBuffer
append_int32 b v = append b (write_uint32 v)

pub append_int64 : MsgBuffer → ℕ → Option MsgBuffer
append_int64 b v = append b (write_uint32 (v / 2 ^ 32) ++ write_uint32 v)

pub has_written : MsgBuffer → ℕ → Option MsgBuffer
has_written b len = do assert (leb len (writable_bytes b)); some (record b { tail = b.tail + len })

pub un_write : MsgBuffer → ℕ → Option MsgBuffer
un_write b offset = do
  assert (leb offset (readable_bytes b))
  some (record b { tail = b.tail - offset })

pub peek_int8 : MsgBuffer → Option ℕ
peek_int8 b = assert (leb 1 (readable_bytes b)) >> read_uint8 (peek b)

pub peek_int16 : MsgBuffer → Option ℕ
peek_int16 b = assert (leb 2 (readable_bytes b)) >> read_uint16 (peek b)

pub peek_int32 : MsgBuffer → Option ℕ
peek_int32 b = assert (leb 4 (readable_bytes b)) >> read_uint32 (peek b)

-- The source loads a `uint32_t` and reverses it as eight bytes, so the four bytes land on top.
pub peek_int64 : MsgBuffer → Option ℕ
peek_int64 b = do assert (leb 8 (readable_bytes b)); v ← read_uint32 (peek b); some (v * 2 ^ 32)

-- `readInt8` to `readInt64`: a peek, then a retrieve of the width.
read_int : (MsgBuffer → Option ℕ) → ℕ → MsgBuffer → Option (ℕ × MsgBuffer)
read_int peek_int width b = do v ← peek_int b; some (v, retrieve b width)

pub read_int8 : MsgBuffer → Option (ℕ × MsgBuffer)
read_int8 = read_int peek_int8 1

pub read_int16 : MsgBuffer → Option (ℕ × MsgBuffer)
read_int16 = read_int peek_int16 2

pub read_int32 : MsgBuffer → Option (ℕ × MsgBuffer)
read_int32 = read_int peek_int32 4

pub read_int64 : MsgBuffer → Option (ℕ × MsgBuffer)
read_int64 = read_int peek_int64 8

-- What `readv` answers: an errno, or the bytes that it spread over the two vectors.
pub data Readv : Type 0 where
  failed : ℕ → Readv
  got : List ℕ → Readv

-- `readFd`. The bytes fill the buffer first; what is left came into the array on the stack, whose
-- 8192 bytes bound what `readv` delivers. No bound is assumed here.
pub read_fd : MsgBuffer → Readv → Option MsgBuffer
read_fd b (failed errno) = some b
read_fd b (got bytes) = if leb (length bytes) (writable_bytes b) then copy_in b bytes else (do
  full ← copy_in b (take (writable_bytes b) bytes)
  append full (drop (writable_bytes b) bytes))
