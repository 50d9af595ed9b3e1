-- ===== src/Bytes.antt =====
-- src/mmedia/base/bytes_reader.cpp and bytes_writer.cpp: numbers in network byte order.
-- A pointer into memory is the list of the bytes from there on; a read past its end is `none`.
-- The host is little-endian, so `ntohl` of the loaded word is the big-endian value of the bytes.
pub mod Codec
pub mod Tests
use lssvc.Common.{
  Bool, List, Option, [], false, none, some, true, ℕ, ◌%◌, ◌*◌, ◌+◌, ◌/◌, ◌<◌, ◌==◌, ◌&&◌, ◌∷◌,
}

abbrev pub IsByte : ℕ → Type 0
IsByte b = b < 256

unfoldable pub read_uint8 : List ℕ → Option ℕ
read_uint8 (a ∷ _) = some a
read_uint8 _ = none

unfoldable pub read_uint16 : List ℕ → Option ℕ
read_uint16 (a ∷ b ∷ _) = some (a * 256 + b)
read_uint16 _ = none

-- The shifts of the source put the three bytes side by side, so `|` is the sum.
unfoldable pub read_uint24 : List ℕ → Option ℕ
read_uint24 (a ∷ b ∷ c ∷ _) = some (a * 65536 + b * 256 + c)
read_uint24 _ = none

unfoldable pub read_uint32 : List ℕ → Option ℕ
read_uint32 (a ∷ b ∷ c ∷ d ∷ _) = some (a * 16777216 + b * 65536 + c * 256 + d)
read_uint32 _ = none

-- The bytes that the writers store; their count is what the source returns.
unfoldable pub write_uint8 : ℕ → List ℕ
write_uint8 v = (v % 256) ∷ []

unfoldable pub write_uint16 : ℕ → List ℕ
write_uint16 v = (v / 256 % 256) ∷ (v % 256) ∷ []

-- The top byte of the 32-bit word is skipped.
unfoldable pub write_uint24 : ℕ → List ℕ
write_uint24 v = (v / 65536 % 256) ∷ (v / 256 % 256) ∷ (v % 256) ∷ []

unfoldable pub write_uint32 : ℕ → List ℕ
write_uint32 v = (v / 16777216 % 256) ∷ (v / 65536 % 256) ∷ (v / 256 % 256) ∷ (v % 256) ∷ []

-- Whether two strings or two pieces of memory are the same.
unfoldable pub same_bytes : List ℕ → List ℕ → Bool
same_bytes [] [] = true
same_bytes (x ∷ xs) (y ∷ ys) = x == y && same_bytes xs ys
same_bytes _ _ = false
