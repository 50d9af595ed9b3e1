-- ===== src/Double.antt =====
-- readUint64T of src/mmedia/base/bytes_reader.cpp and writeNumber of src/mmedia/rtmp/amf/amf_any.cpp.
-- A double is its 64 bits; one that went through readUint64T is a whole number, which is exact in a
-- double, and is kept as that number.
pub mod Whole
use lssvc.Common.{
  List, Option, drop, if◌then◌else◌, leb, ltb, none, some, suc, zero, ℕ, ◌%◌, ◌&&◌, ◌*◌, ◌++◌, ◌+◌,
  ◌-◌, ◌/◌, ◌>>=◌, ◌^◌,
}
use lssvc.Bytes.{read_uint32, write_uint32}

-- The conversion of a double to a uint64_t, which cuts the fraction off. `none` is what the language
-- leaves undefined: -1 or less, 2^64 or more, and what is no number.
unfoldable pub to_uint64 : ℕ → Option ℕ
to_uint64 bits =
    let e = bits / 2 ^ 52 % 2048 in
    let m = 2 ^ 52 + bits % 2 ^ 52 in
    if ltb e 1023
    then some 0
    else if ltb bits (2 ^ 63) && ltb e 1087
    then some (if leb 1075 e then m * 2 ^ (e - 1075) else m / 2 ^ (1075 - e))
    else none

-- Two words of 32 bits, the upper one first.
unfoldable pub read_uint64 : List ℕ → Option ℕ
read_uint64 xs =
    read_uint32 xs >>= λ high. read_uint32 (drop 4 xs) >>= λ low. to_uint64 (high * 2 ^ 32 + low)

-- `writeNumber`.
unfoldable pub write_number : ℕ → List ℕ
write_number bits = write_uint32 (bits / 2 ^ 32) ++ write_uint32 (bits % 2 ^ 32)

-- The whole number of times that a number can be halved before it is 1.
unfoldable pub log2 : ℕ → ℕ → ℕ
log2 zero n = 0
log2 (suc fuel) n = let rest = log2 fuel (n / 2) in if ltb n 2 then 0 else suc rest

-- The bits of a whole number below 2^64 that is exact in a double, and of the number below 0.
unfoldable pub double : ℕ → ℕ
double zero = 0
double n =
    let k = log2 64 n in
    (1023 + k) * 2 ^ 52
    + (if leb k 52 then (n - 2 ^ k) * 2 ^ (52 - k) else (n - 2 ^ k) / 2 ^ (k - 52))

abbrev pub negative : ℕ → ℕ
negative bits = 2 ^ 63 + bits
