-- ===== src/Live.antt =====
-- src/live: a stream keeps the packets of its publisher, and hands them to its players.
pub mod Corrector
pub mod Gops
pub mod Headers
pub mod Stream
pub mod Session
pub mod Service
pub mod RtmpPlayer
pub mod Tests
use lssvc.Common.{
  Bool, List, [], false, if◌then◌else◌, ltb, ℕ, ◌%◌, ◌&&◌, ◌+◌, ◌-◌, ◌/◌, ◌==◌, ◌^◌, ◌∷◌,
}
use lssvc.Common.Int.{neg_part, negsuc, pos, pos_part, ℤ}
use lssvc.Chunk.{Packet}

-- Packet::isVideo, isAudio, isMeta and isKeyFrame: the type is a set of flags.
abbrev pub is_video : Packet → Bool
is_video p = p.packet_type % 2 == 1

abbrev pub is_audio : Packet → Bool
is_audio p = p.packet_type == 2

abbrev pub is_meta : Packet → Bool
is_meta p = p.packet_type == 4

abbrev pub is_key_frame : Packet → Bool
is_key_frame p = p.packet_type / 16 % 2 == 1 && p.packet_type % 2 == 1

-- CodecUtils: both look at the first bytes of an FLV tag.
unfoldable pub is_codec_header : Packet → Bool
is_codec_header p = second_is_zero p.body
  where
    second_is_zero : List ℕ → Bool
    second_is_zero (a ∷ b ∷ _) = b == 0
    second_is_zero _ = false

unfoldable pub starts_key_frame : Packet → Bool
starts_key_frame p = first_is_key p.body
  where
    first_is_key : List ℕ → Bool
    first_is_key (a ∷ _) = a / 16 % 16 == 1
    first_is_key [] = false

-- The conversion of an int64_t to an int32_t.
abbrev pub to_int32 : ℤ → ℤ
to_int32 x =
    let p = (pos_part x + (2 ^ 32 - neg_part x % 2 ^ 32)) % 2 ^ 32 in
    if ltb p (2 ^ 31) then pos p else negsuc (2 ^ 32 - 1 - p)
