-- ===== src/Live/Corrector.antt =====
-- src/live/base/time_corrector.cpp: the timestamps of a publisher, made to go on evenly. The times
-- are integers, as an int64_t holds them; -1 stands for a time not seen yet.
pub mod Steps
use lssvc.Common.{
  Bool, false, if◌then◌else◌, ltb, true, zero, ℕ, ◌%◌, ◌&&◌, ◌+◌, ◌-◌, ◌==◌, ◌^◌, ◌||◌,
}
use lssvc.Common.Int.{leb_ℤ, ltb_ℤ, negsuc, pos, pos_part, ℤ, ◌+ℤ◌, ◌-ℤ◌}
use lssvc.Chunk.{Packet}
use lssvc.Live.{is_codec_header, to_int32}

pub record Corrector : Type 0 where
  pub video_original : ℤ
  pub video_corrected : ℤ
  pub audio_original : ℤ
  pub audio_corrected : ℤ
  pub audio_numbers : ℕ

abbrev pub init : Corrector
init = record {
  video_original = negsuc 0;
  video_corrected = negsuc 0;
  audio_original = negsuc 0;
  audio_corrected = negsuc 0;
  audio_numbers = 0;
}

abbrev pub is_unset : ℤ → Bool
is_unset (negsuc zero) = true
is_unset _ = false

abbrev pub max_delta : ℕ
max_delta = 100

abbrev pub default_video_delta : ℕ
default_video_delta = 40

abbrev pub default_audio_delta : ℕ
default_audio_delta = 20

-- A delta that is not fine is replaced by the default.
abbrev pub fine_delta : ℕ → ℤ → ℤ
fine_delta default delta =
    if ltb_ℤ (negsuc (max_delta - 1)) delta && ltb_ℤ delta (pos max_delta)
    then delta
    else pos default

abbrev pub not_below_zero : ℤ → ℤ
not_below_zero t = pos (pos_part t)

-- Continuous audio frames. The results are the state and the timestamp as a uint32_t.
unfoldable pub audio_by_audio : Corrector → ℕ → Corrector × ℕ
audio_by_audio c time =
    if is_unset c.audio_original
    then (record c { audio_original = pos time; audio_corrected = pos time }, time % 2 ^ 32)
    else (
      record c { audio_original = pos time; audio_corrected = not_below_zero (next_time) },
      pos_part next_time % 2 ^ 32,
    )
  where
    next_time : ℤ
    next_time = c.audio_corrected +ℤ fine_delta default_audio_delta (pos time -ℤ c.audio_original)

-- The first audio frame after a video frame.
unfoldable pub audio_by_video : Corrector → ℕ → Corrector × ℕ
audio_by_video c time =
    let c' = record c { audio_numbers = c.audio_numbers + 1 } in
    if ltb 1 (c.audio_numbers + 1)
    then audio_by_audio c' time
    else if is_unset c.video_original
    then (record c' { audio_original = pos time; audio_corrected = pos time }, time % 2 ^ 32)
    else (
      record c' { audio_original = pos time; audio_corrected = not_below_zero next_time },
      pos_part next_time % 2 ^ 32,
    )
  where
    next_time : ℤ
    next_time = c.video_corrected +ℤ fine_delta default_video_delta (pos time -ℤ c.video_original)

-- What the first video frame sets up: its own time, or the audio's if that is far away.
abbrev pub far_off : Corrector → ℕ → Bool
far_off c time =
    let delta = to_int32 (c.audio_original -ℤ pos time) in
    leb_ℤ delta (negsuc (max_delta - 1)) || leb_ℤ (pos max_delta) delta

unfoldable pub first_video : Corrector → ℕ → Corrector
first_video c time =
    let c' = record c { video_original = pos time; video_corrected = pos time } in
    if is_unset c.audio_original
    then c'
    else if far_off c time
    then record c' { video_original = c.audio_original; video_corrected = c.audio_corrected }
    else c'

unfoldable pub next_video : Corrector → ℕ → Corrector × ℕ
next_video c time = (
  record c { video_original = pos time; video_corrected = not_below_zero next_time },
  pos_part next_time % 2 ^ 32,
)
  where
    next_time : ℤ
    next_time = c.video_corrected +ℤ fine_delta default_video_delta (pos time -ℤ c.video_original)

unfoldable pub video_by_video : Corrector → ℕ → Corrector × ℕ
video_by_video c time =
    let c' = record c { audio_numbers = 0 } in
    if is_unset c.video_original then next_video (first_video c' time) time else next_video c' time

-- `correctTimestamp`. A codec header, and what is neither audio nor video, gets 0.
unfoldable pub correct_timestamp : Corrector → Packet → Corrector × ℕ
correct_timestamp c p =
    if is_codec_header p
    then (c, 0)
    else if p.packet_type == 1
    then video_by_video c p.timestamp
    else if p.packet_type == 2
    then audio_by_video c p.timestamp
    else (c, 0)
