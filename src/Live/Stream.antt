-- ===== src/Live/Stream.antt =====
-- src/live/live_stream.cpp: the ring of the latest packets of a stream, and what a player gets from
-- it. Indices are kept one higher than in the source, where they begin at -1, and stay below 2^31:
-- `next_index` is `frame_index_` + 1 and `out_next` is `out_index_` + 1. One reading of the clock
-- stands for those of a call. Each operation holds the lock of the stream throughout.
pub mod Ring
pub mod Delivery
pub mod Joining
pub mod Metadata
use lssvc.Common.{
  Bool, List, Option, [], false, if◌then◌else◌, leb, ltb, none, not, some, suc, true, zero, ℕ, ◌%◌,
  ◌&&◌, ◌*◌, ◌++◌, ◌+◌, ◌-◌, ◌==◌, ◌||◌, ◌∷◌,
}
use lssvc.Common.Int.{ltb_ℤ, pos, ℤ, ◌-ℤ◌}
use lssvc.Chunk.{Packet}
use lssvc.Live.{is_audio, is_codec_header, is_meta, is_video, starts_key_frame, to_int32}
use lssvc.Live.Corrector
use lssvc.Live.Gops
use lssvc.Live.Headers

abbrev pub packet_buffer_size : ℕ
packet_buffer_size = 1000

abbrev pub Slots : Type 0
Slots = ℕ → Option Packet

abbrev pub put : Slots → ℕ → Packet → Slots
put slots i p k = if k == i then some p else slots k

pub record Stream : Type 0 where
  pub next_index : ℕ
  pub slots : Slots
  pub gops : Gops.Gops
  pub headers : Headers.Headers
  pub corrector : Corrector.Corrector
  pub has_audio : Bool
  pub has_video : Bool
  pub has_meta : Bool
  pub version : ℕ
  pub ready : Bool
  pub ready_time : ℕ
  pub data_coming_time : ℕ
  pub stream_time : ℕ

abbrev pub init : ℕ → Stream
init now = record {
  next_index = 0;
  slots = λ k. none;
  gops = Gops.init;
  headers = Headers.init;
  corrector = Corrector.init;
  has_audio = false;
  has_video = false;
  has_meta = false;
  version = 0;
  ready = false;
  ready_time = 0;
  data_coming_time = 0;
  stream_time = now;
}

abbrev pub has_media : Stream → Bool
has_media s = s.has_audio || s.has_video || s.has_meta

-- A stream is given up when no packet has come for 20 seconds.
abbrev pub is_timeout : Stream → ℕ → Bool
is_timeout s now = ltb (s.stream_time + 20 * 1000) now

-- The packet as it is put in: its corrected time, its index, and the flag of a key frame.
unfoldable pub stamp : Stream → Packet → Packet
stamp s p =
    let q = record p {
      timestamp = (Corrector.correct_timestamp s.corrector p).1;
      index = s.next_index;
    } in
    if is_video p && starts_key_frame p then record q { packet_type = 17 } else q

-- The codec headers and the flags that go with them; `has_meta_;` is a statement without effect.
unfoldable pub note_header : Stream → Packet → Stream
note_header s p =
    let s' = record s { headers = Headers.parse_codec_header s.headers p } in
    if is_codec_header p
    then (if is_video p
        then record s' { has_video = true; version = s.version + 1 }
        else if is_audio p
        then record s' { has_audio = true; version = s.version + 1 }
        else if is_meta p
        then record s' { version = s.version + 1 }
        else s')
    else s

-- `addPacket`; the flag says that the players are to be woken.
unfoldable pub note_ready : Stream → ℕ → Packet → Stream
note_ready s now p =
    if is_video p && starts_key_frame p then record s { ready = true; ready_time = now } else s

unfoldable pub add_packet : Stream → ℕ → Packet → Stream × Bool
add_packet s now p = (
  record noted {
    next_index = s.next_index + 1;
    slots = put s.slots (s.next_index % packet_buffer_size) q;
    gops =
        if ltb packet_buffer_size s.next_index
        then Gops.clear_expired_gop (Gops.add_frame s.gops q) (s.next_index - packet_buffer_size)
        else Gops.add_frame s.gops q;
    corrector = (Corrector.correct_timestamp s.corrector p).0;
    data_coming_time = if s.data_coming_time == 0 then now else s.data_coming_time;
    stream_time = now;
  },
  ltb s.next_index 300 || s.next_index % 5 == 0,
)
  where
    q : Packet
    q = stamp s p

    noted : Stream
    noted = note_header (note_ready s now p) q

-- Packets put in one after the other, each with its time.
unfoldable pub add_all : Stream → List (ℕ × Packet) → Stream
add_all s [] = s
add_all s ((now, p) ∷ ps) = add_all (add_packet s now p).0 ps

-- What a stream knows of a player, in include/live/player_user.h.
pub record Player : Type 0 where
  pub meta : Option Packet
  pub audio_header : Option Packet
  pub video_header : Option Packet
  pub wait_meta : Bool
  pub wait_audio : Bool
  pub wait_video : Bool
  pub meta_index : ℕ
  pub audio_header_index : ℕ
  pub video_header_index : ℕ
  pub wait_timeout : Bool
  pub out_version : ℕ
  pub out_timestamp : ℤ
  pub out_frames : List Packet
  pub out_next : ℕ

abbrev pub new_player : Player
new_player = record {
  meta = none;
  audio_header = none;
  video_header = none;
  wait_meta = true;
  wait_audio = true;
  wait_video = true;
  meta_index = 0;
  audio_header_index = 0;
  video_header_index = 0;
  wait_timeout = false;
  out_version = 0;
  out_timestamp = pos 0;
  out_frames = [];
  out_next = 0;
}

-- `getNextFrame`: at most ten packets, each behind the one before it.
unfoldable pub next_frames : ℕ → Stream → ℕ → Player → Player
next_frames zero s index u = u
next_frames (suc i) s index u = elim (s.slots (index % packet_buffer_size)) [
  | none ↦ u
  | some p ↦
      let on = next_frames i s (p.index + 1) (record u {
        out_frames = u.out_frames ++ (p ∷ []);
        out_next = p.index + 1;
        out_timestamp = to_int32 (pos p.timestamp);
      }) in
      if ltb index s.next_index then on else u
]

abbrev pub get_next_frame : Stream → Player → Player
get_next_frame s u = next_frames 10 s u.out_next u

abbrev pub note_wait : ℕ → Player → Player
note_wait elapsed u = if leb 1000 elapsed then record u { wait_timeout = true } else u

-- The three steps of `locateGop` that look for a header.
unfoldable pub want_meta : Stream → ℕ → Player → Player
want_meta s index u =
    let found : Player = elim (Headers.get_header s.headers.meta index) [
      | none ↦ record u { wait_meta = true }
      | some p ↦ record u { wait_meta = false; meta = some p; meta_index = p.index }
    ] in
    if u.wait_meta && s.has_meta then found else record u { wait_meta = false }

unfoldable pub want_audio : Stream → ℕ → Player → Player
want_audio s index u =
    let found : Player = elim (Headers.get_header s.headers.audio index) [
      | none ↦ record u { wait_audio = true }
      | some p ↦ record u {
        wait_audio = false;
        audio_header = some p;
        audio_header_index = p.index;
      }
    ] in
    if u.wait_audio && s.has_audio then found else record u { wait_audio = false }

unfoldable pub want_video : Stream → ℕ → Player → Player
want_video s index u =
    let found : Player = elim (Headers.get_header s.headers.video index) [
      | none ↦ record u { wait_video = true }
      | some p ↦ record u {
        wait_video = false;
        video_header = some p;
        video_header_index = p.index;
      }
    ] in
    if u.wait_video && s.has_video then found else record u { wait_video = false }

-- `locateGop`, with the player's latency and the time since it came. A player that has to wait
-- for a header keeps the place that was found.
unfoldable pub wanted : Stream → ℕ → Player → Player
wanted s index u =
    want_video s index (want_audio s index (want_meta s index (record u { out_next = index })))

unfoldable pub settle : Stream → ℕ → Player → Player × Bool
settle s elapsed v =
    if v.wait_meta || v.wait_audio || v.wait_video then (note_wait elapsed v, false) else (
      record v { wait_meta = true; wait_audio = true; wait_video = true; out_version = s.version },
      true,
    )

unfoldable pub locate_gop : Stream → ℕ → ℕ → Player → Player × Bool
locate_gop s latency elapsed u = elim (Gops.get_gop_by_latency s.gops latency) [
  | none ↦ (note_wait elapsed u, false)
  | some g ↦ settle s elapsed (wanted s g.index u)
]

-- The three steps of `skipFrame` that look for a newer header.
unfoldable pub newer_meta : Stream → ℕ → Player → Player
newer_meta s index u = elim (Headers.get_header s.headers.meta index) [
  | none ↦ u
  | some p ↦
      if ltb u.meta_index p.index then record u { meta = some p; meta_index = p.index } else u
]

unfoldable pub newer_audio : Stream → ℕ → Player → Player
newer_audio s index u = elim (Headers.get_header s.headers.audio index) [
  | none ↦ u
  | some p ↦
      if ltb u.audio_header_index p.index
      then record u { audio_header = some p; audio_header_index = p.index }
      else u
]

unfoldable pub newer_video : Stream → ℕ → Player → Player
newer_video s index u = elim (Headers.get_header s.headers.video index) [
  | none ↦ u
  | some p ↦
      if ltb u.video_header_index p.index
      then record u { video_header = some p; video_header_index = p.index }
      else u
]

unfoldable pub skip_frame : Stream → ℕ → Player → Player
skip_frame s latency u = elim (Gops.get_gop_by_latency s.gops latency) [
  | none ↦ u
  | some g ↦
      if ltb g.index u.out_next
      then u
      else record (newer_video s g.index (newer_audio s g.index (newer_meta s g.index u))) {
        out_next = g.index;
      }
]

-- Whether a player is too far behind.
abbrev pub must_skip : Stream → ℕ → Player → Bool
must_skip s latency u =
    ltb (u.out_next + packet_buffer_size) s.next_index
    || ltb_ℤ (pos (2 * latency)) (pos s.gops.latest_timestamp -ℤ u.out_timestamp)

abbrev pub is_busy : Player → Bool
is_busy u =
    is_there u.meta || is_there u.audio_header || is_there u.video_header || some_left u.out_frames
  where
    is_there : Option Packet → Bool
    is_there none = false
    is_there (some p) = true

    some_left : List Packet → Bool
    some_left [] = false
    some_left (p ∷ ps) = true

-- `getFrames`.
unfoldable pub get_frames : Stream → ℕ → ℕ → Player → Player
get_frames s latency elapsed u =
    let located = locate_gop s latency elapsed u in
    if not (has_media s) || is_busy u
    then u
    else if ltb 0 u.out_next
    then get_next_frame s (if must_skip s latency u then skip_frame s latency u else u)
    else if located.1
    then get_next_frame s located.0
    else located.0
