-- ===== src/Live/RtmpPlayer.antt =====
-- src/live/rtmp_playeruser.cpp: what a player is due goes to its connection, whose context is there.
pub mod Waiting
use lssvc.Common.{
  Bool, List, Option, [], false, if◌then◌else◌, none, not, some, true, ℕ, ◌>>=◌, ◌||◌, ◌∷◌,
}
use lssvc.Chunk.{Packet}
use lssvc.Chunk.Send.{Outbound, build_chunk, send}
use lssvc.Live.Corrector as Corrector
use lssvc.Live.Stream.{Player, Stream, get_frames, has_media}

-- `pushFrame` for a header, where the context is ready.
unfoldable pub push_header_frame : Outbound → Packet → Option Outbound
push_header_frame o p = build_chunk o p 0 true >>= send

unfoldable pub build_frames :
    Corrector.Corrector → Outbound → List Packet → Option (Corrector.Corrector × Outbound)
build_frames c o [] = some (c, o)
build_frames c o (p ∷ ps) =
    let (c', ts) = Corrector.correct_timestamp c p in
    build_chunk o p ts false >>= λ o'. build_frames c' o' ps

unfoldable pub push_frames :
    Corrector.Corrector → Outbound → List Packet → Option (Corrector.Corrector × Outbound)
push_frames c o ps = build_frames c o ps >>= λ (c', o'). send o' >>= λ o''. some (c', o'')

-- The player, its corrector, its connection, and whether it stays active.
abbrev pub Posted : Type 0
Posted = Player × Corrector.Corrector × Outbound × Bool

-- The frames first in turn: metadata, then the headers, then the frames themselves.
unfoldable pub post_due : Player → Corrector.Corrector → Outbound → Option Posted
post_due u c o = meta_first u.meta
  where
    frames : List Packet → Option Posted
    frames [] = some (u, c, o, false)
    frames (p ∷ ps) =
        if o.sending
        then some (u, c, o, true)
        else (push_frames c o (p ∷ ps) >>= λ (c', o').
            some (record u { out_frames = [] }, c', o', true))

    video_next : Option Packet → Option Posted
    video_next none = frames u.out_frames
    video_next (some p) =
        if o.sending
        then some (u, c, o, true)
        else (push_header_frame o p >>= λ o'. some (record u { video_header = none }, c, o', true))

    audio_next : Option Packet → Option Posted
    audio_next none = video_next u.video_header
    audio_next (some p) =
        if o.sending
        then some (u, c, o, true)
        else (push_header_frame o p >>= λ o'. some (record u { audio_header = none }, c, o', true))

    meta_first : Option Packet → Option Posted
    meta_first none = audio_next u.audio_header
    meta_first (some p) =
        if o.sending
        then some (u, c, o, true)
        else (push_header_frame o p >>= λ o'. some (record u { meta = none }, c, o', true))

unfoldable pub post_frames :
    Stream → ℕ → ℕ → Player → Corrector.Corrector → Outbound → Option Posted
post_frames s latency elapsed u c o =
    if not s.ready || not (has_media s)
    then some (u, c, o, true)
    else post_due (get_frames s latency elapsed u) c o
