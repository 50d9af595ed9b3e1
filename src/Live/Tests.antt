-- ===== src/Live/Tests.antt =====
-- Streams, timestamps and sessions at concrete inputs.
use lssvc.Common.{
  Bool, List, [], arith, drop, false, get_elem?, length, min, none, refl, some, take, true, ℕ, ◌++◌,
  ◌+◌, ◌∷◌, ◌≡◌,
}
use lssvc.Common.Int.{pos, ◌-ℤ◌}
use lssvc.Chunk.{Packet, empty_header}
use lssvc.Live.{is_codec_header, is_key_frame, starts_key_frame}
use lssvc.Live.Corrector as Corrector
use lssvc.Live.Corrector.Steps.{Moves, correct_timestamp-Moves}
use lssvc.Live.Gops as Gops
use lssvc.Live.Headers as Headers
use lssvc.Live.Stream.{
  Stream, add_all, add_packet, get_frames, get_next_frame, has_media, init, is_busy, locate_gop,
  new_player, next_frames, note_header, note_ready, settle, stamp, want_audio, want_meta,
  want_video, wanted,
}
use lssvc.Live.Stream.Ring.{IsRing, IsRing-init, add_all-IsRing, stamped}
use lssvc.Live.Stream.Delivery.{IsServed, get_next_frame-in_order}
use lssvc.Live.Stream.Joining.{get_frames-joins}
use lssvc.Live.Session.{Session, player_rtmp}
use lssvc.Live.RtmpPlayer.Waiting.{post_frames-waits}
use lssvc.Live.RtmpPlayer.{post_frames}
use lssvc.Chunk.Send as Send

abbrev tag : ℕ → List ℕ → ℕ → Packet
tag typ bytes time = record {
  header = empty_header;
  capacity = length bytes;
  body = bytes;
  packet_type = typ;
  timestamp = time;
  index = 0;
}

-- The header of a video, a key frame, an audio frame and a frame between key frames.
abbrev four : List (ℕ × Packet)
four =
    (100, tag 1 (23 ∷ 0 ∷ []) 0)
    ∷ (101, tag 1 (23 ∷ 1 ∷ []) 40)
    ∷ (102, tag 2 (175 ∷ 1 ∷ []) 50)
    ∷ (103, tag 1 (39 ∷ 1 ∷ []) 80)
    ∷ []

abbrev live : Stream
live = add_all (init 0) four

live-IsRing : IsRing live (stamped (init 0) four)
live-IsRing = add_all-IsRing (init 0) [] four (IsRing-init 0)

add_all-IsRing_example : IsRing live (stamped (init 0) four)
add_all-IsRing_example = add_all-IsRing (init 0) [] four (IsRing-init 0)

live_length : live.next_index ≡ 4
unfolding add_all add_packet note_header note_ready
live_length = refl

get_next_frame-in_order_example :
    IsServed
      (record new_player { out_next = 1 })
      (take 10 (drop 1 (stamped (init 0) four)))
      (min (1 + 10) live.next_index)
      (get_next_frame live (record new_player { out_next = 1 }))
get_next_frame-in_order_example =
    get_next_frame-in_order live (stamped (init 0) four) (record new_player { out_next = 1 })
      live-IsRing (omega (arith, live_length)) (omega (arith, live_length))

abbrev one : List (ℕ × Packet)
one = (100, tag 1 (23 ∷ 0 ∷ []) 0) ∷ []

abbrev begun : Stream
begun = add_all (init 0) one

begun_length : begun.next_index ≡ 1
unfolding add_all add_packet note_header note_ready
begun_length = refl

begun_media : has_media begun ≡ true
unfolding add_all add_packet note_header note_ready is_codec_header stamp starts_key_frame
begun_media = refl

begun_locates : (locate_gop begun 1000 0 new_player).1 ≡ true
unfolding add_all add_packet note_header note_ready is_codec_header stamp starts_key_frame
    locate_gop settle wanted want_meta want_audio want_video Gops.get_gop_by_latency Gops.walk_back
    Gops.add_frame Headers.get_header Headers.last_before Headers.parse_codec_header
    Corrector.correct_timestamp ◌-ℤ◌
begun_locates = refl

get_frames-joins_example :
    (k : ℕ) × (p : Packet) × (get_elem? (stamped (init 0) one) k ≡ some p)
    × (is_key_frame p ≡ true)
    × ((get_frames begun 1000 0 new_player).out_frames
        ≡ [] ++ take 10 (drop k (stamped (init 0) one)))
get_frames-joins_example =
    get_frames-joins begun (stamped (init 0) one) 1000 0 new_player
      (add_all-IsRing (init 0) [] one (IsRing-init 0))
      (λ e. absurd (omega (arith, e, begun_length))) begun_media refl refl begun_locates

abbrev started : Corrector.Corrector
started = record Corrector.init { video_original = pos 500; video_corrected = pos 60 }

correct_timestamp-Moves_example :
    Moves started (Corrector.correct_timestamp started (tag 1 (39 ∷ 1 ∷ []) 5000)).0 5000
correct_timestamp-Moves_example =
    correct_timestamp-Moves started (tag 1 (39 ∷ 1 ∷ []) 5000) (λ e. omega arith, λ e. cc)

abbrev empty_session : Session
empty_session = record {
  users = λ u. record { user_type = player_rtmp; destroyed = false };
  publisher = none;
  players = [];
  player_live_time = 0;
  closed = [];
}

-- The player that just came in has its video header and a frame to send, but the connection writes.
abbrev writing : Send.Outbound
writing = record Send.init { sending = true }

begun_ready : begun.ready ≡ true
unfolding add_all add_packet note_header note_ready is_codec_header stamp starts_key_frame
begun_ready = refl

begun_busy : is_busy (get_frames begun 1000 0 new_player) ≡ true
unfolding get_frames next_frames add_all add_packet note_header note_ready is_codec_header stamp
    starts_key_frame locate_gop settle wanted want_meta want_audio want_video
    Gops.get_gop_by_latency Gops.walk_back Gops.add_frame Headers.get_header Headers.last_before
    Headers.parse_codec_header Corrector.correct_timestamp ◌-ℤ◌
begun_busy = refl

post_frames-waits_example :
    (a : Bool) × (post_frames begun 1000 0 new_player Corrector.init writing
      ≡ some (get_frames begun 1000 0 new_player, Corrector.init, writing, a))
    × (post_frames begun 1000 9 (get_frames begun 1000 0 new_player) Corrector.init writing
        ≡ some (get_frames begun 1000 0 new_player, Corrector.init, writing, a))
post_frames-waits_example =
    post_frames-waits begun 1000 0 9 new_player Corrector.init writing begun_ready begun_media refl
      begun_busy
