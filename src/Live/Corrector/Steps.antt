-- ===== src/Live/Corrector/Steps.antt =====
-- How far the corrected timestamps move from one frame to the next.
use lssvc.Common.{Bool-cases, arith, false, inl, inr, ltb, ℕ, ◌+◌, ◌<◌, ◌==◌, ◌≡◌}
use lssvc.Common.Int.{int_laws, pos, ℤ, ◌+ℤ◌, ◌-ℤ◌, ◌<ℤ◌, ◌≤ℤ◌}
use lssvc.Live.Corrector.{
  Corrector, audio_by_audio, audio_by_video, correct_timestamp, default_video_delta, far_off,
  fine_delta, first_video, is_unset, max_delta, next_video, not_below_zero, video_by_video,
}
use lssvc.Chunk.{Packet}
use lssvc.Live.{is_codec_header}

-- A new time against the one before: less than 100 away, and never below zero.
abbrev IsStep : ℤ → ℤ → Type 0
IsStep t t' = (pos 0 ≤ℤ t') × (t' <ℤ (t +ℤ pos max_delta)) × (t <ℤ (t' +ℤ pos max_delta))

fine-IsStep :
    (default : ℕ) (t delta : ℤ)
    → default < max_delta
    → pos 0 ≤ℤ t
    → IsStep t (not_below_zero (t +ℤ fine_delta default delta))
unfolding ◌+ℤ◌
fine-IsStep default t delta small h = ground arith

fine_delta-forward :
    (default : ℕ) (t delta : ℤ)
    → pos 0 ≤ℤ t
    → pos 0 ≤ℤ delta
    → t ≤ℤ not_below_zero (t +ℤ fine_delta default delta)
unfolding ◌+ℤ◌
fine_delta-forward default t delta h d = ground arith

-- A time that was seen has a corrected time that is not negative.
abbrev pub IsSound : Corrector → Type 0
IsSound c =
    (is_unset c.video_original ≡ false → pos 0 ≤ℤ c.video_corrected)
    × (is_unset c.audio_original ≡ false → pos 0 ≤ℤ c.audio_corrected)

-- How the times of a state move on to those of the next.
abbrev pub Moves : Corrector → Corrector → ℕ → Type 0
Moves c c' time =
    IsSound c'
    × (is_unset c.video_original ≡ false
        → IsStep c.video_corrected c'.video_corrected
          × (c.video_original ≤ℤ pos time → c.video_corrected ≤ℤ c'.video_corrected))

IsStep-self : (t : ℤ) → pos 0 ≤ℤ t → IsStep t t
IsStep-self t h = omega int_laws

audio_by_audio-Moves :
    (c : Corrector) (time : ℕ) → IsSound c → Moves c (audio_by_audio c time).0 time
unfolding audio_by_audio
audio_by_audio-Moves c time (v, a) = elim (Bool-cases (is_unset c.audio_original)) [
  | inl e ↦
      rw e ((v, λ u. omega arith), λ u. (IsStep-self c.video_corrected (v u), λ f. omega arith))
  | inr e ↦
      rw e ((v, λ u. omega arith), λ u. (IsStep-self c.video_corrected (v u), λ f. omega arith))
]

audio_by_video-Moves :
    (c : Corrector) (time : ℕ) → IsSound c → Moves c (audio_by_video c time).0 time
unfolding audio_by_video
audio_by_video-Moves c time (v, a) = elim (Bool-cases (ltb 1 (c.audio_numbers + 1))) [
  | inl e ↦
      rw e (audio_by_audio-Moves (record c { audio_numbers = c.audio_numbers + 1 }) time (v, a))
  | inr e ↦ rw e (elim (Bool-cases (is_unset c.video_original)) [
    | inl o ↦ rw o ((λ u. cc, λ u. omega arith), λ u. cc)
    | inr o ↦
        rw o (
          (λ u. v o, λ u. omega arith),
          λ u. (IsStep-self c.video_corrected (v o), λ f. omega arith),
        )
  ])
]

next_video-Moves : (c : Corrector) (time : ℕ) → IsSound c → Moves c (next_video c time).0 time
unfolding next_video
next_video-Moves c time (v, a) = (
  (λ u. omega arith, a),
  λ u. (
    fine-IsStep default_video_delta c.video_corrected (pos time -ℤ c.video_original) (omega arith)
        (v u),
    λ f.
        fine_delta-forward default_video_delta c.video_corrected (pos time -ℤ c.video_original)
          (v u) (omega (int_laws, f)),
  ),
)

first_video-IsSound : (c : Corrector) (time : ℕ) → IsSound c → IsSound (first_video c time)
unfolding first_video
first_video-IsSound c time (v, a) = elim (Bool-cases (is_unset c.audio_original)) [
  | inl e ↦ rw e ((λ u. omega arith, λ u. cc))
  | inr e ↦ rw e (elim (Bool-cases (far_off c time)) [
    | inl o ↦ rw o ((λ u. a e, λ u. a e))
    | inr o ↦ rw o ((λ u. omega arith, λ u. a e))
  ])
]

video_by_video-Moves :
    (c : Corrector) (time : ℕ) → IsSound c → Moves c (video_by_video c time).0 time
unfolding video_by_video
video_by_video-Moves c time s = elim (Bool-cases (is_unset c.video_original)) [
  | inl e ↦
      let c' = record c { audio_numbers = 0 } in
      rw e
        ((next_video-Moves (first_video c' time) time (first_video-IsSound c' time s)).0, λ u. cc)
  | inr e ↦
      let (sound, step) = next_video-Moves (record c { audio_numbers = 0 }) time s in
      rw e (sound, λ u. step e)
]

-- Whatever packet comes, a state whose times are sound stays so; and once a video frame was seen,
-- the corrected time of the video moves by less than 100 ms, is never negative, and does not go
-- back where the video's own time does not.
pub correct_timestamp-Moves :
    (c : Corrector) (p : Packet) → IsSound c → Moves c (correct_timestamp c p).0 p.timestamp
unfolding correct_timestamp
correct_timestamp-Moves c p s = elim (Bool-cases (is_codec_header p)) [
  | inl e ↦ rw e stays
  | inr e ↦ rw e (elim (Bool-cases (p.packet_type == 1)) [
    | inl v ↦ rw v (video_by_video-Moves c p.timestamp s)
    | inr v ↦ rw v (elim (Bool-cases (p.packet_type == 2)) [
      | inl a ↦ rw a (audio_by_video-Moves c p.timestamp s)
      | inr a ↦ rw a stays
    ])
  ])
]
  where
    stays : Moves c c p.timestamp
    stays = (s, λ u. (IsStep-self c.video_corrected (s.0 u), λ f. omega arith))
