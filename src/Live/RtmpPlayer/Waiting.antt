-- ===== src/Live/RtmpPlayer/Waiting.antt =====
-- A player whose connection is still writing.
use lssvc.Common.{
  Bool, Bool-cases, List, Option-cases, [], false, inl, inr, none, refl, some, true, ℕ, ◌∷◌, ◌≡◌,
}
use lssvc.Chunk.Send.{Outbound}
use lssvc.Live.Corrector as Corrector
use lssvc.Live.Stream.{Player, Stream, get_frames, has_media, is_busy}
use lssvc.Live.RtmpPlayer.{post_due, post_frames}
use lssvc.Chunk.{Packet}

post_due-sending :
    (u : Player) (c : Corrector.Corrector) (o : Outbound)
    → o.sending ≡ true
    → (a : Bool) × (post_due u c o ≡ some (u, c, o, a))
unfolding post_due
post_due-sending u c o e = elim (Option-cases u.meta) [
  | inr (p, m) ↦ (true, simp (m, e) refl)
  | inl m ↦ elim (Option-cases u.audio_header) [
    | inr (p, a) ↦ (true, simp (m, a, e) refl)
    | inl a ↦ elim (Option-cases u.video_header) [
      | inr (p, v) ↦ (true, simp (m, a, v, e) refl)
      | inl v ↦ no_header u.out_frames refl m a v
    ]
  ]
]
  where
    no_header :
        (fs : List Packet)
        → u.out_frames ≡ fs
        → u.meta ≡ none
        → u.audio_header ≡ none
        → u.video_header ≡ none
        → (a : Bool) × (post_due u c o ≡ some (u, c, o, a))
    no_header [] f m a v = (false, simp (m, a, v, f) refl)
    no_header (p ∷ ps) f m a v = (true, simp (m, a, v, f, e) refl)

get_frames-busy :
    (s : Stream) (latency elapsed : ℕ) (u : Player)
    → is_busy u ≡ true
    → get_frames s latency elapsed u ≡ u
unfolding get_frames
get_frames-busy s latency elapsed u b = elim (Bool-cases (has_media s)) [
  | inl m ↦ simp (m, b) refl
  | inr m ↦ simp m refl
]

-- While the connection is still writing, a player of a ready stream with media that has something to
-- send after `getFrames` keeps what it is due: to post its frames leaves
-- the connection and the corrector as they are, and to post them again, whenever that is, fetches
-- nothing more and changes nothing.
pub post_frames-waits :
    (s : Stream) (latency elapsed later : ℕ) (u : Player) (c : Corrector.Corrector) (o : Outbound)
    → s.ready ≡ true
    → has_media s ≡ true
    → o.sending ≡ true
    → is_busy (get_frames s latency elapsed u) ≡ true
    → (a : Bool) × (post_frames s latency elapsed u c o
        ≡ some (get_frames s latency elapsed u, c, o, a))
      × (post_frames s latency later (get_frames s latency elapsed u) c o
          ≡ some (get_frames s latency elapsed u, c, o, a))
unfolding post_frames
post_frames-waits s latency elapsed later u c o r m w b =
    let v = get_frames s latency elapsed u in
    let (a, e) = post_due-sending v c o w in
    (a, simp (r, m) e, simp (r, m, get_frames-busy s latency later v b) e)
