-- ===== src/Live/Stream/Metadata.antt =====
-- The metadata of a stream and the players that come in.
use lssvc.Common.{
  Bool-cases, List, Option-cases, [], false, inl, inr, leb, refl, ℕ, ◌&&◌, ◌||◌, ◌∙◌, ◌∷◌, ◌≡◌,
}
use lssvc.Chunk.{Packet}
use lssvc.Live.{is_audio, is_codec_header, is_meta, is_video, starts_key_frame}
use lssvc.Live.Gops
use lssvc.Live.Headers
use lssvc.Live.Stream.{
  Player, Stream, add_all, add_packet, init, locate_gop, note_header, note_ready, settle, stamp,
  want_audio, want_meta, want_video, wanted,
}

note_header-has_meta : (s : Stream) (p : Packet) → (note_header s p).has_meta ≡ s.has_meta
unfolding note_header
note_header-has_meta s p = elim (Bool-cases (is_codec_header p)) [
  | inr e ↦ rw e refl
  | inl e ↦ rw e (elim (Bool-cases (is_video p)) [
    | inl v ↦ rw v refl
    | inr v ↦ rw v (elim (Bool-cases (is_audio p)) [
      | inl a ↦ rw a refl
      | inr a ↦ rw a (elim (Bool-cases (is_meta p)) [ inl m ↦ rw m refl | inr m ↦ rw m refl ])
    ])
  ])
]

note_ready-has_meta :
    (s : Stream) (now : ℕ) (p : Packet) → (note_ready s now p).has_meta ≡ s.has_meta
unfolding note_ready
note_ready-has_meta s now p = elim (Bool-cases (is_video p && starts_key_frame p)) [
  | inl e ↦ rw e refl
  | inr e ↦ rw e refl
]

add_packet-has_meta :
    (s : Stream) (now : ℕ) (p : Packet) → (add_packet s now p).0.has_meta ≡ s.has_meta
unfolding add_packet
add_packet-has_meta s now p =
    note_header-has_meta (note_ready s now p) (stamp s p) ∙ note_ready-has_meta s now p

add_all-has_meta :
    (s : Stream) (packets : List (ℕ × Packet)) → (add_all s packets).has_meta ≡ s.has_meta
unfolding add_all
add_all-has_meta s [] = refl
add_all-has_meta s ((now, p) ∷ ps) =
    add_all-has_meta (add_packet s now p).0 ps ∙ add_packet-has_meta s now p

want_audio-meta : (s : Stream) (index : ℕ) (u : Player) → (want_audio s index u).meta ≡ u.meta
unfolding want_audio
want_audio-meta s index u = elim (Bool-cases (u.wait_audio && s.has_audio)) [
  | inr e ↦ rw e refl
  | inl e ↦ elim (Option-cases (Headers.get_header s.headers.audio index)) [
    | inl o ↦ rw e (rw (o, want_audio) refl)
    | inr (p, o) ↦ rw e (rw (o, want_audio) refl)
  ]
]

want_video-meta : (s : Stream) (index : ℕ) (u : Player) → (want_video s index u).meta ≡ u.meta
unfolding want_video
want_video-meta s index u = elim (Bool-cases (u.wait_video && s.has_video)) [
  | inr e ↦ rw e refl
  | inl e ↦ elim (Option-cases (Headers.get_header s.headers.video index)) [
    | inl o ↦ rw e (rw (o, want_video) refl)
    | inr (p, o) ↦ rw e (rw (o, want_video) refl)
  ]
]

want_meta-none :
    (s : Stream) (index : ℕ) (u : Player) → s.has_meta ≡ false → (want_meta s index u).meta ≡ u.meta
unfolding want_meta
want_meta-none s index u e = elim (Bool-cases u.wait_meta) [
  | inl w ↦ rw (w, e) refl
  | inr w ↦ rw w refl
]

settle-meta : (s : Stream) (elapsed : ℕ) (v : Player) → (settle s elapsed v).0.meta ≡ v.meta
unfolding settle
settle-meta s elapsed v = elim (Bool-cases (v.wait_meta || v.wait_audio || v.wait_video)) [
  | inr e ↦ rw e refl
  | inl e ↦ rw e (elim (Bool-cases (leb 1000 elapsed)) [ inl l ↦ rw l refl | inr l ↦ rw l refl ])
]

locate_gop-meta :
    (s : Stream) (latency elapsed : ℕ) (u : Player)
    → s.has_meta ≡ false
    → (locate_gop s latency elapsed u).0.meta ≡ u.meta
unfolding locate_gop wanted
locate_gop-meta s latency elapsed u e =
    elim (Option-cases (Gops.get_gop_by_latency s.gops latency)) [
      | inl o ↦
          rw (o, locate_gop)
            (elim (Bool-cases (leb 1000 elapsed)) [ inl l ↦ rw l refl | inr l ↦ rw l refl ])
      | inr (g, o) ↦
          let v = record u { out_next = g.index } in
          let m = want_meta s g.index v in
          rw (o, locate_gop)
            (settle-meta s elapsed (wanted s g.index u)
              ∙ want_video-meta s g.index (want_audio s g.index m)
              ∙ want_audio-meta s g.index m
              ∙ want_meta-none s g.index v e)
    ]

-- `has_meta_` never becomes true: whatever was put into a new stream, `locateGop` leaves
-- the metadata of a player as it was.
pub locate_gop-no_meta :
    (now : ℕ) (packets : List (ℕ × Packet)) (latency elapsed : ℕ) (u : Player)
    → (locate_gop (add_all (init now) packets) latency elapsed u).0.meta ≡ u.meta
locate_gop-no_meta now packets latency elapsed u =
    locate_gop-meta (add_all (init now) packets) latency elapsed u
      (add_all-has_meta (init now) packets)
