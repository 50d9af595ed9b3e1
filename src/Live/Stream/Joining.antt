-- ===== src/Live/Stream/Joining.antt =====
-- How a player comes into a stream: what it has to wait for, and where it starts.
use lssvc.Common.{
  Bool-cases, List, Option-cases, arith, drop, false, get_elem?, ge→ltb, inl, inr, leb, none, refl,
  some, take, true, ℕ, ◌&&◌, ◌++◌, ◌+◌, ◌||◌, ◌∙◌, ◌≡◌, ◌≢◌, ◌≤◌, ◌⊎◌,
}
use lssvc.Live.Gops
use lssvc.Live.Headers
use lssvc.Live.Stream.{
  Player, Stream, get_frames, has_media, is_busy, locate_gop, packet_buffer_size, settle,
  want_audio, want_meta, want_video, wanted,
}
use lssvc.Chunk.{Packet}
use lssvc.Live.{is_key_frame}
use lssvc.Live.Stream.Ring.{IsRing, IsStart, get_elem?_lt}
use lssvc.Live.Stream.Delivery.{get_gop_by_latency-All, get_next_frame-in_order}

-- A step that looks for a header leaves the place of the player and its frames as they are.
abbrev Keeps : Player → Player → Type 0
Keeps u v = (v.out_next ≡ u.out_next) × (v.out_frames ≡ u.out_frames)

want_meta-Keeps : (s : Stream) (index : ℕ) (u : Player) → Keeps u (want_meta s index u)
unfolding want_meta
want_meta-Keeps s index u = elim (Bool-cases (u.wait_meta && s.has_meta)) [
  | inr e ↦ rw e (refl, refl)
  | inl e ↦ elim (Option-cases (Headers.get_header s.headers.meta index)) [
    | inl o ↦ rw e (rw (o, want_meta) (refl, refl))
    | inr (p, o) ↦ rw e (rw (o, want_meta) (refl, refl))
  ]
]

want_audio-Keeps : (s : Stream) (index : ℕ) (u : Player) → Keeps u (want_audio s index u)
unfolding want_audio
want_audio-Keeps s index u = elim (Bool-cases (u.wait_audio && s.has_audio)) [
  | inr e ↦ rw e (refl, refl)
  | inl e ↦ elim (Option-cases (Headers.get_header s.headers.audio index)) [
    | inl o ↦ rw e (rw (o, want_audio) (refl, refl))
    | inr (p, o) ↦ rw e (rw (o, want_audio) (refl, refl))
  ]
]

want_video-Keeps : (s : Stream) (index : ℕ) (u : Player) → Keeps u (want_video s index u)
unfolding want_video
want_video-Keeps s index u = elim (Bool-cases (u.wait_video && s.has_video)) [
  | inr e ↦ rw e (refl, refl)
  | inl e ↦ elim (Option-cases (Headers.get_header s.headers.video index)) [
    | inl o ↦ rw e (rw (o, want_video) (refl, refl))
    | inr (p, o) ↦ rw e (rw (o, want_video) (refl, refl))
  ]
]

wanted-Keeps :
    (s : Stream) (index : ℕ) (u : Player) → Keeps (record u { out_next = index }) (wanted s index u)
unfolding wanted
wanted-Keeps s index u =
    let v = record u { out_next = index } in
    let m = want_meta s index v in
    let a = want_audio s index m in
    let (n, f) = want_meta-Keeps s index v in
    let (n', f') = want_audio-Keeps s index m in
    let (n'', f'') = want_video-Keeps s index a in (n'' ∙ n' ∙ n, f'' ∙ f' ∙ f)

settle-Keeps : (s : Stream) (elapsed : ℕ) (v : Player) → Keeps v (settle s elapsed v).0
unfolding settle
settle-Keeps s elapsed v = elim (Bool-cases (v.wait_meta || v.wait_audio || v.wait_video)) [
  | inr e ↦ rw e (refl, refl)
  | inl e ↦ rw e (elim (Bool-cases (leb 1000 elapsed)) [
    | inl l ↦ rw l (refl, refl)
    | inr l ↦ rw l (refl, refl)
  ])
]

-- `locateGop` puts the player at the group that it found, whether or not it has to wait.
locate_gop-place :
    (s : Stream) (latency elapsed : ℕ) (u : Player) (g : Gops.Gop)
    → Gops.get_gop_by_latency s.gops latency ≡ some g
    → Keeps (record u { out_next = g.index }) (locate_gop s latency elapsed u).0
unfolding locate_gop
locate_gop-place s latency elapsed u g e =
    let (n, f) = wanted-Keeps s g.index u in
    let (n', f') = settle-Keeps s elapsed (wanted s g.index u) in
    rw (e, locate_gop) (n' ∙ n, f' ∙ f)

no_gop :
    (s : Stream) (latency elapsed : ℕ) (u : Player)
    → Gops.get_gop_by_latency s.gops latency ≡ none
    → (locate_gop s latency elapsed u).1 ≡ false
unfolding locate_gop
no_gop s latency elapsed u e = rw (e, locate_gop) refl

-- A player that has no place and nothing left to send, and for whom `locateGop` finds a place in a
-- stream with media whose ring agrees with its history, is handed the packets of the stream from a
-- key frame on, ten or as many as there are, in order, unless the stream has just 1001 packets.
pub get_frames-joins :
    (s : Stream) (history : List Packet) (latency elapsed : ℕ) (u : Player)
    → IsRing s history
    → s.next_index ≢ 1001
    → has_media s ≡ true
    → is_busy u ≡ false
    → u.out_next ≡ 0
    → (locate_gop s latency elapsed u).1 ≡ true
    → (k : ℕ) × (p : Packet) × (get_elem? history k ≡ some p)
      × (is_key_frame p ≡ true)
      × ((get_frames s latency elapsed u).out_frames ≡ u.out_frames ++ take 10 (drop k history))
unfolding get_frames
get_frames-joins s history latency elapsed u r n media free at_start found =
    elim (Option-cases (Gops.get_gop_by_latency s.gops latency)) [
      | inl e ↦ let gone = no_gop s latency elapsed u e in cc
      | inr (g, e) ↦
          let (near, p, there, key) =
            get_gop_by_latency-All (IsStart s.next_index history) s.gops latency g r.starts e in
          let v = (locate_gop s latency elapsed u).0 in
          let (place, same) = locate_gop-place s latency elapsed u g e in
          let inside = get_elem?_lt history g.index p there in
          let (frames, _) =
            get_next_frame-in_order s history v r (omega (arith, place, inside, r.count))
              (omega (arith, place, in_ring g near)) in
          (
            g.index,
            p,
            there,
            key,
            rw (media, free, ge→ltb 0 u.out_next (omega (arith, at_start)), found)
                (frames ∙ rw (same, place) refl),
          )
    ]
  where
    in_ring :
        (g : Gops.Gop)
        → (s.next_index ≤ g.index + packet_buffer_size) ⊎ (s.next_index ≡ packet_buffer_size + 1)
        → s.next_index ≤ g.index + packet_buffer_size
    in_ring g (inl h) = h
    in_ring g (inr h) = absurd (n h)
