-- ===== src/Live/Stream/Delivery.antt =====
-- What a player is handed out of the ring, against the history.
use lssvc.Common.{
  All, Bool-cases, List, Option-cases, [], ap, arith, drop, drop_all, false, get_elem?, inl, inr,
  length, ltb, ltb→lt, min, refl, some, some_eq, suc, sym, take, true, zero, ℕ, ◌%◌, ◌&&◌, ◌++◌,
  ◌+◌, ◌<◌, ◌∙◌, ◌∷◌, ◌≡◌, ◌≤◌,
}
use lssvc.Common.Int.{pos}
use lssvc.Chunk.{Packet}
use lssvc.Live.{to_int32}
use lssvc.Live.Gops
use mathlib.Core.List.{append-nil, append_assoc}
use mathlib.Core.Path.{subst}
use lssvc.Live.Stream.{Player, Stream, get_next_frame, next_frames, packet_buffer_size}
use lssvc.Live.Stream.Ring.{IsRing}

get_elem?-some {ℓ} :
    {A : Type ℓ} (xs : List A) (k : ℕ) → k < length xs → (a : A) × (get_elem? xs k ≡ some a)
get_elem?-some [] k h = absurd (omega arith)
get_elem?-some (x ∷ xs) zero h = (x, refl)
get_elem?-some (x ∷ xs) (suc k) h = get_elem?-some xs k (omega arith)

drop_next {ℓ} :
    {A : Type ℓ} (xs : List A) (k : ℕ) (a : A)
    → get_elem? xs k ≡ some a
    → drop k xs ≡ a ∷ drop (suc k) xs
drop_next [] k a e = cc
drop_next (x ∷ xs) zero a e = rw (some_eq x a e)
drop_next (x ∷ xs) (suc k) a e = drop_next xs k a e

-- What the player has got, and where it goes on.
abbrev pub IsServed : Player → List Packet → ℕ → Player → Type 0
IsServed u frames next v = (v.out_frames ≡ u.out_frames ++ frames) × (v.out_next ≡ next)

next_frames-end :
    (i : ℕ) (s : Stream) (index : ℕ) (u : Player)
    → ltb index s.next_index ≡ false
    → next_frames i s index u ≡ u
unfolding next_frames
next_frames-end zero s index u e = refl
next_frames-end (suc i) s index u e = elim (Option-cases (s.slots (index % packet_buffer_size))) [
  | inl nothing ↦ rw (nothing, next_frames)
  | inr (p, there) ↦ rw (there, next_frames) (rw e)
]

-- The player behind this packet.
abbrev after : Player → Packet → Player
after u p = record u {
  out_frames = u.out_frames ++ (p ∷ []);
  out_next = p.index + 1;
  out_timestamp = to_int32 (pos p.timestamp);
}

next_frames-step :
    (i : ℕ) (s : Stream) (u : Player) (p : Packet)
    → ltb u.out_next s.next_index ≡ true
    → s.slots (u.out_next % packet_buffer_size) ≡ some p
    → next_frames (suc i) s u.out_next u ≡ next_frames i s (after u p).out_next (after u p)
unfolding next_frames
next_frames-step i s u p more slot = rw (slot, next_frames) (rw more)

next_frames_lem :
    (i : ℕ) (s : Stream) (history : List Packet) (u : Player)
    → IsRing s history
    → u.out_next ≤ s.next_index
    → s.next_index ≤ u.out_next + packet_buffer_size
    → IsServed u
        (take i (drop u.out_next history))
        (min (u.out_next + i) s.next_index)
        (next_frames i s u.out_next u)
unfolding next_frames
next_frames_lem zero s history u r h w = (sym (append-nil u.out_frames), omega (arith, h))
next_frames_lem (suc i) s history u r h w = elim (Bool-cases (ltb u.out_next s.next_index)) [
  | inl more ↦
      let lt = ltb→lt _ _ more in
      let (p, e) = get_elem?-some history u.out_next (omega (arith, lt, r.count)) in
      let slot = r.found u.out_next lt w ∙ e in
      let place = r.placed u.out_next p e in
      rw (next_frames-step i s u p more slot, drop_next history u.out_next p e)
        (further lt p place (next_frames_lem i s history (after u p) r))
  | inr all ↦ ended all
]
  where
    further :
        u.out_next < s.next_index
        → (p : Packet) → p.index ≡ u.out_next
        → ((after u p).out_next ≤ s.next_index
            → s.next_index ≤ (after u p).out_next + packet_buffer_size
            → IsServed
                (after u p)
                (take i (drop (after u p).out_next history))
                (min ((after u p).out_next + i) s.next_index)
                (next_frames i s (after u p).out_next (after u p)))
        → IsServed u
            (p ∷ take i (drop (suc u.out_next) history))
            (min (u.out_next + suc i) s.next_index)
            (next_frames i s (p.index + 1) (after u p))
    further lt p place ih =
        let one : p.index + 1 ≡ suc u.out_next = omega (arith, place) in
        let (frames, next) = ih (omega (arith, lt, place)) (omega (arith, w, place)) in
        (
          frames
              ∙ append_assoc u.out_frames (p ∷ []) (take i (drop (p.index + 1) history))
              ∙ ap (λ k. u.out_frames ++ (p ∷ take i (drop k history))) one,
          next ∙ omega (arith, place),
        )

    ended :
        ltb u.out_next s.next_index ≡ false
        → IsServed u
            (take (suc i) (drop u.out_next history))
            (min (u.out_next + suc i) s.next_index)
            (next_frames (suc i) s u.out_next u)
    ended all =
        rw
          (
            next_frames-end (suc i) s u.out_next u all,
            drop_all u.out_next history (omega (arith, r.count, not_more all)),
          )
          (sym (append-nil u.out_frames), omega (arith, not_more all, h))
      where
        not_more : ltb u.out_next s.next_index ≡ false → s.next_index ≤ u.out_next
        not_more e = ground arith

-- `getNextFrame` hands out the next ten packets of the stream, or as many as there are, in order,
-- each once, behind what the player has, if its place is among the last 1000; and it goes on
-- behind them.
pub get_next_frame-in_order :
    (s : Stream) (history : List Packet) (u : Player)
    → IsRing s history
    → u.out_next ≤ s.next_index
    → s.next_index ≤ u.out_next + packet_buffer_size
    → IsServed u
        (take 10 (drop u.out_next history))
        (min (u.out_next + 10) s.next_index)
        (get_next_frame s u)
get_next_frame-in_order s history u r h w = next_frames_lem 10 s history u r h w

walk_back-All :
    (P : Gops.Gop → Type 0) (latest latency : ℕ) (gs : List Gops.Gop) (g : Gops.Gop)
    → All P gs
    → (Gops.walk_back latest latency gs).1 ≡ some g
    → P g
unfolding Gops.walk_back
walk_back-All P latest latency [] g h e = cc
walk_back-All P latest latency (x ∷ gs) g h e =
    elim (Bool-cases ((Gops.walk_back latest latency gs).0 && Gops.is_within latest latency x)) [
      | inl here ↦ subst P (some_eq x g (rw here at e)) h.0
      | inr gone ↦ walk_back-All P latest latency gs g h.1 (rw gone at e)
    ]

-- What holds of all groups holds of the one found.
pub get_gop_by_latency-All :
    (P : Gops.Gop → Type 0) (gops : Gops.Gops) (latency : ℕ) (g : Gops.Gop)
    → All P gops.gops
    → Gops.get_gop_by_latency gops latency ≡ some g
    → P g
unfolding Gops.get_gop_by_latency
get_gop_by_latency-All P gops latency g h e =
    walk_back-All P gops.latest_timestamp latency gops.gops g h e
