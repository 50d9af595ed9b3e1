-- ===== src/Live/Stream/Ring.antt =====
-- The ring against the history of the stream: all the packets that were put in, in order.
use lssvc.Common.{
  ==_self, All, Bool-cases, List, [], ap, arith, false, get_elem?, if◌then◌else◌, inl, inr, leb,
  length, length-append, ltb, ltb→lt, refl, some, some_eq, suc, sym, true, zero, ℕ, ◌%◌, ◌&&◌, ◌++◌,
  ◌+◌, ◌-◌, ◌<◌, ◌==◌, ◌∙◌, ◌∷◌, ◌≡◌, ◌≤◌, ◌⊎◌,
}
use lssvc.Chunk.{Packet}
use lssvc.Live.{is_key_frame, is_video, starts_key_frame}
use lssvc.Live.Gops
use mathlib.Core.List.{append-nil, append_assoc}
use lssvc.Live.Stream.{Stream, add_all, add_packet, init, packet_buffer_size, put, stamp}

-- A group of pictures that a player may start with: a key frame of the stream, still in the ring.
-- The one moment of an exception is a stream of 1001 packets, whose first one is just overwritten.
abbrev pub IsStart : ℕ → List Packet → Gops.Gop → Type 0
IsStart next history g =
    ((next ≤ g.index + packet_buffer_size) ⊎ (next ≡ packet_buffer_size + 1))
    × (p : Packet) × (get_elem? history g.index ≡ some p)
    × (is_key_frame p ≡ true)

-- Each index of the last 1000 finds its packet in its slot, and each packet carries its place.
pub record IsRing (s : Stream) (history : List Packet) : Type 0 where
  pub count : length history ≡ s.next_index
  pub found :
      (k : ℕ)
      → k < s.next_index
      → s.next_index ≤ k + packet_buffer_size
      → s.slots (k % packet_buffer_size) ≡ get_elem? history k
  pub placed : (k : ℕ) (p : Packet) → get_elem? history k ≡ some p → p.index ≡ k
  pub starts : All (IsStart s.next_index history) s.gops.gops

get_elem?-append_front {ℓ} :
    {A : Type ℓ} (xs ys : List A) (k : ℕ) → k < length xs → get_elem? (xs ++ ys) k ≡ get_elem? xs k
get_elem?-append_front [] ys k h = absurd (omega arith)
get_elem?-append_front (x ∷ xs) ys zero h = refl
get_elem?-append_front (x ∷ xs) ys (suc k) h = get_elem?-append_front xs ys k (omega arith)

get_elem?-append_last {ℓ} :
    {A : Type ℓ} (xs : List A) (y : A) (k : ℕ)
    → k ≡ length xs
    → get_elem? (xs ++ (y ∷ [])) k ≡ some y
get_elem?-append_last [] y zero h = refl
get_elem?-append_last [] y (suc k) h = absurd (omega arith)
get_elem?-append_last (x ∷ xs) y zero h = absurd (omega arith)
get_elem?-append_last (x ∷ xs) y (suc k) h = get_elem?-append_last xs y k (omega arith)

pub get_elem?_lt {ℓ} :
    {A : Type ℓ} (xs : List A) (k : ℕ) (a : A) → get_elem? xs k ≡ some a → k < length xs
get_elem?_lt [] k a e = cc
get_elem?_lt (x ∷ xs) zero a e = omega arith
get_elem?_lt (x ∷ xs) (suc k) a e = omega (arith, get_elem?_lt xs k a e)

All-snoc {ℓ κ} :
    {A : Type ℓ} (P : A → Type κ) (xs : List A) (y : A) → All P xs → P y → All P (xs ++ (y ∷ []))
All-snoc P [] y h p = (p, tt)
All-snoc P (x ∷ xs) y h p = (h.0, All-snoc P xs y h.1 p)

pub All-imp {ℓ κ κ'} :
    {A : Type ℓ} (P : A → Type κ) (Q : A → Type κ') (xs : List A)
    → ((a : A) → P a → Q a)
    → All P xs
    → All Q xs
All-imp P Q [] f h = tt
All-imp P Q (x ∷ xs) f h = (f x h.0, All-imp P Q xs f h.1)

-- What is left of the groups keeps what was known of them, and lies behind the limit.
All-expire :
    (P : Gops.Gop → Type 0) (limit : ℕ) (gs : List Gops.Gop)
    → All P gs
    → All (λ g. P g × (limit < g.index)) (Gops.expire limit gs)
unfolding Gops.expire
All-expire P limit [] h = tt
All-expire P limit (g ∷ gs) h = elim (Bool-cases (leb g.index limit)) [
  | inl old ↦ rw old (All-expire P limit gs h.1)
  | inr young ↦ rw young ((h.0, ground arith), All-expire P limit gs h.1)
]

stamp_index : (s : Stream) (p : Packet) → (stamp s p).index ≡ s.next_index
unfolding stamp
stamp_index s p = elim (Bool-cases (is_video p && starts_key_frame p)) [
  | inl e ↦ rw e
  | inr e ↦ rw e
]

-- The key frame of a group, wherever it lies.
IsKey : List Packet → Gops.Gop → Type 0
IsKey history g = (p : Packet) × (get_elem? history g.index ≡ some p) × (is_key_frame p ≡ true)

IsKey-append :
    (history : List Packet) (q : Packet) (g : Gops.Gop)
    → IsKey history g
    → IsKey (history ++ (q ∷ [])) g
unfolding IsKey
IsKey-append history q g (p, e, k) =
    (p, get_elem?-append_front history (q ∷ []) g.index (get_elem?_lt history g.index p e) ∙ e, k)

add_frame-IsKey :
    (gops : Gops.Gops) (history : List Packet) (q : Packet)
    → q.index ≡ length history
    → All (IsKey history) gops.gops
    → All (IsKey (history ++ (q ∷ []))) (Gops.add_frame gops q).gops
unfolding Gops.add_frame
add_frame-IsKey gops history q e h =
    let before =
      All-imp (IsKey history) (IsKey (history ++ (q ∷ []))) gops.gops (IsKey-append history q) h in
    elim (Bool-cases (is_key_frame q)) [
      | inl k ↦ rw k (
          All-snoc (IsKey (history ++ (q ∷ []))) gops.gops
            (record { index = q.index; timestamp = q.timestamp }) before
            (unfold IsKey in (q, get_elem?-append_last history q q.index e, k)))
      | inr k ↦ rw k before
    ]

-- An empty stream.
pub IsRing-init : (now : ℕ) → IsRing (init now) []
IsRing-init now = record {
  count = refl;
  found = λ k h w. absurd (omega arith);
  placed = λ k p e. cc;
  starts = tt;
}

add_packet-starts :
    (s : Stream) (history : List Packet) (q : Packet)
    → q.index ≡ length history
    → length history ≡ s.next_index
    → All (IsStart s.next_index history) s.gops.gops
    → All
        (IsStart (s.next_index + 1) (history ++ (q ∷ [])))
        (if ltb packet_buffer_size s.next_index
          then Gops.clear_expired_gop (Gops.add_frame s.gops q) (s.next_index - packet_buffer_size)
          else Gops.add_frame s.gops q).gops
unfolding IsKey
add_packet-starts s history q place count h =
    let all =
      All-imp (IsStart s.next_index history) (IsKey history) s.gops.gops
        (λ g (window, p, e, k). (p, e, k)) h in
    let keys = add_frame-IsKey s.gops history q place all in
    elim (Bool-cases (ltb packet_buffer_size s.next_index)) [
      | inl full ↦ rw full (
          All-imp
            (λ g. IsKey (history ++ (q ∷ [])) g × (s.next_index - packet_buffer_size < g.index))
            (IsStart (s.next_index + 1) (history ++ (q ∷ []))) _
            (λ g ((p, e, k), lt). (inl (omega (arith, lt)), p, e, k))
            (All-expire (IsKey (history ++ (q ∷ []))) (s.next_index - packet_buffer_size) _ keys))
      | inr early ↦ rw early (
          All-imp (IsKey (history ++ (q ∷ []))) (IsStart (s.next_index + 1) (history ++ (q ∷ []))) _
            (λ g (p, e, k). (early_start g (ground arith), p, e, k)) keys)
    ]
  where
    early_start :
        (g : Gops.Gop)
        → s.next_index ≤ packet_buffer_size
        → (s.next_index + 1 ≤ g.index + packet_buffer_size)
          ⊎ (s.next_index + 1 ≡ packet_buffer_size + 1)
    early_start g le = ground arith

-- What `addPacket` puts in is the next packet of the history.
pub IsRing-add_packet :
    (s : Stream) (history : List Packet) (now : ℕ) (p : Packet)
    → IsRing s history
    → IsRing (add_packet s now p).0 (history ++ (stamp s p ∷ []))
unfolding add_packet
IsRing-add_packet s history now p r = record {
  count = omega (arith, r.count, length-append history (stamp s p ∷ []));
  found = found';
  placed = placed';
  starts = add_packet-starts s history (stamp s p) (stamp_index s p ∙ sym r.count) r.count r.starts;
}
  where
    found' :
        (k : ℕ)
        → k < s.next_index + 1
        → s.next_index + 1 ≤ k + packet_buffer_size
        → put s.slots (s.next_index % packet_buffer_size) (stamp s p) (k % packet_buffer_size)
          ≡ get_elem? (history ++ (stamp s p ∷ [])) k
    found' k less near = elim (Bool-cases (k == s.next_index)) [
      | inl same ↦
          let e : k ≡ s.next_index = ground arith in
          rw (e, ==_self (s.next_index % packet_buffer_size))
            (sym (get_elem?-append_last history (stamp s p) s.next_index (sym r.count)))
      | inr other ↦
          let lt : k < s.next_index = ground arith in
          let apart : (k % packet_buffer_size == s.next_index % packet_buffer_size) ≡ false =
            ground arith in
          rw apart (
            r.found k lt (omega arith)
            ∙ sym (get_elem?-append_front history (stamp s p ∷ []) k (omega (arith, lt, r.count))))
    ]

    placed' :
        (k : ℕ) (q : Packet) → get_elem? (history ++ (stamp s p ∷ [])) k ≡ some q → q.index ≡ k
    placed' k q e = elim (Bool-cases (ltb k (length history))) [
      | inl front ↦
          r.placed k q
            (sym (get_elem?-append_front history (stamp s p ∷ []) k (ltb→lt _ _ front)) ∙ e)
      | inr back ↦
          let less = get_elem?_lt (history ++ (stamp s p ∷ [])) k q e in
          let last : k ≡ length history =
            omega (arith, less, length-append history (stamp s p ∷ []), back_le back) in
          ap (λ (x : Packet). x.index)
            (sym
              (some_eq (stamp s p) q (sym (get_elem?-append_last history (stamp s p) k last) ∙ e)))
          ∙ stamp_index s p
          ∙ sym r.count
          ∙ sym last
    ]
      where
        back_le : ltb k (length history) ≡ false → length history ≤ k
        back_le b = ground arith

-- The packets as they are put in, each by the state that it meets.
pub stamped : Stream → List (ℕ × Packet) → List Packet
stamped s [] = []
stamped s ((now, p) ∷ ps) = stamp s p ∷ stamped (add_packet s now p).0 ps

-- Whatever packets are put into a stream whose ring agrees with its history, the ring finds the last
-- 1000 of all that were put in, each at its index, and each kept group of pictures starts at a key
-- frame of the stream, in the ring still but where the stream has just 1001 packets.
pub add_all-IsRing :
    (s : Stream) (history : List Packet) (packets : List (ℕ × Packet))
    → IsRing s history
    → IsRing (add_all s packets) (history ++ stamped s packets)
unfolding add_all stamped
add_all-IsRing s history [] r = rw (append-nil history) r
add_all-IsRing s history ((now, p) ∷ ps) r =
    rw (← append_assoc history (stamp s p ∷ []) (stamped (add_packet s now p).0 ps)) (
      add_all-IsRing (add_packet s now p).0 (history ++ (stamp s p ∷ [])) ps
        (IsRing-add_packet s history now p r))
