-- ===== src/MsgBuffer/Invariant.antt =====
-- The offsets of LSSMsgBuffer stay in order and inside the vector, and what the copies inside
-- `append` and `ensureWriteableBytes` leave as contents.
use lssvc.Common.{
  Bool-cases, List, [], ap, arith, drop, drop-append_le, inl, inr, leb, leb→le, length,
  length-append, length-drop, length-replicate, length-take, le→leb, refl, replicate, some, take,
  take-drop, take_front, true, ℕ, ◌++◌, ◌+◌, ◌-◌, ◌>>=◌, ◌∙◌, ◌≡◌, ◌≤◌,
}
use lssvc.MsgBuffer.{
  MsgBuffer, buffer_offset, compact, contents, copy_in, ensure_writeable_bytes, grown_length, init,
  overwrite, peek, readable_bytes, writable_bytes,
}

pub record IsValid (b : MsgBuffer) : Type 0 where
  pub offset : buffer_offset ≤ b.head
  pub ordered : b.head ≤ b.tail
  pub within : b.tail ≤ length b.buffer
  pub capacity : buffer_offset ≤ b.cap

-- `b'` is in order and holds `xs`.
abbrev pub Holds : MsgBuffer → List ℕ → Type 0
Holds b' xs = IsValid b' × (contents b' ≡ xs)

pub init-Holds : (len : ℕ) → buffer_offset ≤ len → Holds (init len) []
unfolding init
init-Holds len h = (
  record {
    offset = omega arith;
    ordered = omega arith;
    within = omega (arith, length-replicate {A = ℕ} (len + 8) 0);
    capacity = h;
  },
  refl,
)

pub length-contents : (b : MsgBuffer) → IsValid b → length (contents b) ≡ readable_bytes b
length-contents b v =
    omega (arith, v, length-take {0} (readable_bytes b) (peek b), length-drop {0} b.head b.buffer)

-- A copy inside the vector: its result, and what stands before its end.
module _ (buf : List ℕ) (off : ℕ) (bytes : List ℕ) (fits : off + length bytes ≤ length buf) where
  abbrev pub written : List ℕ
  written = take off buf ++ (bytes ++ drop (off + length bytes) buf)

  pub overwrite_lem : overwrite buf off bytes ≡ some written
  unfolding overwrite
  overwrite_lem = rw (le→leb _ _ fits)

  pub length-written : length written ≡ length buf
  length-written = omega (
    arith,
    fits,
    length-append {0} (take off buf) (bytes ++ drop (off + length bytes) buf),
    length-append {0} bytes (drop (off + length bytes) buf),
    length-take {0} off buf,
    length-drop {0} (off + length bytes) buf,
  )

  -- The bytes from `start` to the end of the copy: the old ones, then the copied ones.
  pub slice-written :
      (start : ℕ)
      → start ≤ off
      → take (off + length bytes - start) (drop start written)
        ≡ take (off - start) (drop start buf) ++ bytes
  slice-written start h =
      let cut : drop start written
          ≡ drop start (take off buf) ++ (bytes ++ drop (off + length bytes) buf) =
        drop-append_le start (take off buf) _ (omega (arith, length-take {0} off buf)) in
      let old : take (off - start) (drop start buf) ≡ drop start (take off buf) =
        rw (take-drop start (off - start) buf)
          (ap (λ (k : ℕ). drop start (take k buf)) (omega arith)) in
      rw (cut, old)
        (take_front _ (drop start (take off buf)) bytes _
          (omega (arith, length-drop {0} start (take off buf), length-take {0} off buf)))

pub copy_in_lem :
    (b : MsgBuffer) (bytes : List ℕ)
    → IsValid b
    → length bytes ≤ writable_bytes b
    → (b' : MsgBuffer) × (copy_in b bytes ≡ some b')
      × Holds b' (contents b ++ bytes)
      × (writable_bytes b' + length bytes ≡ writable_bytes b)
unfolding copy_in
copy_in_lem b bytes v h =
    let fits : b.tail + length bytes ≤ length b.buffer = omega (arith, v) in
    (
      record b { buffer = written b.buffer b.tail bytes fits; tail = b.tail + length bytes },
      rw (overwrite_lem b.buffer b.tail bytes fits),
      (
        record {
          offset = v.offset;
          ordered = omega (arith, v);
          within = omega (arith, fits, length-written b.buffer b.tail bytes fits);
          capacity = v.capacity;
        },
        slice-written b.buffer b.tail bytes fits b.head v.ordered,
      ),
      omega (arith, fits, length-written b.buffer b.tail bytes fits),
    )

compact_lem :
    (b : MsgBuffer) (len : ℕ)
    → IsValid b
    → len + buffer_offset ≤ b.head + writable_bytes b
    → (b' : MsgBuffer) × (compact b ≡ some b') × Holds b' (contents b) × (len ≤ writable_bytes b')
unfolding compact
compact_lem b len v h =
    let size : length (contents b) ≡ b.tail - b.head = length-contents b v in
    let fits : 8 + length (contents b) ≤ length b.buffer = omega (arith, v, size) in
    let long : length (written b.buffer 8 (contents b) fits) ≡ length b.buffer =
      length-written b.buffer 8 (contents b) fits in
    let same : take (8 + length (contents b) - 8) (drop 8 (written b.buffer 8 (contents b) fits))
        ≡ contents b =
      slice-written b.buffer 8 (contents b) fits 8 (omega arith) in
    let width : 8 + (b.tail - b.head) - 8 ≡ 8 + length (contents b) - 8 = omega (arith, size) in
    (
      record b {
        buffer = written b.buffer 8 (contents b) fits;
        tail = 8 + (b.tail - b.head);
        head = 8;
      },
      rw (overwrite_lem b.buffer 8 (contents b) fits),
      (
        record {
          offset = omega arith;
          ordered = omega arith;
          within = omega (arith, fits, long, size);
          capacity = v.capacity;
        },
        ap (λ (k : ℕ). take k (drop 8 (written b.buffer 8 (contents b) fits))) width ∙ same,
      ),
      omega (arith, h, v, long),
    )

-- The call on the fresh buffer returns at once: it has the room.
ensure_fresh : (len n : ℕ) → n ≤ len → ensure_writeable_bytes 1 (init len) n ≡ some (init len)
unfolding ensure_writeable_bytes init
ensure_fresh len n h =
    let room : leb n (length (replicate (len + 8) (zero_byte)) - 8) ≡ true =
      le→leb _ _ (omega (arith, h, length-replicate {A = ℕ} (len + 8) 0)) in
    rw room
  where
    zero_byte : ℕ
    zero_byte = 0

writable-init : (len : ℕ) → writable_bytes (init len) ≡ len
unfolding init
writable-init len = omega (arith, length-replicate {A = ℕ} (len + 8) 0)

grow_lem :
    (b : MsgBuffer) (len : ℕ)
    → IsValid b
    → (b' : MsgBuffer) × ((ensure_writeable_bytes 1 (init (grown_length b len)) (readable_bytes b)
          >>= λ fresh. copy_in fresh (contents b))
        ≡ some b')
      × Holds b' (contents b)
      × (len ≤ writable_bytes b')
unfolding grown_length
grow_lem b len v =
    let need : readable_bytes b + len ≤ grown_length b len = ground (arith, v.within) in
    let big : buffer_offset ≤ grown_length b len = ground arith in
    let size : length (contents b) ≡ readable_bytes b = length-contents b v in
    let fresh : Holds (init (grown_length b len)) [] = init-Holds _ big in
    let room : writable_bytes (init (grown_length b len)) ≡ grown_length b len =
      writable-init (grown_length b len) in
    let (b', e, holds, left) =
      copy_in_lem (init (grown_length b len)) (contents b) fresh.0
        (omega (arith, need, size, room)) in
    (
      b',
      rw (ensure_fresh (grown_length b len) (readable_bytes b) (omega (arith, need))) e,
      (holds.0, rw fresh.1 at holds.1),
      omega (arith, need, left, size, room),
    )

-- Whatever the room, the call succeeds within its depth, keeps the contents, and makes the room.
pub ensure_writeable_bytes-Holds :
    (b : MsgBuffer) (len : ℕ)
    → IsValid b
    → (b' : MsgBuffer) × (ensure_writeable_bytes 2 b len ≡ some b')
      × Holds b' (contents b)
      × (len ≤ writable_bytes b')
ensure_writeable_bytes-Holds b len v = elim (Bool-cases (leb len (writable_bytes b))) [
  | inl fits ↦ (b, unfold ensure_writeable_bytes in rw fits, (v, refl), leb→le _ _ fits)
  | inr full ↦ elim (Bool-cases (leb (len + buffer_offset) (b.head + writable_bytes b))) [
    | inl slack ↦
        let (b', e, holds, room) = compact_lem b len v (leb→le _ _ slack) in
        (b', unfold ensure_writeable_bytes in rw (full, slack) e, holds, room)
    | inr tight ↦
        let (b', e, holds, room) = grow_lem b len v in
        (b', unfold ensure_writeable_bytes in rw (full, tight) e, holds, room)
  ]
]
