-- ===== src/MsgBuffer/Peek.antt =====
-- Numbers through LSSMsgBuffer: what `appendInt…` put into an empty buffer, read by `readInt…`.
use lssvc.Common.{
  >>=-some, List, Option, [], ap, arith, drop, drop_all, length, refl, some, sym, take-append-drop,
  ℕ, ◌*◌, ◌++◌, ◌/◌, ◌<◌, ◌>>=◌, ◌^◌, ◌∙◌, ◌≡◌,
}
use lssvc.Bytes.{read_uint32, write_uint16, write_uint32}
use lssvc.Bytes.Codec.{
  length-write_uint16, length-write_uint32, read_uint16-write, read_uint32-write,
}
use lssvc.MsgBuffer.{
  MsgBuffer, append, append_int16, append_int32, append_int64, contents, peek, peek_int16,
  peek_int32, peek_int64, read_int, read_int16, read_int32, read_int64, readable_bytes, retrieve,
}
use lssvc.MsgBuffer.Invariant.{Holds, IsValid, length-contents}
use mathlib.Core.List.{append_assoc}
use lssvc.MsgBuffer.Refine.{append-Holds, retrieve-Holds}

-- The memory from `head` on begins with the contents.
peek-contents : (b : MsgBuffer) → (rest : List ℕ) × (peek b ≡ contents b ++ rest)
peek-contents b =
    (drop (readable_bytes b) (peek b), sym (take-append-drop (readable_bytes b) (peek b)))

-- What all widths share: the bytes are appended, seen by the peek, and retrieved.
through :
    (b : MsgBuffer) (bytes : List ℕ) (width v : ℕ) (peek_int : MsgBuffer → Option ℕ)
    → IsValid b
    → contents b ≡ []
    → width ≡ length bytes
    → ((c : MsgBuffer) (rest : List ℕ)
        → peek c ≡ bytes ++ rest
        → readable_bytes c ≡ width
        → peek_int c ≡ some v)
    → (b' : MsgBuffer) × ((append b bytes >>= read_int peek_int width) ≡ some (v, b')) × Holds b' []
unfolding read_int
through b bytes width v peek_int valid empty wide sees =
    let (c, e, holds) = append-Holds b bytes valid in
    let (rest, front) = peek-contents c in
    let whole : contents c ≡ bytes = rw empty at (holds.1) in
    let size : readable_bytes c ≡ width =
      omega (arith, length-contents c holds.0, ap length whole, wide) in
    let (kept, gone) = retrieve-Holds c width holds.0 in
    let none_left : drop width (contents c) ≡ [] =
      drop_all width (contents c) (omega (arith, ap length whole, wide)) in
    let seen : peek_int c ≡ some v = sees c rest (rw whole at front) size in
    (retrieve c width, >>=-some (read_int peek_int width) e ∙ rw seen, (kept, gone ∙ none_left))

module _ (b : MsgBuffer) (n : ℕ) (valid : IsValid b) (empty : contents b ≡ []) where
  -- `readInt16` and `readInt32` give back what `appendInt16` and `appendInt32` put into an empty
  -- buffer in order, which is empty and in order afterwards.
  pub read_int-append_int :
      (n < 2 ^ 16
        → (b' : MsgBuffer) × ((append_int16 b n >>= read_int16) ≡ some (n, b')) × Holds b' [])
      × (n < 2 ^ 32
          → (b' : MsgBuffer) × ((append_int32 b n >>= read_int32) ≡ some (n, b')) × Holds b' [])
  unfolding append_int16 read_int16 peek_int16 append_int32 read_int32 peek_int32
  read_int-append_int = (
    λ h.
        through b (write_uint16 n) 2 n peek_int16 valid empty (sym (length-write_uint16 n))
          (λ c rest front size. rw (size, front) (read_uint16-write n rest h)),
    λ h.
        through b (write_uint32 n) 4 n peek_int32 valid empty (sym (length-write_uint32 n))
          (λ c rest front size. rw (size, front) (read_uint32-write n rest h)),
  )

  -- `readInt64` loses the low half of what `appendInt64` put into an empty buffer in order: it
  -- answers the number with its low 32 bits cleared.
  pub read_int64-append_int64 :
      n < 2 ^ 64
      → (b' : MsgBuffer) × ((append_int64 b n >>= read_int64) ≡ some (n / 2 ^ 32 * 2 ^ 32, b'))
        × Holds b' []
  unfolding append_int64 read_int64
  read_int64-append_int64 h =
      through b (write_uint32 (n / 2 ^ 32) ++ write_uint32 n) 8 (n / 2 ^ 32 * 2 ^ 32) peek_int64
        valid empty (unfold write_uint32 in refl)
        (λ c rest front size. unfold peek_int64 in rw (size, front) (top_half rest h))
    where
      top_half :
          (rest : List ℕ)
          → n < 2 ^ 64
          → (read_uint32 ((write_uint32 (n / 2 ^ 32) ++ write_uint32 n) ++ rest) >>= λ v.
              some (v * 2 ^ 32))
            ≡ some (n / 2 ^ 32 * 2 ^ 32)
      top_half rest h = rw append_assoc (
          >>=-some (λ v. some (v * 2 ^ 32))
            (read_uint32-write (n / 2 ^ 32) (write_uint32 n ++ rest) (omega arith)))
