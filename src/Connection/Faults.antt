-- ===== src/Connection/Faults.antt =====
-- How `onWrite` ends, and where it does not; and a direct write that the kernel turns away.
use lssvc.Common.{
  All, Bool-cases, List, [], ap, arith, drop, false, inl, inr, leb, length, length-drop, ltb,
  ltb→lt, none, refl, replicate, some, some_eq, suc, sym, take_all, zero, ℕ, ◌%◌, ◌++◌, ◌+◌, ◌-◌,
  ◌<◌, ◌==◌, ◌^◌, ◌∙◌, ◌∷◌, ◌≡◌, ◌≤◌, ◌⊎◌,
}
use lssvc.Connection.{
  Answer, Connection, advance, after_write, again, broken, bytes, calling, complete, is_empty, part,
  returned, send_buffer, take_sent, write_count, write_loop, wrote,
}
use lssvc.Connection.Writing.{Fits, take_sent-stream}
use lssvc.Connection.Stream.{advance_lem, length-bytes}
use mathlib.Core.List.{append-nil}
use mathlib.Core.Path.{subst}

-- Only buffers of some bytes.
abbrev pub IsFilled : List ℕ → Type 0
IsFilled v = 0 < length v

-- Each answer takes a byte at least.
abbrev pub IsProgress : Answer → Type 0
IsProgress (wrote n) = 0 < n
IsProgress again = 0 < 0
IsProgress broken = 0 < 0

advance-IsFilled :
    (n : ℕ) (vs ws : List (List ℕ)) → All IsFilled vs → advance n vs ≡ some ws → All IsFilled ws
unfolding advance
advance-IsFilled zero vs ws h e = rw (← some_eq vs ws e) h
advance-IsFilled (suc n) [] ws h e = cc
advance-IsFilled (suc n) (v ∷ vs) ws (f, fs) e = elim (Bool-cases (ltb (suc n) (length v))) [
  | inl inside ↦
      rw (← some_eq (drop (suc n) v ∷ vs) ws (rw inside at e))
        (omega (arith, ltb→lt _ _ inside, length-drop (suc n) v), fs)
  | inr past ↦ advance-IsFilled (suc n - length v) vs ws fs (rw past at e)
]

-- The bytes that the answers take together.
unfoldable pub total : List Answer → ℕ
total [] = 0
total (wrote n ∷ answers) = n + total answers
total (again ∷ answers) = total answers
total (broken ∷ answers) = total answers

-- Where no buffer is empty, and the calls take a byte at least each and all bytes together, `onWrite`
-- on a connection that is open and has something to write comes back, with nothing pending and the
-- callback called once.
pub write_loop-completes :
    (answers : List Answer) (c : Connection)
    → All IsFilled c.pending
    → 0 < length (bytes c.pending)
    → All IsProgress answers
    → Fits answers (length (bytes c.pending))
    → length (bytes c.pending) ≤ total answers
    → (c' : Connection) × (write_loop answers c ≡ some (returned c'))
      × (c'.pending ≡ [])
      × (c'.writing ≡ false)
      × (c'.completed ≡ c.completed + 1)
      × (c'.sent ≡ c.sent ++ bytes c.pending)
unfolding write_loop Fits bytes total
write_loop-completes [] c filled some_left moves fits enough =
    absurd (omega (arith, some_left, enough))
write_loop-completes (again ∷ answers) c filled some_left (m, moves) fits enough =
    absurd (omega arith)
write_loop-completes (broken ∷ answers) c filled some_left (m, moves) fits enough =
    absurd (omega arith)
write_loop-completes (wrote n ∷ answers) c filled some_left (m, moves) (fit, fits) enough =
    let (vs, e, left) = advance_lem n c.pending fit in
    go vs e left (advance-IsFilled n c.pending vs filled e) (λ r.
      write_loop-completes answers (take_sent c n vs) (advance-IsFilled n c.pending vs filled e) r
        moves (subst (Fits answers) (size vs left) fits) (omega (arith, size vs left, enough, fit)))
  where
    size :
        (vs : List (List ℕ))
        → bytes vs ≡ drop n (bytes c.pending)
        → length (bytes c.pending) - n ≡ length (bytes vs)
    size vs left = sym (ap length left ∙ length-drop n (bytes c.pending))

    go :
        (vs : List (List ℕ))
        → advance n c.pending ≡ some vs
        → bytes vs ≡ drop n (bytes c.pending)
        → All IsFilled vs
        → (0 < length (bytes vs)
            → (c' : Connection) × (write_loop answers (take_sent c n vs) ≡ some (returned c'))
              × (c'.pending ≡ [])
              × (c'.writing ≡ false)
              × (c'.completed ≡ c.completed + 1)
              × (c'.sent ≡ (take_sent c n vs).sent ++ bytes vs))
        → (c' : Connection) × (write_loop (wrote n ∷ answers) c ≡ some (returned c'))
          × (c'.pending ≡ [])
          × (c'.writing ≡ false)
          × (c'.completed ≡ c.completed + 1)
          × (c'.sent ≡ c.sent ++ bytes c.pending)
    go [] e left f ih = (
      complete (take_sent c n []),
      rw e refl,
      refl,
      refl,
      refl,
      ap (◌++◌ c.sent) (take_all n (bytes c.pending) (omega (arith, size [] left))),
    )
    go (v ∷ vs) e left (f, fs) ih =
        let (c', r, p, w, k, t) = ih (omega (arith, f, length-bytes v vs)) in
        (c', rw e r, p, w, k, t ∙ take_sent-stream c n (v ∷ vs) left)

-- The answers of a kernel that is given no bytes.
abbrev pub zeros : ℕ → List Answer
zeros k = replicate k (wrote 0)

-- A buffer of no bytes is never taken off: however often `writev` is called, `onWrite` calls it again.
pub write_loop-hangs :
    (k : ℕ) (c : Connection) (v : List ℕ) (vs : List (List ℕ))
    → c.pending ≡ v ∷ vs
    → bytes c.pending ≡ []
    → write_loop (zeros k) c ≡ some (calling c)
unfolding write_loop advance
write_loop-hangs zero c v vs e empty = refl
write_loop-hangs (suc k) c v vs e empty =
    simp (is_there, append-nil c.sent) (write_loop-hangs k c v vs e empty)
  where
    is_there : is_empty c.pending ≡ false
    is_there = rw e refl

-- A connection with nothing pending takes a buffer of its user straight to the kernel; where that
-- fails, whatever the error, `sendInLoop` goes on to a buffer that is outside the memory.
pub send_buffer-faults :
    (c : Connection) (buf : List ℕ) (answer : Answer)
    → c.closed ≡ false
    → c.pending ≡ []
    → length buf < 2 ^ 63
    → (answer ≡ again) ⊎ (answer ≡ broken)
    → send_buffer answer c buf ≡ none
unfolding send_buffer after_write part
send_buffer-faults c buf answer open_c idle small failed =
    simp (open_c, idle, count failed, there, outside) refl
  where
    count : (answer ≡ again) ⊎ (answer ≡ broken) → write_count answer ≡ 2 ^ 64 - 1
    count (inl e) = rw e refl
    count (inr e) = rw e refl

    there : ((length buf + (2 ^ 64 - (2 ^ 64 - 1))) % 2 ^ 64 == 0) ≡ false
    there = ground arith

    outside :
        leb (2 ^ 64 - 1 + (length buf + (2 ^ 64 - (2 ^ 64 - 1))) % 2 ^ 64) (length buf) ≡ false
    outside = ground arith
