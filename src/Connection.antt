-- ===== src/Connection.antt =====
-- src/network/net/lssvc_tcpconn.cpp: what a connection has still to write. A buffer is the bytes from
-- its address on. What the kernel makes of the calls is an argument, one answer for each.
pub mod Stream
pub mod Writing
pub mod Faults
pub mod EmptyMessage
pub mod Tests
use lssvc.Common.{
  Bool, List, Option, [], drop, false, if◌then◌else◌, leb, length, ltb, none, some, suc, take, true,
  zero, ℕ, ◌%◌, ◌++◌, ◌+◌, ◌-◌, ◌==◌, ◌>>=◌, ◌^◌, ◌∷◌,
}

-- What `write` and `writev` return: a count of bytes, -1 with EINTR, EAGAIN or EWOULDBLOCK, or -1
-- with another error.
pub data Answer : Type 0 where
  wrote : ℕ → Answer
  again : Answer
  broken : Answer

-- `pending` is io_vec_list_. `sent` is what the kernel took so far, and `completed` counts the calls
-- of write_complete_cb_.
pub record Connection : Type 0 where
  pub closed : Bool
  pub pending : List (List ℕ)
  pub writing : Bool
  pub sent : List ℕ
  pub completed : ℕ

abbrev pub init : Connection
init = record { closed = false; pending = []; writing = false; sent = []; completed = 0 }

abbrev pub on_close : Connection → Connection
on_close c = record c { closed = true }

unfoldable pub bytes : List (List ℕ) → List ℕ
bytes [] = []
bytes (v ∷ vs) = v ++ bytes vs

-- The loop over io_vec_list_ after a write: `none` where there is no front.
unfoldable pub advance : ℕ → List (List ℕ) → Option (List (List ℕ))
advance zero vs = some vs
advance (suc n) [] = none
advance (suc n) (v ∷ vs) =
    let rest = advance (suc n - length v) vs in
    if ltb (suc n) (length v) then some (drop (suc n) v ∷ vs) else rest

abbrev pub take_sent : Connection → ℕ → List (List ℕ) → Connection
take_sent c n vs = record c { pending = vs; sent = c.sent ++ take n (bytes c.pending) }

abbrev pub complete : Connection → Connection
complete c = record c { writing = false; completed = c.completed + 1 }

abbrev pub is_empty {ℓ} : {A : Type ℓ} → List A → Bool
is_empty [] = true
is_empty (x ∷ xs) = false

-- How `onWrite` goes: it comes back, or waits for the answer to one more call.
pub data Progress : Type 0 where
  returned : Connection → Progress
  calling : Connection → Progress

-- `while (true)` around `writev`.
unfoldable pub write_loop : List Answer → Connection → Option Progress
write_loop [] c = some (calling c)
write_loop (again ∷ answers) c = some (returned c)
write_loop (broken ∷ answers) c = some (returned (on_close c))
write_loop (wrote n ∷ answers) c = advance n c.pending >>= λ vs.
    let rest = write_loop answers (take_sent c n vs) in
    if is_empty vs then some (returned (complete (take_sent c n vs))) else rest

unfoldable pub on_write : List Answer → Connection → Option Progress
on_write answers c = if c.closed then some (returned c) else open_write c.pending
  where
    open_write : List (List ℕ) → Option Progress
    open_write [] = some (returned (complete c))
    open_write (v ∷ vs) = write_loop answers c

-- `sendInLoop` of a list of nodes.
unfoldable pub send_nodes : Connection → List (List ℕ) → Connection
send_nodes c nodes =
    let c' = record c { pending = c.pending ++ nodes } in
    if c.closed
    then c
    else if is_empty (c.pending ++ nodes)
    then c'
    else record c' { writing = true }

-- `sendInLoop` of a buffer. The count is a size_t, so that it is never below 0: after a failed write
-- it is 2^64 - 1, and the buffer from there on is outside the memory.
-- `size` bytes from an offset in the buffer on.
unfoldable pub part : List ℕ → ℕ → ℕ → Option (List ℕ)
part buf start size =
    if leb (start + size) (length buf) then some (take size (drop start buf)) else none

abbrev pub write_count : Answer → ℕ
write_count (wrote n) = n
write_count again = 2 ^ 64 - 1
write_count broken = 2 ^ 64 - 1

-- What goes on after the direct write of `send_len` bytes.
unfoldable pub after_write : ℕ → Connection → List ℕ → Option Connection
after_write send_len c buf =
    let size = (length buf + (2 ^ 64 - send_len)) % 2 ^ 64 in
    let c' = record c { sent = c.sent ++ take send_len buf } in
    let queued =
      part buf send_len size >>= λ v. some (record c' { pending = v ∷ []; writing = true }) in
    if size == 0 then some (record c' { completed = c.completed + 1 }) else queued

unfoldable pub send_buffer : Answer → Connection → List ℕ → Option Connection
send_buffer answer c buf =
    let direct = after_write (write_count answer) c buf in
    if c.closed
    then some c
    else if is_empty c.pending
    then direct
    else if ltb 0 (length buf)
    then some (record c { pending = c.pending ++ (buf ∷ []); writing = true })
    else some c
