-- ===== src/MsgBuffer/Refine.antt =====
-- LSSMsgBuffer against a queue of bytes.
use lssvc.Common.{
  >>=-some, Bool-cases, List, Option, [], ap, arith, drop, drop-drop, drop_all, inl, inr, leb,
  leb→le, length, length-take, refl, some, sym, take, take-append-drop, take-drop, ℕ, ◌++◌, ◌+◌,
  ◌-◌, ◌<◌, ◌>>=◌, ◌∙◌, ◌∷◌, ◌≡◌, ◌≤◌,
}
use lssvc.MsgBuffer.{
  MsgBuffer, append, contents, copy_in, failed, got, peek, read_fd, readable_bytes, retrieve,
  retrieve_all, writable_bytes,
}
use lssvc.MsgBuffer.Invariant.{
  Holds, IsValid, copy_in_lem, ensure_writeable_bytes-Holds, length-contents,
}
use mathlib.Core.List.{append_assoc}

-- `append` never faults or runs out of depth on a buffer in order, adds exactly the given bytes
-- behind the contents, and keeps the buffer in order.
pub append-Holds :
    (b : MsgBuffer) (bytes : List ℕ)
    → IsValid b
    → (b' : MsgBuffer) × (append b bytes ≡ some b') × Holds b' (contents b ++ bytes)
unfolding append
append-Holds b bytes v =
    let (c, e, holds, room) = ensure_writeable_bytes-Holds b (length bytes) v in
    let (b', e', holds', left) = copy_in_lem c bytes holds.0 room in
    (b', >>=-some (λ c. copy_in c bytes) e ∙ e', (holds'.0, rw holds.1 at holds'.1))

retrieve_all-Holds : (b : MsgBuffer) → IsValid b → Holds (retrieve_all b) []
unfolding retrieve_all
retrieve_all-Holds b v = (
  record {
    offset = omega arith;
    ordered = omega arith;
    within =
        ground (arith, v.within, v.offset, v.ordered, v.capacity, length-take {0} b.cap b.buffer);
    capacity = v.capacity;
  },
  refl,
)

rest_of :
    (b : MsgBuffer) (len : ℕ)
    → len ≤ readable_bytes b
    → take (b.tail - (b.head + len)) (drop (b.head + len) b.buffer) ≡ drop len (contents b)
rest_of b len h =
    let width : len + (b.tail - (b.head + len)) ≡ b.tail - b.head = omega (arith, h) in
    rw (← drop-drop len b.head b.buffer) (
      take-drop len (b.tail - (b.head + len)) (peek b)
      ∙ ap (λ (k : ℕ). drop len (take k (peek b))) width)

-- `retrieve` drops that many bytes, or all of them where there are fewer.
pub retrieve-Holds :
    (b : MsgBuffer) (len : ℕ) → IsValid b → Holds (retrieve b len) (drop len (contents b))
retrieve-Holds b len v = elim (Bool-cases (leb (readable_bytes b) len)) [
  | inl all ↦
      let short : length (contents b) ≤ len = omega (arith, length-contents b v, leb→le _ _ all) in
      let (v', e) = retrieve_all-Holds b v in
      unfold retrieve in rw all (v', e ∙ sym (drop_all len (contents b) short))
  | inr part ↦
      let fewer : len < readable_bytes b = ground arith in
      unfold retrieve in
      rw part (
        record {
          offset = omega (arith, v);
          ordered = omega (arith, v, fewer);
          within = v.within;
          capacity = v.capacity;
        },
        rest_of b len (omega (arith, fewer)),
      )
]

read_fd_got :
    (b : MsgBuffer) (bytes : List ℕ)
    → IsValid b
    → (b' : MsgBuffer) × (read_fd b (got bytes) ≡ some b') × Holds b' (contents b ++ bytes)
read_fd_got b bytes v = elim (Bool-cases (leb (length bytes) (writable_bytes b))) [
  | inl fits ↦
      let (b', e, holds, left) = copy_in_lem b bytes v (leb→le _ _ fits) in
      (b', unfold read_fd in rw fits e, holds)
  | inr over ↦
      let w : ℕ = writable_bytes b in
      let few : length (take w bytes) ≤ w = omega (arith, length-take {0} w bytes) in
      let (full, e, holds, left) = copy_in_lem b (take w bytes) v few in
      let (b', e', holds') = append-Holds full (drop w bytes) holds.0 in
      let both : (contents b ++ take w bytes) ++ drop w bytes ≡ contents b ++ bytes =
        append_assoc (contents b) (take w bytes) (drop w bytes)
        ∙ ap (◌++◌ (contents b)) (take-append-drop w bytes) in
      (
        b',
        unfold read_fd in rw over (>>=-some (λ c. append c (drop w bytes)) e ∙ e'),
        (holds'.0, holds'.1 ∙ ap (λ (xs : List ℕ). xs ++ drop w bytes) holds.1 ∙ both),
      )
]

-- `readFd`: an error leaves the buffer as it was; otherwise all that `readv` delivered, the part
-- that went to the stack included, follows the contents in order, and the buffer stays in order.
pub read_fd-Holds :
    (b : MsgBuffer)
    → IsValid b
    → ((errno : ℕ) → read_fd b (failed errno) ≡ some b)
      × ((bytes : List ℕ)
          → (b' : MsgBuffer) × (read_fd b (got bytes) ≡ some b') × Holds b' (contents b ++ bytes))
read_fd-Holds b v = (λ errno. unfold read_fd in refl, λ bytes. read_fd_got b bytes v)

-- The calls that change the contents, and what each does to a plain queue of bytes.
pub data Op : Type 0 where
  appends receives : List ℕ → Op
  retrieves : ℕ → Op

pub perform : MsgBuffer → Op → Option MsgBuffer
perform b (appends bytes) = append b bytes
perform b (receives bytes) = read_fd b (got bytes)
perform b (retrieves n) = some (retrieve b n)

pub run : MsgBuffer → List Op → Option MsgBuffer
run b [] = some b
run b (op ∷ ops) = perform b op >>= λ b'. run b' ops

abbrev pub queue_step : List ℕ → Op → List ℕ
queue_step xs (appends bytes) = xs ++ bytes
queue_step xs (receives bytes) = xs ++ bytes
queue_step xs (retrieves n) = drop n xs

abbrev pub queue_run : List ℕ → List Op → List ℕ
queue_run xs [] = xs
queue_run xs (op ∷ ops) = queue_run (queue_step xs op) ops

perform-Holds :
    (b : MsgBuffer) (op : Op)
    → IsValid b
    → (b' : MsgBuffer) × (perform b op ≡ some b') × Holds b' (queue_step (contents b) op)
unfolding perform
perform-Holds b (appends bytes) v = append-Holds b bytes v
perform-Holds b (receives bytes) v = read_fd_got b bytes v
perform-Holds b (retrieves n) v = (retrieve b n, refl, retrieve-Holds b n v)

-- Any sequence of appends, socket reads and retrieves on a buffer in order runs to its end, and
-- leaves what the same sequence leaves in a plain queue of bytes, with the buffer in order.
pub run-Holds :
    (b : MsgBuffer) (ops : List Op)
    → IsValid b
    → (b' : MsgBuffer) × (run b ops ≡ some b') × Holds b' (queue_run (contents b) ops)
unfolding run
run-Holds b [] v = (b, refl, (v, refl))
run-Holds b (op ∷ ops) v =
    let (c, e, holds) = perform-Holds b op v in
    let (b', e', holds') = run-Holds c ops holds.0 in
    (
      b',
      >>=-some (λ d. run d ops) e ∙ e',
      (holds'.0, holds'.1 ∙ ap (λ (xs : List ℕ). queue_run xs ops) holds.1),
    )
