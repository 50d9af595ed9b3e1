-- ===== src/Chunk/Send/RoundTrip.antt =====
-- A message of any number of chunks: `buildChunk` and the loop of `parseMessage`, from end to end.
use mathlib.Core.List.{append_assoc}
use lssvc.Common.{
  List, [], ap, arith, length, length-append, none, some, suc, true, zero, ℕ, ◌*◌, ◌++◌, ◌+◌, ◌<◌,
  ◌^◌, ◌∙◌, ◌∷◌, ◌≡◌, ◌≤◌,
}
use lssvc.Chunk.{MsgHeader, Packet}
use lssvc.Chunk.Send.{Outbound, basic_bytes, buffer_size, build_chunk, message_bytes}
use lssvc.Chunk.Send.Single.{
  IsPlain, basic_header-basic_bytes, build_chunk-headed, headed, length-head,
  read_chunk-message_bytes,
}
use lssvc.Chunk.Receive.{basic_header}
use lssvc.Chunk.Loop.{Inbound, loop, message_complete, put_channel}
use lssvc.Chunk.Send.Several.{sends_rest}
use lssvc.Chunk.Send.Tail.{Opens, Reads, idle_after, length-basic_bytes, whole}
use lssvc.Connection.{bytes}

-- A round that begins with the header of a message.
first-Opens :
    (s : Inbound) (h : MsgHeader) (ts : ℕ)
    → IsPlain h ts
    → (s.channels h.cs_id).packet ≡ none
    → Opens s h ts [] (basic_bytes 0 h.cs_id ++ message_bytes 0 h ts)
first-Opens s h ts plain idle = record {
  fmt = 0;
  mid = message_bytes 0 h ts;
  prev = (s.channels h.cs_id).prev;
  before = (s.channels h.cs_id).packet;
  some_head = omega (
    arith,
    (length-basic_bytes 0 h.cs_id).0,
    length-append (basic_bytes 0 h.cs_id) (message_bytes 0 h ts),
  );
  seen = λ xs.
      ap basic_header (append_assoc (basic_bytes 0 h.cs_id) (message_bytes 0 h ts) xs)
      ∙ basic_header-basic_bytes 0 h.cs_id (message_bytes 0 h ts ++ xs) (omega arith) plain.low
          plain.high;
  reads = λ xs _. read_chunk-message_bytes s.in_chunk_size (s.channels h.cs_id) h ts xs plain idle;
}

-- A packet is sent and read back, in as many chunks as its body needs. Let its header have fields
-- within their widths and a timestamp below 0xffffff, its body be as long as the header says, not
-- empty and at most `k` chunks of the size `c` that both sides use, the header buffer have room for
-- `11 + 3 * k` bytes more, and let nothing have been sent on the chunk stream and no packet be
-- under way on it at the receiver. Then `buildChunk` succeeds, and adds nodes behind those there
-- are; and whatever bytes follow theirs, the loop of `parseMessage` over them comes to the state in
-- which the message is complete, with the header's fields, the timestamp and the whole body, with
-- only the bytes that follow still to be read.
pub build_chunk-Reads :
    (c k : ℕ) (o : Outbound) (p : Packet) (ts : ℕ) (s : Inbound)
    → 0 < c
    → c < 2 ^ 31
    → IsPlain p.header ts
    → p.header.msg_len ≡ length p.body
    → 0 < length p.body
    → length p.body ≤ k * c
    → o.out_chunk_size ≡ c
    → s.in_chunk_size ≡ c
    → o.used + 11 + 3 * k ≤ buffer_size
    → o.prevs p.header.cs_id ≡ none
    → (s.channels p.header.cs_id).packet ≡ none
    → (o' : Outbound) × (nodes : List (List ℕ)) × (build_chunk o p ts true ≡ some o')
      × (o'.buffers ≡ o.buffers ++ nodes)
      × ((rest : List ℕ)
          → Reads s
              (bytes nodes ++ rest)
              (message_complete
                (put_channel s p.header.cs_id (idle_after p.header ts))
                (whole p.header ts p.body))
              rest)
unfolding bytes
build_chunk-Reads c k o p ts s c_some c_small plain len some_body fits oc sc room first idle =
    let head : List ℕ = basic_bytes 0 p.header.cs_id ++ message_bytes 0 p.header ts in
    let k_some : 0 < k = positive k c (length p.body) some_body fits in
    let (nodes, used, sent, read) =
      sends_rest c ts p.header c_some c_small plain k p.header.msg_len (headed o p ts) [] p.body
        head s len some_body fits (omega (arith, len)) oc sc
        (omega (arith, room, length-head p.header ts)) (first-Opens s p.header ts plain idle) in
    (
      record (headed o p ts) { used = used; buffers = (headed o p ts).buffers ++ nodes },
      head ∷ nodes,
      build_chunk-headed o p ts plain.time (omega (arith, room, k_some)) first ∙ sent,
      append_assoc o.buffers (head ∷ []) nodes,
      λ rest.
          ap (λ (xs : List ℕ). loop (suc (length xs)) s xs) (append_assoc head (bytes nodes) rest)
          ∙ read rest,
    )
  where
    positive : (k c n : ℕ) → 0 < n → n ≤ k * c → 0 < k
    positive zero c n h few = absurd (omega (arith, h, few))
    positive (suc k) c n h few = omega arith
