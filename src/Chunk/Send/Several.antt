-- ===== src/Chunk/Send/Several.antt =====
-- A message of any number of chunks, sent and received.
use mathlib.Core.List.{append-nil, append_assoc}
use mathlib.Core.Path.{subst}
use native.Mathlib.Nat.{suc-mul}
use lssvc.Common.{
  Bool-cases, List, [], ap, arith, drop, drop-append_length, false, ge→ltb, gt→leb, inl, inr, leb,
  leb→le, length, length-append, length-drop, length-take, le→leb, ltb, lt→ltb, min, none, refl,
  some, suc, sym, take, take-append-drop, take-append_length, take_all, true, zero, ℕ, ◌*◌, ◌++◌,
  ◌+◌, ◌-◌, ◌<◌, ◌^◌, ◌∙◌, ◌∷◌, ◌≡◌, ◌≤◌,
}
use lssvc.Chunk.{MsgHeader, ext_mark}
use lssvc.Chunk.Send.{Outbound, basic_bytes, buffer_size, push_body, push_chunks}
use lssvc.Chunk.Send.Single.{IsPlain, ext_bytes-none, push_header-fits}
use lssvc.Chunk.Loop.{Inbound, loop, message_complete, put_channel}
use lssvc.Chunk.Loop.Segments.{after_chunk, channels_of, put_put}
use lssvc.Chunk.Send.Tail.{
  Opens, Reads, idle_after, later-Opens, length-basic_bytes, read_body-last, read_body-piece,
  Reads-chunk, under_way, whole,
}
use lssvc.Connection.{bytes}

-- One round of the loop of buildChunk: the last piece of the body, or a piece and the next header.
push_chunks-last :
    (fuel ts : ℕ) (o : Outbound) (h : MsgHeader) (front back : List ℕ)
    → h.msg_len ≡ length (front ++ back)
    → length back ≤ o.out_chunk_size
    → push_chunks (suc fuel) o h ts (front ++ back) (length front)
      ≡ some (record o { buffers = o.buffers ++ (back ∷ []) })
unfolding push_chunks push_body
push_chunks-last fuel ts o h front back len fits =
    simp
      (size, inside, drop-append_length front back, take_all (length back) back (omega arith), last)
      refl
  where
    size : min (h.msg_len - length front) o.out_chunk_size ≡ length back
    size = omega (arith, len, fits, length-append front back)

    inside : leb (length front + length back) (length (front ++ back)) ≡ true
    inside = le→leb _ _ (omega (arith, length-append front back))

    last : ltb (length front + length back) h.msg_len ≡ false
    last = ge→ltb _ _ (omega (arith, len, length-append front back))

push_chunks-more :
    (fuel ts : ℕ) (o : Outbound) (h : MsgHeader) (front piece back : List ℕ)
    → h.msg_len ≡ length (front ++ (piece ++ back))
    → length piece ≡ o.out_chunk_size
    → 0 < length back
    → ts < ext_mark
    → o.used < buffer_size
    → o.used + length (basic_bytes 3 h.cs_id) ≤ buffer_size
    → push_chunks (suc fuel) o h ts (front ++ (piece ++ back)) (length front)
      ≡ push_chunks fuel
          (record o {
            used = o.used + length (basic_bytes 3 h.cs_id);
            buffers = (o.buffers ++ (piece ∷ [])) ++ (basic_bytes 3 h.cs_id ∷ []);
          })
          h
          ts
          (front ++ (piece ++ back))
          (length (front ++ piece))
unfolding push_chunks push_body
push_chunks-more fuel ts o h front piece back len full more time room fits =
    simp
      (
        size,
        inside,
        drop-append_length front (piece ++ back),
        take-append_length piece back,
        goes_on,
        gt→leb buffer_size o.used room,
        ext_bytes-none ts time,
        append-nil (basic_bytes 3 h.cs_id),
        push_header-fits (record o { buffers = o.buffers ++ (piece ∷ []) }) (basic_bytes 3 h.cs_id)
            fits,
        sym (length-append front piece),
      )
      refl
  where
    size : min (h.msg_len - length front) o.out_chunk_size ≡ length piece
    size = omega (arith, len, full, length-append front (piece ++ back), length-append piece back)

    inside : leb (length (front ++ piece)) (length (front ++ (piece ++ back))) ≡ true
    inside = le→leb _ _ (
        omega (
          arith,
          length-append front (piece ++ back),
          length-append piece back,
          length-append front piece,
        ))

    goes_on : ltb (length (front ++ piece)) h.msg_len ≡ true
    goes_on = lt→ltb _ _ (
        omega (
          arith,
          len,
          more,
          length-append front (piece ++ back),
          length-append piece back,
          length-append front piece,
        ))

-- More than a chunk is left, and enough chunks.
one_less : (k c n : ℕ) → n ≤ suc k * c → c < n → (n - c ≤ k * c) × (0 < k)
one_less zero c n h more = absurd (omega (arith, h, more, suc-mul 0 c))
one_less (suc k) c n h more = (omega (arith, h, suc-mul (suc k) c), omega arith)

-- What the sender puts down from a place in the body on, and what the receiver makes of it behind a
-- header that is read.
module _ (c ts : ℕ) (h : MsgHeader) (c_some : 0 < c) (c_small : c < 2 ^ 31)
    (plain : IsPlain h ts) where
  abbrev pub finished : Inbound → List ℕ → Inbound
  finished s body = message_complete (put_channel s h.cs_id (idle_after h ts)) (whole h ts body)

  -- The last piece, behind its header.
  Reads-last :
      (s : Inbound) (front back head rest : List ℕ)
      → h.msg_len ≡ length (front ++ back)
      → 0 < length back
      → length back ≤ c
      → s.in_chunk_size ≡ c
      → Opens s h ts front head
      → Reads s (head ++ (back ++ rest)) (finished s (front ++ back)) rest
  unfolding after_chunk
  Reads-last s front back head rest len some_back fits same opens =
      Reads-chunk s (head ++ (back ++ rest)) opens.fmt h.cs_id (opens.mid ++ (back ++ rest))
        (idle_after h ts) rest (some (whole h ts (front ++ back))) (opens.seen (back ++ rest))
        (opens.reads (back ++ rest) (omega (arith, some_back, length-append back rest))
          ∙ ap some (
              read_body-last s.in_chunk_size ts h _ front back rest len plain.len
                (omega (arith, fits, same)) (omega (arith, c_small, same))))
        (omega (
          arith,
          some_back,
          opens.some_head,
          length-append head (back ++ rest),
          length-append back rest,
        ))
        (omega (
          arith,
          some_back,
          opens.some_head,
          length-append head (back ++ rest),
          length-append back rest,
        ))

  Reads-piece :
      (s : Inbound) (front piece back head rest : List ℕ)
      → h.msg_len ≡ length (front ++ (piece ++ back))
      → length piece ≡ c
      → 0 < length back
      → s.in_chunk_size ≡ c
      → Opens s h ts front head
      → Reads s
          (head ++ (piece ++ rest))
          (put_channel s h.cs_id (under_way h ts (front ++ piece)))
          rest
  unfolding after_chunk
  Reads-piece s front piece back head rest len full more same opens =
      Reads-chunk s (head ++ (piece ++ rest)) opens.fmt h.cs_id (opens.mid ++ (piece ++ rest))
        (under_way h ts (front ++ piece)) rest none (opens.seen (piece ++ rest))
        (opens.reads (piece ++ rest) (omega (arith, full, c_some, length-append piece rest))
          ∙ ap some (
              read_body-piece s.in_chunk_size ts h _ front piece back rest len plain.len
                (full ∙ sym same) more))
        (omega (
          arith,
          full,
          c_some,
          opens.some_head,
          length-append head (piece ++ rest),
          length-append piece rest,
        ))
        (omega (
          arith,
          full,
          c_some,
          opens.some_head,
          length-append head (piece ++ rest),
          length-append piece rest,
        ))

  -- What a sender in the middle of a message has put down in the end, for a receiver that is as far.
  abbrev pub SendsRest : ℕ → Outbound → List ℕ → List ℕ → List ℕ → Inbound → Type 0
  SendsRest fuel o front back head s =
      (nodes : List (List ℕ)) × (used : ℕ) × (push_chunks (suc fuel) o h ts (front ++ back)
          (length front)
        ≡ some (record o { used = used; buffers = o.buffers ++ nodes }))
      × ((rest : List ℕ)
          → Reads s (head ++ (bytes nodes ++ rest)) (finished s (front ++ back)) rest)

  abbrev behind : Inbound → List ℕ → Inbound
  behind s front = put_channel s h.cs_id (under_way h ts front)

  abbrev with_piece : Outbound → List ℕ → Outbound
  with_piece o piece = record o {
    used = o.used + length (basic_bytes 3 h.cs_id);
    buffers = (o.buffers ++ (piece ∷ [])) ++ (basic_bytes 3 h.cs_id ∷ []);
  }

  -- A piece and the header behind it, where the rest is sent from there.
  sends_more :
      (fuel : ℕ) (o : Outbound) (front piece back head : List ℕ) (s : Inbound)
      → h.msg_len ≡ length (front ++ (piece ++ back))
      → length piece ≡ c
      → 0 < length back
      → o.out_chunk_size ≡ c
      → s.in_chunk_size ≡ c
      → o.used + 3 ≤ buffer_size
      → Opens s h ts front head
      → SendsRest fuel
          (with_piece o piece)
          (front ++ piece)
          back
          (basic_bytes 3 h.cs_id)
          (behind s (front ++ piece))
      → SendsRest (suc fuel) o front (piece ++ back) head s
  unfolding bytes
  sends_more fuel o front piece back head s len full more oc sc room opens
        (nodes, used, sent, read) =
      (
        piece ∷ later ∷ nodes,
        used,
        push_chunks-more (suc fuel) ts o h front piece back len (full ∙ sym oc) more plain.time
              (omega (arith, room)) (omega (arith, room, (length-basic_bytes 3 h.cs_id).1))
            ∙ ap
                (λ (body : List ℕ).
                  push_chunks (suc fuel) (with_piece o piece) h ts body (length (front ++ piece)))
                (sym (append_assoc front piece back))
            ∙ sent
            ∙ ap (λ (ns : List (List ℕ)). some (record o { used = used; buffers = ns }))
                (append_assoc (o.buffers ++ (piece ∷ [])) (later ∷ []) nodes
                  ∙ append_assoc o.buffers (piece ∷ []) (later ∷ nodes)),
        λ rest.
            rw
              (
                append_assoc piece (later ++ bytes nodes) rest,
                append_assoc later (bytes nodes) rest,
              )
              (Reads-piece s front piece back head (later ++ (bytes nodes ++ rest)) len full more sc
                  opens
                ∙ read rest
                ∙ ap (λ (t : Inbound). loop (suc (length rest)) t rest) (same rest)),
      )
    where
      later : List ℕ
      later = basic_bytes 3 h.cs_id

      same :
          (rest : List ℕ)
          → finished (behind s (front ++ piece)) ((front ++ piece) ++ back)
            ≡ finished s (front ++ (piece ++ back))
      same rest = rw (
        put_put s h.cs_id (under_way h ts (front ++ piece)) (idle_after h ts),
        append_assoc front piece back,
      )

  pub sends_rest :
      (k fuel : ℕ) (o : Outbound) (front back head : List ℕ) (s : Inbound)
      → h.msg_len ≡ length (front ++ back)
      → 0 < length back
      → length back ≤ k * c
      → length back ≤ fuel
      → o.out_chunk_size ≡ c
      → s.in_chunk_size ≡ c
      → o.used + 3 * k ≤ buffer_size + 3
      → Opens s h ts front head
      → SendsRest fuel o front back head s
  unfolding bytes
  sends_rest zero fuel o front back head s len some_back few enough oc sc room opens =
      absurd (omega (arith, some_back, few))
  sends_rest (suc k) zero o front back head s len some_back few enough oc sc room opens =
      absurd (omega (arith, some_back, enough))
  sends_rest (suc k) (suc fuel) o front back head s len some_back few enough oc sc room opens =
      elim (Bool-cases (leb (length back) c)) [
        | inl e ↦ (
          back ∷ [],
          o.used,
          push_chunks-last (suc fuel) ts o h front back len (omega (arith, leb→le _ _ e, oc)),
          λ rest.
              rw (append-nil back)
                (Reads-last s front back head rest len some_back (leb→le _ _ e) sc opens),
        )
        | inr e ↦
            let more : c < length back = ground arith in
            let (fewer, still) = one_less k c (length back) few more in
            let size : length (take c back) ≡ c = omega (arith, more, length-take c back) in
            let left : 0 < length (drop c back) = omega (arith, more, length-drop c back) in
            let all : take c back ++ drop c back ≡ back = take-append-drop c back in
            let s' : Inbound = behind s (front ++ take c back) in
            subst (λ (xs : List ℕ). SendsRest (suc fuel) o front xs head s) all
              (sends_more fuel o front (take c back) (drop c back) head s
                (len ∙ ap (λ (xs : List ℕ). length (front ++ xs)) (sym all)) size left oc sc
                (omega (arith, room, still)) opens
                (sends_rest k fuel (with_piece o (take c back)) (front ++ take c back) (drop c back)
                  (basic_bytes 3 h.cs_id) s'
                  (len
                    ∙ ap length (
                        ap (◌++◌ front) (sym all)
                        ∙ sym (append_assoc front (take c back) (drop c back))))
                  left (omega (arith, fewer, length-drop c back))
                  (omega (arith, length-drop c back, enough, c_some)) oc sc
                  (omega (arith, room, still, (length-basic_bytes 3 h.cs_id).1))
                  (later-Opens s' h ts (front ++ take c back) plain.low plain.high
                    (omega (arith, plain.time))
                    (channels_of s h.cs_id (under_way h ts (front ++ take c back))))))
      ]
