-- ===== src/Chunk/Send/Single.antt =====
-- A message in one chunk, sent and received.
use lssvc.Common.{
  Bool, Bool-cases, List, [], ap, arith, drop-append_length, false, ge→ltb, inl, inr, leb, length,
  length-append, le→leb, ltb, min, none, refl, some, suc, take-append_length, take_all, true, ℕ,
  ◌%◌, ◌*◌, ◌++◌, ◌+◌, ◌-◌, ◌/◌, ◌<◌, ◌==◌, ◌^◌, ◌∙◌, ◌∷◌, ◌≡◌, ◌≤◌,
}
use lssvc.Chunk.{
  MsgHeader, Packet, ext_mark, load_uint32, new_packet, signed_min, space, store_uint32,
}
use lssvc.Chunk.Send.{
  Outbound, basic_bytes, buffer_size, build_chunk, capped, choose_fmt, ext_bytes, message_bytes,
  push_body, push_chunks, push_header, sent_delta, sent_header, set_at,
}
use lssvc.Chunk.Receive.{
  Channel, basic_header, finish_chunk, header_missing, read_body, read_chunk, read_fields,
  read_rest, took,
}
use lssvc.Bytes.{read_uint24, read_uint8, write_uint24, write_uint8}
use lssvc.Chunk.Loop.Segments.{round_lem}
use lssvc.Chunk.Loop.{Inbound, Result, after_round, message_complete, put_channel, take_round}
use mathlib.Core.List.{append-nil, append_assoc}
use native.Mathlib.Nat.{le_refl}

-- The basic header is read back in each of its three forms.
pub basic_header-basic_bytes :
    (fmt csid : ℕ) (xs : List ℕ)
    → fmt < 4
    → 2 ≤ csid
    → csid < 65600
    → basic_header (basic_bytes fmt csid ++ xs) ≡ some (fmt, csid, xs)
unfolding basic_header basic_bytes
basic_header-basic_bytes fmt csid xs small low high = elim (Bool-cases (ltb csid 64)) [
  | inl e ↦ rw e (ground arith)
  | inr e ↦ elim (Bool-cases (ltb csid 320)) [
    | inl f ↦ rw e (rw f (ground arith))
    | inr f ↦ rw e (rw f (ground arith))
  ]
]

word24 : (v : ℕ) → v < 2 ^ 24 → (v / 65536 % 256) * 65536 + (v / 256 % 256) * 256 + v % 256 ≡ v
word24 v h = omega arith

word32 :
    (v : ℕ)
    → v < 2 ^ 32
    → v % 256 + (v / 256 % 256) * 256 + (v / 65536 % 256) * 65536 + (v / 16777216 % 256) * 16777216
      ≡ v
word32 v h = omega arith

-- A body that is the whole of its packet, and fits into a chunk.
read_body-whole :
    (n : ℕ) (ch : Channel) (p : Packet) (body rest : List ℕ)
    → p.body ≡ []
    → p.capacity ≡ length body
    → length body ≤ n
    → n < 2 ^ 31
    → read_body n ch p (body ++ rest)
      ≡ took
          (record ch { prev = p.header; packet = none })
          rest
          (some (record p {
            body = body;
            packet_type = p.header.msg_type;
            timestamp = p.header.timestamp;
          }))
unfolding read_body finish_chunk
read_body-whole n ch p body rest empty cap fits small =
    rw (sizes, enough, empty)
      (rw (take-append_length body rest, drop-append_length body rest, full) refl)
  where
    sizes : signed_min (space p) n ≡ length body
    sizes = rw (empty, cap) (ground arith)

    enough : ltb (length (body ++ rest)) (length body) ≡ false
    enough = ge→ltb _ _ (omega (arith, length-append body rest))

    full : (space (record p { body = body }) == 0) ≡ true
    full = rw cap (ground arith)

push_chunks-single :
    (o : Outbound) (h : MsgHeader) (ts : ℕ) (body : List ℕ)
    → h.msg_len ≡ length body
    → length body ≤ o.out_chunk_size
    → push_chunks (suc h.msg_len) o h ts body 0
      ≡ some (record o { buffers = o.buffers ++ (body ∷ []) })
unfolding push_chunks push_body
push_chunks-single o h ts body len fits =
    rw (size, inside, take_all (length body) body (le_refl _), last) refl
  where
    size : min (h.msg_len - 0) o.out_chunk_size ≡ length body
    size = omega (arith, len, fits)

    inside : leb (0 + length body) (length body) ≡ true
    inside = le→leb _ _ (omega arith)

    last : ltb (0 + length body) h.msg_len ≡ false
    last = ge→ltb _ _ (omega (arith, len))

-- The fields of a header are within their widths, and its timestamp below the mark.
pub record IsPlain (h : MsgHeader) (ts : ℕ) : Type 0 where
  pub time : ts < ext_mark
  pub len : h.msg_len < 2 ^ 24
  pub typ : h.msg_type < 2 ^ 8
  pub sid : h.msg_sid < 2 ^ 32
  pub low : 2 ≤ h.cs_id
  pub high : h.cs_id < 65600

pub read_chunk-message_bytes :
    (n : ℕ) (ch : Channel) (h : MsgHeader) (ts : ℕ) (xs : List ℕ)
    → IsPlain h ts
    → ch.packet ≡ none
    → read_chunk n 0 h.cs_id ch (message_bytes 0 h ts ++ xs)
      ≡ some (
          read_body n
            (record ch { ext = false; delta = 0 })
            (new_packet h.msg_len (record h { timestamp = ts }))
            xs)
unfolding read_chunk message_bytes write_uint24 write_uint8 store_uint32 read_uint24 read_uint8
    load_uint32 read_fields read_rest
read_chunk-message_bytes n ch h ts xs p idle =
    rw
      (
        idle,
        word24 ts (omega (arith, p.time)),
        word24 h.msg_len p.len,
        word32 h.msg_sid p.sid,
        typ,
        unmarked,
        present,
      )
      refl
  where
    typ : h.msg_type % 256 ≡ h.msg_type
    typ = omega (arith, p.typ)

    unmarked : (ts == ext_mark) ≡ false
    unmarked = ground (arith, p.time)

    present : header_missing 0 (length (message_bytes 0 h ts ++ xs)) ≡ false
    present = ground arith

pub choose_fmt-first :
    (o : Outbound) (h : MsgHeader) (ts : ℕ) (fmt0 : Bool)
    → o.prevs h.cs_id ≡ none
    → choose_fmt o h ts fmt0 ≡ (0, ts)
unfolding choose_fmt
choose_fmt-first o h ts fmt0 e = rw (e, choose_fmt) refl

pub capped-below : (ts : ℕ) → ts < ext_mark → capped ts ≡ ts
capped-below ts h = ground arith

pub ext_bytes-none : (ts : ℕ) → ts < ext_mark → ext_bytes ts ≡ []
ext_bytes-none ts h = let e : (capped ts == ext_mark) ≡ false = ground arith in rw e refl

pub push_header-fits :
    (o : Outbound) (bytes : List ℕ)
    → o.used + length bytes ≤ buffer_size
    → push_header o bytes
      ≡ some (record o { used = o.used + length bytes; buffers = o.buffers ++ (bytes ∷ []) })
unfolding push_header
push_header-fits o bytes h = rw (le→leb _ _ h) refl

pub length-head :
    (h : MsgHeader) (ts : ℕ) → length (basic_bytes 0 h.cs_id ++ message_bytes 0 h ts) ≤ 14
unfolding basic_bytes message_bytes write_uint24 write_uint8 store_uint32
length-head h ts = elim (Bool-cases (ltb h.cs_id 64)) [
  | inl e ↦ rw e (omega arith)
  | inr e ↦ elim (Bool-cases (ltb h.cs_id 320)) [
    | inl f ↦ rw e (rw f (omega arith))
    | inr f ↦ rw e (rw f (omega arith))
  ]
]

-- The sender after the header of the first chunk.
abbrev pub headed : Outbound → Packet → ℕ → Outbound
headed o p ts = record o {
  packets = o.packets ++ (p ∷ []);
  used = o.used + length (basic_bytes 0 p.header.cs_id ++ message_bytes 0 p.header ts);
  buffers = o.buffers ++ ((basic_bytes 0 p.header.cs_id ++ message_bytes 0 p.header ts) ∷ []);
  prevs = set_at o.prevs p.header.cs_id (some (sent_header o p.header 0 ts));
  deltas = set_at o.deltas p.header.cs_id (sent_delta o p.header.cs_id 0 ts);
}

pub build_chunk-headed :
    (o : Outbound) (p : Packet) (ts : ℕ)
    → ts < ext_mark
    → o.used + 14 ≤ buffer_size
    → o.prevs p.header.cs_id ≡ none
    → build_chunk o p ts true
      ≡ push_chunks (suc p.header.msg_len) (headed o p ts) p.header ts p.body 0
unfolding build_chunk
build_chunk-headed o p ts time room first =
    rw (choose_fmt-first o p.header ts true first, head_bytes, header_there) refl
  where
    head : List ℕ
    head = basic_bytes 0 p.header.cs_id ++ message_bytes 0 p.header ts

    head_bytes :
        basic_bytes 0 p.header.cs_id ++ (message_bytes 0 p.header (capped ts) ++ ext_bytes ts)
        ≡ head
    head_bytes =
        rw (ext_bytes-none ts time, capped-below ts time)
          (ap (◌++◌ (basic_bytes 0 p.header.cs_id)) (append-nil (message_bytes 0 p.header ts)))

    header_there :
        push_header (record o { packets = o.packets ++ (p ∷ []) }) head
        ≡ some (record o {
          packets = o.packets ++ (p ∷ []);
          used = o.used + length head;
          buffers = o.buffers ++ (head ∷ []);
        })
    header_there =
        push_header-fits (record o { packets = o.packets ++ (p ∷ []) }) head
          (omega (arith, room, length-head p.header ts))

-- A message whose fields are within their widths, at a time below 0xFFFFFF, that fits into one chunk
-- on both sides and is the first on its stream: where the buffer has 14 bytes of room, `buildChunk`
-- puts down two nodes, and a round of `parseMessage` over their bytes, on a stream where nothing is
-- under way, gives the body, the header with its timestamp, and the rest.
pub build_chunk-read :
    (o : Outbound) (p : Packet) (ts : ℕ) (s : Inbound) (rest : List ℕ)
    (go : Inbound → List ℕ → Result)
    → IsPlain p.header ts
    → p.header.msg_len ≡ length p.body
    → length p.body ≤ o.out_chunk_size
    → length p.body ≤ s.in_chunk_size
    → s.in_chunk_size < 2 ^ 31
    → o.used + 14 ≤ buffer_size
    → o.prevs p.header.cs_id ≡ none
    → (s.channels p.header.cs_id).packet ≡ none
    → (o' : Outbound) × (head : List ℕ) × (build_chunk o p ts true ≡ some o')
      × (o'.buffers ≡ (o.buffers ++ (head ∷ [])) ++ (p.body ∷ []))
      × (take_round go s (head ++ (p.body ++ rest))
          ≡ go
              (message_complete
                (put_channel s p.header.cs_id (record (s.channels p.header.cs_id) {
                  prev = record (p.header) { timestamp = ts };
                  packet = none;
                  delta = 0;
                  ext = false;
                }))
                (record {
                  header = record (p.header) { timestamp = ts };
                  capacity = p.header.msg_len;
                  body = p.body;
                  packet_type = p.header.msg_type;
                  timestamp = ts;
                  index = 0;
                }))
              rest)
unfolding build_chunk after_round
build_chunk-read o p ts s rest go plain len out_fits in_fits small room first idle = (
  record (headed o p ts) { buffers = (headed o p ts).buffers ++ (p.body ∷ []) },
  head,
  build_chunk-headed o p ts plain.time (omega (arith, room)) first ∙ built,
  refl,
  round_lem go s (head ++ (p.body ++ rest)) 0 p.header.cs_id
        (message_bytes 0 p.header ts ++ (p.body ++ rest)) _ seen taken
      ∙ unfold after_round in refl,
)
  where
    head : List ℕ
    head = basic_bytes 0 p.header.cs_id ++ message_bytes 0 p.header ts

    seen :
        basic_header (head ++ (p.body ++ rest))
        ≡ some (0, p.header.cs_id, message_bytes 0 p.header ts ++ (p.body ++ rest))
    seen =
        ap basic_header (
          append_assoc (basic_bytes 0 p.header.cs_id) (message_bytes 0 p.header ts)
            (p.body ++ rest))
        ∙ basic_header-basic_bytes 0 p.header.cs_id
            (message_bytes 0 p.header ts ++ (p.body ++ rest)) (omega arith) plain.low plain.high

    built :
        push_chunks (suc p.header.msg_len) (headed o p ts) p.header ts p.body 0
        ≡ some (record (headed o p ts) { buffers = (headed o p ts).buffers ++ (p.body ∷ []) })
    built = push_chunks-single (headed o p ts) p.header ts p.body len out_fits

    taken :
        read_chunk s.in_chunk_size 0 p.header.cs_id
          (s.channels p.header.cs_id)
          (message_bytes 0 p.header ts ++ (p.body ++ rest))
        ≡ some (
            took
              (record (s.channels p.header.cs_id) {
                prev = record (p.header) { timestamp = ts };
                packet = none;
                delta = 0;
                ext = false;
              })
              rest
              (some (record {
                header = record (p.header) { timestamp = ts };
                capacity = p.header.msg_len;
                body = p.body;
                packet_type = p.header.msg_type;
                timestamp = ts;
                index = 0;
              })))
    taken =
        read_chunk-message_bytes s.in_chunk_size (s.channels p.header.cs_id) p.header ts
          (p.body ++ rest) plain idle
        ∙ ap some (
            read_body-whole s.in_chunk_size
              (record (s.channels p.header.cs_id) { ext = false; delta = 0 })
              (new_packet p.header.msg_len (record (p.header) { timestamp = ts })) p.body rest refl
              len in_fits small)
