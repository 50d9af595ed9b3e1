-- ===== src/Chunk/Send/Tail.antt =====
-- The chunks of a message behind the first one, sent and received.
use mathlib.Core.List.{append-nil, append_assoc}
use lssvc.Common.{
  Bool-cases, List, Option, [], ap, arith, drop-append_length, false, ge→ltb, if◌then◌else◌, inl,
  inr, length, length-append, ltb, none, refl, some, suc, sym, take-append_length, true, ℕ, ◌%◌,
  ◌++◌, ◌+◌, ◌<◌, ◌==◌, ◌^◌, ◌∙◌, ◌≡◌, ◌≤◌,
}
use lssvc.Chunk.{MsgHeader, Packet, new_packet, signed_min, space}
use lssvc.Chunk.Receive.{
  Channel, basic_header, finish_chunk, header_missing, read_body, read_chunk, read_fields,
  read_rest, took,
}
use lssvc.Chunk.Loop.{Inbound, loop}
use lssvc.Chunk.Loop.Segments.{after_chunk, after_took, loop_fuel, loop_round, round_lem}
use lssvc.Chunk.Send.{basic_bytes}
use lssvc.Chunk.Send.Single.{basic_header-basic_bytes}

-- The loop over some bytes comes to a state with the rest of them still to read.
abbrev pub Reads : Inbound → List ℕ → Inbound → List ℕ → Type 0
Reads s xs s' rest = loop (suc (length xs)) s xs ≡ loop (suc (length rest)) s' rest

pub Reads-chunk :
    (s : Inbound) (xs : List ℕ) (fmt csid : ℕ) (r : List ℕ) (ch : Channel) (rest : List ℕ)
    (m : Option Packet)
    → basic_header xs ≡ some (fmt, csid, r)
    → read_chunk s.in_chunk_size fmt csid (s.channels csid) r ≡ some (took ch rest m)
    → 1 < length xs
    → length rest < length xs
    → Reads s xs (after_chunk s csid ch m) rest
Reads-chunk s xs fmt csid r ch rest m seen taken two less =
    loop_round (length xs) s xs two
    ∙ round_lem (loop (length xs)) s xs fmt csid r (took ch rest m) seen taken
    ∙ after_took (loop (length xs)) s csid xs ch rest m
    ∙ loop_fuel (length xs) (suc (length rest)) (after_chunk s csid ch m) rest less (omega arith)

-- A packet with a part of its body.
abbrev pub part : MsgHeader → ℕ → List ℕ → Packet
part h ts front = record (new_packet h.msg_len (record h { timestamp = ts })) { body = front }

abbrev pub under_way : MsgHeader → ℕ → List ℕ → Channel
under_way h ts front = record {
  prev = record h { timestamp = ts };
  packet = some (part h ts front);
  delta = 0;
  ext = false;
}

space_left :
    (h : MsgHeader) (ts : ℕ) (front back : List ℕ)
    → h.msg_len ≡ length (front ++ back)
    → h.msg_len < 2 ^ 24
    → space (part h ts front) ≡ length back
space_left h ts front back len small = omega (arith, len, small, length-append front back)

-- A piece of the body that is not the last.
pub read_body-piece :
    (c ts : ℕ) (h : MsgHeader) (ch : Channel) (front piece back rest : List ℕ)
    → h.msg_len ≡ length (front ++ (piece ++ back))
    → h.msg_len < 2 ^ 24
    → length piece ≡ c
    → 0 < length back
    → read_body c ch (part h ts front) (piece ++ rest)
      ≡ took
          (record ch {
            prev = record h { timestamp = ts };
            packet = some (part h ts (front ++ piece));
          })
          rest
          none
unfolding read_body finish_chunk
read_body-piece c ts h ch front piece back rest len small full more =
    simp (size, enough, take-append_length piece rest, drop-append_length piece rest, unfinished)
      refl
  where
    size : signed_min (space (part h ts front)) c ≡ length piece
    size =
        rw (space_left h ts front (piece ++ back) len small)
          (ground (arith, full, length-append piece back, length-append front (piece ++ back)))

    enough : ltb (length (piece ++ rest)) (length piece) ≡ false
    enough = ge→ltb _ _ (omega (arith, length-append piece rest))

    unfinished : (space (part h ts (front ++ piece)) == 0) ≡ false
    unfinished =
        rw
          (space_left h ts (front ++ piece) back
            (len ∙ ap length (sym (append_assoc front piece back))) small)
          (ground (arith, more))

-- The message that is complete.
abbrev pub whole : MsgHeader → ℕ → List ℕ → Packet
whole h ts body = record {
  header = record h { timestamp = ts };
  capacity = h.msg_len;
  body = body;
  packet_type = h.msg_type;
  timestamp = ts;
  index = 0;
}

abbrev pub idle_after : MsgHeader → ℕ → Channel
idle_after h ts = record {
  prev = record h { timestamp = ts };
  packet = none;
  delta = 0;
  ext = false;
}

-- The last piece.
pub read_body-last :
    (c ts : ℕ) (h : MsgHeader) (ch : Channel) (front piece rest : List ℕ)
    → h.msg_len ≡ length (front ++ piece)
    → h.msg_len < 2 ^ 24
    → length piece ≤ c
    → c < 2 ^ 31
    → read_body c ch (part h ts front) (piece ++ rest)
      ≡ took
          (record ch { prev = record h { timestamp = ts }; packet = none })
          rest
          (some (whole h ts (front ++ piece)))
unfolding read_body finish_chunk
read_body-last c ts h ch front piece rest len small fits c_small =
    simp (size, enough, take-append_length piece rest, drop-append_length piece rest, finished) refl
  where
    size : signed_min (space (part h ts front)) c ≡ length piece
    size =
        rw (space_left h ts front piece len small)
          (ground (arith, fits, c_small, len, small, length-append front piece))

    enough : ltb (length (piece ++ rest)) (length piece) ≡ false
    enough = ge→ltb _ _ (omega (arith, length-append piece rest))

    finished : (space (part h ts (front ++ piece)) == 0) ≡ true
    finished =
        rw
          (space_left h ts (front ++ piece) [] (len ∙ ap length (sym (append-nil (front ++ piece))))
            small)
          refl

-- A round whose basic header and fields are read, and that goes on with the body: the format, the
-- bytes behind the basic header, and what the channel had.
pub record Opens (s : Inbound) (h : MsgHeader) (ts : ℕ) (front head : List ℕ) : Type 0 where
  pub fmt : ℕ
  pub mid : List ℕ
  pub prev : MsgHeader
  pub before : Option Packet
  pub some_head : 0 < length head
  pub seen : (xs : List ℕ) → basic_header (head ++ xs) ≡ some (fmt, h.cs_id, mid ++ xs)
  pub reads :
      (xs : List ℕ)
      → 0 < length xs
      → read_chunk s.in_chunk_size fmt h.cs_id (s.channels h.cs_id) (mid ++ xs)
        ≡ some (
            read_body s.in_chunk_size
              (record { prev = prev; packet = before; delta = 0; ext = false })
              (part h ts front)
              xs)

pub length-basic_bytes :
    (fmt csid : ℕ) → (0 < length (basic_bytes fmt csid)) × (length (basic_bytes fmt csid) ≤ 3)
unfolding basic_bytes
length-basic_bytes fmt csid = elim (Bool-cases (ltb csid 64)) [
  | inl e ↦ rw e (omega arith, omega arith)
  | inr e ↦ elim (Bool-cases (ltb csid 320)) [
    | inl f ↦ rw e (rw f (omega arith, omega arith))
    | inr f ↦ rw e (rw f (omega arith, omega arith))
  ]
]

-- A chunk of format 3, for a packet that is under way.
pub later-Opens :
    (s : Inbound) (h : MsgHeader) (ts : ℕ) (front : List ℕ)
    → 2 ≤ h.cs_id
    → h.cs_id < 65600
    → ts < 2 ^ 32
    → s.channels h.cs_id ≡ under_way h ts front
    → Opens s h ts front (basic_bytes 3 h.cs_id)
unfolding read_chunk read_fields read_rest
later-Opens s h ts front low high small e = record {
  fmt = 3;
  mid = [];
  prev = record h { timestamp = ts };
  before = some (part h ts front);
  some_head = (length-basic_bytes 3 h.cs_id).0;
  seen = λ xs. basic_header-basic_bytes 3 h.cs_id xs (omega arith) low high;
  reads = λ xs more. rw e (simp (present xs more, time) refl);
}
  where
    present : (xs : List ℕ) → 0 < length xs → header_missing 3 (length xs) ≡ false
    present xs more = ground (arith, more)

    time : (if ts == 0 then (0 + ts) % 2 ^ 32 else ts) ≡ ts
    time = ground (arith, small)
