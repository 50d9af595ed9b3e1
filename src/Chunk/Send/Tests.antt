-- ===== src/Chunk/Send/Tests.antt =====
-- The sending half of RtmpContext at concrete inputs.
use lssvc.Common.{List, [], arith, refl, some, true, ℕ, ◌++◌, ◌>>=◌, ◌∷◌, ◌≡◌}
use lssvc.Bytes.{write_uint24, write_uint8}
use lssvc.Chunk.{Packet, store_uint32}
use lssvc.Chunk.Send as Send
use lssvc.Chunk.Loop as Loop
use lssvc.Chunk.Send.Single.{IsPlain}
use lssvc.Chunk.Send.Tail.{Reads, idle_after, whole}
use lssvc.Chunk.Send.RoundTrip.{build_chunk-Reads}
use lssvc.Connection.{bytes}

-- A frame of three bytes on stream 70, whose basic header takes two bytes.
abbrev frame : Packet
frame = record {
  header = record { cs_id = 70; timestamp = 0; msg_len = 3; msg_type = 9; msg_sid = 1 };
  capacity = 3;
  body = 7 ∷ 8 ∷ 9 ∷ [];
  packet_type = 1;
  timestamp = 0;
  index = 0;
}

frame-IsPlain : IsPlain frame.header 40
frame-IsPlain = record {
  time = omega arith;
  len = omega arith;
  typ = omega arith;
  sid = omega arith;
  low = omega arith;
  high = omega arith;
}

-- The bytes of the two nodes.
frame_nodes :
    (Send.build_chunk Send.init frame 40 true >>= λ o. some o.buffers)
    ≡ some ((0 ∷ 6 ∷ 0 ∷ 0 ∷ 40 ∷ 0 ∷ 0 ∷ 3 ∷ 9 ∷ 1 ∷ 0 ∷ 0 ∷ 0 ∷ []) ∷ (7 ∷ 8 ∷ 9 ∷ []) ∷ [])
unfolding Send.build_chunk Send.choose_fmt Send.push_header Send.basic_bytes Send.message_bytes
    Send.push_chunks Send.push_body write_uint24 write_uint8 store_uint32
frame_nodes = refl

-- The same with chunks of two bytes on both sides: a header of format 3 before the last byte.
abbrev narrow : Send.Outbound
narrow = record (Send.init) { out_chunk_size = 2 }

abbrev narrow_in : Loop.Inbound
narrow_in = record (Loop.init) { in_chunk_size = 2 }

narrow_nodes :
    (Send.build_chunk narrow frame 40 true >>= λ o. some o.buffers)
    ≡ some (
        (0 ∷ 6 ∷ 0 ∷ 0 ∷ 40 ∷ 0 ∷ 0 ∷ 3 ∷ 9 ∷ 1 ∷ 0 ∷ 0 ∷ 0 ∷ [])
        ∷ (7 ∷ 8 ∷ [])
        ∷ (192 ∷ 6 ∷ [])
        ∷ (9 ∷ [])
        ∷ [])
unfolding Send.build_chunk Send.choose_fmt Send.push_header Send.basic_bytes Send.message_bytes
    Send.push_chunks Send.push_body write_uint24 write_uint8 store_uint32
narrow_nodes = refl

build_chunk-Reads_example :
    (o' : Send.Outbound) × (nodes : List (List ℕ)) × (Send.build_chunk narrow frame 40 true
      ≡ some o')
    × (o'.buffers ≡ [] ++ nodes)
    × ((rest : List ℕ)
        → Reads narrow_in
            (bytes nodes ++ rest)
            (Loop.message_complete
              (Loop.put_channel narrow_in 70 (idle_after frame.header 40))
              (whole frame.header 40 (7 ∷ 8 ∷ 9 ∷ [])))
            rest)
build_chunk-Reads_example =
    build_chunk-Reads 2 2 narrow frame 40 narrow_in (omega arith) (omega arith) frame-IsPlain refl
      (omega arith) (omega arith) refl refl (omega arith) refl refl
