-- ===== src/Chunk/Tests.antt =====
-- The receiving half of RtmpContext at concrete inputs.
use lssvc.Common.{List, Option, [], arith, length, none, refl, some, suc, ℕ, ◌++◌, ◌∷◌, ◌≡◌}
use lssvc.Chunk.{Packet, load_uint32}
use lssvc.Chunk.Receive.{
  basic_header, finish_chunk, no_channel, read_body, read_chunk, read_fields, read_rest,
}
use lssvc.Bytes.{read_uint24, read_uint8}
use lssvc.Chunk.Receive.Rounds.{Round, round}
use lssvc.Chunk.Loop.{
  Event, Inbound, Result, after_round, init, loop, media, message_complete, parse_message,
  send_bytes_recv, set_packet_type, take_round,
}
use lssvc.Chunk.Loop.Segments.{loop-append}

-- An audio message of three bytes at 16 ms on chunk stream 4, cut within its message header.
abbrev first_piece : List ℕ
first_piece = 4 ∷ 0 ∷ 0 ∷ 16 ∷ 0 ∷ 0 ∷ []

abbrev second_piece : List ℕ
second_piece = 3 ∷ 8 ∷ 1 ∷ 0 ∷ 0 ∷ 0 ∷ 7 ∷ 8 ∷ 9 ∷ []

abbrev audio : Packet
audio = record {
  header = record { cs_id = 4; timestamp = 16; msg_len = 3; msg_type = 8; msg_sid = 1 };
  capacity = 3;
  body = 7 ∷ 8 ∷ 9 ∷ [];
  packet_type = 2;
  timestamp = 16;
  index = 0;
}

-- The events, and the bytes left.
abbrev map_result : Result → Option (List Event × List ℕ)
map_result none = none
map_result (some (s, left)) = some (s.events, left)

-- The whole message.
whole_message :
    map_result (parse_message init (first_piece ++ second_piece)) ≡ some (media audio ∷ [], [])
unfolding parse_message send_bytes_recv loop take_round basic_header read_chunk read_fields
    read_uint24 read_uint8 load_uint32 read_rest read_body finish_chunk after_round message_complete
    set_packet_type
whole_message = refl

loop-append_example :
    (t : Inbound) × (left : List ℕ) × (loop 7 init first_piece ≡ some (t, left))
    × (loop 16 init (first_piece ++ second_piece)
        ≡ loop (suc (length (left ++ second_piece))) t (left ++ second_piece))
loop-append_example = loop-append init first_piece second_piece

round_example : Round 128 0 4 no_channel (0 ∷ 0 ∷ 16 ∷ [])
round_example = round 128 0 4 no_channel (0 ∷ 0 ∷ 16 ∷ []) (omega arith)
