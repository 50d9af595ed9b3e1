-- ===== src/Connection/Tests.antt =====
-- Writing through a connection at concrete inputs.
use lssvc.Common.{
  List, [], arith, false, length, refl, some, true, ℕ, ◌++◌, ◌+◌, ◌<◌, ◌∷◌, ◌≡◌, ◌≤◌,
}
use lssvc.Connection.{
  Connection, Progress, advance, again, bytes, calling, init, on_write, returned, send_nodes,
  write_loop, wrote,
}
use lssvc.Connection.Writing.{Fits, of_progress, send_nodes-on_write, stream}
use lssvc.Connection.Faults.{total, write_loop-completes, zeros}
use lssvc.Connection.EmptyMessage.{empty_message-hangs}
use lssvc.Chunk.{Packet}
use lssvc.Chunk.Send as Send

abbrev two_nodes : List (List ℕ)
two_nodes = (1 ∷ 2 ∷ []) ∷ (3 ∷ []) ∷ []

-- One byte, then the others: the callback is called once.
written :
    on_write (wrote 1 ∷ wrote 2 ∷ []) (send_nodes init two_nodes)
    ≡ some (
        returned (record {
          closed = false;
          pending = [];
          writing = false;
          sent = 1 ∷ 2 ∷ 3 ∷ [];
          completed = 1;
        }))
unfolding on_write send_nodes write_loop advance bytes
written = refl

send_nodes-on_write_example :
    (p : Progress) × (on_write (wrote 1 ∷ again ∷ []) (send_nodes init two_nodes) ≡ some p)
    × (stream (of_progress p) ≡ stream init ++ bytes two_nodes)
    × ((of_progress p).completed ≤ 0 + 1)
    × (0 < (of_progress p).completed → bytes (of_progress p).pending ≡ [])
unfolding send_nodes bytes Fits
send_nodes-on_write_example =
    send_nodes-on_write init two_nodes (wrote 1 ∷ again ∷ []) refl (omega arith, tt)

write_loop-completes_example :
    (c' : Connection) × (write_loop (wrote 2 ∷ wrote 1 ∷ []) (record init { pending = two_nodes })
      ≡ some (returned c'))
    × (c'.pending ≡ [])
    × (c'.writing ≡ false)
    × (c'.completed ≡ 0 + 1)
    × (c'.sent ≡ [] ++ bytes two_nodes)
unfolding bytes Fits total
write_loop-completes_example =
    write_loop-completes (wrote 2 ∷ wrote 1 ∷ []) (record init { pending = two_nodes })
      (omega arith) (omega arith) (omega arith) (omega arith) (omega arith)

abbrev nothing : Packet
nothing = record {
  header = record { cs_id = 4; timestamp = 0; msg_len = 0; msg_type = 8; msg_sid = 1 };
  capacity = 0;
  body = [];
  packet_type = 2;
  timestamp = 0;
  index = 0;
}

empty_message-hangs_example :
    (o' : Send.Outbound) × (n : ℕ) × (Send.build_chunk Send.init nothing 0 true ≡ some o')
    × (n ≡ length (bytes o'.buffers))
    × ((k : ℕ)
        → (c : Connection) × (on_write (wrote n ∷ zeros k) (send_nodes init o'.buffers)
            ≡ some (calling c)))
empty_message-hangs_example =
    empty_message-hangs Send.init nothing 0
      (record {
        time = omega arith;
        len = omega arith;
        typ = omega arith;
        sid = omega arith;
        low = omega arith;
        high = omega arith;
      })
      refl refl (omega arith) refl refl
