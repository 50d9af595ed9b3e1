-- ===== src/Udp/Tests.antt =====
-- The socket at concrete inputs.
use lssvc.Connection.{again, wrote}
use lssvc.Udp.{
  UdpSocket, asking, close_udp, got, got_empty, init_udp, nothing, read_loop, send_at_once,
  send_list, send_loop, send_one, took, udp_on_read, udp_on_write,
}
use lssvc.Udp.Delivery.{Act, act, acts, ends, readable, sends, sends_one, writable}
use lssvc.Udp.EmptyDatagram.{empty_datagram-hangs}
use lssvc.Common.{List, [], refl, replicate, true, ◌++◌, ◌∷◌, ◌≡◌}

empty_datagram-hangs_example :
    (let u' = send_one (wrote 0) init_udp (3, []) in
      (u'.buffers ≡ (3, []) ∷ [])
      × (u'.sent ≡ (3, []) ∷ [])
      × ((u'' : UdpSocket) × (udp_on_write (replicate 4 (wrote 0)) u' ≡ asking u'')
          × (u''.buffers ≡ (3, []) ∷ [])
          × (u''.sent ≡ u'.sent ++ replicate 4 (3, []))))
empty_datagram-hangs_example = empty_datagram-hangs init_udp 3 4 refl refl

abbrev some_acts : List Act
some_acts =
    sends_one again (1, 5 ∷ [])
    ∷ sends ((2, 6 ∷ []) ∷ [])
    ∷ readable (got (9, 7 ∷ []) ∷ got_empty ∷ nothing ∷ [])
    ∷ writable (wrote 1 ∷ again ∷ [])
    ∷ writable (wrote 1 ∷ [])
    ∷ ends
    ∷ ends
    ∷ []

all_sent : acts init_udp some_acts ≡ record {
  closed = true;
  buffers = [];
  writing = true;
  messages = (9, 7 ∷ []) ∷ [];
  sent = (1, 5 ∷ []) ∷ (2, 6 ∷ []) ∷ [];
  completed = 1;
  closings = 1;
}
unfolding acts act send_one send_at_once took send_list udp_on_read udp_on_write read_loop send_loop
    close_udp
all_sent = refl
