-- ===== src/Udp.antt =====
-- src/network/net/lssvc_udp_socket.cpp: the datagrams that a socket reads and has still to send. What
-- the kernel makes of the calls is an argument, one answer for each; the idle timeout is the timing
-- wheel.
pub mod Delivery
pub mod EmptyDatagram
pub mod Tests
use lssvc.Connection.{Answer, again, broken, bytes, wrote}
use lssvc.Common.{Bool, List, [], false, if◌then◌else◌, suc, true, zero, ℕ, ◌++◌, ◌+◌, ◌∷◌}

-- A datagram with the number of its peer.
abbrev pub Datagram : Type 0
Datagram = ℕ × List ℕ

-- What `recvfrom` returns: a datagram, an empty one, -1 with EINTR, EAGAIN or EWOULDBLOCK, or -1
-- with another error.
pub data Received : Type 0 where
  got : Datagram → Received
  got_empty : Received
  nothing : Received
  failed : Received

-- `messages` are the calls of message_cb_, `sent` what the kernel took, `completed` counts the calls
-- of write_complete_cb_ and `closings` those of close_cb_.
pub record UdpSocket : Type 0 where
  pub closed : Bool
  pub buffers : List Datagram
  pub writing : Bool
  pub messages : List Datagram
  pub sent : List Datagram
  pub completed : ℕ
  pub closings : ℕ

abbrev pub init_udp : UdpSocket
init_udp = record {
  closed = false;
  buffers = [];
  writing = false;
  messages = [];
  sent = [];
  completed = 0;
  closings = 0;
}

-- `onClose`; onTimeout, onError and forceClose come to it too.
unfoldable pub close_udp : UdpSocket → UdpSocket
close_udp u = if u.closed then u else record u { closed = true; closings = u.closings + 1 }

-- How a loop over system calls goes: it comes back, or waits for the answer to one more call.
pub data Pace : Type 0 where
  back : UdpSocket → Pace
  asking : UdpSocket → Pace

unfoldable pub read_loop : List Received → UdpSocket → Pace
read_loop [] u = asking u
read_loop (got d ∷ answers) u = read_loop answers (record u { messages = u.messages ++ (d ∷ []) })
read_loop (got_empty ∷ answers) u = read_loop answers u
read_loop (nothing ∷ answers) u = back u
read_loop (failed ∷ answers) u = back (close_udp u)

unfoldable pub udp_on_read : List Received → UdpSocket → Pace
udp_on_read answers u = if u.closed then back u else read_loop answers u

abbrev pub finish : UdpSocket → UdpSocket
finish u = record u { completed = u.completed + 1 }

-- What the kernel took where `sendto` returns `n`: with 0 it took a datagram without bytes.
unfoldable pub took : UdpSocket → ℕ → Datagram → UdpSocket
took u (suc n) d = record u { sent = u.sent ++ (d ∷ []) }
took u zero (peer, []) = record u { sent = u.sent ++ ((peer, []) ∷ []) }
took u zero (peer, b ∷ bytes) = u

unfoldable pub send_loop : List Answer → List Datagram → UdpSocket → Pace
send_loop answers [] u = back (finish u)
send_loop [] (d ∷ ds) u = asking u
send_loop (wrote zero ∷ answers) (d ∷ ds) u = send_loop answers (d ∷ ds) (took u 0 d)
send_loop (wrote (suc n) ∷ answers) (d ∷ ds) u =
    send_loop answers ds (record (took u (suc n) d) { buffers = ds })
send_loop (again ∷ answers) (d ∷ ds) u = back u
send_loop (broken ∷ answers) (d ∷ ds) u = back (close_udp u)

unfoldable pub udp_on_write : List Answer → UdpSocket → Pace
udp_on_write answers u = if u.closed then back u else send_loop answers u.buffers u

abbrev pub some_left : {A : Type 0} → List A → Bool
some_left [] = false
some_left (x ∷ xs) = true

-- `sendInLoop` of a list.
unfoldable pub send_list : UdpSocket → List Datagram → UdpSocket
send_list u ds =
    let u' = record u { buffers = u.buffers ++ ds } in
    if some_left (u.buffers ++ ds) then record u' { writing = true } else u'

-- `sendInLoop` of a buffer, which is sent at once where nothing waits. Only a count above 0 counts as
-- sent, and an error is not looked at.
abbrev pub queue : UdpSocket → Datagram → UdpSocket
queue u d = record u { buffers = u.buffers ++ (d ∷ []); writing = true }

unfoldable pub send_at_once : Answer → UdpSocket → Datagram → UdpSocket
send_at_once (wrote (suc n)) u d = took u (suc n) d
send_at_once (wrote zero) u d = queue (took u 0 d) d
send_at_once again u d = queue u d
send_at_once broken u d = queue u d

unfoldable pub send_one : Answer → UdpSocket → Datagram → UdpSocket
send_one answer u d = if some_left u.buffers then queue u d else send_at_once answer u d
