-- ===== src/Udp/Delivery.antt =====
-- Datagrams leave in the order in which they were handed over.
use lssvc.Connection.{Answer, bytes}
use lssvc.Udp.{
  Datagram, Pace, Received, UdpSocket, asking, back, close_udp, send_list, send_one, some_left,
  took, udp_on_read, udp_on_write,
}
use lssvc.Common.{List, [], if◌then◌else◌, suc, true, ℕ, ◌++◌, ◌∷◌, ◌≡◌, ◌≢◌}

-- What a user of the socket and its loop do.
pub data Act : Type 0 where
  sends : List Datagram → Act
  sends_one : Answer → Datagram → Act
  writable : List Answer → Act
  readable : List Received → Act
  ends : Act

abbrev pub socket : Pace → UdpSocket
socket (back u) = u
socket (asking u) = u

unfoldable pub act : UdpSocket → Act → UdpSocket
act u (sends ds) = send_list u ds
act u (sends_one answer d) = send_one answer u d
act u (writable answers) = socket (udp_on_write answers u)
act u (readable answers) = socket (udp_on_read answers u)
act u ends = close_udp u

unfoldable pub acts : UdpSocket → List Act → UdpSocket
acts u [] = u
acts u (a ∷ more) = acts (act u a) more

-- The datagrams that were handed over.
unfoldable pub handed : List Act → List Datagram
handed [] = []
handed (sends ds ∷ more) = ds ++ handed more
handed (sends_one answer d ∷ more) = d ∷ handed more
handed (writable answers ∷ more) = handed more
handed (readable answers ∷ more) = handed more
handed (ends ∷ more) = handed more

-- What was sent and what waits.
abbrev line : UdpSocket → List Datagram
line u = u.sent ++ u.buffers

-- The socket after the first of the datagrams that wait was taken with a count above 0.
abbrev passed : UdpSocket → ℕ → Datagram → List Datagram → UdpSocket
passed u n d ds = record (took u (suc n) d) { buffers = ds }

-- A datagram with bytes.
abbrev pub HasBytes : Datagram → Type 0
HasBytes (peer, bytes) = bytes ≢ []

-- What holds of a socket: datagrams wait only where writing is turned on, and the callback for its
-- end was called once if it is closed, and not if it is not.
pub record IsSound (u : UdpSocket) : Type 0 where
  pub asks : (some_left u.buffers ≡ true) → u.writing ≡ true
  pub once : u.closings ≡ (if u.closed then 1 else 0)

abbrev Keeps : UdpSocket → List Datagram → UdpSocket → Type 0
Keeps u ds u' = (line u' ≡ line u ++ ds) × (IsSound u → IsSound u')
