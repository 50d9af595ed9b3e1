-- ===== src/TcpServer.antt =====
-- src/network/tcp_server.cpp with the closing of a connection in src/network/net/lssvc_tcpconn.cpp.
-- A connection is an event object of the loop, as are the acceptor of src/network/net/lssvc_acceptor.cpp
-- and the pipe that wakes the loop up.
pub mod Closing
pub mod Sets
pub mod Serving
pub mod Coming
pub mod Leaving
pub mod Serves
pub mod Tests
use lssvc.EventLoop.{Epoll, Loop, add_event, close, del_event, init_pipe, new_event, put}
use lssvc.Common.{
  Bool, List, Option, [], false, if◌then◌else◌, none, some, true, ℕ, ◌++◌, ◌==◌, ◌∷◌,
}

-- `connections_` is a set; `others` are the events of the loop that are no connections, and
-- `destroyed` lists the calls of destroy_connection_cb_.
pub record Server (K : Type 0) : Type 0 where
  pub loop : Loop K
  pub connections : List ℕ
  pub others : List ℕ
  pub closed : ℕ → Bool
  pub destroyed : List ℕ

abbrev pub init_server : {K : Type 0} → Loop K → Server K
init_server l = record {
  loop = l;
  connections = [];
  others = [];
  closed = λ h. false;
  destroyed = [];
}

-- `LSSAcceptor::open` of a new acceptor, from the descriptor of its socket.
unfoldable pub open_acceptor : {K : Type 0} → Epoll K → Server K → ℕ → Server K
open_acceptor e s fd = record s {
  loop = add_event e (new_event s.loop fd) s.loop.next;
  others = s.loop.next ∷ s.others;
}

-- The pipe of the loop, which is made where there is none yet.
abbrev pub with_pipe : Option ℕ → ℕ → List ℕ → List ℕ
with_pipe none h others = h ∷ others
with_pipe (some there) h others = others

unfoldable pub open_pipe : {K : Type 0} → Epoll K → Server K → ℕ → Server K
open_pipe e s fd = record s {
  loop = init_pipe e s.loop fd;
  others = with_pipe s.loop.pipe s.loop.next s.others;
}

unfoldable pub erase : ℕ → List ℕ → List ℕ
erase h [] = []
erase h (c ∷ cs) = if c == h then erase h cs else c ∷ erase h cs

-- `onAccept`: the timeout is the timing wheel, the callback of the new connection the user's.
unfoldable pub on_accept : {K : Type 0} → Epoll K → Server K → ℕ → Server K
on_accept e s fd = record s {
  loop = add_event e (new_event s.loop fd) s.loop.next;
  connections = s.loop.next ∷ s.connections;
}

unfoldable pub on_connection_close : {K : Type 0} → Epoll K → Server K → ℕ → Server K
on_connection_close e s h = record s {
  connections = erase h s.connections;
  loop = del_event e s.loop h;
  destroyed = s.destroyed ++ (h ∷ []);
}

-- `LSSTcpConnection::onClose`, with the server's onConnectionClose as the callback; onError is the
-- same after a line of log.
unfoldable pub close_connection : {K : Type 0} → Epoll K → Server K → ℕ → Server K
close_connection {K = K} e s h =
    if s.closed h then s else close_socket (on_connection_close e marked h)
  where
    marked : Server K
    marked = record s { closed = put s.closed h true }

    close_socket : Server K → Server K
    close_socket t = record t { loop = close e t.loop h }
