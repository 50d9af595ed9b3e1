-- ===== src/TcpClient.antt =====
-- src/network/tcp_client.cpp: the states of a client, with what its base LSSTcpConnection in
-- src/network/net/lssvc_tcpconn.cpp makes of a call while it is closed or not.
pub mod Reconnect
pub mod Tests
use lssvc.Common.{
  Bool, List, Option, [], false, if◌then◌else◌, leb, none, some, true, ℕ, ◌++◌, ◌+◌, ◌∷◌,
}

pub data Status : Type 0 where
  init_status : Status
  connecting : Status
  connected : Status
  disconnected : Status

-- `announced` counts the calls of connected_cb_, `reads` those that the base reads in, `sent` what it
-- takes to be sent, `closings` the calls of close_cb_, and `shut` the descriptors that it closes. `fd` is
-- none for -1, and `registered` says that the loop has it.
pub record Client : Type 0 where
  pub status : Status
  pub closed : Bool
  pub registered : Bool
  pub announced : ℕ
  pub reads : ℕ
  pub sent : List (List ℕ)
  pub closings : ℕ
  pub fd : Option ℕ
  pub shut : List ℕ

abbrev pub init_client : Client
init_client = record {
  status = init_status;
  closed = false;
  registered = false;
  announced = 0;
  reads = 0;
  sent = [];
  closings = 0;
  fd = none;
  shut = [];
}

-- How `connect` goes: there is no socket; or the socket has this descriptor, and it is connected at
-- once, goes on, or fails.
pub data Outcome : Type 0 where
  no_socket : Outcome
  at_once : ℕ → Outcome
  in_progress : ℕ → Outcome
  refused : ℕ → Outcome

-- `LSSEvent::close`.
unfoldable pub shut_socket : Option ℕ → Client → Client
shut_socket none c = c
shut_socket (some fd) c = if leb fd 1 then c else record c { fd = none; shut = c.shut ++ (fd ∷ []) }

-- LSSTcpConnection: a closed connection neither reads nor sends, and is not closed again.
unfoldable pub base_on_close : Client → Client
base_on_close c =
    if c.closed then c else shut_socket c.fd (record c { closed = true; closings = c.closings + 1 })

unfoldable pub base_on_read : Client → Client
base_on_read c = if c.closed then c else record c { reads = c.reads + 1 }

unfoldable pub base_send : Client → List ℕ → Client
base_send c buf = if c.closed then c else record c { sent = c.sent ++ (buf ∷ []) }

unfoldable pub deregister : Status → Client → Client
deregister connecting c = record c { registered = false }
deregister connected c = record c { registered = false }
deregister _ c = c

unfoldable pub client_on_close : Client → Client
client_on_close c = base_on_close (record (deregister c.status c) { status = disconnected })

unfoldable pub update_connection_status : Client → Client
update_connection_status c = record c { status = connected; announced = c.announced + 1 }

-- What `connectInLoop` does with a socket before it connects.
unfoldable pub begin_connect : Client → ℕ → Client
begin_connect c fd = record c { fd = some fd; status = connecting; registered = true }

unfoldable pub connect_in_loop : Client → Outcome → Client
connect_in_loop c no_socket = client_on_close (record c { fd = none })
connect_in_loop c (at_once fd) = update_connection_status (begin_connect c fd)
connect_in_loop c (in_progress fd) = begin_connect c fd
connect_in_loop c (refused fd) = client_on_close (begin_connect c fd)

-- `onRead`, where the flag is what `checkError` says; `onWrite` is alike up to what the base does.
unfoldable pub by_status : Status → Client → Bool → Client → Client
by_status connecting c err base = if err then client_on_close c else update_connection_status c
by_status connected c err base = base
by_status _ c err base = c

unfoldable pub client_on_read : Client → Bool → Client
client_on_read c err = by_status c.status c err (base_on_read c)

-- What the base writes is the component Connection.
unfoldable pub client_on_write : Client → Bool → Client
client_on_write c err = by_status c.status c err c

unfoldable pub send_connected : Status → Client → List ℕ → Client
send_connected connected c buf = base_send c buf
send_connected _ c buf = c

unfoldable pub client_send : Client → List ℕ → Client
client_send c buf = send_connected c.status c buf

-- What happens to a client.
pub data Event : Type 0 where
  connects : Outcome → Event
  readable : Bool → Event
  writable : Bool → Event
  sends : List ℕ → Event
  closes : Event

unfoldable pub happens : Client → Event → Client
happens c (connects o) = connect_in_loop c o
happens c (readable err) = client_on_read c err
happens c (writable err) = client_on_write c err
happens c (sends buf) = client_send c buf
happens c closes = client_on_close c

unfoldable pub run : Client → List Event → Client
run c [] = c
run c (e ∷ es) = run (happens c e) es
