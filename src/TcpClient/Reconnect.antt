-- ===== src/TcpClient/Reconnect.antt =====
-- A client that connects again after it was closed.
use lssvc.TcpClient.{
  Client, Event, Status, at_once, base_on_close, base_on_read, base_send, begin_connect, by_status,
  client_on_close, client_on_read, client_on_write, client_send, closes, connect_in_loop, connected,
  connecting, connects, deregister, disconnected, happens, in_progress, init_status, no_socket,
  readable, refused, run, send_connected, sends, shut_socket, update_connection_status, writable,
}
use lssvc.Common.{
  Bool, Bool-cases, List, Option, [], false, if◌then◌else◌, inl, inr, leb, none, refl, some, true,
  ℕ, ◌+◌, ◌∙◌, ◌∷◌, ◌≡◌,
}

-- The base neither reads nor sends nor closes any more, its socket neither.
abbrev pub IsDeaf : Client → Client → Type 0
IsDeaf c c' =
    (c'.closed ≡ true)
    × (c'.reads ≡ c.reads)
    × (c'.sent ≡ c.sent)
    × (c'.closings ≡ c.closings)
    × (c'.shut ≡ c.shut)

IsDeaf-if : (b : Bool) (c x y : Client) → b ≡ true → IsDeaf c x → IsDeaf c (if b then x else y)
IsDeaf-if true c x y e deaf = deaf
IsDeaf-if false c x y e deaf = cc

base_on_close-IsDeaf : (c : Client) → c.closed ≡ true → IsDeaf c (base_on_close c)
unfolding base_on_close
base_on_close-IsDeaf c shut = IsDeaf-if c.closed c c _ shut (shut, refl, refl, refl, refl)

deregister-IsDeaf : (s : Status) (c : Client) → c.closed ≡ true → IsDeaf c (deregister s c)
unfolding deregister
deregister-IsDeaf init_status c shut = (shut, refl, refl, refl, refl)
deregister-IsDeaf connecting c shut = (shut, refl, refl, refl, refl)
deregister-IsDeaf connected c shut = (shut, refl, refl, refl, refl)
deregister-IsDeaf disconnected c shut = (shut, refl, refl, refl, refl)

IsDeaf-trans : (c d e : Client) → IsDeaf c d → IsDeaf d e → IsDeaf c e
IsDeaf-trans c d e (_, r, s, n, f) (shut, r', s', n', f') = (shut, r' ∙ r, s' ∙ s, n' ∙ n, f' ∙ f)

client_on_close-IsDeaf : (c : Client) → c.closed ≡ true → IsDeaf c (client_on_close c)
unfolding client_on_close
client_on_close-IsDeaf c shut =
    let gone = deregister-IsDeaf c.status c shut in
    let c' : Client = record (deregister c.status c) { status = disconnected } in
    IsDeaf-trans c c' (base_on_close c') gone (base_on_close-IsDeaf c' gone.0)

by_status-IsDeaf :
    (s : Status) (c : Client) (err : Bool) (base : Client)
    → c.closed ≡ true
    → IsDeaf c base
    → IsDeaf c (by_status s c err base)
unfolding by_status update_connection_status
by_status-IsDeaf init_status c err base shut deaf = (shut, refl, refl, refl, refl)
by_status-IsDeaf connecting c true base shut deaf = client_on_close-IsDeaf c shut
by_status-IsDeaf connecting c false base shut deaf = (shut, refl, refl, refl, refl)
by_status-IsDeaf connected c err base shut deaf = deaf
by_status-IsDeaf disconnected c err base shut deaf = (shut, refl, refl, refl, refl)

send_connected-IsDeaf :
    (s : Status) (c : Client) (buf : List ℕ) → c.closed ≡ true → IsDeaf c (send_connected s c buf)
unfolding send_connected base_send
send_connected-IsDeaf init_status c buf shut = (shut, refl, refl, refl, refl)
send_connected-IsDeaf connecting c buf shut = (shut, refl, refl, refl, refl)
send_connected-IsDeaf connected c buf shut =
    IsDeaf-if c.closed c c _ shut (shut, refl, refl, refl, refl)
send_connected-IsDeaf disconnected c buf shut = (shut, refl, refl, refl, refl)

happens-IsDeaf : (c : Client) (e : Event) → c.closed ≡ true → IsDeaf c (happens c e)
unfolding happens connect_in_loop begin_connect update_connection_status client_on_read
    client_on_write base_on_read client_send
happens-IsDeaf c (connects no_socket) shut = client_on_close-IsDeaf (record c { fd = none }) shut
happens-IsDeaf c (connects (at_once fd)) shut = (shut, refl, refl, refl, refl)
happens-IsDeaf c (connects (in_progress fd)) shut = (shut, refl, refl, refl, refl)
happens-IsDeaf c (connects (refused fd)) shut = client_on_close-IsDeaf (begin_connect c fd) shut
happens-IsDeaf c (readable err) shut =
    by_status-IsDeaf c.status c err (base_on_read c) shut
      (IsDeaf-if c.closed c c _ shut (shut, refl, refl, refl, refl))
happens-IsDeaf c (writable err) shut =
    by_status-IsDeaf c.status c err c shut (shut, refl, refl, refl, refl)
happens-IsDeaf c (sends buf) shut = send_connected-IsDeaf c.status c buf shut
happens-IsDeaf c closes shut = client_on_close-IsDeaf c shut

run-IsDeaf : (c : Client) (es : List Event) → c.closed ≡ true → IsDeaf c (run c es)
unfolding run
run-IsDeaf c [] shut = (shut, refl, refl, refl, refl)
run-IsDeaf c (e ∷ es) shut =
    let first = happens-IsDeaf c e shut in
    IsDeaf-trans c (happens c e) (run (happens c e) es) first (run-IsDeaf (happens c e) es first.0)

shut_socket-closed : (fd : Option ℕ) (c : Client) → (shut_socket fd c).closed ≡ c.closed
unfolding shut_socket
shut_socket-closed none c = refl
shut_socket-closed (some fd) c = elim (Bool-cases (leb fd 1)) [
  | inl l ↦ rw l refl
  | inr l ↦ rw l refl
]

base_on_close-closed : (c : Client) → (base_on_close c).closed ≡ true
unfolding base_on_close
base_on_close-closed c = by_closed c.closed refl
  where
    by_closed :
        (b : Bool)
        → c.closed ≡ b
        → (if b
            then c
            else shut_socket c.fd (record c { closed = true; closings = c.closings + 1 })).closed
          ≡ true
    by_closed true e = e
    by_closed false e =
        shut_socket-closed c.fd (record c { closed = true; closings = c.closings + 1 })

client_on_close-closed : (c : Client) → (client_on_close c).closed ≡ true
unfolding client_on_close
client_on_close-closed c =
    base_on_close-closed (record (deregister c.status c) { status = disconnected })

-- How a client comes to be connected: at once, or later, when its socket is readable or writable
-- and has no error.
pub data Success : Type 0 where
  immediate : Success
  when_readable : Success
  when_writable : Success

abbrev pub success : ℕ → Success → List Event
success fd immediate = connects (at_once fd) ∷ []
success fd when_readable = connects (in_progress fd) ∷ readable false ∷ []
success fd when_writable = connects (in_progress fd) ∷ writable false ∷ []

IsDeaf-success :
    (c : Client) (fd : ℕ) (how : Success) (es : List Event)
    → (let c' = run (client_on_close c) (success fd how) in IsDeaf c' (run c' es))
IsDeaf-success c fd how es =
    let closed = client_on_close-closed c in
    run-IsDeaf (run (client_on_close c) (success fd how)) es
      (run-IsDeaf (client_on_close c) (success fd how) closed).0

-- A client is closed and connects again over a new socket, with success, at once or later: it says
-- that it is connected and calls the callback for that once more. But whatever happens to it from
-- then on, as long as it is not destroyed, it reads nothing and sends nothing, and it closes neither
-- that socket nor another and does not call the callback for its end.
pub reconnect-IsDeaf :
    (c : Client) (fd : ℕ) (how : Success) (es : List Event)
    → (let c' = run (client_on_close c) (success fd how) in
        (c'.status ≡ connected)
        × (c'.fd ≡ some fd)
        × (c'.announced ≡ (client_on_close c).announced + 1)
        × IsDeaf c' (run c' es))
unfolding run happens connect_in_loop begin_connect update_connection_status client_on_read
    client_on_write by_status
reconnect-IsDeaf c fd immediate es = (refl, refl, refl, IsDeaf-success c fd immediate es)
reconnect-IsDeaf c fd when_readable es = (refl, refl, refl, IsDeaf-success c fd when_readable es)
reconnect-IsDeaf c fd when_writable es = (refl, refl, refl, IsDeaf-success c fd when_writable es)
