-- ===== src/Live/Service.antt =====
-- src/live/live_service.cpp: the sessions by their names, and what the connections are in them. A
-- session is an object that its users hold on to when it is taken from the table, so that the table
-- has numbers of rooms: a session with its stream. A connection and a user are numbers too.
pub mod Named
pub mod Meeting
pub mod Tests
use lssvc.Common.{
  Bool, List, Option, [], false, if◌then◌else◌, ltb, none, not, some, suc, true, ℕ, ◌&&◌, ◌++◌, ◌-◌,
  ◌==◌, ◌>>=◌, ◌||◌, ◌∷◌,
}
use lssvc.Bytes.{same_bytes}
use lssvc.Chunk.{Packet}
use lssvc.Strings.{split}
use lssvc.Live.Session.{
  Session, UserType, add_player, clear, close_user, player_rtmp, publish_rtmp, set_publisher,
  unknown,
}
use lssvc.Live.Stream

pub record Room : Type 0 where
  pub name : List ℕ
  pub session : Session
  pub stream : Stream.Stream
  pub idle_time : ℕ

-- `force_closed` lists the connections that the handlers of the service close themselves; those that
-- a session closes are in its `closed`.
pub record Service : Type 0 where
  pub rooms : ℕ → Room
  pub next_room : ℕ
  pub sessions : List (List ℕ × ℕ)
  pub contexts : ℕ → Option (ℕ × ℕ)
  pub next_user : ℕ
  pub force_closed : List ℕ

-- A map with strings for keys.
unfoldable pub lookup {ℓ} : {A : Type ℓ} → List ℕ → List (List ℕ × A) → Option A
lookup key [] = none
lookup key ((k, a) ∷ rest) =
    let further = lookup key rest in if same_bytes key k then some a else further

unfoldable pub remove {ℓ} : {A : Type ℓ} → List ℕ → List (List ℕ × A) → List (List ℕ × A)
remove key [] = []
remove key ((k, a) ∷ rest) =
    let others = remove key rest in if same_bytes key k then others else (k, a) ∷ others

abbrev pub put_at {ℓ} : {A : Type ℓ} → (ℕ → A) → ℕ → A → ℕ → A
put_at f i a k = if k == i then a else f k

-- The idle time of the applications of the domains.
abbrev pub Config : Type 0
Config = List (List ℕ × List (List ℕ × ℕ))

unfoldable pub get_app_info : Config → List ℕ → List ℕ → Option ℕ
get_app_info config domain app = lookup domain config >>= lookup app

abbrev pub new_session : ℕ → Session
new_session now = record {
  users = λ u. record { user_type = unknown; destroyed = false };
  publisher = none;
  players = [];
  player_live_time = now;
  closed = [];
}

abbrev pub new_room : List ℕ → ℕ → ℕ → Room
new_room name now idle = record {
  name = name;
  session = new_session now;
  stream = Stream.init now;
  idle_time = idle;
}

abbrev pub new_service : Service
new_service = record {
  rooms = λ i. new_room [] 0 0;
  next_room = 0;
  sessions = [];
  contexts = λ c. none;
  next_user = 0;
  force_closed = [];
}

-- The domain, the application and the stream of a session name.
unfoldable pub three_parts : Option (List (List ℕ)) → Option (List ℕ × List ℕ)
three_parts (some (domain ∷ app ∷ stream ∷ [])) = some (domain, app)
three_parts _ = none

abbrev pub parts : List ℕ → Option (List ℕ × List ℕ)
parts name = three_parts (split name (47 ∷ []) false)

-- A new session, unless the name or the configuration does not allow it.
unfoldable pub add_session : ℕ → List ℕ → Service → Option ℕ → Service × Option ℕ
add_session now name s none = (s, none)
add_session now name s (some idle) = (
  record s {
    rooms = put_at s.rooms s.next_room (new_room name now idle);
    next_room = suc s.next_room;
    sessions = (name, s.next_room) ∷ s.sessions;
  },
  some s.next_room,
)

unfoldable pub found_or : Service × Option ℕ → Service → Option ℕ → Service × Option ℕ
found_or created s none = created
found_or created s (some i) = (s, some i)

unfoldable pub create_session : Config → ℕ → List ℕ → Service → Service × Option ℕ
create_session config now name s =
    found_or
      (add_session now name s (parts name >>= λ (domain, app). get_app_info config domain app)) s
      (lookup name s.sessions)

abbrev pub find_session : List ℕ → Service → Option ℕ
find_session name s = lookup name s.sessions

abbrev pub with_session : Service → ℕ → Session → Service
with_session s i session = record s {
  rooms = put_at s.rooms i (record (s.rooms i) { session = session });
}

abbrev pub force_close : ℕ → Service → Service
force_close conn s = record s { force_closed = s.force_closed ++ (conn ∷ []) }

-- `createPublisher` and `createPlayerUser` for RTMP: a user of the type, in the room, and the context
-- of the connection.
unfoldable pub new_user : UserType → ℕ → ℕ → Service → Service
new_user type conn i s =
    let session = (s.rooms i).session in
    record (with_session s i (record session {
      users = put_at session.users s.next_user (record { user_type = type; destroyed = false });
    })) { contexts = put_at s.contexts conn (some (s.next_user, i)); next_user = suc s.next_user }

abbrev pub is_some {ℓ} : {A : Type ℓ} → Option A → Bool
is_some none = false
is_some (some a) = true

unfoldable pub create_user : UserType → ℕ → List ℕ → ℕ → Service → Service × Option ℕ
create_user type conn name i s =
    if not (same_bytes name (s.rooms i).name)
    then (s, none)
    else if not (is_some (parts name))
    then (s, none)
    else (new_user type conn i s, some s.next_user)

-- What `onPlay` and `onPublish` have in common: the session, a user of the type in it, and what the
-- user becomes there.
unfoldable pub enter_as : (Session → ℕ → Session) → ℕ → ℕ → Service × Option ℕ → Service × Bool
enter_as become conn i (s, none) = (force_close conn s, false)
enter_as become conn i (s, some u) = (with_session s i (become (s.rooms i).session u), true)

unfoldable pub enter :
    UserType → (Session → ℕ → Session) → ℕ → List ℕ → Service × Option ℕ → Service × Bool
enter type become conn name (s, none) = (force_close conn s, false)
enter type become conn name (s, some i) = enter_as become conn i (create_user type conn name i s)

unfoldable pub on_play : Config → ℕ → ℕ → List ℕ → Service → Service × Bool
on_play config now conn name s =
    enter player_rtmp add_player conn name (create_session config now name s)

unfoldable pub on_publish : Config → ℕ → ℕ → List ℕ → Service → Service × Bool
on_publish config now conn name s =
    enter publish_rtmp set_publisher conn name (create_session config now name s)

unfoldable pub close_session : ℕ → List ℕ → Service → Service
close_session now name s = by_room (lookup name s.sessions)
  where
    by_room : Option ℕ → Service
    by_room none = s
    by_room (some i) =
        with_session (record s { sessions = remove name s.sessions }) i
          (clear (s.rooms i).session now)

-- `LiveSession::isTimeout`.
abbrev pub no_one {ℓ} : {A : Type ℓ} → List A → Bool
no_one [] = true
no_one (x ∷ xs) = false

abbrev pub is_timeout : Room → ℕ → Bool
is_timeout r now =
    Stream.is_timeout r.stream now
    || (no_one r.session.players && ltb r.idle_time (now - r.session.player_live_time))

-- `onTimer`: the sessions that are out of time are cleared and taken from the table.
unfoldable pub sweep : ℕ → List (List ℕ × ℕ) → Service → Service × List (List ℕ × ℕ)
sweep now [] s = (s, [])
sweep now ((name, i) ∷ rest) s =
    let swept = sweep now rest (with_session s i (clear (s.rooms i).session now)) in
    let kept = sweep now rest s in
    if is_timeout (s.rooms i) now then swept else (kept.0, (name, i) ∷ kept.1)

unfoldable pub on_timer : ℕ → Service → Service
on_timer now s = let (s', kept) = sweep now s.sessions s in record s' { sessions = kept }

unfoldable pub on_connection_destroy : ℕ → ℕ → Service → Service
on_connection_destroy now conn s = by_user (s.contexts conn)
  where
    by_user : Option (ℕ × ℕ) → Service
    by_user none = s
    by_user (some (u, i)) = with_session s i (close_user (s.rooms i).session now u)

unfoldable pub on_recv : ℕ → ℕ → Packet → Service → Service
on_recv now conn p s = by_user (s.contexts conn)
  where
    by_user : Option (ℕ × ℕ) → Service
    by_user none = force_close conn s
    by_user (some (u, i)) = record s {
      rooms =
          put_at s.rooms i
            (record (s.rooms i) { stream = (Stream.add_packet (s.rooms i).stream now p).0 });
    }

-- What happens to the service, with the clock.
pub data Event : Type 0 where
  plays : ℕ → List ℕ → Event
  publishes : ℕ → List ℕ → Event
  closes : List ℕ → Event
  ticks : Event
  leaves : ℕ → Event
  sends : ℕ → Packet → Event

unfoldable pub step : Config → Service → ℕ × Event → Service
step config s (now, plays conn name) = (on_play config now conn name s).0
step config s (now, publishes conn name) = (on_publish config now conn name s).0
step config s (now, closes name) = close_session now name s
step config s (now, ticks) = on_timer now s
step config s (now, leaves conn) = on_connection_destroy now conn s
step config s (now, sends conn p) = on_recv now conn p s

unfoldable pub run : Config → Service → List (ℕ × Event) → Service
run config s [] = s
run config s (e ∷ es) = run config (step config s e) es
