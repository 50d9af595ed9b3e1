-- ===== src/Live/Session.antt =====
-- src/live/live_session.cpp: the publisher and the players of a stream. Users are numbers, with
-- what the session reads of them in a table; `closed` is the sequence of the connections closed.
pub mod Closing
use lssvc.Common.{
  Bool, List, Option, [], false, if◌then◌else◌, leb, none, some, true, ℕ, ◌++◌, ◌==◌, ◌∷◌,
}

pub data UserType : Type 0 where
  publish_rtmp : UserType
  publish_mpegts : UserType
  publish_pav : UserType
  publish_web_rtc : UserType
  player_pav : UserType
  player_flv : UserType
  player_hls : UserType
  player_rtmp : UserType
  player_web_rtc : UserType
  unknown : UserType

-- The values of the enumeration.
abbrev pub code : UserType → ℕ
code publish_rtmp = 0
code publish_mpegts = 1
code publish_pav = 2
code publish_web_rtc = 3
code player_pav = 4
code player_flv = 5
code player_hls = 6
code player_rtmp = 7
code player_web_rtc = 8
code unknown = 255

pub record User : Type 0 where
  pub user_type : UserType
  pub destroyed : Bool

pub record Session : Type 0 where
  pub users : ℕ → User
  pub publisher : Option ℕ
  pub players : List ℕ
  pub player_live_time : ℕ
  pub closed : List ℕ

abbrev pub is_destroyed : Session → ℕ → Bool
is_destroyed s u = (s.users u).destroyed

abbrev pub mark : (ℕ → User) → ℕ → ℕ → User
mark users u k = if k == u then record (users k) { destroyed = true } else users k

-- `destroyed_.exchange(true)` where it was false.
abbrev pub destroy : Session → ℕ → Session
destroy s u = record s { users = mark s.users u }

-- `LiveUser::close`.
abbrev pub close : Session → ℕ → Session
close s u = record s { closed = s.closed ++ (u ∷ []) }

abbrev pub erase : ℕ → List ℕ → List ℕ
erase u [] = []
erase u (v ∷ vs) = if v == u then erase u vs else v ∷ erase u vs

abbrev pub insert : ℕ → List ℕ → List ℕ
insert u vs = u ∷ erase u vs

-- What stands for the publisher in the test on the type: every type but `unknown` passes it.
abbrev pub counts_as_publisher : Session → ℕ → Bool
counts_as_publisher s u = leb (code (s.users u).user_type) (code player_web_rtc)

unfoldable pub close_user : Session → ℕ → ℕ → Session
close_user s now u =
    if is_destroyed s u
    then s
    else close
        (if counts_as_publisher s u
          then record (destroy s u) { publisher = none }
          else record (destroy s u) { players = erase u s.players; player_live_time = now })
        u

abbrev pub is_there : Option ℕ → Bool
is_there none = false
is_there (some p) = true

-- `closeUserNoLock` closes a publisher only where the session has one.
unfoldable pub close_user_no_lock : Session → ℕ → ℕ → Session
close_user_no_lock s now u =
    if is_destroyed s u
    then s
    else if counts_as_publisher s u
    then (if is_there s.publisher
        then record (close (destroy s u) u) { publisher = none }
        else destroy s u)
    else record (close (destroy s u) u) { players = erase u s.players; player_live_time = now }

unfoldable pub set_publisher : Session → ℕ → Session
set_publisher s u = replace s.publisher
  where
    replace : Option ℕ → Session
    replace none = record s { publisher = some u }
    replace (some p) =
        if p == u
        then s
        else record (if is_destroyed s p then s else close (destroy s p) p) { publisher = some u }

unfoldable pub add_player : Session → ℕ → Session
add_player s u = record s { players = insert u s.players }

unfoldable pub close_each : Session → ℕ → List ℕ → Session
close_each s now [] = s
close_each s now (u ∷ us) = close_each (close_user_no_lock s now u) now us

-- `clear`. It walks over the players that are there at its beginning.
unfoldable pub clear : Session → ℕ → Session
clear s now = record (close_each (close_publisher s.publisher) now s.players) { players = [] }
  where
    close_publisher : Option ℕ → Session
    close_publisher none = s
    close_publisher (some p) = close_user_no_lock s now p

-- What happens to a session.
pub data Event : Type 0 where
  published : ℕ → Event
  played : ℕ → Event
  left : ℕ → ℕ → Event
  cleared : ℕ → Event

unfoldable pub step : Session → Event → Session
step s (published u) = set_publisher s u
step s (played u) = add_player s u
step s (left now u) = close_user s now u
step s (cleared now) = clear s now

unfoldable pub run : Session → List Event → Session
run s [] = s
run s (e ∷ es) = run (step s e) es
