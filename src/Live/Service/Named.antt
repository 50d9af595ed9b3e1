-- ===== src/Live/Service/Named.antt =====
-- The table of the sessions: each name stands for a session of that name.
use lssvc.Common.{
  ==_iff, ==_self, All, Bool, Bool-cases, List, Option, Option-cases, [], ap, arith, false,
  if◌then◌else◌, inl, inr, none, not, refl, some, suc, sym, true, ℕ, ◌<◌, ◌==◌, ◌>>=◌, ◌∙◌, ◌∷◌,
  ◌≡◌,
}
use lssvc.Chunk.{Packet}
use lssvc.Live.Stream
use lssvc.Live.Service.{
  Config, Event, Room, Service, add_session, close_session, closes, create_session, create_user,
  enter, enter_as, found_or, get_app_info, is_some, is_timeout, leaves, lookup, new_room, new_user,
  on_connection_destroy, on_play, on_publish, on_recv, on_timer, parts, plays, publishes, put_at,
  remove, run, sends, step, sweep, ticks, with_session,
}
use lssvc.Live.Session.{
  Session, UserType, add_player, clear, close_user, player_rtmp, publish_rtmp, set_publisher,
}
use lssvc.Bytes.{same_bytes}

-- An entry of the table: a room that is there, and that has the name.
abbrev pub IsEntry : Service → List ℕ × ℕ → Type 0
IsEntry s (name, i) = (i < s.next_room) × ((s.rooms i).name ≡ name)

abbrev pub IsNamed : Service → Type 0
IsNamed s = All (IsEntry s) s.sessions

-- A step that makes no room and renames none.
pub record Keeps (s s' : Service) : Type 0 where
  pub same_next : s'.next_room ≡ s.next_room
  pub same_names : (k : ℕ) → (s'.rooms k).name ≡ (s.rooms k).name

All-Keeps :
    (s s' : Service) (entries : List (List ℕ × ℕ))
    → Keeps s s'
    → All (IsEntry s) entries
    → All (IsEntry s') entries
All-Keeps s s' [] k all = tt
All-Keeps s s' ((name, i) ∷ entries) k ((there, named), all) =
    ((omega (arith, there, k.same_next), k.same_names i ∙ named), All-Keeps s s' entries k all)

Keeps-room :
    (s : Service) (i : ℕ) (r : Room)
    → r.name ≡ (s.rooms i).name
    → Keeps s (record s { rooms = put_at s.rooms i r })
Keeps-room s i r e = record { same_next = refl; same_names = at }
  where
    at : (k : ℕ) → (put_at s.rooms i r k).name ≡ (s.rooms k).name
    at k = elim (Bool-cases (k == i)) [
      | inl same ↦ simp same (e ∙ ap (λ j. (s.rooms j).name) (sym ((==_iff k i).0 same)))
      | inr other ↦ simp other refl
    ]

Keeps-trans : (s s' s'' : Service) → Keeps s s' → Keeps s' s'' → Keeps s s''
Keeps-trans s s' s'' k k' = record {
  same_next = k'.same_next ∙ k.same_next;
  same_names = λ i. k'.same_names i ∙ k.same_names i;
}

sweep-IsNamed :
    (now : ℕ) (entries : List (List ℕ × ℕ)) (s : Service)
    → All (IsEntry s) entries
    → Keeps s (sweep now entries s).0
      × All (IsEntry (sweep now entries s).0) (sweep now entries s).1
unfolding sweep
sweep-IsNamed now [] s all = (record { same_next = refl; same_names = λ k. refl }, tt)
sweep-IsNamed now ((name, i) ∷ rest) s ((there, named), all) =
    let s' = with_session s i (clear (s.rooms i).session now) in
    let k = Keeps-room s i (record (s.rooms i) { session = clear (s.rooms i).session now }) refl in
    elim (Bool-cases (is_timeout (s.rooms i) now)) [
      | inl e ↦
          let (k', left') = sweep-IsNamed now rest s' (All-Keeps s s' rest k all) in
          rw e (Keeps-trans s s' _ k k', left')
      | inr e ↦
          let (k', left') = sweep-IsNamed now rest s all in
          rw e (k', ((omega (arith, there, k'.same_next), k'.same_names i ∙ named), left'))
    ]

room-IsNamed :
    (s : Service) (i : ℕ) (r : Room)
    → r.name ≡ (s.rooms i).name
    → IsNamed s
    → IsNamed (record s { rooms = put_at s.rooms i r })
room-IsNamed s i r e all = All-Keeps s _ s.sessions (Keeps-room s i r e) all

All-remove :
    (P : List ℕ × ℕ → Type 0) (name : List ℕ) (entries : List (List ℕ × ℕ))
    → All P entries
    → All P (remove name entries)
unfolding remove
All-remove P name [] all = tt
All-remove P name ((k, i) ∷ entries) (p, all) = elim (Bool-cases (same_bytes name k)) [
  | inl e ↦ rw e (All-remove P name entries all)
  | inr e ↦ rw e (p, All-remove P name entries all)
]

All-new :
    (s : Service) (r : Room) (entries : List (List ℕ × ℕ))
    → All (IsEntry s) entries
    → All
        (IsEntry (record s { rooms = put_at s.rooms s.next_room r; next_room = suc s.next_room }))
        entries
All-new s r [] all = tt
All-new s r ((name, i) ∷ entries) ((there, named), all) =
    ((omega (arith, there), simp (other i s.next_room there) named), All-new s r entries all)
  where
    other : (i n : ℕ) → i < n → (i == n) ≡ false
    other i n l = ground arith

add_session-IsNamed :
    (now : ℕ) (name : List ℕ) (s : Service) (info : Option ℕ)
    → IsNamed s
    → IsNamed (add_session now name s info).0
unfolding add_session
add_session-IsNamed now name s none all = all
add_session-IsNamed now name s (some idle) all = (
  (omega arith, simp (==_self s.next_room) refl),
  All-new s (new_room name now idle) s.sessions all,
)

create_session-IsNamed :
    (config : Config) (now : ℕ) (name : List ℕ) (s : Service)
    → IsNamed s
    → IsNamed (create_session config now name s).0
unfolding create_session found_or
create_session-IsNamed config now name s all = elim (Option-cases (lookup name s.sessions)) [
  | inl e ↦ rw e (
      add_session-IsNamed now name s
        (parts name >>= λ (domain, app). get_app_info config domain app) all)
  | inr (i, e) ↦ rw e all
]

either :
    (P : Service × Option ℕ → Type 0) (b : Bool) (x y : Service × Option ℕ)
    → P x
    → P y
    → P (if b then x else y)
either P true x y p q = p
either P false x y p q = q

create_user-IsNamed :
    (type : UserType) (conn : ℕ) (name : List ℕ) (i : ℕ) (s : Service)
    → IsNamed s
    → IsNamed (create_user type conn name i s).0
unfolding create_user new_user
create_user-IsNamed type conn name i s all =
    either (λ p. IsNamed p.0) (not (same_bytes name (s.rooms i).name)) (s, none) _ all
      (either (λ p. IsNamed p.0) (not (is_some (parts name))) (s, none)
        (new_user type conn i s, some s.next_user) all
        (All-Keeps s (new_user type conn i s) s.sessions
          (record {
            same_next = refl;
            same_names = (Keeps-room s i (record (s.rooms i) { session = joined }) refl).same_names;
          })
          all))
  where
    joined : Session
    joined = record ((s.rooms i).session) {
      users =
          put_at ((s.rooms i).session.users) s.next_user
            (record { user_type = type; destroyed = false });
    }

enter_as-IsNamed :
    (become : Session → ℕ → Session) (conn i : ℕ) (p : Service × Option ℕ)
    → IsNamed p.0
    → IsNamed (enter_as become conn i p).0
unfolding enter_as
enter_as-IsNamed become conn i (s, none) all = all
enter_as-IsNamed become conn i (s, some u) all =
    room-IsNamed s i (record (s.rooms i) { session = become (s.rooms i).session u }) refl all

enter-IsNamed :
    (type : UserType) (become : Session → ℕ → Session) (conn : ℕ) (name : List ℕ)
    (p : Service × Option ℕ)
    → IsNamed p.0
    → IsNamed (enter type become conn name p).0
unfolding enter
enter-IsNamed type become conn name (s, none) all = all
enter-IsNamed type become conn name (s, some i) all =
    enter_as-IsNamed become conn i (create_user type conn name i s)
      (create_user-IsNamed type conn name i s all)

close_session-IsNamed :
    (now : ℕ) (name : List ℕ) (s : Service) → IsNamed s → IsNamed (close_session now name s)
unfolding close_session
close_session-IsNamed now name s all = elim (Option-cases (lookup name s.sessions)) [
  | inl e ↦ rw e all
  | inr (i, e) ↦ rw e (
      room-IsNamed (record s { sessions = remove name s.sessions }) i
        (record (s.rooms i) { session = clear (s.rooms i).session now }) refl
        (All-remove (IsEntry s) name s.sessions all))
]

context-IsNamed :
    (s : Service) (conn : ℕ)
    → IsNamed s
    → ((now : ℕ) → IsNamed (on_connection_destroy now conn s))
      × ((now : ℕ) (p : Packet) → IsNamed (on_recv now conn p s))
unfolding on_connection_destroy on_recv
context-IsNamed s conn all = elim (Option-cases (s.contexts conn)) [
  | inl e ↦ (λ now. simp e all, λ now p. simp e all)
  | inr ((u, i), e) ↦ (
    λ now. simp e (
        room-IsNamed s i (record (s.rooms i) { session = close_user (s.rooms i).session now u })
          refl all),
    λ now p. simp e (
        room-IsNamed s i
          (record (s.rooms i) { stream = (Stream.add_packet (s.rooms i).stream now p).0 }) refl
          all),
  )
]

step-IsNamed :
    (config : Config) (s : Service) (e : ℕ × Event) → IsNamed s → IsNamed (step config s e)
unfolding step on_play on_publish on_timer
step-IsNamed config s (now, plays conn name) all =
    enter-IsNamed player_rtmp add_player conn name (create_session config now name s)
      (create_session-IsNamed config now name s all)
step-IsNamed config s (now, publishes conn name) all =
    enter-IsNamed publish_rtmp set_publisher conn name (create_session config now name s)
      (create_session-IsNamed config now name s all)
step-IsNamed config s (now, closes name) all = close_session-IsNamed now name s all
step-IsNamed config s (now, ticks) all = (sweep-IsNamed now s.sessions s all).1
step-IsNamed config s (now, leaves conn) all = (context-IsNamed s conn all).0 now
step-IsNamed config s (now, sends conn p) all = (context-IsNamed s conn all).1 now p

-- Whatever connections play, publish, send and leave, and whichever sessions are closed or run out
-- of time: every name in the table stands for a session that is there and has that name.
pub run-IsNamed :
    (config : Config) (s : Service) (es : List (ℕ × Event)) → IsNamed s → IsNamed (run config s es)
unfolding run
run-IsNamed config s [] all = all
run-IsNamed config s (e ∷ es) all =
    run-IsNamed config (step config s e) es (step-IsNamed config s e all)
