-- ===== src/Live/Service/Meeting.antt =====
-- A publisher and a player of one name.
use mathlib.Core.List.{append-nil}
use lssvc.Common.{
  ==_iff, ==_self, All, Bool, Bool-cases, List, Option, Option-cases, [], ap, false, if◌then◌else◌,
  inl, inr, none, refl, some, some_eq, suc, sym, true, ℕ, ◌++◌, ◌==◌, ◌∙◌, ◌∷◌, ◌≡◌,
}
use lssvc.Bytes.{same_bytes}
use lssvc.Live.Service.{
  Config, Service, add_session, create_session, create_user, enter, enter_as, found_or,
  get_app_info, lookup, new_user, on_play, on_publish, parts, put_at, with_session,
}
use lssvc.Live.Session.{
  Session, User, UserType, add_player, erase, is_destroyed, player_rtmp, publish_rtmp,
  set_publisher,
}
use lssvc.Live.Service.Named.{IsEntry, IsNamed}
use lssvc.Handshake.Offsets.{same_bytes_self}

same_bytes_eq : (xs ys : List ℕ) → same_bytes xs ys ≡ true → xs ≡ ys
unfolding same_bytes
same_bytes_eq [] [] e = refl
same_bytes_eq (x ∷ xs) (y ∷ ys) e = elim (Bool-cases (x == y)) [
  | inl same ↦
      let rest = same_bytes_eq xs ys (simp same at e) in
      ap (λ z. z ∷ xs) ((==_iff x y).0 same) ∙ ap (λ zs. y ∷ zs) rest
  | inr other ↦ (let bad : false ≡ true = simp other at e in cc)
]
same_bytes_eq [] (y ∷ ys) e = cc
same_bytes_eq (x ∷ xs) [] e = cc

lookup-IsNamed :
    (s : Service) (name : List ℕ) (i : ℕ) (entries : List (List ℕ × ℕ))
    → All (IsEntry s) entries
    → lookup name entries ≡ some i
    → (s.rooms i).name ≡ name
unfolding lookup
lookup-IsNamed s name i [] all e = cc
lookup-IsNamed s name i ((k, j) ∷ entries) ((there, named), all) e =
    elim (Bool-cases (same_bytes name k)) [
      | inl same ↦
          ap (λ n. (s.rooms n).name) (sym (some_eq j i (simp same at e)))
          ∙ named
          ∙ sym (same_bytes_eq name k same)
      | inr other ↦ lookup-IsNamed s name i entries all (simp other at e)
    ]

found_first :
    (name : List ℕ) (i : ℕ) (entries : List (List ℕ × ℕ))
    → lookup name ((name, i) ∷ entries) ≡ some i
unfolding lookup
found_first name i entries = simp (same_bytes_self name) refl

-- What creating a session gives where the name and the configuration allow it.
create_session_lem :
    (config : Config) (now : ℕ) (name domain app : List ℕ) (idle : ℕ) (s : Service)
    → IsNamed s
    → parts name ≡ some (domain, app)
    → get_app_info config domain app ≡ some idle
    → (s' : Service) × (i : ℕ) × (create_session config now name s ≡ (s', some i))
      × ((s'.rooms i).name ≡ name)
      × (lookup name s'.sessions ≡ some i)
      × (s'.force_closed ≡ s.force_closed)
unfolding create_session found_or add_session
create_session_lem config now name domain app idle s all three info =
    elim (Option-cases (lookup name s.sessions)) [
      | inl e ↦ (
        (add_session now name s (some idle)).0,
        s.next_room,
        simp (e, three, info) refl,
        simp (==_self s.next_room) refl,
        found_first name s.next_room s.sessions,
        refl,
      )
      | inr (i, e) ↦ (s, i, rw e refl, lookup-IsNamed s name i s.sessions all e, e, refl)
    ]

set_publisher_lem : (s : Session) (u : ℕ) → (set_publisher s u).publisher ≡ some u
unfolding set_publisher
set_publisher_lem s u = elim (Option-cases s.publisher) [
  | inl e ↦ simp e refl
  | inr (p, e) ↦ elim (Bool-cases (p == u)) [
    | inl same ↦ simp (e, same) (ap some ((==_iff p u).0 same))
    | inr other ↦ simp (e, other) refl
  ]
]

-- The publisher that a session closes when a user becomes its publisher: the one that is there, if
-- it is another and was not destroyed before.
unfoldable pub replaced : Session → ℕ → Option ℕ → List ℕ
replaced s u none = []
replaced s u (some p) = if p == u then [] else if is_destroyed s p then [] else p ∷ []

set_publisher-closed :
    (s : Session) (u : ℕ) → (set_publisher s u).closed ≡ s.closed ++ replaced s u s.publisher
unfolding set_publisher replaced
set_publisher-closed s u = elim (Option-cases s.publisher) [
  | inl e ↦ simp e (sym (append-nil s.closed))
  | inr (p, e) ↦ elim (Bool-cases (p == u)) [
    | inl same ↦ simp (e, same) (sym (append-nil s.closed))
    | inr other ↦ elim (Bool-cases (is_destroyed s p)) [
      | inl gone ↦ simp (e, other, gone) (sym (append-nil s.closed))
      | inr there ↦ simp (e, other, there) refl
    ]
  ]
]

same_user :
    (s : Session) (u p : ℕ) (user : User)
    → (p == u) ≡ false
    → is_destroyed (record s { users = put_at s.users u user }) p ≡ is_destroyed s p
same_user s u p user other = ap (λ (b : Bool). (if b then user else s.users p).destroyed) other

-- The user that comes does not change whether another was destroyed.
replaced-users :
    (s : Session) (u : ℕ) (user : User) (o : Option ℕ)
    → replaced (record s { users = put_at s.users u user }) u o ≡ replaced s u o
unfolding replaced
replaced-users s u user none = refl
replaced-users s u user (some p) = elim (Bool-cases (p == u)) [
  | inl same ↦ simp same refl
  | inr other ↦ let as_before = same_user s u p user other in simp (other, as_before) refl
]

create_session_found :
    (config : Config) (now : ℕ) (name : List ℕ) (i : ℕ) (s : Service)
    → lookup name s.sessions ≡ some i
    → create_session config now name s ≡ (s, some i)
unfolding create_session found_or
create_session_found config now name i s e = rw e refl

-- The service after a user has come into a room of the name.
unfoldable entered : UserType → (Session → ℕ → Session) → ℕ → ℕ → Service → Service
entered type become conn i s =
    with_session (new_user type conn i s) i
      (become ((new_user type conn i s).rooms i).session s.next_user)

enter_lem :
    (type : UserType) (become : Session → ℕ → Session) (conn : ℕ) (name domain app : List ℕ) (i : ℕ)
    (s : Service)
    → (s.rooms i).name ≡ name
    → parts name ≡ some (domain, app)
    → enter type become conn name (s, some i) ≡ (entered type become conn i s, true)
unfolding enter enter_as create_user entered
enter_lem type become conn name domain app i s named three =
    simp (named, same_bytes_self name, three) refl

entered_name :
    (type : UserType) (become : Session → ℕ → Session) (conn i : ℕ) (s : Service)
    → ((entered type become conn i s).rooms i).name ≡ (s.rooms i).name
unfolding entered new_user
entered_name type become conn i s = simp (==_self i) refl

-- What is in the room when both have come.
entered_both :
    (conn conn' i : ℕ) (s : Service)
    → (conn == conn') ≡ false
    → let s' = entered publish_rtmp set_publisher conn i s in
      let s'' = entered player_rtmp add_player conn' i s' in
      (others : List ℕ) × (s''.contexts conn ≡ some (s.next_user, i))
      × (s''.contexts conn' ≡ some (suc s.next_user, i))
      × ((s''.rooms i).session.publisher ≡ some s.next_user)
      × ((s''.rooms i).session.players ≡ suc s.next_user ∷ others)
      × (let before = (s.rooms i).session in
          (s''.rooms i).session.closed
          ≡ before.closed ++ replaced before s.next_user before.publisher)
unfolding entered new_user add_player
entered_both conn conn' i s apart = (
  erase (suc s.next_user) (
      ((new_user player_rtmp conn' i (entered publish_rtmp set_publisher conn i s)).rooms
        i).session.players),
  simp (apart, ==_self conn) refl,
  simp (==_self conn') refl,
  simp (==_self i) (set_publisher_lem _ s.next_user),
  simp (==_self i) refl,
  simp (==_self i) (
      set_publisher-closed _ s.next_user
      ∙ ap (λ (us : List ℕ). (s.rooms i).session.closed ++ us)
          (replaced-users (s.rooms i).session s.next_user _ (s.rooms i).session.publisher)),
)

-- Where the name has three parts, the application of the domain is configured, and each session that
-- is there already has the name it stands under: a connection that publishes and another that then
-- plays get into one session, the first as its publisher and the second as a player of it. The
-- handlers of the service close no connection themselves, and the session closes none but the
-- publisher that it had before, where there was one that is another user and not destroyed yet.
pub play_meets_publish :
    (config : Config) (now now' conn conn' : ℕ) (name domain app : List ℕ) (idle : ℕ) (s : Service)
    → IsNamed s
    → parts name ≡ some (domain, app)
    → get_app_info config domain app ≡ some idle
    → (conn == conn') ≡ false
    → (i : ℕ) × (u : ℕ) × (u' : ℕ) × (s' : Service) × (s'' : Service) × (others : List ℕ)
      × (on_publish config now conn name s ≡ (s', true))
      × (on_play config now' conn' name s' ≡ (s'', true))
      × (s''.contexts conn ≡ some (u, i))
      × (s''.contexts conn' ≡ some (u', i))
      × ((s''.rooms i).session.publisher ≡ some u)
      × ((s''.rooms i).session.players ≡ u' ∷ others)
      × (s''.force_closed ≡ s.force_closed)
      × (let before = ((create_session config now name s).0.rooms i).session in
          (s''.rooms i).session.closed ≡ before.closed ++ replaced before u before.publisher)
unfolding on_publish on_play entered new_user
play_meets_publish config now now' conn conn' name domain app idle s all three info apart =
    let (s0, i, created, named, listed, open_as_before) =
      create_session_lem config now name domain app idle s all three info in
    let s' = entered publish_rtmp set_publisher conn i s0 in
    let (others, here, there, publishes', plays', closes') = entered_both conn conn' i s0 apart in
    (
      i,
      s0.next_user,
      suc s0.next_user,
      s',
      entered player_rtmp add_player conn' i s',
      others,
      rw created (enter_lem publish_rtmp set_publisher conn name domain app i s0 named three),
      rw (create_session_found config now' name i s' listed) (
          enter_lem player_rtmp add_player conn' name domain app i s'
            (entered_name publish_rtmp set_publisher conn i s0 ∙ named) three),
      here,
      there,
      publishes',
      plays',
      open_as_before,
      rw created closes',
    )
