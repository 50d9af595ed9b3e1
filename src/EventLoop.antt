-- ===== src/EventLoop.antt =====
-- src/network/net/lssvc_eventloop.cpp, lssvc_event.cpp and lssvc_pipe_event.cpp: the registry of a
-- loop with what epoll watches, and the dispatch of what is ready. A descriptor is an int32_t
-- pattern, an event object a number that pointers share.
pub mod Agreement
pub mod Reach
pub mod Dispatch
pub mod Levels
pub mod Queue
pub mod Tests
use lssvc.Common.{
  Bool, List, Option, [], false, if◌then◌else◌, leb, none, not, some, suc, true, ℕ, ◌&&◌, ◌*◌, ◌++◌,
  ◌-◌, ◌/◌, ◌==◌, ◌>>=◌, ◌^◌, ◌||◌, ◌∷◌, ◌≡◌,
}

-- The bits of `event_`: EPOLLIN, EPOLLPRI, EPOLLOUT and EPOLLET.
pub record Interest : Type 0 where
  pub readable : Bool
  pub urgent : Bool
  pub writable : Bool
  pub edge : Bool

abbrev pub no_interest : Interest
no_interest = record { readable = false; urgent = false; writable = false; edge = false }

-- `|= kEventRead` and `&= ~kEventRead`; kEventWrite alike.
unfoldable pub set_reading : Bool → Interest → Interest
set_reading en m = record m { readable = en; urgent = en; edge = en }

unfoldable pub set_writing : Bool → Interest → Interest
set_writing en m = record m { writable = en; edge = en }

pub record Event : Type 0 where
  pub fd : ℕ
  pub mask : Interest

-- The calls of epoll, and which descriptors it watches for what.
pub record Epoll (K : Type 0) : Type 0 where
  pub ctl_add : K → ℕ → Interest → K
  pub ctl_mod : K → ℕ → Interest → K
  pub ctl_del : K → ℕ → K
  pub close_fd : K → ℕ → K
  pub watched : K → ℕ → Option Interest
  pub admits : K → ℕ → Bool

-- What epoll_ctl(2), epoll(7) and close(2) say of them.
pub record EpollLaws {K : Type 0} (e : Epoll K) : Type 0 where
  pub add_lem :
      (k : K) (fd g : ℕ) (m : Interest)
      → e.admits k fd ≡ true
      → e.watched k fd ≡ none
      → e.watched (e.ctl_add k fd m) g ≡ (if g == fd then some m else e.watched k g)
  pub mod_lem :
      (k : K) (fd g : ℕ) (m before : Interest)
      → e.watched k fd ≡ some before
      → e.watched (e.ctl_mod k fd m) g ≡ (if g == fd then some m else e.watched k g)
  pub del_lem :
      (k : K) (fd g : ℕ) (before : Interest)
      → e.watched k fd ≡ some before
      → e.watched (e.ctl_del k fd) g ≡ (if g == fd then none else e.watched k g)
  pub close_lem :
      (k : K) (fd g : ℕ) → e.watched (e.close_fd k fd) g ≡ (if g == fd then none else e.watched k g)

-- `events_` is a map from descriptors to objects; `capacity` is the size of `epoll_events_`, and
-- `pipe` the event of the pipe that wakes the loop up.
pub record Loop (K : Type 0) : Type 0 where
  pub objects : ℕ → Event
  pub next : ℕ
  pub events : ℕ → Option ℕ
  pub epoll : K
  pub capacity : ℕ
  pub pipe : Option ℕ

abbrev pub put {ℓ} : {A : Type ℓ} → (ℕ → A) → ℕ → A → ℕ → A
put f i v k = if k == i then v else f k

unfoldable pub init : {K : Type 0} → K → Loop K
init k = record {
  objects = λ h. record { fd = 0; mask = no_interest };
  next = 0;
  events = λ fd. none;
  epoll = k;
  capacity = 1024 * 512;
  pipe = none;
}

abbrev pub fd_of : {K : Type 0} → Loop K → ℕ → ℕ
fd_of l h = (l.objects h).fd

abbrev pub mask_of : {K : Type 0} → Loop K → ℕ → Interest
mask_of l h = (l.objects h).mask

abbrev pub set_mask : {K : Type 0} → Loop K → ℕ → Interest → Loop K
set_mask l h m = record l { objects = put l.objects h (record (l.objects h) { mask = m }) }

-- The constructor of an event, with its descriptor.
unfoldable pub new_event : {K : Type 0} → Loop K → ℕ → Loop K
new_event l fd = record l {
  objects = put l.objects l.next (record { fd = fd; mask = no_interest });
  next = suc l.next;
}

-- `addEvent`, where the lookup in `events_` finds this.
unfoldable pub add_found : {K : Type 0} → Epoll K → Loop K → ℕ → Option ℕ → Loop K
add_found e l h (some there) = l
add_found e l h none = record (set_mask l h (set_reading true (mask_of l h))) {
  events = put l.events (fd_of l h) (some h);
  epoll = e.ctl_add l.epoll (fd_of l h) (set_reading true (mask_of l h));
}

unfoldable pub add_event : {K : Type 0} → Epoll K → Loop K → ℕ → Loop K
add_event e l h = add_found e l h (l.events (fd_of l h))

unfoldable pub del_found : {K : Type 0} → Epoll K → Loop K → ℕ → Option ℕ → Loop K
del_found e l h none = l
del_found e l h (some there) = record l {
  events = put l.events (fd_of l h) none;
  epoll = e.ctl_del l.epoll (fd_of l h);
}

unfoldable pub del_event : {K : Type 0} → Epoll K → Loop K → ℕ → Loop K
del_event e l h = del_found e l h (l.events (fd_of l h))

-- `enableReading` and `enableWriting` of the loop, from the mask that they give; the flag is what
-- they return.
unfoldable pub enable_found :
    {K : Type 0} → Epoll K → Loop K → ℕ → Interest → Option ℕ → Loop K × Bool
enable_found e l h m none = (l, false)
enable_found e l h m (some there) =
    (record (set_mask l h m) { epoll = e.ctl_mod l.epoll (fd_of l h) m }, true)

unfoldable pub enable : {K : Type 0} → Epoll K → Loop K → ℕ → Interest → Loop K × Bool
enable e l h m = enable_found e l h m (l.events (fd_of l h))

unfoldable pub enable_reading : {K : Type 0} → Epoll K → Loop K → ℕ → Bool → Loop K × Bool
enable_reading e l h en = enable e l h (set_reading en (mask_of l h))

unfoldable pub enable_writing : {K : Type 0} → Epoll K → Loop K → ℕ → Bool → Loop K × Bool
enable_writing e l h en = enable e l h (set_writing en (mask_of l h))

-- `fd_ > 1`, and the pattern of -1.
abbrev pub is_above_one : ℕ → Bool
is_above_one fd = not (leb fd 1) && not (leb (2 ^ 31) fd)

abbrev pub no_fd : ℕ
no_fd = 2 ^ 32 - 1

-- `LSSEvent::close`.
unfoldable pub close : {K : Type 0} → Epoll K → Loop K → ℕ → Loop K
close e l h =
    if is_above_one (fd_of l h)
    then record l {
      objects = put l.objects h (record (l.objects h) { fd = no_fd });
      epoll = e.close_fd l.epoll (fd_of l h);
    }
    else l

-- What epoll_wait reports of a descriptor.
pub record Ready : Type 0 where
  pub input : Bool
  pub urgent : Bool
  pub output : Bool
  pub error : Bool
  pub hang_up : Bool

pub data Call : Type 0 where
  on_error : ℕ → Call
  on_close : ℕ → Call
  on_read : ℕ → Call
  on_write : ℕ → Call

unfoldable pub call_for : Ready → ℕ → Option Call
call_for r h =
    if r.error
    then some (on_error h)
    else if r.hang_up && not r.input
    then some (on_close h)
    else if r.input || r.urgent
    then some (on_read h)
    else if r.output
    then some (on_write h)
    else none

-- `ev.data.fd <= 0`.
abbrev pub is_skipped : ℕ → Bool
is_skipped fd = fd == 0 || leb (2 ^ 31) fd

-- The dispatch goes on in any state that has a registry: `registry s` is `events_`.
unfoldable pub looked_up {ℓ} : {S : Type ℓ} → (S → ℕ → Option ℕ) → S → ℕ → Option ℕ
looked_up registry s fd = if is_skipped fd then none else registry s fd

module _ {ℓ} {S : Type ℓ} (registry : S → ℕ → Option ℕ) (handler : Call → S → S) where
  unfoldable pub make_call : S → Option Call → S × List Call
  make_call s none = (s, [])
  make_call s (some c) = (handler c s, c ∷ [])

  -- One entry: whose handler is called, and what it leaves of the state.
  unfoldable pub dispatch_one : S → ℕ → Ready → S × List Call
  dispatch_one s fd r = make_call s (looked_up registry s fd >>= call_for r)

  unfoldable pub dispatch : S → List (ℕ × Ready) → S × List Call
  dispatch s [] = (s, [])
  dispatch s ((fd, r) ∷ ready) =
      let (s', calls) = dispatch_one s fd r in
      let (s'', calls') = dispatch s' ready in (s'', calls ++ calls')

-- The vector of entries doubles when four fifths of it were used.
unfoldable pub grow : {K : Type 0} → Loop K → ℕ → Loop K
grow l nready =
    if leb (l.capacity * 4 / 5) nready then record l { capacity = l.capacity * 2 } else l

-- `initPipe`, with the read end of a pipe that is made for it where there is none.
unfoldable pub pipe_found : {K : Type 0} → Epoll K → Loop K → ℕ → Option ℕ → Loop K
pipe_found e l fd (some there) = l
pipe_found e l fd none = add_event e (record (new_event l fd) { pipe = some l.next }) l.next

unfoldable pub init_pipe : {K : Type 0} → Epoll K → Loop K → ℕ → Loop K
init_pipe e l fd = pipe_found e l fd l.pipe
