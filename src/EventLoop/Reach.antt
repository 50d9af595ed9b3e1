-- ===== src/EventLoop/Reach.antt =====
-- The states of a loop that its users can bring about.
use lssvc.EventLoop.{
  Epoll, EpollLaws, Event, Loop, add_event, close, del_event, enable, enable_reading,
  enable_writing, fd_of, init, init_pipe, new_event, pipe_found,
}
use lssvc.EventLoop.Levels.{put_self}
use lssvc.EventLoop.Agreement.{
  Agrees, Agrees-add_found, Agrees-close, Agrees-del_found, Agrees-enable_found, Agrees-new_event,
  interest,
}
use lssvc.Common.{Bool, Option, ap, arith, none, refl, some, true, ℕ, ◌<◌, ◌∙◌, ◌≡◌, ◌⊎◌}

-- A step of the loop's users. An event is asked to watch something else only where it is itself
-- the one that is registered for its descriptor, and closed only where its descriptor is not
-- registered; a descriptor that is added is one that epoll can watch.
pub data Step {K : Type 0} (e : Epoll K) : Loop K → Loop K → Type 0 where
  creates : (l : Loop K) (fd : ℕ) → Step e l (new_event l fd)
  adds :
      (l : Loop K) (h : ℕ)
      → h < l.next
      → e.admits l.epoll (fd_of l h) ≡ true
      → Step e l (add_event e l h)
  wakes : (l : Loop K) (fd : ℕ) → e.admits l.epoll fd ≡ true → Step e l (init_pipe e l fd)
  deletes : (l : Loop K) (h : ℕ) → Step e l (del_event e l h)
  reads :
      (l : Loop K) (h : ℕ) (en : Bool)
      → (l.events (fd_of l h) ≡ none) ⊎ (l.events (fd_of l h) ≡ some h)
      → Step e l (enable_reading e l h en).0
  writes :
      (l : Loop K) (h : ℕ) (en : Bool)
      → (l.events (fd_of l h) ≡ none) ⊎ (l.events (fd_of l h) ≡ some h)
      → Step e l (enable_writing e l h en).0
  closes : (l : Loop K) (h : ℕ) → l.events (fd_of l h) ≡ none → Step e l (close e l h)

pub data Reaches {K : Type 0} (e : Epoll K) (l : Loop K) : Loop K → Type 0 where
  begins : Reaches e l l
  goes_on : {t u : Loop K} → Reaches e l t → Step e t u → Reaches e l u

Agrees-pipe_found :
    {K : Type 0} (e : Epoll K)
    → EpollLaws e
    → (l : Loop K) (fd : ℕ) (o : Option ℕ) → e.admits l.epoll fd ≡ true
    → Agrees e l
    → Agrees e (pipe_found e l fd o)
unfolding pipe_found add_event new_event
Agrees-pipe_found e laws l fd (some there) admitted a = a
Agrees-pipe_found {K = K} e laws l fd none admitted a =
    Agrees-add_found e laws fresh l.next (fresh.events (fd_of fresh l.next)) refl (omega arith)
      (ap (e.admits l.epoll) (ap Event.fd (put_self l.objects l.next _)) ∙ admitted)
      (record { same = opened.same; own = opened.own })
  where
    opened : Agrees e (new_event l fd)
    opened = Agrees-new_event e laws l fd a

    fresh : Loop K
    fresh = record (new_event l fd) { pipe = some l.next }

Agrees-Step :
    {K : Type 0} (e : Epoll K)
    → EpollLaws e
    → (l l' : Loop K) → Step e l l'
    → Agrees e l
    → Agrees e l'
unfolding add_event init_pipe del_event enable_reading enable_writing enable
Agrees-Step e laws _ _ (creates l fd) a = Agrees-new_event e laws l fd a
Agrees-Step e laws _ _ (adds l h small admitted) a =
    Agrees-add_found e laws l h (l.events (fd_of l h)) refl small admitted a
Agrees-Step e laws _ _ (wakes l fd admitted) a = Agrees-pipe_found e laws l fd l.pipe admitted a
Agrees-Step e laws _ _ (deletes l h) a = Agrees-del_found e laws l h (l.events (fd_of l h)) refl a
Agrees-Step e laws _ _ (reads l h en own) a =
    Agrees-enable_found e laws l h _ (l.events (fd_of l h)) refl own a
Agrees-Step e laws _ _ (writes l h en own) a =
    Agrees-enable_found e laws l h _ (l.events (fd_of l h)) refl own a
Agrees-Step e laws _ _ (closes l h free) a = Agrees-close e laws l h free a

-- Take an epoll with the documented behaviour that watches nothing at first, and any steps of the
-- users of a loop: events are created, and added with a descriptor that can be watched; the pipe is
-- set up; any event is deleted; reading and writing are turned on and off for events that are
-- registered themselves or whose descriptor is not; and an event is closed while its descriptor is
-- not registered. After them epoll watches exactly the descriptors in `events_`, each for the mask
-- of its event, and an event stands there under its own descriptor.
pub Reaches-Agrees :
    {K : Type 0} (e : Epoll K) (k : K) (l : Loop K)
    → EpollLaws e
    → ((fd : ℕ) → e.watched k fd ≡ none)
    → Reaches e (init k) l
    → Agrees e l
unfolding init interest
Reaches-Agrees e k _ laws empty begins = record { same = λ fd. empty fd; own = λ fd h bad. cc }
Reaches-Agrees e k l laws empty (goes_on r s) =
    Agrees-Step e laws _ l s (Reaches-Agrees e k _ laws empty r)
