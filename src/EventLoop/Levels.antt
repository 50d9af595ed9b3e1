-- ===== src/EventLoop/Levels.antt =====
-- What epoll is asked to watch an event for.
use mathlib.Core.Path.{subst}
use lssvc.EventLoop.{
  Epoll, EpollLaws, Event, Interest, Loop, add_event, add_found, enable, enable_found,
  enable_writing, fd_of, mask_of, put, set_reading, set_writing,
}
use lssvc.Common.{==_self, Bool, ap, false, none, some, sym, true, ℕ, ◌∙◌, ◌≡◌}

-- An event is registered under its descriptor, and epoll watches that for its mask.
record Watching {K : Type 0} (e : Epoll K) (l : Loop K) (h fd : ℕ) (m : Interest) : Type 0 where
  own : fd_of l h ≡ fd
  there : l.events fd ≡ some h
  mask : mask_of l h ≡ m
  watched : e.watched l.epoll fd ≡ some m

pub put_self {ℓ} : {A : Type ℓ} (f : ℕ → A) (i : ℕ) (v : A) → put f i v i ≡ v
put_self f i v = rw (==_self i)

module _ {K : Type 0} (e : Epoll K) (laws : EpollLaws e) where
  add_event-Watching :
      (l : Loop K) (h : ℕ)
      → e.admits l.epoll (fd_of l h) ≡ true
      → l.events (fd_of l h) ≡ none
      → e.watched l.epoll (fd_of l h) ≡ none
      → Watching e (add_event e l h) h (fd_of l h) (set_reading true (mask_of l h))
  unfolding add_event add_found
  add_event-Watching l h admitted free unwatched =
      subst (λ (k : Loop K). Watching e k h (fd_of l h) (set_reading true (mask_of l h)))
        (sym (ap (add_found e l h) free))
        (record {
          own = ap Event.fd (put_self l.objects h _);
          there = put_self l.events (fd_of l h) _;
          mask = ap Event.mask (put_self l.objects h _);
          watched =
              laws.add_lem l.epoll (fd_of l h) (fd_of l h) _ admitted unwatched
              ∙ rw (==_self (fd_of l h));
        })

  enable-Watching :
      (l : Loop K) (h fd : ℕ) (m before : Interest)
      → Watching e l h fd before
      → Watching e (enable e l h m).0 h fd m
  unfolding enable enable_found
  enable-Watching l h fd m before w =
      subst (λ (k : Loop K × Bool). Watching e k.0 h fd m)
        (sym (ap (enable_found e l h m) (ap l.events w.own ∙ w.there)))
        (record {
          own = ap Event.fd (put_self l.objects h _) ∙ w.own;
          there = w.there;
          mask = ap Event.mask (put_self l.objects h _);
          watched =
              ap (λ (g : ℕ). e.watched (e.ctl_mod l.epoll g m) fd) w.own
              ∙ laws.mod_lem l.epoll fd fd m before w.watched
              ∙ rw (==_self fd);
        })

  set_writing-Watching :
      (l : Loop K) (h fd : ℕ) (en : Bool) (m : Interest)
      → Watching e l h fd m
      → Watching e (enable_writing e l h en).0 h fd (set_writing en m)
  unfolding enable_writing
  set_writing-Watching l h fd en m w =
      subst (λ (x : Interest). Watching e (enable_writing e l h en).0 h fd (set_writing en x))
        w.mask (enable-Watching l h fd (set_writing en (mask_of l h)) m w)

-- Writing is turned on and off again for an event that was just added: epoll then watches it for
-- reading, but no longer edge-triggered.
pub enable_writing-level :
    {K : Type 0} (e : Epoll K) (l : Loop K) (h : ℕ)
    → EpollLaws e
    → e.admits l.epoll (fd_of l h) ≡ true
    → l.events (fd_of l h) ≡ none
    → e.watched l.epoll (fd_of l h) ≡ none
    → e.watched
        (enable_writing e (enable_writing e (add_event e l h) h true).0 h false).0.epoll
        (fd_of l h)
      ≡ some (record { readable = true; urgent = true; writable = false; edge = false })
unfolding set_writing set_reading
enable_writing-level e l h laws admitted free unwatched =
    (set_writing-Watching e laws _ h (fd_of l h) false _ (
      set_writing-Watching e laws _ h (fd_of l h) true _
        (add_event-Watching e laws l h admitted free unwatched))).watched
