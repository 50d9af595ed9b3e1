-- ===== src/TcpServer/Serving.antt =====
-- A connection that is accepted is served.
use lssvc.Common.{
  ==_self, Bool, Bool-cases, List, Option, ap, arith, false, if◌then◌else◌, inl, inr, none, refl,
  some, some_eq, suc, sym, true, ℕ, ◌<◌, ◌==◌, ◌∙◌, ◌≡◌, ◌≢◌, ◌⊎◌,
}
use lssvc.TimingWheel.Slots.{In}
use lssvc.EventLoop.{Epoll, EpollLaws, Loop, enable_writing, fd_of, init, put}
use lssvc.EventLoop.Agreement.{same_number}
use lssvc.EventLoop.Reach.{Reaches, Reaches-Agrees}
use lssvc.TcpServer.{Server, close_connection, on_accept, open_acceptor, open_pipe}
use lssvc.TcpServer.Sets.{count, interest-none, lt→==, put_at, put_off}
use mathlib.Core.Path.{subst}

-- The handle is of a connection or of another event of the server's.
abbrev pub Known : {K : Type 0} → Server K → ℕ → Type 0
Known s h = In h s.connections ⊎ In h s.others

-- A connection is accepted, an acceptor opened or the pipe made with a descriptor that epoll can watch and does not watch yet, as those
-- are that accept, socket and pipe return; one of them is told to be told when it can be written, or
-- not; a connection that was accepted is closed, be it for the first time or again.
pub data Change {K : Type 0} (e : Epoll K) : Server K → Server K → Type 0 where
  accepts :
      (s : Server K) (fd : ℕ)
      → e.admits s.loop.epoll fd ≡ true
      → e.watched s.loop.epoll fd ≡ none
      → Change e s (on_accept e s fd)
  listens :
      (s : Server K) (fd : ℕ)
      → e.admits s.loop.epoll fd ≡ true
      → e.watched s.loop.epoll fd ≡ none
      → Change e s (open_acceptor e s fd)
  pipes :
      (s : Server K) (fd : ℕ)
      → (s.loop.pipe ≡ none → e.admits s.loop.epoll fd ≡ true)
      → (s.loop.pipe ≡ none → e.watched s.loop.epoll fd ≡ none)
      → Change e s (open_pipe e s fd)
  writes_one :
      (s : Server K) (h : ℕ) (en : Bool)
      → Known s h
      → Change e s (record s { loop = (enable_writing e s.loop h en).0 })
  closes_one :
      (s : Server K) (h : ℕ)
      → In h s.connections ⊎ (s.closed h ≡ true)
      → Change e s (close_connection e s h)

pub data Becomes {K : Type 0} (e : Epoll K) (s : Server K) : Server K → Type 0 where
  unchanged : Becomes e s s
  changed : {t u : Server K} → Becomes e s t → Change e t u → Becomes e s u

-- What holds of a server with a loop of its own.
pub record Serving {K : Type 0} (e : Epoll K) (k : K) (s : Server K) : Type 0 where
  pub reach : Reaches e (init k) s.loop
  pub alive :
      (h : ℕ)
      → Known s h
      → (s.closed h ≡ false) × (s.loop.events (fd_of s.loop h) ≡ some h) × (h < s.loop.next)
  pub gone : (h : ℕ) → s.closed h ≡ true → (h < s.loop.next) × ((g : ℕ) → s.loop.events g ≢ some h)
  pub all : (g h : ℕ) → s.loop.events g ≡ some h → Known s h
  pub apart : (h : ℕ) → In h s.connections → In h s.others → ⊥
  pub once : (h : ℕ) → count h s.destroyed ≡ (if s.closed h then 1 else 0)

module _ {K : Type 0} (e : Epoll K) (k : K) (laws : EpollLaws e)
    (empty : (fd : ℕ) → e.watched k fd ≡ none) where
  -- The registry stands as it is.
  pub Serving-same :
      (s : Server K) (l' : Loop K)
      → Reaches e (init k) l'
      → (l'.events ≡ s.loop.events)
        × ((g : ℕ) → fd_of l' g ≡ fd_of s.loop g)
        × (l'.next ≡ s.loop.next)
      → Serving e k s
      → Serving e k (record s { loop = l' })
  Serving-same s l' reach (events, fds, next) v = record {
    reach = reach;
    alive = λ h i.
        let (c, there, less) = v.alive h i in
        (
          c,
          ap (λ (f : ℕ → Option ℕ). f (fd_of l' h)) events ∙ ap s.loop.events (fds h) ∙ there,
          omega (arith, less, next),
        );
    gone = λ h c.
        let (less, never) = v.gone h c in
        (
          omega (arith, less, next),
          λ g there. never g (sym (ap (λ (f : ℕ → Option ℕ). f g) events) ∙ there),
        );
    all = λ g h there. v.all g h (sym (ap (λ (f : ℕ → Option ℕ). f g) events) ∙ there);
    apart = v.apart;
    once = v.once;
  }

  pub unregistered :
      (s : Server K) (fd : ℕ)
      → e.watched s.loop.epoll fd ≡ none
      → Serving e k s
      → s.loop.events fd ≡ none
  unregistered s fd unwatched v =
      interest-none s.loop.objects (s.loop.events fd)
        (sym ((Reaches-Agrees e k s.loop laws empty v.reach).same fd) ∙ unwatched)

  -- A new event comes to a loop as a connection or as another.
  pub Serving-more :
      (s : Server K) (fd : ℕ) (l' : Loop K) (connections others : List ℕ)
      → s.loop.events fd ≡ none
      → Reaches e (init k) l'
      → ((g : ℕ) → l'.events g ≡ put s.loop.events fd (some s.loop.next) g)
      → ((h : ℕ) → fd_of l' h ≡ (if h == s.loop.next then fd else fd_of s.loop h))
      → l'.next ≡ suc s.loop.next
      → ((h : ℕ) → In h connections ⊎ In h others → (h ≡ s.loop.next) ⊎ Known s h)
      → In s.loop.next connections ⊎ In s.loop.next others
      → ((h : ℕ) → Known s h → In h connections ⊎ In h others)
      → ((h : ℕ) → In h connections → In h others → ⊥)
      → Serving e k s
      → Serving e k (record s { loop = l'; connections = connections; others = others })
  Serving-more s fd l' connections others free reach events fds next known newly still apart v =
      record {
        reach = reach;
        alive = λ h i. alive h (known h i);
        gone = λ h c. (omega (arith, next, (v.gone h c).0), λ g there. absurd (gone h c g there));
        all = λ g h there. all g h there;
        apart = apart;
        once = v.once;
      }
    where
      events_at :
          (g h : ℕ) → l'.events g ≡ some h → put s.loop.events fd (some s.loop.next) g ≡ some h
      events_at g h there = sym (events g) ∙ there

      -- A descriptor that is registered is another.
      busy : (h : ℕ) → s.loop.events (fd_of s.loop h) ≡ some h → (fd_of s.loop h == fd) ≡ false
      busy h there = elim (Bool-cases (fd_of s.loop h == fd)) [
        | inl is ↦
            let bad : some h ≡ none =
              sym there ∙ ap s.loop.events (same_number (fd_of s.loop h) fd is) ∙ free in
            cc
        | inr other ↦ other
      ]

      own_fd : fd_of l' s.loop.next ≡ fd
      own_fd = fds s.loop.next ∙ rw (==_self s.loop.next) refl

      old_fd : (h : ℕ) → h < s.loop.next → fd_of l' h ≡ fd_of s.loop h
      old_fd h less = fds h ∙ rw (lt→== h s.loop.next less) refl

      never_closed : s.closed s.loop.next ≡ false
      never_closed = elim (Bool-cases (s.closed s.loop.next)) [
        | inl c ↦ absurd (omega (arith, (v.gone s.loop.next c).0))
        | inr c ↦ c
      ]

      alive :
          (h : ℕ)
          → (h ≡ s.loop.next) ⊎ Known s h
          → (s.closed h ≡ false) × (l'.events (fd_of l' h) ≡ some h) × (h < l'.next)
      alive h (inl is) =
          subst
            (λ (x : ℕ). (s.closed x ≡ false) × (l'.events (fd_of l' x) ≡ some x) × (x < l'.next))
            (sym is)
            (
              never_closed,
              ap l'.events own_fd
                  ∙ events fd
                  ∙ put_at s.loop.events fd fd (some s.loop.next) (==_self fd),
              omega (arith, next),
            )
      alive h (inr i) =
          let (c, there, less) = v.alive h i in
          (
            c,
            ap l'.events (old_fd h less)
                ∙ events (fd_of s.loop h)
                ∙ put_off s.loop.events fd (fd_of s.loop h) (some s.loop.next) (busy h there)
                ∙ there,
            omega (arith, next, less),
          )

      is_new : (g h : ℕ) → (g == fd) ≡ true → l'.events g ≡ some h → s.loop.next ≡ h
      is_new g h is there =
          some_eq _ _ (sym (put_at s.loop.events fd g (some s.loop.next) is) ∙ events_at g h there)

      is_old : (g h : ℕ) → (g == fd) ≡ false → l'.events g ≡ some h → s.loop.events g ≡ some h
      is_old g h other there =
          sym (put_off s.loop.events fd g (some s.loop.next) other) ∙ events_at g h there

      gone : (h : ℕ) → s.closed h ≡ true → (g : ℕ) → l'.events g ≢ some h
      gone h c g there = elim (Bool-cases (g == fd)) [
        | inl is ↦ absurd (omega (arith, is_new g h is there, (v.gone h c).0))
        | inr other ↦ (v.gone h c).1 g (is_old g h other there)
      ]

      all : (g h : ℕ) → l'.events g ≡ some h → In h connections ⊎ In h others
      all g h there = elim (Bool-cases (g == fd)) [
        | inl is ↦ subst (λ (x : ℕ). In x connections ⊎ In x others) (is_new g h is there) newly
        | inr other ↦ still h (v.all g h (is_old g h other there))
      ]
