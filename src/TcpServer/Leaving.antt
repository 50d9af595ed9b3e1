-- ===== src/TcpServer/Leaving.antt =====
-- A connection that is closed is no longer served.
use lssvc.Common.{
  Bool-cases, [], ap, arith, false, if◌then◌else◌, inl, inr, none, refl, some, some_eq, sym, true,
  ℕ, ◌++◌, ◌+◌, ◌<◌, ◌==◌, ◌∙◌, ◌∷◌, ◌≡◌, ◌≢◌, ◌⊎◌,
}
use lssvc.TimingWheel.Slots.{In}
use lssvc.EventLoop.{Epoll, EpollLaws, Loop, del_event, fd_of, put}
use lssvc.EventLoop.Agreement.{same_number}
use lssvc.EventLoop.Reach.{Reaches-Agrees, closes, deletes, goes_on}
use lssvc.TcpServer.{Server, close_connection, erase, on_connection_close}
use lssvc.TcpServer.Closing.{del_event-free, without, without-events, without-fd, without-next}
use lssvc.TcpServer.Sets.{In-erase, count, count-snoc, counted, erase-In, put_at, put_off, unequal}
use lssvc.TcpServer.Serving.{Known, Serving}
use mathlib.Core.Path.{subst}

module _ {K : Type 0} (e : Epoll K) (k : K) (laws : EpollLaws e)
    (empty : (fd : ℕ) → e.watched k fd ≡ none) where
  unfoldable pub after_close : Server K → ℕ → Server K
  after_close s h = record {
    loop = without e s.loop h;
    connections = erase h s.connections;
    others = s.others;
    closed = put s.closed h true;
    destroyed = s.destroyed ++ (h ∷ []);
  }

  pub close_connection-first :
      (s : Server K) (h : ℕ) → s.closed h ≡ false → close_connection e s h ≡ after_close s h
  unfolding close_connection on_connection_close after_close
  close_connection-first s h c = rw c refl

  pub close_connection-again :
      (s : Server K) (h : ℕ) → s.closed h ≡ true → close_connection e s h ≡ s
  unfolding close_connection
  close_connection-again s h c = rw c refl

  pub Serving-close :
      (s : Server K) (h : ℕ) → In h s.connections → Serving e k s → Serving e k (after_close s h)
  unfolding after_close
  Serving-close s h here v = record {
    reach =
        goes_on (goes_on v.reach (deletes s.loop h))
          (closes (del_event e s.loop h) h (del_event-free e s.loop h h there));
    alive = λ g i. alive g (known g i);
    gone = λ g c. gone g c;
    all = λ f g there. all f g (events_at f g there);
    apart = λ g i j. v.apart g (In-erase g h s.connections i).0 j;
    once = λ g. once g;
  }
    where
      l' : Loop K
      l' = without e s.loop h

      there : s.loop.events (fd_of s.loop h) ≡ some h
      there = (v.alive h (inl here)).1

      -- What is still registered is under another descriptor, and another connection.
      events_at :
          (f g : ℕ)
          → l'.events f ≡ some g
          → (s.loop.events f ≡ some g) × ((f == fd_of s.loop h) ≡ false)
      events_at f g kept = elim (Bool-cases (f == fd_of s.loop h)) [
        | inl is ↦
            let bad : none ≡ some g =
              sym (put_at s.loop.events (fd_of s.loop h) f none is)
              ∙ sym (without-events e s.loop h f h there)
              ∙ kept in
            cc
        | inr other ↦ (
          sym (put_off s.loop.events (fd_of s.loop h) f none other)
              ∙ sym (without-events e s.loop h f h there)
              ∙ kept,
          other,
        )
      ]

      own : (g f : ℕ) → s.loop.events f ≡ some g → fd_of s.loop g ≡ f
      own g f is = ((Reaches-Agrees e k s.loop laws empty v.reach).own f g is).0

      -- Two connections have two descriptors.
      apart :
          (g : ℕ)
          → s.loop.events (fd_of s.loop g) ≡ some g
          → (g == h) ≡ false
          → (fd_of s.loop g == fd_of s.loop h) ≡ false
      apart g is other = elim (Bool-cases (fd_of s.loop g == fd_of s.loop h)) [
        | inr o ↦ o
        | inl same ↦
            let one : g ≡ h = some_eq g h (
              sym is
              ∙ ap s.loop.events (same_number (fd_of s.loop g) (fd_of s.loop h) same)
              ∙ there) in
            absurd (omega (arith, one, unequal g h other))
      ]

      -- A descriptor that is not this connection's is not registered for it.
      elsewhere :
          (f g : ℕ)
          → (s.loop.events f ≡ some g) × ((f == fd_of s.loop h) ≡ false)
          → (g == h) ≡ false
      elsewhere f g (is, other) = elim (Bool-cases (g == h)) [
        | inr o ↦ o
        | inl same ↦
            let fds : fd_of s.loop h ≡ f =
              ap (fd_of s.loop) (sym (same_number g h same)) ∙ own g f is in
            absurd (omega (arith, fds, unequal f (fd_of s.loop h) other))
      ]

      known :
          (g : ℕ) → In g (erase h s.connections) ⊎ In g s.others → Known s g × ((g == h) ≡ false)
      known g (inl i) = let (before, other) = In-erase g h s.connections i in (inl before, other)
      known g (inr j) = elim (Bool-cases (g == h)) [
        | inl same ↦
            absurd (v.apart h here (subst (λ (x : ℕ). In x s.others) (same_number g h same) j))
        | inr other ↦ (inr j, other)
      ]

      still : (g : ℕ) → (g == h) ≡ false → Known s g → In g (erase h s.connections) ⊎ In g s.others
      still g other (inl i) = inl (erase-In g h s.connections other i)
      still g other (inr j) = inr j

      alive :
          (g : ℕ)
          → Known s g × ((g == h) ≡ false)
          → (put s.closed h true g ≡ false) × (l'.events (fd_of l' g) ≡ some g) × (g < l'.next)
      alive g (before, other) =
          let (c, is, less) = v.alive g before in
          (
            put_off s.closed h g true other ∙ c,
            ap l'.events (without-fd e s.loop h g other)
                ∙ without-events e s.loop h (fd_of s.loop g) h there
                ∙ put_off s.loop.events (fd_of s.loop h) (fd_of s.loop g) none (apart g is other)
                ∙ is,
            omega (arith, less, without-next e s.loop h),
          )

      gone :
          (g : ℕ) → put s.closed h true g ≡ true → (g < l'.next) × ((f : ℕ) → l'.events f ≢ some g)
      gone g c = elim (Bool-cases (g == h)) [
        | inl same ↦ (
          omega (arith, (v.alive h (inl here)).2, same_number g h same, without-next e s.loop h),
          λ f kept. let bad : true ≡ false = sym same ∙ elsewhere f g (events_at f g kept) in cc,
        )
        | inr other ↦
            let (less, never) = v.gone g (sym (put_off s.closed h g true other) ∙ c) in
            (omega (arith, less, without-next e s.loop h), λ f kept. never f (events_at f g kept).0)
      ]

      all :
          (f g : ℕ)
          → (s.loop.events f ≡ some g) × ((f == fd_of s.loop h) ≡ false)
          → In g (erase h s.connections) ⊎ In g s.others
      all f g (is, other) = still g (elsewhere f g (is, other)) (v.all f g is)

      once : (g : ℕ) → count g (s.destroyed ++ (h ∷ [])) ≡ (if put s.closed h true g then 1 else 0)
      once g =
          count-snoc g h s.destroyed
          ∙ ap (λ (n : ℕ). n + (if h == g then 1 else 0)) (v.once g)
          ∙ counted s.closed g h (v.alive h (inl here)).0
