-- ===== src/TcpServer/Coming.antt =====
-- Connections, acceptors and the pipe come to a loop.
use mathlib.Core.Path.{subst}
use lssvc.Common.{
  List, Option, Option-cases, ap, arith, inl, inr, none, refl, some, sym, true, ℕ, ◌∙◌, ◌∷◌, ◌≡◌,
  ◌≢◌, ◌⊎◌,
}
use lssvc.TimingWheel.Slots.{In}
use lssvc.EventLoop.{Epoll, EpollLaws, Event, Loop, init, init_pipe, new_event, pipe_found}
use lssvc.EventLoop.Reach.{Reaches, adds, creates, goes_on, wakes}
use lssvc.TcpServer.{Server, on_accept, open_acceptor, open_pipe, with_pipe}
use lssvc.TcpServer.Closing.{
  init_pipe-like_new, new_event-own, with_new, with_new-events, with_new-fd, with_new-next,
}
use lssvc.TcpServer.Serving.{Known, Serving, Serving-more, unregistered}

module _ {K : Type 0} (e : Epoll K) (k : K) (laws : EpollLaws e)
    (empty : (fd : ℕ) → e.watched k fd ≡ none) where
  -- The number of the next event is not in use.
  unused : (s : Server K) (h : ℕ) → Serving e k s → Known s h → h ≢ s.loop.next
  unused s h v i same = absurd (omega (arith, (v.alive h i).2, same))

  with_new-Reaches :
      (s : Server K) (fd : ℕ)
      → e.admits s.loop.epoll fd ≡ true
      → Serving e k s
      → Reaches e (init k) (with_new e s.loop fd)
  unfolding new_event
  with_new-Reaches s fd admitted v = goes_on (goes_on v.reach (creates s.loop fd)) (
      adds (new_event s.loop fd) s.loop.next (omega arith)
        (ap (e.admits s.loop.epoll) (new_event-own e s.loop fd) ∙ admitted))

  -- The new event is not a connection and another event at once.
  new_apart :
      (s : Server K) (h : ℕ)
      → Serving e k s
      → ((h ≡ s.loop.next) ⊎ In h s.connections → In h s.others → ⊥)
        × (In h s.connections → (h ≡ s.loop.next) ⊎ In h s.others → ⊥)
  new_apart s h v = (coming, staying)
    where
      coming : (h ≡ s.loop.next) ⊎ In h s.connections → In h s.others → ⊥
      coming (inl is) j = unused s h v (inr j) is
      coming (inr i) j = v.apart h i j

      staying : In h s.connections → (h ≡ s.loop.next) ⊎ In h s.others → ⊥
      staying i (inl is) = unused s h v (inl i) is
      staying i (inr j) = v.apart h i j

  first_of :
      (s : Server K) (h : ℕ)
      → In h (s.loop.next ∷ s.connections) ⊎ In h s.others
      → (h ≡ s.loop.next) ⊎ Known s h
  first_of s h (inl (inl is)) = inl is
  first_of s h (inl (inr i)) = inr (inl i)
  first_of s h (inr j) = inr (inr j)

  second_of :
      (s : Server K) (h : ℕ)
      → In h s.connections ⊎ In h (s.loop.next ∷ s.others)
      → (h ≡ s.loop.next) ⊎ Known s h
  second_of s h (inl i) = inr (inl i)
  second_of s h (inr (inl is)) = inl is
  second_of s h (inr (inr j)) = inr (inr j)

  still_first :
      (s : Server K) (h : ℕ) → Known s h → In h (s.loop.next ∷ s.connections) ⊎ In h s.others
  still_first s h (inl i) = inl (inr i)
  still_first s h (inr j) = inr j

  still_second :
      (s : Server K) (h : ℕ) → Known s h → In h s.connections ⊎ In h (s.loop.next ∷ s.others)
  still_second s h (inl i) = inl i
  still_second s h (inr j) = inr (inr j)

  pub Serving-accept :
      (s : Server K) (fd : ℕ)
      → e.admits s.loop.epoll fd ≡ true
      → e.watched s.loop.epoll fd ≡ none
      → Serving e k s
      → Serving e k (on_accept e s fd)
  unfolding on_accept
  Serving-accept s fd admitted unwatched v =
      let free = unregistered e k laws empty s fd unwatched v in
      Serving-more e k laws empty s fd (with_new e s.loop fd) (s.loop.next ∷ s.connections) s.others
        free (with_new-Reaches s fd admitted v) (λ g. with_new-events e s.loop fd g free)
        (λ h. with_new-fd e s.loop fd h free) (with_new-next e s.loop fd) (first_of s)
        (inl (inl refl)) (still_first s) (λ h. (new_apart s h v).0) v

  pub Serving-listen :
      (s : Server K) (fd : ℕ)
      → e.admits s.loop.epoll fd ≡ true
      → e.watched s.loop.epoll fd ≡ none
      → Serving e k s
      → Serving e k (open_acceptor e s fd)
  unfolding open_acceptor
  Serving-listen s fd admitted unwatched v =
      let free = unregistered e k laws empty s fd unwatched v in
      Serving-more e k laws empty s fd (with_new e s.loop fd) s.connections (s.loop.next ∷ s.others)
        free (with_new-Reaches s fd admitted v) (λ g. with_new-events e s.loop fd g free)
        (λ h. with_new-fd e s.loop fd h free) (with_new-next e s.loop fd) (second_of s)
        (inr (inl refl)) (still_second s) (λ h. (new_apart s h v).1) v

  Serving-dry :
      (s : Server K) (fd : ℕ)
      → s.loop.pipe ≡ none
      → e.admits s.loop.epoll fd ≡ true
      → e.watched s.loop.epoll fd ≡ none
      → Serving e k s
      → Serving e k (record s { loop = init_pipe e s.loop fd; others = s.loop.next ∷ s.others })
  Serving-dry s fd dry admitted unwatched v =
      let free = unregistered e k laws empty s fd unwatched v in
      let (events, objects, next) = init_pipe-like_new e s.loop fd dry in
      Serving-more e k laws empty s fd (init_pipe e s.loop fd) s.connections
        (s.loop.next ∷ s.others) free (goes_on v.reach (wakes s.loop fd admitted))
        (λ g. ap (λ (f : ℕ → Option ℕ). f g) events ∙ with_new-events e s.loop fd g free)
        (λ h. ap (λ (f : ℕ → Event). (f h).fd) objects ∙ with_new-fd e s.loop fd h free)
        (next ∙ with_new-next e s.loop fd) (second_of s) (inr (inl refl)) (still_second s)
        (λ h. (new_apart s h v).1) v

  init_pipe-there : (l : Loop K) (fd h : ℕ) → l.pipe ≡ some h → init_pipe e l fd ≡ l
  unfolding init_pipe pipe_found
  init_pipe-there l fd h there = ap (pipe_found e l fd) there

  pub Serving-pipe :
      (s : Server K) (fd : ℕ)
      → (s.loop.pipe ≡ none → e.admits s.loop.epoll fd ≡ true)
      → (s.loop.pipe ≡ none → e.watched s.loop.epoll fd ≡ none)
      → Serving e k s
      → Serving e k (open_pipe e s fd)
  unfolding open_pipe
  Serving-pipe s fd admitted unwatched v = elim (Option-cases s.loop.pipe) [
    | inl dry ↦
        subst
          (λ (others : List ℕ).
            Serving e k (record s { loop = init_pipe e s.loop fd; others = others }))
          (ap (λ (o : Option ℕ). with_pipe o s.loop.next s.others) (sym dry))
          (Serving-dry s fd dry (admitted dry) (unwatched dry) v)
    | inr (h, there) ↦
        subst
          (λ (others : List ℕ).
            Serving e k (record s { loop = init_pipe e s.loop fd; others = others }))
          (ap (λ (o : Option ℕ). with_pipe o s.loop.next s.others) (sym there))
          (subst (λ (l : Loop K). Serving e k (record s { loop = l }))
            (sym (init_pipe-there s.loop fd h there)) v)
  ]
