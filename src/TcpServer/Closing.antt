-- ===== src/TcpServer/Closing.antt =====
-- What the changes of a server do to the loop.
use lssvc.EventLoop.{
  Epoll, Event, Interest, Loop, add_event, add_found, close, del_event, del_found, enable,
  enable_found, enable_writing, fd_of, init_pipe, is_above_one, mask_of, new_event, no_interest,
  pipe_found, put, set_mask, set_writing,
}
use lssvc.Common.{
  ==_self, Bool, Bool-cases, Option, ap, false, if◌then◌else◌, inl, inr, none, refl, some, suc, sym,
  true, ℕ, ◌==◌, ◌∙◌, ◌≡◌,
}
use lssvc.EventLoop.Agreement.{put-fd, same_number}
use lssvc.EventLoop.Levels.{put_self}

if-fd : (b : Bool) (x y : Event) → (if b then x else y).fd ≡ (if b then x.fd else y.fd)
if-fd true x y = refl
if-fd false x y = refl

put_other {ℓ} : {A : Type ℓ} (f : ℕ → A) (i j : ℕ) (v : A) → (j == i) ≡ false → put f i v j ≡ f j
put_other f i j v other = rw other

if_alike : (b : Bool) (x y : ℕ) → (b ≡ true → x ≡ y) → (if b then x else y) ≡ y
if_alike true x y same = same refl
if_alike false x y same = refl

module _ {K : Type 0} (e : Epoll K) where
  -- The loop after the event of an accepted connection was added.
  abbrev pub with_new : Loop K → ℕ → Loop K
  with_new l fd = add_event e (new_event l fd) l.next

  new_event-fd :
      (l : Loop K) (fd h : ℕ) → fd_of (new_event l fd) h ≡ (if h == l.next then fd else fd_of l h)
  unfolding new_event
  new_event-fd l fd h = if-fd (h == l.next) (record { fd = fd; mask = no_interest }) (l.objects h)

  pub new_event-own : (l : Loop K) (fd : ℕ) → fd_of (new_event l fd) l.next ≡ fd
  new_event-own l fd = new_event-fd l fd l.next ∙ rw (==_self l.next) refl

  new_event-free :
      (l : Loop K) (fd : ℕ)
      → l.events fd ≡ none
      → (new_event l fd).events (fd_of (new_event l fd) l.next) ≡ none
  unfolding new_event
  new_event-free l fd free = ap l.events (new_event-own l fd) ∙ free

  pub with_new-events :
      (l : Loop K) (fd g : ℕ)
      → l.events fd ≡ none
      → (with_new l fd).events g ≡ put l.events fd (some l.next) g
  unfolding add_event add_found new_event
  with_new-events l fd g free =
      ap (λ (o : Option ℕ). (add_found e (new_event l fd) l.next o).events g)
        (new_event-free l fd free)
      ∙ ap (λ (f : ℕ). put l.events f (some l.next) g) (new_event-own l fd)

  pub with_new-fd :
      (l : Loop K) (fd h : ℕ)
      → l.events fd ≡ none
      → fd_of (with_new l fd) h ≡ (if h == l.next then fd else fd_of l h)
  unfolding add_event add_found
  with_new-fd l fd h free =
      ap (λ (o : Option ℕ). fd_of (add_found e (new_event l fd) l.next o) h)
        (new_event-free l fd free)
      ∙ put-fd (new_event l fd).objects l.next _ h
      ∙ new_event-fd l fd h

  add_found-next : (l : Loop K) (h : ℕ) (o : Option ℕ) → (add_found e l h o).next ≡ l.next
  unfolding add_found
  add_found-next l h none = refl
  add_found-next l h (some i) = refl

  pub with_new-next : (l : Loop K) (fd : ℕ) → (with_new l fd).next ≡ suc l.next
  unfolding add_event new_event
  with_new-next l fd =
      add_found-next (new_event l fd) l.next
        ((new_event l fd).events (fd_of (new_event l fd) l.next))

  -- The pipe of a loop that has none is an event like another.
  add_found-pipe :
      (l : Loop K) (p : Option ℕ) (h : ℕ) (o : Option ℕ)
      → ((add_found e (record l { pipe = p }) h o).events ≡ (add_found e l h o).events)
        × ((add_found e (record l { pipe = p }) h o).objects ≡ (add_found e l h o).objects)
        × ((add_found e (record l { pipe = p }) h o).next ≡ (add_found e l h o).next)
  unfolding add_found
  add_found-pipe l p h none = (refl, refl, refl)
  add_found-pipe l p h (some i) = (refl, refl, refl)

  pipe_found-like_new :
      (l : Loop K) (fd : ℕ) (o : Option ℕ)
      → o ≡ none
      → ((pipe_found e l fd o).events ≡ (with_new l fd).events)
        × ((pipe_found e l fd o).objects ≡ (with_new l fd).objects)
        × ((pipe_found e l fd o).next ≡ (with_new l fd).next)
  unfolding pipe_found add_event
  pipe_found-like_new l fd (some there) dry = cc
  pipe_found-like_new l fd none dry =
      add_found-pipe (new_event l fd) (some l.next) l.next
        ((new_event l fd).events (fd_of (new_event l fd) l.next))

  pub init_pipe-like_new :
      (l : Loop K) (fd : ℕ)
      → l.pipe ≡ none
      → ((init_pipe e l fd).events ≡ (with_new l fd).events)
        × ((init_pipe e l fd).objects ≡ (with_new l fd).objects)
        × ((init_pipe e l fd).next ≡ (with_new l fd).next)
  unfolding init_pipe
  init_pipe-like_new l fd dry = pipe_found-like_new l fd l.pipe dry

  -- Another mask leaves the registry as it is.
  masked-fd : (l : Loop K) (h g : ℕ) (m : Interest) → fd_of (set_mask l h m) g ≡ fd_of l g
  masked-fd l h g m =
      if-fd (g == h) (record (l.objects h) { mask = m }) (l.objects g)
      ∙ if_alike (g == h) (fd_of l h) (fd_of l g)
          (λ same. ap (fd_of l) (sym (same_number g h same)))

  enable_found-registry :
      (l : Loop K) (h : ℕ) (m : Interest) (o : Option ℕ)
      → ((enable_found e l h m o).0.events ≡ l.events)
        × ((g : ℕ) → fd_of (enable_found e l h m o).0 g ≡ fd_of l g)
        × ((enable_found e l h m o).0.next ≡ l.next)
  unfolding enable_found
  enable_found-registry l h m none = (refl, λ g. refl, refl)
  enable_found-registry l h m (some i) = (refl, λ g. masked-fd l h g m, refl)

  pub enable_writing-registry :
      (l : Loop K) (h : ℕ) (en : Bool)
      → ((enable_writing e l h en).0.events ≡ l.events)
        × ((g : ℕ) → fd_of (enable_writing e l h en).0 g ≡ fd_of l g)
        × ((enable_writing e l h en).0.next ≡ l.next)
  unfolding enable_writing enable
  enable_writing-registry l h en =
      enable_found-registry l h (set_writing en (mask_of l h)) (l.events (fd_of l h))

  -- Closing a socket leaves the registry as it is.
  close-registry :
      (l : Loop K) (h : ℕ)
      → ((close e l h).events ≡ l.events)
        × ((close e l h).next ≡ l.next)
        × ((g : ℕ) → (g == h) ≡ false → fd_of (close e l h) g ≡ fd_of l g)
  unfolding close
  close-registry l h = elim (Bool-cases (is_above_one (fd_of l h))) [
    | inl large ↦ rw large (refl, refl, λ g other. ap Event.fd (put_other l.objects h g _ other))
    | inr small ↦ rw small (refl, refl, λ g other. refl)
  ]

  del_found-objects :
      (l : Loop K) (h : ℕ) (o : Option ℕ)
      → ((del_found e l h o).objects ≡ l.objects) × ((del_found e l h o).next ≡ l.next)
  unfolding del_found
  del_found-objects l h none = (refl, refl)
  del_found-objects l h (some i) = (refl, refl)

  -- The loop after a connection was deleted and its socket closed.
  abbrev pub without : Loop K → ℕ → Loop K
  without l h = close e (del_event e l h) h

  pub without-events :
      (l : Loop K) (h g i : ℕ)
      → l.events (fd_of l h) ≡ some i
      → (without l h).events g ≡ put l.events (fd_of l h) none g
  unfolding del_event del_found
  without-events l h g i there =
      ap (λ (events : ℕ → Option ℕ). events g) (close-registry (del_event e l h) h).0
      ∙ ap (λ (o : Option ℕ). (del_found e l h o).events g) there

  pub without-fd : (l : Loop K) (h g : ℕ) → (g == h) ≡ false → fd_of (without l h) g ≡ fd_of l g
  unfolding del_event
  without-fd l h g other =
      (close-registry (del_event e l h) h).2 g other
      ∙ ap (λ (objects : ℕ → Event). (objects g).fd)
          (del_found-objects l h (l.events (fd_of l h))).0

  pub without-next : (l : Loop K) (h : ℕ) → (without l h).next ≡ l.next
  unfolding del_event
  without-next l h =
      (close-registry (del_event e l h) h).1 ∙ (del_found-objects l h (l.events (fd_of l h))).1

  pub del_event-free :
      (l : Loop K) (h i : ℕ)
      → l.events (fd_of l h) ≡ some i
      → (del_event e l h).events (fd_of (del_event e l h) h) ≡ none
  unfolding del_event del_found
  del_event-free l h i there =
      ap (λ (o : Option ℕ). (del_found e l h o).events (fd_of (del_found e l h o) h)) there
      ∙ put_self l.events (fd_of l h) none
