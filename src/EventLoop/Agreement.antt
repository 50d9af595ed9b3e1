-- ===== src/EventLoop/Agreement.antt =====
-- What epoll watches is what the registry of the loop says.
use lssvc.EventLoop.{
  Epoll, EpollLaws, Event, Interest, Loop, add_found, close, del_found, enable_found, fd_of,
  is_above_one, mask_of, new_event, no_fd, put, set_mask, set_reading,
}
use mathlib.Core.Path.{fun_ext, subst}
use lssvc.Common.{
  ==_self, Bool-cases, Option, ap, arith, false, if◌then◌else◌, inl, inr, none, refl, some, some_eq,
  suc, sym, true, ℕ, ◌<◌, ◌==◌, ◌∙◌, ◌≡◌, ◌⊎◌,
}

-- The interest of the object that is registered, if one is.
unfoldable pub interest : (ℕ → Event) → Option ℕ → Option Interest
interest objects none = none
interest objects (some h) = some (objects h).mask

pub record Agrees {K : Type 0} (e : Epoll K) (l : Loop K) : Type 0 where
  pub same : (fd : ℕ) → e.watched l.epoll fd ≡ interest l.objects (l.events fd)
  pub own : (fd h : ℕ) → l.events fd ≡ some h → (fd_of l h ≡ fd) × (h < l.next)

pub same_number : (a b : ℕ) → (a == b) ≡ true → a ≡ b
same_number a b e = ground arith

interest-put :
    (objects : ℕ → Event) (h : ℕ) (v : Event) (o : Option ℕ)
    → (o ≡ some h → ⊥)
    → interest (put objects h v) o ≡ interest objects o
unfolding interest
interest-put objects h v none other = refl
interest-put objects h v (some g) other = elim (Bool-cases (g == h)) [
  | inl e ↦ absurd (other (ap some (same_number g h e)))
  | inr e ↦ rw e
]

interest-put_self :
    (objects : ℕ → Event) (h : ℕ) (v : Event) → interest (put objects h v) (some h) ≡ some v.mask
unfolding interest
interest-put_self objects h v = rw (==_self h)

pub put-fd :
    (objects : ℕ → Event) (h : ℕ) (m : Interest) (i : ℕ)
    → (put objects h (record (objects h) { mask = m }) i).fd ≡ (objects i).fd
put-fd objects h m i = elim (Bool-cases (i == h)) [
  | inl is ↦ rw is (ap (λ (k : ℕ). (objects k).fd) (sym (same_number i h is)))
  | inr other ↦ rw other
]

module _ {K : Type 0} (e : Epoll K) (laws : EpollLaws e) where
  -- The object of one descriptor is registered for no other.
  own_fd : (l : Loop K) (h g : ℕ) → Agrees e l → (g == fd_of l h) ≡ false → l.events g ≡ some h → ⊥
  own_fd l h g a other there = ground (arith, a.own g h there)

  pub Agrees-new_event : (l : Loop K) (fd : ℕ) → Agrees e l → Agrees e (new_event l fd)
  unfolding new_event
  Agrees-new_event l fd a = record {
    same = λ g.
        a.same g
        ∙ sym (
            interest-put l.objects l.next _ (l.events g) (λ there. fresh g (a.own g l.next there)));
    own = λ g h there. old g h there (a.own g h there);
  }
    where
      fresh : (g : ℕ) → (fd_of l l.next ≡ g) × (l.next < l.next) → ⊥
      fresh g (_, less) = absurd (omega (arith, less))

      old :
          (g h : ℕ)
          → l.events g ≡ some h
          → (fd_of l h ≡ g) × (h < l.next)
          → (fd_of (new_event l fd) h ≡ g) × (h < suc l.next)
      old g h there (is, less) = (ground (arith, is, less), omega (arith, less))

  -- What epoll is told of an object is what the registry then has of it.
  Agrees-told :
      (l : Loop K) (h : ℕ) (m : Interest) (k : K)
      → h < l.next
      → ((g : ℕ) → e.watched k g ≡ (if g == fd_of l h then some m else e.watched l.epoll g))
      → Agrees e l
      → Agrees e (record (set_mask l h m) { events = put l.events (fd_of l h) (some h); epoll = k })
  Agrees-told l h m k small told a = record {
    same = λ g. told g ∙ agree g;
    own = λ g i there. kept g i there;
  }
    where
      v : Event
      v = record (l.objects h) { mask = m }

      agree :
          (g : ℕ)
          → (if g == fd_of l h then some m else e.watched l.epoll g)
            ≡ interest (put l.objects h v) (put l.events (fd_of l h) (some h) g)
      agree g = elim (Bool-cases (g == fd_of l h)) [
        | inl is ↦ rw is (sym (interest-put_self l.objects h v))
        | inr other ↦
            rw other
              (a.same g ∙ sym (interest-put l.objects h v (l.events g) (own_fd l h g a other)))
      ]

      at_fd : (g : ℕ) → (g == fd_of l h) ≡ true → put l.events (fd_of l h) (some h) g ≡ some h
      at_fd g is = rw is

      elsewhere :
          (g : ℕ) → (g == fd_of l h) ≡ false → put l.events (fd_of l h) (some h) g ≡ l.events g
      elsewhere g other = rw other

      same_fd : (i : ℕ) → (put l.objects h v i).fd ≡ fd_of l i
      same_fd i = put-fd l.objects h m i

      kept :
          (g i : ℕ)
          → put l.events (fd_of l h) (some h) g ≡ some i
          → ((put l.objects h v i).fd ≡ g) × (i < l.next)
      kept g i there = elim (Bool-cases (g == fd_of l h)) [
        | inl is ↦
            let mine : h ≡ i = some_eq h i (sym (at_fd g is) ∙ there) in
            (rw (sym mine) (same_fd h ∙ sym (same_number g (fd_of l h) is)), rw (sym mine) small)
        | inr other ↦
            let before = a.own g i (sym (elsewhere g other) ∙ there) in
            (same_fd i ∙ before.0, before.1)
      ]

  pub Agrees-add_found :
      (l : Loop K) (h : ℕ) (o : Option ℕ)
      → l.events (fd_of l h) ≡ o
      → h < l.next
      → e.admits l.epoll (fd_of l h) ≡ true
      → Agrees e l
      → Agrees e (add_found e l h o)
  unfolding add_found interest
  Agrees-add_found l h (some i) there small admitted a = a
  Agrees-add_found l h none free small admitted a =
      Agrees-told l h _ _ small
        (λ g.
          laws.add_lem l.epoll (fd_of l h) g (set_reading true (mask_of l h)) admitted
            (a.same (fd_of l h) ∙ ap (interest l.objects) free))
        a

  pub Agrees-del_found :
      (l : Loop K) (h : ℕ) (o : Option ℕ)
      → l.events (fd_of l h) ≡ o
      → Agrees e l
      → Agrees e (del_found e l h o)
  unfolding del_found interest
  Agrees-del_found l h none free a = a
  Agrees-del_found l h (some i) there a = record {
    same = λ g.
        laws.del_lem l.epoll (fd_of l h) g (mask_of l i)
          (a.same (fd_of l h) ∙ ap (interest l.objects) there)
        ∙ agree g;
    own = λ g j kept. a.own g j (before g j kept);
  }
    where
      agree :
          (g : ℕ)
          → (if g == fd_of l h then none else e.watched l.epoll g)
            ≡ interest l.objects (put l.events (fd_of l h) none g)
      agree g = elim (Bool-cases (g == fd_of l h)) [
        | inl is ↦ rw is refl
        | inr other ↦ rw other (a.same g)
      ]

      before : (g j : ℕ) → put l.events (fd_of l h) none g ≡ some j → l.events g ≡ some j
      before g j kept = ground (arith, kept)

  pub Agrees-enable_found :
      (l : Loop K) (h : ℕ) (m : Interest) (o : Option ℕ)
      → l.events (fd_of l h) ≡ o
      → (o ≡ none) ⊎ (o ≡ some h)
      → Agrees e l
      → Agrees e (enable_found e l h m o).0
  unfolding enable_found interest
  Agrees-enable_found l h m none is _ a = a
  Agrees-enable_found l h m (some i) is (inl bad) a = cc
  Agrees-enable_found l h m (some i) is (inr mine) a =
      subst
        (λ (events : ℕ → Option ℕ).
          Agrees e
            (record (set_mask l h m) { events = events; epoll = e.ctl_mod l.epoll (fd_of l h) m }))
        (fun_ext (λ g. unchanged g))
        (Agrees-told l h m _ (a.own (fd_of l h) h (is ∙ mine)).1
          (λ g.
            laws.mod_lem l.epoll (fd_of l h) g m (mask_of l h)
              (a.same (fd_of l h) ∙ ap (interest l.objects) (is ∙ mine)))
          a)
    where
      unchanged : (g : ℕ) → put l.events (fd_of l h) (some h) g ≡ l.events g
      unchanged g = elim (Bool-cases (g == fd_of l h)) [
        | inl here ↦ rw here (sym (is ∙ mine) ∙ ap l.events (sym (same_number g (fd_of l h) here)))
        | inr other ↦ rw other
      ]

  pub Agrees-close :
      (l : Loop K) (h : ℕ) → l.events (fd_of l h) ≡ none → Agrees e l → Agrees e (close e l h)
  unfolding close interest
  Agrees-close l h free a = elim (Bool-cases (is_above_one (fd_of l h))) [
    | inr small ↦ subst (Agrees e) (sym (rw small)) a
    | inl large ↦ subst (Agrees e) (sym (rw large)) closed
  ]
    where
      closed : Agrees e (record l {
        objects = put l.objects h (record (l.objects h) { fd = no_fd });
        epoll = e.close_fd l.epoll (fd_of l h);
      })
      closed = record {
        same = λ g. laws.close_lem l.epoll (fd_of l h) g ∙ agree g;
        own = λ g i there. kept g i there (a.own g i there);
      }
        where
          at_g : (g : ℕ) → (g == fd_of l h) ≡ true → l.events g ≡ none
          at_g g here = ap l.events (same_number g (fd_of l h) here) ∙ free

          agree :
              (g : ℕ)
              → (if g == fd_of l h then none else e.watched l.epoll g)
                ≡ interest (put l.objects h (record (l.objects h) { fd = no_fd })) (l.events g)
          agree g = elim (Bool-cases (g == fd_of l h)) [
            | inl here ↦ rw (here, at_g g here) refl
            | inr other ↦
                rw other
                  (a.same g ∙ sym (interest-put l.objects h _ (l.events g) (own_fd l h g a other)))
          ]

          kept :
              (g i : ℕ)
              → l.events g ≡ some i
              → (fd_of l i ≡ g) × (i < l.next)
              → ((put l.objects h (record (l.objects h) { fd = no_fd }) i).fd ≡ g) × (i < l.next)
          kept g i there (is, small) = elim (Bool-cases (i == h)) [
            | inl mine ↦
                let bad : none ≡ some i =
                  sym free ∙ ap l.events (ap (fd_of l) (sym (same_number i h mine)) ∙ is) ∙ there in
                cc
            | inr other ↦ (rw other is, small)
          ]
