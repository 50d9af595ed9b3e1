-- ===== src/TcpServer/Serves.antt =====
-- The connections of a server are what its loop serves.
use lssvc.Common.{
  Option, [], ap, false, if◌then◌else◌, inl, inr, none, refl, some, sym, ℕ, ◌∙◌, ◌≡◌, ◌⊎◌,
}
use lssvc.TimingWheel.Slots.{In}
use lssvc.EventLoop.{Epoll, EpollLaws, Event, Interest, enable_writing, fd_of, init, mask_of}
use lssvc.EventLoop.Agreement.{interest}
use lssvc.EventLoop.Reach.{Reaches-Agrees, begins, goes_on, writes}
use lssvc.TcpServer.{Server, init_server}
use lssvc.TcpServer.Sets.{count}
use lssvc.TcpServer.Closing.{enable_writing-registry}
use lssvc.TcpServer.Coming.{Serving-accept, Serving-listen, Serving-pipe}
use lssvc.TcpServer.Serving.{
  Becomes, Change, Known, Serving, Serving-same, accepts, changed, closes_one, listens, pipes,
  unchanged, writes_one,
}
use lssvc.TcpServer.Leaving.{Serving-close, close_connection-again, close_connection-first}
use mathlib.Core.Path.{subst}

module _ {K : Type 0} (e : Epoll K) (k : K) (laws : EpollLaws e)
    (empty : (fd : ℕ) → e.watched k fd ≡ none) where
  Serving-Change : (s t : Server K) → Change e s t → Serving e k s → Serving e k t
  Serving-Change s _ (accepts _ fd admitted unwatched) v =
      Serving-accept e k laws empty s fd admitted unwatched v
  Serving-Change s _ (listens _ fd admitted unwatched) v =
      Serving-listen e k laws empty s fd admitted unwatched v
  Serving-Change s _ (pipes _ fd admitted unwatched) v =
      Serving-pipe e k laws empty s fd admitted unwatched v
  Serving-Change s _ (writes_one _ h en known) v =
      Serving-same e k laws empty s (enable_writing e s.loop h en).0
        (goes_on v.reach (writes s.loop h en (inr (v.alive h known).1)))
        (enable_writing-registry e s.loop h en) v
  Serving-Change s _ (closes_one _ h (inl here)) v =
      subst (Serving e k) (sym (close_connection-first e k laws empty s h (v.alive h (inl here)).0))
        (Serving-close e k laws empty s h here v)
  Serving-Change s _ (closes_one _ h (inr shut)) v =
      subst (Serving e k) (sym (close_connection-again e k laws empty s h shut)) v

  nobody : {A : Type 0} (h : ℕ) → In h [] ⊎ In h [] → A
  nobody h (inl i) = absurd i
  nobody h (inr i) = absurd i

  Becomes-Serving : (s : Server K) → Becomes e (init_server (init k)) s → Serving e k s
  unfolding init count
  Becomes-Serving _ unchanged = record {
    reach = begins;
    alive = λ h i. nobody h i;
    gone = λ h c. cc;
    all = λ g h c. cc;
    apart = λ h i j. absurd i;
    once = λ h. refl;
  }
  Becomes-Serving s (changed {t = t} b c) = Serving-Change t s c (Becomes-Serving t b)

-- What a server keeps to: epoll watches the descriptor of every open connection and of every other
-- event that was opened, for its mask, and watches nothing else; and every connection was handed to
-- the callback for its end once if it is closed, and not at all if it is not.
pub record Serves {K : Type 0} (e : Epoll K) (s : Server K) : Type 0 where
  pub watches :
      (h : ℕ)
      → Known s h
      → (s.closed h ≡ false)
        × (s.loop.events (fd_of s.loop h) ≡ some h)
        × (e.watched s.loop.epoll (fd_of s.loop h) ≡ some (mask_of s.loop h))
  pub only :
      (fd : ℕ) (m : Interest)
      → e.watched s.loop.epoll fd ≡ some m
      → (h : ℕ) × Known s h × (fd_of s.loop h ≡ fd)
  pub once : (h : ℕ) → count h s.destroyed ≡ (if s.closed h then 1 else 0)

interest-some :
    (objects : ℕ → Event) (o : Option ℕ) (m : Interest)
    → interest objects o ≡ some m
    → (h : ℕ) × (o ≡ some h)
unfolding interest
interest-some objects none m e = cc
interest-some objects (some h) m e = (h, refl)

-- Take a server with a new loop and an epoll with the documented behaviour, which watches nothing at
-- first. On the loop acceptors are opened, the pipe is asked for and made where there is none, and
-- connections are accepted, each with a descriptor that epoll can watch and does not watch yet; any of
-- these is watched for writing or not any more; and onClose is called of connections that were
-- accepted, for the first time or again; all in any order and number. Then epoll watches exactly the
-- descriptors of the acceptors, of the pipe and of the connections that are open, each for the mask of
-- its event; and the callback for the end of a connection was called once for every one that is
-- closed and for no other.
pub Becomes-Serves :
    {K : Type 0} (e : Epoll K) (k : K) (s : Server K)
    → EpollLaws e
    → ((fd : ℕ) → e.watched k fd ≡ none)
    → Becomes e (init_server (init k)) s
    → Serves e s
unfolding interest
Becomes-Serves e k s laws empty b =
    let v = Becomes-Serving e k laws empty s b in
    let a = Reaches-Agrees e k s.loop laws empty v.reach in
    record {
      watches = λ h i.
          let (c, there, less) = v.alive h i in
          (c, there, a.same (fd_of s.loop h) ∙ ap (interest s.loop.objects) there);
      only = λ fd m w.
          let (h, there) =
            interest-some s.loop.objects (s.loop.events fd) m (sym (a.same fd) ∙ w) in
          (h, v.all fd h there, (a.own fd h there).0);
      once = v.once;
    }
