-- ===== src/EventLoop/Tests.antt =====
-- The event loop at concrete inputs.
use lssvc.Common.{
  All, Bool, List, Option, [], arith, false, if◌then◌else◌, inr, none, refl, some, true, ℕ, ◌++◌,
  ◌==◌, ◌∷◌, ◌≡◌, ◌≢◌,
}
use lssvc.TimingWheel.Tests.{started, started-IsCalm}
use lssvc.EventLoop.{
  Call, Epoll, EpollLaws, Interest, Loop, Ready, add_event, add_found, call_for, close, del_event,
  del_found, dispatch, dispatch_one, enable, enable_found, enable_writing, fd_of, init, looked_up,
  make_call, new_event, on_read, put,
}
use lssvc.EventLoop.Agreement.{Agrees}
use lssvc.EventLoop.Reach.{
  Reaches, Reaches-Agrees, adds, begins, closes, creates, deletes, goes_on, writes,
}
use lssvc.EventLoop.Dispatch.{IsAbsent, IsOther, dispatch-others, subject}
use lssvc.EventLoop.Levels.{enable_writing-level}
use lssvc.TimingWheel.Slots.{In}
use lssvc.EventLoop.Queue.{Worker, after, call, enqueue_task, timer, turn_loop}
use lssvc.EventLoop.Queue.Order.{
  elsewhere, from_queue, history, inside, posted, run, run-in_order, turns,
}
use lssvc.EventLoop.Queue.Timers.{rounds, run_after_elsewhere}

-- An epoll that is the map of what it watches.
abbrev pub Watched : Type 0
Watched = ℕ → Option Interest

abbrev pub kernel : Epoll Watched
kernel = record {
  ctl_add = λ k fd m. put k fd (some m);
  ctl_mod = λ k fd m. put k fd (some m);
  ctl_del = λ k fd. put k fd none;
  close_fd = λ k fd. put k fd none;
  watched = λ k fd. k fd;
  admits = λ k fd. true;
}

pub kernel-laws : EpollLaws kernel
kernel-laws = record {
  add_lem = λ k fd g m _ _. refl;
  mod_lem = λ k fd g m before _. refl;
  del_lem = λ k fd g before _. refl;
  close_lem = λ k fd g. refl;
}

-- A connection on descriptor 7 that is added, asked to write, and turned off again.
abbrev opened : Loop Watched
opened = new_event (init (λ fd. none)) 7

abbrev added : Loop Watched
added = add_event kernel opened 0

abbrev writing : Loop Watched
writing = (enable_writing kernel added 0 true).0

abbrev idle : Loop Watched
idle = (enable_writing kernel writing 0 false).0

abbrev closed : Loop Watched
closed = close kernel (del_event kernel writing 0) 0

added_at : writing.events 7 ≡ some 0
unfolding enable_writing enable enable_found add_event add_found new_event init
added_at = refl

closed_at : closed.epoll 7 ≡ none
unfolding close del_event del_found enable_writing enable enable_found add_event add_found new_event
    init
closed_at = refl

closed-Reaches : Reaches kernel (init (λ fd. none)) closed
unfolding close del_event del_found enable_writing enable enable_found add_event add_found new_event
    init
closed-Reaches =
    goes_on
      (goes_on
        (goes_on (goes_on (goes_on begins (creates _ 7)) (adds _ 0 (omega arith) refl))
          (writes _ 0 true (inr refl)))
        (deletes _ 0))
      (closes _ 0 refl)

Reaches-Agrees_example : Agrees kernel closed
Reaches-Agrees_example =
    Reaches-Agrees kernel (λ fd. none) closed kernel-laws (λ fd. refl) closed-Reaches

opened_free : opened.events (fd_of opened 0) ≡ none
unfolding new_event init
opened_free = refl

opened_unwatched : kernel.watched opened.epoll (fd_of opened 0) ≡ none
unfolding new_event init
opened_unwatched = refl

enable_writing-level_example :
    kernel.watched idle.epoll (fd_of opened 0)
    ≡ some (record { readable = true; urgent = true; writable = false; edge = false })
enable_writing-level_example =
    enable_writing-level kernel opened 0 kernel-laws refl opened_free opened_unwatched

-- Two entries for one connection, whose handler deletes its event.
abbrev input : Ready
input = record { input = true; urgent = false; output = true; error = false; hang_up = false }

abbrev deleting : Call → Loop Watched → Loop Watched
deleting c l = del_event kernel l (subject c)

-- Input and output at once call onRead, and the second entry calls nothing.
one_call : (dispatch Loop.events deleting added ((7, input) ∷ (7, input) ∷ [])).1 ≡ on_read 0 ∷ []
unfolding dispatch dispatch_one make_call looked_up call_for del_event del_found add_event add_found
    new_event init
one_call = refl

if-absent : (b : Bool) (o : Option ℕ) → o ≢ some 0 → (if b then none else o) ≢ some 0
if-absent true o absent there = cc
if-absent false o absent there = absent there

deleting-IsAbsent :
    (l : Loop Watched) (h : ℕ) (o : Option ℕ)
    → IsAbsent Loop.events 0 l
    → IsAbsent Loop.events 0 (del_found kernel l h o)
unfolding del_found
deleting-IsAbsent l h none absent fd = absent fd
deleting-IsAbsent l h (some i) absent fd = if-absent (fd == fd_of l h) (l.events fd) (absent fd)

deleting-kept :
    (c : Call) (l : Loop Watched) → IsAbsent Loop.events 0 l → IsAbsent Loop.events 0 (deleting c l)
unfolding del_event
deleting-kept c l absent = deleting-IsAbsent l (subject c) (l.events (fd_of l (subject c))) absent

gone_again :
    (b : Bool) → (if◌then◌else◌ {A = Option ℕ} b none (if b then some 0 else none)) ≢ some 0
gone_again true there = cc
gone_again false there = cc

deleted : IsAbsent Loop.events 0 (dispatch Loop.events deleting added ((7, input) ∷ [])).0
unfolding dispatch dispatch_one make_call looked_up call_for del_event del_found add_event add_found
    new_event init
deleted fd = gone_again (fd == 7)

-- The handler for the first entry deletes the event that the second is for.
dispatch-others_example :
    (later : List Call) × ((dispatch Loop.events deleting added ((7, input) ∷ (7, input) ∷ [])).1
      ≡ (dispatch Loop.events deleting added ((7, input) ∷ [])).1 ++ later)
    × All (IsOther 0) later
dispatch-others_example =
    dispatch-others Loop.events deleting 0 ((7, input) ∷ []) ((7, input) ∷ []) added deleting-kept
      deleted

-- A loop whose wheels have turned for the first time at 1000 ms.
abbrev worker : Worker Watched
worker = record { registry = opened; tasks = call 4 ∷ []; wheel = started; ran = [] }

run-in_order_example :
    (s : Worker Watched) × (s' : Worker Watched) × (run kernel
        (λ c w. w)
        worker
        (elsewhere 9 5 ∷ inside 6 ∷ turns none 0 ∷ elsewhere 9 7 ∷ [])
      ≡ some s)
    × (turn_loop (λ c w. w) s (some ((7, input) ∷ [])) 2000 ≡ some s')
    × (s'.tasks ≡ [])
    × (from_queue s'.ran
        ≡ history worker ++ posted (elsewhere 9 5 ∷ inside 6 ∷ turns none 0 ∷ elsewhere 9 7 ∷ []))
run-in_order_example =
    run-in_order kernel (λ c w. w) (elsewhere 9 5 ∷ inside 6 ∷ turns none 0 ∷ elsewhere 9 7 ∷ [])
      worker ((7, input) ∷ []) 2000
      (record { tasks = λ c w. refl; ran = λ c w. refl; calm = λ c w h. h })
      (record { calm = started-IsCalm; calls = (tt, tt) })

in_order :
    posted (elsewhere 9 5 ∷ inside 6 ∷ turns none 0 ∷ elsewhere 9 7 ∷ []) ≡ call 5 ∷ call 7 ∷ []
unfolding posted
in_order = refl

run_after_elsewhere_example :
    (s : Worker Watched) × (s' : Worker Watched) × (enqueue_task kernel
        (record worker { tasks = [] })
        false
        9
        (after 2 3)
      ≡ some s)
    × (rounds (λ c w. w) s (((7, input) ∷ [], 2000) ∷ ([], 3500) ∷ []) ≡ some s')
    × In (timer 3) s'.ran
run_after_elsewhere_example =
    run_after_elsewhere kernel (λ c w. w) (record worker { tasks = [] }) 9 1 3
      (((7, input) ∷ [], 2000) ∷ ([], 3500) ∷ [])
      (record { tasks = λ c w. refl; wheel = λ c w. refl; ran = λ c w r h. h }) refl started-IsCalm
      refl (omega arith) (omega arith) refl (omega arith, (omega arith, tt))
