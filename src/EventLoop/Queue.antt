-- ===== src/EventLoop/Queue.antt =====
-- The tasks that other threads hand to a loop, and a turn of `loop` in lssvc_eventloop.cpp. `none`
-- is an access outside a wheel. The lock makes a call of enqueueTask one step, before a turn's
-- runTask or behind it.
pub mod Order
pub mod Timers
use lssvc.TimingWheel.{Timer, Wheels, add_timer, on_timer, run_after, run_every}
use lssvc.EventLoop.{Call, Epoll, Loop, Ready, dispatch, grow, init_pipe}
use lssvc.Common.{Bool, List, Option, [], false, length, map, none, some, true, ℕ, ◌++◌, ◌>>=◌, ◌∷◌}

-- What `enqueueTask` is called with: a function, or what insertEntry, runAfter and runEvery make.
pub data Task : Type 0 where
  call : ℕ → Task
  insert_timer : ℕ → Timer → Task
  after : ℕ → ℕ → Task
  each : ℕ → ℕ → Task

-- What has run: a task at once in the thread of the loop, one from the queue, or a timer's.
pub data Ran : Type 0 where
  at_once : Task → Ran
  queued : Task → Ran
  timer : ℕ → Ran

pub record Worker (K : Type 0) : Type 0 where
  pub registry : Loop K
  pub tasks : List Task
  pub wheel : Wheels
  pub ran : List Ran

unfoldable pub logged : {K : Type 0} → Worker K → Option (Wheels × List ℕ) → Option (Worker K)
logged w none = none
logged w (some (wheel, ids)) = some (record w { wheel = wheel; ran = w.ran ++ map timer ids })

-- `f()`; the entry of an insertion goes with the function that holds it.
unfoldable pub perform : {K : Type 0} → Worker K → Task → Option (Worker K)
perform w (call i) = some w
perform w (insert_timer delay t) = logged w (add_timer w.wheel delay t)
perform w (after delay i) = logged w (run_after w.wheel delay i)
perform w (each interval i) = logged w (run_every w.wheel interval i)

-- `enqueueTask`, where the flag says that the caller is the thread of the loop. Another thread
-- wakes the loop up, through a pipe whose read end is `fd` if there is none yet.
unfoldable pub enqueue_task :
    {K : Type 0} → Epoll K → Worker K → Bool → ℕ → Task → Option (Worker K)
enqueue_task e w true fd t = perform (record w { ran = w.ran ++ (at_once t ∷ []) }) t
enqueue_task e w false fd t =
    some (record w { tasks = w.tasks ++ (t ∷ []); registry = init_pipe e w.registry fd })

-- The loop of `runTask`, over the tasks that are there; the lock keeps others out meanwhile.
unfoldable pub run_tasks : {K : Type 0} → Worker K → List Task → Option (Worker K)
run_tasks w [] = some w
run_tasks w (t ∷ ts) =
    perform (record w { ran = w.ran ++ (queued t ∷ []); tasks = ts }) t >>= λ w'. run_tasks w' ts

unfoldable pub run_task : {K : Type 0} → Worker K → Option (Worker K)
run_task w = run_tasks w w.tasks

abbrev pub registered : {K : Type 0} → Worker K → ℕ → Option ℕ
registered w = w.registry.events

abbrev pub grown : {K : Type 0} → Worker K → ℕ → Worker K
grown w nready = record w { registry = grow w.registry nready }

-- A turn, by what epoll_wait returned: the entries, or nothing where it failed.
unfoldable pub turn_loop :
    {K : Type 0}
    → (Call → Worker K → Worker K)
    → Worker K
    → Option (List (ℕ × Ready))
    → ℕ
    → Option (Worker K)
turn_loop handler w none now = some w
turn_loop handler w (some ready) now =
    run_task (grown (dispatch registered handler w ready).0 (length ready)) >>= λ w'.
    logged w' (on_timer w'.wheel now)
