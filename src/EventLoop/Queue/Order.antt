-- ===== src/EventLoop/Queue/Order.antt =====
-- The order in which the tasks of a loop run.
use mathlib.Core.List.{append-nil, append_assoc}
use lssvc.EventLoop.Queue.{
  Ran, Task, Worker, after, at_once, call, each, enqueue_task, grown, insert_timer, logged, perform,
  queued, registered, run_task, run_tasks, timer, turn_loop,
}
use lssvc.EventLoop.{
  Call, Epoll, Ready, call_for, dispatch, dispatch_one, init_pipe, looked_up, make_call,
}
use lssvc.Common.{
  >>=-some, All, All-append, List, Option, [], ap, false, length, map, none, refl, some, sym, true,
  ℕ, ◌++◌, ◌>>=◌, ◌∙◌, ◌∷◌, ◌≡◌,
}
use lssvc.TimingWheel.Fires.{IsCalm, on_timer-Survives}
use lssvc.TimingWheel.{Wheels, on_timer}

-- What happens to a loop: a function is handed to it, by its own thread or by another, or it turns.
pub data Move : Type 0 where
  inside : ℕ → Move
  elsewhere : ℕ → ℕ → Move
  turns : Option (List (ℕ × Ready)) → ℕ → Move

-- The tasks that were run from the queue.
unfoldable pub from_queue : List Ran → List Task
from_queue [] = []
from_queue (queued t ∷ rs) = t ∷ from_queue rs
from_queue (at_once t ∷ rs) = from_queue rs
from_queue (timer i ∷ rs) = from_queue rs

unfoldable pub posted : List Move → List Task
posted [] = []
posted (inside i ∷ ms) = posted ms
posted (elsewhere fd i ∷ ms) = call i ∷ posted ms
posted (turns ready now ∷ ms) = posted ms

module _ {K : Type 0} (e : Epoll K) (handler : Call → Worker K → Worker K) where
  unfoldable pub move : Worker K → Move → Option (Worker K)
  move w (inside i) = enqueue_task e w true 0 (call i)
  move w (elsewhere fd i) = enqueue_task e w false fd (call i)
  move w (turns ready now) = turn_loop handler w ready now

  unfoldable pub run : Worker K → List Move → Option (Worker K)
  run w [] = some w
  run w (m ∷ ms) = move w m >>= λ w'. run w' ms

-- What has run from the queue or is still in it.
abbrev pub history : {K : Type 0} → Worker K → List Task
history w = from_queue w.ran ++ w.tasks

abbrev IsCall : Task → Type 0
IsCall (call i) = Unit {0}
IsCall _ = ⊥

pub record IsPlain {K : Type 0} (w : Worker K) : Type 0 where
  pub calm : IsCalm w.wheel
  pub calls : All IsCall w.tasks

-- A handler leaves the queue alone. It may hand tasks to its own loop, which run at once.
pub record IsQuiet {K : Type 0} (handler : Call → Worker K → Worker K) : Type 0 where
  pub tasks : (c : Call) (w : Worker K) → (handler c w).tasks ≡ w.tasks
  pub ran : (c : Call) (w : Worker K) → from_queue (handler c w).ran ≡ from_queue w.ran
  pub calm : (c : Call) (w : Worker K) → IsCalm w.wheel → IsCalm (handler c w).wheel

from_queue-append : (rs rs' : List Ran) → from_queue (rs ++ rs') ≡ from_queue rs ++ from_queue rs'
unfolding from_queue
from_queue-append [] rs' = refl
from_queue-append (queued t ∷ rs) rs' = ap (◌∷◌ t) (from_queue-append rs rs')
from_queue-append (at_once t ∷ rs) rs' = from_queue-append rs rs'
from_queue-append (timer i ∷ rs) rs' = from_queue-append rs rs'

from_queue-timers : (ids : List ℕ) → from_queue (map timer ids) ≡ []
unfolding from_queue
from_queue-timers [] = refl
from_queue-timers (i ∷ ids) = from_queue-timers ids

-- The queue is emptied, in order.
run_tasks-calls :
    {K : Type 0} (ts : List Task) (w : Worker K)
    → All IsCall ts
    → w.tasks ≡ ts
    → (w' : Worker K) × (run_tasks w ts ≡ some w')
      × (w'.tasks ≡ [])
      × (w'.wheel ≡ w.wheel)
      × (from_queue w'.ran ≡ from_queue w.ran ++ ts)
unfolding run_tasks perform from_queue
run_tasks-calls [] w plain is = (w, refl, is, refl, sym (append-nil (from_queue w.ran)))
run_tasks-calls (call i ∷ ts) w plain is =
    let (w', done, empty, wheel, order) =
      run_tasks-calls ts (record w { ran = w.ran ++ (queued (call i) ∷ []); tasks = ts }) plain.1
        refl in
    (
      w',
      done,
      empty,
      wheel,
      order
          ∙ ap (λ (xs : List Task). xs ++ ts) (from_queue-append w.ran (queued (call i) ∷ []))
          ∙ append_assoc (from_queue w.ran) (call i ∷ []) ts,
    )
run_tasks-calls (insert_timer n t ∷ ts) w plain is = absurd plain.0
run_tasks-calls (after n i ∷ ts) w plain is = absurd plain.0
run_tasks-calls (each n i ∷ ts) w plain is = absurd plain.0

-- A turn, by what its tasks and the wheels come to.
pub turned_loop :
    {K : Type 0} (handler : Call → Worker K → Worker K) (w : Worker K) (ready : List (ℕ × Ready))
    (now : ℕ) (w' : Worker K) (wheel : Wheels) (ids : List ℕ)
    → run_task (grown (dispatch registered handler w ready).0 (length ready)) ≡ some w'
    → on_timer w'.wheel now ≡ some (wheel, ids)
    → turn_loop handler w (some ready) now
      ≡ some (record w' { wheel = wheel; ran = w'.ran ++ map timer ids })
unfolding turn_loop logged
turned_loop handler w ready now w' wheel ids done turned = rw done (rw turned refl)

module _ {K : Type 0} (e : Epoll K) (handler : Call → Worker K → Worker K)
    (quiet : IsQuiet handler) where
  make_call-quiet :
      (w : Worker K) (o : Option Call)
      → IsCalm w.wheel
      → (let w' = (make_call registered handler w o).0 in
          (w'.tasks ≡ w.tasks) × (from_queue w'.ran ≡ from_queue w.ran) × IsCalm w'.wheel)
  unfolding make_call
  make_call-quiet w none calm = (refl, refl, calm)
  make_call-quiet w (some c) calm = (quiet.tasks c w, quiet.ran c w, quiet.calm c w calm)

  dispatch-quiet :
      (ready : List (ℕ × Ready)) (w : Worker K)
      → IsCalm w.wheel
      → (let w' = (dispatch registered handler w ready).0 in
          (w'.tasks ≡ w.tasks) × (from_queue w'.ran ≡ from_queue w.ran) × IsCalm w'.wheel)
  unfolding dispatch dispatch_one
  dispatch-quiet [] w calm = (refl, refl, calm)
  dispatch-quiet ((fd, r) ∷ ready) w calm =
      let o : Option Call = looked_up registered w fd >>= call_for r in
      let (tasks, ran, calm') = make_call-quiet w o calm in
      let (tasks', ran', calm'') =
        dispatch-quiet ready (make_call registered handler w o).0 calm' in
      (tasks' ∙ tasks, ran' ∙ ran, calm'')

  -- A turn empties the queue.
  turn_loop-empties :
      (w : Worker K) (ready : List (ℕ × Ready)) (now : ℕ)
      → IsPlain w
      → (w' : Worker K) × (turn_loop handler w (some ready) now ≡ some w')
        × IsCalm w'.wheel
        × (w'.tasks ≡ [])
        × (from_queue w'.ran ≡ history w)
  unfolding run_task run_tasks
  turn_loop-empties w ready now plain =
      let (tasks, ran, calm) = dispatch-quiet ready w plain.calm in
      let s : Worker K = grown (dispatch registered handler w ready).0 (length ready) in
      let (s', done, empty, wheel, order) = run_tasks-calls w.tasks s plain.calls tasks in
      let (wheel', ids, turned, calm') = on_timer-Survives s'.wheel now (rw wheel calm) in
      (
        record s' { wheel = wheel'; ran = s'.ran ++ map timer ids },
        turned_loop handler w ready now s' wheel' ids (ap (run_tasks s) tasks ∙ done) turned,
        calm',
        empty,
        from_queue-append s'.ran (map timer ids)
            ∙ ap (◌++◌ (from_queue s'.ran)) (from_queue-timers ids)
            ∙ append-nil (from_queue s'.ran)
            ∙ order
            ∙ ap (λ (xs : List Task). xs ++ w.tasks) ran,
      )

  abbrev Moved : Worker K → List Task → Option (Worker K) → Type 0
  Moved w more o = (w' : Worker K) × (o ≡ some w') × IsPlain w' × (history w' ≡ history w ++ more)

  move-Moved :
      (w : Worker K) (m : Move) → IsPlain w → Moved w (posted (m ∷ [])) (move e handler w m)
  unfolding move posted enqueue_task perform turn_loop from_queue
  move-Moved w (inside i) plain = (
    record w { ran = w.ran ++ (at_once (call i) ∷ []) },
    refl,
    record { calm = plain.calm; calls = plain.calls },
    ap (λ (xs : List Task). xs ++ w.tasks)
          (from_queue-append w.ran (at_once (call i) ∷ []) ∙ append-nil (from_queue w.ran))
        ∙ sym (append-nil (history w)),
  )
  move-Moved w (elsewhere fd i) plain = (
    record w { tasks = w.tasks ++ (call i ∷ []); registry = init_pipe e w.registry fd },
    refl,
    record { calm = plain.calm; calls = All-append IsCall w.tasks _ plain.calls (tt, tt) },
    sym (append_assoc (from_queue w.ran) w.tasks (call i ∷ [])),
  )
  move-Moved w (turns none now) plain = (w, refl, plain, sym (append-nil (history w)))
  move-Moved w (turns (some ready) now) plain =
      let (w', done, calm, empty, order) = turn_loop-empties w ready now plain in
      (
        w',
        done,
        record { calm = calm; calls = rw empty tt },
        ap (λ (xs : List Task). from_queue w'.ran ++ xs) empty
            ∙ append-nil (from_queue w'.ran)
            ∙ order
            ∙ sym (append-nil (history w)),
      )

  posted-cons : (m : Move) (ms : List Move) → posted (m ∷ ms) ≡ posted (m ∷ []) ++ posted ms
  unfolding posted
  posted-cons (inside i) ms = refl
  posted-cons (elsewhere fd i) ms = refl
  posted-cons (turns ready now) ms = refl

  run-Moved : (ms : List Move) (w : Worker K) → IsPlain w → Moved w (posted ms) (run e handler w ms)
  unfolding run posted
  run-Moved [] w plain = (w, refl, plain, sym (append-nil (history w)))
  run-Moved (m ∷ ms) w plain =
      let (s, e1, plain', order) = move-Moved w m plain in
      let (s', e2, plain'', order') = run-Moved ms s plain' in
      (
        s',
        >>=-some (λ (t : Worker K). run e handler t ms) e1 ∙ e2,
        plain'',
        order'
            ∙ ap (λ (xs : List Task). xs ++ posted ms) order
            ∙ append_assoc (history w) (posted (m ∷ [])) (posted ms)
            ∙ ap (λ (xs : List Task). history w ++ xs) (sym (posted-cons m ms)),
      )

-- The wheels of a loop hold one-shot tasks of less than a minute, its queue plain functions, and the
-- handlers of its events leave the queue alone. Then any sequence of functions handed to it, by its
-- own thread or by others, and of turns, with anything that epoll_wait returns, succeeds; and after
-- one more turn whose epoll_wait does not fail, the queue is empty, and the functions that were in
-- it or handed to it by other threads have run from it, each once and in the order of the calls.
pub run-in_order :
    {K : Type 0} (e : Epoll K) (handler : Call → Worker K → Worker K) (ms : List Move)
    (w : Worker K) (ready : List (ℕ × Ready)) (now : ℕ)
    → IsQuiet handler
    → IsPlain w
    → (s : Worker K) × (s' : Worker K) × (run e handler w ms ≡ some s)
      × (turn_loop handler s (some ready) now ≡ some s')
      × (s'.tasks ≡ [])
      × (from_queue s'.ran ≡ history w ++ posted ms)
run-in_order e handler ms w ready now quiet plain =
    let (s, e1, plain', order) = run-Moved e handler quiet ms w plain in
    let (s', e2, _, empty, order') = turn_loop-empties e handler quiet s ready now plain' in
    (s, s', e1, e2, empty, order' ∙ order)
