-- ===== src/EventLoop/Queue/Timers.antt =====
-- A timer that another thread asks for, from the queue of the loop to the wheels.
use mathlib.Core.Path.{subst}
use lssvc.TimingWheel.{Wheels, minute_secs, on_timer, run_after}
use lssvc.TimingWheel.Slots.{In, In-append_left, In-append_right}
use lssvc.TimingWheel.Fires.{IsCalm, RanAt, Spaced, clock, run_after-fires}
use lssvc.EventLoop.{
  Call, Epoll, Ready, call_for, dispatch, dispatch_one, init_pipe, looked_up, make_call,
}
use lssvc.EventLoop.Queue.{
  Ran, Task, Worker, after, enqueue_task, grown, logged, perform, queued, registered, run_task,
  run_tasks, timer, turn_loop,
}
use lssvc.EventLoop.Queue.Order.{turned_loop}
use lssvc.Common.{
  >>=-eq-some, >>=-some, List, Option, [], ap, arith, false, inl, inr, length, map, none, refl,
  some, some_eq, suc, sym, zero, ℕ, ◌++◌, ◌<◌, ◌>>=◌, ◌∙◌, ◌∷◌, ◌≡◌,
}

-- Turns one after the other, each with what is ready and the time.
unfoldable pub rounds :
    {K : Type 0}
    → (Call → Worker K → Worker K)
    → Worker K
    → List (List (ℕ × Ready) × ℕ)
    → Option (Worker K)
rounds handler w [] = some w
rounds handler w ((ready, now) ∷ rs) =
    turn_loop handler w (some ready) now >>= λ w'. rounds handler w' rs

abbrev pub times : List (List (ℕ × Ready) × ℕ) → List ℕ
times [] = []
times ((ready, now) ∷ rs) = now ∷ times rs

length-times : (rs : List (List (ℕ × Ready) × ℕ)) → length (times rs) ≡ length rs
length-times [] = refl
length-times (r ∷ rs) = ap suc (length-times rs)

-- A handler asks for nothing, and takes nothing from what has run.
pub record IsIdle {K : Type 0} (handler : Call → Worker K → Worker K) : Type 0 where
  pub tasks : (c : Call) (w : Worker K) → (handler c w).tasks ≡ w.tasks
  pub wheel : (c : Call) (w : Worker K) → (handler c w).wheel ≡ w.wheel
  pub ran : (c : Call) (w : Worker K) (r : Ran) → In r w.ran → In r (handler c w).ran

In-timers : (i : ℕ) (ids : List ℕ) → In i ids → In (timer i) (map timer ids)
In-timers i [] h = h
In-timers i (j ∷ ids) (inl e) = inl (ap timer e)
In-timers i (j ∷ ids) (inr h) = inr (In-timers i ids h)

abbrev Keeps : {K : Type 0} → Worker K → Worker K → Type 0
Keeps w w' = (w'.tasks ≡ w.tasks) × (w'.wheel ≡ w.wheel) × ((r : Ran) → In r w.ran → In r w'.ran)

-- Whatever a batch of handlers makes of the state, its queue runs and leaves these wheels.
abbrev Readies : {K : Type 0} → Worker K → Wheels → Type 0
Readies {K = K} w wheel =
    (s : Worker K)
    → Keeps w s
    → (s' : Worker K) × (run_task s ≡ some s')
      × (s'.tasks ≡ [])
      × (s'.wheel ≡ wheel)
      × ((r : Ran) → In r s.ran → In r s'.ran)

Readies-idle : {K : Type 0} (w : Worker K) → w.tasks ≡ [] → Readies w w.wheel
unfolding run_task run_tasks
Readies-idle w empty s (tasks, wheel, ran) =
    (s, ap (run_tasks s) (tasks ∙ empty), tasks ∙ empty, wheel, λ r h. h)

Readies-after :
    {K : Type 0} (w : Worker K) (delay task : ℕ) (wheel : Wheels)
    → w.tasks ≡ after delay task ∷ []
    → run_after w.wheel delay task ≡ some (wheel, [])
    → Readies w wheel
unfolding run_task run_tasks perform logged
Readies-after w delay task wheel there asked s (tasks, same, ran) =
    let s' : Worker _ = record s {
      tasks = [];
      wheel = wheel;
      ran = (s.ran ++ (queued (after delay task) ∷ [])) ++ [];
    } in
    (
      s',
      ap (run_tasks s) (tasks ∙ there)
          ∙ rw (ap (λ (x : Wheels). run_after x delay task) same ∙ asked) refl,
      refl,
      refl,
      λ r h. In-append_left r (s.ran ++ _) [] (In-append_left r s.ran _ h),
    )

module _ {K : Type 0} (handler : Call → Worker K → Worker K) (idle : IsIdle handler) where
  make_call-idle : (w : Worker K) (o : Option Call) → Keeps w (make_call registered handler w o).0
  unfolding make_call
  make_call-idle w none = (refl, refl, λ r h. h)
  make_call-idle w (some c) = (idle.tasks c w, idle.wheel c w, idle.ran c w)

  dispatch-idle :
      (ready : List (ℕ × Ready)) (w : Worker K) → Keeps w (dispatch registered handler w ready).0
  unfolding dispatch dispatch_one
  dispatch-idle [] w = (refl, refl, λ r h. h)
  dispatch-idle ((fd, r) ∷ ready) w =
      let o : Option Call = looked_up registered w fd >>= call_for r in
      let (tasks, wheel, ran) = make_call-idle w o in
      let (tasks', wheel', ran') = dispatch-idle ready (make_call registered handler w o).0 in
      (tasks' ∙ tasks, wheel' ∙ wheel, λ x h. ran' x (ran x h))

  -- A turn whose tasks take the wheels to `wheel`.
  turn-idle :
      (w : Worker K) (ready : List (ℕ × Ready)) (now : ℕ) (wheel wheel' : Wheels) (ids : List ℕ)
      → Readies w wheel
      → on_timer wheel now ≡ some (wheel', ids)
      → (w' : Worker K) × (turn_loop handler w (some ready) now ≡ some w')
        × (w'.tasks ≡ [])
        × (w'.wheel ≡ wheel')
        × ((r : Ran) → In r w.ran → In r w'.ran)
        × ((i : ℕ) → In i ids → In (timer i) w'.ran)
  turn-idle w ready now wheel wheel' ids readies turned =
      let kept : Keeps w (grown (dispatch registered handler w ready).0 (length ready)) =
        dispatch-idle ready w in
      let (s, done, empty, same, ran) = readies _ kept in
      (
        record s { wheel = wheel'; ran = s.ran ++ map timer ids },
        turned_loop handler w ready now s wheel' ids done
            (ap (λ (x : Wheels). on_timer x now) same ∙ turned),
        empty,
        refl,
        λ r h. In-append_left r s.ran _ (ran r (kept.2 r h)),
        λ i h. In-append_right (timer i) s.ran _ (In-timers i ids h),
      )

  rounds-clock :
      (rs : List (List (ℕ × Ready) × ℕ)) (w : Worker K) (wheel wheel' : Wheels)
      (rans : List (List ℕ))
      → Readies w wheel
      → clock wheel (times rs) ≡ some (wheel', rans)
      → (w' : Worker K) × (rounds handler w rs ≡ some w')
        × ((r : Ran) → In r w.ran → In r w'.ran)
        × ((k i : ℕ) → RanAt k i rans → In (timer i) w'.ran)
  unfolding rounds clock
  rounds-clock [] w wheel wheel0 rans readies e =
      let none_ran : [] ≡ rans = ap (λ (r : Wheels × List (List ℕ)). r.1) (some_eq _ _ e) in
      (w, refl, λ r h. h, λ k i h. absurd (subst (RanAt k i) (sym none_ran) h))
  rounds-clock ((ready, now) ∷ rs) w wheel wheel0 rans readies e =
      let ((wheel', ids), turned, e') = >>=-eq-some (on_timer wheel now) _ e in
      let ((wheel'', rans'), later, e'') = >>=-eq-some (clock wheel' (times rs)) _ e' in
      let all : ids ∷ rans' ≡ rans = ap (λ (r : Wheels × List (List ℕ)). r.1) (some_eq _ _ e'') in
      let (w', done, empty', same, kept, ran) =
        turn-idle w ready now wheel wheel' ids readies turned in
      let (w'', done', kept', ran') =
        rounds-clock rs w' w'.wheel wheel'' rans' (Readies-idle w' empty')
          (ap (λ (x : Wheels). clock x (times rs)) same ∙ later) in
      (
        w'',
        >>=-some (λ (t : Worker K). rounds handler t rs) done ∙ done',
        λ r h. kept' r (kept r h),
        λ k i h.
            by_turn k i ids rans' w''.ran (λ j at. kept' (timer j) (ran j at)) ran'
              (subst (RanAt k i) (sym all) h),
      )
    where
      by_turn :
          (k i : ℕ) (ids : List ℕ) (rans' : List (List ℕ)) (log : List Ran)
          → ((j : ℕ) → In j ids → In (timer j) log)
          → ((n j : ℕ) → RanAt n j rans' → In (timer j) log)
          → RanAt k i (ids ∷ rans')
          → In (timer i) log
      by_turn zero i ids rans' log first later h = first i h
      by_turn (suc k) i ids rans' log first later h = later k i h

-- A loop has nothing in its queue, and only one-shot tasks on its wheels of 60 seconds and none
-- among the minutes, and its onTimer was called before; the handlers of its events ask for nothing. Another thread calls runAfter with
-- a delay of 1 to 59 seconds, and the loop then turns with whatever is ready, at times a second or
-- more apart. Then all of it succeeds, and after as many turns as the delay has seconds the task
-- has run.
pub run_after_elsewhere :
    {K : Type 0} (e : Epoll K) (handler : Call → Worker K → Worker K) (w : Worker K) (fd k task : ℕ)
    (rs : List (List (ℕ × Ready) × ℕ))
    → IsIdle handler
    → w.tasks ≡ []
    → IsCalm w.wheel
    → length w.wheel.second ≡ 60
    → 0 < w.wheel.last_ts
    → suc k < minute_secs
    → length rs ≡ suc k
    → Spaced w.wheel.last_ts (times rs)
    → (s : Worker K) × (s' : Worker K) × (enqueue_task e w false fd (after (suc k) task) ≡ some s)
      × (rounds handler s rs ≡ some s')
      × In (timer task) s'.ran
unfolding enqueue_task
run_after_elsewhere e handler w fd k task rs idle empty calm long started short much spaced =
    let (wheel, wheel', rans, asked, e1, ran) =
      run_after-fires w.wheel k task (times rs) calm long started short spaced
        (omega (arith, much, length-times rs)) in
    let s : Worker _ = record w {
      tasks = w.tasks ++ (after (suc k) task ∷ []);
      registry = init_pipe e w.registry fd;
    } in
    let (s', e2, _, there) =
      rounds-clock handler idle rs s wheel wheel' rans
        (Readies-after s (suc k) task wheel
          (ap (λ (ts : List Task). ts ++ (after (suc k) task ∷ [])) empty) asked)
        e1 in
    (s, s', refl, e2, there k task ran)
