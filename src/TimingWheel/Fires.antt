-- ===== src/TimingWheel/Fires.antt =====
-- A delay of less than a minute in LSSTimingWheel.
use lssvc.Common.{
  All, Bool, Bool-cases, Ensures, Ensures-bind, Ensures-some, List, Option, [], arith, false,
  ge→ltb, if◌then◌else◌, inl, inr, length, ltb, lt→ltb, refl, some, suc, true, zero, ℕ, ◌%◌, ◌++◌,
  ◌+◌, ◌<◌, ◌==◌, ◌>>=◌, ◌^◌, ◌∷◌, ◌≡◌, ◌≤◌,
}
use lssvc.TimingWheel.{
  Timer, Wheel, Wheels, add_timer, day_secs, destroy, destroy_all, emplace, emplace_at, every,
  front, hour_secs, insert_entry, insert_second_entry, migrate, minute_secs, on_timer, once,
  pop_larger, pop_minute, pop_second, rotate, run_after, timeout, turn,
}
use lssvc.TimingWheel.Slots.{At, In}
use lssvc.TimingWheel.Turns.{Turned, turn-Turned}

-- Calls of `onTimer` at the given times, and the tasks that each of them ran.
unfoldable pub clock : Wheels → List ℕ → Option (Wheels × List (List ℕ))
clock w [] = some (w, [])
clock w (now ∷ times) =
    on_timer w now >>= λ (w', ran). clock w' times >>= λ (w'', rans). some (w'', ran ∷ rans)

-- Each time is a second or more after the one before.
abbrev pub Spaced : ℕ → List ℕ → Type 0
Spaced last [] = Unit {0}
Spaced last (now ∷ times) = (last + 1000 ≤ now) × Spaced now times

abbrev pub RanAt : ℕ → ℕ → List (List ℕ) → Type 0
RanAt k i [] = ⊥
RanAt zero i (ran ∷ rans) = In i ran
RanAt (suc k) i (ran ∷ rans) = RanAt k i rans

-- A second after the last turn the wheels turn.
pub on_timer_turns :
    (w : Wheels) (now : ℕ)
    → 0 < w.last_ts
    → w.last_ts + 1000 ≤ now
    → on_timer w now ≡ turn (record w { last_ts = now; tick = (w.tick + 1) % 2 ^ 64 })
unfolding on_timer
on_timer_turns w now h late =
    let started : (w.last_ts == 0) ≡ false = ground arith in rw started (rw (ge→ltb _ _ late))

RanAtTurn : ℕ → ℕ → Wheels × List (List ℕ) → Type 0
RanAtTurn k i r = RanAt k i r.1

-- The entry in slot k of the seconds runs at the k-th turn from now, counted from 0.
clock-runs :
    (k i : ℕ) (w : Wheels) (times : List ℕ)
    → 0 < w.last_ts
    → Spaced w.last_ts times
    → k < length times
    → At k (once i) w.second
    → Ensures (RanAtTurn k i) (clock w times)
unfolding clock RanAtTurn
clock-runs k i w [] h s few at = absurd (omega arith)
clock-runs zero i w (now ∷ times) h (late, s) few at = rw (on_timer_turns w now h late) (
    Ensures-bind (Turned turned) (RanAtTurn 0 i) (turn turned) _ (turn-Turned turned) λ (w', ran) t.
      Ensures-bind (λ r. Unit {0}) (RanAtTurn 0 i) (clock w' times) _ (λ r _. tt)
        λ (w'', rans) _. Ensures-some (RanAtTurn 0 i) {a = (w'', ran ∷ rans)} (t.ran i at))
  where
    turned : Wheels
    turned = record w { last_ts = now; tick = (w.tick + 1) % 2 ^ 64 }
clock-runs (suc k) i w (now ∷ times) h (late, s) few at = rw (on_timer_turns w now h late) (
    Ensures-bind (Turned turned) (RanAtTurn (suc k) i) (turn turned) _ (turn-Turned turned)
      λ (w', ran) t.
        let same : w'.last_ts ≡ now = t.same_ts in
        Ensures-bind (RanAtTurn k i) (RanAtTurn (suc k) i) (clock w' times) _
          (clock-runs k i w' times (omega (arith, same)) (rw same s) (omega arith)
            (t.moved k (once i) at))
          λ (w'', rans) later. Ensures-some (RanAtTurn (suc k) i) {a = (w'', ran ∷ rans)} later)
  where
    turned : Wheels
    turned = record w { last_ts = now; tick = (w.tick + 1) % 2 ^ 64 }

-- Wheels with one-shot tasks among the seconds and nothing among the minutes.
abbrev pub IsOnce : Timer → Type 0
IsOnce (once i) = Unit {0}
IsOnce _ = ⊥

abbrev pub IsEmpty : List Timer → Type 0
IsEmpty s = s ≡ []

pub record IsCalm (w : Wheels) : Type 0 where
  pub tasks : All (All IsOnce) w.second
  pub no_minutes : All IsEmpty w.minute

tasks_of : List Timer → List ℕ
tasks_of [] = []
tasks_of (once i ∷ ts) = i ∷ tasks_of ts
tasks_of (_ ∷ ts) = tasks_of ts

destroy_all-once :
    (w : Wheels) (ts : List Timer) → All IsOnce ts → destroy_all w ts ≡ some (w, tasks_of ts)
unfolding destroy_all tasks_of destroy
destroy_all-once w [] h = refl
destroy_all-once w (once i ∷ ts) h = rw (destroy_all-once w ts h.1)
destroy_all-once w (every i n ∷ ts) h = absurd (h.0)
destroy_all-once w (migrate n t ∷ ts) h = absurd (h.0)
destroy_all-once w (timeout c ∷ ts) h = absurd (h.0)

All-rotate : (P : List Timer → Type 0) (wheel : Wheel) → P [] → All P wheel → All P (rotate wheel)
unfolding rotate
All-rotate P [] p h = h
All-rotate P (s ∷ ss) p h = behind ss h.1
  where
    behind : (ss : Wheel) → All P ss → All P (ss ++ ([] ∷ []))
    behind [] a = (p, tt)
    behind (x ∷ xs) a = (a.0, behind xs a.1)

front-empty : (wheel : Wheel) → All IsEmpty wheel → front wheel ≡ []
unfolding front
front-empty [] h = refl
front-empty (s ∷ ss) h = h.0

front-IsOnce : (wheel : Wheel) → All (All IsOnce) wheel → All IsOnce (front wheel)
unfolding front
front-IsOnce [] h = tt
front-IsOnce (s ∷ ss) h = h.0

abbrev pub Survives : Option (Wheels × List ℕ) → Type 0
Survives o = (w' : Wheels) × (ran : List ℕ) × (o ≡ some (w', ran)) × IsCalm w'

nothing_popped : (w : Wheels) (ts : List Timer) → ts ≡ [] → IsCalm w → Survives (destroy_all w ts)
nothing_popped w ts e c = (w, [], rw e (unfold destroy_all in refl), c)

Survives-if :
    (b : Bool) {o o' : Option (Wheels × List ℕ)}
    → Survives o
    → Survives o'
    → Survives (if b then o else o')
Survives-if true h h' = h
Survives-if false h h' = h'

whole_hours : (w : Wheels) → (w.tick % minute_secs == 0) ≡ false → pop_larger w ≡ some (w, [])
unfolding pop_larger
whole_hours w part =
    let no_hour : (w.tick % hour_secs == 0) ≡ false = ground arith in
    let no_day : (w.tick % day_secs == 0) ≡ false = ground arith in rw (part, no_hour, no_day)

pop_larger-Survives : (w : Wheels) → IsCalm w → Survives (pop_larger w)
unfolding pop_larger pop_minute
pop_larger-Survives w c = elim (Bool-cases (w.tick % minute_secs == 0)) [
  | inl whole ↦ rw whole (
      nothing_popped (record w { minute = rotate w.minute }) _ (front-empty w.minute c.no_minutes)
        (record { tasks = c.tasks; no_minutes = All-rotate IsEmpty w.minute refl c.no_minutes }))
  | inr part ↦ (w, [], whole_hours w part, c)
]

turn-Survives : (w : Wheels) → IsCalm w → Survives (turn w)
unfolding turn pop_second
turn-Survives w c =
    let (w', ran, e, c') =
      pop_larger-Survives (record w { second = rotate w.second })
        (record {
          tasks = All-rotate (All IsOnce) w.second tt c.tasks;
          no_minutes = c.no_minutes;
        }) in
    (
      w',
      tasks_of (front w.second) ++ ran,
      rw (
        destroy_all-once (record w { second = rotate w.second }) _ (front-IsOnce w.second c.tasks),
        e,
      ),
      c',
    )

pub on_timer-Survives : (w : Wheels) (now : ℕ) → IsCalm w → Survives (on_timer w now)
unfolding on_timer
on_timer-Survives w now c =
    Survives-if (ltb now ((if w.last_ts == 0 then now else w.last_ts) + 1000))
      (
        record w { last_ts = if w.last_ts == 0 then now else w.last_ts },
        [],
        refl,
        record { tasks = c.tasks; no_minutes = c.no_minutes },
      )
      (turn-Survives (record w { last_ts = now; tick = (w.tick + 1) % 2 ^ 64 })
        (record { tasks = c.tasks; no_minutes = c.no_minutes }))

pub clock-Survives :
    (w : Wheels) (times : List ℕ)
    → IsCalm w
    → (w' : Wheels) × (rans : List (List ℕ)) × (clock w times ≡ some (w', rans))
unfolding clock
clock-Survives w [] c = (w, [], refl)
clock-Survives w (now ∷ times) c =
    let (w', ran, e, c') = on_timer-Survives w now c in
    let (w'', rans, e') = clock-Survives w' times c' in (w'', ran ∷ rans, rw (e, e'))

-- A one-shot entry goes into its slot.
emplace_at-once :
    (wheel : Wheel) (k i : ℕ)
    → k < length wheel
    → All (All IsOnce) wheel
    → (wheel' : Wheel) × (emplace_at wheel (suc k) (once i) ≡ some wheel')
      × At k (once i) wheel'
      × All (All IsOnce) wheel'
unfolding emplace_at emplace
emplace_at-once [] k i h a = elim h [ ]
emplace_at-once (s ∷ ss) zero i h a = ((once i ∷ s) ∷ ss, refl, inl refl, ((tt, a.0), a.1))
emplace_at-once (s ∷ ss) (suc k) i h a =
    let (ss', e, at, a') = emplace_at-once ss k i (omega arith) a.1 in
    (s ∷ ss', rw e, at, (a.0, a'))

-- On wheels of 60 seconds that hold one-shot tasks there and nothing among the minutes, `runAfter` with a delay of 1 to 59
-- seconds succeeds; when `onTimer` is then called at times a second or more apart, every call
-- succeeds, and the call that is the delay's number runs the task.
pub run_after-fires :
    (w : Wheels) (k task : ℕ) (times : List ℕ)
    → IsCalm w
    → length w.second ≡ 60
    → 0 < w.last_ts
    → suc k < minute_secs
    → Spaced w.last_ts times
    → k < length times
    → (w' : Wheels) × (w'' : Wheels) × (rans : List (List ℕ)) × (run_after w (suc k) task
        ≡ some (w', []))
      × (clock w' times ≡ some (w'', rans))
      × RanAt k task rans
unfolding run_after add_timer insert_entry insert_second_entry RanAtTurn
run_after-fires w k task times c long started short spaced enough =
    let (wheel, e, at, tasks) = emplace_at-once w.second k task (omega (arith, long)) c.tasks in
    let w' : Wheels = record w { second = wheel } in
    let c' : IsCalm w' = record { tasks = tasks; no_minutes = c.no_minutes } in
    let (w'', rans, e') = clock-Survives w' times c' in
    let small : suc k % 2 ^ 32 ≡ suc k = omega arith in
    (
      w',
      w'',
      rans,
      rw (small, lt→ltb _ _ short, e),
      e',
      clock-runs k task w' times started spaced enough at (w'', rans) e',
    )
