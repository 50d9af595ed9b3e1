-- ===== src/TimingWheel/Stuck.antt =====
-- The wheels of LSSTimingWheel behind that of the seconds, and a delay of no seconds.
use lssvc.Common.{
  Ensures, Ensures-bind, Ensures-if, Ensures-some, List, Option-cases, [], arith, bind_none,
  if◌then◌else◌, inl, inr, length, ltb, none, refl, some, true, ℕ, ◌%◌, ◌+◌, ◌<◌, ◌==◌, ◌^◌, ◌∙◌,
  ◌∷◌, ◌≡◌, ◌≤◌,
}
use lssvc.TimingWheel.{
  Timer, Wheel, Wheels, add_timer, destroy, destroy_all, destroy_depth, emplace, emplace_at, front,
  insert_entry, insert_minute_entry, insert_second_entry, migrate, minute_secs, on_timer, once,
  pop_larger, pop_minute, pop_second, rotate, run_after, turn,
}
use lssvc.TimingWheel.Slots.{At, In, Kept, Kept-refl, destroy_all-Grows}
use lssvc.TimingWheel.Turns.{front-At, turn-Turned}
use lssvc.TimingWheel.Fires.{IsCalm, clock, clock-Survives, on_timer_turns}

abbrev pub StillThere : Wheels → Wheels × List (List ℕ) → Type 0
StillThere w r = Kept w.hour r.0.hour × Kept w.day r.0.day

on_timer-keeps :
    (w : Wheels) (now : ℕ)
    → Ensures (λ r. Kept w.hour r.0.hour × Kept w.day r.0.day) (on_timer w now)
unfolding on_timer
on_timer-keeps w now =
    Ensures-if _ (ltb now ((if w.last_ts == 0 then now else w.last_ts) + 1000))
      (Ensures-some (λ r. Kept w.hour r.0.hour × Kept w.day r.0.day)
        (Kept-refl w.hour, Kept-refl w.day))
      (λ r e. let t = turn-Turned _ r e in (t.hours, t.days))

clock-keeps : (w : Wheels) (times : List ℕ) → Ensures (StillThere w) (clock w times)
unfolding clock
clock-keeps w [] = Ensures-some (StillThere w) (Kept-refl w.hour, Kept-refl w.day)
clock-keeps w (now ∷ times) =
    Ensures-bind (λ r. Kept w.hour r.0.hour × Kept w.day r.0.day) (StillThere w) (on_timer w now) _
      (on_timer-keeps w now)
      λ (w', ran) (h, d).
        Ensures-bind (StillThere w') (StillThere w) (clock w' times) _ (clock-keeps w' times)
          λ (w'', rans) (h', d').
            Ensures-some (StillThere w) {a = (w'', ran ∷ rans)}
              (λ k t x. h' k t (h k t x), λ k t x. d' k t (d k t x))

-- However often and at whatever times `onTimer` is called, an entry in a slot of the hours or of
-- the days stays in that very slot, since a whole hour is also a whole minute; and the calls do
-- come to an end where the seconds hold one-shot tasks only and the minutes nothing.
pub hours_never_turn :
    (w : Wheels) (times : List ℕ)
    → Ensures (StillThere w) (clock w times)
      × (IsCalm w
          → (w' : Wheels) × (rans : List (List ℕ)) × (clock w times ≡ some (w', rans))
            × StillThere w (w', rans))
hours_never_turn w times = (
  clock-keeps w times,
  λ c.
      let (w', rans, e) = clock-Survives w times c in
      (w', rans, e, clock-keeps w times (w', rans) e),
)

-- An entry for no seconds is put in front of the first slot, which is outside the wheel.
insert_entry-zero : (w : Wheels) (t : Timer) → insert_entry w 0 t ≡ none
unfolding insert_entry insert_second_entry emplace_at
insert_entry-zero w t = refl

destroy_all_faults :
    (t : Timer) (w : Wheels) (ts : List Timer) → In (migrate 0 t) ts → destroy_all w ts ≡ none
unfolding destroy_all
destroy_all_faults t w [] h = elim h [ ]
destroy_all_faults t w (u ∷ ts) (inl e) = faulty u e
  where
    faulty : (u : Timer) → migrate 0 t ≡ u → destroy_all w (u ∷ ts) ≡ none
    faulty u e = rw (← e) (unfold destroy in rw (insert_entry-zero w t))
destroy_all_faults t w (u ∷ ts) (inr h) =
    bind_none (destroy destroy_depth w u) _ (λ (w', ran). rw (destroy_all_faults t w' ts h))

front_fault :
    (w : Wheels) (t : Timer)
    → w.tick % minute_secs ≡ 0
    → At 0 (migrate 0 t) w.minute
    → pop_larger w ≡ none
unfolding pop_larger pop_minute front
front_fault w t whole at =
    let e : (w.tick % minute_secs == 0) ≡ true = ground arith in
    rw e (destroy_all_faults t _ (front w.minute) (front-At _ w.minute at))

emplace_at_first :
    (wheel : Wheel) (n : ℕ) (t : Timer)
    → 0 < length wheel
    → (wheel' : Wheel) × (emplace_at wheel 1 (migrate n t) ≡ some wheel')
      × At 0 (migrate n t) wheel'
unfolding emplace_at emplace
emplace_at_first [] n t h = elim h [ ]
emplace_at_first (s ∷ ss) n t h = ((migrate n t ∷ s) ∷ ss, refl, inl refl)

-- A turn that completes a minute, with such an entry in the front slot of the minutes.
turn_faults :
    (w : Wheels) (t : Timer)
    → w.tick % minute_secs ≡ 0
    → At 0 (migrate 0 t) w.minute
    → turn w ≡ none
unfolding turn pop_second
turn_faults w t whole at =
    elim (Option-cases (destroy_all (record w { second = rotate w.second }) (front w.second))) [
      | inl e ↦ rw e
      | inr ((w', ran), e) ↦
          let g = destroy_all-Grows (record w { second = rotate w.second }) _ (w', ran) e in
          let whole' : w'.tick % minute_secs ≡ 0 = rw (g.same_tick) whole in
          rw e (rw (front_fault w' t whole' (g.minutes 0 (migrate 0 t) at)))
    ]

-- `runAfter` with a delay of 60 seconds goes well, on any wheels with a slot for minutes; but where
-- the wheels have turned before and their next turn completes a minute, an `onTimer` a second or more
-- after the last turn, with no other between, indexes the second wheel outside its range.
pub one_minute_faults :
    (w : Wheels) (task : ℕ)
    → 0 < length w.minute
    → (w' : Wheels) × (run_after w 60 task ≡ some (w', []))
      × ((now : ℕ)
          → 0 < w.last_ts
          → w.last_ts + 1000 ≤ now
          → (w.tick + 1) % 2 ^ 64 % minute_secs ≡ 0
          → on_timer w' now ≡ none)
unfolding run_after add_timer insert_entry insert_minute_entry
one_minute_faults w task h =
    let (wheel, e, at) = emplace_at_first w.minute 0 (once task) h in
    (
      record w { minute = wheel },
      rw e,
      λ now started late whole.
          on_timer_turns (record w { minute = wheel }) now started late
          ∙ turn_faults (record w { minute = wheel; last_ts = now; tick = (w.tick + 1) % 2 ^ 64 })
              (once task) whole at,
    )
