-- ===== src/TimingWheel/Turns.antt =====
-- One turn of LSSTimingWheel, `popUp` by `popUp`: what moves, what runs, and what stays.
use lssvc.Common.{
  Bool-cases, Ensures, Ensures-bind, Ensures-some, List, [], arith, false, inl, inr, refl, suc, ℕ,
  ◌%◌, ◌++◌, ◌==◌, ◌∙◌, ◌∷◌, ◌≡◌,
}
use lssvc.TimingWheel.{
  Timer, Wheel, Wheels, day_secs, destroy, destroy_all, destroy_depth, front, hour_secs,
  minute_secs, once, pop_larger, pop_minute, pop_second, rotate, turn,
}
use lssvc.TimingWheel.Slots.{
  At, At-rotate, GrownRun, In, In-append_left, In-append_right, Kept, Kept-refl, destroy_all-Grows,
}

abbrev RanTask : ℕ → Wheels × List ℕ → Type 0
RanTask i r = In i r.1

-- A one-shot entry that is destroyed runs its task, whatever else is destroyed with it.
destroy_all-runs :
    (i : ℕ) (w : Wheels) (ts : List Timer) → In (once i) ts → Ensures (RanTask i) (destroy_all w ts)
unfolding destroy_all
destroy_all-runs i w [] h = elim h [ ]
destroy_all-runs i w (t ∷ ts) (inl e) =
    Ensures-bind (RanTask i) (RanTask i) _ _ (now t e) λ (w', ran) here.
      Ensures-bind (λ r. Unit {0}) (RanTask i) (destroy_all w' ts) _ (λ r _. tt)
        λ (w'', ran') _.
          Ensures-some (RanTask i) {a = (w'', ran ++ ran')} (In-append_left i ran ran' here)
  where
    now : (t : Timer) → once i ≡ t → Ensures (RanTask i) (destroy destroy_depth w t)
    now t e = rw (← e) (unfold destroy in Ensures-some (RanTask i) {a = (w, i ∷ [])} (inl refl))
destroy_all-runs i w (t ∷ ts) (inr h) =
    Ensures-bind (λ r. Unit {0}) (RanTask i) (destroy destroy_depth w t) _ (λ r _. tt)
      λ (w', ran) _.
        Ensures-bind (RanTask i) (RanTask i) _ _ (destroy_all-runs i w' ts h) λ (w'', ran') later.
          Ensures-some (RanTask i) {a = (w'', ran ++ ran')} (In-append_right i ran ran' later)

-- What a turn does to the entries of `w`.
pub record Turned (w : Wheels) (r : Wheels × List ℕ) : Type 0 where
  pub moved : (k : ℕ) (t : Timer) → At (suc k) t w.second → At k t r.0.second
  pub ran : (i : ℕ) → At 0 (once i) w.second → In i r.1
  pub hours : Kept w.hour r.0.hour
  pub days : Kept w.day r.0.day
  pub same_ts : r.0.last_ts ≡ w.last_ts

-- The larger wheel that turns along is that of the minutes or none.
pub record Aside (w : Wheels) (r : Wheels × List ℕ) : Type 0 where
  pub seconds : Kept w.second r.0.second
  pub hours : Kept w.hour r.0.hour
  pub days : Kept w.day r.0.day
  pub same_ts : r.0.last_ts ≡ w.last_ts

pop_minute-Aside : (w : Wheels) → Ensures (Aside w) (pop_minute w)
unfolding pop_minute
pop_minute-Aside w r e =
    let g = destroy_all-Grows (record w { minute = rotate w.minute }) (front w.minute) r e in
    record { seconds = g.seconds; hours = g.hours; days = g.days; same_ts = g.same_ts }

pub pop_larger-Aside : (w : Wheels) → Ensures (Aside w) (pop_larger w)
unfolding pop_larger
pop_larger-Aside w = elim (Bool-cases (w.tick % minute_secs == 0)) [
  | inl whole ↦ rw whole (pop_minute-Aside w)
  | inr part ↦
      let no_hour : (w.tick % hour_secs == 0) ≡ false = ground arith in
      let no_day : (w.tick % day_secs == 0) ≡ false = ground arith in
      rw (part, no_hour, no_day)
        (Ensures-some (Aside w) {a = (w, [])} (record {
          seconds = Kept-refl w.second;
          hours = Kept-refl w.hour;
          days = Kept-refl w.day;
          same_ts = refl;
        }))
]

pub front-At : (t : Timer) (wheel : Wheel) → At 0 t wheel → In t (front wheel)
unfolding front
front-At t [] h = elim h [ ]
front-At t (s ∷ ss) h = h

pub turn-Turned : (w : Wheels) → Ensures (Turned w) (turn w)
unfolding turn pop_second
turn-Turned w =
    Ensures-bind (λ r. GrownRun rotated r × ((i : ℕ) → At 0 (once i) w.second → In i r.1))
      (Turned w) (destroy_all rotated (front w.second)) _
      (λ r e. (
        destroy_all-Grows rotated _ r e,
        λ i h. destroy_all-runs i rotated _ (front-At _ w.second h) r e,
      ))
      λ (w', ran) (g, runs).
        Ensures-bind (Aside w') (Turned w) (pop_larger w') _ (pop_larger-Aside w')
          λ (w'', ran') aside. Ensures-some (Turned w) {a = (w'', ran ++ ran')} (record {
            moved = λ k t h. aside.seconds k t (g.seconds k t (At-rotate k t w.second h));
            ran = λ i h. In-append_left i ran ran' (runs i h);
            hours = λ k t h. aside.hours k t (g.hours k t h);
            days = λ k t h. aside.days k t (g.days k t h);
            same_ts = aside.same_ts ∙ g.same_ts;
          })
  where
    rotated : Wheels
    rotated = record w { second = rotate w.second }
