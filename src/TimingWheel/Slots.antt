-- ===== src/TimingWheel/Slots.antt =====
-- Where an entry of LSSTimingWheel is: insertions leave it in its slot, a turn moves it one on.
use lssvc.Common.{
  Bool, Bool-cases, Ensures, Ensures-bind, Ensures-if, Ensures-none, Ensures-some, List, Option, [],
  false, inl, inr, ltb, refl, some, suc, true, zero, ℕ, ◌++◌, ◌/◌, ◌>>=◌, ◌∙◌, ◌∷◌, ◌≡◌, ◌⊎◌,
}
use lssvc.TimingWheel.{
  Timer, Wheel, Wheels, day_secs, destroy, destroy_all, destroy_depth, emplace, emplace_at, every,
  has_timeout, hour_secs, insert_day_entry, insert_entry, insert_hour_entry, insert_minute_entry,
  insert_second_entry, migrate, minute_secs, once, rotate, timeout,
}

-- Membership, and membership in the k-th slot of a wheel.
abbrev pub In : {A : Type 0} → A → List A → Type 0
In x [] = ⊥
In x (y ∷ ys) = (x ≡ y) ⊎ In x ys

abbrev pub At : ℕ → Timer → Wheel → Type 0
At k t [] = ⊥
At zero t (s ∷ ss) = In t s
At (suc k) t (s ∷ ss) = At k t ss

pub In-append_left : {A : Type 0} (x : A) (xs ys : List A) → In x xs → In x (xs ++ ys)
In-append_left x [] ys h = elim h [ ]
In-append_left x (y ∷ xs) ys (inl e) = inl e
In-append_left x (y ∷ xs) ys (inr h) = inr (In-append_left x xs ys h)

pub In-append_right : {A : Type 0} (x : A) (xs ys : List A) → In x ys → In x (xs ++ ys)
In-append_right x [] ys h = h
In-append_right x (y ∷ xs) ys h = inr (In-append_right x xs ys h)

pub In-emplace : (t u : Timer) (ts : List Timer) → In t ts → In t (emplace u ts)
unfolding emplace
In-emplace t (once i) ts h = inr h
In-emplace t (every i n) ts h = inr h
In-emplace t (migrate n v) ts h = inr h
In-emplace t (timeout c) ts h = elim (Bool-cases (has_timeout c ts)) [
  | inl there ↦ rw there h
  | inr new ↦ rw new (inr h)
]

At-emplace_at :
    (k : ℕ) (t : Timer) (wheel : Wheel) (n : ℕ) (u : Timer)
    → At k t wheel
    → Ensures (At k t) (emplace_at wheel n u)
unfolding emplace_at
At-emplace_at k t wheel zero u h = Ensures-none (At k t)
At-emplace_at k t [] (suc n) u h = elim h [ ]
At-emplace_at zero t (s ∷ ss) (suc zero) u h = Ensures-some (At zero t) (In-emplace t u s h)
At-emplace_at (suc k) t (s ∷ ss) (suc zero) u h = Ensures-some (At (suc k) t) h
At-emplace_at zero t (s ∷ ss) (suc (suc n)) u h =
    Ensures-bind (λ w. Unit {0}) (At zero t) (emplace_at ss (suc n) u) (λ w. some (s ∷ w))
      (λ w e. tt) (λ w _. Ensures-some (At zero t) h)
At-emplace_at (suc k) t (s ∷ ss) (suc (suc n)) u h =
    Ensures-bind (At k t) (At (suc k) t) (emplace_at ss (suc n) u) (λ w. some (s ∷ w))
      (At-emplace_at k t ss (suc n) u h) (λ w hw. Ensures-some (At (suc k) t) hw)

pub At-rotate : (k : ℕ) (t : Timer) (wheel : Wheel) → At (suc k) t wheel → At k t (rotate wheel)
unfolding rotate
At-rotate k t [] h = elim h [ ]
At-rotate k t (s ∷ ss) h = behind k t ss h
  where
    behind : (k : ℕ) (t : Timer) (ss : Wheel) → At k t ss → At k t (ss ++ ([] ∷ []))
    behind k t [] h = elim h [ ]
    behind zero t (s ∷ ss) h = h
    behind (suc k) t (s ∷ ss) h = behind k t ss h

-- All that was in a slot is still there, and the clock is the same.
pub record Grows (w w' : Wheels) : Type 0 where
  pub seconds : (k : ℕ) (t : Timer) → At k t w.second → At k t w'.second
  pub minutes : (k : ℕ) (t : Timer) → At k t w.minute → At k t w'.minute
  pub hours : (k : ℕ) (t : Timer) → At k t w.hour → At k t w'.hour
  pub days : (k : ℕ) (t : Timer) → At k t w.day → At k t w'.day
  pub same_tick : w'.tick ≡ w.tick
  pub same_ts : w'.last_ts ≡ w.last_ts

pub Grows-refl : (w : Wheels) → Grows w w
Grows-refl w = record {
  seconds = λ k t h. h;
  minutes = λ k t h. h;
  hours = λ k t h. h;
  days = λ k t h. h;
  same_tick = refl;
  same_ts = refl;
}

pub Grows-trans : {u v w : Wheels} → Grows u v → Grows v w → Grows u w
Grows-trans g h = record {
  seconds = λ k t x. h.seconds k t (g.seconds k t x);
  minutes = λ k t x. h.minutes k t (g.minutes k t x);
  hours = λ k t x. h.hours k t (g.hours k t x);
  days = λ k t x. h.days k t (g.days k t x);
  same_tick = h.same_tick ∙ g.same_tick;
  same_ts = h.same_ts ∙ g.same_ts;
}

-- One wheel replaced by what `emplace_at` made of it.
abbrev pub Kept : Wheel → Wheel → Type 0
Kept wheel wheel' = (k : ℕ) (t : Timer) → At k t wheel → At k t wheel'

emplace_at-Kept : (wheel : Wheel) (n : ℕ) (u : Timer) → Ensures (Kept wheel) (emplace_at wheel n u)
emplace_at-Kept wheel n u wheel' e k t h = At-emplace_at k t wheel n u h wheel' e

pub Kept-refl : (wheel : Wheel) → Kept wheel wheel
Kept-refl wheel k t h = h

Grows-wheels :
    (w : Wheels) (s m h d : Wheel)
    → Kept w.second s
    → Kept w.minute m
    → Kept w.hour h
    → Kept w.day d
    → Grows w (record w { second = s; minute = m; hour = h; day = d })
Grows-wheels w s m h d ks km kh kd = record {
  seconds = ks;
  minutes = km;
  hours = kh;
  days = kd;
  same_tick = refl;
  same_ts = refl;
}

module _ (w : Wheels) (delay : ℕ) (t : Timer) where
  second-Grows : Ensures (Grows w) (insert_second_entry w delay t)
  unfolding insert_second_entry
  second-Grows = Ensures-bind (Kept w.second) (Grows w) _ _ (emplace_at-Kept w.second _ _) λ x kept.
      Ensures-some (Grows w)
        (Grows-wheels w x w.minute w.hour w.day kept (Kept-refl _) (Kept-refl _) (Kept-refl _))

  minute-Grows : Ensures (Grows w) (insert_minute_entry w delay t)
  unfolding insert_minute_entry
  minute-Grows = Ensures-bind (Kept w.minute) (Grows w) _ _ (emplace_at-Kept w.minute _ _) λ x kept.
      Ensures-some (Grows w)
        (Grows-wheels w w.second x w.hour w.day (Kept-refl _) kept (Kept-refl _) (Kept-refl _))

  hour-Grows : Ensures (Grows w) (insert_hour_entry w delay t)
  unfolding insert_hour_entry
  hour-Grows = Ensures-bind (Kept w.hour) (Grows w) _ _ (emplace_at-Kept w.hour _ _) λ x kept.
      Ensures-some (Grows w)
        (Grows-wheels w w.second w.minute x w.day (Kept-refl _) (Kept-refl _) kept (Kept-refl _))

  day-Grows : Ensures (Grows w) (insert_day_entry w delay t)
  unfolding insert_day_entry
  day-Grows = Ensures-bind (Kept w.day) (Grows w) _ _ (emplace_at-Kept w.day _ _) λ x kept.
      Ensures-some (Grows w)
        (Grows-wheels w w.second w.minute w.hour x (Kept-refl _) (Kept-refl _) (Kept-refl _) kept)

abbrev pub Grown : Wheels → Wheels × Bool → Type 0
Grown w r = Grows w r.0

abbrev pub GrownRun : Wheels → Wheels × List ℕ → Type 0
GrownRun w r = Grows w r.0

kept_flag :
    (w : Wheels) (o : Option Wheels)
    → Ensures (Grows w) o
    → Ensures (Grown w) (o >>= λ w'. some (w', false))
kept_flag w o h =
    Ensures-bind (Grows w) (Grown w) o _ h λ w' g. Ensures-some (Grown w) {a = (w', false)} g

pub insert_entry-Grows :
    (w : Wheels) (delay : ℕ) (t : Timer) → Ensures (Grown w) (insert_entry w delay t)
unfolding insert_entry
insert_entry-Grows w delay t =
    Ensures-if (Grown w) (ltb delay minute_secs) (kept_flag w _ (second-Grows w delay t)) (
      Ensures-if (Grown w) (ltb delay hour_secs) (kept_flag w _ (minute-Grows w delay t)) (
        Ensures-if (Grown w) (ltb delay day_secs) (kept_flag w _ (hour-Grows w delay t)) (
          Ensures-if (Grown w) (ltb 30 (delay / day_secs))
            (Ensures-some (Grown w) {a = (w, true)} (Grows-refl w))
            (kept_flag w _ (day-Grows w delay t)))))

-- A later step after growth.
then_run :
    (w : Wheels) {w' : Wheels}
    → Grows w w'
    → (o : Option (Wheels × List ℕ)) → Ensures (GrownRun w') o
    → Ensures (GrownRun w) o
then_run w g o h r e = Grows-trans g (h r e)

pub destroy-Grows : (fuel : ℕ) (w : Wheels) (t : Timer) → Ensures (GrownRun w) (destroy fuel w t)
unfolding destroy
destroy-Grows zero w t = Ensures-none (GrownRun w)
destroy-Grows (suc fuel) w (once i) = Ensures-some (GrownRun w) {a = (w, i ∷ [])} (Grows-refl w)
destroy-Grows (suc fuel) w (every i n) =
    Ensures-bind (Grown w) (GrownRun w) _ _ (insert_entry-Grows w n (every i n)) λ (w', away) g.
      Ensures-if (GrownRun w) away
        (then_run w g _ (
          Ensures-bind (GrownRun w') (GrownRun w') _ _ (destroy-Grows fuel w' (every i n))
            λ (w'', ran) g'. Ensures-some (GrownRun w') {a = (w'', i ∷ ran)} g'))
        (Ensures-some (GrownRun w) {a = (w', i ∷ [])} g)
destroy-Grows (suc fuel) w (migrate n t) =
    Ensures-bind (Grown w) (GrownRun w) _ _ (insert_entry-Grows w n t) λ (w', away) g.
      Ensures-if (GrownRun w) away (then_run w g _ (destroy-Grows fuel w' t))
        (Ensures-some (GrownRun w) {a = (w', [])} g)
destroy-Grows (suc fuel) w (timeout c) = Ensures-some (GrownRun w) {a = (w, _)} (Grows-refl w)

pub destroy_all-Grows : (w : Wheels) (ts : List Timer) → Ensures (GrownRun w) (destroy_all w ts)
unfolding destroy_all
destroy_all-Grows w [] = Ensures-some (GrownRun w) {a = (w, [])} (Grows-refl w)
destroy_all-Grows w (t ∷ ts) =
    Ensures-bind (GrownRun w) (GrownRun w) _ _ (destroy-Grows destroy_depth w t) λ (w', ran) g.
      Ensures-bind (GrownRun w') (GrownRun w) _ _ (destroy_all-Grows w' ts)
        λ (w'', ran') g'. Ensures-some (GrownRun w) {a = (w'', ran ++ ran')} (Grows-trans g g')
