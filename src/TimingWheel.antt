-- ===== src/TimingWheel.antt =====
-- src/network/net/lssvc_timing_wheel.cpp and include/network/net/lssvc_timing_wheel.h: four wheels
-- of slots; an entry runs its callback when its last reference goes. `none` is an access outside
-- a wheel, or a recursion of `runEvery` deeper than the fuel.
pub mod Slots
pub mod Turns
pub mod Fires
pub mod Stuck
pub mod Tests
use lssvc.Common.{
  Bool, List, Option, [], false, if◌then◌else◌, ltb, none, replicate, some, suc, true, zero, ℕ, ◌%◌,
  ◌*◌, ◌++◌, ◌+◌, ◌/◌, ◌==◌, ◌>>=◌, ◌>>◌, ◌^◌, ◌||◌, ◌∷◌,
}

abbrev pub minute_secs : ℕ
minute_secs = 60

abbrev pub hour_secs : ℕ
hour_secs = 60 * 60

abbrev pub day_secs : ℕ
day_secs = 60 * 60 * 24

-- What a callback entry holds: a task to run once, one to run every so often, the insertion of an
-- inner entry after the rest of its delay, or the timeout of a connection, whose entry has one
-- reference in each slot that it was inserted into.
pub data Timer : Type 0 where
  once : ℕ → Timer
  every : ℕ → ℕ → Timer
  migrate : ℕ → Timer → Timer
  timeout : ℕ → Timer

abbrev pub Wheel : Type 0
Wheel = List (List Timer)

pub record Wheels : Type 0 where
  pub second : Wheel
  pub minute : Wheel
  pub hour : Wheel
  pub day : Wheel
  pub last_ts : ℕ
  pub tick : ℕ

pub init : Wheels
init = record {
  second = replicate 60 [];
  minute = replicate 60 [];
  hour = replicate 24 [];
  day = replicate 30 [];
  last_ts = 0;
  tick = 0;
}

-- Whether an entry is the timeout of this connection, or carries it onwards.
pub refers : ℕ → Timer → Bool
refers c (once i) = false
refers c (every i n) = false
refers c (migrate n t) = refers c t
refers c (timeout i) = i == c

refers_any : ℕ → List Timer → Bool
refers_any c [] = false
refers_any c (t ∷ ts) = refers c t || refers_any c ts

pub refers_wheel : ℕ → Wheel → Bool
unfolding refers refers_any
refers_wheel c [] = false
refers_wheel c (s ∷ ss) = refers_any c s || refers_wheel c ss

pub is_held : ℕ → Wheels → Bool
unfolding refers_wheel
is_held c w =
    refers_wheel c w.second
    || refers_wheel c w.minute
    || refers_wheel c w.hour
    || refers_wheel c w.day

-- A slot is a set of pointers: one and the same timeout is there once. The other entries are new.
is_timeout : ℕ → Timer → Bool
is_timeout c (timeout i) = i == c
is_timeout c _ = false

has_timeout : ℕ → List Timer → Bool
has_timeout c [] = false
has_timeout c (t ∷ ts) = is_timeout c t || has_timeout c ts

pub emplace : Timer → List Timer → List Timer
emplace (timeout c) ts = if has_timeout c ts then ts else timeout c ∷ ts
emplace t ts = t ∷ ts

-- `wheel[n - 1].emplace(entry)`: for n = 0 the index wraps round to 2^32 - 1.
pub emplace_at : Wheel → ℕ → Timer → Option Wheel
emplace_at wheel zero t = none
emplace_at [] (suc i) t = none
emplace_at (s ∷ ss) (suc zero) t = some (emplace t s ∷ ss)
emplace_at (s ∷ ss) (suc (suc i)) t = do ss' ← emplace_at ss (suc i) t; some (s ∷ ss')

pub insert_second_entry : Wheels → ℕ → Timer → Option Wheels
insert_second_entry w delay t = do
  wheel ← emplace_at w.second delay t
  some (record w { second = wheel })

pub insert_minute_entry : Wheels → ℕ → Timer → Option Wheels
insert_minute_entry w delay t = do
  wheel ← emplace_at w.minute (delay / minute_secs) (migrate (delay % minute_secs) t)
  some (record w { minute = wheel })

pub insert_hour_entry : Wheels → ℕ → Timer → Option Wheels
insert_hour_entry w delay t = do
  wheel ← emplace_at w.hour (delay / hour_secs) (migrate (delay % hour_secs) t)
  some (record w { hour = wheel })

pub insert_day_entry : Wheels → ℕ → Timer → Option Wheels
insert_day_entry w delay t = do
  wheel ← emplace_at w.day (delay / day_secs) (migrate (delay % day_secs) t)
  some (record w { day = wheel })

-- `insertEntry`; the flag says that the entry was turned away (more than 30 days), so that the
-- caller's reference is the last. A delay of 0 only resets the local pointer and goes on.
pub insert_entry : Wheels → ℕ → Timer → Option (Wheels × Bool)
unfolding insert_second_entry insert_minute_entry insert_hour_entry insert_day_entry
insert_entry w delay t =
    if ltb delay minute_secs
    then keep (insert_second_entry w delay t)
    else if ltb delay hour_secs
    then keep (insert_minute_entry w delay t)
    else if ltb delay day_secs
    then keep (insert_hour_entry w delay t)
    else if ltb 30 (delay / day_secs)
    then some (w, true)
    else keep (insert_day_entry w delay t)
  where
    keep : Option Wheels → Option (Wheels × Bool)
    keep o = o >>= λ w'. some (w', false)

-- The destructor of an entry: the wheels afterwards and the tasks that it ran.
pub destroy : ℕ → Wheels → Timer → Option (Wheels × List ℕ)
destroy zero w t = none
destroy (suc fuel) w (once i) = some (w, i ∷ [])
destroy (suc fuel) w (every i n) = insert_entry w n (every i n) >>= λ (w', away).
    let again = destroy fuel w' (every i n) >>= λ (w'', ran). some (w'', i ∷ ran) in
    if away then again else some (w', i ∷ [])
destroy (suc fuel) w (migrate n t) = insert_entry w n t >>= λ (w', away).
    let now = destroy fuel w' t in if away then now else some (w', [])
destroy (suc fuel) w (timeout c) = some (w, if is_held c w then [] else c ∷ [])

-- An entry that is turned away is destroyed by its caller; a second turn never comes but for an
-- interval of more than 30 days.
abbrev pub destroy_depth : ℕ
destroy_depth = 2

pub destroy_all : Wheels → List Timer → Option (Wheels × List ℕ)
destroy_all w [] = some (w, [])
destroy_all w (t ∷ ts) = destroy destroy_depth w t >>= λ (w', ran).
    destroy_all w' ts >>= λ (w'', ran'). some (w'', ran ++ ran')

-- `popUp`: the front slot goes, an empty one comes in at the back, then the entries are destroyed.
pub front : Wheel → List Timer
front [] = []
front (s ∷ ss) = s

pub rotate : Wheel → Wheel
rotate [] = []
rotate (s ∷ ss) = ss ++ ([] ∷ [])

pub pop_second : Wheels → Option (Wheels × List ℕ)
pop_second w = destroy_all (record w { second = rotate w.second }) (front w.second)

pub pop_minute : Wheels → Option (Wheels × List ℕ)
pop_minute w = destroy_all (record w { minute = rotate w.minute }) (front w.minute)

pub pop_hour : Wheels → Option (Wheels × List ℕ)
pop_hour w = destroy_all (record w { hour = rotate w.hour }) (front w.hour)

pub pop_day : Wheels → Option (Wheels × List ℕ)
pop_day w = destroy_all (record w { day = rotate w.day }) (front w.day)

-- The wheel that turns along with the seconds.
pub pop_larger : Wheels → Option (Wheels × List ℕ)
pop_larger w =
    if w.tick % minute_secs == 0
    then pop_minute w
    else if w.tick % hour_secs == 0
    then pop_hour w
    else if w.tick % day_secs == 0
    then pop_day w
    else some (w, [])

pub turn : Wheels → Option (Wheels × List ℕ)
turn w = pop_second w >>= λ (w', ran). pop_larger w' >>= λ (w'', ran'). some (w'', ran ++ ran')

-- `onTimer`, in milliseconds.
pub on_timer : Wheels → ℕ → Option (Wheels × List ℕ)
on_timer w now =
    let last = if w.last_ts == 0 then now else w.last_ts in
    if ltb now (last + 1000)
    then some (record w { last_ts = last }, [])
    else turn (record w { last_ts = now; tick = (w.tick + 1) % 2 ^ 64 })

-- `runAfter` and `runEvery`. The caller's reference goes at the end of the call.
pub add_timer : Wheels → ℕ → Timer → Option (Wheels × List ℕ)
add_timer w delay t = insert_entry w delay t >>= λ (w', away).
    if away then destroy destroy_depth w' t else some (w', [])

pub run_after : Wheels → ℕ → ℕ → Option (Wheels × List ℕ)
run_after w delay task = add_timer w (delay % 2 ^ 32) (once task)

pub run_every : Wheels → ℕ → ℕ → Option (Wheels × List ℕ)
run_every w interval task = let delay = interval % 2 ^ 32 in add_timer w delay (every task delay)
