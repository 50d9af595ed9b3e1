-- ===== src/TimingWheel/Tests.antt =====
-- LSSTimingWheel at concrete inputs.
use lssvc.Common.{
  All, Ensures, List, [], arith, none, refl, replicate, some, suc, zero, ℕ, ◌%◌, ◌+◌, ◌<◌, ◌>>=◌,
  ◌^◌, ◌∷◌, ◌≡◌, ◌≤◌,
}
use lssvc.TimingWheel.{
  Wheels, add_timer, destroy, destroy_all, emplace, emplace_at, front, insert_entry,
  insert_second_entry, minute_secs, on_timer, pop_larger, pop_minute, pop_second, rotate, run_after,
  turn,
}
use lssvc.TimingWheel.Fires.{IsCalm, IsEmpty, clock}
use lssvc.TimingWheel.Stuck.{StillThere, hours_never_turn, one_minute_faults}

abbrev pub started : Wheels
started = record {
  second = replicate 60 [];
  minute = replicate 60 [];
  hour = replicate 24 [];
  day = replicate 30 [];
  last_ts = 1000;
  tick = 59;
}

pub started-IsCalm : IsCalm started
started-IsCalm = record { tasks = omega arith; no_minutes = all_empty 60 }
  where
    all_empty : (n : ℕ) → All IsEmpty (replicate n [])
    all_empty zero = tt
    all_empty (suc n) = (refl, all_empty n)

-- A task at two seconds, on the clock: two turns run nothing and the task.
two_seconds :
    (run_after started 2 7 >>= λ (w, ran). clock w (2000 ∷ 3000 ∷ []) >>= λ (w', rans). some rans)
    ≡ some ([] ∷ (7 ∷ []) ∷ [])
unfolding run_after add_timer insert_entry insert_second_entry emplace_at emplace clock on_timer
    turn pop_second pop_larger pop_minute destroy_all destroy rotate front
two_seconds = refl

hours_never_turn_example :
    Ensures (StillThere started) (clock started (2000 ∷ 9000 ∷ []))
    × (IsCalm started
        → (w' : Wheels) × (rans : List (List ℕ)) × (clock started (2000 ∷ 9000 ∷ [])
            ≡ some (w', rans))
          × StillThere started (w', rans))
hours_never_turn_example = hours_never_turn started (2000 ∷ 9000 ∷ [])

one_minute_faults_example :
    (w' : Wheels) × (run_after started 60 7 ≡ some (w', []))
    × ((now : ℕ)
        → 0 < 1000
        → 1000 + 1000 ≤ now
        → (59 + 1) % 2 ^ 64 % minute_secs ≡ 0
        → on_timer w' now ≡ none)
one_minute_faults_example = one_minute_faults started 7 (omega arith)
