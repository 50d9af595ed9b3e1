-- ===== src/ThreadPool/Tests.antt =====
-- The pool of loops at concrete inputs.
use lssvc.Common.{List, [], arith, none, refl, some, ℕ, ◌+◌, ◌-◌, ◌<◌, ◌>>=◌, ◌^◌, ◌∷◌, ◌≡◌}
use lssvc.ThreadPool.{cpu_of, get_next_loop, index_of, make_pool, next_loops, numbers, thread_at}
use lssvc.ThreadPool.Turns.{next_loops-each_once, pool_of, turns_of}

next_loops-each_once_example :
    (ts : List ℕ) × (next_loops (pool_of 3 5) 3 ≡ some (ts, pool_of 3 (5 + 3)))
    × ((t : ℕ) → t < 3 → turns_of t ts ≡ 1)
next_loops-each_once_example = next_loops-each_once 3 5 (omega arith) (omega arith)

five : next_loops (make_pool 3) 5 ≡ some (0 ∷ 1 ∷ 2 ∷ 0 ∷ 1 ∷ [], pool_of 3 5)
unfolding next_loops get_next_loop index_of thread_at make_pool numbers
five = refl

-- Where the index becomes negative, the turns of seven threads do not go on in order.
wrapped : (next_loops (pool_of 7 (2 ^ 31 - 1)) 2 >>= λ (ts, p). some ts) ≡ some (1 ∷ 0 ∷ [])
unfolding next_loops get_next_loop index_of thread_at numbers
wrapped = refl

-- No thread, and a negative number of them, are one.
at_least_one : (make_pool 0 ≡ pool_of 1 0) × (make_pool (2 ^ 32 - 1) ≡ pool_of 1 0)
unfolding make_pool numbers
at_least_one = (refl, refl)

bound_to : (cpu_of 3 4 2 ≡ some 1) × (cpu_of 3 0 2 ≡ none)
unfolding cpu_of
bound_to = (refl, refl)
