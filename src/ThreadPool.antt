-- ===== src/ThreadPool.antt =====
-- src/network/net/lssvc_eventloop_threadpool.cpp: the loops of the pool, one after the other.
-- `loop_index_` is an int32_t pattern.
pub mod Turns
pub mod Tests
use lssvc.Common.{
  List, Option, [], if◌then◌else◌, leb, length, ltb, none, some, suc, zero, ℕ, ◌%◌, ◌+◌, ◌-◌, ◌==◌,
  ◌>>=◌, ◌^◌, ◌||◌, ◌∷◌,
}

pub record Pool : Type 0 where
  pub threads : List ℕ
  pub loop_index : ℕ

-- The threads are numbered in the order in which they are made.
unfoldable pub numbers : ℕ → ℕ → List ℕ
numbers from zero = []
numbers from (suc n) = from ∷ numbers (suc from) n

-- `thread_num <= 0` is one thread.
unfoldable pub make_pool : ℕ → Pool
make_pool thread_num = record {
  threads = numbers 0 (if thread_num == 0 || leb (2 ^ 31) thread_num then 1 else thread_num);
  loop_index = 0;
}

-- `(start + i) % cpus`: the processor that a thread is bound to, for a `start` that is not negative.
unfoldable pub cpu_of : ℕ → ℕ → ℕ → Option ℕ
cpu_of start cpus i = if cpus == 0 || leb (2 ^ 31) cpus then none else some ((start + i) % cpus)

unfoldable pub thread_at : ℕ → List ℕ → Option ℕ
thread_at i [] = none
thread_at zero (t ∷ ts) = some t
thread_at (suc i) (t ∷ ts) = thread_at i ts

-- The index becomes a size_t before the division: a negative one is 2^64 less its distance to 0.
unfoldable pub index_of : ℕ → ℕ → ℕ
index_of loop_index size =
    (if leb (2 ^ 31) loop_index then 2 ^ 64 - 2 ^ 32 + loop_index else loop_index) % size

-- `none` is a division by 0 or an access outside `threads_`.
unfoldable pub get_next_loop : Pool → Option (ℕ × Pool)
get_next_loop p =
    if ltb 0 (length p.threads)
    then next (thread_at (index_of p.loop_index (length p.threads)) p.threads)
    else none
  where
    next : Option ℕ → Option (ℕ × Pool)
    next none = none
    next (some t) = some (t, record p { loop_index = (p.loop_index + 1) % 2 ^ 32 })

-- So many calls, and what they returned.
unfoldable pub next_loops : Pool → ℕ → Option (List ℕ × Pool)
next_loops p zero = some ([], p)
next_loops p (suc n) =
    get_next_loop p >>= λ (t, p'). next_loops p' n >>= λ (ts, p''). some (t ∷ ts, p'')
