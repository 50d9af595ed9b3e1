-- ===== src/ThreadPool/Turns.antt =====
-- Every loop has its turn.
use lssvc.ThreadPool.{Pool, get_next_loop, index_of, next_loops, numbers, thread_at}
use native.Mathlib.Nat.{add-mod_right, add-zero, mod-eq_of_lt, mod-lt}
use lssvc.Common.{
  >>=-some, List, Option, [], ap, arith, gt→leb, if◌then◌else◌, leb, length, ltb, lt→ltb, refl,
  some, suc, zero, ℕ, ◌%◌, ◌&&◌, ◌+◌, ◌<◌, ◌==◌, ◌>>=◌, ◌^◌, ◌∙◌, ◌∷◌, ◌≡◌, ◌≤◌,
}

thread_at-numbers : (i from n : ℕ) → i < n → thread_at i (numbers from n) ≡ some (from + i)
unfolding thread_at numbers
thread_at-numbers i from zero h = absurd (omega arith)
thread_at-numbers zero from (suc n) h = ap some (omega arith)
thread_at-numbers (suc i) from (suc n) h =
    thread_at-numbers i (suc from) n (omega arith) ∙ ap some (omega arith)

length-numbers : (from n : ℕ) → length (numbers from n) ≡ n
unfolding numbers
length-numbers from zero = refl
length-numbers from (suc n) = ap suc (length-numbers (suc from) n)

index_of_bounds : (i n : ℕ) → 0 < n → index_of i n < n
unfolding index_of
index_of_bounds i n h = mod-lt _ h

-- A pool with `n` threads at some index.
abbrev pub pool_of : ℕ → ℕ → Pool
pool_of n i = record { threads = numbers 0 n; loop_index = i }

get_next_loop-pool_of :
    (n i : ℕ)
    → 0 < n
    → get_next_loop (pool_of n i) ≡ some (index_of i n, pool_of n ((i + 1) % 2 ^ 32))
unfolding get_next_loop
get_next_loop-pool_of n i h =
    rw
      (
        length-numbers 0 n,
        lt→ltb 0 n h,
        thread_at-numbers (index_of i n) 0 n (index_of_bounds i n h),
      )
      (ap (λ (t : ℕ). some (t, pool_of n ((i + 1) % 2 ^ 32))) (omega arith))

-- What the calls from an index on return, where it does not wrap round.
unfoldable pub window : ℕ → ℕ → ℕ → List ℕ
window n i zero = []
window n i (suc k) = (i % n) ∷ window n (suc i) k

next_loops-window :
    (n i k : ℕ)
    → 0 < n
    → i + k ≤ 2 ^ 31
    → next_loops (pool_of n i) k ≡ some (window n i k, pool_of n (i + k))
unfolding next_loops window index_of
next_loops-window n i zero h small = ap (λ (j : ℕ). some ([], pool_of n j)) (omega arith)
next_loops-window n i (suc k) h small =
    >>=-some _ (get_next_loop-pool_of n i h)
    ∙ ap (λ (j : ℕ). next_loops (pool_of n j) k >>= λ (ts, p). some (index_of i n ∷ ts, p)) wraps
    ∙ >>=-some _ (next_loops-window n (suc i) k h (omega (arith, small)))
    ∙ both first (omega arith)
  where
    wraps : (i + 1) % 2 ^ 32 ≡ suc i
    wraps = omega (arith, small)

    first : index_of i n ≡ i % n
    first = rw (gt→leb (2 ^ 31) i (omega (arith, small))) refl

    answer : ℕ → ℕ → Option (List ℕ × Pool)
    answer x j = some (x ∷ window n (suc i) k, pool_of n j)

    both : {x y j l : ℕ} → x ≡ y → j ≡ l → answer x j ≡ answer y l
    both e e' = rw (e, e')

abbrev tick : ℕ → ℕ → ℕ
tick t x = if x == t then 1 else 0

-- How often a thread is among those returned.
unfoldable pub turns_of : ℕ → List ℕ → ℕ
turns_of t [] = 0
turns_of t (x ∷ xs) = (if x == t then 1 else 0) + turns_of t xs

-- The window moves on: what leaves it comes in again.
turns_of-snoc :
    (t n i k : ℕ)
    → turns_of t (window n i (suc k))
      ≡ turns_of t (window n i k) + (if ((i + k) % n) == t then 1 else 0)
unfolding turns_of window
turns_of-snoc t n i zero = rw (add-zero i) (omega arith)
turns_of-snoc t n i (suc k) =
    ap (λ (m : ℕ). (if (i % n) == t then 1 else 0) + m) (turns_of-snoc t n (suc i) k)
    ∙ rw same (omega arith)
  where
    same : suc i + k ≡ i + suc k
    same = omega arith

turns_of-shift : (t n i : ℕ) → turns_of t (window n (suc i) n) ≡ turns_of t (window n i n)
unfolding turns_of window
turns_of-shift t n i = omega (arith, turns_of-snoc t n i n, again)
  where
    again : tick t ((i + n) % n) ≡ tick t (i % n)
    again = rw (add-mod_right i n)

turns_of-start : (t n i : ℕ) → turns_of t (window n i n) ≡ turns_of t (window n 0 n)
turns_of-start t n zero = refl
turns_of-start t n (suc i) = turns_of-shift t n i ∙ turns_of-start t n i

turns_of-window :
    (t n j k : ℕ)
    → j + k ≤ n
    → turns_of t (window n j k) ≡ (if leb j t && ltb t (j + k) then 1 else 0)
unfolding turns_of window
turns_of-window t n j zero h = ground (arith, h)
turns_of-window t n j (suc k) h =
    rw
      (
        mod-eq_of_lt {n = j} {m = n} (omega (arith, h)),
        turns_of-window t n (suc j) k (omega (arith, h)),
      )
      (ground (arith, h))

-- From any index that does not pass 2^31 - 1 on the way, as many calls of getNextLoop as the pool
-- has threads all return a loop, and each of the threads has its turn exactly once.
pub next_loops-each_once :
    (n i : ℕ)
    → 0 < n
    → i + n ≤ 2 ^ 31
    → (ts : List ℕ) × (next_loops (pool_of n i) n ≡ some (ts, pool_of n (i + n)))
      × ((t : ℕ) → t < n → turns_of t ts ≡ 1)
next_loops-each_once n i h small = (
  window n i n,
  next_loops-window n i n h small,
  λ t less. turns_of-start t n i ∙ turns_of-window t n 0 n (omega arith) ∙ ground (arith, less),
)
