-- ===== src/Double/Whole.antt =====
-- Whole numbers, through a double and back.
use native.Mathlib.Nat.{
  add-mul, mul-div_cancel, mul-lt-mul_of_pos_right, one-le-pow, pow-le-pow_right, two-pow-succ,
}
use lssvc.Bytes.{write_uint32}
use lssvc.Bytes.Codec.{read_uint32-write}
use lssvc.Common.{
  Bool-cases, List, ap, arith, false, ge→ltb, if◌then◌else◌, inl, inr, leb, leb→le, ltb, ltb→lt,
  lt→ltb, refl, some, suc, sym, true, zero, ℕ, ◌%◌, ◌*◌, ◌++◌, ◌+◌, ◌-◌, ◌/◌, ◌<◌, ◌^◌, ◌∙◌, ◌≡◌,
  ◌≤◌,
}
use lssvc.Double.{double, log2, read_uint64, to_uint64, write_number}

at_least : (n : ℕ) → ltb n 2 ≡ false → 2 ≤ n
at_least n e = ground arith

log2-bounds :
    (fuel n : ℕ)
    → 0 < n
    → n < 2 ^ fuel
    → (2 ^ log2 fuel n ≤ n) × (n < 2 ^ log2 fuel n + 2 ^ log2 fuel n) × (log2 fuel n < fuel)
unfolding log2
log2-bounds zero n pos small = absurd (omega (arith, pos, small))
log2-bounds (suc fuel) n pos small = elim (Bool-cases (ltb n 2)) [
  | inl e ↦ rw e (omega (arith, pos, ltb→lt n 2 e), omega (arith, pos, ltb→lt n 2 e), omega arith)
  | inr e ↦
      let more = at_least n e in
      let (low, high, few) =
        log2-bounds fuel (n / 2) (omega (arith, more)) (omega (arith, small, two-pow-succ fuel)) in
      rw e (
        omega (arith, low, two-pow-succ (log2 fuel (n / 2))),
        omega (arith, high, two-pow-succ (log2 fuel (n / 2))),
        omega (arith, few),
      )
]

split_power : (k j : ℕ) → 2 ^ k * 2 ^ j ≡ 2 ^ (k + j)
split_power zero j = omega (arith, ap (λ x. 2 ^ x) (same j))
  where
    same : (j : ℕ) → j ≡ zero + j
    same j = omega arith
split_power (suc k) j =
    ap (λ x. x * 2 ^ j) (two-pow-succ k)
    ∙ add-mul (2 ^ k) (2 ^ k) (2 ^ j)
    ∙ ap (λ x. x + x) (split_power k j)
    ∙ sym (two-pow-succ (k + j))
    ∙ ap (λ x. 2 ^ x) (same k j)
  where
    same : (k j : ℕ) → suc (k + j) ≡ suc k + j
    same k j = omega arith

-- A number between two powers, with its leading bit moved to 2^52.
scaled :
    (n k : ℕ)
    → k ≤ 52
    → 2 ^ k ≤ n
    → n < 2 ^ k + 2 ^ k
    → (2 ^ 52 + (n - 2 ^ k) * 2 ^ (52 - k) ≡ n * 2 ^ (52 - k))
      × ((n - 2 ^ k) * 2 ^ (52 - k) < 2 ^ 52)
scaled n k small low high = (
  omega (arith, whole, parts),
  omega (
    arith,
    whole,
    mul-lt-mul_of_pos_right {m = n - 2 ^ k} {n = 2 ^ k} {k = 2 ^ (52 - k)}
        (omega (arith, high, low)) (omega (arith, one-le-pow (52 - k) 2 (omega arith))),
  ),
)
  where
    whole : 2 ^ k * 2 ^ (52 - k) ≡ 2 ^ 52
    whole = split_power k (52 - k) ∙ ap (λ x. 2 ^ x) (back k small)
      where
        back : (k : ℕ) → k ≤ 52 → k + (52 - k) ≡ 52
        back k small = omega (arith, small)

    parts : n * 2 ^ (52 - k) ≡ 2 ^ k * 2 ^ (52 - k) + (n - 2 ^ k) * 2 ^ (52 - k)
    parts = ap (λ x. x * 2 ^ (52 - k)) (sum n low) ∙ add-mul (2 ^ k) (n - 2 ^ k) (2 ^ (52 - k))
      where
        sum : (n : ℕ) → 2 ^ k ≤ n → n ≡ 2 ^ k + (n - 2 ^ k)
        sum n low = omega (arith, low)

shifted :
    (n k : ℕ)
    → k ≤ 52
    → some (
        if leb 1075 (1023 + k)
        then n * 2 ^ (52 - k) * 2 ^ (1023 + k - 1075)
        else n * 2 ^ (52 - k) / 2 ^ (1075 - (1023 + k)))
      ≡ some n
shifted n k small = elim (Bool-cases (leb 1075 (1023 + k))) [
  | inl e ↦ rw (e, none_left e, none_over e) (ap some (one_times n))
  | inr e ↦
      rw (e, same_shift)
        (ap some (mul-div_cancel n (omega (arith, one-le-pow (52 - k) 2 (omega arith)))))
]
  where
    none_left : leb 1075 (1023 + k) ≡ true → 52 - k ≡ 0
    none_left e = omega (arith, leb→le 1075 (1023 + k) e)

    none_over : leb 1075 (1023 + k) ≡ true → 1023 + k - 1075 ≡ 0
    none_over e = omega (arith, small)

    same_shift : 1075 - (1023 + k) ≡ 52 - k
    same_shift = omega arith

    one_times : (n : ℕ) → n * 2 ^ 0 * 2 ^ 0 ≡ n
    one_times n = omega arith

-- What to_uint64 reads of a number that is put together like this.
from_parts :
    (n k f : ℕ)
    → k ≤ 52
    → 2 ^ 52 + f ≡ n * 2 ^ (52 - k)
    → f < 2 ^ 52
    → to_uint64 ((1023 + k) * 2 ^ 52 + f) ≡ some n
unfolding to_uint64
from_parts n k f small whole fits =
    simp
      (
        exponent,
        fraction,
        ge→ltb (1023 + k) 1023 (omega arith),
        lt→ltb ((1023 + k) * 2 ^ 52 + f) (2 ^ 63) (omega (arith, small, fits)),
        lt→ltb (1023 + k) 1087 (omega (arith, small)),
        whole,
      )
      (shifted n k small)
  where
    exponent : ((1023 + k) * 2 ^ 52 + f) / 2 ^ 52 % 2048 ≡ 1023 + k
    exponent = omega (arith, small, fits)

    fraction : ((1023 + k) * 2 ^ 52 + f) % 2 ^ 52 ≡ f
    fraction = omega (arith, fits)

gt_52 : (k : ℕ) → leb k 52 ≡ false → 53 ≤ k
gt_52 k e = ground arith

by_exponent :
    (m k : ℕ)
    → suc m < 2 ^ 53
    → 2 ^ k ≤ suc m
    → suc m < 2 ^ k + 2 ^ k
    → to_uint64 (
        (1023 + k) * 2 ^ 52
        + (if leb k 52 then (suc m - 2 ^ k) * 2 ^ (52 - k) else (suc m - 2 ^ k) / 2 ^ (k - 52)))
      ≡ some (suc m)
by_exponent m k small low high = elim (Bool-cases (leb k 52)) [
  | inl e ↦
      let (whole, fits) = scaled (suc m) k (leb→le k 52 e) low high in
      rw e (from_parts (suc m) k ((suc m - 2 ^ k) * 2 ^ (52 - k)) (leb→le k 52 e) whole fits)
  | inr e ↦ absurd (omega (arith, small, low, pow-le-pow_right {n = 2} (omega arith) (gt_52 k e)))
]

-- A whole number below 2^53 is exact in a double, and what reads the double cuts nothing off.
pub to_uint64-double : (n : ℕ) → n < 2 ^ 53 → to_uint64 (double n) ≡ some n
unfolding double to_uint64
to_uint64-double zero small = refl
to_uint64-double (suc m) small =
    let (low, high, few) = log2-bounds 64 (suc m) (omega arith) (omega (arith, small)) in
    by_exponent m (log2 64 (suc m)) small low high

double-small : (n : ℕ) → n < 2 ^ 53 → double n < 2 ^ 64
unfolding double
double-small zero small = omega arith
double-small (suc m) small =
    let (low, high, few) = log2-bounds 64 (suc m) (omega arith) (omega (arith, small)) in
    by_size m (log2 64 (suc m)) low high few small
  where
    by_size :
        (m k : ℕ)
        → 2 ^ k ≤ suc m
        → suc m < 2 ^ k + 2 ^ k
        → k < 64
        → suc m < 2 ^ 53
        → (1023 + k) * 2 ^ 52
            + (if leb k 52 then (suc m - 2 ^ k) * 2 ^ (52 - k) else (suc m - 2 ^ k) / 2 ^ (k - 52))
          < 2 ^ 64
    by_size m k low high few small = elim (Bool-cases (leb k 52)) [
      | inl e ↦ rw e (omega (arith, leb→le k 52 e, scaled (suc m) k (leb→le k 52 e) low high))
      | inr e ↦
          absurd (omega (arith, small, low, pow-le-pow_right {n = 2} (omega arith) (gt_52 k e)))
    ]

pub read_uint64-write_number :
    (bits : ℕ) (rest : List ℕ)
    → bits < 2 ^ 64
    → read_uint64 (write_number bits ++ rest) ≡ to_uint64 bits
unfolding read_uint64 write_number write_uint32
read_uint64-write_number bits rest small =
    simp
      (
        read_uint32-write (bits / 2 ^ 32) (write_uint32 (bits % 2 ^ 32) ++ rest)
            (omega (arith, small)),
        read_uint32-write (bits % 2 ^ 32) rest (omega arith),
      )
      (ap to_uint64 (split_word bits))
  where
    split_word : (bits : ℕ) → bits / 2 ^ 32 * 2 ^ 32 + bits % 2 ^ 32 ≡ bits
    split_word bits = omega arith

-- A whole number below 2^53, written as a double, is read back, and what follows does not matter.
pub read_uint64-write_double :
    (n : ℕ) (rest : List ℕ) → n < 2 ^ 53 → read_uint64 (write_number (double n) ++ rest) ≡ some n
read_uint64-write_double n rest small =
    read_uint64-write_number (double n) rest (double-small n small) ∙ to_uint64-double n small
