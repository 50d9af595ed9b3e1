-- ===== src/Address/Decimal.antt =====
-- Numbers in decimal: `std::to_string` and `atoi`.
use mathlib.Core.List.{append-nil, append_assoc}
use lssvc.Strings.Pieces.{Avoids}
use lssvc.Address.{atoi_16, digits, digits_value, is_digit, is_space, signed_value, to_string}
use lssvc.Common.{
  All, All-append, Bool-cases, List, [], ap, arith, false, ge→ltb, inl, inr, length, length-append,
  ltb, ltb→lt, lt→ltb, refl, suc, sym, true, zero, ℕ, ◌%◌, ◌*◌, ◌++◌, ◌+◌, ◌/◌, ◌<◌, ◌==◌, ◌^◌, ◌∙◌,
  ◌∷◌, ◌≡◌, ◌≤◌,
}

unfoldable pub limit : ℕ → ℕ
limit zero = 1
limit (suc fuel) = 10 * limit fuel

digit_step :
    (acc d : ℕ) (xs : List ℕ)
    → d < 10
    → digits_value acc ((48 + d) ∷ xs) ≡ digits_value (acc * 10 + d) xs
unfolding digits_value
digit_step acc d xs small = rw seen (ap (λ (v : ℕ). digits_value (acc * 10 + v) xs) (omega arith))
  where
    seen : is_digit (48 + d) ≡ true
    seen = ground (arith, small)

digits-small : (fuel n : ℕ) → n < 10 → digits (suc fuel) n ≡ (48 + n) ∷ []
unfolding digits
digits-small fuel n h = rw (lt→ltb n 10 h) refl

digits-large :
    (fuel n : ℕ) → 10 ≤ n → digits (suc fuel) n ≡ digits fuel (n / 10) ++ ((48 + n % 10) ∷ [])
unfolding digits
digits-large fuel n h = rw (ge→ltb n 10 h) refl

-- The digits of a number are read back, whatever follows them.
pub digits_value-digits :
    (fuel n : ℕ) (xs : List ℕ)
    → n < limit (suc fuel)
    → digits_value 0 (digits (suc fuel) n ++ xs) ≡ digits_value n xs
unfolding limit
digits_value-digits zero n xs h =
    ap (λ (ds : List ℕ). digits_value 0 (ds ++ xs)) (digits-small zero n (omega (arith, h)))
    ∙ digit_step 0 n xs (omega (arith, h))
    ∙ ap (λ (v : ℕ). digits_value v xs) (omega arith)
digits_value-digits (suc fuel) n xs h = elim (Bool-cases (ltb n 10)) [
  | inl e ↦
      ap (λ (ds : List ℕ). digits_value 0 (ds ++ xs)) (digits-small (suc fuel) n (ltb→lt n 10 e))
      ∙ digit_step 0 n xs (ltb→lt n 10 e)
      ∙ ap (λ (v : ℕ). digits_value v xs) (omega arith)
  | inr e ↦
      ap (λ (ds : List ℕ). digits_value 0 (ds ++ xs)) (digits-large (suc fuel) n (ground arith))
      ∙ ap (digits_value 0) (append_assoc (digits (suc fuel) (n / 10)) ((48 + n % 10) ∷ []) xs)
      ∙ digits_value-digits fuel (n / 10) ((48 + n % 10) ∷ xs) (omega (arith, h))
      ∙ digit_step (n / 10) (n % 10) xs (omega arith)
      ∙ ap (λ (v : ℕ). digits_value v xs) (omega arith)
]

abbrev IsDigit : ℕ → Type 0
IsDigit x = is_digit x ≡ true

digits-AllDigits : (fuel n : ℕ) → All IsDigit (digits fuel n)
unfolding digits
digits-AllDigits zero n = tt
digits-AllDigits (suc fuel) n = elim (Bool-cases (ltb n 10)) [
  | inl e ↦ rw e (ground arith, tt)
  | inr e ↦ rw e (
      All-append IsDigit (digits fuel (n / 10)) _ (digits-AllDigits fuel (n / 10))
        (ground arith, tt))
]

digits-some : (fuel n : ℕ) → 0 < length (digits (suc fuel) n)
unfolding digits
digits-some fuel n = elim (Bool-cases (ltb n 10)) [
  | inl e ↦ rw e (omega arith)
  | inr e ↦ rw e (omega (arith, length-append (digits fuel (n / 10)) ((48 + n % 10) ∷ [])))
]

All-Avoids : (c : ℕ) (xs : List ℕ) → is_digit c ≡ false → All IsDigit xs → Avoids c xs
All-Avoids c [] other ds = tt
All-Avoids c (x ∷ xs) other (d, ds) = (ground (arith, other, d), All-Avoids c xs other ds)

-- Digits alone are taken as they are.
atoi_16-digits :
    (xs : List ℕ) → 0 < length xs → All IsDigit xs → atoi_16 xs ≡ digits_value 0 xs % 2 ^ 16
unfolding atoi_16 signed_value
atoi_16-digits [] some_digits ds = absurd (omega (arith, some_digits))
atoi_16-digits (c ∷ cs) some_digits (d, ds) = simp (no_space, no_minus, no_plus) refl
  where
    no_space : is_space c ≡ false
    no_space = ground (arith, d)

    no_minus : (c == 45) ≡ false
    no_minus = ground (arith, d)

    no_plus : (c == 43) ≡ false
    no_plus = ground (arith, d)

pub to_string-Avoids : (c n : ℕ) → is_digit c ≡ false → Avoids c (to_string n)
to_string-Avoids c n other = All-Avoids c (to_string n) other (digits-AllDigits 5 n)

pub to_string-some : (n : ℕ) → 0 < length (to_string n)
to_string-some n = digits-some 4 n

pub atoi_16-to_string : (n : ℕ) → n < 2 ^ 16 → atoi_16 (to_string n) ≡ n
unfolding limit digits_value
atoi_16-to_string n h =
    atoi_16-digits (to_string n) (to_string-some n) (digits-AllDigits 5 n)
    ∙ ap (λ (ds : List ℕ). digits_value 0 ds % 2 ^ 16) (sym (append-nil (to_string n)))
    ∙ ap (λ (v : ℕ). v % 2 ^ 16) (digits_value-digits 4 n [] (omega (arith, h)))
    ∙ omega (arith, h)
