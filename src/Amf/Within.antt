-- ===== src/Amf/Within.antt =====
-- What the decoders of the single types leave of the bytes.
use lssvc.Common.{
  Bool, List, Option, [], arith, drop, false, if◌then◌else◌, leb, length, length-drop, ltb, none,
  refl, some, suc, take, true, ℕ, ◌+◌, ◌<◌, ◌∷◌, ◌≡◌, ◌≤◌,
}
use lssvc.Amf.{
  Decoded, Properties, Value, and_then, as_object, as_value, date, decode_boolean, decode_date,
  decode_name, decode_number, decode_string, decode_text, failed, given, parsed, undefined,
  unfinished, unless_empty,
}
use lssvc.Bytes.{read_uint16, read_uint32}
use lssvc.Double.{read_uint64}

-- An answer with less than `n` bytes left.
unfoldable pub IsWithin {ℓ} : {A : Type ℓ} → ℕ → Decoded A → Type 0
IsWithin n (parsed a rest) = length rest < n
IsWithin n failed = Unit {0}
IsWithin n undefined = Unit {0}
IsWithin n unfinished = ⊥

pub and_then-IsWithin {ℓ ℓ'} :
    {A : Type ℓ} {B : Type ℓ'} {n : ℕ} (m : ℕ) (d : Decoded A) (f : A → List ℕ → Decoded B)
    → IsWithin n d
    → ((a : A) (rest : List ℕ) → length rest < n → IsWithin m (f a rest))
    → IsWithin m (and_then d f)
unfolding and_then IsWithin
and_then-IsWithin m (parsed a rest) f within next = next a rest within
and_then-IsWithin m failed f within next = tt
and_then-IsWithin m undefined f within next = tt
and_then-IsWithin m unfinished f within next = absurd within

pub IsWithin-if {ℓ} :
    {A : Type ℓ} (n : ℕ) (b : Bool) (d d' : Decoded A)
    → (b ≡ true → IsWithin n d)
    → (b ≡ false → IsWithin n d')
    → IsWithin n (if b then d else d')
IsWithin-if n true d d' on_true on_false = on_true refl
IsWithin-if n false d d' on_true on_false = on_false refl

pub IsWithin-weaken {ℓ} :
    {A : Type ℓ} (n m : ℕ) (d : Decoded A) → n ≤ m → IsWithin n d → IsWithin m d
unfolding IsWithin
IsWithin-weaken n m (parsed a rest) le within = omega (arith, le, within)
IsWithin-weaken n m failed le within = tt
IsWithin-weaken n m undefined le within = tt
IsWithin-weaken n m unfinished le within = within

read_uint16-long : (xs : List ℕ) {n : ℕ} → read_uint16 xs ≡ some n → 2 ≤ length xs
unfolding read_uint16
read_uint16-long (a ∷ b ∷ xs) e = omega arith
read_uint16-long (a ∷ []) e = cc
read_uint16-long [] e = cc

read_uint32-long : (xs : List ℕ) {n : ℕ} → read_uint32 xs ≡ some n → 4 ≤ length xs
unfolding read_uint32
read_uint32-long (a ∷ b ∷ c ∷ d ∷ xs) e = omega arith
read_uint32-long (a ∷ b ∷ c ∷ []) e = cc
read_uint32-long (a ∷ b ∷ []) e = cc
read_uint32-long (a ∷ []) e = cc
read_uint32-long [] e = cc

pub given-IsWithin {ℓ ℓ'} :
    {A : Type ℓ} {B : Type ℓ'} (n : ℕ) (d : Decoded B) (o : Option A) (f : A → Decoded B)
    → IsWithin n d
    → ((a : A) → o ≡ some a → IsWithin n (f a))
    → IsWithin n (given d o f)
unfolding given
given-IsWithin n d none f on_none on_some = on_none
given-IsWithin n d (some a) f on_none on_some = on_some a refl

decode_string-IsWithin : (xs : List ℕ) → IsWithin (length xs) (decode_string xs)
unfolding decode_string IsWithin
decode_string-IsWithin xs = given-IsWithin (length xs) undefined (read_uint16 xs) _ tt (λ len e.
    IsWithin-if (length xs) (leb (2 + len) (length xs))
      (parsed (take len (drop 2 xs)) (drop (2 + len) xs)) undefined
      (λ l. omega (arith, read_uint16-long xs e, length-drop (2 + len) xs)) (λ _. tt))

unless_empty-IsWithin :
    (xs name rest : List ℕ)
    → length rest < length xs
    → IsWithin (suc (length xs)) (unless_empty xs name rest)
unfolding unless_empty IsWithin
unless_empty-IsWithin xs [] rest l = omega arith
unless_empty-IsWithin xs (c ∷ cs) rest l = omega (arith, l)

pub decode_name-IsWithin :
    (has : Bool) (xs : List ℕ) → IsWithin (suc (length xs)) (decode_name has xs)
unfolding decode_name IsWithin
decode_name-IsWithin false xs = omega arith
decode_name-IsWithin true xs =
    and_then-IsWithin (suc (length xs)) (decode_string xs) (unless_empty xs)
      (decode_string-IsWithin xs) (unless_empty-IsWithin xs)

pub decode_number-IsWithin : (xs : List ℕ) → IsWithin (suc (length xs)) (decode_number xs)
unfolding decode_number IsWithin
decode_number-IsWithin xs =
    IsWithin-if (suc (length xs)) (leb 8 (length xs)) _ _
      (λ l.
        given-IsWithin (suc (length xs)) undefined (read_uint64 xs) _ tt
          (λ n _. omega (arith, length-drop 8 xs)))
      (λ _. tt)

pub decode_boolean-IsWithin : (xs : List ℕ) → IsWithin (suc (length xs)) (decode_boolean xs)
unfolding decode_boolean IsWithin
decode_boolean-IsWithin [] = tt
decode_boolean-IsWithin (x ∷ xs) = omega arith

pub decode_text-IsWithin :
    (wrap : List ℕ → Value) (xs : List ℕ) → IsWithin (suc (length xs)) (decode_text wrap xs)
unfolding decode_text IsWithin
decode_text-IsWithin wrap xs =
    given-IsWithin (suc (length xs)) failed (read_uint16 xs) _ tt (λ len _.
      IsWithin-if (suc (length xs)) (ltb (length xs) (len + 2)) failed _ (λ _. tt)
        (λ _.
          and_then-IsWithin (suc (length xs)) (decode_string xs) (λ s rest. parsed (wrap s) rest)
            (decode_string-IsWithin xs) (λ s rest l. omega (arith, l))))

pub decode_date-IsWithin : (xs : List ℕ) → IsWithin (suc (length xs)) (decode_date xs)
unfolding decode_date IsWithin
decode_date-IsWithin xs =
    IsWithin-if (suc (length xs)) (ltb (length xs) 10) failed _ (λ _. tt)
      (λ _. given-IsWithin (suc (length xs)) undefined (read_uint64 xs) _ tt (λ utc _.
        given-IsWithin (suc (length xs)) undefined (read_uint16 (drop 8 xs))
          (λ offset. parsed (date utc offset) (drop 10 xs)) tt
          (λ offset _. omega (arith, length-drop 10 xs))))

pub as_value-IsWithin : (n : ℕ) (d : Decoded Value) → IsWithin n d → IsWithin n (as_value d)
unfolding IsWithin
as_value-IsWithin n d within = and_then-IsWithin n d _ within (λ v rest l. l)

pub as_object-IsWithin : (n : ℕ) (d : Decoded Properties) → IsWithin n d → IsWithin n (as_object d)
unfolding IsWithin
as_object-IsWithin n d within = and_then-IsWithin n d _ within (λ ps rest l. l)
