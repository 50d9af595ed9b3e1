-- ===== src/Common/Options.antt =====
-- Chains of steps that can fault: `none` is an access outside the memory, a failed `assert`, or
-- fuel that ran out.
use mathlib.Core.Path.{◌≡◌, refl, subst}
use mathlib.Core.Bool.{Bool, true, false}
use mathlib.Core.Option.{Option, none, some}
use lssvc.Common.Tests.{if◌then◌else◌}

infixl 5 ◌>>=◌ ◌>>◌
abbrev pub ◌>>=◌ {ℓ κ} : {A : Type ℓ} {B : Type κ} → Option A → (A → Option B) → Option B
none >>= f = none
some a >>= f = f a

abbrev pub ◌>>◌ {ℓ} : {B : Type ℓ} → Option (Unit {0}) → Option B → Option B
m >> k = m >>= λ _. k

-- `assert`: the program aborts where the test fails.
abbrev pub assert : Bool → Option (Unit {0})
assert true = some tt
assert false = none

pub >>=-eq-some {ℓ κ} :
    {A : Type ℓ} {B : Type κ} (m : Option A) (f : A → Option B) {b : B}
    → (m >>= f) ≡ some b
    → (a : A) × (m ≡ some a) × (f a ≡ some b)
>>=-eq-some none f h = cc
>>=-eq-some (some a) f h = (a, refl, h)

pub >>=-some {ℓ κ} :
    {A : Type ℓ} {B : Type κ} {m : Option A} {a : A} (f : A → Option B)
    → m ≡ some a
    → (m >>= f) ≡ f a
>>=-some f e = rw e

-- What every result of a step satisfies, if there is one.
abbrev pub Ensures {ℓ κ} : {A : Type ℓ} → (A → Type κ) → Option A → Type (ℓ ⊔ κ)
Ensures {A} P o = (a : A) → o ≡ some a → P a

pub some_eq {ℓ} : {A : Type ℓ} (a b : A) → some a ≡ some b → a ≡ b
some_eq a b e = cc

module _ {ℓ κ} {A : Type ℓ} (P : A → Type κ) where
  pub Ensures-none : Ensures P none
  Ensures-none a e = cc

  pub Ensures-some : {a : A} → P a → Ensures P (some a)
  Ensures-some {a} h b e = subst P (some_eq a b e) h

pub Ensures-bind {ℓ κ ℓ' κ'} :
    {A : Type ℓ} {B : Type ℓ'} (Q : A → Type κ) (P : B → Type κ') (m : Option A) (f : A → Option B)
    → Ensures Q m
    → ((a : A) → Q a → Ensures P (f a))
    → Ensures P (m >>= f)
Ensures-bind Q P none f hm hf b e = cc
Ensures-bind Q P (some a) f hm hf b e = hf a (hm a refl) b e

pub Ensures-if {ℓ κ} :
    {A : Type ℓ} (P : A → Type κ) (b : Bool) {o o' : Option A}
    → Ensures P o
    → Ensures P o'
    → Ensures P (if b then o else o')
Ensures-if P true h h' = h
Ensures-if P false h h' = h'

pub bind_none {ℓ κ} :
    {A : Type ℓ} {B : Type κ} (m : Option A) (f : A → Option B)
    → ((a : A) → f a ≡ none)
    → (m >>= f) ≡ none
bind_none none f h = refl
bind_none (some a) f h = h a
