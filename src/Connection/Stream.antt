-- ===== src/Connection/Stream.antt =====
-- The bytes of a list of buffers, and what is left of them after a write.
use lssvc.Common.{
  Bool-cases, List, [], ap, arith, drop, drop-append_le, inl, inr, length, length-append, ltb, refl,
  some, suc, sym, zero, ℕ, ◌++◌, ◌+◌, ◌-◌, ◌∙◌, ◌∷◌, ◌≡◌, ◌≤◌,
}
use lssvc.Connection.{advance, bytes}
use mathlib.Core.List.{append_assoc}

pub bytes-append : (vs ws : List (List ℕ)) → bytes (vs ++ ws) ≡ bytes vs ++ bytes ws
unfolding bytes
bytes-append [] ws = refl
bytes-append (v ∷ vs) ws =
    ap (◌++◌ v) (bytes-append vs ws) ∙ sym (append_assoc v (bytes vs) (bytes ws))

pub length-bytes :
    (v : List ℕ) (vs : List (List ℕ)) → length (bytes (v ∷ vs)) ≡ length v + length (bytes vs)
unfolding bytes
length-bytes v vs = length-append v (bytes vs)

drop-append_gt {ℓ} :
    {A : Type ℓ} (n : ℕ) (xs ys : List A)
    → length xs ≤ n
    → drop n (xs ++ ys) ≡ drop (n - length xs) ys
drop-append_gt n [] ys h = ap (λ k. drop k ys) (omega arith)
drop-append_gt zero (x ∷ xs) ys h = absurd (omega arith)
drop-append_gt (suc n) (x ∷ xs) ys h =
    drop-append_gt n xs ys (omega arith) ∙ ap (λ k. drop k ys) (omega arith)

-- A count that the buffers hold leaves just the bytes behind it.
pub advance_lem :
    (n : ℕ) (vs : List (List ℕ))
    → n ≤ length (bytes vs)
    → (ws : List (List ℕ)) × (advance n vs ≡ some ws) × (bytes ws ≡ drop n (bytes vs))
unfolding advance bytes
advance_lem zero vs h = (vs, refl, refl)
advance_lem (suc n) [] h = absurd (omega (arith, h))
advance_lem (suc n) (v ∷ vs) h = elim (Bool-cases (ltb (suc n) (length v))) [
  | inl inside ↦ (
    drop (suc n) v ∷ vs,
    rw inside refl,
    sym (drop-append_le (suc n) v (bytes vs) (ground arith)),
  )
  | inr past ↦
      let less : length v ≤ suc n = ground arith in
      let (ws, e, left) = advance_lem (suc n - length v) vs (room less h) in
      (ws, rw past e, left ∙ sym (drop-append_gt (suc n) v (bytes vs) less))
]
  where
    room : length v ≤ suc n → suc n ≤ length (bytes (v ∷ vs)) → suc n - length v ≤ length (bytes vs)
    room less h = omega (arith, less, h, length-bytes v vs)
