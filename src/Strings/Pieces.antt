-- ===== src/Strings/Pieces.antt =====
-- `split` at one byte.
use lssvc.Common.{
  ==_self, All, Bool, List, [], ap, arith, drop, drop-append_length, drop-drop, false,
  if◌then◌else◌, length, length-append, ltb, lt→ltb, none, refl, some, suc, sym, take,
  take-append_length, true, zero, ℕ, ◌++◌, ◌+◌, ◌<◌, ◌==◌, ◌||◌, ◌∙◌, ◌∷◌, ◌≡◌, ◌≤◌,
}
use lssvc.Strings.{find, has_prefix, split, split_from, split_round}

abbrev pub Avoids : ℕ → List ℕ → Type 0
Avoids c p = All (λ x. (x == c) ≡ false) p

-- Pieces with the byte behind each, and what follows the last byte.
unfoldable pub text : ℕ → List (List ℕ) → List ℕ → List ℕ
text c [] last = last
text c (p ∷ ps) last = p ++ (c ∷ text c ps last)

pub find-piece :
    (c : ℕ) (p rest : List ℕ) → Avoids c p → find (c ∷ []) (p ++ (c ∷ rest)) ≡ some (length p)
unfolding find has_prefix
find-piece c [] rest avoids = rw (==_self c) refl
find-piece c (x ∷ p) rest (other, avoids) = simp (other, find-piece c p rest avoids) refl

pub find-last : (c : ℕ) (p : List ℕ) → Avoids c p → find (c ∷ []) p ≡ none
unfolding find has_prefix
find-last c [] avoids = refl
find-last c (x ∷ p) (other, avoids) = simp (other, find-last c p avoids) refl

length-text : (c : ℕ) (ps : List (List ℕ)) (last : List ℕ) → length ps ≤ length (text c ps last)
unfolding text
length-text c [] last = omega arith
length-text c (p ∷ ps) last =
    omega (arith, length-text c ps last, length-append p (c ∷ text c ps last))

take_piece :
    (p rest : List ℕ) → (if ltb 0 (length p) || false then take (length p) (p ++ rest) else []) ≡ p
take_piece [] rest = refl
take_piece (x ∷ p) rest =
    rw (lt→ltb 0 (length (x ∷ p)) (omega arith)) (take-append_length (x ∷ p) rest)

pub drop_piece : (c : ℕ) (p rest : List ℕ) → drop (length p + 1) (p ++ (c ∷ rest)) ≡ rest
drop_piece c p rest =
    sym (drop-drop 1 (length p) (p ++ (c ∷ rest))) ∙ ap (drop 1) (drop-append_length p (c ∷ rest))

or_false : (b : Bool) → (b || false) ≡ b
or_false true = refl
or_false false = refl

split_from-text :
    (fuel c : ℕ) (ps : List (List ℕ)) (last : List ℕ)
    → length ps < fuel
    → All (Avoids c) ps
    → Avoids c last
    → split_from fuel (c ∷ []) false (text c ps last)
      ≡ some (ps ++ (if ltb 0 (length last) || false then last ∷ [] else []))
unfolding split_from split_round text
split_from-text zero c ps last enough all avoids = absurd (omega (arith, enough))
split_from-text (suc fuel) c [] last enough all avoids = simp (find-last c last avoids) refl
split_from-text (suc fuel) c (p ∷ ps) last enough (first, all) avoids =
    simp
      (
        find-piece c p (text c ps last) first,
        drop_piece c p (text c ps last),
        split_from-text fuel c ps last (omega (arith, enough)) all avoids,
        take_piece p (c ∷ text c ps last),
      )
      refl

-- A string is split into the pieces that it was put together from, the empty ones among them, where
-- none of them has the separating byte. Only an empty piece at the end is lost.
pub split-text :
    (c : ℕ) (ps : List (List ℕ)) (last : List ℕ)
    → All (Avoids c) ps
    → Avoids c last
    → split (text c ps last) (c ∷ []) false
      ≡ some (ps ++ (if ltb 0 (length last) then last ∷ [] else []))
unfolding split
split-text c ps last all avoids =
    split_from-text (suc (length (text c ps last))) c ps last (omega (arith, length-text c ps last))
      all avoids
    ∙ ap (λ b. some (ps ++ (if b then last ∷ [] else []))) (or_false (ltb 0 (length last)))
