-- ===== src/Strings/Ends.antt =====
-- `split` comes to an end on every text.
use lssvc.Strings.{find, has_prefix, split, split_from, split_round}
use lssvc.Common.{
  Bool, List, Option, [], arith, drop, if◌then◌else◌, length, length-drop, ltb, none, refl, some,
  suc, take, zero, ℕ, ◌+◌, ◌<◌, ◌||◌, ◌∷◌, ◌≡◌,
}

-- An empty text holds no separator.
find-some : (c : ℕ) (delim s : List ℕ) (n : ℕ) → find (c ∷ delim) s ≡ some n → 0 < length s
unfolding find has_prefix
find-some c delim [] n e = cc
find-some c delim (x ∷ s) n e = omega arith

split_round-ends :
    (s delim : List ℕ) (accept_empty : Bool) (more : List ℕ → Option (List (List ℕ))) (o : Option ℕ)
    → ((n : ℕ) → o ≡ some n → (v : List (List ℕ)) × (more (drop (n + length delim) s) ≡ some v))
    → (v : List (List ℕ)) × (split_round s delim accept_empty more o ≡ some v)
unfolding split_round
split_round-ends s delim accept_empty more none ih =
    ((if ltb 0 (length s) || accept_empty then s ∷ [] else []), refl)
split_round-ends s delim accept_empty more (some n) ih =
    let (v, e) = ih n refl in ((if ltb 0 n || accept_empty then take n s else []) ∷ v, rw e refl)

split_from-ends :
    (fuel c : ℕ) (delim : List ℕ) (accept_empty : Bool) (s : List ℕ)
    → length s < fuel
    → (v : List (List ℕ)) × (split_from fuel (c ∷ delim) accept_empty s ≡ some v)
unfolding split_from
split_from-ends zero c delim accept_empty s enough = absurd (omega (arith, enough))
split_from-ends (suc fuel) c delim accept_empty s enough =
    split_round-ends s (c ∷ delim) accept_empty (split_from fuel (c ∷ delim) accept_empty)
      (find (c ∷ delim) s)
      (λ n e.
        split_from-ends fuel c delim accept_empty (drop (n + length (c ∷ delim)) s)
          (omega (arith, enough, find-some c delim s n e, length-drop (n + length (c ∷ delim)) s)))

-- A separator that is not empty splits every text into pieces.
pub split-ends :
    (s : List ℕ) (c : ℕ) (delim : List ℕ) (accept_empty : Bool)
    → (v : List (List ℕ)) × (split s (c ∷ delim) accept_empty ≡ some v)
unfolding split
split-ends s c delim accept_empty =
    split_from-ends (suc (length s)) c delim accept_empty s (omega arith)
