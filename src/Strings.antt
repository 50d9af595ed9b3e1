-- ===== src/Strings.antt =====
-- src/utils/lssvc_string.cpp. A string is the list of its bytes.
pub mod Pieces
pub mod Ends
use lssvc.Common.{
  Bool, List, Option, [], drop, false, if◌then◌else◌, length, ltb, none, some, suc, take, true,
  zero, ℕ, ◌&&◌, ◌+◌, ◌-◌, ◌==◌, ◌>>=◌, ◌||◌, ◌∷◌,
}

-- `compare` of the first bytes of a string.
unfoldable pub has_prefix : List ℕ → List ℕ → Bool
has_prefix [] s = true
has_prefix (c ∷ sub) [] = false
has_prefix (c ∷ sub) (x ∷ s) = x == c && has_prefix sub s

unfoldable pub start_with : List ℕ → List ℕ → Bool
start_with [] sub = false
start_with s [] = true
start_with s sub = if ltb (length s) (length sub) then false else has_prefix sub s

unfoldable pub ends_with : List ℕ → List ℕ → Bool
ends_with s [] = true
ends_with [] sub = false
ends_with s sub =
    if ltb (length s) (length sub) then false else has_prefix sub (drop (length s - length sub) s)

-- `find`: the place of the first occurrence.
unfoldable pub find : List ℕ → List ℕ → Option ℕ
find delim [] = if has_prefix delim [] then some 0 else none
find delim (x ∷ s) =
    let further = find delim s >>= λ n. some (suc n) in
    if has_prefix delim (x ∷ s) then some 0 else further

-- One round of the loop of `split`, with the rounds from the next `last` on.
unfoldable pub split_round :
    List ℕ → List ℕ → Bool → (List ℕ → Option (List (List ℕ))) → Option ℕ → Option (List (List ℕ))
split_round s delim accept_empty more none =
    some (if ltb 0 (length s) || accept_empty then s ∷ [] else [])
split_round s delim accept_empty more (some next) = more (drop (next + length delim) s) >>= λ v.
    some ((if ltb 0 next || accept_empty then take next s else []) ∷ v)

-- The loop, from `last` on.
unfoldable pub split_from : ℕ → List ℕ → Bool → List ℕ → Option (List (List ℕ))
split_from zero delim accept_empty s = none
split_from (suc fuel) delim accept_empty s =
    split_round s delim accept_empty (split_from fuel delim accept_empty) (find delim s)

unfoldable pub split : List ℕ → List ℕ → Bool → Option (List (List ℕ))
split s [] accept_empty = some []
split s delim accept_empty = split_from (suc (length s)) delim accept_empty s
