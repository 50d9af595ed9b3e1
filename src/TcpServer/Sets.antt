-- ===== src/TcpServer/Sets.antt =====
-- The set of connections, and what was counted.
use lssvc.Common.{
  Bool, Bool-cases, List, Option, [], ap, arith, false, if◌then◌else◌, inl, inr, none, refl, some,
  sym, true, ℕ, ◌++◌, ◌+◌, ◌<◌, ◌==◌, ◌∙◌, ◌∷◌, ◌≡◌, ◌≢◌,
}
use lssvc.TimingWheel.Slots.{In}
use lssvc.EventLoop.{Event, put}
use lssvc.EventLoop.Agreement.{interest, same_number}
use lssvc.TcpServer.{erase}

unfoldable pub count : ℕ → List ℕ → ℕ
count h [] = 0
count h (c ∷ cs) = (if c == h then 1 else 0) + count h cs

pub count-snoc :
    (h c : ℕ) (cs : List ℕ) → count h (cs ++ (c ∷ [])) ≡ count h cs + (if c == h then 1 else 0)
unfolding count
count-snoc h c [] = ground arith
count-snoc h c (d ∷ cs) = omega (arith, count-snoc h c cs)

-- One more element, by whether it is the one that is erased.
In-kept :
    (g h c : ℕ) (cs cs' : List ℕ) (b : Bool)
    → (c == h) ≡ b
    → (In g cs' → In g cs × ((g == h) ≡ false))
    → In g (if b then cs' else c ∷ cs')
    → In g (c ∷ cs) × ((g == h) ≡ false)
In-kept g h c cs cs' true is rest i = let (there, other) = rest i in (inr there, other)
In-kept g h c cs cs' false is rest (inl e) = (inl e, ap (λ (x : ℕ). x == h) e ∙ is)
In-kept g h c cs cs' false is rest (inr i) = let (there, other) = rest i in (inr there, other)

pub In-erase : (g h : ℕ) (cs : List ℕ) → In g (erase h cs) → In g cs × ((g == h) ≡ false)
unfolding erase
In-erase g h [] i = absurd i
In-erase g h (c ∷ cs) i = In-kept g h c cs (erase h cs) (c == h) refl (In-erase g h cs) i

kept-In :
    (g h c : ℕ) (cs cs' : List ℕ) (b : Bool)
    → (c == h) ≡ b
    → (g == h) ≡ false
    → (In g cs → In g cs')
    → In g (c ∷ cs)
    → In g (if b then cs' else c ∷ cs')
kept-In g h c cs cs' true is other rest (inl e) =
    let bad : true ≡ false = sym is ∙ ap (λ (x : ℕ). x == h) (sym e) ∙ other in cc
kept-In g h c cs cs' true is other rest (inr i) = rest i
kept-In g h c cs cs' false is other rest (inl e) = inl e
kept-In g h c cs cs' false is other rest (inr i) = inr (rest i)

pub erase-In : (g h : ℕ) (cs : List ℕ) → (g == h) ≡ false → In g cs → In g (erase h cs)
unfolding erase
erase-In g h [] other i = i
erase-In g h (c ∷ cs) other i =
    kept-In g h c cs (erase h cs) (c == h) refl other (erase-In g h cs other) i

pub put_at : {A : Type 0} (f : ℕ → A) (i j : ℕ) (v : A) → (j == i) ≡ true → put f i v j ≡ v
put_at f i j v is = rw is

pub put_off : {A : Type 0} (f : ℕ → A) (i j : ℕ) (v : A) → (j == i) ≡ false → put f i v j ≡ f j
put_off f i j v other = rw other

pub lt→== : (a b : ℕ) → a < b → (a == b) ≡ false
lt→== a b less = ground (arith, less)

pub unequal : (a b : ℕ) → (a == b) ≡ false → a ≢ b
unequal a b other = ground (arith, other)

-- The connection that is closed counts one more.
pub counted :
    (closed : ℕ → Bool) (g h : ℕ)
    → closed h ≡ false
    → (if closed g then 1 else 0) + (if h == g then 1 else 0)
      ≡ (if put closed h true g then 1 else 0)
counted closed g h fresh = elim (Bool-cases (g == h)) [
  | inl same ↦
      let shut : closed g ≡ false = ap closed (same_number g h same) ∙ fresh in
      let turned : (h == g) ≡ true = ground (arith, same) in rw (shut, turned, same) refl
  | inr other ↦
      let turned : (h == g) ≡ false = ground (arith, other) in rw (turned, other) (omega arith)
]

pub interest-none : (objects : ℕ → Event) (o : Option ℕ) → interest objects o ≡ none → o ≡ none
unfolding interest
interest-none objects none e = refl
interest-none objects (some h) e = cc
