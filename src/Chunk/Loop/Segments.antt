-- ===== src/Chunk/Loop/Segments.antt =====
-- The loop of `parseMessage` over a stream that arrives in pieces.
use lssvc.Common.{
  ==_self, Bool-cases, List, Option, Option-cases, [], ap, arith, ge→ltb, inl, inr, length,
  length-append, ltb, ltb→lt, lt→ltb, none, refl, some, suc, sym, zero, ℕ, ◌++◌, ◌<◌, ◌∙◌, ◌∷◌, ◌≡◌,
  ◌≤◌,
}
use lssvc.Chunk.Receive.{
  Channel, Channels, Outcome, basic_header, read_chunk, set_channel, took, wait,
}
use lssvc.Chunk.Loop.{Inbound, Result, after_round, loop, message_complete, put_channel, take_round}
use lssvc.Chunk.Receive.Rounds.{Promise, round}
use lssvc.Chunk.{Packet}
use native.Mathlib.Nat.{le_refl}
use mathlib.Core.Path.{fun_ext}

-- The basic header is one to three bytes, and does not depend on what follows it.
basic_header_bounds :
    (xs : List ℕ) (fmt csid : ℕ) (rest : List ℕ)
    → basic_header xs ≡ some (fmt, csid, rest)
    → (fmt < 4) × (length rest < length xs)
unfolding basic_header
basic_header_bounds [] fmt csid rest e = cc
basic_header_bounds (b ∷ []) fmt csid rest e = ground arith
basic_header_bounds (b ∷ c ∷ []) fmt csid rest e = ground arith
basic_header_bounds (b ∷ c ∷ d ∷ xs) fmt csid rest e = ground arith

basic_header-append :
    (xs ys : List ℕ) (fmt csid : ℕ) (rest : List ℕ)
    → basic_header xs ≡ some (fmt, csid, rest)
    → basic_header (xs ++ ys) ≡ some (fmt, csid, rest ++ ys)
unfolding basic_header
basic_header-append [] ys fmt csid rest e = cc
basic_header-append (b ∷ []) ys fmt csid rest e = ground arith
basic_header-append (b ∷ c ∷ []) ys fmt csid rest e = ground arith
basic_header-append (b ∷ c ∷ d ∷ xs) ys fmt csid rest e = ground arith

pub channels_of :
    (s : Inbound) (csid : ℕ) (ch : Channel) → (put_channel s csid ch).channels csid ≡ ch
channels_of s csid ch = rw (==_self csid)

pub put_put :
    (s : Inbound) (csid : ℕ) (a b : Channel)
    → put_channel (put_channel s csid a) csid b ≡ put_channel s csid b
put_put s csid a b =
    ap (λ (chans : Channels). record s { channels = chans }) (fun_ext (λ k. over k))
  where
    over :
        (k : ℕ)
        → set_channel (set_channel s.channels csid a) csid b k ≡ set_channel s.channels csid b k
    over k = ground arith

-- One round of the loop, where there are two bytes at least.
pub loop_round :
    (f : ℕ) (s : Inbound) (xs : List ℕ)
    → 1 < length xs
    → loop (suc f) s xs ≡ take_round (loop f) s xs
unfolding loop
loop_round f s xs h = rw (lt→ltb _ _ h)

loop_stop : (f : ℕ) (s : Inbound) (xs : List ℕ) → length xs ≤ 1 → loop (suc f) s xs ≡ some (s, xs)
unfolding loop
loop_stop f s xs h = rw (ge→ltb _ _ h)

-- A round, by its outcome.
pub round_lem :
    (go : Inbound → List ℕ → Result) (s : Inbound) (xs : List ℕ) (fmt csid : ℕ) (rest : List ℕ)
    (o : Outcome)
    → basic_header xs ≡ some (fmt, csid, rest)
    → read_chunk s.in_chunk_size fmt csid (s.channels csid) rest ≡ some o
    → take_round go s xs ≡ after_round go s csid xs o
unfolding take_round
round_lem go s xs fmt csid rest o b e = rw (b, take_round) (rw e)

-- The rounds go on alike where what follows them does.
after_round_cong :
    (go go' : Inbound → List ℕ → Result) (s : Inbound) (csid : ℕ) (xs : List ℕ) (o : Outcome)
    (bound : ℕ)
    → ((c : Channel) (rest : List ℕ) (m : Option Packet) → o ≡ took c rest m → length rest < bound)
    → ((t : Inbound) (bytes : List ℕ) → length bytes < bound → go t bytes ≡ go' t bytes)
    → after_round go s csid xs o ≡ after_round go' s csid xs o
unfolding after_round
after_round_cong go go' s csid xs (wait ch) bound short same = refl
after_round_cong go go' s csid xs (took ch rest none) bound short same =
    same _ rest (short ch rest none refl)
after_round_cong go go' s csid xs (took ch rest (some p)) bound short same =
    same _ rest (short ch rest (some p) refl)

-- The rest of a chunk is shorter than the bytes before its basic header.
took-shorter :
    (n fmt csid : ℕ) (c : Channel) (rest : List ℕ) (o : Outcome) (bound : ℕ)
    → Promise n fmt csid c rest o
    → length rest < bound
    → (c' : Channel) (left : List ℕ) (m : Option Packet) → o ≡ took c' left m
    → length left < bound
took-shorter n fmt csid c rest (wait ch) bound p h c' left m e = cc
took-shorter n fmt csid c rest (took ch l m') bound p h c' left m e = ground arith

-- Two ways to go on after one and the same round.
same_round :
    (go go' : Inbound → List ℕ → Result) (s : Inbound) (xs : List ℕ)
    → ((t : Inbound) (bytes : List ℕ) → length bytes < length xs → go t bytes ≡ go' t bytes)
    → take_round go s xs ≡ take_round go' s xs
same_round go go' s xs same = elim (Option-cases (basic_header xs)) [
  | inl e ↦ unfold take_round in rw (e, take_round)
  | inr ((fmt, csid, rest), e) ↦
      let (small, less) = basic_header_bounds xs fmt csid rest e in
      let (o, r, p) = round s.in_chunk_size fmt csid (s.channels csid) rest small in
      round_lem go s xs fmt csid rest o e r
      ∙ after_round_cong go go' s csid xs o (length xs)
          (took-shorter s.in_chunk_size fmt csid (s.channels csid) rest o (length xs) p less) same
      ∙ sym (round_lem go' s xs fmt csid rest o e r)
]

-- More fuel than bytes is enough fuel, and gives one result.
pub loop_fuel :
    (f g : ℕ) (s : Inbound) (xs : List ℕ)
    → length xs < f
    → length xs < g
    → loop f s xs ≡ loop g s xs
loop_fuel zero g s xs hf hg = absurd (omega arith)
loop_fuel (suc f) zero s xs hf hg = absurd (omega arith)
loop_fuel (suc f) (suc g) s xs hf hg = elim (Bool-cases (ltb 1 (length xs))) [
  | inr few ↦ loop_stop f s xs (ground arith) ∙ sym (loop_stop g s xs (ground arith))
  | inl two ↦
      loop_round f s xs (ltb→lt _ _ two)
      ∙ same_round (loop f) (loop g) s xs
          (λ t bytes h. loop_fuel f g t bytes (omega (arith, h, hf)) (omega (arith, h, hg)))
      ∙ sym (loop_round g s xs (ltb→lt _ _ two))
]

-- The loop over `xs` ends, and to go on with what it left and `ys` behind that is to read both at
-- once.
abbrev Splits : ℕ → Inbound → List ℕ → List ℕ → Type 0
Splits f s xs ys =
    (t : Inbound) × (left : List ℕ) × (loop f s xs ≡ some (t, left))
    × (length left ≤ length xs)
    × ((g h : ℕ)
        → length (xs ++ ys) < g
        → length (left ++ ys) < h
        → loop g s (xs ++ ys) ≡ loop h t (left ++ ys))

-- The loop stops with all its bytes in a state `t` from which it is to be resumed.
stops :
    (f : ℕ) (s t : Inbound) (xs ys : List ℕ)
    → loop f s xs ≡ some (t, xs)
    → ((go : Inbound → List ℕ → Result)
        → 1 < length (xs ++ ys)
        → take_round go s (xs ++ ys) ≡ take_round go t (xs ++ ys))
    → (length (xs ++ ys) ≤ 1 → s ≡ t)
    → Splits f s xs ys
stops f s t xs ys e same few = (t, xs, e, le_refl _, λ g h hg hh. go g h hg hh)
  where
    go :
        (g h : ℕ)
        → length (xs ++ ys) < g
        → length (xs ++ ys) < h
        → loop g s (xs ++ ys) ≡ loop h t (xs ++ ys)
    go g zero hg hh = absurd (omega arith)
    go zero h hg hh = absurd (omega arith)
    go (suc g) (suc h) hg hh = elim (Bool-cases (ltb 1 (length (xs ++ ys)))) [
      | inl two ↦
          let more : 1 < length (xs ++ ys) = ltb→lt _ _ two in
          loop_round g s (xs ++ ys) more
          ∙ same (loop g) more
          ∙ same_round (loop g) (loop h) t (xs ++ ys)
              (λ u bytes k. loop_fuel g h u bytes (omega (arith, k, hg)) (omega (arith, k, hh)))
          ∙ sym (loop_round h t (xs ++ ys) more)
      | inr short ↦
          let one : length (xs ++ ys) ≤ 1 = ground arith in
          loop_stop g s (xs ++ ys) one
          ∙ ap (λ (u : Inbound). some (u, xs ++ ys)) (few one)
          ∙ sym (loop_stop h t (xs ++ ys) one)
    ]

-- What an attempt left on the channel is overwritten by the next.
after_put :
    (go : Inbound → List ℕ → Result) (s : Inbound) (csid : ℕ) (ch : Channel) (xs : List ℕ)
    (o : Outcome)
    → after_round go s csid xs o ≡ after_round go (put_channel s csid ch) csid xs o
unfolding after_round
after_put go s csid ch xs (wait c) = ap (λ (u : Inbound). some (u, xs)) (sym (put_put s csid ch c))
after_put go s csid ch xs (took c rest none) =
    ap (λ (u : Inbound). go u rest) (sym (put_put s csid ch c))
after_put go s csid ch xs (took c rest (some p)) =
    ap (λ (u : Inbound). go (message_complete u p) rest) (sym (put_put s csid ch c))

-- The state after a chunk that was taken.
unfoldable pub after_chunk : Inbound → ℕ → Channel → Option Packet → Inbound
after_chunk s csid ch none = put_channel s csid ch
after_chunk s csid ch (some p) = message_complete (put_channel s csid ch) p

pub after_took :
    (go : Inbound → List ℕ → Result) (s : Inbound) (csid : ℕ) (xs : List ℕ) (ch : Channel)
    (rest : List ℕ) (m : Option Packet)
    → after_round go s csid xs (took ch rest m) ≡ go (after_chunk s csid ch m) rest
unfolding after_round after_chunk
after_took go s csid xs ch rest none = refl
after_took go s csid xs ch rest (some p) = refl

-- The three ways out of a round over `xs`, whose basic header and outcome are known.
module _ (f : ℕ) (s : Inbound) (xs ys : List ℕ) (two : 1 < length xs) where
  more_there : 1 < length (xs ++ ys)
  more_there = omega (arith, two, length-append {0} xs ys)

  Splits-wait :
      (fmt csid : ℕ) (rest : List ℕ) (ch : Channel)
      → fmt < 4
      → basic_header xs ≡ some (fmt, csid, rest)
      → read_chunk s.in_chunk_size fmt csid (s.channels csid) rest ≡ some (wait ch)
      → Promise s.in_chunk_size fmt csid (s.channels csid) rest (wait ch)
      → Splits (suc f) s xs ys
  Splits-wait fmt csid rest ch small e r p =
      stops (suc f) s t xs ys
        (loop_round f s xs two
          ∙ round_lem (loop f) s xs fmt csid rest (wait ch) e r
          ∙ unfold after_round in refl)
        resume (λ one. absurd (omega (arith, one, more_there)))
    where
      t : Inbound
      t = put_channel s csid ch

      resume :
          (go : Inbound → List ℕ → Result)
          → 1 < length (xs ++ ys)
          → take_round go s (xs ++ ys) ≡ take_round go t (xs ++ ys)
      resume go _ =
          let (o, r', _) = round s.in_chunk_size fmt csid (s.channels csid) (rest ++ ys) small in
          let e' : basic_header (xs ++ ys) ≡ some (fmt, csid, rest ++ ys) =
            basic_header-append xs ys fmt csid rest e in
          let seen : read_chunk t.in_chunk_size fmt csid (t.channels csid) (rest ++ ys) ≡ some o =
            rw (channels_of s csid ch) (p ys ∙ r') in
          round_lem go s (xs ++ ys) fmt csid (rest ++ ys) o e' r'
          ∙ after_put go s csid ch (xs ++ ys) o
          ∙ sym (round_lem go t (xs ++ ys) fmt csid (rest ++ ys) o e' seen)

  Splits-took :
      (fmt csid : ℕ) (rest : List ℕ) (ch : Channel) (l : List ℕ) (m : Option Packet)
      → basic_header xs ≡ some (fmt, csid, rest)
      → read_chunk s.in_chunk_size fmt csid (s.channels csid) rest ≡ some (took ch l m)
      → Promise s.in_chunk_size fmt csid (s.channels csid) rest (took ch l m)
      → length rest < length xs
      → Splits f (after_chunk s csid ch m) l ys
      → Splits (suc f) s xs ys
  Splits-took fmt csid rest ch l m e r (less, same) shorter (t, left, e', small, on) = (
    t,
    left,
    loop_round f s xs two
        ∙ round_lem (loop f) s xs fmt csid rest (took ch l m) e r
        ∙ after_took (loop f) s csid xs ch l m
        ∙ e',
    omega (arith, small, less, shorter),
    λ g h hg hh. whole g h hg hh,
  )
    where
      whole :
          (g h : ℕ)
          → length (xs ++ ys) < g
          → length (left ++ ys) < h
          → loop g s (xs ++ ys) ≡ loop h t (left ++ ys)
      whole zero h hg hh = absurd (omega arith)
      whole (suc g) h hg hh =
          loop_round g s (xs ++ ys) more_there
          ∙ round_lem (loop g) s (xs ++ ys) fmt csid (rest ++ ys) (took ch (l ++ ys) m)
              (basic_header-append xs ys fmt csid rest e) (same ys)
          ∙ after_took (loop g) s csid (xs ++ ys) ch (l ++ ys) m
          ∙ on g h
              (omega (arith, hg, less, shorter, length-append {0} xs ys, length-append {0} l ys)) hh

  Splits-outcome :
      (fmt csid : ℕ) (rest : List ℕ) (o : Outcome)
      → fmt < 4
      → basic_header xs ≡ some (fmt, csid, rest)
      → read_chunk s.in_chunk_size fmt csid (s.channels csid) rest ≡ some o
      → Promise s.in_chunk_size fmt csid (s.channels csid) rest o
      → length rest < length xs
      → ((t : Inbound) (l : List ℕ) → length l < length xs → Splits f t l ys)
      → Splits (suc f) s xs ys
  Splits-outcome fmt csid rest (wait ch) small e r p less ih =
      Splits-wait fmt csid rest ch small e r p
  Splits-outcome fmt csid rest (took ch l m) small e r p less ih =
      Splits-took fmt csid rest ch l m e r p less
        (ih (after_chunk s csid ch m) l (omega (arith, less, p.0)))

splits : (f : ℕ) (s : Inbound) (xs ys : List ℕ) → length xs < f → Splits f s xs ys
splits zero s xs ys h = absurd (omega arith)
splits (suc f) s xs ys h = elim (Bool-cases (ltb 1 (length xs))) [
  | inr few ↦ stops (suc f) s s xs ys (loop_stop f s xs (ground arith)) (λ go _. refl) (λ _. refl)
  | inl two ↦ elim (Option-cases (basic_header xs)) [
    | inl e ↦
        stops (suc f) s s xs ys
          (loop_round f s xs (ltb→lt _ _ two) ∙ unfold take_round in rw (e, take_round))
          (λ go _. refl) (λ _. refl)
    | inr ((fmt, csid, rest), e) ↦
        let (small, less) = basic_header_bounds xs fmt csid rest e in
        let (o, r, p) = round s.in_chunk_size fmt csid (s.channels csid) rest small in
        Splits-outcome f s xs ys (ltb→lt _ _ two) fmt csid rest o small e r p less
          (λ t l less'. splits f t l ys (omega (arith, less', h)))
  ]
]

-- The loop of `parseMessage` comes to an end on all bytes and in every state, without a read
-- outside them; and to read a stream in two pieces, the bytes that the first left standing before
-- the second, gives the state and the rest that reading it whole gives.
pub loop-append :
    (s : Inbound) (xs ys : List ℕ)
    → (t : Inbound) × (left : List ℕ) × (loop (suc (length xs)) s xs ≡ some (t, left))
      × (loop (suc (length (xs ++ ys))) s (xs ++ ys)
          ≡ loop (suc (length (left ++ ys))) t (left ++ ys))
loop-append s xs ys =
    let (t, left, e, _, on) = splits (suc (length xs)) s xs ys (omega arith) in
    (t, left, e, on _ _ (omega arith) (omega arith))
