-- ===== src/Chunk/Receive/Rounds.antt =====
-- One round of `parseMessage` on a channel: how its outcome stands to the bytes that arrive later,
-- also where a first attempt had to wait.
use lssvc.Common.{
  Bool, Bool-cases, List, Option, [], ap, arith, drop, drop-append_le, false, ge→ltb, if◌then◌else◌,
  inl, inr, length, length-append, length-drop, ltb, ltb→lt, lt→ltb, none, refl, some, sym, take,
  take-append_le, true, ℕ, ◌*◌, ◌++◌, ◌+◌, ◌<◌, ◌==◌, ◌∙◌, ◌∷◌, ◌≡◌, ◌≤◌,
}
use lssvc.Bytes.{read_uint32}
use lssvc.Chunk.{Packet, ext_mark, signed_min, space}
use lssvc.Chunk.Receive.{
  Channel, Fields, Outcome, finish_chunk, header_missing, open_packet, read_body, read_chunk,
  read_rest, took, wait, with_ext,
}
use lssvc.Chunk.Receive.Layout.{Layout, layout}
use mathlib.Core.List.{append-nil}

read_uint32-four :
    (bytes : List ℕ)
    → 4 ≤ length bytes
    → (ts : ℕ) × ((ys : List ℕ) → read_uint32 (bytes ++ ys) ≡ some ts)
unfolding read_uint32
read_uint32-four (a ∷ b ∷ c ∷ d ∷ rest) h = (a * 16777216 + b * 65536 + c * 256 + d, λ ys. refl)
read_uint32-four _ h = absurd (omega arith)

-- The body: it waits and keeps the packet, or is taken whatever follows.
data BodyRound (chunk_size : ℕ) (ch : Channel) (p : Packet) (bytes : List ℕ) : Type 0 where
  waits :
      read_body chunk_size ch p bytes ≡ wait (record ch { packet = some p })
      → BodyRound chunk_size ch p bytes
  takes :
      (ch' : Channel) (rest : List ℕ) (m : Option Packet)
      → length rest ≤ length bytes
      → ((ys : List ℕ) → read_body chunk_size ch p (bytes ++ ys) ≡ took ch' (rest ++ ys) m)
      → BodyRound chunk_size ch p bytes

finish_takes :
    (ch : Channel) (p : Packet)
    → (ch' : Channel) × (m : Option Packet) × ((rest : List ℕ)
        → finish_chunk ch p rest ≡ took ch' rest m)
finish_takes ch p = elim (Bool-cases (space p == 0)) [
  | inl full ↦ (
    record ch { prev = p.header; packet = none },
    some (record p { packet_type = p.header.msg_type; timestamp = p.header.timestamp }),
    λ rest. unfold finish_chunk in rw full,
  )
  | inr more ↦
      (record ch { prev = p.header; packet = some p }, none, λ rest. unfold finish_chunk in rw more)
]

body_round :
    (chunk_size : ℕ) (ch : Channel) (p : Packet) (bytes : List ℕ) → BodyRound chunk_size ch p bytes
body_round chunk_size ch p bytes =
    elim (Bool-cases (ltb (length bytes) (signed_min (space p) chunk_size))) [
      | inl few ↦ waits (unfold read_body in rw few)
      | inr enough ↦
          let n : ℕ = signed_min (space p) chunk_size in
          let fits : n ≤ length bytes = not_lt _ _ enough in
          let (ch', m, e) = finish_takes ch (record p { body = p.body ++ take n bytes }) in
          takes ch' (drop n bytes) m (omega (arith, length-drop {0} n bytes))
            (λ ys. taken fits ys ∙ e (drop n bytes ++ ys))
    ]
  where
    not_lt : (a b : ℕ) → ltb a b ≡ false → b ≤ a
    not_lt a b h = ground arith

    taken :
        signed_min (space p) chunk_size ≤ length bytes
        → (ys : List ℕ)
        → read_body chunk_size ch p (bytes ++ ys)
          ≡ finish_chunk ch
              (record p { body = p.body ++ take (signed_min (space p) chunk_size) bytes })
              (drop (signed_min (space p) chunk_size) bytes ++ ys)
    taken fits ys =
        let enough : ltb (length (bytes ++ ys)) (signed_min (space p) chunk_size) ≡ false =
          ge→ltb _ _ (omega (arith, fits, length-append {0} bytes ys)) in
        unfold read_body in
        rw (enough, take-append_le _ bytes ys fits, drop-append_le _ bytes ys fits)

-- The packet on the channel is overwritten.
body_packet :
    (chunk_size : ℕ) (ch : Channel) (q : Option Packet) (p : Packet) (bytes : List ℕ)
    → read_body chunk_size (record ch { packet = q }) p bytes ≡ read_body chunk_size ch p bytes
unfolding read_body finish_chunk
body_packet chunk_size ch q p bytes = refl

-- `read_rest` on its three ways.
module _ (chunk_size fmt : ℕ) (c : Channel) (p : Packet) (f : Fields) (bytes : List ℕ) where
  abbrev ext_flag : Bool
  ext_flag = if fmt == 3 then c.ext else f.ts == ext_mark

  rest_plain :
      ext_flag ≡ false
      → read_rest chunk_size fmt c p f bytes
        ≡ some (
            read_body chunk_size
              (record c { ext = false; delta = f.delta })
              (record p { header = f.header })
              bytes)
  unfolding read_rest
  rest_plain e = rw e

  rest_short :
      ext_flag ≡ true
      → length bytes < 4
      → read_rest chunk_size fmt c p f bytes
        ≡ some (
            wait (record c {
              ext = true;
              delta = f.delta;
              packet = some (record p { header = f.header });
            }))
  unfolding read_rest
  rest_short e few = rw (e, lt→ltb _ _ few)

  rest_long :
      (ts : ℕ)
      → ext_flag ≡ true
      → 4 ≤ length bytes
      → read_uint32 bytes ≡ some ts
      → let f' = with_ext fmt c.prev f ts in
        read_rest chunk_size fmt c p f bytes
        ≡ some (
            read_body chunk_size
              (record c { ext = true; delta = f'.delta })
              (record p { header = f'.header })
              (drop 4 bytes))
  unfolding read_rest
  rest_long ts e enough r = rw (e, ge→ltb _ _ enough, r)

-- A round whose message header is there, by its layout.
chunk_lem :
    (chunk_size fmt csid : ℕ) (c : Channel) (xs : List ℕ) (l : Layout chunk_size fmt c.prev xs)
    (ys : List ℕ)
    → let p = open_packet c.packet csid l.len in
      read_chunk chunk_size fmt csid c (xs ++ ys)
      ≡ read_rest chunk_size fmt c p (l.fields c.delta p.header) (l.rest ++ ys)
unfolding read_chunk
chunk_lem chunk_size fmt csid c xs l ys =
    rw (l.present ys, l.announced ys)
      (rw (l.reads c.delta (open_packet c.packet csid l.len).header ys))

-- What a round promises of its outcome. To wait loses nothing: a later attempt over what it left on
-- the channel is as good as one on the channel before. A chunk that was taken is the same one
-- whatever follows it.
abbrev pub Promise : ℕ → ℕ → ℕ → Channel → List ℕ → Outcome → Type 0
Promise chunk_size fmt csid c xs (wait c') =
    (ys : List ℕ)
    → read_chunk chunk_size fmt csid c' (xs ++ ys) ≡ read_chunk chunk_size fmt csid c (xs ++ ys)
Promise chunk_size fmt csid c xs (took c' rest m) =
    (length rest ≤ length xs)
    × ((ys : List ℕ) → read_chunk chunk_size fmt csid c (xs ++ ys) ≡ some (took c' (rest ++ ys) m))

abbrev pub Round : ℕ → ℕ → ℕ → Channel → List ℕ → Type 0
Round chunk_size fmt csid c xs =
    (o : Outcome) × (read_chunk chunk_size fmt csid c xs ≡ some o)
    × Promise chunk_size fmt csid c xs o

module _ (n fmt csid : ℕ) (c : Channel) (xs : List ℕ) (l : Layout n fmt c.prev xs) where
  abbrev pkt : Packet
  pkt = open_packet c.packet csid l.len

  abbrev flds : Fields
  flds = l.fields c.delta pkt.header

  at_once : read_chunk n fmt csid c xs ≡ read_rest n fmt c pkt flds l.rest
  at_once =
      ap (read_chunk n fmt csid c) (sym (append-nil xs))
      ∙ chunk_lem n fmt csid c xs l []
      ∙ ap (read_rest n fmt c pkt flds) (append-nil l.rest)

  -- The round over a channel that a first attempt left, with its packet `p'` and delta `d'`.
  resumed :
      (d' : ℕ) (p' : Packet) (x : Bool) (f' : Fields) (ys : List ℕ)
      → l.fields d' p'.header ≡ f'
      → read_chunk n fmt csid (record c { packet = some p'; delta = d'; ext = x }) (xs ++ ys)
        ≡ read_rest n fmt (record c { packet = some p'; delta = d'; ext = x }) p' f' (l.rest ++ ys)
  resumed d' p' x f' ys e =
      rw (← e) (chunk_lem n fmt csid (record c { packet = some p'; delta = d'; ext = x }) xs l ys)

  plain-Round : ext_flag n fmt c pkt flds l.rest ≡ false → Round n fmt csid c xs
  plain-Round e = go (body_round n c₁ p₁ l.rest)
    where
      p₁ : Packet
      p₁ = record pkt { header = flds.header }

      c₁ : Channel
      c₁ = record c { ext = false; delta = flds.delta }

      whole :
          (ys : List ℕ)
          → read_chunk n fmt csid c (xs ++ ys) ≡ some (read_body n c₁ p₁ (l.rest ++ ys))
      whole ys = chunk_lem n fmt csid c xs l ys ∙ rest_plain n fmt c pkt flds (l.rest ++ ys) e

      now : read_chunk n fmt csid c xs ≡ some (read_body n c₁ p₁ l.rest)
      now = at_once ∙ rest_plain n fmt c pkt flds l.rest e

      c₂ : Channel
      c₂ = record c₁ { packet = some p₁ }

      still : ext_flag n fmt c₂ p₁ flds l.rest ≡ false
      still = ground arith

      go : BodyRound n c₁ p₁ l.rest → Round n fmt csid c xs
      go (takes c' rest m less t) = (
        took c' rest m,
        now ∙ ap some (simp append-nil at (t [])),
        (omega (arith, less, l.shorter), λ ys. whole ys ∙ ap some (t ys)),
      )
      go (waits w) = (
        wait c₂,
        now ∙ ap some w,
        λ ys.
            resumed flds.delta p₁ false flds ys (l.again c.delta pkt.header)
            ∙ rest_plain n fmt c₂ p₁ flds (l.rest ++ ys) still
            ∙ ap some (body_packet n c₁ (some p₁) p₁ (l.rest ++ ys))
            ∙ sym (whole ys),
      )

  short-Round : ext_flag n fmt c pkt flds l.rest ≡ true → length l.rest < 4 → Round n fmt csid c xs
  short-Round e few = (
    wait c₂,
    at_once ∙ rest_short n fmt c pkt flds l.rest e few,
    λ ys.
        resumed flds.delta p₁ true flds ys (l.again c.delta pkt.header)
        ∙ same_rest (l.rest ++ ys)
        ∙ sym (chunk_lem n fmt csid c xs l ys),
  )
    where
      p₁ : Packet
      p₁ = record pkt { header = flds.header }

      c₂ : Channel
      c₂ = record c { ext = true; delta = flds.delta; packet = some p₁ }

      still : ext_flag n fmt c₂ p₁ flds l.rest ≡ true
      still = ground arith

      same_rest :
          (bytes : List ℕ) → read_rest n fmt c₂ p₁ flds bytes ≡ read_rest n fmt c pkt flds bytes
      same_rest bytes = unfold read_rest read_body finish_chunk in rw (still, e)

  long-Round : ext_flag n fmt c pkt flds l.rest ≡ true → 4 ≤ length l.rest → Round n fmt csid c xs
  long-Round e enough = go (body_round n c₁ p₁ (drop 4 l.rest))
    where
      ts : ℕ
      ts = (read_uint32-four l.rest enough).0

      reads_ts : (ys : List ℕ) → read_uint32 (l.rest ++ ys) ≡ some ts
      reads_ts = (read_uint32-four l.rest enough).1

      f' : Fields
      f' = with_ext fmt c.prev flds ts

      p₁ : Packet
      p₁ = record pkt { header = f'.header }

      c₁ : Channel
      c₁ = record c { ext = true; delta = f'.delta }

      c₂ : Channel
      c₂ = record c₁ { packet = some p₁ }

      longer : (ys : List ℕ) → 4 ≤ length (l.rest ++ ys)
      longer ys = omega (arith, enough, length-append {0} l.rest ys)

      whole :
          (ys : List ℕ)
          → read_chunk n fmt csid c (xs ++ ys) ≡ some (read_body n c₁ p₁ (drop 4 l.rest ++ ys))
      whole ys =
          chunk_lem n fmt csid c xs l ys
          ∙ rest_long n fmt c pkt flds (l.rest ++ ys) ts e (longer ys) (reads_ts ys)
          ∙ ap (λ (b : List ℕ). some (read_body n c₁ p₁ b)) (drop-append_le 4 l.rest ys enough)

      now : read_chunk n fmt csid c xs ≡ some (read_body n c₁ p₁ (drop 4 l.rest))
      now = simp append-nil at (whole [])

      f'' : Fields
      f'' = l.fields f'.delta f'.header

      back : (with_ext fmt c.prev f'' ts ≡ f') × (f''.ts ≡ flds.ts)
      back = l.again_ext c.delta pkt.header ts

      still : ext_flag n fmt c₂ p₁ f'' l.rest ≡ true
      still = rw (back.1) (ground arith)

      retried :
          (ys : List ℕ)
          → read_chunk n fmt csid c₂ (xs ++ ys) ≡ some (read_body n c₁ p₁ (drop 4 l.rest ++ ys))
      retried ys =
          resumed f'.delta p₁ true f'' ys refl
          ∙ rest_long n fmt c₂ p₁ f'' (l.rest ++ ys) ts still (longer ys) (reads_ts ys)
          ∙ ap
              (λ (g : Fields). some (
                read_body n (record c₂ { ext = true; delta = g.delta })
                  (record p₁ { header = g.header }) (drop 4 (l.rest ++ ys))))
              (back.0)
          ∙ ap some (body_packet n c₁ (some p₁) p₁ (drop 4 (l.rest ++ ys)))
          ∙ ap (λ (b : List ℕ). some (read_body n c₁ p₁ b)) (drop-append_le 4 l.rest ys enough)

      go : BodyRound n c₁ p₁ (drop 4 l.rest) → Round n fmt csid c xs
      go (takes c' rest m less t) = (
        took c' rest m,
        now ∙ ap some (simp append-nil at (t [])),
        (omega (arith, less, l.shorter, length-drop {0} 4 l.rest), λ ys. whole ys ∙ ap some (t ys)),
      )
      go (waits w) = (wait c₂, now ∙ ap some w, λ ys. retried ys ∙ sym (whole ys))

  layout-Round : Round n fmt csid c xs
  layout-Round = elim (Bool-cases (ext_flag n fmt c pkt flds l.rest)) [
    | inl marked ↦ elim (Bool-cases (ltb (length l.rest) 4)) [
      | inl few ↦ short-Round marked (ltb→lt _ _ few)
      | inr enough ↦ long-Round marked (ground arith)
    ]
    | inr unmarked ↦ plain-Round unmarked
  ]

-- Every round of a format below 4 has an outcome, whatever the bytes and the channel. Where it waits,
-- a round on the channel that it leaves, when more bytes are there, gives what a first round over
-- all of them gives; where a chunk is taken, the rest is not longer, and bytes behind it only follow it.
pub round : (n fmt csid : ℕ) (c : Channel) (xs : List ℕ) → fmt < 4 → Round n fmt csid c xs
round n fmt csid c xs h = elim (Bool-cases (header_missing fmt (length xs))) [
  | inl missing ↦ (wait c, unfold read_chunk in rw missing, λ ys. refl)
  | inr present ↦ layout-Round n fmt csid c xs (layout n fmt c.prev xs h present)
]
