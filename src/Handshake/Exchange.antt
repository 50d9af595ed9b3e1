-- ===== src/Handshake/Exchange.antt =====
-- A handshake from both sides.
use lssvc.Bytes.{same_bytes}
use lssvc.Common.{
  All, List, Option, [], ap, arith, drop, drop-append_length, false, ge→ltb, length, length-append,
  length-take, ltb, lt→ltb, refl, some, take, take-append_length, true, ℕ, ◌++◌, ◌+◌, ◌<◌, ◌>>=◌,
  ◌∙◌, ◌∷◌, ◌≡◌,
}
use lssvc.Handshake.{
  HandShake, Reply, Result, State, answer_c1s1, check_c1s1, client_ver, create_c2s2, digest_length,
  done, doning, finished, hand_shake, init, packet_size, player_key_open, post_s0s1, send_c1s1,
  send_c2s2, server_key_open, server_ver, start, wait_c0c1, wait_c2, wait_s0s1, waiting,
  write_complete,
}
use lssvc.Connection.{bytes, part}
use lssvc.Handshake.Packets.{check_c1s1-IsSigned, create_c1s1-IsSigned, create_c2s2_lem}

-- The states of the client and the server, and what handShake last replied to each.
pub data Outcome : Type 0 where
  ended : State → State → Reply → Reply → Outcome

module _ (hmac : List ℕ → List ℕ → List ℕ) where
  -- Bytes arrive in parts: the handshake is tried on each of the first so many of them, which stay in
  -- the buffer, and then on all.
  unfoldable pub arrive : ℕ → List ℕ → HandShake → List ℕ → List ℕ → Result
  arrive now random h buf [] = hand_shake hmac now random h buf
  arrive now random h buf (n ∷ parts) =
      hand_shake hmac now random h (take n buf) >>= λ (h', _, _). arrive now random h' buf parts

  -- A client and a server over connections that take all at once, in the order of the protocol: the
  -- client's first packet, the server's two, the client's second, each of the three in parts.
  unfoldable pub exchange :
      List ℕ → List ℕ → List ℕ → List ℕ → ℕ → ℕ → List ℕ × List ℕ × List ℕ → Option Outcome
  exchange random_c random_s random_c' random_s' now_c now_s (parts, parts', parts'') =
      start hmac random_c (init true) >>= λ c. start hmac random_s (init false) >>= λ s.
      arrive now_s random_s' s (bytes c.outgoing) parts >>= λ (s', _, _).
      arrive now_c random_c' (write_complete c)
        (bytes (write_complete (write_complete s')).outgoing) parts'
      >>= λ (c', _, r).
          arrive now_s random_s' (write_complete (write_complete s')) (bytes (drop 1 c'.outgoing))
            parts''
          >>= λ (s'', _, r'). some (ended (write_complete c').state s''.state r r')

abbrev pub AreShort : ℕ → List ℕ → Type 0
AreShort size = All (λ n. n < size)

take-short : (n size : ℕ) (buf : List ℕ) → n < size → length (take n buf) < size
take-short n size buf less = omega (arith, less, length-take n buf)

module _ (hmac : List ℕ → List ℕ → List ℕ)
    (sized : (key msg : List ℕ) → length (hmac key msg) ≡ digest_length) where
  pub answer_c1s1_lem :
      (now : ℕ) (random : List ℕ) (then_on : HandShake → List ℕ → Result) (h h' h'' : HandShake)
      (p rest : List ℕ) (offset : ℕ)
      → length p ≡ packet_size
      → check_c1s1 hmac h (3 ∷ p) ≡ some (h', some offset)
      → create_c2s2 hmac now random (p ++ rest) offset h' ≡ some h''
      → answer_c1s1 hmac now random then_on h (3 ∷ (p ++ rest)) ≡ then_on h'' rest
  unfolding answer_c1s1
  answer_c1s1_lem now random then_on h h' h'' p rest offset len checked created =
      simp (enough, first, checked, created, second) refl
    where
      enough : ltb (length (3 ∷ (p ++ rest))) (packet_size + 1) ≡ false
      enough = ge→ltb _ _ (omega (arith, len, length-append p rest))

      all : packet_size + 1 ≡ length (3 ∷ p)
      all = omega (arith, len)

      first : take (packet_size + 1) (3 ∷ (p ++ rest)) ≡ 3 ∷ p
      first = ap (λ n. take n (3 ∷ (p ++ rest))) all ∙ take-append_length (3 ∷ p) rest

      second : drop (packet_size + 1) (3 ∷ (p ++ rest)) ≡ rest
      second = ap (λ n. drop n (3 ∷ (p ++ rest))) all ∙ drop-append_length (3 ∷ p) rest

  server_reply :
      (now : ℕ) (random : List ℕ) (h h' h'' : HandShake) (p rest : List ℕ) (offset : ℕ)
      → h.state ≡ wait_c0c1
      → length p ≡ packet_size
      → check_c1s1 hmac h (3 ∷ p) ≡ some (h', some offset)
      → create_c2s2 hmac now random (p ++ rest) offset h' ≡ some h''
      → hand_shake hmac now random h (3 ∷ (p ++ rest))
        ≡ some (send_c1s1 (record h'' { state = post_s0s1 }), rest, waiting)
  unfolding hand_shake
  server_reply now random h h' h'' p rest offset e len checked created =
      simp e (answer_c1s1_lem now random _ h h' h'' p rest offset len checked created)

  client_reply :
      (now : ℕ) (random : List ℕ) (h h' h'' : HandShake) (p rest : List ℕ) (offset : ℕ)
      → h.state ≡ wait_s0s1
      → length p ≡ packet_size
      → length rest ≡ packet_size
      → check_c1s1 hmac h (3 ∷ p) ≡ some (h', some offset)
      → create_c2s2 hmac now random (p ++ rest) offset h' ≡ some h''
      → hand_shake hmac now random h (3 ∷ (p ++ rest))
        ≡ some (send_c2s2 (record h'' { state = doning }), drop packet_size rest, finished)
  unfolding hand_shake
  client_reply now random h h' h'' p rest offset e len len' checked created =
      simp e
        (answer_c1s1_lem now random _ h h' h'' p rest offset len checked created ∙ rw len' refl)

  c2_reply :
      (now : ℕ) (random : List ℕ) (h : HandShake) (buf : List ℕ)
      → h.state ≡ wait_c2
      → length buf ≡ packet_size
      → hand_shake hmac now random h buf
        ≡ some (record h { state = done }, drop packet_size buf, finished)
  unfolding hand_shake
  c2_reply now random h buf e len =
      simp (e, ge→ltb (length buf) packet_size (omega (arith, len))) refl

  -- As long as a state waits for more bytes, nothing changes.
  early_parts :
      (now : ℕ) (random : List ℕ) (h : HandShake) (buf : List ℕ) (size : ℕ) (parts : List ℕ)
      → ((part : List ℕ)
          → length part < size
          → hand_shake hmac now random h part ≡ some (h, part, waiting))
      → AreShort size parts
      → arrive hmac now random h buf parts ≡ hand_shake hmac now random h buf
  unfolding arrive
  early_parts now random h buf size [] waits short = refl
  early_parts now random h buf size (n ∷ parts) waits (less, short) =
      rw (waits (take n buf) (take-short n size buf less))
        (early_parts now random h buf size parts waits short)

  answer_waits :
      (now : ℕ) (random : List ℕ) (then_on : HandShake → List ℕ → Result) (h : HandShake)
      (part : List ℕ)
      → length part < packet_size + 1
      → answer_c1s1 hmac now random then_on h part ≡ some (h, part, waiting)
  unfolding answer_c1s1
  answer_waits now random then_on h part less =
      simp (lt→ltb (length part) (packet_size + 1) less) refl

  server_waits :
      (now : ℕ) (random : List ℕ) (h : HandShake) (part : List ℕ)
      → h.state ≡ wait_c0c1
      → length part < packet_size + 1
      → hand_shake hmac now random h part ≡ some (h, part, waiting)
  unfolding hand_shake
  server_waits now random h part e less = simp e (answer_waits now random _ h part less)

  client_waits :
      (now : ℕ) (random : List ℕ) (h : HandShake) (part : List ℕ)
      → h.state ≡ wait_s0s1
      → length part < packet_size + 1
      → hand_shake hmac now random h part ≡ some (h, part, waiting)
  unfolding hand_shake
  client_waits now random h part e less = simp e (answer_waits now random _ h part less)

  c2_waits :
      (now : ℕ) (random : List ℕ) (h : HandShake) (part : List ℕ)
      → h.state ≡ wait_c2
      → length part < packet_size
      → hand_shake hmac now random h part ≡ some (h, part, waiting)
  unfolding hand_shake
  c2_waits now random h part e less = simp (e, lt→ltb (length part) packet_size less) refl

  -- Whatever the digests, as long as they have 32 bytes, whatever the random bytes, 1536 for each
  -- packet, and whatever the clocks: a complex handshake between the client and the server of this
  -- library ends with both done, where connections take all that is sent and the packets arrive like
  -- this: the client's first packet and then its second, each in any parts; of the server's two
  -- packets any parts that are shorter than the first, and then, when the client sees the first whole,
  -- both of them and no more.
  pub exchange_done :
      (random_c random_s random_c' random_s' : List ℕ) (now_c now_s : ℕ)
      (parts parts' parts'' : List ℕ)
      → AreShort (packet_size + 1) parts
      → AreShort (packet_size + 1) parts'
      → AreShort packet_size parts''
      → length random_c ≡ packet_size
      → length random_s ≡ packet_size
      → length random_c' ≡ packet_size
      → length random_s' ≡ packet_size
      → exchange hmac random_c random_s random_c' random_s' now_c now_s (parts, parts', parts'')
        ≡ some (ended done done finished finished)
  unfolding exchange start hand_shake write_complete bytes same_bytes
  exchange_done random_c random_s random_c' random_s' now_c now_s parts parts' parts'' p p' p'' lc
        ls lc' ls' =
      let (c1, dc, made_c, signed_c) =
        create_c1s1-IsSigned hmac sized random_c (init true) lc refl in
      let (s1, ds, made_s, signed_s) =
        create_c1s1-IsSigned hmac sized random_s (init false) ls refl in
      let s = record (init false) { c1s1 = s1; digest = ds; state = wait_c0c1 } in
      let c = record (init true) {
        c1s1 = c1;
        digest = dc;
        state = wait_s0s1;
        outgoing = (3 ∷ c1) ∷ [];
      } in
      let (off, seen_c) =
        check_c1s1-IsSigned hmac sized s player_key_open client_ver c1 refl refl refl signed_c in
      let (off', seen_s) =
        check_c1s1-IsSigned hmac sized c server_key_open server_ver s1 refl refl refl signed_s in
      let (s2, made_s2, ls2) =
        create_c2s2_lem hmac sized now_s random_s' (c1 ++ []) off s ls' refl in
      let (c2, made_c2, lc2) =
        create_c2s2_lem hmac sized now_c random_c' (s1 ++ (s2 ++ [])) off' c lc' refl in
      let replied_s =
        early_parts now_s random_s' s (3 ∷ (c1 ++ [])) (packet_size + 1) parts
          (λ part less. server_waits now_s random_s' s part refl less) p
        ∙ server_reply now_s random_s' s s (record s { c2s2 = s2 }) c1 [] off refl signed_c.size
            seen_c made_s2 in
      let replied_c =
        early_parts now_c random_c' c (3 ∷ (s1 ++ (s2 ++ []))) (packet_size + 1) parts'
          (λ part less. client_waits now_c random_c' c part refl less) p'
        ∙ client_reply now_c random_c' c c (record c { c2s2 = c2 }) s1 (s2 ++ []) off' refl
            signed_s.size (omega (arith, ls2, length-append s2 [])) seen_s made_c2 in
      let s' = record s { c2s2 = s2; state = wait_c2; outgoing = (3 ∷ s1) ∷ s2 ∷ [] } in
      let last =
        early_parts now_s random_s' s' (c2 ++ []) packet_size parts''
          (λ part less. c2_waits now_s random_s' s' part refl less) p''
        ∙ c2_reply now_s random_s' s' (c2 ++ []) refl (omega (arith, lc2, length-append c2 [])) in
      rw made_c (rw made_s (rw replied_s (rw replied_c (rw last refl))))
