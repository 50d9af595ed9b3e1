-- ===== src/Handshake/Digests.antt =====
-- A packet with a digest, made by one side and checked by the other.
use lssvc.Common.{
  List, [], ap, arith, drop, drop-append_length, drop-drop, false, if◌then◌else◌, leb, length,
  length-append, length-drop, length-take, le→leb, refl, some, suc, sym, take, take-append_length,
  true, ℕ, ◌%◌, ◌++◌, ◌+◌, ◌<◌, ◌==◌, ◌∙◌, ◌∷◌, ◌≡◌,
}
use lssvc.MsgBuffer.{overwrite}
use lssvc.Handshake.{
  HandShake, calculate_digest, client_ver, digest_length, get_digest_offset, offset_at, packet_size,
  player_key_open, server_key_open, server_ver, verify_digest,
}
use lssvc.Handshake.Offsets.{same_bytes_self}

drop_behind :
    (xs ds ys : List ℕ) (n : ℕ) → length ds ≡ n → drop (length xs + n) (xs ++ (ds ++ ys)) ≡ ys
drop_behind xs ds ys n e =
    sym (drop-drop n (length xs) (xs ++ (ds ++ ys)))
    ∙ ap (drop n) (drop-append_length xs (ds ++ ys))
    ∙ ap (λ k. drop k (ds ++ ys)) (sym e)
    ∙ drop-append_length ds ys

take_middle :
    (xs ds ys : List ℕ) (n : ℕ) → length ds ≡ n → take n (drop (length xs) (xs ++ (ds ++ ys))) ≡ ds
take_middle xs ds ys n e =
    ap (take n) (drop-append_length xs (ds ++ ys))
    ∙ ap (λ k. take k (ds ++ ys)) (sym e)
    ∙ take-append_length ds ys

abbrev pub key_of : HandShake → List ℕ
key_of h = if h.is_client then player_key_open else server_key_open

abbrev pub ver_of : HandShake → List ℕ
ver_of h = if h.is_client then client_ver else server_ver

module _ (hmac : List ℕ → List ℕ → List ℕ) where
  -- A packet with the digest of the bytes around it in its place passes the check.
  pub verify_digest-signed :
      (front back key : List ℕ)
      → 0 < length front
      → length (hmac key (front ++ back)) ≡ digest_length
      → verify_digest hmac (front ++ (hmac key (front ++ back) ++ back)) (length front) key
        ≡ some true
  unfolding verify_digest calculate_digest
  verify_digest-signed front back key some_front size =
      simp
        (
          not_zero,
          inside,
          take-append_length front (hmac key (front ++ back) ++ back),
          drop_behind front (hmac key (front ++ back)) back digest_length size,
          take_middle front (hmac key (front ++ back)) back digest_length size,
          same_bytes_self (hmac key (front ++ back)),
        )
        refl
    where
      not_zero : (length front == 0) ≡ false
      not_zero = ground arith

      inside :
          leb (length front + digest_length) (length (front ++ (hmac key (front ++ back) ++ back)))
          ≡ true
      inside = le→leb _ _ (
          omega (
            arith,
            size,
            length-append front (hmac key (front ++ back) ++ back),
            length-append (hmac key (front ++ back)) back,
          ))

  -- What `createC1S1` makes for a complex handshake.
  pub record IsSigned (key ver packet : List ℕ) : Type 0 where
    pub place : ℕ
    pub front : List ℕ
    pub back : List ℕ
    pub split : packet ≡ front ++ (hmac key (front ++ back) ++ back)
    pub placed : length front ≡ place
    pub some_front : 0 < place
    pub offset : get_digest_offset packet 8 ≡ some place
    pub version : take 4 (drop 4 packet) ≡ ver
    pub size : length packet ≡ packet_size

  -- The packet, with its first bytes written out.
  pub sign :
      (key : List ℕ) (v0 v1 v2 v3 a b c d : ℕ) (rest : List ℕ)
      → length rest ≡ 1524
      → ((msg : List ℕ) → length (hmac key msg) ≡ digest_length)
      → let q = 0 ∷ 0 ∷ 0 ∷ 0 ∷ v0 ∷ v1 ∷ v2 ∷ v3 ∷ a ∷ b ∷ c ∷ d ∷ rest in
        (r : List ℕ) × (dig : List ℕ) × (calculate_digest hmac q (8 + 4 + (a + b + c + d) % 728) key
          ≡ some dig)
        × (overwrite q (8 + 4 + (a + b + c + d) % 728) dig ≡ some r)
        × IsSigned key (v0 ∷ v1 ∷ v2 ∷ v3 ∷ []) r
  unfolding calculate_digest overwrite offset_at
  sign key v0 v1 v2 v3 a b c d rest len sized = (
    take n q ++ (dig ++ drop (n + length dig) q),
    dig,
    rw (place, not_zero, inside) refl,
    rw (place, le→leb (n + length dig) (length q) (omega (arith, small, len, sized'))) refl,
    record {
      place = n;
      front = take n q;
      back = drop (n + digest_length) q;
      split = ap (λ m. take n q ++ (dig ++ drop (n + m) q)) sized';
      placed = front_size;
      some_front = omega arith;
      offset = ap some place;
      version = refl;
      size = whole;
    },
  )
    where
      k : ℕ
      k = (a + b + c + d) % 728

      small : k < 728
      small = omega arith

      n : ℕ
      n = suc (suc (suc (suc (suc (suc (suc (suc (suc (suc (suc (suc k)))))))))))

      q : List ℕ
      q = 0 ∷ 0 ∷ 0 ∷ 0 ∷ v0 ∷ v1 ∷ v2 ∷ v3 ∷ a ∷ b ∷ c ∷ d ∷ rest

      dig : List ℕ
      dig = hmac key (take n q ++ drop (n + digest_length) q)

      sized' : length dig ≡ digest_length
      sized' = sized (take n q ++ drop (n + digest_length) q)

      place : 8 + 4 + k ≡ n
      place = omega arith

      not_zero : (n == 0) ≡ false
      not_zero = ground arith

      inside : leb (n + digest_length) (length q) ≡ true
      inside = le→leb _ _ (omega (arith, small, len))

      front_size : length (take n q) ≡ n
      front_size = omega (arith, small, len, length-take k rest)

      whole : length (take n q ++ (dig ++ drop (n + length dig) q)) ≡ packet_size
      whole = omega (
        arith,
        small,
        len,
        sized',
        front_size,
        length-append (take n q) (dig ++ drop (n + length dig) q),
        length-append dig (drop (n + length dig) q),
        length-drop (n + length dig) q,
      )
