-- ===== src/Handshake/Packets.antt =====
-- The packets each side makes, and what the other side makes of them.
use lssvc.Common.{
  Bool-cases, List, [], ap, arith, drop, false, if◌then◌else◌, inl, inr, length, length-append,
  length-drop, length-take, le→leb, refl, replicate, some, sym, take, true, ℕ, ◌++◌, ◌+◌, ◌-◌, ◌∙◌,
  ◌∷◌, ◌≡◌, ◌≤◌,
}
use lssvc.Handshake.{
  HandShake, check_c1s1, create_c1s1, create_c2s2, digest_length, find_digest, offset_at,
  packet_size, player_key, player_key_open, server_key, server_key_open, verify_digest,
}
use lssvc.Handshake.Digests.{IsSigned, key_of, sign, ver_of, verify_digest-signed}
use lssvc.MsgBuffer.{overwrite}
use lssvc.Bytes.{same_bytes, write_uint32}
use lssvc.Bytes.Codec.{length-write_uint32}

overwrite_fits :
    (buf : List ℕ) (off : ℕ) (bs : List ℕ)
    → off + length bs ≤ length buf
    → (r : List ℕ) × (overwrite buf off bs ≡ some r) × (length r ≡ length buf)
unfolding overwrite
overwrite_fits buf off bs h = (
  take off buf ++ (bs ++ drop (off + length bs) buf),
  rw (le→leb _ _ h) refl,
  omega (
    arith,
    h,
    length-append (take off buf) (bs ++ drop (off + length bs) buf),
    length-append bs (drop (off + length bs) buf),
    length-take off buf,
    length-drop (off + length bs) buf,
  ),
)

zero_time :
    (a b c d : ℕ) (xs : List ℕ)
    → overwrite (a ∷ b ∷ c ∷ d ∷ xs) 0 (replicate 4 0) ≡ some (0 ∷ 0 ∷ 0 ∷ 0 ∷ xs)
unfolding overwrite
zero_time a b c d xs = rw (le→leb (0 + 4) (length (a ∷ b ∷ c ∷ d ∷ xs)) (omega arith)) refl

set_version :
    (a b c d e f g i v0 v1 v2 v3 : ℕ) (xs : List ℕ)
    → overwrite (a ∷ b ∷ c ∷ d ∷ e ∷ f ∷ g ∷ i ∷ xs) 4 (v0 ∷ v1 ∷ v2 ∷ v3 ∷ [])
      ≡ some (a ∷ b ∷ c ∷ d ∷ v0 ∷ v1 ∷ v2 ∷ v3 ∷ xs)
unfolding overwrite
set_version a b c d e f g i v0 v1 v2 v3 xs =
    rw (le→leb (4 + 4) (length (a ∷ b ∷ c ∷ d ∷ e ∷ f ∷ g ∷ i ∷ xs)) (omega arith)) refl

module _ (hmac : List ℕ → List ℕ → List ℕ)
    (sized : (key msg : List ℕ) → length (hmac key msg) ≡ digest_length) where
  pub create_c1s1-IsSigned :
      (random : List ℕ) (h : HandShake)
      → length random ≡ packet_size
      → h.is_complex ≡ true
      → (p : List ℕ) × (dig : List ℕ) × (create_c1s1 hmac random h
          ≡ some (record h { c1s1 = p; digest = dig }))
        × IsSigned hmac (key_of h) (ver_of h) p
  unfolding create_c1s1 offset_at
  create_c1s1-IsSigned (a0 ∷ a1 ∷ a2 ∷ a3 ∷ a4 ∷ a5 ∷ a6 ∷ a7 ∷ a ∷ b ∷ c ∷ d ∷ rest) h len
        complex =
      elim (Bool-cases h.is_client) [
        | inl e ↦ by_key player_key_open 12 0 13 14 (rw e refl) (rw e refl)
        | inr e ↦ by_key server_key_open 13 14 10 13 (rw e refl) (rw e refl)
      ]
    where
      len' : length rest ≡ 1524
      len' = omega (arith, len)

      by_key :
          (key : List ℕ) (v0 v1 v2 v3 : ℕ)
          → key_of h ≡ key
          → ver_of h ≡ v0 ∷ v1 ∷ v2 ∷ v3 ∷ []
          → (p : List ℕ) × (dig : List ℕ) × (create_c1s1 hmac
                (a0 ∷ a1 ∷ a2 ∷ a3 ∷ a4 ∷ a5 ∷ a6 ∷ a7 ∷ a ∷ b ∷ c ∷ d ∷ rest)
                h
              ≡ some (record h { c1s1 = p; digest = dig }))
            × IsSigned hmac (key_of h) (ver_of h) p
      by_key key v0 v1 v2 v3 k v =
          let (r, dig, calc, put, signed) =
            sign hmac key v0 v1 v2 v3 a b c d rest len' (sized key) in
          (
            r,
            dig,
            rw (complex, k, v)
                (rw
                  (
                    zero_time a0 a1 a2 a3 (a4 ∷ a5 ∷ a6 ∷ a7 ∷ a ∷ b ∷ c ∷ d ∷ rest),
                    set_version 0 0 0 0 a4 a5 a6 a7 v0 v1 v2 v3 (a ∷ b ∷ c ∷ d ∷ rest),
                    calc,
                    put,
                  )
                  refl),
            rw (k, v) signed,
          )
  create_c1s1-IsSigned _ h len complex = absurd (omega arith)

  pub check_c1s1-IsSigned :
      (h : HandShake) (key ver p : List ℕ)
      → h.is_complex ≡ true
      → (if h.is_client then server_key_open else player_key_open) ≡ key
      → same_bytes ver (replicate 4 0) ≡ false
      → IsSigned hmac key ver p
      → (offset : ℕ) × (check_c1s1 hmac h (3 ∷ p) ≡ some (h, some offset))
  unfolding check_c1s1 find_digest
  check_c1s1-IsSigned h key ver p complex same_key not_simple s =
      (s.place, simp (s.version, not_simple, complex, same_key, s.offset, verified) refl)
    where
      verified : verify_digest hmac p s.place key ≡ some true
      verified =
          ap (λ x. verify_digest hmac x s.place key) s.split
          ∙ ap (λ m. verify_digest hmac (s.front ++ (hmac key (s.front ++ s.back) ++ s.back)) m key)
              (sym s.placed)
          ∙ verify_digest-signed hmac s.front s.back key (omega (arith, s.some_front, s.placed))
              (sized key (s.front ++ s.back))

  pub create_c2s2_lem :
      (now : ℕ) (random packet : List ℕ) (offset : ℕ) (h : HandShake)
      → length random ≡ packet_size
      → h.is_complex ≡ true
      → (x : List ℕ) × (create_c2s2 hmac now random packet offset h ≡ some (record h { c2s2 = x }))
        × (length x ≡ packet_size)
  unfolding create_c2s2
  create_c2s2_lem now random packet offset h len complex =
      let key = if h.is_client then player_key else server_key in
      let (p, e, n) =
        overwrite_fits random 0 (take 8 packet) (omega (arith, len, length-take 8 packet)) in
      let (q, e', n') =
        overwrite_fits p 0 (write_uint32 now) (omega (arith, n, len, length-write_uint32 now)) in
      let sum =
        hmac (hmac key (take digest_length (drop offset packet)))
          (take (packet_size - digest_length) q) in
      let (r, e'', n'') = overwrite_fits q (packet_size - digest_length) sum (
        omega (
          arith,
          n',
          n,
          len,
          sized (hmac key (take digest_length (drop offset packet)))
              (take (packet_size - digest_length) q),
        )) in
      (r, rw e (rw e' (rw complex (rw e'' refl))), n'' ∙ n' ∙ n ∙ len)
