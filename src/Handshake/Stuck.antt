-- ===== src/Handshake/Stuck.antt =====
-- A client that gets S2 apart from S0 and S1.
use lssvc.Bytes.{same_bytes}
use lssvc.Common.{
  List, [], ap, arith, false, length, refl, some, sym, true, ℕ, ◌++◌, ◌==◌, ◌∙◌, ◌∷◌, ◌≡◌,
}
use mathlib.Core.List.{append-nil, append_assoc}
use lssvc.Handshake.{
  HandShake, check_c1s1, create_c2s2, digest_length, done, hand_shake, packet_size, post_c2,
  send_c2s2, server_key_open, server_ver, wait_s0s1, waiting, write_complete,
}
use lssvc.Handshake.Phase.{
  Event, hand_shaking, on_event, on_events, on_write_complete, parse, received, written,
}
use lssvc.Handshake.Digests.{IsSigned}
use lssvc.Handshake.Packets.{check_c1s1-IsSigned, create_c2s2_lem}
use lssvc.Handshake.Exchange.{answer_c1s1_lem}

-- All that the events bring.
unfoldable pub received_bytes : List Event → List ℕ
received_bytes [] = []
received_bytes (received _ _ bytes ∷ es) = bytes ++ received_bytes es
received_bytes (written ∷ es) = received_bytes es

data IsPast (h : HandShake) : Type 0 where
  sending : h.state ≡ post_c2 → IsPast h
  sent : h.state ≡ done → IsPast h

module _ (hmac : List ℕ → List ℕ → List ℕ) where
  past_waits :
      (now : ℕ) (random : List ℕ) (h : HandShake) (buf : List ℕ)
      → IsPast h
      → hand_shake hmac now random h buf ≡ some (h, buf, waiting)
  unfolding hand_shake
  past_waits now random h buf (sending e) = simp e refl
  past_waits now random h buf (sent e) = simp e refl

  write_complete-IsPast : (h : HandShake) → IsPast h → IsPast (write_complete h)
  unfolding write_complete
  write_complete-IsPast h (sending e) = sent (simp e refl)
  write_complete-IsPast h (sent e) = sent (simp e refl)

  write_complete-outgoing : (h : HandShake) → IsPast h → (write_complete h).outgoing ≡ h.outgoing
  unfolding write_complete
  write_complete-outgoing h (sending e) = simp e refl
  write_complete-outgoing h (sent e) = simp e refl

  past_stays :
      (es : List Event) (h : HandShake) (buf : List ℕ)
      → IsPast h
      → (h' : HandShake) × (on_events hmac es (record { phase = hand_shaking; hand = h; buf = buf })
          ≡ some (record { phase = hand_shaking; hand = h'; buf = buf ++ received_bytes es }))
        × (h'.outgoing ≡ h.outgoing)
  unfolding on_events on_event parse on_write_complete received_bytes
  past_stays [] h buf past = (
    h,
    ap (λ b. some (record { phase = hand_shaking; hand = h; buf = b })) (sym (append-nil buf)),
    refl,
  )
  past_stays (received now random bytes ∷ es) h buf past =
      let (h', e, same) = past_stays es h (buf ++ bytes) past in
      (
        h',
        simp (past_waits now random h (buf ++ bytes) past, e)
            (ap (λ b. some (record { phase = hand_shaking; hand = h'; buf = b }))
              (append_assoc buf bytes (received_bytes es))),
        same,
      )
  past_stays (written ∷ es) h buf past =
      let (h', e, same) = past_stays es (write_complete h) buf (write_complete-IsPast h past) in
      (h', e, same ∙ write_complete-outgoing h past)

module _ (hmac : List ℕ → List ℕ → List ℕ)
    (sized : (key msg : List ℕ) → length (hmac key msg) ≡ digest_length) where
  late_reply :
      (now : ℕ) (random : List ℕ) (h h' h'' : HandShake) (p rest : List ℕ) (offset : ℕ)
      → h.state ≡ wait_s0s1
      → length p ≡ packet_size
      → ¬ (length rest ≡ packet_size)
      → check_c1s1 hmac h (3 ∷ p) ≡ some (h', some offset)
      → create_c2s2 hmac now random (p ++ rest) offset h' ≡ some h''
      → hand_shake hmac now random h (3 ∷ (p ++ rest))
        ≡ some (send_c2s2 (record h'' { state = post_c2 }), rest, waiting)
  unfolding hand_shake
  late_reply now random h h' h'' p rest offset e len other checked created = simp e (
      answer_c1s1_lem hmac sized now random _ h h' h'' p rest offset len checked created
      ∙ rw differs refl)
    where
      differs : (length rest == packet_size) ≡ false
      differs = ground (arith, other)

  -- A client that waits for S0 and S1 of a complex handshake, and gets them with fewer or with more
  -- bytes of S2 and of what follows than S2 has: it sends a second packet, of 1536 bytes, and no
  -- more. Whatever is received and written afterwards, it stays in the handshake, and all bytes from
  -- S2 on stay in the buffer.
  pub late_s2_stays :
      (now : ℕ) (random : List ℕ) (h : HandShake) (p rest : List ℕ) (es : List Event)
      → h.state ≡ wait_s0s1
      → h.is_client ≡ true
      → h.is_complex ≡ true
      → length random ≡ packet_size
      → IsSigned hmac server_key_open server_ver p
      → ¬ (length rest ≡ packet_size)
      → (h' : HandShake) × (c2 : List ℕ) × (on_events hmac
            (received now random (3 ∷ (p ++ rest)) ∷ es)
            (record { phase = hand_shaking; hand = h; buf = [] })
          ≡ some (record { phase = hand_shaking; hand = h'; buf = rest ++ received_bytes es }))
        × (length c2 ≡ packet_size)
        × (h'.outgoing ≡ h.outgoing ++ (c2 ∷ []))
  unfolding on_events on_event parse same_bytes
  late_s2_stays now random h p rest es e client complex len signed other =
      let (offset, checked) =
        check_c1s1-IsSigned hmac sized h server_key_open server_ver p complex (rw client refl) refl
          signed in
      let (c2, created, sized_c2) =
        create_c2s2_lem hmac sized now random (p ++ rest) offset h len complex in
      let sent_c2 = send_c2s2 (record h { c2s2 = c2; state = post_c2 }) in
      let (h', stays, out) = past_stays hmac es sent_c2 rest (sending refl) in
      (
        h',
        c2,
        simp
            (
              late_reply now random h h (record h { c2s2 = c2 }) p rest offset e signed.size other
                  checked created,
              stays,
            )
            refl,
        sized_c2,
        out,
      )
