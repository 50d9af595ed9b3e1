-- ===== src/Handshake/Tests.antt =====
-- The handshake, with a digest that is always the same.
use lssvc.Common.{List, [], arith, length, refl, replicate, some, true, ℕ, ◌++◌, ◌∷◌, ◌≡◌}
use lssvc.Handshake.{
  HandShake, done, finished, init, offset_at, packet_size, server_key_open, server_ver, wait_s0s1,
}
use lssvc.Handshake.Digests.{IsSigned}
use lssvc.Handshake.Exchange.{ended, exchange, exchange_done}
use lssvc.Handshake.Phase.{hand_shaking, on_events, received, written}
use lssvc.Handshake.Stuck.{late_s2_stays, received_bytes}

abbrev sevens : List ℕ → List ℕ → List ℕ
sevens key msg = replicate 32 7

abbrev zeros : List ℕ
zeros = replicate 1536 0

abbrev ones : List ℕ
ones = replicate 1536 1

exchange_done_example :
    exchange sevens ones zeros ones zeros 5 6 (1 ∷ 1000 ∷ [], 1536 ∷ [], 700 ∷ [])
    ≡ some (ended done done finished finished)
exchange_done_example =
    exchange_done sevens (λ _ _. refl) ones zeros ones zeros 5 6 (1 ∷ 1000 ∷ []) (1536 ∷ [])
      (700 ∷ []) (omega arith, (omega arith, tt)) (omega arith, tt) (omega arith, tt) refl refl refl
      refl

abbrev s1_front : List ℕ
s1_front = 0 ∷ 0 ∷ 0 ∷ 0 ∷ 13 ∷ 14 ∷ 10 ∷ 13 ∷ 0 ∷ 0 ∷ 0 ∷ 0 ∷ []

abbrev s1_back : List ℕ
s1_back = replicate 1492 0

s1-IsSigned : IsSigned sevens server_key_open server_ver (s1_front ++ (replicate 32 7 ++ s1_back))
unfolding offset_at
s1-IsSigned = record {
  place = 12;
  front = s1_front;
  back = s1_back;
  split = refl;
  placed = refl;
  some_front = omega arith;
  offset = refl;
  version = refl;
  size = refl;
}

abbrev waiting_client : HandShake
waiting_client = record (init true) { state = wait_s0s1 }

-- S2 comes in one piece of its own, and then a byte of a message.
late_s2_stays_example :
    (h : HandShake) × (c2 : List ℕ) × (on_events sevens
        (received 5 ones (3 ∷ ((s1_front ++ (replicate 32 7 ++ s1_back)) ++ []))
          ∷ written
          ∷ received 6 ones zeros
          ∷ received 7 ones (2 ∷ [])
          ∷ [])
        (record { phase = hand_shaking; hand = waiting_client; buf = [] })
      ≡ some (record { phase = hand_shaking; hand = h; buf = zeros ++ (2 ∷ []) }))
    × (length c2 ≡ packet_size)
    × (h.outgoing ≡ [] ++ (c2 ∷ []))
unfolding received_bytes
late_s2_stays_example =
    late_s2_stays sevens (λ _ _. refl) 5 ones waiting_client
      (s1_front ++ (replicate 32 7 ++ s1_back)) []
      (written ∷ received 6 ones zeros ∷ received 7 ones (2 ∷ []) ∷ []) refl refl refl refl
      s1-IsSigned (λ e. absurd (omega (arith, e)))
