-- ===== src/Handshake/Phase.antt =====
-- What src/mmedia/rtmp/rtmp_context.cpp makes of the handshake, in parse and onWriteComplete.
use lssvc.Common.{List, Option, [], some, ℕ, ◌++◌, ◌>>=◌, ◌∷◌}
use lssvc.Handshake.{HandShake, Reply, finished, hand_shake, refused, waiting, write_complete}

pub data Phase : Type 0 where
  hand_shaking : Phase
  waiting_done : Phase
  messages : Phase

-- `state_`, the handshake, and the bytes the connection has received.
pub record Opening : Type 0 where
  pub phase : Phase
  pub hand : HandShake
  pub buf : List ℕ

-- `handShake` never returns 2.
abbrev after : Reply → HandShake → List ℕ → Opening
after finished h buf = record { phase = messages; hand = h; buf = buf }
after waiting h buf = record { phase = hand_shaking; hand = h; buf = buf }
after refused h buf = record { phase = hand_shaking; hand = h; buf = buf }

-- `onWriteComplete`. The messages are the chunk stream's.
unfoldable pub on_write_complete : Opening → Opening
on_write_complete o = by_phase o.phase
  where
    by_phase : Phase → Opening
    by_phase hand_shaking = record o { hand = write_complete o.hand }
    by_phase waiting_done = record o { phase = messages }
    by_phase messages = o

-- Bytes came in, with the clock and the random bytes at that time, or all was written.
pub data Event : Type 0 where
  received : ℕ → List ℕ → List ℕ → Event
  written : Event

module _ (hmac : List ℕ → List ℕ → List ℕ) where
  -- `parse`, as far as it is the handshake's.
  unfoldable pub parse : ℕ → List ℕ → Opening → Option Opening
  parse now random o = by_phase o.phase
    where
      by_phase : Phase → Option Opening
      by_phase hand_shaking =
          hand_shake hmac now random o.hand o.buf >>= λ (h, left, r). some (after r h left)
      by_phase _ = some o

  unfoldable pub on_event : Event → Opening → Option Opening
  on_event (received now random bytes) o = parse now random (record o { buf = o.buf ++ bytes })
  on_event written o = some (on_write_complete o)

  unfoldable pub on_events : List Event → Opening → Option Opening
  on_events [] o = some o
  on_events (e ∷ es) o = on_event e o >>= on_events es
