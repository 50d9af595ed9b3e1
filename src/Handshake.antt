-- ===== src/Handshake.antt =====
-- src/mmedia/rtmp/rtmp_handshake.cpp and include/mmedia/rtmp/rtmp_handshake.h. HMAC-SHA256 is a
-- parameter, and what the random generator and the clock give are arguments. `none` is an access
-- outside an array.
pub mod Offsets
pub mod Digests
pub mod Packets
pub mod Exchange
pub mod Phase
pub mod Stuck
pub mod Tests
use lssvc.Common.{
  Bool, List, Option, [], drop, false, if◌then◌else◌, leb, length, ltb, none, not, replicate, some,
  take, true, ℕ, ◌%◌, ◌&&◌, ◌++◌, ◌+◌, ◌-◌, ◌==◌, ◌>>=◌, ◌∷◌,
}
use lssvc.Bytes.{same_bytes, write_uint32}
use lssvc.MsgBuffer.{overwrite}

abbrev pub packet_size : ℕ
packet_size = 1536

abbrev pub digest_length : ℕ
digest_length = 32

abbrev pub server_ver : List ℕ
server_ver = 13 ∷ 14 ∷ 10 ∷ 13 ∷ []

abbrev pub client_ver : List ℕ
client_ver = 12 ∷ 0 ∷ 13 ∷ 14 ∷ []

abbrev pub player_key : List ℕ
player_key =
    71 ∷ 101 ∷ 110 ∷ 117 ∷ 105 ∷ 110 ∷ 101 ∷ 32 ∷ 65 ∷ 100 ∷ 111 ∷ 98 ∷ 101 ∷ 32 ∷ 70 ∷ 108 ∷ 97
    ∷ 115 ∷ 104 ∷ 32 ∷ 80 ∷ 108 ∷ 97 ∷ 121 ∷ 101 ∷ 114 ∷ 32 ∷ 48 ∷ 48 ∷ 49 ∷ 240 ∷ 238 ∷ 194 ∷ 74
    ∷ 128 ∷ 104 ∷ 190 ∷ 232 ∷ 46 ∷ 0 ∷ 208 ∷ 209 ∷ 2 ∷ 158 ∷ 126 ∷ 87 ∷ 110 ∷ 236 ∷ 93 ∷ 45 ∷ 41
    ∷ 128 ∷ 111 ∷ 171 ∷ 147 ∷ 184 ∷ 230 ∷ 54 ∷ 207 ∷ 235 ∷ 49 ∷ 174 ∷ []

abbrev pub server_key : List ℕ
server_key =
    71 ∷ 101 ∷ 110 ∷ 117 ∷ 105 ∷ 110 ∷ 101 ∷ 32 ∷ 65 ∷ 100 ∷ 111 ∷ 98 ∷ 101 ∷ 32 ∷ 70 ∷ 108 ∷ 97
    ∷ 115 ∷ 104 ∷ 32 ∷ 77 ∷ 101 ∷ 100 ∷ 105 ∷ 97 ∷ 32 ∷ 83 ∷ 101 ∷ 114 ∷ 118 ∷ 101 ∷ 114 ∷ 32 ∷ 48
    ∷ 48 ∷ 49 ∷ 240 ∷ 238 ∷ 194 ∷ 74 ∷ 128 ∷ 104 ∷ 190 ∷ 232 ∷ 46 ∷ 0 ∷ 208 ∷ 209 ∷ 2 ∷ 158 ∷ 126
    ∷ 87 ∷ 110 ∷ 236 ∷ 93 ∷ 45 ∷ 41 ∷ 128 ∷ 111 ∷ 171 ∷ 147 ∷ 184 ∷ 230 ∷ 54 ∷ 207 ∷ 235 ∷ 49 ∷ 174
    ∷ []

-- The parts of the keys that sign the first digests.
abbrev pub player_key_open : List ℕ
player_key_open = take 30 player_key

abbrev pub server_key_open : List ℕ
server_key_open = take 36 server_key

pub data State : Type 0 where
  start_state : State
  post_c0c1 : State
  wait_s0s1 : State
  post_c2 : State
  wait_s2 : State
  doning : State
  wait_c0c1 : State
  post_s0s1 : State
  post_s2 : State
  wait_c2 : State
  done : State

-- C1S1_ is the byte 3 and then `c1s1`. `outgoing` is what was given to the connection to send.
pub record HandShake : Type 0 where
  pub is_client : Bool
  pub is_complex : Bool
  pub digest : List ℕ
  pub c1s1 : List ℕ
  pub c2s2 : List ℕ
  pub state : State
  pub outgoing : List (List ℕ)

abbrev pub init : Bool → HandShake
init client = record {
  is_client = client;
  is_complex = true;
  digest = [];
  c1s1 = [];
  c2s2 = [];
  state = start_state;
  outgoing = [];
}

-- `getDigestOffset`: four bytes give a place within the 728 behind them.
unfoldable pub offset_at : ℕ → List ℕ → Option ℕ
offset_at off (a ∷ b ∷ c ∷ d ∷ _) = some (off + 4 + (a + b + c + d) % 728)
offset_at off _ = none

abbrev pub get_digest_offset : List ℕ → ℕ → Option ℕ
get_digest_offset buf off = offset_at off (drop off buf)

abbrev pub send_c1s1 : HandShake → HandShake
send_c1s1 h = record h { outgoing = h.outgoing ++ ((3 ∷ h.c1s1) ∷ []) }

abbrev pub send_c2s2 : HandShake → HandShake
send_c2s2 h = record h { outgoing = h.outgoing ++ (h.c2s2 ∷ []) }

-- 0, 1 and -1.
pub data Reply : Type 0 where
  finished : Reply
  waiting : Reply
  refused : Reply

-- The state, the bytes left in the buffer, and the reply.
abbrev pub Result : Type 0
Result = Option (HandShake × List ℕ × Reply)

module _ (hmac : List ℕ → List ℕ → List ℕ) where
  -- The digest of all the bytes, or of those around the gap.
  unfoldable pub calculate_digest : List ℕ → ℕ → List ℕ → Option (List ℕ)
  calculate_digest src gap key =
      if gap == 0
      then some (hmac key src)
      else if leb (gap + digest_length) (length src)
      then some (hmac key (take gap src ++ drop (gap + digest_length) src))
      else none

  unfoldable pub verify_digest : List ℕ → ℕ → List ℕ → Option Bool
  verify_digest buf pos key =
      calculate_digest buf pos key >>= λ d. some (same_bytes (take digest_length (drop pos buf)) d)

  -- `createC1S1`, with the random bytes.
  unfoldable pub create_c1s1 : List ℕ → HandShake → Option HandShake
  create_c1s1 random h =
      let key = if h.is_client then player_key_open else server_key_open in
      let ver = if h.is_client then client_ver else server_ver in
      let simple = overwrite random 0 (replicate 4 0) >>= λ p.
      overwrite p 4 (replicate 4 0) >>= λ q. some (record h { c1s1 = q }) in
      let complex = overwrite random 0 (replicate 4 0) >>= λ p. get_digest_offset p 8 >>= λ offset.
      overwrite p 4 ver >>= λ q. calculate_digest q offset key >>= λ d.
      overwrite q offset d >>= λ r. some (record h { c1s1 = r; digest = d }) in
      if h.is_complex then complex else simple

  -- `createC2S2`, with the clock, the random bytes, and the packet that came in.
  unfoldable pub create_c2s2 : ℕ → List ℕ → List ℕ → ℕ → HandShake → Option HandShake
  create_c2s2 now random packet offset h =
      let key = if h.is_client then player_key else server_key in
      overwrite random 0 (take 8 packet) >>= λ p. overwrite p 0 (write_uint32 now) >>= λ q.
      let simple = some (record h { c2s2 = q }) in
      let complex =
        overwrite q (packet_size - digest_length) (
          hmac (hmac key (take digest_length (drop offset packet)))
            (take (packet_size - digest_length) q))
        >>= λ r. some (record h { c2s2 = r }) in
      if h.is_complex then complex else simple

  -- The two places where a digest may be; `none` inside for -1.
  unfoldable pub find_digest : List ℕ → List ℕ → Option (Option ℕ)
  find_digest packet key = get_digest_offset packet 8 >>= λ offset.
      verify_digest packet offset key >>= λ first.
      let second = get_digest_offset packet 772 >>= λ offset'.
      verify_digest packet offset' key >>= λ found. some (if found then some offset' else none) in
      if first then some (some offset) else second

  -- `checkC1S1` of the 1537 bytes, with what it finds: the offset, or `none` for -1.
  unfoldable pub check_c1s1 : HandShake → List ℕ → Option (HandShake × Option ℕ)
  check_c1s1 h [] = none
  check_c1s1 h (c0 ∷ packet) =
      let key = if h.is_client then server_key_open else player_key_open in
      let found = find_digest packet key >>= λ offset. some (h, offset) in
      if not (c0 == 3)
      then some (h, none)
      else if same_bytes (take 4 (drop 4 packet)) (replicate 4 0)
      then some (record h { is_complex = false }, some 0)
      else if h.is_complex
      then found
      else some (h, none)

  -- `start`.
  unfoldable pub start : List ℕ → HandShake → Option HandShake
  start random h = create_c1s1 random h >>= λ h'. some (
      if h.is_client
      then send_c1s1 (record h' { state = post_c0c1 })
      else record h' { state = wait_c0c1 })

  -- A packet with a version byte has come: check it and answer it.
  unfoldable pub answer_c1s1 :
      ℕ → List ℕ → (HandShake → List ℕ → Result) → HandShake → List ℕ → Result
  answer_c1s1 now random then_on h buf =
      let answered = check_c1s1 h (take (packet_size + 1) buf) >>= λ (h', offset). go h' offset in
      if ltb (length buf) (packet_size + 1) then some (h, buf, waiting) else answered
    where
      go : HandShake → Option ℕ → Result
      go h' none = some (h', buf, refused)
      go h' (some offset) = create_c2s2 now random (drop 1 buf) offset h' >>= λ h''.
          then_on h'' (drop (packet_size + 1) buf)

  -- `handShake`, by the state. `checkC2S2` accepts everything.
  unfoldable pub hand_shake : ℕ → List ℕ → HandShake → List ℕ → Result
  hand_shake now random h buf = by_state h.state
    where
      server_c1 : HandShake → List ℕ → Result
      server_c1 h' left = some (send_c1s1 (record h' { state = post_s0s1 }), left, waiting)

      client_s1 : HandShake → List ℕ → Result
      client_s1 h' left =
          if length left == packet_size
          then some (send_c2s2 (record h' { state = doning }), drop packet_size left, finished)
          else some (send_c2s2 (record h' { state = post_c2 }), left, waiting)

      by_state : State → Result
      by_state wait_c0c1 = answer_c1s1 now random server_c1 h buf
      by_state wait_s0s1 = answer_c1s1 now random client_s1 h buf
      by_state wait_c2 =
          if ltb (length buf) packet_size
          then some (h, buf, waiting)
          else some (record h { state = done }, drop packet_size buf, finished)
      by_state _ = some (h, buf, waiting)

-- `writeComplete`.
unfoldable pub write_complete : HandShake → HandShake
write_complete h = by_state h.state
  where
    by_state : State → HandShake
    by_state post_s0s1 = send_c2s2 (record h { state = post_s2 })
    by_state post_s2 = record h { state = wait_c2 }
    by_state post_c0c1 = record h { state = wait_s0s1 }
    by_state post_c2 = record h { state = done }
    by_state doning = record h { state = done }
    by_state _ = h
