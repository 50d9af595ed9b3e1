-- ===== src/MsgBuffer/Tests.antt =====
-- LSSMsgBuffer at concrete inputs.
use lssvc.Common.{[], arith, length, refl, replicate, some, ◌>>=◌, ◌∷◌, ◌≡◌}
use lssvc.MsgBuffer.{
  MsgBuffer, append, compact, copy_in, ensure_writeable_bytes, grown_length, init, overwrite, read,
}
use lssvc.MsgBuffer.Invariant.{Holds, IsValid}
use lssvc.MsgBuffer.Refine.{appends, receives, retrieves, run, run-Holds}

abbrev tiny : MsgBuffer
tiny = record { head = 8; tail = 8; cap = 8; buffer = replicate 16 0 }

tiny-IsValid : IsValid tiny
tiny-IsValid = record {
  offset = omega arith;
  ordered = omega arith;
  within = omega arith;
  capacity = omega arith;
}

-- A buffer too small for nine bytes doubles its vector.
append_grows : (append tiny (replicate 9 7) >>= λ b. some (length b.buffer)) ≡ some 40
unfolding append ensure_writeable_bytes copy_in compact grown_length overwrite init
append_grows = refl

-- `read` copies and takes nothing out.
read_keeps : read (record tiny { tail = 10 }) 5 ≡ 0 ∷ 0 ∷ []
unfolding read
read_keeps = refl

run-Holds_example :
    (b' : MsgBuffer) × (run tiny (appends (1 ∷ 2 ∷ 3 ∷ []) ∷ retrieves 2 ∷ receives (4 ∷ []) ∷ [])
      ≡ some b')
    × Holds b' (3 ∷ 4 ∷ [])
run-Holds_example =
    run-Holds tiny (appends (1 ∷ 2 ∷ 3 ∷ []) ∷ retrieves 2 ∷ receives (4 ∷ []) ∷ []) tiny-IsValid
