-- ===== src/Commands/Faults.antt =====
-- Messages that handleAmfCommand does not survive.
use lssvc.Common.{
  Bool, List, arith, drop, false, ge→ltb, gt→leb, if◌then◌else◌, length, lt→ltb, none, refl, ℕ, ◌*◌,
  ◌+◌, ◌<◌, ◌==◌, ◌∷◌, ◌≡◌, ◌≤◌,
}
use lssvc.Bytes.{read_uint16, read_uint24}
use lssvc.Amf.Lookup.{property_at}
use lssvc.Amf.{
  and_then, decode, decode_item, decode_name, decode_named, decode_string, decode_typed, given,
  pick,
}
use lssvc.Commands.{Context}
use lssvc.Commands.Receive.{dispatch, handle_amf_command}

-- A command of less than three bytes, the one in front of an AMF3 message not counted, has no
-- properties, and handleAmfCommand goes through the null pointer that it gets for the first one.
pub short_command_faults :
    (body : List ℕ) (amf3 : Bool) (c : Context)
    → length (if amf3 then drop 1 body else body) < 3
    → handle_amf_command body amf3 c ≡ none
unfolding handle_amf_command decode dispatch property_at
short_command_faults body amf3 c short =
    simp (lt→ltb (length (if amf3 then drop 1 body else body)) 3 short) refl

goes_on : (a b c : ℕ) → 256 ≤ a * 65536 + b * 256 → ((a * 65536 + b * 256 + c) == 9) ≡ false
goes_on a b c big = ground arith

-- The name of a property is not checked against the size: a command with an object whose first name
-- claims more bytes than the message has makes the decoder read behind it.
pub long_name_faults :
    (high low x : ℕ) (rest : List ℕ) (c : Context)
    → length (x ∷ rest) < high * 256 + low
    → handle_amf_command (3 ∷ high ∷ low ∷ x ∷ rest) false c ≡ none
unfolding handle_amf_command decode decode_named decode_name decode_typed decode_item decode_string
    given and_then pick read_uint16 read_uint24
long_name_faults high low x rest c long =
    simp
      (
        ge→ltb (length (3 ∷ high ∷ low ∷ x ∷ rest)) 3 (omega arith),
        goes_on 3 high low (omega arith),
        ge→ltb (length (high ∷ low ∷ x ∷ rest)) 3 (omega arith),
        goes_on high low x (omega (arith, long)),
        gt→leb (2 + (high * 256 + low)) (length (high ∷ low ∷ x ∷ rest)) (omega (arith, long)),
      )
      refl
