-- ===== src/Amf/Fields.antt =====
-- What the encoders write, read by the decoder.
use mathlib.Core.List.{append_assoc}
use lssvc.Common.{
  Bool, List, ap, arith, drop, drop-append_length, false, ge→ltb, length, length-append, le→leb,
  refl, suc, take-append_length, true, ℕ, ◌%◌, ◌++◌, ◌+◌, ◌/◌, ◌<◌, ◌^◌, ◌∷◌, ◌≡◌,
}
use lssvc.Bytes.{write_uint16, write_uint32}
use lssvc.Bytes.Codec.{length-write_uint16, read_uint16-write}
use lssvc.Double.{double, write_number}
use lssvc.Amf.{
  Decoded, Properties, Value, and_then, boolean, decode_boolean, decode_item, decode_number,
  decode_string, decode_text, decode_typed, given, number, parsed, pick, text, value,
}
use lssvc.Amf.Encode.{encode_boolean, encode_number, encode_string}
use lssvc.Double.Whole.{read_uint64-write_double}

-- A value that the encoders can write.
pub data Field : Type 0 where
  whole_number : ℕ → Field
  flag : Bool → Field
  short_text : List ℕ → Field

unfoldable pub encode_field : Field → List ℕ
encode_field (whole_number n) = encode_number (double n)
encode_field (flag b) = encode_boolean b
encode_field (short_text s) = encode_string s

abbrev pub as_field : Field → Value
as_field (whole_number n) = number n
as_field (flag b) = boolean b
as_field (short_text s) = text s

-- A number that a double holds, a string that two bytes can count.
unfoldable pub IsSmall : Field → Type 0
IsSmall (whole_number n) = n < 2 ^ 53
IsSmall (flag b) = Unit {0}
IsSmall (short_text s) = length s < 2 ^ 16

drop_two : (a b n : ℕ) (xs : List ℕ) → drop (2 + n) (a ∷ b ∷ xs) ≡ drop n xs
drop_two a b n xs = ap (λ k. drop k (a ∷ b ∷ xs)) (two n)
  where
    two : (n : ℕ) → 2 + n ≡ suc (suc n)
    two n = omega arith

pub decode_string-text :
    (s rest : List ℕ)
    → length s < 2 ^ 16
    → decode_string (write_uint16 (length s) ++ (s ++ rest)) ≡ parsed s rest
unfolding decode_string given write_uint16
decode_string-text s rest small =
    simp
      (
        read_uint16-write (length s) (s ++ rest) small,
        le→leb (2 + length s) (length (write_uint16 (length s) ++ (s ++ rest)))
            (omega (arith, length-append s rest)),
        drop_two (length s / 256 % 256) (length s % 256) (length s) (s ++ rest),
        take-append_length s rest,
        drop-append_length s rest,
      )
      refl

decode_number-double :
    (n : ℕ) (rest : List ℕ)
    → n < 2 ^ 53
    → decode_number (write_number (double n) ++ rest) ≡ parsed (number n) rest
unfolding decode_number write_number write_uint32 given
decode_number-double n rest small =
    simp
      (
        le→leb 8 (length (write_number (double n) ++ rest)) (omega arith),
        read_uint64-write_double n rest small,
      )
      refl

decode_text-text :
    (s rest : List ℕ)
    → length s < 2 ^ 16
    → decode_text text (write_uint16 (length s) ++ (s ++ rest)) ≡ parsed (text s) rest
unfolding decode_text given and_then
decode_text-text s rest small =
    simp
      (
        read_uint16-write (length s) (s ++ rest) small,
        ge→ltb (length (write_uint16 (length s) ++ (s ++ rest))) (length s + 2) (
            omega (
              arith,
              length-append (write_uint16 (length s)) (s ++ rest),
              length-append s rest,
              length-write_uint16 (length s),
            )),
        decode_string-text s rest small,
      )
      refl

-- The type and the value of a field, with whatever behind it.
pub decode_item-field :
    (nested : List ℕ → Decoded Properties) (elements : ℕ → List ℕ → Decoded Properties)
    (name : List ℕ) (v : Field) (rest : List ℕ)
    → IsSmall v
    → decode_typed nested elements name (encode_field v ++ rest)
      ≡ parsed (name, value (as_field v)) rest
unfolding decode_typed decode_item encode_field pick IsSmall encode_number encode_boolean
    encode_string and_then decode_boolean
decode_item-field nested elements name (whole_number n) rest small =
    simp (decode_number-double n rest small) refl
decode_item-field nested elements name (flag true) rest small = refl
decode_item-field nested elements name (flag false) rest small = refl
decode_item-field nested elements name (short_text s) rest small =
    simp (append_assoc (write_uint16 (length s)) s rest, decode_text-text s rest small) refl
