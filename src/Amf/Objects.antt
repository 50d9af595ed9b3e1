-- ===== src/Amf/Objects.antt =====
-- An object, as RtmpContext writes it: named values one behind another and the mark of the end.
use mathlib.Core.List.{append_assoc}
use lssvc.Common.{
  All, Bool, List, [], arith, false, ge→ltb, length, length-append, refl, suc, true, zero, ℕ, ◌++◌,
  ◌+◌, ◌<◌, ◌^◌, ◌∷◌, ◌≡◌,
}
use lssvc.Bytes.{read_uint24, write_uint16}
use lssvc.Bytes.Codec.{length-write_uint16}
use lssvc.Amf.{
  Properties, and_then, at_end, decode, decode_array, decode_name, decode_named, go_on, name_of,
  nothing, parsed, property, unless_empty,
}
use lssvc.Amf.Encode.{encode_name}
use lssvc.Amf.Fields.{
  Field, IsSmall, as_field, decode_item-field, decode_string-text, encode_field, flag, short_text,
  whole_number,
}

unfoldable pub encode_fields : List (List ℕ × Field) → List ℕ
encode_fields [] = []
encode_fields ((name, v) ∷ fs) = encode_name name ++ (encode_field v ++ encode_fields fs)

unfoldable pub properties_of : List (List ℕ × Field) → Properties
properties_of [] = nothing
properties_of ((name, v) ∷ fs) = property name (as_field v) (properties_of fs)

-- A name that is not empty and that two bytes can count, and a value that can be written.
abbrev pub IsSound : List ℕ × Field → Type 0
IsSound (name, v) = (0 < length name) × (length name < 2 ^ 16) × IsSmall v

decode_name-name :
    (c : ℕ) (cs rest : List ℕ)
    → length (c ∷ cs) < 2 ^ 16
    → decode_name true (encode_name (c ∷ cs) ++ rest) ≡ parsed (c ∷ cs) rest
unfolding decode_name encode_name and_then unless_empty
decode_name-name c cs rest small =
    simp
      (
        append_assoc (write_uint16 (length (c ∷ cs))) (c ∷ cs) rest,
        decode_string-text (c ∷ cs) rest small,
      )
      refl

not_at_end :
    (c : ℕ) (cs rest : List ℕ)
    → length (c ∷ cs) < 2 ^ 16
    → at_end (encode_name (c ∷ cs) ++ rest) ≡ false
unfolding encode_name write_uint16 read_uint24
not_at_end c cs rest small = ground arith

length-encode_name : (name : List ℕ) → length (encode_name name) ≡ 2 + length name
unfolding encode_name
length-encode_name name =
    omega
      (arith, length-append (write_uint16 (length name)) name, length-write_uint16 (length name))

pub name_of-field : (name : List ℕ) (v : Field) → name_of name (as_field v) ≡ name
name_of-field name (whole_number n) = refl
name_of-field name (flag b) = refl
name_of-field name (short_text s) = refl

-- One round of the loop.
decode-field :
    (fuel c : ℕ) (cs : List ℕ) (v : Field) (rest rest' : List ℕ) (ps : Properties)
    → length (c ∷ cs) < 2 ^ 16
    → IsSmall v
    → decode fuel true rest ≡ parsed ps rest'
    → decode (suc fuel) true (encode_name (c ∷ cs) ++ (encode_field v ++ rest))
      ≡ parsed (property (c ∷ cs) (as_field v) ps) rest'
unfolding decode decode_named go_on and_then
decode-field fuel c cs v rest rest' ps short small then_rest =
    simp
      (
        ge→ltb (length (encode_name (c ∷ cs) ++ (encode_field v ++ rest))) 3 (
            omega (
              arith,
              length-append (encode_name (c ∷ cs)) (encode_field v ++ rest),
              length-encode_name (c ∷ cs),
            )),
        not_at_end c cs (encode_field v ++ rest) short,
        decode_name-name c cs (encode_field v ++ rest) short,
        decode_item-field (decode fuel true) (decode_array fuel) (c ∷ cs) v rest small,
        then_rest,
        name_of-field (c ∷ cs) v,
      )
      refl

decode-end :
    (fuel : ℕ) (has : Bool) (rest : List ℕ)
    → decode (suc fuel) has (0 ∷ 0 ∷ 9 ∷ rest) ≡ parsed nothing rest
unfolding decode read_uint24
decode-end fuel has rest = simp (ge→ltb (length (0 ∷ 0 ∷ 9 ∷ rest)) 3 (omega arith)) refl

-- Named values, written one behind another with the mark of the end, are read back in their order,
-- and what follows is left: names that are not empty, names and strings that two bytes can count,
-- whole numbers that are not negative and below 2^53.
pub decode-encode_fields :
    (fuel : ℕ) (fs : List (List ℕ × Field)) (rest : List ℕ)
    → length fs < fuel
    → All IsSound fs
    → decode fuel true (encode_fields fs ++ (0 ∷ 0 ∷ 9 ∷ rest)) ≡ parsed (properties_of fs) rest
unfolding encode_fields properties_of
decode-encode_fields zero fs rest enough sound = absurd (omega (arith, enough))
decode-encode_fields (suc fuel) [] rest enough sound = decode-end fuel true rest
decode-encode_fields (suc fuel) (([], v) ∷ fs) rest enough (first, sound) =
    absurd (omega (arith, first.0))
decode-encode_fields (suc fuel) ((c ∷ cs, v) ∷ fs) rest enough (first, sound) =
    simp
      (
        append_assoc (encode_name (c ∷ cs)) (encode_field v ++ encode_fields fs) (0 ∷ 0 ∷ 9 ∷ rest),
        append_assoc (encode_field v) (encode_fields fs) (0 ∷ 0 ∷ 9 ∷ rest),
      )
      (decode-field fuel c cs v (encode_fields fs ++ (0 ∷ 0 ∷ 9 ∷ rest)) rest (properties_of fs)
        first.1 first.2 (decode-encode_fields fuel fs rest (omega (arith, enough)) sound))
