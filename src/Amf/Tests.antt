-- ===== src/Amf/Tests.antt =====
-- The decoder on concrete bytes.
use lssvc.Common.{List, [], arith, false, true, ℕ, ◌++◌, ◌∷◌, ◌≡◌}
use lssvc.Amf.{decode, parsed}
use lssvc.Amf.Fields.{Field, IsSmall, short_text, whole_number}
use lssvc.Amf.Objects.{decode-encode_fields, encode_fields, properties_of}
use lssvc.Amf.Within.{IsWithin}
use lssvc.Amf.Ends.{decode_ends}

-- An array of two elements, each an object without an end.
abbrev nested_bytes : List ℕ
nested_bytes = 10 ∷ 0 ∷ 0 ∷ 0 ∷ 2 ∷ 0 ∷ 1 ∷ 97 ∷ 3 ∷ 0 ∷ 1 ∷ 98 ∷ 5 ∷ 0 ∷ 0 ∷ 9 ∷ []

decode_ends_example : IsWithin 17 (decode 17 false nested_bytes)
decode_ends_example = decode_ends false nested_bytes

abbrev two_fields : List (List ℕ × Field)
two_fields = (97 ∷ 98 ∷ [], whole_number 31) ∷ (99 ∷ [], short_text (100 ∷ [])) ∷ []

decode-encode_fields_example :
    decode 3 true (encode_fields two_fields ++ (0 ∷ 0 ∷ 9 ∷ 1 ∷ []))
    ≡ parsed (properties_of two_fields) (1 ∷ [])
unfolding IsSmall
decode-encode_fields_example =
    decode-encode_fields 3 two_fields (1 ∷ []) (omega arith)
      ((omega arith, omega arith, omega arith), ((omega arith, omega arith, omega arith), tt))
