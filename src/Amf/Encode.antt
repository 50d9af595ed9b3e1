-- ===== src/Amf/Encode.antt =====
-- The encoders of src/mmedia/rtmp/amf/amf_any.cpp: what they write from `output` on. A number is given
-- by the bits of its double.
use lssvc.Common.{Bool, List, [], if◌then◌else◌, length, ℕ, ◌++◌, ◌∷◌}
use lssvc.Bytes.{write_uint16}
use lssvc.Double.{write_number}

unfoldable pub encode_number : ℕ → List ℕ
encode_number val = 0 ∷ write_number val

unfoldable pub encode_string : List ℕ → List ℕ
encode_string str = 2 ∷ (write_uint16 (length str) ++ str)

unfoldable pub encode_boolean : Bool → List ℕ
encode_boolean b = 1 ∷ (if b then 1 else 0) ∷ []

-- Both bytes of `length`, and all of the name.
unfoldable pub encode_name : List ℕ → List ℕ
encode_name name = write_uint16 (length name) ++ name

unfoldable pub encode_named_number : List ℕ → ℕ → List ℕ
encode_named_number name val = encode_name name ++ encode_number val

unfoldable pub encode_named_string : List ℕ → List ℕ → List ℕ
encode_named_string name val = encode_name name ++ encode_string val

unfoldable pub encode_named_boolean : List ℕ → Bool → List ℕ
encode_named_boolean name val = encode_name name ++ encode_boolean val
