-- ===== src/Amf.antt =====
-- src/mmedia/rtmp/amf: the values of AMF0 and their decoders. The memory that a decoder may read is
-- the list of the bytes from its pointer on, so that `size` is the length of the list.
pub mod Encode
pub mod Lookup
pub mod Fields
pub mod Objects
pub mod Within
pub mod Ends
pub mod Tests
use lssvc.Common.{
  Bool, List, Option, [], drop, false, if◌then◌else◌, leb, length, ltb, none, not, some, suc, take,
  true, zero, ℕ, ◌+◌, ◌==◌, ◌^◌, ◌∷◌,
}
use lssvc.Bytes.{read_uint16, read_uint24, read_uint32}
use lssvc.Double.{read_uint64}

-- AMFAny with the classes below it, without the names. `properties_` is a list of values with their
-- names; AMFNull has none, so that its name is empty.
mutual
  pub data Value : Type 0 where
    number : ℕ → Value
    boolean : Bool → Value
    text : List ℕ → Value
    object : Properties → Value
    null : Value
    date : ℕ → ℕ → Value
    long_text : List ℕ → Value

  pub data Properties : Type 0 where
    nothing : Properties
    property : List ℕ → Value → Properties → Properties

-- What a decoder yields: a value and the bytes behind it, -1, a step that the language leaves
-- undefined, as a read outside the memory, or no answer within the fuel.
pub data Decoded {ℓ} (A : Type ℓ) : Type ℓ where
  parsed : A → List ℕ → Decoded A
  failed : Decoded A
  undefined : Decoded A
  unfinished : Decoded A

unfoldable pub and_then {ℓ ℓ'} :
    {A : Type ℓ} {B : Type ℓ'} → Decoded A → (A → List ℕ → Decoded B) → Decoded B
and_then (parsed a xs) f = f a xs
and_then failed f = failed
and_then undefined f = undefined
and_then unfinished f = unfinished

-- A read, or what the decoder yields where it is not made.
unfoldable pub given {ℓ ℓ'} :
    {A : Type ℓ} {B : Type ℓ'} → Decoded B → Option A → (A → Decoded B) → Decoded B
given d none f = d
given d (some a) f = f a

-- `decodeString`. A string is not checked against the size.
unfoldable pub decode_string : List ℕ → Decoded (List ℕ)
decode_string xs = given undefined (read_uint16 xs) (λ len.
    if leb (2 + len) (length xs)
    then parsed (take len (drop 2 xs)) (drop (2 + len) xs)
    else undefined)

-- The two bytes of an empty name are not skipped.
unfoldable pub unless_empty : List ℕ → List ℕ → List ℕ → Decoded (List ℕ)
unless_empty xs [] rest = parsed [] xs
unless_empty xs (c ∷ cs) rest = parsed (c ∷ cs) rest

-- The name of a property.
unfoldable pub decode_name : Bool → List ℕ → Decoded (List ℕ)
decode_name false xs = parsed [] xs
decode_name true xs = and_then (decode_string xs) (unless_empty xs)

-- `AMFNumber::decode`, `AMFBoolean::decode`, `AMFString::decode`, `AMFDate::decode` and
-- `AMFLongString::decode`.
unfoldable pub decode_number : List ℕ → Decoded Value
decode_number xs =
    if leb 8 (length xs)
    then given undefined (read_uint64 xs) (λ n. parsed (number n) (drop 8 xs))
    else failed

unfoldable pub decode_boolean : List ℕ → Decoded Value
decode_boolean [] = failed
decode_boolean (x ∷ xs) = parsed (boolean (not (x == 0))) xs

unfoldable pub decode_text : (List ℕ → Value) → List ℕ → Decoded Value
decode_text wrap xs = given failed (read_uint16 xs) (λ len.
    if ltb (length xs) (len + 2)
    then failed
    else and_then (decode_string xs) (λ s rest. parsed (wrap s) rest))

unfoldable pub decode_date : List ℕ → Decoded Value
decode_date xs =
    if ltb (length xs) 10
    then failed
    else given undefined (read_uint64 xs) (λ utc.
      given undefined (read_uint16 (drop 8 xs)) (λ offset. parsed (date utc offset) (drop 10 xs)))

-- What the switch makes of one type: a value, nothing, or the end of the object.
pub data Item : Type 0 where
  value : Value → Item
  ignored : Item
  end_of_object : Item

abbrev pub as_value : Decoded Value → Decoded Item
as_value d = and_then d (λ v rest. parsed (value v) rest)

abbrev pub as_object : Decoded Properties → Decoded Item
as_object d = and_then d (λ ps rest. parsed (value (object ps)) rest)

-- The loop of a strict array takes the count for an int.
abbrev pub int_count : ℕ → ℕ
int_count n = if ltb n (2 ^ 31) then n else 0

-- AMFDataType.
pub data DataType : Type 0 where
  amf_number : DataType
  amf_boolean : DataType
  amf_string : DataType
  amf_object : DataType
  amf_movie_clip : DataType
  amf_null : DataType
  amf_undefined : DataType
  amf_reference : DataType
  amf_ecma_array : DataType
  amf_object_end : DataType
  amf_strict_array : DataType
  amf_date : DataType
  amf_long_string : DataType
  amf_unsupported : DataType
  amf_recordset : DataType
  amf_xml_doc : DataType
  amf_typed_object : DataType
  amf_avmplus : DataType
  amf_invalid : DataType

abbrev data_types : List DataType
data_types =
    amf_number ∷ amf_boolean ∷ amf_string ∷ amf_object ∷ amf_movie_clip ∷ amf_null ∷ amf_undefined
    ∷ amf_reference ∷ amf_ecma_array ∷ amf_object_end ∷ amf_strict_array ∷ amf_date
    ∷ amf_long_string ∷ amf_unsupported ∷ amf_recordset ∷ amf_xml_doc ∷ amf_typed_object
    ∷ amf_avmplus ∷ []

unfoldable pub pick : ℕ → List DataType → DataType
pick n [] = amf_invalid
pick zero (d ∷ ds) = d
pick (suc n) (d ∷ ds) = pick n ds

-- The type that a byte stands for. The switch has no case for any other.
abbrev pub data_type : ℕ → DataType
data_type n = pick n data_types

-- The switch of `decode` and `decodeOnce`, with what decodes a nested object and the elements of an
-- array.
unfoldable pub decode_item :
    (List ℕ → Decoded Properties)
    → (ℕ → List ℕ → Decoded Properties)
    → DataType
    → List ℕ
    → Decoded Item
decode_item nested elements amf_number xs = as_value (decode_number xs)
decode_item nested elements amf_boolean xs = as_value (decode_boolean xs)
decode_item nested elements amf_string xs = as_value (decode_text text xs)
decode_item nested elements amf_object xs = as_object (nested xs)
decode_item nested elements amf_null xs = parsed (value null) xs
decode_item nested elements amf_ecma_array xs =
    given undefined (read_uint32 xs) (λ count. as_object (nested (drop 4 xs)))
decode_item nested elements amf_object_end xs = parsed end_of_object xs
decode_item nested elements amf_strict_array xs =
    given undefined (read_uint32 xs) (λ count. as_object (elements (int_count count) (drop 4 xs)))
decode_item nested elements amf_date xs = as_value (decode_date xs)
decode_item nested elements amf_long_string xs = as_value (decode_text long_text xs)
decode_item nested elements _ xs = parsed ignored xs

-- The type and the value.
unfoldable pub decode_typed :
    (List ℕ → Decoded Properties)
    → (ℕ → List ℕ → Decoded Properties)
    → List ℕ
    → List ℕ
    → Decoded (List ℕ × Item)
decode_typed nested elements name [] = undefined
decode_typed nested elements name (t ∷ rest) =
    and_then (decode_item nested elements (data_type t) rest)
      (λ item rest'. parsed (name, item) rest')

-- The name, the type and the value.
unfoldable pub decode_named :
    (List ℕ → Decoded Properties)
    → (ℕ → List ℕ → Decoded Properties)
    → Bool
    → List ℕ
    → Decoded (List ℕ × Item)
decode_named nested elements has xs = and_then (decode_name has xs) (decode_typed nested elements)

-- AMFNull is made without the name.
abbrev pub name_of : List ℕ → Value → List ℕ
name_of name null = []
name_of name _ = name

abbrev pub add : List ℕ → Item → Properties → Properties
add name (value v) ps = property (name_of name v) v ps
add name _ ps = ps

abbrev pub at_end : List ℕ → Bool
at_end xs = elim (read_uint24 xs) [ none ↦ false | some n ↦ n == 9 ]

-- What the loop makes of an item, with the rest of the loop.
unfoldable pub go_on : List ℕ → (List ℕ → Decoded Properties) → Item → List ℕ → Decoded Properties
go_on name loop end_of_object rest = parsed nothing rest
go_on name loop ignored rest = loop rest
go_on name loop (value v) rest =
    and_then (loop rest) (λ ps rest'. parsed (add name (value v) ps) rest')

-- The loop of `decode`, and the elements of a strict array, each by `decodeOnce`.
unfoldable mutual
  pub decode : ℕ → Bool → List ℕ → Decoded Properties
  decode zero has xs = unfinished
  decode (suc fuel) has xs =
      let named =
        and_then (decode_named (decode fuel true) (decode_array fuel) has xs)
          (λ (name, item) rest. go_on name (decode fuel has) item rest) in
      if ltb (length xs) 3
      then parsed nothing xs
      else if at_end xs
      then parsed nothing (drop 3 xs)
      else named

  pub decode_array : ℕ → ℕ → List ℕ → Decoded Properties
  decode_array fuel zero xs = parsed nothing xs
  decode_array zero (suc count) xs = unfinished
  decode_array (suc fuel) (suc count) xs =
      and_then (decode_named (decode fuel true) (decode_array fuel) true xs) (λ (name, item) rest.
        and_then (decode_array fuel count rest) (λ ps rest'. parsed (add name item ps) rest'))
