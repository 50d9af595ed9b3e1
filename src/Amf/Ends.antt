-- ===== src/Amf/Ends.antt =====
-- The decoder ends, whatever the bytes.
use lssvc.Common.{
  Bool, List, [], arith, drop, length, length-drop, ltb, suc, true, zero, ℕ, ◌<◌, ◌∷◌,
}
use lssvc.Amf.{
  DataType, Decoded, Item, Properties, amf_boolean, amf_date, amf_ecma_array, amf_long_string,
  amf_null, amf_number, amf_object, amf_object_end, amf_strict_array, amf_string, at_end, data_type,
  decode, decode_array, decode_item, decode_name, decode_named, decode_typed, end_of_object, go_on,
  ignored, int_count, long_text, nothing, parsed, text, undefined, value,
}
use lssvc.Bytes.{read_uint32}
use lssvc.Amf.Within.{
  IsWithin, IsWithin-if, IsWithin-weaken, and_then-IsWithin, as_object-IsWithin, as_value-IsWithin,
  decode_boolean-IsWithin, decode_date-IsWithin, decode_name-IsWithin, decode_number-IsWithin,
  decode_text-IsWithin, given-IsWithin,
}

-- What the induction gives of the two loops, for what is shorter.
module _ (nested : List ℕ → Decoded Properties) (elements : ℕ → List ℕ → Decoded Properties) (n : ℕ)
    (nested-ends : (xs : List ℕ) → length xs < n → IsWithin (suc (length xs)) (nested xs))
    (elements-ends : (count : ℕ) (xs : List ℕ)
      → length xs < n
      → IsWithin (suc (length xs)) (elements count xs)) where
  decode_item-IsWithin :
      (t : DataType) (xs : List ℕ)
      → length xs < n
      → IsWithin (suc (length xs)) (decode_item nested elements t xs)
  unfolding decode_item IsWithin
  decode_item-IsWithin amf_number xs l = as_value-IsWithin _ _ (decode_number-IsWithin xs)
  decode_item-IsWithin amf_boolean xs l = as_value-IsWithin _ _ (decode_boolean-IsWithin xs)
  decode_item-IsWithin amf_string xs l = as_value-IsWithin _ _ (decode_text-IsWithin text xs)
  decode_item-IsWithin amf_object xs l = as_object-IsWithin _ _ (nested-ends xs l)
  decode_item-IsWithin amf_null xs l = omega arith
  decode_item-IsWithin amf_ecma_array xs l =
      given-IsWithin (suc (length xs)) undefined (read_uint32 xs) _ tt (λ count _.
        as_object-IsWithin _ (nested (drop 4 xs)) (
          IsWithin-weaken (suc (length (drop 4 xs))) _ _ (omega (arith, length-drop 4 xs))
            (nested-ends (drop 4 xs) (omega (arith, l, length-drop 4 xs)))))
  decode_item-IsWithin amf_object_end xs l = omega arith
  decode_item-IsWithin amf_strict_array xs l =
      given-IsWithin (suc (length xs)) undefined (read_uint32 xs) _ tt (λ count _.
        as_object-IsWithin _ (elements (int_count count) (drop 4 xs)) (
          IsWithin-weaken (suc (length (drop 4 xs))) _ _ (omega (arith, length-drop 4 xs))
            (elements-ends (int_count count) (drop 4 xs) (omega (arith, l, length-drop 4 xs)))))
  decode_item-IsWithin amf_date xs l = as_value-IsWithin _ _ (decode_date-IsWithin xs)
  decode_item-IsWithin amf_long_string xs l =
      as_value-IsWithin _ _ (decode_text-IsWithin long_text xs)
  decode_item-IsWithin _ xs l = omega arith

  decode_typed-IsWithin :
      (name xs : List ℕ)
      → length xs < suc n
      → IsWithin (length xs) (decode_typed nested elements name xs)
  unfolding decode_typed IsWithin
  decode_typed-IsWithin name [] l = tt
  decode_typed-IsWithin name (t ∷ rest) l =
      and_then-IsWithin (suc (length rest)) (decode_item nested elements (data_type t) rest) _
        (decode_item-IsWithin (data_type t) rest (omega (arith, l))) (λ item rest' l'. l')

  decode_named-IsWithin :
      (has : Bool) (xs : List ℕ)
      → length xs < suc n
      → IsWithin (length xs) (decode_named nested elements has xs)
  unfolding decode_named
  decode_named-IsWithin has xs l =
      and_then-IsWithin (length xs) (decode_name has xs) (decode_typed nested elements)
        (decode_name-IsWithin has xs)
        (λ name rest l'.
          IsWithin-weaken (length rest) (length xs) _ (omega (arith, l'))
            (decode_typed-IsWithin name rest (omega (arith, l, l'))))

go_on-IsWithin :
    (name : List ℕ) (loop : List ℕ → Decoded Properties) (item : Item) (rest : List ℕ)
    → IsWithin (suc (length rest)) (loop rest)
    → IsWithin (suc (length rest)) (go_on name loop item rest)
unfolding go_on IsWithin
go_on-IsWithin name loop end_of_object rest within = omega arith
go_on-IsWithin name loop ignored rest within = within
go_on-IsWithin name loop (value v) rest within =
    and_then-IsWithin (suc (length rest)) (loop rest) _ within (λ ps rest' l. l)

abbrev DecodeEnds : ℕ → Type 0
DecodeEnds fuel =
    (has : Bool) (xs : List ℕ) → length xs < fuel → IsWithin (suc (length xs)) (decode fuel has xs)

abbrev ArrayEnds : ℕ → Type 0
ArrayEnds fuel =
    (count : ℕ) (xs : List ℕ)
    → length xs < fuel
    → IsWithin (suc (length xs)) (decode_array fuel count xs)

decode_round : (fuel : ℕ) → DecodeEnds fuel → ArrayEnds fuel → DecodeEnds (suc fuel)
unfolding decode IsWithin
decode_round fuel nested elements has xs l =
    IsWithin-if (suc (length xs)) (ltb (length xs) 3) (parsed nothing xs) _ (λ _. omega arith)
      (λ _.
        IsWithin-if (suc (length xs)) (at_end xs) (parsed nothing (drop 3 xs)) _
          (λ _. omega (arith, length-drop 3 xs))
          (λ _.
            and_then-IsWithin (suc (length xs))
              (decode_named (decode fuel true) (decode_array fuel) has xs) _
              (decode_named-IsWithin (decode fuel true) (decode_array fuel) fuel (nested true)
                elements has xs l)
              (λ (name, item) rest l'. IsWithin-weaken (suc (length rest)) _ _ (omega (arith, l')) (
                go_on-IsWithin name (decode fuel has) item rest
                  (nested has rest (omega (arith, l, l')))))))

array_round : (fuel : ℕ) → DecodeEnds fuel → ArrayEnds fuel → ArrayEnds (suc fuel)
unfolding decode IsWithin
array_round fuel nested elements zero xs l = omega arith
array_round fuel nested elements (suc count) xs l =
    and_then-IsWithin (suc (length xs))
      (decode_named (decode fuel true) (decode_array fuel) true xs) _
      (decode_named-IsWithin (decode fuel true) (decode_array fuel) fuel (nested true) elements true
        xs l)
      (λ (name, item) rest l'.
        and_then-IsWithin (suc (length xs)) (decode_array fuel count rest) _
          (elements count rest (omega (arith, l, l'))) (λ ps rest' l''. omega (arith, l', l'')))

decode_all : (fuel : ℕ) → DecodeEnds fuel × ArrayEnds fuel
decode_all zero = (λ has xs l. absurd (omega (arith, l)), λ count xs l. absurd (omega (arith, l)))
decode_all (suc fuel) =
    let (nested, elements) = decode_all fuel in
    (decode_round fuel nested elements, array_round fuel nested elements)

-- Whatever the bytes and however objects and arrays are nested in them, the decoder ends within one
-- round more than there are bytes: it yields properties and no more bytes left than it was given, or
-- -1, or makes a step that the language leaves undefined.
pub decode_ends :
    (has : Bool) (xs : List ℕ) → IsWithin (suc (length xs)) (decode (suc (length xs)) has xs)
decode_ends has xs = (decode_all (suc (length xs))).0 has xs (omega arith)
