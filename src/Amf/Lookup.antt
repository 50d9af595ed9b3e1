-- ===== src/Amf/Lookup.antt =====
-- The lookups of src/mmedia/rtmp/amf: properties of an object, and what AMFAny gives of a value.
use lssvc.Common.{List, Option, [], if◌then◌else◌, none, some, suc, zero, ℕ}
use lssvc.Bytes.{same_bytes}
use lssvc.Amf.{Properties, Value, long_text, nothing, number, object, property, text}

-- `property` by a name, which looks into the objects too, and by an index.
unfoldable mutual
  pub property_named : List ℕ → Properties → Option Value
  property_named name nothing = none
  property_named name (property n v ps) =
      let inner = property_within name v in
      let rest = property_named name ps in
      if same_bytes n name then some v else elim inner [ some w ↦ some w | none ↦ rest ]

  pub property_within : List ℕ → Value → Option Value
  property_within name (object ps) = property_named name ps
  property_within name _ = none

unfoldable pub property_at : ℕ → Properties → Option Value
property_at i nothing = none
property_at zero (property n v ps) = some v
property_at (suc i) (property n v ps) = property_at i ps

-- `str`, `number` and `object`, with the defaults of AMFAny for a value of another class.
unfoldable pub str : Value → List ℕ
str (text s) = s
str (long_text s) = s
str _ = []

unfoldable pub number_value : Value → ℕ
number_value (number n) = n
number_value _ = 0

unfoldable pub object_value : Value → Option Properties
object_value (object ps) = some ps
object_value _ = none
