-- ===== src/Commands/Connect.antt =====
-- The connect of a client, at the server.
use mathlib.Core.List.{append_assoc}
use lssvc.Common.{
  All, List, [], arith, false, ge→ltb, length, length-append, refl, suc, true, ℕ, ◌++◌, ◌-◌, ◌<◌,
  ◌^◌, ◌∷◌, ◌≡◌, ◌≤◌,
}
use lssvc.Amf.Lookup.{object_value, property_at, property_named, str}
use lssvc.Amf.{
  Properties, and_then, at_end, decode, decode_array, decode_item, decode_name, decode_named,
  decode_typed, go_on, nothing, number, object, parsed, pick, property, text,
}
use lssvc.Amf.Encode.{
  encode_named_boolean, encode_named_number, encode_named_string, encode_number, encode_string,
}
use lssvc.Amf.Fields.{
  Field, IsSmall, as_field, decode_item-field, encode_field, flag, short_text, whole_number,
}
use lssvc.Amf.Objects.{IsSound, decode-encode_fields, encode_fields, name_of-field, properties_of}
use lssvc.Commands.Words.{
  app_word, audio_codecs_word, capabilities_word, connect_word, fpad_word, tc_url_word,
  video_codecs_word, video_function_word,
}
use lssvc.Commands.{Context, connect_body, end_mark}
use lssvc.Bytes.{read_uint24, same_bytes, write_uint16, write_uint32}
use lssvc.Commands.Receive.{
  connect_app, dispatch, find_command, handle_amf_command, handle_connect, reply_connect,
  wants_amf3,
}
use lssvc.Double.{double, log2, write_number}

-- A value without a name at the top of a message.
decode-top :
    (fuel : ℕ) (v : Field) (rest rest' : List ℕ) (ps : Properties)
    → IsSmall v
    → 3 ≤ length (encode_field v ++ rest)
    → at_end (encode_field v ++ rest) ≡ false
    → decode fuel false rest ≡ parsed ps rest'
    → decode (suc fuel) false (encode_field v ++ rest) ≡ parsed (property [] (as_field v) ps) rest'
unfolding decode decode_named decode_name go_on and_then
decode-top fuel v rest rest' ps small long no_end then_rest =
    simp
      (
        ge→ltb (length (encode_field v ++ rest)) 3 long,
        no_end,
        decode_item-field (decode fuel true) (decode_array fuel) [] v rest small,
        then_rest,
        name_of-field [] v,
      )
      refl

object_goes_on : (xs : List ℕ) → at_end (3 ∷ xs) ≡ false
unfolding read_uint24
object_goes_on [] = refl
object_goes_on (a ∷ []) = refl
object_goes_on (a ∷ b ∷ xs) = ground arith

-- An object at the end of a message.
decode-object :
    (fuel : ℕ) (fs : List (List ℕ × Field))
    → length fs < suc fuel
    → All IsSound fs
    → decode (suc (suc fuel)) false (3 ∷ (encode_fields fs ++ end_mark))
      ≡ parsed (property [] (object (properties_of fs)) nothing) []
unfolding decode decode_named decode_name decode_typed decode_item pick go_on and_then
decode-object fuel fs enough sound =
    simp
      (
        ge→ltb (length (3 ∷ (encode_fields fs ++ end_mark))) 3
            (omega (arith, length-append (encode_fields fs) end_mark)),
        object_goes_on (encode_fields fs ++ end_mark),
        decode-encode_fields (suc fuel) fs [] enough sound,
      )
      refl

abbrev connect_fields : List ℕ → List ℕ → List (List ℕ × Field)
connect_fields app tc_url =
    (app_word, short_text app)
    ∷ (tc_url_word, short_text tc_url)
    ∷ (fpad_word, flag false)
    ∷ (capabilities_word, whole_number 31)
    ∷ (audio_codecs_word, whole_number 1639)
    ∷ (video_codecs_word, whole_number 252)
    ∷ (video_function_word, whole_number 1)
    ∷ []

connect_body_fields :
    (app tc_url : List ℕ)
    → connect_body app tc_url
      ≡ encode_field (short_text connect_word)
        ++ (encode_field (whole_number 1)
            ++ (3 ∷ (encode_fields (connect_fields app tc_url) ++ end_mark)))
unfolding connect_body encode_field encode_fields encode_named_string encode_named_number
    encode_named_boolean
connect_body_fields app tc_url = simp append_assoc refl

abbrev connect_object : List ℕ → List ℕ → Properties
connect_object app tc_url = property [] (text connect_word) (
    property [] (number 1)
      (property [] (object (properties_of (connect_fields app tc_url))) nothing))

connect_fields-IsSound :
    (app tc_url : List ℕ)
    → length app < 2 ^ 16
    → length tc_url < 2 ^ 16
    → All IsSound (connect_fields app tc_url)
unfolding IsSmall
connect_fields-IsSound app tc_url short short' = omega (arith, short, short')

decode-connect_body :
    (fuel : ℕ) (app tc_url : List ℕ)
    → 7 < suc fuel
    → length app < 2 ^ 16
    → length tc_url < 2 ^ 16
    → decode (suc (suc (suc (suc fuel)))) false (connect_body app tc_url)
      ≡ parsed (connect_object app tc_url) []
unfolding encode_field encode_string encode_number write_uint16 read_uint24 IsSmall double log2
    write_number write_uint32
decode-connect_body fuel app tc_url enough short short' = rw (connect_body_fields app tc_url) (
    decode-top (suc (suc (suc fuel))) (short_text connect_word) _ [] _ (omega arith) (omega arith)
      refl
      (decode-top (suc (suc fuel)) (whole_number 1) _ [] _ (omega arith) (omega arith) refl (
        decode-object fuel (connect_fields app tc_url) (omega (arith, enough))
          (connect_fields-IsSound app tc_url short short'))))

connect_body-long : (app tc_url : List ℕ) → 20 ≤ length (connect_body app tc_url)
unfolding encode_field encode_string encode_number write_number write_uint16 write_uint32
connect_body-long app tc_url = rw (connect_body_fields app tc_url) (omega arith)

dispatch-connect :
    (app tc_url : List ℕ) (c : Context)
    → dispatch (connect_object app tc_url) c
      ≡ reply_connect false (record c { app = app; tc_url = tc_url })
unfolding dispatch find_command handle_connect connect_app wants_amf3 property_named property_at
    same_bytes str object_value properties_of
dispatch-connect app tc_url c = refl

-- What a client writes into a connect is what the server takes from it: the message that sendConnect
-- builds, of an application and an address shorter than 2^16, makes handleAmfCommand call
-- handleConnect, which keeps both as the client had them and answers without AMF3.
pub handle_amf_command-connect_body :
    (app tc_url : List ℕ) (c : Context)
    → length app < 2 ^ 16
    → length tc_url < 2 ^ 16
    → handle_amf_command (connect_body app tc_url) false c
      ≡ reply_connect false (record c { app = app; tc_url = tc_url })
unfolding handle_amf_command
handle_amf_command-connect_body app tc_url c short short' =
    rw
      (
        enough (length (connect_body app tc_url)) (connect_body-long app tc_url),
        decode-connect_body (length (connect_body app tc_url) - 3) app tc_url
            (omega (arith, connect_body-long app tc_url)) short short',
      )
      (dispatch-connect app tc_url c)
  where
    enough : (n : ℕ) → 20 ≤ n → suc n ≡ suc (suc (suc (suc (n - 3))))
    enough n l = omega (arith, l)
