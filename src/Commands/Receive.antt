-- ===== src/Commands/Receive.antt =====
-- The handlers of what RtmpContext receives: handleUserMessage and handleAmfCommand with the commands
-- that it knows, in src/mmedia/rtmp/rtmp_context.cpp.
use lssvc.Common.{
  Bool, List, Option, [], drop, false, if◌then◌else◌, length, ltb, none, some, suc, true, ℕ, ◌++◌,
  ◌==◌, ◌>>=◌, ◌∷◌,
}
use lssvc.Bytes.{read_uint16, read_uint32, same_bytes}
use lssvc.Double.{double}
use lssvc.Amf.Lookup.{number_value, object_value, property_at, property_named, str}
use lssvc.Amf.{Decoded, Properties, decode, failed, parsed, undefined, unfinished}
use lssvc.Amf.Encode.{encode_named_number, encode_named_string, encode_number, encode_string}
use lssvc.Chunk.Send.{
  send_ack_window_size, send_set_chunk_size, send_set_peer_bandwidth, send_user_ctrl_message,
}
use lssvc.Commands.Words.{
  app_word, capabilities_word, code_word, connect_succeeded_word, connect_success_word,
  connect_word, create_stream_word, description_word, error_word, fms_ver_word, fms_version_word,
  level_word, object_encoding_word, play_start_word, play_word, publish_start_word, publish_word,
  result_word, start_playing_word, start_publish_word, status_word, tc_url_word,
}
use lssvc.Commands.{
  Call, Context, end_mark, force_close, on_play, on_publish, on_publish_prepare,
  parse_name_and_tc_url, send_amf, send_create_stream, send_play, send_publish, send_status,
  type_null, type_object,
}

abbrev ping_request : ℕ
ping_request = 5

abbrev ping_response : ℕ
ping_response = 6

-- Only a request is answered; for the other types the handler writes to the log.
unfoldable pub handle_user_message : List ℕ → Context → Option Context
handle_user_message body c =
    let answered = read_uint16 body >>= λ type. read_uint32 (drop 2 body) >>= λ value.
    (let pong = send_user_ctrl_message c.outbound ping_response value 0 >>= λ o.
    some (record c { outbound = o }) in
      if type == ping_request then pong else some c) in
    if ltb (length body) 6 then some c else answered

abbrev pub call : Call → Context → Context
call k c = if c.has_handler then record c { calls = c.calls ++ (k ∷ []) } else c

-- Whether the encoding of a client is AMF3.
unfoldable pub wants_amf3 : Properties → Bool
wants_amf3 sub = elim (property_named object_encoding_word sub) [
  | none ↦ false
  | some v ↦ number_value v == 3
]

unfoldable pub connect_result : Bool → List ℕ
connect_result amf3 =
    encode_string result_word
    ++ (encode_number (double 1)
        ++ (type_object
            ∷ (encode_named_string fms_ver_word fms_version_word
                ++ (encode_named_number capabilities_word (double 31)
                    ++ (end_mark
                        ++ (type_object
                            ∷ (encode_named_string level_word status_word
                                ++ (encode_named_string code_word connect_success_word
                                    ++ (encode_named_string description_word connect_succeeded_word
                                        ++ (encode_named_number object_encoding_word
                                              (double (if amf3 then 3 else 0))
                                            ++ end_mark))))))))))

-- The application of a connect, and whether it asks for AMF3.
unfoldable pub connect_app : Context → Option Properties → Option (Context × Bool)
connect_app c none = some (c, false)
connect_app c (some sub) =
    property_named app_word sub >>= λ v. some (record c { app = str v }, wants_amf3 sub)

-- What a connect is answered with.
unfoldable pub reply_connect : Bool → Context → Option Context
reply_connect amf3 c = send_ack_window_size c.outbound c.ack_size >>= λ o.
    send_set_peer_bandwidth o c.ack_size >>= λ o'.
    send_set_chunk_size o' >>= λ o''. send_amf 0 (connect_result amf3) (record c { outbound = o'' })

unfoldable pub handle_connect : Properties → Context → Option Context
handle_connect obj c = property_named tc_url_word obj >>= λ url. property_at 2 obj >>= λ sub.
    connect_app (record c { tc_url = str url }) (object_value sub) >>= λ (c', amf3).
    reply_connect amf3 c'

unfoldable pub create_stream_result : ℕ → List ℕ
create_stream_result id =
    encode_string result_word
    ++ (encode_number (double id) ++ (type_null ∷ encode_number (double 1)))

unfoldable pub handle_create_stream : Properties → Context → Option Context
handle_create_stream obj c =
    property_at 1 obj >>= λ v. send_amf 0 (create_stream_result (number_value v)) c

-- What play and publish have in common: the name, and the session that it belongs to.
unfoldable pub take_name : Properties → Context → Option Context
take_name obj c = property_at 1 obj >>= λ _.
    property_at 3 obj >>= λ v. parse_name_and_tc_url (record c { name = str v })

unfoldable pub handle_play : Properties → Context → Option Context
handle_play obj c = take_name obj c >>= λ c'. send_user_ctrl_message c'.outbound 0 1 0 >>= λ o.
    send_status status_word play_start_word start_playing_word
      (record c' { is_player = true; outbound = o })
    >>= λ c''. some (call (on_play c''.session_name c''.param) c'')

unfoldable pub handle_publish : Properties → Context → Option Context
handle_publish obj c = take_name obj c >>= λ c'.
    send_status status_word publish_start_word start_publish_word (record c' { is_player = false })
    >>= λ c''. some (call (on_publish c''.session_name c''.param) c'')

unfoldable pub handle_result : Properties → Context → Option Context
handle_result obj c = property_at 1 obj >>= λ v. by_id (number_value v)
  where
    by_id : ℕ → Option Context
    by_id id =
        if id == 1
        then send_create_stream c
        else if id == 4
        then (if c.is_player then send_play c else send_publish c)
        else if id == 5
        then some (call on_publish_prepare c)
        else some c

unfoldable pub handle_error : Properties → Context → Option Context
handle_error obj c = property_at 3 obj >>= λ v. object_value v >>= λ info.
    property_named description_word info >>= λ _.
    some (record c { calls = c.calls ++ (force_close ∷ []) })

-- `commands_`, and the search in it.
abbrev pub commands : List (List ℕ × (Properties → Context → Option Context))
commands =
    (connect_word, handle_connect)
    ∷ (create_stream_word, handle_create_stream)
    ∷ (result_word, handle_result)
    ∷ (error_word, handle_error)
    ∷ (play_word, handle_play)
    ∷ (publish_word, handle_publish)
    ∷ []

unfoldable pub find_command :
    List ℕ
    → List (List ℕ × (Properties → Context → Option Context))
    → Option (Properties → Context → Option Context)
find_command method [] = none
find_command method ((word, handler) ∷ rest) =
    let further = find_command method rest in
    if same_bytes method word then some handler else further

unfoldable pub dispatch : Properties → Context → Option Context
dispatch obj c = property_at 0 obj >>= λ v. run (find_command (str v) commands)
  where
    run : Option (Properties → Context → Option Context) → Option Context
    run none = some c
    run (some handler) = handler obj c

-- An AMF3 message has one more byte in front. The fuel is one more than the bytes.
unfoldable pub handle_amf_command : List ℕ → Bool → Context → Option Context
handle_amf_command body amf3 c =
    let bytes = if amf3 then drop 1 body else body in
    decoded (decode (suc (length bytes)) false bytes)
  where
    decoded : Decoded Properties → Option Context
    decoded (parsed obj rest) = dispatch obj c
    decoded failed = some c
    decoded undefined = none
    decoded unfinished = none
