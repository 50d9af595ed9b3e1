-- ===== src/Commands.antt =====
-- The commands of RtmpContext in src/mmedia/rtmp/rtmp_context.cpp, behind the chunk stream: what is
-- sent, what is received, and the names in it. `none` is what ends the program: an access outside the
-- memory of a packet, or one through a null pointer.
pub mod Words
pub mod Receive
pub mod Connect
pub mod Faults
pub mod Names
pub mod Tests
use lssvc.Common.{
  Bool, List, Option, [], drop, false, if◌then◌else◌, leb, length, none, some, take, true, ℕ, ◌++◌,
  ◌+◌, ◌>>=◌, ◌∷◌,
}
use lssvc.Double.{double, negative}
use lssvc.Strings.{find, split}
use lssvc.Amf.Encode.{
  encode_named_boolean, encode_named_number, encode_named_string, encode_number, encode_string,
}
use lssvc.Chunk.{Packet, type_unknown}
use lssvc.Chunk.Send.{Outbound, push_out_queue, send_set_chunk_size, init as outbound_init}
use lssvc.Commands.Words.{
  app_word, audio_codecs_word, capabilities_word, code_word, connect_word, create_stream_word,
  description_word, fpad_word, level_word, live_word, on_status_word, play_word, publish_word,
  tc_url_word, video_codecs_word, video_function_word,
}

-- The calls of the handler, and `forceClose` of the connection.
pub data Call : Type 0 where
  on_play : List ℕ → List ℕ → Call
  on_publish : List ℕ → List ℕ → Call
  on_publish_prepare : Call
  force_close : Call

pub record Context : Type 0 where
  pub outbound : Outbound
  pub ack_size : ℕ
  pub app : List ℕ
  pub tc_url : List ℕ
  pub name : List ℕ
  pub session_name : List ℕ
  pub param : List ℕ
  pub is_player : Bool
  pub is_client : Bool
  pub has_handler : Bool
  pub calls : List Call

abbrev pub new_context : Bool → Bool → Context
new_context client handler = record {
  outbound = outbound_init;
  ack_size = 2048000;
  app = [];
  tc_url = [];
  name = [];
  session_name = [];
  param = [];
  is_player = false;
  is_client = client;
  has_handler = handler;
  calls = [];
}

-- A message of the commands, in a packet of 1024 bytes.
abbrev pub amf_packet : ℕ → List ℕ → Packet
amf_packet sid bytes = record {
  header = record {
    cs_id = 3;
    timestamp = 0;
    msg_len = length bytes;
    msg_type = 20;
    msg_sid = sid;
  };
  capacity = 1024;
  body = bytes;
  packet_type = type_unknown;
  timestamp = 0;
  index = 0;
}

unfoldable pub send_amf : ℕ → List ℕ → Context → Option Context
send_amf sid bytes c =
    let sent =
      push_out_queue c.outbound (amf_packet sid bytes) >>= λ o. some (record c { outbound = o }) in
    if leb (length bytes) 1024 then sent else none

abbrev pub end_mark : List ℕ
end_mark = 0 ∷ 0 ∷ 9 ∷ []

abbrev pub type_object : ℕ
type_object = 3

abbrev pub type_null : ℕ
type_null = 5

unfoldable pub connect_body : List ℕ → List ℕ → List ℕ
connect_body app tc_url =
    encode_string connect_word
    ++ (encode_number (double 1)
        ++ (type_object
            ∷ (encode_named_string app_word app
                ++ (encode_named_string tc_url_word tc_url
                    ++ (encode_named_boolean fpad_word false
                        ++ (encode_named_number capabilities_word (double 31)
                            ++ (encode_named_number audio_codecs_word (double 1639)
                                ++ (encode_named_number video_codecs_word (double 252)
                                    ++ (encode_named_number video_function_word (double 1)
                                        ++ end_mark)))))))))

unfoldable pub send_connect : Context → Option Context
send_connect c = send_set_chunk_size c.outbound >>= λ o.
    send_amf 0 (connect_body c.app c.tc_url) (record c { outbound = o })

unfoldable pub create_stream_body : List ℕ
create_stream_body =
    encode_string create_stream_word ++ (encode_number (double 4) ++ (type_null ∷ []))

unfoldable pub send_create_stream : Context → Option Context
send_create_stream c = send_amf 0 create_stream_body c

unfoldable pub status_body : List ℕ → List ℕ → List ℕ → List ℕ
status_body level code desc =
    encode_string on_status_word
    ++ (encode_number (double 0)
        ++ (type_null
            ∷ type_object
            ∷ (encode_named_string level_word level
                ++ (encode_named_string code_word code
                    ++ (encode_named_string description_word desc ++ end_mark)))))

unfoldable pub send_status : List ℕ → List ℕ → List ℕ → Context → Option Context
send_status level code desc c = send_amf 1 (status_body level code desc) c

unfoldable pub send_play : Context → Option Context
send_play c =
    send_amf 1
      (encode_string play_word
        ++ (encode_number (double 0)
            ++ (type_null ∷ (encode_string c.name ++ encode_number (negative (double 1000))))))
      c

unfoldable pub send_publish : Context → Option Context
send_publish c =
    send_amf 1
      (encode_string publish_word
        ++ (encode_number (double 5)
            ++ (type_null ∷ (encode_string c.name ++ encode_string live_word))))
      c

abbrev pub slash : ℕ
slash = 47

abbrev pub question_mark : ℕ
question_mark = 63

abbrev pub colon : ℕ
colon = 58

-- `substr` behind and before the first place of a byte, if it is there.
unfoldable pub at_place : List ℕ → Option ℕ → (ℕ → List ℕ) → List ℕ
at_place other none cut = other
at_place other (some pos) cut = cut pos

unfoldable pub behind : ℕ → List ℕ → List ℕ → List ℕ
behind c s other = at_place other (find (c ∷ []) s) (λ pos. drop (pos + 1) s)

unfoldable pub before : ℕ → List ℕ → List ℕ
before c s = at_place s (find (c ∷ []) s) (λ pos. take pos s)

-- The domain and the application, from the pieces of the address, with the application so far.
unfoldable pub address : List (List ℕ) → List ℕ → List ℕ × List ℕ
address (a ∷ b ∷ domain ∷ app ∷ []) so_far = (domain, app)
address (a ∷ b ∷ domain ∷ app ∷ stream ∷ []) so_far = (domain, app)
address _ so_far = ([], so_far)

unfoldable pub parse_name_and_tc_url : Context → Option Context
parse_name_and_tc_url c = split c.tc_url (slash ∷ []) false >>= λ list.
    let (domain, app) = address list (behind slash c.app c.app) in
    let name = before question_mark c.name in
    some (record c {
      app = app;
      param = behind question_mark c.name [];
      name = name;
      session_name = before colon domain ++ (slash ∷ (app ++ (slash ∷ name)));
    })

-- `play` and `publish` of a client.
unfoldable pub play : List ℕ → Context → Option Context
play url c = parse_name_and_tc_url (record c { is_client = true; is_player = true; tc_url = url })

unfoldable pub publish : List ℕ → Context → Option Context
publish url c =
    parse_name_and_tc_url (record c { is_client = true; is_player = false; tc_url = url })
