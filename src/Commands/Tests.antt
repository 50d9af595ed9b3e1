-- ===== src/Commands/Tests.antt =====
-- The commands on concrete messages.
use lssvc.Common.{List, [], arith, false, none, refl, some, true, ℕ, ◌++◌, ◌∷◌, ◌≡◌}
use lssvc.Commands.{
  Context, colon, connect_body, new_context, parse_name_and_tc_url, question_mark, slash,
}
use lssvc.Commands.Receive.{handle_amf_command, reply_connect}
use lssvc.Commands.Connect.{handle_amf_command-connect_body}
use lssvc.Commands.Faults.{long_name_faults}
use lssvc.Commands.Names.{app_url, parse_name_and_tc_url-session}

abbrev server : Context
server = new_context false true

abbrev client : Context
client = new_context true true

-- "host", "live", "cam" and "1935".
abbrev host_name : List ℕ
host_name = 104 ∷ 111 ∷ 115 ∷ 116 ∷ []

abbrev live_app : List ℕ
live_app = 108 ∷ 105 ∷ 118 ∷ 101 ∷ []

abbrev cam : List ℕ
cam = 99 ∷ 97 ∷ 109 ∷ []

abbrev port_number : List ℕ
port_number = 49 ∷ 57 ∷ 51 ∷ 53 ∷ []

handle_amf_command-connect_body_example :
    handle_amf_command (connect_body live_app host_name) false server
    ≡ reply_connect false (record server { app = live_app; tc_url = host_name })
handle_amf_command-connect_body_example =
    handle_amf_command-connect_body live_app host_name server (omega arith) (omega arith)

long_name_faults_example : handle_amf_command (3 ∷ 0 ∷ 9 ∷ 97 ∷ 98 ∷ []) false server ≡ none
long_name_faults_example = long_name_faults 0 9 97 (98 ∷ []) server (omega arith)

-- A player of "cam?1935".
abbrev asked : Context
asked = record server {
  tc_url = app_url (host_name ++ (colon ∷ port_number)) live_app;
  name = cam ++ (question_mark ∷ port_number);
}

parse_name_and_tc_url-session_example :
    parse_name_and_tc_url asked
    ≡ some (record asked {
      app = live_app;
      param = port_number;
      name = cam;
      session_name = host_name ++ (slash ∷ (live_app ++ (slash ∷ cam)));
    })
parse_name_and_tc_url-session_example =
    parse_name_and_tc_url-session asked host_name port_number live_app cam port_number
      (refl, (refl, (refl, (refl, tt)))) (refl, (refl, (refl, (refl, tt))))
      (refl, (refl, (refl, (refl, tt)))) (refl, (refl, (refl, (refl, tt)))) (omega arith)
      (refl, (refl, (refl, tt))) refl refl
