-- ===== src/Commands/Words.antt =====
-- The strings of the commands in src/mmedia/rtmp/rtmp_context.cpp, byte by byte.
use lssvc.Common.{List, [], ℕ, ◌∷◌}

-- app
abbrev pub app_word : List ℕ
app_word = 97 ∷ 112 ∷ 112 ∷ []

-- tcUrl
abbrev pub tc_url_word : List ℕ
tc_url_word = 116 ∷ 99 ∷ 85 ∷ 114 ∷ 108 ∷ []

-- fpad
abbrev pub fpad_word : List ℕ
fpad_word = 102 ∷ 112 ∷ 97 ∷ 100 ∷ []

-- capabilities
abbrev pub capabilities_word : List ℕ
capabilities_word = 99 ∷ 97 ∷ 112 ∷ 97 ∷ 98 ∷ 105 ∷ 108 ∷ 105 ∷ 116 ∷ 105 ∷ 101 ∷ 115 ∷ []

-- audioCodecs
abbrev pub audio_codecs_word : List ℕ
audio_codecs_word = 97 ∷ 117 ∷ 100 ∷ 105 ∷ 111 ∷ 67 ∷ 111 ∷ 100 ∷ 101 ∷ 99 ∷ 115 ∷ []

-- videoCodecs
abbrev pub video_codecs_word : List ℕ
video_codecs_word = 118 ∷ 105 ∷ 100 ∷ 101 ∷ 111 ∷ 67 ∷ 111 ∷ 100 ∷ 101 ∷ 99 ∷ 115 ∷ []

-- videoFunction
abbrev pub video_function_word : List ℕ
video_function_word = 118 ∷ 105 ∷ 100 ∷ 101 ∷ 111 ∷ 70 ∷ 117 ∷ 110 ∷ 99 ∷ 116 ∷ 105 ∷ 111 ∷ 110 ∷ []

-- connect
abbrev pub connect_word : List ℕ
connect_word = 99 ∷ 111 ∷ 110 ∷ 110 ∷ 101 ∷ 99 ∷ 116 ∷ []

-- createStream
abbrev pub create_stream_word : List ℕ
create_stream_word = 99 ∷ 114 ∷ 101 ∷ 97 ∷ 116 ∷ 101 ∷ 83 ∷ 116 ∷ 114 ∷ 101 ∷ 97 ∷ 109 ∷ []

-- onStatus
abbrev pub on_status_word : List ℕ
on_status_word = 111 ∷ 110 ∷ 83 ∷ 116 ∷ 97 ∷ 116 ∷ 117 ∷ 115 ∷ []

-- level
abbrev pub level_word : List ℕ
level_word = 108 ∷ 101 ∷ 118 ∷ 101 ∷ 108 ∷ []

-- code
abbrev pub code_word : List ℕ
code_word = 99 ∷ 111 ∷ 100 ∷ 101 ∷ []

-- description
abbrev pub description_word : List ℕ
description_word = 100 ∷ 101 ∷ 115 ∷ 99 ∷ 114 ∷ 105 ∷ 112 ∷ 116 ∷ 105 ∷ 111 ∷ 110 ∷ []

-- play
abbrev pub play_word : List ℕ
play_word = 112 ∷ 108 ∷ 97 ∷ 121 ∷ []

-- publish
abbrev pub publish_word : List ℕ
publish_word = 112 ∷ 117 ∷ 98 ∷ 108 ∷ 105 ∷ 115 ∷ 104 ∷ []

-- live
abbrev pub live_word : List ℕ
live_word = 108 ∷ 105 ∷ 118 ∷ 101 ∷ []

-- _result
abbrev pub result_word : List ℕ
result_word = 95 ∷ 114 ∷ 101 ∷ 115 ∷ 117 ∷ 108 ∷ 116 ∷ []

-- _error
abbrev pub error_word : List ℕ
error_word = 95 ∷ 101 ∷ 114 ∷ 114 ∷ 111 ∷ 114 ∷ []

-- fmsVer
abbrev pub fms_ver_word : List ℕ
fms_ver_word = 102 ∷ 109 ∷ 115 ∷ 86 ∷ 101 ∷ 114 ∷ []

-- FMS/3,0,1,123
abbrev pub fms_version_word : List ℕ
fms_version_word = 70 ∷ 77 ∷ 83 ∷ 47 ∷ 51 ∷ 44 ∷ 48 ∷ 44 ∷ 49 ∷ 44 ∷ 49 ∷ 50 ∷ 51 ∷ []

-- status
abbrev pub status_word : List ℕ
status_word = 115 ∷ 116 ∷ 97 ∷ 116 ∷ 117 ∷ 115 ∷ []

-- NetConnection.Connect.Success
abbrev pub connect_success_word : List ℕ
connect_success_word =
    78 ∷ 101 ∷ 116 ∷ 67 ∷ 111 ∷ 110 ∷ 110 ∷ 101 ∷ 99 ∷ 116 ∷ 105 ∷ 111 ∷ 110 ∷ 46 ∷ 67 ∷ 111 ∷ 110
    ∷ 110 ∷ 101 ∷ 99 ∷ 116 ∷ 46 ∷ 83 ∷ 117 ∷ 99 ∷ 99 ∷ 101 ∷ 115 ∷ 115 ∷ []

-- Connection succeeded
abbrev pub connect_succeeded_word : List ℕ
connect_succeeded_word =
    67 ∷ 111 ∷ 110 ∷ 110 ∷ 101 ∷ 99 ∷ 116 ∷ 105 ∷ 111 ∷ 110 ∷ 32 ∷ 115 ∷ 117 ∷ 99 ∷ 99 ∷ 101 ∷ 101
    ∷ 100 ∷ 101 ∷ 100 ∷ []

-- objectEncoding
abbrev pub object_encoding_word : List ℕ
object_encoding_word =
    111 ∷ 98 ∷ 106 ∷ 101 ∷ 99 ∷ 116 ∷ 69 ∷ 110 ∷ 99 ∷ 111 ∷ 100 ∷ 105 ∷ 110 ∷ 103 ∷ []

-- NetStream.Play.Start
abbrev pub play_start_word : List ℕ
play_start_word =
    78 ∷ 101 ∷ 116 ∷ 83 ∷ 116 ∷ 114 ∷ 101 ∷ 97 ∷ 109 ∷ 46 ∷ 80 ∷ 108 ∷ 97 ∷ 121 ∷ 46 ∷ 83 ∷ 116 ∷ 97
    ∷ 114 ∷ 116 ∷ []

-- Start playing
abbrev pub start_playing_word : List ℕ
start_playing_word = 83 ∷ 116 ∷ 97 ∷ 114 ∷ 116 ∷ 32 ∷ 112 ∷ 108 ∷ 97 ∷ 121 ∷ 105 ∷ 110 ∷ 103 ∷ []

-- NetStream.Publish.Start
abbrev pub publish_start_word : List ℕ
publish_start_word =
    78 ∷ 101 ∷ 116 ∷ 83 ∷ 116 ∷ 114 ∷ 101 ∷ 97 ∷ 109 ∷ 46 ∷ 80 ∷ 117 ∷ 98 ∷ 108 ∷ 105 ∷ 115 ∷ 104
    ∷ 46 ∷ 83 ∷ 116 ∷ 97 ∷ 114 ∷ 116 ∷ []

-- Start publish
abbrev pub start_publish_word : List ℕ
start_publish_word = 83 ∷ 116 ∷ 97 ∷ 114 ∷ 116 ∷ 32 ∷ 112 ∷ 117 ∷ 98 ∷ 108 ∷ 105 ∷ 115 ∷ 104 ∷ []
