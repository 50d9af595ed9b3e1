-- ===== src/Commands/Names.antt =====
-- The session that a name and an address stand for.
use lssvc.Common.{
  Bool, List, [], false, length, lt→ltb, refl, some, take-append_length, true, ℕ, ◌++◌, ◌<◌, ◌∙◌,
  ◌∷◌, ◌≡◌,
}
use lssvc.Strings.Pieces.{Avoids, drop_piece, find-last, find-piece, split-text, text}
use lssvc.Commands.{
  Context, address, at_place, before, behind, colon, parse_name_and_tc_url, play, publish,
  question_mark, slash,
}
use lssvc.Strings.{split}

before-piece : (b : ℕ) (p rest : List ℕ) → Avoids b p → before b (p ++ (b ∷ rest)) ≡ p
unfolding before at_place
before-piece b p rest avoids =
    simp (find-piece b p rest avoids, take-append_length p (b ∷ rest)) refl

before-whole : (b : ℕ) (p : List ℕ) → Avoids b p → before b p ≡ p
unfolding before at_place
before-whole b p avoids = simp (find-last b p avoids) refl

behind-piece :
    (b : ℕ) (p rest other : List ℕ) → Avoids b p → behind b (p ++ (b ∷ rest)) other ≡ rest
unfolding behind at_place
behind-piece b p rest other avoids = simp (find-piece b p rest avoids, drop_piece b p rest) refl

behind-nothing : (b : ℕ) (p other : List ℕ) → Avoids b p → behind b p other ≡ other
unfolding behind at_place
behind-nothing b p other avoids = simp (find-last b p avoids) refl

-- The pieces of `rtmp://domain/app`, and of `rtmp://domain/app/stream`.
abbrev rtmp_colon : List ℕ
rtmp_colon = 114 ∷ 116 ∷ 109 ∷ 112 ∷ 58 ∷ []

abbrev pub app_url : List ℕ → List ℕ → List ℕ
app_url domain app = text slash (rtmp_colon ∷ [] ∷ domain ∷ []) app

abbrev pub stream_url : List ℕ → List ℕ → List ℕ → List ℕ
stream_url domain app stream = text slash (rtmp_colon ∷ [] ∷ domain ∷ app ∷ []) stream

rtmp_colon-Avoids : Avoids slash rtmp_colon
rtmp_colon-Avoids = (refl, (refl, (refl, (refl, (refl, tt)))))

Avoids-domain :
    (host port : List ℕ)
    → Avoids slash host
    → Avoids slash port
    → Avoids slash (host ++ (colon ∷ port))
Avoids-domain [] port h p = (refl, p)
Avoids-domain (x ∷ host) port (other, h) p = (other, Avoids-domain host port h p)

split-app_url :
    (domain app : List ℕ)
    → Avoids slash domain
    → Avoids slash app
    → 0 < length app
    → split (app_url domain app) (slash ∷ []) false ≡ some (rtmp_colon ∷ [] ∷ domain ∷ app ∷ [])
split-app_url domain app d a some_app =
    split-text slash (rtmp_colon ∷ [] ∷ domain ∷ []) app (rtmp_colon-Avoids, (tt, (d, tt))) a
    ∙ rw (lt→ltb 0 (length app) some_app) refl

split-stream_url :
    (domain app stream : List ℕ)
    → Avoids slash domain
    → Avoids slash app
    → Avoids slash stream
    → 0 < length stream
    → split (stream_url domain app stream) (slash ∷ []) false
      ≡ some (rtmp_colon ∷ [] ∷ domain ∷ app ∷ stream ∷ [])
split-stream_url domain app stream d a s some_stream =
    split-text slash (rtmp_colon ∷ [] ∷ domain ∷ app ∷ []) stream
      (rtmp_colon-Avoids, (tt, (d, (a, tt)))) s
    ∙ rw (lt→ltb 0 (length stream) some_stream) refl

-- At a server: from the address `rtmp://host:port/app` and the name `stream?param`, whatever the
-- application was before, the session is `host/app/stream` and the parameter is `param`.
pub parse_name_and_tc_url-session :
    (c : Context) (host port app stream param : List ℕ)
    → Avoids slash host
    → Avoids colon host
    → Avoids slash port
    → Avoids slash app
    → 0 < length app
    → Avoids question_mark stream
    → c.tc_url ≡ app_url (host ++ (colon ∷ port)) app
    → c.name ≡ stream ++ (question_mark ∷ param)
    → parse_name_and_tc_url c
      ≡ some (record c {
        app = app;
        param = param;
        name = stream;
        session_name = host ++ (slash ∷ (app ++ (slash ∷ stream)));
      })
unfolding parse_name_and_tc_url address
parse_name_and_tc_url-session c host port app stream param slash_host colon_host slash_port
      slash_app some_app plain url named =
    simp
      (
        url,
        named,
        split-app_url (host ++ (colon ∷ port)) app (Avoids-domain host port slash_host slash_port)
            slash_app some_app,
        before-piece question_mark stream param plain,
        behind-piece question_mark stream param [] plain,
        before-piece colon host port colon_host,
      )
      refl

-- At a client that is started with `rtmp://host/app/stream`, to play or to publish: the stream is
-- dropped from the address, and the session and the name that goes out with the command end with
-- what the name was before, for a new client nothing.
pub start_drops_stream :
    (c : Context) (host app stream : List ℕ)
    → Avoids slash host
    → Avoids colon host
    → Avoids slash app
    → Avoids slash stream
    → 0 < length stream
    → Avoids question_mark c.name
    → let started = λ (player : Bool). record c {
      is_client = true;
      is_player = player;
      tc_url = stream_url host app stream;
      app = app;
      param = [];
      session_name = host ++ (slash ∷ (app ++ (slash ∷ c.name)));
    } in
      (play (stream_url host app stream) c ≡ some (started true))
      × (publish (stream_url host app stream) c ≡ some (started false))
unfolding play publish parse_name_and_tc_url address
start_drops_stream c host app stream slash_host colon_host slash_app slash_stream some_stream
      plain =
    let split_url =
      split-stream_url host app stream slash_host slash_app slash_stream some_stream in
    (
      simp
          (
            split_url,
            before-whole question_mark c.name plain,
            behind-nothing question_mark c.name [] plain,
            before-whole colon host colon_host,
          )
          refl,
      simp
          (
            split_url,
            before-whole question_mark c.name plain,
            behind-nothing question_mark c.name [] plain,
            before-whole colon host colon_host,
          )
          refl,
    )
