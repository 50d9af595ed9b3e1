-- ===== src/Live/Service/Tests.antt =====
-- A service with one application.
use lssvc.Common.{List, [], refl, some, true, ℕ, ◌++◌, ◌∷◌, ◌≡◌}
use lssvc.Bytes.{same_bytes}
use lssvc.Strings.{find, has_prefix, split, split_from, split_round}
use lssvc.Live.Service.{
  Config, Event, Service, closes, create_session, get_app_info, leaves, lookup, new_service,
  on_play, on_publish, plays, publishes, run, three_parts, ticks,
}
use lssvc.Live.Service.Named.{IsNamed, run-IsNamed}
use lssvc.Live.Service.Meeting.{play_meets_publish, replaced}

-- "h/a/s".
abbrev stream_name : List ℕ
stream_name = 104 ∷ 47 ∷ 97 ∷ 47 ∷ 115 ∷ []

abbrev one_app : Config
one_app = (104 ∷ [], (97 ∷ [], 5000) ∷ []) ∷ []

play_meets_publish_example :
    (i : ℕ) × (u : ℕ) × (u' : ℕ) × (s' : Service) × (s'' : Service) × (others : List ℕ)
    × (on_publish one_app 10 1 stream_name new_service ≡ (s', true))
    × (on_play one_app 20 2 stream_name s' ≡ (s'', true))
    × (s''.contexts 1 ≡ some (u, i))
    × (s''.contexts 2 ≡ some (u', i))
    × ((s''.rooms i).session.publisher ≡ some u)
    × ((s''.rooms i).session.players ≡ u' ∷ others)
    × (s''.force_closed ≡ [])
    × (let before = ((create_session one_app 10 stream_name new_service).0.rooms i).session in
        (s''.rooms i).session.closed ≡ before.closed ++ replaced before u before.publisher)
unfolding three_parts split split_from split_round find has_prefix get_app_info lookup same_bytes
play_meets_publish_example =
    play_meets_publish one_app 10 20 1 2 stream_name (104 ∷ []) (97 ∷ []) 5000 new_service tt refl
      refl refl

abbrev busy_day : List (ℕ × Event)
busy_day =
    (10, publishes 1 stream_name)
    ∷ (20, plays 2 stream_name)
    ∷ (30, leaves 1)
    ∷ (40, ticks)
    ∷ (50, closes stream_name)
    ∷ (60, plays 2 stream_name)
    ∷ []

run-IsNamed_example : IsNamed (run one_app new_service busy_day)
run-IsNamed_example = run-IsNamed one_app new_service busy_day tt
