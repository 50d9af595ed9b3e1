-- ===== src/Live/Session/Closing.antt =====
-- Which connections a session closes.
use lssvc.Common.{List, [], if◌then◌else◌, none, ℕ, ◌+◌, ◌==◌, ◌∷◌, ◌≡◌, ◌≤◌}
use lssvc.Live.Session.{Session, is_destroyed, player_rtmp}

unfoldable pub count : ℕ → List ℕ → ℕ
count u [] = 0
count u (v ∷ vs) = (if v == u then 1 else 0) + count u vs

-- A connection is closed once at most, and only that of a destroyed user.
abbrev pub IsOnce : Session → Type 0
IsOnce s = (u : ℕ) → count u s.closed ≤ (if is_destroyed s u then 1 else 0)

-- The RTMP players of a session without a publisher.
abbrev ArePlayers : Session → Type 0
ArePlayers s = (s.publisher ≡ none) × ((u : ℕ) → (s.users u).user_type ≡ player_rtmp)
