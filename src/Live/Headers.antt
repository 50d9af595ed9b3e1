-- ===== src/Live/Headers.antt =====
-- src/live/codec_header.cpp: the packets that a decoder needs before any other, kept with their
-- place in the stream. `parseMeta` only writes what it finds to the log.
use lssvc.Common.{List, Option, [], if◌then◌else◌, leb, none, some, suc, zero, ℕ, ◌++◌, ◌+◌, ◌∷◌}
use lssvc.Chunk.{Packet}
use lssvc.Live.{is_audio, is_meta, is_video}

-- The latest packet of one kind, all of them in the order of the stream, and how many.
pub record Kept : Type 0 where
  pub latest : Option Packet
  pub packets : List Packet
  pub version : ℕ

abbrev pub nothing_kept : Kept
nothing_kept = record { latest = none; packets = []; version = 0 }

pub record Headers : Type 0 where
  pub meta : Kept
  pub audio : Kept
  pub video : Kept

abbrev pub init : Headers
init = record { meta = nothing_kept; audio = nothing_kept; video = nothing_kept }

-- `saveMeta`, `saveAudioHeader` and `saveVideoHeader`.
abbrev pub save : Kept → Packet → Kept
save k p = record { latest = some p; packets = k.packets ++ (p ∷ []); version = k.version + 1 }

-- The last of these packets that is not behind `index`.
unfoldable pub last_before : ℕ → List Packet → Option Packet
last_before index [] = none
last_before index (p ∷ ps) = elim (last_before index ps) [
  | some q ↦ some q
  | none ↦ if leb p.index index then some p else none
]

-- `getMeta`, `getAudioHeader` and `getVideoHeader`.
unfoldable pub get_header : Kept → ℕ → Option Packet
get_header k zero = k.latest
get_header k (suc i) = elim (last_before (suc i) k.packets) [ some p ↦ some p | none ↦ k.latest ]

unfoldable pub parse_codec_header : Headers → Packet → Headers
parse_codec_header h p =
    if is_meta p
    then record h { meta = save h.meta p }
    else if is_audio p
    then record h { audio = save h.audio p }
    else if is_video p
    then record h { video = save h.video p }
    else h
