-- ===== src/Live/Gops.antt =====
-- src/live/gop_mgr.cpp: where the groups of pictures start, in the order of the stream.
use lssvc.Common.{
  Bool, List, Option, [], false, if◌then◌else◌, leb, max, none, some, true, ℕ, ◌&&◌, ◌++◌, ◌+◌, ◌∷◌,
}
use lssvc.Common.Int.{leb_ℤ, pos, ◌-ℤ◌}
use lssvc.Chunk.{Packet}
use lssvc.Live.{is_key_frame, to_int32}

pub record Gop : Type 0 where
  pub index : ℕ
  pub timestamp : ℕ

pub record Gops : Type 0 where
  pub gops : List Gop
  pub gop_length : ℕ
  pub max_gop_length : ℕ
  pub gop_numbers : ℕ
  pub total_gop_length : ℕ
  pub latest_timestamp : ℕ

abbrev pub init : Gops
init = record {
  gops = [];
  gop_length = 0;
  max_gop_length = 0;
  gop_numbers = 0;
  total_gop_length = 0;
  latest_timestamp = 0;
}

unfoldable pub add_frame : Gops → Packet → Gops
add_frame g p =
    if is_key_frame p
    then record g {
      gops = g.gops ++ (record { index = p.index; timestamp = p.timestamp } ∷ []);
      gop_length = 1;
      max_gop_length = max g.max_gop_length g.gop_length;
      gop_numbers = g.gop_numbers + 1;
      total_gop_length = g.total_gop_length + g.gop_length;
      latest_timestamp = p.timestamp;
    }
    else record g { gop_length = g.gop_length + 1; latest_timestamp = p.timestamp }

-- `getGopByLatency` walks from the last one backwards while the latency is small enough, and
-- keeps the last that was; `none` stands for -1. Here the list is walked forwards, and the flag
-- says that everything behind was small enough.
abbrev pub is_within : ℕ → ℕ → Gop → Bool
is_within latest latency g = leb_ℤ (to_int32 (pos latest -ℤ pos g.timestamp)) (pos latency)

unfoldable pub walk_back : ℕ → ℕ → List Gop → Bool × Option Gop
walk_back latest latency [] = (true, none)
walk_back latest latency (g ∷ gs) =
    let later = walk_back latest latency gs in
    if later.0 && is_within latest latency g then (true, some g) else (false, later.1)

unfoldable pub get_gop_by_latency : Gops → ℕ → Option Gop
get_gop_by_latency g latency = (walk_back g.latest_timestamp latency g.gops).1

unfoldable pub expire : ℕ → List Gop → List Gop
expire min_index [] = []
expire min_index (g ∷ gs) =
    let rest = expire min_index gs in if leb g.index min_index then rest else g ∷ rest

abbrev pub clear_expired_gop : Gops → ℕ → Gops
clear_expired_gop g min_index = record g { gops = expire min_index g.gops }
