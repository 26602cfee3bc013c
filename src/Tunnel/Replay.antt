-- ===== src/Tunnel/Replay.antt =====
-- The sliding window of crates/libs/styrene-tunnel/src/session/mod.rs (`check_replay`, `mark_seen`): the
-- highest sequence number seen, and a 64-bit word whose digit `d` tells whether the number `d` below it
-- was seen.
pub mod Window
use styrene_rs.Base.{
  ℕ, ◌-◌, ◌*◌, ◌%◌, ◌^◌, bit_and, bit_or, Bool, ◌&&◌, not, ltb, leb, ◌==◌, if◌then◌else◌, Result,
  ok, err,
}
use styrene_rs.Tunnel.TunnelError.{TunnelError, replay_detected}

abbrev pub replay_window_size : ℕ
replay_window_size = 64

pub record ReplayWindow : Type 0 where
  pub top : ℕ
  pub word : ℕ

abbrev pub no_packets : ReplayWindow
no_packets = record { top = 0; word = 0 }

-- Before the first packet both fields are zero.
abbrev pub is_fresh : ReplayWindow → Bool
is_fresh w = w.top == 0 && w.word == 0

unfoldable pub check_replay : ReplayWindow → ℕ → Result TunnelError (Unit {0})
check_replay w sequence =
    if is_fresh w
    then ok tt
    else if ltb w.top sequence
    then ok tt
    else if leb replay_window_size (w.top - sequence)
    then err (replay_detected sequence)
    else if not (bit_and w.word (2 ^ (w.top - sequence)) == 0)
    then err (replay_detected sequence)
    else ok tt

-- A shift of a word by its width or more wraps the distance, as a release build does.
unfoldable pub mark_seen : ReplayWindow → ℕ → ReplayWindow
mark_seen w sequence =
    if is_fresh w
    then record { top = sequence; word = 1 }
    else if ltb w.top sequence
    then record {
      top = sequence;
      word =
          if leb replay_window_size (sequence - w.top)
          then 1
          else bit_or (w.word * 2 ^ (sequence - w.top) % 2 ^ 64) 1;
    }
    else record w { word = bit_or w.word (2 ^ ((w.top - sequence) % 64)) }
