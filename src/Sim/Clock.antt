-- ===== src/Sim/Clock.antt =====
-- cassette/sim/clock.py: virtual time. `none` is the `ValueError` of a clock moved wrongly.
use cassette.Base.{Option, none, some, if◌then◌else◌, ℤ, pos, ltb_ℤ}

pub record VirtualClock : Type 0 where
  pub now : ℤ

unfoldable pub start_at : ℤ → Option VirtualClock
start_at start_ms = if ltb_ℤ start_ms (pos 0) then none else some (record { now = start_ms })

unfoldable pub advance_to : ℤ → VirtualClock → Option VirtualClock
advance_to timestamp_ms c =
    if ltb_ℤ timestamp_ms c.now then none else some (record { now = timestamp_ms })
