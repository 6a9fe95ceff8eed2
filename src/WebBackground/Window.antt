-- ===== src/WebBackground/Window.antt =====
-- `StallWindowTracker.observe` (src/openstudio_operator/handlers/web_background_monitor.py).
use openstudio_server_operat.Base.{◌+◌, Bool, true, false, Option, none, some, leb}
use openstudio_server_operat.Clock.{Time}
use openstudio_server_operat.World.{StallWindowTracker}

-- `x = now if x is None`
abbrev pub or_now : Time → Option Time → Time
or_now now none = now
or_now now (some t) = t

abbrev pub no_window : StallWindowTracker
no_window = record { first_observed = none; first_clean = none }

-- One tick's verdict: the tracker after it, and whether the window is sustained.
unfoldable pub track : StallWindowTracker → Bool → Time → Time → StallWindowTracker × Bool
track t false now window =
    (record { first_observed = none; first_clean = some (or_now now t.first_clean) }, false)
track t true now window = (
  record { first_observed = some (or_now now t.first_observed); first_clean = none },
  leb (or_now now t.first_observed + window) now,
)
