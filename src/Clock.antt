-- ===== src/Clock.antt =====
-- Times and durations: microseconds since an epoch, as `datetime` and `timedelta` hold them
-- (src/openstudio_operator uses tz-aware UTC values only). Durations come from policy fields that
-- deploy/crd.yaml keeps at 0 or above, so `now - t > d` is `t + d < now` and no difference is
-- taken below zero.
use openstudio_server_operat.Base.{ℕ, ◌+◌, ◌*◌, Bool, ltb}

abbrev pub Time : Type 0
Time = ℕ

unfoldable pub seconds : ℕ → Time
seconds n = n * 1000000

unfoldable pub minutes : ℕ → Time
minutes n = n * 60000000

unfoldable pub hours : ℕ → Time
hours n = n * 3600000000

unfoldable pub days : ℕ → Time
days n = n * 86400000000

-- `now - since > span`
abbrev pub elapsed : Time → Time → Time → Bool
elapsed now since span = ltb (since + span) now
