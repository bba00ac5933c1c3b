-- ===== src/Clock.antt =====
-- Go's `time.Time` as the nanoseconds since its zero value (the start of year 1), and
-- `time.Duration` as nanoseconds.
use game_production.Common.{ℕ, ◌+◌, ◌-◌, ◌/◌, ◌%◌, two64}

abbrev pub Time : Type 0
Time = ℕ

abbrev pub zero_time : Time
zero_time = 0

abbrev pub second : ℕ
second = 1000000000

-- t.Unix(), an int64: seconds since 1970, which is 62135596800 seconds after the zero time.
unfoldable pub unix : Time → ℕ
unix t = (t / second + two64 - 62135596800) % two64

-- int64(d.Seconds())
abbrev pub whole_seconds : ℕ → ℕ
whole_seconds d = d / second

-- time.Until(t).Seconds(), as an int64 that is 0 if the time is past.
abbrev pub seconds_until : Time → Time → ℕ
seconds_until now t = whole_seconds (t - now)
