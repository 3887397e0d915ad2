-- ===== src/Clock.antt =====
-- Time, as the code reads it from `time.time()` and `datetime.now()`: a number of microseconds,
-- the resolution of `datetime`. A reading of the clock is an argument, `now`, of the operation that
-- reads it.
use pulsar_relay.Prelude.{ℕ, ◌*◌}

abbrev pub second : ℕ
second = 1000000

-- timedelta(seconds=n)
abbrev pub seconds : ℕ → ℕ
seconds n = n * second
