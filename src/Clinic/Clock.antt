-- ===== src/Clinic/Clock.antt =====
-- Assignment6/session.c: printTime, the time of day in twelve hours.
use operating_systems_lab.Base.{
  ℕ, ◌+◌, ◌-◌, ◌*◌, ◌/◌, ◌%◌, ◌≤◌, ◌<◌, ◌≡◌, Bool, ◌&&◌, ltb, leb, if◌then◌else◌, ℤ, pos, ◌+ℤ◌,
  Option, none, some, arith,
}

-- What printTime prints.
pub record Clock : Type 0 where
  pub hour : ℕ
  pub minute : ℕ
  pub pm : Bool

-- printTime after `time += 540`: the minutes since midnight.
unfoldable pub clock : ℕ → Clock
clock time =
    let hour = time / 60 in
    record { hour = if ltb 12 hour then hour - 12 else hour; minute = time % 60; pm = leb 12 hour }

-- The minutes since nine o'clock. A time on the day before is left out, as `none`: there the C program
-- prints a negative minute.
unfoldable pub print_time : ℤ → Option Clock
print_time time = by_sign (time +ℤ pos 540)
  where
    by_sign : ℤ → Option Clock
    by_sign (pos minutes) = some (clock minutes)
    by_sign _ = none

-- The minutes since midnight that a reader takes from the clock.
abbrev pub read_time : Clock → ℕ
read_time c = 60 * (if c.pm && ltb c.hour 12 then c.hour + 12 else c.hour) + c.minute

-- For a time before midnight, the hour is at most 12, the minute below 60, and the time can be read back.
pub read_time-clock :
    (time : ℕ)
    → time < 1440
    → (read_time (clock time) ≡ time) × ((clock time).hour ≤ 12) × ((clock time).minute < 60)
unfolding clock
read_time-clock time before_midnight = (ground arith, ground arith, ground arith)
