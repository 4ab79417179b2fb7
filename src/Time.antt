-- ===== src/Time.antt =====
-- The part of Go's `time` that the program computes with. A `time.Time` is the number of
-- nanoseconds since 1 January of the year 1, UTC, which is `time.Time{}`; the time zone of a value
-- changes how it prints and not the instant, and is left out. A `time.Duration` is an int64.
use agscheduler.Base.{
  ℕ, ◌+◌, ◌-◌, ◌*◌, ◌/◌, ◌^◌, ◌≤◌, ◌<◌, ◌≡◌, min, Bool, arith, ltb, leb, if◌then◌else◌,
}
use agscheduler.Base.Int.{ℤ, pos, negsuc, IsAtMost}

abbrev pub Time : Type 0
Time = ℕ

abbrev pub Duration : Type 0
Duration = ℤ

-- `time.Time{}`
abbrev pub zero_time : Time
zero_time = 0

abbrev pub millisecond : ℕ
millisecond = 1000000

abbrev pub second : ℕ
second = 1000 * millisecond

abbrev pub minute : ℕ
minute = 60 * second

abbrev pub max_duration : ℕ
max_duration = 2 ^ 63 - 1

-- `t.Before(u)`
abbrev pub before : Time → Time → Bool
before t u = ltb t u

-- `t.Sub(u)` stops at the ends of int64.
unfoldable pub sub_time : Time → Time → Duration
sub_time t u = if leb u t then pos (min (t - u) max_duration) else negsuc (min (u - t) (2 ^ 63) - 1)

-- `t.Add(d)`
unfoldable pub add_time : Time → Duration → Time
add_time t (pos n) = t + n
add_time t (negsuc n) = t - (n + 1)

-- `time.Unix(t.Unix(), 0).UTC()`: the fraction of a second is dropped.
unfoldable pub whole_seconds : Time → Time
whole_seconds t = t / second * second

pub whole_seconds_le : (t : Time) → whole_seconds t ≤ t
unfolding whole_seconds
whole_seconds_le t = omega arith

pub whole_seconds_gt : (t : Time) → t < whole_seconds t + second
unfolding whole_seconds
whole_seconds_gt t = omega arith

pub whole_seconds_idem : (t : Time) → whole_seconds (whole_seconds t) ≡ whole_seconds t
unfolding whole_seconds
whole_seconds_idem t = omega arith

-- The seconds from the year 1 to 1970.
abbrev pub unix_epoch : ℕ
unix_epoch = 62135596800

-- `t.Unix()`
unfoldable pub unix : Time → ℤ
unix t =
    let s = t / second in
    if leb unix_epoch s then pos (s - unix_epoch) else negsuc (unix_epoch - s - 1)

-- `time.Unix(n, 0)`
unfoldable pub from_unix : ℤ → Time
from_unix (pos n) = (unix_epoch + n) * second
from_unix (negsuc n) = (unix_epoch - (n + 1)) * second

pub from_unix-unix : (t : Time) → from_unix (unix t) ≡ whole_seconds t
unfolding unix from_unix whole_seconds
from_unix-unix t = ground arith

pub from_unix_mono : (m n : ℤ) → IsAtMost m n → from_unix m ≤ from_unix n
unfolding from_unix
from_unix_mono (pos m) (pos n) h = omega arith
from_unix_mono (pos m) (negsuc n) h = absurd h
from_unix_mono (negsuc m) (pos n) h = omega arith
from_unix_mono (negsuc m) (negsuc n) h = omega arith
