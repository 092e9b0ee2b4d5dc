-- ===== src/Datetime.antt =====
-- Python's `datetime`. An aware value counts microseconds of UTC from `datetime.min`; a naive one has no
-- time zone, and the program refuses it. A `timedelta` is compared by the instants that it lies between.
pub mod Iso
use the_council.Prelude.{◌≡◌, ℕ, ◌+◌, ◌-◌, ◌*◌, ◌≤◌, Bool, leb, ltb, arith}
use the_council.Result.{Result, ok, err, ◌>>◌, guard, naive_datetime, date_overflow}

pub data Datetime : Type 0 where
  naive : ℕ → Datetime
  aware : ℕ → Datetime

-- `_utc`, and the same test and `astimezone(UTC)` where a method takes a time.
abbrev pub utc : Datetime → Result ℕ
utc (naive t) = err naive_datetime
utc (aware t) = ok t

-- The number that a value of either kind holds.
abbrev pub instant : Datetime → ℕ
instant (naive t) = t
instant (aware t) = t

abbrev pub microseconds : ℕ → ℕ
microseconds seconds = seconds * 1_000_000

-- `datetime.max`, the last microsecond of the year 9999.
abbrev pub last_time : ℕ
last_time = 315_537_897_599_999_999

-- `time + span`, where Python raises `OverflowError` after the year 9999.
unfoldable pub add_time : ℕ → ℕ → Result ℕ
add_time time span = guard (leb (time + span) last_time) date_overflow >> ok (time + span)

-- `timedelta(seconds=seconds)`, which has fewer than 10 ** 9 days.
unfoldable pub span_of : ℕ → Result ℕ
span_of seconds = guard (ltb seconds 86_400_000_000_000) date_overflow >> ok (microseconds seconds)

-- `count * span` of a timedelta.
unfoldable pub repeat_span : ℕ → ℕ → Result ℕ
repeat_span count span =
    guard (ltb (count * span) 86_400_000_000_000_000_000) date_overflow >> ok (count * span)

pub add_time-eq-ok : (time span t : ℕ) → add_time time span ≡ ok t → t ≡ time + span
unfolding add_time
add_time-eq-ok time span t h = ground arith

pub add_time-Fits :
    (time span : ℕ) → time + span ≤ last_time → add_time time span ≡ ok (time + span)
unfolding add_time
add_time-Fits time span fits = ground arith

-- What a time can be moved by is a span.
pub span_of-Fits :
    (time seconds : ℕ)
    → time + microseconds seconds ≤ last_time
    → span_of seconds ≡ ok (microseconds seconds)
unfolding span_of
span_of-Fits time seconds fits = ground arith

-- `now - then < timedelta(0)`.
abbrev pub is_future : ℕ → ℕ → Bool
is_future now then_ = ltb now then_

-- `now - then > timedelta(seconds=limit)`, read where `is_future` has failed.
abbrev pub is_older : ℕ → ℕ → ℕ → Bool
is_older now then_ limit = ltb (microseconds limit) (now - then_)
