-- ===== src/Klib/TimeSpec.antt =====
-- klib/timespec.hpp: a time as seconds and nanoseconds. Both are i64 in the code; the times here are not
-- negative and stay below the limit.
pub mod Exact
use saba_os.Base.{ℕ, ◌+◌, ◌-◌, ◌*◌, ◌/◌, ◌%◌, Bool, ◌&&◌, if◌then◌else◌, ltb, ◌==◌}

pub record TimeSpec : Type 0 where
  pub seconds : ℕ
  pub nanoseconds : ℕ

pub from_seconds : ℕ → TimeSpec
from_seconds s = record { seconds = s; nanoseconds = 0 }

pub from_microseconds : ℕ → TimeSpec
from_microseconds us = record { seconds = us / 1000000; nanoseconds = (us % 1000000) * 1000 }

pub is_zero : TimeSpec → Bool
is_zero t = (t.seconds == 0) && (t.nanoseconds == 0)

-- `operator +=`
pub add : TimeSpec → TimeSpec → TimeSpec
add t rhs =
    if ltb 999999999 (t.nanoseconds + rhs.nanoseconds)
    then record {
      seconds = t.seconds + 1 + rhs.seconds;
      nanoseconds = t.nanoseconds + rhs.nanoseconds - 1000000000;
    }
    else record { seconds = t.seconds + rhs.seconds; nanoseconds = t.nanoseconds + rhs.nanoseconds }

abbrev pub zero_time : TimeSpec
zero_time = record { seconds = 0; nanoseconds = 0 }

-- The second half of `operator -=`
pub sub_seconds : TimeSpec → ℕ → TimeSpec
sub_seconds t seconds =
    if ltb t.seconds seconds then zero_time else record t { seconds = t.seconds - seconds }

-- `operator -=`
pub sub : TimeSpec → TimeSpec → TimeSpec
sub t rhs =
    let borrowed : TimeSpec = record {
      seconds = t.seconds - 1;
      nanoseconds = 999999999 - (rhs.nanoseconds - t.nanoseconds);
    } in
    let plain = record t { nanoseconds = t.nanoseconds - rhs.nanoseconds } in
    if ltb t.nanoseconds rhs.nanoseconds
    then (if t.seconds == 0 then zero_time else sub_seconds borrowed rhs.seconds)
    else sub_seconds plain rhs.seconds
