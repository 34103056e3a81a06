-- ===== src/Prelude/Time.antt =====
-- What the code uses of Go's package time. A `time.Time` is an instant, counted in nanoseconds from
-- Go's zero time, 1 January of year 1 in UTC; earlier instants are not represented.
use Prim.Native.Nat.{ℕ, ◌+◌, ◌-◌, ◌*◌, ◌/◌, ◌%◌, min}
use mathlib.Core.Bool.{Bool}
use trade_journal.Prelude.Tests.{eqb, leb, if◌then◌else◌}
use trade_journal.Prelude.Int.{ℤ, pos, negsuc, pos_part, neg_part, sub_ℕ, half_word}

abbrev pub Time : Type 0
Time = ℕ

abbrev pub millisecond : ℕ
millisecond = 1_000_000

abbrev pub second : ℕ
second = 1_000_000_000

abbrev pub minute : ℕ
minute = 60 * second

abbrev pub hour : ℕ
hour = 60 * minute

-- The seconds from the zero time to the Unix epoch.
abbrev pub unix_epoch : ℕ
unix_epoch = 62_135_596_800

abbrev pub is_zero_time : Time → Bool
is_zero_time t = eqb t 0

abbrev pub max_duration : ℕ
max_duration = half_word - 1

-- t.Sub(u), in nanoseconds: the result saturates at the ends of int64.
abbrev pub sub_time : Time → Time → ℤ
sub_time t u =
    if leb u t then pos (min (t - u) max_duration) else negsuc (min (u - t - 1) max_duration)

-- t.Unix()
abbrev pub unix : Time → ℤ
unix t = sub_ℕ (t / second) unix_epoch

-- t.UnixMilli()
abbrev pub unix_milli : Time → ℤ
unix_milli t = sub_ℕ (t / millisecond) (unix_epoch * 1000)

-- time.Unix(s, 0), from year 1 on
abbrev pub from_unix : ℤ → Time
from_unix s = (pos_part s + unix_epoch - neg_part s) * second

-- time.UnixMilli(ms), from year 1 on
abbrev pub from_unix_milli : ℤ → Time
from_unix_milli ms = (pos_part ms + unix_epoch * 1000 - neg_part ms) * millisecond

-- t.Truncate(d), for a positive d
abbrev pub truncate : Time → ℕ → Time
truncate t d = t - t % d
