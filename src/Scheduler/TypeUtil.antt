-- ===== src/Scheduler/TypeUtil.antt =====
-- scheduler/pkg/typeutil (convension.go, time.go) and scheduler/pkg/tsoutil/tso.go: numbers as bytes,
-- and times.
use tiny_kv_practice.Prelude.{
  ℕ, ◌+◌, ◌-◌, ◌*◌, ◌/◌, ◌%◌, ◌^◌, ◌≤◌, ◌<◌, ◌≡◌, refl, ap, ◌∙◌, Bool, Option, none, some, ltb, leb,
  List, ◌==◌, if◌then◌else◌, length, u64_mod, arith,
}
use tiny_kv_practice.Kv.Endian.{be_bytes, be_number, length-be_bytes, be_number-be_bytes}

abbrev pub Bytes : Type 0
Bytes = List ℕ

unfoldable pub bytes_to_uint64 : Bytes → Option ℕ
bytes_to_uint64 b = if length b == 8 then some (be_number 0 b) else none

unfoldable pub uint64_to_bytes : ℕ → Bytes
uint64_to_bytes v = be_bytes 8 v

abbrev pub millisecond : ℕ
millisecond = 1000000

-- A time is UnixNano + 6795364578871345152, so that it is 0 at the zero time, whose UnixNano is
-- -6795364578871345152 in Go's int64. The model has no times before 1970 but that one, and differences
-- of times below 2 ^ 63 only.
abbrev pub unix_offset : ℕ
unix_offset = 6795364578871345152

abbrev pub zero_time : ℕ
zero_time = 0

abbrev pub unix_nano : ℕ → ℕ
unix_nano t = t - unix_offset

-- time.Unix(0, nano)
abbrev from_nano : Option ℕ → Option ℕ
from_nano none = none
from_nano (some nano) = some (nano + unix_offset)

unfoldable pub parse_timestamp : Bytes → Option ℕ
unfolding bytes_to_uint64
parse_timestamp b = from_nano (bytes_to_uint64 b)

-- SubTimeByWallClock(after, before) compared with d: <, <=, > and >=
abbrev pub sub_lt : ℕ → ℕ → ℕ → Bool
sub_lt after before d = ltb after (before + d)

abbrev pub sub_le : ℕ → ℕ → ℕ → Bool
sub_le after before d = leb after (before + d)

-- The physical time and the logical part of a timestamp.
unfoldable pub parse_ts : ℕ → ℕ × ℕ
parse_ts ts = (ts / 2 ^ 18 * millisecond + unix_offset, ts % 2 ^ 18)

pub bytes_to_uint64-uint64_to_bytes :
    (v : ℕ) → v < u64_mod → bytes_to_uint64 (uint64_to_bytes v) ≡ some v
unfolding bytes_to_uint64 uint64_to_bytes
bytes_to_uint64-uint64_to_bytes v h = rw (length-be_bytes 8 v, be_number-be_bytes 8 v h) refl

pub length-uint64_to_bytes : (v : ℕ) → length (uint64_to_bytes v) ≡ 8
unfolding uint64_to_bytes
length-uint64_to_bytes v = length-be_bytes 8 v

pub parse_timestamp-uint64_to_bytes :
    (t : ℕ)
    → unix_offset ≤ t
    → unix_nano t < u64_mod
    → parse_timestamp (uint64_to_bytes (unix_nano t)) ≡ some t
unfolding parse_timestamp
parse_timestamp-uint64_to_bytes t after small =
    ap from_nano (bytes_to_uint64-uint64_to_bytes (unix_nano t) small) ∙ ap some (omega arith)
