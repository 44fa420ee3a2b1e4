-- ===== src/Voting/Durations.antt =====
-- What the packages use of Go's time: differences in nanoseconds, as int64 values.
pub mod Totals
use pebble_voting_app.Base.{ℕ, ◌-◌, ◌/◌, ◌%◌, ◌^◌, if◌then◌else◌}
use pebble_voting_app.Base.Int.{ℤ, pos, negsuc, neg, ◌+ℤ◌, times, ltb_ℤ, to_int64, to_uint64}
use pebble_voting_app.Voting.Params.{Time}

abbrev pub second : ℕ
second = 1000000000

-- The nanoseconds since the epoch, and back.
abbrev pub total : Time → ℤ
total t = times second t.unix +ℤ pos t.nanos

abbrev pub of_total : ℤ → Time
of_total (pos n) = record { unix = pos (n / second); nanos = n % second }
of_total (negsuc n) = record { unix = negsuc (n / second); nanos = second - 1 - n % second }

-- t.Sub(u), which saturates.
unfoldable pub sub : Time → Time → ℤ
sub t u =
    let d = total t +ℤ neg (total u) in
    if ltb_ℤ (pos (2 ^ 63 - 1)) d
    then pos (2 ^ 63 - 1)
    else if ltb_ℤ d (negsuc (2 ^ 63 - 1))
    then negsuc (2 ^ 63 - 1)
    else d

-- d * k on an int64, which wraps.
unfoldable pub mul64 : ℤ → ℕ → ℤ
mul64 d k = to_int64 (to_uint64 (times k d))

-- t.Add(d)
unfoldable pub add : Time → ℤ → Time
add t d = of_total (total t +ℤ d)
