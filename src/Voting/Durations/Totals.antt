-- ===== src/Voting/Durations/Totals.antt =====
-- Go's times as numbers of nanoseconds: the order, differences and products.
use pebble_voting_app.Base.{ℕ, ◌+◌, ◌-◌, ◌*◌, ◌^◌, ◌<◌, ◌≡◌, refl, arith, ltb, if◌then◌else◌}
use pebble_voting_app.Base.Int.{ℤ, pos, negsuc, neg, ◌+ℤ◌, ltb_ℤ, to_int64, to_uint64}
use pebble_voting_app.Voting.Params.{Time, before}
use pebble_voting_app.Voting.Durations.{second, total, of_total, sub, mul64}

abbrev pub IsTime : Time → Type 0
IsTime t = t.nanos < second

total-negsuc :
    (a x : ℕ)
    → x < second
    → total (record { unix = negsuc a; nanos = x }) ≡ negsuc (second * a + (second - 1 - x))
total-negsuc a x h = ground arith

pub total-of_total : (z : ℤ) → total (of_total z) ≡ z
total-of_total (pos n) = ground arith
total-of_total (negsuc n) = ground arith

pub of_total-IsTime : (z : ℤ) → IsTime (of_total z)
of_total-IsTime (pos n) = omega arith
of_total-IsTime (negsuc n) = omega arith

before-total_cases :
    (a b : ℤ) (x y : ℕ)
    → x < second
    → y < second
    → before (record { unix = a; nanos = x }) (record { unix = b; nanos = y })
      ≡ ltb_ℤ (total (record { unix = a; nanos = x })) (total (record { unix = b; nanos = y }))
unfolding before
before-total_cases (pos a) (pos b) x y h k = ground arith
before-total_cases (pos a) (negsuc b) x y h k = rw (total-negsuc b y k) refl
before-total_cases (negsuc a) (pos b) x y h k = rw (total-negsuc a x h) refl
before-total_cases (negsuc a) (negsuc b) x y h k =
    rw (total-negsuc a x h, total-negsuc b y k) (ground arith)

-- The order of times is that of their nanoseconds.
pub before-total : (t u : Time) → IsTime t → IsTime u → before t u ≡ ltb_ℤ (total t) (total u)
before-total t u h k = before-total_cases t.unix u.unix t.nanos u.nanos h k

cancel : (a : ℤ) (d : ℕ) → (a +ℤ pos d) +ℤ neg a ≡ pos d
cancel (pos a) d = ground arith
cancel (negsuc a) d = ground arith

pub sub-later : (t u : Time) (d : ℕ) → total t ≡ total u +ℤ pos d → d < 2 ^ 63 → sub t u ≡ pos d
unfolding sub
sub-later t u d e h = rw (e, cancel (total u) d) (ground arith)

pub mul64-pos :
    (d k : ℕ)
    → k * d < 2 ^ 64
    → mul64 (pos d) k ≡ (if ltb (k * d) (2 ^ 63) then pos (k * d) else negsuc (2 ^ 64 - 1 - k * d))
unfolding mul64 to_int64 to_uint64
mul64-pos d k h = ground arith
