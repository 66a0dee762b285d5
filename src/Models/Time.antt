-- ===== src/Models/Time.antt =====
-- Go's time package as far as the program uses it: instants, their order, differences, minutes.
use my_oj.Prelude.{ℕ, ◌+◌, ◌-◌, ◌/◌, ◌^◌, Bool, ltb, leb, ◌==◌, if◌then◌else◌}
use my_oj.Prelude.Int.{ℤ, pos, negsuc, sub_ℕ}

-- Nanoseconds since the zero time.Time, the start of year 1.
abbrev pub Time : Type 0
Time = ℕ

abbrev pub is_zero : Time → Bool
is_zero t = t == 0

abbrev pub before : Time → Time → Bool
before a b = ltb a b

abbrev pub after : Time → Time → Bool
after a b = ltb b a

-- t.Sub(u): a 64-bit Duration in nanoseconds, which saturates.
unfoldable pub sub_time : Time → Time → ℤ
sub_time t u =
    if leb u t
    then (if ltb (t - u) (2 ^ 63) then pos (t - u) else pos (2 ^ 63 - 1))
    else (if leb (u - t) (2 ^ 63) then negsuc (u - t - 1) else negsuc (2 ^ 63 - 1))

-- int(d.Minutes()): whole minutes, truncated towards zero.
unfoldable pub minutes : ℤ → ℤ
minutes (pos n) = pos (n / 60_000_000_000)
minutes (negsuc n) = sub_ℕ 0 ((n + 1) / 60_000_000_000)
