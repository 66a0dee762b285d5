-- ===== src/Resolver/Clock.antt =====
-- resolver.go: the durations of the feed.
use my_oj.Prelude.{ℕ, ◌+◌, ◌*◌, ◌≤◌, ◌<◌, arith}
use my_oj.Prelude.Int.{ℤ}
use my_oj.Resolver.{Hms, hms, positive, second}

abbrev pub in_seconds : Hms → ℕ
in_seconds t = t.hours * 3600 + t.minutes * 60 + t.seconds

-- A duration is written with fewer than 60 minutes and 60 seconds, and the three numbers stand for the
-- nearest second to it; a duration below zero is written as zero.
pub hms_rounds :
    (d : ℤ)
    → ((hms d).minutes < 60)
      × ((hms d).seconds < 60)
      × (in_seconds (hms d) * second ≤ positive d + 500_000_000)
      × (positive d < in_seconds (hms d) * second + 500_000_000)
unfolding hms
hms_rounds d = (omega arith, omega arith, omega arith, omega arith)
