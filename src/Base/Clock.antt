-- ===== src/Base/Clock.antt =====
-- Times: microseconds since the start of year 1, in UTC, and `datetime.isoformat`.
use Prim.Native.Nat.{ℕ, zero, suc, ◌+◌, ◌-◌, ◌*◌, ◌/◌, ◌%◌}
use mathlib.Core.Bool.{Bool, ◌&&◌, ◌||◌}
use mathlib.Core.List.{List, [], ◌∷◌, ◌++◌}
use mathlib.Core.Path.{◌≡◌, refl}
use native.Mathlib.Decide.{ℕ_discrete}
use meta_loop.Base.Equality.{◌==◌, ◌!=◌, nat_eq}
use meta_loop.Base.Tests.{ltb, if◌then◌else◌}
use meta_loop.Base.Texts.{codes}

abbrev pub Time : Type 0
Time = ℕ

-- `timedelta(seconds=n)`
abbrev pub seconds : ℕ → Time
seconds n = n * 1000000

-- `n` in `w` decimal digits
padded : ℕ → ℕ → List ℕ
padded zero n = []
padded (suc w) n = padded w (n / 10) ++ (b'0' + n % 10) ∷ []

is_leap : ℕ → Bool
is_leap y = y % 4 == 0 && (y % 100 != 0 || y % 400 == 0)

month_days : Bool → ℕ → ℕ
month_days leap m =
    if m == 2
    then (if leap then 29 else 28)
    else if m == 4 || m == 6 || m == 9 || m == 11
    then 30
    else 31

-- the month and the day of a day of the year, counted from 0; twelve rounds are enough
month_and_day : ℕ → Bool → ℕ → ℕ → ℕ × ℕ
unfolding month_days
month_and_day zero leap m d = (m, d + 1)
month_and_day (suc f) leap m d =
    let rest = month_and_day f leap (m + 1) (d - month_days leap m) in
    if ltb d (month_days leap m) then (m, d + 1) else rest

-- the year, counted from 1, and the day of the year, counted from 0, of a day counted from 0
year_and_day : ℕ → ℕ × ℕ
year_and_day n =
    let n400 = n / 146097 in
    let n1 = n % 146097 in
    let n100 = n1 / 36524 in
    let n2 = n1 % 36524 in
    let n4 = n2 / 1461 in
    let n3 = n2 % 1461 in
    let years = n400 * 400 + n100 * 100 + n4 * 4 + n3 / 365 in
    if n3 / 365 == 4 || n100 == 4 then (years, 365) else (years + 1, n3 % 365)

unfoldable pub isoformat : Time → List ℕ
unfolding padded is_leap month_and_day year_and_day
isoformat t =
    let (y, n) = year_and_day (t / 86400000000) in
    let (m, d) = month_and_day 12 (is_leap y) 1 n in
    let s = t / 1000000 % 86400 in
    padded 4 y
    ++ b'-'
      ∷ (padded 2 m
          ++ b'-'
            ∷ (padded 2 d
                ++ b'T'
                  ∷ (padded 2 (s / 3600)
                      ++ b':'
                        ∷ (padded 2 (s / 60 % 60)
                            ++ b':'
                              ∷ (padded 2 (s % 60)
                                  ++ ((if t % 1000000 == 0
                                        then []
                                        else b'.' ∷ padded 6 (t % 1000000))
                                      ++ codes "+00:00"))))))

leap_day :
    isoformat (seconds (738944 * 86400 + 3661) + 5) ≡ codes "2024-02-29T01:01:01.000005+00:00"
unfolding isoformat ℕ_discrete
leap_day = refl
