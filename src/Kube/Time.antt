-- ===== src/Kube/Time.antt =====
-- `time.Time` and `time.Duration`, in nanoseconds; a reading of the clock is an argument of the model.
use sunwukong.Base.{Bool}
use sunwukong.Base.Int.{ℤ, pos, negsuc, ◌+ℤ◌, ◌-ℤ◌, ltb_ℤ}
use sunwukong.Base.Words.{mul64}

abbrev pub Time : Type 0
Time = ℤ

abbrev pub Duration : Type 0
Duration = ℤ

-- `time.Time{}`: the first of January of the year 1.
abbrev pub zero_time : Time
zero_time = negsuc 62_135_596_799_999_999_999

-- `time.Second * time.Duration(n)`
unfoldable pub seconds : ℤ → Duration
seconds n = mul64 (pos 1_000_000_000) n

abbrev pub after : Time → Time → Bool
after s t = ltb_ℤ t s

abbrev pub before : Time → Time → Bool
before s t = ltb_ℤ s t

unfoldable pub add : Time → Duration → Time
add t d = t +ℤ d

-- `t.Add(-d)`
unfoldable pub back : Time → Duration → Time
back t d = t -ℤ d
