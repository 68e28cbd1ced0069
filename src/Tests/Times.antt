-- ===== src/Tests/Times.antt =====
-- Times and their texts.
use sending_system.Base.{◌≡◌, refl, some, true, Bytes, codes, length, arith}
use sending_system.Timestamps.{Tm, now_timestamp}
use sending_system.Timestamps.Order.{IsValid, bytes_lt, before, now_timestamp-before}

-- The last second of a year, and the first of the next.
abbrev eve : Tm
eve = record { tm_year = 125; tm_mon = 11; tm_mday = 31; tm_hour = 23; tm_min = 59; tm_sec = 59 }

abbrev new_year : Tm
new_year = record { tm_year = 126; tm_mon = 0; tm_mday = 1; tm_hour = 0; tm_min = 0; tm_sec = 0 }

abbrev limits : IsValid eve
limits = record {
  year = omega arith;
  mon = omega arith;
  mday = omega arith;
  hour = omega arith;
  min = omega arith;
  sec = omega arith;
}

abbrev limits_new : IsValid new_year
limits_new = record {
  year = omega arith;
  mon = omega arith;
  mday = omega arith;
  hour = omega arith;
  min = omega arith;
  sec = omega arith;
}

now_timestamp-before_example :
    (s t : Bytes) × (now_timestamp eve 32 ≡ some s)
    × (now_timestamp new_year 32 ≡ some t)
    × (length s ≡ 19)
    × (length t ≡ 19)
    × (bytes_lt s t ≡ before eve new_year)
now_timestamp-before_example = now_timestamp-before eve new_year 32 limits limits_new (omega arith)

eve_text : now_timestamp eve 32 ≡ some (codes "2025-12-31 23:59:59")
unfolding now_timestamp codes
eve_text = refl

in_order : before eve new_year ≡ true
unfolding before
in_order = refl
