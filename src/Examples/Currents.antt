-- ===== src/Examples/Currents.antt =====
-- A motor that jams and runs free again, as main/current_monitor.c sees it.
use cat_litter_box.Common.{ℕ, ◌≡◌, refl, Bool, true, false, List, [], ◌∷◌}
use cat_litter_box.Current.{
  Limits, Conversion, monitor, monitor_round, add_conversions, add_conversion, judge,
}
use cat_litter_box.Current.Faults.{monitor-bits}

abbrev conversion : ℕ → ℕ → Conversion
conversion ch x = record { channel = ch; raw = x }

abbrev limits : Limits
limits = record { m1_cur = 495; m2_cur = 495; m3_cur = 495; m4_cur = 495; m5_cur = 495 }

-- 1300 stands for 523 mA. The second read fails, the third is back to normal.
abbrev reads : List (Bool × List Conversion)
reads =
    (true, conversion 2 1300 ∷ conversion 1 200 ∷ conversion 2 1310 ∷ conversion 7 4095 ∷ [])
    ∷ (false, conversion 3 4095 ∷ [])
    ∷ (true, conversion 2 90 ∷ [])
    ∷ []

jammed : monitor limits reads 0 ≡ 2
unfolding monitor monitor_round add_conversions add_conversion judge
jammed = refl

monitor-bits_example : monitor limits reads 0 ≡ 2
monitor-bits_example = monitor-bits limits reads
