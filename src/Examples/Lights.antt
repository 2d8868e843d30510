-- ===== src/Examples/Lights.antt =====
-- Patterns of the LED strip.
use cat_litter_box.Common.{ℕ, zero, suc, ◌+◌, ◌≡◌, some, List, [], ◌∷◌, refl, ap, arith, length}
use cat_litter_box.Motion.{led_lock, led_pause, led_unlock}
use cat_litter_box.Led.{
  boot_led, off, led_idle_mode, led_command, mode_of, Event, command, round, round_with, run,
}
use cat_litter_box.Led.Finishing.{Times, rounds, Paced, pattern-ends}
use cat_litter_box.Led.Blinking.{IsLit, run-IsLit, endless, rounds-endless}

-- `n` rounds, 20 ms apart.
abbrev every_20_ms : ℕ → ℕ → List Times
every_20_ms zero b = []
every_20_ms (suc n) b = record { end_tm = b; later = b + 5 } ∷ every_20_ms n (b + 20005)

every_20_ms-Paced : (n b : ℕ) → Paced b (every_20_ms n b)
every_20_ms-Paced zero b = tt
every_20_ms-Paced (suc n) b = (omega arith, omega arith, later n b)
  where
    later : (n b : ℕ) → Paced (b + 5 + 10000) (every_20_ms n (b + 20005))
    later zero b = tt
    later (suc n) b = (omega arith, omega arith, later n (b + 20005))

length-every_20_ms : (n b : ℕ) → length (every_20_ms n b) ≡ n
length-every_20_ms zero b = refl
length-every_20_ms (suc n) b = ap suc (length-every_20_ms n (b + 20005))

abbrev dark : List Times
dark = every_20_ms 401 1000

pattern-ends_example :
    let l' = rounds dark (led_command led_lock boot_led) in
    (l'.led_mode ≡ led_idle_mode) × (l'.strip ≡ off)
pattern-ends_example =
    pattern-ends led_lock off boot_led 1000 dark refl (omega arith) (every_20_ms-Paced 401 1000)
      (omega (arith, length-every_20_ms 401 1000))

abbrev events : List Event
events = command led_unlock ∷ round 20000 20005 ∷ round_with 600000 600005 led_pause ∷ []

run-IsLit_example : IsLit (run events boot_led)
run-IsLit_example = run-IsLit events

pause_endless : endless (mode_of led_pause) ≡ some led_pause
unfolding mode_of
pause_endless = refl

paused_goes_on : endless (rounds dark (led_command led_pause boot_led)).led_mode ≡ some led_pause
paused_goes_on = rounds-endless led_pause boot_led dark pause_endless
