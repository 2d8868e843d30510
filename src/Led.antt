-- ===== src/Led.antt =====
-- main/led.c: the patterns of the LED strip, a mode at a time
-- The strip's driver is not part of the repository: the colour last written to its four pixels is
-- kept. The clock is in microseconds and does not go back. Obtaining the mutex does not fail, since
-- it is awaited for ever.
pub mod Blinking
pub mod Finishing
use cat_litter_box.Common.{
  ℕ, ◌+◌, ◌-◌, ◌*◌, ◌/◌, Bool, true, false, List, [], ◌∷◌, ltb, leb, ◌==◌, if◌then◌else◌,
}
use cat_litter_box.Motion.{
  LedCmd, led_idle, led_initok, led_pairing, led_unlock, led_lock, led_invalid, led_inuse,
  led_cleaning, led_manage, led_binfull, led_error, led_qcmode, led_qcquit, led_pause,
}

-- LED_..._MODE of main/main.h
pub data LedMode : Type 0 where
  led_idle_mode led_normal_mode led_initok_mode led_initok_mode_1 led_initok_mode_2 : LedMode
  led_pairing_mode led_pairing_mode_1 led_pairing_mode_2 : LedMode
  led_unlock_mode led_unlock_mode_1 led_unlock_mode_2 led_unlock_mode_3 led_unlock_mode_4 : LedMode
  led_lock_mode led_lock_mode_1 led_lock_mode_2 : LedMode
  led_invalid_mode led_invalid_mode_1 led_invalid_mode_2 led_invalid_mode_3 : LedMode
  led_invalid_mode_4 led_inuse_mode led_cleaning_mode led_cleaning_mode_1 : LedMode
  led_manage_mode led_manage_mode_1 led_binfull_mode : LedMode
  led_error_mode led_error_mode_1 led_error_mode_2 : LedMode
  led_qcmode_mode led_qcmode_mode_1 led_qcmode_mode_2 : LedMode
  led_qcquit_mode led_qcquit_mode_1 led_qcquit_mode_2 led_qcquit_mode_3 : LedMode
  led_qcquit_mode_4 led_qcquit_mode_5 led_pause_mode led_pause_mode_1 led_pause_mode_2 : LedMode

-- `color`: red, green, blue, white
pub record Color : Type 0 where
  pub red : ℕ
  pub green : ℕ
  pub blue : ℕ
  pub white : ℕ

abbrev pub off : Color
off = record { red = 0; green = 0; blue = 0; white = 0 }

pub record Led : Type 0 where
  pub led_mode : LedMode
  pub start_tm : ℕ
  pub ani_color : ℕ
  pub ani_falling : Bool
  pub strip : Color

abbrev pub boot_led : Led
boot_led = record {
  led_mode = led_idle_mode;
  start_tm = 0;
  ani_color = 0;
  ani_falling = false;
  strip = off;
}

abbrev pub led_animation_step : ℕ
led_animation_step = 1

-- The `mode` of `led_full_rgbw` and `led_full_rgbw_color`.
pub data Hue : Type 0 where
  hue_red hue_green hue_blue hue_white hue_yellow : Hue

unfoldable pub hue_color : Hue → ℕ → Color
hue_color hue_red v = record off { red = v }
hue_color hue_green v = record off { green = v }
hue_color hue_blue v = record off { blue = v }
hue_color hue_white v = record off { white = v }
hue_color hue_yellow v = record off { red = v; green = v }

unfoldable pub led_full_rgbw_color : Hue → ℕ → Led → Led
led_full_rgbw_color hue v l = record l { strip = hue_color hue v }

-- It has no yellow: the `default` of its `switch` sets no colour.
unfoldable pub led_full_rgbw : Hue → Led → Led
led_full_rgbw hue_yellow l = record l { strip = off }
led_full_rgbw hue l = record l { strip = hue_color hue 255 }

abbrev pub led_full_white : Led → Led
led_full_white l = led_full_rgbw hue_white l

unfoldable pub led_full_off : Led → Led
led_full_off l = record l { strip = off }

-- `led_animation(0, _)` and `led_animation(1, color)`
unfoldable pub start_animation : Led → Led
start_animation l = record l { ani_color = 0; ani_falling = false }

unfoldable pub led_animation : Hue → Led → Led
unfolding led_full_rgbw_color
led_animation color l =
    let l' = led_full_rgbw_color color l.ani_color l in
    if l.ani_falling
    then if ltb l.ani_color led_animation_step
      then record l' { ani_falling = false; ani_color = 0 }
      else record l' { ani_color = l.ani_color - led_animation_step }
    else if ltb 255 (l.ani_color + led_animation_step)
    then record l' { ani_falling = true; ani_color = 255 }
    else record l' { ani_color = l.ani_color + led_animation_step }

unfoldable pub set_led_opmode : LedMode → Led → Led
set_led_opmode mode l = record l { led_mode = mode }

abbrev pub start_clock : ℕ → Led → Led
start_clock now l = record l { start_tm = now }

-- `(end_tm - start_tm) / 1000 >= ms`
abbrev pub has_elapsed : ℕ → ℕ → Led → Bool
has_elapsed ms now l = leb ms ((now - l.start_tm) / 1000)

-- What a round of `led_process_task` does if it has read `mode`. The clock is read at `end_tm` and
-- then at `later`.
unfoldable pub process_mode : LedMode → ℕ → ℕ → Led → Led
unfolding set_led_opmode led_animation start_animation led_full_rgbw led_full_rgbw_color
    led_full_off
process_mode led_idle_mode end_tm later l = l
process_mode led_normal_mode end_tm later l = set_led_opmode led_idle_mode (led_full_white l)
process_mode led_initok_mode end_tm later l =
    set_led_opmode led_initok_mode_1 (start_clock later (led_full_white l))
process_mode led_initok_mode_1 end_tm later l =
    if has_elapsed 2000 end_tm l
    then set_led_opmode led_initok_mode_2 (start_clock later (led_full_off l))
    else l
process_mode led_initok_mode_2 end_tm later l =
    if has_elapsed 2000 end_tm l then set_led_opmode led_idle_mode l else l
process_mode led_pairing_mode end_tm later l =
    set_led_opmode led_pairing_mode_1 (start_clock later (led_full_rgbw hue_blue l))
process_mode led_pairing_mode_1 end_tm later l =
    if has_elapsed 500 end_tm l
    then set_led_opmode led_pairing_mode_2 (start_clock later (led_full_rgbw hue_red l))
    else l
process_mode led_pairing_mode_2 end_tm later l =
    if has_elapsed 500 end_tm l then set_led_opmode led_pairing_mode l else l
process_mode led_unlock_mode end_tm later l =
    set_led_opmode led_lock_mode_1 (start_clock later (led_full_white l))
process_mode led_unlock_mode_1 end_tm later l =
    if has_elapsed 500 end_tm l
    then set_led_opmode led_lock_mode_2 (start_clock later (led_full_off l))
    else l
process_mode led_unlock_mode_2 end_tm later l =
    if has_elapsed 500 end_tm l
    then set_led_opmode led_unlock_mode_3 (start_clock later (led_full_white l))
    else l
process_mode led_unlock_mode_3 end_tm later l =
    if has_elapsed 500 end_tm l
    then set_led_opmode led_unlock_mode_4 (start_clock later (led_full_off l))
    else l
process_mode led_unlock_mode_4 end_tm later l =
    if has_elapsed 500 end_tm l then set_led_opmode led_idle_mode l else l
process_mode led_lock_mode end_tm later l =
    set_led_opmode led_lock_mode_1 (start_clock later (led_full_rgbw hue_red l))
process_mode led_lock_mode_1 end_tm later l =
    if has_elapsed 2000 end_tm l
    then set_led_opmode led_lock_mode_2 (start_clock later (led_full_off l))
    else l
process_mode led_lock_mode_2 end_tm later l =
    if has_elapsed 2000 end_tm l then set_led_opmode led_idle_mode l else l
process_mode led_invalid_mode end_tm later l =
    set_led_opmode led_invalid_mode_1 (start_clock later (led_full_rgbw hue_red l))
process_mode led_invalid_mode_1 end_tm later l =
    if has_elapsed 500 end_tm l
    then set_led_opmode led_invalid_mode_2 (start_clock later (led_full_off l))
    else l
process_mode led_invalid_mode_2 end_tm later l =
    if has_elapsed 500 end_tm l
    then set_led_opmode led_invalid_mode_3 (start_clock later (led_full_rgbw hue_red l))
    else l
process_mode led_invalid_mode_3 end_tm later l =
    if has_elapsed 500 end_tm l
    then set_led_opmode led_invalid_mode_4 (start_clock later (led_full_off l))
    else l
process_mode led_invalid_mode_4 end_tm later l =
    if has_elapsed 500 end_tm l then set_led_opmode led_idle_mode l else l
process_mode led_inuse_mode end_tm later l =
    set_led_opmode led_idle_mode (led_full_rgbw hue_green l)
process_mode led_cleaning_mode end_tm later l =
    set_led_opmode led_cleaning_mode_1 (led_animation hue_blue (start_animation l))
process_mode led_cleaning_mode_1 end_tm later l = led_animation hue_blue l
process_mode led_manage_mode end_tm later l =
    set_led_opmode led_manage_mode_1 (led_animation hue_yellow (start_animation l))
process_mode led_manage_mode_1 end_tm later l = led_animation hue_yellow l
process_mode led_binfull_mode end_tm later l =
    set_led_opmode led_idle_mode (led_full_rgbw hue_red l)
process_mode led_error_mode end_tm later l =
    set_led_opmode led_error_mode_1 (start_clock later (led_full_rgbw hue_red l))
process_mode led_error_mode_1 end_tm later l =
    if has_elapsed 300 end_tm l
    then set_led_opmode led_error_mode_2 (start_clock later (led_full_off l))
    else l
process_mode led_error_mode_2 end_tm later l =
    if has_elapsed 300 end_tm l then set_led_opmode led_error_mode l else l
process_mode led_qcmode_mode end_tm later l =
    set_led_opmode led_qcmode_mode_1 (start_clock later (led_full_white l))
process_mode led_qcmode_mode_1 end_tm later l =
    if has_elapsed 300 end_tm l
    then set_led_opmode led_qcmode_mode_2 (start_clock later (led_full_off l))
    else l
process_mode led_qcmode_mode_2 end_tm later l =
    if has_elapsed 300 end_tm l then set_led_opmode led_qcmode_mode l else l
process_mode led_qcquit_mode end_tm later l =
    set_led_opmode led_qcquit_mode_1 (start_clock later (led_full_rgbw hue_green l))
process_mode led_qcquit_mode_1 end_tm later l =
    if has_elapsed 300 end_tm l
    then set_led_opmode led_qcquit_mode_2 (start_clock later (led_full_off l))
    else l
process_mode led_qcquit_mode_2 end_tm later l =
    if has_elapsed 300 end_tm l
    then set_led_opmode led_qcquit_mode_3 (start_clock later (led_full_rgbw hue_green l))
    else l
process_mode led_qcquit_mode_3 end_tm later l =
    if has_elapsed 300 end_tm l
    then set_led_opmode led_qcquit_mode_4 (start_clock later (led_full_off l))
    else l
process_mode led_qcquit_mode_4 end_tm later l =
    if has_elapsed 300 end_tm l
    then set_led_opmode led_qcquit_mode_5 (start_clock later (led_full_rgbw hue_green l))
    else l
process_mode led_qcquit_mode_5 end_tm later l =
    if has_elapsed 300 end_tm l then set_led_opmode led_idle_mode (led_full_white l) else l
process_mode led_pause_mode end_tm later l =
    set_led_opmode led_pause_mode_1 (start_clock later (led_full_rgbw_color hue_yellow 255 l))
process_mode led_pause_mode_1 end_tm later l =
    if has_elapsed 500 end_tm l
    then set_led_opmode led_pause_mode_2 (start_clock later (led_full_off l))
    else l
process_mode led_pause_mode_2 end_tm later l =
    if has_elapsed 500 end_tm l then set_led_opmode led_pause_mode l else l

-- A round of `led_process_task`.
unfoldable pub process_round : ℕ → ℕ → Led → Led
process_round end_tm later l = process_mode l.led_mode end_tm later l

-- The mode that `led_task` sets for a command.
unfoldable pub mode_of : LedCmd → LedMode
mode_of led_idle = led_normal_mode
mode_of led_initok = led_initok_mode
mode_of led_pairing = led_pairing_mode
mode_of led_unlock = led_unlock_mode
mode_of led_lock = led_lock_mode
mode_of led_invalid = led_invalid_mode
mode_of led_inuse = led_inuse_mode
mode_of led_cleaning = led_cleaning_mode
mode_of led_manage = led_manage_mode
mode_of led_binfull = led_binfull_mode
mode_of led_error = led_error_mode
mode_of led_qcmode = led_qcmode_mode
mode_of led_qcquit = led_qcquit_mode
mode_of led_pause = led_pause_mode

unfoldable pub led_command : LedCmd → Led → Led
unfolding set_led_opmode
led_command cmd l = set_led_opmode (mode_of cmd) l

-- The two tasks share the mode: a command may come between the `switch` of a round, which reads the
-- mode, and the rest of that round.
pub data Event : Type 0 where
  command : LedCmd → Event
  round : (end_tm later : ℕ) → Event
  round_with : (end_tm later : ℕ) → LedCmd → Event

unfoldable pub step : Event → Led → Led
unfolding process_round led_command
step (command cmd) l = led_command cmd l
step (round end_tm later) l = process_round end_tm later l
step (round_with end_tm later cmd) l = process_mode l.led_mode end_tm later (led_command cmd l)

unfoldable pub run : List Event → Led → Led
run [] l = l
run (e ∷ es) l = run es (step e l)
