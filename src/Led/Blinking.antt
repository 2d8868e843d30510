-- ===== src/Led/Blinking.antt =====
-- What holds of main/led.c in every state, and the patterns that go on until the next command.
use cat_litter_box.Common.{
  ℕ, ◌≤◌, Bool, true, false, Option, none, some, List, [], ◌∷◌, ◌≡◌, refl, arith,
}
use cat_litter_box.Motion.{
  LedCmd, led_pairing, led_cleaning, led_manage, led_error, led_qcmode, led_pause,
}
use cat_litter_box.Led.{
  LedMode, led_pairing_mode, led_pairing_mode_1, led_pairing_mode_2, led_unlock_mode_1,
  led_unlock_mode_2, led_unlock_mode_3, led_unlock_mode_4, led_cleaning_mode, led_cleaning_mode_1,
  led_manage_mode, led_manage_mode_1, led_error_mode, led_error_mode_1, led_error_mode_2,
  led_qcmode_mode, led_qcmode_mode_1, led_qcmode_mode_2, led_pause_mode, led_pause_mode_1,
  led_pause_mode_2, Color, Led, boot_led, hue_color, led_full_rgbw, led_full_rgbw_color,
  led_full_off, start_animation, led_animation, set_led_opmode, process_mode, mode_of, led_command,
  process_round, Event, command, round, round_with, step, run,
}
use cat_litter_box.Led.Finishing.{Times, rounds}

-- Not a later mode of the unlock pattern.
abbrev pub is_reached : LedMode → Bool
is_reached led_unlock_mode_1 = false
is_reached led_unlock_mode_2 = false
is_reached led_unlock_mode_3 = false
is_reached led_unlock_mode_4 = false
is_reached _ = true

pub record IsShown (c : Color) : Type 0 where
  pub red : c.red ≤ 255
  pub green : c.green ≤ 255
  pub blue : c.blue ≤ 255
  pub white : c.white ≤ 255

pub record IsLit (l : Led) : Type 0 where
  pub reached : is_reached l.led_mode ≡ true
  pub ani : l.ani_color ≤ 255
  pub shown : IsShown l.strip

process-reached :
    (m : LedMode) (end_tm later : ℕ) (l : Led)
    → is_reached m ≡ true
    → is_reached l.led_mode ≡ true
    → is_reached (process_mode m end_tm later l).led_mode ≡ true
unfolding process_mode set_led_opmode led_animation
process-reached m end_tm later l r r' = ground arith

process-ani :
    (m : LedMode) (end_tm later : ℕ) (l : Led)
    → l.ani_color ≤ 255
    → (process_mode m end_tm later l).ani_color ≤ 255
unfolding process_mode set_led_opmode led_animation start_animation led_full_rgbw
    led_full_rgbw_color led_full_off
process-ani m end_tm later l h = ground arith

process-strip :
    (m : LedMode) (end_tm later : ℕ) (l : Led)
    → l.ani_color ≤ 255
    → IsShown l.strip
    → IsShown (process_mode m end_tm later l).strip
unfolding process_mode set_led_opmode led_animation start_animation led_full_rgbw
    led_full_rgbw_color led_full_off hue_color
process-strip m end_tm later l h v = ground arith

process-IsLit :
    (m : LedMode) (end_tm later : ℕ) (l : Led)
    → is_reached m ≡ true
    → IsLit l
    → IsLit (process_mode m end_tm later l)
process-IsLit m end_tm later l r v = record {
  reached = process-reached m end_tm later l r v.reached;
  ani = process-ani m end_tm later l v.ani;
  shown = process-strip m end_tm later l v.ani v.shown;
}

command-IsLit : (cmd : LedCmd) (l : Led) → IsLit l → IsLit (led_command cmd l)
unfolding led_command set_led_opmode mode_of
command-IsLit cmd l v = ground arith

step-IsLit : (e : Event) (l : Led) → IsLit l → IsLit (step e l)
unfolding step process_round led_command set_led_opmode mode_of
step-IsLit (command cmd) l v = command-IsLit cmd l v
step-IsLit (round end_tm later) l v = process-IsLit l.led_mode end_tm later l v.reached v
step-IsLit (round_with end_tm later cmd) l v =
    process-IsLit l.led_mode end_tm later (led_command cmd l) v.reached (command-IsLit cmd l v)

run_keeps-IsLit : (es : List Event) (l : Led) → IsLit l → IsLit (run es l)
unfolding run
run_keeps-IsLit [] l v = v
run_keeps-IsLit (e ∷ es) l v = run_keeps-IsLit es (step e l) (step-IsLit e l v)

-- From power-up on, whatever commands come, also in the middle of a round, every colour value stays from 0
-- to 255, and the modes LED_UNLOCK_MODE_1 to LED_UNLOCK_MODE_4 are never entered.
pub run-IsLit : (es : List Event) → IsLit (run es boot_led)
run-IsLit es = run_keeps-IsLit es boot_led (ground arith)

-- The command whose pattern a mode belongs to, for the patterns that do not end.
abbrev pub endless : LedMode → Option LedCmd
endless led_pairing_mode = some led_pairing
endless led_pairing_mode_1 = some led_pairing
endless led_pairing_mode_2 = some led_pairing
endless led_cleaning_mode = some led_cleaning
endless led_cleaning_mode_1 = some led_cleaning
endless led_manage_mode = some led_manage
endless led_manage_mode_1 = some led_manage
endless led_error_mode = some led_error
endless led_error_mode_1 = some led_error
endless led_error_mode_2 = some led_error
endless led_qcmode_mode = some led_qcmode
endless led_qcmode_mode_1 = some led_qcmode
endless led_qcmode_mode_2 = some led_qcmode
endless led_pause_mode = some led_pause
endless led_pause_mode_1 = some led_pause
endless led_pause_mode_2 = some led_pause
endless _ = none

process-endless :
    (m : LedMode) (end_tm later : ℕ) (l : Led) {cmd : LedCmd}
    → l.led_mode ≡ m
    → endless m ≡ some cmd
    → endless (process_mode m end_tm later l).led_mode ≡ some cmd
unfolding process_mode set_led_opmode led_animation
process-endless m end_tm later l e h = ground arith

rounds_keep-endless :
    (ts : List Times) (l : Led) {cmd : LedCmd}
    → endless l.led_mode ≡ some cmd
    → endless (rounds ts l).led_mode ≡ some cmd
unfolding rounds process_round
rounds_keep-endless [] l e = e
rounds_keep-endless (t ∷ ts) l e =
    rounds_keep-endless ts _ (process-endless l.led_mode t.end_tm t.later l refl e)

-- The patterns of pairing, cleaning, managing, an error, QC mode and a pause go on through every
-- number of rounds, until the next command.
pub rounds-endless :
    (cmd : LedCmd) (l : Led) (ts : List Times)
    → endless (mode_of cmd) ≡ some cmd
    → endless (rounds ts (led_command cmd l)).led_mode ≡ some cmd
unfolding led_command set_led_opmode
rounds-endless cmd l ts e = rounds_keep-endless ts _ e
