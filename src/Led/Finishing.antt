-- ===== src/Led/Finishing.antt =====
-- The patterns of main/led.c that end by themselves.
use cat_litter_box.Common.{
  ℕ, ◌+◌, ◌-◌, ◌*◌, ◌/◌, ◌≤◌, List, [], ◌∷◌, length, Option, none, some, ◌≡◌, refl, arith,
}
use cat_litter_box.Motion.{
  LedCmd, led_idle, led_initok, led_unlock, led_lock, led_invalid, led_inuse, led_binfull,
  led_qcquit,
}
use cat_litter_box.Led.{
  LedMode, led_idle_mode, led_normal_mode, led_initok_mode, led_initok_mode_1, led_initok_mode_2,
  led_unlock_mode, led_lock_mode, led_lock_mode_1, led_lock_mode_2, led_invalid_mode,
  led_invalid_mode_1, led_invalid_mode_2, led_invalid_mode_3, led_invalid_mode_4, led_inuse_mode,
  led_binfull_mode, led_qcquit_mode, led_qcquit_mode_1, led_qcquit_mode_2, led_qcquit_mode_3,
  led_qcquit_mode_4, led_qcquit_mode_5, Color, off, Led, hue_red, hue_green, hue_white, hue_color,
  led_full_rgbw, led_full_off, set_led_opmode, process_mode, mode_of, led_command, process_round,
}

-- The times at which rounds of `led_process_task` read the clock.
pub record Times : Type 0 where
  pub end_tm : ℕ
  pub later : ℕ

unfoldable pub rounds : List Times → Led → Led
rounds [] l = l
rounds (t ∷ ts) l = rounds ts (process_round t.end_tm t.later l)

-- The first round reads the clock at `b` or later, the next ones 10 ms or more after the one before.
abbrev pub Paced : ℕ → List Times → Type 0
Paced b [] = Unit
Paced b (t ∷ ts) = (b ≤ t.end_tm) × (t.end_tm ≤ t.later) × Paced (t.later + 10000) ts

-- Rounds that a stage of `ms` milliseconds may still need, the next of them at `b` or later.
abbrev stage : ℕ → Led → ℕ → ℕ
stage ms l b = 1 + (ms * 1000 - (b - l.start_tm) + 9999) / 10000

-- Rounds that a pattern may still need.
abbrev need : LedMode → Led → ℕ → ℕ
need led_idle_mode l b = 0
need led_normal_mode l b = 1
need led_inuse_mode l b = 1
need led_binfull_mode l b = 1
need led_initok_mode l b = 401
need led_initok_mode_1 l b = 200 + stage 2000 l b
need led_initok_mode_2 l b = stage 2000 l b
need led_unlock_mode l b = 401
need led_lock_mode l b = 401
need led_lock_mode_1 l b = 200 + stage 2000 l b
need led_lock_mode_2 l b = stage 2000 l b
need led_invalid_mode l b = 201
need led_invalid_mode_1 l b = 150 + stage 500 l b
need led_invalid_mode_2 l b = 100 + stage 500 l b
need led_invalid_mode_3 l b = 50 + stage 500 l b
need led_invalid_mode_4 l b = stage 500 l b
need led_qcquit_mode l b = 151
need led_qcquit_mode_1 l b = 120 + stage 300 l b
need led_qcquit_mode_2 l b = 90 + stage 300 l b
need led_qcquit_mode_3 l b = 60 + stage 300 l b
need led_qcquit_mode_4 l b = 30 + stage 300 l b
need led_qcquit_mode_5 l b = stage 300 l b
need _ l b = 0

-- The pattern ends with the colour `c`.
abbrev Aims : LedMode → Color → Led → Type 0
Aims led_idle_mode c l = l.strip ≡ c
Aims led_normal_mode c l = c ≡ hue_color hue_white 255
Aims led_inuse_mode c l = c ≡ hue_color hue_green 255
Aims led_binfull_mode c l = c ≡ hue_color hue_red 255
Aims led_initok_mode c l = c ≡ off
Aims led_initok_mode_1 c l = c ≡ off
Aims led_initok_mode_2 c l = l.strip ≡ c
Aims led_unlock_mode c l = c ≡ off
Aims led_lock_mode c l = c ≡ off
Aims led_lock_mode_1 c l = c ≡ off
Aims led_lock_mode_2 c l = l.strip ≡ c
Aims led_invalid_mode c l = c ≡ off
Aims led_invalid_mode_1 c l = c ≡ off
Aims led_invalid_mode_2 c l = c ≡ off
Aims led_invalid_mode_3 c l = c ≡ off
Aims led_invalid_mode_4 c l = l.strip ≡ c
Aims led_qcquit_mode c l = c ≡ hue_color hue_white 255
Aims led_qcquit_mode_1 c l = c ≡ hue_color hue_white 255
Aims led_qcquit_mode_2 c l = c ≡ hue_color hue_white 255
Aims led_qcquit_mode_3 c l = c ≡ hue_color hue_white 255
Aims led_qcquit_mode_4 c l = c ≡ hue_color hue_white 255
Aims led_qcquit_mode_5 c l = c ≡ hue_color hue_white 255
Aims _ c l = ⊥

-- Every round brings the pattern a round nearer to its end.
advances :
    (m : LedMode) (c : Color) (l : Led) (b end_tm later : ℕ)
    → l.led_mode ≡ m
    → Aims m c l
    → l.start_tm ≤ b
    → b ≤ end_tm
    → end_tm ≤ later
    → let l' = process_mode m end_tm later l in
      Aims l'.led_mode c l'
      × (l'.start_tm ≤ later + 10000)
      × (need l'.led_mode l' (later + 10000) ≤ need m l b - 1)
unfolding process_mode set_led_opmode led_full_rgbw led_full_off
advances led_idle_mode c l b end_tm later e a s h k = rw e (a, omega arith, omega arith)
advances led_normal_mode c l b end_tm later e a s h k = ground arith
advances led_inuse_mode c l b end_tm later e a s h k = ground arith
advances led_binfull_mode c l b end_tm later e a s h k = ground arith
advances led_initok_mode c l b end_tm later e a s h k = ground arith
advances led_initok_mode_1 c l b end_tm later e a s h k = ground arith
advances led_initok_mode_2 c l b end_tm later e a s h k = ground arith
advances led_unlock_mode c l b end_tm later e a s h k = ground arith
advances led_lock_mode c l b end_tm later e a s h k = ground arith
advances led_lock_mode_1 c l b end_tm later e a s h k = ground arith
advances led_lock_mode_2 c l b end_tm later e a s h k = ground arith
advances led_invalid_mode c l b end_tm later e a s h k = ground arith
advances led_invalid_mode_1 c l b end_tm later e a s h k = ground arith
advances led_invalid_mode_2 c l b end_tm later e a s h k = ground arith
advances led_invalid_mode_3 c l b end_tm later e a s h k = ground arith
advances led_invalid_mode_4 c l b end_tm later e a s h k = ground arith
advances led_qcquit_mode c l b end_tm later e a s h k = ground arith
advances led_qcquit_mode_1 c l b end_tm later e a s h k = ground arith
advances led_qcquit_mode_2 c l b end_tm later e a s h k = ground arith
advances led_qcquit_mode_3 c l b end_tm later e a s h k = ground arith
advances led_qcquit_mode_4 c l b end_tm later e a s h k = ground arith
advances led_qcquit_mode_5 c l b end_tm later e a s h k = ground arith
advances _ c l b end_tm later e a s h k = elim a [ ]

ended :
    (m : LedMode) (c : Color) (l : Led) (b : ℕ)
    → Aims m c l
    → need m l b ≤ 0
    → (m ≡ led_idle_mode) × (l.strip ≡ c)
ended led_idle_mode c l b a h = (refl, a)
ended led_normal_mode c l b a h = absurd (omega arith)
ended led_inuse_mode c l b a h = absurd (omega arith)
ended led_binfull_mode c l b a h = absurd (omega arith)
ended led_initok_mode c l b a h = absurd (omega arith)
ended led_initok_mode_1 c l b a h = absurd (omega arith)
ended led_initok_mode_2 c l b a h = absurd (omega arith)
ended led_unlock_mode c l b a h = absurd (omega arith)
ended led_lock_mode c l b a h = absurd (omega arith)
ended led_lock_mode_1 c l b a h = absurd (omega arith)
ended led_lock_mode_2 c l b a h = absurd (omega arith)
ended led_invalid_mode c l b a h = absurd (omega arith)
ended led_invalid_mode_1 c l b a h = absurd (omega arith)
ended led_invalid_mode_2 c l b a h = absurd (omega arith)
ended led_invalid_mode_3 c l b a h = absurd (omega arith)
ended led_invalid_mode_4 c l b a h = absurd (omega arith)
ended led_qcquit_mode c l b a h = absurd (omega arith)
ended led_qcquit_mode_1 c l b a h = absurd (omega arith)
ended led_qcquit_mode_2 c l b a h = absurd (omega arith)
ended led_qcquit_mode_3 c l b a h = absurd (omega arith)
ended led_qcquit_mode_4 c l b a h = absurd (omega arith)
ended led_qcquit_mode_5 c l b a h = absurd (omega arith)
ended _ c l b a h = elim a [ ]

rounds-end :
    (ts : List Times) (c : Color) (l : Led) (b : ℕ)
    → Aims l.led_mode c l
    → l.start_tm ≤ b
    → Paced b ts
    → need l.led_mode l b ≤ length ts
    → let l' = rounds ts l in (l'.led_mode ≡ led_idle_mode) × (l'.strip ≡ c)
unfolding rounds process_round
rounds-end [] c l b a s p h = ended l.led_mode c l b a h
rounds-end (t ∷ ts) c l b a s (p, q, ps) h =
    let (a', s', n) = advances l.led_mode c l b t.end_tm t.later refl a s p q in
    rounds-end ts c (process_mode l.led_mode t.end_tm t.later l) (t.later + 10000) a' s' ps
      (omega (arith, n))

-- The colour that a command leaves in the end, if its pattern ends.
abbrev pub final_color : LedCmd → Option Color
final_color led_idle = some (hue_color hue_white 255)
final_color led_initok = some off
final_color led_unlock = some off
final_color led_lock = some off
final_color led_invalid = some off
final_color led_inuse = some (hue_color hue_green 255)
final_color led_binfull = some (hue_color hue_red 255)
final_color led_qcquit = some (hue_color hue_white 255)
final_color _ = none

command-Aims :
    (cmd : LedCmd) (c : Color) (l : Led) (b : ℕ)
    → final_color cmd ≡ some c
    → let l' = led_command cmd l in Aims l'.led_mode c l' × (need l'.led_mode l' b ≤ 401)
unfolding led_command set_led_opmode mode_of hue_color
command-Aims cmd c l b e = ground arith

keeps_start : {b : ℕ} (cmd : LedCmd) (l : Led) → l.start_tm ≤ b → (led_command cmd l).start_tm ≤ b
unfolding led_command set_led_opmode
keeps_start cmd l s = s

-- A pattern that ends by itself is over within 401 rounds that are 10 ms or more apart, if no
-- command comes, and leaves its colour: white after LED_IDLE_CMD and LED_QCQUIT_CMD, green after
-- LED_INUSE_CMD, red after LED_BINFULL_CMD, dark after LED_INITOK_CMD, LED_UNLOCK_CMD,
-- LED_LOCK_CMD and LED_INVALID_CMD.
pub pattern-ends :
    (cmd : LedCmd) (c : Color) (l : Led) (b : ℕ) (ts : List Times)
    → final_color cmd ≡ some c
    → l.start_tm ≤ b
    → Paced b ts
    → 401 ≤ length ts
    → let l' = rounds ts (led_command cmd l) in (l'.led_mode ≡ led_idle_mode) × (l'.strip ≡ c)
pattern-ends cmd c l b ts e s p h =
    let (a, n) = command-Aims cmd c l b e in
    rounds-end ts c (led_command cmd l) b a (keeps_start cmd l s) p (omega (arith, n))
