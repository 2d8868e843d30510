-- ===== src/StepMotor.antt =====
-- main/step_motor_control.c: the waste cover's motor, stepped by a timer, and the scoop's spin motor,
-- stepped by a PWM timer. Drivers and queues are not part of the repository: what the code writes to
-- them is kept in the record of each motor, a received message is an argument.
pub mod WasteTurns
pub mod SpinTurns
use cat_litter_box.Common.{
  ℕ, ◌+◌, ◌-◌, ◌*◌, ◌/◌, ◌%◌, ◌^◌, Bool, true, false, not, ◌&&◌, ltb, leb, ◌==◌, Option, none, some,
  if◌then◌else◌,
}
use cat_litter_box.Common.Int.{ℤ, pos, negsuc, ◌-ℤ◌, leb_ℤ}
use cat_litter_box.Motion.{
  StepMotor, scpspin_motor, waste_cover_motor, step_motor, MtMessage, waste_cover_cmd,
  waste_step_cmd, scp_spin_cmd, scp_spin_step_cmd, scp_spin_speed_cmd, Direction, forward, reverse,
  stop,
}
use cat_litter_box.Clean.Flags.{Position, at_close, between, at_open, pt_check_status}

abbrev pub u32 : ℕ → ℕ
u32 n = n % 2 ^ 32

-- A `uint32_t` passed as an `int`.
abbrev pub to_int : ℕ → ℤ
to_int n = if ltb n (2 ^ 31) then pos n else negsuc (2 ^ 32 - 1 - n)

-- The static variables `waste_motor_...`, the levels of WASTE_PWM_IN1, WASTE_PWM_IN2 and WASTE_EN,
-- and whether the periodic timer runs.
pub record Waste : Type 0 where
  pub steps : ℤ
  pub phase : ℕ
  pub dir : Bool
  pub run : Bool
  pub in1 : Bool
  pub in2 : Bool
  pub en : Bool
  pub timer : Bool

unfoldable pub waste_init : Waste
waste_init = record {
  steps = pos 0;
  phase = 0;
  dir = false;
  run = false;
  in1 = false;
  in2 = false;
  en = false;
  timer = false;
}

abbrev pub waste_target_steps : ℕ
waste_target_steps = 1020 + 100

unfoldable pub waste_motor_stop : Waste → Waste
waste_motor_stop w = record w {
  run = false;
  timer = false;
  in1 = false;
  in2 = false;
  en = false;
  steps = pos 0;
}

-- `phase_table`; its rows are 0 to 3.
abbrev pub phase_table : ℕ → Bool × Bool
phase_table phase =
    if phase == 0
    then (true, false)
    else if phase == 1
    then (true, true)
    else if phase == 2
    then (false, true)
    else (false, false)

-- `waste_motor_timer_callback`; `waste_motor_phase - 1 + 4`, an `int`, is 3 more than the phase.
unfoldable pub waste_tick : Waste → Waste
waste_tick w =
    if not w.run
    then w
    else let (a, b) = phase_table w.phase in
      let left = w.steps -ℤ pos 1 in
      let ended = leb_ℤ left (pos 0) in
      record w {
        in1 = a;
        in2 = b;
        steps = left;
        run = (if ended then false else w.run);
        timer = (if ended then false else w.timer);
        en = (if ended then false else w.en);
        phase = (if w.dir then (w.phase + 1) % 4 else (w.phase + 3) % 4);
      }

unfoldable pub waste_motor_move : ℤ → Bool → Waste → Waste
waste_motor_move steps dir w =
    if leb_ℤ steps (pos 0)
    then w
    else record w { steps = steps; dir = dir; phase = 0; run = true; en = true; timer = true }

-- The branches on `msg.direction`.
abbrev pub waste_drive : ℤ → Direction → Waste → Waste
waste_drive steps forward w = waste_motor_move steps true w
waste_drive steps reverse w = waste_motor_move steps false w
waste_drive steps stop w = waste_motor_stop w

unfoldable pub waste_message : Option MtMessage → Waste → Waste
waste_message none w = w
waste_message (some msg) w = elim msg.cmd [
  | waste_cover_cmd ↦ waste_drive (pos waste_target_steps) msg.direction w
  | waste_step_cmd ↦ waste_drive (to_int msg.angle) msg.direction w
  | _ ↦ w
]

-- The auto-stop at the end of a round.
unfoldable pub waste_auto_stop : Position → Waste → Waste
waste_auto_stop at_open w = if w.run && w.dir then waste_motor_stop w else w
waste_auto_stop at_close w = if w.run && not w.dir then waste_motor_stop w else w
waste_auto_stop between w = w

-- A round of `waste_motor_cmd_task`.
unfoldable pub waste_round : Option MtMessage → ℕ → Waste → Waste
waste_round msg pt w =
    waste_auto_stop (pt_check_status (step_motor waste_cover_motor) pt) (waste_message msg w)

-- The static variables of the spin motor, the level of its EN and NSLEEP pins (`en`) and of its DIR
-- pin, and whether its PWM timer runs.
pub record Spin : Type 0 where
  pub cnt : ℕ
  pub steps : ℕ
  pub dir : Bool
  pub run : Bool
  pub en : Bool
  pub pin_dir : Bool
  pub timer : Bool
  pub period : ℕ
  pub tick : ℕ

unfoldable pub spin_init : Spin
spin_init = record {
  cnt = 0;
  steps = 0;
  dir = false;
  run = false;
  en = false;
  pin_dir = true;
  timer = false;
  period = 2000;
  tick = 0;
}

-- `if (!check_spin_mt_on()) step_motor_enable(SCPSPIN_MOTOR, 0);`
abbrev pub release : Bool → Bool → Bool
release always_on en = if always_on then en else false

-- `mcpwm_timer_full_cb`
unfoldable pub spin_tick : Bool → Spin → Spin
spin_tick always_on s =
    if not s.run
    then s
    else let cnt' = u32 (s.cnt + 1) in
      if leb s.steps cnt'
      then record s { cnt = cnt'; timer = false; en = release always_on s.en; run = false }
      else record s { cnt = cnt' }

-- Both modes end alike: the safe one waits 10 ms at most for the callback, which only clears `run`
-- and releases the motor, as the function itself does next.
unfoldable pub scpspin_stop : Bool → Spin → Spin
scpspin_stop always_on s =
    if not s.run
    then s
    else record s { timer = false; en = release always_on s.en; run = false; cnt = 0; steps = 0 }

unfoldable pub scpspin_speed_dir : Bool → Spin → Spin
scpspin_speed_dir slower s =
    let period' = (if slower then u32 (s.period + 100) else u32 (s.period + 2 ^ 32 - 100)) in
    record s { period = period'; tick = period' / 2 }

unfoldable pub scpspin_speed : ℕ → Spin → Spin
scpspin_speed period s = record s { period = period; tick = period / 2 }

unfoldable pub scpspin_move : ℕ → Bool → Spin → Spin
scpspin_move steps direction s = record s {
  pin_dir = direction;
  cnt = 0;
  steps = steps;
  run = true;
  dir = direction;
  en = true;
  timer = true;
}

-- DEG_TO_STEPS is a `float` computation, a parameter: degrees to steps.
module _ (deg_to_steps : ℕ → ℕ) where
  -- The `switch` of `scpspin_motor_cmd_task`.
  unfoldable pub spin_message : Bool → MtMessage → Spin → Spin
  spin_message always_on msg s = elim msg.cmd [
    | scp_spin_cmd ↦ elim msg.direction [
      | forward ↦ scpspin_move (deg_to_steps msg.angle) true s
      | reverse ↦ scpspin_move (deg_to_steps msg.angle) false s
      | stop ↦ scpspin_stop always_on s
    ]
    | scp_spin_step_cmd ↦ elim msg.direction [
      | forward ↦ scpspin_move msg.angle true s
      | reverse ↦ scpspin_move msg.angle false s
      | stop ↦ s
    ]
    | scp_spin_speed_cmd ↦
        if not (msg.angle == 0) then scpspin_speed msg.angle s else elim msg.direction [
          | forward ↦ scpspin_speed_dir true s
          | _ ↦ scpspin_speed_dir false s
        ]
    | _ ↦ s
  ]

-- `get_stepmotor_run`, `get_stepmotor_dir`, `get_waste_step_cnt`, `get_scpspin_cnt` and
-- `get_scpspin_remain_cnt`.
abbrev pub get_stepmotor_run : StepMotor → Waste → Spin → Bool
get_stepmotor_run waste_cover_motor w s = w.run
get_stepmotor_run scpspin_motor w s = s.run

abbrev pub get_stepmotor_dir : StepMotor → Waste → Spin → Bool
get_stepmotor_dir waste_cover_motor w s = w.dir
get_stepmotor_dir scpspin_motor w s = s.dir

unfoldable pub get_scpspin_remain_cnt : Spin → ℤ
get_scpspin_remain_cnt s = to_int (u32 (s.steps + 2 ^ 32 - s.cnt))
