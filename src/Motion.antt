-- ===== src/Motion.antt =====
-- The vocabulary of the motor code: main/motor.h, main/main.h. A `uint32_t` message field that only
-- ever holds the constants of one enum is that enum.
use cat_litter_box.Common.{ℕ, Bool}

pub data StepMotor : Type 0 where
  scpspin_motor waste_cover_motor : StepMotor

pub data DcMotor : Type 0 where
  plate_motor main_cover_motor scpinout_motor : DcMotor

-- The pair `(sel, mt)` of `pt_check` and `wait_motor_operation`.
pub data Motor : Type 0 where
  dc_motor : DcMotor → Motor
  step_motor : StepMotor → Motor

pub data MotorStatus : Type 0 where
  mt_open mt_close mt_middle : MotorStatus

-- The `int` of `pt_check`: -1, 0 and 1.
pub data Position : Type 0 where
  at_close between at_open : Position

pub data MotorCmd : Type 0 where
  waste_cover_cmd plate_cmd scp_inout_cmd scp_spin_cmd main_cover_cmd : MotorCmd
  scp_spin_step_cmd scp_spin_speed_cmd waste_step_cmd emergency_reset_cmd : MotorCmd

pub data Direction : Type 0 where
  forward reverse stop : Direction

pub data LedCmd : Type 0 where
  led_idle led_initok led_pairing led_unlock led_lock led_invalid led_inuse : LedCmd
  led_cleaning led_manage led_binfull led_error led_qcmode led_qcquit led_pause : LedCmd

-- `mt_message_t`
pub record MtMessage : Type 0 where
  pub task_id : ℕ
  pub cmd : MotorCmd
  pub angle : ℕ
  pub direction : Direction
  pub speed : ℕ
  pub timeout : ℕ
  pub cal : Bool

-- What a task hands to another task: the call of `send_plate_msg`, `send_scpinout_msg`,
-- `send_main_motor_msg`, `send_waste_motor_msg`, `send_scpspin_motor_msg(_ex)` or
-- `send_led_cmd_msg`, with its arguments.
pub data Action : Type 0 where
  plate : (cmd : MotorCmd) (angle : ℕ) (dir : Direction) (timeout : ℕ) → Action
  scpinout : (cmd : MotorCmd) (angle : ℕ) (dir : Direction) (timeout : ℕ) → Action
  main_cover : (cmd : MotorCmd) (angle : ℕ) (dir : Direction) (timeout : ℕ) → Action
  waste : (cmd : MotorCmd) (angle : ℕ) (dir : Direction) (timeout : ℕ) → Action
  scpspin : (cmd : MotorCmd) (angle : ℕ) (dir : Direction) (timeout : ℕ) → Action
  scpspin_ex :
      (cmd : MotorCmd) (angle : ℕ) (dir : Direction) (speed timeout : ℕ) (cal : Bool) → Action
  led : LedCmd → Action
