-- ===== src/Diag.antt =====
-- main/diag.c: the factory diagnosis, as a task among other tasks, and the task of its commands
-- The main cover's moves are compiled out, as FEATURE_MAIN_COVER is defined nowhere. Log output and
-- the printed weights are left out. `diag_func` is written by this task alone: it is an argument.
pub mod Alternation
use cat_litter_box.Common.{
  ℕ, zero, suc, ◌+◌, ◌-◌, ◌/◌, Bool, true, false, not, Option, none, some, leb, ltb, ◌==◌,
  if◌then◌else◌,
}
use cat_litter_box.Sensor.{set_tof_sensor_enable}
use cat_litter_box.Motion.{
  Motor, dc_motor, step_motor, scpinout_motor, scpspin_motor, waste_cover_motor, MotorStatus,
  mt_open, mt_close, Direction, forward, reverse, stop, plate_cmd, scp_spin_cmd, scp_inout_cmd,
  waste_cover_cmd, plate, scpinout, waste, scpspin, led, led_qcmode,
}
use cat_litter_box.Clean.World.{Shared, M, pure, starve, ◌>>=◌, ◌>>◌, read, write, delay, send}
use cat_litter_box.Clean.Flags.{Position, at_close, between, at_open, pt_check}
use cat_litter_box.Clean.Wait.{Ret, success, failure, position_matches, motor_run}

pub data DiagMode : Type 0 where
  diag_sensor_rf diag_plate diag_scpinout diag_scpspin diag_waste : DiagMode

-- A round of `wait_diag_operation`: `some` is a `return`. The clock does not go back, so truncated
-- `-` is exact.
unfoldable pub diag_wait_round : Motor → ℕ → MotorStatus → ℕ → M (Option Ret)
diag_wait_round mt timeout status start = do
  delay 10
  ret ← pt_check mt
  if position_matches ret status then pure (some success) else (do
    now ← read (λ s. s.esp_timer_us)
    if leb timeout ((now - start) / 1000)
        then pure (some failure)
        else (do running ← read (motor_run mt); pure (if running then none else some success)))

unfoldable pub diag_wait_loop : ℕ → Motor → ℕ → MotorStatus → ℕ → M Ret
diag_wait_loop zero mt timeout status start = starve
diag_wait_loop (suc fuel) mt timeout status start = do
  found ← diag_wait_round mt timeout status start
  elim found [ some ret ↦ pure ret | none ↦ diag_wait_loop fuel mt timeout status start ]

-- Its result is used by no caller.
unfoldable pub wait_diag_operation : ℕ → Motor → ℕ → MotorStatus → M (Unit {0})
wait_diag_operation fuel mt timeout status = do
  delay 40
  start ← read (λ s. s.esp_timer_us)
  ret ← diag_wait_loop fuel mt timeout status start
  pure tt

abbrev pub same_position : Position → Position → Bool
same_position at_open at_open = true
same_position at_close at_close = true
same_position between between = true
same_position _ _ = false

-- `if (pt_check(...) != pos) ...`
unfoldable pub unless_at : Motor → Position → M (Unit {0}) → M (Unit {0})
unless_at mt pos body = do ret ← pt_check mt; if same_position ret pos then pure tt else body

unfoldable pub move_scoop_out : ℕ → M (Unit {0})
move_scoop_out fuel = unless_at (dc_motor scpinout_motor) at_open (do
  send (scpinout scp_inout_cmd 0 forward 10000)
  wait_diag_operation fuel (dc_motor scpinout_motor) 10000 mt_open)

unfoldable pub start_diag_mode : ℕ → DiagMode → M (Unit {0})
start_diag_mode fuel diag_sensor_rf =
    write (λ s. record s { sensor = set_tof_sensor_enable true s.sensor })
start_diag_mode fuel diag_plate = send (plate plate_cmd 0 forward 0)
start_diag_mode fuel diag_scpinout =
    unless_at (dc_motor scpinout_motor) at_open (send (scpinout scp_inout_cmd 0 forward 10000))
start_diag_mode fuel diag_scpspin = do
  move_scoop_out fuel
  send (scpspin scp_spin_cmd 360 forward 15000)
start_diag_mode fuel diag_waste = do
  move_scoop_out fuel
  unless_at (step_motor waste_cover_motor) at_open (send (waste waste_cover_cmd 0 forward 15000))

-- `do { delay; if (!get_stepmotor_run(SCPSPIN_MOTOR)) break; } while (1)`
unfoldable pub until_spin_stopped : ℕ → M (Unit {0})
until_spin_stopped zero = starve
until_spin_stopped (suc fuel) = do
  delay 50
  running ← read (motor_run (step_motor scpspin_motor))
  elim running [ true ↦ until_spin_stopped fuel | false ↦ pure tt ]

-- The same loop, which also ends at the origin, where it stops the motor.
unfoldable pub until_spin_origin : ℕ → M (Unit {0})
until_spin_origin zero = starve
until_spin_origin (suc fuel) = do
  delay 50
  ret ← pt_check (step_motor scpspin_motor)
  elim (same_position ret at_open) [
    | true ↦ send (scpspin scp_spin_cmd 0 stop 0)
    | false ↦ do
      running ← read (motor_run (step_motor scpspin_motor))
      elim running [ true ↦ until_spin_origin fuel | false ↦ pure tt ]
  ]

unfoldable pub finish_diag_waste : ℕ → M (Unit {0})
finish_diag_waste fuel = do
  unless_at (step_motor waste_cover_motor) at_close (do
    send (waste waste_cover_cmd 0 reverse 15000)
    wait_diag_operation fuel (step_motor waste_cover_motor) 15000 mt_close
    send (waste waste_cover_cmd 0 stop 0))
  unless_at (step_motor scpspin_motor) at_open
      (do send (scpspin scp_spin_cmd 360 forward 15000); until_spin_origin fuel)
  send (scpspin scp_spin_cmd 90 reverse 10000)
  until_spin_stopped fuel
  send (scpinout scp_inout_cmd 0 reverse 10000)
  wait_diag_operation fuel (dc_motor scpinout_motor) 10000 mt_close
  send (scpinout scp_inout_cmd 0 stop 0)
  send (scpspin scp_spin_cmd 20 reverse 5000)
  until_spin_stopped fuel

unfoldable pub finish_diag_mode : ℕ → DiagMode → M (Unit {0})
finish_diag_mode fuel diag_sensor_rf =
    write (λ s. record s { sensor = set_tof_sensor_enable false s.sensor })
finish_diag_mode fuel diag_plate = send (plate plate_cmd 0 stop 0)
finish_diag_mode fuel diag_scpinout = move_scoop_out fuel
finish_diag_mode fuel diag_scpspin = send (scpspin scp_spin_cmd 0 stop 0)
finish_diag_mode fuel diag_waste = finish_diag_waste fuel

-- `if (diag_func >= 2) diag_func = 0`
abbrev pub wrapped : ℕ → ℕ
wrapped diag_func = if leb 2 diag_func then 0 else diag_func

-- The function of a motor that goes forward at 0 and back at 1.
abbrev pub by_func : ℕ → M (Unit {0}) → M (Unit {0}) → M (Unit {0})
by_func diag_func ahead back =
    if diag_func == 0 then ahead else if diag_func == 1 then back else pure tt

-- Its result is the new `diag_func`.
unfoldable pub next_diag_func : DiagMode → ℕ → M ℕ
next_diag_func diag_sensor_rf diag_func = pure diag_func
next_diag_func diag_plate diag_func = do
  by_func (wrapped diag_func) (send (plate plate_cmd 0 forward 0))
      (send (plate plate_cmd 0 reverse 0))
  pure (wrapped diag_func)
next_diag_func diag_scpinout diag_func = do
  by_func (wrapped diag_func)
      (unless_at (dc_motor scpinout_motor) at_open (send (scpinout scp_inout_cmd 0 forward 10000)))
      (unless_at (dc_motor scpinout_motor) at_close (send (scpinout scp_inout_cmd 0 reverse 10000)))
  pure (wrapped diag_func)
next_diag_func diag_scpspin diag_func = do
  by_func (wrapped diag_func) (send (scpspin scp_spin_cmd 360 forward 15000))
      (send (scpspin scp_spin_cmd 360 reverse 15000))
  pure (wrapped diag_func)
next_diag_func diag_waste diag_func = do
  by_func (wrapped diag_func)
      (unless_at (step_motor waste_cover_motor) at_open
        (send (waste waste_cover_cmd 0 forward 15000)))
      (unless_at (step_motor waste_cover_motor) at_close
        (send (waste waste_cover_cmd 0 reverse 15000)))
  pure (wrapped diag_func)

-- `diag_sensor_rf`, which prints two weights.
unfoldable pub diag_sensor_round : DiagMode → M (Unit {0})
diag_sensor_round diag_sensor_rf = delay 500
diag_sensor_round diag_plate = pure tt
diag_sensor_round diag_scpinout = pure tt
diag_sensor_round diag_scpspin = pure tt
diag_sensor_round diag_waste = pure tt

unfoldable pub next_func : DiagMode → ℕ → M ℕ
next_func mode diag_func = do
  next ← read (λ s. s.diag_next_func)
  elim next [
    | true ↦ do
      diag_func' ← next_diag_func mode (diag_func + 1)
      write (λ s. record s { diag_next_func = false })
      pure diag_func'
    | false ↦ pure diag_func
  ]

-- The rounds of `do_diag_mode`.
unfoldable pub diag_loop : ℕ → DiagMode → ℕ → M (Unit {0})
diag_loop zero mode diag_func = starve
diag_loop (suc fuel) mode diag_func = do
  step ← read (λ s. s.diag_next_step)
  elim step [
    | true ↦ write (λ s. record s { diag_next_step = false })
    | false ↦ do
      diag_func' ← next_func mode diag_func
      diag_sensor_round mode
      delay 10
      diag_loop fuel mode diag_func'
  ]

unfoldable pub do_diag_mode : ℕ → DiagMode → M (Unit {0})
do_diag_mode fuel mode = do
  start_diag_mode fuel mode
  diag_loop fuel mode 0
  finish_diag_mode fuel mode

unfoldable pub until_key_released : ℕ → M (Unit {0})
until_key_released zero = starve
until_key_released (suc fuel) = do
  held ← read (λ s. s.keyclean_status)
  elim held [ true ↦ do delay 10; until_key_released fuel | false ↦ delay 100 ]

-- Up to `system_reset(REASON_DIAG)`.
unfoldable pub diag_process_task : ℕ → M (Unit {0})
diag_process_task fuel = do
  send (led led_qcmode)
  until_key_released fuel
  write (λ s. record s { diag_next_step = false })
  write (λ s. record s { diag_next_func = false })
  do_diag_mode fuel diag_sensor_rf
  do_diag_mode fuel diag_plate
  do_diag_mode fuel diag_scpinout
  do_diag_mode fuel diag_scpspin
  do_diag_mode fuel diag_waste

pub data DiagCmd : Type 0 where
  diag_idle_cmd diag_next_step_cmd diag_next_func_cmd : DiagCmd

-- `diag_cmd_task`, at a message
unfoldable pub diag_cmd : DiagCmd → Shared → Shared
diag_cmd diag_idle_cmd s = s
diag_cmd diag_next_step_cmd s = record s { diag_next_step = true }
diag_cmd diag_next_func_cmd s = record s { diag_next_func = true }
