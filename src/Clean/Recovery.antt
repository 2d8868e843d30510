-- ===== src/Clean/Recovery.antt =====
-- main/motor.c: `do_clean_resume_recovery`, the way back to the idle position.
use cat_litter_box.Common.{ℕ, Bool, false, if◌then◌else◌}
use cat_litter_box.Sensor.{
  has_bit, get_pt_status, set_tof_sensor_enable, pt_bit_waste_close, pt_bit_scp_in,
  pt_bit_mcover_open,
}
use cat_litter_box.Motion.{
  dc_motor, step_motor, main_cover_motor, scpinout_motor, waste_cover_motor, mt_close, reverse,
  stop, plate_cmd, scp_spin_cmd, scp_inout_cmd, waste_cover_cmd, main_cover_cmd, plate, scpinout,
  main_cover, waste, scpspin_ex, led, led_idle, led_error,
}
use cat_litter_box.Clean.World.{
  M, pure, ◌>>=◌, ◌>>◌, with_label, read, write, delay, send, set_running,
}
use cat_litter_box.Clean.Wait.{Ret, success, failure, or_exit, await, drive_main_cover_soft}
use cat_litter_box.Clean.Origin.{motor_calibration_recovery}

-- `(get_pt_status() & mask) != 0`
unfoldable pub read_bit : ℕ → M Bool
read_bit mask = read (λ s. has_bit (get_pt_status s.sensor) mask)

unfoldable pub write_pause : Bool → M (Unit {0})
write_pause b = write (λ s. record s { clean_pause_flag = b })

unfoldable pub write_recovery : Bool → M (Unit {0})
write_recovery b = write (λ s. record s { clean_resume_recovery_requested = b })

unfoldable pub write_tof_enable : Bool → M (Unit {0})
write_tof_enable b = write (λ s. record s { sensor = set_tof_sensor_enable b s.sensor })

-- Step 1
unfoldable pub recover_waste_cover : ℕ → M (Unit {0})
recover_waste_cover fuel = do
  is_waste_closed ← read_bit pt_bit_waste_close
  if is_waste_closed then pure tt else (do
    send (waste waste_cover_cmd 0 reverse 15000)
    delay 200
    await fuel (step_motor waste_cover_motor) 15000 mt_close
    send (waste waste_cover_cmd 0 stop 0)
    delay 300)

-- Step 3
unfoldable pub recover_scoop : ℕ → M (Unit {0})
recover_scoop fuel = do
  is_scp_in ← read_bit pt_bit_scp_in
  if is_scp_in then pure tt else (do
    send (scpinout scp_inout_cmd 0 reverse 15000)
    delay 200
    await fuel (dc_motor scpinout_motor) 15000 mt_close
    send (scpinout scp_inout_cmd 0 stop 0)
    delay 300)

-- Step 4
unfoldable pub recover_main_cover : ℕ → M (Unit {0})
recover_main_cover fuel = do
  is_mcover_open ← read_bit pt_bit_mcover_open
  if is_mcover_open
      then (do
        drive_main_cover_soft fuel reverse 100
        delay 200
        await fuel (dc_motor main_cover_motor) 10000 mt_close
        send (main_cover main_cover_cmd 0 stop 0)
        delay 300)
      else pure tt

-- Step 5 and `return 0`
unfoldable pub reset_to_idle : M Ret
reset_to_idle = do
  set_running false
  write_pause false
  write_recovery false
  write (λ s. record s { emergency_stop_flag = false })
  write_tof_enable false
  send (plate plate_cmd 0 stop 0)
  send (scpspin_ex scp_spin_cmd 0 stop 0 0 false)
  send (scpinout scp_inout_cmd 0 stop 0)
  send (waste waste_cover_cmd 0 stop 0)
  send (main_cover main_cover_cmd 0 stop 0)
  send (led led_idle)
  pure success

-- The label `recovery_abort`.
unfoldable pub recovery_abort : M Ret
recovery_abort = do
  set_running false
  write_pause false
  write_recovery false
  send (plate plate_cmd 0 stop 0)
  send (main_cover main_cover_cmd 0 stop 0)
  send (scpinout scp_inout_cmd 0 stop 0)
  send (waste waste_cover_cmd 0 stop 0)
  send (scpspin_ex scp_spin_cmd 0 stop 0 0 false)
  write_tof_enable false
  send (led led_error)
  pure failure

-- Step 2
unfoldable pub recalibrate : ℕ → M (Unit {0})
recalibrate fuel = do calibrated ← motor_calibration_recovery fuel; or_exit calibrated

unfoldable pub recovery_body : ℕ → M Ret
recovery_body fuel = do
  write_pause false
  delay 300
  recover_waste_cover fuel
  recalibrate fuel
  delay 300
  recover_scoop fuel
  recover_main_cover fuel
  reset_to_idle

unfoldable pub do_clean_resume_recovery : ℕ → M Ret
do_clean_resume_recovery fuel = with_label (recovery_body fuel) recovery_abort
