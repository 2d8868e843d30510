-- ===== src/Clean/Flags.antt =====
-- main/motor.c: the limit sensors as a motor's position, and the flags that other tasks raise.
-- Log output is left out.
use cat_litter_box.Common.{ℕ, Bool, true, false, ◌&&◌, if◌then◌else◌}
use cat_litter_box.Sensor.{
  has_bit, get_pt_status, pt_bit_scp_spin_st, pt_bit_scp_out, pt_bit_waste_close,
  pt_bit_mcover_open, pt_bit_scp_spin_ed, pt_bit_scp_in, pt_bit_waste_open, pt_bit_mcover_close,
}
use cat_litter_box.Motion.{
  Motor, dc_motor, step_motor, plate_motor, main_cover_motor, scpinout_motor, scpspin_motor,
  waste_cover_motor, plate_cmd, scp_spin_cmd, scp_inout_cmd, waste_cover_cmd, main_cover_cmd, stop,
  plate, scpinout, main_cover, waste, scpspin_ex, led, led_pause,
}
pub use cat_litter_box.Motion.{Position, at_close, between, at_open}
use cat_litter_box.Clean.World.{M, pure, ◌>>=◌, ◌>>◌, read, write, send}

-- `pt_check` on a value of `get_pt_status`.
unfoldable pub pt_check_status : Motor → ℕ → Position
pt_check_status (step_motor waste_cover_motor) status =
    if has_bit status pt_bit_waste_close
    then at_close
    else if has_bit status pt_bit_waste_open
    then at_open
    else between
pt_check_status (step_motor scpspin_motor) status =
    if has_bit status pt_bit_scp_spin_st && has_bit status pt_bit_scp_spin_ed
    then at_open
    else between
pt_check_status (dc_motor main_cover_motor) status =
    if has_bit status pt_bit_mcover_close
    then at_close
    else if has_bit status pt_bit_mcover_open
    then at_open
    else between
pt_check_status (dc_motor scpinout_motor) status =
    if has_bit status pt_bit_scp_in
    then at_close
    else if has_bit status pt_bit_scp_out
    then at_open
    else between
pt_check_status (dc_motor plate_motor) status = between

unfoldable pub pt_check : Motor → M Position
pt_check mt = read (λ s. pt_check_status mt (get_pt_status s.sensor))

-- `emergency_stop_flag || clean_resume_recovery_requested`: two reads, the second only if the
-- first gives false.
unfoldable pub stop_requested : M Bool
stop_requested = do
  estop ← read (λ s. s.emergency_stop_flag)
  if estop then pure true else read (λ s. s.clean_resume_recovery_requested)

-- Run by the key task.
unfoldable pub toggle_clean_pause : M (Unit {0})
toggle_clean_pause = do
  paused ← read (λ s. s.clean_pause_flag)
  if paused
      then (do
        write (λ s. record s { clean_pause_flag = false })
        write (λ s. record s { clean_resume_recovery_requested = true }))
      else (do
        write (λ s. record s { clean_pause_flag = true })
        send (plate plate_cmd 0 stop 0)
        send (scpspin_ex scp_spin_cmd 0 stop 0 0 false)
        send (scpinout scp_inout_cmd 0 stop 0)
        send (waste waste_cover_cmd 0 stop 0)
        send (main_cover main_cover_cmd 0 stop 0)
        send (led led_pause))

unfoldable pub set_emergency_stop : M (Unit {0})
set_emergency_stop = do
  write (λ s. record s { emergency_stop_flag = true })
  send (plate plate_cmd 0 stop 0)
  send (scpinout scp_inout_cmd 0 stop 0)
  send (main_cover main_cover_cmd 0 stop 0)
  send (waste waste_cover_cmd 0 stop 0)
  send (scpspin_ex scp_spin_cmd 0 stop 0 0 false)

unfoldable pub clear_emergency_stop : M (Unit {0})
clear_emergency_stop = write (λ s. record s { emergency_stop_flag = false })
