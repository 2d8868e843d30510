-- ===== src/Clean/Origin.antt =====
-- main/motor.c: `scp_spin_find_st_origin` and the two calibrations. A search loop ends after 30 s by
-- the clock; the fuel bounds its rounds, and the calls that the search makes of itself.
use cat_litter_box.Common.{ℕ, zero, suc, ◌-◌, ◌/◌, Bool, true, false, ltb, if◌then◌else◌}
use cat_litter_box.Sensor.{has_bit, get_pt_status, pt_bit_scp_spin_st, pt_bit_scp_in}
use cat_litter_box.Motion.{
  dc_motor, step_motor, scpspin_motor, scpinout_motor, mt_close, mt_middle, Direction, forward,
  reverse, stop, scp_spin_cmd, scp_inout_cmd, scpspin_ex, scpinout,
}
use cat_litter_box.Clean.World.{
  M, pure, goto_exit, starve, ◌>>=◌, ◌>>◌, with_label, read, delay, send,
}
use cat_litter_box.Clean.Flags.{clear_emergency_stop}
use cat_litter_box.Clean.Wait.{Ret, success, failure, or_exit, await}

-- `emergency_stop_flag` alone, in the calibrations.
unfoldable pub read_estop : M Bool
read_estop = read (λ s. s.emergency_stop_flag)

-- `if (emergency_stop_flag) goto label;`
unfoldable pub estop_exits : M (Unit {0})
estop_exits = do estop ← read_estop; if estop then goto_exit else pure tt

-- `(get_pt_status() & PT_BIT_SCP_SPIN_ST) != 0`
unfoldable pub on_st_sensor : M Bool
on_st_sensor = read (λ s. has_bit (get_pt_status s.sensor) pt_bit_scp_spin_st)

abbrev pub same : Bool → Bool → Bool
same true b = b
same false true = false
same false false = true

-- A search loop: it ends when the ST sensor reads `want`, or 30 s after `st_time`; after an
-- emergency stop the spin motor is stopped and the caller returns -1.
unfoldable pub seek_loop : ℕ → Bool → ℕ → M Ret
seek_loop zero want st_time = starve
seek_loop (suc fuel) want st_time = do
  now ← read (λ s. s.esp_timer_us)
  if ltb ((now - st_time) / 1000) 30000
      then (do
        estop ← read_estop
        if estop then (do send (scpspin_ex scp_spin_cmd 0 stop 0 0 false); pure failure) else (do
          on_st ← on_st_sensor
          if same on_st want
              then pure success
              else (delay 10 >>= λ _. seek_loop fuel want st_time)))
      else pure success

-- Turn, search, stop.
unfoldable pub seek : ℕ → Direction → Bool → M (Unit {0})
seek fuel dir want = do
  send (scpspin_ex scp_spin_cmd 360 dir 100 30000 false)
  st_time ← read (λ s. s.esp_timer_us)
  ret ← seek_loop fuel want st_time
  or_exit ret
  send (scpspin_ex scp_spin_cmd 0 stop 0 0 false)

-- The body of `scp_spin_find_st_origin`, whose early `return -1` is an exit. `forwards` is
-- `search_dir == 1`.
unfoldable pub find_st_origin_body : ℕ → ℕ → Bool → M (Unit {0})
find_st_origin_body fuel zero forwards = starve
find_st_origin_body fuel (suc calls) forwards = do
  estop_exits
  on_st ← on_st_sensor
  if on_st
      then (do seek fuel reverse false; delay 100; estop_exits; seek fuel forward true)
      else (do
        seek fuel (if forwards then forward else reverse) true
        delay 100
        estop_exits
        find_st_origin_body fuel calls forwards)

-- `int` of a function whose body ends by `return 0`.
unfoldable pub returning : M (Unit {0}) → M Ret → M Ret
returning body exit = with_label (body >> pure success) exit

unfoldable pub scp_spin_find_st_origin : ℕ → Bool → M Ret
scp_spin_find_st_origin fuel forwards =
    returning (find_st_origin_body fuel fuel forwards) (pure failure)

-- `if (scp_spin_find_st_origin(...) != 0) goto label;`
unfoldable pub find_origin : ℕ → Bool → M (Unit {0})
find_origin fuel forwards = do ret ← scp_spin_find_st_origin fuel forwards; or_exit ret

-- The label `calib_abort`, and `calib_rec_abort`, which is the same.
unfoldable pub calib_abort : M Ret
calib_abort = do
  send (scpspin_ex scp_spin_cmd 0 stop 0 0 false)
  send (scpinout scp_inout_cmd 0 stop 0)
  pure failure

-- The branch of `motor_calibration` for a scoop that is out.
unfoldable pub calibrate_from_out : ℕ → M (Unit {0})
calibrate_from_out fuel = do
  find_origin fuel false
  estop_exits
  send (scpspin_ex scp_spin_cmd 90 forward 100 10000 false)
  delay 150
  await fuel (step_motor scpspin_motor) 10000 mt_middle
  estop_exits
  send (scpinout scp_inout_cmd 0 reverse 15000)
  delay 150
  await fuel (dc_motor scpinout_motor) 15000 mt_close
  send (scpinout scp_inout_cmd 0 stop 0)
  estop_exits
  find_origin fuel false

unfoldable pub calibration_body : ℕ → M (Unit {0})
calibration_body fuel = do
  clear_emergency_stop
  is_scp_in ← read (λ s. has_bit (get_pt_status s.sensor) pt_bit_scp_in)
  if is_scp_in then find_origin fuel true else calibrate_from_out fuel
  estop_exits
  send (scpspin_ex scp_spin_cmd 70 reverse 100 10000 false)
  delay 150
  await fuel (step_motor scpspin_motor) 10000 mt_middle
  estop_exits

unfoldable pub motor_calibration : ℕ → M Ret
motor_calibration fuel = returning (calibration_body fuel) calib_abort

unfoldable pub calibration_recovery_body : ℕ → M (Unit {0})
calibration_recovery_body fuel = do
  clear_emergency_stop
  find_origin fuel false
  estop_exits
  delay 200
  send (scpspin_ex scp_spin_cmd 75 forward 100 10000 false)
  delay 200
  await fuel (step_motor scpspin_motor) 10000 mt_middle
  send (scpspin_ex scp_spin_cmd 0 stop 0 0 false)
  delay 300
  estop_exits
  send (scpinout scp_inout_cmd 0 reverse 15000)
  delay 200
  await fuel (dc_motor scpinout_motor) 15000 mt_close
  send (scpinout scp_inout_cmd 0 stop 0)
  delay 300
  estop_exits
  find_origin fuel false
  delay 200
  send (scpspin_ex scp_spin_cmd 70 reverse 100 10000 false)
  delay 200
  await fuel (step_motor scpspin_motor) 10000 mt_middle
  send (scpspin_ex scp_spin_cmd 0 stop 0 0 false)
  delay 300

unfoldable pub motor_calibration_recovery : ℕ → M Ret
motor_calibration_recovery fuel = returning (calibration_recovery_body fuel) calib_abort
