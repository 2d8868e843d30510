-- ===== src/Clean/Exits/SpinParts.antt =====
-- The calibrations, the recovery and the drives of main/motor.c keep `spin_mt_always_on`.
use cat_litter_box.Common.{ℕ, zero, suc, Bool}
use cat_litter_box.Motion.{Direction}
use cat_litter_box.Clean.Flags.{clear_emergency_stop}
use cat_litter_box.Clean.Wait.{duty_loop, drive_main_cover_soft}
use cat_litter_box.Clean.Origin.{
  read_estop, estop_exits, on_st_sensor, seek_loop, seek, find_st_origin_body, returning,
  scp_spin_find_st_origin, find_origin, calib_abort, calibrate_from_out, calibration_body,
  motor_calibration, calibration_recovery_body, motor_calibration_recovery,
}
use cat_litter_box.Clean.Recovery.{
  read_bit, write_pause, write_recovery, write_tof_enable, recover_waste_cover, recover_scoop,
  recover_main_cover, reset_to_idle, recalibrate, recovery_body,
}
use cat_litter_box.Clean.Cycle.{spin_to, scoop_in, calibrate}
use cat_litter_box.Clean.Exits.Spin.{
  KeepsSpin, spin_rules, pure-KeepsSpin, read-KeepsSpin, delay-KeepsSpin, send-KeepsSpin,
  bind-KeepsSpin, if-KeepsSpin, await-KeepsSpin,
}

duty_loop-KeepsSpin :
    (fuel : ℕ) (dir : Direction) (duty t : ℕ) → KeepsSpin (duty_loop fuel dir duty t)
unfolding duty_loop
duty_loop-KeepsSpin zero dir duty t = search spin_rules
duty_loop-KeepsSpin (suc fuel) dir duty t =
    if-KeepsSpin _
      (bind-KeepsSpin (send-KeepsSpin _)
        λ _. bind-KeepsSpin (delay-KeepsSpin _) λ _. duty_loop-KeepsSpin fuel dir _ t)
      (pure-KeepsSpin _)

pub drive_main_cover_soft-KeepsSpin :
    (fuel : ℕ) (dir : Direction) (t : ℕ) → KeepsSpin (drive_main_cover_soft fuel dir t)
unfolding drive_main_cover_soft
drive_main_cover_soft-KeepsSpin fuel dir t = search (spin_rules, duty_loop-KeepsSpin) depth 12

pub spin_to-KeepsSpin :
    (fuel angle : ℕ) (forwards : Bool) (timeout : ℕ)
    → KeepsSpin (spin_to fuel angle forwards timeout)
unfolding spin_to
spin_to-KeepsSpin fuel angle forwards timeout = search (spin_rules, await-KeepsSpin) depth 8

pub scoop_in-KeepsSpin : (fuel timeout : ℕ) → KeepsSpin (scoop_in fuel timeout)
unfolding scoop_in
scoop_in-KeepsSpin fuel timeout = search (spin_rules, await-KeepsSpin) depth 8

estop_exits-KeepsSpin : KeepsSpin estop_exits
unfolding estop_exits read_estop
estop_exits-KeepsSpin = search spin_rules

read_estop-KeepsSpin : KeepsSpin read_estop
unfolding read_estop
read_estop-KeepsSpin = search spin_rules

on_st_sensor-KeepsSpin : KeepsSpin on_st_sensor
unfolding on_st_sensor
on_st_sensor-KeepsSpin = search spin_rules

clear_emergency_stop-KeepsSpin : KeepsSpin clear_emergency_stop
unfolding clear_emergency_stop
clear_emergency_stop-KeepsSpin = search spin_rules

seek_loop-KeepsSpin :
    (fuel : ℕ) (want : Bool) (st_time : ℕ) → KeepsSpin (seek_loop fuel want st_time)
unfolding seek_loop
seek_loop-KeepsSpin zero want st_time = search spin_rules
seek_loop-KeepsSpin (suc fuel) want st_time = bind-KeepsSpin (read-KeepsSpin _) λ now.
    if-KeepsSpin _
      (bind-KeepsSpin read_estop-KeepsSpin λ estop. if-KeepsSpin estop (search spin_rules) (
        bind-KeepsSpin on_st_sensor-KeepsSpin λ on_st.
          if-KeepsSpin _ (pure-KeepsSpin _)
            (bind-KeepsSpin (delay-KeepsSpin _) λ _. seek_loop-KeepsSpin fuel want st_time)))
      (pure-KeepsSpin _)

seek-KeepsSpin : (fuel : ℕ) (dir : Direction) (want : Bool) → KeepsSpin (seek fuel dir want)
unfolding seek
seek-KeepsSpin fuel dir want = search (spin_rules, seek_loop-KeepsSpin) depth 10

find_st_origin_body-KeepsSpin :
    (fuel calls : ℕ) (forwards : Bool) → KeepsSpin (find_st_origin_body fuel calls forwards)
unfolding find_st_origin_body
find_st_origin_body-KeepsSpin fuel zero forwards = search spin_rules
find_st_origin_body-KeepsSpin fuel (suc calls) forwards = bind-KeepsSpin estop_exits-KeepsSpin λ _.
    bind-KeepsSpin on_st_sensor-KeepsSpin λ on_st.
      if-KeepsSpin on_st (search (spin_rules, estop_exits-KeepsSpin, seek-KeepsSpin) depth 10) (
        bind-KeepsSpin (seek-KeepsSpin _ _ _) λ _. bind-KeepsSpin (delay-KeepsSpin _) λ _.
          bind-KeepsSpin estop_exits-KeepsSpin
            λ _. find_st_origin_body-KeepsSpin fuel calls forwards)

find_origin-KeepsSpin : (fuel : ℕ) (forwards : Bool) → KeepsSpin (find_origin fuel forwards)
unfolding find_origin scp_spin_find_st_origin returning
find_origin-KeepsSpin fuel forwards = search (spin_rules, find_st_origin_body-KeepsSpin) depth 10

calib_abort-KeepsSpin : KeepsSpin calib_abort
unfolding calib_abort
calib_abort-KeepsSpin = search spin_rules

calibrate_from_out-KeepsSpin : (fuel : ℕ) → KeepsSpin (calibrate_from_out fuel)
unfolding calibrate_from_out
calibrate_from_out-KeepsSpin fuel =
    search (spin_rules, estop_exits-KeepsSpin, await-KeepsSpin, find_origin-KeepsSpin) depth 24

calibration_body-KeepsSpin : (fuel : ℕ) → KeepsSpin (calibration_body fuel)
unfolding calibration_body
calibration_body-KeepsSpin fuel =
    search
      (
        spin_rules, clear_emergency_stop-KeepsSpin, estop_exits-KeepsSpin, await-KeepsSpin,
        find_origin-KeepsSpin, calibrate_from_out-KeepsSpin,
      )
      depth 24

pub calibrate-KeepsSpin : (fuel : ℕ) → KeepsSpin (calibrate fuel)
unfolding calibrate motor_calibration returning
calibrate-KeepsSpin fuel =
    search (spin_rules, calibration_body-KeepsSpin, calib_abort-KeepsSpin) depth 8

calibration_recovery_body-KeepsSpin : (fuel : ℕ) → KeepsSpin (calibration_recovery_body fuel)
unfolding calibration_recovery_body
calibration_recovery_body-KeepsSpin fuel =
    search
      (
        spin_rules, clear_emergency_stop-KeepsSpin, estop_exits-KeepsSpin, await-KeepsSpin,
        find_origin-KeepsSpin,
      )
      depth 40

pub recalibrate-KeepsSpin : (fuel : ℕ) → KeepsSpin (recalibrate fuel)
unfolding recalibrate motor_calibration_recovery returning
recalibrate-KeepsSpin fuel =
    search (spin_rules, calibration_recovery_body-KeepsSpin, calib_abort-KeepsSpin) depth 8

pub recover_waste_cover-KeepsSpin : (fuel : ℕ) → KeepsSpin (recover_waste_cover fuel)
unfolding recover_waste_cover read_bit
recover_waste_cover-KeepsSpin fuel = search (spin_rules, await-KeepsSpin) depth 12

pub recover_scoop-KeepsSpin : (fuel : ℕ) → KeepsSpin (recover_scoop fuel)
unfolding recover_scoop read_bit
recover_scoop-KeepsSpin fuel = search (spin_rules, await-KeepsSpin) depth 12

pub recover_main_cover-KeepsSpin : (fuel : ℕ) → KeepsSpin (recover_main_cover fuel)
unfolding recover_main_cover read_bit
recover_main_cover-KeepsSpin fuel =
    search (spin_rules, await-KeepsSpin, drive_main_cover_soft-KeepsSpin) depth 12

write_tof_enable-KeepsSpin : (b : Bool) → KeepsSpin (write_tof_enable b)
unfolding write_tof_enable
write_tof_enable-KeepsSpin b = search spin_rules

pub write_pause-KeepsSpin : (b : Bool) → KeepsSpin (write_pause b)
unfolding write_pause
write_pause-KeepsSpin b = search spin_rules

reset_to_idle-KeepsSpin : KeepsSpin reset_to_idle
unfolding reset_to_idle write_pause write_recovery
reset_to_idle-KeepsSpin = search (spin_rules, write_tof_enable-KeepsSpin) depth 30

pub recovery_body-KeepsSpin : (fuel : ℕ) → KeepsSpin (recovery_body fuel)
unfolding recovery_body
recovery_body-KeepsSpin fuel =
    search
      (
        spin_rules, write_pause-KeepsSpin, recover_waste_cover-KeepsSpin, recalibrate-KeepsSpin,
        recover_scoop-KeepsSpin, recover_main_cover-KeepsSpin, reset_to_idle-KeepsSpin,
      )
      depth 20
