-- ===== src/Clean/Cycle.antt =====
-- main/motor.c: `do_clean`, in the parts that its comments number. FEATURE_SHAKE_SCOOP is not
-- defined.
use cat_litter_box.Common.{ℕ, zero, suc, Bool, true, false, if◌then◌else◌}
use cat_litter_box.Motion.{
  dc_motor, step_motor, main_cover_motor, scpinout_motor, waste_cover_motor, scpspin_motor, mt_open,
  mt_close, mt_middle, forward, reverse, stop, plate_cmd, scp_spin_cmd, scp_inout_cmd,
  waste_cover_cmd, main_cover_cmd, plate, scpinout, main_cover, waste, scpspin_ex, led, led_idle,
  led_cleaning, led_error,
}
use cat_litter_box.Clean.World.{
  M, pure, goto_exit, ◌>>=◌, ◌>>◌, with_label, read, delay, send, set_running, set_spin_always_on,
}
use cat_litter_box.Clean.Flags.{at_close, at_open, pt_check, clear_emergency_stop}
use cat_litter_box.Clean.Wait.{
  Ret, success, failure, or_exit, check_estop, wait_motor_operation, await, wait_duration,
  drive_main_cover_soft, check_tof_pause,
}
use cat_litter_box.Clean.Origin.{motor_calibration}
use cat_litter_box.Clean.Recovery.{
  write_pause, write_recovery, write_tof_enable, do_clean_resume_recovery,
}

-- `if (wait_duration(ms) != 0) goto estop_exit;`
unfoldable pub hold : ℕ → ℕ → M (Unit {0})
hold fuel ms = do ret ← wait_duration fuel ms; or_exit ret

-- `if (pt_check(...) != 1)`: continue if the motor's open sensor is seen.
unfoldable pub require_open : M (Unit {0})
require_open = do
  at ← pt_check (dc_motor main_cover_motor)
  elim at [ at_open ↦ pure tt | _ ↦ goto_exit ]

-- From the start of `do_clean` to the end of step 01.
unfoldable pub open_main_cover : ℕ → M (Unit {0})
open_main_cover fuel = do
  clear_emergency_stop
  set_spin_always_on false
  set_running true
  write_pause false
  write_recovery false
  send (led led_cleaning)
  write_tof_enable true
  send (plate plate_cmd 0 forward 0)
  drive_main_cover_soft fuel forward 100
  delay 300
  wait_cov_ret ← wait_motor_operation fuel (dc_motor main_cover_motor) 20000 mt_open
  send (main_cover main_cover_cmd 0 stop 0)
  delay 100
  or_exit wait_cov_ret
  require_open
  set_spin_always_on true

-- A `scpspin` command and the wait for its end.
unfoldable pub spin_to : ℕ → ℕ → Bool → ℕ → M (Unit {0})
spin_to fuel angle forwards timeout = do
  send (scpspin_ex scp_spin_cmd angle (if forwards then forward else reverse) 100 timeout false)
  delay 150
  await fuel (step_motor scpspin_motor) timeout mt_middle

-- The scoop driven out, and in, to its end.
unfoldable pub scoop_out : ℕ → M (Unit {0})
scoop_out fuel = do
  send (scpinout scp_inout_cmd 0 forward 15000)
  delay 150
  await fuel (dc_motor scpinout_motor) 15000 mt_open
  send (scpinout scp_inout_cmd 0 stop 0)

unfoldable pub scoop_in : ℕ → ℕ → M (Unit {0})
scoop_in fuel timeout = do
  send (scpinout scp_inout_cmd 0 reverse timeout)
  delay 150
  await fuel (dc_motor scpinout_motor) timeout mt_close
  send (scpinout scp_inout_cmd 0 stop 0)

-- A cycle up to the opened waste cover; `first` is `cycle == 1`.
unfoldable pub sift : ℕ → Bool → M (Unit {0})
sift fuel first = do
  if first then send (scpspin_ex scp_spin_cmd 220 forward 140 5000 false) else pure tt
  hold fuel 5000
  check_estop
  scoop_out fuel
  check_estop
  hold fuel 90000
  check_estop
  spin_to fuel 80 false 10000
  send (waste waste_cover_cmd 0 forward 15000)
  delay 300
  await fuel (step_motor waste_cover_motor) 15000 mt_open
  send (waste waste_cover_cmd 0 stop 0)
  delay 200

-- The second attempt if the scoop's out sensor is not seen.
unfoldable pub retry_scoop_out : ℕ → M (Unit {0})
retry_scoop_out fuel = do
  at ← pt_check (dc_motor scpinout_motor)
  elim at [ at_open ↦ pure tt | _ ↦ scoop_out fuel ]

-- From the check for obstacles to the scoop driven out again.
unfoldable pub dump : ℕ → M (Unit {0})
dump fuel = do
  check_tof_pause fuel
  scoop_in fuel 10000
  spin_to fuel 160 false 10000
  spin_to fuel 70 true 5000
  scoop_out fuel
  retry_scoop_out fuel

-- One round of the loop that closes the waste cover: true if the close sensor is seen.
unfoldable pub try_close_waste : ℕ → M Bool
try_close_waste fuel = do
  ret ← wait_motor_operation fuel (step_motor waste_cover_motor) 15000 mt_close
  elim ret [
    | failure ↦ pure false
    | success ↦ do
      send (waste waste_cover_cmd 0 stop 0)
      delay 150
      at ← pt_check (step_motor waste_cover_motor)
      elim at [ at_close ↦ pure true | _ ↦ pure false ]
  ]

-- What a round after the first does before it waits.
unfoldable pub reopen_waste : M (Unit {0})
reopen_waste = do
  send (waste waste_cover_cmd 0 forward 3000)
  delay 500
  send (waste waste_cover_cmd 0 reverse 15000)
  delay 150

-- `for (retry = 0; retry < 3; retry++)`, after its first round: the number is that of the rounds
-- left.
unfoldable pub retry_close_waste : ℕ → ℕ → M Bool
retry_close_waste fuel zero = pure false
retry_close_waste fuel (suc rounds) = do
  reopen_waste
  closed ← try_close_waste fuel
  if closed then pure true else retry_close_waste fuel rounds

-- The rest of a cycle.
unfoldable pub close_waste : ℕ → Bool → M (Unit {0})
close_waste fuel first = do
  send (waste waste_cover_cmd 0 reverse 15000)
  delay 150
  if first then send (scpspin_ex scp_spin_cmd 170 forward 140 5000 false) else pure tt
  closed ← try_close_waste fuel
  waste_close_success ← (if closed then pure true else retry_close_waste fuel 2)
  if waste_close_success then delay 100 else goto_exit

unfoldable pub clean_cycle : ℕ → Bool → M (Unit {0})
clean_cycle fuel first = do sift fuel first; dump fuel; close_waste fuel first

-- Step 20-1
unfoldable pub calibrate : ℕ → M (Unit {0})
calibrate fuel = do calibrated ← motor_calibration fuel; or_exit calibrated

-- From the end of the second cycle to `return 0`.
unfoldable pub finish_clean : ℕ → M Ret
finish_clean fuel = do
  spin_to fuel 50 true 8000
  set_spin_always_on false
  check_tof_pause fuel
  scoop_in fuel 25000
  spin_to fuel 0 false 8000
  calibrate fuel
  drive_main_cover_soft fuel reverse 100
  delay 150
  await fuel (dc_motor main_cover_motor) 10000 mt_close
  send (main_cover main_cover_cmd 0 stop 0)
  send (plate plate_cmd 0 stop 0)
  write_tof_enable false
  set_running false
  write_pause false
  write_recovery false
  send (led led_idle)
  pure success

-- `do_clean` up to its label.
unfoldable pub clean_scenario : ℕ → M Ret
clean_scenario fuel = do
  open_main_cover fuel
  clean_cycle fuel true
  clean_cycle fuel false
  finish_clean fuel

-- The label `estop_exit`.
unfoldable pub estop_exit : ℕ → M Ret
estop_exit fuel = do
  set_spin_always_on false
  is_recovery_mode ← read (λ s. s.clean_resume_recovery_requested)
  set_running false
  write_pause false
  write_recovery false
  send (plate plate_cmd 0 stop 0)
  send (main_cover main_cover_cmd 0 stop 0)
  send (scpinout scp_inout_cmd 0 stop 0)
  send (waste waste_cover_cmd 0 stop 0)
  send (scpspin_ex scp_spin_cmd 0 stop 0 0 false)
  if is_recovery_mode
      then do_clean_resume_recovery fuel
      else (do send (led led_error); pure failure)

unfoldable pub do_clean : ℕ → M Ret
do_clean fuel = with_label (clean_scenario fuel) (estop_exit fuel)
