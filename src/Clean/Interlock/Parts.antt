-- ===== src/Clean/Interlock/Parts.antt =====
-- The parts of the scenarios of main/motor.c from posture to posture.
use cat_litter_box.Common.{ℕ, zero, suc, Bool, true, refl}
use cat_litter_box.Motion.{Direction, forward, reverse}
use cat_litter_box.Clean.World.{Env, World, ◌>>=◌, pure, send}
use cat_litter_box.Clean.Flags.{clear_emergency_stop}
use cat_litter_box.Clean.Wait.{failure, duty_loop, drive_main_cover_soft}
use cat_litter_box.Clean.Origin.{
  read_estop, estop_exits, on_st_sensor, seek_loop, seek, find_st_origin_body,
  scp_spin_find_st_origin, find_origin, calib_abort, calibrate_from_out, calibration_body,
  motor_calibration,
}
use cat_litter_box.Clean.Interlock.{Place, moving, ended, Posture, IsInterlocked}
use cat_litter_box.Clean.Interlock.Rules.{
  Ends, OnSuccess, Quiet, Runs, Yields, Runs-bind, Runs-if, Quiet-Runs, Yields-or_exit,
  Yields-returning, Quiet-bind, Quiet-if, pure-Quiet, delay-Quiet, read-Quiet, starve-Quiet,
  quiet_rules, runs_rules, Runs-Quiet, Runs-send,
}
use cat_litter_box.Clean.Interlock.Arrivals.{last, await_rules, await-Quiet}

module _ {s : Place} where
  duty_open-Runs :
      (fuel duty t : ℕ)
      → Runs (last s (moving forward)) (duty_loop fuel forward duty t) (last s (moving forward))
  unfolding duty_loop
  duty_open-Runs zero duty t = Quiet-Runs starve-Quiet
  duty_open-Runs (suc fuel) duty t =
      Runs-if _ (Runs-send _ tt λ _. Runs-Quiet (delay-Quiet _) λ _. duty_open-Runs fuel _ t)
        (Quiet-Runs (pure-Quiet _))

  -- The main cover driven open.
  pub drive_open-Runs :
      {c : Place} (fuel t : ℕ)
      → Runs (last s c) (drive_main_cover_soft fuel forward t) (last s (moving forward))
  unfolding drive_main_cover_soft
  drive_open-Runs fuel t = search (runs_rules, duty_open-Runs) depth 12

duty_close-Runs :
    (fuel duty t : ℕ)
    → Runs
        (last (ended reverse) (moving reverse))
        (duty_loop fuel reverse duty t)
        (last (ended reverse) (moving reverse))
unfolding duty_loop
duty_close-Runs zero duty t = Quiet-Runs starve-Quiet
duty_close-Runs (suc fuel) duty t =
    Runs-if _ (Runs-send _ refl λ _. Runs-Quiet (delay-Quiet _) λ _. duty_close-Runs fuel _ t)
      (Quiet-Runs (pure-Quiet _))

-- The main cover driven closed, after the scoop has come in.
pub drive_close-Runs :
    {c : Place} (fuel t : ℕ)
    → Runs
        (last (ended reverse) c)
        (drive_main_cover_soft fuel reverse t)
        (last (ended reverse) (moving reverse))
unfolding drive_main_cover_soft
drive_close-Runs fuel t = search (runs_rules, duty_close-Runs) depth 12

read_estop-Quiet : Quiet read_estop
unfolding read_estop
read_estop-Quiet = search quiet_rules

on_st_sensor-Quiet : Quiet on_st_sensor
unfolding on_st_sensor
on_st_sensor-Quiet = search quiet_rules

pub estop_exits-Quiet : Quiet estop_exits
unfolding estop_exits
estop_exits-Quiet = search (quiet_rules, read_estop-Quiet)

pub clear_emergency_stop-Quiet : Quiet clear_emergency_stop
unfolding clear_emergency_stop
clear_emergency_stop-Quiet = search quiet_rules

seek_loop-Quiet : (fuel : ℕ) (want : Bool) (st_time : ℕ) → Quiet (seek_loop fuel want st_time)
unfolding seek_loop
seek_loop-Quiet zero want st_time = search quiet_rules
seek_loop-Quiet (suc fuel) want st_time = Quiet-bind (read-Quiet _) λ now.
    Quiet-if _
      (Quiet-bind read_estop-Quiet λ estop. Quiet-if estop (search quiet_rules) (
        Quiet-bind on_st_sensor-Quiet λ on_st.
          Quiet-if _ (pure-Quiet _)
            (Quiet-bind (delay-Quiet _) λ _. seek_loop-Quiet fuel want st_time)))
      (pure-Quiet _)

seek-Quiet : (fuel : ℕ) (dir : Direction) (want : Bool) → Quiet (seek fuel dir want)
unfolding seek
seek-Quiet fuel dir want = search (quiet_rules, seek_loop-Quiet) depth 10

find_st_origin_body-Quiet :
    (fuel calls : ℕ) (forwards : Bool) → Quiet (find_st_origin_body fuel calls forwards)
unfolding find_st_origin_body
find_st_origin_body-Quiet fuel zero forwards = search quiet_rules
find_st_origin_body-Quiet fuel (suc calls) forwards = Quiet-bind estop_exits-Quiet λ _.
    Quiet-bind on_st_sensor-Quiet λ on_st.
      Quiet-if on_st (search (quiet_rules, estop_exits-Quiet, seek-Quiet) depth 10) (
        Quiet-bind (seek-Quiet _ _ _) λ _.
          Quiet-bind (delay-Quiet _)
            λ _. Quiet-bind estop_exits-Quiet λ _. find_st_origin_body-Quiet fuel calls forwards)

failure_exit :
    (q : Posture) (e : Env) (w : World)
    → IsInterlocked w.events
    → Ends (OnSuccess q) (pure failure e w)
unfolding pure
failure_exit q e w h = h

pub find_origin-Quiet : (fuel : ℕ) (forwards : Bool) → Quiet (find_origin fuel forwards)
unfolding find_origin scp_spin_find_st_origin
find_origin-Quiet fuel forwards = record {
  at = λ p.
      Yields-or_exit
        (Yields-returning _ ((find_st_origin_body-Quiet fuel fuel forwards).at p) (failure_exit _));
}

-- `calib_abort` only stops, and returns -1.
pub calib_abort-Ends :
    (q : Posture) (e : Env) (w : World)
    → IsInterlocked w.events
    → Ends (OnSuccess q) (calib_abort e w)
unfolding calib_abort ◌>>=◌ send pure
calib_abort-Ends q e w h = (tt, (tt, h))

-- The calibration leaves the slide in, or drives it in.
calibrate_from_out-Runs :
    {s : Place} (fuel : ℕ)
    → Runs (last s (ended forward)) (calibrate_from_out fuel) (last (ended reverse) (ended forward))
unfolding calibrate_from_out
calibrate_from_out-Runs fuel =
    search (runs_rules, await_rules, estop_exits-Quiet, await-Quiet, find_origin-Quiet) depth 24

pub motor_calibration-Yields :
    (fuel : ℕ)
    → Yields
        (last (ended reverse) (ended forward))
        (motor_calibration fuel)
        (last (ended reverse) (ended forward))
unfolding motor_calibration calibration_body
motor_calibration-Yields fuel = Yields-returning _ body (calib_abort-Ends _)
  where
    body :
        Runs
          (last (ended reverse) (ended forward))
          (calibration_body fuel)
          (last (ended reverse) (ended forward))
    body = Runs-Quiet clear_emergency_stop-Quiet λ _. Runs-Quiet (read-Quiet _) λ is_scp_in.
        Runs-bind
          (Runs-if is_scp_in (Quiet-Runs (find_origin-Quiet fuel true))
            (calibrate_from_out-Runs fuel))
          λ _. search (runs_rules, estop_exits-Quiet, await-Quiet) depth 12
