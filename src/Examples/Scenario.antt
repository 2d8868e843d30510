-- ===== src/Examples/Scenario.antt =====
-- A cleaning of main/motor.c at which nothing goes wrong.
use cat_litter_box.Common.{◌+◌, ◌*◌, ◌/◌, ◌%◌, ◌≡◌, refl, false, [], arith}
use cat_litter_box.Sensor.{boot, set_pt_status}
use cat_litter_box.Clean.World.{Shared, Env, World, ok}
use cat_litter_box.Clean.Wait.{Ret, success, wait_motor_operation}
use cat_litter_box.Clean.Wait.Returns.{IsSteady, wait_motor_operation-returns}
use cat_litter_box.Clean.Manage.{do_manage_start, do_manage_finish}
use cat_litter_box.Clean.Interlock.Visits.{manage_session-IsInterlocked}
use cat_litter_box.Clean.Exits.Ends.{Settled, do_clean-Settled}
use cat_litter_box.Motion.{scpinout_motor, dc_motor, mt_close}
use cat_litter_box.Clean.Cycle.{clean_scenario, do_clean}
use cat_litter_box.Clean.Interlock.{IsInterlocked, posture}
use cat_litter_box.Clean.Interlock.Scenarios.{home, clean_scenario-IsInterlocked}

-- The covers' and the slide's sensors show what the scenario waits for, the ST sensor shows and hides,
-- and the clock runs.
abbrev calm : Env
calm = record {
  step = λ n s. record s { sensor = set_pt_status (2 + 4 + 8 + n / 40 % 2) s.sensor };
  delay = λ n ms s. record s { esp_timer_us = s.esp_timer_us + ms * 1000 };
}

abbrev at_rest : Shared
at_rest = record {
  emergency_stop_flag = false;
  clean_pause_flag = false;
  clean_resume_recovery_requested = false;
  sensor = boot;
  dcmotor_run = λ mt. false;
  stepmotor_run = λ mt. false;
  esp_timer_us = 0;
  diag_next_step = false;
  diag_next_func = false;
  keyclean_status = false;
}

abbrev pub ready : World
ready = record {
  shared = at_rest;
  ticks = 0;
  slept = 0;
  clean_running_flag = false;
  spin_mt_always_on = false;
  log = [];
  events = [];
}

clean_scenario-IsInterlocked_example :
    IsInterlocked (clean_scenario 2000 calm ready).1.events
    × ((ret : Ret)
        → (clean_scenario 2000 calm ready).0 ≡ ok ret
        → posture (clean_scenario 2000 calm ready).1.events ≡ home)
clean_scenario-IsInterlocked_example = clean_scenario-IsInterlocked 2000 calm ready tt

-- On its way it returns 0.
calm_cleans : (do_clean 2000 calm ready).0 ≡ ok success
unfolding cat_litter_box.Clean.World.pure cat_litter_box.Clean.World.goto_exit
    cat_litter_box.Clean.World.starve cat_litter_box.Clean.World.◌>>=◌
    cat_litter_box.Clean.World.with_label cat_litter_box.Clean.World.interfere
    cat_litter_box.Clean.World.read cat_litter_box.Clean.World.write
    cat_litter_box.Clean.World.delay cat_litter_box.Clean.World.send
    cat_litter_box.Clean.World.having_looked cat_litter_box.Clean.World.set_running
    cat_litter_box.Clean.World.set_spin_always_on cat_litter_box.Clean.Flags.pt_check_status
    cat_litter_box.Clean.Flags.pt_check cat_litter_box.Clean.Flags.stop_requested
    cat_litter_box.Clean.Flags.toggle_clean_pause cat_litter_box.Clean.Flags.set_emergency_stop
    cat_litter_box.Clean.Flags.clear_emergency_stop cat_litter_box.Clean.Wait.or_exit
    cat_litter_box.Clean.Wait.check_estop cat_litter_box.Clean.Wait.pause_loop
    cat_litter_box.Clean.Wait.round_stopped cat_litter_box.Clean.Wait.position_matches
    cat_litter_box.Clean.Wait.verdict cat_litter_box.Clean.Wait.wait_round
    cat_litter_box.Clean.Wait.wait_loop cat_litter_box.Clean.Wait.wait_motor_operation
    cat_litter_box.Clean.Wait.await cat_litter_box.Clean.Wait.hold_stopped
    cat_litter_box.Clean.Wait.duration_loop cat_litter_box.Clean.Wait.wait_duration
    cat_litter_box.Clean.Wait.duty_loop cat_litter_box.Clean.Wait.drive_main_cover_soft
    cat_litter_box.Clean.Wait.tof_wait cat_litter_box.Clean.Wait.get_fresh_tof_distance
    cat_litter_box.Clean.Wait.check_tof_pause cat_litter_box.Clean.Origin.read_estop
    cat_litter_box.Clean.Origin.estop_exits cat_litter_box.Clean.Origin.on_st_sensor
    cat_litter_box.Clean.Origin.seek_loop cat_litter_box.Clean.Origin.seek
    cat_litter_box.Clean.Origin.find_st_origin_body cat_litter_box.Clean.Origin.returning
    cat_litter_box.Clean.Origin.scp_spin_find_st_origin cat_litter_box.Clean.Origin.find_origin
    cat_litter_box.Clean.Origin.calib_abort cat_litter_box.Clean.Origin.calibrate_from_out
    cat_litter_box.Clean.Origin.calibration_body cat_litter_box.Clean.Origin.motor_calibration
    cat_litter_box.Clean.Origin.calibration_recovery_body
    cat_litter_box.Clean.Origin.motor_calibration_recovery cat_litter_box.Clean.Recovery.read_bit
    cat_litter_box.Clean.Recovery.write_pause cat_litter_box.Clean.Recovery.write_recovery
    cat_litter_box.Clean.Recovery.write_tof_enable cat_litter_box.Clean.Recovery.recover_waste_cover
    cat_litter_box.Clean.Recovery.recover_scoop cat_litter_box.Clean.Recovery.recover_main_cover
    cat_litter_box.Clean.Recovery.reset_to_idle cat_litter_box.Clean.Recovery.recovery_abort
    cat_litter_box.Clean.Recovery.recalibrate cat_litter_box.Clean.Recovery.recovery_body
    cat_litter_box.Clean.Recovery.do_clean_resume_recovery cat_litter_box.Clean.Cycle.hold
    cat_litter_box.Clean.Cycle.require_open cat_litter_box.Clean.Cycle.open_main_cover
    cat_litter_box.Clean.Cycle.spin_to cat_litter_box.Clean.Cycle.scoop_out
    cat_litter_box.Clean.Cycle.scoop_in cat_litter_box.Clean.Cycle.sift
    cat_litter_box.Clean.Cycle.retry_scoop_out cat_litter_box.Clean.Cycle.dump
    cat_litter_box.Clean.Cycle.try_close_waste cat_litter_box.Clean.Cycle.reopen_waste
    cat_litter_box.Clean.Cycle.retry_close_waste cat_litter_box.Clean.Cycle.close_waste
    cat_litter_box.Clean.Cycle.clean_cycle cat_litter_box.Clean.Cycle.calibrate
    cat_litter_box.Clean.Cycle.finish_clean cat_litter_box.Clean.Cycle.clean_scenario
    cat_litter_box.Clean.Cycle.estop_exit cat_litter_box.Clean.Cycle.do_clean
    cat_litter_box.Sensor.boot cat_litter_box.Sensor.set_pt_status
    cat_litter_box.Sensor.set_sensor_enable cat_litter_box.Sensor.set_tof_sensor_enable
    cat_litter_box.Sensor.reset_tof_ring_buffer cat_litter_box.Sensor.min_valid
    cat_litter_box.Sensor.get_tof_distance cat_litter_box.Sensor.push_tof
    cat_litter_box.Sensor.track_approach cat_litter_box.Sensor.tof_proc
calm_cleans = refl

do_clean-Settled_example : Settled (do_clean 2000 calm ready)
do_clean-Settled_example = do_clean-Settled 2000 calm ready

calm_opens : (do_manage_start 2000 calm ready).0 ≡ ok success
unfolding cat_litter_box.Clean.World.pure cat_litter_box.Clean.World.goto_exit
    cat_litter_box.Clean.World.starve cat_litter_box.Clean.World.◌>>=◌
    cat_litter_box.Clean.World.with_label cat_litter_box.Clean.World.interfere
    cat_litter_box.Clean.World.read cat_litter_box.Clean.World.write
    cat_litter_box.Clean.World.delay cat_litter_box.Clean.World.send
    cat_litter_box.Clean.World.having_looked cat_litter_box.Clean.World.set_running
    cat_litter_box.Clean.World.set_spin_always_on cat_litter_box.Clean.Flags.pt_check_status
    cat_litter_box.Clean.Flags.pt_check cat_litter_box.Clean.Flags.stop_requested
    cat_litter_box.Clean.Flags.toggle_clean_pause cat_litter_box.Clean.Flags.set_emergency_stop
    cat_litter_box.Clean.Flags.clear_emergency_stop cat_litter_box.Clean.Wait.or_exit
    cat_litter_box.Clean.Wait.check_estop cat_litter_box.Clean.Wait.pause_loop
    cat_litter_box.Clean.Wait.round_stopped cat_litter_box.Clean.Wait.position_matches
    cat_litter_box.Clean.Wait.verdict cat_litter_box.Clean.Wait.wait_round
    cat_litter_box.Clean.Wait.wait_loop cat_litter_box.Clean.Wait.wait_motor_operation
    cat_litter_box.Clean.Wait.await cat_litter_box.Clean.Wait.hold_stopped
    cat_litter_box.Clean.Wait.duration_loop cat_litter_box.Clean.Wait.wait_duration
    cat_litter_box.Clean.Wait.duty_loop cat_litter_box.Clean.Wait.drive_main_cover_soft
    cat_litter_box.Clean.Wait.tof_wait cat_litter_box.Clean.Wait.get_fresh_tof_distance
    cat_litter_box.Clean.Wait.check_tof_pause cat_litter_box.Clean.Origin.read_estop
    cat_litter_box.Clean.Origin.estop_exits cat_litter_box.Clean.Origin.on_st_sensor
    cat_litter_box.Clean.Origin.seek_loop cat_litter_box.Clean.Origin.seek
    cat_litter_box.Clean.Origin.find_st_origin_body cat_litter_box.Clean.Origin.returning
    cat_litter_box.Clean.Origin.scp_spin_find_st_origin cat_litter_box.Clean.Origin.find_origin
    cat_litter_box.Clean.Origin.calib_abort cat_litter_box.Clean.Origin.calibrate_from_out
    cat_litter_box.Clean.Origin.calibration_body cat_litter_box.Clean.Origin.motor_calibration
    cat_litter_box.Clean.Origin.calibration_recovery_body
    cat_litter_box.Clean.Origin.motor_calibration_recovery cat_litter_box.Clean.Recovery.read_bit
    cat_litter_box.Clean.Recovery.write_pause cat_litter_box.Clean.Recovery.write_recovery
    cat_litter_box.Clean.Recovery.write_tof_enable cat_litter_box.Clean.Recovery.recover_waste_cover
    cat_litter_box.Clean.Recovery.recover_scoop cat_litter_box.Clean.Recovery.recover_main_cover
    cat_litter_box.Clean.Recovery.reset_to_idle cat_litter_box.Clean.Recovery.recovery_abort
    cat_litter_box.Clean.Recovery.recalibrate cat_litter_box.Clean.Recovery.recovery_body
    cat_litter_box.Clean.Recovery.do_clean_resume_recovery cat_litter_box.Clean.Cycle.hold
    cat_litter_box.Clean.Cycle.require_open cat_litter_box.Clean.Cycle.open_main_cover
    cat_litter_box.Clean.Cycle.spin_to cat_litter_box.Clean.Cycle.scoop_out
    cat_litter_box.Clean.Cycle.scoop_in cat_litter_box.Clean.Cycle.sift
    cat_litter_box.Clean.Cycle.retry_scoop_out cat_litter_box.Clean.Cycle.dump
    cat_litter_box.Clean.Cycle.try_close_waste cat_litter_box.Clean.Cycle.reopen_waste
    cat_litter_box.Clean.Cycle.retry_close_waste cat_litter_box.Clean.Cycle.close_waste
    cat_litter_box.Clean.Cycle.clean_cycle cat_litter_box.Clean.Cycle.calibrate
    cat_litter_box.Clean.Cycle.finish_clean cat_litter_box.Clean.Cycle.clean_scenario
    cat_litter_box.Clean.Cycle.estop_exit cat_litter_box.Clean.Cycle.do_clean
    cat_litter_box.Sensor.boot cat_litter_box.Sensor.set_pt_status
    cat_litter_box.Sensor.set_sensor_enable cat_litter_box.Sensor.set_tof_sensor_enable
    cat_litter_box.Sensor.reset_tof_ring_buffer cat_litter_box.Sensor.min_valid
    cat_litter_box.Sensor.get_tof_distance cat_litter_box.Sensor.push_tof
    cat_litter_box.Sensor.track_approach cat_litter_box.Sensor.tof_proc
    cat_litter_box.Clean.Manage.manage_start_body cat_litter_box.Clean.Manage.manage_exit
    do_manage_start
calm_opens = refl

abbrev opened : World
opened = (do_manage_start 2000 calm ready).1

manage_session-IsInterlocked_example :
    IsInterlocked (do_manage_start 2000 calm ready).1.events
    × IsInterlocked (do_manage_finish 2000 calm opened).1.events
    × ((do_manage_finish 2000 calm opened).0 ≡ ok success
        → posture (do_manage_finish 2000 calm opened).1.events ≡ home)
manage_session-IsInterlocked_example =
    manage_session-IsInterlocked 2000 calm calm ready opened tt calm_opens refl

calm-IsSteady : IsSteady calm
unfolding set_pt_status
calm-IsSteady = record {
  step_pause = λ n s p. p;
  step_clock = λ n s. omega arith;
  delay_pause = λ n ms s p. p;
  delay_clock = λ n ms s. omega arith;
}

wait_motor_operation-returns_example :
    (ret : Ret) × ((wait_motor_operation 501 (dc_motor scpinout_motor) 10000 mt_close calm ready).0
      ≡ ok ret)
wait_motor_operation-returns_example =
    wait_motor_operation-returns calm ready 499 (dc_motor scpinout_motor) 10000 mt_close
      calm-IsSteady refl (omega arith)
