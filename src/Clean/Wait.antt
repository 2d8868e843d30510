-- ===== src/Clean/Wait.antt =====
-- main/motor.c: the waiting functions that the scenarios are made of. A loop that other tasks have
-- to end takes fuel.
pub mod Returns
use cat_litter_box.Common.{
  ℕ, zero, suc, ◌+◌, ◌-◌, ◌/◌, ◌%◌, Bool, true, false, not, ◌&&◌, ◌||◌, ltb, leb, ◌==◌, min, Option,
  none, some, if◌then◌else◌, ◌^◌,
}
use cat_litter_box.Common.Int.{ℤ, pos, minus_one, ltb_ℤ, leb_ℤ}
use cat_litter_box.Sensor.{
  set_tof_sensor_enable, reset_tof_ring_buffer, get_tof_ring_count, get_tof_distance, is_valid_tof,
}
use cat_litter_box.Motion.{
  Motor, dc_motor, step_motor, MotorStatus, mt_open, mt_close, Direction, plate_cmd, scp_spin_cmd,
  scp_inout_cmd, waste_cover_cmd, main_cover_cmd, stop, plate, scpinout, main_cover, waste,
  scpspin_ex, led, led_pause,
}
use cat_litter_box.Clean.World.{
  Shared, M, pure, goto_exit, starve, ◌>>=◌, ◌>>◌, read, write, delay, send, having_looked,
}
use cat_litter_box.Clean.Flags.{Position, at_close, at_open, pt_check, stop_requested}

-- The `int` that a scenario returns: 0 and -1.
pub data Ret : Type 0 where
  success failure : Ret

-- `if (... != 0) goto label;`
unfoldable pub or_exit : Ret → M (Unit {0})
or_exit success = pure tt
or_exit failure = goto_exit

-- CHECK_ESTOP
unfoldable pub check_estop : M (Unit {0})
check_estop = do stopped ← stop_requested; if stopped then goto_exit else pure tt

-- `while (clean_pause_flag) { if (stop requested) ...; vTaskDelay(100) }`: true if it was left by a
-- stop request, false when the pause is over.
unfoldable pub pause_loop : ℕ → M Bool
pause_loop zero = starve
pause_loop (suc fuel) = do
  paused ← read (λ s. s.clean_pause_flag)
  elim paused [
    | false ↦ pure false
    | true ↦ do
      stopped ← stop_requested
      elim stopped [ true ↦ pure true | false ↦ do _ ← delay 100; pause_loop fuel ]
  ]

-- The three checks at the head of a waiting round: true if the wait has to end with -1.
unfoldable pub round_stopped : ℕ → M Bool
round_stopped fuel = do
  stopped ← stop_requested
  if stopped
      then pure true
      else (do paused_out ← pause_loop fuel; if paused_out then pure true else stop_requested)

unfoldable pub position_matches : Position → MotorStatus → Bool
position_matches at_open mt_open = true
position_matches at_close mt_close = true
position_matches _ _ = false

-- `get_dcmotor_run(mt)` or `get_stepmotor_run(mt)`
abbrev pub motor_run : Motor → Shared → Bool
motor_run (dc_motor mt) s = s.dcmotor_run mt
motor_run (step_motor mt) s = s.stepmotor_run mt

-- What a round finds, once it was not stopped: `some` is a `return`. 300 ms after the start a motor
-- that does not run counts as arrived.
unfoldable pub verdict : MotorStatus → ℕ → Position → ℕ → Bool → Option Ret
verdict status timeout ret elapsed_ms running =
    if position_matches ret status || not running
    then some success
    else if leb timeout elapsed_ms
    then some failure
    else none

-- The clock does not go back, so truncated `-` is exact.
unfoldable pub wait_round : Motor → ℕ → MotorStatus → ℕ → M (Option Ret)
wait_round mt timeout status start = do
  delay 20
  ret ← pt_check mt
  now ← read (λ s. s.esp_timer_us)
  running ← (if ltb 300 ((now - start) / 1000) then read (motor_run mt) else pure true)
  having_looked mt ret running (verdict status timeout ret ((now - start) / 1000) running)

unfoldable pub wait_loop : ℕ → Motor → ℕ → MotorStatus → ℕ → M Ret
wait_loop zero mt timeout status start = starve
wait_loop (suc fuel) mt timeout status start = do
  stopped ← round_stopped fuel
  if stopped then pure failure else (do
    found ← wait_round mt timeout status start
    elim found [ some ret ↦ pure ret | none ↦ wait_loop fuel mt timeout status start ])

unfoldable pub wait_motor_operation : ℕ → Motor → ℕ → MotorStatus → M Ret
wait_motor_operation fuel mt timeout status = do
  delay 150
  start ← read (λ s. s.esp_timer_us)
  wait_loop fuel mt timeout status start

-- `if (wait_motor_operation(...) != 0) goto label;`
unfoldable pub await : ℕ → Motor → ℕ → MotorStatus → M (Unit {0})
await fuel mt timeout status = do ret ← wait_motor_operation fuel mt timeout status; or_exit ret

-- One round of `wait_duration` up to its delay: true if it has to end with -1.
unfoldable pub hold_stopped : ℕ → M Bool
hold_stopped fuel = do stopped ← stop_requested; if stopped then pure true else pause_loop fuel

-- `do { ... } while (--cnt > 0)`, run with `cnt` = n + 1.
unfoldable pub duration_loop : ℕ → ℕ → M Ret
duration_loop fuel zero = do
  stopped ← hold_stopped fuel
  if stopped then pure failure else (delay 100 >> pure success)
duration_loop fuel (suc n) = do
  stopped ← hold_stopped fuel
  if stopped then pure failure else (delay 100 >>= λ _. duration_loop fuel n)

-- `cnt`, the rounds of 100 ms.
abbrev pub duration_rounds : ℕ → ℕ
duration_rounds ms = if ms % 100 == 0 then ms / 100 else ms / 100 + 1

unfoldable pub wait_duration : ℕ → ℕ → M Ret
wait_duration fuel ms =
    if ltb ms 100 then pure failure else duration_loop fuel (duration_rounds ms - 1)

-- `for (duty = start; duty <= target; duty += 10)`; `uint32_t` wraps.
unfoldable pub duty_loop : ℕ → Direction → ℕ → ℕ → M (Unit {0})
duty_loop zero dir duty target_speed = starve
duty_loop (suc fuel) dir duty target_speed =
    if leb duty target_speed
    then (do
      send (main_cover main_cover_cmd 0 dir duty)
      _ ← delay 30
      duty_loop fuel dir ((duty + 10) % 2 ^ 32) target_speed)
    else pure tt

unfoldable pub drive_main_cover_soft : ℕ → Direction → ℕ → M (Unit {0})
drive_main_cover_soft fuel dir target_speed = do
  delay 50
  send (main_cover main_cover_cmd 0 dir 100)
  delay 300
  duty_loop fuel dir (min 70 target_speed) target_speed

-- `while (get_tof_ring_count() < 5 && wait_ms < 2000)`: the number is that of the rounds left, so
-- `wait_ms < 2000` is that it is not 0.
unfoldable pub tof_wait : ℕ → M (Unit {0})
tof_wait zero = do _ ← read (λ s. get_tof_ring_count s.sensor); pure tt
tof_wait (suc rounds) = do
  count ← read (λ s. get_tof_ring_count s.sensor)
  if ltb count 5 then (delay 10 >>= λ _. tof_wait rounds) else pure tt

unfoldable pub get_fresh_tof_distance : M ℤ
get_fresh_tof_distance = do
  write (λ s. record s { sensor = set_tof_sensor_enable true s.sensor })
  write (λ s. record s { sensor = reset_tof_ring_buffer s.sensor })
  tof_wait 200
  valid_dist ← read (λ s. get_tof_distance s.sensor)
  pure (if is_valid_tof valid_dist then valid_dist else minus_one)

-- CHECK_TOF_PAUSE: something within 550 mm stops every motor and pauses the scenario.
unfoldable pub check_tof_pause : ℕ → M (Unit {0})
check_tof_pause fuel = do
  tof_dist ← get_fresh_tof_distance
  if ltb_ℤ (pos 0) tof_dist && leb_ℤ tof_dist (pos 550)
      then (do
        send (plate plate_cmd 0 stop 0)
        send (scpspin_ex scp_spin_cmd 0 stop 0 0 false)
        send (scpinout scp_inout_cmd 0 stop 0)
        send (waste waste_cover_cmd 0 stop 0)
        send (main_cover main_cover_cmd 0 stop 0)
        send (led led_pause)
        write (λ s. record s { clean_pause_flag = true })
        stopped ← pause_loop fuel
        if stopped then goto_exit else pure tt)
      else pure tt
