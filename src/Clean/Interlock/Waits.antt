-- ===== src/Clean/Interlock/Waits.antt =====
-- The waiting functions of main/motor.c that keep every posture: they send nothing, or only stops.
use cat_litter_box.Common.{ℕ, zero, suc, Bool, true, false}
use cat_litter_box.Motion.{Motor}
use cat_litter_box.Clean.Flags.{stop_requested, pt_check}
use cat_litter_box.Clean.Wait.{
  check_estop, pause_loop, round_stopped, hold_stopped, duration_loop, wait_duration, tof_wait,
  get_fresh_tof_distance, check_tof_pause,
}
use cat_litter_box.Clean.Recovery.{read_bit, write_pause, write_recovery, write_tof_enable}
use cat_litter_box.Clean.Cycle.{hold}
use cat_litter_box.Clean.Interlock.Rules.{
  Quiet, quiet_rules, Quiet-bind, read-Quiet, pure-Quiet, delay-Quiet, Quiet-if,
}

pub stop_requested-Quiet : Quiet stop_requested
unfolding stop_requested
stop_requested-Quiet = search quiet_rules

pub check_estop-Quiet : Quiet check_estop
unfolding check_estop
check_estop-Quiet = search (quiet_rules, stop_requested-Quiet)

pub pt_check-Quiet : (mt : Motor) → Quiet (pt_check mt)
unfolding pt_check
pt_check-Quiet mt = search quiet_rules

pub pause_loop-Quiet : (fuel : ℕ) → Quiet (pause_loop fuel)
unfolding pause_loop
pause_loop-Quiet zero = search quiet_rules
pause_loop-Quiet (suc fuel) = Quiet-bind (read-Quiet _) elim [
  | false ↦ pure-Quiet _
  | true ↦
      Quiet-bind stop_requested-Quiet elim [
        | true ↦ pure-Quiet _
        | false ↦ Quiet-bind (delay-Quiet _) (λ _. pause_loop-Quiet fuel)
      ]
]

pub round_stopped-Quiet : (fuel : ℕ) → Quiet (round_stopped fuel)
unfolding round_stopped
round_stopped-Quiet fuel = search (quiet_rules, stop_requested-Quiet, pause_loop-Quiet) depth 8

hold_stopped-Quiet : (fuel : ℕ) → Quiet (hold_stopped fuel)
unfolding hold_stopped
hold_stopped-Quiet fuel = search (quiet_rules, stop_requested-Quiet, pause_loop-Quiet)

duration_loop-Quiet : (fuel n : ℕ) → Quiet (duration_loop fuel n)
unfolding duration_loop
duration_loop-Quiet fuel zero = search (quiet_rules, hold_stopped-Quiet) depth 8
duration_loop-Quiet fuel (suc n) = Quiet-bind (hold_stopped-Quiet fuel) λ stopped.
    Quiet-if stopped (pure-Quiet _) (Quiet-bind (delay-Quiet _) (λ _. duration_loop-Quiet fuel n))

pub hold-Quiet : (fuel ms : ℕ) → Quiet (hold fuel ms)
unfolding hold wait_duration
hold-Quiet fuel ms = search (quiet_rules, duration_loop-Quiet) depth 8

tof_wait-Quiet : (rounds : ℕ) → Quiet (tof_wait rounds)
unfolding tof_wait
tof_wait-Quiet zero = search quiet_rules
tof_wait-Quiet (suc rounds) =
    Quiet-bind (read-Quiet _)
      λ count. Quiet-if _ (Quiet-bind (delay-Quiet _) (λ _. tof_wait-Quiet rounds)) (pure-Quiet _)

get_fresh_tof_distance-Quiet : Quiet get_fresh_tof_distance
unfolding get_fresh_tof_distance
get_fresh_tof_distance-Quiet = search (quiet_rules, tof_wait-Quiet) depth 8

pub check_tof_pause-Quiet : (fuel : ℕ) → Quiet (check_tof_pause fuel)
unfolding check_tof_pause
check_tof_pause-Quiet fuel =
    search (quiet_rules, get_fresh_tof_distance-Quiet, pause_loop-Quiet) depth 20

pub read_bit-Quiet : (mask : ℕ) → Quiet (read_bit mask)
unfolding read_bit
read_bit-Quiet mask = search quiet_rules

pub write_pause-Quiet : (b : Bool) → Quiet (write_pause b)
unfolding write_pause
write_pause-Quiet b = search quiet_rules

pub write_recovery-Quiet : (b : Bool) → Quiet (write_recovery b)
unfolding write_recovery
write_recovery-Quiet b = search quiet_rules

pub write_tof_enable-Quiet : (b : Bool) → Quiet (write_tof_enable b)
unfolding write_tof_enable
write_tof_enable-Quiet b = search quiet_rules
