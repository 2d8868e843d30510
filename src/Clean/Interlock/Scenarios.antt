-- ===== src/Clean/Interlock/Scenarios.antt =====
-- The scenarios of main/motor.c never drive a part against the interlocks.
use cat_litter_box.Common.{ℕ, zero, suc, Bool, true, false, ◌≡◌, refl}
use cat_litter_box.Motion.{forward, reverse}
use cat_litter_box.Clean.World.{Env, World, ok}
use cat_litter_box.Clean.Flags.{at_close, at_open}
use cat_litter_box.Clean.Wait.{Ret, success, failure, or_exit}
use cat_litter_box.Clean.Cycle.{
  require_open, open_main_cover, spin_to, scoop_out, scoop_in, sift, retry_scoop_out, dump,
  try_close_waste, reopen_waste, retry_close_waste, close_waste, clean_cycle, calibrate,
  finish_clean, clean_scenario,
}
use cat_litter_box.Clean.Interlock.{Place, ended, Posture, posture, IsInterlocked}
use cat_litter_box.Clean.Interlock.Rules.{
  Quiet, Runs, Runs-bind, Runs-if, Quiet-Runs, Yields-or_exit, Quiet-bind, pure-Quiet, delay-Quiet,
  goto_exit-Quiet, quiet_rules, set_spin_always_on-Quiet, set_running-Quiet, Runs-IsInterlocked,
  runs_rules, Runs-Quiet, Runs-send, goto_exit-Runs,
}
use cat_litter_box.Clean.Interlock.Waits.{
  check_estop-Quiet, pt_check-Quiet, hold-Quiet, check_tof_pause-Quiet, write_pause-Quiet,
  write_recovery-Quiet, write_tof_enable-Quiet,
}
use cat_litter_box.Clean.Interlock.Arrivals.{
  last, await_rules, Runs-wait_opened, wait_motor_operation-Quiet, await-Quiet,
}
use cat_litter_box.Clean.Interlock.Parts.{
  drive_open-Runs, drive_close-Runs, clear_emergency_stop-Quiet, motor_calibration-Yields,
}

-- The scoop out, and in, under the opened main cover.
abbrev pub out : Posture
out = last (ended forward) (ended forward)

abbrev in_ : Posture
in_ = last (ended reverse) (ended forward)

require_open-Quiet : Quiet require_open
unfolding require_open
require_open-Quiet =
    Quiet-bind (pt_check-Quiet _) elim [ at_open ↦ pure-Quiet _ | _ ↦ goto_exit-Quiet ]

or_exit_failure-Runs : {p : Posture} (q : Posture) → Runs p (or_exit failure) q
unfolding or_exit
or_exit_failure-Runs q = goto_exit-Runs q

module _ {s c : Place} where
  open_main_cover-Runs :
      (fuel : ℕ) → Runs (last s c) (open_main_cover fuel) (last s (ended forward))
  unfolding open_main_cover
  open_main_cover-Runs fuel = Runs-Quiet clear_emergency_stop-Quiet λ _.
      Runs-Quiet (set_spin_always_on-Quiet _) λ _. Runs-Quiet (set_running-Quiet _) λ _.
        Runs-Quiet (write_pause-Quiet _) λ _. Runs-Quiet (write_recovery-Quiet _) λ _.
          Runs-send _ tt λ _. Runs-Quiet (write_tof_enable-Quiet _) λ _. Runs-send _ tt λ _.
            Runs-bind (drive_open-Runs fuel _) λ _. Runs-Quiet (delay-Quiet _) λ _.
              Runs-wait_opened fuel _ _ (search (runs_rules, require_open-Quiet) depth 20) (
                Runs-send _ tt λ _. Runs-Quiet (delay-Quiet _) λ _.
                  Runs-bind (or_exit_failure-Runs (last s (ended forward)))
                    λ _. search (runs_rules, require_open-Quiet) depth 20)

spin_to-Quiet :
    (fuel angle : ℕ) (forwards : Bool) (timeout : ℕ) → Quiet (spin_to fuel angle forwards timeout)
unfolding spin_to
spin_to-Quiet fuel angle forwards timeout = search (quiet_rules, await-Quiet) depth 8

module _ {s : Place} where
  scoop_out-Runs : (fuel : ℕ) → Runs (last s (ended forward)) (scoop_out fuel) out
  unfolding scoop_out
  scoop_out-Runs fuel = search (runs_rules, await_rules) depth 12

  scoop_in-Runs : (fuel timeout : ℕ) → Runs (last s (ended forward)) (scoop_in fuel timeout) in_
  unfolding scoop_in
  scoop_in-Runs fuel timeout = search (runs_rules, await_rules) depth 12

  sift-Runs : (fuel : ℕ) (first : Bool) → Runs (last s (ended forward)) (sift fuel first) out
  unfolding sift
  sift-Runs fuel first = Runs-Quiet (search quiet_rules) λ _. Runs-Quiet (hold-Quiet _ _) λ _.
      Runs-Quiet check_estop-Quiet λ _.
        Runs-bind (scoop_out-Runs fuel) λ _.
          search (runs_rules, check_estop-Quiet, hold-Quiet, await-Quiet, spin_to-Quiet) depth 24

retry_scoop_out-Runs : (fuel : ℕ) → Runs out (retry_scoop_out fuel) out
unfolding retry_scoop_out
retry_scoop_out-Runs fuel =
    Runs-Quiet (pt_check-Quiet _)
      elim [ at_open ↦ Quiet-Runs (pure-Quiet _) | _ ↦ scoop_out-Runs fuel ]

dump-Runs : (fuel : ℕ) → Runs out (dump fuel) out
unfolding dump
dump-Runs fuel = Runs-Quiet (check_tof_pause-Quiet _) λ _. Runs-bind (scoop_in-Runs fuel _) λ _.
    Runs-Quiet (spin_to-Quiet _ _ _ _) λ _.
      Runs-Quiet (spin_to-Quiet _ _ _ _)
        λ _. Runs-bind (scoop_out-Runs fuel) λ _. retry_scoop_out-Runs fuel

try_close_waste-Quiet : (fuel : ℕ) → Quiet (try_close_waste fuel)
unfolding try_close_waste
try_close_waste-Quiet fuel = Quiet-bind (wait_motor_operation-Quiet _ _ _ _) elim [
  | failure ↦ pure-Quiet _
  | success ↦ Quiet-bind (search quiet_rules) λ _.
      Quiet-bind (delay-Quiet _)
        λ _. Quiet-bind (pt_check-Quiet _) elim [ at_close ↦ pure-Quiet _ | _ ↦ pure-Quiet _ ]
]

reopen_waste-Runs : Runs out reopen_waste out
unfolding reopen_waste
reopen_waste-Runs = search runs_rules depth 12

retry_close_waste-Runs : (fuel rounds : ℕ) → Runs out (retry_close_waste fuel rounds) out
unfolding retry_close_waste
retry_close_waste-Runs fuel zero = Quiet-Runs (pure-Quiet _)
retry_close_waste-Runs fuel (suc rounds) = Runs-bind reopen_waste-Runs λ _.
    Runs-Quiet (try_close_waste-Quiet fuel)
      λ closed. Runs-if closed (Quiet-Runs (pure-Quiet _)) (retry_close_waste-Runs fuel rounds)

close_waste-Runs : (fuel : ℕ) (first : Bool) → Runs out (close_waste fuel first) out
unfolding close_waste
close_waste-Runs fuel first = Runs-send _ refl λ _. Runs-Quiet (delay-Quiet _) λ _.
    Runs-Quiet (search quiet_rules) λ _. Runs-Quiet (try_close_waste-Quiet fuel) λ closed.
      Runs-bind (Runs-if closed (Quiet-Runs (pure-Quiet _)) (retry_close_waste-Runs fuel 2))
        λ done. search runs_rules

clean_cycle-Runs :
    {s : Place} (fuel : ℕ) (first : Bool)
    → Runs (last s (ended forward)) (clean_cycle fuel first) out
unfolding clean_cycle
clean_cycle-Runs fuel first =
    Runs-bind (sift-Runs fuel first)
      λ _. Runs-bind (dump-Runs fuel) λ _. close_waste-Runs fuel first

calibrate-Runs : (fuel : ℕ) → Runs in_ (calibrate fuel) in_
unfolding calibrate
calibrate-Runs fuel = Yields-or_exit (motor_calibration-Yields fuel)

abbrev pub home : Posture
home = last (ended reverse) (ended reverse)

finish_clean-Runs : (fuel : ℕ) → Runs out (finish_clean fuel) home
unfolding finish_clean
finish_clean-Runs fuel = Runs-Quiet (spin_to-Quiet _ _ _ _) λ _.
    Runs-Quiet (set_spin_always_on-Quiet _) λ _. Runs-Quiet (check_tof_pause-Quiet _) λ _.
      Runs-bind (scoop_in-Runs fuel _) λ _. Runs-Quiet (spin_to-Quiet _ _ _ _) λ _.
        Runs-bind (calibrate-Runs fuel) λ _. Runs-bind (drive_close-Runs fuel _) λ _.
          search
            (
              runs_rules, await_rules, write_tof_enable-Quiet, write_pause-Quiet,
              write_recovery-Quiet,
            )
            depth 30

clean_scenario-Runs : {p : Posture} (fuel : ℕ) → Runs p (clean_scenario fuel) home
unfolding clean_scenario
clean_scenario-Runs fuel = Runs-bind (open_main_cover-Runs fuel) λ _.
    Runs-bind (clean_cycle-Runs fuel true)
      λ _. Runs-bind (clean_cycle-Runs fuel false) λ _. finish_clean-Runs fuel

-- Whatever the other tasks do, and wherever `do_clean` stops on its way to `estop_exit` or to its
-- `return 0`, every message it has sent was allowed when it was sent: the slide was driven only after
-- a wait had seen the main cover's opening end, the waste cover only after one had seen the scoop's
-- going out end, and the main cover was closed only after one had seen the scoop's coming in end. A
-- drive is seen to end by the sensor at its end, or by a motor that does not run any more. If the
-- scenario returns, the scoop's coming in and the cover's closing were both seen to end.
pub clean_scenario-IsInterlocked :
    (fuel : ℕ) (e : Env) (w : World)
    → IsInterlocked w.events
    → IsInterlocked (clean_scenario fuel e w).1.events
      × ((ret : Ret)
          → (clean_scenario fuel e w).0 ≡ ok ret
          → posture (clean_scenario fuel e w).1.events ≡ home)
clean_scenario-IsInterlocked fuel e w h = Runs-IsInterlocked e w (clean_scenario-Runs fuel) h
