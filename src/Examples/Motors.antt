-- ===== src/Examples/Motors.antt =====
-- Runs of the motor tasks of main/dc_motor_control.c and main/step_motor_control.c.
use cat_litter_box.Common.{
  ◌%◌, ◌≤◌, ◌<◌, ◌≡◌, ◌⊎◌, refl, true, false, Option, none, some, List, [], ◌∷◌, arith,
}
use cat_litter_box.Common.Int.{pos}
use cat_litter_box.Motion.{
  Direction, forward, MtMessage, MotorCmd, plate_cmd, scp_inout_cmd, main_cover_cmd,
  waste_cover_cmd, scpinout_motor, main_cover_motor, waste_cover_motor, step_motor,
}
use cat_litter_box.Clean.Flags.{at_close, at_open, pt_check_status}
use cat_litter_box.DcMotor.{
  Event, plate_event, scpinout_event, main_event, scpinout_round, main_round, init, run, boot,
}
use cat_litter_box.DcMotor.Limits.{AllTrue, IsPressing, run-AllTrue, round-not-IsPressing}
use cat_litter_box.StepMotor.{
  Waste, waste_init, waste_tick, waste_round, waste_motor_move, Spin, spin_init, scpspin_move,
}
use cat_litter_box.StepMotor.WasteTurns
use cat_litter_box.StepMotor.WasteTurns.{
  IsPhase, ticks, rows, waste-IsTrue, waste_round-not_pressing, waste_motor_move-turns,
}
use cat_litter_box.StepMotor.SpinTurns.{spin_ticks, scpspin_move-turns}

abbrev message : MotorCmd → Direction → MtMessage
message cmd dir = record {
  task_id = 0;
  cmd = cmd;
  angle = 0;
  direction = dir;
  speed = 0;
  timeout = 15000;
  cal = false;
}

-- The plate turns, the cover opens, the slide goes out to its sensor.
abbrev moves : List Event
moves =
    plate_event (message plate_cmd forward)
    ∷ main_event (some (message main_cover_cmd forward)) 0
    ∷ scpinout_event (some (message scp_inout_cmd forward)) 0
    ∷ scpinout_event none 2
    ∷ []

run-AllTrue_example : AllTrue (run moves boot)
run-AllTrue_example = run-AllTrue moves

abbrev out : Option MtMessage
out = some (message scp_inout_cmd forward)

round-not-IsPressing_example :
    (¬ IsPressing scpinout_motor 2 (scpinout_round out 2 init))
    × (¬ IsPressing main_cover_motor 2 (main_round out 2 init))
round-not-IsPressing_example = round-not-IsPressing out 2 init

waste_init-IsTrue : WasteTurns.IsTrue waste_init
unfolding waste_init
waste_init-IsTrue = ground arith

abbrev open_waste : Option MtMessage
open_waste = some (message waste_cover_cmd forward)

waste-IsTrue_example :
    WasteTurns.IsTrue (waste_tick waste_init)
    × WasteTurns.IsTrue (waste_round open_waste 4 waste_init)
waste-IsTrue_example = waste-IsTrue open_waste 4 waste_init waste_init-IsTrue

waste_runs : (waste_round open_waste 4 waste_init).run ≡ true
unfolding waste_round waste_init cat_litter_box.StepMotor.waste_message waste_motor_move
    cat_litter_box.StepMotor.waste_auto_stop pt_check_status
waste_runs = refl

waste_round-not_pressing_example : ¬ (
    ((waste_round open_waste 4 waste_init).dir ≡ true)
      × (pt_check_status (step_motor waste_cover_motor) 4 ≡ at_open)
    ⊎ ((waste_round open_waste 4 waste_init).dir ≡ false)
      × (pt_check_status (step_motor waste_cover_motor) 4 ≡ at_close))
waste_round-not_pressing_example = waste_round-not_pressing open_waste 4 waste_init waste_runs

waste_motor_move-turns_example :
    let w' = ticks 7 (waste_motor_move (pos 1120) false waste_init) in
    (7 < 1120
      → (w'.run ≡ true)
        × (w'.dir ≡ false)
        × (IsPhase (rows false 7 % 4) (ticks 8 (waste_motor_move (pos 1120) false waste_init))))
    × (1119 < 7 → (w'.run ≡ false) × (w'.en ≡ false) × (w'.timer ≡ false) × (w'.steps ≡ pos 0))
waste_motor_move-turns_example = waste_motor_move-turns 1119 7 false waste_init

scpspin_move-turns_example :
    let s' = spin_ticks false 90 (scpspin_move 90 true spin_init) in
    (90 < 90 → (s'.run ≡ true) × (s'.en ≡ true) × (s'.cnt ≡ 90))
    × (90 ≤ 90 → 0 < 90 → (s'.run ≡ false) × (s'.timer ≡ false) × (s'.en ≡ false))
scpspin_move-turns_example = scpspin_move-turns false 90 90 true spin_init (omega arith)
