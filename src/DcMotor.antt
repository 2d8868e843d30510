-- ===== src/DcMotor.antt =====
-- main/dc_motor_control.c: the three tasks that drive the plate, the scoop's slide and the main
-- cover. The drivers of the chip (MCPWM, GPIO) and the queues are not part of the repository: what
-- a task writes to them is kept in the motor's record, and a message that a task receives is an
-- argument of its round.
pub mod Limits
use cat_litter_box.Common.{
  ℕ, suc, ◌*◌, ◌/◌, Bool, true, false, not, ◌&&◌, Option, none, some, List, [], ◌∷◌, if◌then◌else◌,
}
use cat_litter_box.Common.Int.{ℤ, pos, negsuc, ltb_ℤ}
use cat_litter_box.Motion.{
  DcMotor, plate_motor, main_cover_motor, scpinout_motor, dc_motor, MtMessage, plate_cmd,
  scp_inout_cmd, main_cover_cmd, Direction, forward, reverse, stop,
}
use cat_litter_box.Clean.Flags.{Position, at_close, between, at_open, pt_check_status}

-- The level of a SEL pin: MT_FORWARD_DIR (0) and MT_REVERSE_DIR (1).
pub data Sel : Type 0 where
  mt_forward_dir mt_reverse_dir : Sel

-- A motor's comparator value and SEL pin, and its `mt_..._run` and `mt_..._dir`.
pub record Dc : Type 0 where
  pub compare : ℕ
  pub sel : Sel
  pub run : Bool
  pub dir : Bool

-- After `dc_motor_init`.
unfoldable pub init : Dc
init = record { compare = 0; sel = mt_forward_dir; run = false; dir = false }

abbrev abs : ℤ → ℕ
abs (pos n) = n
abs (negsuc n) = suc n

-- `(abs(speed_pct) * 400) / 100`
abbrev pub compare_val : ℤ → ℕ
compare_val speed_pct = abs speed_pct * 400 / 100

-- `plate_motor_move`, `scp_inout_motor_move` and `main_motor_move`, which differ in their pins.
unfoldable pub motor_move : ℤ → Dc → Dc
motor_move speed_pct m =
    if ltb_ℤ (pos 0) speed_pct
    then record m { compare = compare_val speed_pct; sel = mt_forward_dir }
    else if ltb_ℤ speed_pct (pos 0)
    then record m { compare = compare_val speed_pct; sel = mt_reverse_dir }
    else record m { compare = 0 }

-- The branches on `msg.direction`, with the speeds for FORWARD and REVERSE.
unfoldable pub drive : ℤ → ℤ → Direction → Dc → Dc
drive ahead back forward m = record (motor_move ahead m) { dir = true; run = true }
drive ahead back reverse m = record (motor_move back m) { dir = false; run = true }
drive ahead back stop m = record (motor_move (pos 0) m) { run = false }

-- The auto-stop at the end of a round of `scpinout_cmd_task` and `main_cmd_task`.
unfoldable pub auto_stop : Position → Dc → Dc
auto_stop at_open m = if m.run && m.dir then record (motor_move (pos 0) m) { run = false } else m
auto_stop at_close m =
    if m.run && not m.dir then record (motor_move (pos 0) m) { run = false } else m
auto_stop between m = m

-- A round of `plate_cmd_task`, which waits for a message.
unfoldable pub plate_round : MtMessage → Dc → Dc
plate_round msg m = elim msg.cmd [ plate_cmd ↦ drive (negsuc 98) (pos 99) msg.direction m | _ ↦ m ]

unfoldable pub scpinout_message : Option MtMessage → Dc → Dc
scpinout_message none m = m
scpinout_message (some msg) m = elim msg.cmd [
  | scp_inout_cmd ↦ drive (negsuc 98) (pos 99) msg.direction m
  | _ ↦ m
]

-- A round of `scpinout_cmd_task`: a message, if one came within 10 ms, and the photo sensors.
unfoldable pub scpinout_round : Option MtMessage → ℕ → Dc → Dc
scpinout_round msg pt m =
    auto_stop (pt_check_status (dc_motor scpinout_motor) pt) (scpinout_message msg m)

unfoldable pub main_message : Option MtMessage → Dc → Dc
main_message none m = m
main_message (some msg) m = elim msg.cmd [
  | main_cover_cmd ↦ drive (negsuc 59) (pos 60) msg.direction m
  | _ ↦ m
]

-- A round of `main_cmd_task`.
unfoldable pub main_round : Option MtMessage → ℕ → Dc → Dc
main_round msg pt m =
    auto_stop (pt_check_status (dc_motor main_cover_motor) pt) (main_message msg m)

-- The motors of the file, and `get_dcmotor_run`, `get_dcmotor_dir`.
pub record DcMotors : Type 0 where
  pub plate : Dc
  pub main : Dc
  pub scp_inout : Dc

abbrev pub of_motor : DcMotor → DcMotors → Dc
of_motor plate_motor s = s.plate
of_motor scpinout_motor s = s.scp_inout
of_motor main_cover_motor s = s.main

unfoldable pub get_dcmotor_run : DcMotor → DcMotors → Bool
get_dcmotor_run mt s = (of_motor mt s).run

unfoldable pub get_dcmotor_dir : DcMotor → DcMotors → Bool
get_dcmotor_dir mt s = (of_motor mt s).dir

-- What the system does next: a task's round.
pub data Event : Type 0 where
  plate_event : MtMessage → Event
  scpinout_event : Option MtMessage → ℕ → Event
  main_event : Option MtMessage → ℕ → Event

unfoldable pub step : Event → DcMotors → DcMotors
step (plate_event msg) s = record s { plate = plate_round msg s.plate }
step (scpinout_event msg pt) s = record s { scp_inout = scpinout_round msg pt s.scp_inout }
step (main_event msg pt) s = record s { main = main_round msg pt s.main }

unfoldable pub run : List Event → DcMotors → DcMotors
run [] s = s
run (e ∷ es) s = run es (step e s)

unfoldable pub boot : DcMotors
boot = record { plate = init; main = init; scp_inout = init }
