-- ===== src/DcMotor/Limits.antt =====
-- What the motor tasks of main/dc_motor_control.c keep: the run flags tell the truth about the
-- comparators, and no motor is left running against its limit sensor.
use cat_litter_box.Common.{ℕ, ◌<◌, ◌≡◌, ◌⊎◌, true, false, Option, List, [], ◌∷◌, arith}
use cat_litter_box.Motion.{DcMotor, main_cover_motor, scpinout_motor, dc_motor, MtMessage}
use cat_litter_box.Clean.Flags.{at_close, at_open, pt_check_status}
use cat_litter_box.DcMotor.{
  Dc, mt_forward_dir, mt_reverse_dir, DcMotors, Event, scpinout_event, main_event, init, motor_move,
  drive, auto_stop, plate_round, scpinout_message, scpinout_round, main_message, main_round, step,
  run, boot,
}

-- A motor is powered exactly while its run flag is up, below the full period of 400 ticks, and its
-- SEL pin is that of its direction.
pub record IsTrue (m : Dc) : Type 0 where
  pub powered : m.run ≡ true → 0 < m.compare
  pub still : m.run ≡ false → m.compare ≡ 0
  pub duty : m.compare < 400
  pub ahead : m.run ≡ true → m.dir ≡ true → m.sel ≡ mt_reverse_dir
  pub back : m.run ≡ true → m.dir ≡ false → m.sel ≡ mt_forward_dir

pub record AllTrue (s : DcMotors) : Type 0 where
  pub plate : IsTrue s.plate
  pub main : IsTrue s.main
  pub scp_inout : IsTrue s.scp_inout

plate_round-IsTrue : (msg : MtMessage) (m : Dc) → IsTrue m → IsTrue (plate_round msg m)
unfolding plate_round drive motor_move
plate_round-IsTrue msg m v = ground arith

auto_stop-IsTrue : (pt : _) (m : Dc) → IsTrue m → IsTrue (auto_stop pt m)
unfolding auto_stop motor_move
auto_stop-IsTrue pt m v = ground arith

scpinout_message-IsTrue :
    (msg : Option MtMessage) (m : Dc) → IsTrue m → IsTrue (scpinout_message msg m)
unfolding scpinout_message drive motor_move
scpinout_message-IsTrue msg m v = ground arith

main_message-IsTrue : (msg : Option MtMessage) (m : Dc) → IsTrue m → IsTrue (main_message msg m)
unfolding main_message drive motor_move
main_message-IsTrue msg m v = ground arith

step-AllTrue : (e : Event) (s : DcMotors) → AllTrue s → AllTrue (step e s)
unfolding step scpinout_round main_round
step-AllTrue (Event.plate_event msg) s v = record {
  plate = plate_round-IsTrue msg s.plate v.plate;
  main = v.main;
  scp_inout = v.scp_inout;
}
step-AllTrue (scpinout_event msg pt) s v = record {
  plate = v.plate;
  main = v.main;
  scp_inout = auto_stop-IsTrue _ _ (scpinout_message-IsTrue msg s.scp_inout v.scp_inout);
}
step-AllTrue (main_event msg pt) s v = record {
  plate = v.plate;
  main = auto_stop-IsTrue _ _ (main_message-IsTrue msg s.main v.main);
  scp_inout = v.scp_inout;
}

boot-AllTrue : AllTrue boot
unfolding boot init
boot-AllTrue = ground arith

run-keeps-AllTrue : (es : List Event) (s : DcMotors) → AllTrue s → AllTrue (run es s)
unfolding run
run-keeps-AllTrue [] s v = v
run-keeps-AllTrue (e ∷ es) s v = run-keeps-AllTrue es (step e s) (step-AllTrue e s v)

-- After any sequence of messages and sensor values from power-up, every DC motor is powered exactly
-- while its run flag is up, at less than the full period, with the SEL pin of its direction.
pub run-AllTrue : (es : List Event) → AllTrue (run es boot)
run-AllTrue es = run-keeps-AllTrue es boot boot-AllTrue

-- A motor that its last drive would press against the limit sensor that `pt` shows.
abbrev pub IsPressing : DcMotor → ℕ → Dc → Type 0
IsPressing mt pt m =
    (m.run ≡ true)
    × (((m.dir ≡ true) × (pt_check_status (dc_motor mt) pt ≡ at_open))
        ⊎ ((m.dir ≡ false) × (pt_check_status (dc_motor mt) pt ≡ at_close)))

-- Whatever message came, a round of the slide's task or the main cover's task ends with the motor
-- not running against the limit sensor that the round saw.
pub round-not-IsPressing :
    (msg : Option MtMessage) (pt : ℕ) (m : Dc)
    → (¬ IsPressing scpinout_motor pt (scpinout_round msg pt m))
      × (¬ IsPressing main_cover_motor pt (main_round msg pt m))
unfolding scpinout_round main_round auto_stop motor_move
round-not-IsPressing msg pt m = (λ h. ground arith, λ h. ground arith)
