-- ===== src/Console/Stops.antt =====
-- What the console does to the emergency stop of main/motor.c.
use cat_litter_box.Common.{ℕ, Bool, true, false, not, ◌&&◌, ◌||◌, List, [], ◌∷◌, length, ◌==◌}
use cat_litter_box.Common.Int.{pos, leb_ℤ}
use cat_litter_box.Common.Strings.{eq_bytes, codes}
use cat_litter_box.Console.Parser.{Scan}
use cat_litter_box.Console.Command.{Call, clear_emergency_stop, set_emergency_stop}

-- `emergency_stop_flag` after some calls.
abbrev pub estop_after : List Call → Bool → Bool
estop_after [] flag = flag
estop_after (c ∷ cs) flag =
    estop_after cs (elim c [ clear_emergency_stop ↦ false | set_emergency_stop ↦ true | _ ↦ flag ])

-- A line that drives one motor: one of five words, and a number.
abbrev pub is_motor_line : Scan → Bool
is_motor_line s =
    leb_ℤ (pos 2) s.parsed_args
    && (eq_bytes s.cmd_type (codes "MP")
        || eq_bytes s.cmd_type (codes "MI")
        || eq_bytes s.cmd_type (codes "MM")
        || eq_bytes s.cmd_type (codes "MW")
        || eq_bytes s.cmd_type (codes "MS"))

-- An empty line, in which no number is found.
abbrev pub is_empty_line : Scan → List ℕ → Bool
is_empty_line s line = not (leb_ℤ (pos 2) s.parsed_args) && length line == 0
