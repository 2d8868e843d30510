-- ===== src/Examples/Lines.antt =====
-- Bytes on the two serial lines, and a console that reads them.
use cat_litter_box.Common.{
  ℕ, ◌≡◌, false, none, some, List, [], ◌∷◌, refl, arith, replicate, if◌then◌else◌,
}
use cat_litter_box.Common.Int.{ℤ, pos, minus_one}
use cat_litter_box.Motion.{plate, plate_cmd, forward}
use cat_litter_box.Sensor.{boot}
use cat_litter_box.Sensor.Serial.{serial}
use cat_litter_box.Sensor.Chunks.{handle_all, joined, serial-handle_all}
use cat_litter_box.Sensor.Split.{split}
use cat_litter_box.Console.RxRing
use cat_litter_box.Console.RxRing.{Op, put, get, empty_ring}
use cat_litter_box.Console.Fifo.{run_queue, run-refines}
use cat_litter_box.Console.Command.{starts, send}
use cat_litter_box.Console.Parser.{Scan, boot_parser, dispatch}
use cat_litter_box.Console.Stream.{Round, session}
use cat_litter_box.Console.Lines.{Line, carry_out, session-carry_out}

abbrev ops : List Op
ops = put b'a' ∷ put b'\n' ∷ get ∷ get ∷ get ∷ []

run-refines_example : (RxRing.run ops empty_ring).0 ≡ (run_queue ops []).0
run-refines_example = run-refines ops

taken : (run_queue ops []).0 ≡ some b'a' ∷ some b'\n' ∷ none ∷ []
taken = refl

-- A `sscanf` that finds "MP 1" in each line whose first byte is 'M', and else one word.
abbrev scan_plate : List ℕ → Scan
scan_plate line =
    if starts b'M' line
    then record {
      parsed_args = pos 2;
      cmd_type = b'M' ∷ b'P' ∷ [];
      dir_val = pos 1;
      angle_val = pos 0;
    }
    else record { parsed_args = pos 1; cmd_type = []; dir_val = minus_one; angle_val = pos 0 }

-- "MP 1\r" and "z\n", in rounds that cut the first line.
abbrev plate_line : Line
plate_line = record {
  text = (false, b'M') ∷ (false, b'P') ∷ (false, b' ') ∷ (false, b'1') ∷ [];
  ending = (false, b'\r');
}

abbrev stop_line : Line
stop_line = record { text = (false, b'z') ∷ []; ending = (false, b'\n') }

abbrev two_lines : List Line
two_lines = plate_line ∷ stop_line ∷ []

abbrev rounds : List Round
rounds =
    record { clean_running = false; bytes = b'M' ∷ b'P' ∷ [] }
    ∷ record { clean_running = false; bytes = b' ' ∷ b'1' ∷ b'\r' ∷ b'z' ∷ b'\n' ∷ [] }
    ∷ []

session-carry_out_example :
    (session scan_plate rounds empty_ring boot_parser).0 ≡ carry_out scan_plate two_lines false
session-carry_out_example =
    session-carry_out scan_plate two_lines rounds
      (
        record {
          text_is = (refl, refl, (refl, refl, (refl, refl, (refl, refl, tt))));
          fits = omega arith;
          ends = refl;
        },
        (record { text_is = (refl, refl, tt); fits = omega arith; ends = refl }, tt),
      )
      (
        omega arith,
        (refl, (refl, tt)),
        (omega arith, (refl, (refl, (refl, (refl, (refl, tt))))), tt),
      )
      refl

first_call : carry_out scan_plate (plate_line ∷ []) false ≡ send (plate plate_cmd 0 forward 0) ∷ []
unfolding dispatch starts
first_call = refl

-- A `sscanf` that finds no number.
abbrev no_values : List ℕ → List ℤ
no_values s = replicate 8 (pos 0)

-- "ST: OK\n", cut in two, and the beginning of another line.
abbrev chunks : List (List ℕ)
chunks = (b'S' ∷ b'T' ∷ b':' ∷ b' ' ∷ []) ∷ (b'O' ∷ b'K' ∷ b'\n' ∷ b'S' ∷ []) ∷ []

chunks_lines : (split (joined chunks)).1 ≡ b'S' ∷ []
chunks_lines = refl

serial-handle_all_example :
    let (ls, r) = split (joined chunks) in
    let (out, s') = handle_all no_values ls boot in serial no_values chunks [] boot ≡ (out, (s', r))
serial-handle_all_example = serial-handle_all no_values chunks boot (
  (refl, (refl, (refl, (refl, tt)))),
  omega arith,
  ((refl, (refl, (refl, (refl, (refl, (refl, (refl, (refl, tt)))))))), omega arith, tt),
)
