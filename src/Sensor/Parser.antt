-- ===== src/Sensor/Parser.antt =====
-- main/sensor.c: `get_line` and `sensor_data_parser`, the lines of the sensor board
-- `sscanf` is not part of the repository: the values it finds are a parameter. Bytes are natural
-- numbers, a string is the list of its bytes. Allocation does not fail. Log output is left out.
use cat_litter_box.Common.{
  ℕ, zero, suc, ◌+◌, ◌-◌, ◌%◌, true, Option, none, some, List, [], ◌∷◌, ◌++◌, length, drop, get_or,
  bit_or, bit_xor, ltb, ◌==◌, if◌then◌else◌,
}
use cat_litter_box.Common.Int.{ℤ, pos, negsuc}
use cat_litter_box.Common.Strings.{has_prefix}
use cat_litter_box.Sensor.{
  Sensor, pt_bit_scp_spin_st, pt_bit_scp_spin_ed, set_pt_status, set_sensor_enable, tof_proc,
}

abbrev pub uart_buf_size : ℕ
uart_buf_size = 512

-- `get_line`: the bytes before the first '\n' among the first `limit`, and the count with it.
unfoldable pub get_line : List ℕ → ℕ → Option (List ℕ × ℕ)
get_line buf zero = none
get_line [] (suc limit) = none
get_line (x ∷ buf) (suc limit) =
    let rest = get_line buf limit in
    if x == b'\n'
    then some ([], 1)
    else elim rest [ none ↦ none | some r ↦ some (x ∷ r.0, suc r.1) ]

-- The low 16 bits of an `int`.
abbrev pub low_16 : ℤ → ℕ
low_16 (pos n) = n % 65536
low_16 (negsuc n) = 65535 - n % 65536

-- What a line makes other files do.
pub data Output : Type 0 where
  to_loadcell : List ℤ → Output
  led_error_cmd : Output

module _ (sscanf : List ℕ → List ℤ) where
  -- A line that begins with "SS: ": `values` are eight, those not found 0.
  unfoldable pub values_line : List ℕ → Sensor → List Output × Sensor
  values_line data_ptr s =
      let values = sscanf data_ptr in
      let current_pt =
        bit_xor (low_16 (get_or values 7 (pos 0))) (bit_or pt_bit_scp_spin_st pt_bit_scp_spin_ed) in
      let s' = (tof_proc (get_or values 6 (pos 0)) s).1 in
      (
        to_loadcell values ∷ [],
        record (set_pt_status current_pt s') { prev_pt_value = pos current_pt },
      )

  -- The loop's body.
  unfoldable pub sensor_line : List ℕ → Sensor → List Output × Sensor
  unfolding values_line
  sensor_line str s =
      if has_prefix (b'S' ∷ b'S' ∷ b':' ∷ b' ' ∷ []) str
      then if ltb (length (drop 4 str)) (uart_buf_size - 4)
        then values_line (drop 4 str) s
        else ([], s)
      else if has_prefix (b'S' ∷ b'T' ∷ b':' ∷ b' ' ∷ b'O' ∷ b'K' ∷ []) str
      then ([], set_sensor_enable true s)
      else if has_prefix (b'S' ∷ b'T' ∷ b':' ∷ b' ' ∷ b'F' ∷ b'A' ∷ b'I' ∷ b'L' ∷ []) str
      then ([], s)
      else if has_prefix (b'E' ∷ b'R' ∷ b':' ∷ b' ' ∷ []) str
      then (led_error_cmd ∷ [], s)
      else ([], s)

  -- The loop from a place where a line begins: the outputs, the state and the bytes used. Each
  -- round uses a byte or more.
  unfoldable pub parse_lines : ℕ → List ℕ → Sensor → List Output × (Sensor × ℕ)
  unfolding get_line sensor_line
  parse_lines zero ptr s = ([], (s, 0))
  parse_lines (suc fuel) ptr s = elim (get_line ptr (length ptr)) [
    | none ↦ ([], (s, 0))
    | some (str, idx) ↦
        let (out, s') = sensor_line str s in
        let (rest, (s'', used)) = parse_lines fuel (drop idx ptr) s' in
        (out ++ rest, (s'', idx + used))
  ]

  unfoldable pub sensor_data_parser : List ℕ → Sensor → List Output × (Sensor × ℕ)
  unfolding parse_lines
  sensor_data_parser input s = parse_lines (length input) input s
