-- ===== src/Console/Parser.antt =====
-- main/main.c: `uart_parser` and a round of `uart_process`
-- `sscanf` and `uart_read_bytes` are not part of the repository: what `sscanf` finds in a line and
-- the bytes of a read are parameters. Log output is left out.
use cat_litter_box.Common.{
  ℕ, zero, suc, ◌+◌, ◌-◌, ◌%◌, ◌^◌, Bool, true, false, not, ◌||◌, none, some, List, [], ◌∷◌, ◌++◌,
  replicate, set, ltb, ◌==◌, if◌then◌else◌, length,
}
use cat_litter_box.Common.Int.{ℤ, pos, negsuc, leb_ℤ, eq_ℤ}
use cat_litter_box.Common.Strings.{c_string, eq_bytes}
use cat_litter_box.Motion.{
  waste_cover_cmd, plate_cmd, scp_inout_cmd, scp_spin_cmd, main_cover_cmd, Direction, forward,
  reverse, stop, plate, scpinout, main_cover, waste, scpspin,
}
use cat_litter_box.Console.RxRing.{rx_buf_size, RingBuffer, push, pop}
use cat_litter_box.Console.Command.{Call, send, process_command}

abbrev pub parse_buf_size : ℕ
parse_buf_size = 128

-- The result of `sscanf(parse_buf, "%15s %d %d", cmd_type, &dir_val, &angle_val)`.
pub record Scan : Type 0 where
  pub parsed_args : ℤ
  pub cmd_type : List ℕ
  pub dir_val : ℤ
  pub angle_val : ℤ

-- An `int` as a `uint32_t`.
abbrev pub to_uint32 : ℤ → ℕ
to_uint32 (pos n) = n % 2 ^ 32
to_uint32 (negsuc n) = 2 ^ 32 - 1 - n % 2 ^ 32

abbrev pub target_dir : ℤ → Direction
target_dir v = if eq_ℤ v (pos 1) then forward else if eq_ℤ v (pos 2) then reverse else stop

-- `parse_buf`, `parse_idx` and `xScpSpinTestTaskHandle != NULL`
pub record Parser : Type 0 where
  pub parse_buf : List ℕ
  pub parse_idx : ℕ
  pub test_running : Bool

abbrev pub boot_parser : Parser
boot_parser = record { parse_buf = replicate parse_buf_size 0; parse_idx = 0; test_running = false }

-- the loop of `uart_process` over the bytes that it has read
unfoldable pub push_all : List ℕ → RingBuffer → RingBuffer
push_all [] r = r
push_all (x ∷ xs) r = push_all xs (push x r)

module _ (sscanf : List ℕ → Scan) where
  -- A finished line, with the results of `process_command`.
  unfoldable pub dispatch : Bool → Bool → List ℕ → List Call × Bool
  dispatch clean_running test_running line =
      let s = sscanf line in
      let dir = target_dir s.dir_val in
      let command = process_command clean_running test_running line in
      if leb_ℤ (pos 2) s.parsed_args
      then if eq_bytes s.cmd_type (b'M' ∷ b'P' ∷ [])
        then (send (plate plate_cmd 0 dir 0) ∷ [], test_running)
        else if eq_bytes s.cmd_type (b'M' ∷ b'I' ∷ [])
        then (send (scpinout scp_inout_cmd 0 dir 0) ∷ [], test_running)
        else if eq_bytes s.cmd_type (b'M' ∷ b'M' ∷ [])
        then (send (main_cover main_cover_cmd 0 dir 0) ∷ [], test_running)
        else if eq_bytes s.cmd_type (b'M' ∷ b'W' ∷ [])
        then (send (waste waste_cover_cmd 0 dir 0) ∷ [], test_running)
        else if eq_bytes s.cmd_type (b'M' ∷ b'S' ∷ [])
        then (send (scpspin scp_spin_cmd (to_uint32 s.angle_val) dir 0) ∷ [], test_running)
        else command
      else if ltb 0 (length line)
      then command
      else ([], test_running)

  -- The loop's body for a byte that is not '$'.
  unfoldable pub parse_byte : Bool → ℕ → Parser → List Call × Parser
  unfolding dispatch
  parse_byte clean_running ch p =
      let buf = set p.parse_buf p.parse_idx ch in
      let idx = p.parse_idx + 1 in
      let ended = set buf idx 0 in
      let (calls, test) = dispatch clean_running p.test_running (c_string ended) in
      if not (ltb p.parse_idx (parse_buf_size - 1))
      then ([], record p { parse_idx = 0 })
      else if ch == b'\r' || ch == b'\n'
      then (calls, record { parse_buf = ended; parse_idx = 0; test_running = test })
      else ([], record p { parse_buf = buf; parse_idx = idx })

  -- `uart_parser`: the calls it makes. Each round of the loop takes a byte out of the ring.
  unfoldable pub uart_parser : ℕ → Bool → RingBuffer → Parser → List Call × (RingBuffer × Parser)
  unfolding parse_byte
  uart_parser zero clean_running r p = ([], (r, p))
  uart_parser (suc fuel) clean_running r p =
      let (ch, r') = pop r in
      elim ch [
        | none ↦ ([], (r', p))
        | some c ↦ elim (c == b'$') [
          | true ↦ ([], (r', record p { parse_idx = 0 }))
          | false ↦
              let (calls, p') = parse_byte clean_running c p in
              let (rest, end) = uart_parser fuel clean_running r' p' in (calls ++ rest, end)
        ]
      ]

  -- A round of `uart_process` whose read returned `bytes`. The ring holds at most 255 bytes.
  unfoldable pub uart_round :
      Bool → List ℕ → RingBuffer → Parser → List Call × (RingBuffer × Parser)
  unfolding uart_parser
  uart_round clean_running bytes r p = uart_parser rx_buf_size clean_running (push_all bytes r) p
