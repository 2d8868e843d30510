-- ===== src/Sensor/Serial.antt =====
-- main/main.c: `uart1_to_uart0_task`, which gathers the bytes of the sensor board into lines
use cat_litter_box.Common.{ℕ, ◌+◌, List, [], ◌∷◌, ◌++◌, length, drop, ltb, leb, if◌then◌else◌}
use cat_litter_box.Common.Int.{ℤ}
use cat_litter_box.Common.Strings.{c_string}
use cat_litter_box.Sensor.{Sensor}
use cat_litter_box.Sensor.Parser.{Output, uart_buf_size, sensor_data_parser}

module _ (sscanf : List ℕ → List ℤ) where
  -- A round whose read returned `bytes`. `buf` holds the `idx` bytes that were not yet used, the
  -- places after them are zero. (At exactly `uart_buf_size` bytes the
  -- source's array has no zero left; the theorems about the reads stay below that length.)
  unfoldable pub serial_round : List ℕ → List ℕ → Sensor → List Output × (Sensor × List ℕ)
  serial_round bytes buf s =
      if ltb 0 (length bytes)
      then (let buf' =
            (if leb (length buf + length bytes) uart_buf_size then buf ++ bytes else bytes) in
          let (out, (s', ret)) = sensor_data_parser sscanf (c_string buf') s in
          (out, (s', if ltb 0 ret then drop ret buf' else buf')))
      else ([], (s, buf))

  unfoldable pub serial : List (List ℕ) → List ℕ → Sensor → List Output × (Sensor × List ℕ)
  unfolding serial_round
  serial [] buf s = ([], (s, buf))
  serial (bytes ∷ rest) buf s =
      let (out, (s', buf')) = serial_round bytes buf s in
      let (more, end) = serial rest buf' s' in (out ++ more, end)
