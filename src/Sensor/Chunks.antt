-- ===== src/Sensor/Chunks.antt =====
-- However the bytes of the sensor board are cut into reads, its lines are handled once each.
use mathlib.Core.List.{append_assoc, append-nil}
use cat_litter_box.Common.{
  ℕ, zero, suc, ◌+◌, ◌≤◌, ◌<◌, Option, none, some, List, [], ◌∷◌, ◌++◌, length, length-drop, drop,
  drop-drop, if◌then◌else◌, ◌≡◌, refl, sym, ap, ◌∙◌, arith, ltb, lt→ltb, le→leb, length-append,
}
use cat_litter_box.Common.Int.{ℤ}
use cat_litter_box.Common.Strings.{NoZero, c_string_lem}
use cat_litter_box.Sensor.{Sensor}
use cat_litter_box.Sensor.Parser.{
  Output, uart_buf_size, get_line, sensor_line, parse_lines, sensor_data_parser,
}
use cat_litter_box.Sensor.Serial.{serial_round, serial}
use cat_litter_box.Sensor.Split.{split, Reads, get_line-Reads, split-append, split-rest}

module _ (sscanf : List ℕ → List ℤ) where
  -- Some lines, one after the other.
  abbrev pub handle_all : List (List ℕ) → Sensor → List Output × Sensor
  handle_all [] s = ([], s)
  handle_all (l ∷ ls) s =
      let (out, s') = sensor_line sscanf l s in
      let (rest, s'') = handle_all ls s' in (out ++ rest, s'')

  handle_all-append :
      (ls ms : List (List ℕ)) (s : Sensor)
      → let (out, s') = handle_all ls s in
        let (rest, s'') = handle_all ms s' in handle_all (ls ++ ms) s ≡ (out ++ rest, s'')
  handle_all-append [] ms s = refl
  handle_all-append (l ∷ ls) ms s =
      let (out, s') = sensor_line sscanf l s in
      rw (handle_all-append ls ms s', append_assoc out (handle_all ls s').0) refl

  -- What the parser has done with `xs`.
  record Parsed (xs : List ℕ) (s : Sensor) (r : List Output × (Sensor × ℕ)) : Type 0 where
    outputs : r.0 ≡ (handle_all (split xs).0 s).0
    state : r.1.0 ≡ (handle_all (split xs).0 s).1
    unused : drop r.1.1 xs ≡ (split xs).1
    used_le : r.1.1 ≤ length xs

module _ (sscanf : List ℕ → List ℤ) where
  -- A round of the loop, if the rest of the text is parsed.
  parse_line-Parsed :
      (fuel : ℕ) (xs : List ℕ) (s : Sensor) (o : Option (List ℕ × ℕ))
      → ((ys : List ℕ) (s' : Sensor)
          → length ys ≤ fuel
          → Parsed sscanf ys s' (parse_lines sscanf fuel ys s'))
      → length xs ≤ suc fuel
      → get_line xs (length xs) ≡ o
      → Reads xs o
      → Parsed sscanf xs s (parse_lines sscanf (suc fuel) xs s)
  unfolding parse_lines
  parse_line-Parsed fuel xs s none ih h e r =
      rw (parse_lines, e)
        (record {
          outputs = rw r refl;
          state = rw r refl;
          unused = rw r refl;
          used_le = omega arith;
        })
  parse_line-Parsed fuel xs s (some (l, k)) ih h e (r, lo, hi) =
      let (out, s') = sensor_line sscanf l s in
      let p = ih (drop k xs) s' (omega (arith, length-drop k xs)) in
      rw (parse_lines, e)
        (record {
          outputs = rw r (ap (λ os. out ++ os) p.outputs);
          state = rw r p.state;
          unused = rw r (sym (drop-drop k _ xs) ∙ p.unused);
          used_le = omega (arith, p.used_le, length-drop k xs);
        })

  parse_lines-Parsed :
      (fuel : ℕ) (xs : List ℕ) (s : Sensor)
      → length xs ≤ fuel
      → Parsed sscanf xs s (parse_lines sscanf fuel xs s)
  unfolding parse_lines
  parse_lines-Parsed zero [] s h = record {
    outputs = refl;
    state = refl;
    unused = refl;
    used_le = omega arith;
  }
  parse_lines-Parsed zero (x ∷ xs) s h = absurd (omega arith)
  parse_lines-Parsed (suc fuel) xs s h =
      parse_line-Parsed fuel xs s (get_line xs (length xs)) (parse_lines-Parsed fuel) h refl
        (get_line-Reads xs)

-- Reads as the task needs them: no zero byte, and at no time 512 bytes or more that are not yet
-- a whole line and those just read.
abbrev pub Fits : List ℕ → List (List ℕ) → Type 0
Fits buf [] = Unit
Fits buf (bytes ∷ rest) =
    NoZero (buf ++ bytes)
    × (length (buf ++ bytes) < uart_buf_size)
    × Fits (split (buf ++ bytes)).1 rest

abbrev pub joined : List (List ℕ) → List ℕ
joined [] = []
joined (bytes ∷ rest) = bytes ++ joined rest

drop_used : (k : ℕ) (xs : List ℕ) → (if ltb 0 k then drop k xs else xs) ≡ drop k xs
drop_used zero xs = refl
drop_used (suc k) xs = rw (lt→ltb 0 (suc k) (omega arith)) refl

module _ (sscanf : List ℕ → List ℤ) where
  -- A round handles the lines that its bytes complete, and keeps the rest.
  serial_round_lem :
      (bytes buf : List ℕ) (s : Sensor)
      → split buf ≡ ([], buf)
      → NoZero (buf ++ bytes)
      → length (buf ++ bytes) ≤ uart_buf_size
      → let (ls, r) = split (buf ++ bytes) in
        let (out, s') = handle_all sscanf ls s in serial_round sscanf bytes buf s ≡ (out, (s', r))
  unfolding serial_round sensor_data_parser
  serial_round_lem [] buf s e z h = rw (append-nil, e) refl
  serial_round_lem (b ∷ bytes) buf s e z h =
      let xs = buf ++ (b ∷ bytes) in
      let p = parse_lines-Parsed sscanf (length xs) xs s (omega arith) in
      let fits =
        (le→leb (length buf + length (b ∷ bytes)) uart_buf_size
          (omega (arith, length-append buf (b ∷ bytes)))) in
      rw
        (
          serial_round,
          lt→ltb 0 (length (b ∷ bytes)) (omega arith),
          fits,
          c_string_lem xs z,
          drop_used _ xs,
          p.outputs,
          p.state,
          p.unused,
        )
        refl

  serial_lem :
      (chunks : List (List ℕ)) (buf : List ℕ) (s : Sensor)
      → split buf ≡ ([], buf)
      → Fits buf chunks
      → let (ls, r) = split (buf ++ joined chunks) in
        let (out, s') = handle_all sscanf ls s in serial sscanf chunks buf s ≡ (out, (s', r))
  unfolding serial
  serial_lem [] buf s e f = rw (append-nil, e) refl
  serial_lem (bytes ∷ rest) buf s e (z, h, f) =
      let (ls, r) = split (buf ++ bytes) in
      let (out, s') = handle_all sscanf ls s in
      rw
        (
          serial,
          serial_round_lem bytes buf s e z (omega arith),
          serial_lem rest r s' (split-rest (buf ++ bytes)) f,
          sym (append_assoc buf bytes (joined rest)),
          split-append (buf ++ bytes) (joined rest),
          handle_all-append sscanf ls (split (r ++ joined rest)).0 s,
        )
        refl

  -- From an empty buffer on, the task handles the lines of all bytes that have come, in their
  -- order and each once, and keeps what follows the last '\n', however the bytes are cut into reads:
  -- as long as no byte is zero and a read together with the bytes kept is less than 512 bytes.
  pub serial-handle_all :
      (chunks : List (List ℕ)) (s : Sensor)
      → Fits [] chunks
      → let (ls, r) = split (joined chunks) in
        let (out, s') = handle_all sscanf ls s in serial sscanf chunks [] s ≡ (out, (s', r))
  serial-handle_all chunks s f = serial_lem chunks [] s refl f
