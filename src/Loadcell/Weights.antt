-- ===== src/Loadcell/Weights.antt =====
-- main/loadcell.c: from the raw values of the sensor board to the weights, and the tare
-- Whether `xSemaphoreTake` succeeds is an argument. An `int64_t` is an integer: the sums of the
-- board's values stay far below its range. Log output is left out.
use cat_litter_box.Common.{
  ℕ, suc, ◌+◌, ◌-◌, ◌/◌, ◌%◌, ◌^◌, Bool, ◌&&◌, List, ◌∷◌, get_or, leb, ltb, if◌then◌else◌,
}
use cat_litter_box.Common.Int.{ℤ, pos, negsuc, ◌+ℤ◌, ◌-ℤ◌, sub_ℕ}
use cat_litter_box.Loadcell.{Floats, Cat, reset_cat_ring_buffer, process_cat_detection_fsm}

-- The `double`s beyond those of the detection.
pub record Doubles (floats : Floats) : Type 0 where
  pub of_int : ℤ → floats.D
  -- the conversion to `int64_t`
  pub to_int : floats.D → ℤ
  pub to_float : floats.D → floats.F
  pub add_d : floats.D → floats.D → floats.D
  pub sub_d : floats.D → floats.D → floats.D
  pub mul_d : floats.D → floats.D → floats.D
  pub lt_d : floats.D → floats.D → Bool
  pub weight_gain_v2 : floats.D
  pub weight_gain_v3 : floats.D
  pub weight_gain_v4 : floats.D
  pub weight_gain_v5 : floats.D
  pub scale_main : floats.D
  pub scale_waste : floats.D
  pub deadband_grams : floats.D
  pub minus_deadband_grams : floats.D

abbrev stage1_offset_v2 : ℤ
stage1_offset_v2 = pos 144607

abbrev stage1_offset_v3 : ℤ
stage1_offset_v3 = pos 330013

abbrev stage1_offset_v4 : ℤ
stage1_offset_v4 = pos 135682

abbrev stage1_offset_v5 : ℤ
stage1_offset_v5 = pos 212343

-- `/ 4` on an `int64_t`, which rounds towards zero
abbrev quarter : ℤ → ℤ
quarter (pos n) = pos (n / 4)
quarter (negsuc n) = sub_ℕ 0 ((n + 1) / 4)

-- `(int)` of an `int64_t`: its lower 32 bits, as a signed number
abbrev signed : ℕ → ℤ
signed u = if ltb u (2 ^ 31) then pos u else negsuc (2 ^ 32 - 1 - u)

abbrev pub as_int : ℤ → ℤ
as_int (pos n) = signed (n % 2 ^ 32)
as_int (negsuc n) = signed (2 ^ 32 - 1 - n % 2 ^ 32)

-- What `loadcell_proc` reads of other files: see `Sample`.
pub record Moment : Type 0 where
  pub clean_running : Bool
  pub clean_pause_flag : Bool
  pub recovery_requested : Bool
  pub now : ℕ

module _ (floats : Floats) (doubles : Doubles floats) where
  open floats use {D, zero_d}
  open doubles use {
    of_int, to_int, to_float, add_d, sub_d, mul_d, lt_d, weight_gain_v2, weight_gain_v3,
    weight_gain_v4, weight_gain_v5, scale_main, scale_waste, deadband_grams, minus_deadband_grams,
  }

  -- `saved` holds the calls of `save_lc_calibration_to_nvs`: the state and the value that all four
  -- offsets have, newest first.
  pub record Scale : Type 0 where
    pub current_main_sum : ℤ
    pub current_waste_sum : ℤ
    pub base_main_sum : ℤ
    pub base_waste_sum : ℤ
    pub final_main_weight : D
    pub final_waste_weight : D
    pub cat : Cat floats
    pub saved : List (ℕ × ℤ)

  -- `((double)raw - offset) * gain`
  abbrev corrected : ℤ → ℤ → D → D
  corrected raw offset gain = mul_d (sub_d (of_int raw) (of_int offset)) gain

  unfoldable pub main_sum : List ℤ → ℤ
  main_sum values = to_int (
      add_d
        (add_d
          (add_d (corrected (get_or values 2 (pos 0)) stage1_offset_v2 weight_gain_v2)
            (corrected (get_or values 3 (pos 0)) stage1_offset_v3 weight_gain_v3))
          (corrected (get_or values 4 (pos 0)) stage1_offset_v4 weight_gain_v4))
        (corrected (get_or values 5 (pos 0)) stage1_offset_v5 weight_gain_v5))

  unfoldable pub waste_sum : List ℤ → ℤ
  waste_sum values = get_or values 0 (pos 0) +ℤ get_or values 1 (pos 0)

  -- A weight within the dead band is none.
  unfoldable pub weigh : ℤ → ℤ → D → D
  weigh sum base scale =
      let calc = mul_d (of_int (sum -ℤ base)) scale in
      if lt_d minus_deadband_grams calc && lt_d calc deadband_grams then zero_d else calc

  -- The second result is that the detection sends UI_CLEAN_CMD.
  unfoldable pub loadcell_proc : Bool → Moment → List ℤ → Scale → Scale × Bool
  unfolding main_sum waste_sum weigh
  loadcell_proc locked t values s =
      let new_main_sum = main_sum values in
      let new_waste_sum = waste_sum values in
      let temp_main_weight = weigh new_main_sum s.base_main_sum scale_main in
      let temp_waste_weight = weigh new_waste_sum s.base_waste_sum scale_waste in
      let (cat', cmd) =
        process_cat_detection_fsm floats
          (record {
            weight = to_float temp_main_weight;
            clean_running = t.clean_running;
            clean_pause_flag = t.clean_pause_flag;
            recovery_requested = t.recovery_requested;
            now = t.now;
          })
          s.cat in
      let s' = record s {
        current_main_sum = new_main_sum;
        current_waste_sum = new_waste_sum;
        cat = cat';
      } in
      (
        if locked
            then record s' {
              final_main_weight = temp_main_weight;
              final_waste_weight = temp_waste_weight;
            }
            else s',
        cmd,
      )

  -- `execute_tare(state)`, for the `state` that is one less than the command.
  unfoldable pub execute_tare : Bool → ℤ → Scale → Scale
  execute_tare locked state s =
      if locked
      then record s {
        base_main_sum = s.current_main_sum;
        base_waste_sum = s.current_waste_sum;
        saved = (elim state [
          | pos (suc n) ↦ (suc n, as_int (quarter s.current_main_sum)) ∷ s.saved
          | _ ↦ s.saved
        ]);
        cat = reset_cat_ring_buffer floats s.cat;
      }
      else s

  -- A round of `loadcell_cmd_task` with a command: LOADCELL_TARE_CMD is 0, the last one 3.
  unfoldable pub loadcell_cmd : Bool → ℕ → Scale → Scale
  unfolding execute_tare
  loadcell_cmd locked cmd s = if leb cmd 3 then execute_tare locked (sub_ℕ cmd 1) s else s

  -- `get_weight(LOADCELL_MAIN)` and `get_weight(LOADCELL_WASTE)`
  unfoldable pub get_main_weight : Bool → Scale → D
  get_main_weight locked s = if locked then s.final_main_weight else zero_d

  unfoldable pub get_waste_weight : Bool → Scale → D
  get_waste_weight locked s = if locked then s.final_waste_weight else zero_d
