-- ===== src/Loadcell/Tare.antt =====
-- The tare of main/loadcell.c, and the detection's buffer under it.
use cat_litter_box.Common.{ℕ, ◌≤◌, ◌≡◌, refl, Bool, true, false, List, [], ◌∷◌, arith}
use cat_litter_box.Common.Int.{ℤ, pos, ◌-ℤ◌}
use cat_litter_box.Loadcell.{Floats}
use cat_litter_box.Loadcell.Ring.{IsValid, reset-IsValid, process-IsValid}
use cat_litter_box.Loadcell.Weights.{
  Doubles, Moment, Scale, main_sum, waste_sum, weigh, loadcell_proc, execute_tare, loadcell_cmd,
  get_main_weight, get_waste_weight,
}

self_minus : (a : ℤ) → a -ℤ a ≡ pos 0
unfolding ◌-ℤ◌
self_minus a = ground arith

module _ (floats : Floats) (doubles : Doubles floats) where
  -- The difference 0 lies within the dead band.
  pub record IsQuiet (scale : floats.D) : Type 0 where
    pub above :
        doubles.lt_d doubles.minus_deadband_grams (doubles.mul_d (doubles.of_int (pos 0)) scale)
        ≡ true
    pub below :
        doubles.lt_d (doubles.mul_d (doubles.of_int (pos 0)) scale) doubles.deadband_grams ≡ true

  weigh_base :
      (a : ℤ) (scale : floats.D) → IsQuiet scale → weigh floats doubles a a scale ≡ floats.zero_d
  unfolding weigh
  weigh_base a scale q = rw (self_minus a, q.above, q.below) refl

  -- A tare that obtains the mutex takes away what lies on the scale: the same values, sent again, then
  -- weigh 0 on both scales. That holds for a `double` arithmetic in which 0 times the scale's factor
  -- lies within the dead band.
  pub loadcell_cmd-zero :
      (cmd : ℕ) (values : List ℤ) (locked : Bool) (t t' : Moment) (s : Scale floats doubles)
      → cmd ≤ 3
      → IsQuiet doubles.scale_main
      → IsQuiet doubles.scale_waste
      → let s1 = (loadcell_proc floats doubles locked t values s).0 in
        let s2 = loadcell_cmd floats doubles true cmd s1 in
        let s3 = (loadcell_proc floats doubles true t' values s2).0 in
        (get_main_weight floats doubles true s3 ≡ floats.zero_d)
        × (get_waste_weight floats doubles true s3 ≡ floats.zero_d)
  unfolding loadcell_proc loadcell_cmd execute_tare get_main_weight get_waste_weight
  loadcell_cmd-zero cmd values locked t t' s h q q' = ground (
    arith,
    weigh_base (main_sum floats doubles values) doubles.scale_main q,
    weigh_base (waste_sum floats doubles values) doubles.scale_waste q',
  )

  -- What reaches the file from other tasks.
  pub data Input : Type 0 where
    weighed : (locked : Bool) (t : Moment) (values : List ℤ) → Input
    command : (locked : Bool) (cmd : ℕ) → Input

  unfoldable pub run_inputs : List Input → Scale floats doubles → Scale floats doubles
  run_inputs [] s = s
  run_inputs (weighed locked t values ∷ is) s =
      run_inputs is (loadcell_proc floats doubles locked t values s).0
  run_inputs (command locked cmd ∷ is) s = run_inputs is (loadcell_cmd floats doubles locked cmd s)

  proc-IsValid :
      (locked : Bool) (t : Moment) (values : List ℤ) (s : Scale floats doubles)
      → IsValid floats s.cat
      → IsValid floats (loadcell_proc floats doubles locked t values s).0.cat
  unfolding loadcell_proc
  proc-IsValid true t values s v = process-IsValid floats _ s.cat v
  proc-IsValid false t values s v = process-IsValid floats _ s.cat v

  cmd-IsValid :
      (locked : Bool) (cmd : ℕ) (s : Scale floats doubles)
      → IsValid floats s.cat
      → IsValid floats (loadcell_cmd floats doubles locked cmd s).cat
  unfolding loadcell_cmd execute_tare
  cmd-IsValid locked cmd s v = ground (arith, reset-IsValid floats s.cat)

  -- The detection's buffer stays valid, its indices in range, whatever values and tare commands come.
  pub inputs_keep-IsValid :
      (is : List Input) (s : Scale floats doubles)
      → IsValid floats s.cat
      → IsValid floats (run_inputs is s).cat
  unfolding run_inputs
  inputs_keep-IsValid [] s v = v
  inputs_keep-IsValid (weighed locked t values ∷ is) s v =
      inputs_keep-IsValid is _ (proc-IsValid locked t values s v)
  inputs_keep-IsValid (command locked cmd ∷ is) s v =
      inputs_keep-IsValid is _ (cmd-IsValid locked cmd s v)
