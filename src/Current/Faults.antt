-- ===== src/Current/Faults.antt =====
-- What the bits of `get_current_fault` of main/current_monitor.c stand for.
use cat_litter_box.Common.{
  ℕ, ◌+◌, Bool, true, false, ◌&&◌, ◌||◌, List, [], ◌∷◌, length, bit_or, ltb, if◌then◌else◌, ◌≡◌,
  refl, ◌∙◌, arith,
}
use cat_litter_box.Current.{
  plate_adc_ch, scp_inout_adc_ch, scp_spin_adc_ch, main_adc_ch, waste_adc_ch, plate_fault,
  scp_inout_fault, scp_spin_fault, main_fault, waste_fault, Limits, Conversion, zero_sum, zero_sums,
  judge, monitor_round, monitor,
}
use cat_litter_box.Current.Means.{
  values, tally, scp_lem, plate_lem, main_lem, spin_lem, waste_lem, high, sums_lem, judge_lem,
}

abbrev bits : Bool → Bool → Bool → Bool → Bool → ℕ
bits a b c d e =
    (if a then 1 else 0)
    + ((if b then 2 else 0)
        + ((if c then 4 else 0) + ((if d then 8 else 0) + (if e then 16 else 0))))

-- Whether a successful read among the rounds gave values of the channel that are too high.
abbrev seen : ℕ → ℕ → Bool × List Conversion → Bool
seen ch limit (ok, cs) = ok && high limit (values ch cs)

abbrev ever : ℕ → ℕ → List (Bool × List Conversion) → Bool
ever ch limit [] = false
ever ch limit (r ∷ rs) = seen ch limit r || ever ch limit rs

or_none :
    (a b c d e : Bool)
    → bits a b c d e ≡ bits (a || false) (b || false) (c || false) (d || false) (e || false)
or_none a b c d e = ground arith

or_assoc : (a b c : Bool) → (a || b) || c ≡ a || (b || c)
or_assoc a b c = ground arith

or_plate :
    (x a b c d e : Bool)
    → (if x then bit_or (bits a b c d e) 1 else bits a b c d e) ≡ bits (a || x) b c d e
or_plate x a b c d e = ground arith

judge_plate :
    (xs : List ℕ) (limit : ℕ) (a b c d e : Bool)
    → judge (tally xs zero_sum) limit plate_fault (bits a b c d e)
      ≡ bits (a || high limit xs) b c d e
judge_plate xs limit a b c d e =
    judge_lem xs limit plate_fault (bits a b c d e) ∙ or_plate (high limit xs) a b c d e

or_scp :
    (x a b c d e : Bool)
    → (if x then bit_or (bits a b c d e) 2 else bits a b c d e) ≡ bits a (b || x) c d e
or_scp x a b c d e = ground arith

judge_scp :
    (xs : List ℕ) (limit : ℕ) (a b c d e : Bool)
    → judge (tally xs zero_sum) limit scp_inout_fault (bits a b c d e)
      ≡ bits a (b || high limit xs) c d e
judge_scp xs limit a b c d e =
    judge_lem xs limit scp_inout_fault (bits a b c d e) ∙ or_scp (high limit xs) a b c d e

or_spin :
    (x a b c d e : Bool)
    → (if x then bit_or (bits a b c d e) 4 else bits a b c d e) ≡ bits a b (c || x) d e
or_spin x a b c d e = ground arith

judge_spin :
    (xs : List ℕ) (limit : ℕ) (a b c d e : Bool)
    → judge (tally xs zero_sum) limit scp_spin_fault (bits a b c d e)
      ≡ bits a b (c || high limit xs) d e
judge_spin xs limit a b c d e =
    judge_lem xs limit scp_spin_fault (bits a b c d e) ∙ or_spin (high limit xs) a b c d e

or_main :
    (x a b c d e : Bool)
    → (if x then bit_or (bits a b c d e) 8 else bits a b c d e) ≡ bits a b c (d || x) e
or_main x a b c d e = ground arith

judge_main :
    (xs : List ℕ) (limit : ℕ) (a b c d e : Bool)
    → judge (tally xs zero_sum) limit main_fault (bits a b c d e)
      ≡ bits a b c (d || high limit xs) e
judge_main xs limit a b c d e =
    judge_lem xs limit main_fault (bits a b c d e) ∙ or_main (high limit xs) a b c d e

or_waste :
    (x a b c d e : Bool)
    → (if x then bit_or (bits a b c d e) 16 else bits a b c d e) ≡ bits a b c d (e || x)
or_waste x a b c d e = ground arith

judge_waste :
    (xs : List ℕ) (limit : ℕ) (a b c d e : Bool)
    → judge (tally xs zero_sum) limit waste_fault (bits a b c d e)
      ≡ bits a b c d (e || high limit xs)
judge_waste xs limit a b c d e =
    judge_lem xs limit waste_fault (bits a b c d e) ∙ or_waste (high limit xs) a b c d e

round_read :
    (m : Limits) (cs : List Conversion) (a b c d e : Bool)
    → ltb 0 (length cs) ≡ true
    → monitor_round m (true, cs) (bits a b c d e)
      ≡ bits
          (a || seen 1 m.m1_cur (true, cs))
          (b || seen 2 m.m2_cur (true, cs))
          (c || seen 6 m.m3_cur (true, cs))
          (d || seen 3 m.m4_cur (true, cs))
          (e || seen 9 m.m5_cur (true, cs))
unfolding monitor_round
round_read m cs a b c d e h =
    rw
      (
        h,
        sums_lem 2 (λ s. s.scp) scp_lem cs zero_sums,
        judge_scp,
        sums_lem 1 (λ s. s.plate) plate_lem cs zero_sums,
        judge_plate,
        sums_lem 3 (λ s. s.main) main_lem cs zero_sums,
        judge_main,
        sums_lem 9 (λ s. s.waste) waste_lem cs zero_sums,
        judge_waste,
        sums_lem 6 (λ s. s.scp_spin) spin_lem cs zero_sums,
        judge_spin,
      )
      refl

round-bits :
    (m : Limits) (r : Bool × List Conversion) (a b c d e : Bool)
    → monitor_round m r (bits a b c d e)
      ≡ bits
          (a || seen 1 m.m1_cur r)
          (b || seen 2 m.m2_cur r)
          (c || seen 6 m.m3_cur r)
          (d || seen 3 m.m4_cur r)
          (e || seen 9 m.m5_cur r)
unfolding monitor_round
round-bits m (false, cs) a b c d e = or_none a b c d e
round-bits m (true, []) a b c d e = or_none a b c d e
round-bits m (true, c₀ ∷ cs) a b c d e = round_read m (c₀ ∷ cs) a b c d e (ground arith)

monitor_lem :
    (m : Limits) (rs : List (Bool × List Conversion)) (a b c d e : Bool)
    → monitor m rs (bits a b c d e)
      ≡ bits
          (a || ever 1 m.m1_cur rs)
          (b || ever 2 m.m2_cur rs)
          (c || ever 6 m.m3_cur rs)
          (d || ever 3 m.m4_cur rs)
          (e || ever 9 m.m5_cur rs)
unfolding monitor
monitor_lem m [] a b c d e = or_none a b c d e
monitor_lem m (r ∷ rs) a b c d e =
    rw
      (round-bits m r a b c d e, monitor_lem m rs, or_assoc, or_assoc, or_assoc, or_assoc, or_assoc)
      refl

-- From power-up, the fault of a motor is among the bits of `get_current_fault` exactly if a
-- successful read gave values of the motor's channel whose mean stands for more than its limit,
-- and no other bit is ever set.
pub monitor-bits :
    (m : Limits) (rs : List (Bool × List Conversion))
    → monitor m rs 0
      ≡ (if ever plate_adc_ch m.m1_cur rs then plate_fault else 0)
        + ((if ever scp_inout_adc_ch m.m2_cur rs then scp_inout_fault else 0)
            + ((if ever scp_spin_adc_ch m.m3_cur rs then scp_spin_fault else 0)
                + ((if ever main_adc_ch m.m4_cur rs then main_fault else 0)
                    + (if ever waste_adc_ch m.m5_cur rs then waste_fault else 0))))
monitor-bits m rs = monitor_lem m rs false false false false false
