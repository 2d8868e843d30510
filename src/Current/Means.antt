-- ===== src/Current/Means.antt =====
-- The sums and means by channel of main/current_monitor.c.
use cat_litter_box.Common.{
  ℕ, ◌+◌, ◌*◌, ◌/◌, ◌%◌, ◌^◌, Bool, true, false, ◌&&◌, List, [], ◌∷◌, length, bit_or, ltb, ◌==◌,
  if◌then◌else◌, ◌≡◌, refl, arith,
}
use cat_litter_box.Current.{
  Conversion, Sum, Sums, zero_sum, add_raw, add_conversion, add_conversions, judge,
}

-- The values of a channel among the results.
abbrev pub values : ℕ → List Conversion → List ℕ
values ch [] = []
values ch (c ∷ cs) =
    let rest = values ch cs in if c.channel == ch then c.raw % 2 ^ 12 ∷ rest else rest

abbrev pub tally : List ℕ → Sum → Sum
tally [] s = s
tally (x ∷ xs) s = tally xs (add_raw x s)

pub scp_lem :
    (c : Conversion) (s : Sums)
    → (add_conversion c s).scp ≡ (if c.channel == 2 then add_raw (c.raw % 2 ^ 12) s.scp else s.scp)
unfolding add_conversion
scp_lem c s = ground arith

pub plate_lem :
    (c : Conversion) (s : Sums)
    → (add_conversion c s).plate
      ≡ (if c.channel == 1 then add_raw (c.raw % 2 ^ 12) s.plate else s.plate)
unfolding add_conversion
plate_lem c s = ground arith

pub main_lem :
    (c : Conversion) (s : Sums)
    → (add_conversion c s).main
      ≡ (if c.channel == 3 then add_raw (c.raw % 2 ^ 12) s.main else s.main)
unfolding add_conversion
main_lem c s = ground arith

pub spin_lem :
    (c : Conversion) (s : Sums)
    → (add_conversion c s).scp_spin
      ≡ (if c.channel == 6 then add_raw (c.raw % 2 ^ 12) s.scp_spin else s.scp_spin)
unfolding add_conversion
spin_lem c s = ground arith

pub waste_lem :
    (c : Conversion) (s : Sums)
    → (add_conversion c s).waste
      ≡ (if c.channel == 9 then add_raw (c.raw % 2 ^ 12) s.waste else s.waste)
unfolding add_conversion
waste_lem c s = ground arith

abbrev total : List ℕ → ℕ
total [] = 0
total (x ∷ xs) = x + total xs

-- Whether the mean of some values stands for a current above the limit.
abbrev pub high : ℕ → List ℕ → Bool
high limit xs = ltb 0 (length xs) && ltb limit (total xs / length xs * 330 / 819)

tally-sum_raw : (xs : List ℕ) (s : Sum) → (tally xs s).sum_raw ≡ s.sum_raw + total xs
tally-sum_raw [] s = omega arith
tally-sum_raw (x ∷ xs) s = let e = tally-sum_raw xs (add_raw x s) in omega arith

tally-count : (xs : List ℕ) (s : Sum) → (tally xs s).count ≡ s.count + length xs
tally-count [] s = omega arith
tally-count (x ∷ xs) s = let e = tally-count xs (add_raw x s) in omega arith

pub sums_lem :
    (ch : ℕ) (f : Sums → Sum)
    → ((c : Conversion) (s : Sums)
        → f (add_conversion c s)
          ≡ (if c.channel == ch then add_raw (c.raw % 2 ^ 12) (f s) else f s))
    → (cs : List Conversion) (s : Sums) → f (add_conversions cs s) ≡ tally (values ch cs) (f s)
unfolding add_conversions
sums_lem ch f step [] s = refl
sums_lem ch f step (c ∷ cs) s =
    rw (sums_lem ch f step cs (add_conversion c s), step c s)
      (elim (c.channel == ch)
        as (λ x.
          tally (values ch cs) (if x then add_raw (c.raw % 2 ^ 12) (f s) else f s)
          ≡ tally (if x then c.raw % 2 ^ 12 ∷ values ch cs else values ch cs) (f s)) [
            | true ↦ refl
            | false ↦ refl
          ])

pub judge_lem :
    (xs : List ℕ) (limit fault st : ℕ)
    → judge (tally xs zero_sum) limit fault st ≡ (if high limit xs then bit_or st fault else st)
unfolding judge
judge_lem xs limit fault st =
    rw (total_lem, length_lem)
      (elim (ltb 0 (length xs))
        as (λ x.
          (if x then (if above then bit_or st fault else st) else st)
          ≡ (if x && above then bit_or st fault else st)) [ true ↦ refl | false ↦ refl ])
  where
    above : Bool
    above = ltb limit (total xs / length xs * 330 / 819)

    total_lem : (tally xs zero_sum).sum_raw ≡ total xs
    total_lem = let e = tally-sum_raw xs zero_sum in omega arith

    length_lem : (tally xs zero_sum).count ≡ length xs
    length_lem = let e = tally-count xs zero_sum in omega arith
