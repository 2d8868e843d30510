-- ===== src/Current.antt =====
-- main/current_monitor.c: `current_monitor_task`, which keeps the faults of the motors' currents
-- What `adc_continuous_read` returns is an argument of each round. The limits that the task reads
-- from the settings at its start are `Limits`. Log output is left out.
use cat_litter_box.Common.{
  ℕ, ◌+◌, ◌*◌, ◌/◌, ◌%◌, ◌^◌, Bool, ◌&&◌, List, [], ◌∷◌, bit_or, length, ltb, ◌==◌, if◌then◌else◌,
}
pub mod Means
pub mod Faults

abbrev pub scp_inout_adc_ch : ℕ
scp_inout_adc_ch = 2

abbrev pub plate_adc_ch : ℕ
plate_adc_ch = 1

abbrev pub main_adc_ch : ℕ
main_adc_ch = 3

abbrev pub waste_adc_ch : ℕ
waste_adc_ch = 9

abbrev pub scp_spin_adc_ch : ℕ
scp_spin_adc_ch = 6

abbrev pub plate_fault : ℕ
plate_fault = 1

abbrev pub scp_inout_fault : ℕ
scp_inout_fault = 2

abbrev pub scp_spin_fault : ℕ
scp_spin_fault = 4

abbrev pub main_fault : ℕ
main_fault = 8

abbrev pub waste_fault : ℕ
waste_fault = 16

-- The task's `m1_cur` to `m5_cur`: below 2 ^ 32, since it compares them as unsigned numbers.
pub record Limits : Type 0 where
  pub m1_cur : ℕ
  pub m2_cur : ℕ
  pub m3_cur : ℕ
  pub m4_cur : ℕ
  pub m5_cur : ℕ

-- One result of the converter: `type2.channel` and `type2.data`
pub record Conversion : Type 0 where
  pub channel : ℕ
  pub raw : ℕ

-- `..._sum_raw` and `..._count` of one channel
pub record Sum : Type 0 where
  pub sum_raw : ℕ
  pub count : ℕ

pub record Sums : Type 0 where
  pub scp : Sum
  pub plate : Sum
  pub main : Sum
  pub waste : Sum
  pub scp_spin : Sum

abbrev pub zero_sum : Sum
zero_sum = record { sum_raw = 0; count = 0 }

abbrev pub zero_sums : Sums
zero_sums = record {
  scp = zero_sum;
  plate = zero_sum;
  main = zero_sum;
  waste = zero_sum;
  scp_spin = zero_sum;
}

abbrev pub add_raw : ℕ → Sum → Sum
add_raw x s = record { sum_raw = s.sum_raw + x; count = s.count + 1 }

unfoldable pub add_conversion : Conversion → Sums → Sums
add_conversion c s =
    let raw_data = c.raw % 2 ^ 12 in
    if c.channel == scp_inout_adc_ch
    then record s { scp = add_raw raw_data s.scp }
    else if c.channel == plate_adc_ch
    then record s { plate = add_raw raw_data s.plate }
    else if c.channel == main_adc_ch
    then record s { main = add_raw raw_data s.main }
    else if c.channel == waste_adc_ch
    then record s { waste = add_raw raw_data s.waste }
    else if c.channel == scp_spin_adc_ch
    then record s { scp_spin = add_raw raw_data s.scp_spin }
    else s

unfoldable pub add_conversions : List Conversion → Sums → Sums
add_conversions [] s = s
add_conversions (c ∷ cs) s = add_conversions cs (add_conversion c s)

-- A channel's branch: its mean as mA against its limit.
unfoldable pub judge : Sum → ℕ → ℕ → ℕ → ℕ
judge s limit fault status =
    if ltb 0 s.count
    then (let ma = s.sum_raw / s.count * 330 / 819 in
        if ltb limit ma then bit_or status fault else status)
    else status

-- One round of the task: whether the read returned `ESP_OK`, and the results it gave.
unfoldable pub monitor_round : Limits → Bool × List Conversion → ℕ → ℕ
monitor_round m (ok, cs) status =
    if ok && ltb 0 (length cs)
    then (let s = add_conversions cs zero_sums in
        let st1 = judge s.scp m.m2_cur scp_inout_fault status in
        let st2 = judge s.plate m.m1_cur plate_fault st1 in
        let st3 = judge s.main m.m4_cur main_fault st2 in
        let st4 = judge s.waste m.m5_cur waste_fault st3 in
        judge s.scp_spin m.m3_cur scp_spin_fault st4)
    else status

-- The rounds since `current_monitor_init`, which sets the status to 0.
unfoldable pub monitor : Limits → List (Bool × List Conversion) → ℕ → ℕ
monitor m [] status = status
monitor m (r ∷ rs) status = monitor m rs (monitor_round m r status)
