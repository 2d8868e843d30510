-- ===== src/Wifi/Scan.antt =====
-- main/wifi/wifi_task.c: `wifi_scan_start` and the removal of duplicates from what it found
-- A `wifi_ap_record_t` is the driver's; of its fields the code reads three, and it is copied whole.
-- Its `ssid` is held up to the terminating zero, which makes `strncmp` over the array an equality.
-- Log output and delays are left out; `free` and `realloc` keep the records.
pub mod Best
pub mod Distinct
pub mod Found
use mathlib.Core.Option
use cat_litter_box.Common.{
  ℕ, zero, suc, ◌+◌, Bool, Option, none, some, List, [], ◌∷◌, length, get_elem?, set, take,
  replicate, ltb, leb, ◌==◌, if◌then◌else◌,
}
use cat_litter_box.Common.Int.{ℤ, pos, ltb_ℤ}
use cat_litter_box.Common.Strings.{eq_bytes}

pub record ApRecord : Type 0 where
  pub ssid : List ℕ
  pub rssi : ℤ
  pub authmode : ℕ

abbrev pub wifi_max_value : ℕ
wifi_max_value = 30

abbrev pub same_ssid : ApRecord → ApRecord → Bool
same_ssid a b = eq_bytes a.ssid b.ssid

-- The least `j` below `new_count` at which `list` has the SSID: `found`, or `none` for its -1.
unfoldable pub find_same : ApRecord → List ApRecord → ℕ → Option ℕ
find_same a [] new_count = none
find_same a (b ∷ list) zero = none
find_same a (b ∷ list) (suc new_count) =
    if same_ssid a b then some 0 else Option.map suc (find_same a list new_count)

-- `list[found]` gives way to a stronger record.
unfoldable pub strengthen : ApRecord → List ApRecord → ℕ → List ApRecord
strengthen a [] found = []
strengthen a (b ∷ list) zero = if ltb_ℤ b.rssi a.rssi then a ∷ list else b ∷ list
strengthen a (b ∷ list) (suc found) = b ∷ strengthen a list found

abbrev pub put_record : ApRecord → Option ℕ → ℕ → List ApRecord → ℕ → List ApRecord × ℕ
put_record a (some found) i list new_count = (strengthen a list found, new_count)
put_record a none i list new_count =
    (if i == new_count then list else set list new_count a, suc new_count)

-- A round of the outer loop, at `list[i]`. Past the end of the array there is nothing to read.
abbrev pub dedup_at : Option ApRecord → ℕ → List ApRecord → ℕ → List ApRecord × ℕ
dedup_at none i list new_count = (list, new_count)
dedup_at (some a) i list new_count = put_record a (find_same a list new_count) i list new_count

-- The rounds from `i` on, `rest` of them.
unfoldable pub dedup_loop : ℕ → ℕ → List ApRecord → ℕ → List ApRecord × ℕ
dedup_loop zero i list new_count = (list, new_count)
dedup_loop (suc rest) i list new_count =
    let (list', new_count') = dedup_at (get_elem? list i) i list new_count in
    dedup_loop rest (suc i) list' new_count'

-- The array it leaves, and its result.
unfoldable pub remove_duplicate_best_rssi : List ApRecord → ℕ → List ApRecord × ℕ
remove_duplicate_best_rssi list count = dedup_loop count 0 list 0

-- What one of the three scans gives: `esp_wifi_scan_start` fails, there is no memory for the
-- records, or these records come.
pub data ScanResult : Type 0 where
  scan_failed : ScanResult
  no_memory : ScanResult
  scanned : List ApRecord → ScanResult

-- Each record goes to the end of the array while it has a place.
unfoldable pub append_records : List ApRecord → List ApRecord → ℕ → List ApRecord × ℕ
append_records [] temp total = (temp, total)
append_records (r ∷ rs) temp total =
    if ltb total wifi_max_value
    then append_records rs (set temp total r) (suc total)
    else (temp, total)

unfoldable pub collect : List ApRecord → List ApRecord → ℕ → List ApRecord × ℕ
collect [] temp total = (temp, total)
collect (r ∷ rs) temp total =
    let (temp', total') = append_records (r ∷ rs) temp total in
    remove_duplicate_best_rssi temp' total'

-- The scans that are left. A failed one goes on to the next, as does one that leaves places free.
unfoldable pub scan_loop : List ScanResult → List ApRecord → ℕ → List ApRecord × ℕ
scan_loop [] temp total = (temp, total)
scan_loop (scan_failed ∷ scans) temp total = scan_loop scans temp total
scan_loop (no_memory ∷ scans) temp total = (temp, total)
scan_loop (scanned records ∷ scans) temp total =
    let (temp', total') = collect records temp total in
    let rest = scan_loop scans temp' total' in
    if leb wifi_max_value total' then (temp', total') else rest

abbrev pub zero_record : ApRecord
zero_record = record { ssid = []; rssi = pos 0; authmode = 0 }

-- `ap_list`, of `total_found_count` records, with three scans. `none` is the null pointer.
unfoldable pub wifi_scan_start :
    Bool → ScanResult → ScanResult → ScanResult → Option (List ApRecord)
wifi_scan_start allocated first second third =
    if allocated
    then (let (temp, total) =
          scan_loop (first ∷ second ∷ third ∷ []) (replicate wifi_max_value zero_record) 0 in
        if total == 0 then none else some (take total temp))
    else none

-- `ap_list` after `wifi_list_clear`
abbrev pub wifi_list_clear : Option (List ApRecord) → Option (List ApRecord)
wifi_list_clear ap_list = none
