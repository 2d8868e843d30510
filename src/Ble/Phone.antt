-- ===== src/Ble/Phone.antt =====
-- main/ble/ble_parse.c: what `BLE_APP_Command` reads and answers, and how it takes texts apart
-- cJSON is a parameter, a record of the functions that the source calls.
use Prim.Native.String.{String}
use cat_litter_box.Common.{
  ℕ, ◌-◌, ◌%◌, ◌^◌, ◌||◌, Option, none, some, List, [], ◌∷◌, map, take, ◌==◌, if◌then◌else◌,
}
use cat_litter_box.Common.Int.{ℤ, pos, negsuc}
use cat_litter_box.Wifi.Scan.{ApRecord, ScanResult}
use cat_litter_box.Wifi.Link.{During}

pub record Cjson : Type 1 where
  pub T : Type 0
  -- `cJSON_Parse`, with `none` for the null pointer
  pub parse : List ℕ → Option T
  pub get_item : T → String → Option T
  -- `valuestring`, if `cJSON_IsString`
  pub string_of : T → Option (List ℕ)
  -- `valueint`, if `cJSON_IsNumber`
  pub number_of : T → Option ℤ
  -- what is read through the null `valuestring` of an item that is no string, if that returns
  pub null_string : List ℕ

pub data Auth : Type 0 where
  auth_open auth_wep auth_wpa auth_wpa2 auth_wpa3 : Auth

pub data ProvResult : Type 0 where
  prov_ok prov_auth_fail prov_timeout : ProvResult

-- What is sent to the phone; all but the first are encrypted.
pub data Reply : Type 0 where
  key_exchange_ack : (pub_key : List ℕ) → Reply
  env_ack : Reply
  wifi_list : List (List ℕ × (ℤ × Auth)) → Reply
  wifi_result : ProvResult → Reply

pub record Occasion : Type 0 where
  -- random bytes for a new key pair, and for the shared secret
  pub random : List ℕ
  pub blinding : List ℕ
  pub first_scan : ScanResult
  pub second_scan : ScanResult
  pub third_scan : ScanResult
  pub during : During

-- Of `wifi_ap_record_t`'s `authmode`: the driver's numbers.
abbrev pub auth_str : ℕ → Auth
auth_str authmode =
    if authmode == 1
    then auth_wep
    else if authmode == 2
    then auth_wpa
    else if (authmode == 3) || (authmode == 4)
    then auth_wpa2
    else if (authmode == 6) || (authmode == 7)
    then auth_wpa3
    else auth_open

abbrev pub ap_item : ApRecord → List ℕ × (ℤ × Auth)
ap_item a = (a.ssid, (a.rssi, auth_str a.authmode))

abbrev pub aps_array : Option (List ApRecord) → List (List ℕ × (ℤ × Auth))
aps_array none = []
aps_array (some ap_list) = map ap_item (take 10 ap_list)

-- An `int` that is stored in a `uint16_t`
abbrev pub as_uint16 : ℤ → ℕ
as_uint16 (pos n) = n % 2 ^ 16
as_uint16 (negsuc n) = 2 ^ 16 - 1 - n % 2 ^ 16

-- The text before the first '\r' or '\n'
abbrev pub cut_line : List ℕ → List ℕ
cut_line [] = []
cut_line (x ∷ xs) = if (x == b'\r') || (x == b'\n') then [] else x ∷ cut_line xs

-- `strtok` with " ": the bytes up to the next space, and what follows it
abbrev pub until_space : List ℕ → List ℕ × List ℕ
until_space [] = ([], [])
until_space (x ∷ xs) = let (w, r) = until_space xs in if x == b' ' then ([], xs) else (x ∷ w, r)

unfoldable pub next_token : List ℕ → Option (List ℕ) × List ℕ
next_token [] = (none, [])
next_token (x ∷ xs) =
    let rest = next_token xs in
    let (w, r) = until_space (x ∷ xs) in if x == b' ' then rest else (some w, r)
