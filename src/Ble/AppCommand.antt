-- ===== src/Ble/AppCommand.antt =====
-- main/ble/ble_parse.c: `BLE_APP_Command`, the phone's commands
-- cJSON and mbedTLS are parameters. What the radio does and which random bytes are drawn during a
-- command is an argument, `Occasion`. Printed text is left out, and memory is found whenever it is
-- asked for.
pub mod Connect
pub mod Authentic
pub mod Keyed
use Prim.Native.String.{String}
use mathlib.Core.Option
use cat_litter_box.Common.{
  ℕ, zero, suc, ◌+◌, ◌-◌, ◌%◌, ◌^◌, Bool, true, false, ◌||◌, Option, none, some, List, [], ◌∷◌,
  ◌++◌, map, length, take, ◌==◌, if◌then◌else◌,
}
use cat_litter_box.Common.Int.{ℤ, pos, negsuc}
use cat_litter_box.Common.Strings.{c_string, eq_bytes, codes}
use cat_litter_box.Ble.Crypto.{
  MbedTls, Session, ble_crypto_init_and_get_pubkey, ble_crypto_compute_session_key,
}
use cat_litter_box.Ble.Phone.{
  Cjson, Auth, ProvResult, Reply, Occasion, auth_str, ap_item, aps_array, as_uint16, cut_line,
  until_space, next_token, auth_open, auth_wep, auth_wpa, auth_wpa2, auth_wpa3, prov_ok,
  prov_auth_fail, prov_timeout, key_exchange_ack, env_ack, wifi_list, wifi_result,
}
use cat_litter_box.Wifi.Scan.{ApRecord, ScanResult, wifi_scan_start, wifi_list_clear}
use cat_litter_box.Wifi.Link.{Link, During, DriverCall, wifi_connect}

module _ (cjson : Cjson) (mbed : MbedTls) where
  open cjson use {T, parse, get_item, string_of, number_of, null_string}
  open mbed use {base64_decode, base64_rest, gcm_auth_decrypt}

  pub record App : Type 0 where
    -- `g_ble_max_payload`, `g_start_ota_flag`
    pub ble_max_payload : ℕ
    pub start_ota : Bool
    -- `g_ble_session`
    pub ble_session : Session mbed
    pub env_mode : List ℕ
    pub conn_ssid : List ℕ
    pub conn_password : List ℕ
    -- whether `wifi_nvs_save_set` has asked for the settings to be saved
    pub wifi_save : Bool
    pub link : Link
    -- what `Wifi_Connect` has done so far: its calls of the driver, and its texts for the phone
    pub driver_calls : List DriverCall
    pub ap_list : Option (List ApRecord)

  -- The string in a field of an object
  abbrev pub string_in : Option T → String → Option (List ℕ)
  string_in o name = Option.bind (Option.bind o (λ t. get_item t name)) string_of

  abbrev pub item_in : Option T → String → Option T
  item_in o name = Option.bind o (λ t. get_item t name)

  abbrev pub or_null : Option (List ℕ) → List ℕ
  or_null (some text) = text
  or_null none = null_string

  -- `item->valuestring`, read without a test that the item is a string.
  abbrev pub valuestring : T → List ℕ
  valuestring item = or_null (string_of item)

  abbrev pub or_rest : ℕ → List ℕ → Option (List ℕ) → List ℕ
  or_rest n text (some bytes) = bytes
  or_rest n text none = base64_rest n text

  -- `mbedtls_base64_decode` into an array of `n` bytes, its result not looked at.
  abbrev pub decoded : ℕ → List ℕ → List ℕ
  decoded n text = or_rest n text (base64_decode n text)

  -- With the key, `get_ble_session_key()`
  unfoldable pub ble_decrypt_json_data : List ℕ → Option T → Option (List ℕ)
  ble_decrypt_json_data session_key data_obj = Option.bind (item_in data_obj "iv") (λ iv_item.
      Option.bind (item_in data_obj "ciphertext") (λ ct_item.
        Option.bind (item_in data_obj "tag") (λ tag_item.
          gcm_auth_decrypt session_key (decoded 16 (valuestring iv_item))
            (decoded 16 (valuestring tag_item))
            (decoded (length (valuestring ct_item)) (valuestring ct_item)))))

  abbrev pub with_number : Option ℤ → App → App
  with_number none s = s
  with_number (some n) s = record s { ble_max_payload = as_uint16 n }

  unfoldable pub mtu_info : T → App → App
  mtu_info root s =
      with_number
        (Option.bind (Option.bind (get_item root "data") (λ d. get_item d "max_payload")) number_of)
        s

  -- The session key's failure is not looked at.
  abbrev pub with_pubkey :
      Occasion → List ℕ → Option (List ℕ) → Session mbed → List Reply × Session mbed
  with_pubkey o app_pub_key none session = ([], session)
  with_pubkey o app_pub_key (some dev_pub_key) session = (
    key_exchange_ack dev_pub_key ∷ [],
    (ble_crypto_compute_session_key mbed o.blinding app_pub_key session).1,
  )

  abbrev pub exchange : Occasion → Option (List ℕ) → App → List Reply × App
  exchange o none s = ([], s)
  exchange o (some app_pub_key) s =
      let (dev_pub_key, begun) = ble_crypto_init_and_get_pubkey mbed o.random 64 s.ble_session in
      let (replies, session) = with_pubkey o app_pub_key dev_pub_key begun in
      (replies, record s { ble_session = session })

  unfoldable pub key_exchange : Occasion → T → App → List Reply × App
  key_exchange o root s = exchange o (string_in (get_item root "data") "pub_key") s

  abbrev pub choose_env : Option (List ℕ) → App → List Reply × App
  choose_env none s = ([], s)
  choose_env (some env) s = (
    env_ack ∷ [],
    if eq_bytes env (codes "dev")
        then record s { env_mode = codes "dev" }
        else if eq_bytes env (codes "prod")
        then record s { env_mode = codes "prod" }
        else s,
  )

  -- The plaintext's tree
  abbrev pub decrypted : T → App → Option T
  decrypted root s =
      Option.bind (ble_decrypt_json_data s.ble_session.session_key (get_item root "data"))
        (λ plaintext. parse (c_string plaintext))

  unfoldable pub set_env : T → App → List Reply × App
  set_env root s = choose_env (string_in (decrypted root s) "env") s

  unfoldable pub scan_wifi : Occasion → App → List Reply × App
  scan_wifi o s =
      let found = wifi_scan_start true o.first_scan o.second_scan o.third_scan in
      (wifi_list (aps_array found) ∷ [], record s { ap_list = wifi_list_clear found })

  abbrev pub store : List ℕ → List ℕ → App → App
  store ssid pwd s = record s { conn_ssid = take 31 ssid; conn_password = take 63 pwd }

  abbrev pub connect : Occasion → List ℕ → List ℕ → App → App
  connect o ssid pwd s =
      let (calls, (outcome, link)) = wifi_connect o.during ssid pwd s.link in
      record s { link = link; driver_calls = s.driver_calls ++ calls }

  abbrev pub report : App → List Reply × App
  report s =
      if s.link.connected_bit
      then (wifi_result prov_ok ∷ [], record s { wifi_save = true })
      else if s.link.fail_bit
      then (wifi_result prov_auth_fail ∷ [], s)
      else (wifi_result prov_timeout ∷ [], s)

  abbrev pub provide : Occasion → Option (List ℕ) → Option (List ℕ) → App → List Reply × App
  provide o none pwd s = ([], s)
  provide o (some ssid) none s = report (connect o ssid [] (store ssid [] s))
  provide o (some ssid) (some pwd) s = report (connect o ssid pwd (store ssid pwd s))

  unfoldable pub wifi_prov : Occasion → T → App → List Reply × App
  wifi_prov o root s =
      provide o (string_in (decrypted root s) "ssid") (string_in (decrypted root s) "pwd") s

  unfoldable pub json_command : Occasion → T → Option (List ℕ) → App → List Reply × App
  json_command o root none s = ([], s)
  json_command o root (some event_type) s =
      if eq_bytes event_type (codes "mtu_info")
      then ([], mtu_info root s)
      else if eq_bytes event_type (codes "key_exchange")
      then key_exchange o root s
      else if eq_bytes event_type (codes "set_env")
      then set_env root s
      else if eq_bytes event_type (codes "scan_wifi")
      then scan_wifi o s
      else if eq_bytes event_type (codes "wifi_prov")
      then wifi_prov o root s
      else ([], s)

  abbrev pub connect_ap : Occasion → Option (List ℕ) → Option (List ℕ) → Option (List ℕ) → App → App
  connect_ap o none ssid pass s = s
  connect_ap o (some cmd) none pass s = s
  connect_ap o (some cmd) (some ssid) none s = s
  connect_ap o (some cmd) (some ssid) (some pass) s =
      if eq_bytes cmd (codes "CONNECT_AP")
      then connect o ssid pass (record (store ssid pass s) { wifi_save = true })
      else s

  unfoldable pub text_command : Occasion → List ℕ → App → App
  text_command o buf s =
      let line = cut_line buf in
      let (cmd, r) = next_token line in
      let (index, r') = next_token r in
      let (ssid, r'') = next_token r' in
      let (pass, r''') = next_token r'' in
      if eq_bytes buf (codes "scan")
      then record s { ap_list = wifi_scan_start true o.first_scan o.second_scan o.third_scan }
      else if eq_bytes line (codes "OTA")
      then record s { start_ota = true }
      else connect_ap o cmd ssid pass s

  abbrev pub json_or_text : Occasion → List ℕ → Option T → App → List Reply × App
  json_or_text o buf none s = ([], text_command o buf s)
  json_or_text o buf (some root) s =
      json_command o root (Option.bind (get_item root "event_type") string_of) s

  -- Of the data, 255 bytes are looked at.
  unfoldable pub ble_app_command : Occasion → List ℕ → App → List Reply × App
  ble_app_command o bytes s =
      let buf = c_string (take 255 bytes) in json_or_text o buf (parse buf) s

  -- One command after the other, from the state `s`
  unfoldable pub serve : List (Occasion × List ℕ) → App → App
  serve [] s = s
  serve ((o, bytes) ∷ rest) s = serve rest (ble_app_command o bytes s).1
