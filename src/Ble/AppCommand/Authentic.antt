-- ===== src/Ble/AppCommand/Authentic.antt =====
-- What main/ble/ble_parse.c's `BLE_APP_Command` does with JSON that the session's key does not open.
use mathlib.Core.Option
use cat_litter_box.Common.{ℕ, Option, none, some, List, length, ◌≡◌}
use cat_litter_box.Ble.Crypto.{MbedTls}
use cat_litter_box.Ble.Phone.{Cjson}
use cat_litter_box.Ble.AppCommand.{App, item_in, valuestring, decoded, ble_decrypt_json_data}

module _ (cjson : Cjson) (mbed : MbedTls) where
  open cjson use {T, parse}

  -- The environment, the access point to connect to, whether to save it, the link
  -- and what the driver was told are the same.
  abbrev pub Unconfigured : App cjson mbed → App cjson mbed → Type 0
  Unconfigured s s' =
      (s'.env_mode ≡ s.env_mode)
      × (s'.conn_ssid ≡ s.conn_ssid)
      × (s'.conn_password ≡ s.conn_password)
      × (s'.wifi_save ≡ s.wifi_save)
      × (s'.link ≡ s.link)
      × (s'.driver_calls ≡ s.driver_calls)

  -- The three fields of the data, as they are decoded, open under the key.
  abbrev pub Opens : List ℕ → Option T → Type 0
  Opens key data_obj =
      (iv_item : T) × (ct_item : T) × (tag_item : T) × (plaintext : List ℕ) × (item_in cjson mbed
          data_obj "iv"
        ≡ some iv_item)
      × (item_in cjson mbed data_obj "ciphertext" ≡ some ct_item)
      × (item_in cjson mbed data_obj "tag" ≡ some tag_item)
      × (mbed.gcm_auth_decrypt key (decoded cjson mbed 16 (valuestring cjson mbed iv_item))
            (decoded cjson mbed 16 (valuestring cjson mbed tag_item))
            (decoded cjson mbed (length (valuestring cjson mbed ct_item))
              (valuestring cjson mbed ct_item))
          ≡ some plaintext)

  -- The data of the command does not decrypt under the session's key.
  abbrev Closed : T → App cjson mbed → Type 0
  Closed root s =
      ble_decrypt_json_data cjson mbed s.ble_session.session_key (cjson.get_item root "data") ≡ none
