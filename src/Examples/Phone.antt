-- ===== src/Examples/Phone.antt =====
-- Commands of the phone, with an mbedTLS and a cJSON that know a few texts only.
use mathlib.Core.Option
use cat_litter_box.Common.{
  ℕ, true, false, Option, none, some, List, [], ◌∷◌, length, take, leb, ◌==◌, if◌then◌else◌, ◌≡◌,
  refl, arith, inl,
}
use cat_litter_box.Common.Int.{pos}
use cat_litter_box.Common.Strings.{eq_bytes, codes}
use cat_litter_box.Wifi.Scan.{scan_failed}
use cat_litter_box.Wifi.Link.{boot_link, sta_disconnected, wifi_connect}
use cat_litter_box.Ble.Crypto.{
  MbedTls, new_session, zero_key, ble_crypto_init_and_get_pubkey, ble_crypto_compute_session_key,
}
use cat_litter_box.Ble.Phone.{Cjson, Occasion, key_exchange_ack}
use cat_litter_box.Ble.AppCommand.{App, key_exchange, json_command, ble_app_command, serve}
use cat_litter_box.Ble.AppCommand.Connect.{
  connect_text, Configures, connected, ble_app_command-connect,
}
use cat_litter_box.Ble.AppCommand.Keyed.{serve-Keyed}
use cat_litter_box.Ble.Crypto.Handshake.{Keyed}
use cat_litter_box.Ble.Transmit.{transmit, send_len, tx_loop, join, Fits, transmit-sends}

-- The secret is the phone's key, and one key opens texts.
abbrev toy : MbedTls
toy = record {
  Ecdh = List ℕ;
  ecdh_init = [];
  ecdh_setup = λ e. some [];
  ecdh_make_public = λ random e. some (32 ∷ zero_key, random);
  ecdh_read_public = λ key e. some (take 32 key);
  ecdh_calc_secret = λ random e. some e;
  hkdf = λ secret. some secret;
  base64_encode = λ n text. some text;
  base64_decode = λ n text. if leb (length text) n then some text else none;
  base64_rest = λ n text. [];
  gcm_crypt_and_tag = λ key iv text. some (text, key);
  gcm_auth_decrypt = λ key iv tag text. if eq_bytes key (7 ∷ []) then some text else none;
}

-- Each text that begins with '{' is an object, and each of its fields is the text after that.
abbrev object_text : List ℕ → Option (List ℕ)
object_text [] = none
object_text (x ∷ xs) = if x == b'{' then some xs else none

abbrev mirror : Cjson
mirror = record {
  T = List ℕ;
  parse = object_text;
  get_item = λ t name. some t;
  string_of = λ t. some t;
  number_of = λ t. some (pos (length t));
  null_string = [];
}

abbrev calm : Occasion
calm = record {
  random = 1 ∷ [];
  blinding = 2 ∷ [];
  first_scan = scan_failed;
  second_scan = scan_failed;
  third_scan = scan_failed;
  during = record {
    ap_connected = false;
    disconnecting = [];
    config_ok = true;
    connecting = sta_disconnected ∷ [];
  };
}

abbrev fresh : App mirror toy
fresh = record {
  ble_max_payload = 20;
  start_ota = false;
  ble_session = new_session toy;
  env_mode = codes "dev";
  conn_ssid = [];
  conn_password = [];
  wifi_save = false;
  link = boot_link;
  driver_calls = [];
  ap_list = none;
}

transmit-sends_example :
    (pieces : List (List ℕ)) × (transmit 5 true 2 (1 ∷ 2 ∷ 3 ∷ 4 ∷ 5 ∷ []) ≡ some pieces)
    × (join pieces ≡ 1 ∷ 2 ∷ 3 ∷ 4 ∷ 5 ∷ [])
    × Fits 2 pieces
transmit-sends_example = transmit-sends 2 (1 ∷ 2 ∷ 3 ∷ 4 ∷ 5 ∷ []) (omega arith)

pieces_of_two :
    transmit 3 true 2 (1 ∷ 2 ∷ 3 ∷ 4 ∷ 5 ∷ []) ≡ some ((1 ∷ 2 ∷ []) ∷ (3 ∷ 4 ∷ []) ∷ (5 ∷ []) ∷ [])
unfolding transmit tx_loop send_len
pieces_of_two = refl

ble_app_command-connect_example :
    (ble_app_command mirror toy calm
        (connect_text (codes "3") (codes "home") (codes "secret"))
        fresh
      ≡ ([], connected mirror toy calm.during (codes "home") (codes "secret") fresh))
    × Configures
        (codes "home")
        (codes "secret")
        (wifi_connect calm.during (codes "home") (codes "secret") boot_link).0
ble_app_command-connect_example =
    ble_app_command-connect mirror toy calm (codes "3") (codes "home") (codes "secret") fresh
      (refl, tt) (refl, (refl, (refl, (refl, tt))))
      (refl, (refl, (refl, (refl, (refl, (refl, tt)))))) (omega arith) refl

serve-Keyed_example :
    Keyed toy
      (serve mirror toy
        ((calm, codes "OTA") ∷ (calm, codes "{key_exchange") ∷ [])
        fresh).ble_session
serve-Keyed_example =
    serve-Keyed mirror toy ((calm, codes "OTA") ∷ (calm, codes "{key_exchange") ∷ []) fresh
      (inl (refl, refl))

-- The phone's key is too short: the exchange is acknowledged, and the session has no key.
acknowledged_unkeyed :
    let r = ble_app_command mirror toy calm (codes "{key_exchange") fresh in
    (r.0 ≡ key_exchange_ack zero_key ∷ []) × (r.1.ble_session.session_key ≡ zero_key)
unfolding ble_app_command json_command key_exchange ble_crypto_init_and_get_pubkey
    ble_crypto_compute_session_key Option.bind
acknowledged_unkeyed = (refl, refl)
