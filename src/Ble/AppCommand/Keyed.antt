-- ===== src/Ble/AppCommand/Keyed.antt =====
-- The session key of main/crypto/ble_crypto.c over the commands of main/ble/ble_parse.c
use mathlib.Core.Option
use cat_litter_box.Common.{
  ℕ, Option, none, some, List, [], ◌∷◌, take, ◌≡◌, refl, sym, subst, Bool-cases, inl, inr,
}
use cat_litter_box.Common.Int.{ℤ}
use cat_litter_box.Common.Strings.{c_string, eq_bytes, codes}
use cat_litter_box.Ble.Crypto.{MbedTls, Session, ble_crypto_init_and_get_pubkey}
use cat_litter_box.Ble.Crypto.Handshake.{Unkeyed, Keyed, init-Unkeyed, compute-Keyed}
use cat_litter_box.Ble.Phone.{Cjson, Occasion, cut_line, next_token}
use cat_litter_box.Ble.AppCommand.{
  App, with_number, mtu_info, with_pubkey, exchange, string_in, key_exchange, choose_env, decrypted,
  set_env, report, connect, store, provide, wifi_prov, scan_wifi, json_command, connect_ap,
  text_command, json_or_text, ble_app_command, serve,
}

module _ (cjson : Cjson) (mbed : MbedTls) where
  open cjson use {T}

  with_pubkey-Keyed :
      (o : Occasion) (app_pub_key : List ℕ) (dev : Option (List ℕ)) (s : Session mbed)
      → Unkeyed mbed s
      → Keyed mbed (with_pubkey cjson mbed o app_pub_key dev s).1
  with_pubkey-Keyed o app_pub_key none s h = inl h
  with_pubkey-Keyed o app_pub_key (some dev) s h = compute-Keyed mbed o.blinding app_pub_key s h

  exchange-Keyed :
      (o : Occasion) (app_pub_key : Option (List ℕ)) (s : App cjson mbed)
      → Keyed mbed s.ble_session
      → Keyed mbed (exchange cjson mbed o app_pub_key s).1.ble_session
  exchange-Keyed o none s h = h
  exchange-Keyed o (some app_pub_key) s h =
      let begun = ble_crypto_init_and_get_pubkey mbed o.random 64 s.ble_session in
      with_pubkey-Keyed o app_pub_key begun.0 begun.1 (init-Unkeyed mbed o.random 64 s.ble_session)

  key_exchange-Keyed :
      (o : Occasion) (root : T) (s : App cjson mbed)
      → Keyed mbed s.ble_session
      → Keyed mbed (key_exchange cjson mbed o root s).1.ble_session
  unfolding key_exchange
  key_exchange-Keyed o root s h =
      exchange-Keyed o (string_in cjson mbed (cjson.get_item root "data") "pub_key") s h

  same_key :
      (s s' : App cjson mbed)
      → s'.ble_session ≡ s.ble_session
      → Keyed mbed s.ble_session
      → Keyed mbed s'.ble_session
  same_key s s' e h = subst (Keyed mbed) (sym e) h

  with_number-ble_session :
      (n : Option ℤ) (s : App cjson mbed) → (with_number cjson mbed n s).ble_session ≡ s.ble_session
  with_number-ble_session none s = refl
  with_number-ble_session (some n) s = refl

  mtu_info-ble_session :
      (root : T) (s : App cjson mbed) → (mtu_info cjson mbed root s).ble_session ≡ s.ble_session
  unfolding mtu_info
  mtu_info-ble_session root s =
      with_number-ble_session
        (Option.bind
          (Option.bind (cjson.get_item root "data") (λ d. cjson.get_item d "max_payload"))
          cjson.number_of)
        s

  choose_env-ble_session :
      (env : Option (List ℕ)) (s : App cjson mbed)
      → (choose_env cjson mbed env s).1.ble_session ≡ s.ble_session
  choose_env-ble_session none s = refl
  choose_env-ble_session (some env) s = elim (Bool-cases (eq_bytes env (codes "dev"))) [
    | inl y ↦ rw y refl
    | inr n ↦ rw n (elim (Bool-cases (eq_bytes env (codes "prod"))) [
      | inl y ↦ rw y refl
      | inr n' ↦ rw n' refl
    ])
  ]

  set_env-ble_session :
      (root : T) (s : App cjson mbed) → (set_env cjson mbed root s).1.ble_session ≡ s.ble_session
  unfolding set_env
  set_env-ble_session root s =
      choose_env-ble_session (string_in cjson mbed (decrypted cjson mbed root s) "env") s

  report-ble_session : (s : App cjson mbed) → (report cjson mbed s).1.ble_session ≡ s.ble_session
  report-ble_session s = elim (Bool-cases s.link.connected_bit) [
    | inl y ↦ rw y refl
    | inr n ↦ rw n (elim (Bool-cases s.link.fail_bit) [ inl y ↦ rw y refl | inr n' ↦ rw n' refl ])
  ]

  provide-ble_session :
      (o : Occasion) (ssid pwd : Option (List ℕ)) (s : App cjson mbed)
      → (provide cjson mbed o ssid pwd s).1.ble_session ≡ s.ble_session
  provide-ble_session o none pwd s = refl
  provide-ble_session o (some ssid) none s =
      report-ble_session (connect cjson mbed o ssid [] (store cjson mbed ssid [] s))
  provide-ble_session o (some ssid) (some pwd) s =
      report-ble_session (connect cjson mbed o ssid pwd (store cjson mbed ssid pwd s))

  wifi_prov-ble_session :
      (o : Occasion) (root : T) (s : App cjson mbed)
      → (wifi_prov cjson mbed o root s).1.ble_session ≡ s.ble_session
  unfolding wifi_prov
  wifi_prov-ble_session o root s =
      provide-ble_session o (string_in cjson mbed (decrypted cjson mbed root s) "ssid")
        (string_in cjson mbed (decrypted cjson mbed root s) "pwd") s

  json_command-Keyed :
      (o : Occasion) (root : T) (event_type : Option (List ℕ)) (s : App cjson mbed)
      → Keyed mbed s.ble_session
      → Keyed mbed (json_command cjson mbed o root event_type s).1.ble_session
  unfolding json_command scan_wifi
  json_command-Keyed o root none s h = h
  json_command-Keyed o root (some e) s h = elim (Bool-cases (eq_bytes e (codes "mtu_info"))) [
    | inl y ↦ rw y (same_key s (mtu_info cjson mbed root s) (mtu_info-ble_session root s) h)
    | inr n ↦ rw n (elim (Bool-cases (eq_bytes e (codes "key_exchange"))) [
      | inl y ↦ rw y (key_exchange-Keyed o root s h)
      | inr n ↦ rw n (elim (Bool-cases (eq_bytes e (codes "set_env"))) [
        | inl y ↦ rw y (same_key s (set_env cjson mbed root s).1 (set_env-ble_session root s) h)
        | inr n ↦ rw n (elim (Bool-cases (eq_bytes e (codes "scan_wifi"))) [
          | inl y ↦ rw y (h)
          | inr n ↦ rw n (elim (Bool-cases (eq_bytes e (codes "wifi_prov"))) [
            | inl y ↦
                rw y
                  (same_key s (wifi_prov cjson mbed o root s).1 (wifi_prov-ble_session o root s) h)
            | inr n ↦ rw n (h)
          ])
        ])
      ])
    ])
  ]

  connect_ap-ble_session :
      (o : Occasion) (cmd ssid pass : Option (List ℕ)) (s : App cjson mbed)
      → (connect_ap cjson mbed o cmd ssid pass s).ble_session ≡ s.ble_session
  connect_ap-ble_session o none ssid pass s = refl
  connect_ap-ble_session o (some cmd) none pass s = refl
  connect_ap-ble_session o (some cmd) (some ssid) none s = refl
  connect_ap-ble_session o (some cmd) (some ssid) (some pass) s =
      elim (Bool-cases (eq_bytes cmd (codes "CONNECT_AP"))) [
        | inl y ↦ rw y refl
        | inr n ↦ rw n refl
      ]

  text_command-ble_session :
      (o : Occasion) (buf : List ℕ) (s : App cjson mbed)
      → (text_command cjson mbed o buf s).ble_session ≡ s.ble_session
  unfolding text_command
  text_command-ble_session o buf s =
      let cmd = next_token (cut_line buf) in
      let index = next_token cmd.1 in
      let ssid = next_token index.1 in
      let pass = next_token ssid.1 in
      elim (Bool-cases (eq_bytes buf (codes "scan"))) [
        | inl y ↦ rw y refl
        | inr n ↦ rw n (elim (Bool-cases (eq_bytes (cut_line buf) (codes "OTA"))) [
          | inl y ↦ rw y refl
          | inr n' ↦ rw n' (connect_ap-ble_session o cmd.0 ssid.0 pass.0 s)
        ])
      ]

  json_or_text-Keyed :
      (o : Occasion) (buf : List ℕ) (root : Option T) (s : App cjson mbed)
      → Keyed mbed s.ble_session
      → Keyed mbed (json_or_text cjson mbed o buf root s).1.ble_session
  json_or_text-Keyed o buf none s h =
      same_key s (text_command cjson mbed o buf s) (text_command-ble_session o buf s) h
  json_or_text-Keyed o buf (some root) s h =
      json_command-Keyed o root (Option.bind (cjson.get_item root "event_type") cjson.string_of) s h

  -- From a session with no key, or with a key derived from a secret of 32 bytes, any sequence of
  -- commands leads to such a session again: without `is_encrypted`, the key that decrypts commands
  -- and encrypts replies is 32 zero bytes.
  pub serve-Keyed :
      (commands : List (Occasion × List ℕ)) (s : App cjson mbed)
      → Keyed mbed s.ble_session
      → Keyed mbed (serve cjson mbed commands s).ble_session
  unfolding serve ble_app_command
  serve-Keyed [] s h = h
  serve-Keyed ((o, bytes) ∷ rest) s h = serve-Keyed rest (ble_app_command cjson mbed o bytes s).1 (
      json_or_text-Keyed o (c_string (take 255 bytes)) (cjson.parse (c_string (take 255 bytes))) s
        h)
