-- ===== src/Ble/AppCommand/Connect.antt =====
-- The text command CONNECT_AP of main/ble/ble_parse.c, as a phone writes it and as it is read.
use cat_litter_box.Common.{
  ℕ, ◌≤◌, Bool, true, false, ◌||◌, none, some, List, [], ◌∷◌, ◌++◌, length, take, take-all, ◌==◌,
  if◌then◌else◌, ◌≡◌, refl, ap, ◌∙◌, arith, Bool-cases, inl, inr,
}
use cat_litter_box.Common.Strings.{c_string, c_string_lem, NoZero, codes}
use cat_litter_box.Wifi.Link.{
  Link, During, DriverCall, wifi_set_config, wifi_connect_call, connect_ap_fail, wifi_disconnect,
  wait_bits, outcome, abandon, wifi_connect,
}
use cat_litter_box.Ble.Crypto.{MbedTls}
use cat_litter_box.Ble.Phone.{Cjson, Occasion, cut_line, until_space, next_token}
use cat_litter_box.Ble.AppCommand.{App, text_command, ble_app_command}

-- A byte that neither ends the text or the line nor a word.
abbrev pub is_letter : ℕ → Bool
is_letter x =
    if x == 0
    then false
    else if x == b'\r'
    then false
    else if x == b'\n'
    then false
    else if x == b' '
    then false
    else true

abbrev pub Letters : List ℕ → Type 0
Letters [] = Unit
Letters (x ∷ xs) = (is_letter x ≡ true) × Letters xs

abbrev pub IsWord : List ℕ → Type 0
IsWord [] = ⊥
IsWord (x ∷ xs) = Letters (x ∷ xs)

-- Neither the text nor the line ends in it.
abbrev OneLine : List ℕ → Type 0
OneLine [] = Unit
OneLine (x ∷ xs) = ((x == 0) ≡ false) × (((x == b'\r') || (x == b'\n')) ≡ false) × OneLine xs

-- The text of the command
abbrev pub connect_text : List ℕ → List ℕ → List ℕ → List ℕ
connect_text index ssid pass =
    codes "CONNECT_AP" ++ (b' ' ∷ (index ++ (b' ' ∷ (ssid ++ (b' ' ∷ pass)))))

letter-not_space : (x : ℕ) → is_letter x ≡ true → (x == b' ') ≡ false
letter-not_space x h = ground arith

OneLine-word : (w rest : List ℕ) → Letters w → OneLine rest → OneLine (w ++ rest)
OneLine-word [] rest h r = r
OneLine-word (x ∷ w) rest (h, hs) r = (ground arith, ground arith, OneLine-word w rest hs r)

OneLine→NoZero : (l : List ℕ) → OneLine l → NoZero l
OneLine→NoZero [] h = tt
OneLine→NoZero (x ∷ l) (z, c, hs) = (z, OneLine→NoZero l hs)

cut_line-OneLine : (l : List ℕ) → OneLine l → cut_line l ≡ l
cut_line-OneLine [] h = refl
cut_line-OneLine (x ∷ l) (z, c, hs) = rw (c, cut_line-OneLine l hs) refl

until_space-word : (w rest : List ℕ) → Letters w → until_space (w ++ (b' ' ∷ rest)) ≡ (w, rest)
until_space-word [] rest h = refl
until_space-word (x ∷ w) rest (h, hs) = rw (letter-not_space x h, until_space-word w rest hs) refl

until_space-last : (w : List ℕ) → Letters w → until_space w ≡ (w, [])
until_space-last [] h = refl
until_space-last (x ∷ w) (h, hs) = rw (letter-not_space x h, until_space-last w hs) refl

next_token-word : (w rest : List ℕ) → IsWord w → next_token (w ++ (b' ' ∷ rest)) ≡ (some w, rest)
unfolding next_token
next_token-word [] rest h = elim h [ ]
next_token-word (x ∷ w) rest (h, hs) = rw (letter-not_space x h, until_space-word w rest hs) refl

next_token-last : (w : List ℕ) → IsWord w → next_token w ≡ (some w, [])
unfolding next_token
next_token-last [] h = elim h [ ]
next_token-last (x ∷ w) (h, hs) = rw (letter-not_space x h, until_space-last w hs) refl

IsWord→Letters : (w : List ℕ) → IsWord w → Letters w
IsWord→Letters [] h = tt
IsWord→Letters (x ∷ w) h = h

Letters→OneLine : (w : List ℕ) → Letters w → OneLine w
Letters→OneLine [] h = tt
Letters→OneLine (x ∷ w) (h, hs) = (ground arith, ground arith, Letters→OneLine w hs)

spaced-OneLine : (w rest : List ℕ) → IsWord w → OneLine rest → OneLine (w ++ (b' ' ∷ rest))
spaced-OneLine w rest h r =
    let after : OneLine (b' ' ∷ rest) = (refl, refl, r) in
    OneLine-word w (b' ' ∷ rest) (IsWord→Letters w h) after

abbrev command_word : List ℕ
command_word = codes "CONNECT_AP"

command_word-IsWord : IsWord command_word
command_word-IsWord =
    (refl, (refl, (refl, (refl, (refl, (refl, (refl, (refl, (refl, (refl, tt))))))))))

connect_text-OneLine :
    (index ssid pass : List ℕ)
    → IsWord index
    → IsWord ssid
    → IsWord pass
    → OneLine (connect_text index ssid pass)
connect_text-OneLine index ssid pass i s p =
    spaced-OneLine command_word (index ++ (b' ' ∷ (ssid ++ (b' ' ∷ pass)))) command_word-IsWord (
      spaced-OneLine index (ssid ++ (b' ' ∷ pass)) i
        (spaced-OneLine ssid pass s (Letters→OneLine pass (IsWord→Letters pass p))))

-- Among its calls `Wifi_Connect` sets the SSID and the password, as its arrays hold them.
abbrev pub Configures : List ℕ → List ℕ → List DriverCall → Type 0
Configures ssid pass calls =
    (before : List DriverCall) × (after : List DriverCall) × (calls
      ≡ before ++ (wifi_set_config (take 31 ssid) (take 63 pass) ∷ after))

wifi_connect-Configures :
    (d : During) (ssid pass : List ℕ) (s : Link)
    → Configures ssid pass (wifi_connect d ssid pass s).0
unfolding wifi_connect
wifi_connect-Configures d ssid pass s =
    let (before, s₁) = wifi_disconnect d.ap_connected d.disconnecting s in
    let armed = record s₁ { connected_bit = false; fail_bit = false; retry_num = 0 } in
    let (calls, s₂) = wait_bits d.connecting armed in
    elim (Bool-cases d.config_ok) [
      | inl y ↦ (before, wifi_connect_call ∷ (calls ++ abandon (outcome s₂)), rw y refl)
      | inr n ↦ (before, connect_ap_fail ∷ [], rw n refl)
    ]

module _ (cjson : Cjson) (mbed : MbedTls) where
  -- What the command does to the settings, the link and the driver
  abbrev pub connected : During → List ℕ → List ℕ → App cjson mbed → App cjson mbed
  connected during ssid pass s = record s {
    conn_ssid = take 31 ssid;
    conn_password = take 63 pass;
    wifi_save = true;
    link = (wifi_connect during ssid pass s.link).1.1;
    driver_calls = s.driver_calls ++ (wifi_connect during ssid pass s.link).0;
  }

  text_command-connect :
      (o : Occasion) (index ssid pass : List ℕ) (s : App cjson mbed)
      → IsWord index
      → IsWord ssid
      → IsWord pass
      → text_command cjson mbed o (connect_text index ssid pass) s ≡ connected o.during ssid pass s
  unfolding text_command
  text_command-connect o index ssid pass s i w p =
      let line =
        cut_line-OneLine (connect_text index ssid pass)
          (connect_text-OneLine index ssid pass i w p) in
      let first =
        next_token-word command_word (index ++ (b' ' ∷ (ssid ++ (b' ' ∷ pass))))
          command_word-IsWord in
      rw
        (
          line,
          first,
          next_token-word index (ssid ++ (b' ' ∷ pass)) i,
          next_token-word ssid pass w,
          next_token-last pass p,
        )
        refl

  ble_app_command-text :
      (o : Occasion) (bytes : List ℕ) (s : App cjson mbed)
      → c_string (take 255 bytes) ≡ bytes
      → cjson.parse bytes ≡ none
      → ble_app_command cjson mbed o bytes s ≡ ([], text_command cjson mbed o bytes s)
  unfolding ble_app_command
  ble_app_command-text o bytes s whole text = rw (whole, text) refl

  -- The command that names an access point of the list, its SSID and its password, three words, in
  -- at most 255 bytes that cJSON does not take for JSON, is read back: the SSID and the password,
  -- cut to 31 and 63 bytes, are kept to be saved, and `Wifi_Connect` gets both in full and makes
  -- its calls, among them the one that sets the two in the driver, cut likewise. The number in the
  -- list is not used, and `BLE_APP_Command` itself sends no reply.
  pub ble_app_command-connect :
      (o : Occasion) (index ssid pass : List ℕ) (s : App cjson mbed)
      → IsWord index
      → IsWord ssid
      → IsWord pass
      → length (connect_text index ssid pass) ≤ 255
      → cjson.parse (connect_text index ssid pass) ≡ none
      → (ble_app_command cjson mbed o (connect_text index ssid pass) s
          ≡ ([], connected o.during ssid pass s))
        × Configures ssid pass (wifi_connect o.during ssid pass s.link).0
  ble_app_command-connect o index ssid pass s i w p few text =
      let t = connect_text index ssid pass in
      let whole = OneLine→NoZero t (connect_text-OneLine index ssid pass i w p) in
      (
        ble_app_command-text o t s (ap c_string (take-all 255 t few) ∙ c_string_lem t whole) text
            ∙ ap (λ r. ([], r)) (text_command-connect o index ssid pass s i w p),
        wifi_connect-Configures o.during ssid pass s.link,
      )
