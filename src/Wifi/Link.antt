-- ===== src/Wifi/Link.antt =====
-- main/wifi/wifi_task.c: the events of the driver, `Wifi_Disconnect` and `Wifi_Connect`
-- The driver is outside: its answers and the events it raises while a call waits are arguments,
-- and the calls that it gets are a list. Log output is left out.
pub mod Waiting
pub mod Attempts
use cat_litter_box.Common.{
  ℕ, suc, ◌+◌, ◌-◌, Bool, true, false, ◌||◌, List, [], ◌∷◌, ◌++◌, take, ltb, if◌then◌else◌,
}

-- `s_retry_num`, `s_allow_reconnect` and the bits of `s_wifi_event_group`
pub record Link : Type 0 where
  pub retry_num : ℕ
  pub allow_reconnect : Bool
  pub connected_bit : Bool
  pub fail_bit : Bool

abbrev pub boot_link : Link
boot_link = record {
  retry_num = 0;
  allow_reconnect = true;
  connected_bit = false;
  fail_bit = false;
}

pub data DriverEvent : Type 0 where
  sta_start sta_disconnected sta_got_ip : DriverEvent

pub data DriverCall : Type 0 where
  wifi_set_config : (ssid password : List ℕ) → DriverCall
  wifi_connect_call wifi_disconnect_call sntp_init : DriverCall
  -- the text CONNECT_AP FAIL, sent to the phone
  connect_ap_fail : DriverCall

abbrev pub maximum_retry : ℕ
maximum_retry = 5

unfoldable pub wifi_event_handler : DriverEvent → Link → List DriverCall × Link
wifi_event_handler sta_start s = ([], s)
wifi_event_handler sta_disconnected s =
    if s.allow_reconnect
    then (if ltb s.retry_num maximum_retry
        then (wifi_connect_call ∷ [], record s { retry_num = s.retry_num + 1 })
        else ([], record s { fail_bit = true }))
    else ([], s)
wifi_event_handler sta_got_ip s = (sntp_init ∷ [], record s { retry_num = 0; connected_bit = true })

unfoldable pub handle_events : List DriverEvent → Link → List DriverCall × Link
handle_events [] s = ([], s)
handle_events (e ∷ es) s =
    let (calls, s') = wifi_event_handler e s in
    let (rest, s'') = handle_events es s' in (calls ++ rest, s'')

-- Whether `esp_wifi_sta_get_ap_info` succeeds, and the events of the 500 ms that follow.
unfoldable pub wifi_disconnect : Bool → List DriverEvent → Link → List DriverCall × Link
wifi_disconnect connected es s =
    if connected
    then (let (calls, s') = handle_events es (record s { allow_reconnect = false }) in
        (wifi_disconnect_call ∷ calls, s'))
    else ([], s)

-- `xEventGroupWaitBits`, with the events of the 15 s that it waits at most: it returns once a bit
-- is set.
unfoldable pub wait_bits : List DriverEvent → Link → List DriverCall × Link
wait_bits [] s = ([], s)
wait_bits (e ∷ es) s =
    let (calls, s') = wifi_event_handler e s in
    let (rest, s'') = wait_bits es s' in
    if s.connected_bit || s.fail_bit then ([], s) else (calls ++ rest, s'')

pub data Outcome : Type 0 where
  config_failed connected failed timed_out : Outcome

abbrev pub outcome : Link → Outcome
outcome s = if s.connected_bit then connected else if s.fail_bit then failed else timed_out

abbrev pub abandon : Outcome → List DriverCall
abandon timed_out = wifi_disconnect_call ∷ []
abandon config_failed = []
abandon connected = []
abandon failed = []

-- What the driver does during a call of `Wifi_Connect`.
pub record During : Type 0 where
  pub ap_connected : Bool
  pub disconnecting : List DriverEvent
  pub config_ok : Bool
  pub connecting : List DriverEvent

-- `wifi_config.sta.ssid` has 32 bytes and `password` 64, of which the last stays zero.
unfoldable pub wifi_connect : During → List ℕ → List ℕ → Link → List DriverCall × (Outcome × Link)
wifi_connect d ssid password s =
    let (before, s₁) = wifi_disconnect d.ap_connected d.disconnecting s in
    let config = wifi_set_config (take 31 ssid) (take 63 password) in
    if d.config_ok
    then (let s₂ = record s₁ { connected_bit = false; fail_bit = false; retry_num = 0 } in
        let (calls, s₃) = wait_bits d.connecting s₂ in
        let o = outcome s₃ in
        (before ++ (config ∷ wifi_connect_call ∷ (calls ++ abandon o)), (o, s₃)))
    else (before ++ (config ∷ connect_ap_fail ∷ []), (config_failed, s₁))

-- The end of `wifi_init`, with the settings' SSID and password
unfoldable pub wifi_init : During → List ℕ → List ℕ → Link → List DriverCall × Link
wifi_init d [] password s = ([], s)
wifi_init d (c ∷ ssid) [] s = ([], s)
wifi_init d (c ∷ ssid) (k ∷ password) s =
    let (calls, (o, s')) = wifi_connect d (c ∷ ssid) (k ∷ password) s in (calls, s')
