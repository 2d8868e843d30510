-- ===== src/Keyscan.antt =====
-- main/keyscan.c: the polling of the three keys. The pins, the clock and the other tasks' state are
-- what a poll is given; what it sends is its result.
pub mod Presses
use cat_litter_box.Common.{
  ℕ, ◌-◌, Bool, true, false, not, ◌&&◌, leb, List, [], ◌∷◌, ◌++◌, if◌then◌else◌,
}
use cat_litter_box.Ui.{
  UiCmd, clean_cmd, manage_finish_cmd, tare_zero_cmd, manage_start_cmd, pairing_cmd, factory_cmd,
}

-- `key_state_t`, without its pin.
pub record KeyState : Type 0 where
  pub is_pressed : Bool
  pub press_start_time : ℕ
  pub event_triggered_3s : Bool
  pub event_triggered_5s : Bool
  pub event_triggered_10s : Bool

-- The pins KEY_CLEAN, KEY_CHANGE and KEY_SET, in the order of the array `keys`.
pub data Pin : Type 0 where
  key_clean key_change key_set : Pin

pub record Keys : Type 0 where
  pub clean : KeyState
  pub change : KeyState
  pub set : KeyState

abbrev pub get : Pin → Keys → KeyState
get key_clean ks = ks.clean
get key_change ks = ks.change
get key_set ks = ks.set

abbrev pub put : Pin → KeyState → Keys → Keys
put key_clean k ks = record ks { clean = k }
put key_change k ks = record ks { change = k }
put key_set k ks = record ks { set = k }

-- The level of each pin, `g_is_system_ready`, `get_status_diag()`, `is_clean_running()` and the time
-- in milliseconds.
pub record Poll : Type 0 where
  pub clean_down : Bool
  pub change_down : Bool
  pub set_down : Bool
  pub ready : Bool
  pub diag : Bool
  pub clean_running : Bool
  pub now : ℕ

abbrev pub is_down : Pin → Poll → Bool
is_down key_clean x = x.clean_down
is_down key_change x = x.change_down
is_down key_set x = x.set_down

-- What a key does: `send_ui_cmd_msg`, `send_diag_cmd_msg` or `toggle_clean_pause`.
pub data Effect : Type 0 where
  ui_cmd : UiCmd → Effect
  diag_next_step_cmd diag_next_func_cmd : Effect
  toggle_pause : Effect

-- A key that was up is down.
unfoldable pub press : ℕ → KeyState
press now = record {
  is_pressed = true;
  press_start_time = now;
  event_triggered_3s = false;
  event_triggered_5s = false;
  event_triggered_10s = false;
}

unfoldable pub release : KeyState → KeyState
release k = record {
  is_pressed = false;
  press_start_time = k.press_start_time;
  event_triggered_3s = false;
  event_triggered_5s = false;
  event_triggered_10s = false;
}

-- The commands of a key held for 10 s, 5 s and 3 s, by the keys as they then are.
unfoldable pub on_10s : Keys → List Effect
on_10s ks =
    if ks.change.event_triggered_10s && ks.clean.event_triggered_10s
    then ui_cmd factory_cmd ∷ []
    else []

unfoldable pub on_5s : Pin → Keys → List Effect
on_5s key_set ks =
    if not ks.clean.is_pressed && not ks.change.is_pressed then ui_cmd pairing_cmd ∷ [] else []
on_5s _ ks = []

unfoldable pub on_3s : Pin → Keys → List Effect
on_3s key_change ks =
    if not ks.clean.is_pressed && not ks.set.is_pressed then ui_cmd manage_start_cmd ∷ [] else []
on_3s _ ks = []

-- A key that was down is down. The clock does not go back, so `-` is exact.
unfoldable pub hold_key : Pin → ℕ → Keys → Keys × List Effect
hold_key p now ks =
    let k = get p ks in
    let duration = now - k.press_start_time in
    let after_10s = put p (record k { event_triggered_10s = true }) ks in
    let after_5s = put p (record k { event_triggered_5s = true }) ks in
    let after_3s = put p (record k { event_triggered_3s = true }) ks in
    if leb 10000 duration && not k.event_triggered_10s
    then (after_10s, on_10s after_10s)
    else if leb 5000 duration && not k.event_triggered_5s
    then (after_5s, on_5s p after_5s)
    else if leb 3000 duration && not k.event_triggered_3s
    then (after_3s, on_3s p after_3s)
    else (ks, [])

-- The command of a key that is let go before 3 s.
unfoldable pub on_click : Pin → Poll → Keys → List Effect
on_click key_clean x ks =
    if not ks.change.is_pressed && not ks.set.is_pressed
    then (if x.diag
        then diag_next_step_cmd ∷ []
        else if x.clean_running
        then toggle_pause ∷ []
        else ui_cmd clean_cmd ∷ [])
    else []
on_click key_change x ks =
    if not ks.clean.is_pressed && not ks.set.is_pressed
    then (if x.diag then diag_next_func_cmd ∷ [] else ui_cmd manage_finish_cmd ∷ [])
    else []
on_click key_set x ks =
    if not ks.clean.is_pressed && not ks.change.is_pressed then ui_cmd tare_zero_cmd ∷ [] else []

unfoldable pub on_release : Pin → Poll → Keys → List Effect
on_release p x ks =
    let k = get p ks in
    if not x.ready
    then []
    else if not k.event_triggered_10s && not k.event_triggered_5s && not k.event_triggered_3s
    then on_click p x ks
    else []

-- The body of the `for` for one key.
unfoldable pub scan : Pin → Poll → Keys → Keys × List Effect
scan p x ks =
    let k = get p ks in
    if is_down p x
    then (if not k.is_pressed
        then (put p (press x.now) ks, [])
        else if not x.ready
        then (ks, [])
        else hold_key p x.now ks)
    else if k.is_pressed
    then (put p (release k) ks, on_release p x ks)
    else (ks, [])

-- A round of `key_polling_task`.
unfoldable pub poll : Poll → Keys → Keys × List Effect
poll x ks =
    let (ks1, sent1) = scan key_clean x ks in
    let (ks2, sent2) = scan key_change x ks1 in
    let (ks3, sent3) = scan key_set x ks2 in (ks3, sent1 ++ sent2 ++ sent3)

-- The rounds in their order, with all they send.
unfoldable pub polls : List Poll → Keys → Keys × List Effect
polls [] ks = (ks, [])
polls (x ∷ xs) ks =
    let (ks', sent) = poll x ks in let (ks'', rest) = polls xs ks' in (ks'', sent ++ rest)
