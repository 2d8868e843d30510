-- ===== src/Keyscan/Presses.antt =====
-- What a press of a key of main/keyscan.c sends, from its first poll to its last.
use native.Mathlib.Decide.{dec_le}
use cat_litter_box.Common.{
  ℕ, ◌-◌, ◌+◌, ◌<◌, ◌≤◌, ◌≡◌, refl, Bool, true, false, leb, ◌||◌, List, [], ◌∷◌, ◌++◌, arith,
  if◌then◌else◌,
}
use cat_litter_box.Ui.{clean_cmd, manage_finish_cmd, tare_zero_cmd, manage_start_cmd}
use cat_litter_box.Keyscan.{
  Pin, key_clean, key_change, key_set, Keys, Poll, Effect, ui_cmd, diag_next_step_cmd,
  diag_next_func_cmd, toggle_pause, press, release, on_3s, hold_key, on_click, on_release, scan,
  poll, polls,
}

-- No key is held.
pub record AllUp (ks : Keys) : Type 0 where
  pub clean : ks.clean.is_pressed ≡ false
  pub change : ks.change.is_pressed ≡ false
  pub set : ks.set.is_pressed ≡ false

-- The levels: only this key is down; none is.
abbrev pub Only : Pin → Poll → Type 0
Only key_clean x = (x.clean_down ≡ true) × (x.change_down ≡ false) × (x.set_down ≡ false)
Only key_change x = (x.clean_down ≡ false) × (x.change_down ≡ true) × (x.set_down ≡ false)
Only key_set x = (x.clean_down ≡ false) × (x.change_down ≡ false) × (x.set_down ≡ true)

abbrev pub NoneDown : Poll → Type 0
NoneDown x = (x.clean_down ≡ false) × (x.change_down ≡ false) × (x.set_down ≡ false)

-- This key is held since `t` with no event yet; the others are up.
abbrev Holding : Pin → ℕ → Keys → Type 0
Holding key_clean t ks =
    (ks.clean ≡ press t) × (ks.change.is_pressed ≡ false) × (ks.set.is_pressed ≡ false)
Holding key_change t ks =
    (ks.clean.is_pressed ≡ false) × (ks.change ≡ press t) × (ks.set.is_pressed ≡ false)
Holding key_set t ks =
    (ks.clean.is_pressed ≡ false) × (ks.change.is_pressed ≡ false) × (ks.set ≡ press t)

poll_press :
    (p : Pin) (x : Poll) (ks : Keys)
    → AllUp ks
    → Only p x
    → Holding p x.now (poll x ks).0 × ((poll x ks).1 ≡ [])
unfolding poll scan
poll_press key_clean x ks v o = ground arith
poll_press key_change x ks v o = ground arith
poll_press key_set x ks v o = ground arith

poll_hold :
    (p : Pin) (t : ℕ) (x : Poll) (ks : Keys)
    → Holding p t ks
    → Only p x
    → x.now < t + 3000
    → Holding p t (poll x ks).0 × ((poll x ks).1 ≡ [])
unfolding poll scan hold_key press
poll_hold key_clean t x ks v o lt = ground arith
poll_hold key_change t x ks v o lt = ground arith
poll_hold key_set t x ks v o lt = ground arith

-- What a click means: in a diagnosis KEY_CLEAN and KEY_CHANGE step through it; else KEY_CLEAN pauses
-- a cleaning or starts one, KEY_CHANGE ends the manage mode, and KEY_SET tares.
abbrev pub click_effect : Pin → Bool → Bool → Effect
click_effect key_clean diag running =
    if diag then diag_next_step_cmd else if running then toggle_pause else ui_cmd clean_cmd
click_effect key_change diag running = if diag then diag_next_func_cmd else ui_cmd manage_finish_cmd
click_effect key_set diag running = ui_cmd tare_zero_cmd

poll_release :
    (p : Pin) (t : ℕ) (x : Poll) (ks : Keys)
    → Holding p t ks
    → NoneDown x
    → (poll x ks).1 ≡ (if x.ready then click_effect p x.diag x.clean_running ∷ [] else [])
unfolding poll scan on_release on_click press release
poll_release key_clean t x ks v o = ground arith
poll_release key_change t x ks v o = ground arith
poll_release key_set t x ks v o = ground arith

-- Polls at which only this key is down, before `end`.
abbrev pub Held : Pin → ℕ → List Poll → Type 0
Held p end [] = Unit
Held p end (x ∷ xs) = Only p x × (x.now < end) × Held p end xs

polls_release :
    (p : Pin) (t : ℕ) (held : List Poll) (last : Poll) (ks : Keys)
    → Holding p t ks
    → Held p (t + 3000) held
    → NoneDown last
    → (polls (held ++ last ∷ []) ks).1
      ≡ (if last.ready then click_effect p last.diag last.clean_running ∷ [] else [])
unfolding polls
polls_release p t [] last ks v h o = ground (arith, poll_release p t last ks v o)
polls_release p t (x ∷ xs) last ks v (o', lt, h) o =
    let (v', none_sent) = poll_hold p t x ks v o' lt in
    rw none_sent (polls_release p t xs last (poll x ks).0 v' h o)

-- A key pressed alone and let go before 3 s sends its click and nothing else, and that only if the
-- system is ready when it is let go.
pub polls-click :
    (p : Pin) (first : Poll) (held : List Poll) (last : Poll) (ks : Keys)
    → AllUp ks
    → Only p first
    → Held p (first.now + 3000) held
    → NoneDown last
    → (polls (first ∷ held ++ last ∷ []) ks).1
      ≡ (if last.ready then click_effect p last.diag last.clean_running ∷ [] else [])
unfolding polls
polls-click p first held last ks u o h n =
    let (v, none_sent) = poll_press p first ks u o in
    rw none_sent (polls_release p first.now held last (poll first ks).0 v h n)

abbrev pub AllReady : List Poll → Type 0
AllReady [] = Unit
AllReady (x ∷ xs) = (x.ready ≡ true) × AllReady xs

-- One of the polls came 3 s or later after `t`.
abbrev pub any_3s : ℕ → List Poll → Bool
any_3s t [] = false
any_3s t (x ∷ xs) = leb 3000 (x.now - t) || any_3s t xs

-- KEY_CHANGE is held since `t` and its event of 3 s is past.
abbrev HoldingPast : ℕ → Keys → Type 0
HoldingPast t ks =
    (ks.clean.is_pressed ≡ false)
    × (ks.set.is_pressed ≡ false)
    × (ks.change ≡ record (press t) { event_triggered_3s = true })

poll_past :
    (t : ℕ) (x : Poll) (ks : Keys)
    → HoldingPast t ks
    → Only key_change x
    → x.now < t + 5000
    → HoldingPast t (poll x ks).0 × ((poll x ks).1 ≡ [])
unfolding poll scan hold_key press
poll_past t x ks v o lt = ground arith

polls_past :
    (t : ℕ) (xs : List Poll) (ks : Keys)
    → HoldingPast t ks
    → Held key_change (t + 5000) xs
    → (polls xs ks).1 ≡ []
unfolding polls
polls_past t [] ks v h = refl
polls_past t (x ∷ xs) ks v (o, lt, h) =
    let (v', none_sent) = poll_past t x ks v o lt in
    rw none_sent (polls_past t xs (poll x ks).0 v' h)

poll_manage :
    (t : ℕ) (x : Poll) (ks : Keys)
    → Holding key_change t ks
    → Only key_change x
    → x.ready ≡ true
    → x.now < t + 5000
    → 3000 ≤ x.now - t
    → HoldingPast t (poll x ks).0 × ((poll x ks).1 ≡ ui_cmd manage_start_cmd ∷ [])
unfolding poll scan hold_key press on_3s
poll_manage t x ks v o r lt le = ground arith

polls_manage :
    (t : ℕ) (xs : List Poll) (ks : Keys)
    → Holding key_change t ks
    → Held key_change (t + 5000) xs
    → AllReady xs
    → (polls xs ks).1 ≡ (if any_3s t xs then ui_cmd manage_start_cmd ∷ [] else [])
unfolding polls
polls_manage t [] ks v h r = refl
polls_manage t (x ∷ xs) ks v (o, lt, h) (r, rs) = elim (dec_le 3000 (x.now - t)) [
  | yes le ↦
      let (v', sent) = poll_manage t x ks v o r lt le in
      ground (arith, sent, polls_past t xs (poll x ks).0 v' h)
  | no gt ↦
      let (v', sent) = poll_hold key_change t x ks v o (omega arith) in
      ground (arith, sent, polls_manage t xs (poll x ks).0 v' h rs)
]

-- KEY_CHANGE held alone for less than 5 s, while the system is ready, starts the manage mode once if
-- a poll comes 3 s or later after the first, and else sends nothing.
pub polls-hold_change :
    (first : Poll) (held : List Poll) (ks : Keys)
    → AllUp ks
    → Only key_change first
    → Held key_change (first.now + 5000) held
    → AllReady held
    → (polls (first ∷ held) ks).1
      ≡ (if any_3s first.now held then ui_cmd manage_start_cmd ∷ [] else [])
unfolding polls
polls-hold_change first held ks u o h r =
    let (v, none_sent) = poll_press key_change first ks u o in
    rw none_sent (polls_manage first.now held (poll first ks).0 v h r)

abbrev pub NoneReady : List Poll → Type 0
NoneReady [] = Unit
NoneReady (x ∷ xs) = (x.ready ≡ false) × NoneReady xs

poll_not_ready : (x : Poll) (ks : Keys) → x.ready ≡ false → (poll x ks).1 ≡ []
unfolding poll scan on_release
poll_not_ready x ks r = ground arith

-- Until the system is ready, the keys send nothing, however they are pressed.
pub polls-not_ready : (xs : List Poll) (ks : Keys) → NoneReady xs → (polls xs ks).1 ≡ []
unfolding polls
polls-not_ready [] ks r = refl
polls-not_ready (x ∷ xs) ks (r, rs) =
    rw (poll_not_ready x ks r) (polls-not_ready xs (poll x ks).0 rs)
