-- ===== src/Examples/Panel.antt =====
-- Commands and keys of main/ui.c and main/keyscan.c.
use cat_litter_box.Common.{
  ℕ, ◌+◌, ◌≤◌, ◌≡◌, ◌⊎◌, refl, Bool, true, false, [], ◌∷◌, ◌++◌, length, arith,
}
use cat_litter_box.Ui
use cat_litter_box.Ui.{
  Ui, clean_cmd, manage_start_cmd, clean_task, task_of, check_run_flag, check_task_runnable, create,
  on_command, start_task,
}
use cat_litter_box.Ui.Exclusion.{
  is_finish, running, Scheduled, power_up, command, start, Reaches, here, next, Reaches-IsExclusive,
  two_clean_commands, on_command_guard,
}
use cat_litter_box.Keyscan.{KeyState, key_clean, Keys, Poll, ui_cmd, polls}
use cat_litter_box.Keyscan.Presses.{AllUp, polls-click, polls-hold_change, polls-not_ready}

boot_free : check_run_flag false Ui.boot ≡ true
unfolding check_run_flag Ui.boot
boot_free = refl

abbrev asked : Ui
asked = on_command clean_cmd Ui.boot

asked_created : asked.created ≡ clean_task ∷ []
unfolding on_command check_task_runnable check_run_flag Ui.boot create
asked_created = refl

abbrev cleaning : Scheduled
cleaning = record {
  ui = start_task clean_task (record asked { created = [] });
  started = clean_task ∷ [];
}

boot_empty : Ui.boot.created ≡ []
unfolding Ui.boot
boot_empty = refl

cleaning_reached : Reaches power_up cleaning
cleaning_reached =
    next (next here (command power_up clean_cmd boot_empty))
      (start (record power_up { ui = asked }) clean_task [] asked_created)

Reaches-IsExclusive_example : length cleaning.started + length cleaning.ui.created ≤ 1
Reaches-IsExclusive_example = Reaches-IsExclusive cleaning cleaning_reached

second_clean_created :
    (on_command clean_cmd (on_command clean_cmd Ui.boot)).created
    ≡ clean_task ∷ clean_task ∷ Ui.boot.created
second_clean_created = two_clean_commands Ui.boot boot_free

guarded_clean :
    ((on_command clean_cmd Ui.boot).created ≡ Ui.boot.created)
    ⊎ (((on_command clean_cmd Ui.boot).created ≡ task_of clean_cmd ∷ Ui.boot.created)
        × (running Ui.boot ≡ 0)
        × (Ui.boot.ui_manage_f ≡ is_finish clean_cmd))
guarded_clean = on_command_guard clean_cmd Ui.boot

abbrev up : KeyState
up = record {
  is_pressed = false;
  press_start_time = 0;
  event_triggered_3s = false;
  event_triggered_5s = false;
  event_triggered_10s = false;
}

abbrev no_keys : Keys
no_keys = record { clean = up; change = up; set = up }

no_keys-AllUp : AllUp no_keys
no_keys-AllUp = record { clean = refl; change = refl; set = refl }

abbrev levels : Bool → Bool → Bool → ℕ → Poll
levels clean change ready now = record {
  clean_down = clean;
  change_down = change;
  set_down = false;
  ready = ready;
  diag = false;
  clean_running = false;
  now = now;
}

polls-click_example :
    (polls
      (levels true false true 100 ∷ (levels true false true 120 ∷ [])
        ++ levels false false true 140 ∷ [])
      no_keys).1
    ≡ ui_cmd clean_cmd ∷ []
polls-click_example =
    polls-click key_clean (levels true false true 100) (levels true false true 120 ∷ [])
      (levels false false true 140) no_keys no_keys-AllUp (refl, refl, refl)
      ((refl, refl, refl), omega arith, tt) (refl, refl, refl)

held_change :
    (polls (levels false true true 100 ∷ levels false true true 3100 ∷ []) no_keys).1
    ≡ ui_cmd manage_start_cmd ∷ []
held_change =
    polls-hold_change (levels false true true 100) (levels false true true 3100 ∷ []) no_keys
      no_keys-AllUp (refl, refl, refl) ((refl, refl, refl), omega arith, tt) (refl, tt)

not_ready_yet :
    (polls (levels true false false 100 ∷ levels false false false 120 ∷ []) no_keys).1 ≡ []
not_ready_yet =
    polls-not_ready (levels true false false 100 ∷ levels false false false 120 ∷ []) no_keys
      (refl, (refl, tt))
