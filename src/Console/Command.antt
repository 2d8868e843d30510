-- ===== src/Console/Command.antt =====
-- main/main.c: `Process_Command`, the console's one-letter commands. The texts of `Usage` and of the
-- sensor printout are left out.
use cat_litter_box.Common.{
  ℕ, Bool, false, not, ◌&&◌, ◌||◌, List, [], ◌∷◌, ◌++◌, ◌==◌, if◌then◌else◌,
}
use cat_litter_box.Motion.{
  plate_cmd, scp_inout_cmd, scp_spin_cmd, main_cover_cmd, waste_step_cmd, forward, reverse, stop,
  Action, plate, scpinout, main_cover, waste, scpspin, scpspin_ex,
}

-- The tasks that the console creates.
pub data ConsoleTask : Type 0 where
  demo_synario motor_calib_task loadcell_tare_task recovery_scenario_task scpspin_test_task :
      ConsoleTask

-- LOADCELL_CMD_T, as far as the console sends it
pub data SaveCmd : Type 0 where
  loadcell_save_state1_cmd loadcell_save_state2_cmd loadcell_save_state3_cmd : SaveCmd

-- What a command does, one call after another.
pub data Call : Type 0 where
  clear_emergency_stop set_emergency_stop toggle_clean_pause : Call
  delete_scpspin_test reset_factory_restore get_pt_status usage : Call
  create : ConsoleTask → Call
  send_loadcell : SaveCmd → Call
  send : Action → Call

-- `strncmp(cmd, c, 1) == 0`
unfoldable pub starts : ℕ → List ℕ → Bool
starts c [] = false
starts c (x ∷ xs) = x == c

-- The calls that the letter selects. `clean_running` is what `is_clean_running` returns.
unfoldable pub command_calls : Bool → Bool → List ℕ → List Call
unfolding starts
command_calls clean_running test_running cmd =
    if starts b'a' cmd
    then send (plate plate_cmd 0 forward 0) ∷ []
    else if starts b'b' cmd
    then send (plate plate_cmd 0 reverse 0) ∷ []
    else if starts b'c' cmd
    then send (plate plate_cmd 0 stop 0) ∷ []
    else if starts b'd' cmd || starts b'D' cmd
    then send (scpinout scp_inout_cmd 30 forward 10000) ∷ []
    else if starts b'e' cmd
    then send (scpinout scp_inout_cmd 30 reverse 10000) ∷ []
    else if starts b'f' cmd
    then send (scpinout scp_inout_cmd 0 stop 0) ∷ []
    else if starts b'g' cmd
    then send (waste waste_step_cmd 1000 forward 15000) ∷ []
    else if starts b'h' cmd
    then send (waste waste_step_cmd 1000 reverse 15000) ∷ []
    else if starts b'i' cmd
    then send (waste waste_step_cmd 0 stop 0) ∷ []
    else if starts b'j' cmd
    then clear_emergency_stop ∷ create demo_synario ∷ []
    else if starts b'k' cmd
    then send (scpspin scp_spin_cmd 120 forward 15000) ∷ []
    else if starts b'l' cmd
    then send (scpspin scp_spin_cmd 120 reverse 15000) ∷ []
    else if starts b'm' cmd
    then send (scpspin scp_spin_cmd 0 stop 0) ∷ []
    else if starts b'n' cmd
    then send (main_cover main_cover_cmd 0 forward 10000) ∷ []
    else if starts b'o' cmd
    then send (main_cover main_cover_cmd 0 reverse 10000) ∷ []
    else if starts b'p' cmd
    then send (main_cover main_cover_cmd 0 stop 0) ∷ []
    else if starts b'q' cmd
    then create loadcell_tare_task ∷ []
    else if starts b's' cmd || starts b'S' cmd
    then create motor_calib_task ∷ []
    else if starts b't' cmd
    then send_loadcell loadcell_save_state1_cmd ∷ []
    else if starts b'u' cmd
    then send_loadcell loadcell_save_state2_cmd ∷ []
    else if starts b'v' cmd
    then send_loadcell loadcell_save_state3_cmd ∷ []
    else if starts b'w' cmd || starts b'W' cmd
    then clear_emergency_stop
      ∷ (if clean_running then toggle_clean_pause else create recovery_scenario_task)
      ∷ []
    else if starts b'x' cmd || starts b'X' cmd
    then (if test_running then delete_scpspin_test ∷ [] else []) ++ create scpspin_test_task ∷ []
    else if starts b'y' cmd || starts b'Y' cmd
    then get_pt_status ∷ []
    else if starts b'r' cmd
    then reset_factory_restore ∷ []
    else if starts b'z' cmd || starts b'Z' cmd
    then set_emergency_stop ∷ send (scpspin_ex scp_spin_cmd 0 stop 0 0 false) ∷ []
    else usage ∷ []

-- `test_running` is `xScpSpinTestTaskHandle != NULL`, which the test task resets when it ends.
-- The results are the calls and the handle after them.
unfoldable pub process_command : Bool → Bool → List ℕ → List Call × Bool
unfolding command_calls starts
process_command clean_running test_running cmd =
    let is_z = starts b'z' cmd || starts b'Z' cmd in
    let is_x = starts b'x' cmd || starts b'X' cmd in
    (
      (if is_z then [] else clear_emergency_stop ∷ [])
          ++ (if not is_x && test_running then delete_scpspin_test ∷ [] else [])
          ++ command_calls clean_running test_running cmd,
      is_x,
    )
