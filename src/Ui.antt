-- ===== src/Ui.antt =====
-- main/ui.c: which task a command may start. The kernel (xTaskCreate, queues) is not part of the
-- repository: a created task waits in `created` until the scheduler starts it, which is when it
-- raises its flag.
pub mod Exclusion
pub mod Proximity
use cat_litter_box.Common.{Bool, true, false, not, ◌&&◌, ◌||◌, List, [], ◌∷◌, if◌then◌else◌}

pub data UiCmd : Type 0 where
  clean_cmd manage_finish_cmd tare_zero_cmd manage_start_cmd pairing_cmd factory_cmd : UiCmd

-- `ui_clean_task` and so on.
pub data Task : Type 0 where
  clean_task manage_finish_task tare_task manage_start_task pairing_task factory_task : Task

-- The static flags, `ui_manage_f` last, and the tasks created but not started.
pub record Ui : Type 0 where
  pub pairing_task_run : Bool
  pub factory_task_run : Bool
  pub tare_task_run : Bool
  pub clean_task_run : Bool
  pub manage_finish_task_run : Bool
  pub manage_start_task_run : Bool
  pub ui_manage_f : Bool
  pub created : List Task

unfoldable pub boot : Ui
boot = record {
  pairing_task_run = false;
  factory_task_run = false;
  tare_task_run = false;
  clean_task_run = false;
  manage_finish_task_run = false;
  manage_start_task_run = false;
  ui_manage_f = false;
  created = [];
}

unfoldable pub check_run_flag : Bool → Ui → Bool
check_run_flag manage u =
    if not u.clean_task_run
      && not u.pairing_task_run
      && not u.factory_task_run
      && not u.tare_task_run
      && not u.manage_finish_task_run
      && not u.manage_start_task_run
    then (if manage then u.ui_manage_f else not u.ui_manage_f)
    else false

unfoldable pub check_task_runnable : UiCmd → Ui → Bool
check_task_runnable manage_finish_cmd u = check_run_flag true u
check_task_runnable _ u = check_run_flag false u

abbrev pub task_of : UiCmd → Task
task_of clean_cmd = clean_task
task_of manage_finish_cmd = manage_finish_task
task_of tare_zero_cmd = tare_task
task_of manage_start_cmd = manage_start_task
task_of pairing_cmd = pairing_task
task_of factory_cmd = factory_task

unfoldable pub create : Task → Ui → Ui
create t u = record u { created = t ∷ u.created }

-- A message that `ui_task` receives.
unfoldable pub on_command : UiCmd → Ui → Ui
on_command clean_cmd u = if check_task_runnable clean_cmd u then create clean_task u else u
on_command manage_finish_cmd u =
    if check_task_runnable manage_finish_cmd u
    then (if u.ui_manage_f then create manage_finish_task u else u)
    else u
on_command tare_zero_cmd u = if check_task_runnable tare_zero_cmd u then create tare_task u else u
on_command manage_start_cmd u =
    if check_task_runnable manage_start_cmd u
    then (if not u.ui_manage_f
        then record (create manage_start_task u) { ui_manage_f = true }
        else u)
    else u
on_command pairing_cmd u = if check_task_runnable pairing_cmd u then create pairing_task u else u
on_command factory_cmd u = if check_task_runnable factory_cmd u then create factory_task u else u

abbrev set_run : Task → Bool → Ui → Ui
set_run clean_task b u = record u { clean_task_run = b }
set_run manage_finish_task b u = record u { manage_finish_task_run = b }
set_run tare_task b u = record u { tare_task_run = b }
set_run manage_start_task b u = record u { manage_start_task_run = b }
set_run pairing_task b u = record u { pairing_task_run = b }
set_run factory_task b u = record u { factory_task_run = b }

-- The first line of a task: its flag goes up.
unfoldable pub start_task : Task → Ui → Ui
start_task t u = set_run t true u

-- The last lines of a task. `ui_manage_finish_task` leaves the manage mode; `ui_factory_task` restarts
-- the system before its last line.
unfoldable pub end_task : Task → Ui → Ui
end_task manage_finish_task u = record u { ui_manage_f = false; manage_finish_task_run = false }
end_task factory_task u = boot
end_task t u = set_run t false u

-- `check_operating`, with `get_status_diag()`.
unfoldable pub check_operating : Bool → Ui → Bool
check_operating diag u =
    u.clean_task_run || u.pairing_task_run || u.factory_task_run || u.tare_task_run
    || u.manage_finish_task_run || u.manage_start_task_run || u.ui_manage_f || diag
