-- ===== src/Clean/Manage.antt =====
-- main/motor.c: the manage scenarios, which open the machine for its owner and close it.
use cat_litter_box.Common.{ℕ, true, false}
use cat_litter_box.Motion.{
  dc_motor, main_cover_motor, scpinout_motor, mt_open, mt_close, forward, reverse, stop,
  scp_inout_cmd, main_cover_cmd, scpinout, main_cover, led, led_idle, led_manage,
}
use cat_litter_box.Clean.World.{M, pure, ◌>>◌, delay, send}
use cat_litter_box.Clean.Wait.{Ret, failure, await, drive_main_cover_soft}
use cat_litter_box.Clean.Origin.{returning}
use cat_litter_box.Clean.Recovery.{write_tof_enable}

unfoldable pub manage_start_body : ℕ → M (Unit {0})
manage_start_body fuel = do
  send (led led_manage)
  write_tof_enable true
  drive_main_cover_soft fuel forward 100
  delay 150
  await fuel (dc_motor main_cover_motor) 10000 mt_open
  send (main_cover main_cover_cmd 0 stop 0)
  send (scpinout scp_inout_cmd 0 forward 10000)
  delay 150
  await fuel (dc_motor scpinout_motor) 10000 mt_open
  send (scpinout scp_inout_cmd 0 stop 0)
  write_tof_enable false

-- The labels `manage_start_exit` and `manage_finish_exit`, which are the same.
unfoldable pub manage_exit : M Ret
manage_exit = do write_tof_enable false; pure failure

unfoldable pub do_manage_start : ℕ → M Ret
do_manage_start fuel = returning (manage_start_body fuel) manage_exit

unfoldable pub manage_finish_body : ℕ → M (Unit {0})
manage_finish_body fuel = do
  write_tof_enable true
  send (scpinout scp_inout_cmd 0 reverse 10000)
  delay 150
  await fuel (dc_motor scpinout_motor) 10000 mt_close
  send (scpinout scp_inout_cmd 0 stop 0)
  drive_main_cover_soft fuel reverse 100
  delay 150
  await fuel (dc_motor main_cover_motor) 10000 mt_close
  send (main_cover main_cover_cmd 0 stop 0)
  write_tof_enable false
  send (led led_idle)

unfoldable pub do_manage_finish : ℕ → M Ret
do_manage_finish fuel = returning (manage_finish_body fuel) manage_exit
