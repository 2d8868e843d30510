-- ===== src/Console/Boot.antt =====
-- main/main.c: what runs once at power-up, and `system_reset`
-- The settings are words in the order of `app_config_t` in main/main.h, the one header that
-- main/main.c includes.
use cat_litter_box.Common.{ℕ, ◌-◌, ◌^◌, not, ◌||◌, List, set, get_or, bit_or, ◌==◌, if◌then◌else◌}
use cat_litter_box.Sensor.{
  has_bit, get_pt_status, pt_bit_waste_close, pt_bit_mcover_close, pt_bit_scp_in,
}
use cat_litter_box.Clean.World.{M, pure, ◌>>=◌, ◌>>◌, read}
use cat_litter_box.Clean.Flags.{clear_emergency_stop}
use cat_litter_box.Clean.Recovery.{do_clean_resume_recovery}
use cat_litter_box.Settings.{Nvs, Settings, app_nvs_save_set}

-- The result of the recovery is not looked at.
unfoldable pub check_boot_origin_recovery : ℕ → M (Unit {0})
check_boot_origin_recovery fuel = do
  pt ← read (λ s. get_pt_status s.sensor)
  if not (has_bit pt pt_bit_waste_close)
        || not (has_bit pt pt_bit_mcover_close)
        || not (has_bit pt pt_bit_scp_in)
      then (do clear_emergency_stop; do_clean_resume_recovery fuel >>= λ _. pure tt)
      else pure tt

-- The anonymous `enum` of main/main.h
pub data Reason : Type 0 where
  reason_normal reason_diag reason_ota reason_factory_restore : Reason

abbrev pub code : Reason → ℕ
code reason_normal = 0
code reason_diag = 1
code reason_ota = 2
code reason_factory_restore = 3

-- The assignments for REASON_FACTORY_RESTORE.
unfoldable pub restore : List ℕ → List ℕ
restore app =
    let app1 = set (set app 1 50) 2 10 in
    let app2 = set (set (set (set (set app1 3 495) 4 495) 5 495) 6 495) 7 495 in
    let app3 = set (set (set app2 8 500) 9 20) 10 5 in
    set (set (set (set app3 11 (2 ^ 32 - 85)) 12 250) 13 250) 14 1800

unfoldable pub restored : Reason → List ℕ → List ℕ
unfolding restore
restored reason_factory_restore app = restore app
restored _ app = app

module _ (nvs : Nvs) where
  -- `check_boot_mode`: the settings and `reset_reason`. The code's `1<<mode` is defined for a mode
  -- below 31 only.
  unfoldable pub check_boot_mode : ℕ → Settings nvs → Settings nvs × ℕ
  check_boot_mode reset_reason s =
      let mode = get_or s.app_config 0 0 in
      let reset_reason' = bit_or reset_reason (2 ^ mode) in
      if mode == 0
      then (s, reset_reason')
      else (app_nvs_save_set nvs (record s { app_config = set s.app_config 0 0 }), reset_reason')

  -- `system_reset` up to the delay before `esp_restart`, at least 500 ms, in which `flash_task`, every
  -- 100 ms, saves the settings. The message to the LED is left out.
  unfoldable pub system_reset : Reason → Settings nvs → Settings nvs
  unfolding restored
  system_reset reason s =
      let app = set s.app_config 0 (code reason) in
      app_nvs_save_set nvs (record s { app_config = restored reason app })
