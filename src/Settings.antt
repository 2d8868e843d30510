-- ===== src/Settings.antt =====
-- main/app_config_flash.c: the settings in memory and in flash, with the reads and writes of blobs
-- in main/app_nvs.c. The flash library is a parameter, `Nvs`. A blob is the list of its 32-bit words.
-- The string fields of the settings, which no other function here touches, are left out.
pub mod Saved
use cat_litter_box.Common.{
  ℕ, ◌-◌, ◌^◌, Bool, true, false, Option, none, some, List, [], ◌∷◌, ◌++◌, length, drop, ltb, ◌==◌,
  if◌then◌else◌,
}

pub data Key : Type 0 where
  app_key_configuration app_key_wifi_config app_key_ble_config : Key

-- `nvs_get_blob` and `nvs_set_blob` with the `nvs_open` before and the `nvs_commit` after them, on
-- the flash's contents: `none` for every error. A failed write is not reported to the callers.
pub record Nvs : Type 1 where
  pub F : Type 0
  pub get_blob : Key → F → Option (List ℕ)
  pub set_blob : Key → List ℕ → F → F

-- The initial value of `app_config`, in the order of main/app_config_flash.h.
abbrev pub default_app_config : List ℕ
default_app_config =
    50 ∷ 10 ∷ 495 ∷ 495 ∷ 495 ∷ 495 ∷ 495 ∷ 500 ∷ 20 ∷ 5 ∷ 0 ∷ (2 ^ 32 - 85) ∷ 250 ∷ 250 ∷ 1800 ∷ []

module _ (nvs : Nvs) where
  open nvs use {F, get_blob, set_blob}

  pub record Settings : Type 0 where
    pub app_config : List ℕ
    pub wifi_config : List ℕ
    pub ble_config : List ℕ
    pub app_save_flag : Bool
    pub wifi_save_flag : Bool
    pub ble_save_flag : Bool
    pub flash : F

  -- `read_nvs_blob`: what is then in `out_blob`, or `none` for an error. A blob of no words is read
  -- without an error, and changes nothing.
  unfoldable pub read_nvs_blob : Key → List ℕ → F → Option (List ℕ)
  read_nvs_blob key out_blob f = elim (get_blob key f) [
    | none ↦ none
    | some blob ↦
        if ltb (length out_blob) (length blob)
        then none
        else some (blob ++ drop (length blob) out_blob)
  ]

  unfoldable pub load_app_configuration : Settings → Settings
  unfolding read_nvs_blob
  load_app_configuration s = elim (read_nvs_blob app_key_configuration s.app_config s.flash) [
    | none ↦ record s { flash = set_blob app_key_configuration s.app_config s.flash }
    | some config ↦ record s { app_config = config }
  ]

  unfoldable pub load_wifi_configuration : Settings → Settings
  unfolding read_nvs_blob
  load_wifi_configuration s = elim (read_nvs_blob app_key_wifi_config s.wifi_config s.flash) [
    | none ↦ record s { flash = set_blob app_key_wifi_config s.wifi_config s.flash }
    | some config ↦ record s { wifi_config = config }
  ]

  unfoldable pub load_ble_configuration : Settings → Settings
  unfolding read_nvs_blob
  load_ble_configuration s = elim (read_nvs_blob app_key_ble_config s.ble_config s.flash) [
    | none ↦ record s { flash = set_blob app_key_ble_config s.ble_config s.flash }
    | some config ↦ record s { ble_config = config }
  ]

  -- The loop of `flash_task`, less the motor time, by settings.
  unfoldable pub save_app : Settings → Settings
  save_app s =
      if s.app_save_flag
      then record s {
        app_save_flag = false;
        flash = set_blob app_key_configuration s.app_config s.flash;
      }
      else s

  unfoldable pub save_wifi : Settings → Settings
  save_wifi s =
      if s.wifi_save_flag
      then record s {
        wifi_save_flag = false;
        flash = set_blob app_key_wifi_config s.wifi_config s.flash;
      }
      else s

  unfoldable pub save_ble : Settings → Settings
  save_ble s =
      if s.ble_save_flag
      then record s {
        ble_save_flag = false;
        flash = set_blob app_key_ble_config s.ble_config s.flash;
      }
      else s

  unfoldable pub flash_round : Settings → Settings
  unfolding save_app save_wifi save_ble
  flash_round s = save_ble (save_wifi (save_app s))

  abbrev pub app_nvs_save_set : Settings → Settings
  app_nvs_save_set s = record s { app_save_flag = true }

  -- A restart keeps the flash. `blank_wifi` and `blank_ble` are the initial values of the other two,
  -- all of whose words are 0. Then `NVS_Flash_init`.
  unfoldable pub restart : List ℕ → List ℕ → F → Settings
  unfolding load_app_configuration load_wifi_configuration load_ble_configuration
  restart blank_wifi blank_ble f = load_ble_configuration (
      load_wifi_configuration (
        load_app_configuration (record {
          app_config = default_app_config;
          wifi_config = blank_wifi;
          ble_config = blank_ble;
          app_save_flag = false;
          wifi_save_flag = false;
          ble_save_flag = false;
          flash = f;
        })))
