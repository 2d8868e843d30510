-- ===== src/Settings/Saved.antt =====
-- The settings survive a restart, and the reason of a reset is reported once.
use mathlib.Core.List.{append-nil}
use cat_litter_box.Common.{
  ℕ, ◌^◌, ◌<◌, ◌≢◌, true, false, some, List, [], ◌∷◌, ◌++◌, length, length-set, drop, set, get_or,
  get_or-set_self, bit_or, ltb, ◌==◌, ◌≡◌, refl, ap, sym, ◌∙◌, arith, Bool-cases, inl, inr,
}
use cat_litter_box.Settings.{
  Key, app_key_configuration, app_key_wifi_config, app_key_ble_config, Nvs, Settings,
  default_app_config, read_nvs_blob, load_app_configuration, load_wifi_configuration,
  load_ble_configuration, save_app, save_wifi, save_ble, flash_round, restart, app_nvs_save_set,
}
use cat_litter_box.Console.Boot.{
  Reason, reason_normal, reason_diag, reason_ota, reason_factory_restore, code, restore, restored,
  check_boot_mode, system_reset,
}

-- The flash gives back what was written last, key by key.
pub record IsReliable (nvs : Nvs) : Type 0 where
  pub get-set :
      (key : Key) (blob : List ℕ) (f : nvs.F)
      → nvs.get_blob key (nvs.set_blob key blob f) ≡ some blob
  pub get-set_ne :
      (key key' : Key) (blob : List ℕ) (f : nvs.F)
      → key ≢ key'
      → nvs.get_blob key (nvs.set_blob key' blob f) ≡ nvs.get_blob key f

app-ne-wifi : app_key_configuration ≢ app_key_wifi_config
app-ne-wifi e = ground arith

app-ne-ble : app_key_configuration ≢ app_key_ble_config
app-ne-ble e = ground arith

not_longer : (m n : ℕ) → n ≡ m → ltb m n ≡ false
not_longer m n e = ground arith

drop-length : (xs ys : List ℕ) → length xs ≡ length ys → drop (length xs) ys ≡ []
drop-length [] [] e = refl
drop-length [] (y ∷ ys) e = absurd (omega arith)
drop-length (x ∷ xs) [] e = absurd (omega arith)
drop-length (x ∷ xs) (y ∷ ys) e = drop-length xs ys (omega arith)

whole : (xs ys : List ℕ) → length xs ≡ length ys → xs ++ drop (length xs) ys ≡ xs
whole xs ys e = rw (drop-length xs ys e) (append-nil xs)

set-get : (c : List ℕ) → get_or c 0 0 ≡ 0 → set c 0 0 ≡ c
set-get [] e = refl
set-get (x ∷ c) e = ap (λ y. y ∷ c) (sym e)

code_kept :
    (reason : Reason) (c : List ℕ)
    → 0 < length c
    → get_or (restored reason (set c 0 (code reason))) 0 0 ≡ code reason
unfolding restored restore
code_kept reason [] h = elim h [ ]
code_kept reason_normal (x ∷ c) h = refl
code_kept reason_diag (x ∷ c) h = refl
code_kept reason_ota (x ∷ c) h = refl
code_kept reason_factory_restore (x ∷ c) h = refl

length-restored :
    (reason : Reason) (c : List ℕ) {n : ℕ} → length c ≡ n → length (restored reason c) ≡ n
unfolding restored restore
length-restored reason_normal c e = e
length-restored reason_diag c e = e
length-restored reason_ota c e = e
length-restored reason_factory_restore c e = simp length-set e

shifted : (reason : Reason) → bit_or 0 (2 ^ code reason) ≡ 2 ^ code reason
shifted reason_normal = refl
shifted reason_diag = refl
shifted reason_ota = refl
shifted reason_factory_restore = refl

module _ (nvs : Nvs) (reliable : IsReliable nvs) where
  -- The flash holds the settings `c`.
  abbrev Stored : List ℕ → nvs.F → Type 0
  Stored c f = nvs.get_blob app_key_configuration f ≡ some c

  save_rest-Stored :
      (s : Settings nvs) {c : List ℕ}
      → Stored c s.flash
      → Stored c (save_ble nvs (save_wifi nvs s)).flash
  unfolding save_ble save_wifi
  save_rest-Stored s v = ground (
    arith,
    reliable.get-set_ne app_key_configuration app_key_wifi_config s.wifi_config s.flash app-ne-wifi,
    reliable.get-set_ne app_key_configuration app_key_ble_config s.ble_config s.flash app-ne-ble,
    reliable.get-set_ne app_key_configuration app_key_ble_config s.ble_config
        (nvs.set_blob app_key_wifi_config s.wifi_config s.flash) app-ne-ble,
  )

  save_app-Stored :
      (s : Settings nvs) → s.app_save_flag ≡ true → Stored s.app_config (save_app nvs s).flash
  unfolding save_app
  save_app-Stored s e = ground (arith, reliable.get-set app_key_configuration s.app_config s.flash)

  save_app-kept :
      (s : Settings nvs) {c : List ℕ}
      → s.app_save_flag ≡ false
      → Stored c s.flash
      → Stored c (save_app nvs s).flash
  unfolding save_app
  save_app-kept s e v = ground arith

  flash_round-Stored :
      (s : Settings nvs) → s.app_save_flag ≡ true → Stored s.app_config (flash_round nvs s).flash
  unfolding flash_round
  flash_round-Stored s e = save_rest-Stored (save_app nvs s) (save_app-Stored s e)

  flash_round-kept :
      (s : Settings nvs) {c : List ℕ}
      → s.app_save_flag ≡ false
      → Stored c s.flash
      → Stored c (flash_round nvs s).flash
  unfolding flash_round
  flash_round-kept s e v = save_rest-Stored (save_app nvs s) (save_app-kept s e v)

  load_wifi-Stored :
      (s : Settings nvs) {c : List ℕ}
      → Stored c s.flash
      → Stored c (load_wifi_configuration nvs s).flash
  unfolding load_wifi_configuration
  load_wifi-Stored s v = ground (
    arith,
    reliable.get-set_ne app_key_configuration app_key_wifi_config s.wifi_config s.flash app-ne-wifi,
  )

  load_ble-Stored :
      (s : Settings nvs) {c : List ℕ}
      → Stored c s.flash
      → Stored c (load_ble_configuration nvs s).flash
  unfolding load_ble_configuration
  load_ble-Stored s v = ground (
    arith,
    reliable.get-set_ne app_key_configuration app_key_ble_config s.ble_config s.flash app-ne-ble,
  )

  -- What `restart` loads.
  loaded :
      (s : Settings nvs) (c : List ℕ)
      → Stored c s.flash
      → length c ≡ length s.app_config
      → load_app_configuration nvs s ≡ record s { app_config = c }
  unfolding load_app_configuration read_nvs_blob
  loaded s c v e =
      rw
        (
          load_app_configuration,
          v,
          not_longer (length s.app_config) (length c) e,
          whole c s.app_config e,
        )
        refl

  others_keep-app :
      (s : Settings nvs)
      → (load_ble_configuration nvs (load_wifi_configuration nvs s)).app_config ≡ s.app_config
  unfolding load_ble_configuration load_wifi_configuration
  others_keep-app s = ground arith

  others_keep-flag :
      (s : Settings nvs)
      → (load_ble_configuration nvs (load_wifi_configuration nvs s)).app_save_flag ≡ s.app_save_flag
  unfolding load_ble_configuration load_wifi_configuration
  others_keep-flag s = ground arith

  -- A restart finds the settings of the flash.
  record Restarted (c : List ℕ) (s : Settings nvs) : Type 0 where
    config : s.app_config ≡ c
    flag : s.app_save_flag ≡ false
    stored : Stored c s.flash

  restart-Restarted :
      (wifi ble c : List ℕ) (f : nvs.F)
      → Stored c f
      → length c ≡ 15
      → Restarted c (restart nvs wifi ble f)
  unfolding restart
  restart-Restarted wifi ble c f v h = record {
    config = others_keep-app (load_app_configuration nvs start) ∙ ap (λ s. s.app_config) now;
    flag = others_keep-flag (load_app_configuration nvs start) ∙ ap (λ s. s.app_save_flag) now;
    stored = load_ble-Stored _ (load_wifi-Stored (load_app_configuration nvs start) (rw now v));
  }
    where
      start : Settings nvs
      start = record {
        app_config = default_app_config;
        wifi_config = wifi;
        ble_config = ble;
        app_save_flag = false;
        wifi_save_flag = false;
        ble_save_flag = false;
        flash = f;
      }

      now : load_app_configuration nvs start ≡ record start { app_config = c }
      now = loaded start c v h

  mode_reported :
      (s : Settings nvs) → (check_boot_mode nvs 0 s).1 ≡ bit_or 0 (2 ^ get_or s.app_config 0 0)
  unfolding check_boot_mode
  mode_reported s = elim (Bool-cases (get_or s.app_config 0 0 == 0)) [
    | inl y ↦ rw y refl
    | inr n ↦ rw n refl
  ]

  reported :
      (reason : Reason) (s : Settings nvs)
      → get_or s.app_config 0 0 ≡ code reason
      → (check_boot_mode nvs 0 s).1 ≡ 2 ^ code reason
  reported reason s e = mode_reported s ∙ ap (λ m. bit_or 0 (2 ^ m)) e ∙ shifted reason

  cleared :
      (c : List ℕ) (s : Settings nvs)
      → Restarted c s
      → length c ≡ 15
      → Stored (set c 0 0) (flash_round nvs (check_boot_mode nvs 0 s).0).flash
  unfolding check_boot_mode
  cleared c s v h = elim (Bool-cases (get_or s.app_config 0 0 == 0)) [
    | inl y ↦ rw (y, set-get c (ground (arith, v.config))) (flash_round-kept s v.flag v.stored)
    | inr n ↦
        rw (n, sym v.config)
          (flash_round-Stored
            (app_nvs_save_set nvs (record s { app_config = set s.app_config 0 0 })) refl)
  ]

  -- A reset by `system_reset` whose settings `flash_task` saves before the restart is reported by
  -- its reason at the next power-up, and at the one after that as a normal start, if `flash_task` has
  -- saved again before it.
  pub reset-reported :
      (reason : Reason) (s : Settings nvs) (wifi ble : List ℕ)
      → length s.app_config ≡ 15
      → let boot = λ (f : nvs.F). check_boot_mode nvs 0 (restart nvs wifi ble f) in
        let first = boot (flash_round nvs (system_reset nvs reason s)).flash in
        let second = boot (flash_round nvs first.0).flash in
        (first.1 ≡ 2 ^ code reason) × (second.1 ≡ 1)
  unfolding system_reset
  reset-reported reason s wifi ble h =
      let c = restored reason (set s.app_config 0 (code reason)) in
      let long =
        length-restored reason (set s.app_config 0 (code reason))
          (length-set s.app_config 0 (code reason) ∙ h) in
      let v =
        restart-Restarted wifi ble c _ (flash_round-Stored (system_reset nvs reason s) refl) long in
      let w =
        restart-Restarted wifi ble (set c 0 0) _ (cleared c _ v long) (length-set c 0 0 ∙ long) in
      (
        reported reason _
            (ap (λ a. get_or a 0 0) v.config ∙ code_kept reason s.app_config (omega arith)),
        reported reason_normal _
            (ap (λ a. get_or a 0 0) w.config ∙ get_or-set_self c 0 0 0 (omega (arith, long))),
      )
