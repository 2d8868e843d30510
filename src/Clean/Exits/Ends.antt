-- ===== src/Clean/Exits/Ends.antt =====
-- What `do_clean` of main/motor.c leaves behind, whichever way it ends.
use cat_litter_box.Common.{
  ℕ, Bool, true, false, ◌≡◌, refl, ◌∙◌, Option, none, some, List, [], ◌∷◌, if◌then◌else◌,
}
use cat_litter_box.Motion.{
  Direction, stop, Action, plate, scpinout, main_cover, waste, scpspin, scpspin_ex, LedCmd, led,
  led_idle, led_error,
}
use cat_litter_box.Clean.World.{
  Env, World, Exit, ok, abort, starved, M, pure, continue, ◌>>=◌, recover, with_label, read, write,
  send, set_running, set_spin_always_on,
}
use cat_litter_box.Clean.Wait.{Ret, success, failure}
use cat_litter_box.Clean.Recovery.{
  write_pause, write_recovery, write_tof_enable, reset_to_idle, recovery_abort, recovery_body,
  do_clean_resume_recovery,
}
use cat_litter_box.Clean.Cycle.{finish_clean, clean_scenario, estop_exit, do_clean}
use cat_litter_box.Clean.Exits.Spin.{
  KeepsSpin, delay-KeepsSpin, send-KeepsSpin, await-KeepsSpin, check_tof_pause-KeepsSpin,
}
use cat_litter_box.Clean.Exits.SpinParts.{
  drive_main_cover_soft-KeepsSpin, spin_to-KeepsSpin, scoop_in-KeepsSpin, calibrate-KeepsSpin,
  write_pause-KeepsSpin, recover_waste_cover-KeepsSpin, recalibrate-KeepsSpin,
  recover_scoop-KeepsSpin, recover_main_cover-KeepsSpin, recovery_body-KeepsSpin,
}

-- The LED's last command.
abbrev pub last_led : List Action → Option LedCmd
last_led [] = none
last_led (led c ∷ log) = some c
last_led (a ∷ log) = last_led log

-- The last command of each motor.
pub record Lasts : Type 0 where
  pub plate_dir : Option Direction
  pub scpinout_dir : Option Direction
  pub cover_dir : Option Direction
  pub waste_dir : Option Direction
  pub spin_dir : Option Direction

abbrev pub noted : Action → Lasts → Lasts
noted (plate cmd angle dir timeout) l = record l { plate_dir = some dir }
noted (scpinout cmd angle dir timeout) l = record l { scpinout_dir = some dir }
noted (main_cover cmd angle dir timeout) l = record l { cover_dir = some dir }
noted (waste cmd angle dir timeout) l = record l { waste_dir = some dir }
noted (scpspin cmd angle dir timeout) l = record l { spin_dir = some dir }
noted (scpspin_ex cmd angle dir speed timeout cal) l = record l { spin_dir = some dir }
noted (led c) l = l

abbrev pub lasts : List Action → Lasts
lasts [] = record {
  plate_dir = none;
  scpinout_dir = none;
  cover_dir = none;
  waste_dir = none;
  spin_dir = none;
}
lasts (a ∷ log) = noted a (lasts log)

abbrev pub all_stopped : Lasts
all_stopped = record {
  plate_dir = some stop;
  scpinout_dir = some stop;
  cover_dir = some stop;
  waste_dir = some stop;
  spin_dir = some stop;
}

-- Both flags are down and the LED shows `c`.
pub record IsLeft (c : LedCmd) (w : World) : Type 0 where
  pub running : w.clean_running_flag ≡ false
  pub spin : w.spin_mt_always_on ≡ false
  pub shown : last_led w.log ≡ some c

-- After 0 the LED shows idle; after -1 it shows the error, and every motor was last told to stop.
abbrev pub Left : Ret → World → Type 0
Left success w = IsLeft led_idle w
Left failure w = IsLeft led_error w × (lasts w.log ≡ all_stopped)

-- The body of a function, which may go to its label, and a function, which may not.
abbrev pub Body : Exit Ret × World → Type 0
Body (ok ret, w) = Left ret w
Body (abort, w) = Unit
Body (starved, w) = Unit

abbrev pub Settled : Exit Ret × World → Type 0
Settled (ok ret, w) = Left ret w
Settled (abort, w) = ⊥
Settled (starved, w) = Unit

-- From every world, and from one in which the spin motor is not kept on.
record Lands (m : M Ret) : Type 0 where
  at : (e : Env) (w : World) → Body (m e w)

record FromOff (m : M Ret) : Type 0 where
  at : (e : Env) (w : World) → w.spin_mt_always_on ≡ false → Body (m e w)

module _ {A : Type 0} where
  bind-Lands : (m : M A) {f : A → M Ret} → ((a : A) → Lands (f a)) → Lands (m >>= f)
  unfolding ◌>>=◌
  bind-Lands m {f} k = record { at = λ e w. go e (m e w) }
    where
      go : (e : Env) (x : Exit A × World) → Body (continue x.0 f e x.1)
      go e (ok a, w') = (k a).at e w'
      go e (abort, w') = tt
      go e (starved, w') = tt

  bind-FromOff :
      {m : M A} {f : A → M Ret} → KeepsSpin m → ((a : A) → FromOff (f a)) → FromOff (m >>= f)
  unfolding ◌>>=◌
  bind-FromOff {m} {f} km kf = record { at = λ e w off. go e (m e w) (km.at e w ∙ off) }
    where
      go :
          (e : Env) (x : Exit A × World)
          → x.1.spin_mt_always_on ≡ false
          → Body (continue x.0 f e x.1)
      go e (ok a, w') off = (kf a).at e w' off
      go e (abort, w') off = tt
      go e (starved, w') off = tt

switch_off :
    {f : Unit {0} → M Ret}
    → ((u : Unit {0}) → FromOff (f u))
    → Lands (set_spin_always_on false >>= f)
unfolding ◌>>=◌ set_spin_always_on
switch_off k = record { at = λ e w. (k tt).at e _ refl }

-- The end of `do_clean`, from the switching off of the sensor.
settle_idle : FromOff (
    write_tof_enable false >>= λ _. set_running false >>= λ _. write_pause false >>= λ _.
    write_recovery false >>= λ _. send (led led_idle) >>= λ _. pure success)
unfolding ◌>>=◌ write_tof_enable set_running write_pause write_recovery write send pure
settle_idle = record { at = λ e w off. record { running = refl; spin = off; shown = refl } }

finish_clean-Lands : (fuel : ℕ) → Lands (finish_clean fuel)
unfolding finish_clean
finish_clean-Lands fuel = bind-Lands _ λ _. switch_off λ _.
    bind-FromOff (check_tof_pause-KeepsSpin _) λ _. bind-FromOff (scoop_in-KeepsSpin _ _) λ _.
      bind-FromOff (spin_to-KeepsSpin _ _ _ _) λ _. bind-FromOff (calibrate-KeepsSpin _) λ _.
        bind-FromOff (drive_main_cover_soft-KeepsSpin _ _ _) λ _.
          bind-FromOff (delay-KeepsSpin _) λ _. bind-FromOff (await-KeepsSpin _ _ _ _) λ _.
            bind-FromOff (send-KeepsSpin _) λ _. bind-FromOff (send-KeepsSpin _) λ _. settle_idle

clean_scenario-Lands : (fuel : ℕ) → Lands (clean_scenario fuel)
unfolding clean_scenario
clean_scenario-Lands fuel =
    bind-Lands _ λ _. bind-Lands _ λ _. bind-Lands _ λ _. finish_clean-Lands fuel

reset_to_idle-FromOff : FromOff reset_to_idle
unfolding reset_to_idle ◌>>=◌ write_tof_enable set_running write_pause write_recovery write send
    pure
reset_to_idle-FromOff = record {
  at = λ e w off. record { running = refl; spin = off; shown = refl };
}

recovery_body-FromOff : (fuel : ℕ) → FromOff (recovery_body fuel)
unfolding recovery_body
recovery_body-FromOff fuel = bind-FromOff (write_pause-KeepsSpin _) λ _.
    bind-FromOff (delay-KeepsSpin _) λ _. bind-FromOff (recover_waste_cover-KeepsSpin _) λ _.
      bind-FromOff (recalibrate-KeepsSpin _) λ _. bind-FromOff (delay-KeepsSpin _) λ _.
        bind-FromOff (recover_scoop-KeepsSpin _)
          λ _. bind-FromOff (recover_main_cover-KeepsSpin _) λ _. reset_to_idle-FromOff

recovery_abort-Settled :
    (e : Env) (w : World) → w.spin_mt_always_on ≡ false → Settled (recovery_abort e w)
unfolding recovery_abort ◌>>=◌ write_tof_enable set_running write_pause write_recovery write send
    pure
recovery_abort-Settled e w off = (record { running = refl; spin = off; shown = refl }, refl)

recovery-Settled :
    (fuel : ℕ) (e : Env) (w : World)
    → w.spin_mt_always_on ≡ false
    → Settled (do_clean_resume_recovery fuel e w)
unfolding do_clean_resume_recovery with_label
recovery-Settled fuel e w off =
    go (recovery_body fuel e w) ((recovery_body-KeepsSpin fuel).at e w ∙ off)
      ((recovery_body-FromOff fuel).at e w off)
  where
    go :
        (x : Exit Ret × World)
        → x.1.spin_mt_always_on ≡ false
        → Body x
        → Settled (recover x.0 recovery_abort e x.1)
    go (ok ret, w') off' b = b
    go (abort, w') off' b = recovery_abort-Settled e w' off'
    go (starved, w') off' b = b

estop_end :
    (fuel : ℕ) (is_recovery_mode : Bool) (e : Env) (w : World)
    → w.clean_running_flag ≡ false
    → w.spin_mt_always_on ≡ false
    → lasts w.log ≡ all_stopped
    → Settled (
        (if is_recovery_mode
            then do_clean_resume_recovery fuel
            else (send (led led_error) >>= λ _. pure failure))
          e w)
unfolding ◌>>=◌ send pure
estop_end fuel true e w idle off halted = recovery-Settled fuel e w off
estop_end fuel false e w idle off halted =
    (record { running = idle; spin = off; shown = refl }, halted)

-- The label of `do_clean`, from every world.
estop_exit-Settled : (fuel : ℕ) (e : Env) (w : World) → Settled (estop_exit fuel e w)
unfolding estop_exit ◌>>=◌ set_spin_always_on read set_running write_pause write_recovery write send
    pure
estop_exit-Settled fuel e w = estop_end fuel _ e _ refl refl refl

-- `do_clean` ends by a return, if its loops end, whatever the other tasks do, and then no cleaning
-- counts as running and the spin motor is not kept on. If it returns 0, the LED was last told to show
-- idle; if it returns -1, the error, and every motor was last told to stop.
pub do_clean-Settled : (fuel : ℕ) (e : Env) (w : World) → Settled (do_clean fuel e w)
unfolding do_clean with_label
do_clean-Settled fuel e w = go (clean_scenario fuel e w) ((clean_scenario-Lands fuel).at e w)
  where
    go : (x : Exit Ret × World) → Body x → Settled (recover x.0 (estop_exit fuel) e x.1)
    go (ok ret, w') b = b
    go (abort, w') b = estop_exit-Settled fuel e w'
    go (starved, w') b = b
