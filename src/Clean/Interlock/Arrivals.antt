-- ===== src/Clean/Interlock/Arrivals.antt =====
-- The waits of main/motor.c for each motor, as rules that carry a posture through a scenario.
use cat_litter_box.Common.{ℕ, refl, arith}
use cat_litter_box.Motion.{
  dc_motor, step_motor, StepMotor, scpinout_motor, main_cover_motor, MotorStatus, mt_open, mt_close,
  mt_middle, Direction, forward, reverse, stop,
}
use cat_litter_box.Clean.World.{World, Exit, ok, abort, starved, M, ◌>>=◌}
use cat_litter_box.Clean.Wait.{Ret, success, failure, position_matches, wait_motor_operation, await}
use cat_litter_box.Clean.Interlock.{Place, moving, ended, Posture}
use cat_litter_box.Clean.Interlock.Rules.{At, Ends, Runs, Runs-bind, Quiet}
use cat_litter_box.Clean.Interlock.Drives.{
  Leads, Found, wait_motor_operation-Gives, Runs-wait, await_lem,
}

-- A wait for a step motor leaves the posture as it is.
step-Leads :
    (mt : StepMotor) (status : MotorStatus) (p : Posture) → Leads (step_motor mt) status p p
step-Leads mt status p = record { leads = λ at running h. refl; stays = λ at running h. refl }

pub wait_motor_operation-Quiet :
    (fuel : ℕ) (mt : StepMotor) (timeout : ℕ) (status : MotorStatus)
    → Quiet (wait_motor_operation fuel (step_motor mt) timeout status)
wait_motor_operation-Quiet fuel mt timeout status = record {
  at = λ p. record {
    at = λ e w h.
        go p (wait_motor_operation fuel (step_motor mt) timeout status e w)
          ((wait_motor_operation-Gives (step-Leads mt status p) fuel timeout).at e w h);
  };
}
  where
    go : (p : Posture) (x : Exit Ret × World) → Ends (Found p p) x → Ends (λ a. At p) x
    go p (ok success, w) h = h
    go p (ok failure, w) h = h
    go p (abort, w) h = h
    go p (starved, w) h = h

pub await-Quiet :
    (fuel : ℕ) (mt : StepMotor) (timeout : ℕ) (status : MotorStatus)
    → Quiet (await fuel (step_motor mt) timeout status)
await-Quiet fuel mt timeout status = record {
  at = λ p. await_lem (step-Leads mt status p) fuel timeout;
}

-- Where the slide `s` and the main cover `c` are.
abbrev pub last : Place → Place → Posture
last s c = record { scoop = s; cover = c }

-- The status that ends a drive.
abbrev end_of : Direction → MotorStatus
end_of forward = mt_open
end_of reverse = mt_close
end_of stop = mt_middle

module _ {c : Place} where
  scoop-Leads :
      (dir : Direction)
      → Leads (dc_motor scpinout_motor) (end_of dir) (last (moving dir) c) (last (ended dir) c)
  unfolding position_matches
  scoop-Leads dir = record {
    leads = λ at running h. ground arith;
    stays = λ at running h. ground arith;
  }

module _ {s : Place} where
  cover-Leads :
      (dir : Direction)
      → Leads (dc_motor main_cover_motor) (end_of dir) (last s (moving dir)) (last s (ended dir))
  unfolding position_matches
  cover-Leads dir = record {
    leads = λ at running h. ground arith;
    stays = λ at running h. ground arith;
  }

module _ {c : Place} {B : Type 0} {r : Posture} {f : Unit {0} → M B} where
  pub Runs-await_out :
      (fuel timeout : ℕ)
      → ((u : Unit {0}) → Runs (last (ended forward) c) (f u) r)
      → Runs
          (last (moving forward) c)
          (await fuel (dc_motor scpinout_motor) timeout mt_open >>= f)
          r
  Runs-await_out fuel timeout k = Runs-bind (await_lem (scoop-Leads forward) fuel timeout) k

  pub Runs-await_in :
      (fuel timeout : ℕ)
      → ((u : Unit {0}) → Runs (last (ended reverse) c) (f u) r)
      → Runs
          (last (moving reverse) c)
          (await fuel (dc_motor scpinout_motor) timeout mt_close >>= f)
          r
  Runs-await_in fuel timeout k = Runs-bind (await_lem (scoop-Leads reverse) fuel timeout) k

module _ {s : Place} {B : Type 0} {r : Posture} {f : Unit {0} → M B} where
  pub Runs-await_opened :
      (fuel timeout : ℕ)
      → ((u : Unit {0}) → Runs (last s (ended forward)) (f u) r)
      → Runs
          (last s (moving forward))
          (await fuel (dc_motor main_cover_motor) timeout mt_open >>= f)
          r
  Runs-await_opened fuel timeout k = Runs-bind (await_lem (cover-Leads forward) fuel timeout) k

  pub Runs-await_closed :
      (fuel timeout : ℕ)
      → ((u : Unit {0}) → Runs (last s (ended reverse)) (f u) r)
      → Runs
          (last s (moving reverse))
          (await fuel (dc_motor main_cover_motor) timeout mt_close >>= f)
          r
  Runs-await_closed fuel timeout k = Runs-bind (await_lem (cover-Leads reverse) fuel timeout) k

module _ {s : Place} {B : Type 0} {r : Posture} where
  -- The wait for the opened cover whose result is looked at later.
  pub Runs-wait_opened :
      (fuel timeout : ℕ) (f : Ret → M B)
      → Runs (last s (ended forward)) (f success) r
      → Runs (last s (moving forward)) (f failure) r
      → Runs
          (last s (moving forward))
          (wait_motor_operation fuel (dc_motor main_cover_motor) timeout mt_open >>= f)
          r
  Runs-wait_opened fuel timeout f good bad = Runs-wait (cover-Leads forward) fuel timeout f good bad

pub ruleset await_rules = (Runs-await_out, Runs-await_in, Runs-await_opened, Runs-await_closed)
