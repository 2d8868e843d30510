-- ===== src/Clean/World.antt =====
-- The task that runs a scenario of main/motor.c, and the tasks beside it.
-- Other tasks run whenever the scenario touches what they share, so every access and every
-- `vTaskDelay` is preceded by a step of the environment, a parameter.
use cat_litter_box.Common.{ℕ, suc, ◌+◌, Bool, List, ◌∷◌}
use cat_litter_box.Sensor.{Sensor}
use cat_litter_box.Motion.{DcMotor, StepMotor, Motor, Position, Action}

-- What other tasks read and write: the `volatile` flags of main/motor.c, the sensor values, the
-- run flags of the motor tasks (`get_dcmotor_run`, `get_stepmotor_run`) and the clock.
pub record Shared : Type 0 where
  pub emergency_stop_flag : Bool
  pub clean_pause_flag : Bool
  pub clean_resume_recovery_requested : Bool
  pub sensor : Sensor
  pub dcmotor_run : DcMotor → Bool
  pub stepmotor_run : StepMotor → Bool
  pub esp_timer_us : ℕ
  -- main/diag.c: `diag_next_step_f`, `diag_next_func_f`; main/keyscan.c: `get_keyclean_status`
  pub diag_next_step : Bool
  pub diag_next_func : Bool
  pub keyclean_status : Bool

-- What the other tasks do before the n-th access, and during a `vTaskDelay` of so many
-- milliseconds that is the n-th access.
pub record Env : Type 0 where
  pub step : ℕ → Shared → Shared
  pub delay : ℕ → ℕ → Shared → Shared

-- What the scenario has done and seen: a message that it sent, and a look of a waiting round at its
-- motor, with the position that `pt_check` gave and whether the motor was taken to run.
pub data Event : Type 0 where
  sent : Action → Event
  looked : Motor → Position → (running : Bool) → Event

-- The state of the scenario. `clean_running_flag` and `spin_mt_always_on` are written by the
-- scenarios alone. `log` holds the messages sent, newest first, `events`
-- the messages and the looks; `slept` the milliseconds delayed. Theorems alone read these three.
pub record World : Type 0 where
  pub shared : Shared
  pub ticks : ℕ
  pub slept : ℕ
  pub clean_running_flag : Bool
  pub spin_mt_always_on : Bool
  pub log : List Action
  pub events : List Event

-- `abort` is a `goto` to the label at the end of the function; `starved` means that the fuel of a
-- loop ran out.
pub data Exit (A : Type 0) : Type 0 where
  ok : A → Exit A
  abort : Exit A
  starved : Exit A

abbrev pub M : Type 0 → Type 0
M A = Env → World → Exit A × World

module _ {A : Type 0} where
  unfoldable pub pure : A → M A
  pure a e w = (ok a, w)

  unfoldable pub goto_exit : M A
  goto_exit e w = (abort, w)

  unfoldable pub starve : M A
  starve e w = (starved, w)

module _ {A B : Type 0} where
  abbrev pub continue : Exit A → (A → M B) → Env → World → Exit B × World
  continue (ok a) f e w = f a e w
  continue abort f e w = (abort, w)
  continue starved f e w = (starved, w)

  infixl 5 ◌>>=◌ ◌>>◌
  unfoldable pub ◌>>=◌ : M A → (A → M B) → M B
  ◌>>=◌ m f e w = let (x, w') = m e w in continue x f e w'

  abbrev pub ◌>>◌ : M A → M B → M B
  m >> n = m >>= λ _. n

module _ {A : Type 0} where
  abbrev pub recover : Exit A → M A → Env → World → Exit A × World
  recover (ok a) h e w = (ok a, w)
  recover abort h e w = h e w
  recover starved h e w = (starved, w)

  -- `body`, with the code at the label of its `goto`s.
  unfoldable pub with_label : M A → M A → M A
  with_label body h e w = let (x, w') = body e w in recover x h e w'

-- The other tasks run.
unfoldable pub interfere : Env → World → World
interfere e w = record w { shared = e.step w.ticks w.shared; ticks = suc w.ticks }

unfoldable pub read : {A : Type 0} → (Shared → A) → M A
unfolding interfere
read f e w = let w' = interfere e w in (ok (f w'.shared), w')

unfoldable pub write : (Shared → Shared) → M (Unit {0})
unfolding interfere
write f e w = let w' = interfere e w in (ok tt, record w' { shared = f w'.shared })

-- `vTaskDelay(pdMS_TO_TICKS(ms))`
unfoldable pub delay : ℕ → M (Unit {0})
delay ms e w = (
  ok tt,
  record w { shared = e.delay w.ticks ms w.shared; ticks = suc w.ticks; slept = w.slept + ms },
)

unfoldable pub send : Action → M (Unit {0})
send a e w = (ok tt, record w { log = a ∷ w.log; events = sent a ∷ w.events })

-- The value of a round, with the look on which it rests.
unfoldable pub having_looked : {A : Type 0} → Motor → Position → Bool → A → M A
having_looked mt at running a e w = (ok a, record w { events = looked mt at running ∷ w.events })

unfoldable pub set_running : Bool → M (Unit {0})
set_running b e w = (ok tt, record w { clean_running_flag = b })

unfoldable pub set_spin_always_on : Bool → M (Unit {0})
set_spin_always_on b e w = (ok tt, record w { spin_mt_always_on = b })
