-- ===== src/Clean/Exits/Spin.antt =====
-- The waits of main/motor.c keep `spin_mt_always_on`, which only `do_clean` itself writes.
use cat_litter_box.Common.{
  ℕ, zero, suc, Bool, true, false, none, some, ◌≡◌, refl, ◌∙◌, if◌then◌else◌,
}
use cat_litter_box.Motion.{Action, Motor, MotorStatus}
use cat_litter_box.Clean.World.{
  Shared, Env, World, Exit, ok, abort, starved, M, pure, goto_exit, starve, continue, ◌>>=◌,
  recover, with_label, read, write, delay, send, having_looked, set_running,
}
use cat_litter_box.Clean.Flags.{Position, stop_requested, pt_check}
use cat_litter_box.Clean.Wait.{
  Ret, success, failure, or_exit, pause_loop, round_stopped, wait_round, wait_loop,
  wait_motor_operation, await, tof_wait, get_fresh_tof_distance, check_tof_pause,
}

-- However the action ends, the flag is as before.
pub record KeepsSpin {A : Type 0} (m : M A) : Type 0 where
  pub at : (e : Env) (w : World) → (m e w).1.spin_mt_always_on ≡ w.spin_mt_always_on

module _ {A : Type 0} where
  pub pure-KeepsSpin : (a : A) → KeepsSpin (pure a)
  unfolding pure
  pure-KeepsSpin a = record { at = λ e w. refl }

  having_looked-KeepsSpin :
      (mt : Motor) (at : Position) (running : Bool) (a : A)
      → KeepsSpin (having_looked mt at running a)
  unfolding having_looked
  having_looked-KeepsSpin mt at running a = record { at = λ e w. refl }

  pub starve-KeepsSpin : KeepsSpin (starve {A = A})
  unfolding starve
  starve-KeepsSpin = record { at = λ e w. refl }

  pub goto_exit-KeepsSpin : KeepsSpin (goto_exit {A = A})
  unfolding goto_exit
  goto_exit-KeepsSpin = record { at = λ e w. refl }

  pub read-KeepsSpin : (f : Shared → A) → KeepsSpin (read f)
  unfolding read
  read-KeepsSpin f = record { at = λ e w. refl }

pub write-KeepsSpin : (f : Shared → Shared) → KeepsSpin (write f)
unfolding write
write-KeepsSpin f = record { at = λ e w. refl }

pub delay-KeepsSpin : (ms : ℕ) → KeepsSpin (delay ms)
unfolding delay
delay-KeepsSpin ms = record { at = λ e w. refl }

pub send-KeepsSpin : (a : Action) → KeepsSpin (send a)
unfolding send
send-KeepsSpin a = record { at = λ e w. refl }

pub set_running-KeepsSpin : (b : Bool) → KeepsSpin (set_running b)
unfolding set_running
set_running-KeepsSpin b = record { at = λ e w. refl }

module _ {A B : Type 0} where
  pub bind-KeepsSpin :
      {m : M A} {f : A → M B} → KeepsSpin m → ((a : A) → KeepsSpin (f a)) → KeepsSpin (m >>= f)
  unfolding ◌>>=◌
  bind-KeepsSpin {m} {f} km kf = record { at = λ e w. go e (m e w) ∙ km.at e w }
    where
      go :
          (e : Env) (x : Exit A × World)
          → (continue x.0 f e x.1).1.spin_mt_always_on ≡ x.1.spin_mt_always_on
      go e (ok a, w) = (kf a).at e w
      go e (abort, w) = refl
      go e (starved, w) = refl

module _ {A : Type 0} where
  pub if-KeepsSpin :
      (b : Bool) {m n : M A} → KeepsSpin m → KeepsSpin n → KeepsSpin (if b then m else n)
  if-KeepsSpin true km kn = km
  if-KeepsSpin false km kn = kn

  pub with_label-KeepsSpin : {m h : M A} → KeepsSpin m → KeepsSpin h → KeepsSpin (with_label m h)
  unfolding with_label
  with_label-KeepsSpin {m} {h} km kh = record { at = λ e w. go e (m e w) ∙ km.at e w }
    where
      go :
          (e : Env) (x : Exit A × World)
          → (recover x.0 h e x.1).1.spin_mt_always_on ≡ x.1.spin_mt_always_on
      go e (ok a, w) = refl
      go e (abort, w) = kh.at e w
      go e (starved, w) = refl

pub or_exit-KeepsSpin : (ret : Ret) → KeepsSpin (or_exit ret)
unfolding or_exit
or_exit-KeepsSpin success = pure-KeepsSpin tt
or_exit-KeepsSpin failure = goto_exit-KeepsSpin

pub ruleset spin_rules = (
  pure-KeepsSpin, starve-KeepsSpin, goto_exit-KeepsSpin, read-KeepsSpin, write-KeepsSpin,
  delay-KeepsSpin, send-KeepsSpin, set_running-KeepsSpin, bind-KeepsSpin, if-KeepsSpin,
  with_label-KeepsSpin, or_exit-KeepsSpin,
)

stop_requested-KeepsSpin : KeepsSpin stop_requested
unfolding stop_requested
stop_requested-KeepsSpin = search spin_rules

pt_check-KeepsSpin : (mt : Motor) → KeepsSpin (pt_check mt)
unfolding pt_check
pt_check-KeepsSpin mt = search spin_rules

pause_loop-KeepsSpin : (fuel : ℕ) → KeepsSpin (pause_loop fuel)
unfolding pause_loop
pause_loop-KeepsSpin zero = search spin_rules
pause_loop-KeepsSpin (suc fuel) = bind-KeepsSpin (read-KeepsSpin _) elim [
  | false ↦ pure-KeepsSpin _
  | true ↦ bind-KeepsSpin stop_requested-KeepsSpin elim [
    | true ↦ pure-KeepsSpin _
    | false ↦ bind-KeepsSpin (delay-KeepsSpin _) (λ _. pause_loop-KeepsSpin fuel)
  ]
]

round_stopped-KeepsSpin : (fuel : ℕ) → KeepsSpin (round_stopped fuel)
unfolding round_stopped
round_stopped-KeepsSpin fuel =
    search (spin_rules, stop_requested-KeepsSpin, pause_loop-KeepsSpin) depth 8

wait_round-KeepsSpin :
    (mt : Motor) (timeout : ℕ) (status : MotorStatus) (start : ℕ)
    → KeepsSpin (wait_round mt timeout status start)
unfolding wait_round
wait_round-KeepsSpin mt timeout status start =
    search (spin_rules, pt_check-KeepsSpin, having_looked-KeepsSpin) depth 8

wait_loop-KeepsSpin :
    (fuel : ℕ) (mt : Motor) (timeout : ℕ) (status : MotorStatus) (start : ℕ)
    → KeepsSpin (wait_loop fuel mt timeout status start)
unfolding wait_loop
wait_loop-KeepsSpin zero mt timeout status start = search spin_rules
wait_loop-KeepsSpin (suc fuel) mt timeout status start =
    bind-KeepsSpin (round_stopped-KeepsSpin fuel) λ stopped.
      if-KeepsSpin stopped (pure-KeepsSpin _) (
        bind-KeepsSpin (wait_round-KeepsSpin mt timeout status start) elim [
          | some ret ↦ pure-KeepsSpin _
          | none ↦ wait_loop-KeepsSpin fuel mt timeout status start
        ])

pub await-KeepsSpin :
    (fuel : ℕ) (mt : Motor) (timeout : ℕ) (status : MotorStatus)
    → KeepsSpin (await fuel mt timeout status)
unfolding await wait_motor_operation
await-KeepsSpin fuel mt timeout status = search (spin_rules, wait_loop-KeepsSpin) depth 8

tof_wait-KeepsSpin : (rounds : ℕ) → KeepsSpin (tof_wait rounds)
unfolding tof_wait
tof_wait-KeepsSpin zero = search spin_rules
tof_wait-KeepsSpin (suc rounds) = bind-KeepsSpin (read-KeepsSpin _) λ count.
    if-KeepsSpin _ (bind-KeepsSpin (delay-KeepsSpin _) (λ _. tof_wait-KeepsSpin rounds))
      (pure-KeepsSpin _)

pub check_tof_pause-KeepsSpin : (fuel : ℕ) → KeepsSpin (check_tof_pause fuel)
unfolding check_tof_pause get_fresh_tof_distance
check_tof_pause-KeepsSpin fuel =
    search (spin_rules, tof_wait-KeepsSpin, pause_loop-KeepsSpin) depth 20
