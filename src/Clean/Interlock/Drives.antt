-- ===== src/Clean/Interlock/Drives.antt =====
-- `wait_motor_operation` of main/motor.c from posture to posture: what it sees of a motor can end its
-- drive.
use cat_litter_box.Common.{
  ℕ, zero, suc, Bool, true, false, not, ◌||◌, Option, none, some, List, ◌∷◌, ◌≡◌, ap, ◌∙◌, leb,
  Bool-cases, inl, inr,
}
use cat_litter_box.Motion.{Motor, MotorStatus, Position}
use cat_litter_box.Clean.World.{
  Event, looked, Env, World, Exit, ok, abort, starved, M, continue, ◌>>=◌, pure, starve,
  having_looked,
}
use cat_litter_box.Clean.Wait.{
  Ret, success, failure, or_exit, position_matches, verdict, wait_round, wait_loop,
  wait_motor_operation, await,
}
use cat_litter_box.Clean.Interlock.{Posture, after}
use cat_litter_box.Clean.Interlock.Rules.{
  At, Ends, Runs, Quiet-Runs, goto_exit-Runs, Quiet, read-Quiet, pure-Quiet, delay-Quiet, Quiet-if,
}
use cat_litter_box.Clean.Interlock.Waits.{pt_check-Quiet, round_stopped-Quiet}

-- After an action that starts in posture `p`, with what is known of each result.
pub record Gives {A : Type 0} (p : Posture) (m : M A) (Q : A → List Event → Type 0) : Type 0 where
  pub at : (e : Env) (w : World) → At p w.events → Ends Q (m e w)

module _ {A B : Type 0} where
  Gives-bind :
      {p : Posture} {m : M A} (f : A → M B) {Q : A → List Event → Type 0}
      {R : B → List Event → Type 0}
      → Gives p m Q
      → ((a : A) (e : Env) (w : World) → Q a w.events → Ends R (f a e w))
      → Gives p (m >>= f) R
  unfolding ◌>>=◌
  Gives-bind {m = m} f {Q} {R} km kf = record { at = λ e w h. go e (m e w) (km.at e w h) }
    where
      go : (e : Env) (x : Exit A × World) → Ends Q x → Ends R (continue x.0 f e x.1)
      go e (ok a, w) h = kf a e w h
      go e (abort, w) h = h
      go e (starved, w) h = h

  Gives-Quiet :
      {p : Posture} {m : M A} {f : A → M B} {R : B → List Event → Type 0}
      → Quiet m
      → ((a : A) → Gives p (f a) R)
      → Gives p (m >>= f) R
  Gives-Quiet {p} {m} {f} km kf =
      Gives-bind f {Q = λ a. At p} (record { at = (km.at p).at }) (λ a. (kf a).at)

-- A look of a wait for `status` at `mt` takes the posture from `p` to `q` if it ends the wait, and
-- else leaves it.
pub record Leads (mt : Motor) (status : MotorStatus) (p q : Posture) : Type 0 where
  pub leads :
      (at : Position) (running : Bool)
      → (position_matches at status || not running) ≡ true
      → after (looked mt at running) p ≡ q
  pub stays :
      (at : Position) (running : Bool)
      → (position_matches at status || not running) ≡ false
      → after (looked mt at running) p ≡ p

-- The posture of a wait that has given 0, and of one that has not.
abbrev pub Found : Posture → Posture → Ret → List Event → Type 0
Found p q success = At q
Found p q failure = At p

abbrev FoundYet : Posture → Posture → Option Ret → List Event → Type 0
FoundYet p q none = At p
FoundYet p q (some ret) = Found p q ret

module _ {mt : Motor} {status : MotorStatus} {p q : Posture} (l : Leads mt status p q) where
  verdict-FoundYet :
      (timeout elapsed_ms : ℕ) (at : Position) (running : Bool) (events : List Event)
      → At p events
      → FoundYet p q (verdict status timeout at elapsed_ms running) (looked mt at running ∷ events)
  unfolding verdict
  verdict-FoundYet timeout elapsed_ms at running events h =
      elim (Bool-cases (position_matches at status || not running)) [
        | inl y ↦ rw y ((tt, h.0), ap (after (looked mt at running)) h.1 ∙ l.leads at running y)
        | inr n ↦
            let stays = ap (after (looked mt at running)) h.1 ∙ l.stays at running n in
            elim (Bool-cases (leb timeout elapsed_ms)) [
              | inl late ↦ rw (n, late) ((tt, h.0), stays)
              | inr early ↦ rw (n, early) ((tt, h.0), stays)
            ]
      ]

  having_looked-Gives :
      (timeout elapsed_ms : ℕ) (at : Position) (running : Bool)
      → Gives p
          (having_looked mt at running (verdict status timeout at elapsed_ms running))
          (FoundYet p q)
  unfolding having_looked
  having_looked-Gives timeout elapsed_ms at running = record {
    at = λ e w h. verdict-FoundYet timeout elapsed_ms at running w.events h;
  }

  wait_round-Gives :
      (timeout start : ℕ) → Gives p (wait_round mt timeout status start) (FoundYet p q)
  unfolding wait_round
  wait_round-Gives timeout start = Gives-Quiet (delay-Quiet _) λ _.
      Gives-Quiet (pt_check-Quiet _) λ ret. Gives-Quiet (read-Quiet _) λ now.
        Gives-Quiet (Quiet-if _ (read-Quiet _) (pure-Quiet _))
          λ running. having_looked-Gives timeout _ ret running

  pure-Found :
      (ret : Ret) (e : Env) (w : World) → Found p q ret w.events → Ends (Found p q) (pure ret e w)
  unfolding pure
  pure-Found ret e w h = h

  failure-Gives : Gives p (pure failure) (Found p q)
  failure-Gives = record { at = λ e w h. pure-Found failure e w h }

  wait_loop-Gives :
      (fuel timeout start : ℕ) → Gives p (wait_loop fuel mt timeout status start) (Found p q)
  unfolding wait_loop starve
  wait_loop-Gives zero timeout start = record { at = λ e w h. h.0 }
  wait_loop-Gives (suc fuel) timeout start =
      let again = wait_loop-Gives fuel timeout start in
      Gives-Quiet (round_stopped-Quiet fuel) elim [
        | true ↦ failure-Gives
        | false ↦
            Gives-bind _ (wait_round-Gives timeout start)
              elim [ some ret ↦ λ e w h. pure-Found ret e w h | none ↦ λ e w h. again.at e w h ]
      ]

  pub wait_motor_operation-Gives :
      (fuel timeout : ℕ) → Gives p (wait_motor_operation fuel mt timeout status) (Found p q)
  unfolding wait_motor_operation
  wait_motor_operation-Gives fuel timeout =
      Gives-Quiet (delay-Quiet _)
        λ _. Gives-Quiet (read-Quiet _) λ start. wait_loop-Gives fuel timeout start

  -- A wait, with what follows 0 and what follows -1.
  pub Runs-wait :
      {B : Type 0} {r : Posture} (fuel timeout : ℕ) (f : Ret → M B)
      → Runs q (f success) r
      → Runs p (f failure) r
      → Runs p (wait_motor_operation fuel mt timeout status >>= f) r
  Runs-wait fuel timeout f good bad =
      let k =
        Gives-bind f (wait_motor_operation-Gives fuel timeout)
          elim [ success ↦ good.at | failure ↦ bad.at ] in
      record { at = k.at }

  pub await_lem : (fuel timeout : ℕ) → Runs p (await fuel mt timeout status) q
  unfolding await or_exit
  await_lem fuel timeout = Runs-wait fuel timeout _ (Quiet-Runs (pure-Quiet tt)) (goto_exit-Runs q)
