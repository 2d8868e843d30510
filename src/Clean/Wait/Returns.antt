-- ===== src/Clean/Wait/Returns.antt =====
-- The waits of main/motor.c come to an end while the clock runs and nothing pauses the cleaning.
use cat_litter_box.Common.{
  ℕ, zero, suc, ◌+◌, ◌-◌, ◌*◌, ◌/◌, ◌≤◌, ◌≡◌, ◌≢◌, refl, ◌∙◌, Bool, true, false, Option, none, some,
  arith, if◌then◌else◌, ◌∷◌,
}
use cat_litter_box.Motion.{Motor, MotorStatus}
use cat_litter_box.Clean.World.{
  Shared, Env, World, Exit, ok, abort, starved, M, pure, continue, ◌>>=◌, interfere, read, delay,
  having_looked, looked,
}
use cat_litter_box.Clean.Flags.{Position, stop_requested, pt_check}
use cat_litter_box.Clean.Wait.{
  Ret, failure, pause_loop, round_stopped, verdict, wait_round, wait_loop, wait_motor_operation,
}

-- The other tasks do not pause the cleaning, and the clock runs on during each delay.
pub record IsSteady (e : Env) : Type 0 where
  pub step_pause :
      (n : ℕ) (s : Shared) → s.clean_pause_flag ≡ false → (e.step n s).clean_pause_flag ≡ false
  pub step_clock : (n : ℕ) (s : Shared) → s.esp_timer_us ≤ (e.step n s).esp_timer_us
  pub delay_pause :
      (n ms : ℕ) (s : Shared)
      → s.clean_pause_flag ≡ false
      → (e.delay n ms s).clean_pause_flag ≡ false
  pub delay_clock :
      (n ms : ℕ) (s : Shared) → s.esp_timer_us + ms * 1000 ≤ (e.delay n ms s).esp_timer_us

-- Not paused, at `t` or later.
pub record Past (t : ℕ) (w : World) : Type 0 where
  pub paused : w.shared.clean_pause_flag ≡ false
  pub clock : t ≤ w.shared.esp_timer_us

abbrev pub Total : {A : Type 0} → (A → World → Type 0) → Exit A × World → Type 0
Total Q (ok a, w) = Q a w
Total Q (abort, w) = ⊥
Total Q (starved, w) = ⊥

module _ (e : Env) where
  -- Where `P` holds, the action gives a value, and then `Q` holds.
  pub record Gives {A : Type 0} (P : World → Type 0) (m : M A) (Q : A → World → Type 0)
      : Type 0 where
    pub at : (w : World) → P w → Total Q (m e w)

  module _ {A B : Type 0} where
    bind-Gives :
        {P : World → Type 0} {m : M A} {f : A → M B} {R : B → World → Type 0}
        (Q : A → World → Type 0)
        → Gives P m Q
        → ((a : A) → Gives (Q a) (f a) R)
        → Gives P (m >>= f) R
    unfolding ◌>>=◌
    bind-Gives {P} {m} {f} {R} Q km kf = record { at = λ w p. go (m e w) (km.at w p) }
      where
        go : (x : Exit A × World) → Total Q x → Total R (continue x.0 f e x.1)
        go (ok a, w') q = (kf a).at w' q
        go (abort, w') q = elim q [ ]
        go (starved, w') q = elim q [ ]

  module _ {A : Type 0} {P : World → Type 0} {Q : A → World → Type 0} where
    if-Gives : (b : Bool) {m n : M A} → Gives P m Q → Gives P n Q → Gives P (if b then m else n) Q
    if-Gives true km kn = km
    if-Gives false km kn = kn

    weaken-Gives :
        {m : M A} {R : A → World → Type 0}
        → ((a : A) (w : World) → Q a w → R a w)
        → Gives P m Q
        → Gives P m R
    weaken-Gives {m} {R} k km = record { at = λ w p. go (m e w) (km.at w p) }
      where
        go : (x : Exit A × World) → Total Q x → Total R x
        go (ok a, w') q = k a w' q
        go (abort, w') q = q
        go (starved, w') q = q

    pure-Gives : (a : A) → ((w : World) → P w → Q a w) → Gives P (pure a) Q
    unfolding pure
    pure-Gives a k = record { at = k }

    having_looked-Gives :
        (mt : Motor) (at : Position) (running : Bool) (a : A)
        → ((w : World) → P w → Q a (record w { events = looked mt at running ∷ w.events }))
        → Gives P (having_looked mt at running a) Q
    unfolding having_looked
    having_looked-Gives mt at running a k = record { at = k }

  module _ (steady : IsSteady e) where
    read-Gives :
        {A : Type 0} (t : ℕ) (f : Shared → A)
        → Gives (Past t) (read f) (λ a w. Past t w × (a ≡ f w.shared))
    unfolding read interfere
    read-Gives t f = record {
      at = λ w p. (
        record {
          paused = steady.step_pause w.ticks w.shared p.paused;
          clock = grind (arith, steady.step_clock w.ticks w.shared, p.clock);
        },
        refl,
      );
    }

    delay-Gives : (t ms : ℕ) → Gives (Past t) (delay ms) (λ _. Past (t + ms * 1000))
    unfolding delay
    delay-Gives t ms = record {
      at = λ w p. record {
        paused = steady.delay_pause w.ticks ms w.shared p.paused;
        clock = grind (arith, steady.delay_clock w.ticks ms w.shared, p.clock);
      };
    }

    forget_read : {A : Type 0} (t : ℕ) (f : Shared → A) → Gives (Past t) (read f) (λ _. Past t)
    forget_read t f = weaken-Gives (λ a w q. q.0) (read-Gives t f)

    stop_requested-Gives : (t : ℕ) → Gives (Past t) stop_requested (λ _. Past t)
    unfolding stop_requested
    stop_requested-Gives t =
        bind-Gives (λ _. Past t) (forget_read t _)
          λ stopped. if-Gives stopped (pure-Gives true λ w p. p) (forget_read t _)

    pause_loop-Gives : (t fuel : ℕ) → Gives (Past t) (pause_loop (suc fuel)) (λ _. Past t)
    unfolding pause_loop
    pause_loop-Gives t fuel =
        bind-Gives (λ paused w. Past t w × (paused ≡ false)) not_paused
          elim [ false ↦ pure-Gives false λ w p. p.0 | true ↦ record { at = λ w p. cc } ]
      where
        not_paused :
            Gives
              (Past t)
              (read (λ s. s.clean_pause_flag))
              (λ paused w. Past t w × (paused ≡ false))
        not_paused = weaken-Gives (λ a w q. (q.0, q.1 ∙ q.0.paused)) (read-Gives t _)

    round_stopped-Gives : (t fuel : ℕ) → Gives (Past t) (round_stopped (suc fuel)) (λ _. Past t)
    unfolding round_stopped
    round_stopped-Gives t fuel =
        bind-Gives (λ _. Past t) (stop_requested-Gives t)
          λ stopped. if-Gives stopped (pure-Gives true λ w p. p) (
            bind-Gives (λ _. Past t) (pause_loop-Gives t fuel)
              λ paused_out. if-Gives paused_out (pure-Gives true λ w p. p) (stop_requested-Gives t))

    -- A round that ends after the timeout has an answer.
    abbrev Answers : ℕ → ℕ → ℕ → Option Ret → World → Type 0
    Answers t start timeout found w =
        Past (t + 20000) w × (start + timeout * 1000 ≤ t + 20000 → found ≢ none)

    -- A later read keeps what is known of an earlier value.
    read_on :
        {A C : Type 0} (t : ℕ) (f : Shared → A)
        → Gives (λ w. Past t w × C) (read f) (λ _ w. Past t w × C)
    unfolding read interfere
    read_on t f = record { at = λ w p. (((read-Gives t f).at w p.0).0, p.1) }

    verdict_answers :
        (status : MotorStatus) (timeout : ℕ) (ret : Position) (start now : ℕ) (running : Bool)
        → start + timeout * 1000 ≤ now
        → verdict status timeout ret ((now - start) / 1000) running ≢ none
    unfolding verdict
    verdict_answers status timeout ret start now running le = λ e. ground arith

    read_clock :
        (t : ℕ) → Gives (Past t) (read (λ s. s.esp_timer_us)) (λ now w. Past t w × (t ≤ now))
    read_clock t = weaken-Gives (λ now w q. (q.0, rw q.1 q.0.clock)) (read-Gives t _)

    wait_round-Gives :
        (t : ℕ) (mt : Motor) (timeout : ℕ) (status : MotorStatus) (start : ℕ)
        → Gives (Past t) (wait_round mt timeout status start) (Answers t start timeout)
    unfolding wait_round pt_check
    wait_round-Gives t mt timeout status start =
        bind-Gives (λ _. Past (t + 20000)) (delay-Gives t 20)
          λ _.
            bind-Gives (λ _. Past (t + 20000)) (forget_read _ _)
              λ ret.
                bind-Gives (λ now w. Past (t + 20000) w × (t + 20000 ≤ now)) (read_clock _)
                  λ now.
                    bind-Gives (λ _ w. Past (t + 20000) w × (t + 20000 ≤ now))
                      (if-Gives _ (read_on _ _) (pure-Gives true λ w p. p))
                      λ running. having_looked-Gives mt ret running _ λ w p. (
                        record { paused = p.0.paused; clock = p.0.clock },
                        λ le. verdict_answers status timeout ret start now running (omega arith),
                      )

    wait_step :
        (n t : ℕ) (mt : Motor) (timeout : ℕ) (status : MotorStatus) (start : ℕ)
        → Gives
            (Answers t start timeout none)
            (wait_loop (suc n) mt timeout status start)
            (λ _ _. Unit)
        → Gives (Past t) (wait_loop (suc (suc n)) mt timeout status start) (λ _ _. Unit)
    unfolding wait_loop
    wait_step n t mt timeout status start again =
        bind-Gives (λ _. Past t) (round_stopped-Gives t n)
          λ stopped. if-Gives stopped (pure-Gives failure λ w p. tt) (
            bind-Gives (Answers t start timeout) (wait_round-Gives t mt timeout status start)
              elim [ some ret ↦ pure-Gives ret λ w p. tt | none ↦ again ])

    wait_loop-Gives :
        (n t : ℕ) (mt : Motor) (timeout : ℕ) (status : MotorStatus) (start : ℕ)
        → start + timeout * 1000 ≤ t + suc n * 20000
        → Gives (Past t) (wait_loop (suc (suc n)) mt timeout status start) (λ _ _. Unit)
    wait_loop-Gives zero t mt timeout status start le =
        wait_step zero t mt timeout status start
          (record { at = λ w p. absurd (p.1 (omega arith) refl) })
    wait_loop-Gives (suc n) t mt timeout status start le =
        let k = wait_loop-Gives n (t + 20000) mt timeout status start (omega arith) in
        wait_step (suc n) t mt timeout status start (record { at = λ w p. k.at w p.0 })

    wait_motor_operation-Gives :
        (n t : ℕ) (mt : Motor) (timeout : ℕ) (status : MotorStatus)
        → timeout ≤ suc n * 20
        → Gives (Past t) (wait_motor_operation (suc (suc n)) mt timeout status) (λ _ _. Unit)
    unfolding wait_motor_operation
    wait_motor_operation-Gives n t mt timeout status le =
        bind-Gives (λ _. Past (t + 150000)) (delay-Gives t 150)
          λ _.
            bind-Gives (λ start. Past start)
              (weaken-Gives
                (λ start w q. record { paused = q.0.paused; clock = rw q.1 (omega arith) })
                (read-Gives _ _))
              λ start. wait_loop-Gives n start mt timeout status start (omega arith)

a_result : {A : Type 0} (x : Exit A × World) → Total (λ _ _. Unit) x → (a : A) × (x.0 ≡ ok a)
a_result (ok a, w) q = (a, refl)
a_result (abort, w) q = elim q [ ]
a_result (starved, w) q = elim q [ ]

-- While the other tasks do not pause the cleaning and the clock runs on during each delay,
-- `wait_motor_operation` returns, 0 or -1, by the time it has gone round often enough for its timeout:
-- rounds take 20 ms at least.
pub wait_motor_operation-returns :
    (e : Env) (w : World) (n : ℕ) (mt : Motor) (timeout : ℕ) (status : MotorStatus)
    → IsSteady e
    → w.shared.clean_pause_flag ≡ false
    → timeout ≤ suc n * 20
    → (ret : Ret) × ((wait_motor_operation (suc (suc n)) mt timeout status e w).0 ≡ ok ret)
wait_motor_operation-returns e w n mt timeout status steady paused le =
    a_result (wait_motor_operation (suc (suc n)) mt timeout status e w) (
      (wait_motor_operation-Gives e steady n 0 mt timeout status le).at w
        (record { paused = paused; clock = omega arith }))
