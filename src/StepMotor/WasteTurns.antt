-- ===== src/StepMotor/WasteTurns.antt =====
-- How long the waste cover's motor of main/step_motor_control.c turns, and when it is stopped.
use cat_litter_box.Common.{
  ℕ, zero, suc, ◌+◌, ◌-◌, ◌*◌, ◌%◌, ◌<◌, ◌≡◌, ◌⊎◌, refl, sym, ap, subst, ◌∙◌, Bool, true, false,
  Option, arith, if◌then◌else◌, leb, ◌&&◌,
}
use cat_litter_box.Common.Int.{pos, leb_ℤ, ◌-ℤ◌}
use cat_litter_box.Motion.{MtMessage, waste_cover_motor, step_motor}
use cat_litter_box.Clean.Flags.{Position, at_close, at_open, pt_check_status}
use cat_litter_box.StepMotor.{
  Waste, waste_motor_stop, waste_tick, waste_motor_move, waste_message, waste_auto_stop,
  waste_round,
}

-- The driver is enabled and its timer runs exactly while the motor runs, with steps left to do, and
-- the phase is a row of the table.
pub record IsTrue (w : Waste) : Type 0 where
  pub enabled : w.en ≡ w.run
  pub timed : w.timer ≡ w.run
  pub phase : w.phase < 4
  pub pending : w.run ≡ true → leb_ℤ w.steps (pos 0) ≡ false

waste_message-IsTrue :
    (msg : Option MtMessage) (w : Waste) → IsTrue w → IsTrue (waste_message msg w)
unfolding waste_message waste_motor_move waste_motor_stop
waste_message-IsTrue msg w v = ground arith

waste_auto_stop-IsTrue : (at : Position) (w : Waste) → IsTrue w → IsTrue (waste_auto_stop at w)
unfolding waste_auto_stop waste_motor_stop
waste_auto_stop-IsTrue at w v = ground arith

-- The timer's callback and a round of the motor's task both keep this: the driver is enabled and
-- the timer runs exactly while the motor runs, a running motor has steps left, and the phase stays
-- a row of the table.
pub waste-IsTrue :
    (msg : Option MtMessage) (pt : ℕ) (w : Waste)
    → IsTrue w
    → IsTrue (waste_tick w) × IsTrue (waste_round msg pt w)
unfolding waste_tick waste_round
waste-IsTrue msg pt w v = (ground arith, waste_auto_stop-IsTrue _ _ (waste_message-IsTrue msg w v))

-- After a round the cover's motor does not run against the limit sensor that the round saw.
pub waste_round-not_pressing :
    (msg : Option MtMessage) (pt : ℕ) (w : Waste)
    → (waste_round msg pt w).run ≡ true
    → ¬ (
        ((waste_round msg pt w).dir ≡ true)
          × (pt_check_status (step_motor waste_cover_motor) pt ≡ at_open)
        ⊎ ((waste_round msg pt w).dir ≡ false)
          × (pt_check_status (step_motor waste_cover_motor) pt ≡ at_close))
unfolding waste_round waste_auto_stop waste_motor_stop
waste_round-not_pressing msg pt w r h = ground arith

-- k timer periods
unfoldable pub ticks : ℕ → Waste → Waste
ticks zero w = w
ticks (suc k) w = ticks k (waste_tick w)

-- The motor with `n` steps left, and with none.
abbrev pub IsTurning : ℕ → Bool → Waste → Type 0
IsTurning n dir w = (w.run ≡ true) × (w.steps ≡ pos n) × (w.dir ≡ dir) × (w.phase < 4)

tick_on :
    (n : ℕ) (dir : Bool) (w : Waste)
    → IsTurning (suc (suc n)) dir w
    → IsTurning (suc n) dir (waste_tick w)
      × ((waste_tick w).phase ≡ (if dir then (w.phase + 1) % 4 else (w.phase + 3) % 4))
unfolding waste_tick ◌-ℤ◌
tick_on n dir w h = ground arith

-- The rows of the table that `k` steps go forwards or backwards.
abbrev pub rows : Bool → ℕ → ℕ
rows true k = k
rows false k = 3 * k

ticks_on :
    (k m : ℕ) (dir : Bool) (w : Waste)
    → IsTurning (k + suc m) dir w
    → IsTurning (suc m) dir (ticks k w) × ((ticks k w).phase ≡ (w.phase + rows dir k) % 4)
unfolding ticks
ticks_on zero m dir w h = ground arith
ticks_on (suc k) m dir w h = ground (arith, tick_on (k + m) dir w, ticks_on k m dir (waste_tick w))

IsIdle : Waste → Type 0
IsIdle w = (w.run ≡ false) × (w.en ≡ false) × (w.timer ≡ false) × (w.steps ≡ pos 0)

ticks_idle : (k : ℕ) (w : Waste) → IsIdle w → ticks k w ≡ w
unfolding ticks waste_tick IsIdle
ticks_idle zero w h = refl
ticks_idle (suc k) w h = ground (arith, ticks_idle k w h)

ticks-add : (j k : ℕ) (w : Waste) → ticks (j + k) w ≡ ticks k (ticks j w)
unfolding ticks
ticks-add zero k w = let e : 0 + k ≡ k = omega arith in ap (λ n. ticks n w) e
ticks-add (suc j) k w =
    let e : suc j + k ≡ suc (j + k) = omega arith in
    ap (λ n. ticks n w) e ∙ ticks-add j k (waste_tick w)

tick_last : (dir : Bool) (w : Waste) → IsTurning 1 dir w → IsIdle (waste_tick w)
unfolding waste_tick ◌-ℤ◌ IsIdle
tick_last dir w h = ground arith

turned-IsIdle :
    (n j : ℕ) (dir : Bool) (w : Waste) → IsTurning (suc n) dir w → IsIdle (ticks (n + suc j) w)
unfolding ticks
turned-IsIdle n j dir w h =
    let idle = tick_last dir (ticks n w) (ticks_on n 0 dir w (ground arith)).0 in
    rw (ticks-add n (suc j) w) (rw (ticks_idle j (waste_tick (ticks n w)) idle) idle)

move-IsTurning :
    (n : ℕ) (dir : Bool) (w : Waste)
    → IsTurning (suc n) dir (waste_motor_move (pos (suc n)) dir w)
      × ((waste_motor_move (pos (suc n)) dir w).phase ≡ 0)
unfolding waste_motor_move
move-IsTurning n dir w = ground arith

-- The two inputs of the driver on a row: in1 is high on the rows 0 and 1, in2 on the rows 1 and 2,
-- so that one of them changes from each row to the next.
abbrev pub IsPhase : ℕ → Waste → Type 0
IsPhase row w = (w.in1 ≡ leb row 1) × (w.in2 ≡ (leb 1 row && leb row 2))

tick_phase :
    (n : ℕ) (dir : Bool) (w : Waste) → IsTurning (suc n) dir w → IsPhase w.phase (waste_tick w)
unfolding waste_tick
tick_phase n dir w h = ground arith

ticks_phase :
    (k m : ℕ) (dir : Bool) (w : Waste)
    → IsTurning (k + suc m) dir w
    → IsPhase ((w.phase + rows dir k) % 4) (ticks (suc k) w)
unfolding ticks
ticks_phase k m dir w h =
    let (on, at) = ticks_on k m dir w h in
    let e : suc k ≡ k + 1 = omega arith in
    rw (e, ticks-add k 1 w)
      (subst (λ row. IsPhase row (waste_tick (ticks k w))) at (tick_phase m dir (ticks k w) on))

-- `waste_motor_move` by n + 1 steps turns the motor for just so many timer periods. After k periods,
-- k at most n, it runs in its direction, and the next period puts the driver's two inputs on the row
-- that k rows forwards or backwards lead to: in1 is high on the rows 0 and 1, in2 on 1 and 2. After
-- more than n periods it does not run, with the driver off, the timer stopped and no step left.
pub waste_motor_move-turns :
    (n k : ℕ) (dir : Bool) (w : Waste)
    → let w' = ticks k (waste_motor_move (pos (suc n)) dir w) in
      (k < suc n
        → (w'.run ≡ true)
          × (w'.dir ≡ dir)
          × IsPhase (rows dir k % 4) (ticks (suc k) (waste_motor_move (pos (suc n)) dir w)))
      × (n < k → (w'.run ≡ false) × (w'.en ≡ false) × (w'.timer ≡ false) × (w'.steps ≡ pos 0))
unfolding IsIdle
waste_motor_move-turns n k dir w = (
  λ h.
      let (on, zeroth) = move-IsTurning n dir w in
      let started = waste_motor_move (pos (suc n)) dir w in
      let e : suc n ≡ k + suc (n - k) = omega arith in
      let on' : IsTurning (k + suc (n - k)) dir started =
        subst (λ m. IsTurning m dir started) e on in
      let row : (started.phase + rows dir k) % 4 ≡ rows dir k % 4 = rw zeroth (omega arith) in
      let turning = (ticks_on k (n - k) dir started on').0 in
      (
        turning.0,
        turning.2,
        subst (λ r. IsPhase r (ticks (suc k) started)) row (ticks_phase k (n - k) dir started on'),
      ),
  λ h.
      let e : k ≡ n + suc (k - n - 1) = omega arith in
      subst (λ i. IsIdle (ticks i (waste_motor_move (pos (suc n)) dir w))) (sym e)
        (turned-IsIdle n (k - n - 1) dir _ (move-IsTurning n dir w).0),
)
